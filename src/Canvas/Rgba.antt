-- ===== src/Canvas/Rgba.antt =====
-- wasm/src/canvas.rs: `draw_rgba`, pixel by pixel.
use wasm_rdp.Prelude.{ℕ, ◌+◌, ◌-◌, ◌*◌, ◌<◌, ◌≡◌, min, max, List, length, Returns, arith}
use wasm_rdp.Gfx.{Rectangle}
use wasm_rdp.Canvas.{Canvas, Page, draw_rgba}
use wasm_rdp.Canvas.Part.{Works}
use wasm_rdp.Canvas.Draw.{ShowsAt, pred32_pos, clip-ShowsAt}

-- The pixels of a region that a framebuffer at `(ox, oy)` has.
abbrev pub within : ℕ → ℕ → ℕ → ℕ → Rectangle → Rectangle
within sw sh ox oy region = record {
  left = max (region.left) ox;
  top = max (region.top) oy;
  right = min (region.right) (ox + sw - 1);
  bottom = min (region.bottom) (oy + sh - 1);
}

swap_max : (a b c : ℕ) → max (max a b) c ≡ max (max a c) b
swap_max a b c = omega arith

swap_min : (a b c : ℕ) → min (min a b) c ≡ min (min a c) b
swap_min a b c = omega arith

-- A region of a raw framebuffer, which stands anywhere on the desktop, drawn on a canvas anywhere: it
-- succeeds, nothing is out of range on either path, and at each of its pixels the canvas is given the
-- framebuffer's bytes of that pixel of the desktop if the pixel is in the region, the framebuffer and the
-- canvas, else nothing. Neither is empty, the framebuffer has all its bytes, and the page creates images
-- of the right size and puts them.
pub draw_rgba-ShowsAt :
    (page : Page) (src : List ℕ) (sw sh ox oy : ℕ) (region : Rectangle) (c : Canvas)
    → Works page
    → length src ≡ sw * sh * 4
    → 0 < sw
    → 0 < sh
    → 0 < c.width
    → 0 < c.height
    → Returns
        (ShowsAt (λ p. p - ox) (λ p. p - oy) sw src (within sw sh ox oy region) c)
        (draw_rgba page src sw sh ox oy region c)
unfolding draw_rgba
draw_rgba-ShowsAt page src sw sh ox oy region c works size some_columns some_rows wide high =
    rw
      (
        pred32_pos (c.origin_x) (c.width) wide,
        pred32_pos (c.origin_y) (c.height) high,
        pred32_pos ox sw some_columns,
        pred32_pos oy sh some_rows,
        swap_max (region.left) (c.origin_x) ox,
        swap_max (region.top) (c.origin_y) oy,
        swap_min (region.right) (c.origin_x + c.width - 1) (ox + sw - 1),
        swap_min (region.bottom) (c.origin_y + c.height - 1) (oy + sh - 1),
      )
      (clip-ShowsAt page sw sh src (within sw sh ox oy region) c
        (max (max (region.left) ox) (c.origin_x) - ox) (max (max (region.top) oy) (c.origin_y) - oy)
        (λ p. p - ox) (λ p. p - oy) works size wide high (λ p h. omega arith) (λ p h. omega arith)
        (λ h. omega arith) (λ h. omega arith))
