-- ===== src/Gfx.antt =====
-- wasm/src/session.rs, the handler of the graphics pipeline (EGFX): its surfaces, the bitmap
-- cache, and the operations that paint. A framebuffer is its bytes, four for a pixel; an access
-- out of range panics. The monitors' canvases are an interface. `Frame` is about the sizes of
-- framebuffers, `Bytes` about reading behind a write, `Fill` about what a fill paints, `Copy`
-- and `Paste` about what the copies write, `Codecs` has the decoded images, `Frames`, `CodecFrames` and `Commands` are about the invariant, `Annexb`
-- about H.264.
pub mod Frame
pub mod Handler
pub mod Frames
pub mod Codecs
pub mod CodecFrames
pub mod Commands
pub mod Annexb
pub mod Bytes
pub mod Fill
pub mod Copy
pub mod Paste
mod Tests
use wasm_rdp.Prelude.{
  ℕ, zero, suc, ◌+◌, ◌-◌, ◌*◌, ◌≤◌, ◌^◌, min, Bool, true, false, List, [], ◌∷◌, ◌++◌, length, take,
  drop, leb, ltb, ◌==◌, ◌||◌, Option, none, some, replicate, if◌then◌else◌, Outcome, returned,
  panicked, and_then, for_range,
}

-- `xs[off..off + n]`
unfoldable pub read_slice : ℕ → ℕ → List ℕ → Outcome (List ℕ)
read_slice off n xs =
    if leb (off + n) (length xs) then returned (take n (drop off xs)) else panicked

-- `xs[off..off + n].copy_from_slice(part)` for a part of `n` bytes
unfoldable pub write_slice : ℕ → List ℕ → List ℕ → Outcome (List ℕ)
write_slice off part xs =
    if leb (off + length part) (length xs)
    then returned (take off xs ++ (part ++ drop (off + length part) xs))
    else panicked

-- `for row in 0..h { dst[d..d + n].copy_from_slice(&src[s..s + n]); }`
unfoldable pub copy_rows : ℕ → ℕ → List ℕ → (ℕ → ℕ) → (ℕ → ℕ) → List ℕ → Outcome (List ℕ)
copy_rows h n src source target dst =
    for_range h 0
      (λ row out.
        and_then (read_slice (source row) n src) λ part. write_slice (target row) part out)
      dst

-- `for y in y0..y1 { for x in x0..x1 { fb[off..off + 4].copy_from_slice(&rgba); } }`
unfoldable pub fill_rect : ℕ → ℕ → ℕ → ℕ → ℕ → List ℕ → List ℕ → Outcome (List ℕ)
fill_rect sw x0 y0 x1 y1 rgba fb =
    for_range (y1 - y0) y0 (λ y. for_range (x1 - x0) x0 λ x. write_slice (y * sw * 4 + x * 4) rgba)
      fb

pub record GfxSurface : Type 0 where
  pub fb : List ℕ
  pub width : ℕ
  pub height : ℕ
  pub origin_x : ℕ
  pub origin_y : ℕ
  pub mapped : Bool

pub record CacheSlot : Type 0 where
  pub slot_width : ℕ
  pub slot_height : ℕ
  pub pixels : List ℕ

-- The edges of a rectangle, inclusive or not by its use.
pub record Rectangle : Type 0 where
  pub left : ℕ
  pub top : ℕ
  pub right : ℕ
  pub bottom : ℕ

-- A map by number.
module _ {ℓ} {A : Type ℓ} where
  unfoldable pub get : ℕ → List (ℕ × A) → Option A
  get id [] = none
  get id ((k, a) ∷ rest) = if k == id then some a else get id rest

  unfoldable pub delete : ℕ → List (ℕ × A) → List (ℕ × A)
  delete id [] = []
  delete id ((k, a) ∷ rest) =
      let others = delete id rest in if k == id then others else (k, a) ∷ others

  unfoldable pub put : ℕ → A → List (ℕ × A) → List (ℕ × A)
  unfolding delete
  put id a m = (id, a) ∷ delete id m

-- The rectangles of a fill, clipped to the surface: the framebuffer, and the parts that were painted.
unfoldable pub fill_rects :
    ℕ → ℕ → List ℕ → List Rectangle → List ℕ → Outcome (List ℕ × List Rectangle)
fill_rects sw sh rgba [] fb = returned (fb, [])
fill_rects sw sh rgba (r ∷ rs) fb =
    let x0 = min (r.left) sw in
    let y0 = min (r.top) sh in
    let x1 = min (r.right) sw in
    let y1 = min (r.bottom) sh in
    let skip = fill_rects sw sh rgba rs fb in
    let filled = and_then (fill_rect sw x0 y0 x1 y1 rgba fb) λ out.
      and_then (fill_rects sw sh rgba rs out) λ rest.
        returned
          (rest.0, record { left = x0; top = y0; right = x1 - 1; bottom = y1 - 1 } ∷ rest.1) in
    if leb x1 x0 || leb y1 y0 then skip else filled

-- The destination points of a copy of `cw` by `ch` pixels, each clipped to the surface.
unfoldable pub paste_points :
    ℕ → ℕ → ℕ → ℕ → List ℕ → List (ℕ × ℕ) → List ℕ → Outcome (List ℕ × List Rectangle)
paste_points sw sh cw ch pixels [] fb = returned (fb, [])
paste_points sw sh cw ch pixels ((dx, dy) ∷ ps) fb =
    let w = min cw (sw - dx) in
    let h = min ch (sh - dy) in
    let skip = paste_points sw sh cw ch pixels ps fb in
    let pasted =
      and_then
        (copy_rows h (w * 4) pixels (λ row. row * cw * 4) (λ row. ((dy + row) * sw + dx) * 4) fb)
        λ out. and_then (paste_points sw sh cw ch pixels ps out) λ rest. returned (
          rest.0,
          record { left = dx; top = dy; right = dx + w - 1; bottom = dy + h - 1 } ∷ rest.1,
        ) in
    if w == 0 || h == 0 then skip else pasted

-- The pixels of a rectangle of a surface that contains it.
unfoldable pub cut : ℕ → ℕ → ℕ → ℕ → ℕ → List ℕ → Outcome (List ℕ)
cut sw x y w h fb =
    copy_rows h (w * 4) fb (λ row. ((y + row) * sw + x) * 4) (λ row. row * w * 4)
      (replicate (w * h * 4) 0)
