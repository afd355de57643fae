-- ===== src/Canvas/Draw.antt =====
-- wasm/src/canvas.rs: `draw`, pixel by pixel.
use wasm_rdp.Prelude.{
  ℕ, ◌+◌, ◌-◌, ◌*◌, ◌≤◌, ◌<◌, ◌≡◌, refl, ◌∙◌, min, max, Bool, true, false, ◌&&◌, ◌||◌, List, Option,
  none, some, length, get_elem?, leb, ltb, if◌then◌else◌, Bool-cases, inl, inr, Returns, returns,
  Returns-if, returned, arith,
}
use wasm_rdp.Gfx.{Rectangle}
use wasm_rdp.Gfx.Bytes.{Returns-map, place}
use wasm_rdp.Canvas.{Canvas, Put, Page, Drawn, pred32, draw_part, draw}
use wasm_rdp.Canvas.Part.{Part, Works, draw_part-PutPart}

-- The byte that was put at a pixel of the canvas.
unfoldable pub shown_byte : Option Put → ℕ → ℕ → ℕ → Option ℕ
shown_byte none x y k = none
shown_byte (some p) x y k =
    if (leb (p.at_x) x && ltb x (p.at_x + p.put_width))
      && (leb (p.at_y) y && ltb y (p.at_y + p.put_height))
    then get_elem? (p.pixels) (place (p.put_width) (x - p.at_x) (y - p.at_y) k)
    else none

-- A region's pixels, its edges among them.
abbrev pub in_region : Rectangle → ℕ → ℕ → Bool
in_region r px py = (leb (r.left) px && leb px (r.right)) && (leb (r.top) py && leb py (r.bottom))

abbrev pub in_canvas : Canvas → ℕ → ℕ → Bool
in_canvas c px py =
    (leb (c.origin_x) px && ltb px (c.origin_x + c.width))
    && (leb (c.origin_y) py && ltb py (c.origin_y + c.height))

-- The drawing succeeded, and of the desktop's pixels the canvas was given those of the region.
pub record Shows (iw : ℕ) (src : List ℕ) (region : Rectangle) (c : Canvas) (r : Drawn)
    : Type 0 where
  pub drawn : r.0 ≡ true
  pub given :
      (px py k : ℕ)
      → c.origin_x ≤ px
      → c.origin_y ≤ py
      → k < 4
      → shown_byte ((r.1).0) (px - c.origin_x) (py - c.origin_y) k ≡ (
          if in_region region px py && in_canvas c px py
          then get_elem? src (place iw px py k)
          else none)

pub pred32_pos : (o w : ℕ) → 0 < w → pred32 (o + w) ≡ o + w - 1
pred32_pos o w h = ground arith

-- One direction of the clipping.
axis :
    (l r o w p : ℕ)
    → 0 < w
    → o ≤ p
    → max l o ≤ min r (o + w - 1)
    → (leb (max l o - o) (p - o) && ltb (p - o) (max l o - o + (min r (o + w - 1) - max l o + 1)))
      ≡ ((leb l p && leb p r) && (leb o p && ltb p (o + w)))
axis l r o w p a b c = ground arith

regroup : (a b c d : Bool) → ((a && b) && (c && d)) ≡ ((a && c) && (b && d))
regroup a b c d = ground arith

apart :
    (l r o w p : ℕ)
    → 0 < w
    → o ≤ p
    → ltb (min r (o + w - 1)) (max l o) ≡ true
    → ((leb l p && leb p r) && (leb o p && ltb p (o + w))) ≡ false
apart l r o w p a b c = ground arith

either_false :
    (a b c d : Bool)
    → (c || d) ≡ true
    → (c ≡ true → a ≡ false)
    → (d ≡ true → b ≡ false)
    → false ≡ (a && b)
either_false a b true d e f g = rw (f refl)
either_false true b false true e f g = rw (g refl)
either_false false b false true e f g = refl
either_false a b false false e f g = absurd (ground arith)

ordered : (a b c d : ℕ) → (ltb a b || ltb c d) ≡ false → (b ≤ a) × (d ≤ c)
ordered a b c d e = ground arith

pixel_inside :
    (l r o w t b u h px py : ℕ)
    → (((leb l px && leb px r) && (leb t py && leb py b))
        && ((leb o px && ltb px (o + w)) && (leb u py && ltb py (u + h))))
      ≡ true
    → ((l ≤ px) × ((px ≤ r) × (px < o + w))) × ((t ≤ py) × ((py ≤ b) × (py < u + h)))
pixel_inside l r o w t b u h px py e = ground arith

-- A pixel of the desktop within the part that was put.
from_left :
    (l r o w p : ℕ)
    → o ≤ p
    → (l ≤ p) × ((p ≤ r) × (p < o + w))
    → (p - o - (max l o - o) < min r (o + w - 1) - max l o + 1)
      × ((max l o ≤ p) × (p - o - (max l o - o) ≡ p - max l o))
from_left l r o w p h (a, (b, c)) = (omega arith, (omega arith, omega arith))

-- As `Shows`, where a pixel of the desktop stands at a place of the framebuffer.
pub record ShowsAt (column row : ℕ → ℕ) (iw : ℕ) (src : List ℕ) (region : Rectangle) (c : Canvas)
    (r : Drawn) : Type 0 where
  pub drawn : r.0 ≡ true
  pub given :
      (px py k : ℕ)
      → c.origin_x ≤ px
      → c.origin_y ≤ py
      → k < 4
      → shown_byte ((r.1).0) (px - c.origin_x) (py - c.origin_y) k ≡ (
          if in_region region px py && in_canvas c px py
          then get_elem? src (place iw (column px) (row py) k)
          else none)

-- A region drawn from the place `(x', y')` of a framebuffer.
module _ (page : Page) (iw ih : ℕ) (src : List ℕ) (region : Rectangle) (c : Canvas) (x' y' : ℕ)
    (column row : ℕ → ℕ) (works : Works page) (size : length src ≡ iw * ih * 4) (wide : 0 < c.width)
    (high : 0 < c.height) where
  abbrev x0 : ℕ
  x0 = max (region.left) (c.origin_x)

  abbrev y0 : ℕ
  y0 = max (region.top) (c.origin_y)

  abbrev x1 : ℕ
  x1 = min (region.right) (c.origin_x + c.width - 1)

  abbrev y1 : ℕ
  y1 = min (region.bottom) (c.origin_y + c.height - 1)

  Part-byte :
      (px py k : ℕ)
      → c.origin_x ≤ px
      → c.origin_y ≤ py
      → k < 4
      → ((p : ℕ) → x0 ≤ p → x' + (p - x0) ≡ column p)
      → ((p : ℕ) → y0 ≤ p → y' + (p - y0) ≡ row p)
      → (bytes : List ℕ) → Part iw x' y' (x1 - x0 + 1) (y1 - y0 + 1) src bytes
      → (if in_region region px py && in_canvas c px py
          then get_elem? bytes (
              place
                (x1 - x0 + 1)
                (px - c.origin_x - (x0 - c.origin_x))
                (py - c.origin_y - (y0 - c.origin_y))
                k)
          else none)
        ≡ (if in_region region px py && in_canvas c px py
            then get_elem? src (place iw (column px) (row py) k)
            else none)
  Part-byte px py k a b d at_column at_row bytes p =
      elim (Bool-cases (in_region region px py && in_canvas c px py)) [
        | inr out ↦ rw out
        | inl within ↦
            let (across, down) =
              pixel_inside (region.left) (region.right) (c.origin_x) (c.width) (region.top)
                (region.bottom) (c.origin_y) (c.height) px py within in
            let (near, (right_of, is_column)) =
              from_left (region.left) (region.right) (c.origin_x) (c.width) px a across in
            let (low, (below, is_row)) =
              from_left (region.top) (region.bottom) (c.origin_y) (c.height) py b down in
            rw within (
              p.part_pixels _ _ k near low d
              ∙ rw (is_column, is_row, at_column px right_of, at_row py below))
      ]

  blank : (ltb x1 x0 || ltb y1 y0) ≡ true → ShowsAt column row iw src region c (true, (none, c))
  unfolding shown_byte
  blank empty = record {
    drawn = refl;
    given = λ px py k a b _.
        let outside : false ≡ in_region region px py && in_canvas c px py =
          either_false _ _ (ltb x1 x0) (ltb y1 y0) empty
            (λ e. apart (region.left) (region.right) (c.origin_x) (c.width) px wide a e)
            (λ e. apart (region.top) (region.bottom) (c.origin_y) (c.height) py high b e)
          ∙ regroup (leb (region.left) px && leb px (region.right))
              (leb (c.origin_x) px && ltb px (c.origin_x + c.width))
              (leb (region.top) py && leb py (region.bottom))
              (leb (c.origin_y) py && ltb py (c.origin_y + c.height)) in
        rw (← outside);
  }

  pub clip-ShowsAt :
      ((p : ℕ) → x0 ≤ p → x' + (p - x0) ≡ column p)
      → ((p : ℕ) → y0 ≤ p → y' + (p - y0) ≡ row p)
      → (x0 ≤ x1 → x' + (x1 - x0 + 1) ≤ iw)
      → (y0 ≤ y1 → y' + (y1 - y0 + 1) ≤ ih)
      → Returns (ShowsAt column row iw src region c) (
          if ltb x1 x0 || ltb y1 y0
          then returned (true, (none, c))
          else draw_part page iw src x' y'
              (x1 - x0 + 1)
              (y1 - y0 + 1)
              (x0 - c.origin_x)
              (y0 - c.origin_y)
              c)
  unfolding shown_byte
  clip-ShowsAt at_column at_row right below =
      Returns-if (ltb x1 x0 || ltb y1 y0) (λ empty. returns (blank empty))
        λ some_pixels.
          let (columns, rows) = ordered x1 x0 y1 y0 some_pixels in
          Returns-map
            (draw_part-PutPart page iw ih x' y' (x1 - x0 + 1) (y1 - y0 + 1) (x0 - c.origin_x)
              (y0 - c.origin_y) src c works size (right columns) (below rows) (omega arith)
              (omega arith))
            λ r p. record {
              drawn = p.done;
              given = λ px py k a b d.
                  let both : _ =
                    regroup (leb (region.left) px && leb px (region.right))
                      (leb (c.origin_x) px && ltb px (c.origin_x + c.width))
                      (leb (region.top) py && leb py (region.bottom))
                      (leb (c.origin_y) py && ltb py (c.origin_y + c.height)) in
                  rw
                    (
                      p.was_put,
                      axis (region.left) (region.right) (c.origin_x) (c.width) px wide a columns,
                      axis (region.top) (region.bottom) (c.origin_y) (c.height) py high b rows,
                      both,
                    )
                    (Part-byte px py k a b d at_column at_row (p.bytes) (p.part));
            }

-- A region drawn on a canvas that stands within a framebuffer: it succeeds, nothing is out of range on
-- either path, and at each of its pixels the canvas is given the framebuffer's bytes of that pixel of the
-- desktop if the pixel is in the region and on the canvas, else nothing. The canvas is not empty, the
-- framebuffer has all its bytes, and the page creates images of the right size and puts them.
pub draw-Shows :
    (page : Page) (iw ih : ℕ) (src : List ℕ) (region : Rectangle) (c : Canvas)
    → Works page
    → length src ≡ iw * ih * 4
    → 0 < c.width
    → 0 < c.height
    → c.origin_x + c.width ≤ iw
    → c.origin_y + c.height ≤ ih
    → Returns (Shows iw src region c) (draw page iw src region c)
unfolding draw
draw-Shows page iw ih src region c works size wide high right below =
    rw (pred32_pos (c.origin_x) (c.width) wide, pred32_pos (c.origin_y) (c.height) high)
      (Returns-map
        (clip-ShowsAt page iw ih src region c (max (region.left) (c.origin_x))
          (max (region.top) (c.origin_y)) (λ p. p) (λ p. p) works size wide high
          (λ p h. omega arith) (λ p h. omega arith) (λ h. omega arith) (λ h. omega arith))
        λ r p. record { drawn = p.drawn; given = p.given })
