-- ===== src/Gfx/Fill.antt =====
-- wasm/src/session.rs: what a solid fill paints, pixel by pixel.
use wasm_rdp.Prelude.{
  ℕ, ◌+◌, ◌-◌, ◌*◌, ◌≤◌, ◌<◌, ◌≡◌, refl, ◌∙◌, min, Bool, true, false, ◌&&◌, ◌||◌, List, [], ◌∷◌,
  ◌++◌, length, length-append, length-take, length-drop, get_elem?, take, drop, leb, ltb, le→leb,
  ◌==◌, if◌then◌else◌, Bool-cases, inl, inr, for_range, Returns, returns, Returns-and_then,
  Returns-if, arith,
}
use wasm_rdp.Gfx.{write_slice, fill_rect, fill_rects, Rectangle}
use wasm_rdp.Gfx.Frame.{Sized, pixel_in_frame}
use wasm_rdp.Gfx.Bytes.{for_between, Returns-map, get_written, place, both_equal, in_written}

module _ (sw sh : ℕ) (rgba : List ℕ) (four : length rgba ≡ 4) where
  -- `out` is `fb` with the pixels that pass the test painted.
  pub record Painted (test : ℕ → ℕ → Bool) (fb out : List ℕ) : Type 0 where
    pub sized : Sized (sw * sh * 4) out
    pub pixels :
        (px py c : ℕ)
        → px < sw
        → py < sh
        → c < 4
        → get_elem? out (place sw px py c)
          ≡ (if test px py then get_elem? rgba c else get_elem? fb (place sw px py c))

  retest :
      (t u : ℕ → ℕ → Bool) (fb out : List ℕ)
      → ((px py : ℕ) → px < sw → py < sh → t px py ≡ u px py)
      → Painted t fb out
      → Painted u fb out
  retest t u fb out same p = record {
    sized = p.sized;
    pixels = λ px py c a b d. rw (← same px py a b) (p.pixels px py c a b d);
  }

  write-Painted :
      (t : ℕ → ℕ → Bool) (x y : ℕ) (fb out : List ℕ)
      → x < sw
      → y < sh
      → Painted t fb out
      → Returns
          (Painted (λ px py. t px py || (py == y && px == x)) fb)
          (write_slice (y * sw * 4 + x * 4) rgba out)
  unfolding write_slice
  write-Painted t x y fb out h k p =
      let off = place sw x y 0 in
      let start : y * sw * 4 + x * 4 ≡ off = omega arith in
      let fits : off + length rgba ≤ length out =
        omega (arith, four, p.sized, pixel_in_frame sw sh x y k h) in
      rw (start, le→leb (off + length rgba) (length out) fits)
        (returns (record {
          sized = omega (
            arith,
            p.sized,
            length-append (take off out) (rgba ++ drop (off + length rgba) out),
            length-append rgba (drop (off + length rgba) out),
            length-take off out,
            length-drop (off + length rgba) out,
          );
          pixels = λ px py c a b d.
              get_written off rgba out (place sw px py c) fits
              ∙ rw (four, in_written sw x y px py c a h d) (one px py c a b d);
        }))
    where
      painted_here : (b : Bool) → true ≡ b || true
      painted_here true = refl
      painted_here false = refl

      as_it_was : (b : Bool) → b ≡ b || false
      as_it_was true = refl
      as_it_was false = refl

      one :
          (px py c : ℕ)
          → px < sw
          → py < sh
          → c < 4
          → (if py == y && px == x
              then get_elem? rgba (place sw px py c - place sw x y 0)
              else get_elem? out (place sw px py c))
            ≡ (if t px py || (py == y && px == x)
                then get_elem? rgba c
                else get_elem? fb (place sw px py c))
      one px py c a b d = elim (Bool-cases (py == y && px == x)) [
        | inl here ↦
            let (row, column) = both_equal py y px x here in
            let inner : place sw px py c - place sw x y 0 ≡ c = rw (row, column) (omega arith) in
            rw (here, inner, ← painted_here (t px py))
        | inr there ↦ rw (there, ← as_it_was (t px py)) (p.pixels px py c a b d)
      ]

  abbrev between : ℕ → ℕ → ℕ → Bool
  between a b k = leb a k && ltb k b

  first_column : (t r : Bool) (x0 px : ℕ) → t ≡ t || (r && between x0 x0 px)
  first_column t r x0 px = ground arith

  next_column :
      (t r : Bool) (x0 x px : ℕ)
      → x0 ≤ x
      → ((t || (r && between x0 x px)) || (r && px == x)) ≡ (t || (r && between x0 (x + 1) px))
  next_column t r x0 x px h = ground arith

  first_row : (c : Bool) (y0 py : ℕ) → false ≡ (between y0 y0 py && c)
  first_row c y0 py = ground arith

  next_row :
      (c : Bool) (y0 y py : ℕ)
      → y0 ≤ y
      → ((between y0 y py && c) || (py == y && c)) ≡ (between y0 (y + 1) py && c)
  next_row c y0 y py h = ground arith

  row-Painted :
      (t : ℕ → ℕ → Bool) (x0 x1 y : ℕ) (fb out : List ℕ)
      → x0 ≤ x1
      → x1 ≤ sw
      → y < sh
      → Painted t fb out
      → Returns
          (Painted (λ px py. t px py || (py == y && between x0 x1 px)) fb)
          (for_range (x1 - x0) x0 (λ x. write_slice (y * sw * 4 + x * 4) rgba) out)
  row-Painted t x0 x1 y fb out some_columns inside below p =
      for_between (λ x. Painted (λ px py. t px py || (py == y && between x0 x px)) fb) x0 x1 _ out
        some_columns
        (λ x s from upto q.
          Returns-map
            (write-Painted (λ px py. t px py || (py == y && between x0 x px)) x y fb s (omega arith)
              below q)
            λ out.
              retest _ (λ px py. t px py || (py == y && between x0 (x + 1) px)) fb out
                λ px py _ _. next_column (t px py) (py == y) x0 x px from)
        (retest t (λ px py. t px py || (py == y && between x0 x0 px)) fb out
          (λ px py _ _. first_column (t px py) (py == y) x0 px) p)

  rect-Painted :
      (x0 y0 x1 y1 : ℕ) (fb : List ℕ)
      → x0 ≤ x1
      → x1 ≤ sw
      → y0 ≤ y1
      → y1 ≤ sh
      → Sized (sw * sh * 4) fb
      → Returns
          (Painted (λ px py. between y0 y1 py && between x0 x1 px) fb)
          (fill_rect sw x0 y0 x1 y1 rgba fb)
  unfolding fill_rect
  rect-Painted x0 y0 x1 y1 fb some_columns right some_rows bottom size =
      for_between (λ y. Painted (λ px py. between y0 y py && between x0 x1 px) fb) y0 y1 _ fb
        some_rows
        (λ y s from upto q.
          Returns-map
            (row-Painted (λ px py. between y0 y py && between x0 x1 px) x0 x1 y fb s some_columns
              right (omega arith) q)
            λ out.
              retest _ (λ px py. between y0 (y + 1) py && between x0 x1 px) fb out
                λ px py _ _. next_row (between x0 x1 px) y0 y py from)
        (retest (λ px py. false) (λ px py. between y0 y0 py && between x0 x1 px) fb fb
          (λ px py _ _. first_row (between x0 x1 px) y0 py)
          (record { sized = size; pixels = λ px py c _ _ _. refl }))

  -- A rectangle's pixels: its right and bottom edges are outside.
  abbrev pub covers : Rectangle → ℕ → ℕ → Bool
  covers r px py = (leb (r.left) px && ltb px (r.right)) && (leb (r.top) py && ltb py (r.bottom))

  unfoldable pub any_covers : List Rectangle → ℕ → ℕ → Bool
  any_covers [] px py = false
  any_covers (r ∷ rs) px py = covers r px py || any_covers rs px py

  clipped :
      (l t r b px py : ℕ)
      → px < sw
      → py < sh
      → (between (min t sh) (min b sh) py && between (min l sw) (min r sw) px)
        ≡ ((leb l px && ltb px r) && (leb t py && ltb py b))
  clipped l t r b px py h k = ground arith

  nothing_covered :
      (l t r b px py : ℕ)
      → px < sw
      → py < sh
      → (leb (min r sw) (min l sw) || leb (min b sh) (min t sh)) ≡ true
      → false ≡ ((leb l px && ltb px r) && (leb t py && ltb py b))
  nothing_covered l t r b px py h k e = ground arith

  nonempty : (l t r b : ℕ) → (leb r l || leb b t) ≡ false → (l ≤ r) × (t ≤ b)
  nonempty l t r b e = ground arith

  choose :
      {A : Type 0} (a b : Bool) (x z : A)
      → (if b then x else (if a then x else z)) ≡ (if a || b then x else z)
  choose true true x z = refl
  choose true false x z = refl
  choose false b x z = refl

  -- Two fills after each other.
  both-Painted :
      (t u : ℕ → ℕ → Bool) (fb middle out : List ℕ)
      → Painted t fb middle
      → Painted u middle out
      → Painted (λ px py. t px py || u px py) fb out
  both-Painted t u fb middle out p q = record {
    sized = q.sized;
    pixels = λ px py c a b d.
        q.pixels px py c a b d
        ∙ rw (p.pixels px py c a b d)
            (choose (t px py) (u px py) (get_elem? rgba c) (get_elem? fb (place sw px py c)));
  }

  -- A solid fill with any rectangles, within the surface or not, overlapping or not, gives the colour to
  -- exactly the pixels of the surface that a rectangle covers, and leaves every other pixel as it was; no
  -- access is out of range.
  pub fill_rects-Painted :
      (rs : List Rectangle) (fb : List ℕ)
      → Sized (sw * sh * 4) fb
      → Returns (λ out. Painted (any_covers rs) fb (out.0)) (fill_rects sw sh rgba rs fb)
  unfolding fill_rects any_covers
  fill_rects-Painted [] fb size = returns (record { sized = size; pixels = λ px py c _ _ _. refl })
  fill_rects-Painted (r ∷ rs) fb size =
      let x0 = min (r.left) sw in
      let y0 = min (r.top) sh in
      let x1 = min (r.right) sw in
      let y1 = min (r.bottom) sh in
      Returns-if (leb x1 x0 || leb y1 y0)
        (λ empty. Returns-map (fill_rects-Painted rs fb size) λ out p.
          both-Painted (covers r) (any_covers rs) fb fb (out.0)
            (retest (λ px py. false) (covers r) fb fb
              (λ px py a b. nothing_covered (r.left) (r.top) (r.right) (r.bottom) px py a b empty)
              (record { sized = size; pixels = λ px py c _ _ _. refl }))
            p)
        λ some_pixels.
          let (columns, rows) = nonempty x0 y0 x1 y1 some_pixels in
          Returns-and_then
            (rect-Painted x0 y0 x1 y1 fb columns (omega arith) rows (omega arith) size)
            λ middle p. Returns-and_then (fill_rects-Painted rs middle (p.sized)) λ rest q.
              returns (
                both-Painted (covers r) (any_covers rs) fb middle (rest.0)
                  (retest _ (covers r) fb middle
                    (λ px py a b. clipped (r.left) (r.top) (r.right) (r.bottom) px py a b) p)
                  q)
