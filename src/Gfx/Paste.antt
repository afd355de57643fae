-- ===== src/Gfx/Paste.antt =====
-- wasm/src/session.rs: what the bitmap cache saves of a surface and restores to one, pixel by pixel.
use wasm_rdp.Prelude.{
  ℕ, ◌+◌, ◌-◌, ◌*◌, ◌≤◌, ◌<◌, ◌≡◌, refl, ap, ◌∙◌, min, Bool, true, false, ◌&&◌, ◌||◌, List, [], ◌∷◌,
  Option, length-replicate, get_elem?, replicate, leb, ltb, ◌==◌, if◌then◌else◌, Bool-cases, inl,
  inr, and_then, Returns, returns, Returns-and_then, Returns-if, arith,
}
use wasm_rdp.Gfx.{cut, paste_points}
use wasm_rdp.Gfx.Frame.{Sized}
use wasm_rdp.Gfx.Bytes.{Returns-map, place}
use wasm_rdp.Gfx.Copy.{copy_rows-Copied}

-- Whether a copy of `w` by `h` pixels to `(dx, dy)` covers a pixel.
abbrev at_point : ℕ → ℕ → ℕ → ℕ → ℕ → ℕ → Bool
at_point w h dx dy px py = (leb dy py && ltb py (dy + h)) && (leb dx px && ltb px (dx + w))

-- `w` by `h` pixels put at some points, one after the other: what a pixel shows that showed `old`.
unfoldable pub shown : ℕ → ℕ → (ℕ → ℕ → Option ℕ) → List (ℕ × ℕ) → ℕ → ℕ → Option ℕ → Option ℕ
shown w h saved [] px py old = old
shown w h saved ((dx, dy) ∷ ps) px py old =
    shown w h saved ps px py (if at_point w h dx dy px py then saved (px - dx) (py - dy) else old)

-- The bytes of `w` by `h` pixels are those at `(x, y)` of a surface.
record Saved (sw x y w h : ℕ) (fb pixels : List ℕ) : Type 0 where
  pub saved_size : Sized (w * h * 4) pixels
  pub saved_pixels :
      (px py c : ℕ)
      → px < w
      → py < h
      → c < 4
      → get_elem? pixels (place w px py c) ≡ get_elem? fb (place sw (x + px) (y + py) c)

cut-Saved :
    (sw sh x y w h : ℕ) (fb : List ℕ)
    → x + w ≤ sw
    → y + h ≤ sh
    → Sized (sw * sh * 4) fb
    → Returns (Saved sw x y w h fb) (cut sw x y w h fb)
unfolding cut
cut-Saved sw sh x y w h fb right below size =
    Returns-map
      (copy_rows-Copied sw w h x y 0 0 w fb (replicate (w * h * 4) 0) sh h
        (λ row. ((y + row) * sw + x) * 4) (λ row. row * w * 4) (λ row. omega arith)
        (λ row. target row) (omega arith) (omega arith) right below size
        (length-replicate (w * h * 4) 0))
      λ out p. record {
        saved_size = p.sized;
        saved_pixels = λ px py c a b d.
            p.pixels px py c a b d ∙ rw (everywhere px py a b, minus_zero px, minus_zero py);
      }
  where
    target : (row : ℕ) → row * w * 4 ≡ place w 0 (0 + row) 0
    target row = let same : 0 + row ≡ row = omega arith in rw same (omega arith)

    everywhere :
        (px py : ℕ)
        → px < w
        → py < h
        → ((leb 0 py && ltb py (0 + h)) && (leb 0 px && ltb px (0 + w))) ≡ true
    everywhere px py a b = ground arith

    minus_zero : (k : ℕ) → k - 0 ≡ k
    minus_zero k = omega arith

module _ (sw sh cw ch : ℕ) (pixels : List ℕ) (whole : Sized (cw * ch * 4) pixels) where
  record Pasted (ps : List (ℕ × ℕ)) (fb out : List ℕ) : Type 0 where
    pub pasted_size : Sized (sw * sh * 4) out
    pub pasted_pixels :
        (px py c : ℕ)
        → px < sw
        → py < sh
        → c < 4
        → get_elem? out (place sw px py c)
          ≡ shown cw ch
              (λ x y. get_elem? pixels (place cw x y c))
              ps
              px
              py
              (get_elem? fb (place sw px py c))

  clipped :
      (dx dy px py : ℕ)
      → px < sw
      → py < sh
      → at_point (min cw (sw - dx)) (min ch (sh - dy)) dx dy px py ≡ at_point cw ch dx dy px py
  clipped dx dy px py a b = ground arith

  outside :
      (dx dy px py : ℕ)
      → px < sw
      → py < sh
      → (min cw (sw - dx) == 0 || min ch (sh - dy) == 0) ≡ true
      → false ≡ at_point cw ch dx dy px py
  outside dx dy px py a b e = ground arith

  nonzero : (a b : ℕ) → (a == 0 || b == 0) ≡ false → (0 < a) × (0 < b)
  nonzero a b e = ground arith

  paste_points-Pasted :
      (ps : List (ℕ × ℕ)) (fb : List ℕ)
      → Sized (sw * sh * 4) fb
      → Returns (λ out. Pasted ps fb (out.0)) (paste_points sw sh cw ch pixels ps fb)
  unfolding paste_points shown
  paste_points-Pasted [] fb size =
      returns (record { pasted_size = size; pasted_pixels = λ px py c _ _ _. refl })
  paste_points-Pasted ((dx, dy) ∷ ps) fb size =
      let w = min cw (sw - dx) in
      let h = min ch (sh - dy) in
      Returns-if (w == 0 || h == 0)
        (λ empty. Returns-map (paste_points-Pasted ps fb size) λ out p. record {
          pasted_size = p.pasted_size;
          pasted_pixels =
              λ px py c a b d. rw (← outside dx dy px py a b empty) (p.pasted_pixels px py c a b d);
        })
        λ some_pixels.
          let (columns, rows) = nonzero w h some_pixels in
          Returns-and_then
            (copy_rows-Copied cw sw sh 0 0 dx dy w pixels fb ch h (λ row. row * cw * 4)
              (λ row. ((dy + row) * sw + dx) * 4) (λ row. source row) (λ row. omega arith)
              (omega arith) (omega arith) (omega arith) (omega arith) whole size)
            λ middle p. Returns-and_then (paste_points-Pasted ps middle (p.sized)) λ rest q.
              returns (record {
                pasted_size = q.pasted_size;
                pasted_pixels = λ px py c a b d.
                    q.pasted_pixels px py c a b d
                    ∙ ap
                        (λ old. shown cw ch (λ x y. get_elem? pixels (place cw x y c)) ps px py old)
                        (p.pixels px py c a b d
                          ∙ rw (clipped dx dy px py a b, zero_plus (px - dx), zero_plus (py - dy)));
              })
    where
      zero_plus : (k : ℕ) → 0 + k ≡ k
      zero_plus k = omega arith

      source : (row : ℕ) → row * cw * 4 ≡ place cw 0 (0 + row) 0
      source row = let same : 0 + row ≡ row = omega arith in rw same (omega arith)

-- Only the pixels within `w` by `h` are shown.
shown_cong :
    (w h : ℕ) (f g : ℕ → ℕ → Option ℕ) (ps : List (ℕ × ℕ)) (px py : ℕ) (old : Option ℕ)
    → ((i j : ℕ) → i < w → j < h → f i j ≡ g i j)
    → shown w h f ps px py old ≡ shown w h g ps px py old
unfolding shown
shown_cong w h f g [] px py old same = refl
shown_cong w h f g ((dx, dy) ∷ ps) px py old same = elim (Bool-cases (at_point w h dx dy px py)) [
  | inl here ↦
      let (column, row) = offsets here in
      rw (here, same (px - dx) (py - dy) column row)
        (shown_cong w h f g ps px py (g (px - dx) (py - dy)) same)
  | inr there ↦ rw there (shown_cong w h f g ps px py old same)
]
  where
    offsets : at_point w h dx dy px py ≡ true → (px - dx < w) × (py - dy < h)
    offsets e = ground arith

-- A framebuffer of `tw` by `th` pixels that had the bytes `fb'` and has, at the points, the `w` by `h`
-- pixels of another at `(x, y)`.
pub record Restored (sw x y w h tw th : ℕ) (ps : List (ℕ × ℕ)) (fb fb' out : List ℕ) : Type 0 where
  pub restored_size : Sized (tw * th * 4) out
  pub restored_pixels :
      (px py c : ℕ)
      → px < tw
      → py < th
      → c < 4
      → get_elem? out (place tw px py c)
        ≡ shown w h
            (λ i j. get_elem? fb (place sw (x + i) (y + j) c))
            ps
            px
            py
            (get_elem? fb' (place tw px py c))

-- Pixels of a rectangle within a surface that are saved and then restored at any points of any surface,
-- within it or not: no access is out of range, and each pixel of the target shows the pixel that the last
-- point that covers it brings, from its place in the rectangle, and is as it was where none covers it.
pub paste_points-cut :
    (sw sh x y w h tw th : ℕ) (ps : List (ℕ × ℕ)) (fb fb' : List ℕ)
    → x + w ≤ sw
    → y + h ≤ sh
    → Sized (sw * sh * 4) fb
    → Sized (tw * th * 4) fb'
    → Returns
        (λ out. Restored sw x y w h tw th ps fb fb' (out.0))
        (and_then (cut sw x y w h fb) λ pixels. paste_points tw th w h pixels ps fb')
paste_points-cut sw sh x y w h tw th ps fb fb' right below size size' =
    Returns-and_then (cut-Saved sw sh x y w h fb right below size) λ pixels s.
      Returns-map (paste_points-Pasted tw th w h pixels (s.saved_size) ps fb' size') λ out p.
        record {
          restored_size = p.pasted_size;
          restored_pixels = λ px py c a b d.
              p.pasted_pixels px py c a b d
              ∙ shown_cong w h _ _ ps px py (get_elem? fb' (place tw px py c))
                  λ i j k l. s.saved_pixels i j c k l d;
        }
