-- ===== src/Gfx/Copy.antt =====
-- wasm/src/session.rs: what the copies between framebuffers and cache slots write, pixel by pixel.
use wasm_rdp.Prelude.{
  ℕ, zero, suc, ◌+◌, ◌-◌, ◌*◌, ◌≤◌, ◌<◌, ◌≡◌, refl, ap, ◌∙◌, Bool, true, false, ◌&&◌, List, [], ◌∷◌,
  ◌++◌, length, length-append, length-take, length-drop, get_elem?, take, drop, leb, ltb, le→leb,
  ◌==◌, ==_refl, if◌then◌else◌, Bool-cases, inl, inr, and_then, Returns, returns, arith,
}
use wasm_rdp.Gfx.{read_slice, write_slice, copy_rows}
use wasm_rdp.Gfx.Frame.{Sized, in_frame}
use wasm_rdp.Gfx.Bytes.{for_between, get_written, place}

pub get_taken :
    (s n k : ℕ) (xs : List ℕ) → k < n → get_elem? (take n (drop s xs)) k ≡ get_elem? xs (s + k)
get_taken zero n k xs h = rw (zero_plus k) (front n k xs h)
  where
    zero_plus : (k : ℕ) → 0 + k ≡ k
    zero_plus k = omega arith

    front : (n k : ℕ) (xs : List ℕ) → k < n → get_elem? (take n xs) k ≡ get_elem? xs k
    front zero k xs h = absurd (omega arith)
    front (suc n) k [] h = refl
    front (suc n) zero (x ∷ xs) h = refl
    front (suc n) (suc k) (x ∷ xs) h = front n k xs (omega arith)
get_taken (suc s) n k [] h = nothing n k
  where
    nothing : (n k : ℕ) → get_elem? {A = ℕ} (take n []) k ≡ get_elem? {A = ℕ} [] (suc s + k)
    nothing zero k = refl
    nothing (suc n) k = refl
get_taken (suc s) n k (x ∷ xs) h = get_taken s n k xs h ∙ ap (λ i. get_elem? (x ∷ xs) i) (shift s k)
  where
    shift : (s k : ℕ) → suc (s + k) ≡ suc s + k
    shift s k = omega arith

quads :
    (a b n c : ℕ)
    → c < 4
    → (leb (b * 4 + 0) (a * 4 + c) && ltb (a * 4 + c) (b * 4 + 0 + n * 4))
      ≡ (leb b a && ltb a (b + n))
quads a b n c h = ground arith

other_row :
    (w x y n px py : ℕ)
    → px < w
    → x + n ≤ w
    → y * w + x ≤ py * w + px
    → py * w + px < y * w + x + n
    → py ≡ y
other_row w x y n px py h k l r = grind arith

within_row :
    (m x n px : ℕ)
    → (leb (m + x) (m + px) && ltb (m + px) (m + x + n)) ≡ (leb x px && ltb px (x + n))
within_row m x n px = ground arith

bounds : (a b d : ℕ) → (leb a b && ltb b d) ≡ true → (a ≤ b) × (b < d)
bounds a b d h = ground arith

row_test :
    (w x y n px py : ℕ)
    → px < w
    → x + n ≤ w
    → (leb (y * w + x) (py * w + px) && ltb (py * w + px) (y * w + x + n))
      ≡ (py == y && (leb x px && ltb px (x + n)))
row_test w x y n px py h k = elim (Bool-cases (py == y)) [
  | inl e ↦ let row : py ≡ y = ground arith in rw (row, ==_refl y) (within_row (y * w) x n px)
  | inr e ↦ elim (Bool-cases (leb (y * w + x) (py * w + px) && ltb (py * w + px) (y * w + x + n))) [
    | inr outside ↦ rw (outside, e)
    | inl inside ↦
        let (low, high) = bounds (y * w + x) (py * w + px) (y * w + x + n) inside in
        absurd (differ (other_row w x y n px py h k low high) e)
  ]
]
  where
    differ : py ≡ y → (py == y) ≡ false → ⊥
    differ r e = ground arith

-- The pixels of `n` columns of a row are its bytes in one range.
row_range :
    (w x y n px py c : ℕ)
    → px < w
    → x + n ≤ w
    → c < 4
    → (leb (place w x y 0) (place w px py c) && ltb (place w px py c) (place w x y 0 + n * 4))
      ≡ (py == y && (leb x px && ltb px (x + n)))
row_range w x y n px py c h k small =
    quads (py * w + px) (y * w + x) n c small ∙ row_test w x y n px py h k

module _ (cw dw dh sx sy dx dy w : ℕ) (src dst : List ℕ) where
  -- The first `n` rows of a copy of `w` columns from `(sx, sy)` to `(dx, dy)`.
  pub record Copied (n : ℕ) (out : List ℕ) : Type 0 where
    pub sized : Sized (dw * dh * 4) out
    pub pixels :
        (px py c : ℕ)
        → px < dw
        → py < dh
        → c < 4
        → get_elem? out (place dw px py c) ≡ (
            if (leb dy py && ltb py (dy + n)) && (leb dx px && ltb px (dx + w))
            then get_elem? src (place cw (sx + (px - dx)) (sy + (py - dy)) c)
            else get_elem? dst (place dw px py c))

  pub no_rows : (c : Bool) (py : ℕ) → false ≡ ((leb dy py && ltb py (dy + 0)) && c)
  no_rows c py = ground arith

  next_row :
      (c : Bool) (n py : ℕ)
      → (py == dy + n && c) ≡ false
      → ((leb dy py && ltb py (dy + n)) && c) ≡ ((leb dy py && ltb py (dy + (n + 1))) && c)
  next_row c n py h = ground arith

  last_row :
      (n px py : ℕ)
      → (py == dy + n && (leb dx px && ltb px (dx + w))) ≡ true
      → true ≡ ((leb dy py && ltb py (dy + (n + 1))) && (leb dx px && ltb px (dx + w)))
  last_row n px py h = ground arith

  row_and_column :
      (n px py : ℕ)
      → (py == dy + n && (leb dx px && ltb px (dx + w))) ≡ true
      → (py ≡ dy + n) × ((dx ≤ px) × (px < dx + w))
  row_and_column n px py h = ground arith

  write_row-Copied :
      (n : ℕ) (part out : List ℕ)
      → dx + w ≤ dw
      → dy + n < dh
      → part ≡ take (w * 4) (drop (place cw sx (sy + n) 0) src)
      → length part ≡ w * 4
      → Copied n out
      → Returns (Copied (n + 1)) (write_slice (place dw dx (dy + n) 0) part out)
  unfolding write_slice
  write_row-Copied n part out right below e len p =
      let off = place dw dx (dy + n) 0 in
      let fits : off + length part ≤ length out =
        omega (arith, len, p.sized, in_frame dw dh dx (dy + n) w below right) in
      rw (le→leb (off + length part) (length out) fits) (
        returns (record {
          sized = omega (
            arith,
            p.sized,
            length-append (take off out) (part ++ drop (off + length part) out),
            length-append part (drop (off + length part) out),
            length-take off out,
            length-drop (off + length part) out,
          );
          pixels = λ px py c a b d.
              get_written off part out (place dw px py c) fits
              ∙ rw (len, row_range dw dx (dy + n) w px py c a right d) (one px py c a b d);
        }))
    where
      in_source :
          (px py c : ℕ)
          → py ≡ dy + n
          → (k : ℕ) → k ≡ (px - dx) * 4 + c
          → place cw sx (sy + n) 0 + k ≡ place cw (sx + (px - dx)) (sy + (py - dy)) c
      in_source px py c row k offset =
          let same : sy + (py - dy) ≡ sy + n = omega arith in rw same (omega arith)

      one :
          (px py c : ℕ)
          → px < dw
          → py < dh
          → c < 4
          → (if py == dy + n && (leb dx px && ltb px (dx + w))
              then get_elem? part (place dw px py c - place dw dx (dy + n) 0)
              else get_elem? out (place dw px py c))
            ≡ (if (leb dy py && ltb py (dy + (n + 1))) && (leb dx px && ltb px (dx + w))
                then get_elem? src (place cw (sx + (px - dx)) (sy + (py - dy)) c)
                else get_elem? dst (place dw px py c))
      one px py c a b d = elim (Bool-cases (py == dy + n && (leb dx px && ltb px (dx + w)))) [
        | inr other ↦
            rw (other, ← next_row (leb dx px && ltb px (dx + w)) n py other)
              (p.pixels px py c a b d)
        | inl here ↦
            let (row, (left, inside)) = row_and_column n px py here in
            let k = place dw px py c - place dw dx (dy + n) 0 in
            let offset : k ≡ (px - dx) * 4 + c = rw row (omega arith) in
            let source : place cw sx (sy + n) 0 + k ≡ place cw (sx + (px - dx)) (sy + (py - dy)) c =
              in_source px py c row k offset in
            rw (here, ← last_row n px py here, e)
              (get_taken (place cw sx (sy + n) 0) (w * 4) k src (rw offset (omega arith))
                ∙ ap (λ i. get_elem? src i) source)
      ]

  pub copy_row-Copied :
      (ch n : ℕ) (from to : ℕ) (out : List ℕ)
      → from ≡ place cw sx (sy + n) 0
      → to ≡ place dw dx (dy + n) 0
      → dx + w ≤ dw
      → dy + n < dh
      → sx + w ≤ cw
      → sy + n < ch
      → length src ≡ cw * ch * 4
      → Copied n out
      → Returns
          (Copied (n + 1))
          (and_then (read_slice from (w * 4) src) λ part. write_slice to part out)
  unfolding read_slice
  copy_row-Copied ch n from to out e e' right below right' below' size p =
      let off = place cw sx (sy + n) 0 in
      let fits : off + w * 4 ≤ length src =
        omega (arith, size, in_frame cw ch sx (sy + n) w below' right') in
      rw (e, e', le→leb (off + w * 4) (length src) fits)
        (write_row-Copied n (take (w * 4) (drop off src)) out right below refl
          (omega (arith, length-take (w * 4) (drop off src), length-drop off src)) p)

  pub copy_rows-Copied :
      (ch h : ℕ) (source target : ℕ → ℕ)
      → ((row : ℕ) → source row ≡ place cw sx (sy + row) 0)
      → ((row : ℕ) → target row ≡ place dw dx (dy + row) 0)
      → dx + w ≤ dw
      → dy + h ≤ dh
      → sx + w ≤ cw
      → sy + h ≤ ch
      → length src ≡ cw * ch * 4
      → Sized (dw * dh * 4) dst
      → Returns (Copied h) (copy_rows h (w * 4) src source target dst)
  unfolding copy_rows
  copy_rows-Copied ch h source target e e' right below right' below' size size' =
      rw (minus_zero h) at (
        for_between Copied 0 h
          (λ row out.
            and_then (read_slice (source row) (w * 4) src)
              λ part. write_slice (target row) part out)
          dst (omega arith)
          (λ row out _ k p.
            copy_row-Copied ch row (source row) (target row) out (e row) (e' row) right
              (omega arith) right' (omega arith) size p)
          (record {
            sized = size';
            pixels = λ px py c _ _ _. rw (← no_rows (leb dx px && ltb px (dx + w)) py);
          }))
    where
      minus_zero : (k : ℕ) → k - 0 ≡ k
      minus_zero k = omega arith
