-- ===== src/Rail/Window/Loops.antt =====
-- crates/ironrdp-rail/src/window.rs: what the loops of `decode_icon` write, pixel by pixel.
use wasm_rdp.Prelude.{
  ℕ, zero, suc, ◌+◌, ◌-◌, ◌*◌, ◌<◌, ◌≡◌, refl, ap, ◌∙◌, none, some, List, [], ◌∷◌, ◌++◌,
  append_assoc, length, length-append, get_elem?, get_elem?_in, set, replicate, lt→ltb, Outcome,
  returned, index, assign, for_range, arith,
}
use wasm_rdp.Rail.Window.Icon.{write_pixel, pixel_loops}

-- The byte at `i`, 0 past the end.
abbrev pub byte_at : List ℕ → ℕ → ℕ
byte_at xs i = elim (get_elem? xs i) [ none ↦ 0 | some b ↦ b ]

-- `f start ++ … ++ f (start + n - 1)`
unfoldable pub span : ℕ → ℕ → (ℕ → List ℕ) → List ℕ
span zero start f = []
span (suc n) start f = f start ++ span n (start + 1) f

-- Red, green, blue and alpha of a pixel that is stored blue first.
abbrev pub rgba_at : List ℕ → ℕ → ℕ → List ℕ
rgba_at color s a = byte_at color (s + 2) ∷ byte_at color (s + 1) ∷ byte_at color s ∷ a ∷ []

-- The image top row first, read from a bitmap that is stored bottom row first.
unfoldable pub flipped : ℕ → ℕ → List ℕ → (ℕ → ℕ → ℕ) → (ℕ → ℕ → ℕ) → List ℕ
flipped w h color source alpha =
    span h 0 λ y. span w 0 λ x. rgba_at color (source (h - 1 - y) x) (alpha (h - 1 - y) x)

pub index-eq : (xs : List ℕ) (i : ℕ) → i < length xs → index xs i ≡ returned (byte_at xs i)
index-eq xs i h = let (a, e) = get_elem?_in xs i h in rw (e, index, byte_at)

set-append :
    (xs ys : List ℕ) (k i v : ℕ) → i ≡ length xs + k → set (xs ++ ys) i v ≡ xs ++ set ys k v
set-append [] ys k i v e = ap (λ j. set ys j v) (omega arith)
set-append (x ∷ xs) ys k zero v e = absurd (omega arith)
set-append (x ∷ xs) ys k (suc i) v e = ap (λ t. x ∷ t) (set-append xs ys k i v (omega arith))

assign-append :
    (xs ys : List ℕ) (k i v : ℕ)
    → i ≡ length xs + k
    → k < length ys
    → assign (xs ++ ys) i v ≡ returned (xs ++ set ys k v)
assign-append xs ys k i v e h =
    rw (lt→ltb i (length (xs ++ ys)) (omega (arith, length-append xs ys)))
      (ap returned (set-append xs ys k i v e))

write_pixel_lem :
    (color done more : List ℕ) (s d a z₀ z₁ z₂ z₃ : ℕ) (alpha : Outcome ℕ)
    → length done ≡ d
    → s + 2 < length color
    → alpha ≡ returned a
    → write_pixel color s d alpha (done ++ z₀ ∷ z₁ ∷ z₂ ∷ z₃ ∷ more)
      ≡ returned (done ++ (rgba_at color s a ++ more))
unfolding write_pixel
write_pixel_lem color done more s d a z₀ z₁ z₂ z₃ alpha e h ha =
    rw (ha, index-eq color (s + 2) h)
      (rw (assign-append done (z₀ ∷ z₁ ∷ z₂ ∷ z₃ ∷ more) 0 d _ (omega arith) (omega arith)) (
        rw (index-eq color (s + 1) (omega arith)) (
          rw (assign-append done (r ∷ z₁ ∷ z₂ ∷ z₃ ∷ more) 1 (d + 1) _ (omega arith) (omega arith))
            (rw (index-eq color s (omega arith)) (
              rw
                (assign-append done (r ∷ g ∷ z₂ ∷ z₃ ∷ more) 2 (d + 2) _ (omega arith)
                  (omega arith))
                (assign-append done (r ∷ g ∷ b ∷ z₃ ∷ more) 3 (d + 3) a (omega arith)
                  (omega arith)))))))
  where
    r : ℕ
    r = byte_at color (s + 2)

    g : ℕ
    g = byte_at color (s + 1)

    b : ℕ
    b = byte_at color s

-- Pixels and rows not yet written.
abbrev blank : ℕ → List ℕ
blank zero = []
blank (suc n) = 0 ∷ 0 ∷ 0 ∷ 0 ∷ blank n

abbrev blank_rows : ℕ → ℕ → List ℕ
blank_rows w zero = []
blank_rows w (suc n) = blank w ++ blank_rows w n

replicate-add :
    (m n k : ℕ) → k ≡ m + n → replicate {A = ℕ} k 0 ≡ replicate {A = ℕ} m 0 ++ replicate {A = ℕ} n 0
replicate-add zero n k e = ap (λ j. replicate {A = ℕ} j 0) (omega arith)
replicate-add (suc m) n zero e = absurd (omega arith)
replicate-add (suc m) n (suc k) e = ap (λ t. 0 ∷ t) (replicate-add m n k (omega arith))

replicate-blank : (n k : ℕ) → k ≡ n * 4 → replicate {A = ℕ} k 0 ≡ blank n
replicate-blank zero zero e = refl
replicate-blank zero (suc k) e = absurd (omega arith)
replicate-blank (suc n) k e =
    replicate-add 4 (n * 4) k (omega arith)
    ∙ ap (λ t. 0 ∷ 0 ∷ 0 ∷ 0 ∷ t) (replicate-blank n (n * 4) refl)

replicate-blank_rows : (w n k : ℕ) → k ≡ w * n * 4 → replicate {A = ℕ} k 0 ≡ blank_rows w n
replicate-blank_rows w zero zero e = refl
replicate-blank_rows w zero (suc k) e = absurd (omega arith)
replicate-blank_rows w (suc n) k e =
    replicate-add (w * 4) (w * n * 4) k (omega arith)
    ∙ (λ i. replicate-blank w (w * 4) refl i ++ replicate-blank_rows w n (w * n * 4) refl i)

pub length-span :
    (n start k : ℕ) (f : ℕ → List ℕ)
    → ((i : ℕ) → length (f i) ≡ k)
    → length (span n start f) ≡ n * k
unfolding span
length-span zero start k f h = omega arith
length-span (suc n) start k f h = omega (
  arith,
  length-append (f start) (span n (start + 1) f),
  h start,
  length-span n (start + 1) k f h,
)

module _ (w : ℕ) (color : List ℕ) (at_ : ℕ → ℕ) (alpha : ℕ → Outcome ℕ) (a : ℕ → ℕ)
    (ok : (x : ℕ) → x < w → (at_ x + 2 < length color) × (alpha x ≡ returned (a x))) where
  row_loop :
      (y n start : ℕ) (done more : List ℕ)
      → start + n ≡ w
      → length done ≡ (y * w + start) * 4
      → for_range n start
          (λ x. write_pixel color (at_ x) ((y * w + x) * 4) (alpha x))
          (done ++ (blank n ++ more))
        ≡ returned (done ++ (span n start (λ x. rgba_at color (at_ x) (a x)) ++ more))
  unfolding for_range span
  row_loop y zero start done more e l = refl
  row_loop y (suc n) start done more e l =
      let px = rgba_at color (at_ start) (a start) in
      rw
        (write_pixel_lem color done (blank n ++ more) (at_ start) ((y * w + start) * 4) (a start) 0
          0 0 0 (alpha start) l (ok start (omega arith)).0 (ok start (omega arith)).1)
        (rw (← append_assoc done px (blank n ++ more)) (
          row_loop y n (start + 1) (done ++ px) more (omega arith)
            (omega (arith, length-append done px))
          ∙ ap returned (
              append_assoc done px
                (span n (start + 1) (λ x. rgba_at color (at_ x) (a x)) ++ more))))

module _ (w h : ℕ) (color : List ℕ) (source : ℕ → ℕ → ℕ) (alpha : ℕ → ℕ → Outcome ℕ) (a : ℕ → ℕ → ℕ)
    (ok : (row x : ℕ)
      → row < h
      → x < w
      → (source row x + 2 < length color) × (alpha row x ≡ returned (a row x))) where
  row_of : ℕ → List ℕ
  row_of y = span w 0 (λ x. rgba_at color (source (h - 1 - y) x) (a (h - 1 - y) x))

  rows_loop :
      (n start : ℕ) (done : List ℕ)
      → start + n ≡ h
      → length done ≡ start * w * 4
      → for_range n start
          (λ y.
            for_range w 0
              λ x. write_pixel color (source (h - 1 - y) x) ((y * w + x) * 4) (alpha (h - 1 - y) x))
          (done ++ blank_rows w n)
        ≡ returned (done ++ span n start row_of)
  unfolding for_range span row_of
  rows_loop zero start done e l = refl
  rows_loop (suc n) start done e l =
      rw
        (row_loop w color (source (h - 1 - start)) (alpha (h - 1 - start)) (a (h - 1 - start))
          (λ x hx. ok (h - 1 - start) x (omega arith) hx) start w 0 done (blank_rows w n)
          (omega arith) (omega arith))
        (rw (← append_assoc done (row_of start) (blank_rows w n)) (
          rows_loop n (start + 1) (done ++ row_of start) (omega arith) (
            omega (
              arith,
              length-append done (row_of start),
              length-span w 0 4
                  (λ x. rgba_at color (source (h - 1 - start) x) (a (h - 1 - start) x)) (λ i. refl),
            ))
          ∙ ap returned (append_assoc done (row_of start) (span n (start + 1) row_of))))

  -- The in-place loops over a blank buffer build the flipped image.
  pub pixel_loops-flipped :
      pixel_loops w h color source alpha (replicate (w * h * 4) 0)
      ≡ returned (flipped w h color source a)
  unfolding pixel_loops flipped row_of
  pixel_loops-flipped =
      rw (replicate-blank_rows w h (w * h * 4) refl) (rows_loop h 0 [] (omega arith) (omega arith))
