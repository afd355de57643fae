-- ===== src/Gfx/Bytes.antt =====
-- wasm/src/session.rs: framebuffers read byte by byte behind a write, and loops with an invariant for each
-- index.
use wasm_rdp.Prelude.{
  ℕ, zero, suc, ◌+◌, ◌-◌, ◌*◌, ◌≤◌, ◌<◌, ◌≡◌, sym, ap, ◌∙◌, true, false, ◌&&◌, List, [], ◌∷◌, ◌++◌,
  length, get_elem?, take, drop, leb, ltb, ◌==◌, ==_refl, if◌then◌else◌, Bool-cases, inl, inr,
  Outcome, for_range, Returns, returns, Returns-and_then, arith,
}

-- A loop whose invariant depends on the index.
for_range-indexed {ℓ} :
    {S : Type ℓ} (P : ℕ → S → Type 0) (n start : ℕ) (body : ℕ → S → Outcome S) (s : S)
    → ((i : ℕ) (s : S) → start ≤ i → i < start + n → P i s → Returns (P (i + 1)) (body i s))
    → P start s
    → Returns (P (start + n)) (for_range n start body s)
unfolding for_range
for_range-indexed P zero start body s step h = rw (plus_zero start) (returns h)
  where
    plus_zero : (n : ℕ) → n + 0 ≡ n
    plus_zero n = omega arith
for_range-indexed P (suc n) start body s step h = rw (plus_suc start n) (
    Returns-and_then (step start s (omega arith) (omega arith) h) λ t h'.
      for_range-indexed P n (start + 1) body t (λ i u a b. step i u (omega arith) (omega arith)) h')
  where
    plus_suc : (a n : ℕ) → a + suc n ≡ a + 1 + n
    plus_suc a n = omega arith

-- `for i in lo..hi`
pub for_between {ℓ} :
    {S : Type ℓ} (P : ℕ → S → Type 0) (lo hi : ℕ) (body : ℕ → S → Outcome S) (s : S)
    → lo ≤ hi
    → ((i : ℕ) (s : S) → lo ≤ i → i < hi → P i s → Returns (P (i + 1)) (body i s))
    → P lo s
    → Returns (P hi) (for_range (hi - lo) lo body s)
for_between P lo hi body s ordered step h =
    let end : lo + (hi - lo) ≡ hi = omega arith in
    rw end at (for_range-indexed P (hi - lo) lo body s (λ i u a b. step i u a (omega arith)) h)

pub Returns-map {ℓ} :
    {S : Type ℓ} {P Q : S → Type 0} {o : Outcome S}
    → Returns P o
    → ((s : S) → P s → Q s)
    → Returns Q o
Returns-map (returns {a} h) f = returns (f a h)

get_front :
    (part xs : List ℕ) (k : ℕ)
    → length part ≤ length xs
    → get_elem? (part ++ drop (length part) xs) k
      ≡ (if ltb k (length part) then get_elem? part k else get_elem? xs k)
get_front [] xs k h = rw (none_below k)
  where
    none_below : (k : ℕ) → ltb k 0 ≡ false
    none_below k = ground arith
get_front (p ∷ part) [] k h = absurd (omega arith)
get_front (p ∷ part) (x ∷ xs) zero h = rw (first (length part))
  where
    first : (n : ℕ) → ltb 0 (suc n) ≡ true
    first n = ground arith
get_front (p ∷ part) (x ∷ xs) (suc k) h =
    get_front part xs k (omega arith) ∙ rw (shift k (length part))
  where
    shift : (a b : ℕ) → ltb a b ≡ ltb (suc a) (suc b)
    shift a b = ground arith

-- Reading behind a write.
pub get_written :
    (off : ℕ) (part xs : List ℕ) (k : ℕ)
    → off + length part ≤ length xs
    → get_elem? (take off xs ++ (part ++ drop (off + length part) xs)) k ≡ (
        if leb off k && ltb k (off + length part) then get_elem? part (k - off) else get_elem? xs k)
get_written zero part xs k h =
    rw (zero_plus (length part), zero_le k, minus_zero k) (get_front part xs k (omega arith))
  where
    zero_plus : (n : ℕ) → 0 + n ≡ n
    zero_plus n = omega arith

    zero_le : (k : ℕ) → leb 0 k ≡ true
    zero_le k = ground arith

    minus_zero : (k : ℕ) → k - 0 ≡ k
    minus_zero k = omega arith
get_written (suc off) part [] k h = absurd (omega arith)
get_written (suc off) part (x ∷ xs) zero h = rw (never off)
  where
    never : (off : ℕ) → leb (suc off) 0 ≡ false
    never off = ground arith
get_written (suc off) part (x ∷ xs) (suc k) h =
    rw
      (
        suc_plus off (length part),
        shift_le off k,
        shift_lt k (off + length part),
        shift_minus k off,
      )
      (get_written off part xs k (omega arith))
  where
    suc_plus : (a b : ℕ) → suc a + b ≡ suc (a + b)
    suc_plus a b = omega arith

    shift_le : (a b : ℕ) → leb (suc a) (suc b) ≡ leb a b
    shift_le a b = ground arith

    shift_lt : (a b : ℕ) → ltb (suc a) (suc b) ≡ ltb a b
    shift_lt a b = ground arith

    shift_minus : (a b : ℕ) → suc a - suc b ≡ a - b
    shift_minus a b = omega arith

-- The place of a byte of a pixel.
abbrev pub place : ℕ → ℕ → ℕ → ℕ → ℕ
place w x y c = (y * w + x) * 4 + c

-- A pixel's bytes stand in the four bytes of another only if it is that pixel.
same_row : (w x y px py : ℕ) → px < w → x < w → py * w + px ≡ y * w + x → py ≡ y
same_row w x y px py h h' e = grind arith

same_quad :
    (a b c : ℕ)
    → c < 4
    → (leb (b * 4 + 0) (a * 4 + c) && ltb (a * 4 + c) (b * 4 + 0 + 4)) ≡ (a == b)
same_quad a b c h = ground arith

pub both_equal : (a b c d : ℕ) → (a == b && c == d) ≡ true → (a ≡ b) × (c ≡ d)
both_equal a b c d h = ground arith

same_pixel : (w x y px py : ℕ) → px < w → x < w → (py * w + px == y * w + x) ≡ (py == y && px == x)
same_pixel w x y px py h h' = elim (Bool-cases (py * w + px == y * w + x)) [
  | inl e ↦
      let whole : py * w + px ≡ y * w + x = ground arith in
      let row : py ≡ y = same_row w x y px py h h' whole in
      let column : px ≡ x = row_column row whole in rw (e, row, column, ==_refl y, ==_refl x)
  | inr e ↦ elim (Bool-cases (py == y && px == x)) [
    | inr differ ↦ rw (e, differ)
    | inl same ↦
        let (row, column) = both_equal py y px x same in
        let equal : (py * w + px == y * w + x) ≡ true = rw (row, column) (==_refl (y * w + x)) in
        absurd (clash (sym equal ∙ e))
  ]
]
  where
    row_column : py ≡ y → py * w + px ≡ y * w + x → px ≡ x
    row_column r e = omega (arith, ap (λ k. k * w) r)

    clash : true ≡ false → ⊥
    clash e = ground arith

pub in_written :
    (w x y px py c : ℕ)
    → px < w
    → x < w
    → c < 4
    → (leb (place w x y 0) (place w px py c) && ltb (place w px py c) (place w x y 0 + 4))
      ≡ (py == y && px == x)
in_written w x y px py c h h' small =
    same_quad (py * w + px) (y * w + x) c small ∙ same_pixel w x y px py h h'
