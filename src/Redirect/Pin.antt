-- ===== src/Redirect/Pin.antt =====
-- wasm/src/redirect.rs: the search behind the check of the certificate, and the text of the packet.
use wasm_rdp.Prelude.{
  ℕ, suc, ◌≤◌, ◌<◌, ◌≡◌, refl, ap, ◌∙◌, ◌↔◌, Bool, true, false, not, ◌&&◌, ◌||◌, List, [], ◌∷◌,
  ◌++◌, length, length-append, take, drop, take-drop, take-append, leb, le→leb, ◌==◌, ==_refl,
  Bool-cases, inl, inr, All, IsScalar, encode_utf16, unit_bytes, null_terminated, arith,
}
use wasm_rdp.Redirect.{same_bytes, any_window, contains_subslice, utf16le_to_string}

-- `needle` stands somewhere in `haystack`.
abbrev pub IsInfix : List ℕ → List ℕ → Type 0
IsInfix needle haystack =
    (before : List ℕ) × (after : List ℕ) × (haystack ≡ before ++ (needle ++ after))

same_bytes→eq : (xs ys : List ℕ) → same_bytes xs ys ≡ true → xs ≡ ys
unfolding same_bytes
same_bytes→eq [] [] h = refl
same_bytes→eq [] (b ∷ ys) h = absurd (ground arith)
same_bytes→eq (a ∷ xs) [] h = absurd (ground arith)
same_bytes→eq (a ∷ xs) (b ∷ ys) h = rw (heads, same_bytes→eq xs ys tails) refl
  where
    heads : a ≡ b
    heads = ground arith

    tails : same_bytes xs ys ≡ true
    tails = ground arith

same_bytes_refl : (xs : List ℕ) → same_bytes xs xs ≡ true
unfolding same_bytes
same_bytes_refl [] = refl
same_bytes_refl (a ∷ xs) = rw (==_refl a, same_bytes_refl xs)

any_window→IsInfix :
    (needle haystack : List ℕ)
    → any_window (length needle) needle haystack ≡ true
    → IsInfix needle haystack
unfolding any_window
any_window→IsInfix needle [] h = absurd (ground arith)
any_window→IsInfix needle (b ∷ rest) h =
    elim (Bool-cases (same_bytes (take (length needle) (b ∷ rest)) needle)) [
      | inl here ↦
          let e = same_bytes→eq (take (length needle) (b ∷ rest)) needle here in
          (
            [],
            drop (length needle) (b ∷ rest),
            take-drop (length needle) (b ∷ rest) ∙ ap (λ t. t ++ drop (length needle) (b ∷ rest)) e,
          )
      | inr elsewhere ↦
          let (before, after, e) = any_window→IsInfix needle rest (ground arith) in
          (b ∷ before, after, ap (λ t. b ∷ t) e)
    ]

any_window_here :
    (c : ℕ) (cs after : List ℕ) → any_window (suc (length cs)) (c ∷ cs) (c ∷ (cs ++ after)) ≡ true
unfolding any_window
any_window_here c cs after = rw (
  le→leb (suc (length cs)) (suc (length (cs ++ after))) (omega (arith, length-append cs after)),
  take-append cs after,
  same_bytes_refl (c ∷ cs),
)

or_true : (b : Bool) → (b || true) ≡ true
or_true true = refl
or_true false = refl

any_window_later :
    (b n : ℕ) (needle rest : List ℕ)
    → n ≤ suc (length rest)
    → any_window n needle rest ≡ true
    → any_window n needle (b ∷ rest) ≡ true
unfolding any_window
any_window_later b n needle rest h later = rw (le→leb n (suc (length rest)) h, later) (or_true _)

any_window_infix :
    (c : ℕ) (cs before after : List ℕ)
    → any_window (suc (length cs)) (c ∷ cs) (before ++ (c ∷ (cs ++ after))) ≡ true
any_window_infix c cs [] after = any_window_here c cs after
any_window_infix c cs (b ∷ before) after =
    any_window_later b (suc (length cs)) (c ∷ cs) (before ++ (c ∷ (cs ++ after)))
      (omega (arith, length-append cs after, length-append before (c ∷ (cs ++ after))))
      (any_window_infix c cs before after)

-- The search finds a needle exactly where it is not empty and stands in the haystack: the code's
-- windows miss no place and reach past no end.
pub contains_subslice-IsInfix :
    (haystack needle : List ℕ)
    → (contains_subslice haystack needle ≡ true) ↔ ((0 < length needle) × IsInfix needle haystack)
unfolding contains_subslice
contains_subslice-IsInfix haystack [] =
    (λ h. absurd (ground arith), λ h. absurd (omega (arith, h.0)))
contains_subslice-IsInfix haystack (c ∷ cs) =
    ((λ h. (omega arith, any_window→IsInfix (c ∷ cs) haystack (found h))), λ h. conclude h.1)
  where
    found :
        (not (length (c ∷ cs) == 0)
            && (leb (length (c ∷ cs)) (length haystack)
                && any_window (length (c ∷ cs)) (c ∷ cs) haystack))
          ≡ true
        → any_window (length (c ∷ cs)) (c ∷ cs) haystack ≡ true
    found h = ground arith

    conclude : IsInfix (c ∷ cs) haystack → contains_subslice haystack (c ∷ cs) ≡ true
    conclude (before, after, e) =
        rw
          (
            e,
            le→leb (suc (length cs)) (length (before ++ (c ∷ (cs ++ after))))
                (omega (arith, length-append cs after, length-append before (c ∷ (cs ++ after)))),
            any_window_infix c cs before after,
          )
          (ground arith)

-- The text of the packet's null-terminated UTF-16LE fields is read back, whatever follows the terminator,
-- if no character of it is U+0000.
pub utf16le_to_string-encode_utf16 :
    (text rest : List ℕ)
    → All IsScalar text
    → All (λ c. 0 < c) text
    → utf16le_to_string (unit_bytes (encode_utf16 text) ++ 0 ∷ 0 ∷ rest) ≡ text
unfolding utf16le_to_string
utf16le_to_string-encode_utf16 text rest scalar nonzero = null_terminated text rest scalar nonzero
