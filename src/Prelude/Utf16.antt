-- ===== src/Prelude/Utf16.antt =====
-- The language's text as a list of Unicode scalar values, and its UTF-16 coding: `encode_utf16` and
-- `String::from_utf16_lossy`.
use Prim.Native.Nat.{ℕ, ◌+◌, ◌-◌, ◌*◌, ◌/◌, ◌%◌, ◌≤◌, ◌<◌}
use mathlib.Core.Path.{◌≡◌, refl, ap, ◌∙◌}
use mathlib.Core.Logic.{◌⊎◌, inl, inr}
use mathlib.Core.Bool.{Bool, true, false, ◌&&◌}
use mathlib.Core.List.{List, [], ◌∷◌, ◌++◌}
use native.Mathlib.Omega.{arith}
use wasm_rdp.Prelude.Tests.{ltb, leb, ◌==◌, if◌then◌else◌, Bool-cases, ltb→ge}
use wasm_rdp.Prelude.Lists.{All, length}
use wasm_rdp.Prelude.Bytes.{IsU16, le16, of_le16, of_le16-le16}

abbrev pub IsScalar : ℕ → Type 0
IsScalar c = (c < 0xD800) ⊎ ((0xDFFF < c) × (c < 0x110000))

unfoldable pub encode_char : ℕ → List ℕ
encode_char c =
    if ltb c 0x10000
    then (c ∷ [])
    else ((0xD800 + (c - 0x10000) / 1024) ∷ (0xDC00 + (c - 0x10000) % 1024) ∷ [])

unfoldable pub encode_utf16 : List ℕ → List ℕ
encode_utf16 [] = []
encode_utf16 (c ∷ cs) = encode_char c ++ encode_utf16 cs

abbrev pub is_surrogate : ℕ → Bool
is_surrogate u = leb 0xD800 u && ltb u 0xE000

abbrev pub is_low_surrogate : ℕ → Bool
is_low_surrogate u = leb 0xDC00 u && ltb u 0xE000

-- An unpaired surrogate reads as U+FFFD.
unfoldable pub from_utf16_lossy : List ℕ → List ℕ
from_utf16_lossy [] = []
from_utf16_lossy (u ∷ []) = (if is_surrogate u then 0xFFFD else u) ∷ []
from_utf16_lossy (u ∷ v ∷ rest) =
    let pair = from_utf16_lossy rest in
    let single = from_utf16_lossy (v ∷ rest) in
    if is_surrogate u
    then (if ltb u 0xDC00 && is_low_surrogate v
        then (0x10000 + (u - 0xD800) * 1024 + (v - 0xDC00)) ∷ pair
        else 0xFFFD ∷ single)
    else u ∷ single

-- The little-endian bytes of code units.
unfoldable pub unit_bytes : List ℕ → List ℕ
unit_bytes [] = []
unit_bytes (u ∷ us) = le16 u ++ unit_bytes us

lossy_plain :
    (u : ℕ) (rest : List ℕ)
    → is_surrogate u ≡ false
    → from_utf16_lossy (u ∷ rest) ≡ u ∷ from_utf16_lossy rest
unfolding from_utf16_lossy
lossy_plain u [] e = rw e
lossy_plain u (v ∷ rest) e = rw e

lossy_pair :
    (u v : ℕ) (rest : List ℕ)
    → is_surrogate u ≡ true
    → (ltb u 0xDC00 && is_low_surrogate v) ≡ true
    → from_utf16_lossy (u ∷ v ∷ rest)
      ≡ (0x10000 + (u - 0xD800) * 1024 + (v - 0xDC00)) ∷ from_utf16_lossy rest
unfolding from_utf16_lossy
lossy_pair u v rest e k = rw (e, k)

lossy_char :
    (c : ℕ) (rest : List ℕ)
    → IsScalar c
    → from_utf16_lossy (encode_char c ++ rest) ≡ c ∷ from_utf16_lossy rest
unfolding encode_char
lossy_char c rest h = elim (Bool-cases (ltb c 0x10000)) [
  | inl small ↦ rw small (lossy_plain c rest (ground arith))
  | inr large ↦ rw large (
      lossy_pair (0xD800 + (c - 0x10000) / 1024) (0xDC00 + (c - 0x10000) % 1024) rest (ground arith)
        (ground arith)
      ∙ ap (λ k. k ∷ from_utf16_lossy rest) (whole (ltb→ge c 0x10000 large)))
]
  where
    whole :
        0x10000 ≤ c
        → 0x10000
            + (0xD800 + (c - 0x10000) / 1024 - 0xD800) * 1024
            + (0xDC00 + (c - 0x10000) % 1024 - 0xDC00)
          ≡ c
    whole k = omega arith

-- Text survives its UTF-16 coding.
pub from_utf16_lossy-encode_utf16 :
    (cs : List ℕ) → All IsScalar cs → from_utf16_lossy (encode_utf16 cs) ≡ cs
unfolding encode_utf16
from_utf16_lossy-encode_utf16 [] h = unfold from_utf16_lossy in refl
from_utf16_lossy-encode_utf16 (c ∷ cs) h =
    lossy_char c (encode_utf16 cs) h.0 ∙ ap (λ k. c ∷ k) (from_utf16_lossy-encode_utf16 cs h.1)

All-append : (P : ℕ → Type 0) (xs ys : List ℕ) → All P xs → All P ys → All P (xs ++ ys)
All-append P [] ys hx hy = hy
All-append P (x ∷ xs) ys hx hy = (hx.0, All-append P xs ys hx.1 hy)

encode_char-IsU16 : (c : ℕ) → IsScalar c → All IsU16 (encode_char c)
unfolding encode_char
encode_char-IsU16 c h = ground arith

pub encode_utf16-IsU16 : (cs : List ℕ) → All IsScalar cs → All IsU16 (encode_utf16 cs)
unfolding encode_utf16
encode_utf16-IsU16 [] h = tt
encode_utf16-IsU16 (c ∷ cs) h =
    All-append _ (encode_char c) (encode_utf16 cs) (encode_char-IsU16 c h.0)
      (encode_utf16-IsU16 cs h.1)

pub length-unit_bytes : (us : List ℕ) → length (unit_bytes us) ≡ 2 * length us
unfolding unit_bytes
length-unit_bytes [] = omega arith
length-unit_bytes (u ∷ us) = omega (arith, length-unit_bytes us)

-- `chunks_exact(2)`, each read by `u16::from_le_bytes`; an odd last byte is left out.
unfoldable pub u16_chunks : List ℕ → List ℕ
u16_chunks (a ∷ b ∷ rest) = of_le16 a b ∷ u16_chunks rest
u16_chunks _ = []

-- `take_while(|&u| u != 0)`
unfoldable pub until_zero : List ℕ → List ℕ
until_zero [] = []
until_zero (u ∷ us) = if u == 0 then [] else u ∷ until_zero us

pub u16_chunks-unit_bytes :
    (us rest : List ℕ) → All IsU16 us → u16_chunks (unit_bytes us ++ rest) ≡ us ++ u16_chunks rest
unfolding u16_chunks unit_bytes
u16_chunks-unit_bytes [] rest h = refl
u16_chunks-unit_bytes (u ∷ us) rest h =
    rw (of_le16-le16 u h.0) (ap (λ t. u ∷ t) (u16_chunks-unit_bytes us rest h.1))

pub until_zero_stops : (us rest : List ℕ) → All (λ u. 0 < u) us → until_zero (us ++ 0 ∷ rest) ≡ us
unfolding until_zero
until_zero_stops [] rest h = refl
until_zero_stops (u ∷ us) rest h =
    rw (nonzero u h.0) (ap (λ t. u ∷ t) (until_zero_stops us rest h.1))
  where
    nonzero : (u : ℕ) → 0 < u → (u == 0) ≡ false
    nonzero u k = ground arith

encode_char_nonzero : (c : ℕ) → 0 < c → All (λ u. 0 < u) (encode_char c)
unfolding encode_char
encode_char_nonzero c k = ground arith

-- No unit of a character other than U+0000 is zero.
pub encode_utf16_nonzero : (cs : List ℕ) → All (λ c. 0 < c) cs → All (λ u. 0 < u) (encode_utf16 cs)
unfolding encode_utf16
encode_utf16_nonzero [] h = tt
encode_utf16_nonzero (c ∷ cs) h =
    All-append _ (encode_char c) (encode_utf16 cs) (encode_char_nonzero c h.0)
      (encode_utf16_nonzero cs h.1)

terminator : (rest : List ℕ) → u16_chunks (0 ∷ 0 ∷ rest) ≡ 0 ∷ u16_chunks rest
unfolding u16_chunks
terminator rest = refl

-- Null-terminated UTF-16LE bytes read back as the text, whatever follows the terminator.
pub null_terminated :
    (cs rest : List ℕ)
    → All IsScalar cs
    → All (λ c. 0 < c) cs
    → from_utf16_lossy (until_zero (u16_chunks (unit_bytes (encode_utf16 cs) ++ 0 ∷ 0 ∷ rest))) ≡ cs
null_terminated cs rest scalar nonzero =
    let us = encode_utf16 cs in
    rw
      (
        u16_chunks-unit_bytes us (0 ∷ 0 ∷ rest) (encode_utf16-IsU16 cs scalar),
        terminator rest,
        until_zero_stops us (u16_chunks rest) (encode_utf16_nonzero cs nonzero),
      )
      (from_utf16_lossy-encode_utf16 cs scalar)
