-- ===== src/Prelude/Text.antt =====
-- Texts as lists of codes: literals, equality, and the search of a part.
use Prim.Native.Nat.{ℕ, suc}
use Prim.Native.Char.{code}
use Prim.Native.String.{String}
use mathlib.Core.Path.{◌≡◌, refl}
use mathlib.Core.Logic.{inl, inr}
use mathlib.Core.Bool.{Bool, true, false, ◌&&◌}
use mathlib.Core.List.{List, [], ◌∷◌, ◌++◌}
use mathlib.Core.Option.{Option, none, some}
use wasm_rdp.Prelude.Tests.{◌==◌, ==_refl, ==_iff, Bool-cases, if◌then◌else◌}

-- The code points of a text: its bytes, if it is ASCII.
abbrev pub codes : String → List ℕ
codes String.[] = []
codes (String.◌∷◌ c s) = code c ∷ codes s

unfoldable pub same_text : List ℕ → List ℕ → Bool
same_text [] [] = true
same_text (a ∷ xs) (b ∷ ys) = a == b && same_text xs ys
same_text _ _ = false

pub same_text_refl : (xs : List ℕ) → same_text xs xs ≡ true
unfolding same_text
same_text_refl [] = refl
same_text_refl (x ∷ xs) = rw (==_refl x) (same_text_refl xs)

pub same_text→eq : (xs ys : List ℕ) → same_text xs ys ≡ true → xs ≡ ys
unfolding same_text
same_text→eq [] [] h = refl
same_text→eq [] (b ∷ ys) h = absurd (cc)
same_text→eq (a ∷ xs) [] h = absurd (cc)
same_text→eq (a ∷ xs) (b ∷ ys) h = elim (Bool-cases (a == b)) [
  | inr e ↦ absurd (cc (rw e at h))
  | inl e ↦ cc ((==_iff a b).0 e, same_text→eq xs ys (rw e at h))
]

unfoldable pub starts_with : List ℕ → List ℕ → Bool
starts_with xs [] = true
starts_with [] (b ∷ ys) = false
starts_with (a ∷ xs) (b ∷ ys) = a == b && starts_with xs ys

pub starts_with-append : (ys rest : List ℕ) → starts_with (ys ++ rest) ys ≡ true
unfolding starts_with
starts_with-append [] rest = refl
starts_with-append (y ∷ ys) rest = rw (==_refl y) (starts_with-append ys rest)

abbrev pub next_index : Option ℕ → Option ℕ
next_index none = none
next_index (some i) = some (suc i)

-- `text.find(part)`, for a part that is not empty.
unfoldable pub find : List ℕ → List ℕ → Option ℕ
unfolding starts_with
find [] part = none
find (x ∷ xs) part =
    let later = next_index (find xs part) in if starts_with (x ∷ xs) part then some 0 else later

abbrev pub is_some {ℓ} : {A : Type ℓ} → Option A → Bool
is_some none = false
is_some (some _) = true

unfoldable pub contains_text : List ℕ → List ℕ → Bool
unfolding find
contains_text xs part = is_some (find xs part)
