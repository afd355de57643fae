-- ===== src/Prelude/Panics.antt =====
-- Code that may panic: an index out of range ends the run.
use Prim.Native.Nat.{ℕ, zero, suc, ◌+◌}
use mathlib.Core.Path.{◌≡◌, refl}
use mathlib.Core.Bool.{Bool, true, false}
use mathlib.Core.List.{List}
use mathlib.Core.Option.{none, some}
use wasm_rdp.Prelude.Tests.{ltb, if◌then◌else◌}
use wasm_rdp.Prelude.Lists.{length, get_elem?, set}

pub data Outcome {ℓ} (A : Type ℓ) : Type ℓ where
  returned : A → Outcome A
  panicked : Outcome A

abbrev pub and_then {ℓ κ} : {A : Type ℓ} {B : Type κ} → Outcome A → (A → Outcome B) → Outcome B
and_then (returned a) f = f a
and_then panicked f = panicked

-- `xs[i]`
abbrev pub index {ℓ} : {A : Type ℓ} → List A → ℕ → Outcome A
index xs i = elim (get_elem? xs i) [ none ↦ panicked | some a ↦ returned a ]

-- `xs[i] = v`
abbrev pub assign {ℓ} : {A : Type ℓ} → List A → ℕ → A → Outcome (List A)
assign xs i v = if ltb i (length xs) then returned (set xs i v) else panicked

-- `for i in start..start + n`
unfoldable pub for_range {ℓ} : {S : Type ℓ} → ℕ → ℕ → (ℕ → S → Outcome S) → S → Outcome S
for_range zero start body s = returned s
for_range (suc n) start body s = and_then (body start s) (for_range n (start + 1) body)

-- The run does not panic, and `P` holds of its result.
pub data Returns {ℓ κ} {A : Type ℓ} (P : A → Type κ) : Outcome A → Type (ℓ ⊔ κ) where
  returns : {a : A} → P a → Returns P (returned a)

module _ {ℓ κ} {A : Type ℓ} {P : A → Type κ} where
  pub Returns-and_then {ℓ' κ'} :
      {B : Type ℓ'} {Q : B → Type κ'} {o : Outcome A} {f : A → Outcome B}
      → Returns P o
      → ((a : A) → P a → Returns Q (f a))
      → Returns Q (and_then o f)
  Returns-and_then (returns {a} h) k = k a h

  pub Returns-if :
      (b : Bool) {x y : Outcome A}
      → (b ≡ true → Returns P x)
      → (b ≡ false → Returns P y)
      → Returns P (if b then x else y)
  Returns-if true f g = f refl
  Returns-if false f g = g refl
