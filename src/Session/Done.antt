-- ===== src/Session/Done.antt =====
-- wasm/src/session.rs: what a part of a connection did that gave a value.
use wasm_rdp.Prelude.{
  ◌≡◌, refl, sym, ap, Option, none, some, [], ◌∷◌, ◌++◌, ◌==◌, Bool-cases, inl, inr,
}
use wasm_rdp.Framed.{Message, Read}
use wasm_rdp.Session.Wire.{
  Failure, Result, done, failed, panicked, out_of_fuel, Wire, Conn, proceed, or_fail, send, reader,
}

-- The value of a result.
abbrev pub value {ℓ} : {A : Type ℓ} → Result A → Option A
value (done a) = some a
value (failed e) = none
value panicked = none
value out_of_fuel = none

pub proceed-done {ℓ κ} :
    {A : Type ℓ} {B : Type κ} (k : A → Conn B) (p : Result A × Wire) {b : B} {v : Wire}
    → proceed k p ≡ (done b, v)
    → (a : A) × (u : Wire) × (p ≡ (done a, u)) × (k a u ≡ (done b, v))
proceed-done k (done a, u) h = (a, u, refl, h)
proceed-done k (failed e, u) h = absurd (cc)
proceed-done k (panicked, u) h = absurd (cc)
proceed-done k (out_of_fuel, u) h = absurd (cc)

pub or_fail-done {ℓ} :
    {A : Type ℓ} (e : Failure) (o : Option A) (w : Wire) {a : A} {v : Wire}
    → or_fail e o w ≡ (done a, v)
    → (o ≡ some a) × (w ≡ v)
or_fail-done e none w h = absurd (cc)
or_fail-done e (some b) w h = (ap (λ q. value (q.0)) h, ap (λ q. q.1) h)

pub send-done :
    (m : Message) (w : Wire) {v : Wire} → send m w ≡ (done tt, v) → v.sent ≡ w.sent ++ m ∷ []
unfolding send
send-done m w h = elim (Bool-cases (w.room == 0)) [
  | inl full ↦ absurd (cc (rw full at h))
  | inr room ↦ ap (λ q. q.1.sent) (sym (rw room at h))
]

pub reader-done :
    {A : Type 0} (m : Read A) (w : Wire) {a : A} {v : Wire}
    → reader m w ≡ (done a, v)
    → v.sent ≡ w.sent
unfolding reader
reader-done m w h = ap (λ q. q.1.sent) (sym h)
