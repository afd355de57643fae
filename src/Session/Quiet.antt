-- ===== src/Session/Quiet.antt =====
-- wasm/src/session.rs: parts of the connection that send nothing, or one message.
use wasm_rdp.Prelude.{
  ℕ, ◌+◌, ◌≡◌, refl, sym, ap, ◌∙◌, ◌⊎◌, Bool, true, false, Option, none, some, List, [], ◌∷◌, ◌++◌,
  append_assoc, append-nil, ◌==◌, not_zero, if◌then◌else◌, Bool-cases, Option-cases, inl, inr,
  Outcome,
}
use wasm_rdp.Prelude
use wasm_rdp.Framed.{Message}
use wasm_rdp.Redirect.{Verdict, accepted}
use wasm_rdp.Session.Wire.{
  Failure, Result, done, failed, panicked, out_of_fuel, Wire, Conn, proceed, ◌>>=◌, ◌>>◌, or_fail,
  send,
}
use wasm_rdp.Session.Redirected.{verdict}
use wasm_rdp.Session.Done.{value}

-- A part gives a value, or the whole ends with it.
pub stops :
    {A B : Type 0} (k : A → Conn B) (p : Result A × Wire)
    → ((a : A) × (u : Wire) × (p ≡ (done a, u))) ⊎ ((proceed k p).1 ≡ p.1)
stops k (done a, u) = inl (a, u, refl)
stops k (failed e, u) = inr refl
stops k (panicked, u) = inr refl
stops k (out_of_fuel, u) = inr refl

-- A part that sends nothing.
abbrev pub Quiet : {A : Type 0} → Conn A → Type 0
Quiet m = (w : Wire) → (m w).1.sent ≡ w.sent

Quiet-proceed :
    {A B : Type 0} (k : A → Conn B) (p : Result A × Wire) (w : Wire)
    → p.1.sent ≡ w.sent
    → ((a : A) → Quiet (k a))
    → (proceed k p).1.sent ≡ w.sent
Quiet-proceed k (done a, u) w h q = q a u ∙ h
Quiet-proceed k (failed e, u) w h q = h
Quiet-proceed k (panicked, u) w h q = h
Quiet-proceed k (out_of_fuel, u) w h q = h

pub Quiet-bind :
    {A B : Type 0} (m : Conn A) (k : A → Conn B)
    → Quiet m
    → ((a : A) → Quiet (k a))
    → Quiet (m >>= k)
Quiet-bind m k h q w = Quiet-proceed k (m w) w (h w) q

pub Quiet-or_fail : {A : Type 0} (e : Failure) (o : Option A) → Quiet (or_fail e o)
Quiet-or_fail e none w = refl
Quiet-or_fail e (some a) w = refl

pub Quiet-if :
    {A : Type 0} (b : Bool) (m n : Conn A) → Quiet m → Quiet n → Quiet (if b then m else n)
Quiet-if true m n h k = h
Quiet-if false m n h k = k

pub Quiet-end :
    {A : Type 0} (m : Conn A)
    → Quiet m
    → (w : Wire) {r : Result A} {u : Wire} → m w ≡ (r, u)
    → u.sent ≡ w.sent
Quiet-end m q w h = sym (ap (λ p. p.1.sent) h) ∙ q w

pub verdict-done :
    (o : Outcome Verdict) → value (verdict o) ≡ some tt → o ≡ Prelude.returned accepted
verdict-done (Prelude.returned accepted) h = refl
verdict-done (Prelude.returned v) h = absurd (cc)
verdict-done Prelude.panicked h = absurd (cc)

-- A send and what sends nothing behind it: the message is sent or not.
abbrev pub Said : Message → Wire → Wire → Type 0
Said m w v = (v.sent ≡ w.sent) ⊎ (v.sent ≡ w.sent ++ m ∷ [])

pub send-Said :
    {B : Type 0} (m : Message) (rest : Conn B) (w : Wire)
    → Quiet rest
    → Said m w (((send m >> rest) w).1)
unfolding send
send-Said m rest w q = elim (Bool-cases (w.room == 0)) [
  | inl full ↦ rw full (inl refl)
  | inr room ↦ rw room (inr (q _))
]
