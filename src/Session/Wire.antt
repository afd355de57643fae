-- ===== src/Session/Wire.antt =====
-- wasm/src/session.rs: the socket of a connection that is being made, and the ways in which that ends.
use wasm_rdp.Prelude.{ℕ, ◌-◌, List, [], ◌∷◌, ◌++◌, ◌==◌, if◌then◌else◌, Option, none, some}
use wasm_rdp.Redirect.{Verdict}
use wasm_rdp.Framed.{Message, WasmFramed, Reason, Run, ok, bail, panic, Read}

-- The reason of an error.
pub data Failure : Type 0 where
  reading : Reason → Failure
  not_sent : Failure
  invalid_tls_ready : Failure
  odd_hex : Failure
  invalid_hex : Failure
  no_public_key : Failure
  connector_failed : Failure
  credssp_failed : Failure
  kerberos : Failure
  not_encoded : Failure
  not_decoded : Failure
  denied : List ℕ → Failure
  too_many_rounds : Failure
  negotiation_failed : ℕ → Failure
  no_rdstls : ℕ → Failure
  rdstls : Verdict → Failure

-- A value, an error, a panic, or a model's fuel that ran out.
pub data Result {ℓ} (A : Type ℓ) : Type ℓ where
  done : A → Result A
  failed : Failure → Result A
  panicked : Result A
  out_of_fuel : Result A

-- What was sent, oldest first; the socket takes `room` more messages before a send fails.
pub record Wire : Type 0 where
  pub framed : WasmFramed
  pub sent : List Message
  pub room : ℕ

abbrev pub Conn {ℓ} : Type ℓ → Type ℓ
Conn A = Wire → Result A × Wire

abbrev pub proceed {ℓ κ} :
    {A : Type ℓ} {B : Type κ} → (A → Conn B) → Result A × Wire → Result B × Wire
proceed k (done a, w) = k a w
proceed k (failed e, w) = (failed e, w)
proceed k (panicked, w) = (panicked, w)
proceed k (out_of_fuel, w) = (out_of_fuel, w)

infixl 5 ◌>>=◌ ◌>>◌
abbrev pub ◌>>=◌ {ℓ κ} : {A : Type ℓ} {B : Type κ} → Conn A → (A → Conn B) → Conn B
◌>>=◌ m k w = proceed k (m w)

abbrev pub ◌>>◌ {ℓ κ} : {A : Type ℓ} {B : Type κ} → Conn A → Conn B → Conn B
m >> k = m >>= λ _. k

abbrev pub pure {ℓ} : {A : Type ℓ} → A → Conn A
pure a w = (done a, w)

abbrev pub fail {ℓ} : {A : Type ℓ} → Failure → Conn A
fail e w = (failed e, w)

abbrev pub of_result {ℓ} : {A : Type ℓ} → Result A → Conn A
of_result r w = (r, w)

-- `.ok_or(e)?`
abbrev pub or_fail {ℓ} : {A : Type ℓ} → Failure → Option A → Conn A
or_fail e none = fail e
or_fail e (some a) = pure a

-- `ws_write.send(message).await?`
unfoldable pub send : Message → Conn (Unit {0})
send m w =
    if w.room == 0
    then (failed not_sent, w)
    else (done tt, record w { sent = w.sent ++ m ∷ []; room = w.room - 1 })

abbrev pub of_run : {A : Type 0} → Run A → Result A
of_run (ok a) = done a
of_run (bail e) = failed (reading e)
of_run panic = panicked
of_run Run.out_of_fuel = out_of_fuel

-- A reader of `framed`, its error passed on.
unfoldable pub reader : {A : Type 0} → Read A → Conn A
reader m w = let (r, f) = m (w.framed) in (of_run r, record w { framed = f })
