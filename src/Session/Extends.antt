-- ===== src/Session/Extends.antt =====
-- wasm/src/session.rs: the messages that a part of a connection adds to those that were sent.
use wasm_rdp.Prelude.{
  ℕ, zero, suc, ◌+◌, ◌≡◌, refl, sym, ap, ◌∙◌, Bool, true, false, Option, none, some, List, [], ◌∷◌,
  ◌++◌, append_assoc, append-nil, length, ltb, ◌==◌, if◌then◌else◌, Bool-cases, inl, inr, same_text,
}
use wasm_rdp.Framed.{
  Message, bytes, text, Read, Found, read_text_message, read_by_hint, read_credssp_response,
  read_exact,
}
use wasm_rdp.Session.Wire.{
  Failure, Result, done, failed, panicked, out_of_fuel, Wire, Conn, proceed, ◌>>=◌, of_result,
  or_fail, send, reader,
}
use wasm_rdp.Session.Tls.{parse_tls_ready, hex_decode, upgrade_command, perform_tls_upgrade}
use wasm_rdp.Session.Credssp.{
  Sspi, Processed, process_error, suspended, reply_needed, final_message, zeros, early_auth_result,
  final_round, reply_round, round_of, credssp_loop, perform_credssp,
}
use wasm_rdp.Session.Connection.{
  Connector, Progress, send_written, step_by, upgrade_round, credssp_round, round, or_else,
  connection_loop,
}

abbrev pub Later : Wire → Wire → Type 0
Later w v = (later : List Message) × (v.sent ≡ w.sent ++ later)

pub Later-same : (w v : Wire) → v.sent ≡ w.sent → Later w v
Later-same w v e = ([], e ∙ sym (append-nil (w.sent)))

pub Later-trans : (w u v : Wire) → Later w u → Later u v → Later w v
Later-trans w u v (xs, e) (ys, e') =
    (xs ++ ys, e' ∙ ap (λ t. t ++ ys) e ∙ append_assoc (w.sent) xs ys)

abbrev pub Extends : {A : Type 0} → Conn A → Type 0
Extends m = (w : Wire) → Later w ((m w).1)

Later-proceed :
    {A B : Type 0} (k : A → Conn B) (w : Wire) (p : Result A × Wire)
    → Later w (p.1)
    → ((a : A) → Extends (k a))
    → Later w ((proceed k p).1)
Later-proceed k w (done a, u) h ext = Later-trans w u ((k a u).1) h (ext a u)
Later-proceed k w (failed e, u) h ext = h
Later-proceed k w (panicked, u) h ext = h
Later-proceed k w (out_of_fuel, u) h ext = h

pub Extends-bind :
    {A B : Type 0} (m : Conn A) (k : A → Conn B)
    → Extends m
    → ((a : A) → Extends (k a))
    → Extends (m >>= k)
Extends-bind m k h ext w = Later-proceed k w (m w) (h w) ext

pub Extends-of_result : {A : Type 0} (r : Result A) → Extends (of_result r)
Extends-of_result r w = Later-same w w refl

pub Extends-or_fail : {A : Type 0} (e : Failure) (o : Option A) → Extends (or_fail e o)
Extends-or_fail e none w = Later-same w w refl
Extends-or_fail e (some a) w = Later-same w w refl

pub Extends-if :
    {A : Type 0} (b : Bool) (m n : Conn A) → Extends m → Extends n → Extends (if b then m else n)
Extends-if true m n h k = h
Extends-if false m n h k = k

pub Extends-send : (m : Message) → Extends (send m)
unfolding send
Extends-send m w = elim (Bool-cases (w.room == 0)) [
  | inl full ↦ rw full (Later-same w w refl)
  | inr room ↦ rw room (m ∷ [], refl)
]

pub Extends-reader : {A : Type 0} (m : Read A) → Extends (reader m)
unfolding reader
Extends-reader m w = ([], sym (append-nil (w.sent)))

pub Extends-tls : Extends perform_tls_upgrade
unfolding perform_tls_upgrade
Extends-tls = Extends-bind (send (text upgrade_command)) _ (Extends-send _) λ _.
    Extends-bind (reader read_text_message) _ (Extends-reader read_text_message) λ answer.
      Extends-bind (or_fail _ (parse_tls_ready answer)) _ (Extends-or_fail _ _)
        λ cert. Extends-of_result (hex_decode cert)

module _ (sspi : Sspi) where
  open sspi use {State, TsRequest}

  Extends-early : (hybrid_ex : Bool) → Extends (early_auth_result sspi hybrid_ex)
  unfolding early_auth_result
  Extends-early false = λ u. Later-same u u refl
  Extends-early true =
      Extends-bind (reader (read_exact 4)) _ (Extends-reader (read_exact 4)) λ auth_result.
        Extends-if (same_text auth_result zeros) _ _ (λ u. Later-same u u refl)
          (λ u. Later-same u u refl)

  Extends-round_of :
      (hybrid_ex : Bool) (round : ℕ) (again : TsRequest → State → Conn (Unit {0}))
      → ((ts_request : TsRequest) (s : State) → Extends (again ts_request s))
      → (x : Processed State TsRequest) → Extends (round_of sspi hybrid_ex round again x)
  unfolding round_of final_round reply_round
  Extends-round_of hybrid_ex round again ext process_error = λ u. Later-same u u refl
  Extends-round_of hybrid_ex round again ext suspended = λ u. Later-same u u refl
  Extends-round_of hybrid_ex round again ext (final_message request s) =
      Extends-bind (or_fail _ (sspi.encode_ts_request request)) _ (Extends-or_fail _ _) λ encoded.
        Extends-bind (send (bytes encoded)) _ (Extends-send _) λ _. Extends-early hybrid_ex
  Extends-round_of hybrid_ex round again ext (reply_needed request s) =
      Extends-bind (reply_round sspi request) _
        (Extends-bind (or_fail _ (sspi.encode_ts_request request)) _ (Extends-or_fail _ _)
          λ encoded. Extends-bind (send (bytes encoded)) _ (Extends-send _) λ _.
            Extends-bind (reader read_credssp_response) _ (Extends-reader read_credssp_response)
              λ answer. Extends-or_fail _ (sspi.from_buffer answer))
        λ ts. Extends-if (ltb 10 round) _ _ (λ u. Later-same u u refl) (ext ts s)

  Extends-loop :
      (fuel : ℕ) (hybrid_ex : Bool) (round : ℕ) (ts : TsRequest) (s : State)
      → Extends (credssp_loop sspi fuel hybrid_ex round ts s)
  unfolding credssp_loop
  Extends-loop zero hybrid_ex round ts s = λ u. Later-same u u refl
  Extends-loop (suc fuel) hybrid_ex round ts s =
      Extends-round_of hybrid_ex (round + 1) _ (Extends-loop fuel hybrid_ex (round + 1))
        (sspi.process ts s)

  pub Extends-credssp :
      (key : List ℕ) (hybrid_ex : Bool) → Extends (perform_credssp sspi key hybrid_ex)
  unfolding perform_credssp
  Extends-credssp key hybrid_ex =
      Extends-bind (or_fail _ (sspi.new key)) _ (Extends-or_fail _ _)
        λ client. Extends-loop 11 hybrid_ex 0 (sspi.default) client

module _ (connector : Connector) (sspi : Sspi) where
  open connector use {State, ConnectionResult}

  Extends-written :
      (x : State × Bool × List ℕ) (p : Progress connector sspi)
      → Extends (send_written connector sspi x p)
  unfolding send_written
  Extends-written (s, false, buf) p = λ u. Later-same u u refl
  Extends-written (s, true, []) p = λ u. Later-same u u refl
  Extends-written (s, true, b ∷ filled) p =
      Extends-bind (send (bytes (b ∷ filled))) _ (Extends-send _) λ _. λ u. Later-same u u refl

  Extends-step :
      (hint : Option (List ℕ → Found)) (p : Progress connector sspi)
      → Extends (step_by connector sspi hint p)
  unfolding step_by
  Extends-step none p =
      Extends-bind (or_fail _ (connector.step_no_input (p.buf) (p.state))) _ (Extends-or_fail _ _)
        λ x. Extends-written x p
  Extends-step (some hint) p =
      Extends-bind (reader (read_by_hint hint)) _ (Extends-reader (read_by_hint hint)) λ pdu.
        Extends-bind (or_fail _ (connector.step pdu (p.buf) (p.state))) _ (Extends-or_fail _ _)
          λ x. Extends-written x p

  Extends-credssp_round : (p : Progress connector sspi) → Extends (credssp_round connector sspi p)
  unfolding credssp_round
  Extends-credssp_round p =
      Extends-if (length (p.server_public_key) == 0) _ _ (λ u. Later-same u u refl)
        (Extends-bind (perform_credssp sspi (p.server_public_key) (connector.hybrid_ex (p.state))) _
          (Extends-credssp sspi (p.server_public_key) (connector.hybrid_ex (p.state)))
          λ _. λ u. Later-same u u refl)

  Extends-upgrade_round : (p : Progress connector sspi) → Extends (upgrade_round connector sspi p)
  unfolding upgrade_round
  Extends-upgrade_round p = Extends-bind perform_tls_upgrade _ Extends-tls λ cert_der.
      Extends-bind (or_fail _ (connector.public_key cert_der)) _ (Extends-or_fail _ _)
        λ key. λ u. Later-same u u refl

  Extends-round : (p : Progress connector sspi) → Extends (round connector sspi p)
  unfolding round
  Extends-round p =
      Extends-if (connector.should_perform_security_upgrade (p.state)) _ _ (Extends-upgrade_round p)
        (Extends-if (connector.should_perform_credssp (p.state)) _ _ (Extends-credssp_round p)
          (Extends-step (connector.next_pdu_hint (p.state)) p))

  Extends-or_else :
      (o : Option ConnectionResult) (m : Conn ConnectionResult)
      → Extends m
      → Extends (or_else connector sspi o m)
  unfolding or_else
  Extends-or_else none m h = h
  Extends-or_else (some result) m h = λ u. Later-same u u refl

  pub Extends-connection :
      (fuel : ℕ) (p : Progress connector sspi) → Extends (connection_loop connector sspi fuel p)
  unfolding connection_loop
  Extends-connection zero p = λ u. Later-same u u refl
  Extends-connection (suc fuel) p =
      Extends-or_else (connector.connected (p.state)) _
        (Extends-bind (round connector sspi p) _ (Extends-round p) (Extends-connection fuel))
