-- ===== src/Session/Exchange.antt =====
-- wasm/src/session.rs: what the exchange of the capabilities and the credentials sends.
use wasm_rdp.Prelude.{
  ℕ, ◌+◌, ◌≡◌, refl, sym, ap, ◌∙◌, ◌⊎◌, Bool, true, false, Option, none, some, List, [], ◌∷◌, ◌++◌,
  append_assoc, append-nil, ◌==◌, not_zero, if◌then◌else◌, Bool-cases, Option-cases, inl, inr,
  Outcome,
}
use wasm_rdp.Prelude
use wasm_rdp.Framed.{bytes, read_exact}
use wasm_rdp.Redirect.{accepted, PendingRedirect, parse_capabilities, parse_auth_response}
use wasm_rdp.Session.Wire.{done, Wire, ◌>>◌, of_result, send, reader}
use wasm_rdp.Session.Credssp.{Sspi}
use wasm_rdp.Session.Connection.{Connector}
use wasm_rdp.Session.Redirected.{Nego, verdict, read_auth_response, auth_request, rdstls_exchange}
use wasm_rdp.Session.Done.{value, proceed-done, send-done, reader-done}
use wasm_rdp.Session.Quiet.{stops, Quiet, Quiet-bind, Quiet-end, verdict-done, send-Said}

module _ (connector : Connector) (sspi : Sspi) (nego : Nego) (pending : PendingRedirect) where
  open connector use {State, ConnectionResult}

  read_auth_response-Quiet : Quiet (read_auth_response connector sspi nego)
  unfolding read_auth_response
  read_auth_response-Quiet =
      Quiet-bind (reader (read_exact 10)) _ (λ u. unfold reader in refl) λ response_bytes u. refl

  -- The next eight bytes of the socket are capabilities that are accepted.
  pub record AcceptedCapabilities (w : Wire) : Type 0 where
    pub caps_bytes : List ℕ
    pub left : Wire
    pub were_read : reader (read_exact 8) w ≡ (done caps_bytes, left)
    pub are_accepted : parse_capabilities caps_bytes ≡ Prelude.returned accepted

  -- The credentials were sent on a socket, and the ten bytes that were read next accept them.
  pub record AcceptedCredentials (w : Wire) : Type 0 where
    pub response_bytes : List ℕ
    pub asked : Wire
    pub answered : Wire
    pub was_asked : send (bytes (auth_request connector sspi nego pending)) w ≡ (done tt, asked)
    pub was_answered : reader (read_exact 10) asked ≡ (done response_bytes, answered)
    pub are_accepted : parse_auth_response response_bytes ≡ Prelude.returned accepted

  read_auth_response-done :
      (w u : Wire)
      → read_auth_response connector sspi nego w ≡ (done tt, u)
      → (response_bytes : List ℕ) × (v : Wire) × (reader (read_exact 10) w
          ≡ (done response_bytes, v))
        × (parse_auth_response response_bytes ≡ Prelude.returned accepted)
  unfolding read_auth_response
  read_auth_response-done w u h =
      let (response_bytes, v, a, h1) = proceed-done _ (reader (read_exact 10) w) h in
      (
        response_bytes,
        v,
        a,
        verdict-done (parse_auth_response response_bytes) (ap (λ q. value (q.0)) h1),
      )

  -- The capabilities are accepted before the credentials are sent.
  unfoldable pub Exchanged : Wire → Wire → Type 0
  Exchanged w v =
      (v.sent ≡ w.sent)
      ⊎ ((c : AcceptedCapabilities w) × (v.sent
            ≡ w.sent ++ bytes (auth_request connector sspi nego pending) ∷ []))

  after_caps :
      (caps_bytes : List ℕ) (w u : Wire)
      → reader (read_exact 8) w ≡ (done caps_bytes, u)
      → u.sent ≡ w.sent
      → Exchanged w (
          ((of_result (verdict (parse_capabilities caps_bytes))
              >> (send (bytes (auth_request connector sspi nego pending))
                  >> read_auth_response connector sspi nego))
            u).1)
  unfolding Exchanged
  after_caps caps_bytes w u read quiet =
      elim (stops
        (λ _.
          send (bytes (auth_request connector sspi nego pending))
          >> read_auth_response connector sspi nego)
        (verdict (parse_capabilities caps_bytes), u)) [
          | inr h ↦ inl (ap (λ q. q.sent) h ∙ quiet)
          | inl (_, u', e) ↦
              let ok = verdict-done (parse_capabilities caps_bytes) (ap (λ q. value (q.0)) e) in
              rw ok
                (elim (send-Said (bytes (auth_request connector sspi nego pending))
                  (read_auth_response connector sspi nego) u read_auth_response-Quiet) [
                    | inl h ↦ inl (h ∙ quiet)
                    | inr h ↦ inr (
                      record {
                        caps_bytes = caps_bytes;
                        left = u;
                        were_read = read;
                        are_accepted = ok;
                      },
                      h
                          ∙ ap (λ q. q ++ bytes (auth_request connector sspi nego pending) ∷ [])
                              quiet,
                    )
                  ])
        ]

  pub exchange-Exchanged :
      (w : Wire) → Exchanged w ((rdstls_exchange connector sspi nego pending w).1)
  unfolding rdstls_exchange
  exchange-Exchanged w =
      elim (stops
        (λ caps_bytes.
          of_result (verdict (parse_capabilities caps_bytes))
          >> (send (bytes (auth_request connector sspi nego pending))
              >> read_auth_response connector sspi nego))
        (reader (read_exact 8) w)) [
          | inr h ↦ unfold Exchanged in inl (ap (λ q. q.sent) h ∙ unfold reader in refl)
          | inl (caps_bytes, u, e) ↦
              rw e (after_caps caps_bytes w u e (reader-done (read_exact 8) w e))
        ]

  pub exchange-done :
      (w u : Wire)
      → rdstls_exchange connector sspi nego pending w ≡ (done tt, u)
      → (c : AcceptedCapabilities w) × AcceptedCredentials (c.left)
        × (u.sent ≡ w.sent ++ bytes (auth_request connector sspi nego pending) ∷ [])
  unfolding rdstls_exchange
  exchange-done w u h =
      let (caps_bytes, u1, a, h1) = proceed-done _ (reader (read_exact 8) w) h in
      let (_, u2, b, h2) =
        proceed-done _ (of_result (verdict (parse_capabilities caps_bytes)) u1) h1 in
      let (_, u3, c, h3) =
        proceed-done _ (send (bytes (auth_request connector sspi nego pending)) u2) h2 in
      let (response_bytes, v, answered, ok) = read_auth_response-done u3 u h3 in
      (
        record {
          caps_bytes = caps_bytes;
          left = u1;
          were_read = a;
          are_accepted = verdict-done (parse_capabilities caps_bytes) (ap (λ q. value (q.0)) b);
        },
        record {
          response_bytes = response_bytes;
          asked = u3;
          answered = v;
          was_asked = rw (ap (λ q. q.1) b) c;
          was_answered = answered;
          are_accepted = ok;
        },
        Quiet-end (read_auth_response connector sspi nego) read_auth_response-Quiet u3 h3
            ∙ send-done _ u2 c
            ∙ ap (λ q. q ++ bytes (auth_request connector sspi nego pending) ∷ [])
                (sym (ap (λ q. q.1.sent) b) ∙ reader-done (read_exact 8) w a),
      )
