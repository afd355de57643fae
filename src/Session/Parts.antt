-- ===== src/Session/Parts.antt =====
-- wasm/src/session.rs: what the parts of a redirected connection send.
use wasm_rdp.Prelude.{
  ℕ, ◌≡◌, refl, sym, ap, ◌∙◌, ◌⊎◌, true, some, List, [], ◌∷◌, ◌++◌, Bool-cases, Option-cases, inl,
  inr,
}
use wasm_rdp.Framed.{bytes, text, read_by_hint, read_text_message}
use wasm_rdp.Redirect.{PendingRedirect}
use wasm_rdp.Session.Wire.{done, Wire, or_fail, send, reader}
use wasm_rdp.Session.Tls.{parse_tls_ready, upgrade_command, perform_tls_upgrade}
use wasm_rdp.Session.Credssp.{Sspi}
use wasm_rdp.Session.Connection.{Connector}
use wasm_rdp.Session.Redirected.{
  Nego, ConnectionConfirm, response, failure, confirmed, routing_value, read_confirm, negotiate,
  selected_rdstls,
}
use wasm_rdp.Session.Done.{value, proceed-done, or_fail-done, send-done, reader-done}
use wasm_rdp.Session.Quiet.{Quiet, Quiet-bind, Quiet-or_fail, Quiet-if, Quiet-end, Said, send-Said}

module _ (connector : Connector) (sspi : Sspi) (nego : Nego) (pending : PendingRedirect) where
  open connector use {State, ConnectionResult}

  Quiet-selected : (protocol : ℕ) → Quiet (selected_rdstls connector sspi nego protocol)
  Quiet-selected protocol = Quiet-if (nego.contains_rdstls protocol) _ _ (λ w. refl) (λ w. refl)

  Quiet-confirmed : (c : ConnectionConfirm) → Quiet (confirmed c)
  Quiet-confirmed (response protocol) w = refl
  Quiet-confirmed (failure code) w = refl

  read_confirm-Quiet : Quiet (read_confirm connector sspi nego)
  unfolding read_confirm
  read_confirm-Quiet =
      Quiet-bind (reader (read_by_hint (nego.x224_hint))) _ (λ u. unfold reader in refl)
        λ confirm_bytes.
          Quiet-bind (or_fail _ (nego.connection_confirm confirm_bytes)) _ (Quiet-or_fail _ _)
            λ confirm. Quiet-bind (confirmed confirm) _ (Quiet-confirmed confirm) λ protocol.
              Quiet-bind (selected_rdstls connector sspi nego protocol) _ (Quiet-selected protocol)
                λ _ u. refl

  pub negotiate-Said :
      (w : Wire)
      → ((negotiate connector sspi nego pending w).1.sent ≡ w.sent)
        ⊎ ((request : List ℕ) × ((negotiate connector sspi nego pending w).1.sent
              ≡ w.sent ++ bytes request ∷ []))
  unfolding negotiate
  negotiate-Said w =
      elim (Option-cases (nego.connection_request (routing_value (pending.routing_token)))) [
        | inl e ↦ rw e (inl refl)
        | inr (request, e) ↦
            rw e
              (elim (send-Said (bytes request) (read_confirm connector sspi nego) w
                read_confirm-Quiet) [ inl h ↦ inl h | inr h ↦ inr (request, h) ])
      ]

  confirmed-done :
      (c : ConnectionConfirm) (w : Wire) {protocol : ℕ} {u : Wire}
      → confirmed c w ≡ (done protocol, u)
      → (c ≡ response protocol) × (w ≡ u)
  confirmed-done (response p) w h =
      (let e : some p ≡ some _ = ap (λ q. value (q.0)) h in cc, ap (λ q. q.1) h)
  confirmed-done (failure code) w h = absurd (cc)

  -- The server chose RDSTLS: the request was sent on the first socket, and the confirmation that names the
  -- protocol is the PDU that was read next, up to the second.
  pub record Chosen (w u : Wire) : Type 0 where
    pub request : List ℕ
    pub confirm_bytes : List ℕ
    pub protocol : ℕ
    pub waiting : Wire
    pub encoded : nego.connection_request (routing_value (pending.routing_token)) ≡ some request
    pub was_sent : send (bytes request) w ≡ (done tt, waiting)
    pub was_read : reader (read_by_hint (nego.x224_hint)) waiting ≡ (done confirm_bytes, u)
    pub names : nego.connection_confirm confirm_bytes ≡ some (response protocol)
    pub is_rdstls : nego.contains_rdstls protocol ≡ true

  -- A choice is RDSTLS, and stands in the PDU that was read.
  read_confirm-done :
      (w u : Wire) (protocol : ℕ)
      → read_confirm connector sspi nego w ≡ (done protocol, u)
      → (confirm_bytes : List ℕ) × (reader (read_by_hint (nego.x224_hint)) w
          ≡ (done confirm_bytes, u))
        × (nego.connection_confirm confirm_bytes ≡ some (response protocol))
        × (nego.contains_rdstls protocol ≡ true)
  unfolding read_confirm
  read_confirm-done w u protocol h =
      let (confirm_bytes, u1, a, h1) =
        proceed-done _ (reader (read_by_hint (nego.x224_hint)) w) h in
      let (confirm, u2, b, h2) =
        proceed-done _ (or_fail _ (nego.connection_confirm confirm_bytes) u1) h1 in
      let (read, same1) = or_fail-done _ (nego.connection_confirm confirm_bytes) u1 b in
      let (chosen, u3, c, h3) = proceed-done _ (confirmed confirm u2) h2 in
      let (said, same2) = confirmed-done confirm u2 c in
      let (_, u4, d, h4) = proceed-done _ (selected_rdstls connector sspi nego chosen u3) h3 in
      let same : chosen ≡ protocol = cc (ap (λ q. value (q.0)) h4) in
      elim (Bool-cases (nego.contains_rdstls chosen)) [
        | inl is_rdstls ↦
            let same3 : u3 ≡ u4 = ap (λ q. q.1) (rw is_rdstls at d) in
            let ended : u1 ≡ u = same1 ∙ same2 ∙ same3 ∙ ap (λ q. q.1) h4 in
            (
              confirm_bytes,
              rw (← ended) a,
              read ∙ ap some (said ∙ ap response same),
              rw (← same) is_rdstls,
            )
        | inr other ↦ absurd (cc (rw other at d))
      ]

  pub negotiate-done :
      (w u : Wire) (protocol : ℕ)
      → negotiate connector sspi nego pending w ≡ (done protocol, u)
      → (c : Chosen w u) × (u.sent ≡ w.sent ++ bytes (c.request) ∷ [])
  unfolding negotiate
  negotiate-done w u protocol h =
      let (request, u1, a, h1) =
        proceed-done _
          (or_fail _ (nego.connection_request (routing_value (pending.routing_token))) w) h in
      let (encoded, same) =
        or_fail-done _ (nego.connection_request (routing_value (pending.routing_token))) w a in
      let (_, u2, b, h2) = proceed-done _ (send (bytes request) u1) h1 in
      let (confirm_bytes, was_read, names, is_rdstls) = read_confirm-done u2 u protocol h2 in
      (
        record {
          request = request;
          confirm_bytes = confirm_bytes;
          protocol = protocol;
          waiting = u2;
          encoded = encoded;
          was_sent = rw same b;
          was_read = was_read;
          names = names;
          is_rdstls = is_rdstls;
        },
        Quiet-end (read_confirm connector sspi nego) read_confirm-Quiet u2 h2
            ∙ send-done (bytes request) u1 b
            ∙ ap (λ q. q.sent ++ bytes request ∷ []) (sym same),
      )

  pub tls-Said : (w : Wire) → Said (text upgrade_command) w ((perform_tls_upgrade w).1)
  unfolding perform_tls_upgrade
  tls-Said w = send-Said (text upgrade_command) _ w (
      Quiet-bind (reader read_text_message) _ (λ u. unfold reader in refl)
        λ answer.
          Quiet-bind (or_fail _ (parse_tls_ready answer)) _ (Quiet-or_fail _ _) λ cert u. refl)

  pub tls-done :
      (w u : Wire) (certificate : List ℕ)
      → perform_tls_upgrade w ≡ (done certificate, u)
      → u.sent ≡ w.sent ++ text upgrade_command ∷ []
  unfolding perform_tls_upgrade
  tls-done w u certificate h =
      let (_, u1, a, h1) = proceed-done _ (send (text upgrade_command) w) h in
      let (answer, u2, b, h2) = proceed-done _ (reader read_text_message u1) h1 in
      let (cert, u3, c, h3) = proceed-done _ (or_fail _ (parse_tls_ready answer) u2) h2 in
      let (_, same) = or_fail-done _ (parse_tls_ready answer) u2 c in
      sym (ap (λ q. q.1.sent) h3)
      ∙ ap (λ q. q.sent) (sym same)
      ∙ reader-done read_text_message u1 b
      ∙ send-done (text upgrade_command) w a
