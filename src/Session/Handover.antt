-- ===== src/Session/Handover.antt =====
-- wasm/src/session.rs: what a redirected connection sends before and after the negotiation.
use wasm_rdp.Prelude.{ℕ, ◌≡◌, sym, ap, ◌∙◌, List, [], ◌∷◌, ◌++◌, append_assoc, append-nil, inl, inr}
use wasm_rdp.Framed.{Message, bytes, text}
use wasm_rdp.Redirect.{PendingRedirect}
use wasm_rdp.Session.Wire.{done, Wire, Conn, ◌>>◌}
use wasm_rdp.Session.Tls.{upgrade_command, perform_tls_upgrade}
use wasm_rdp.Session.Credssp.{Sspi}
use wasm_rdp.Session.Connection.{Connector, connection_loop}
use wasm_rdp.Session.Redirected.{
  Nego, negotiate, auth_request, rdstls_exchange, perform_redirected_connection,
}
use wasm_rdp.Session.Extends.{Extends-connection}
use wasm_rdp.Session.Quiet.{stops}
use wasm_rdp.Session.Parts.{Chosen, negotiate-Said, negotiate-done, tls-Said, tls-done}
use wasm_rdp.Session.Exchange.{
  AcceptedCapabilities, AcceptedCredentials, Exchanged, exchange-Exchanged, exchange-done,
}

module _ (connector : Connector) (sspi : Sspi) (nego : Nego) (pending : PendingRedirect) where
  open connector use {State, ConnectionResult}

  -- How far the connection came, by what was sent. The credentials are in the last message. The states of
  -- the socket are those that the connection passed through, from `w` on.
  pub data Handover (w v : Wire) : Type 0 where
    silent : v.sent ≡ w.sent → Handover w v
    requested : (request : List ℕ) → v.sent ≡ w.sent ++ bytes request ∷ [] → Handover w v
    upgrading :
        (u : Wire) (c : Chosen connector sspi nego pending w u)
        → v.sent ≡ w.sent ++ bytes (c.request) ∷ text upgrade_command ∷ []
        → Handover w v
    handed_over :
        (u u' : Wire) (c : Chosen connector sspi nego pending w u) (certificate : List ℕ)
        → perform_tls_upgrade u ≡ (done certificate, u')
        → AcceptedCapabilities connector sspi nego pending u'
        → v.sent
          ≡ w.sent
            ++ bytes (c.request)
              ∷ text upgrade_command
              ∷ bytes (auth_request connector sspi nego pending)
              ∷ []
        → Handover w v
    authenticated :
        (u u' : Wire) (c : Chosen connector sspi nego pending w u) (certificate : List ℕ)
        → perform_tls_upgrade u ≡ (done certificate, u')
        → (caps : AcceptedCapabilities connector sspi nego pending u')
        → AcceptedCredentials connector sspi nego pending (caps.left)
        → (later : List Message)
        → v.sent
          ≡ w.sent
            ++ bytes (c.request)
              ∷ text upgrade_command
              ∷ bytes (auth_request connector sspi nego pending)
              ∷ later
        → Handover w v

  module _ (fuel : ℕ) (s : State) (w : Wire) where
    abbrev go_on : ℕ → Conn ConnectionResult
    go_on protocol =
        connection_loop connector sspi fuel
          (record { state = connector.basic_settings protocol s; buf = []; server_public_key = [] })

    three :
        (us vs : List Message) (request : List ℕ) (later : List Message)
        → us ≡ w.sent ++ bytes request ∷ text upgrade_command ∷ []
        → vs ≡ (us ++ bytes (auth_request connector sspi nego pending) ∷ []) ++ later
        → vs
          ≡ w.sent
            ++ bytes request
              ∷ text upgrade_command
              ∷ bytes (auth_request connector sspi nego pending)
              ∷ later
    three us vs request later e e' =
        e'
        ∙ ap (λ q. (q ++ bytes (auth_request connector sspi nego pending) ∷ []) ++ later) e
        ∙ simp append_assoc

    -- From the exchange on, when TLS stands.
    exchange-Handover :
        (u1 u2 : Wire) (c : Chosen connector sspi nego pending w u1) (protocol : ℕ)
        (certificate : List ℕ)
        → u2.sent ≡ w.sent ++ bytes (c.request) ∷ text upgrade_command ∷ []
        → perform_tls_upgrade u1 ≡ (done certificate, u2)
        → Handover w (((rdstls_exchange connector sspi nego pending >> go_on protocol) u2).1)
    unfolding Exchanged
    exchange-Handover u1 u2 c protocol certificate both tls =
        elim (stops (λ _. go_on protocol) (rdstls_exchange connector sspi nego pending u2)) [
          | inr h ↦ rw h (elim (exchange-Exchanged connector sspi nego pending u2) [
            | inl quiet ↦ upgrading u1 c (quiet ∙ both)
            | inr (caps, said) ↦
                handed_over u1 u2 c certificate tls caps
                  (three (u2.sent) _ (c.request) [] both (said ∙ sym (append-nil _)))
          ])
          | inl (_, u3, e) ↦
              let (caps, credentials, said) = exchange-done connector sspi nego pending u2 u3 e in
              let (later, more) =
                Extends-connection connector sspi fuel
                  (record {
                    state = connector.basic_settings protocol s;
                    buf = [];
                    server_public_key = [];
                  })
                  u3 in
              rw e (
                authenticated u1 u2 c certificate tls caps credentials later
                  (three (u2.sent) _ (c.request) later both (more ∙ ap (λ q. q ++ later) said)))
        ]

    tls-Handover :
        (u1 : Wire) (c : Chosen connector sspi nego pending w u1) (protocol : ℕ)
        → u1.sent ≡ w.sent ++ bytes (c.request) ∷ []
        → Handover w (
            ((perform_tls_upgrade
                >> (rdstls_exchange connector sspi nego pending >> go_on protocol))
              u1).1)
    tls-Handover u1 c protocol said =
        elim (stops (λ _. rdstls_exchange connector sspi nego pending >> go_on protocol)
          (perform_tls_upgrade u1)) [
            | inr h ↦ rw h (elim (tls-Said connector sspi nego pending u1) [
              | inl quiet ↦ requested (c.request) (quiet ∙ said)
              | inr sent ↦
                  upgrading u1 c
                    (sent ∙ ap (λ q. q ++ text upgrade_command ∷ []) said ∙ simp append_assoc)
            ])
            | inl (certificate, u2, e) ↦ rw e (
                exchange-Handover u1 u2 c protocol certificate
                  (tls-done connector sspi nego pending u1 u2 certificate e
                    ∙ ap (λ q. q ++ text upgrade_command ∷ []) said
                    ∙ simp append_assoc)
                  e)
          ]

    -- Whatever the server and the relay do, and wherever the connection ends: the redirected session's
    -- credentials are sent only as the third message, after the PDU that was read behind the request named
    -- a protocol with RDSTLS, the upgrade that ran from there gave the certificate of a TLS connection, and
    -- the eight bytes that were read next are capabilities that are accepted; anything more is sent only
    -- after the ten bytes that were read behind the credentials accepted these; the request for TLS is sent
    -- only after the server chose RDSTLS; and what was sent before stays sent.
    pub perform_redirected_connection-Handover :
        Handover w ((perform_redirected_connection connector sspi nego fuel s pending w).1)
    unfolding perform_redirected_connection
    perform_redirected_connection-Handover =
        elim (stops
          (λ protocol.
            perform_tls_upgrade >> (rdstls_exchange connector sspi nego pending >> go_on protocol))
          (negotiate connector sspi nego pending w)) [
            | inr h ↦ rw h (elim (negotiate-Said connector sspi nego pending w) [
              | inl quiet ↦ silent quiet
              | inr (request, said) ↦ requested request said
            ])
            | inl (protocol, u1, e) ↦
                let (c, said) = negotiate-done connector sspi nego pending w u1 protocol e in
                rw e (tls-Handover u1 c protocol said)
          ]
