-- ===== src/Session/Connection.antt =====
-- wasm/src/session.rs: `perform_connection`. The connector of the package ironrdp is an interface, and so is
-- x509_cert's reading of a certificate.
use wasm_rdp.Prelude.{
  ℕ, zero, suc, Bool, true, false, Option, none, some, List, [], ◌∷◌, length, ◌==◌, if◌then◌else◌,
}
use wasm_rdp.Framed.{bytes, Found, read_by_hint}
use wasm_rdp.Session.Wire.{
  no_public_key, connector_failed, out_of_fuel, Conn, ◌>>=◌, ◌>>◌, pure, or_fail, send, reader,
}
use wasm_rdp.Session.Tls.{perform_tls_upgrade}
use wasm_rdp.Session.Credssp.{Sspi, perform_credssp}

-- A step gives the next state, whether something was written, and the buffer.
pub record Connector : Type 1 where
  pub State : Type 0
  pub ConnectionResult : Type 0
  pub connected : State → Option ConnectionResult
  pub should_perform_security_upgrade : State → Bool
  pub mark_security_upgrade_as_done : State → State
  pub should_perform_credssp : State → Bool
  pub mark_credssp_as_done : State → State
  pub hybrid_ex : State → Bool
  pub next_pdu_hint : State → Option (List ℕ → Found)
  pub step : List ℕ → List ℕ → State → Option (State × Bool × List ℕ)
  pub step_no_input : List ℕ → State → Option (State × Bool × List ℕ)
  -- `ClientConnectorState::BasicSettingsExchangeSendInitial`
  pub basic_settings : ℕ → State → State
  -- `extract_public_key`
  pub public_key : List ℕ → Option (List ℕ)

module _ (connector : Connector) (sspi : Sspi) where
  open connector use {State, ConnectionResult}

  -- `connector`, `buf` and `server_public_key`
  pub record Progress : Type 0 where
    pub state : State
    pub buf : List ℕ
    pub server_public_key : List ℕ

  -- What was written is sent, if it is not empty, and the buffer cleared.
  unfoldable pub send_written : State × Bool × List ℕ → Progress → Conn Progress
  send_written (s, false, buf) p = pure (record p { state = s; buf = buf })
  send_written (s, true, []) p = pure (record p { state = s; buf = [] })
  send_written (s, true, b ∷ filled) p = do
    send (bytes (b ∷ filled))
    pure (record p { state = s; buf = [] })

  unfoldable pub step_by : Option (List ℕ → Found) → Progress → Conn Progress
  unfolding send_written
  step_by none p = do
    written ← or_fail connector_failed (connector.step_no_input (p.buf) (p.state))
    send_written written p
  step_by (some hint) p = do
    pdu ← reader (read_by_hint hint)
    written ← or_fail connector_failed (connector.step pdu (p.buf) (p.state))
    send_written written p

  unfoldable pub upgrade_round : Progress → Conn Progress
  upgrade_round p = do
    cert_der ← perform_tls_upgrade
    key ← or_fail no_public_key (connector.public_key cert_der)
    pure (record p {
      state = connector.mark_security_upgrade_as_done (p.state);
      server_public_key = key;
    })

  -- Without a key CredSSP is left out; its failure is the connection's.
  unfoldable pub credssp_round : Progress → Conn Progress
  credssp_round p =
      let done = record p { state = connector.mark_credssp_as_done (p.state) } in
      if length (p.server_public_key) == 0 then pure done else (do
        perform_credssp sspi (p.server_public_key) (connector.hybrid_ex (p.state))
        pure done)

  -- One round of the loop, when the connector is not connected.
  unfoldable pub round : Progress → Conn Progress
  unfolding upgrade_round credssp_round step_by
  round p =
      if connector.should_perform_security_upgrade (p.state)
      then upgrade_round p
      else (if connector.should_perform_credssp (p.state)
          then credssp_round p
          else step_by (connector.next_pdu_hint (p.state)) p)

  unfoldable pub or_else : Option ConnectionResult → Conn ConnectionResult → Conn ConnectionResult
  or_else (some result) go_on = pure result
  or_else none go_on = go_on

  unfoldable pub connection_loop : ℕ → Progress → Conn ConnectionResult
  unfolding round or_else
  connection_loop zero p w = (out_of_fuel, w)
  connection_loop (suc fuel) p w =
      or_else (connector.connected (p.state)) (round p >>= connection_loop fuel) w

  -- `fuel` bounds the rounds.
  unfoldable pub perform_connection : ℕ → State → Conn ConnectionResult
  unfolding connection_loop
  perform_connection fuel s =
      connection_loop fuel (record { state = s; buf = []; server_public_key = [] })
