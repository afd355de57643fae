-- ===== src/Session/Redirected.antt =====
-- wasm/src/session.rs: `perform_redirected_connection`. The X.224 PDUs are the package ironrdp_pdu's. The
-- check of the certificate (Redirect) only logs.
use wasm_rdp.Prelude.{
  ℕ, Bool, true, false, ◌&&◌, ◌||◌, Option, none, some, List, [], ◌∷◌, length, drop, ◌==◌,
  if◌then◌else◌, codes, starts_with, from_utf8_lossy, Outcome,
}
use wasm_rdp.Prelude
use wasm_rdp.Framed.{bytes, Found, read_by_hint, read_exact}
use wasm_rdp.Redirect.{
  Verdict, accepted, PendingRedirect, parse_capabilities, build_auth_request, parse_auth_response,
}
use wasm_rdp.Session.Wire.{
  not_encoded, not_decoded, negotiation_failed, no_rdstls, rdstls, Result, done, failed, panicked,
  Conn, ◌>>=◌, ◌>>◌, pure, fail, of_result, or_fail, send, reader,
}
use wasm_rdp.Session.Tls.{perform_tls_upgrade}
use wasm_rdp.Session.Credssp.{Sspi}
use wasm_rdp.Session.Connection.{Connector, connection_loop}

-- `nego::ConnectionConfirm`
pub data ConnectionConfirm : Type 0 where
  response : ℕ → ConnectionConfirm
  failure : ℕ → ConnectionConfirm

pub record Nego : Type 0 where
  -- The request for SSL or RDSTLS with a routing token, encoded.
  pub connection_request : Option (List ℕ) → Option (List ℕ)
  pub x224_hint : List ℕ → Found
  pub connection_confirm : List ℕ → Option ConnectionConfirm
  pub contains_rdstls : ℕ → Bool

-- `trim_end_matches(['\r', '\n'])`
unfoldable pub trim_line_end : List ℕ → List ℕ
trim_line_end [] = []
trim_line_end (c ∷ cs) =
    let rest = trim_line_end cs in if (c == 13 || c == 10) && length rest == 0 then [] else c ∷ rest

abbrev pub cookie : List ℕ
cookie = codes "Cookie: msts="

-- `strip_prefix("Cookie: msts=").unwrap_or(value)`
unfoldable pub strip_cookie : List ℕ → List ℕ
strip_cookie value = if starts_with value cookie then drop (length cookie) value else value

unfoldable pub routing_value : Option (List ℕ) → Option (List ℕ)
unfolding trim_line_end strip_cookie
routing_value none = none
routing_value (some token) = some (strip_cookie (trim_line_end (from_utf8_lossy token)))

abbrev pub confirmed : ConnectionConfirm → Conn ℕ
confirmed (response protocol) = pure protocol
confirmed (failure code) = fail (negotiation_failed code)

abbrev pub verdict : Outcome Verdict → Result (Unit {0})
verdict (Prelude.returned accepted) = done tt
verdict (Prelude.returned v) = failed (rdstls v)
verdict Prelude.panicked = panicked

module _ (connector : Connector) (sspi : Sspi) (nego : Nego) where
  open connector use {State, ConnectionResult}

  abbrev pub auth_request : PendingRedirect → List ℕ
  auth_request pending =
      build_auth_request (pending.redirection_guid) (pending.user_name) (pending.domain)
        (pending.password)

  unfoldable pub read_auth_response : Conn (Unit {0})
  read_auth_response = do
    response_bytes ← reader (read_exact 10)
    of_result (verdict (parse_auth_response response_bytes))

  -- From the capabilities on.
  unfoldable pub rdstls_exchange : PendingRedirect → Conn (Unit {0})
  unfolding read_auth_response
  rdstls_exchange pending = do
    caps_bytes ← reader (read_exact 8)
    of_result (verdict (parse_capabilities caps_bytes))
    send (bytes (auth_request pending))
    read_auth_response

  abbrev pub selected_rdstls : ℕ → Conn (Unit {0})
  selected_rdstls protocol =
      if nego.contains_rdstls protocol then pure tt else fail (no_rdstls protocol)

  -- The server's choice must be RDSTLS.
  unfoldable pub read_confirm : Conn ℕ
  read_confirm = do
    confirm_bytes ← reader (read_by_hint (nego.x224_hint))
    confirm ← or_fail not_decoded (nego.connection_confirm confirm_bytes)
    protocol ← confirmed confirm
    selected_rdstls protocol
    pure protocol

  unfoldable pub negotiate : PendingRedirect → Conn ℕ
  unfolding routing_value read_confirm
  negotiate pending = do
    request ← or_fail not_encoded (nego.connection_request (routing_value (pending.routing_token)))
    send (bytes request)
    read_confirm

  unfoldable pub perform_redirected_connection : ℕ → State → PendingRedirect → Conn ConnectionResult
  unfolding negotiate rdstls_exchange
  perform_redirected_connection fuel s pending = do
    protocol ← negotiate pending
    cert_der ← perform_tls_upgrade
    rdstls_exchange pending
    connection_loop connector sspi fuel
        (record { state = connector.basic_settings protocol s; buf = []; server_public_key = [] })
