-- ===== src/Session/Tests.antt =====
-- wasm/src/session.rs: connections at concrete inputs.
use wasm_rdp.Prelude.{
  ℕ, zero, suc, ◌≡◌, refl, Bool, true, false, Option, none, some, List, [], ◌∷◌, ◌++◌, codes,
  same_text, if◌then◌else◌, arith, ◌==◌,
}
use wasm_rdp.Framed.{
  Message, bytes, text, WasmFramed, new, read_exact, read_credssp_response, Found, size, fill_to,
  split_to, fill_buf,
}
use wasm_rdp.Framed
use wasm_rdp.Framed.Fill.{stream}
use wasm_rdp.Relay
use wasm_rdp.Relay.{
  Json, Relay, Answers, secured, message, from_browser, tunneling, hex_encode, handle_ws, step,
}
use wasm_rdp.Session.Wire.{Wire, done, send, reader}
use wasm_rdp.Session.Tls.{upgrade_command, perform_tls_upgrade}
use wasm_rdp.Session.Upgrade.{WritesJson, ready_text, perform_tls_upgrade-relay}
use wasm_rdp.Session.Credssp.{Sspi, Processed, reply_needed, final_message, perform_credssp}
use wasm_rdp.Session.Ends.{Ended}
use wasm_rdp.Session.Rounds.{Succeeded, perform_credssp-Ends, perform_credssp-Succeeded}
use wasm_rdp.Session.Connection.{Connector}
use wasm_rdp.Session.Redirected.{Nego, response, perform_redirected_connection}
use wasm_rdp.Session.Handover.{Handover, perform_redirected_connection-Handover}
use wasm_rdp.Redirect.{PendingRedirect}

abbrev json : Json
json = record {
  cmd = λ t. if same_text t upgrade_command then some (codes "tls_upgrade") else none;
  tls_ready = ready_text;
  tls_error = λ why. why;
}

json-WritesJson : WritesJson json
unfolding same_text
json-WritesJson = record { ready_lem = λ bs h. refl; command_lem = refl }

-- The relay before TLS, and the client's socket with a byte of the target before the relay's text.
abbrev certificate : List ℕ
certificate = 0x30 ∷ 0xAF ∷ []

abbrev answers : Answers
answers = record { write_fails = none; sends = true; handshake = secured (some (some certificate)) }

abbrev client : Wire
client = record {
  framed = record {
    ws_read = bytes (7 ∷ []) ∷ text (ready_text (hex_encode certificate)) ∷ [];
    buf = [];
    rx_bytes = 0;
  };
  sent = [];
  room = 9;
}

perform_tls_upgrade-relay_example :
    ((step json answers
        (from_browser (message (Relay.text upgrade_command)))
        (handle_ws true)).phase
      ≡ tunneling)
    × ((step json answers
          (from_browser (message (Relay.text upgrade_command)))
          (handle_ws true)).browser_got
        ≡ (handle_ws true).browser_got ++ Relay.text (json.tls_ready (hex_encode certificate)) ∷ [])
    × ((v : Wire) × (perform_tls_upgrade client ≡ (done certificate, v))
        × (v.sent ≡ client.sent ++ text upgrade_command ∷ [])
        × (stream (v.framed) ≡ stream (client.framed)))
unfolding handle_ws
perform_tls_upgrade-relay_example =
    perform_tls_upgrade-relay json certificate answers (handle_ws true) client ((7 ∷ []) ∷ []) []
      json-WritesJson (omega arith) refl refl refl (omega arith) refl

-- A client that replies once and then sends its final message.
abbrev once : ℕ → Processed ℕ (List ℕ)
once zero = reply_needed (1 ∷ []) 1
once (suc n) = final_message (2 ∷ []) 0

abbrev sspi : Sspi
sspi = record {
  State = ℕ;
  TsRequest = List ℕ;
  default = [];
  process = λ ts n. once n;
  encode_ts_request = λ ts. some ts;
  from_buffer = λ ts. some ts;
  new = λ key. some 0;
}

-- The server's answer and its four zero bytes.
abbrev answered : Wire
answered = record {
  framed = record {
    ws_read = bytes (0x30 ∷ 1 ∷ 5 ∷ 0 ∷ 0 ∷ []) ∷ bytes (0 ∷ 0 ∷ []) ∷ [];
    buf = [];
    rx_bytes = 0;
  };
  sent = [];
  room = 9;
}

perform_credssp-Ends_example : Ended ((perform_credssp sspi [] true answered).0)
perform_credssp-Ends_example = perform_credssp-Ends sspi [] true answered

authenticated :
    perform_credssp sspi [] true answered ≡ (done tt, (perform_credssp sspi [] true answered).1)
unfolding perform_credssp send reader read_credssp_response read_exact fill_to fill_buf split_to
    same_text Framed.byte_at Framed.ber_header
authenticated = refl

perform_credssp-Succeeded_example :
    (s : ℕ) × (some 0 ≡ some s)
    × Succeeded sspi 11 true [] s answered ((perform_credssp sspi [] true answered).1)
perform_credssp-Succeeded_example =
    perform_credssp-Succeeded sspi [] true answered ((perform_credssp sspi [] true answered).1)
      authenticated

-- A connector that writes a byte in each of its states but the last.
abbrev next : ℕ → Option (ℕ × Bool × List ℕ)
next zero = none
next (suc n) = some (n, true, 5 ∷ [])

abbrev at_end : ℕ → Option Bool
at_end zero = some true
at_end (suc n) = none

abbrev connector : Connector
connector = record {
  State = ℕ;
  ConnectionResult = Bool;
  connected = at_end;
  should_perform_security_upgrade = λ n. false;
  mark_security_upgrade_as_done = λ n. n;
  should_perform_credssp = λ n. false;
  mark_credssp_as_done = λ n. n;
  hybrid_ex = λ n. false;
  next_pdu_hint = λ n. none;
  step = λ pdu buf n. next n;
  step_no_input = λ buf n. next n;
  basic_settings = λ protocol n. n;
  public_key = λ cert_der. some cert_der;
}

-- The confirmation of RDSTLS is its number, in a PDU of one byte.
abbrev nego : Nego
nego = record {
  connection_request = λ token. some (3 ∷ []);
  x224_hint = λ buf. size 1;
  connection_confirm = λ pdu. some (response 4);
  contains_rdstls = λ protocol. protocol == 4;
}

abbrev pending : PendingRedirect
pending = record {
  routing_token = none;
  user_name = 1 ∷ [];
  domain = [];
  password = 2 ∷ [];
  redirection_guid = 3 ∷ [];
  target_certificate = none;
}

abbrev redirected : Wire
redirected = record {
  framed = record {
    ws_read =
        bytes (9 ∷ [])
        ∷ text (ready_text (hex_encode certificate))
        ∷ bytes (1 ∷ 0 ∷ 1 ∷ 0 ∷ 1 ∷ 0 ∷ 1 ∷ 0 ∷ [])
        ∷ bytes (1 ∷ 0 ∷ 4 ∷ 0 ∷ 1 ∷ 0 ∷ 0 ∷ 0 ∷ 0 ∷ 0 ∷ [])
        ∷ [];
    buf = [];
    rx_bytes = 0;
  };
  sent = [];
  room = 9;
}

perform_redirected_connection-Handover_example :
    Handover connector sspi nego pending redirected
      ((perform_redirected_connection connector sspi nego 3 2 pending redirected).1)
perform_redirected_connection-Handover_example =
    perform_redirected_connection-Handover connector sspi nego pending 3 2 redirected
