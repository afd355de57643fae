-- ===== src/Relay.antt =====
-- server/src/main.rs, the relay of a browser's WebSocket to the RDP target: `handle_ws` and
-- `run_tls_relay`. The sockets are the histories of what they gave and took; an event is what one of
-- them does next, and the schedule of events is any. `Prefixes` is about the messages before and
-- behind, `Invariant`, `Plain` and `Tunnel` about the steps, `Transparent` about every run.
pub mod Prefixes
pub mod Invariant
pub mod Plain
pub mod Tunnel
pub mod Transparent
mod Tests
use wasm_rdp.Prelude.{
  ℕ, ◌+◌, ◌-◌, ◌/◌, ◌%◌, Bool, true, false, Option, none, some, List, [], ◌∷◌, ◌++◌, take, drop,
  length, ltb, leb, ◌==◌, ◌&&◌, codes, same_text, if◌then◌else◌,
}

-- Of axum; a ping or a pong is `other`.
pub data WsMessage : Type 0 where
  binary : List ℕ → WsMessage
  text : List ℕ → WsMessage
  close : WsMessage
  other : WsMessage

-- What `ws_read.next()` gives.
pub data Received : Type 0 where
  message : WsMessage → Received
  broken : Received
  over : Received

-- What a read of the target gives: bytes that are there (none at the stream's end), or an error.
pub data ReadResult : Type 0 where
  got : List ℕ → ReadResult
  failed : ReadResult

-- The TLS handshake: its error, or the certificate, which may be absent or have no DER.
pub data Handshake : Type 0 where
  refused : List ℕ → Handshake
  secured : Option (Option (List ℕ)) → Handshake

-- serde_json: the text of the field `cmd`, and the two answers.
pub record Json : Type 0 where
  pub cmd : List ℕ → Option (List ℕ)
  pub tls_ready : List ℕ → List ℕ
  pub tls_error : List ℕ → List ℕ

pub data Phase : Type 0 where
  plain : Phase
  tunneling : Phase
  ended : Phase

-- The sockets' histories, oldest first: the messages that the browser sent and those that it was
-- sent; the bytes that the target was sent and those that it sent, before TLS and within it. `up` is
-- what `write_all` has still to write, `down` the message that is being sent.
pub record Relay : Type 0 where
  pub phase : Phase
  pub browser_sent : List WsMessage
  pub browser_got : List WsMessage
  pub target_got : List ℕ
  pub target_sent : List ℕ
  pub tls_got : List ℕ
  pub tls_sent : List ℕ
  pub up : List ℕ
  pub down : List ℕ

-- How the environment answers a step of `handle_ws`: `write_all` fails behind some bytes or not, the
-- browser takes a message or not, and the handshake.
pub record Answers : Type 0 where
  pub write_fails : Option ℕ
  pub sends : Bool
  pub handshake : Handshake

pub data Event : Type 0 where
  from_browser : Received → Event
  from_target : ReadResult → Event
  target_takes : ℕ → Event
  target_fails : Event
  browser_takes : Event
  browser_fails : Event

-- `{b:02x}`
abbrev pub hex_digit : ℕ → ℕ
hex_digit d = if ltb d 10 then b'0' + d else b'a' + (d - 10)

unfoldable pub hex_encode : List ℕ → List ℕ
hex_encode [] = []
hex_encode (b ∷ bs) = hex_digit (b / 16) ∷ hex_digit (b % 16) ∷ hex_encode bs

-- `peer_certificate().ok().flatten().map(|cert| cert.to_der().unwrap_or_default()).unwrap_or_default()`
abbrev pub der : Option (Option (List ℕ)) → List ℕ
der (some (some bytes)) = bytes
der (some none) = []
der none = []

-- `vec![0u8; 65536]`
abbrev pub buf_size : ℕ
buf_size = 65536

abbrev pub read_from : List ℕ → List ℕ
read_from available = take buf_size available

abbrev pub finish : Relay → Relay
finish r = record r { phase = ended }

module _ (json : Json) where
  -- `json.get("cmd").and_then(|v| v.as_str()) == Some("tls_upgrade")`
  abbrev pub is_command : Option (List ℕ) → Bool
  is_command none = false
  is_command (some c) = same_text c (codes "tls_upgrade")

  unfoldable pub asks_upgrade : WsMessage → Bool
  asks_upgrade (text t) = is_command (json.cmd t)
  asks_upgrade _ = false

  abbrev pub tell : WsMessage → Relay → Relay
  tell m r = record r { browser_got = r.browser_got ++ m ∷ [] }

  unfoldable pub upgrade : Handshake → Bool → Relay → Relay
  upgrade (refused e) sends r = finish (if sends then tell (text (json.tls_error e)) r else r)
  upgrade (secured certificate) true r =
      record (tell (text (json.tls_ready (hex_encode (der certificate)))) r) { phase = tunneling }
  upgrade (secured certificate) false r = finish r

  abbrev pub write_all : Option ℕ → List ℕ → Relay → Relay
  write_all none bytes r = record r { target_got = r.target_got ++ bytes }
  write_all (some n) bytes r = finish (record r { target_got = r.target_got ++ take n bytes })

  -- `handle_ws`, WS → TCP
  unfoldable pub relay_message : Answers → WsMessage → Relay → Relay
  unfolding upgrade asks_upgrade
  relay_message a (binary bytes) r = write_all (a.write_fails) bytes r
  relay_message a (text t) r =
      if asks_upgrade (text t) then upgrade (a.handshake) (a.sends) r else r
  relay_message a close r = finish r
  relay_message a other r = r

  abbrev pub took : WsMessage → Relay → Relay
  took m r = record r { browser_sent = r.browser_sent ++ m ∷ [] }

  unfoldable pub plain_from_browser : Answers → Received → Relay → Relay
  unfolding relay_message
  plain_from_browser a (message m) r = relay_message a m (took m r)
  plain_from_browser a broken r = finish r
  plain_from_browser a over r = finish r

  abbrev pub relay_bytes : Bool → List ℕ → Relay → Relay
  relay_bytes sends [] r = finish r
  relay_bytes sends (b ∷ bytes) r =
      let r' = record r { target_sent = r.target_sent ++ b ∷ bytes } in
      if sends then tell (binary (b ∷ bytes)) r' else finish r'

  -- `handle_ws`, TCP → WS
  unfoldable pub plain_from_target : Answers → ReadResult → Relay → Relay
  plain_from_target a failed r = finish r
  plain_from_target a (got available) r = relay_bytes (a.sends) (read_from available) r

  -- The other events are those of the tasks of the TLS relay.
  unfoldable pub plain_step : Answers → Event → Relay → Relay
  unfolding plain_from_browser plain_from_target
  plain_step a (from_browser m) r = plain_from_browser a m r
  plain_step a (from_target n) r = plain_from_target a n r
  plain_step a _ r = r

  abbrev pub tunnel_message : WsMessage → Relay → Relay
  tunnel_message (binary bytes) r = record r { up = bytes }
  tunnel_message close r = finish r
  tunnel_message (text t) r = r
  tunnel_message other r = r

  -- `ws_to_tls`: a message is taken when the last one is written.
  unfoldable pub tunnel_from_browser : Received → List ℕ → Relay → Relay
  tunnel_from_browser (message m) [] r = tunnel_message m (took m r)
  tunnel_from_browser broken [] r = finish r
  tunnel_from_browser over [] r = finish r
  tunnel_from_browser m (b ∷ up) r = r

  abbrev pub hold : List ℕ → Relay → Relay
  hold [] r = finish r
  hold (b ∷ bytes) r = record r { tls_sent = r.tls_sent ++ b ∷ bytes; down = b ∷ bytes }

  -- `tls_to_ws`: the target is read when the last message is sent.
  unfoldable pub tunnel_from_target : ReadResult → List ℕ → Relay → Relay
  tunnel_from_target failed [] r = finish r
  tunnel_from_target (got available) [] r = hold (read_from available) r
  tunnel_from_target n (b ∷ down) r = r

  abbrev pub deliver : List ℕ → Relay → Relay
  deliver [] r = r
  deliver (b ∷ down) r = record (tell (binary (b ∷ down)) r) { down = [] }

  abbrev pub if_pending : List ℕ → Relay → Relay
  if_pending [] r = r
  if_pending (b ∷ pending) r = finish r

  -- `run_tls_relay`: when one task ends, the other is dropped where it stands.
  unfoldable pub tunnel_step : Event → Relay → Relay
  unfolding tunnel_from_browser tunnel_from_target
  tunnel_step (from_browser m) r = tunnel_from_browser m (r.up) r
  tunnel_step (from_target n) r = tunnel_from_target n (r.down) r
  tunnel_step (target_takes n) r = record r {
    tls_got = r.tls_got ++ take n (r.up);
    up = drop n (r.up);
  }
  tunnel_step target_fails r = if_pending (r.up) r
  tunnel_step browser_takes r = deliver (r.down) r
  tunnel_step browser_fails r = if_pending (r.down) r

  unfoldable pub step_in : Phase → Answers → Event → Relay → Relay
  unfolding plain_step tunnel_step
  step_in plain a e r = plain_step a e r
  step_in tunneling a e r = tunnel_step e r
  step_in ended a e r = r

  unfoldable pub step : Answers → Event → Relay → Relay
  unfolding step_in
  step a e r = step_in (r.phase) a e r

  unfoldable pub run : List (Answers × Event) → Relay → Relay
  unfolding step
  run [] r = r
  run ((a, e) ∷ events) r = run events (step a e r)

-- `TcpStream::connect` succeeds or not.
unfoldable pub handle_ws : Bool → Relay
handle_ws connected = record {
  phase = if connected then plain else ended;
  browser_sent = [];
  browser_got = [];
  target_got = [];
  target_sent = [];
  tls_got = [];
  tls_sent = [];
  up = [];
  down = [];
}
