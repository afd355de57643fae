-- ===== src/Session/Upgrade.antt =====
-- wasm/src/session.rs and server/src/main.rs: the client's upgrade against the relay's answer.
use wasm_rdp.Prelude.{
  ℕ, ◌+◌, ◌-◌, ◌*◌, ◌/◌, ◌%◌, ◌<◌, ◌≡◌, refl, ap, true, false, some, List, [], ◌∷◌, ◌++◌, map,
  length, take-append, ◌==◌, codes, find, starts_with, contains_text, All, arith, not_zero,
  same_text_refl,
}
use wasm_rdp.Framed.{Message, bytes, text}
use wasm_rdp.Framed.Fill.{stream}
use wasm_rdp.Framed.Text.{read_text_message-stream}
use wasm_rdp.Relay
use wasm_rdp.Relay.{
  Json, hex_digit, hex_encode, plain, tunneling, secured, message, from_browser, Relay, Answers,
  step, step_in, plain_step, plain_from_browser, relay_message, upgrade, asks_upgrade,
}
use wasm_rdp.Session.Wire.{done, Wire, send, reader}
use wasm_rdp.Session.Tls.{
  marker, quote, parse_tls_ready, digit16, from_str_radix, is_continuation, starts_within,
  hex_pairs, hex_decode, upgrade_command, perform_tls_upgrade,
}

abbrev pub IsByte : ℕ → Type 0
IsByte b = b < 256

digit16-hex_digit : (d : ℕ) → d < 16 → digit16 (hex_digit d) ≡ some d
unfolding digit16
digit16-hex_digit d h = ground arith

from_str_radix-hex_digit :
    (b : ℕ) → b < 256 → from_str_radix (hex_digit (b / 16)) (hex_digit (b % 16)) ≡ some b
unfolding from_str_radix
from_str_radix-hex_digit b h =
    rw
      (
        no_plus (b / 16) (omega arith),
        digit16-hex_digit (b / 16) (omega arith),
        digit16-hex_digit (b % 16) (omega arith),
      )
      (ap some whole)
  where
    no_plus : (d : ℕ) → d < 16 → (hex_digit d == b'+') ≡ false
    no_plus d k = ground arith

    whole : b / 16 * 16 + b % 16 ≡ b
    whole = omega arith

plain_digit : (d : ℕ) → d < 16 → is_continuation (hex_digit d) ≡ false
plain_digit d h = ground arith

starts_plain : (bs : List ℕ) → All IsByte bs → starts_within (hex_encode bs) ≡ false
unfolding hex_encode
starts_plain [] h = refl
starts_plain (b ∷ bs) h = plain_digit (b / 16) (omega (arith, h.0))

hex_pairs-hex_encode : (bs : List ℕ) → All IsByte bs → hex_pairs (hex_encode bs) ≡ done bs
unfolding hex_pairs hex_encode
hex_pairs-hex_encode [] h = refl
hex_pairs-hex_encode (b ∷ bs) h = rw (
  plain_digit (b / 16) (omega (arith, h.0)),
  starts_plain bs (h.1),
  from_str_radix-hex_digit b (h.0),
  hex_pairs-hex_encode bs (h.1),
)

even_length : (bs : List ℕ) → length (hex_encode bs) % 2 ≡ 0
unfolding hex_encode
even_length [] = refl
even_length (b ∷ bs) = omega (arith, even_length bs)

-- The certificate's bytes survive their hexadecimal text.
pub hex_decode-hex_encode : (bs : List ℕ) → All IsByte bs → hex_decode (hex_encode bs) ≡ done bs
unfolding hex_decode
hex_decode-hex_encode bs h = rw (even_length bs) (hex_pairs-hex_encode bs h)

no_quote : (d : ℕ) → d < 16 → (hex_digit d == b'"') ≡ false
no_quote d h = ground arith

find-quote :
    (bs rest : List ℕ)
    → All IsByte bs
    → find (hex_encode bs ++ (quote ++ rest)) quote ≡ some (length (hex_encode bs))
unfolding find hex_encode starts_with
find-quote [] rest h = refl
find-quote (b ∷ bs) rest h = rw (
  no_quote (b / 16) (omega (arith, h.0)),
  no_quote (b % 16) (omega (arith, h.0)),
  find-quote bs rest (h.1),
)

-- The text of `{"cmd":"tls_ready","server_cert":"…"}`.
abbrev pub ready_text : List ℕ → List ℕ
ready_text hex = codes "{\"cmd\":\"tls_ready\",\"server_cert\":\"" ++ (hex ++ codes "\"}")

pub parse_tls_ready-hex_encode :
    (bs : List ℕ)
    → All IsByte bs
    → parse_tls_ready (ready_text (hex_encode bs)) ≡ some (hex_encode bs)
unfolding parse_tls_ready
parse_tls_ready-hex_encode bs h =
    rw (named, start, closing, take-append (hex_encode bs) (codes "\"}"))
  where
    named : contains_text (ready_text (hex_encode bs)) (codes "tls_ready") ≡ true
    named = unfold contains_text find starts_with in refl

    start : find (ready_text (hex_encode bs)) marker ≡ some 19
    start = unfold find starts_with in refl

    closing : find (hex_encode bs ++ codes "\"}") quote ≡ some (length (hex_encode bs))
    closing = find-quote bs (codes "}") h

-- serde_json: an object is written with its fields in order and no spaces, and a text of hexadecimal
-- digits as it is; the field `cmd` of the client's command is read.
pub record WritesJson (json : Json) : Type 0 where
  pub ready_lem :
      (bs : List ℕ) → All IsByte bs → json.tls_ready (hex_encode bs) ≡ ready_text (hex_encode bs)
  pub command_lem : json.cmd upgrade_command ≡ some (codes "tls_upgrade")

client_upgrade :
    (json : Json) (certificate : List ℕ) (w : Wire) (chunks : List (List ℕ)) (rest : List Message)
    → WritesJson json
    → All IsByte certificate
    → 0 < w.room
    → w.framed.ws_read ≡ map bytes chunks ++ text (json.tls_ready (hex_encode certificate)) ∷ rest
    → (v : Wire) × (perform_tls_upgrade w ≡ (done certificate, v))
      × (v.sent ≡ w.sent ++ text upgrade_command ∷ [])
      × (stream (v.framed) ≡ stream (w.framed))
unfolding perform_tls_upgrade send reader
client_upgrade json certificate w chunks rest writes is_bytes room e =
    let (g, read, _, same, _) =
      read_text_message-stream (w.framed) chunks (json.tls_ready (hex_encode certificate)) rest e in
    (
      record { framed = g; sent = w.sent ++ text upgrade_command ∷ []; room = w.room - 1 },
      rw (
        not_zero (w.room) room,
        read,
        writes.ready_lem certificate is_bytes,
        parse_tls_ready-hex_encode certificate is_bytes,
        hex_decode-hex_encode certificate is_bytes,
      ),
      refl,
      same,
    )

-- The upgrade as both sides see it. The relay, before TLS, answers the client's command by the text with
-- the certificate that the target's handshake gave, and goes over to TLS. The client, which sent the
-- command, gets exactly the certificate's bytes from that text, whatever bytes of the target come before
-- it, and loses none of these.
pub perform_tls_upgrade-relay :
    (json : Json) (certificate : List ℕ) (a : Answers) (r : Relay) (w : Wire)
    (chunks : List (List ℕ)) (rest : List Message)
    → WritesJson json
    → All IsByte certificate
    → r.phase ≡ plain
    → a.handshake ≡ secured (some (some certificate))
    → a.sends ≡ true
    → 0 < w.room
    → w.framed.ws_read ≡ map bytes chunks ++ text (json.tls_ready (hex_encode certificate)) ∷ rest
    → ((step json a (from_browser (message (Relay.text upgrade_command))) r).phase ≡ tunneling)
      × ((step json a (from_browser (message (Relay.text upgrade_command))) r).browser_got
          ≡ r.browser_got ++ Relay.text (json.tls_ready (hex_encode certificate)) ∷ [])
      × ((v : Wire) × (perform_tls_upgrade w ≡ (done certificate, v))
          × (v.sent ≡ w.sent ++ text upgrade_command ∷ [])
          × (stream (v.framed) ≡ stream (w.framed)))
unfolding step step_in plain_step plain_from_browser relay_message upgrade asks_upgrade
perform_tls_upgrade-relay json certificate a r w chunks rest writes is_bytes at_start shake sends
      room e =
    (
      rw (
        at_start,
        step_in,
        writes.command_lem,
        same_text_refl (codes "tls_upgrade"),
        shake,
        sends,
      ),
      rw (
        at_start,
        step_in,
        writes.command_lem,
        same_text_refl (codes "tls_upgrade"),
        shake,
        sends,
      ),
      client_upgrade json certificate w chunks rest writes is_bytes room e,
    )
