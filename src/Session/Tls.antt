-- ===== src/Session/Tls.antt =====
-- wasm/src/session.rs: `parse_tls_ready`, `hex_decode` and `perform_tls_upgrade`.
use wasm_rdp.Prelude.{
  ℕ, ◌+◌, ◌-◌, ◌*◌, ◌%◌, Bool, false, not, ◌&&◌, ◌||◌, Option, none, some, List, [], ◌∷◌, length,
  take, drop, leb, ltb, ◌==◌, if◌then◌else◌, codes, find, contains_text,
}
use wasm_rdp.Framed.{text, read_text_message}
use wasm_rdp.Session.Wire.{
  Result, done, failed, panicked, out_of_fuel, invalid_tls_ready, odd_hex, invalid_hex, Conn, ◌>>=◌,
  ◌>>◌, of_result, or_fail, send, reader,
}

-- The text that follows `"server_cert":"`, up to a quote.
abbrev pub marker : List ℕ
marker = codes "\"server_cert\":\""

abbrev pub quote : List ℕ
quote = codes "\""

abbrev pub up_to_quote : List ℕ → Option ℕ → Option (List ℕ)
up_to_quote rest none = none
up_to_quote rest (some end) = some (take end rest)

abbrev pub after_marker : List ℕ → Option ℕ → Option (List ℕ)
after_marker json none = none
after_marker json (some start) =
    up_to_quote (drop (start + length marker) json) (find (drop (start + length marker) json) quote)

unfoldable pub parse_tls_ready : List ℕ → Option (List ℕ)
parse_tls_ready json =
    if not (contains_text json (codes "tls_ready"))
    then none
    else after_marker json (find json marker)

-- A digit of `from_str_radix` with the radix 16.
unfoldable pub digit16 : ℕ → Option ℕ
digit16 c =
    if leb b'0' c && leb c b'9'
    then some (c - b'0')
    else if leb b'a' c && leb c b'f'
    then some (c - b'a' + 10)
    else if leb b'A' c && leb c b'F'
    then some (c - b'A' + 10)
    else none

abbrev pub two_digits : Option ℕ → Option ℕ → Option ℕ
two_digits (some a) (some b) = some (a * 16 + b)
two_digits none _ = none
two_digits (some a) none = none

-- `u8::from_str_radix` of two bytes, of which the first may be a plus sign.
unfoldable pub from_str_radix : ℕ → ℕ → Option ℕ
from_str_radix a b = if a == b'+' then digit16 b else two_digits (digit16 a) (digit16 b)

-- A byte within a character of UTF-8: a text cannot be cut before it.
abbrev pub is_continuation : ℕ → Bool
is_continuation b = leb 0x80 b && ltb b 0xC0

abbrev pub starts_within : List ℕ → Bool
starts_within [] = false
starts_within (b ∷ rest) = is_continuation b

abbrev pub then_byte : Option ℕ → Result (List ℕ) → Result (List ℕ)
then_byte none rest = failed invalid_hex
then_byte (some v) (done bytes) = done (v ∷ bytes)
then_byte (some v) (failed e) = failed e
then_byte (some v) panicked = panicked
then_byte (some v) out_of_fuel = out_of_fuel

-- `&hex[i..i + 2]` for each even `i`; an error ends the collection before a later panic.
unfoldable pub hex_pairs : List ℕ → Result (List ℕ)
hex_pairs [] = done []
hex_pairs (a ∷ []) = panicked
hex_pairs (a ∷ b ∷ rest) =
    let tail = hex_pairs rest in
    if is_continuation a || starts_within rest
    then panicked
    else then_byte (from_str_radix a b) tail

unfoldable pub hex_decode : List ℕ → Result (List ℕ)
unfolding hex_pairs
hex_decode hex = if not (length hex % 2 == 0) then failed odd_hex else hex_pairs hex

abbrev pub upgrade_command : List ℕ
upgrade_command = codes "{\"cmd\":\"tls_upgrade\"}"

unfoldable pub perform_tls_upgrade : Conn (List ℕ)
unfolding hex_decode parse_tls_ready
perform_tls_upgrade = do
  send (text upgrade_command)
  answer ← reader read_text_message
  cert ← or_fail invalid_tls_ready (parse_tls_ready answer)
  of_result (hex_decode cert)
