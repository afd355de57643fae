-- ===== src/Framed.antt =====
-- wasm/src/framed.rs: PDUs out of a WebSocket's messages. The socket is the list of the messages that it
-- will give; it is closed at the end of the list. `Fill` is about the loops that wait for bytes, `Pdus`
-- about PDUs, `Hint` about the connector's hints, `Credssp` about TSRequests, `Text` about the
-- proxy's texts.
pub mod Fill
pub mod Pdus
pub mod Hint
pub mod Credssp
pub mod Text
pub mod Total
mod Tests
use wasm_rdp.Prelude.{
  ℕ, zero, suc, ◌+◌, ◌*◌, ◌/◌, ◌%◌, ◌^◌, Bool, not, Option, none, some, List, [], ◌∷◌, ◌++◌, length,
  get_elem?, take, drop, ltb, leb, ◌==◌, if◌then◌else◌,
}

pub data Message : Type 0 where
  bytes : List ℕ → Message
  text : List ℕ → Message
  broken : Message

pub record WasmFramed : Type 0 where
  pub ws_read : List Message
  pub buf : List ℕ
  pub rx_bytes : ℕ

pub data Reason : Type 0 where
  read_error : Reason
  closed : Reason
  zero_length : Reason
  hint_error : Reason
  unknown_action : ℕ → Reason
  invalid_length : Reason
  unexpected_tag : ℕ → Reason

-- A value, the reason of a `bail!`, a panic, or a model's fuel that ran out.
pub data Run {ℓ} (A : Type ℓ) : Type ℓ where
  ok : A → Run A
  bail : Reason → Run A
  panic : Run A
  out_of_fuel : Run A

abbrev pub Read : Type 0 → Type 0
Read A = WasmFramed → Run A × WasmFramed

abbrev pub proceed : {A B : Type 0} → (A → Read B) → Run A × WasmFramed → Run B × WasmFramed
proceed k (ok a, f) = k a f
proceed k (bail e, f) = (bail e, f)
proceed k (panic, f) = (panic, f)
proceed k (out_of_fuel, f) = (out_of_fuel, f)

infixl 5 ◌>>=◌ ◌>>◌
abbrev pub ◌>>=◌ : {A B : Type 0} → Read A → (A → Read B) → Read B
◌>>=◌ m k f = proceed k (m f)

abbrev pub ◌>>◌ : {A B : Type 0} → Read A → Read B → Read B
m >> k = m >>= λ _. k

abbrev pub pure : {A : Type 0} → A → Read A
pure a f = (ok a, f)

abbrev pub fail : {A : Type 0} → Reason → Read A
fail e f = (bail e, f)

unfoldable pub new : List Message → ℕ → WasmFramed
new ws_read rx_bytes = record { ws_read = ws_read; buf = []; rx_bytes = rx_bytes }

-- `fill_buf`: the bytes of the next message that is not a text; the count of the statistics is a `u64`.
unfoldable pub fill_from : List Message → List ℕ → ℕ → Run (Unit {0}) × WasmFramed
fill_from [] buf rx = (bail closed, record { ws_read = []; buf = buf; rx_bytes = rx })
fill_from (bytes chunk ∷ rest) buf rx =
    (ok tt, record { ws_read = rest; buf = buf ++ chunk; rx_bytes = (rx + length chunk) % 2 ^ 64 })
fill_from (text _ ∷ rest) buf rx = fill_from rest buf rx
fill_from (broken ∷ rest) buf rx =
    (bail read_error, record { ws_read = rest; buf = buf; rx_bytes = rx })

unfoldable pub fill_buf : Read (Unit {0})
unfolding fill_from
fill_buf f = fill_from (f.ws_read) (f.buf) (f.rx_bytes)

-- `while self.buf.len() < n { self.fill_buf().await?; }`
unfoldable pub fill_loop : ℕ → ℕ → Read (Unit {0})
fill_loop zero n f = (out_of_fuel, f)
fill_loop (suc fuel) n f =
    let rest = (fill_buf >> fill_loop fuel n) f in
    if ltb (length (f.buf)) n then rest else (ok tt, f)

-- Each round takes a message.
unfoldable pub fill_to : ℕ → Read (Unit {0})
unfolding fill_loop
fill_to n f = fill_loop (suc (length (f.ws_read))) n f

-- `self.buf[i]`
unfoldable pub byte_at : ℕ → Read ℕ
byte_at i f = elim (get_elem? (f.buf) i) [ none ↦ (panic, f) | some b ↦ (ok b, f) ]

-- `self.buf.split_to(n)`
unfoldable pub split_to : ℕ → Read (List ℕ)
split_to n f =
    if ltb (length (f.buf)) n
    then (panic, f)
    else (ok (take n (f.buf)), record f { buf = drop n (f.buf) })

unfoldable pub read_exact : ℕ → Read (List ℕ)
read_exact n = do fill_to n; split_to n

-- What a `PduHint` of the package finds: an error, no size yet, or the size.
pub data Found : Type 0 where
  find_error : Found
  not_yet : Found
  size : ℕ → Found

module _ (find_size : List ℕ → Found) where
  abbrev pub take_pdu : ℕ → Read (List ℕ)
  take_pdu pdu_length =
      if pdu_length == 0 then fail zero_length else (do fill_to pdu_length; split_to pdu_length)

  abbrev pub on_hint : Found → Read (List ℕ) → Read (List ℕ)
  on_hint find_error again = fail hint_error
  on_hint not_yet again = do fill_buf; again
  on_hint (size pdu_length) again = take_pdu pdu_length

  unfoldable pub hint_loop : ℕ → Read (List ℕ)
  hint_loop zero f = (out_of_fuel, f)
  hint_loop (suc fuel) f = on_hint (find_size (f.buf)) (hint_loop fuel) f

  unfoldable pub read_by_hint : Read (List ℕ)
  unfolding hint_loop
  read_by_hint f = hint_loop (suc (length (f.ws_read))) f

pub data Action : Type 0 where
  fast_path : Action
  x224 : Action

abbrev pub known_action : ℕ → Option Action → Read Action
known_action first_byte none = fail (unknown_action first_byte)
known_action first_byte (some action) = pure action

-- `Action::from_fp_output_header` is the package ironrdp_pdu's.
module _ (from_fp_output_header : ℕ → Option Action) where
  -- TPKT: a big-endian length in the bytes 2 and 3. FastPath: a length of one byte, or of two if the
  -- highest bit of the first is set.
  unfoldable pub pdu_length : Action → Read ℕ
  pdu_length x224 = do fill_to 4; high ← byte_at 2; low ← byte_at 3; pure (high * 256 + low)
  pdu_length fast_path = do
    len_byte ← byte_at 1
    (if ltb len_byte 128
        then pure len_byte
        else (do fill_to 3; low ← byte_at 2; pure (len_byte % 128 * 256 + low)))

  unfoldable pub read_pdu : Read (Action × List ℕ)
  unfolding pdu_length
  read_pdu = do
    fill_to 2
    first_byte ← byte_at 0
    action ← known_action first_byte (from_fp_output_header first_byte)
    len ← pdu_length action
    (if len == 0
        then fail invalid_length
        else (do fill_to len; payload ← split_to len; pure (action, payload)))

-- `read_text_message`: bytes that come before the text are kept.
unfoldable pub text_from : List Message → List ℕ → ℕ → Run (List ℕ) × WasmFramed
text_from [] buf rx = (bail closed, record { ws_read = []; buf = buf; rx_bytes = rx })
text_from (text t ∷ rest) buf rx = (ok t, record { ws_read = rest; buf = buf; rx_bytes = rx })
text_from (bytes chunk ∷ rest) buf rx = text_from rest (buf ++ chunk) rx
text_from (broken ∷ rest) buf rx =
    (bail read_error, record { ws_read = rest; buf = buf; rx_bytes = rx })

unfoldable pub read_text_message : Read (List ℕ)
unfolding text_from
read_text_message f = text_from (f.ws_read) (f.buf) (f.rx_bytes)

-- `for i in 0..n { len = (len << 8) | self.buf[2 + i] }` with a `usize` of 32 bits, from byte `i`.
unfoldable pub ber_length : ℕ → ℕ → ℕ → Read ℕ
ber_length zero i len = pure len
ber_length (suc n) i len = do b ← byte_at i; ber_length n (i + 1) ((len * 256) % 2 ^ 32 + b)

-- The header's length and the payload's.
unfoldable pub ber_header : ℕ → Read (ℕ × ℕ)
unfolding ber_length
ber_header len_byte = if ltb len_byte 128 then pure (2, len_byte) else (do
  fill_to (2 + len_byte % 128)
  payload_len ← ber_length (len_byte % 128) 2 0
  pure (2 + len_byte % 128, payload_len))

unfoldable pub read_credssp_response : Read (List ℕ)
unfolding ber_header
read_credssp_response = do
  fill_to 2
  tag ← byte_at 0
  (if not (tag == 0x30) then fail (unexpected_tag tag) else (do
    len_byte ← byte_at 1
    header ← ber_header len_byte
    fill_to ((header.0 + header.1) % 2 ^ 32)
    split_to ((header.0 + header.1) % 2 ^ 32)))
