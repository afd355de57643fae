-- ===== src/Framed/Tests.antt =====
-- wasm/src/framed.rs: the theorems at concrete inputs.
use wasm_rdp.Prelude.{
  ℕ, ◌+◌, ◌*◌, ◌%◌, ◌≤◌, ◌<◌, ◌≡◌, refl, Option, none, some, List, [], ◌∷◌, ◌++◌, length, take,
  ◌==◌, if◌then◌else◌, arith,
}
use wasm_rdp.Framed.{
  bytes, text, WasmFramed, ok, bail, Found, find_error, not_yet, size, Action, fast_path, x224,
  read_exact, read_by_hint, read_pdu, read_text_message, read_credssp_response, fill_to, fill_loop,
  fill_buf, fill_from, byte_at, pdu_length, split_to,
}
use wasm_rdp.Framed.Fill.{available, ending, stream, After, read_exact-stream}
use wasm_rdp.Framed.Pdus.{header, Gives, read_pdu-header}
use wasm_rdp.Framed.Hint.{IsStable, read_by_hint-stream}
use wasm_rdp.Framed.Credssp.{short, read_credssp_response-IsBerLength}
use wasm_rdp.Framed.Text.{joined, read_text_message-stream}

-- A TPKT of seven bytes in two messages with a text between them, and the start of another.
abbrev two_pdus : WasmFramed
two_pdus = record {
  ws_read = bytes (0 ∷ 7 ∷ 9 ∷ []) ∷ text [] ∷ bytes (8 ∷ 7 ∷ 3 ∷ []) ∷ [];
  buf = 3 ∷ 0 ∷ [];
  rx_bytes = 2;
}

abbrev action : ℕ → Option Action
action b = if b == 3 then some x224 else (if b % 4 == 0 then some fast_path else none)

read_pdu_run : read_pdu action two_pdus ≡ (
  ok (x224, 3 ∷ 0 ∷ 0 ∷ 7 ∷ 9 ∷ 8 ∷ 7 ∷ []),
  record { ws_read = []; buf = 3 ∷ []; rx_bytes = 8 },
)
unfolding read_pdu fill_to fill_loop fill_buf fill_from byte_at pdu_length split_to
read_pdu_run = refl

read_pdu-header_example :
    Gives action two_pdus (header action (stream two_pdus)) (read_pdu action two_pdus)
read_pdu-header_example = read_pdu-header action two_pdus

read_exact-stream_example :
    (5 ≤ length (stream two_pdus)
      → (g : WasmFramed) × (read_exact 5 two_pdus ≡ (ok (take 5 (stream two_pdus)), g))
        × After 5 two_pdus g)
    × (length (stream two_pdus) < 5
        → (g : WasmFramed) × (read_exact 5 two_pdus ≡ (bail (ending (two_pdus.ws_read)), g)))
read_exact-stream_example = read_exact-stream 5 two_pdus

abbrev tpkt : List ℕ → Found
tpkt (_ ∷ _ ∷ high ∷ low ∷ _) = size (high * 256 + low)
tpkt _ = not_yet

tpkt_error : (xs ys : List ℕ) → tpkt xs ≡ find_error → tpkt (xs ++ ys) ≡ find_error
tpkt_error (_ ∷ _ ∷ high ∷ low ∷ _) ys e = e
tpkt_error [] ys e = absurd (ground arith)
tpkt_error (_ ∷ []) ys e = absurd (ground arith)
tpkt_error (_ ∷ _ ∷ []) ys e = absurd (ground arith)
tpkt_error (_ ∷ _ ∷ _ ∷ []) ys e = absurd (ground arith)

tpkt_size : (xs ys : List ℕ) (n : ℕ) → tpkt xs ≡ size n → tpkt (xs ++ ys) ≡ size n
tpkt_size (_ ∷ _ ∷ high ∷ low ∷ _) ys n e = e
tpkt_size [] ys n e = absurd (ground arith)
tpkt_size (_ ∷ []) ys n e = absurd (ground arith)
tpkt_size (_ ∷ _ ∷ []) ys n e = absurd (ground arith)
tpkt_size (_ ∷ _ ∷ _ ∷ []) ys n e = absurd (ground arith)

tpkt-IsStable : IsStable tpkt
tpkt-IsStable = record { keeps_error = tpkt_error; keeps_size = tpkt_size }

read_by_hint-stream_example :
    (g : WasmFramed) × (read_by_hint tpkt two_pdus ≡ (ok (take 7 (stream two_pdus)), g))
    × After 7 two_pdus g
unfolding available
read_by_hint-stream_example =
    read_by_hint-stream tpkt tpkt-IsStable 7 two_pdus refl (omega arith) (omega arith)

abbrev request : WasmFramed
request = record {
  ws_read = bytes (0x30 ∷ []) ∷ bytes (2 ∷ 5 ∷ 6 ∷ 1 ∷ []) ∷ [];
  buf = [];
  rx_bytes = 0;
}

read_credssp_response-IsBerLength_example :
    (g : WasmFramed) × (read_credssp_response request ≡ (ok (0x30 ∷ 2 ∷ 5 ∷ 6 ∷ []), g))
    × (stream g ≡ 1 ∷ [])
unfolding available
read_credssp_response-IsBerLength_example =
    read_credssp_response-IsBerLength request 2 (2 ∷ []) (5 ∷ 6 ∷ []) (1 ∷ [])
      (short 2 (omega arith)) refl (omega arith) refl

abbrev reply : WasmFramed
reply = record {
  ws_read = bytes (4 ∷ []) ∷ text (0x7B ∷ []) ∷ bytes (5 ∷ []) ∷ [];
  buf = 3 ∷ [];
  rx_bytes = 1;
}

read_text_message-stream_example :
    (g : WasmFramed) × (read_text_message reply ≡ (ok (0x7B ∷ []), g))
    × (g.buf ≡ reply.buf ++ joined ((4 ∷ []) ∷ []))
    × (stream g ≡ stream reply)
    × (g.rx_bytes ≡ reply.rx_bytes)
read_text_message-stream_example =
    read_text_message-stream reply ((4 ∷ []) ∷ []) (0x7B ∷ []) (bytes (5 ∷ []) ∷ []) refl
