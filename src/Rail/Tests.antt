-- ===== src/Rail/Tests.antt =====
-- crates/ironrdp-rail: the channel's theorems at concrete inputs, over cursors that are lists.
use wasm_rdp.Prelude.{
  ℕ, ◌+◌, ◌-◌, ◌≤◌, ◌≡◌, refl, List, [], ◌∷◌, ◌++◌, map, length, ltb, ge→ltb, if◌then◌else◌, le16,
  le32, of_le16, of_le32, Outcome, returned, panicked, ◌||◌, arith,
}
use wasm_rdp.Rail.Wire.{Result, ok, WriteCursor, ReadCursor}
use wasm_rdp.Rail.Pdu.{ClientRailOrder, sys_command, size, body_size, encode, decode}
use wasm_rdp.Rail.Pdu.Encode.{pdu_bytes, encode-pdu_bytes}
use wasm_rdp.Rail.Pdu.Decode.{meaning, decode-meaning}
use wasm_rdp.Rail.Client.{Rail, new, Svc, process_each}
use wasm_rdp.Rail.Client.Launch.{
  orders_of, any_handshake, exec_results, sent, errors, launch, process_each-launch,
}

-- The bytes written and the room left.
abbrev Buffer : Type 0
Buffer = List ℕ × ℕ

abbrev put : List ℕ → Buffer → Outcome Buffer
put bytes (written, room) =
    if ltb room (length bytes) then panicked else returned (written ++ bytes, room - length bytes)

put_fits :
    (bytes : List ℕ) (c : Buffer)
    → length bytes ≤ c.1
    → (c' : Buffer) × (put bytes c ≡ returned c')
      × (c'.0 ≡ c.0 ++ bytes)
      × (c'.1 + length bytes ≡ c.1)
put_fits bytes (written, room) h =
    ((written ++ bytes, room - length bytes), rw (ge→ltb room (length bytes) h), refl, omega arith)

abbrev list_writer : WriteCursor
list_writer = record {
  Cursor = Buffer;
  written = λ c. c.0;
  room = λ c. c.1;
  write_u8 = λ v. put (v ∷ []);
  write_u16 = λ v. put (le16 v);
  write_u32 = λ v. put (le32 v);
  write_u8_fits = λ v c h. put_fits (v ∷ []) c h;
  write_u16_fits = λ v c h. put_fits (le16 v) c h;
  write_u32_fits = λ v c h. put_fits (le32 v) c h;
}

abbrev get_u16 : List ℕ → Outcome (ℕ × List ℕ)
get_u16 (a ∷ b ∷ rest) = returned (of_le16 a b, rest)
get_u16 _ = panicked

abbrev get_u32 : List ℕ → Outcome (ℕ × List ℕ)
get_u32 (a ∷ b ∷ c ∷ d ∷ rest) = returned (of_le32 a b c d, rest)
get_u32 _ = panicked

abbrev list_reader : ReadCursor
list_reader = record {
  Cursor = List ℕ;
  new = λ bytes. bytes;
  rest = λ c. c;
  len = length;
  read_u16 = get_u16;
  read_u32 = get_u32;
  rest-new = λ bytes. refl;
  len-rest = λ c. refl;
  read_u16_lem = λ c a b bs e. (bs, rw e, refl);
  read_u32_lem = λ c a b d f bs e. (bs, rw e, refl);
}

abbrev messages_with_flags : Svc
messages_with_flags = record {
  SvcMessage = ClientRailOrder × ℕ;
  ChannelFlags = ℕ;
  from = λ order. (order, 0);
  with_flags = λ message flags. (message.0, flags);
  show_protocol = 0x10;
}

abbrev minimize : ClientRailOrder
minimize = sys_command 0x1234 0xF020

encode-pdu_bytes_example :
    (c' : Buffer) × (encode list_writer minimize ([], 64) ≡ returned (ok c'))
    × (c'.0 ≡ [] ++ pdu_bytes minimize)
    × (c'.1 + size minimize ≡ 64)
unfolding size body_size
encode-pdu_bytes_example =
    encode-pdu_bytes list_writer minimize ([], 64) (omega arith) (omega arith)

decode-meaning_example :
    decode list_reader (5 ∷ 0 ∷ 8 ∷ 0 ∷ []) ≡ returned (meaning (5 ∷ 0 ∷ 8 ∷ 0 ∷ []))
decode-meaning_example = decode-meaning list_reader (5 ∷ 0 ∷ 8 ∷ 0 ∷ [])

abbrev notepad : Rail
unfolding new
notepad = new [] (0x6E ∷ 0x2E ∷ []) [] [] 1280 720

-- Two handshakes, a short payload and an execute result.
abbrev payloads : List (List ℕ)
payloads =
    (5 ∷ 0 ∷ 8 ∷ 0 ∷ 1 ∷ 0 ∷ 0 ∷ 0 ∷ [])
    ∷ (9 ∷ [])
    ∷ (0x13 ∷ 0 ∷ 4 ∷ 0 ∷ [])
    ∷ (0x80 ∷ 0 ∷ 12 ∷ 0 ∷ 9 ∷ 0 ∷ 3 ∷ 0 ∷ 2 ∷ 0 ∷ 0 ∷ 0 ∷ [])
    ∷ []

process_each-launch_example :
    (results : List (Result (List (ClientRailOrder × ℕ)))) × (process_each messages_with_flags
        list_reader notepad payloads
      ≡ returned (
        results,
        record notepad {
          handler = notepad.handler ++ exec_results (orders_of (map meaning payloads));
          handshake_done =
              notepad.handshake_done || any_handshake (orders_of (map meaning payloads));
        },
      ))
    × (sent results ≡ (
        if notepad.handshake_done
        then []
        else (if any_handshake (orders_of (map meaning payloads))
            then launch messages_with_flags notepad
            else [])))
    × (errors results ≡ errors (map meaning payloads))
process_each-launch_example = process_each-launch messages_with_flags list_reader notepad payloads
