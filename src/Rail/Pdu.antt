-- ===== src/Rail/Pdu.antt =====
-- crates/ironrdp-rail/src/pdu.rs: the orders of the `rail` channel. Text is a list of scalar values.
pub mod Encode
pub mod Decode
use wasm_rdp.Prelude.{
  ℕ, ◌+◌, ◌*◌, ◌^◌, ◌<◌, ◌≡◌, Bool, true, false, List, [], ◌∷◌, ◌++◌, length, ltb, ◌==◌, ◌||◌,
  if◌then◌else◌, encode_utf16, bit_or, Outcome, returned, panicked, and_then,
}
use wasm_rdp.Rail.Wire.{
  WireError, not_enough_bytes, invalid_length, truncated_header, truncated_exec_result, Result, ok,
  err, WriteCursor, ReadCursor,
}

abbrev pub order_exec : ℕ
order_exec = 0x0001

abbrev pub order_activate : ℕ
order_activate = 0x0002

abbrev pub order_sysparam : ℕ
order_sysparam = 0x0003

abbrev pub order_syscommand : ℕ
order_syscommand = 0x0004

abbrev pub order_handshake : ℕ
order_handshake = 0x0005

abbrev pub order_clientstatus : ℕ
order_clientstatus = 0x000B

abbrev pub order_handshake_ex : ℕ
order_handshake_ex = 0x0013

abbrev pub order_exec_result : ℕ
order_exec_result = 0x0080

abbrev pub spi_set_work_area : ℕ
spi_set_work_area = 0x0000002F

abbrev pub spi_set_high_contrast : ℕ
spi_set_high_contrast = 0x00000043

abbrev pub exec_flags : ℕ
exec_flags = bit_or 0x0008 0x0001

abbrev pub Text : Type 0
Text = List ℕ

pub data ClientRailOrder : Type 0 where
  handshake : ℕ → ClientRailOrder
  client_status : ℕ → ClientRailOrder
  sys_param_high_contrast_off : ClientRailOrder
  sys_param_work_area : ℕ → ℕ → ClientRailOrder
  exec : Text → Text → Text → ClientRailOrder
  activate : ℕ → Bool → ClientRailOrder
  sys_command : ℕ → ℕ → ClientRailOrder

unfoldable pub order_type : ClientRailOrder → ℕ
order_type (handshake build_number) = order_handshake
order_type (client_status flags) = order_clientstatus
order_type sys_param_high_contrast_off = order_sysparam
order_type (sys_param_work_area width height) = order_sysparam
order_type (exec exe_or_file working_dir arguments) = order_exec
order_type (activate window_id enabled) = order_activate
order_type (sys_command window_id command) = order_syscommand

unfoldable pub utf16_len : Text → ℕ
utf16_len s = length (encode_utf16 s) * 2

unfoldable pub body_size : ClientRailOrder → ℕ
body_size (handshake build_number) = 4
body_size (client_status flags) = 4
body_size sys_param_high_contrast_off = 4 + 4 + 4 + 2
body_size (sys_param_work_area width height) = 4 + 2 * 4
body_size (exec exe_or_file working_dir arguments) =
    2 + 2 + 2 + 2 + utf16_len exe_or_file + utf16_len working_dir + utf16_len arguments
body_size (activate window_id enabled) = 4 + 1
body_size (sys_command window_id command) = 4 + 2

unfoldable pub size : ClientRailOrder → ℕ
size o = 4 + body_size o

module _ (W : WriteCursor) where
  open W use {Cursor, room, write_u8, write_u16, write_u32}

  -- A write either hands on the cursor or ends the run with an error.
  abbrev pub Write : Type 0
  Write = Cursor → Outcome (Result Cursor)

  infixr 6 ◌⨾◌
  abbrev pub ◌⨾◌ : (Cursor → Outcome Cursor) → Write → Write
  ◌⨾◌ m k c = and_then (m c) k

  abbrev pub done : Write
  done c = returned (ok c)

  -- `dst.write_u16(cast_length!(…, len)?)`
  abbrev pub write_length : ℕ → Write → Write
  write_length len k c =
      if ltb len (2 ^ 16) then and_then (write_u16 len c) k else returned (err invalid_length)

  unfoldable pub write_units : List ℕ → Write → Write
  write_units [] k = k
  write_units (u ∷ us) k = write_u16 u ⨾ write_units us k

  abbrev pub write_utf16 : Text → Write → Write
  write_utf16 s k = write_units (encode_utf16 s) k

  abbrev pub flag : Bool → ℕ
  flag b = if b then 1 else 0

  unfoldable pub write_body : ClientRailOrder → Write
  write_body (handshake build_number) = write_u32 build_number ⨾ done
  write_body (client_status flags) = write_u32 flags ⨾ done
  write_body sys_param_high_contrast_off =
      write_u32 spi_set_high_contrast ⨾ write_u32 0 ⨾ write_u32 2 ⨾ write_u16 0 ⨾ done
  write_body (sys_param_work_area width height) =
      write_u32 spi_set_work_area
      ⨾ write_u16 0
      ⨾ write_u16 0
      ⨾ write_u16 width
      ⨾ write_u16 height
      ⨾ done
  write_body (exec exe_or_file working_dir arguments) =
      write_u16 exec_flags
      ⨾ write_length (utf16_len exe_or_file) (
          write_length (utf16_len working_dir) (
            write_length (utf16_len arguments)
              (write_utf16 exe_or_file (write_utf16 working_dir (write_utf16 arguments done)))))
  write_body (activate window_id enabled) = write_u32 window_id ⨾ write_u8 (flag enabled) ⨾ done
  write_body (sys_command window_id command) = write_u32 window_id ⨾ write_u16 command ⨾ done

  unfoldable pub encode : ClientRailOrder → Write
  unfolding write_body
  encode o c =
      if ltb (room c) (size o)
      then returned (err (not_enough_bytes (room c) (size o)))
      else (write_u16 (order_type o) ⨾ write_length (size o) (write_body o)) c

pub record ExecResult : Type 0 where
  pub exec_result : ℕ
  pub raw_result : ℕ

pub data ServerRailOrder : Type 0 where
  handshake : ServerRailOrder
  exec_result : ExecResult → ServerRailOrder
  other : ℕ → ServerRailOrder

module _ (R : ReadCursor) where
  open R use {Cursor, len, read_u16, read_u32}

  unfoldable pub decode_exec_result : Cursor → Outcome (Result ServerRailOrder)
  decode_exec_result src =
      if ltb (len src) 8
      then returned (err truncated_exec_result)
      else (and_then (read_u16 src) λ flags. and_then (read_u16 (flags.1)) λ result.
          and_then (read_u32 (result.1)) λ raw. returned (
            ok (
              ServerRailOrder.exec_result (record { exec_result = result.0; raw_result = raw.0 }))))

  unfoldable pub decode : Cursor → Outcome (Result ServerRailOrder)
  unfolding decode_exec_result
  decode src =
      if ltb (len src) 4
      then returned (err truncated_header)
      else (and_then (read_u16 src) λ type. and_then (read_u16 (type.1)) λ order_length.
          if type.0 == order_handshake || type.0 == order_handshake_ex
          then returned (ok ServerRailOrder.handshake)
          else (if type.0 == order_exec_result
              then decode_exec_result (order_length.1)
              else returned (ok (other type.0))))
