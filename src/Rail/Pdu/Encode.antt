-- ===== src/Rail/Pdu/Encode.antt =====
-- crates/ironrdp-rail/src/pdu.rs: what `ClientRailOrder::encode` writes, on every branch.
use wasm_rdp.Prelude.{
  ℕ, ◌+◌, ◌^◌, ◌≤◌, ◌<◌, ◌≡◌, refl, sym, ◌∙◌, List, [], ◌∷◌, ◌++◌, append_assoc, append-nil, length,
  length-append, lt→ltb, ge→ltb, if◌then◌else◌, encode_utf16, unit_bytes, length-unit_bytes, le16,
  le32, Outcome, returned, arith,
}
use wasm_rdp.Rail.Wire.{not_enough_bytes, invalid_length, ok, err, WriteCursor}
use wasm_rdp.Rail.Pdu.{
  ClientRailOrder, handshake, client_status, sys_param_high_contrast_off, sys_param_work_area, exec,
  activate, sys_command, order_type, utf16_len, body_size, size, Write, done, ◌⨾◌, write_length,
  write_units, write_utf16, write_body, encode,
}

-- The order's body, field by field in little-endian.
unfoldable pub body_bytes : ClientRailOrder → List ℕ
body_bytes (handshake build_number) = le32 build_number
body_bytes (client_status flags) = le32 flags
body_bytes sys_param_high_contrast_off = le32 0x43 ++ (le32 0 ++ (le32 2 ++ le16 0))
body_bytes (sys_param_work_area width height) =
    le32 0x2F ++ (le16 0 ++ (le16 0 ++ (le16 width ++ le16 height)))
body_bytes (exec exe dir args) =
    le16 9
    ++ (le16 (utf16_len exe)
        ++ (le16 (utf16_len dir)
            ++ (le16 (utf16_len args)
                ++ (unit_bytes (encode_utf16 exe)
                    ++ (unit_bytes (encode_utf16 dir) ++ unit_bytes (encode_utf16 args))))))
body_bytes (activate window_id enabled) = le32 window_id ++ ((if enabled then 1 else 0) ∷ [])
body_bytes (sys_command window_id command) = le32 window_id ++ le16 command

-- TS_RAIL_PDU_HEADER's order types.
unfoldable pub type_code : ClientRailOrder → ℕ
type_code (handshake build_number) = 5
type_code (client_status flags) = 11
type_code sys_param_high_contrast_off = 3
type_code (sys_param_work_area width height) = 3
type_code (exec exe dir args) = 1
type_code (activate window_id enabled) = 2
type_code (sys_command window_id command) = 4

order_type-type_code : (o : ClientRailOrder) → order_type o ≡ type_code o
unfolding order_type type_code
order_type-type_code (handshake build_number) = refl
order_type-type_code (client_status flags) = refl
order_type-type_code sys_param_high_contrast_off = refl
order_type-type_code (sys_param_work_area width height) = refl
order_type-type_code (exec exe dir args) = refl
order_type-type_code (activate window_id enabled) = refl
order_type-type_code (sys_command window_id command) = refl

-- A whole PDU: the type, the length of the whole PDU, the body.
unfoldable pub pdu_bytes : ClientRailOrder → List ℕ
pdu_bytes o = le16 (type_code o) ++ (le16 (4 + length (body_bytes o)) ++ body_bytes o)

-- `body_size` is the length of the body.
pub length-body_bytes : (o : ClientRailOrder) → length (body_bytes o) ≡ body_size o
unfolding body_bytes body_size utf16_len
length-body_bytes (handshake build_number) = refl
length-body_bytes (client_status flags) = refl
length-body_bytes sys_param_high_contrast_off = refl
length-body_bytes (sys_param_work_area width height) = refl
length-body_bytes (exec exe dir args) =
    let us = unit_bytes (encode_utf16 exe) in
    let vs = unit_bytes (encode_utf16 dir) in
    let ws = unit_bytes (encode_utf16 args) in
    omega (
      arith,
      length-append us (vs ++ ws),
      length-append vs ws,
      length-unit_bytes (encode_utf16 exe),
      length-unit_bytes (encode_utf16 dir),
      length-unit_bytes (encode_utf16 args),
    )
length-body_bytes (activate window_id enabled) = refl
length-body_bytes (sys_command window_id command) = refl

pub length-pdu_bytes : (o : ClientRailOrder) → length (pdu_bytes o) ≡ size o
unfolding pdu_bytes size
length-pdu_bytes o = omega (arith, length-body_bytes o)

module _ (W : WriteCursor) where
  open W use {
    Cursor, written, room, write_u8, write_u16, write_u32, write_u8_fits, write_u16_fits,
    write_u32_fits,
  }

  -- `k` appends `xs`, where they fit.
  record Emits (k : Write W) (xs : List ℕ) : Type 0 where
    from :
        (c : Cursor)
        → length xs ≤ room c
        → (c' : Cursor) × (k c ≡ returned (ok c'))
          × (written c' ≡ written c ++ xs)
          × (room c' + length xs ≡ room c)

  done-Emits : Emits (done W) []
  done-Emits = record { from = λ c h. (c, refl, sym (append-nil (written c)), omega arith) }

  -- One write in front of the others.
  write-Emits :
      (m : Cursor → Outcome Cursor) (xs : List ℕ) {k : Write W} {ys : List ℕ}
      → ((c : Cursor)
          → length xs ≤ room c
          → (c' : Cursor) × (m c ≡ returned c')
            × (written c' ≡ written c ++ xs)
            × (room c' + length xs ≡ room c))
      → Emits k ys
      → Emits (◌⨾◌ W m k) (xs ++ ys)
  write-Emits m xs {k} {ys} step rest = record {
    from = λ c h.
        let l = length-append xs ys in
        let (c₁, run, w, r) = step c (omega (arith, l)) in
        let (c₂, run', w', r') = rest.from c₁ (omega (arith, l)) in
        (c₂, rw run run', w' ∙ rw w (append_assoc (written c) xs ys), omega (arith, l));
  }

  u8-Emits :
      (v : ℕ) {k : Write W} {ys : List ℕ} → Emits k ys → Emits (◌⨾◌ W (write_u8 v) k) (v ∷ ys)
  u8-Emits v h = write-Emits (write_u8 v) (v ∷ []) (λ c. write_u8_fits v c) h

  u16-Emits :
      (v : ℕ) {k : Write W} {ys : List ℕ}
      → Emits k ys
      → Emits (◌⨾◌ W (write_u16 v) k) (le16 v ++ ys)
  u16-Emits v h = write-Emits (write_u16 v) (le16 v) (λ c. write_u16_fits v c) h

  u32-Emits :
      (v : ℕ) {k : Write W} {ys : List ℕ}
      → Emits k ys
      → Emits (◌⨾◌ W (write_u32 v) k) (le32 v ++ ys)
  u32-Emits v h = write-Emits (write_u32 v) (le32 v) (λ c. write_u32_fits v c) h

  length-Emits :
      (len : ℕ) {k : Write W} {ys : List ℕ}
      → len < 2 ^ 16
      → Emits k ys
      → Emits (write_length W len k) (le16 len ++ ys)
  length-Emits len small h = record {
    from = λ c fits. rw (lt→ltb len (2 ^ 16) small) ((u16-Emits len h).from c fits);
  }

  units-Emits :
      (us : List ℕ) {k : Write W} {ys : List ℕ}
      → Emits k ys
      → Emits (write_units W us k) (unit_bytes us ++ ys)
  unfolding write_units unit_bytes
  units-Emits [] h = h
  units-Emits (u ∷ us) h = u16-Emits u (units-Emits us h)

  body-Emits : (o : ClientRailOrder) → size o < 2 ^ 16 → Emits (write_body W o) (body_bytes o)
  unfolding write_body body_bytes size body_size
  body-Emits (handshake build_number) h = u32-Emits build_number done-Emits
  body-Emits (client_status flags) h = u32-Emits flags done-Emits
  body-Emits sys_param_high_contrast_off h =
      u32-Emits 0x43 (u32-Emits 0 (u32-Emits 2 (u16-Emits 0 done-Emits)))
  body-Emits (sys_param_work_area width height) h =
      u32-Emits 0x2F (u16-Emits 0 (u16-Emits 0 (u16-Emits width (u16-Emits height done-Emits))))
  body-Emits (exec exe dir args) h = u16-Emits 9 (
      length-Emits (utf16_len exe) (omega arith) (
        length-Emits (utf16_len dir) (omega arith) (
          length-Emits (utf16_len args) (omega arith)
            (units-Emits (encode_utf16 exe) (units-Emits (encode_utf16 dir) last)))))
    where
      last : Emits (write_utf16 W args (done W)) (unit_bytes (encode_utf16 args))
      last =
          rw (← append-nil (unit_bytes (encode_utf16 args)))
            (units-Emits (encode_utf16 args) done-Emits)
  body-Emits (activate window_id enabled) h = u32-Emits window_id (u8-Emits _ done-Emits)
  body-Emits (sys_command window_id command) h = u32-Emits window_id (u16-Emits command done-Emits)

  pdu-Emits :
      (o : ClientRailOrder)
      → size o < 2 ^ 16
      → Emits
          (◌⨾◌ W (write_u16 (order_type o)) (write_length W (size o) (write_body W o)))
          (pdu_bytes o)
  unfolding pdu_bytes size
  pdu-Emits o h =
      rw (pdu_bytes, length-body_bytes o, ← order_type-type_code o)
        (u16-Emits (order_type o) (length-Emits (size o) h (body-Emits o h)))

  -- Into a cursor with room for it an order of less than 64 KiB is written whole: the type, the length
  -- of the whole PDU, and the body; the cursor moves by exactly `size`.
  pub encode-pdu_bytes :
      (o : ClientRailOrder) (c : Cursor)
      → size o ≤ room c
      → size o < 2 ^ 16
      → (c' : Cursor) × (encode W o c ≡ returned (ok c'))
        × (written c' ≡ written c ++ pdu_bytes o)
        × (room c' + size o ≡ room c)
  unfolding encode
  encode-pdu_bytes o c fits small =
      let l = length-pdu_bytes o in
      let (c', run, w, r) = (pdu-Emits o small).from c (omega (arith, l)) in
      (c', rw (ge→ltb (room c) (size o) fits) run, w, omega (arith, l))

  -- The two errors: no room for the whole PDU, and a PDU whose length does not fit 16 bits.
  encode_refusal :
      (o : ClientRailOrder) (c : Cursor)
      → (room c < size o → encode W o c ≡ returned (err (not_enough_bytes (room c) (size o))))
        × (size o ≤ room c → 2 ^ 16 ≤ size o → encode W o c ≡ returned (err invalid_length))
  unfolding encode
  encode_refusal o c = (
    (λ short. rw (lt→ltb (room c) (size o) short)),
    λ fits large.
        let (c', run, w, r) = write_u16_fits (order_type o) c (omega arith) in
        rw (ge→ltb (room c) (size o) fits) (rw run (rw (ge→ltb (size o) (2 ^ 16) large))),
  )
