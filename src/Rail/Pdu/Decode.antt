-- ===== src/Rail/Pdu/Decode.antt =====
-- crates/ironrdp-rail/src/pdu.rs: `ServerRailOrder::decode` on any payload.
use wasm_rdp.Prelude.{
  ℕ, ◌<◌, ◌≡◌, ap, true, List, [], ◌∷◌, length, ltb, lt→ltb, ge→ltb, ◌==◌, ◌||◌, if◌then◌else◌,
  of_le16, of_le32, returned, arith,
}
use wasm_rdp.Rail.Wire.{truncated_header, truncated_exec_result, Result, ok, err, ReadCursor}
use wasm_rdp.Rail.Pdu.{
  order_handshake, order_handshake_ex, order_exec_result, ServerRailOrder, other, decode,
  decode_exec_result,
}

-- The body of an Execute Result: flags, the result, the raw result, and more that is not read.
unfoldable pub exec_result_of : List ℕ → Result ServerRailOrder
exec_result_of (_ ∷ _ ∷ a ∷ b ∷ p ∷ q ∷ r ∷ s ∷ _) = ok (
    ServerRailOrder.exec_result
      (record { exec_result = of_le16 a b; raw_result = of_le32 p q r s }))
exec_result_of _ = err truncated_exec_result

-- What a payload means: the type in the first two bytes, a length that is not looked at, the body.
unfoldable pub meaning : List ℕ → Result ServerRailOrder
meaning (a ∷ b ∷ _ ∷ _ ∷ body) =
    let type = of_le16 a b in
    if type == 0x05 || type == 0x13
    then ok ServerRailOrder.handshake
    else (if type == 0x80 then exec_result_of body else ok (other type))
meaning _ = err truncated_header

module _ (R : ReadCursor) where
  open R use {
    Cursor, new, rest, len, read_u16, read_u32, rest-new, len-rest, read_u16_lem, read_u32_lem,
  }

  short : (c : Cursor) (bs : List ℕ) (n : ℕ) → rest c ≡ bs → length bs < n → ltb (len c) n ≡ true
  short c bs n e h = lt→ltb (len c) n (omega (arith, len-rest c, ap length e))

  decode_exec_result-exec_result_of :
      (c : Cursor) (body : List ℕ)
      → rest c ≡ body
      → decode_exec_result R c ≡ returned (exec_result_of body)
  unfolding decode_exec_result exec_result_of
  decode_exec_result-exec_result_of c (x ∷ y ∷ a ∷ b ∷ p ∷ q ∷ r ∷ s ∷ bs) e =
      let (c₁, run₁, e₁) = read_u16_lem c x y (a ∷ b ∷ p ∷ q ∷ r ∷ s ∷ bs) e in
      let (c₂, run₂, e₂) = read_u16_lem c₁ a b (p ∷ q ∷ r ∷ s ∷ bs) e₁ in
      let (c₃, run₃, e₃) = read_u32_lem c₂ p q r s bs e₂ in
      rw (ge→ltb (len c) 8 (omega (arith, len-rest c, ap length e))) (rw run₁ (rw run₂ (rw run₃)))
  decode_exec_result-exec_result_of c [] e = rw (short c _ 8 e (omega arith))
  decode_exec_result-exec_result_of c (_ ∷ []) e = rw (short c _ 8 e (omega arith))
  decode_exec_result-exec_result_of c (_ ∷ _ ∷ []) e = rw (short c _ 8 e (omega arith))
  decode_exec_result-exec_result_of c (_ ∷ _ ∷ _ ∷ []) e = rw (short c _ 8 e (omega arith))
  decode_exec_result-exec_result_of c (_ ∷ _ ∷ _ ∷ _ ∷ []) e = rw (short c _ 8 e (omega arith))
  decode_exec_result-exec_result_of c (_ ∷ _ ∷ _ ∷ _ ∷ _ ∷ []) e = rw (short c _ 8 e (omega arith))
  decode_exec_result-exec_result_of c (_ ∷ _ ∷ _ ∷ _ ∷ _ ∷ _ ∷ []) e =
      rw (short c _ 8 e (omega arith))
  decode_exec_result-exec_result_of c (_ ∷ _ ∷ _ ∷ _ ∷ _ ∷ _ ∷ _ ∷ []) e =
      rw (short c _ 8 e (omega arith))

  decode_at :
      (c : Cursor) (payload : List ℕ) → rest c ≡ payload → decode R c ≡ returned (meaning payload)
  unfolding decode meaning
  decode_at c (a ∷ b ∷ x ∷ y ∷ body) e =
      let (c₁, run₁, e₁) = read_u16_lem c a b (x ∷ y ∷ body) e in
      let (c₂, run₂, e₂) = read_u16_lem c₁ x y body e₁ in
      rw (ge→ltb (len c) 4 (omega (arith, len-rest c, ap length e))) (
        rw run₁ (
          rw run₂
            (rw (decode_exec_result-exec_result_of c₂ body e₂) (branches (of_le16 a b) body))))
    where
      branches :
          (type : ℕ) (body : List ℕ)
          → (if type == order_handshake || type == order_handshake_ex
              then returned (ok ServerRailOrder.handshake)
              else (if type == order_exec_result
                  then returned (exec_result_of body)
                  else returned (ok (other type))))
            ≡ returned (
                if type == 0x05 || type == 0x13
                then ok ServerRailOrder.handshake
                else (if type == 0x80 then exec_result_of body else ok (other type)))
      branches type body = ground arith
  decode_at c [] e = rw (short c _ 4 e (omega arith))
  decode_at c (_ ∷ []) e = rw (short c _ 4 e (omega arith))
  decode_at c (_ ∷ _ ∷ []) e = rw (short c _ 4 e (omega arith))
  decode_at c (_ ∷ _ ∷ _ ∷ []) e = rw (short c _ 4 e (omega arith))

  -- On every payload the decoder returns its meaning: no read panics, whatever is missing.
  pub decode-meaning : (payload : List ℕ) → decode R (new payload) ≡ returned (meaning payload)
  decode-meaning payload = decode_at (new payload) payload (rest-new payload)
