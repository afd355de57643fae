-- ===== src/Rail/Wire.antt =====
-- What crates/ironrdp-rail uses of the package ironrdp_core: `ReadCursor`, `WriteCursor` and the
-- errors that its macros build. The cursors are parameters, with their documented behaviour as laws: an
-- access past the end panics, and integers are little-endian.
use wasm_rdp.Prelude.{
  ℕ, ◌+◌, ◌≤◌, ◌≡◌, List, [], ◌∷◌, ◌++◌, length, le16, le32, of_le16, of_le32, Outcome, returned,
}

-- `not_enough_bytes_err`, `invalid_field_err` and the error of a failed `cast_length!`.
pub data WireError : Type 0 where
  not_enough_bytes : ℕ → ℕ → WireError
  invalid_length : WireError
  truncated_header : WireError
  truncated_exec_result : WireError

pub data Result {ℓ} (A : Type ℓ) : Type ℓ where
  ok : A → Result A
  err : WireError → Result A

pub record WriteCursor : Type 1 where
  pub Cursor : Type 0
  -- the bytes written so far, and how many more fit
  pub written : Cursor → List ℕ
  pub room : Cursor → ℕ
  pub write_u8 : ℕ → Cursor → Outcome Cursor
  pub write_u16 : ℕ → Cursor → Outcome Cursor
  pub write_u32 : ℕ → Cursor → Outcome Cursor
  pub write_u8_fits :
      (v : ℕ) (c : Cursor)
      → 1 ≤ room c
      → (c' : Cursor) × (write_u8 v c ≡ returned c')
        × (written c' ≡ written c ++ (v ∷ []))
        × (room c' + 1 ≡ room c)
  pub write_u16_fits :
      (v : ℕ) (c : Cursor)
      → 2 ≤ room c
      → (c' : Cursor) × (write_u16 v c ≡ returned c')
        × (written c' ≡ written c ++ le16 v)
        × (room c' + 2 ≡ room c)
  pub write_u32_fits :
      (v : ℕ) (c : Cursor)
      → 4 ≤ room c
      → (c' : Cursor) × (write_u32 v c ≡ returned c')
        × (written c' ≡ written c ++ le32 v)
        × (room c' + 4 ≡ room c)

pub record ReadCursor : Type 1 where
  pub Cursor : Type 0
  pub new : List ℕ → Cursor
  -- the bytes not yet read
  pub rest : Cursor → List ℕ
  pub len : Cursor → ℕ
  pub read_u16 : Cursor → Outcome (ℕ × Cursor)
  pub read_u32 : Cursor → Outcome (ℕ × Cursor)
  pub rest-new : (bytes : List ℕ) → rest (new bytes) ≡ bytes
  pub len-rest : (c : Cursor) → len c ≡ length (rest c)
  pub read_u16_lem :
      (c : Cursor) (a b : ℕ) (bs : List ℕ)
      → rest c ≡ a ∷ b ∷ bs
      → (c' : Cursor) × (read_u16 c ≡ returned (of_le16 a b, c')) × (rest c' ≡ bs)
  pub read_u32_lem :
      (c : Cursor) (a b d e : ℕ) (bs : List ℕ)
      → rest c ≡ a ∷ b ∷ d ∷ e ∷ bs
      → (c' : Cursor) × (read_u32 c ≡ returned (of_le32 a b d e, c')) × (rest c' ≡ bs)
