-- ===== src/Rail/Window/Reader.antt =====
-- crates/ironrdp-rail/src/window.rs, `Reader`: a forward reader over an untrusted byte slice.
-- A method takes the reader and returns its `Option` with the reader that it leaves behind, which
-- stays where it was if the method returns `none`.
use wasm_rdp.Prelude.{
  ℕ, ◌+◌, ◌-◌, ◌^◌, Option, none, some, List, [], ◌∷◌, length, get_elem?, take, drop, leb, ltb,
  if◌then◌else◌, of_le16, of_le32, from_utf16_lossy, ℤ, pos, negsuc,
}

pub record Reader : Type 0 where
  pub buf : List ℕ
  pub pos : ℕ

abbrev pub Get : Type 0 → Type 0
Get A = Reader → Option A × Reader

-- `?`: a `none` ends the caller, with the reader as the failed read left it.
abbrev pub proceed : {A B : Type 0} → (A → Get B) → Option A × Reader → Option B × Reader
proceed f (none, r) = (none, r)
proceed f (some a, r) = f a r

infixl 5 ◌>>=◌ ◌>>◌
abbrev pub ◌>>=◌ : {A B : Type 0} → Get A → (A → Get B) → Get B
◌>>=◌ m f r = proceed f (m r)

abbrev pub ◌>>◌ : {A B : Type 0} → Get A → Get B → Get B
m >> k = m >>= λ _. k

abbrev pub pure : {A : Type 0} → A → Get A
pure a r = (some a, r)

abbrev pub advance : Reader → ℕ → Reader
advance r n = record r { pos = r.pos + n }

unfoldable pub new : List ℕ → Reader
new buf = record { buf = buf; pos = 0 }

unfoldable pub remaining : Reader → ℕ
remaining r = length r.buf - r.pos

unfoldable pub u8 : Get ℕ
u8 r = elim (get_elem? r.buf r.pos) [ none ↦ (none, r) | some b ↦ (some b, advance r 1) ]

-- `self.buf.get(a..a + n)`
abbrev pub get_range : List ℕ → ℕ → ℕ → Option (List ℕ)
get_range buf a n = if leb (a + n) (length buf) then some (take n (drop a buf)) else none

unfoldable pub bytes : ℕ → Get (List ℕ)
bytes n r = elim (get_range r.buf r.pos n) [ none ↦ (none, r) | some s ↦ (some s, advance r n) ]

-- The two bytes and the four bytes of a slice of that length, in order.
word16 : List ℕ → ℕ
word16 (a ∷ b ∷ _) = of_le16 a b
word16 _ = 0

word32 : List ℕ → ℕ
word32 (a ∷ b ∷ c ∷ d ∷ _) = of_le32 a b c d
word32 _ = 0

unfoldable pub u16 : Get ℕ
unfolding word16
u16 r = elim (get_range r.buf r.pos 2) [
  | none ↦ (none, r)
  | some s ↦ (some (word16 s), advance r 2)
]

unfoldable pub u32 : Get ℕ
unfolding word32
u32 r = elim (get_range r.buf r.pos 4) [
  | none ↦ (none, r)
  | some s ↦ (some (word32 s), advance r 4)
]

-- `v as i32`
unfoldable pub as_i32 : ℕ → ℤ
as_i32 v = if ltb v (2 ^ 31) then pos v else negsuc (2 ^ 32 - v - 1)

unfoldable pub i32 : Get ℤ
i32 = do v ← u32; pure (as_i32 v)

unfoldable pub skip : ℕ → Get (Unit {0})
unfolding remaining
skip n r = if ltb (remaining r) n then (none, r) else (some tt, advance r n)

-- `chunks_exact(2)`, each read by `u16::from_le_bytes`; an odd last byte is left out.
unfoldable pub units : List ℕ → List ℕ
units (a ∷ b ∷ rest) = of_le16 a b ∷ units rest
units _ = []

-- RAIL_UNICODE_STRING: the byte count is consumed also where the bytes are missing.
unfoldable pub unicode_string : Get (List ℕ)
unfolding units
unicode_string = do cb ← u16; s ← bytes cb; pure (from_utf16_lossy (units s))
