-- ===== src/Rail/Window/Alpha.antt =====
-- crates/ironrdp-rail/src/window.rs: the alpha of an icon's pixels, from the mask's bits and from the
-- bytes of the bitmap.
use wasm_rdp.Prelude.{
  ℕ, zero, suc, ◌+◌, ◌*◌, ◌/◌, ◌%◌, ◌-◌, ◌^◌, ◌<◌, ◌≡◌, refl, sym, ap, ◌∙◌, Bool, false, not, ◌||◌,
  ◌&&◌, Option, none, some, List, [], ◌∷◌, ◌++◌, length, get_elem?, leb, ◌==◌, if◌then◌else◌, arith,
}
use wasm_rdp.Rail.Window.Icon.{mask_bit, any_alpha}
use wasm_rdp.Rail.Window.Loops.{byte_at}

-- The bits of a byte, the highest first.
abbrev byte_bits : ℕ → List Bool
byte_bits b =
    (b / 128 % 2 == 1)
    ∷ (b / 64 % 2 == 1)
    ∷ (b / 32 % 2 == 1)
    ∷ (b / 16 % 2 == 1)
    ∷ (b / 8 % 2 == 1)
    ∷ (b / 4 % 2 == 1)
    ∷ (b / 2 % 2 == 1)
    ∷ (b / 1 % 2 == 1)
    ∷ []

unfoldable pub bits_of : List ℕ → List Bool
bits_of [] = []
bits_of (b ∷ bs) = byte_bits b ++ bits_of bs

abbrev pub is_set : Option Bool → Bool
is_set none = false
is_set (some b) = b

-- A row of the mask is padded to 32 bits; the bit of a transparent pixel is set.
abbrev pub is_transparent : ℕ → List ℕ → ℕ → ℕ → Bool
is_transparent w mask row x = is_set (get_elem? (bits_of mask) (row * ((w + 31) / 32 * 32) + x))

-- The alpha of a pixel by the mask, which counts only when it is whole.
abbrev pub masked : ℕ → ℕ → List ℕ → ℕ → ℕ → ℕ
masked w h mask row x =
    if leb ((w + 31) / 32 * 4 * h) (length mask) && is_transparent w mask row x then 0 else 255

byte_bits-get :
    (b r : ℕ) (rest : List Bool)
    → r < 8
    → get_elem? (byte_bits b ++ rest) r ≡ some (b / 2 ^ (7 - r) % 2 == 1)
byte_bits-get b zero rest h = refl
byte_bits-get b (suc zero) rest h = refl
byte_bits-get b (suc (suc zero)) rest h = refl
byte_bits-get b (suc (suc (suc zero))) rest h = refl
byte_bits-get b (suc (suc (suc (suc zero)))) rest h = refl
byte_bits-get b (suc (suc (suc (suc (suc zero))))) rest h = refl
byte_bits-get b (suc (suc (suc (suc (suc (suc zero)))))) rest h = refl
byte_bits-get b (suc (suc (suc (suc (suc (suc (suc zero))))))) rest h = refl
byte_bits-get b (suc (suc (suc (suc (suc (suc (suc (suc r)))))))) rest h = absurd (omega arith)

abbrev bit_of_byte : ℕ → Option ℕ → Bool
bit_of_byte r none = false
bit_of_byte r (some b) = b / 2 ^ (7 - r) % 2 == 1

bits_of-get :
    (bs : List ℕ) (q r : ℕ)
    → r < 8
    → is_set (get_elem? (bits_of bs) (8 * q + r)) ≡ bit_of_byte r (get_elem? bs q)
unfolding bits_of
bits_of-get [] q r h = refl
bits_of-get (b ∷ bs) zero r h =
    ap (λ n. is_set (get_elem? (byte_bits b ++ bits_of bs) n)) first
    ∙ ap is_set (byte_bits-get b r (bits_of bs) h)
  where
    first : 8 * 0 + r ≡ r
    first = omega arith
bits_of-get (b ∷ bs) (suc q) r h =
    ap (λ n. is_set (get_elem? (byte_bits b ++ bits_of bs) n)) further ∙ bits_of-get bs q r h
  where
    further : 8 * suc q + r ≡ suc (suc (suc (suc (suc (suc (suc (suc (8 * q + r))))))))
    further = omega arith

-- The code's test of a bit is the bit's.
pub mask_bit-is_transparent :
    (mask : List ℕ) (w row x : ℕ)
    → mask_bit mask ((w + 31) / 32 * 4) x row ≡ is_transparent w mask row x
unfolding mask_bit
mask_bit-is_transparent mask w row x = code ∙ ap (λ n. is_set (get_elem? (bits_of mask) n)) place
  where
    q : ℕ
    q = row * ((w + 31) / 32 * 4) + x / 8

    code :
        bit_of_byte (x % 8) (get_elem? mask q) ≡ is_set (get_elem? (bits_of mask) (8 * q + x % 8))
    code = sym (bits_of-get mask q (x % 8) (omega arith))

    place : 8 * q + x % 8 ≡ row * ((w + 31) / 32 * 32) + x
    place = grind arith

-- Whether one of the first indices passes a test.
unfoldable pub any_below : ℕ → (ℕ → Bool) → Bool
any_below zero f = false
any_below (suc n) f = f 0 || any_below n (λ k. f (suc k))

any_below-ext : (n : ℕ) (f g : ℕ → Bool) → ((k : ℕ) → f k ≡ g k) → any_below n f ≡ any_below n g
unfolding any_below
any_below-ext zero f g h = refl
any_below-ext (suc n) f g h =
    rw (h 0, any_below-ext n (λ k. f (suc k)) (λ k. g (suc k)) (λ k. h (suc k))) refl

-- Some whole pixel has a fourth byte that is not zero.
abbrev pub has_alpha : List ℕ → Bool
has_alpha color = any_below (length color / 4) (λ p. not (byte_at color (p * 4 + 3) == 0))

pub any_alpha-has_alpha : (color : List ℕ) → any_alpha color ≡ has_alpha color
unfolding any_alpha any_below
any_alpha-has_alpha [] = refl
any_alpha-has_alpha (a ∷ []) = refl
any_alpha-has_alpha (a ∷ b ∷ []) = refl
any_alpha-has_alpha (a ∷ b ∷ c ∷ []) = refl
any_alpha-has_alpha (a ∷ b ∷ c ∷ d ∷ rest) =
    ap (λ q. not (d == 0) || q) (any_alpha-has_alpha rest ∙ any_below-ext _ _ _ shifted)
    ∙ ap (λ n. any_below n (λ p. not (byte_at (a ∷ b ∷ c ∷ d ∷ rest) (p * 4 + 3) == 0))) count
  where
    place : (k : ℕ) → suc (suc (suc (suc (k * 4 + 3)))) ≡ suc k * 4 + 3
    place k = omega arith

    shifted :
        (k : ℕ)
        → not (byte_at rest (k * 4 + 3) == 0)
          ≡ not (byte_at (a ∷ b ∷ c ∷ d ∷ rest) (suc k * 4 + 3) == 0)
    shifted k = ap (λ n. not (byte_at (a ∷ b ∷ c ∷ d ∷ rest) n == 0)) (place k)

    count : suc (length rest / 4) ≡ length (a ∷ b ∷ c ∷ d ∷ rest) / 4
    count = omega arith
