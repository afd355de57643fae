-- ===== src/Prelude/Utf8.antt =====
-- `String::from_utf8_lossy`, as the bytes of the text that it gives.
use Prim.Native.Nat.{ℕ, zero, suc}
use mathlib.Core.Path.{◌≡◌, refl}
use mathlib.Core.Bool.{◌&&◌}
use mathlib.Core.List.{List, [], ◌∷◌, ◌++◌}
use wasm_rdp.Prelude.Tests.{ltb, leb, ◌==◌, if◌then◌else◌}
use wasm_rdp.Prelude.Lists.{take}

-- How many bytes continue a character behind its first byte, and the range of the second byte.
data Head : Type 0 where
  no_head : Head
  head : ℕ → ℕ → ℕ → Head

utf8_head : ℕ → Head
utf8_head b =
    if ltb b 0x80
    then head 0 0 0
    else if leb 0xC2 b && leb b 0xDF
    then head 1 0x80 0xBF
    else if b == 0xE0
    then head 2 0xA0 0xBF
    else if b == 0xED
    then head 2 0x80 0x9F
    else if leb 0xE1 b && leb b 0xEF
    then head 2 0x80 0xBF
    else if b == 0xF0
    then head 3 0x90 0xBF
    else if leb 0xF1 b && leb b 0xF3
    then head 3 0x80 0xBF
    else if b == 0xF4
    then head 3 0x80 0x8F
    else no_head

-- How many of the wanted bytes are there.
continued : ℕ → ℕ → ℕ → List ℕ → ℕ
continued zero lo hi bytes = 0
continued (suc n) lo hi [] = 0
continued (suc n) lo hi (b ∷ bytes) =
    let rest = suc (continued n 0x80 0xBF bytes) in if leb lo b && leb b hi then rest else 0

abbrev replacement : List ℕ
replacement = 0xEF ∷ 0xBF ∷ 0xBD ∷ []

-- What the bytes at the start of a character read as, and how many follow the first.
abbrev one_char : Head → ℕ → List ℕ → List ℕ × ℕ
one_char no_head b rest = (replacement, 0)
one_char (head n lo hi) b rest =
    let there = continued n lo hi rest in
    (if there == n then b ∷ take n rest else replacement, there)

-- `skip` bytes belong to the character before.
utf8_from : ℕ → List ℕ → List ℕ
unfolding utf8_head continued
utf8_from skip [] = []
utf8_from (suc skip) (b ∷ bytes) = utf8_from skip bytes
utf8_from zero (b ∷ bytes) =
    let (char, skip) = one_char (utf8_head b) b bytes in char ++ utf8_from skip bytes

pub from_utf8_lossy : List ℕ → List ℕ
unfolding utf8_from
from_utf8_lossy bytes = utf8_from 0 bytes

replaced :
    from_utf8_lossy (0x41 ∷ 0xE2 ∷ 0x82 ∷ 0x42 ∷ 0xFF ∷ 0xC3 ∷ 0xA9 ∷ [])
    ≡ 0x41 ∷ 0xEF ∷ 0xBF ∷ 0xBD ∷ 0x42 ∷ 0xEF ∷ 0xBF ∷ 0xBD ∷ 0xC3 ∷ 0xA9 ∷ []
unfolding from_utf8_lossy
replaced = refl
