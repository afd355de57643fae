-- ===== src/Rail/Window/Pixels.antt =====
-- crates/ironrdp-rail/src/window.rs: `decode_icon` on any icon, and on whole 32- and 24-bit icons.
use wasm_rdp.Prelude.{
  ℕ, ◌+◌, ◌*◌, ◌/◌, ◌≤◌, ◌<◌, ◌≡◌, refl, ap, ◌∙◌, Bool, true, false, inl, inr, ◌||◌, ◌&&◌, Option,
  none, some, List, length, replicate, leb, ltb, ltb→ge, ge→ltb, ◌==◌, if◌then◌else◌, Bool-cases,
  Outcome, returned, and_then, index, Returns, returns, Returns-if, arith,
}
use wasm_rdp.Rail.Window.Icon.{mask_bit, any_alpha, mask_alpha, pixel_loops, decode_icon}
use wasm_rdp.Rail.Window.Alpha.{masked, has_alpha, mask_bit-is_transparent, any_alpha-has_alpha}
use wasm_rdp.Rail.Window.Loops.{byte_at, flipped, index-eq, length-span, pixel_loops-flipped}

-- The alpha by the mask, as the code reads it.
abbrev coded : ℕ → ℕ → List ℕ → ℕ → ℕ → ℕ
coded w h mask row x =
    mask_alpha (leb ((w + 31) / 32 * 4 * h) (length mask)) (mask_bit mask ((w + 31) / 32 * 4) x row)

abbrev pub offset32 : ℕ → ℕ → ℕ → ℕ
offset32 w row x = (row * w + x) * 4

abbrev pub stride24 : ℕ → ℕ
stride24 w = (w * 3 + 3) / 4 * 4

abbrev pub offset24 : ℕ → ℕ → ℕ → ℕ
offset24 w row x = row * stride24 w + x * 3

-- The alpha channel counts only if some pixel has a nonzero one.
abbrev pub alpha32 : ℕ → ℕ → List ℕ → List ℕ → ℕ → ℕ → ℕ
alpha32 w h color mask row x =
    if has_alpha color then byte_at color (offset32 w row x + 3) else masked w h mask row x

coded-masked : (w h : ℕ) (mask : List ℕ) (row x : ℕ) → coded w h mask row x ≡ masked w h mask row x
coded-masked w h mask row x =
    ap (λ b. if leb ((w + 31) / 32 * 4 * h) (length mask) && b then 0 else 255)
      (mask_bit-is_transparent mask w row x)

abbrev pub IsIconSize : ℕ → Type 0
IsIconSize n = (0 < n) × (n ≤ 256)

in_row : (row x w h n k : ℕ) → row < h → x < w → k < 4 → w * h * 4 ≤ n → (row * w + x) * 4 + k < n
in_row row x w h n k hr hx hk hn = grind arith

in_stride : (row x w h n s : ℕ) → row < h → x < w → w * 3 ≤ s → s * h ≤ n → row * s + x * 3 + 2 < n
in_stride row x w h n s hr hx hs hn = grind arith

size_check :
    (w h : ℕ) → IsIconSize w → IsIconSize h → (w == 0 || h == 0 || ltb 256 w || ltb 256 h) ≡ false
size_check w h hw hh = ground arith

if-returned :
    (b : Bool) (p q : ℕ) → (if b then returned p else returned q) ≡ returned (if b then p else q)
if-returned true p q = refl
if-returned false p q = refl

ok32 :
    (w h : ℕ) (color mask : List ℕ)
    → w * h * 4 ≤ length color
    → (row x : ℕ) → row < h
    → x < w
    → (offset32 w row x + 2 < length color)
      × ((if any_alpha color
            then index color (offset32 w row x + 3)
            else returned (coded w h mask row x))
          ≡ returned (alpha32 w h color mask row x))
ok32 w h color mask hc row x hr hx = (
  in_row row x w h (length color) 2 hr hx (omega arith) hc,
  rw
      (
        index-eq color (offset32 w row x + 3)
            (in_row row x w h (length color) 3 hr hx (omega arith) hc),
        any_alpha-has_alpha color,
        coded-masked w h mask row x,
      )
      (if-returned (has_alpha color) (byte_at color (offset32 w row x + 3))
        (masked w h mask row x)),
)

ok24 :
    (w h : ℕ) (color mask : List ℕ)
    → stride24 w * h ≤ length color
    → (row x : ℕ) → row < h
    → x < w
    → (offset24 w row x + 2 < length color)
      × (returned (coded w h mask row x) ≡ returned (masked w h mask row x))
ok24 w h color mask hc row x hr hx = (
  in_stride row x w h (length color) (stride24 w) hr hx (omega arith) hc,
  ap returned (coded-masked w h mask row x),
)

-- A 32-bit icon of 1 to 256 by 1 to 256 pixels with all its bytes decodes without an index out of
-- range, to the image with its rows flipped and its channels in RGBA order. Where the fourth byte of
-- some whole pixel is not zero the alpha is that byte. Else it is 0 where the mask is whole and its
-- bit for the pixel is set, the bits of a byte counted from its highest, and 255 elsewhere.
pub decode_icon32 :
    (w h : ℕ) (color mask : List ℕ)
    → IsIconSize w
    → IsIconSize h
    → w * h * 4 ≤ length color
    → decode_icon 32 w h color mask
      ≡ returned (some (flipped w h color (offset32 w) (alpha32 w h color mask)))
unfolding decode_icon
decode_icon32 w h color mask hw hh hc = rw (size_check w h hw hh) (
    rw (ge→ltb (length color) (w * h * 4) hc) (
      rw (
        pixel_loops-flipped w h color (offset32 w) _ (alpha32 w h color mask)
          (ok32 w h color mask hc))))

-- A 24-bit icon decodes likewise, from rows that are padded to four bytes, with alpha from the mask: 0
-- where it is whole and its bit for the pixel is set, the bits of a byte counted from its highest, and
-- 255 elsewhere.
pub decode_icon24 :
    (w h : ℕ) (color mask : List ℕ)
    → IsIconSize w
    → IsIconSize h
    → stride24 w * h ≤ length color
    → decode_icon 24 w h color mask
      ≡ returned (some (flipped w h color (offset24 w) (masked w h mask)))
unfolding decode_icon
decode_icon24 w h color mask hw hh hc = rw (size_check w h hw hh) (
    rw (ge→ltb (length color) (stride24 w * h) hc) (
      rw (
        pixel_loops-flipped w h color (offset24 w) (λ row x. returned (coded w h mask row x))
          (masked w h mask) (ok24 w h color mask hc))))

length-flipped :
    (w h : ℕ) (color : List ℕ) (source a : ℕ → ℕ → ℕ)
    → length (flipped w h color source a) ≡ w * h * 4
unfolding flipped
length-flipped w h color source a =
    length-span h 0 (w * 4) _ (λ y. length-span w 0 4 _ (λ x. refl)) ∙ reorder
  where
    reorder : h * (w * 4) ≡ w * h * 4
    reorder = grind arith

-- An answer of `decode_icon`: nothing, or as many bytes as the stated size takes.
abbrev pub HasSize : ℕ → ℕ → Option (List ℕ) → Type 0
HasSize w h none = Unit
HasSize w h (some rgba) = length rgba ≡ w * h * 4

loops-HasSize :
    (w h : ℕ) (color : List ℕ) (source : ℕ → ℕ → ℕ) (alpha : ℕ → ℕ → Outcome ℕ) (a : ℕ → ℕ → ℕ)
    → ((row x : ℕ)
        → row < h
        → x < w
        → (source row x + 2 < length color) × (alpha row x ≡ returned (a row x)))
    → Returns (HasSize w h) (
        and_then
          (pixel_loops w h color source alpha (replicate (w * h * 4) 0))
          λ rgba. returned (some rgba))
loops-HasSize w h color source alpha a ok =
    rw (pixel_loops-flipped w h color source alpha a ok)
      (returns (length-flipped w h color source a))

-- `decode_icon` never panics, whatever the sizes, the depth and the bytes.
pub decode_icon-HasSize :
    (bpp w h : ℕ) (color mask : List ℕ) → Returns (HasSize w h) (decode_icon bpp w h color mask)
unfolding decode_icon
decode_icon-HasSize bpp w h color mask =
    elim (Bool-cases (w == 0 || h == 0 || ltb 256 w || ltb 256 h)) [
      | inl e ↦ rw e (returns tt)
      | inr e ↦ rw e (elim (Bool-cases (bpp == 32)) [
        | inl d ↦ rw d case32
        | inr d ↦
            rw d (elim (Bool-cases (bpp == 24)) [ inl t ↦ rw t case24 | inr t ↦ rw t (returns tt) ])
      ])
    ]
  where
    case32 : Returns (HasSize w h) (
        if ltb (length color) (w * h * 4)
        then returned none
        else (and_then
            (pixel_loops w h color
              (offset32 w)
              (λ row x.
                if any_alpha color
                then index color (offset32 w row x + 3)
                else returned (coded w h mask row x))
              (replicate (w * h * 4) 0))
            λ rgba. returned (some rgba)))
    case32 =
        Returns-if (ltb (length color) (w * h * 4)) (λ _. returns tt)
          λ e.
            loops-HasSize w h color (offset32 w) _ (alpha32 w h color mask)
              (ok32 w h color mask (ltb→ge _ _ e))

    case24 : Returns (HasSize w h) (
        if ltb (length color) (stride24 w * h)
        then returned none
        else (and_then
            (pixel_loops w h color
              (offset24 w)
              (λ row x. returned (coded w h mask row x))
              (replicate (w * h * 4) 0))
            λ rgba. returned (some rgba)))
    case24 =
        Returns-if (ltb (length color) (stride24 w * h)) (λ _. returns tt)
          λ e.
            loops-HasSize w h color (offset24 w) _ (masked w h mask)
              (ok24 w h color mask (ltb→ge _ _ e))
