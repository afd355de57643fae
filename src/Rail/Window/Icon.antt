-- ===== src/Rail/Window/Icon.antt =====
-- crates/ironrdp-rail/src/window.rs: `mask_bit`, `decode_icon`, `parse_icon_order`.
use wasm_rdp.Prelude.{
  ℕ, ◌+◌, ◌-◌, ◌*◌, ◌/◌, ◌%◌, ◌^◌, Bool, false, not, ◌&&◌, ◌||◌, Option, none, some, List, [], ◌∷◌,
  length, get_elem?, replicate, leb, ltb, ◌==◌, if◌then◌else◌, Outcome, returned, and_then, index,
  assign, for_range,
}
use wasm_rdp.Rail.Window.Reader.{Reader, Get, ◌>>=◌, ◌>>◌, pure, u8, u16, bytes}
use wasm_rdp.Rail.Window.Order.{WindowEvent, icon, Pushed}

-- Bit 7 - x % 8 of the mask's byte; a byte that is missing reads as opaque.
unfoldable pub mask_bit : List ℕ → ℕ → ℕ → ℕ → Bool
mask_bit mask stride x row = elim (get_elem? mask (row * stride + x / 8)) [
  | none ↦ false
  | some b ↦ b / 2 ^ (7 - x % 8) % 2 == 1
]

-- `color.chunks_exact(4).any(|px| px[3] != 0)`
unfoldable pub any_alpha : List ℕ → Bool
any_alpha (_ ∷ _ ∷ _ ∷ a ∷ rest) = not (a == 0) || any_alpha rest
any_alpha _ = false

-- `out[d] = color[s + 2]; out[d + 1] = color[s + 1]; out[d + 2] = color[s]; out[d + 3] = a;`
unfoldable pub write_pixel : List ℕ → ℕ → ℕ → Outcome ℕ → List ℕ → Outcome (List ℕ)
write_pixel color s d alpha out = and_then alpha λ a. and_then (index color (s + 2)) λ red.
    and_then (assign out d red) λ out₁. and_then (index color (s + 1)) λ green.
      and_then (assign out₁ (d + 1) green) λ out₂.
        and_then (index color s)
          λ blue. and_then (assign out₂ (d + 2) blue) λ out₃. assign out₃ (d + 3) a

abbrev pub mask_alpha : Bool → Bool → ℕ
mask_alpha have_mask transparent = if have_mask && transparent then 0 else 255

-- The body of the two loops: the pixel at column `x` of source row `h - 1 - y`.
unfoldable pub pixel_loops :
    ℕ → ℕ → List ℕ → (ℕ → ℕ → ℕ) → (ℕ → ℕ → Outcome ℕ) → List ℕ → Outcome (List ℕ)
pixel_loops w h color source alpha = for_range h 0 λ y.
    for_range w 0
      λ x. write_pixel color (source (h - 1 - y) x) ((y * w + x) * 4) (alpha (h - 1 - y) x)

-- `None` is `returned none`.
unfoldable pub decode_icon : ℕ → ℕ → ℕ → List ℕ → List ℕ → Outcome (Option (List ℕ))
decode_icon bpp w h color mask =
    let mask_stride = (w + 31) / 32 * 4 in
    let have_mask = leb (mask_stride * h) (length mask) in
    let out = replicate (w * h * 4) 0 in
    let stride = (w * 3 + 3) / 4 * 4 in
    let transparent = λ (src x : ℕ). mask_bit mask mask_stride x src in
    let alpha32 = λ (src x : ℕ).
      if any_alpha color
      then index color ((src * w + x) * 4 + 3)
      else returned (mask_alpha have_mask (transparent src x)) in
    let alpha24 = λ (src x : ℕ). returned (mask_alpha have_mask (transparent src x)) in
    if w == 0 || h == 0 || ltb 256 w || ltb 256 h
    then returned none
    else (if bpp == 32
        then (if ltb (length color) (w * h * 4)
            then returned none
            else and_then (pixel_loops w h color (λ src x. (src * w + x) * 4) alpha32 out)
                λ rgba. returned (some rgba))
        else (if bpp == 24
            then (if ltb (length color) (stride * h)
                then returned none
                else and_then (pixel_loops w h color (λ src x. src * stride + x * 3) alpha24 out)
                    λ rgba. returned (some rgba))
            else returned none))

-- A read whose result is dropped: a `none` does not end the caller.
unfoldable pub ignore : {A : Type 0} → Get A → Get (Unit {0})
ignore m r = (some tt, (m r).1)

pub record IconBody : Type 0 where
  pub bpp : ℕ
  pub width : ℕ
  pub height : ℕ
  pub mask : List ℕ
  pub color : List ℕ

abbrev pub is_palettized : ℕ → Bool
is_palettized bpp = bpp == 1 || bpp == 4 || bpp == 8

unfoldable pub icon_body : Get IconBody
icon_body = do
  ignore u16
  ignore u8
  bpp ← u8
  width ← u16
  height ← u16
  cb_color_table ← (if is_palettized bpp then u16 else pure 0)
  cb_bits_mask ← u16
  cb_bits_color ← u16
  bits_mask ← bytes cb_bits_mask
  color_table ← bytes cb_color_table
  bits_color ← bytes cb_bits_color
  pure (record { bpp = bpp; width = width; height = height; mask = bits_mask; color = bits_color })

abbrev pub icon_event : ℕ → IconBody → Outcome (List WindowEvent)
icon_event window_id b = and_then (decode_icon b.bpp b.width b.height b.color b.mask) λ decoded.
    elim decoded [
      | none ↦ returned []
      | some rgba ↦ returned (icon window_id b.width b.height rgba ∷ [])
    ]

abbrev pub push_icon : ℕ → Option IconBody × Reader → Outcome Pushed
push_icon window_id (none, r) = returned ([], r)
push_icon window_id (some b, r) = and_then (icon_event window_id b) λ events. returned (events, r)

unfoldable pub parse_icon_order : ℕ → Reader → Outcome Pushed
unfolding icon_body
parse_icon_order window_id r = push_icon window_id (icon_body r)
