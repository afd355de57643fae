-- ===== src/Rail/Window/Pictures.antt =====
-- crates/ironrdp-rail/src/window.rs: `parse_icon_order` on the icons that a server sends.
use wasm_rdp.Prelude.{
  ℕ, ◌≡◌, refl, false, if◌then◌else◌, ap, some, List, [], ◌∷◌, ◌++◌, length, IsU16, le16, returned,
  arith,
}
use wasm_rdp.Rail.Window.Reader.{Get, pure, u16}
use wasm_rdp.Rail.Window.Order.{icon}
use wasm_rdp.Rail.Window.Icon.{
  IconBody, ignore, is_palettized, icon_body, decode_icon, parse_icon_order,
}
use wasm_rdp.Rail.Window.Pixels.{decode_icon32, decode_icon24, IsIconSize}
use wasm_rdp.Rail.Window.Cursor.{
  cursor, Reads, u8-Reads, u16-Reads, bytes-Reads, pure-Reads, bind-Reads,
}
use wasm_rdp.Rail.Window.State.{then_pure-Reads}
use wasm_rdp.Rail.Window.Sender.{
  Depth, bits32, bits24, IconImage, bpp_of, icon_bytes, image_of, IsIcon,
}

ignore-Reads :
    {A : Type 0} {m : Get A} {a : A} {xs : List ℕ} → Reads m a xs → Reads (ignore m) tt xs
unfolding ignore
ignore-Reads h = record {
  between = λ before after. ap (λ q. (some tt, q.1)) (h.between before after);
}

size-IsU16 : (n : ℕ) → IsIconSize n → IsU16 n
size-IsU16 n h = omega (arith, h.1)

module _ (cache_entry cache_id width height : ℕ) (mask color : List ℕ) where
  abbrev sized : Depth → IconImage
  sized depth = record {
    depth = depth;
    cache_entry = cache_entry;
    cache_id = cache_id;
    width = width;
    height = height;
    mask = mask;
    color = color;
  }

  abbrev read_body : ℕ → IconBody
  read_body n = record { bpp = n; width = width; height = height; mask = mask; color = color }

  -- Behind the cache's numbers, for a depth without a table of colours.
  body_of-Reads :
      (n t : ℕ)
      → is_palettized n ≡ false
      → 0 ≡ t
      → IsU16 cache_entry
      → IsU16 width
      → IsU16 height
      → IsU16 (length mask)
      → IsU16 (length color)
      → Reads icon_body (read_body n) (
          le16 cache_entry
          ++ (cache_id
              ∷ n
              ∷ (le16 width
                  ++ (le16 height
                      ++ (le16 (length mask) ++ (le16 (length color) ++ (mask ++ color)))))))
  unfolding icon_body
  body_of-Reads n t e z c w h m k = bind-Reads _ (ignore-Reads (u16-Reads cache_entry c)) (
      bind-Reads _ (ignore-Reads (u8-Reads cache_id)) (
        bind-Reads _ (u8-Reads n) (
          bind-Reads _ (u16-Reads width w) (
            bind-Reads _ (u16-Reads height h) (
              bind-Reads _ no_table (
                bind-Reads _ (u16-Reads (length mask) m) (
                  bind-Reads _ (u16-Reads (length color) k) (
                    bind-Reads _ (bytes-Reads mask (length mask) refl) (
                      bind-Reads _ (bytes-Reads [] t z)
                        (then_pure-Reads _ (bytes-Reads color (length color) refl)))))))))))
    where
      no_table : Reads (if is_palettized n then u16 else pure 0) t []
      no_table = rw (e, ← z) (pure-Reads {A = ℕ} 0)

  icon_body-Reads :
      (depth : Depth)
      → IsIcon (sized depth)
      → Reads icon_body (read_body (bpp_of depth)) (icon_bytes (sized depth))
  unfolding icon_bytes
  icon_body-Reads bits32 v =
      body_of-Reads 32 0 refl refl v.entry_fits (size-IsU16 width v.width_fits)
        (size-IsU16 height v.height_fits) v.mask_fits v.color_fits
  icon_body-Reads bits24 v =
      body_of-Reads 24 0 refl refl v.entry_fits (size-IsU16 width v.width_fits)
        (size-IsU16 height v.height_fits) v.mask_fits v.color_fits

  decode_icon-image_of :
      (depth : Depth)
      → IsIcon (sized depth)
      → decode_icon (bpp_of depth) width height color mask
        ≡ returned (some (image_of (sized depth) depth))
  decode_icon-image_of bits32 v =
      decode_icon32 width height color mask v.width_fits v.height_fits v.is_whole
  decode_icon-image_of bits24 v =
      decode_icon24 width height color mask v.width_fits v.height_fits v.is_whole

  pub parse_icon_order-image_of :
      (depth : Depth) (window_id : ℕ) (before after : List ℕ)
      → IsIcon (sized depth)
      → parse_icon_order window_id (cursor before (icon_bytes (sized depth) ++ after))
        ≡ returned (
          icon window_id width height (image_of (sized depth) depth) ∷ [],
          cursor (before ++ icon_bytes (sized depth)) after,
        )
  unfolding parse_icon_order
  parse_icon_order-image_of depth window_id before after v =
      rw ((icon_body-Reads depth v).between before after) (rw (decode_icon-image_of depth v) refl)
