-- ===== src/Rail/Window/Tests.antt =====
-- crates/ironrdp-rail/src/window.rs: unit tests of its `tests` module by evaluation, and the theorems
-- at concrete inputs.
use wasm_rdp.Prelude.{
  ℕ, ◌≡◌, refl, true, none, some, List, [], ◌∷◌, ◌++◌, All, le16, le32, pos, negsuc, returned,
  for_range, Returns, arith,
}
use wasm_rdp.Rail.Window.Reader.{new, remaining, u8, u16, u32}
use wasm_rdp.Rail.Window.Order.{deleted, zorder, active_window, parse_desktop_order, repeat}
use wasm_rdp.Rail.Window.Icon.{any_alpha, mask_bit, write_pixel, pixel_loops, decode_icon}
use wasm_rdp.Rail.Window.Parse.{parse_window_order, parse_order, parse}
use wasm_rdp.Rail.Window.Fields.{WindowState}
use wasm_rdp.Rail.Window.Sender.{
  IconImage, bits32, Message, state, new_icon, notification, gone, desktop, frame_marker, order,
}
use wasm_rdp.Rail.Window.Loops.{flipped}
use wasm_rdp.Rail.Window.Alpha.{masked}
use wasm_rdp.Rail.Window.Pixels.{offset32, offset24, alpha32, decode_icon32, decode_icon24}
use wasm_rdp.Rail.Window.Total.{IsSized, parse-IsSized}

delete_window : parse (le16 1 ++ order 0x21000000 (le32 0x1234)) ≡ returned (deleted 0x1234 ∷ [])
unfolding parse parse_order parse_window_order order remaining u8 u16 u32 new
delete_window = refl

-- `desktop_zorder_and_active`
desktop_zorder_and_active :
    parse (le16 1 ++ order 0x04000030 (le32 0xAA ++ (2 ∷ (le32 0xAA ++ le32 0xBB))))
    ≡ returned (active_window 0xAA ∷ zorder (0xAA ∷ 0xBB ∷ []) ∷ [])
unfolding parse parse_order parse_window_order parse_desktop_order order remaining u8 u16 u32 new
    repeat
desktop_zorder_and_active = refl

-- `icon_32bpp_decoded_bottom_up_to_rgba`
abbrev four_pixels : List ℕ
four_pixels =
    10 ∷ 20 ∷ 30 ∷ 255 ∷ 40 ∷ 50 ∷ 60 ∷ 255 ∷ 70 ∷ 80 ∷ 90 ∷ 255 ∷ 100 ∷ 110 ∷ 120 ∷ 255 ∷ []

icon_32bpp :
    decode_icon 32 2 2 four_pixels []
    ≡ returned (
        some (
          90 ∷ 80 ∷ 70 ∷ 255 ∷ 120 ∷ 110 ∷ 100 ∷ 255 ∷ 30 ∷ 20 ∷ 10 ∷ 255 ∷ 60 ∷ 50 ∷ 40 ∷ 255
          ∷ []))
unfolding decode_icon pixel_loops for_range write_pixel any_alpha mask_bit
icon_32bpp = refl

-- A frame marker, a window with a title and a place left of the desktop, two trailing bytes that are
-- not parsed, a desktop order and a deletion.
abbrev window_at : WindowState
window_at = record {
  window_id = 0xDEADBEEF;
  is_new = true;
  show_state = some 1;
  title = some (0x48 ∷ 0x1F600 ∷ []);
  offset = some (negsuc 29, pos 40);
  size = some (300, 200);
  rects = some (
      record { left = 0; top = 0; right = 10; bottom = 20 }
      ∷ record { left = 10; top = 5; right = 30; bottom = 20 }
      ∷ []);
  skipped = record {
    owner = some 3;
    style = some (1, 2);
    client_area_offset = some (pos 1, pos 2);
    client_area_size = none;
    resize_margin_x = some (1, 1);
    resize_margin_y = none;
    rp_content = some 1;
    root_parent = some 9;
    wnd_client_delta = none;
    wnd_rects = some (record { left = 0; top = 0; right = 10; bottom = 20 } ∷ []);
    vis_offset = some (pos 0, negsuc 0);
  };
  tail = 0xFF ∷ 0xFF ∷ [];
}

-- An icon of one pixel.
abbrev icon_of : IconImage
icon_of = record {
  depth = bits32;
  cache_entry = 1;
  cache_id = 2;
  width = 1;
  height = 1;
  mask = 0 ∷ 0 ∷ 0 ∷ 0 ∷ [];
  color = 10 ∷ 20 ∷ 30 ∷ 255 ∷ [];
}

abbrev messages : List Message
messages =
    frame_marker (1 ∷ 0 ∷ 0 ∷ 0 ∷ [])
    ∷ state window_at
    ∷ new_icon 0xDEADBEEF icon_of
    ∷ notification 0xAA (9 ∷ [])
    ∷ desktop (some 0xAA) (some (0xAA ∷ 0xBB ∷ []))
    ∷ gone 8
    ∷ []

decode_icon32_example :
    decode_icon 32 2 2 four_pixels []
    ≡ returned (some (flipped 2 2 four_pixels (offset32 2) (alpha32 2 2 four_pixels [])))
decode_icon32_example = decode_icon32 2 2 four_pixels [] (omega arith) (omega arith) (omega arith)

decode_icon24_example :
    decode_icon 24 2 2 four_pixels (0 ∷ 0 ∷ 0 ∷ 0 ∷ 0x80 ∷ 0 ∷ 0 ∷ 0 ∷ [])
    ≡ returned (
        some (
          flipped 2 2 four_pixels
            (offset24 2)
            (masked 2 2 (0 ∷ 0 ∷ 0 ∷ 0 ∷ 0x80 ∷ 0 ∷ 0 ∷ 0 ∷ []))))
decode_icon24_example =
    decode_icon24 2 2 four_pixels (0 ∷ 0 ∷ 0 ∷ 0 ∷ 0x80 ∷ 0 ∷ 0 ∷ 0 ∷ []) (omega arith)
      (omega arith) (omega arith)

parse-IsSized_example : Returns (All IsSized) (parse (1 ∷ 0 ∷ 0x2C ∷ 9 ∷ []))
parse-IsSized_example = parse-IsSized (1 ∷ 0 ∷ 0x2C ∷ 9 ∷ [])
