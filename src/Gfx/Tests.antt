-- ===== src/Gfx/Tests.antt =====
-- wasm/src/session.rs: the graphics handler at concrete inputs.
use wasm_rdp.Prelude.{
  ℕ, ◌+◌, ◌≡◌, refl, true, false, List, [], ◌∷◌, ◌++◌, returned, and_then, for_range, Returns,
  arith,
}
use wasm_rdp.Gfx.{
  Rectangle, read_slice, write_slice, copy_rows, cut, fill_rect, fill_rects, paste_points,
}
use wasm_rdp.Gfx.Handler.{Canvases, WasmGfxHandler}
use wasm_rdp.Gfx.Frames.{IsWellFormed}
use wasm_rdp.Gfx.Commands.{
  Command, reset_graphics, surface_created, surface_mapped, solid_fill, surface_to_surface,
  surface_to_cache, cache_to_surface, bitmap_updated, avc420_decoded, repainted, handle_all,
  handle_all-IsWellFormed,
}
use wasm_rdp.Gfx.Fill.{Painted, any_covers, fill_rects-Painted}
use wasm_rdp.Gfx.Paste.{Restored, paste_points-cut}
use wasm_rdp.Gfx.Annexb.{prefixed, annexb, any_idr, avc_to_annexb, avc_to_annexb-annexb}

-- Canvases that count what is drawn.
abbrev counting : Canvases
counting = record {
  Canvas = ℕ;
  draw_rgba = λ fb sw sh ox oy region n. (true, n + 1);
  resize = λ w h n. n;
}

abbrev empty : WasmGfxHandler counting
empty = record { surfaces = 0 ∷ []; gfx = []; cache = []; egfx_active = false; notices = [] }

-- A fill that is clipped, a scroll within the surface, a save and restore past the surface's edge, a tile
-- past it, a frame of another size, and a repaint.
abbrev commands : List Command
commands =
    reset_graphics 2 2
    ∷ surface_created 1 2 2
    ∷ surface_mapped 1 0 0
    ∷ solid_fill 1 9 8 7 (record { left = 1; top = 0; right = 5; bottom = 1 } ∷ [])
    ∷ surface_to_surface 1 1 (record { left = 0; top = 0; right = 2; bottom = 1 }) ((0, 1) ∷ [])
    ∷ surface_to_cache 1 3 (record { left = 1; top = 1; right = 2; bottom = 2 })
    ∷ cache_to_surface 3 1 ((1, 1) ∷ (9, 0) ∷ [])
    ∷ bitmap_updated (record {
      surface_id = 1;
      destination_rectangle = record { left = 1; top = 1; right = 3; bottom = 3 };
      width = 2;
      height = 2;
      pixels = 1 ∷ 2 ∷ 3 ∷ 4 ∷ 5 ∷ 6 ∷ 7 ∷ 8 ∷ [];
    })
    ∷ avc420_decoded 1 (1 ∷ [])
    ∷ repainted
    ∷ []

handle_all-IsWellFormed_example :
    Returns (IsWellFormed counting) (handle_all counting commands empty)
handle_all-IsWellFormed_example =
    handle_all-IsWellFormed counting commands empty
      (tt, (omega arith, (tt, (tt, (tt, (tt, (tt, (omega arith, (tt, (tt, tt))))))))))
      (record { frames = tt; slots = tt })

-- The pixel at the right of the first row is filled, copied to the second row by the scroll.
scrolled :
    and_then
      (fill_rects 2 2
        (9 ∷ 8 ∷ 7 ∷ 255 ∷ [])
        (record { left = 1; top = 0; right = 5; bottom = 1 } ∷ [])
        (0 ∷ 0 ∷ 0 ∷ 0 ∷ 0 ∷ 0 ∷ 0 ∷ 0 ∷ 0 ∷ 0 ∷ 0 ∷ 0 ∷ 0 ∷ 0 ∷ 0 ∷ 0 ∷ []))
      (λ out. and_then (cut 2 0 0 2 1 (out.0)) λ tmp.
        and_then (paste_points 2 2 2 1 tmp ((0, 1) ∷ []) (out.0)) λ pasted. returned (pasted.0))
    ≡ returned (0 ∷ 0 ∷ 0 ∷ 0 ∷ 9 ∷ 8 ∷ 7 ∷ 255 ∷ 0 ∷ 0 ∷ 0 ∷ 0 ∷ 9 ∷ 8 ∷ 7 ∷ 255 ∷ [])
unfolding fill_rects fill_rect write_slice read_slice copy_rows cut paste_points for_range
scrolled = refl

abbrev access_unit : List (List ℕ)
access_unit = (0x67 ∷ 1 ∷ []) ∷ (0x65 ∷ 2 ∷ 3 ∷ []) ∷ []

avc_to_annexb-annexb_example :
    avc_to_annexb (prefixed access_unit) ≡ returned (annexb access_unit, any_idr access_unit)
unfolding prefixed
avc_to_annexb-annexb_example = avc_to_annexb-annexb access_unit (ground arith) (omega arith)

abbrev black : List ℕ
black = 0 ∷ 0 ∷ 0 ∷ 0 ∷ 0 ∷ 0 ∷ 0 ∷ 0 ∷ []

abbrev red : List ℕ
red = 255 ∷ 0 ∷ 0 ∷ 255 ∷ []

abbrev rectangles : List Rectangle
rectangles =
    record { left = 1; top = 0; right = 9; bottom = 9 }
    ∷ record { left = 3; top = 3; right = 4; bottom = 4 }
    ∷ []

fill_rects-Painted_example :
    Returns
      (λ out. Painted 2 1 red refl (any_covers 2 1 red refl rectangles) black (out.0))
      (fill_rects 2 1 red rectangles black)
fill_rects-Painted_example = fill_rects-Painted 2 1 red refl rectangles black refl

-- Two red pixels above two black ones; the right column is put at two points of a surface of three pixels.
abbrev half_red : List ℕ
half_red = (red ++ red) ++ black

paste_points-cut_example :
    Returns
      (λ out. Restored 2 1 0 1 2 3 1 ((0, 0) ∷ (2, 0) ∷ []) half_red (black ++ red) (out.0))
      (and_then
        (cut 2 1 0 1 2 half_red)
        λ pixels. paste_points 3 1 1 2 pixels ((0, 0) ∷ (2, 0) ∷ []) (black ++ red))
paste_points-cut_example =
    paste_points-cut 2 2 1 0 1 2 3 1 ((0, 0) ∷ (2, 0) ∷ []) half_red (black ++ red) (omega arith)
      (omega arith) refl refl
