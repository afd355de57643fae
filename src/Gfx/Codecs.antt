-- ===== src/Gfx/Codecs.antt =====
-- wasm/src/session.rs: the decoded images that reach the handler's surfaces, and the repaint. The decoders are
-- other packages'.
use wasm_rdp.Prelude.{
  ℕ, ◌+◌, ◌-◌, ◌*◌, ◌≡◌, min, Bool, false, not, ◌||◌, ◌&&◌, List, [], ◌∷◌, length, leb, ◌==◌,
  Option, none, some, if◌then◌else◌, Outcome, returned, and_then, for_range,
}
use wasm_rdp.Gfx.{GfxSurface, Rectangle, get, put, read_slice, write_slice}
use wasm_rdp.Gfx.Handler.{Canvases, WasmGfxHandler, frame, blit_rects, notify, painted}

-- A tile's row, if it is in the tile and in the framebuffer.
abbrev pub tile_row : ℕ → ℕ → ℕ → List ℕ → List ℕ → Outcome (List ℕ)
tile_row src_off dst_off n tile fb =
    if leb (src_off + n) (length tile) && leb (dst_off + n) (length fb)
    then (and_then (read_slice src_off n tile) λ part. write_slice dst_off part fb)
    else returned fb

-- A tile of `w` by `h` pixels at a place of the surface; the rows from the surface's end on are left out.
unfoldable pub copy_tile : ℕ → ℕ → ℕ → ℕ → ℕ → ℕ → List ℕ → List ℕ → Outcome (List ℕ)
copy_tile sw sh dx dy w h tile = for_range h 0 λ row fb.
    if leb sh (dy + row)
    then returned fb
    else tile_row (row * w * 4) (((dy + row) * sw + dx) * 4) (min w (sw - dx) * 4) tile fb

-- `BitmapUpdate`, without the codec.
pub record BitmapUpdate : Type 0 where
  pub surface_id : ℕ
  pub destination_rectangle : Rectangle
  pub width : ℕ
  pub height : ℕ
  pub pixels : List ℕ

-- What a surface's decoder makes of data: an error or the parts that it painted, and the framebuffer,
-- which is a slice.
pub record Decoding : Type 0 where
  pub decode : List ℕ → Option (List Rectangle) × List ℕ
  pub keeps_length : (fb : List ℕ) → length ((decode fb).1) ≡ length fb

abbrev pub full_rect : GfxSurface → Rectangle
full_rect s = record { left = 0; top = 0; right = s.width - 1; bottom = s.height - 1 }

module _ (C : Canvases) where
  open C use {Canvas}

  abbrev pub update_surface :
      BitmapUpdate → Option GfxSurface → WasmGfxHandler C → Outcome (WasmGfxHandler C)
  update_surface u none h = returned h
  update_surface u (some s) h =
      let dx = u.destination_rectangle.left in
      let dy = u.destination_rectangle.top in
      let dirty : Rectangle = record {
        left = dx;
        top = dy;
        right = min (dx + u.width) (s.width) - 1;
        bottom = min (dy + u.height) (s.height) - 1;
      } in
      and_then (copy_tile (s.width) (s.height) dx dy (u.width) (u.height) (u.pixels) (s.fb))
        λ fb. returned (painted C (u.surface_id) s (fb, dirty ∷ []) h)

  unfoldable pub on_bitmap_updated : BitmapUpdate → WasmGfxHandler C → Outcome (WasmGfxHandler C)
  on_bitmap_updated u h = update_surface u (get (u.surface_id) (h.gfx)) h

  -- An error is logged; what the decoder wrote before it stays.
  abbrev pub decoded :
      ℕ → GfxSurface → Option (List Rectangle) × List ℕ → WasmGfxHandler C → WasmGfxHandler C
  decoded surface_id s (none, fb) h = record h {
    gfx = put surface_id (record s { fb = fb }) (h.gfx);
  }
  decoded surface_id s (some dirty, fb) h = painted C surface_id s (fb, dirty) h

  abbrev pub decode_surface : ℕ → Decoding → Option GfxSurface → WasmGfxHandler C → WasmGfxHandler C
  decode_surface surface_id d none h = h
  decode_surface surface_id d (some s) h = decoded surface_id s (d.decode (s.fb)) h

  unfoldable pub on_progressive_data : ℕ → Decoding → WasmGfxHandler C → WasmGfxHandler C
  on_progressive_data surface_id d h = decode_surface surface_id d (get surface_id (h.gfx)) h

  abbrev pub replace_surface : ℕ → List ℕ → Option GfxSurface → WasmGfxHandler C → WasmGfxHandler C
  replace_surface surface_id rgba none h = h
  replace_surface surface_id rgba (some s) h =
      if not (length rgba == length (s.fb))
      then h
      else painted C surface_id s (rgba, full_rect s ∷ []) h

  unfoldable pub on_avc420_decoded : ℕ → List ℕ → WasmGfxHandler C → WasmGfxHandler C
  on_avc420_decoded surface_id rgba h = replace_surface surface_id rgba (get surface_id (h.gfx)) h

  -- The mapped surfaces on the canvases: whether anything was painted.
  unfoldable pub blit_mapped : List (ℕ × GfxSurface) → List Canvas → Bool × List Canvas
  blit_mapped [] canvases = (false, canvases)
  blit_mapped ((id, s) ∷ gfx) canvases =
      let drawn =
        blit_rects C (s.fb) (s.width) (s.height) (s.origin_x) (s.origin_y) (full_rect s ∷ [])
          canvases in
      let after = blit_mapped gfx (drawn.1) in
      let skipped = blit_mapped gfx canvases in
      if s.mapped then (drawn.0 || after.0, after.1) else skipped

  unfoldable pub repaint : WasmGfxHandler C → WasmGfxHandler C
  unfolding blit_mapped
  repaint h =
      let drawn = blit_mapped (h.gfx) (h.surfaces) in
      let shown = record h { surfaces = drawn.1 } in if drawn.0 then notify C frame shown else shown
