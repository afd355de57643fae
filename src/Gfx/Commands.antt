-- ===== src/Gfx/Commands.antt =====
-- wasm/src/session.rs: the handler over a whole session of commands.
use wasm_rdp.Prelude.{
  ℕ, ◌*◌, ◌%◌, ◌^◌, ◌<◌, ◌≡◌, ◌∙◌, All, arith, List, [], ◌∷◌, length, length-replicate, ◌==◌,
  Bool-cases, Option-cases, inl, inr, Outcome, returned, and_then, Returns, returns,
  Returns-and_then,
}
use wasm_rdp.Gfx.{GfxSurface, Rectangle, get, delete}
use wasm_rdp.Gfx.Handler.{
  Canvases, WasmGfxHandler, close_all, on_reset_graphics, on_surface_created, on_surface_deleted,
  on_surface_mapped, on_solid_fill, on_surface_to_surface, on_surface_to_cache, on_cache_to_surface,
  on_evict_cache_entry,
}
use wasm_rdp.Gfx.Codecs.{
  BitmapUpdate, Decoding, on_bitmap_updated, on_progressive_data, on_avc420_decoded, repaint,
}
use wasm_rdp.Gfx.CodecFrames.{
  update-IsWellFormed, progressive-IsWellFormed, avc420-IsWellFormed, repaint-IsWellFormed,
}
use wasm_rdp.Gfx.Frames.{
  IsFrame, IsSlot, Every, Every-delete, Every-put, Every-get, IsWellFormed, fill-IsWellFormed,
  copy-IsWellFormed, save-IsWellFormed, restore-IsWellFormed,
}

-- What the handler's surfaces are changed by: the server's commands, and the page's `on_avc420_decoded` and
-- `repaint`.
pub data Command : Type 0 where
  reset_graphics : ℕ → ℕ → Command
  surface_created : ℕ → ℕ → ℕ → Command
  surface_deleted : ℕ → Command
  surface_mapped : ℕ → ℕ → ℕ → Command
  solid_fill : ℕ → ℕ → ℕ → ℕ → List Rectangle → Command
  surface_to_surface : ℕ → ℕ → Rectangle → List (ℕ × ℕ) → Command
  surface_to_cache : ℕ → ℕ → Rectangle → Command
  cache_to_surface : ℕ → ℕ → List (ℕ × ℕ) → Command
  evict_cache_entry : ℕ → Command
  bitmap_updated : BitmapUpdate → Command
  progressive_data : ℕ → Decoding → Command
  avc420_decoded : ℕ → List ℕ → Command
  repainted : Command

-- The bytes that the sizes of a new surface or of a tile stand for are fewer than 2^31, more than which no
-- vector of wasm32 holds.
abbrev pub Fits : Command → Type 0
Fits (surface_created id w v) = w * v * 4 < 2 ^ 31
Fits (bitmap_updated u) = u.width * u.height * 4 < 2 ^ 31
Fits _ = Unit

module _ (C : Canvases) where
  unfoldable pub handle : Command → WasmGfxHandler C → Outcome (WasmGfxHandler C)
  handle (reset_graphics width height) h = returned (on_reset_graphics C width height h)
  handle (surface_created id w v) h = returned (on_surface_created C id w v h)
  handle (surface_deleted id) h = returned (on_surface_deleted C id h)
  handle (surface_mapped id x y) h = returned (on_surface_mapped C id x y h)
  handle (solid_fill id r g b rectangles) h = on_solid_fill C id r g b rectangles h
  handle (surface_to_surface source destination src points) h =
      on_surface_to_surface C source destination src points h
  handle (surface_to_cache id slot r) h = on_surface_to_cache C id slot r h
  handle (cache_to_surface slot id points) h = on_cache_to_surface C slot id points h
  handle (evict_cache_entry slot) h = returned (on_evict_cache_entry C slot h)
  handle (bitmap_updated u) h = on_bitmap_updated C u h
  handle (progressive_data id d) h = returned (on_progressive_data C id d h)
  handle (avc420_decoded id rgba) h = returned (on_avc420_decoded C id rgba h)
  handle repainted h = returned (repaint C h)

  unfoldable pub handle_all : List Command → WasmGfxHandler C → Outcome (WasmGfxHandler C)
  unfolding handle
  handle_all [] h = returned h
  handle_all (c ∷ cs) h = and_then (handle c h) (handle_all cs)

  close_all-slots :
      (ss : List (ℕ × GfxSurface)) (h : WasmGfxHandler C)
      → Every IsSlot (h.cache)
      → Every IsSlot ((close_all C ss h).cache)
  unfolding close_all
  close_all-slots [] h ok = ok
  close_all-slots ((id, s) ∷ ss) h ok = close_all-slots ss _ ok

  delete-IsWellFormed :
      (id : ℕ) (h : WasmGfxHandler C)
      → IsWellFormed C h
      → IsWellFormed C (on_surface_deleted C id h)
  unfolding on_surface_deleted
  delete-IsWellFormed id h ok =
      let frames' = Every-delete IsFrame id (h.gfx) (ok.frames) in
      elim (Bool-cases (length (delete id (h.gfx)) == 0)) [
        | inl last ↦ rw last (record { frames = frames'; slots = ok.slots })
        | inr more ↦ rw more (record { frames = frames'; slots = ok.slots })
      ]

  map-IsWellFormed :
      (id x y : ℕ) (h : WasmGfxHandler C)
      → IsWellFormed C h
      → IsWellFormed C (on_surface_mapped C id x y h)
  unfolding on_surface_mapped
  map-IsWellFormed id x y h ok = elim (Option-cases (get id (h.gfx))) [
    | inl missing ↦ rw missing ok
    | inr (s, found) ↦ rw found (record {
      frames =
          Every-put IsFrame id _ (h.gfx) (Every-get IsFrame id (h.gfx) s (ok.frames) found)
            (ok.frames);
      slots = ok.slots;
    })
  ]

  unwrapped : (n : ℕ) → n < 2 ^ 31 → n % 2 ^ 32 ≡ n
  unwrapped n h = omega arith

  handle-IsWellFormed :
      (c : Command) (h : WasmGfxHandler C)
      → Fits c
      → IsWellFormed C h
      → Returns (IsWellFormed C) (handle c h)
  unfolding handle on_reset_graphics on_surface_created on_evict_cache_entry
  handle-IsWellFormed (reset_graphics width height) h fits ok =
      returns (record { frames = tt; slots = close_all-slots (h.gfx) _ (ok.slots) })
  handle-IsWellFormed (surface_created id w v) h fits ok = returns (record {
    frames =
        Every-put IsFrame id _ (h.gfx)
          (length-replicate (w * v * 4 % 2 ^ 32) 0 ∙ unwrapped (w * v * 4) fits) (ok.frames);
    slots = ok.slots;
  })
  handle-IsWellFormed (surface_deleted id) h fits ok = returns (delete-IsWellFormed id h ok)
  handle-IsWellFormed (surface_mapped id x y) h fits ok = returns (map-IsWellFormed id x y h ok)
  handle-IsWellFormed (solid_fill id r g b rectangles) h fits ok =
      fill-IsWellFormed C id r g b rectangles h ok
  handle-IsWellFormed (surface_to_surface source destination src points) h fits ok =
      copy-IsWellFormed C source destination src points h ok
  handle-IsWellFormed (surface_to_cache id slot r) h fits ok = save-IsWellFormed C id slot r h ok
  handle-IsWellFormed (cache_to_surface slot id points) h fits ok =
      restore-IsWellFormed C slot id points h ok
  handle-IsWellFormed (evict_cache_entry slot) h fits ok =
      returns (record { frames = ok.frames; slots = Every-delete IsSlot slot (h.cache) (ok.slots) })
  handle-IsWellFormed (bitmap_updated u) h fits ok = update-IsWellFormed C u h ok
  handle-IsWellFormed (progressive_data id d) h fits ok =
      returns (progressive-IsWellFormed C id d h ok)
  handle-IsWellFormed (avc420_decoded id rgba) h fits ok =
      returns (avc420-IsWellFormed C id rgba h ok)
  handle-IsWellFormed repainted h fits ok = returns (repaint-IsWellFormed C h ok)

  -- Whatever commands the server sends and whatever frames the page decodes, in any order, with any
  -- numbers of surfaces and slots, any rectangles and points, and frames of any sizes, as long as the bytes
  -- of each surface and of each tile, four for a pixel by its stated size, are fewer than 2^31: no access to
  -- a framebuffer or a slot is out of range, and every surface and every slot has four bytes for each of
  -- its pixels after them, if that held before.
  pub handle_all-IsWellFormed :
      (cs : List Command) (h : WasmGfxHandler C)
      → All Fits cs
      → IsWellFormed C h
      → Returns (IsWellFormed C) (handle_all cs h)
  unfolding handle_all
  handle_all-IsWellFormed [] h fit ok = returns ok
  handle_all-IsWellFormed (c ∷ cs) h (fits, fit) ok =
      Returns-and_then (handle-IsWellFormed c h fits ok)
        λ h' ok'. handle_all-IsWellFormed cs h' fit ok'
