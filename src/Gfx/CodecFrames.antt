-- ===== src/Gfx/CodecFrames.antt =====
-- wasm/src/session.rs: the invariant of the graphics handler under decoded images and the repaint.
use wasm_rdp.Prelude.{
  ℕ, ◌+◌, ◌-◌, ◌*◌, ◌≡◌, refl, ◌∙◌, min, Bool, true, false, ◌&&◌, List, [], ◌∷◌, length, leb,
  leb→le, ◌==◌, ==_iff, Option, none, some, Option-cases, Bool-cases, inl, inr, Returns, returns,
  Returns-and_then, Returns-if,
}
use wasm_rdp.Gfx.{GfxSurface, Rectangle, get}
use wasm_rdp.Gfx.Handler.{Canvases, WasmGfxHandler}
use wasm_rdp.Gfx.Frame.{Sized, for_range-Returns, read_slice-Sized, write_slice-Sized}
use wasm_rdp.Gfx.Frames.{IsFrame, Every-get, Every-put, IsWellFormed, painted-IsWellFormed}
use wasm_rdp.Gfx.Codecs.{
  copy_tile, tile_row, BitmapUpdate, Decoding, full_rect, decoded, on_bitmap_updated,
  on_progressive_data, on_avc420_decoded, blit_mapped, repaint,
}

both : (a b : Bool) → (a && b) ≡ true → (a ≡ true) × (b ≡ true)
both true true h = (refl, refl)
both true false h = absurd (cc)
both false b h = absurd (cc)

tile_row-Sized :
    (src_off dst_off n m : ℕ) (data_bytes fb : List ℕ)
    → Sized m fb
    → Returns (Sized m) (tile_row src_off dst_off n data_bytes fb)
tile_row-Sized src_off dst_off n m data_bytes fb sized =
    Returns-if (leb (src_off + n) (length data_bytes) && leb (dst_off + n) (length fb))
      (λ fits.
        let (reads, writes) = both _ _ fits in
        Returns-and_then (read_slice-Sized src_off n data_bytes (leb→le _ _ reads))
          λ part p. rw (← sized) (write_slice-Sized dst_off part fb (rw p (leb→le _ _ writes))))
      λ _. returns sized

copy_tile-Sized :
    (sw sh dx dy w h m : ℕ) (data_bytes fb : List ℕ)
    → Sized m fb
    → Returns (Sized m) (copy_tile sw sh dx dy w h data_bytes fb)
unfolding copy_tile
copy_tile-Sized sw sh dx dy w h m data_bytes fb sized =
    for_range-Returns (Sized m) h 0 _ fb
      (λ row out _ _ e.
        Returns-if (leb sh (dy + row)) (λ _. returns e)
          λ _.
            tile_row-Sized (row * w * 4) (((dy + row) * sw + dx) * 4) (min w (sw - dx) * 4) m
              data_bytes out e)
      sized

module _ (C : Canvases) where
  pub update-IsWellFormed :
      (u : BitmapUpdate) (h : WasmGfxHandler C)
      → IsWellFormed C h
      → Returns (IsWellFormed C) (on_bitmap_updated C u h)
  unfolding on_bitmap_updated
  update-IsWellFormed u h ok = elim (Option-cases (get (u.surface_id) (h.gfx))) [
    | inl missing ↦ rw missing (returns ok)
    | inr (s, found) ↦ rw found (
        Returns-and_then
          (copy_tile-Sized (s.width) (s.height) _ _ (u.width) (u.height) (s.width * s.height * 4)
            (u.pixels) (s.fb) (Every-get IsFrame (u.surface_id) (h.gfx) s (ok.frames) found))
          λ fb sized. returns (painted-IsWellFormed C (u.surface_id) s (fb, _) h sized ok))
  ]

  decoded-IsWellFormed :
      (id : ℕ) (s : GfxSurface) (out : Option (List Rectangle) × List ℕ) (h : WasmGfxHandler C)
      → Sized (s.width * s.height * 4) (out.1)
      → IsWellFormed C h
      → IsWellFormed C (decoded C id s out h)
  decoded-IsWellFormed id s (none, fb) h sized ok = record {
    frames = Every-put IsFrame id (record s { fb = fb }) (h.gfx) sized (ok.frames);
    slots = ok.slots;
  }
  decoded-IsWellFormed id s (some dirty, fb) h sized ok =
      painted-IsWellFormed C id s (fb, dirty) h sized ok

  pub progressive-IsWellFormed :
      (id : ℕ) (d : Decoding) (h : WasmGfxHandler C)
      → IsWellFormed C h
      → IsWellFormed C (on_progressive_data C id d h)
  unfolding on_progressive_data
  progressive-IsWellFormed id d h ok = elim (Option-cases (get id (h.gfx))) [
    | inl missing ↦ rw missing ok
    | inr (s, found) ↦ rw found (
        decoded-IsWellFormed id s (d.decode (s.fb)) h
          (d.keeps_length (s.fb) ∙ Every-get IsFrame id (h.gfx) s (ok.frames) found) ok)
  ]

  pub avc420-IsWellFormed :
      (id : ℕ) (rgba : List ℕ) (h : WasmGfxHandler C)
      → IsWellFormed C h
      → IsWellFormed C (on_avc420_decoded C id rgba h)
  unfolding on_avc420_decoded
  avc420-IsWellFormed id rgba h ok = elim (Option-cases (get id (h.gfx))) [
    | inl missing ↦ rw missing ok
    | inr (s, found) ↦ elim (Bool-cases (length rgba == length (s.fb))) [
      | inr other ↦ rw (found, other) ok
      | inl same ↦
          rw (found, same)
            (painted-IsWellFormed C id s (rgba, full_rect s ∷ []) h
              ((==_iff (length rgba) (length (s.fb))).0 same
                ∙ Every-get IsFrame id (h.gfx) s (ok.frames) found)
              ok)
    ]
  ]

  pub repaint-IsWellFormed :
      (h : WasmGfxHandler C) → IsWellFormed C h → IsWellFormed C (repaint C h)
  unfolding repaint
  repaint-IsWellFormed h ok = elim (Bool-cases ((blit_mapped C (h.gfx) (h.surfaces)).0)) [
    | inl drawn ↦ rw drawn (record { frames = ok.frames; slots = ok.slots })
    | inr missed ↦ rw missed (record { frames = ok.frames; slots = ok.slots })
  ]
