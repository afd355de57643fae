-- ===== src/Gfx/Frames.antt =====
-- wasm/src/session.rs: the invariant of the graphics handler, and each operation that paints.
use wasm_rdp.Prelude.{
  ℕ, ◌-◌, ◌*◌, ◌≡◌, refl, min, List, [], ◌∷◌, length, All, leb, ◌==◌, ◌||◌, Bool-cases, some,
  Option-cases, inl, inr, Returns, returns, Returns-and_then, Returns-if, arith,
}
use wasm_rdp.Gfx.{GfxSurface, CacheSlot, Rectangle, get, delete, put}
use wasm_rdp.Gfx.Handler.{
  Canvases, WasmGfxHandler, present, painted, on_solid_fill, paste, on_surface_to_surface,
  on_surface_to_cache, on_cache_to_surface, blit_rects,
}
use wasm_rdp.Gfx.Frame.{Sized, FirstSized, fill_rects-Sized, paste_points-Sized, cut-Sized}

-- Four bytes for each pixel.
abbrev pub IsFrame : GfxSurface → Type 0
IsFrame s = length (s.fb) ≡ s.width * s.height * 4

abbrev pub IsSlot : CacheSlot → Type 0
IsSlot e = length (e.pixels) ≡ e.slot_width * e.slot_height * 4

module _ {A : Type 0} (P : A → Type 0) where
  abbrev pub Every : List (ℕ × A) → Type 0
  Every m = All (λ p. P (p.1)) m

  pub Every-delete : (id : ℕ) (m : List (ℕ × A)) → Every m → Every (delete id m)
  unfolding delete
  Every-delete id [] h = tt
  Every-delete id ((k, a) ∷ m) h = elim (Bool-cases (k == id)) [
    | inl here ↦ rw here (Every-delete id m h.1)
    | inr there ↦ rw there (h.0, Every-delete id m h.1)
  ]

  pub Every-put : (id : ℕ) (a : A) (m : List (ℕ × A)) → P a → Every m → Every (put id a m)
  unfolding put
  Every-put id a m p h = (p, Every-delete id m h)

  pub Every-get : (id : ℕ) (m : List (ℕ × A)) (a : A) → Every m → get id m ≡ some a → P a
  unfolding get
  Every-get id [] a h e = absurd (ground arith)
  Every-get id ((k, b) ∷ m) a h e = elim (Bool-cases (k == id)) [
    | inl here ↦ let same : b ≡ a = ground arith in rw (← same) h.0
    | inr there ↦ Every-get id m a h.1 (rw there at e)
  ]

module _ (C : Canvases) where
  pub record IsWellFormed (h : WasmGfxHandler C) : Type 0 where
    pub frames : Every IsFrame (h.gfx)
    pub slots : Every IsSlot (h.cache)

  present-IsWellFormed :
      (s : GfxSurface) (dirty : List Rectangle) (h : WasmGfxHandler C)
      → IsWellFormed h
      → IsWellFormed (present C s dirty h)
  present-IsWellFormed s dirty h ok = elim (Bool-cases (s.mapped)) [
    | inr offscreen ↦ rw offscreen ok
    | inl onscreen ↦
        elim (Bool-cases (
          (blit_rects C (s.fb) (s.width) (s.height) (s.origin_x) (s.origin_y) dirty
            (h.surfaces)).0)) [
              | inl drawn ↦ rw (onscreen, drawn) (record { frames = ok.frames; slots = ok.slots })
              | inr missed ↦ rw (onscreen, missed) (record { frames = ok.frames; slots = ok.slots })
            ]
  ]

  pub painted-IsWellFormed :
      (id : ℕ) (s : GfxSurface) (out : List ℕ × List Rectangle) (h : WasmGfxHandler C)
      → FirstSized (s.width * s.height * 4) out
      → IsWellFormed h
      → IsWellFormed (painted C id s out h)
  painted-IsWellFormed id s (fb, dirty) h sized ok =
      present-IsWellFormed (record s { fb = fb }) dirty _
        (record {
          frames = Every-put IsFrame id (record s { fb = fb }) (h.gfx) sized (ok.frames);
          slots = ok.slots;
        })

  pub fill-IsWellFormed :
      (id r g b : ℕ) (rectangles : List Rectangle) (h : WasmGfxHandler C)
      → IsWellFormed h
      → Returns IsWellFormed (on_solid_fill C id r g b rectangles h)
  unfolding on_solid_fill
  fill-IsWellFormed id r g b rectangles h ok = elim (Option-cases (get id (h.gfx))) [
    | inl missing ↦ rw missing (returns ok)
    | inr (s, found) ↦ rw found (
        Returns-and_then
          (fill_rects-Sized (s.width) (s.height) (r ∷ g ∷ b ∷ 0xFF ∷ []) rectangles (s.fb) refl
            (Every-get IsFrame id (h.gfx) s (ok.frames) found))
          λ out sized. returns (painted-IsWellFormed id s out h sized ok))
  ]

  paste-IsWellFormed :
      (id cw ch : ℕ) (pixels : List ℕ) (points : List (ℕ × ℕ)) (h : WasmGfxHandler C)
      → Sized (cw * ch * 4) pixels
      → IsWellFormed h
      → Returns IsWellFormed (paste C id cw ch pixels points (get id (h.gfx)) h)
  paste-IsWellFormed id cw ch pixels points h source ok = elim (Option-cases (get id (h.gfx))) [
    | inl missing ↦ rw missing (returns ok)
    | inr (s, found) ↦ rw found (
        Returns-and_then
          (paste_points-Sized (s.width) (s.height) cw ch pixels points (s.fb) source
            (Every-get IsFrame id (h.gfx) s (ok.frames) found))
          λ out sized. returns (painted-IsWellFormed id s out h sized ok))
  ]

  pub copy-IsWellFormed :
      (source destination : ℕ) (src : Rectangle) (points : List (ℕ × ℕ)) (h : WasmGfxHandler C)
      → IsWellFormed h
      → Returns IsWellFormed (on_surface_to_surface C source destination src points h)
  unfolding on_surface_to_surface
  copy-IsWellFormed source destination src points h ok = elim (Option-cases (get source (h.gfx))) [
    | inl missing ↦ rw missing (returns ok)
    | inr (s, found) ↦
        let w = min (src.right - src.left) (s.width - src.left) in
        let v = min (src.bottom - src.top) (s.height - src.top) in
        rw found (
          Returns-if (w == 0 || v == 0) (λ _. returns ok)
            λ some_pixels.
              Returns-and_then
                (cut-Sized (s.width) (s.height) (src.left) (src.top) w v (s.fb) (ground arith)
                  (ground arith) (Every-get IsFrame source (h.gfx) s (ok.frames) found))
                λ tmp sized. paste-IsWellFormed destination w v tmp points h sized ok)
  ]

  pub save-IsWellFormed :
      (id slot : ℕ) (r : Rectangle) (h : WasmGfxHandler C)
      → IsWellFormed h
      → Returns IsWellFormed (on_surface_to_cache C id slot r h)
  unfolding on_surface_to_cache
  save-IsWellFormed id slot r h ok = elim (Option-cases (get id (h.gfx))) [
    | inl missing ↦ rw missing (returns ok)
    | inr (s, found) ↦
        let x0 = min (r.left) (s.width) in
        let y0 = min (r.top) (s.height) in
        let x1 = min (r.right) (s.width) in
        let y1 = min (r.bottom) (s.height) in
        rw found (
          Returns-if (leb x1 x0 || leb y1 y0) (λ _. returns ok)
            λ some_pixels.
              Returns-and_then
                (cut-Sized (s.width) (s.height) x0 y0 (x1 - x0) (y1 - y0) (s.fb) (omega arith)
                  (omega arith) (Every-get IsFrame id (h.gfx) s (ok.frames) found))
                λ pixels sized. returns (record {
                  frames = ok.frames;
                  slots =
                      Every-put IsSlot slot
                        (record { slot_width = x1 - x0; slot_height = y1 - y0; pixels = pixels })
                        (h.cache) sized (ok.slots);
                }))
  ]

  pub restore-IsWellFormed :
      (slot id : ℕ) (points : List (ℕ × ℕ)) (h : WasmGfxHandler C)
      → IsWellFormed h
      → Returns IsWellFormed (on_cache_to_surface C slot id points h)
  unfolding on_cache_to_surface
  restore-IsWellFormed slot id points h ok = elim (Option-cases (get slot (h.cache))) [
    | inl empty ↦ rw empty (returns ok)
    | inr (e, found) ↦ rw found (
        paste-IsWellFormed id (e.slot_width) (e.slot_height) (e.pixels) points h
          (Every-get IsSlot slot (h.cache) e (ok.slots) found) ok)
  ]
