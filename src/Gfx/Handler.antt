-- ===== src/Gfx/Handler.antt =====
-- wasm/src/session.rs: the handler's state and its operations.
use wasm_rdp.Prelude.{
  ℕ, ◌+◌, ◌-◌, ◌*◌, ◌%◌, ◌^◌, min, Bool, true, false, List, [], ◌∷◌, length, leb, ltb, ◌==◌, ◌||◌,
  Option, none, some, replicate, if◌then◌else◌, Outcome, returned, and_then,
}
use wasm_rdp.Gfx.{GfxSurface, CacheSlot, Rectangle, get, delete, put, fill_rects, paste_points, cut}

-- The monitors' canvases: `draw_rgba` of a canvas succeeds or not; `resize` of the only canvas.
pub record Canvases : Type 1 where
  pub Canvas : Type 0
  pub draw_rgba : List ℕ → ℕ → ℕ → ℕ → ℕ → Rectangle → Canvas → Bool × Canvas
  pub resize : ℕ → ℕ → Canvas → Canvas

-- The page's calls.
pub data Notice : Type 0 where
  desktop_resized : ℕ → ℕ → Notice
  surface_closed : ℕ → Notice
  frame : Notice

module _ (C : Canvases) where
  open C use {Canvas, draw_rgba, resize}

  -- The latest notice first.
  pub record WasmGfxHandler : Type 0 where
    pub surfaces : List Canvas
    pub gfx : List (ℕ × GfxSurface)
    pub cache : List (ℕ × CacheSlot)
    pub egfx_active : Bool
    pub notices : List Notice

  abbrev pub saturating_add : ℕ → ℕ → ℕ
  saturating_add a b = min (a + b) 65535

  -- One region on every canvas.
  unfoldable pub draw_all : List ℕ → ℕ → ℕ → ℕ → ℕ → Rectangle → List Canvas → Bool × List Canvas
  draw_all fb sw sh ox oy region [] = (false, [])
  draw_all fb sw sh ox oy region (canvas ∷ canvases) =
      let first = draw_rgba fb sw sh ox oy region canvas in
      let rest = draw_all fb sw sh ox oy region canvases in (first.0 || rest.0, first.1 ∷ rest.1)

  unfoldable pub blit_rects :
      List ℕ → ℕ → ℕ → ℕ → ℕ → List Rectangle → List Canvas → Bool × List Canvas
  blit_rects fb sw sh ox oy [] canvases = (false, canvases)
  blit_rects fb sw sh ox oy (r ∷ rs) canvases =
      let region : Rectangle = record {
        left = saturating_add (r.left) ox;
        top = saturating_add (r.top) oy;
        right = saturating_add (r.right) ox;
        bottom = saturating_add (r.bottom) oy;
      } in
      let drawn = draw_all fb sw sh ox oy region canvases in
      let rest = blit_rects fb sw sh ox oy rs (drawn.1) in (drawn.0 || rest.0, rest.1)

  abbrev pub notify : Notice → WasmGfxHandler → WasmGfxHandler
  notify n h = record h { notices = n ∷ h.notices }

  -- `if s.mapped && blit_rects(…) { notify_frame(); }`
  abbrev pub present : GfxSurface → List Rectangle → WasmGfxHandler → WasmGfxHandler
  present s dirty h =
      let drawn =
        blit_rects (s.fb) (s.width) (s.height) (s.origin_x) (s.origin_y) dirty (h.surfaces) in
      let shown = record h { surfaces = drawn.1 } in
      if s.mapped then (if drawn.0 then notify frame shown else shown) else h

  abbrev pub resize_only : ℕ → ℕ → List Canvas → List Canvas
  resize_only w h (canvas ∷ []) = resize w h canvas ∷ []
  resize_only w h canvases = canvases

  -- A notice for each surface that is cleared.
  unfoldable pub close_all : List (ℕ × GfxSurface) → WasmGfxHandler → WasmGfxHandler
  close_all [] h = h
  close_all ((id, _) ∷ rest) h = close_all rest (notify (surface_closed id) h)

  unfoldable pub on_reset_graphics : ℕ → ℕ → WasmGfxHandler → WasmGfxHandler
  unfolding close_all
  on_reset_graphics width height h =
      let w = min width 65535 in
      let v = min height 65535 in
      let resized =
        notify (desktop_resized w v) (record h { surfaces = resize_only w v (h.surfaces) }) in
      record (close_all (h.gfx) resized) { gfx = []; egfx_active = false }

  -- The framebuffer's length is a `usize` of 32 bits.
  unfoldable pub on_surface_created : ℕ → ℕ → ℕ → WasmGfxHandler → WasmGfxHandler
  on_surface_created id w v h =
      let fresh : GfxSurface = record {
        fb = replicate (w * v * 4 % 2 ^ 32) 0;
        width = w;
        height = v;
        origin_x = 0;
        origin_y = 0;
        mapped = false;
      } in
      record h { gfx = put id fresh (h.gfx); egfx_active = true }

  unfoldable pub on_surface_deleted : ℕ → WasmGfxHandler → WasmGfxHandler
  on_surface_deleted surface_id h =
      let remaining = delete surface_id (h.gfx) in
      let closed = notify (surface_closed surface_id) (record h { gfx = remaining }) in
      if length remaining == 0 then record closed { egfx_active = false } else closed

  abbrev pub map_surface : ℕ → ℕ → ℕ → Option GfxSurface → WasmGfxHandler → WasmGfxHandler
  map_surface surface_id x y none h = h
  map_surface surface_id x y (some s) h =
      let s' : GfxSurface = record s {
        origin_x = x % 2 ^ 16;
        origin_y = y % 2 ^ 16;
        mapped = true;
      } in
      let full : Rectangle = record {
        left = 0;
        top = 0;
        right = s.width - 1;
        bottom = s.height - 1;
      } in
      let drawn =
        blit_rects (s.fb) (s.width) (s.height) (s'.origin_x) (s'.origin_y) (full ∷ [])
          (h.surfaces) in
      notify frame (record h { gfx = put surface_id s' (h.gfx); surfaces = drawn.1 })

  unfoldable pub on_surface_mapped : ℕ → ℕ → ℕ → WasmGfxHandler → WasmGfxHandler
  on_surface_mapped surface_id origin_x origin_y h =
      map_surface surface_id origin_x origin_y (get surface_id (h.gfx)) h

  -- The painted surface replaces the one it was, and its painted parts are shown.
  abbrev pub painted : ℕ → GfxSurface → List ℕ × List Rectangle → WasmGfxHandler → WasmGfxHandler
  painted surface_id s (fb, dirty) h =
      let s' = record s { fb = fb } in
      present s' dirty (record h { gfx = put surface_id s' (h.gfx) })

  abbrev pub fill_surface :
      ℕ → List ℕ → List Rectangle → Option GfxSurface → WasmGfxHandler → Outcome WasmGfxHandler
  fill_surface surface_id rgba rectangles none h = returned h
  fill_surface surface_id rgba rectangles (some s) h =
      and_then (fill_rects (s.width) (s.height) rgba rectangles (s.fb))
        λ out. returned (painted surface_id s out h)

  unfoldable pub on_solid_fill :
      ℕ → ℕ → ℕ → ℕ → List Rectangle → WasmGfxHandler → Outcome WasmGfxHandler
  on_solid_fill surface_id r g b rectangles h =
      fill_surface surface_id (r ∷ g ∷ b ∷ 0xFF ∷ []) rectangles (get surface_id (h.gfx)) h

  -- A copy of `cw` by `ch` pixels to the points of a surface.
  abbrev pub paste :
      ℕ
      → ℕ
      → ℕ
      → List ℕ
      → List (ℕ × ℕ)
      → Option GfxSurface
      → WasmGfxHandler
      → Outcome WasmGfxHandler
  paste surface_id cw ch pixels points none h = returned h
  paste surface_id cw ch pixels points (some s) h =
      and_then (paste_points (s.width) (s.height) cw ch pixels points (s.fb))
        λ out. returned (painted surface_id s out h)

  abbrev pub copy_surface :
      ℕ → Rectangle → List (ℕ × ℕ) → Option GfxSurface → WasmGfxHandler → Outcome WasmGfxHandler
  copy_surface destination src points none h = returned h
  copy_surface destination src points (some s) h =
      let copy_w = min (src.right - src.left) (s.width - src.left) in
      let copy_h = min (src.bottom - src.top) (s.height - src.top) in
      let copied =
        and_then (cut (s.width) (src.left) (src.top) copy_w copy_h (s.fb))
          λ tmp. paste destination copy_w copy_h tmp points (get destination (h.gfx)) h in
      if copy_w == 0 || copy_h == 0 then returned h else copied

  unfoldable pub on_surface_to_surface :
      ℕ → ℕ → Rectangle → List (ℕ × ℕ) → WasmGfxHandler → Outcome WasmGfxHandler
  on_surface_to_surface source destination src points h =
      copy_surface destination src points (get source (h.gfx)) h

  abbrev pub save : ℕ → Rectangle → Option GfxSurface → WasmGfxHandler → Outcome WasmGfxHandler
  save cache_slot r none h = returned h
  save cache_slot r (some s) h =
      let x0 = min (r.left) (s.width) in
      let y0 = min (r.top) (s.height) in
      let x1 = min (r.right) (s.width) in
      let y1 = min (r.bottom) (s.height) in
      let saved = and_then (cut (s.width) x0 y0 (x1 - x0) (y1 - y0) (s.fb)) λ pixels.
        returned (record h {
          cache =
              put cache_slot
                (record { slot_width = x1 - x0; slot_height = y1 - y0; pixels = pixels }) (h.cache);
        }) in
      if leb x1 x0 || leb y1 y0 then returned h else saved

  unfoldable pub on_surface_to_cache : ℕ → ℕ → Rectangle → WasmGfxHandler → Outcome WasmGfxHandler
  on_surface_to_cache surface_id cache_slot r h = save cache_slot r (get surface_id (h.gfx)) h

  abbrev pub restore : ℕ → List (ℕ × ℕ) → Option CacheSlot → WasmGfxHandler → Outcome WasmGfxHandler
  restore surface_id points none h = returned h
  restore surface_id points (some entry) h =
      paste surface_id (entry.slot_width) (entry.slot_height) (entry.pixels) points
        (get surface_id (h.gfx)) h

  unfoldable pub on_cache_to_surface :
      ℕ → ℕ → List (ℕ × ℕ) → WasmGfxHandler → Outcome WasmGfxHandler
  on_cache_to_surface cache_slot surface_id points h =
      restore surface_id points (get cache_slot (h.cache)) h

  unfoldable pub on_evict_cache_entry : ℕ → WasmGfxHandler → WasmGfxHandler
  on_evict_cache_entry cache_slot h = record h { cache = delete cache_slot (h.cache) }

  abbrev pub read_surface : ℕ → ℕ → ℕ → ℕ → Option GfxSurface → Outcome (Option (List ℕ))
  read_surface x y w h none = returned none
  read_surface x y w h (some s) =
      let found = and_then (cut (s.width) x y w h (s.fb)) λ out. returned (some out) in
      if ltb (s.width) (x + w) || ltb (s.height) (y + h) then returned none else found

  unfoldable pub read_surface_rect : ℕ → ℕ → ℕ → ℕ → ℕ → WasmGfxHandler → Outcome (Option (List ℕ))
  read_surface_rect surface_id x y w v h = read_surface x y w v (get surface_id (h.gfx))
