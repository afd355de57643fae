-- ===== src/RunLoop/Windows.antt =====
-- wasm/src/rail.rs: `dispatch_window_events`, whose calls of the page's functions are values.
use wasm_rdp.Prelude.{
  ℕ, Bool, Option, none, some, List, [], ◌∷◌, map, ℤ, pos, negsuc, Outcome, returned, and_then,
  is_some,
}
use wasm_rdp.Monitors.{of_bits32}
use wasm_rdp.Rail.Window.Order.{
  Rect, WindowInfo, WindowEvent, new_or_update, deleted, zorder, active_window, icon,
}
use wasm_rdp.Rail.Window.Parse.{parse}

-- The arguments of `__rdp_rail_window`.
pub record WindowArgs : Type 0 where
  pub id : ℕ
  pub is_new : Bool
  pub has_pos : Bool
  pub x : ℤ
  pub y : ℤ
  pub has_size : Bool
  pub w : ℤ
  pub h : ℤ
  pub show_state : ℤ
  pub title : Option (List ℕ)
  pub vis_rects : List ℤ

pub data WindowCall : Type 0 where
  notify_rail_window : WindowArgs → WindowCall
  notify_rail_window_deleted : ℕ → WindowCall
  notify_rail_icon : ℕ → ℕ → ℕ → List ℕ → WindowCall
  notify_rail_zorder : List ℕ → WindowCall
  notify_rail_active : ℕ → WindowCall

abbrev pub unwrap_or : {A : Type 0} → A → Option A → A
unwrap_or a none = a
unwrap_or a (some b) = b

-- `map(i32::from).unwrap_or(-1)`
abbrev pub state_or_none : Option ℕ → ℤ
state_or_none none = negsuc 0
state_or_none (some state) = pos state

unfoldable pub flat_rects : List Rect → List ℤ
flat_rects [] = []
flat_rects (r ∷ rects) =
    pos (r.left) ∷ pos (r.top) ∷ pos (r.right) ∷ pos (r.bottom) ∷ flat_rects rects

abbrev pub rects_or_none : Option (List Rect) → List ℤ
rects_or_none none = []
rects_or_none (some rects) = flat_rects rects

unfoldable pub window_args : WindowInfo → WindowArgs
unfolding flat_rects
window_args info = record {
  id = info.window_id;
  is_new = info.is_new;
  has_pos = is_some (info.x);
  x = unwrap_or (pos 0) (info.x);
  y = unwrap_or (pos 0) (info.y);
  has_size = is_some (info.width);
  w = of_bits32 (unwrap_or 0 (info.width));
  h = of_bits32 (unwrap_or 0 (info.height));
  show_state = state_or_none (info.show_state);
  title = info.title;
  vis_rects = rects_or_none (info.visibility_rects);
}

unfoldable pub window_call : WindowEvent → WindowCall
unfolding window_args
window_call (new_or_update info) = notify_rail_window (window_args info)
window_call (deleted id) = notify_rail_window_deleted id
window_call (icon window_id width height rgba) = notify_rail_icon window_id width height rgba
window_call (zorder ids) = notify_rail_zorder ids
window_call (active_window id) = notify_rail_active id

unfoldable pub dispatch_window_events : List ℕ → Outcome (List WindowCall)
unfolding window_call
dispatch_window_events payload =
    and_then (parse payload) λ events. returned (map window_call events)
