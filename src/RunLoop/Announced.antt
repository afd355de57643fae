-- ===== src/RunLoop/Announced.antt =====
-- wasm/src/rail.rs: what the page's window manager is told of the server's windows.
use wasm_rdp.Prelude.{ℕ, ◌<◌, ◌^◌, Option, none, some, is_some, List, [], ◌∷◌, ◌++◌, ℤ, pos}
use wasm_rdp.Rail.Window.Fields.{WindowState, several}
use wasm_rdp.Rail.Window.Sender.{
  Message, state, new_icon, cached, notification, image_of, gone, desktop, frame_marker,
}
use wasm_rdp.RunLoop.Windows.{
  WindowArgs, WindowCall, notify_rail_window, notify_rail_window_deleted, notify_rail_icon,
  notify_rail_zorder, notify_rail_active, state_or_none, rects_or_none, unwrap_or,
}

-- A place or a size that is absent is shown as zeros, and marked.
abbrev pub zero_pos : ℤ × ℤ
zero_pos = (pos 0, pos 0)

unfoldable pub args_of : WindowState → WindowArgs
args_of s =
    let place = unwrap_or zero_pos (s.offset) in
    let size = unwrap_or (0, 0) (s.size) in
    record {
      id = s.window_id;
      is_new = s.is_new;
      has_pos = is_some (s.offset);
      x = place.0;
      y = place.1;
      has_size = is_some (s.size);
      w = pos (size.0);
      h = pos (size.1);
      show_state = state_or_none (s.show_state);
      title = s.title;
      vis_rects = rects_or_none (several (s.rects));
    }

abbrev pub call_if : {A : Type 0} → (A → WindowCall) → Option A → List WindowCall
call_if f none = []
call_if f (some a) = f a ∷ []

-- The calls that a message of the server is meant to come to.
unfoldable pub calls_of : Message → List WindowCall
unfolding args_of
calls_of (state s) = notify_rail_window (args_of s) ∷ []
calls_of (new_icon id i) = notify_rail_icon id i.width i.height (image_of i i.depth) ∷ []
calls_of (cached id more) = []
calls_of (notification id more) = []
calls_of (gone id) = notify_rail_window_deleted id ∷ []
calls_of (desktop active ids) = call_if notify_rail_active active ++ call_if notify_rail_zorder ids
calls_of (frame_marker action) = []

unfoldable pub all_calls : List Message → List WindowCall
all_calls [] = []
all_calls (m ∷ ms) = calls_of m ++ all_calls ms

abbrev pub SizeFits : Option (ℕ × ℕ) → Type 0
SizeFits none = Unit
SizeFits (some (w, h)) = (w < 2 ^ 31) × (h < 2 ^ 31)

-- The window's size is an `i32`.
abbrev pub Fits : Message → Type 0
Fits (state s) = SizeFits (s.size)
Fits (new_icon id i) = Unit
Fits (cached id more) = Unit
Fits (notification id more) = Unit
Fits (gone id) = Unit
Fits (desktop active ids) = Unit
Fits (frame_marker action) = Unit
