-- ===== src/Rail/Window/Order.antt =====
-- crates/ironrdp-rail/src/window.rs: the data of the orders, `parse_window_state`,
-- `parse_desktop_order`.
use mathlib.Core.Option
use wasm_rdp.Prelude.{
  ℕ, zero, suc, ◌*◌, Bool, not, Option, none, some, List, [], ◌∷◌, length, ltb, ◌==◌, if◌then◌else◌,
  bit_and, ℤ,
}
use wasm_rdp.Rail.Window.Reader.{
  Reader, Get, ◌>>=◌, ◌>>◌, pure, u8, u16, u32, i32, skip, unicode_string,
}

-- FieldsPresentFlags
abbrev pub type_window : ℕ
type_window = 0x01000000

abbrev pub type_notify : ℕ
type_notify = 0x02000000

abbrev pub type_desktop : ℕ
type_desktop = 0x04000000

abbrev pub state_new : ℕ
state_new = 0x10000000

abbrev pub state_deleted : ℕ
state_deleted = 0x20000000

abbrev pub icon_flag : ℕ
icon_flag = 0x40000000

abbrev pub cached_icon : ℕ
cached_icon = 0x80000000

abbrev pub field_owner : ℕ
field_owner = 0x00000002

abbrev pub field_style : ℕ
field_style = 0x00000008

abbrev pub field_show : ℕ
field_show = 0x00000010

abbrev pub field_title : ℕ
field_title = 0x00000004

abbrev pub field_client_area_offset : ℕ
field_client_area_offset = 0x00004000

abbrev pub field_client_area_size : ℕ
field_client_area_size = 0x00010000

abbrev pub field_resize_margin_x : ℕ
field_resize_margin_x = 0x00000080

abbrev pub field_resize_margin_y : ℕ
field_resize_margin_y = 0x08000000

abbrev pub field_rp_content : ℕ
field_rp_content = 0x00020000

abbrev pub field_root_parent : ℕ
field_root_parent = 0x00040000

abbrev pub field_wnd_offset : ℕ
field_wnd_offset = 0x00000800

abbrev pub field_wnd_client_delta : ℕ
field_wnd_client_delta = 0x00008000

abbrev pub field_wnd_size : ℕ
field_wnd_size = 0x00000400

abbrev pub field_wnd_rects : ℕ
field_wnd_rects = 0x00000100

abbrev pub field_vis_offset : ℕ
field_vis_offset = 0x00001000

abbrev pub field_visibility : ℕ
field_visibility = 0x00000200

abbrev pub desktop_zorder : ℕ
desktop_zorder = 0x00000010

abbrev pub desktop_active_wnd : ℕ
desktop_active_wnd = 0x00000020

-- `flags & mask != 0`
abbrev pub has : ℕ → ℕ → Bool
has flags mask = not (bit_and flags mask == 0)

pub record Rect : Type 0 where
  pub left : ℕ
  pub top : ℕ
  pub right : ℕ
  pub bottom : ℕ

pub record WindowInfo : Type 0 where
  pub window_id : ℕ
  pub is_new : Bool
  pub show_state : Option ℕ
  pub title : Option (List ℕ)
  pub x : Option ℤ
  pub y : Option ℤ
  pub width : Option ℕ
  pub height : Option ℕ
  pub visibility_rects : Option (List Rect)

pub data WindowEvent : Type 0 where
  new_or_update : WindowInfo → WindowEvent
  deleted : ℕ → WindowEvent
  zorder : List ℕ → WindowEvent
  active_window : ℕ → WindowEvent
  icon : ℕ → ℕ → ℕ → List ℕ → WindowEvent

-- `if flag { m?; }`
abbrev pub when : Bool → Get (Unit {0}) → Get (Unit {0})
when b m = if b then m else pure tt

-- `if flag { field = Some(m?); }`
abbrev pub optional : {A : Type 0} → Bool → Get A → Get (Option A)
optional b m = if b then (do a ← m; pure (some a)) else pure none

abbrev pub both : {A : Type 0} → Get A → Get (A × A)
both m = do a ← m; b ← m; pure (a, b)

unfoldable pub rect : Get Rect
rect = do
  left ← u16
  top ← u16
  right ← u16
  bottom ← u16
  pure (record { left = left; top = top; right = right; bottom = bottom })

-- `for _ in 0..n { xs.push(m?) }`
unfoldable pub repeat : {A : Type 0} → ℕ → Get A → Get (List A)
repeat zero m = pure []
repeat (suc n) m = do a ← m; rest ← repeat n m; pure (a ∷ rest)

unfoldable pub window_rects : Get (Unit {0})
window_rects = do num ← u16; skip (num * 8)

unfoldable pub visibility : Get (List Rect)
unfolding rect
visibility = do num ← u16; repeat num rect

-- Only more than one rectangle is kept.
abbrev pub keep_rects : Option (List Rect) → Option (List Rect)
keep_rects none = none
keep_rects (some rects) = if ltb 1 (length rects) then some rects else none

unfoldable pub parse_window_state : ℕ → ℕ → Get WindowInfo
parse_window_state ff window_id = do
  when (has ff field_owner) (skip 4)
  when (has ff field_style) (skip 8)
  show_state ← optional (has ff field_show) u8
  title ← optional (has ff field_title) unicode_string
  when (has ff field_client_area_offset) (skip 8)
  when (has ff field_client_area_size) (skip 8)
  when (has ff field_resize_margin_x) (skip 8)
  when (has ff field_resize_margin_y) (skip 8)
  when (has ff field_rp_content) (skip 1)
  when (has ff field_root_parent) (skip 4)
  offset ← optional (has ff field_wnd_offset) (both i32)
  when (has ff field_wnd_client_delta) (skip 8)
  size ← optional (has ff field_wnd_size) (both u32)
  when (has ff field_wnd_rects) window_rects
  when (has ff field_vis_offset) (skip 8)
  rects ← optional (has ff field_visibility) visibility
  pure (record {
    window_id = window_id;
    is_new = has ff state_new;
    show_state = show_state;
    title = title;
    x = Option.map (λ p. p.0) offset;
    y = Option.map (λ p. p.1) offset;
    width = Option.map (λ p. p.0) size;
    height = Option.map (λ p. p.1) size;
    visibility_rects = keep_rects rects;
  })

-- What a function pushes to `events`, with the reader that it leaves.
abbrev pub Pushed : Type 0
Pushed = List WindowEvent × Reader

-- Push on success, return on `none`.
abbrev pub push : {A : Type 0} → (A → List WindowEvent) → Option A × Reader → Pushed
push f (none, r) = ([], r)
push f (some a, r) = (f a, r)

unfoldable pub parse_zorder : ℕ → Reader → Pushed
parse_zorder ff r =
    if has ff desktop_zorder
    then push (λ ids. zorder ids ∷ []) ((do num ← u8; repeat num u32) r)
    else ([], r)

abbrev pub after_active : ℕ → Option ℕ × Reader → Pushed
after_active ff (none, r) = ([], r)
after_active ff (some active, r) = let p = parse_zorder ff r in (active_window active ∷ p.0, p.1)

unfoldable pub parse_desktop_order : ℕ → Reader → Pushed
unfolding parse_zorder
parse_desktop_order ff r =
    if has ff desktop_active_wnd then after_active ff (u32 r) else parse_zorder ff r
