-- ===== src/Rail/Window/Sender.antt =====
-- The sending side of crates/ironrdp-rail/src/window.rs, read off its unit tests and the field
-- order of `parse_window_state`: how a server lays a message out in bytes.
use wasm_rdp.Prelude.{
  ℕ, ◌*◌, ◌≤◌, ◌+◌, ◌≡◌, Option, none, some, List, [], ◌∷◌, ◌++◌, length, All, bit_if, IsByte,
  IsU16, IsU32, le16, le32,
}
use wasm_rdp.Rail.Window.Order.{WindowEvent, new_or_update, deleted, zorder, active_window, icon}
use wasm_rdp.Rail.Window.Loops.{flipped}
use wasm_rdp.Rail.Window.Alpha.{masked}
use wasm_rdp.Rail.Window.Pixels.{IsIconSize, offset32, alpha32, stride24, offset24}
use wasm_rdp.Rail.Window.Cursor.{is_some, present}
use wasm_rdp.Rail.Window.Fields.{
  WindowState, flags_of, concat_map, state_bytes, IfSome, IsState, info_of,
}

-- One order: the class byte, the size that counts the whole order, the flags, the body.
unfoldable pub order : ℕ → List ℕ → List ℕ
order ff body = 0x2C ∷ (le16 (7 + length body) ++ (le32 ff ++ body))

-- The depth of an icon's colours.
pub data Depth : Type 0 where
  bits32 : Depth
  bits24 : Depth

pub record IconImage : Type 0 where
  pub depth : Depth
  pub cache_entry : ℕ
  pub cache_id : ℕ
  pub width : ℕ
  pub height : ℕ
  pub mask : List ℕ
  pub color : List ℕ

abbrev pub bpp_of : Depth → ℕ
bpp_of bits32 = 32
bpp_of bits24 = 24

unfoldable pub icon_bytes : IconImage → List ℕ
icon_bytes i =
    le16 i.cache_entry
    ++ (i.cache_id
        ∷ bpp_of i.depth
        ∷ (le16 i.width
            ++ (le16 i.height
                ++ (le16 (length i.mask) ++ (le16 (length i.color) ++ (i.mask ++ i.color))))))

-- What the client is meant to show of it.
abbrev pub image_of : IconImage → Depth → List ℕ
image_of i bits32 =
    flipped i.width i.height i.color (offset32 i.width) (alpha32 i.width i.height i.color i.mask)
image_of i bits24 =
    flipped i.width i.height i.color (offset24 i.width) (masked i.width i.height i.mask)

abbrev pub IsWhole : IconImage → Depth → Type 0
IsWhole i bits32 = i.width * i.height * 4 ≤ length i.color
IsWhole i bits24 = stride24 i.width * i.height ≤ length i.color

-- An icon of 1 to 256 by 1 to 256 pixels with all its colours.
pub record IsIcon (i : IconImage) : Type 0 where
  pub width_fits : IsIconSize i.width
  pub height_fits : IsIconSize i.height
  pub entry_fits : IsU16 i.cache_entry
  pub mask_fits : IsU16 (length i.mask)
  pub color_fits : IsU16 (length i.color)
  pub is_whole : IsWhole i i.depth

-- What a server puts into an Orders payload. The four bytes of a frame marker are its action; a cached icon
-- and a notification icon have a window and further bytes.
pub data Message : Type 0 where
  state : WindowState → Message
  new_icon : ℕ → IconImage → Message
  cached : ℕ → List ℕ → Message
  notification : ℕ → List ℕ → Message
  gone : ℕ → Message
  desktop : Option ℕ → Option (List ℕ) → Message
  frame_marker : List ℕ → Message

abbrev pub zorder_bytes : List ℕ → List ℕ
zorder_bytes ids = length ids ∷ concat_map le32 ids

abbrev pub desktop_flags : Option ℕ → Option (List ℕ) → ℕ
desktop_flags active order =
    0x04000000 + bit_if (is_some active) 0x00000020 + bit_if (is_some order) 0x00000010

unfoldable pub message_bytes : Message → List ℕ
message_bytes (state s) = order (flags_of s) ((le32 s.window_id ++ state_bytes s) ++ s.tail)
message_bytes (new_icon id i) = order (0x01000000 + 0x40000000) (le32 id ++ icon_bytes i)
message_bytes (cached id more) = order (0x01000000 + 0x80000000) (le32 id ++ more)
message_bytes (notification id more) = order 0x02000000 (le32 id ++ more)
message_bytes (gone id) = order (0x01000000 + 0x20000000) (le32 id)
message_bytes (desktop active ids) =
    order (desktop_flags active ids) (present le32 active ++ present zorder_bytes ids)
message_bytes (frame_marker action) = 0x34 ∷ action

abbrev pub IsMessage : Message → Type 0
IsMessage (state s) = IsState s × IsU16 (7 + length ((le32 s.window_id ++ state_bytes s) ++ s.tail))
IsMessage (new_icon id i) = IsU32 id × IsIcon i × IsU16 (7 + length (le32 id ++ icon_bytes i))
IsMessage (cached id more) = IsU32 id × IsU16 (7 + length (le32 id ++ more))
IsMessage (notification id more) = IsU32 id × IsU16 (7 + length (le32 id ++ more))
IsMessage (gone id) = IsU32 id
IsMessage (desktop active ids) =
    IfSome IsU32 active
    × IfSome (λ xs. IsByte (length xs) × All IsU32 xs) ids
    × IsU16 (7 + length (present le32 active ++ present zorder_bytes ids))
IsMessage (frame_marker action) = length action ≡ 4

abbrev pub event_if : {A : Type 0} → (A → WindowEvent) → Option A → List WindowEvent
event_if f none = []
event_if f (some a) = f a ∷ []

-- The events that the client is meant to report.
unfoldable pub events_of : Message → List WindowEvent
events_of (state s) = new_or_update (info_of s) ∷ []
events_of (new_icon id i) = icon id i.width i.height (image_of i i.depth) ∷ []
events_of (cached id more) = []
events_of (notification id more) = []
events_of (gone id) = deleted id ∷ []
events_of (desktop active ids) = event_if active_window active ++ event_if zorder ids
events_of (frame_marker action) = []

unfoldable pub payload : List Message → List ℕ
payload ms = le16 (length ms) ++ concat_map message_bytes ms

unfoldable pub all_events : List Message → List WindowEvent
all_events [] = []
all_events (m ∷ ms) = events_of m ++ all_events ms
