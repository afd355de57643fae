-- ===== src/Rail/Window/Handled.antt =====
-- crates/ironrdp-rail/src/window.rs: `parse_window_order` on the body of each order that a server sends.
use wasm_rdp.Prelude.{
  ℕ, ◌+◌, ◌≡◌, refl, Option, none, some, List, [], ◌∷◌, ◌++◌, append_assoc, length, All, IsU32,
  le32, returned,
}
use wasm_rdp.Rail.Window.Reader.{◌>>=◌, u8, u32}
use wasm_rdp.Rail.Window.Order.{
  type_window, state_deleted, WindowEvent, new_or_update, deleted, repeat, parse_desktop_order,
}
use wasm_rdp.Rail.Window.Parse.{parse_window_order, parse_identified}
use wasm_rdp.Rail.Window.Cursor.{cursor, Reads, u8-Reads, u32-Reads, bind-Reads, present}
use wasm_rdp.Rail.Window.Pictures.{parse_icon_order-image_of}
use wasm_rdp.Rail.Window.Fields.{WindowState, IsState, flags_of, state_bytes, info_of}
use wasm_rdp.Rail.Window.Sender.{
  IconImage, IsIcon, icon_bytes, new_icon, desktop, desktop_flags, zorder_bytes, IsMessage,
  events_of,
}
use wasm_rdp.Rail.Window.Flags.{Fields, flags_of-Fields}
use wasm_rdp.Rail.Window.State.{parse_window_state-Reads, repeat-Reads}

-- On the body of an order the parser pushes `events`, and its reader keeps the buffer.
pub record Handles (ff : ℕ) (body : List ℕ) (events : List WindowEvent) : Type 0 where
  pub within :
      (before after : List ℕ)
      → (read unread : List ℕ) × (read ++ unread ≡ before ++ (body ++ after))
        × (parse_window_order ff (cursor before (body ++ after))
            ≡ returned (events, cursor read unread))

pub state-Handles :
    (s : WindowState)
    → IsState s
    → Handles
        (flags_of s)
        ((le32 s.window_id ++ state_bytes s) ++ s.tail)
        (new_or_update (info_of s) ∷ [])
unfolding parse_window_order parse_identified
state-Handles s v = record {
  within = λ before after. (
    before ++ (le32 s.window_id ++ state_bytes s),
    s.tail ++ after,
    simp append_assoc,
    rw (f.desktop, f.window)
        (rw append_assoc (
          rw ((u32-Reads s.window_id v.id_fits).between before (state_bytes s ++ (s.tail ++ after)))
            (identified before after))),
  );
}
  where
    f : Fields s
    f = flags_of-Fields s

    identified :
        (before after : List ℕ)
        → parse_identified
            (flags_of s)
            s.window_id
            (cursor (before ++ le32 s.window_id) (state_bytes s ++ (s.tail ++ after)))
          ≡ returned (
            new_or_update (info_of s) ∷ [],
            cursor (before ++ (le32 s.window_id ++ state_bytes s)) (s.tail ++ after),
          )
    identified before after =
        rw (f.no_icon, f.no_cached_icon, f.no_notify, f.no_deleted)
          (rw
            ((parse_window_state-Reads s v).between (before ++ le32 s.window_id) (s.tail ++ after))
            (simp append_assoc))

pub gone-Handles :
    (id : ℕ) → IsU32 id → Handles (type_window + state_deleted) (le32 id) (deleted id ∷ [])
unfolding parse_window_order parse_identified
gone-Handles id h = record {
  within = λ before after. (
    before ++ le32 id,
    after,
    append_assoc before (le32 id) after,
    rw ((u32-Reads id h).between before after),
  );
}

pub icon-Handles :
    (id : ℕ) (i : IconImage)
    → IsU32 id
    → IsIcon i
    → Handles (0x01000000 + 0x40000000) (le32 id ++ icon_bytes i) (events_of (new_icon id i))
unfolding parse_window_order parse_identified events_of
icon-Handles id i h v = record {
  within = λ before after. (
    before ++ (le32 id ++ icon_bytes i),
    after,
    simp append_assoc,
    rw append_assoc (
        rw ((u32-Reads id h).between before (icon_bytes i ++ after)) (
          rw
            (parse_icon_order-image_of i.cache_entry i.cache_id i.width i.height i.mask i.color
              i.depth id (before ++ le32 id) after v)
            (simp append_assoc))),
  );
}

-- An order that is not read behind its window.
pub cached-Handles :
    (id : ℕ) (more : List ℕ) → IsU32 id → Handles (0x01000000 + 0x80000000) (le32 id ++ more) []
unfolding parse_window_order parse_identified
cached-Handles id more h = record {
  within = λ before after. (
    before ++ le32 id,
    more ++ after,
    simp append_assoc,
    rw append_assoc (rw ((u32-Reads id h).between before (more ++ after)) refl),
  );
}

pub notification-Handles :
    (id : ℕ) (more : List ℕ) → IsU32 id → Handles 0x02000000 (le32 id ++ more) []
unfolding parse_window_order parse_identified
notification-Handles id more h = record {
  within = λ before after. (
    before ++ le32 id,
    more ++ after,
    simp append_assoc,
    rw append_assoc (rw ((u32-Reads id h).between before (more ++ after)) refl),
  );
}

zorder-Reads :
    (ids : List ℕ) → All IsU32 ids → Reads (u8 >>= λ num. repeat num u32) ids (zorder_bytes ids)
zorder-Reads ids h =
    bind-Reads _ (u8-Reads (length ids)) (repeat-Reads IsU32 le32 (λ v k. u32-Reads v k) ids h)

pub desktop-Handles :
    (active : Option ℕ) (ids : Option (List ℕ))
    → IsMessage (desktop active ids)
    → Handles
        (desktop_flags active ids)
        (present le32 active ++ present zorder_bytes ids)
        (events_of (desktop active ids))
unfolding parse_window_order parse_desktop_order events_of
desktop-Handles none none h = record { within = λ before after. (before, after, refl, refl) }
desktop-Handles (some a) none h = record {
  within = λ before after. (
    before ++ le32 a,
    after,
    append_assoc before (le32 a) after,
    rw ((u32-Reads a h.0).between before after),
  );
}
desktop-Handles none (some ids) h = record {
  within = λ before after. (
    before ++ zorder_bytes ids,
    after,
    append_assoc before (zorder_bytes ids) after,
    rw ((zorder-Reads ids h.1.1).between before after),
  );
}
desktop-Handles (some a) (some ids) h = record {
  within = λ before after. (
    (before ++ le32 a) ++ zorder_bytes ids,
    after,
    simp append_assoc,
    rw ((u32-Reads a h.0).between before (zorder_bytes ids ++ after))
        (rw ((zorder-Reads ids h.1.1).between (before ++ le32 a) after)),
  );
}
