-- ===== src/Rail/Window/RoundTrip.antt =====
-- crates/ironrdp-rail/src/window.rs: `parse` on what a server sends.
use wasm_rdp.Prelude.{ℕ, ◌≡◌, some, List, ◌++◌, returned}
use wasm_rdp.Rail.Window.Order.{WindowEvent}
use wasm_rdp.Rail.Window.Parse.{parse_order}
use wasm_rdp.Rail.Window.Cursor.{cursor}

-- One round of the loop consumes `bytes` and yields `events`.
record Rounds (bytes : List ℕ) (events : List WindowEvent) : Type 0 where
  consumed :
      (before after : List ℕ)
      → parse_order (cursor before (bytes ++ after))
        ≡ returned (some (events, cursor (before ++ bytes) after))
