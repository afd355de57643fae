-- ===== src/Rail/Window/Parse.antt =====
-- crates/ironrdp-rail/src/window.rs: `parse_window_order` and `parse`.
use wasm_rdp.Prelude.{
  ℕ, zero, suc, ◌+◌, ◌/◌, ◌||◌, Option, none, some, List, [], ◌∷◌, ◌++◌, length, ltb, ◌==◌,
  if◌then◌else◌, bit_and, bit_or, Outcome, returned, and_then,
}
use wasm_rdp.Rail.Window.Reader.{Reader, new, remaining, u8, u16, u32, skip}
use wasm_rdp.Rail.Window.Order.{
  WindowEvent, new_or_update, deleted, has, type_window, type_notify, type_desktop, state_deleted,
  icon_flag, cached_icon, Pushed, push, parse_window_state, parse_desktop_order,
}
use wasm_rdp.Rail.Window.Icon.{parse_icon_order}

-- What follows the windowId.
unfoldable pub parse_identified : ℕ → ℕ → Reader → Outcome Pushed
parse_identified ff window_id r =
    if has ff icon_flag
    then parse_icon_order window_id r
    else (if has ff cached_icon || has ff type_notify
        then returned ([], r)
        else (if has ff state_deleted
            then returned (deleted window_id ∷ [], r)
            else returned
                (push (λ info. new_or_update info ∷ []) (parse_window_state ff window_id r))))

abbrev pub with_window_id : ℕ → Option ℕ × Reader → Outcome Pushed
with_window_id ff (none, r) = returned ([], r)
with_window_id ff (some window_id, r) = parse_identified ff window_id r

unfoldable pub parse_window_order : ℕ → Reader → Outcome Pushed
unfolding parse_identified
parse_window_order ff r =
    if has ff type_desktop
    then returned (parse_desktop_order ff r)
    else (if bit_and ff (bit_or type_window type_notify) == 0
        then returned ([], r)
        else with_window_id ff (u32 r))

-- One round of the loop: `none` is `break`.
abbrev pub Round : Type 0
Round = Outcome (Option Pushed)

-- The window order's body, and the jump to `order_end`.
unfoldable pub window_round : ℕ → Option ℕ × Reader → Option ℕ × Reader → Round
window_round order_start (some order_size, _) (some field_flags, r) =
    if ltb order_size 3 || ltb (length r.buf) (order_start + order_size)
    then returned none
    else and_then (parse_window_order field_flags r)
        λ p. returned (some (p.0, record (p.1) { pos = order_start + order_size }))
window_round order_start _ _ = returned none

abbrev pub marker_round : Option (Unit {0}) × Reader → Round
marker_round (none, r) = returned none
marker_round (some _, r) = returned (some ([], r))

abbrev pub window_fields : ℕ → Option ℕ × Reader → Round
window_fields order_start (none, r) = returned none
window_fields order_start (some order_size, r) =
    window_round order_start (some order_size, r) (u32 r)

abbrev pub dispatch : ℕ → Option ℕ × Reader → Round
dispatch order_start (none, r) = returned none
dispatch order_start (some control_flags, r) =
    if has control_flags 0x01
    then returned none
    else (if control_flags / 4 == 0x0D
        then marker_round (skip 4 r)
        else (if control_flags / 4 == 0x0B
            then window_fields order_start (u16 r)
            else returned none))

unfoldable pub parse_order : Reader → Round
unfolding window_round
parse_order r = if remaining r == 0 then returned none else dispatch r.pos (u8 r)

-- `for _ in 0..number_orders`
unfoldable pub parse_orders : ℕ → Reader → Outcome (List WindowEvent)
parse_orders zero r = returned []
parse_orders (suc n) r = and_then (parse_order r) λ round. elim round [
  | none ↦ returned []
  | some (events, r') ↦ and_then (parse_orders n r') λ rest. returned (events ++ rest)
]

abbrev pub parse_count : Option ℕ × Reader → Outcome (List WindowEvent)
parse_count (none, r) = returned []
parse_count (some number_orders, r) = parse_orders number_orders r

unfoldable pub parse : List ℕ → Outcome (List WindowEvent)
unfolding parse_orders
parse payload = parse_count (u16 (new payload))
