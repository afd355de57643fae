-- ===== src/Rail/Window/Total.antt =====
-- crates/ironrdp-rail/src/window.rs: `parse` on any payload.
use wasm_rdp.Prelude.{
  ℕ, zero, suc, ◌+◌, ◌*◌, ◌/◌, ◌≡◌, ◌||◌, ◌==◌, ltb, if◌then◌else◌, bit_and, bit_or, Bool, true,
  false, Option, none, some, List, [], ◌∷◌, ◌++◌, length, All, returned, and_then, Returns, returns,
  Returns-and_then, Returns-if,
}
use wasm_rdp.Rail.Window.Reader.{Reader, ◌>>=◌, new, remaining, u8, u16, u32, skip}
use wasm_rdp.Rail.Window.Order.{
  WindowEvent, new_or_update, deleted, zorder, active_window, icon, Pushed, parse_window_state,
  parse_zorder, parse_desktop_order, after_active, push, repeat, has, icon_flag, cached_icon,
  type_notify, type_window, type_desktop, state_deleted, desktop_zorder, desktop_active_wnd,
}
use wasm_rdp.Rail.Window.Icon.{IconBody, icon_body, push_icon, parse_icon_order}
use wasm_rdp.Rail.Window.Parse.{
  with_window_id, marker_round, window_fields, dispatch, parse_count, parse_identified,
  parse_window_order, window_round, parse_order, parse_orders, parse,
}
use wasm_rdp.Rail.Window.Pixels.{HasSize, decode_icon-HasSize}

-- An icon comes with as many bytes as its size takes.
abbrev pub IsSized : WindowEvent → Type 0
IsSized (icon id w h rgba) = length rgba ≡ w * h * 4
IsSized (new_or_update info) = Unit
IsSized (deleted id) = Unit
IsSized (zorder ids) = Unit
IsSized (active_window id) = Unit

abbrev PushedSized : Pushed → Type 0
PushedSized p = All IsSized p.0

abbrev RoundSized : Option Pushed → Type 0
RoundSized none = Unit
RoundSized (some p) = PushedSized p

All-append : (xs ys : List WindowEvent) → All IsSized xs → All IsSized ys → All IsSized (xs ++ ys)
All-append [] ys hx hy = hy
All-append (x ∷ xs) ys hx hy = (hx.0, All-append xs ys hx.1 hy)

parse_icon_order-Sized : (id : ℕ) (r : Reader) → Returns PushedSized (parse_icon_order id r)
unfolding parse_icon_order
parse_icon_order-Sized id r = go (icon_body r)
  where
    event :
        (b : IconBody) (d : Option (List ℕ))
        → HasSize b.width b.height d
        → Returns (All IsSized) (elim d [
          | none ↦ returned []
          | some rgba ↦ returned (icon id b.width b.height rgba ∷ [])
        ])
    event b none h = returns tt
    event b (some rgba) h = returns (h, tt)

    go : (p : Option IconBody × Reader) → Returns PushedSized (push_icon id p)
    go (none, r') = returns tt
    go (some b, r') =
        Returns-and_then
          (Returns-and_then (decode_icon-HasSize b.bpp b.width b.height b.color b.mask) (event b))
          (λ events h. returns h)

push-Sized :
    {A : Type 0} (f : A → List WindowEvent) (p : Option A × Reader)
    → ((a : A) → All IsSized (f a))
    → Returns PushedSized (returned (push f p))
push-Sized f (none, r) h = returns tt
push-Sized f (some a, r) h = returns (h a)

parse_identified-Sized : (ff id : ℕ) (r : Reader) → Returns PushedSized (parse_identified ff id r)
unfolding parse_identified
parse_identified-Sized ff id r =
    Returns-if (has ff icon_flag) (λ _. parse_icon_order-Sized id r)
      λ _.
        Returns-if (has ff cached_icon || has ff type_notify) (λ _. returns tt)
          λ _.
            Returns-if (has ff state_deleted) (λ _. returns (tt, tt))
              λ _.
                push-Sized (λ info. new_or_update info ∷ []) (parse_window_state ff id r)
                  (λ _. (tt, tt))

parse_zorder-Sized : (ff : ℕ) (r : Reader) → All IsSized (parse_zorder ff r).0
unfolding parse_zorder
parse_zorder-Sized ff r = go (has ff desktop_zorder) ((u8 >>= λ num. repeat num u32) r)
  where
    go :
        (b : Bool) (p : Option (List ℕ) × Reader)
        → All IsSized (if b then push (λ ids. zorder ids ∷ []) p else ([], r)).0
    go true (none, r') = tt
    go true (some ids, r') = (tt, tt)
    go false p = tt

parse_desktop_order-Sized : (ff : ℕ) (r : Reader) → All IsSized (parse_desktop_order ff r).0
unfolding parse_desktop_order
parse_desktop_order-Sized ff r = go (has ff desktop_active_wnd) (u32 r)
  where
    go :
        (b : Bool) (p : Option ℕ × Reader)
        → All IsSized (if b then after_active ff p else parse_zorder ff r).0
    go true (none, r') = tt
    go true (some a, r') = (tt, parse_zorder-Sized ff r')
    go false p = parse_zorder-Sized ff r

with_window_id-Sized : (ff : ℕ) (p : Option ℕ × Reader) → Returns PushedSized (with_window_id ff p)
with_window_id-Sized ff (none, r) = returns tt
with_window_id-Sized ff (some id, r) = parse_identified-Sized ff id r

parse_window_order-Sized : (ff : ℕ) (r : Reader) → Returns PushedSized (parse_window_order ff r)
unfolding parse_window_order
parse_window_order-Sized ff r =
    Returns-if (has ff type_desktop) (λ _. returns (parse_desktop_order-Sized ff r))
      λ _.
        Returns-if (bit_and ff (bit_or type_window type_notify) == 0) (λ _. returns tt)
          λ _. with_window_id-Sized ff (u32 r)

window_round-Sized :
    (start : ℕ) (p q : Option ℕ × Reader) → Returns RoundSized (window_round start p q)
unfolding window_round
window_round-Sized start (some size, r) (some ff, r') =
    Returns-if (ltb size 3 || ltb (length r'.buf) (start + size)) (λ _. returns tt)
      λ _. Returns-and_then (parse_window_order-Sized ff r') (λ p h. returns h)
window_round-Sized start (some size, r) (none, r') = returns tt
window_round-Sized start (none, r) q = returns tt

window_fields-Sized :
    (start : ℕ) (p : Option ℕ × Reader) → Returns RoundSized (window_fields start p)
window_fields-Sized start (none, r) = returns tt
window_fields-Sized start (some size, r) = window_round-Sized start (some size, r) (u32 r)

marker_round-Sized : (p : Option (Unit {0}) × Reader) → Returns RoundSized (marker_round p)
marker_round-Sized (none, r) = returns tt
marker_round-Sized (some _, r) = returns tt

dispatch-Sized : (start : ℕ) (p : Option ℕ × Reader) → Returns RoundSized (dispatch start p)
dispatch-Sized start (none, r) = returns tt
dispatch-Sized start (some c, r) =
    Returns-if (has c 0x01) (λ _. returns tt)
      λ _.
        Returns-if (c / 4 == 0x0D) (λ _. marker_round-Sized (skip 4 r))
          λ _. Returns-if (c / 4 == 0x0B) (λ _. window_fields-Sized start (u16 r)) (λ _. returns tt)

parse_order-Sized : (r : Reader) → Returns RoundSized (parse_order r)
unfolding parse_order
parse_order-Sized r =
    Returns-if (remaining r == 0) (λ _. returns tt) (λ _. dispatch-Sized r.pos (u8 r))

parse_orders-Sized : (n : ℕ) (r : Reader) → Returns (All IsSized) (parse_orders n r)
unfolding parse_orders
parse_orders-Sized zero r = returns tt
parse_orders-Sized (suc n) r = Returns-and_then (parse_order-Sized r) (after (parse_orders-Sized n))
  where
    after :
        ((r : Reader) → Returns (All IsSized) (parse_orders n r))
        → (round : Option Pushed) → RoundSized round
        → Returns (All IsSized) (elim round [
          | none ↦ returned []
          | some (events, r') ↦ and_then (parse_orders n r') λ rest. returned (events ++ rest)
        ])
    after ih none h = returns tt
    after ih (some (events, r')) h =
        Returns-and_then (ih r') (λ rest k. returns (All-append events rest h k))

-- No payload makes the parser panic, and each icon that it reports has the bytes of its size.
pub parse-IsSized : (payload : List ℕ) → Returns (All IsSized) (parse payload)
unfolding parse
parse-IsSized payload = go (u16 (new payload))
  where
    go : (p : Option ℕ × Reader) → Returns (All IsSized) (parse_count p)
    go (none, r) = returns tt
    go (some n, r) = parse_orders-Sized n r
