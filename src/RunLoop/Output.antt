-- ===== src/RunLoop/Output.antt =====
-- wasm/src/session.rs: `run_session`, the handling of an output of the active stage.
use wasm_rdp.Prelude.{
  ℕ, zero, suc, ◌+◌, ◌%◌, ◌^◌, Bool, true, false, ◌||◌, Option, none, some, List, [], ◌∷◌, ◌++◌,
  map, codes, contains_text, if◌then◌else◌, Outcome, returned, and_then,
}
use wasm_rdp.Canvas.{Canvas, Page, Put, draw, resize}
use wasm_rdp.Framed.{Found, read_by_hint}
use wasm_rdp.Gfx.{Rectangle}
use wasm_rdp.Redirect.{RedirectionPacket, from_packet}
use wasm_rdp.RunLoop.Stage
use wasm_rdp.RunLoop.Stage.{
  Stage, DisconnectReason, user_initiated, other_reason, server_initiated, Pointer, Output,
  response_frame, graphics_update, pointer_default, pointer_hidden, pointer_bitmap, redirect,
  orders, deactivate_all, other_output,
}
use wasm_rdp.RunLoop.Windows.{dispatch_window_events}
use wasm_rdp.RunLoop.Loop.{
  reactivation_failed, next, out_of_fuel, Call, put_image, notify_frame, set_cursor,
  set_custom_cursor, notify_desktop_resized, window, Loop, bind, pure, finish, or_fail, of_outcome,
  change, tell, send_frame, reader,
}

-- The tag for the page, which reconnects or not.
unfoldable pub disconnect_tag : DisconnectReason → List ℕ
disconnect_tag (other_reason desc) =
    if contains_text desc (codes "Another user connected")
    then codes "session_replaced"
    else codes "server_disconnect"
disconnect_tag user_initiated = codes "user_disconnect"
disconnect_tag server_initiated = codes "server_disconnect"

-- What was put on the surface of a place.
abbrev pub put_call : ℕ → Option Put → List Call
put_call i none = []
put_call i (some p) = put_image i p ∷ []

-- The region on every surface, from a place on: whether one was painted.
unfoldable pub draw_on :
    Page → ℕ → List ℕ → Rectangle → ℕ → List Canvas → Outcome (Bool × List Call × List Canvas)
draw_on page iw src region i [] = returned (false, [], [])
draw_on page iw src region i (surface ∷ surfaces) =
    and_then (draw page iw src region surface) λ drawn.
      and_then (draw_on page iw src region (i + 1) surfaces)
        λ rest. returned (drawn.0 || rest.0, put_call i (drawn.1.0) ++ rest.1, drawn.1.1 ∷ rest.2)

-- A call for the surface of each place.
unfoldable pub for_each : (ℕ → Call) → ℕ → List Canvas → List Call
for_each call i [] = []
for_each call i (surface ∷ surfaces) = call i ∷ for_each call (i + 1) surfaces

abbrev pub resize_only : ℕ → ℕ → List Canvas → List Canvas
resize_only w h (canvas ∷ []) = resize w h canvas ∷ []
resize_only w h canvases = canvases

module _ (page : Page) (S : Stage) where
  unfoldable pub painted : Bool × List Call × List Canvas → Loop S (Unit {0})
  painted (shown, puts, surfaces) = change S λ c. record c {
    surfaces = surfaces;
    calls = c.calls ++ (puts ++ (if shown then notify_frame ∷ [] else []));
  }

  -- Once EGFX paints, the legacy framebuffer is black, and the update is counted and left out.
  unfoldable pub paint : Rectangle → Loop S (Unit {0})
  unfolding painted
  paint region c =
      if c.egfx_active
      then (next tt, record c { legacy_paints = (c.legacy_paints + 1) % 2 ^ 32 })
      else bind S
          (of_outcome S
            (draw_on page (S.image_width (c.image)) (S.image_data (c.image)) region 0 (c.surfaces)))
          (painted) c

  unfoldable pub on_surfaces : (ℕ → Call) → Loop S (Unit {0})
  on_surfaces call c = tell S (for_each call 0 (c.surfaces)) c

  -- The size of a finished reactivation.
  unfoldable pub reactivate_with : S.Activation → ℕ × ℕ → Loop S (Unit {0})
  reactivate_with activation (w, h) = change S λ c. record c {
    image = S.new_image w h;
    surfaces = resize_only w h (c.surfaces);
    calls = c.calls ++ notify_desktop_resized w h ∷ [];
    stage = S.reactivated activation (c.stage);
  }

  unfoldable pub activation_step :
      Option (List ℕ → Found) → S.Activation → Loop S (S.Activation × Option (List ℕ))
  activation_step none activation = or_fail S reactivation_failed (S.step_no_input activation)
  activation_step (some hint) activation =
      bind S (reader S (read_by_hint hint))
        λ pdu. or_fail S reactivation_failed (S.step pdu activation)

  abbrev pub send_written : Option (List ℕ) → Loop S (Unit {0})
  send_written none = pure S tt
  send_written (some frame) = send_frame S frame

  abbrev pub until_finalized : S.Activation → Option (ℕ × ℕ) → Loop S (Unit {0}) → Loop S (Unit {0})
  until_finalized activation (some size) go_on = reactivate_with activation size
  until_finalized activation none go_on = go_on

  -- The Deactivation-Reactivation sequence; `fuel` bounds its rounds.
  unfoldable pub reactivate : ℕ → S.Activation → Loop S (Unit {0})
  unfolding activation_step reactivate_with
  reactivate zero activation c = (out_of_fuel, c)
  reactivate (suc fuel) activation c =
      until_finalized activation (S.finalized activation)
        (bind S (activation_step (S.next_pdu_hint activation) activation)
          λ (activation', written). bind S (send_written written) λ _. reactivate fuel activation')
        c

  unfoldable pub hand_off : RedirectionPacket → Loop S (Unit {0})
  hand_off packet =
      bind S (change S λ c. record c { pending = some (from_packet packet) })
        λ _. finish S (codes "redirected")

  unfoldable pub window_orders : Bool → List ℕ → Loop S (Unit {0})
  window_orders false payload = pure S tt
  window_orders true payload =
      bind S (of_outcome S (dispatch_window_events payload)) λ windows. tell S (map window windows)

  unfoldable pub handle_output : Bool → ℕ → Output (S.Activation) → Loop S (Unit {0})
  unfolding paint on_surfaces reactivate hand_off window_orders
  handle_output rail_mode fuel (response_frame frame) = send_frame S frame
  handle_output rail_mode fuel (graphics_update region) = paint region
  handle_output rail_mode fuel pointer_default = on_surfaces λ i. set_cursor i (codes "default")
  handle_output rail_mode fuel pointer_hidden = on_surfaces λ i. set_cursor i (codes "none")
  handle_output rail_mode fuel (pointer_bitmap pointer) =
      on_surfaces λ i. set_custom_cursor i pointer
  handle_output rail_mode fuel (Stage.terminate reason) = finish S (disconnect_tag reason)
  handle_output rail_mode fuel (redirect packet) = hand_off packet
  handle_output rail_mode fuel (orders payload) = window_orders rail_mode payload
  handle_output rail_mode fuel (deactivate_all activation) = reactivate fuel activation
  handle_output rail_mode fuel other_output = pure S tt

  unfoldable pub handle_outputs : Bool → ℕ → List (Output (S.Activation)) → Loop S (Unit {0})
  unfolding handle_output
  handle_outputs rail_mode fuel [] = pure S tt
  handle_outputs rail_mode fuel (out ∷ outputs) =
      bind S (handle_output rail_mode fuel out) λ _. handle_outputs rail_mode fuel outputs
