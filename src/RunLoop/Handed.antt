-- ===== src/RunLoop/Handed.antt =====
-- wasm/src/session.rs: what `run_session` leaves for `connect_redirected`.
use wasm_rdp.Prelude.{
  ℕ, zero, suc, ◌≡◌, refl, ◌∙◌, ap, Bool, true, false, Option, none, some, List, [], ◌∷◌, ◌++◌,
  codes, same_text, contains_text, Bool-cases, inl, inr,
}
use wasm_rdp.Canvas.{Canvas, Page}
use wasm_rdp.Framed.{Found, read_by_hint}
use wasm_rdp.Gfx.{Rectangle}
use wasm_rdp.Redirect.{RedirectionPacket, from_packet}
use wasm_rdp.RunLoop.Stage
use wasm_rdp.RunLoop.Stage.{
  Stage, user_initiated, other_reason, server_initiated, DisconnectReason, Shared, Output,
  response_frame, graphics_update, pointer_default, pointer_hidden, pointer_bitmap, redirect,
  orders, deactivate_all, other_output, InputEvent, Event, from_server, from_page, surfaces_set,
  fast_path, resize, monitor_layout, cliprdr, file_copy, rail_activate, rail_sys_command, rail_exec,
  repaint,
}
use wasm_rdp.RunLoop.Windows.{dispatch_window_events}
use wasm_rdp.RunLoop.Loop.{
  Flow, next, returns, fails, panics, out_of_fuel, Client, Loop, proceed, of_outcome, Call, reader,
}
use wasm_rdp.RunLoop.Output.{
  draw_on, disconnect_tag, painted, paint, on_surfaces, reactivate_with, activation_step,
  send_written, until_finalized, reactivate, hand_off, window_orders, handle_output, handle_outputs,
}
use wasm_rdp.RunLoop.Kept.{
  redirected, Kept, Keeps, Keeps-bind, Keeps-or_fail, Keeps-of_outcome, Kept-if, still,
  send_frame-Keeps, reader-Keeps,
}

disconnect_tag-redirected :
    (reason : DisconnectReason) → same_text (disconnect_tag reason) redirected ≡ false
unfolding disconnect_tag same_text
disconnect_tag-redirected user_initiated = refl
disconnect_tag-redirected server_initiated = refl
disconnect_tag-redirected (other_reason desc) =
    elim (Bool-cases (contains_text desc (codes "Another user connected"))) [
      | inl e ↦ rw e refl
      | inr e ↦ rw e refl
    ]

module _ (page : Page) (S : Stage) where
  painted-Keeps : (drawn : Bool × List Call × List Canvas) → Keeps S (painted page S drawn)
  unfolding painted
  painted-Keeps (shown, puts, surfaces) c = still S refl refl

  paint-Keeps : (region : Rectangle) → Keeps S (paint page S region)
  unfolding paint
  paint-Keeps region c = Kept-if S (c.egfx_active) _ _ (still S refl refl) (
      Keeps-bind S
        (of_outcome S
          (draw_on page (S.image_width (c.image)) (S.image_data (c.image)) region 0 (c.surfaces)))
        (painted page S) (Keeps-of_outcome S _) painted-Keeps c)

  activation_step-Keeps :
      (hint : Option (List ℕ → Found)) (activation : S.Activation)
      → Keeps S (activation_step page S hint activation)
  unfolding activation_step
  activation_step-Keeps none activation = Keeps-or_fail S _ (S.step_no_input activation)
  activation_step-Keeps (some hint) activation =
      Keeps-bind S (reader S (read_by_hint hint)) _ (reader-Keeps S (read_by_hint hint))
        λ pdu. Keeps-or_fail S _ (S.step pdu activation)

  send_written-Keeps : (written : Option (List ℕ)) → Keeps S (send_written page S written)
  send_written-Keeps none c = still S refl refl
  send_written-Keeps (some frame) c = send_frame-Keeps S frame c

  until_finalized-Keeps :
      (activation : S.Activation) (size : Option (ℕ × ℕ)) (go_on : Loop S (Unit {0}))
      → Keeps S go_on
      → Keeps S (until_finalized page S activation size go_on)
  unfolding reactivate_with
  until_finalized-Keeps activation (some (w, h)) go_on keeps c = still S refl refl
  until_finalized-Keeps activation none go_on keeps c = keeps c

  reactivate-Keeps :
      (fuel : ℕ) (activation : S.Activation) → Keeps S (reactivate page S fuel activation)
  unfolding reactivate
  reactivate-Keeps zero activation c = still S refl refl
  reactivate-Keeps (suc fuel) activation c =
      until_finalized-Keeps activation (S.finalized activation) _
        (Keeps-bind S (activation_step page S (S.next_pdu_hint activation) activation) _
          (activation_step-Keeps (S.next_pdu_hint activation) activation)
          λ (activation', written).
            Keeps-bind S (send_written page S written) _ (send_written-Keeps written)
              λ _. reactivate-Keeps fuel activation')
        c

  window_orders-Keeps :
      (rail_mode : Bool) (payload : List ℕ) → Keeps S (window_orders page S rail_mode payload)
  unfolding window_orders
  window_orders-Keeps false payload c = still S refl refl
  window_orders-Keeps true payload c =
      Keeps-bind S (of_outcome S (dispatch_window_events payload)) _ (Keeps-of_outcome S _)
        (λ windows d. still S refl refl) c

  -- The outputs hold a redirection.
  abbrev pub Holds : RedirectionPacket → List (Output (S.Activation)) → Type 0
  Holds packet outputs =
      (before after : List (Output (S.Activation))) × (outputs ≡ before ++ redirect packet ∷ after)

  -- A part leaves the pending redirection and returns something else, or returns `redirected` and leaves a
  -- packet's for which `P` holds.
  pub data Handed {A : Type 0} (P : RedirectionPacket → Type 0) (c : Client S)
      : Flow A × Client S → Type 0 where
    kept : {p : Flow A × Client S} → Kept S c p → Handed P c p
    handed :
        {d : Client S} (packet : RedirectionPacket)
        → P packet
        → d.pending ≡ some (from_packet packet)
        → Handed P c (returns redirected, d)

  module _ {Q : RedirectionPacket → Type 0} where
    shift :
        {A B : Type 0} {c d : Client S} {r : Flow A} {q : Flow B × Client S}
        → Kept S c (r, d)
        → Handed Q d q
        → Handed Q c q
    shift h (kept k) = kept (record { same = k.same ∙ h.same; not_redirected = k.not_redirected })
    shift h (handed packet holds e) = handed packet holds e

    pub after_kept :
        {A B : Type 0} (k : A → Loop S B) (c : Client S) (p : Flow A × Client S)
        → Kept S c p
        → ((a : A) (d : Client S) → p ≡ (next a, d) → Handed Q d (k a d))
        → Handed Q c (proceed S k p)
    after_kept k c (next a, d) h rest = shift h (rest a d refl)
    after_kept k c (returns tag, d) h rest =
        kept (record { same = h.same; not_redirected = h.not_redirected })
    after_kept k c (fails e, d) h rest = kept (still S (h.same) refl)
    after_kept k c (panics, d) h rest = kept (still S (h.same) refl)
    after_kept k c (out_of_fuel, d) h rest = kept (still S (h.same) refl)

    pub Handed-map :
        {P : RedirectionPacket → Type 0} {A : Type 0} {c : Client S} {p : Flow A × Client S}
        → ((packet : RedirectionPacket) → P packet → Q packet)
        → Handed P c p
        → Handed Q c p
    Handed-map f (kept h) = kept h
    Handed-map f (handed packet holds e) = handed packet (f packet holds) e

    pub Handed-proceed :
        {P : RedirectionPacket → Type 0} {A B : Type 0} (k : A → Loop S B) (c : Client S)
        (p : Flow A × Client S)
        → Handed P c p
        → ((packet : RedirectionPacket) → P packet → Q packet)
        → ((a : A) (d : Client S) → p ≡ (next a, d) → Handed Q d (k a d))
        → Handed Q c (proceed S k p)
    Handed-proceed k c p (kept h) f rest = after_kept k c p h rest
    Handed-proceed k c _ (handed packet holds e) f rest = handed packet (f packet holds) e

  handle_output-Handed :
      (rail_mode : Bool) (fuel : ℕ) (out : Output (S.Activation)) (c : Client S)
      → Handed (λ packet. out ≡ redirect packet) c (handle_output page S rail_mode fuel out c)
  unfolding handle_output on_surfaces hand_off
  handle_output-Handed rail_mode fuel (response_frame frame) c = kept (send_frame-Keeps S frame c)
  handle_output-Handed rail_mode fuel (graphics_update region) c = kept (paint-Keeps region c)
  handle_output-Handed rail_mode fuel pointer_default c = kept (still S refl refl)
  handle_output-Handed rail_mode fuel pointer_hidden c = kept (still S refl refl)
  handle_output-Handed rail_mode fuel (pointer_bitmap pointer) c = kept (still S refl refl)
  handle_output-Handed rail_mode fuel (Stage.terminate reason) c =
      kept (still S refl (disconnect_tag-redirected reason))
  handle_output-Handed rail_mode fuel (redirect packet) c = handed packet refl refl
  handle_output-Handed rail_mode fuel (orders payload) c =
      kept (window_orders-Keeps rail_mode payload c)
  handle_output-Handed rail_mode fuel (deactivate_all activation) c =
      kept (reactivate-Keeps fuel activation c)
  handle_output-Handed rail_mode fuel other_output c = kept (still S refl refl)

  behind :
      (out : Output (S.Activation)) (outputs : List (Output (S.Activation))) (d : Client S)
      (q : Flow (Unit {0}) × Client S)
      → Handed (λ packet. Holds packet outputs) d q
      → Handed (λ packet. Holds packet (out ∷ outputs)) d q
  behind out outputs d q (kept h) = kept h
  behind out outputs d _ (handed packet (before, after, e) left) =
      handed packet (out ∷ before, after, ap (λ o. out ∷ o) e) left

  pub handle_outputs-Handed :
      (rail_mode : Bool) (fuel : ℕ) (outputs : List (Output (S.Activation))) (c : Client S)
      → Handed (λ packet. Holds packet outputs) c (handle_outputs page S rail_mode fuel outputs c)
  unfolding handle_outputs
  handle_outputs-Handed rail_mode fuel [] c = kept (still S refl refl)
  handle_outputs-Handed rail_mode fuel (out ∷ outputs) c =
      Handed-proceed (λ _. handle_outputs page S rail_mode fuel outputs) c
        (handle_output page S rail_mode fuel out c) (handle_output-Handed rail_mode fuel out c)
        (λ packet e. ([], outputs, ap (λ o. o ∷ outputs) e))
        λ _ d _. behind out outputs d _ (handle_outputs-Handed rail_mode fuel outputs d)
