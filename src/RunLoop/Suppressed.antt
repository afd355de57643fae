-- ===== src/RunLoop/Suppressed.antt =====
-- wasm/src/session.rs: the legacy framebuffer is not painted over the graphics pipeline's.
use wasm_rdp.Prelude.{
  ℕ, zero, suc, ◌+◌, ◌%◌, ◌^◌, ◌≡◌, refl, ◌∙◌, ap, sym, Bool, true, false, Option, none, some, List,
  [], ◌∷◌, ◌++◌, append-nil, map, codes, ◌==◌, if◌then◌else◌, Outcome, returned, Bool-cases, inl,
  inr,
}
use wasm_rdp.Prelude
use wasm_rdp.Canvas.{Canvas, Page}
use wasm_rdp.Framed.{Read, Found, read_by_hint}
use wasm_rdp.Gfx.{Rectangle}
use wasm_rdp.RunLoop.Stage
use wasm_rdp.RunLoop.Stage.{
  Stage, Output, response_frame, graphics_update, pointer_default, pointer_hidden, pointer_bitmap,
  redirect, orders, deactivate_all, other_output,
}
use wasm_rdp.RunLoop.Windows.{WindowCall, dispatch_window_events}
use wasm_rdp.RunLoop.Loop.{
  Cause, Flow, next, returns, fails, panics, out_of_fuel, Call, put_image, notify_frame, set_cursor,
  set_custom_cursor, notify_desktop_resized, window, Client, Loop, proceed, or_fail, of_outcome,
  send_frame, reader,
}
use wasm_rdp.RunLoop.Output.{
  for_each, paint, on_surfaces, reactivate_with, activation_step, send_written, until_finalized,
  reactivate, hand_off, window_orders, handle_output, handle_outputs,
}

-- The calls that show an image.
unfoldable pub paints : List Call → List Call
paints [] = []
paints (put_image i put ∷ calls) = put_image i put ∷ paints calls
paints (notify_frame ∷ calls) = notify_frame ∷ paints calls
paints (set_cursor i style ∷ calls) = paints calls
paints (set_custom_cursor i pointer ∷ calls) = paints calls
paints (notify_desktop_resized w h ∷ calls) = paints calls
paints (window w ∷ calls) = paints calls

paints-append : (xs ys : List Call) → paints ys ≡ [] → paints (xs ++ ys) ≡ paints xs
unfolding paints
paints-append [] ys h = h
paints-append (put_image i put ∷ calls) ys h =
    ap (λ q. put_image i put ∷ q) (paints-append calls ys h)
paints-append (notify_frame ∷ calls) ys h = ap (λ q. notify_frame ∷ q) (paints-append calls ys h)
paints-append (set_cursor i style ∷ calls) ys h = paints-append calls ys h
paints-append (set_custom_cursor i pointer ∷ calls) ys h = paints-append calls ys h
paints-append (notify_desktop_resized w k ∷ calls) ys h = paints-append calls ys h
paints-append (window w ∷ calls) ys h = paints-append calls ys h

paints-for_each :
    (call : ℕ → Call)
    → ((i : ℕ) → paints (call i ∷ []) ≡ [])
    → (i : ℕ) (surfaces : List Canvas) → paints (for_each call i surfaces) ≡ []
unfolding for_each
paints-for_each call h i [] = unfold paints in refl
paints-for_each call h i (surface ∷ surfaces) =
    paints-append (call i ∷ []) (for_each call (i + 1) surfaces)
      (paints-for_each call h (i + 1) surfaces)
    ∙ h i

paints-windows : (windows : List WindowCall) → paints (map window windows) ≡ []
unfolding paints
paints-windows [] = refl
paints-windows (w ∷ windows) = paints-windows windows

module _ (page : Page) (S : Stage) where
  -- EGFX paints on, and nothing else was painted.
  pub record Suppressed (c d : Client S) : Type 0 where
    pub active : d.egfx_active ≡ true
    pub unpainted : paints (d.calls) ≡ paints (c.calls)

  abbrev Suppresses : {A : Type 0} → Loop S A → Type 0
  Suppresses m = (c : Client S) → c.egfx_active ≡ true → Suppressed c ((m c).1)

  unchanged :
      {c d : Client S}
      → c.egfx_active ≡ true
      → d.egfx_active ≡ c.egfx_active
      → d.calls ≡ c.calls
      → Suppressed c d
  unchanged on e h = record { active = e ∙ on; unpainted = ap paints h }

  told :
      {c d : Client S} (more : List Call)
      → c.egfx_active ≡ true
      → d.egfx_active ≡ c.egfx_active
      → d.calls ≡ c.calls ++ more
      → paints more ≡ []
      → Suppressed c d
  told {c = c} more on e h none_shown = record {
    active = e ∙ on;
    unpainted = ap paints h ∙ paints-append (c.calls) more none_shown;
  }

  behind :
      {A B : Type 0} (k : A → Loop S B) (c : Client S) (p : Flow A × Client S)
      → Suppressed c (p.1)
      → ((a : A) → Suppresses (k a))
      → Suppressed c ((proceed S k p).1)
  behind k c (next a, d) h rest = record {
    active = (rest a d (h.active)).active;
    unpainted = (rest a d (h.active)).unpainted ∙ h.unpainted;
  }
  behind k c (returns tag, d) h rest = h
  behind k c (fails e, d) h rest = h
  behind k c (panics, d) h rest = h
  behind k c (out_of_fuel, d) h rest = h

  or_fail-Suppresses : {A : Type 0} (e : Cause) (o : Option A) → Suppresses (or_fail S e o)
  or_fail-Suppresses e none c on = unchanged on refl refl
  or_fail-Suppresses e (some a) c on = unchanged on refl refl

  of_outcome-Suppresses : {A : Type 0} (o : Outcome A) → Suppresses (of_outcome S o)
  of_outcome-Suppresses (returned a) c on = unchanged on refl refl
  of_outcome-Suppresses Prelude.panicked c on = unchanged on refl refl

  reader-Suppresses : {A : Type 0} (m : Read A) → Suppresses (reader S m)
  unfolding reader
  reader-Suppresses m c on = unchanged on refl refl

  send_frame-Suppresses : (frame : List ℕ) → Suppresses (send_frame S frame)
  unfolding send_frame
  send_frame-Suppresses frame c on = elim (Bool-cases (c.room == 0)) [
    | inl e ↦ rw e (unchanged on refl refl)
    | inr e ↦ rw e (unchanged on refl refl)
  ]

  chosen :
      {A : Type 0} {c : Client S} (b : Bool) (p q : Flow A × Client S)
      → b ≡ true
      → Suppressed c (p.1)
      → Suppressed c ((if b then p else q).1)
  chosen true p q e h = h
  chosen false p q e h = absurd (cc)

  paint-Suppresses : (region : Rectangle) → Suppresses (paint page S region)
  unfolding paint
  paint-Suppresses region c on = chosen (c.egfx_active) _ _ on (unchanged on refl refl)

  activation_step-Suppresses :
      (hint : Option (List ℕ → Found)) (activation : S.Activation)
      → Suppresses (activation_step page S hint activation)
  unfolding activation_step
  activation_step-Suppresses none activation c on =
      or_fail-Suppresses _ (S.step_no_input activation) c on
  activation_step-Suppresses (some hint) activation c on =
      behind _ c (reader S (read_by_hint hint) c) (reader-Suppresses (read_by_hint hint) c on)
        λ pdu. or_fail-Suppresses _ (S.step pdu activation)

  send_written-Suppresses : (written : Option (List ℕ)) → Suppresses (send_written page S written)
  send_written-Suppresses none c on = unchanged on refl refl
  send_written-Suppresses (some frame) c on = send_frame-Suppresses frame c on

  until_finalized-Suppresses :
      (activation : S.Activation) (size : Option (ℕ × ℕ)) (go_on : Loop S (Unit {0}))
      → Suppresses go_on
      → Suppresses (until_finalized page S activation size go_on)
  unfolding reactivate_with
  until_finalized-Suppresses activation (some (w, h)) go_on quiet c on =
      told (notify_desktop_resized w h ∷ []) on refl refl (unfold paints in refl)
  until_finalized-Suppresses activation none go_on quiet c on = quiet c on

  reactivate-Suppresses :
      (fuel : ℕ) (activation : S.Activation) → Suppresses (reactivate page S fuel activation)
  unfolding reactivate
  reactivate-Suppresses zero activation c on = unchanged on refl refl
  reactivate-Suppresses (suc fuel) activation c on =
      until_finalized-Suppresses activation (S.finalized activation) _
        (λ d on'.
          behind _ d (activation_step page S (S.next_pdu_hint activation) activation d)
            (activation_step-Suppresses (S.next_pdu_hint activation) activation d on')
            λ (activation', written) u on''.
              behind _ u (send_written page S written u) (send_written-Suppresses written u on'')
                λ _. reactivate-Suppresses fuel activation')
        c on

  window_orders-Suppresses :
      (rail_mode : Bool) (payload : List ℕ) → Suppresses (window_orders page S rail_mode payload)
  unfolding window_orders
  window_orders-Suppresses false payload c on = unchanged on refl refl
  window_orders-Suppresses true payload c on =
      behind _ c (of_outcome S (dispatch_window_events payload) c) (of_outcome-Suppresses _ c on)
        λ windows d on'. told (map window windows) on' refl refl (paints-windows windows)

  handle_output-Suppresses :
      (rail_mode : Bool) (fuel : ℕ) (out : Output (S.Activation))
      → Suppresses (handle_output page S rail_mode fuel out)
  unfolding handle_output on_surfaces hand_off
  handle_output-Suppresses rail_mode fuel (response_frame frame) c on =
      send_frame-Suppresses frame c on
  handle_output-Suppresses rail_mode fuel (graphics_update region) c on =
      paint-Suppresses region c on
  handle_output-Suppresses rail_mode fuel pointer_default c on =
      told (for_each (λ i. set_cursor i (codes "default")) 0 (c.surfaces)) on refl refl (
        paints-for_each (λ i. set_cursor i (codes "default")) (λ i. unfold paints in refl) 0
          (c.surfaces))
  handle_output-Suppresses rail_mode fuel pointer_hidden c on =
      told (for_each (λ i. set_cursor i (codes "none")) 0 (c.surfaces)) on refl refl (
        paints-for_each (λ i. set_cursor i (codes "none")) (λ i. unfold paints in refl) 0
          (c.surfaces))
  handle_output-Suppresses rail_mode fuel (pointer_bitmap pointer) c on =
      told (for_each (λ i. set_custom_cursor i pointer) 0 (c.surfaces)) on refl refl (
        paints-for_each (λ i. set_custom_cursor i pointer) (λ i. unfold paints in refl) 0
          (c.surfaces))
  handle_output-Suppresses rail_mode fuel (Stage.terminate reason) c on = unchanged on refl refl
  handle_output-Suppresses rail_mode fuel (redirect packet) c on = unchanged on refl refl
  handle_output-Suppresses rail_mode fuel (orders payload) c on =
      window_orders-Suppresses rail_mode payload c on
  handle_output-Suppresses rail_mode fuel (deactivate_all activation) c on =
      reactivate-Suppresses fuel activation c on
  handle_output-Suppresses rail_mode fuel other_output c on = unchanged on refl refl

  -- Once the graphics pipeline paints, no list of outputs of the active stage, whatever it holds, makes
  -- the loop put an image on a canvas or report a frame, and the pipeline still paints behind it.
  pub handle_outputs-Suppressed :
      (rail_mode : Bool) (fuel : ℕ) (outputs : List (Output (S.Activation))) (c : Client S)
      → c.egfx_active ≡ true
      → Suppressed c ((handle_outputs page S rail_mode fuel outputs c).1)
  unfolding handle_outputs
  handle_outputs-Suppressed rail_mode fuel [] c on = unchanged on refl refl
  handle_outputs-Suppressed rail_mode fuel (out ∷ outputs) c on =
      behind (λ _. handle_outputs page S rail_mode fuel outputs) c
        (handle_output page S rail_mode fuel out c)
        (handle_output-Suppresses rail_mode fuel out c on)
        λ _ d on'. handle_outputs-Suppressed rail_mode fuel outputs d on'
