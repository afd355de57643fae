-- ===== src/RunLoop/Turn.antt =====
-- wasm/src/session.rs: the turns of `run_session`.
use wasm_rdp.Prelude.{ℕ, Bool, Option, none, some, List, [], ◌∷◌, codes}
use wasm_rdp.Canvas.{Page}
use wasm_rdp.Framed.{Action, read_pdu}
use wasm_rdp.RunLoop.Stage.{Stage, InputEvent, Event, from_server, from_page, surfaces_set}
use wasm_rdp.RunLoop.Loop.{next, Loop, bind, pure, finish, reader, change}
use wasm_rdp.RunLoop.Output.{handle_outputs}
use wasm_rdp.RunLoop.Input.{Outputs, handle_input}

-- The constants of a session: whether RemoteApp is on, the size that it starts with, and a model's fuel
-- for reactivations.
pub record Settings : Type 0 where
  pub rail_mode : Bool
  pub width : ℕ
  pub height : ℕ
  pub fuel : ℕ

module _ (page : Page) (S : Stage) (settings : Settings) where
  -- An error of `process` is logged and gives no output.
  abbrev pub or_none : Option (Outputs S) → Outputs S
  or_none none = []
  or_none (some outputs) = outputs

  unfoldable pub process : Action → List ℕ → Loop S (Outputs S)
  process action payload c =
      let (outputs, s, image, shared) =
        S.process action payload
          (c.stage, c.image, record { surfaces = c.surfaces; egfx_active = c.egfx_active }) in
      (
        next (or_none outputs),
        record c {
          stage = s;
          image = image;
          surfaces = shared.surfaces;
          egfx_active = shared.egfx_active;
        },
      )

  unfoldable pub from_input : Option (InputEvent S) → Loop S (Outputs S)
  from_input none = finish S (codes "user_disconnect")
  from_input (some event) = handle_input S (settings.width) (settings.height) event

  -- What `select!` gives.
  unfoldable pub outputs_of : Event S → Loop S (Outputs S)
  unfolding process from_input
  outputs_of from_server =
      bind S (reader S (read_pdu (S.from_fp_output_header)))
        λ (action, payload). process action payload
  outputs_of (from_page event) = from_input event
  outputs_of (surfaces_set surfaces) =
      bind S (change S λ c. record c { surfaces = surfaces }) λ _. pure S []

  unfoldable pub turn : Event S → Loop S (Unit {0})
  unfolding outputs_of
  turn e = bind S (outputs_of e) (handle_outputs page S (settings.rail_mode) (settings.fuel))

  -- Along the events that the loop waits for, until it ends.
  unfoldable pub run_session : List (Event S) → Loop S (Unit {0})
  unfolding turn
  run_session [] = pure S tt
  run_session (e ∷ events) = bind S (turn e) λ _. run_session events
