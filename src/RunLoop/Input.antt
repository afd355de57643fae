-- ===== src/RunLoop/Input.antt =====
-- wasm/src/session.rs: `run_session`, the outputs that an input of the page comes to.
use wasm_rdp.Prelude.{ℕ, ◌-◌, Option, none, some, List, [], ◌∷◌, length, ◌==◌, if◌then◌else◌, ℤ}
use wasm_rdp.Gfx.{Rectangle}
use wasm_rdp.Monitors.{parse_monitor_layout, combined_desktop_size, parse_dc_monitor_layout}
use wasm_rdp.Rail.Client.{Rail, activate_window, sys_command_window, exec_program}
use wasm_rdp.RunLoop.Stage.{
  Stage, Output, response_frame, graphics_update, InputEvent, fast_path, resize, monitor_layout,
  cliprdr, file_copy, rail_activate, rail_sys_command, rail_exec, repaint, terminate,
}
use wasm_rdp.RunLoop.Loop.{
  input_failed, not_encoded, shutdown_failed, next, Client, Loop, bind, pure, or_fail, change,
}

-- `n - 1` in `u16`, at least 0.
abbrev pub full_region : ℕ → ℕ → Rectangle
full_region width height = record { left = 0; top = 0; right = width - 1; bottom = height - 1 }

module _ (S : Stage) where
  abbrev pub Outputs : Type 0
  Outputs = List (Output (S.Activation))

  -- An operation of the stage.
  abbrev pub with_stage : {A : Type 0} → (S.State → A × S.State) → Loop S A
  with_stage f c = let (a, s) = f (c.stage) in (next a, record c { stage = s })

  abbrev pub frame_if : Option (List ℕ) → Outputs
  frame_if none = []
  frame_if (some frame) = response_frame frame ∷ []

  -- A channel that is not there, or an error, which is logged, gives no output.
  abbrev pub frame_if_encoded : Option (Option (List ℕ)) → Outputs
  frame_if_encoded none = []
  frame_if_encoded (some encoded) = frame_if encoded

  unfoldable pub on_fast_path : S.FastPathInput → Loop S Outputs
  on_fast_path events c =
      let (outputs, s, image) = S.process_fastpath_input events (c.stage, c.image) in
      or_fail S input_failed outputs (record c { stage = s; image = image })

  unfoldable pub on_resize : ℕ → ℕ → Loop S Outputs
  on_resize w h =
      bind S (with_stage (S.encode_resize w h)) λ encoded. pure S (frame_if_encoded encoded)

  abbrev pub new_image : ℕ × ℕ → Client S → Client S
  new_image (w, h) c = record c { image = S.new_image w h }

  -- No valid monitor: nothing happens.
  unfoldable pub on_monitor_layout : List ℤ → Loop S Outputs
  on_monitor_layout monitors =
      let entries = parse_dc_monitor_layout (S.layout) monitors in
      if length entries == 0
      then pure S []
      else bind S (change S (new_image (combined_desktop_size (parse_monitor_layout monitors))))
          λ _.
            bind S (with_stage (S.encode_monitor_layout entries))
              λ encoded. pure S (frame_if_encoded encoded)

  abbrev pub encode_messages : Option (S.CliprdrMessages) → Loop S Outputs
  encode_messages none = pure S []
  encode_messages (some messages) =
      bind S (with_stage (S.encode_cliprdr messages)) λ encoded.
        bind S (or_fail S not_encoded encoded) λ frame. pure S (response_frame frame ∷ [])

  -- A message for the clipboard's channel, or files to offer.
  unfoldable pub to_clipboard : (S.State → Option (S.CliprdrMessages) × S.State) → Loop S Outputs
  to_clipboard f c =
      if S.cliprdr_available (c.stage)
      then bind S (with_stage f) (encode_messages) c
      else (next [], c)

  abbrev pub encode_orders : List (S.svc.SvcMessage) → Loop S Outputs
  encode_orders [] = pure S []
  encode_orders (message ∷ messages) =
      bind S (with_stage (S.encode_rail (message ∷ messages))) λ encoded.
        bind S (or_fail S not_encoded encoded) λ frame. pure S (response_frame frame ∷ [])

  abbrev pub with_rail : Option Rail → (Rail → List (S.svc.SvcMessage)) → Loop S Outputs
  with_rail none f = pure S []
  with_rail (some rail) f = encode_orders (f rail)

  unfoldable pub rail_svc_messages : (Rail → List (S.svc.SvcMessage)) → Loop S Outputs
  rail_svc_messages f c = with_rail (S.rail (c.stage)) f c

  unfoldable pub handle_input : ℕ → ℕ → InputEvent S → Loop S Outputs
  unfolding on_fast_path on_resize on_monitor_layout to_clipboard rail_svc_messages
  handle_input width height (fast_path events) = on_fast_path events
  handle_input width height (resize w h) = on_resize w h
  handle_input width height (monitor_layout monitors) = on_monitor_layout monitors
  handle_input width height (cliprdr message) = to_clipboard (S.cliprdr message)
  handle_input width height (file_copy files) = to_clipboard (S.initiate_file_copy files)
  handle_input width height (rail_activate window_id enabled) =
      rail_svc_messages λ rail. activate_window (S.svc) window_id enabled
  handle_input width height (rail_sys_command window_id command) =
      rail_svc_messages λ rail. sys_command_window (S.svc) window_id command
  handle_input width height (rail_exec program args dir) =
      rail_svc_messages λ rail. exec_program (S.svc) program dir args
  handle_input width height repaint = pure S (graphics_update (full_region width height) ∷ [])
  handle_input width height terminate =
      bind S (with_stage S.graceful_shutdown) λ outputs. or_fail S shutdown_failed outputs
