-- ===== src/RunLoop/Sources.antt =====
-- wasm/src/session.rs: where the outputs that `run_session` handles come from.
use wasm_rdp.Prelude.{
  ℕ, ◌≡◌, refl, Option, none, some, List, [], ◌∷◌, same_text, ◌==◌, length, Bool-cases,
  Option-cases, inl, inr, ℤ,
}
use wasm_rdp.Canvas.{Page}
use wasm_rdp.Framed.{Action, read_pdu}
use wasm_rdp.Gfx.{Rectangle}
use wasm_rdp.Monitors.{parse_dc_monitor_layout}
use wasm_rdp.Rail.Client.{Rail}
use wasm_rdp.RunLoop.Stage
use wasm_rdp.RunLoop.Stage.{
  Stage, Shared, Output, response_frame, graphics_update, redirect, InputEvent, Event, from_server,
  from_page, surfaces_set, fast_path, resize, monitor_layout, cliprdr, file_copy, rail_activate,
  rail_sys_command, rail_exec, repaint,
}
use wasm_rdp.RunLoop.Loop.{
  Flow, next, returns, fails, panics, out_of_fuel, Client, Loop, proceed, bind, pure, or_fail,
  not_encoded, reader,
}
use wasm_rdp.RunLoop.Input.{
  Outputs, with_stage, frame_if, frame_if_encoded, on_fast_path, on_resize, on_monitor_layout,
  encode_messages, to_clipboard, encode_orders, with_rail, rail_svc_messages, handle_input,
}
use wasm_rdp.RunLoop.Turn.{Settings, process, from_input, outputs_of}
use wasm_rdp.RunLoop.Kept.{Kept, Kept-proceed, still, reader-Keeps}

module _ (page : Page) (S : Stage) (settings : Settings) where
  -- What outputs come from.
  pub data Source : Outputs S → Type 0 where
    of_process :
        (action : Action) (payload : List ℕ) (before : S.State × S.DecodedImage × Shared)
        {outputs : Outputs S}
        → (S.process action payload before).0 ≡ some outputs
        → Source outputs
    of_fast_path :
        (events : S.FastPathInput) (before : S.State × S.DecodedImage) {outputs : Outputs S}
        → (S.process_fastpath_input events before).0 ≡ some outputs
        → Source outputs
    of_shutdown :
        (before : S.State) {outputs : Outputs S}
        → (S.graceful_shutdown before).0 ≡ some outputs
        → Source outputs
    no_output : Source []
    one_frame : (frame : List ℕ) → Source (response_frame frame ∷ [])
    one_update : (region : Rectangle) → Source (graphics_update region ∷ [])

  abbrev pub IfNext : {A : Type 0} → (A → Type 0) → Flow A → Type 0
  IfNext P (next a) = P a
  IfNext P (returns tag) = Unit
  IfNext P (fails e) = Unit
  IfNext P panics = Unit
  IfNext P out_of_fuel = Unit

  pub record Sourced (c : Client S) (p : Flow (Outputs S) × Client S) : Type 0 where
    pub keeps : Kept S c p
    pub source : IfNext Source (p.0)

  sourced :
      {c d : Client S} {outputs : Outputs S}
      → d.pending ≡ c.pending
      → Source outputs
      → Sourced c (next outputs, d)
  sourced e s = record { keeps = still S e refl; source = s }

  nothing :
      {c d : Client S} {r : Flow (Outputs S)} → Kept S c (r, d) → IfNext Source r → Sourced c (r, d)
  nothing h s = record { keeps = h; source = s }

  Source-behind :
      {A : Type 0} (k : A → Loop S (Outputs S)) (p : Flow A × Client S)
      → ((a : A) (d : Client S) → Sourced d (k a d))
      → IfNext Source ((proceed S k p).0)
  Source-behind k (next a, d) rest = (rest a d).source
  Source-behind k (returns tag, d) rest = tt
  Source-behind k (fails e, d) rest = tt
  Source-behind k (panics, d) rest = tt
  Source-behind k (out_of_fuel, d) rest = tt

  -- A part behind another that keeps the redirection.
  after :
      {A : Type 0} (k : A → Loop S (Outputs S)) (c : Client S) (p : Flow A × Client S)
      → Kept S c p
      → ((a : A) (d : Client S) → Sourced d (k a d))
      → Sourced c (proceed S k p)
  after k c p h rest = record {
    keeps = Kept-proceed S k c p h λ a d. (rest a d).keeps;
    source = Source-behind k p rest;
  }

  frame_if-Source : (frame : Option (List ℕ)) → Source (frame_if S frame)
  frame_if-Source none = no_output
  frame_if-Source (some frame) = one_frame frame

  frame_if_encoded-Source :
      (encoded : Option (Option (List ℕ))) → Source (frame_if_encoded S encoded)
  frame_if_encoded-Source none = no_output
  frame_if_encoded-Source (some encoded) = frame_if-Source encoded

  on_fast_path-Sourced :
      (events : S.FastPathInput) (c : Client S) → Sourced c (on_fast_path S events c)
  unfolding on_fast_path
  on_fast_path-Sourced events c =
      elim (Option-cases ((S.process_fastpath_input events (c.stage, c.image)).0)) [
        | inl e ↦ rw e (nothing (still S refl refl) tt)
        | inr (outputs, e) ↦ rw e (sourced refl (of_fast_path events (c.stage, c.image) e))
      ]

  on_monitor_layout-Sourced :
      (monitors : List ℤ) (c : Client S) → Sourced c (on_monitor_layout S monitors c)
  unfolding on_monitor_layout
  on_monitor_layout-Sourced monitors c =
      elim (Bool-cases (length (parse_dc_monitor_layout (S.layout) monitors) == 0)) [
        | inl e ↦ rw e (sourced refl no_output)
        | inr e ↦ rw e (sourced refl (frame_if_encoded-Source _))
      ]

  frame_or_fail :
      (encoded : Option (List ℕ)) (c : Client S)
      → Sourced c
          (bind S (or_fail S not_encoded encoded) (λ frame. pure S (response_frame frame ∷ [])) c)
  frame_or_fail none c = nothing (still S refl refl) tt
  frame_or_fail (some frame) c = sourced refl (one_frame frame)

  encode_messages-Sourced :
      (messages : Option (S.CliprdrMessages)) (c : Client S)
      → Sourced c (encode_messages S messages c)
  encode_messages-Sourced none c = sourced refl no_output
  encode_messages-Sourced (some messages) c =
      after _ c (with_stage S (S.encode_cliprdr messages) c) (still S refl refl) frame_or_fail

  to_clipboard-Sourced :
      (f : S.State → Option (S.CliprdrMessages) × S.State) (c : Client S)
      → Sourced c (to_clipboard S f c)
  unfolding to_clipboard
  to_clipboard-Sourced f c = elim (Bool-cases (S.cliprdr_available (c.stage))) [
    | inr e ↦ rw e (sourced refl no_output)
    | inl e ↦
        rw e (
          after (encode_messages S) c (with_stage S f c) (still S refl refl)
            encode_messages-Sourced)
  ]

  encode_orders-Sourced :
      (orders : List (S.svc.SvcMessage)) (c : Client S) → Sourced c (encode_orders S orders c)
  encode_orders-Sourced [] c = sourced refl no_output
  encode_orders-Sourced (message ∷ messages) c =
      after _ c (with_stage S (S.encode_rail (message ∷ messages)) c) (still S refl refl)
        frame_or_fail

  with_rail-Sourced :
      (rail : Option Rail) (f : Rail → List (S.svc.SvcMessage)) (c : Client S)
      → Sourced c (with_rail S rail f c)
  with_rail-Sourced none f c = sourced refl no_output
  with_rail-Sourced (some rail) f c = encode_orders-Sourced (f rail) c

  handle_input-Sourced :
      (event : InputEvent S) (c : Client S)
      → Sourced c (handle_input S (settings.width) (settings.height) event c)
  unfolding handle_input on_resize rail_svc_messages
  handle_input-Sourced (fast_path events) c = on_fast_path-Sourced events c
  handle_input-Sourced (resize w h) c = sourced refl (frame_if_encoded-Source _)
  handle_input-Sourced (monitor_layout monitors) c = on_monitor_layout-Sourced monitors c
  handle_input-Sourced (cliprdr message) c = to_clipboard-Sourced (S.cliprdr message) c
  handle_input-Sourced (file_copy files) c = to_clipboard-Sourced (S.initiate_file_copy files) c
  handle_input-Sourced (rail_activate window_id enabled) c =
      with_rail-Sourced (S.rail (c.stage)) _ c
  handle_input-Sourced (rail_sys_command window_id command) c =
      with_rail-Sourced (S.rail (c.stage)) _ c
  handle_input-Sourced (rail_exec program args dir) c = with_rail-Sourced (S.rail (c.stage)) _ c
  handle_input-Sourced repaint c = sourced refl (one_update _)
  handle_input-Sourced Stage.InputEvent.terminate c =
      elim (Option-cases ((S.graceful_shutdown (c.stage)).0)) [
        | inl e ↦ rw e (nothing (still S refl refl) tt)
        | inr (outputs, e) ↦ rw e (sourced refl (of_shutdown (c.stage) e))
      ]

  process-Sourced :
      (action : Action) (payload : List ℕ) (c : Client S)
      → Sourced c (process page S settings action payload c)
  unfolding process
  process-Sourced action payload c =
      let before : S.State × S.DecodedImage × Shared =
        (c.stage, c.image, record { surfaces = c.surfaces; egfx_active = c.egfx_active }) in
      elim (Option-cases ((S.process action payload before).0)) [
        | inl e ↦ rw e (sourced refl no_output)
        | inr (outputs, e) ↦ rw e (sourced refl (of_process action payload before e))
      ]

  pub outputs_of-Sourced : (e : Event S) (c : Client S) → Sourced c (outputs_of page S settings e c)
  unfolding outputs_of from_input
  outputs_of-Sourced from_server c =
      after _ c (reader S (read_pdu (S.from_fp_output_header)) c)
        (reader-Keeps S (read_pdu (S.from_fp_output_header)) c)
        λ (action, payload) d. process-Sourced action payload d
  outputs_of-Sourced (from_page none) c = nothing (still S refl (unfold same_text in refl)) tt
  outputs_of-Sourced (from_page (some event)) c = handle_input-Sourced event c
  outputs_of-Sourced (surfaces_set surfaces) c = sourced refl no_output
