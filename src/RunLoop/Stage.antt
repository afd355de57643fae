-- ===== src/RunLoop/Stage.antt =====
-- wasm/src/session.rs: what `run_session` uses of the packages, and the events that it waits for.
use wasm_rdp.Prelude.{ℕ, Bool, Option, List, ℤ}
use wasm_rdp.Canvas.{Canvas}
use wasm_rdp.Framed.{Action, Found}
use wasm_rdp.Gfx.{Rectangle}
use wasm_rdp.Monitors.{LayoutEntry}
use wasm_rdp.Rail.Client.{Rail, Svc}
use wasm_rdp.Redirect.{RedirectionPacket}

-- `GracefulDisconnectReason`
pub data DisconnectReason : Type 0 where
  user_initiated : DisconnectReason
  other_reason : List ℕ → DisconnectReason
  server_initiated : DisconnectReason

pub record Pointer : Type 0 where
  pub bitmap_data : List ℕ
  pub width : ℕ
  pub height : ℕ
  pub hotspot_x : ℕ
  pub hotspot_y : ℕ

-- `ActiveStageOutput`
pub data Output (Activation : Type 0) : Type 0 where
  response_frame : List ℕ → Output Activation
  graphics_update : Rectangle → Output Activation
  pointer_default : Output Activation
  pointer_hidden : Output Activation
  pointer_bitmap : Pointer → Output Activation
  terminate : DisconnectReason → Output Activation
  redirect : RedirectionPacket → Output Activation
  orders : List ℕ → Output Activation
  deactivate_all : Activation → Output Activation
  other_output : Output Activation

-- What the handlers of the virtual channels share with the loop.
pub record Shared : Type 0 where
  pub surfaces : List Canvas
  pub egfx_active : Bool

-- The active stage and its packages. An operation gives its result, or none for an error.
pub record Stage : Type 1 where
  pub State : Type 0
  pub DecodedImage : Type 0
  pub new_image : ℕ → ℕ → DecodedImage
  pub image_width : DecodedImage → ℕ
  pub image_data : DecodedImage → List ℕ
  pub from_fp_output_header : ℕ → Option Action
  pub Activation : Type 0
  -- `process` calls the channels' handlers.
  pub process :
      Action
      → List ℕ
      → State × DecodedImage × Shared
      → Option (List (Output Activation)) × State × DecodedImage × Shared
  pub FastPathInput : Type 0
  pub process_fastpath_input :
      FastPathInput
      → State × DecodedImage
      → Option (List (Output Activation)) × State × DecodedImage
  pub graceful_shutdown : State → Option (List (Output Activation)) × State
  -- None for a channel that is not there.
  pub encode_resize : ℕ → ℕ → State → Option (Option (List ℕ)) × State
  pub layout : LayoutEntry
  pub encode_monitor_layout : List (layout.Entry) → State → Option (Option (List ℕ)) × State
  -- The messages of the clipboard's channel, its processor if it is there, and what it makes of one.
  pub ClipboardMessage : Type 0
  pub FileDescriptors : Type 0
  pub CliprdrMessages : Type 0
  pub cliprdr_available : State → Bool
  pub cliprdr : ClipboardMessage → State → Option CliprdrMessages × State
  pub initiate_file_copy : FileDescriptors → State → Option CliprdrMessages × State
  pub encode_cliprdr : CliprdrMessages → State → Option (List ℕ) × State
  -- The `rail` channel.
  pub svc : Svc
  pub rail : State → Option Rail
  pub encode_rail : List (svc.SvcMessage) → State → Option (List ℕ) × State
  -- The reactivation: its size when it is finalized, its steps, and what they write.
  pub finalized : Activation → Option (ℕ × ℕ)
  pub next_pdu_hint : Activation → Option (List ℕ → Found)
  pub step : List ℕ → Activation → Option (Activation × Option (List ℕ))
  pub step_no_input : Activation → Option (Activation × Option (List ℕ))
  pub reactivated : Activation → State → State

module _ (S : Stage) where
  -- `InputEvent`
  pub data InputEvent : Type 0 where
    fast_path : S.FastPathInput → InputEvent
    resize : ℕ → ℕ → InputEvent
    monitor_layout : List ℤ → InputEvent
    cliprdr : S.ClipboardMessage → InputEvent
    file_copy : S.FileDescriptors → InputEvent
    rail_activate : ℕ → Bool → InputEvent
    rail_sys_command : ℕ → ℕ → InputEvent
    rail_exec : List ℕ → List ℕ → List ℕ → InputEvent
    repaint : InputEvent
    terminate : InputEvent

  -- What the loop waits for: the next PDU, or an input, or the end of the inputs. Between its turns the
  -- page may set the surfaces (`clear_surfaces`, `add_surface`).
  pub data Event : Type 0 where
    from_server : Event
    from_page : Option InputEvent → Event
    surfaces_set : List Canvas → Event
