-- ===== src/Rail/Client.antt =====
-- crates/ironrdp-rail/src/client.rs: the processor of the `rail` channel. The handler is the list of the
-- calls it received, the oldest first.
pub mod Launch
use wasm_rdp.Prelude.{
  ℕ, Bool, true, false, List, [], ◌∷◌, ◌++◌, map, bit_or, if◌then◌else◌, Outcome, returned,
  panicked, and_then,
}
use wasm_rdp.Rail.Wire.{Result, ok, err, ReadCursor}
use wasm_rdp.Rail.Pdu.{
  Text, ClientRailOrder, handshake, client_status, sys_param_high_contrast_off, sys_param_work_area,
  exec, activate, sys_command, ExecResult, ServerRailOrder, exec_result, other, decode,
}

pub record Rail : Type 0 where
  pub handler : List ExecResult
  pub program : Text
  pub working_dir : Text
  pub arguments : Text
  pub width : ℕ
  pub height : ℕ
  pub handshake_done : Bool

unfoldable pub new : List ExecResult → Text → Text → Text → ℕ → ℕ → Rail
new handler program working_dir arguments width height = record {
  handler = handler;
  program = program;
  working_dir = working_dir;
  arguments = arguments;
  width = width;
  height = height;
  handshake_done = false;
}

unfoldable pub client_init : Rail → ℕ → List ClientRailOrder
client_init rail build_number =
    handshake build_number
    ∷ client_status 0
    ∷ sys_param_high_contrast_off
    ∷ sys_param_work_area (rail.width) (rail.height)
    ∷ exec (rail.program) (rail.working_dir) (rail.arguments)
    ∷ []

abbrev pub rail_client_build : ℕ
rail_client_build = 7601

abbrev pub on_exec_result : ExecResult → Rail → Rail
on_exec_result result rail = record rail { handler = rail.handler ++ (result ∷ []) }

-- The orders to send, or the error, and the processor after the payload.
abbrev pub Answer : Type 0
Answer = Result (List ClientRailOrder) × Rail

unfoldable pub handle_order : Rail → Result ServerRailOrder → Answer
handle_order rail (err e) = (err e, rail)
handle_order rail (ok ServerRailOrder.handshake) =
    if rail.handshake_done
    then (ok [], rail)
    else (ok (client_init rail rail_client_build), record rail { handshake_done = true })
handle_order rail (ok (ServerRailOrder.exec_result result)) = (ok [], on_exec_result result rail)
handle_order rail (ok (other order_type)) = (ok [], rail)

-- The package ironrdp_svc: messages made of orders, and their flags.
pub record Svc : Type 1 where
  pub SvcMessage : Type 0
  pub ChannelFlags : Type 0
  pub from : ClientRailOrder → SvcMessage
  pub with_flags : SvcMessage → ChannelFlags → SvcMessage
  pub show_protocol : ChannelFlags

module _ (S : Svc) where
  open S use {SvcMessage, from, with_flags, show_protocol}

  unfoldable pub msg : ClientRailOrder → SvcMessage
  msg order = with_flags (from order) show_protocol

  unfoldable pub activate_window : ℕ → Bool → List SvcMessage
  activate_window window_id enabled = msg (activate window_id enabled) ∷ []

  unfoldable pub sys_command_window : ℕ → ℕ → List SvcMessage
  sys_command_window window_id command = msg (sys_command window_id command) ∷ []

  unfoldable pub exec_program : Text → Text → Text → List SvcMessage
  exec_program program working_dir arguments = msg (exec program working_dir arguments) ∷ []

  module _ (R : ReadCursor) where
    unfoldable pub handle_pdu : Rail → List ℕ → Outcome Answer
    handle_pdu rail payload =
        and_then (decode R (R.new payload)) λ order. returned (handle_order rail order)

    abbrev pub messages : Result (List ClientRailOrder) → Result (List SvcMessage)
    messages (ok orders) = ok (map msg orders)
    messages (err e) = err e

    unfoldable pub process : Rail → List ℕ → Outcome (Result (List SvcMessage) × Rail)
    process rail payload =
        and_then (handle_pdu rail payload) λ answer. returned (messages (answer.0), answer.1)

    -- The channel's payloads one after the other, each answered with messages or an error.
    unfoldable pub process_each :
        Rail → List (List ℕ) → Outcome (List (Result (List SvcMessage)) × Rail)
    process_each rail [] = returned ([], rail)
    process_each rail (payload ∷ payloads) = and_then (process rail payload) λ answer.
        and_then (process_each (answer.1) payloads) λ rest. returned (answer.0 ∷ rest.0, rest.1)
