-- ===== src/RunLoop/Tests.antt =====
-- wasm/src/session.rs and wasm/src/rail.rs: the loop at concrete inputs.
use wasm_rdp.Prelude.{ℕ, ◌≡◌, refl, Bool, true, false, none, some, pos, List, [], ◌∷◌}
use wasm_rdp.Canvas.{Page}
use wasm_rdp.Framed.{bytes, fast_path, read_pdu, fill_to, fill_buf, split_to, pdu_length, byte_at}
use wasm_rdp.Redirect.{RedirectionPacket}
use wasm_rdp.Rail.Client.{Svc}
use wasm_rdp.Rail.Pdu.{ClientRailOrder}
use wasm_rdp.Rail.Window.Fields.{WindowState}
use wasm_rdp.Rail.Window.Sender.{Message, state, gone, cached, desktop}
use wasm_rdp.RunLoop.Stage
use wasm_rdp.RunLoop.Stage.{
  Stage, Output, response_frame, graphics_update, redirect, Event, from_server, from_page, repaint,
}
use wasm_rdp.RunLoop.Loop.{returns, Client, reader, send_frame}
use wasm_rdp.RunLoop.Output.{handle_outputs}
use wasm_rdp.RunLoop.Input.{handle_input}
use wasm_rdp.RunLoop.Turn.{Settings, run_session}
use wasm_rdp.RunLoop.Kept.{redirected}
use wasm_rdp.RunLoop.Handed.{Handed}
use wasm_rdp.RunLoop.Redirected.{Gave, run_session-Handed}
use wasm_rdp.RunLoop.Suppressed.{Suppressed, handle_outputs-Suppressed}

abbrev packet : RedirectionPacket
packet = record {
  load_balance_info = some (1 ∷ []);
  packet_user_name = some (2 ∷ []);
  packet_domain = none;
  packet_password = some (3 ∷ []);
  packet_redirection_guid = none;
  packet_target_certificate = none;
}

abbrev svc : Svc
svc = record {
  SvcMessage = ClientRailOrder;
  ChannelFlags = ℕ;
  from = λ o. o;
  with_flags = λ o f. o;
  show_protocol = 0;
}

-- A stage that answers each PDU with a frame and a redirection, and has no channels.
abbrev stage : Stage
stage = record {
  State = ℕ;
  DecodedImage = ℕ × ℕ;
  new_image = λ w h. (w, h);
  image_width = λ image. image.0;
  image_data = λ image. [];
  from_fp_output_header = λ b. some fast_path;
  Activation = ℕ;
  process = λ action pdu before.
      (some (response_frame pdu ∷ redirect packet ∷ []), before.0, before.1, before.2);
  FastPathInput = ℕ;
  process_fastpath_input = λ events before. (some [], before.0, before.1);
  graceful_shutdown = λ s. (some [], s);
  encode_resize = λ w h s. (none, s);
  layout = record {
    Entry = ℕ;
    adjust_display_size = λ w h. (w, h);
    new_primary = λ w h. some w;
    new_secondary = λ w h. some w;
    with_position = λ entry x y. some entry;
  };
  encode_monitor_layout = λ entries s. (none, s);
  ClipboardMessage = ℕ;
  FileDescriptors = ℕ;
  CliprdrMessages = ℕ;
  cliprdr_available = λ s. false;
  cliprdr = λ message s. (none, s);
  initiate_file_copy = λ files s. (none, s);
  encode_cliprdr = λ messages s. (none, s);
  svc = svc;
  rail = λ s. none;
  encode_rail = λ messages s. (none, s);
  finalized = λ n. some (800, 600);
  next_pdu_hint = λ n. none;
  step = λ pdu n. none;
  step_no_input = λ n. none;
  reactivated = λ n s. s;
}

abbrev page : Page
page = record { creates = λ pixels w h. true; puts = λ put. true }

abbrev settings : Settings
settings = record { rail_mode = false; width = 4; height = 4; fuel = 1 }

abbrev client : Bool → Client stage
client active = record {
  framed = record { ws_read = bytes (0 ∷ 3 ∷ 9 ∷ []) ∷ []; buf = []; rx_bytes = 0 };
  stage = 0;
  image = (4, 4);
  surfaces = record { origin_x = 0; origin_y = 0; width = 4; height = 4; rgba_buf = [] } ∷ [];
  egfx_active = active;
  legacy_paints = 0;
  frames = [];
  room = 5;
  pending = none;
  calls = [];
}

abbrev events : List (Event stage)
events = from_page (some repaint) ∷ from_server ∷ []

run_session-Handed_example :
    Handed page stage
      (Gave page stage settings)
      (client true)
      (run_session page stage settings events (client true))
run_session-Handed_example = run_session-Handed page stage settings events (client true)

ends_redirected : (run_session page stage settings events (client true)).0 ≡ returns redirected
unfolding run_session read_pdu fill_to fill_buf split_to pdu_length byte_at handle_input
    handle_outputs reader send_frame
ends_redirected = refl

abbrev outputs : List (Output ℕ)
outputs =
    graphics_update (record { left = 0; top = 0; right = 3; bottom = 3 })
    ∷ Stage.deactivate_all 0
    ∷ Stage.pointer_hidden
    ∷ []

handle_outputs-Suppressed_example :
    Suppressed page stage
      (client true)
      ((handle_outputs page stage false 1 outputs (client true)).1)
handle_outputs-Suppressed_example =
    handle_outputs-Suppressed page stage false 1 outputs (client true) refl

-- A window without a place, of a size, and a desktop order.
abbrev window_of : WindowState
window_of = record {
  window_id = 7;
  is_new = true;
  show_state = none;
  title = some (0x48 ∷ []);
  offset = none;
  size = some (300, 200);
  rects = none;
  skipped = record {
    owner = some 3;
    style = some (1, 2);
    client_area_offset = none;
    client_area_size = none;
    resize_margin_x = none;
    resize_margin_y = none;
    rp_content = some 1;
    root_parent = none;
    wnd_client_delta = none;
    wnd_rects = none;
    vis_offset = some (pos 0, pos 0);
  };
  tail = [];
}

abbrev messages : List Message
messages = state window_of ∷ cached 7 (1 ∷ 2 ∷ 3 ∷ []) ∷ desktop (some 7) none ∷ gone 8 ∷ []
