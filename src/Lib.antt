-- ===== src/Lib.antt =====
-- IronBridge: an RDP client in the browser, Rust compiled to WebAssembly (wasm/), the relay that it
-- connects through (server/), and the crates of its virtual channels (crates/). The page connects a
-- WebSocket to the relay; the client's session reads PDUs from it, hands them to the packages of
-- IronRDP, and these call the handlers that the client registers: RemoteApp (the `rail` channel and
-- windowing orders), the clipboard, the graphics pipeline.
--
-- Prelude: the shared names. Prelude/Tests: Boolean tests and if-then-else; Prelude/Lists: lists
--   by native numbers; Prelude/Bytes, Prelude/Bits, Prelude/Flags, Prelude/Int: little-endian words, masks,
--   signed numbers; Prelude/Text, Prelude/Utf8: texts, their search, and `from_utf8_lossy`; Prelude/Utf16:
--   `encode_utf16` and `String::from_utf16_lossy` of the standard library, on text as a list of scalar
--   values; Prelude/Panics: runs that may panic.
-- Rail: crates/ironrdp-rail. Rail/Wire is the interface of the cursors of ironrdp_core. Rail/Pdu is
--   src/pdu.rs (ClientRailOrder::encode, ServerRailOrder::decode), Rail/Client is src/client.rs
--   (Rail::handle_pdu, process and the orders sent on demand), Rail/Window is src/window.rs: Reader
--   (Reader), Order (parse_window_state, parse_desktop_order), Icon (parse_icon_order, decode_icon),
--   Parse (parse_window_order, parse). Rail/Window/Fields and Rail/Window/Sender are what a server
--   sends, independent of the parser; State, Flags, Cursor and RoundTrip relate the two, Handled and Pictures are about the single
--   orders, Loops, Alpha and Pixels about decode_icon, Total about any payload.
-- Redirect: wasm/src/redirect.rs, the RDSTLS PDUs (parse_capabilities, build_auth_request,
--   parse_auth_response), the certificate's pin (check_cert_pin, contains_subslice), PendingRedirect.
-- Framed: wasm/src/framed.rs, WasmFramed: fill_buf, read_exact, read_by_hint, read_pdu,
--   read_text_message, read_credssp_response. The socket is the list of the messages that it will
--   give and then closes; an `await` takes the next. Framed/Total is about the ends of the readers.
-- Relay: server/src/main.rs, handle_ws and run_tls_relay. The sockets are the histories of what they
--   took and gave; an event is what one of them does next, and a run is any list of events. Relay/Plain
--   and Relay/Tunnel are about the steps before and within TLS, Relay/Transparent about a run.
-- Session: wasm/src/session.rs, the connection. Session/Wire is the socket: its reader, what was sent on
--   it, and how many messages it still takes. Session/Tls is perform_tls_upgrade (parse_tls_ready,
--   hex_decode), Session/Credssp perform_credssp, Session/Connection perform_connection,
--   Session/Redirected perform_redirected_connection. Session/Upgrade sets the client's upgrade beside
--   the relay's; Rounds is about the rounds of CredSSP, Ends about the ends of the parts,
--   Extends and Done about what they sent and gave, Quiet, Parts, Exchange and Handover about the
--   redirected connection.
-- Clipboard: wasm/src/clipboard.rs, WasmCliprdrBackend. Clipboard holds the state and the transfers
--   (alloc_stream_id, request_file_size, request_file_range), Clipboard/Handlers the functions of
--   CliprdrBackend (on_remote_copy, on_format_data_request, on_file_contents_response, ...). The
--   thread-local caches are fields of the state, the sent messages and page calls a list, the latest
--   first.
-- Gfx: wasm/src/session.rs, WasmGfxHandler. Gfx holds the copies of pixels, Gfx/Handler the
--   operations (on_reset_graphics, on_solid_fill, on_surface_to_surface, on_surface_to_cache,
--   on_cache_to_surface, ...), Gfx/Codecs the decoded images and the repaint (on_bitmap_updated,
--   on_progressive_data, on_avc420_decoded, repaint), Gfx/Annexb avc_to_annexb; Gfx/Frame, Gfx/Frames and Gfx/Commands are
--   about the invariant, Gfx/Bytes and Gfx/Fill about on_solid_fill, Gfx/Copy
--   and Gfx/Paste about the copies of the other painting handlers.
--   The monitors' canvases are an interface.
-- Canvas: wasm/src/canvas.rs, draw and draw_rgba. Canvas/Part is about the bytes that they put, Canvas/Draw
--   and Canvas/Rgba about the pixels that the canvas shows.
-- RunLoop: wasm/src/session.rs, run_session, and wasm/src/rail.rs, dispatch_window_events. RunLoop/Stage
--   is the interface of the packages, RunLoop/Input the outputs that an input comes to, RunLoop/Output
--   what an output does, RunLoop/Turn the loop along a list of events, RunLoop/Windows the calls of the
--   page's window manager. An event is the next PDU or an input of the page; a PDU is read in one turn.
--   RunLoop/Kept, Handed, Sources and Redirected are about the pending redirection, RunLoop/Suppressed about the
--   legacy framebuffer, RunLoop/Announced about the windows.
-- Monitors: wasm/src/session.rs, parse_monitor_layout, combined_desktop_size, primary_surface_rect and
--   parse_dc_monitor_layout.
-- Pages: server/src/main.rs, the pages. Pages/Catalogue is load_remote_apps and remote_apps_json,
--   Pages/Embedded etag_for, embedded_handler and ping_handler. Pages/Literal is a script's reading of a
--   list of applications, independent of the writing; Pages/Script, Pages/Written and
--   Pages/Published are about what the page reads, Pages/Revalidated about a browser's cache. Texts are lists of scalar values, files and
--   bodies are bytes.
--
-- Code of other packages is a parameter: the cursors and errors of ironrdp_core, messages and flags
-- of ironrdp_svc, the hints and first bytes of ironrdp_pdu, base64, the image codecs, identifiers and
-- size coding of ironrdp_cliprdr, the JSON of serde_json, the client of sspi, the connector and the
-- negotiation of ironrdp, the key of a certificate (x509_cert), the active stage of
-- ironrdp_session, the embedded files of rust_embed. Log output is left out everywhere.
--
-- A panic is a value (`panicked`, `panic`), an early return with `?` a `none` or an error. A `u8`,
-- `u16` or `u32` is a number; where the code truncates or wraps it is written out (`% 2 ^ 16`, `% 2 ^
-- 32`; `usize` has 32 bits on wasm32). A number is not otherwise bounded, so a theorem that needs a bound
-- names it.
--
-- Loops are structural on a list or a count, but for these, which run on fuel: Framed's loops that wait
-- for bytes take a message in each round and have one unit more than there are messages; avc_to_annexb
-- moves by four bytes or more in each round and has one unit more than there are bytes; perform_credssp
-- has eleven rounds, after which the source stops; the fuel of
-- perform_connection and of reactivate is an argument, since how often they go round is up to the connector
-- and the server, and no theorem says that they end or that a run of the session ends.
--
-- Not modelled: the opening of a session and its page API (Session::connect, connect_redirected), whose
-- code is calls of other packages; the cursors of the canvases, audio, the routes and the command line of
-- the server, the decoders of graphics (other packages), the fork crates/ironrdp-rdpsnd of another
-- project's crate, the JavaScript.
pub mod Canvas
pub mod Clipboard
pub mod Framed
pub mod Gfx
pub mod Monitors
pub mod Pages
pub mod Prelude
pub mod Rail
pub mod Redirect
pub mod Relay
pub mod RunLoop
pub mod Session
