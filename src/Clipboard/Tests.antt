-- ===== src/Clipboard/Tests.antt =====
-- wasm/src/clipboard.rs: the theorems at concrete inputs.
use wasm_rdp.Prelude.{
  ℕ, ◌≤◌, ◌<◌, ◌≡◌, refl, true, false, Option, none, some, List, [], ◌∷◌, length, get_elem?, take,
  drop, ◌==◌, returned, panicked, arith,
}
use wasm_rdp.Clipboard.{
  Text, FileContentsRequest, FileContents, size, FileContentsResponse, FormatData, unicode_string,
  ClipboardFormat, send_initiate_paste, send_format_data, send_file_contents_response,
  write_clipboard_text, Backend, new, did, lookup,
}
use wasm_rdp.Clipboard.Handlers.{
  Cliprdr, set_pending_clipboard, any_id, on_remote_copy, on_format_data_request,
  on_format_data_response, on_file_contents_response, on_file_contents_request,
}
use wasm_rdp.Clipboard.Isolation.{on_file_contents_response-lookup}
use wasm_rdp.Clipboard.Serve.{on_file_contents_request-slice}
use wasm_rdp.Clipboard.Paste.{text_response, on_remote_copy-text, set_pending_clipboard-text}

-- Sizes of one byte.
abbrev one_byte_size : List ℕ → Option ℕ
one_byte_size (n ∷ []) = some n
one_byte_size _ = none

abbrev packages : Cliprdr
packages = record {
  cf_unicodetext = 13;
  cf_dib = 8;
  cf_dibv5 = 17;
  is_file_list = λ name. length name == 20;
  png_to_cf_dibv5 = λ bytes. some bytes;
  dibv5_to_png = λ bytes. some bytes;
  dib_to_png = λ bytes. none;
  data_as_size = one_byte_size;
}

abbrev backend : Backend
unfolding new
backend = new true true

abbrev name : Text
name = 0x61 ∷ []

abbrev file : List ℕ
file = 1 ∷ 2 ∷ 3 ∷ []

abbrev bad_response : FileContentsResponse
bad_response = record { stream_id = 7; is_error = true; payload = [] }

on_file_contents_response-lookup_example :
    lookup 3 ((on_file_contents_response packages bad_response backend).file_transfers)
    ≡ lookup 3 (backend.file_transfers)
unfolding backend
on_file_contents_response-lookup_example =
    on_file_contents_response-lookup packages bad_response 3 backend (ground arith) (ground arith)

abbrev range : FileContentsRequest
range = record {
  stream_id = 1;
  index = 0;
  is_size = false;
  position = 5;
  requested_size = 4;
  data_id = none;
}

abbrev sharing : Backend
sharing = record backend { pending_files = (name, file) ∷ [] }

on_file_contents_request-slice_example :
    (sharing.enable_file ≡ false
      → on_file_contents_request packages range sharing
        ≡ returned (did (send_file_contents_response (FileContents.error 1)) sharing))
    × (sharing.enable_file ≡ true
        → get_elem? (sharing.pending_files) 0 ≡ none
        → on_file_contents_request packages range sharing
          ≡ returned (did (send_file_contents_response (FileContents.error 1)) sharing))
    × ((name : Text) (bytes : List ℕ)
        → sharing.enable_file ≡ true
        → get_elem? (sharing.pending_files) 0 ≡ some (name, bytes)
        → (range.is_size ≡ true
            → on_file_contents_request packages range sharing
              ≡ returned (did (send_file_contents_response (size 1 (length bytes))) sharing))
          × (range.is_size ≡ false
              → 5 ≤ length bytes
              → on_file_contents_request packages range sharing
                ≡ returned (
                    did
                      (send_file_contents_response
                        (FileContents.contents 1 (take 4 (drop 5 bytes))))
                      sharing))
          × (range.is_size ≡ false
              → length bytes < 5
              → on_file_contents_request packages range sharing ≡ panicked))
on_file_contents_request-slice_example =
    on_file_contents_request-slice packages range sharing (omega arith)

abbrev formats : List ClipboardFormat
formats = record { id = 1; name = none } ∷ record { id = 13; name = none } ∷ []

on_remote_copy-text_example :
    on_format_data_response packages
      (text_response (0x48 ∷ 0x1F600 ∷ []))
      (on_remote_copy packages formats backend)
    ≡ record backend {
      pending_format = none;
      effects =
          write_clipboard_text (0x48 ∷ 0x1F600 ∷ []) ∷ send_initiate_paste 13 ∷ backend.effects;
    }
unfolding any_id backend
on_remote_copy-text_example =
    on_remote_copy-text packages formats 0x48 (0x1F600 ∷ []) backend refl refl (ground arith)
      (ground arith)

set_pending_clipboard-text_example :
    (backend.enable_text ≡ true
      → on_format_data_request packages 13 (set_pending_clipboard packages (0x48 ∷ []) backend)
        ≡ did
            (send_format_data (unicode_string (0x48 ∷ [])))
            (set_pending_clipboard packages (0x48 ∷ []) backend))
    × (backend.enable_text ≡ false
        → on_format_data_request packages 17 (set_pending_clipboard packages (0x48 ∷ []) backend)
          ≡ did
              (send_format_data FormatData.error)
              (set_pending_clipboard packages (0x48 ∷ []) backend))
set_pending_clipboard-text_example = set_pending_clipboard-text packages (0x48 ∷ []) 17 backend
