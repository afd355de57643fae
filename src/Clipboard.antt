-- ===== src/Clipboard.antt =====
-- wasm/src/clipboard.rs: the clipboard's backend. The state is the backend with the thread's
-- caches and what it did, the latest first: the messages that it sent to the session and its
-- calls of the page. `Handlers` holds the functions that the packages call, `Download` is about
-- files from the remote, `Serve` about files to it, `Paste` about text and images, `Isolation`
-- about what the handlers leave alone.
pub mod Handlers
pub mod Download
pub mod Isolation
pub mod Serve
pub mod Paste
mod Tests
use wasm_rdp.Prelude.{
  ℕ, zero, suc, ◌+◌, ◌-◌, ◌*◌, ◌%◌, ◌^◌, min, max, Bool, true, false, not, ◌||◌, ◌&&◌, Option, none,
  some, List, [], ◌∷◌, ◌++◌, length, get_elem?, take, drop, ltb, leb, ◌==◌, if◌then◌else◌,
  u16_chunks, until_zero, from_utf16_lossy, Outcome, returned, panicked, and_then,
}

abbrev pub Text : Type 0
Text = List ℕ

abbrev pub chunk_size : ℕ
chunk_size = 4 * 1024 * 1024

pub data FileTransferState : Type 0 where
  awaiting_size : ℕ → Text → Option ℕ → FileTransferState
  awaiting_data : ℕ → Text → ℕ → List ℕ → Option ℕ → FileTransferState

-- The packages' messages. An `i32` index is its 32 bits; the flags are told apart by SIZE.
pub record FileContentsRequest : Type 0 where
  pub stream_id : ℕ
  pub index : ℕ
  pub is_size : Bool
  pub position : ℕ
  pub requested_size : ℕ
  pub data_id : Option ℕ

pub data FileContents : Type 0 where
  error : ℕ → FileContents
  size : ℕ → ℕ → FileContents
  contents : ℕ → List ℕ → FileContents

pub data FormatData : Type 0 where
  error : FormatData
  unicode_string : Text → FormatData
  contents : List ℕ → FormatData

pub record FileContentsResponse : Type 0 where
  pub stream_id : ℕ
  pub is_error : Bool
  pub payload : List ℕ

pub record FormatDataResponse : Type 0 where
  pub is_error : Bool
  pub payload : List ℕ

pub record ClipboardFormat : Type 0 where
  pub id : ℕ
  pub name : Option Text

pub data Effect : Type 0 where
  send_initiate_copy : List ℕ → Effect
  send_initiate_paste : ℕ → Effect
  send_format_data : FormatData → Effect
  send_file_contents_request : FileContentsRequest → Effect
  send_file_contents_response : FileContents → Effect
  send_file_copy : Text → ℕ → Effect
  write_clipboard_text : Text → Effect
  write_clipboard_image : List ℕ → Effect
  download_file : Text → List ℕ → Effect
  notify_remote_clipboard_has_files : Effect

pub record Backend : Type 0 where
  pub pending_format : Option ℕ
  pub next_stream_id : ℕ
  pub file_transfers : List (ℕ × FileTransferState)
  pub enable_text : Bool
  pub enable_file : Bool
  pub pending_text : Option Text
  pub pending_image : Option (List ℕ)
  pub pending_files : List (Text × List ℕ)
  pub pending_remote_file_format : Option ℕ
  pub effects : List Effect

unfoldable pub new : Bool → Bool → Backend
new enable_text enable_file = record {
  pending_format = none;
  next_stream_id = 1;
  file_transfers = [];
  enable_text = enable_text;
  enable_file = enable_file;
  pending_text = none;
  pending_image = none;
  pending_files = [];
  pending_remote_file_format = none;
  effects = [];
}

abbrev pub did : Effect → Backend → Backend
did e b = record b { effects = e ∷ b.effects }

-- The map of transfers.
unfoldable pub lookup : ℕ → List (ℕ × FileTransferState) → Option FileTransferState
lookup id [] = none
lookup id ((k, state) ∷ rest) = if k == id then some state else lookup id rest

unfoldable pub remove : ℕ → List (ℕ × FileTransferState) → List (ℕ × FileTransferState)
remove id [] = []
remove id ((k, state) ∷ rest) =
    let others = remove id rest in if k == id then others else (k, state) ∷ others

unfoldable pub insert :
    ℕ → FileTransferState → List (ℕ × FileTransferState) → List (ℕ × FileTransferState)
unfolding remove
insert id state transfers = (id, state) ∷ remove id transfers

-- `alloc_stream_id`: the identifier, and the next: `wrapping_add(1).max(1)` of a `u32`.
unfoldable pub alloc_stream_id : Backend → ℕ × Backend
alloc_stream_id b =
    (b.next_stream_id, record b { next_stream_id = max ((b.next_stream_id + 1) % 2 ^ 32) 1 })

unfoldable pub request_file_size : ℕ → Text → Option ℕ → Backend → Backend
unfolding alloc_stream_id insert
request_file_size file_index name data_id b =
    let (id, b₁) = alloc_stream_id b in
    let b₂ = record b₁ {
      file_transfers = insert id (awaiting_size file_index name data_id) (b₁.file_transfers);
    } in
    did
      (send_file_contents_request (record {
        stream_id = id;
        index = file_index;
        is_size = true;
        position = 0;
        requested_size = 8;
        data_id = data_id;
      }))
      b₂

unfoldable pub request_file_range : ℕ → Text → ℕ → List ℕ → Option ℕ → Backend → Backend
unfolding alloc_stream_id insert
request_file_range file_index name total bytes data_id b =
    let position = length bytes in
    let chunk = min (total - position) chunk_size in
    let (id, b₁) = alloc_stream_id b in
    let b₂ = record b₁ {
      file_transfers =
          insert id (awaiting_data file_index name total bytes data_id) (b₁.file_transfers);
    } in
    if chunk == 0
    then did (download_file name bytes) b
    else did
        (send_file_contents_request (record {
          stream_id = id;
          index = file_index;
          is_size = false;
          position = position;
          requested_size = chunk;
          data_id = data_id;
        }))
        b₂

-- The page's calls.
unfoldable pub from_utf16le : List ℕ → Text
from_utf16le bytes = from_utf16_lossy (until_zero (u16_chunks bytes))

unfoldable pub trigger_remote_file_download : Backend → Backend
trigger_remote_file_download b = elim (b.pending_remote_file_format) [
  | none ↦ b
  | some id ↦ did (send_initiate_paste id) b
]

unfoldable pub set_pending_clipboard_file : Text → List ℕ → Backend → Backend
set_pending_clipboard_file name bytes b =
    did (send_file_copy name (length bytes))
      (record b { pending_files = (name, bytes) ∷ []; pending_text = none; pending_image = none })
