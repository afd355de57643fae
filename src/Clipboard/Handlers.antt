-- ===== src/Clipboard/Handlers.antt =====
-- wasm/src/clipboard.rs: the backend's handlers, over the packages that they use.
use wasm_rdp.Prelude.{
  ℕ, ◌+◌, ◌-◌, ◌%◌, ◌^◌, min, Bool, true, false, not, ◌||◌, ◌&&◌, Option, none, some, List, [], ◌∷◌,
  ◌++◌, length, get_elem?, take, drop, ltb, leb, ◌==◌, if◌then◌else◌, Outcome, returned, panicked,
  and_then,
}
use wasm_rdp.Clipboard.{
  Text, FileTransferState, awaiting_size, awaiting_data, FileContentsRequest, FileContents, size,
  FormatData, unicode_string, FileContentsResponse, FormatDataResponse, ClipboardFormat,
  send_initiate_copy, send_initiate_paste, send_format_data, send_file_contents_response,
  write_clipboard_text, write_clipboard_image, download_file, notify_remote_clipboard_has_files,
  Backend, did, lookup, remove, request_file_size, request_file_range, from_utf16le,
}

-- What is used of the packages: the identifiers of formats, the name of the file list's format, and the
-- codecs of images and of sizes.
pub record Cliprdr : Type 0 where
  pub cf_unicodetext : ℕ
  pub cf_dib : ℕ
  pub cf_dibv5 : ℕ
  pub is_file_list : Text → Bool
  pub png_to_cf_dibv5 : List ℕ → Option (List ℕ)
  pub dibv5_to_png : List ℕ → Option (List ℕ)
  pub dib_to_png : List ℕ → Option (List ℕ)
  pub data_as_size : List ℕ → Option ℕ

module _ (P : Cliprdr) where
  open P use {
    cf_unicodetext, cf_dib, cf_dibv5, is_file_list, png_to_cf_dibv5, dibv5_to_png, dib_to_png,
    data_as_size,
  }

  unfoldable pub set_pending_clipboard : Text → Backend → Backend
  set_pending_clipboard text b =
      did (send_initiate_copy (cf_unicodetext ∷ []))
        (record b { pending_image = none; pending_text = some text })

  unfoldable pub set_pending_clipboard_image : List ℕ → Backend → Backend
  set_pending_clipboard_image png_bytes b =
      did (send_initiate_copy (cf_dibv5 ∷ []))
        (record b { pending_text = none; pending_image = some png_bytes })

  unfoldable pub any_id : ℕ → List ClipboardFormat → Bool
  any_id id [] = false
  any_id id (f ∷ fs) = f.id == id || any_id id fs

  unfoldable pub pick_image_format : List ClipboardFormat → Option ℕ
  unfolding any_id
  pick_image_format formats =
      if any_id cf_dibv5 formats
      then some cf_dibv5
      else (if any_id cf_dib formats then some cf_dib else none)

  abbrev pub is_some {ℓ} : {A : Type ℓ} → Option A → Bool
  is_some none = false
  is_some (some _) = true

  unfoldable pub on_request_format_list : Backend → Backend
  on_request_format_list b =
      did
        (send_initiate_copy (
          (if is_some (b.pending_text) then (cf_unicodetext ∷ []) else [])
          ++ (if is_some (b.pending_image) then (cf_dibv5 ∷ []) else [])))
        b

  abbrev pub is_named : Option Text → Bool
  is_named none = false
  is_named (some name) = is_file_list name

  -- The first format that is named as the file list.
  unfoldable pub find_file_format : List ClipboardFormat → Option ℕ
  find_file_format [] = none
  find_file_format (f ∷ fs) =
      let later = find_file_format fs in if is_named (f.name) then some (f.id) else later

  abbrev pub offer_files : List ClipboardFormat → Backend → Backend
  offer_files formats b =
      if b.enable_file
      then (elim (find_file_format formats) [
        | none ↦ b
        | some id ↦
            did notify_remote_clipboard_has_files
              (record b { pending_remote_file_format = some id })
      ])
      else b

  abbrev pub initiate_paste : ℕ → Backend → Backend
  initiate_paste id b = did (send_initiate_paste id) (record b { pending_format = some id })

  unfoldable pub on_remote_copy : List ClipboardFormat → Backend → Backend
  on_remote_copy available_formats b =
      if b.enable_text
      then (if any_id cf_unicodetext available_formats
          then initiate_paste cf_unicodetext b
          else (elim (pick_image_format available_formats) [
            | some img_fmt ↦ initiate_paste img_fmt b
            | none ↦ offer_files available_formats b
          ]))
      else offer_files available_formats b

  abbrev pub text_or_default : Option Text → Text
  text_or_default none = []
  text_or_default (some text) = text

  abbrev pub or_error : Option (List ℕ) → FormatData
  or_error none = FormatData.error
  or_error (some dib) = FormatData.contents dib

  abbrev pub image_response : Option (List ℕ) → FormatData
  image_response none = FormatData.error
  image_response (some png) = or_error (png_to_cf_dibv5 png)

  unfoldable pub on_format_data_request : ℕ → Backend → Backend
  on_format_data_request format b =
      did
        (send_format_data (
          if not (b.enable_text)
          then FormatData.error
          else (if format == cf_unicodetext
              then unicode_string (text_or_default (b.pending_text))
              else (if format == cf_dibv5
                  then image_response (b.pending_image)
                  else FormatData.error))))
        b

  abbrev pub write_text : Text → Backend → Backend
  write_text [] b = b
  write_text (c ∷ cs) b = did (write_clipboard_text (c ∷ cs)) b

  abbrev pub write_image : Option (List ℕ) → Backend → Backend
  write_image none b = b
  write_image (some png) b = did (write_clipboard_image png) b

  abbrev pub write_pending : Option ℕ → List ℕ → Backend → Backend
  write_pending none bytes b = b
  write_pending (some format) bytes b =
      if format == cf_unicodetext
      then write_text (from_utf16le bytes) b
      else (if format == cf_dibv5
          then write_image (dibv5_to_png bytes) b
          else (if format == cf_dib then write_image (dib_to_png bytes) b else b))

  unfoldable pub on_format_data_response : FormatDataResponse → Backend → Backend
  on_format_data_response response b =
      let taken = record b { pending_format = none } in
      if response.is_error then taken else write_pending (b.pending_format) (response.payload) taken

  -- `for (i, file) in files.iter().enumerate()` from `i`
  unfoldable pub request_sizes : ℕ → List Text → Option ℕ → Backend → Backend
  request_sizes i [] clip_data_id b = b
  request_sizes i (name ∷ names) clip_data_id b =
      request_sizes (i + 1) names clip_data_id (request_file_size (i % 2 ^ 32) name clip_data_id b)

  unfoldable pub on_remote_file_list : List Text → Option ℕ → Backend → Backend
  unfolding request_sizes
  on_remote_file_list names clip_data_id b = request_sizes 0 names clip_data_id b

  abbrev pub sized_file : ℕ → Text → Option ℕ → Option ℕ → Backend → Backend
  sized_file file_index name data_id none b = b
  sized_file file_index name data_id (some total) b =
      request_file_range file_index name total [] data_id b

  -- The next step of a transfer that was taken out of the map.
  abbrev pub continue_transfer : List ℕ → Option FileTransferState → Backend → Backend
  continue_transfer bytes none b = b
  continue_transfer bytes (some (awaiting_size file_index name data_id)) b =
      sized_file file_index name data_id (data_as_size bytes) b
  continue_transfer bytes (some (awaiting_data file_index name total received data_id)) b =
      if leb total (length (received ++ bytes))
      then did (download_file name (received ++ bytes)) b
      else request_file_range file_index name total (received ++ bytes) data_id b

  unfoldable pub on_file_contents_response : FileContentsResponse → Backend → Backend
  on_file_contents_response response b =
      let removed = record b { file_transfers = remove (response.stream_id) (b.file_transfers) } in
      if response.is_error
      then removed
      else continue_transfer (response.payload) (lookup (response.stream_id) (b.file_transfers))
          removed

  -- `data[start..end].to_vec()`
  unfoldable pub slice : ℕ → ℕ → List ℕ → Outcome (List ℕ)
  slice start end bytes =
      if ltb end start || ltb (length bytes) end
      then panicked
      else returned (take (end - start) (drop start bytes))

  -- `usize` has 32 bits: `position as usize` drops the higher ones, and the sum wraps.
  unfoldable pub file_response : FileContentsRequest → List ℕ → Outcome FileContents
  unfolding slice
  file_response request bytes =
      let start = request.position % 2 ^ 32 in
      let end = min ((start + request.requested_size) % 2 ^ 32) (length bytes) in
      if request.is_size
      then returned (size (request.stream_id) (length bytes))
      else and_then (slice start end bytes)
          λ part. returned (FileContents.contents (request.stream_id) part)

  abbrev pub answer_request : FileContentsRequest → Option (Text × List ℕ) → Outcome FileContents
  answer_request request none = returned (FileContents.error (request.stream_id))
  answer_request request (some (name, bytes)) = file_response request bytes

  unfoldable pub on_file_contents_request : FileContentsRequest → Backend → Outcome Backend
  on_file_contents_request request b =
      if not (b.enable_file)
      then returned (did (send_file_contents_response (FileContents.error (request.stream_id))) b)
      else (and_then (answer_request request (get_elem? (b.pending_files) (request.index)))
          λ response. returned (did (send_file_contents_response response) b))

-- The channel's processor: the page is told of each Format List Response, an order of type 3.
unfoldable pub acknowledges : List ℕ → Bool
acknowledges (a ∷ b ∷ _) = a == 3 && b == 0
acknowledges _ = false
