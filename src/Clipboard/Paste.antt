-- ===== src/Clipboard/Paste.antt =====
-- wasm/src/clipboard.rs: text that crosses the clipboard.
use wasm_rdp.Prelude.{
  ℕ, ◌<◌, ◌≡◌, true, false, none, List, [], ◌∷◌, ◌++◌, All, IsScalar, encode_utf16, unit_bytes,
  null_terminated, ==_refl,
}
use wasm_rdp.Clipboard.{
  Text, FormatDataResponse, ClipboardFormat, FormatData, unicode_string, send_initiate_paste,
  send_format_data, write_clipboard_text, Backend, did, from_utf16le,
}
use wasm_rdp.Clipboard.Handlers.{
  Cliprdr, set_pending_clipboard, any_id, on_remote_copy, on_format_data_request,
  on_format_data_response,
}

-- The remote's answer with a text: UTF-16LE and a terminator.
abbrev pub text_response : Text → FormatDataResponse
text_response text = record {
  is_error = false;
  payload = unit_bytes (encode_utf16 text) ++ 0 ∷ 0 ∷ [];
}

module _ (P : Cliprdr) where
  open P use {cf_unicodetext}

  -- A text that is not empty and has no U+0000, which the remote copies with or without other formats, is
  -- asked for and arrives in the page's clipboard as it is, where text is enabled: the answer's UTF-16LE is
  -- read up to its terminator. Nothing else happens to the backend, and no format is pending afterwards.
  pub on_remote_copy-text :
      (formats : List ClipboardFormat) (c : ℕ) (cs : Text) (b : Backend)
      → b.enable_text ≡ true
      → any_id P cf_unicodetext formats ≡ true
      → All IsScalar (c ∷ cs)
      → All (λ x. 0 < x) (c ∷ cs)
      → on_format_data_response P (text_response (c ∷ cs)) (on_remote_copy P formats b) ≡ record b {
        pending_format = none;
        effects = write_clipboard_text (c ∷ cs) ∷ send_initiate_paste cf_unicodetext ∷ b.effects;
      }
  unfolding on_format_data_response on_remote_copy from_utf16le
  on_remote_copy-text formats c cs b enabled offered scalar nonzero =
      rw (enabled, offered, ==_refl cf_unicodetext, null_terminated (c ∷ cs) [] scalar nonzero)

  -- A text that the page copies is what the remote gets when it pastes text, where text is enabled, and
  -- where text is disabled it gets an error, whatever format it asks for.
  pub set_pending_clipboard-text :
      (text : Text) (format : ℕ) (b : Backend)
      → (b.enable_text ≡ true
          → on_format_data_request P cf_unicodetext (set_pending_clipboard P text b)
            ≡ did (send_format_data (unicode_string text)) (set_pending_clipboard P text b))
        × (b.enable_text ≡ false
            → on_format_data_request P format (set_pending_clipboard P text b)
              ≡ did (send_format_data FormatData.error) (set_pending_clipboard P text b))
  unfolding on_format_data_request set_pending_clipboard
  set_pending_clipboard-text text format b =
      ((λ on. rw (on, ==_refl cf_unicodetext)), λ off. rw off)
