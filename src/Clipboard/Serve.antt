-- ===== src/Clipboard/Serve.antt =====
-- wasm/src/clipboard.rs: what the remote gets of the local files.
use wasm_rdp.Prelude.{
  ℕ, zero, suc, ◌+◌, ◌-◌, ◌%◌, ◌^◌, ◌≤◌, ◌<◌, ◌≡◌, refl, ap, ◌∙◌, min, true, false, none, some,
  List, [], ◌∷◌, length, length-drop, get_elem?, take, drop, lt→ltb, ge→ltb, returned, panicked,
  arith,
}
use wasm_rdp.Clipboard.{
  Text, FileContentsRequest, FileContents, size, send_file_contents_response, Backend, did,
}
use wasm_rdp.Clipboard.Handlers.{Cliprdr, slice, file_response, on_file_contents_request}

none_left : (n : ℕ) → ◌≡◌ {A = List ℕ} (take n []) []
none_left zero = refl
none_left (suc n) = refl

take_clipped : (n : ℕ) (xs : List ℕ) → take (min n (length xs)) xs ≡ take n xs
take_clipped zero xs = ap (λ k. take k xs) nothing
  where
    nothing : min 0 (length xs) ≡ 0
    nothing = omega arith
take_clipped (suc n) [] = none_left (min (suc n) 0)
take_clipped (suc n) (x ∷ xs) = ap (λ k. take k (x ∷ xs)) step ∙ ap (λ t. x ∷ t) (take_clipped n xs)
  where
    step : min (suc n) (suc (length xs)) ≡ suc (min n (length xs))
    step = omega arith

module _ (P : Cliprdr) where
  slice_in :
      (p r : ℕ) (bytes : List ℕ)
      → p ≤ length bytes
      → slice P p (min (p + r) (length bytes)) bytes ≡ returned (take r (drop p bytes))
  unfolding slice
  slice_in p r bytes h =
      let clipped : min (p + r) (length bytes) - p ≡ min r (length (drop p bytes)) =
        omega (arith, length-drop p bytes) in
      rw (
        ge→ltb (min (p + r) (length bytes)) p (omega arith),
        ge→ltb (length bytes) (min (p + r) (length bytes)) (omega arith),
        clipped,
        take_clipped r (drop p bytes),
      )

  slice_past :
      (p r : ℕ) (bytes : List ℕ)
      → length bytes < p
      → slice P p (min (p + r) (length bytes)) bytes ≡ panicked
  unfolding slice
  slice_past p r bytes h = rw (lt→ltb (min (p + r) (length bytes)) p (omega arith))

  -- The answers to the remote's request for a local file, where its position and its end fit 32 bits:
  -- an error if file transfer is off or there is no such file; the file's size; the bytes from the
  -- position, as many as are asked for and are there; but a range whose position is past the file's end
  -- makes the client panic.
  pub on_file_contents_request-slice :
      (request : FileContentsRequest) (b : Backend)
      → request.position + request.requested_size < 2 ^ 32
      → (b.enable_file ≡ false
          → on_file_contents_request P request b
            ≡ returned
                (did (send_file_contents_response (FileContents.error (request.stream_id))) b))
        × (b.enable_file ≡ true
            → get_elem? (b.pending_files) (request.index) ≡ none
            → on_file_contents_request P request b
              ≡ returned
                  (did (send_file_contents_response (FileContents.error (request.stream_id))) b))
        × ((name : Text) (bytes : List ℕ)
            → b.enable_file ≡ true
            → get_elem? (b.pending_files) (request.index) ≡ some (name, bytes)
            → (request.is_size ≡ true
                → on_file_contents_request P request b
                  ≡ returned (
                      did
                        (send_file_contents_response (size (request.stream_id) (length bytes)))
                        b))
              × (request.is_size ≡ false
                  → request.position ≤ length bytes
                  → on_file_contents_request P request b
                    ≡ returned (
                        did
                          (send_file_contents_response (
                            FileContents.contents
                              (request.stream_id)
                              (take (request.requested_size) (drop (request.position) bytes))))
                          b))
              × (request.is_size ≡ false
                  → length bytes < request.position
                  → on_file_contents_request P request b ≡ panicked))
  unfolding on_file_contents_request file_response
  on_file_contents_request-slice request b small =
      let start : request.position % 2 ^ 32 ≡ request.position = omega arith in
      let end : (request.position + request.requested_size) % 2 ^ 32
          ≡ request.position + request.requested_size =
        omega arith in
      (
        (λ off. rw off),
        (λ on missing. rw (on, missing)),
        λ name bytes on found. (
          (λ asked. rw (on, found, asked)),
          (λ range inside. rw (
            on,
            found,
            range,
            start,
            end,
            slice_in (request.position) (request.requested_size) bytes inside,
          )),
          λ range past. rw (
            on,
            found,
            range,
            start,
            end,
            slice_past (request.position) (request.requested_size) bytes past,
          ),
        ),
      )
