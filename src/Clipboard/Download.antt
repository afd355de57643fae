-- ===== src/Clipboard/Download.antt =====
-- wasm/src/clipboard.rs: the transfer of a file from a remote that answers the requests.
use wasm_rdp.Prelude.{
  ℕ, zero, suc, ◌+◌, ◌-◌, ◌≤◌, ◌<◌, ◌≡◌, refl, sym, ap, ◌∙◌, ◌⊎◌, inl, inr, min, Bool, true, false,
  not_zero, Option, some, List, [], ◌∷◌, ◌++◌, length, length-take, take, drop, leb, leb→le, le→leb,
  gt→leb, ==_refl, if◌then◌else◌, arith,
}
use wasm_rdp.Clipboard.{
  Text, chunk_size, FileTransferState, awaiting_data, FileContentsRequest, FileContentsResponse,
  Effect, send_file_contents_request, download_file, Backend, did, lookup, remove, insert,
  alloc_stream_id, request_file_size, request_file_range,
}
use wasm_rdp.Clipboard.Handlers.{Cliprdr, on_file_contents_response}

next_take : (p c : ℕ) (x : ℕ) (xs : List ℕ) → x ∷ take (p + c) xs ≡ take (suc p + c) (x ∷ xs)
next_take p c x xs = ap (λ n. take n (x ∷ xs)) shift
  where
    shift : suc (p + c) ≡ suc p + c
    shift = omega arith

take_nothing : (n : ℕ) → ◌≡◌ {A = List ℕ} [] (take n [])
take_nothing zero = refl
take_nothing (suc n) = refl

take_more : (p c : ℕ) (xs : List ℕ) → take p xs ++ take c (drop p xs) ≡ take (p + c) xs
take_more zero c xs = ap (λ n. take n xs) plain
  where
    plain : c ≡ 0 + c
    plain = omega arith
take_more (suc p) c [] = sym (take_nothing c) ∙ take_nothing (suc p + c)
take_more (suc p) c (x ∷ xs) = ap (λ t. x ∷ t) (take_more p c xs) ∙ next_take p c x xs

take_all : (n : ℕ) (xs : List ℕ) → length xs ≤ n → take n xs ≡ xs
take_all zero [] h = refl
take_all (suc n) [] h = refl
take_all zero (x ∷ xs) h = absurd (omega arith)
take_all (suc n) (x ∷ xs) h = ap (λ t. x ∷ t) (take_all n xs (omega arith))

lookup-insert :
    (id : ℕ) (state : FileTransferState) (m : List (ℕ × FileTransferState))
    → lookup id (insert id state m) ≡ some state
unfolding lookup insert
lookup-insert id state m = rw (==_refl id)

-- A remote that has the file: it answers a size with the file's, in the package's coding, and a range with
-- its bytes.
module _ (P : Cliprdr) (size_bytes : ℕ → List ℕ) (content : List ℕ) where
  abbrev pub answer : FileContentsRequest → FileContentsResponse
  answer request = record {
    stream_id = request.stream_id;
    is_error = false;
    payload =
        if request.is_size
        then size_bytes (length content)
        else take (request.requested_size) (drop (request.position) content);
  }

  abbrev pub answered : List Effect → Backend → Backend
  answered (send_file_contents_request request ∷ _) b =
      on_file_contents_response P (answer request) b
  answered _ b = b

  -- The remote answers the latest request, `n` times.
  unfoldable pub serve : ℕ → Backend → Backend
  serve zero b = b
  serve (suc n) b = serve n (answered (b.effects) b)

  -- The last thing done is the download of the file, under its name.
  abbrev pub Downloaded : Text → Backend → Type 0
  Downloaded name b = (older : List Effect) × (b.effects ≡ download_file name content ∷ older)

  module _ (index : ℕ) (name : Text) (data_id : Option ℕ) where
    -- The first `p` bytes are there, and the next ones are requested.
    record Receiving (p : ℕ) (b : Backend) : Type 0 where
      id : ℕ
      older : List Effect
      transfer :
          lookup id (b.file_transfers)
          ≡ some (awaiting_data index name (length content) (take p content) data_id)
      requested :
          b.effects
          ≡ send_file_contents_request (record {
            stream_id = id;
            index = index;
            is_size = false;
            position = p;
            requested_size = min (length content - p) chunk_size;
            data_id = data_id;
          })
            ∷ older

    range-Receiving :
        (p : ℕ) (b : Backend)
        → p < length content
        → Receiving p (request_file_range index name (length content) (take p content) data_id b)
    unfolding request_file_range alloc_stream_id
    range-Receiving p b h =
        let held : length (take p content) ≡ p = omega (arith, length-take p content) in
        rw (held, not_zero (min (length content - p) chunk_size) (omega arith))
          (record {
            id = b.next_stream_id;
            older = b.effects;
            transfer =
                lookup-insert (b.next_stream_id)
                  (awaiting_data index name (length content) (take p content) data_id)
                  (b.file_transfers);
            requested = refl;
          })

    -- What the code does with the range that answers.
    after_range : ℕ → Backend → Backend
    after_range q b =
        if leb (length content) (length (take q content))
        then did (download_file name (take q content)) b
        else request_file_range index name (length content) (take q content) data_id b

    range_answered :
        (p : ℕ) (b : Backend) (receiving : Receiving p b)
        → answered (b.effects) b
          ≡ after_range
              (p + min (length content - p) chunk_size)
              (record b { file_transfers = remove (receiving.id) (b.file_transfers) })
    unfolding on_file_contents_response after_range
    range_answered p b receiving =
        ap (λ es. answered es b) (receiving.requested)
        ∙ rw (receiving.transfer, take_more p (min (length content - p) chunk_size) content)

    -- A round ends with the file downloaded, or with one more chunk.
    round :
        (p : ℕ) (b : Backend)
        → p < length content
        → Receiving p b
        → Downloaded name (answered (b.effects) b)
          ⊎ (Receiving (p + chunk_size) (answered (b.effects) b)
              × (p + chunk_size < length content))
    unfolding after_range
    round p b h receiving =
        rw (range_answered p b receiving) (go (leb (length content) (p + chunk_size)) refl)
      where
        next : Backend
        next = record b { file_transfers = remove (receiving.id) (b.file_transfers) }

        go :
            (last : Bool)
            → leb (length content) (p + chunk_size) ≡ last
            → Downloaded name (after_range (p + min (length content - p) chunk_size) next)
              ⊎ (Receiving
                    (p + chunk_size)
                    (after_range (p + min (length content - p) chunk_size) next)
                  × (p + chunk_size < length content))
        go true e =
            let all : p + min (length content - p) chunk_size ≡ length content =
              omega (arith, leb→le (length content) (p + chunk_size) e) in
            inl (
              b.effects,
              rw (
                all,
                take_all (length content) content (omega arith),
                le→leb (length content) (length content) (omega arith),
              ),
            )
        go false e =
            let more : p + chunk_size < length content = ground arith in
            let chunk : p + min (length content - p) chunk_size ≡ p + chunk_size =
              omega (arith, more) in
            let held : length (take (p + chunk_size) content) ≡ p + chunk_size =
              omega (arith, more, length-take (p + chunk_size) content) in
            inr (
              rw (chunk, held, gt→leb (length content) (p + chunk_size) more)
                  (range-Receiving (p + chunk_size) next more),
              more,
            )

    -- The backend with the size's transfer taken out of the map again.
    sized : Backend → Backend
    unfolding request_file_size
    sized b =
        let asked = request_file_size index name data_id b in
        record asked { file_transfers = remove (b.next_stream_id) (asked.file_transfers) }
