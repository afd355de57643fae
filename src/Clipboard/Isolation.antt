-- ===== src/Clipboard/Isolation.antt =====
-- wasm/src/clipboard.rs: file transfers beside each other.
use wasm_rdp.Prelude.{
  ℕ, ◌-◌, ◌≡◌, ◌≢◌, refl, ◌∙◌, inl, inr, min, false, Bool-cases, Option, none, some, Option-cases,
  List, [], ◌∷◌, ◌++◌, length, leb, ◌==◌, arith,
}
use wasm_rdp.Clipboard.{
  Text, chunk_size, FileTransferState, awaiting_size, awaiting_data, FileContentsResponse, Backend,
  lookup, remove, insert, alloc_stream_id, request_file_range,
}
use wasm_rdp.Clipboard.Handlers.{Cliprdr, continue_transfer, on_file_contents_response}

apart : (a b : ℕ) → a ≢ b → (a == b) ≡ false
apart a b h = ground arith

lookup-remove :
    (k id : ℕ) (m : List (ℕ × FileTransferState)) → k ≢ id → lookup k (remove id m) ≡ lookup k m
unfolding lookup remove
lookup-remove k id [] h = refl
lookup-remove k id ((j, state) ∷ m) h = elim (Bool-cases (j == id)) [
  | inl here ↦
      let elsewhere : (j == k) ≡ false = ground arith in
      rw (here, elsewhere) (lookup-remove k id m h)
  | inr other ↦ elim (Bool-cases (j == k)) [
    | inl found ↦ rw (other, found)
    | inr later ↦ rw (other, later) (lookup-remove k id m h)
  ]
]

lookup-insert_other :
    (k id : ℕ) (state : FileTransferState) (m : List (ℕ × FileTransferState))
    → k ≢ id
    → lookup k (insert id state m) ≡ lookup k m
unfolding lookup insert
lookup-insert_other k id state m h =
    let elsewhere : (id == k) ≡ false = ground arith in rw elsewhere (lookup-remove k id m h)

-- The transfer of stream `k` is as it was.
abbrev Keeps : ℕ → Backend → Backend → Type 0
Keeps k b c = lookup k (c.file_transfers) ≡ lookup k (b.file_transfers)

range-Keeps :
    (k index : ℕ) (name : Text) (total : ℕ) (bytes : List ℕ) (data_id : Option ℕ) (b : Backend)
    → k ≢ b.next_stream_id
    → Keeps k b (request_file_range index name total bytes data_id b)
unfolding request_file_range alloc_stream_id
range-Keeps k index name total bytes data_id b h =
    elim (Bool-cases (min (total - length bytes) chunk_size == 0)) [
      | inl nothing ↦ rw nothing
      | inr more ↦ rw more (
          lookup-insert_other k (b.next_stream_id) (awaiting_data index name total bytes data_id)
            (b.file_transfers) h)
    ]

module _ (P : Cliprdr) where
  continue-Keeps :
      (k : ℕ) (bytes : List ℕ) (state : Option FileTransferState) (b : Backend)
      → k ≢ b.next_stream_id
      → Keeps k b (continue_transfer P bytes state b)
  continue-Keeps k bytes none b h = refl
  continue-Keeps k bytes (some (awaiting_size index name data_id)) b h =
      elim (Option-cases (P.data_as_size bytes)) [
        | inl bad ↦ rw bad
        | inr (total, good) ↦ rw good (range-Keeps k index name total [] data_id b h)
      ]
  continue-Keeps k bytes (some (awaiting_data index name total received data_id)) b h =
      elim (Bool-cases (leb total (length (received ++ bytes)))) [
        | inl all ↦ rw all
        | inr more ↦ rw more (range-Keeps k index name total (received ++ bytes) data_id b h)
      ]

  -- A response to one stream, an error or not, leaves the transfer of every other stream as it was: of
  -- each stream that is not the response's and not the next to be allocated.
  pub on_file_contents_response-lookup :
      (response : FileContentsResponse) (k : ℕ) (b : Backend)
      → k ≢ response.stream_id
      → k ≢ b.next_stream_id
      → lookup k ((on_file_contents_response P response b).file_transfers)
        ≡ lookup k (b.file_transfers)
  unfolding on_file_contents_response
  on_file_contents_response-lookup response k b other fresh =
      let removed : Backend = record b {
        file_transfers = remove (response.stream_id) (b.file_transfers);
      } in
      let kept = lookup-remove k (response.stream_id) (b.file_transfers) other in
      elim (Bool-cases (response.is_error)) [
        | inl failed ↦ rw failed kept
        | inr fine ↦ rw fine (
            continue-Keeps k (response.payload) (lookup (response.stream_id) (b.file_transfers))
              removed fresh
            ∙ kept)
      ]
