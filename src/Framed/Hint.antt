-- ===== src/Framed/Hint.antt =====
-- wasm/src/framed.rs: `read_by_hint`, for a hint that more bytes do not change.
use wasm_rdp.Prelude.{
  ℕ, zero, suc, ◌≤◌, ◌<◌, ◌≡◌, refl, sym, ap, ◌∙◌, ◌⊎◌, inl, inr, List, ◌++◌, append-nil, length,
  take, not_zero, arith,
}
use wasm_rdp.Framed.{
  WasmFramed, Run, ok, Found, find_error, not_yet, size, take_pdu, hint_loop, read_by_hint,
}
use wasm_rdp.Framed.Fill.{
  available, stream, Same, Same_refl, Same_trans, fill_buf-Fills, fill_to_enough, After,
  split_to-stream,
}

-- What a hint finds in a prefix it finds in the whole.
pub record IsStable (find_size : List ℕ → Found) : Type 0 where
  pub keeps_error : (xs ys : List ℕ) → find_size xs ≡ find_error → find_size (xs ++ ys) ≡ find_error
  pub keeps_size : (xs ys : List ℕ) (n : ℕ) → find_size xs ≡ size n → find_size (xs ++ ys) ≡ size n

Found-cases : (x : Found) → (x ≡ find_error) ⊎ ((x ≡ not_yet) ⊎ ((n : ℕ) × (x ≡ size n)))
Found-cases find_error = inl refl
Found-cases not_yet = inr (inl refl)
Found-cases (size n) = inr (inr (n, refl))

same_size : (m n : ℕ) → size m ≡ size n → m ≡ n
same_size m n e = ground arith

size_or_error : (n : ℕ) → find_error ≡ size n → ⊥
size_or_error n e = ground arith

size_or_none : (n : ℕ) → not_yet ≡ size n → ⊥
size_or_none n e = ground arith

module _ (find_size : List ℕ → Found) (stable : IsStable find_size) where
  abbrev Takes : ℕ → WasmFramed → Run (List ℕ) × WasmFramed → Type 0
  Takes n f out = (g : WasmFramed) × (out ≡ (ok (take n (stream f)), g)) × After n f g

  take_pdu-Takes :
      (n : ℕ) (f g : WasmFramed)
      → Same f g
      → 0 < n
      → n ≤ length (stream f)
      → Takes n f (take_pdu find_size n g)
  take_pdu-Takes n f g same positive fits =
      let (k, run, same', m) = fill_to_enough n g (rw (same.streams) fits) in
      let (l, run', after) = split_to-stream n f k (Same_trans f g k same same') m in
      (l, rw (not_zero n positive, run, run'), after)

  hint_loop-Takes :
      (fuel n : ℕ) (f g : WasmFramed)
      → Same f g
      → length (g.ws_read) < fuel
      → find_size (stream f) ≡ size n
      → 0 < n
      → n ≤ length (stream f)
      → Takes n f (hint_loop find_size fuel g)
  unfolding hint_loop
  hint_loop-Takes zero n f g same h found positive fits = absurd (omega arith)
  hint_loop-Takes (suc fuel) n f g same h found positive fits =
      let found' = ap find_size (same.streams) ∙ found in
      elim (Found-cases (find_size (g.buf))) [
        | inl e ↦
            absurd (
              size_or_error n (sym (stable.keeps_error (g.buf) (available (g.ws_read)) e) ∙ found'))
        | inr (inl e) ↦ elim (fill_buf-Fills g) [
          | inl (k, run, same', less, _) ↦
              rw (e, run)
                (hint_loop-Takes fuel n f k (Same_trans f g k same same') (omega arith) found
                  positive fits)
          | inr (k, run, none_left) ↦
              let whole : find_size (stream g) ≡ find_size (g.buf) =
                rw (none_left, append-nil (g.buf)) refl in
              absurd (size_or_none n (sym e ∙ (sym whole ∙ found')))
        ]
        | inr (inr (m, e)) ↦
            let m_n =
              same_size m n
                (sym (stable.keeps_size (g.buf) (available (g.ws_read)) m e) ∙ found') in
            rw (e, m_n) (take_pdu-Takes n f g same positive fits)
      ]

  -- For a hint that finds in a prefix what it finds in the whole, `read_by_hint` gives the PDU of the size
  -- that the hint finds in the socket's bytes, if the PDU is all there, however the bytes are cut into
  -- messages, and leaves the bytes behind it.
  pub read_by_hint-stream :
      (n : ℕ) (f : WasmFramed)
      → find_size (stream f) ≡ size n
      → 0 < n
      → n ≤ length (stream f)
      → (g : WasmFramed) × (read_by_hint find_size f ≡ (ok (take n (stream f)), g)) × After n f g
  unfolding read_by_hint
  read_by_hint-stream n f found positive fits =
      hint_loop-Takes (suc (length (f.ws_read))) n f f (Same_refl f) (omega arith) found positive
        fits
