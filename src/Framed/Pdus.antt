-- ===== src/Framed/Pdus.antt =====
-- wasm/src/framed.rs: `read_pdu` by the bytes alone, not by how they are cut into messages.
use wasm_rdp.Prelude.{
  ℕ, ◌+◌, ◌*◌, ◌%◌, ◌≤◌, ◌<◌, ◌≡◌, refl, inl, inr, Option, none, some, Option-cases, List, [], ◌∷◌,
  length, take, ltb, ◌==◌, not_zero, Bool-cases, if◌then◌else◌, arith,
}
use wasm_rdp.Framed.{
  WasmFramed, Reason, unknown_action, invalid_length, Run, ok, bail, ◌>>=◌, ◌>>◌, pure, fail,
  fill_to, split_to, Action, fast_path, x224, Read, pdu_length, read_pdu,
}
use wasm_rdp.Framed.Fill.{
  ending, stream, Same, Same_trans, fill_to_enough, fill_to_short, After, split_to-stream,
  byte_at-stream,
}

-- What a PDU's header says: its length, or an error; it may be incomplete.
pub data Header : Type 0 where
  incomplete : Header
  refused : Reason → Header
  sized : Action → ℕ → Header

abbrev x224_header : List ℕ → Header
x224_header (high ∷ low ∷ _) = sized x224 (high * 256 + low)
x224_header _ = incomplete

abbrev fast_path_header : ℕ → List ℕ → Header
fast_path_header len_byte [] = if ltb len_byte 128 then sized fast_path len_byte else incomplete
fast_path_header len_byte (low ∷ _) =
    sized fast_path (if ltb len_byte 128 then len_byte else len_byte % 128 * 256 + low)

module _ (from_fp_output_header : ℕ → Option Action) where
  abbrev by_action : ℕ → ℕ → List ℕ → Option Action → Header
  by_action first_byte b rest none = refused (unknown_action first_byte)
  by_action first_byte b rest (some x224) = x224_header rest
  by_action first_byte b rest (some fast_path) = fast_path_header b rest

  -- The header of the PDU that stands first in the bytes.
  unfoldable pub header : List ℕ → Header
  header (first_byte ∷ b ∷ rest) = by_action first_byte b rest (from_fp_output_header first_byte)
  header _ = incomplete

  abbrev pub Out : Type 0
  Out = Run (Action × List ℕ) × WasmFramed

  -- What reading gives for a header: a PDU of that length that is there is given whole; a PDU of no
  -- length and an unknown first byte are errors; and too few bytes are an error by the socket's end.
  unfoldable pub Gives : WasmFramed → Header → Out → Type 0
  Gives f incomplete out = (g : WasmFramed) × (out ≡ (bail (ending (f.ws_read)), g))
  Gives f (refused e) out = (g : WasmFramed) × (out ≡ (bail e, g))
  Gives f (sized action len) out =
      (len ≡ 0 → (g : WasmFramed) × (out ≡ (bail invalid_length, g)))
      × (0 < len
          → length (stream f) < len
          → (g : WasmFramed) × (out ≡ (bail (ending (f.ws_read)), g)))
      × (0 < len
          → len ≤ length (stream f)
          → (g : WasmFramed) × (out ≡ (ok (action, take len (stream f)), g)) × After len f g)

  -- The end of `read_pdu`, once the length is known.
  abbrev body : Action → ℕ → Read (Action × List ℕ)
  body action len =
      if len == 0
      then fail invalid_length
      else (do fill_to len; payload ← split_to len; pure (action, payload))

  body-Gives :
      (action : Action) (len : ℕ) (f g : WasmFramed)
      → Same f g
      → Gives f (sized action len) (body action len g)
  unfolding Gives
  body-Gives action len f g same = (
    (λ e. (g, rw e)),
    (λ positive short.
        let (k, run) = fill_to_short len g (rw (same.streams) short) in
        (k, rw (not_zero len positive, run, same.endings))),
    λ positive fits.
        let (k, run, same', m) = fill_to_enough len g (rw (same.streams) fits) in
        let (l, run', after) = split_to-stream len f k (Same_trans f g k same same') m in
        (l, rw (not_zero len positive, run, run'), after),
  )

  -- From the action on.
  abbrev by_length : Action → WasmFramed → Out
  by_length action = (do len ← pdu_length from_fp_output_header action; body action len)

  action-Gives :
      (action : Action) (first_byte b : ℕ) (rest : List ℕ) (f g : WasmFramed)
      → Same f g
      → 2 ≤ length (g.buf)
      → stream f ≡ first_byte ∷ b ∷ rest
      → Gives f (by_action first_byte b rest (some action)) (by_length action g)
  unfolding pdu_length Gives
  action-Gives x224 first_byte b (high ∷ low ∷ rest) f g same m e =
      let (k, run, same', m') = fill_to_enough 4 g (rw (same.streams, e) (omega arith)) in
      let same'' = Same_trans f g k same same' in
      rw
        (
          run,
          byte_at-stream 2 f k high same'' (omega arith) (rw e),
          byte_at-stream 3 f k low same'' (omega arith) (rw e),
        )
        (body-Gives x224 (high * 256 + low) f k same'')
  action-Gives x224 first_byte b [] f g same m e =
      let (k, run) = fill_to_short 4 g (rw (same.streams, e) (omega arith)) in
      (k, rw (run, same.endings))
  action-Gives x224 first_byte b (high ∷ []) f g same m e =
      let (k, run) = fill_to_short 4 g (rw (same.streams, e) (omega arith)) in
      (k, rw (run, same.endings))
  action-Gives fast_path first_byte b [] f g same m e =
      let second = byte_at-stream 1 f g b same (omega arith) (rw e) in
      elim (Bool-cases (ltb b 128)) [
        | inl small ↦ rw (second, small) (body-Gives fast_path b f g same)
        | inr large ↦
            let (k, run) = fill_to_short 3 g (rw (same.streams, e) (omega arith)) in
            rw (second, large) (k, rw (run, same.endings))
      ]
  action-Gives fast_path first_byte b (low ∷ rest) f g same m e =
      let second = byte_at-stream 1 f g b same (omega arith) (rw e) in
      elim (Bool-cases (ltb b 128)) [
        | inl small ↦ rw (second, small) (body-Gives fast_path b f g same)
        | inr large ↦
            let (k, run, same', m') = fill_to_enough 3 g (rw (same.streams, e) (omega arith)) in
            let same'' = Same_trans f g k same same' in
            rw (second, large, run, byte_at-stream 2 f k low same'' (omega arith) (rw e))
              (body-Gives fast_path (b % 128 * 256 + low) f k same'')
      ]

  header-Gives :
      (f : WasmFramed) (s : List ℕ)
      → stream f ≡ s
      → Gives f (header s) (read_pdu from_fp_output_header f)
  unfolding read_pdu header Gives
  header-Gives f [] e = let (k, run) = fill_to_short 2 f (rw e (omega arith)) in (k, rw run)
  header-Gives f (_ ∷ []) e = let (k, run) = fill_to_short 2 f (rw e (omega arith)) in (k, rw run)
  header-Gives f (first_byte ∷ b ∷ rest) e =
      let (g, run, same, m) = fill_to_enough 2 f (rw e (omega arith)) in
      let first = byte_at-stream 0 f g first_byte same (omega arith) (rw e) in
      elim (Option-cases (from_fp_output_header first_byte)) [
        | inl unknown ↦ rw (unknown) (g, rw (run, first, unknown))
        | inr (action, known) ↦
            rw (known, run, first, known) (action-Gives action first_byte b rest f g same m e)
      ]

  -- `read_pdu` gives what the bytes' header says, however the socket cuts the bytes into messages and
  -- whatever texts stand between them: the PDU of that length whole, with the following bytes left for the
  -- next call; an error for an unknown first byte or a length of zero; and where the bytes end before the
  -- PDU does, the socket's end. It does not panic.
  pub read_pdu-header :
      (f : WasmFramed) → Gives f (header (stream f)) (read_pdu from_fp_output_header f)
  read_pdu-header f = header-Gives f (stream f) refl
