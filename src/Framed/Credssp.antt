-- ===== src/Framed/Credssp.antt =====
-- wasm/src/framed.rs: `read_credssp_response` on a TSRequest in its BER coding.
use wasm_rdp.Prelude.{
  ℕ, ◌+◌, ◌*◌, ◌%◌, ◌^◌, ◌≤◌, ◌<◌, ◌≡◌, refl, sym, ap, ◌∙◌, List, [], ◌∷◌, ◌++◌, append_assoc,
  length, length-append, get_elem?-append, take, drop, take-append, drop-append, lt→ltb, ge→ltb,
  arith,
}
use wasm_rdp.Framed.{
  WasmFramed, ok, fill_to, byte_at, split_to, ◌>>◌, ber_length, ber_header, read_credssp_response,
}
use wasm_rdp.Framed.Fill.{
  stream, Same, Same_trans, fill_to_enough, After, split_to-stream, byte_at-stream,
}

-- A big-endian number, behind the digits that were read.
abbrev pub value : List ℕ → ℕ → ℕ
value [] acc = acc
value (d ∷ ds) acc = value ds (acc * 256 + d)

-- The length octets of a BER value.
pub data IsBerLength : List ℕ → ℕ → Type 0 where
  short : (n : ℕ) → n < 128 → IsBerLength (n ∷ []) n
  long : (ds : List ℕ) → length ds < 128 → IsBerLength ((128 + length ds) ∷ ds) (value ds 0)

value_grows : (ds : List ℕ) (acc : ℕ) → acc ≤ value ds acc
value_grows [] acc = omega arith
value_grows (d ∷ ds) acc = omega (arith, value_grows ds (acc * 256 + d))

ber_length-value :
    (ds pre post : List ℕ) (f g : WasmFramed) (acc : ℕ)
    → Same f g
    → stream f ≡ pre ++ (ds ++ post)
    → length pre + length ds ≤ length (g.buf)
    → value ds acc < 2 ^ 32
    → ber_length (length ds) (length pre) acc g ≡ (ok (value ds acc), g)
unfolding ber_length
ber_length-value [] pre post f g acc same e m small = refl
ber_length-value (d ∷ ds) pre post f g acc same e m small =
    rw
      (
        byte_at-stream (length pre) f g d same (omega arith)
            (rw e (get_elem?-append pre (ds ++ post) d)),
        no_wrap,
        next,
      )
      (ber_length-value ds (pre ++ (d ∷ [])) post f g (acc * 256 + d) same
        (e ∙ sym (append_assoc pre (d ∷ []) (ds ++ post)))
        (omega (arith, length-append pre (d ∷ []))) small)
  where
    no_wrap : acc * 256 % 2 ^ 32 ≡ acc * 256
    no_wrap = omega (arith, value_grows ds (acc * 256 + d))

    next : length pre + 1 ≡ length (pre ++ (d ∷ []))
    next = omega (arith, length-append pre (d ∷ []))

-- The rest of the routine, once the two lengths are known.
finish :
    (total : ℕ) (f g : WasmFramed)
    → Same f g
    → total < 2 ^ 32
    → total ≤ length (stream f)
    → (k : WasmFramed) × ((fill_to (total % 2 ^ 32) >> split_to (total % 2 ^ 32)) g
        ≡ (ok (take total (stream f)), k))
      × After total f k
finish total f g same small fits =
    let (k, run, same', m) = fill_to_enough total g (rw (same.streams) fits) in
    let (l, run', after) = split_to-stream total f k (Same_trans f g k same same') m in
    (l, rw (whole, run, run'), after)
  where
    whole : total % 2 ^ 32 ≡ total
    whole = omega arith

-- The header's octets, then the message's.
header :
    (n : ℕ) (ls tail : List ℕ) (f g : WasmFramed)
    → IsBerLength ls n
    → Same f g
    → 2 ≤ length (g.buf)
    → n < 2 ^ 32
    → stream f ≡ 0x30 ∷ (ls ++ tail)
    → (b : ℕ) × (k : WasmFramed) × (byte_at 1 g ≡ (ok b, g))
      × (ber_header b g ≡ (ok (1 + length ls, n), k))
      × Same f k
unfolding ber_header
header _ _ tail f g (short n small) same m fits e =
    (n, g, byte_at-stream 1 f g n same (omega arith) (rw e), rw (lt→ltb n 128 small), same)
header _ _ tail f g (long ds few) same m fits e =
    let (k, run, same', m') =
      fill_to_enough (2 + length ds) g
        (rw (same.streams, e) (omega (arith, length-append ds tail))) in
    let same'' = Same_trans f g k same same' in
    (
      128 + length ds,
      k,
      byte_at-stream 1 f g (128 + length ds) same (omega arith) (rw e),
      rw (
        ge→ltb (128 + length ds) 128 (omega arith),
        octets,
        run,
        ber_length-value ds (0x30 ∷ (128 + length ds) ∷ []) tail f k 0 same'' e (omega arith) fits,
        two_more,
      ),
      same'',
    )
  where
    octets : (128 + length ds) % 128 ≡ length ds
    octets = omega arith

    two_more : 2 + length ds ≡ 1 + length ((128 + length ds) ∷ ds)
    two_more = omega arith

ber_octets : (n : ℕ) (ls : List ℕ) → IsBerLength ls n → 1 ≤ length ls
ber_octets _ _ (short n small) = omega arith
ber_octets _ _ (long ds few) = omega arith

-- A TSRequest that the socket gives (the SEQUENCE tag, its length in the short form or in the long form
-- of up to 127 octets, its contents), of less than 4 GiB, is read as it is, however it is cut into
-- messages, and the bytes behind it are left.
pub read_credssp_response-IsBerLength :
    (f : WasmFramed) (n : ℕ) (ls body rest : List ℕ)
    → IsBerLength ls n
    → n ≡ length body
    → 1 + length ls + n < 2 ^ 32
    → stream f ≡ 0x30 ∷ (ls ++ (body ++ rest))
    → (g : WasmFramed) × (read_credssp_response f ≡ (ok (0x30 ∷ (ls ++ body)), g))
      × (stream g ≡ rest)
unfolding read_credssp_response
read_credssp_response-IsBerLength f n ls body rest ber whole small e =
    let message = 0x30 ∷ (ls ++ body) in
    let total : length message ≡ 1 + length ls + n = omega (arith, length-append ls body) in
    let e' : stream f ≡ message ++ rest =
      e ∙ ap (λ t. 0x30 ∷ t) (sym (append_assoc ls body rest)) in
    let enough : length message ≤ length (stream f) =
      rw e' (omega (arith, length-append message rest)) in
    let (g, run, same, m) =
      fill_to_enough 2 f (omega (arith, enough, total, ber_octets n ls ber)) in
    let (b, k, second, lengths, same') =
      header n ls (body ++ rest) f g ber same m (omega arith) e in
    let (l, run', after) =
      finish (1 + length ls + n) f k same' small (omega (arith, enough, total)) in
    let taken : take (1 + length ls + n) (stream f) ≡ message =
      rw (e', ← total) (take-append message rest) in
    let dropped : drop (1 + length ls + n) (stream f) ≡ rest =
      rw (e', ← total) (drop-append message rest) in
    (
      l,
      rw (run, byte_at-stream 0 f g 0x30 same (omega arith) (rw e), second, lengths)
          (rw taken at run'),
      after.rest ∙ dropped,
    )
