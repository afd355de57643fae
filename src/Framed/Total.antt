-- ===== src/Framed/Total.antt =====
-- wasm/src/framed.rs: the readers end, whatever the socket gives.
use wasm_rdp.Prelude.{
  ℕ, zero, suc, ◌+◌, ◌*◌, ◌%◌, ◌^◌, ◌<◌, List, [], ◌∷◌, ◌++◌, length, get_elem?, ltb, ◌==◌,
  Bool-cases, Option-cases, inl, inr, arith, not,
}
use wasm_rdp.Framed.{
  Message, bytes, text, broken, WasmFramed, Reason, Run, ok, bail, panic, Read, proceed, ◌>>=◌,
  fill_from, fill_buf, fill_loop, fill_to, byte_at, split_to, read_exact, Found, find_error,
  not_yet, size, on_hint, hint_loop, read_by_hint, text_from, read_text_message, ber_length,
  ber_header, read_credssp_response,
}

-- A value, an error or a panic: the loops do not run out of fuel.
pub data Ended {A : Type 0} : Run A → Type 0 where
  with_value : (a : A) → Ended (ok a)
  with_error : (e : Reason) → Ended (bail e)
  with_panic : Ended panic

abbrev pub Ends : {A : Type 0} → Read A → Type 0
Ends m = (f : WasmFramed) → Ended ((m f).0)

Ended-proceed :
    {A B : Type 0} (k : A → Read B) (p : Run A × WasmFramed)
    → Ended (p.0)
    → ((a : A) → Ends (k a))
    → Ended ((proceed k p).0)
Ended-proceed k (ok a, f) h ends = ends a f
Ended-proceed k (bail e, f) h ends = with_error e
Ended-proceed k (panic, f) h ends = with_panic
Ended-proceed k (Run.out_of_fuel, f) h ends = elim h [ ]

pub Ends-bind :
    {A B : Type 0} (m : Read A) (k : A → Read B) → Ends m → ((a : A) → Ends (k a)) → Ends (m >>= k)
Ends-bind m k h ends f = Ended-proceed k (m f) (h f) ends

-- `fill_buf` takes a message or fails.
data Filled (n : ℕ) : Run (Unit {0}) × WasmFramed → Type 0 where
  took : (g : WasmFramed) → length (g.ws_read) < n → Filled n (ok tt, g)
  stopped : (e : Reason) (g : WasmFramed) → Filled n (bail e, g)

Filled-more : (n : ℕ) (p : Run (Unit {0}) × WasmFramed) → Filled n p → Filled (suc n) p
Filled-more n _ (took g h) = took g (omega arith)
Filled-more n _ (stopped e g) = stopped e g

fill_from-Filled :
    (ms : List Message) (buf : List ℕ) (rx : ℕ) → Filled (length ms) (fill_from ms buf rx)
unfolding fill_from
fill_from-Filled [] buf rx = stopped _ _
fill_from-Filled (bytes chunk ∷ rest) buf rx = took _ (omega arith)
fill_from-Filled (text t ∷ rest) buf rx = Filled-more _ _ (fill_from-Filled rest buf rx)
fill_from-Filled (broken ∷ rest) buf rx = stopped _ _

-- A loop that goes on behind `fill_buf` with one unit of fuel less.
after_fill :
    {B : Type 0} (n : ℕ) (p : Run (Unit {0}) × WasmFramed) (k : Read B)
    → Filled n p
    → ((g : WasmFramed) → length (g.ws_read) < n → Ended ((k g).0))
    → Ended ((proceed (λ _. k) p).0)
after_fill n _ k (took g h) ends = ends g h
after_fill n _ k (stopped e g) ends = with_error e

fill_loop-Ended :
    (fuel n : ℕ) (f : WasmFramed) → length (f.ws_read) < fuel → Ended ((fill_loop fuel n f).0)
unfolding fill_loop fill_buf
fill_loop-Ended zero n f h = absurd (omega arith)
fill_loop-Ended (suc fuel) n f h = elim (Bool-cases (ltb (length (f.buf)) n)) [
  | inr enough ↦ rw enough (with_value tt)
  | inl less ↦ rw less (
      after_fill (length (f.ws_read)) (fill_from (f.ws_read) (f.buf) (f.rx_bytes))
        (fill_loop fuel n) (fill_from-Filled (f.ws_read) (f.buf) (f.rx_bytes))
        λ g k. fill_loop-Ended fuel n g (omega arith))
]

pub fill_to-Ends : (n : ℕ) → Ends (fill_to n)
unfolding fill_to
fill_to-Ends n f = fill_loop-Ended (suc (length (f.ws_read))) n f (omega arith)

pub split_to-Ends : (n : ℕ) → Ends (split_to n)
unfolding split_to
split_to-Ends n f = elim (Bool-cases (ltb (length (f.buf)) n)) [
  | inl less ↦ rw less with_panic
  | inr enough ↦ rw enough (with_value _)
]

pub byte_at-Ends : (i : ℕ) → Ends (byte_at i)
unfolding byte_at
byte_at-Ends i f = elim (Option-cases (get_elem? (f.buf) i)) [
  | inl e ↦ rw (e, byte_at) with_panic
  | inr (b, e) ↦ rw (e, byte_at) (with_value b)
]

pub read_exact-Ends : (n : ℕ) → Ends (read_exact n)
unfolding read_exact
read_exact-Ends n = Ends-bind (fill_to n) (λ _. split_to n) (fill_to-Ends n) λ _. split_to-Ends n

module _ (find_size : List ℕ → Found) where
  take_pdu-Ends : (n : ℕ) → Ends (on_hint find_size (size n) (hint_loop find_size zero))
  take_pdu-Ends n = elim (Bool-cases (n == 0)) [
    | inl none_left ↦ rw none_left λ f. with_error _
    | inr some_left ↦ rw some_left (Ends-bind (fill_to n) _ (fill_to-Ends n) λ _. split_to-Ends n)
  ]

  on_hint-Ended :
      (found : Found) (again : Read (List ℕ)) (f : WasmFramed)
      → ((g : WasmFramed) → length (g.ws_read) < length (f.ws_read) → Ended ((again g).0))
      → Ended ((on_hint find_size found again f).0)
  unfolding fill_buf
  on_hint-Ended find_error again f h = with_error _
  on_hint-Ended not_yet again f h =
      after_fill (length (f.ws_read)) (fill_from (f.ws_read) (f.buf) (f.rx_bytes)) again
        (fill_from-Filled (f.ws_read) (f.buf) (f.rx_bytes)) h
  on_hint-Ended (size n) again f h = take_pdu-Ends n f

  hint_loop-Ended :
      (fuel : ℕ) (f : WasmFramed)
      → length (f.ws_read) < fuel
      → Ended ((hint_loop find_size fuel f).0)
  unfolding hint_loop
  hint_loop-Ended zero f h = absurd (omega arith)
  hint_loop-Ended (suc fuel) f h =
      on_hint-Ended (find_size (f.buf)) (hint_loop find_size fuel) f
        λ g k. hint_loop-Ended fuel g (omega arith)

  pub read_by_hint-Ends : Ends (read_by_hint find_size)
  unfolding read_by_hint
  read_by_hint-Ends f = hint_loop-Ended (suc (length (f.ws_read))) f (omega arith)

text_from-Ended : (ms : List Message) (buf : List ℕ) (rx : ℕ) → Ended ((text_from ms buf rx).0)
unfolding text_from
text_from-Ended [] buf rx = with_error _
text_from-Ended (text t ∷ rest) buf rx = with_value t
text_from-Ended (bytes chunk ∷ rest) buf rx = text_from-Ended rest (buf ++ chunk) rx
text_from-Ended (broken ∷ rest) buf rx = with_error _

pub read_text_message-Ends : Ends read_text_message
unfolding read_text_message
read_text_message-Ends f = text_from-Ended (f.ws_read) (f.buf) (f.rx_bytes)

ber_length-Ends : (n i len : ℕ) → Ends (ber_length n i len)
unfolding ber_length
ber_length-Ends zero i len = λ f. with_value len
ber_length-Ends (suc n) i len =
    Ends-bind (byte_at i) _ (byte_at-Ends i)
      λ b. ber_length-Ends n (i + 1) ((len * 256) % 2 ^ 32 + b)

ber_header-Ends : (len_byte : ℕ) → Ends (ber_header len_byte)
unfolding ber_header
ber_header-Ends len_byte = elim (Bool-cases (ltb len_byte 128)) [
  | inl short ↦ rw short λ f. with_value _
  | inr long ↦ rw long (
      Ends-bind (fill_to (2 + len_byte % 128)) _ (fill_to-Ends (2 + len_byte % 128)) λ _.
        Ends-bind (ber_length (len_byte % 128) 2 0) _ (ber_length-Ends (len_byte % 128) 2 0)
          λ payload_len f. with_value _)
]

pub read_credssp_response-Ends : Ends read_credssp_response
unfolding read_credssp_response
read_credssp_response-Ends = Ends-bind (fill_to 2) _ (fill_to-Ends 2) λ _.
    Ends-bind (byte_at 0) _ (byte_at-Ends 0) λ tag. elim (Bool-cases (not (tag == 0x30))) [
      | inl other ↦ rw other λ f. with_error _
      | inr same ↦ rw same (
          Ends-bind (byte_at 1) _ (byte_at-Ends 1) λ len_byte.
            Ends-bind (ber_header len_byte) _ (ber_header-Ends len_byte) λ header.
              Ends-bind (fill_to ((header.0 + header.1) % 2 ^ 32)) _ (fill_to-Ends _)
                λ _. split_to-Ends _)
    ]
