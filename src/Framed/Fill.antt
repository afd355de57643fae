-- ===== src/Framed/Fill.antt =====
-- wasm/src/framed.rs: the loops that wait for bytes, by the bytes that the socket has left to give.
use wasm_rdp.Prelude.{
  ℕ, zero, suc, ◌≤◌, ◌<◌, ◌≡◌, refl, sym, ap, ◌∙◌, ◌⊎◌, inl, inr, List, [], ◌∷◌, ◌++◌, append_assoc,
  append-nil, length, length-append, get_elem?, some, take, drop, ltb, ltb→lt, ltb→ge, ge→ltb,
  Bool-cases, arith,
}
use wasm_rdp.Framed.{
  Message, bytes, text, broken, WasmFramed, Reason, read_error, closed, Run, ok, bail, fill_from,
  fill_buf, fill_loop, fill_to, byte_at, split_to, read_exact,
}

-- The bytes of the messages up to an error, and how the messages end.
unfoldable pub available : List Message → List ℕ
available [] = []
available (bytes chunk ∷ rest) = chunk ++ available rest
available (text _ ∷ rest) = available rest
available (broken ∷ rest) = []

unfoldable pub ending : List Message → Reason
ending [] = closed
ending (bytes _ ∷ rest) = ending rest
ending (text _ ∷ rest) = ending rest
ending (broken ∷ rest) = read_error

-- All that the reader can still give.
abbrev pub stream : WasmFramed → List ℕ
stream f = f.buf ++ available (f.ws_read)

-- `g` has the bytes and the end that `f` has.
pub record Same (f g : WasmFramed) : Type 0 where
  pub streams : stream g ≡ stream f
  pub endings : ending (g.ws_read) ≡ ending (f.ws_read)

pub Same_refl : (f : WasmFramed) → Same f f
Same_refl f = record { streams = refl; endings = refl }

pub Same_trans : (f g h : WasmFramed) → Same f g → Same g h → Same f h
Same_trans f g h a b = record { streams = b.streams ∙ a.streams; endings = b.endings ∙ a.endings }

-- One fill: a message's bytes move to the buffer, or the messages have ended.
abbrev pub Fills : WasmFramed → Run (Unit {0}) × WasmFramed → Type 0
Fills f out =
    ((g : WasmFramed) × (out ≡ (ok tt, g))
      × Same f g
      × (length (g.ws_read) < length (f.ws_read))
      × ((xs : List ℕ) × (g.buf ≡ f.buf ++ xs)))
    ⊎ ((g : WasmFramed) × (out ≡ (bail (ending (f.ws_read)), g)) × (available (f.ws_read) ≡ []))

fill_from-Fills :
    (ms : List Message) (buf : List ℕ) (rx : ℕ)
    → Fills (record { ws_read = ms; buf = buf; rx_bytes = rx }) (fill_from ms buf rx)
unfolding fill_from available ending
fill_from-Fills [] buf rx = inr (_, refl, refl)
fill_from-Fills (bytes chunk ∷ rest) buf rx = inl (
  _,
  refl,
  record { streams = append_assoc buf chunk (available rest); endings = refl },
  omega arith,
  (chunk, refl),
)
fill_from-Fills (text _ ∷ rest) buf rx = elim (fill_from-Fills rest buf rx) [
  | inl (g, run, same, less, (xs, e)) ↦
      inl (g, run, record { streams = same.streams; endings = same.endings }, omega arith, (xs, e))
  | inr (g, run, e) ↦ inr (g, run, e)
]
fill_from-Fills (broken ∷ rest) buf rx = inr (_, refl, refl)

pub fill_buf-Fills : (f : WasmFramed) → Fills f (fill_buf f)
unfolding fill_buf
fill_buf-Fills f = fill_from-Fills (f.ws_read) (f.buf) (f.rx_bytes)

-- A loop ends with `n` bytes in the buffer, or with the messages' end where there are fewer.
abbrev pub Waits : ℕ → WasmFramed → Run (Unit {0}) × WasmFramed → Type 0
Waits n f out =
    ((g : WasmFramed) × (out ≡ (ok tt, g)) × Same f g × (n ≤ length (g.buf)))
    ⊎ ((g : WasmFramed) × (out ≡ (bail (ending (f.ws_read)), g)) × (length (stream f) < n))

short_stream : (f : WasmFramed) → available (f.ws_read) ≡ [] → length (stream f) ≡ length (f.buf)
short_stream f e = rw e (ap length (append-nil (f.buf)))

fill_loop-Waits :
    (fuel n : ℕ) (f : WasmFramed) → length (f.ws_read) < fuel → Waits n f (fill_loop fuel n f)
unfolding fill_loop
fill_loop-Waits zero n f h = absurd (omega arith)
fill_loop-Waits (suc fuel) n f h = elim (Bool-cases (ltb (length (f.buf)) n)) [
  | inr enough ↦ inl (f, rw enough, Same_refl f, ltb→ge _ _ enough)
  | inl short ↦ elim (fill_buf-Fills f) [
    | inr (g, run, e) ↦ inr (g, rw (short, run), rw (short_stream f e) (ltb→lt _ _ short))
    | inl (g, run, same, less, _) ↦ elim (fill_loop-Waits fuel n g (omega arith)) [
      | inl (k, run', same', m) ↦ inl (k, rw (short, run) run', Same_trans f g k same same', m)
      | inr (k, run', m) ↦ inr (k, rw (short, run, ← same.endings) run', rw (← same.streams) m)
    ]
  ]
]

pub fill_to-Waits : (n : ℕ) (f : WasmFramed) → Waits n f (fill_to n f)
unfolding fill_to
fill_to-Waits n f = fill_loop-Waits (suc (length (f.ws_read))) n f (omega arith)

pub fill_to_enough :
    (n : ℕ) (f : WasmFramed)
    → n ≤ length (stream f)
    → (g : WasmFramed) × (fill_to n f ≡ (ok tt, g)) × Same f g × (n ≤ length (g.buf))
fill_to_enough n f h = elim (fill_to-Waits n f) [
  | inl w ↦ w
  | inr (_, _, short) ↦ absurd (omega arith)
]

buffered : (f g : WasmFramed) → Same f g → length (g.buf) ≤ length (stream f)
buffered f g same =
    omega (arith, ap length (same.streams), length-append (g.buf) (available (g.ws_read)))

pub fill_to_short :
    (n : ℕ) (f : WasmFramed)
    → length (stream f) < n
    → (g : WasmFramed) × (fill_to n f ≡ (bail (ending (f.ws_read)), g))
fill_to_short n f h = elim (fill_to-Waits n f) [
  | inl (g, _, same, m) ↦ absurd (omega (arith, buffered f g same))
  | inr (g, run, _) ↦ (g, run)
]

take_prefix : (n : ℕ) (xs ys : List ℕ) → n ≤ length xs → take n (xs ++ ys) ≡ take n xs
take_prefix zero xs ys h = refl
take_prefix (suc n) [] ys h = absurd (omega arith)
take_prefix (suc n) (x ∷ xs) ys h = ap (λ t. x ∷ t) (take_prefix n xs ys (omega arith))

drop_prefix : (n : ℕ) (xs ys : List ℕ) → n ≤ length xs → drop n (xs ++ ys) ≡ drop n xs ++ ys
drop_prefix zero xs ys h = refl
drop_prefix (suc n) [] ys h = absurd (omega arith)
drop_prefix (suc n) (x ∷ xs) ys h = drop_prefix n xs ys (omega arith)

-- What remains after `n` bytes were taken.
pub record After (n : ℕ) (f g : WasmFramed) : Type 0 where
  pub rest : stream g ≡ drop n (stream f)
  pub end : ending (g.ws_read) ≡ ending (f.ws_read)

-- The bytes of the buffer come first.
pub split_to-stream :
    (n : ℕ) (f g : WasmFramed)
    → Same f g
    → n ≤ length (g.buf)
    → (k : WasmFramed) × (split_to n g ≡ (ok (take n (stream f)), k)) × After n f k
unfolding split_to
split_to-stream n f g same h = (
  record g { buf = drop n (g.buf) },
  rw (ge→ltb (length (g.buf)) n h, ← same.streams, take_prefix n (g.buf) (available (g.ws_read)) h),
  record {
    rest = rw (← same.streams) (sym (drop_prefix n (g.buf) (available (g.ws_read)) h));
    end = same.endings;
  },
)

-- However the socket cuts its bytes into messages, and whatever texts stand between them, `read_exact`
-- gives the next `n` bytes and leaves the others; where there are fewer, it reports how the socket
-- ended. It does not panic.
pub read_exact-stream :
    (n : ℕ) (f : WasmFramed)
    → (n ≤ length (stream f)
        → (g : WasmFramed) × (read_exact n f ≡ (ok (take n (stream f)), g)) × After n f g)
      × (length (stream f) < n
          → (g : WasmFramed) × (read_exact n f ≡ (bail (ending (f.ws_read)), g)))
unfolding read_exact
read_exact-stream n f = (
  (λ h.
      let (g, run, same, m) = fill_to_enough n f h in
      let (k, run', after) = split_to-stream n f g same m in (k, rw run run', after)),
  λ h. let (g, run) = fill_to_short n f h in (g, rw run),
)

get_prefix : (i : ℕ) (xs ys : List ℕ) → i < length xs → get_elem? (xs ++ ys) i ≡ get_elem? xs i
get_prefix i [] ys h = absurd (omega arith)
get_prefix zero (x ∷ xs) ys h = refl
get_prefix (suc i) (x ∷ xs) ys h = get_prefix i xs ys (omega arith)

-- A byte of the buffer is the stream's byte there.
pub byte_at-stream :
    (i : ℕ) (f g : WasmFramed) (b : ℕ)
    → Same f g
    → i < length (g.buf)
    → get_elem? (stream f) i ≡ some b
    → byte_at i g ≡ (ok b, g)
unfolding byte_at
byte_at-stream i f g b same h e =
    let found : get_elem? (g.buf) i ≡ some b =
      sym (get_prefix i (g.buf) (available (g.ws_read)) h)
      ∙ (ap (λ s. get_elem? s i) (same.streams) ∙ e) in
    rw (found, byte_at)
