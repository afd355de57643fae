-- ===== src/Session/Ends.antt =====
-- wasm/src/session.rs: the ends of the parts of a connection that is being made.
use wasm_rdp.Prelude.{
  ℕ, Bool, true, false, not, ◌||◌, Option, none, some, List, [], ◌∷◌, length, ◌==◌, ◌%◌,
  if◌then◌else◌, Bool-cases, inl, inr,
}
use wasm_rdp.Framed.{Message, text, Run, Read, read_text_message}
use wasm_rdp.Framed.Total
use wasm_rdp.Framed.Total.{with_value, with_error, with_panic, read_text_message-Ends}
use wasm_rdp.Session.Wire.{
  Failure, Result, done, failed, panicked, Wire, Conn, proceed, ◌>>=◌, of_result, or_fail, send,
  of_run, reader,
}
use wasm_rdp.Session.Tls.{
  is_continuation, starts_within, from_str_radix, then_byte, hex_pairs, hex_decode, parse_tls_ready,
  upgrade_command, perform_tls_upgrade,
}

-- A value, an error or a panic.
pub data Ended {A : Type 0} : Result A → Type 0 where
  ended_done : (a : A) → Ended (done a)
  ended_failed : (e : Failure) → Ended (failed e)
  ended_panicked : Ended panicked

abbrev pub Ends : {A : Type 0} → Conn A → Type 0
Ends m = (w : Wire) → Ended ((m w).0)

Ended-proceed :
    {A B : Type 0} (k : A → Conn B) (p : Result A × Wire)
    → Ended (p.0)
    → ((a : A) → Ends (k a))
    → Ended ((proceed k p).0)
Ended-proceed k (done a, w) h ends = ends a w
Ended-proceed k (failed e, w) h ends = ended_failed e
Ended-proceed k (panicked, w) h ends = ended_panicked
Ended-proceed k (Result.out_of_fuel, w) h ends = elim h [ ]

pub Ends-bind :
    {A B : Type 0} (m : Conn A) (k : A → Conn B) → Ends m → ((a : A) → Ends (k a)) → Ends (m >>= k)
Ends-bind m k h ends w = Ended-proceed k (m w) (h w) ends

pub Ends-pure : {A : Type 0} (a : A) → Ends (of_result (done a))
Ends-pure a w = ended_done a

pub Ends-or_fail : {A : Type 0} (e : Failure) (o : Option A) → Ends (or_fail e o)
Ends-or_fail e none w = ended_failed e
Ends-or_fail e (some a) w = ended_done a

pub Ends-if : {A : Type 0} (b : Bool) (m n : Conn A) → Ends m → Ends n → Ends (if b then m else n)
Ends-if true m n h k = h
Ends-if false m n h k = k

pub send-Ends : (m : Message) → Ends (send m)
unfolding send
send-Ends m w = elim (Bool-cases (w.room == 0)) [
  | inl full ↦ rw full (ended_failed _)
  | inr room ↦ rw room (ended_done tt)
]

of_run-Ended : {A : Type 0} (r : Run A) → Total.Ended r → Ended (of_run r)
of_run-Ended _ (with_value a) = ended_done a
of_run-Ended _ (with_error e) = ended_failed _
of_run-Ended _ with_panic = ended_panicked

pub reader-Ends : {A : Type 0} (m : Read A) → Total.Ends m → Ends (reader m)
unfolding reader
reader-Ends m h w = of_run-Ended ((m (w.framed)).0) (h (w.framed))

then_byte-Ended : (o : Option ℕ) (r : Result (List ℕ)) → Ended r → Ended (then_byte o r)
then_byte-Ended none r h = ended_failed _
then_byte-Ended (some v) _ (ended_done bytes) = ended_done _
then_byte-Ended (some v) _ (ended_failed e) = ended_failed e
then_byte-Ended (some v) _ ended_panicked = ended_panicked

hex_pairs-Ended : (hex : List ℕ) → Ended (hex_pairs hex)
unfolding hex_pairs
hex_pairs-Ended [] = ended_done []
hex_pairs-Ended (a ∷ []) = ended_panicked
hex_pairs-Ended (a ∷ b ∷ rest) = elim (Bool-cases (is_continuation a || starts_within rest)) [
  | inl within ↦ rw within ended_panicked
  | inr whole ↦
      rw whole (then_byte-Ended (from_str_radix a b) (hex_pairs rest) (hex_pairs-Ended rest))
]

hex_decode-Ended : (hex : List ℕ) → Ended (hex_decode hex)
unfolding hex_decode
hex_decode-Ended hex = elim (Bool-cases (not (length hex % 2 == 0))) [
  | inl odd ↦ rw odd (ended_failed _)
  | inr even ↦ rw even (hex_pairs-Ended hex)
]

pub perform_tls_upgrade-Ends : Ends perform_tls_upgrade
unfolding perform_tls_upgrade
perform_tls_upgrade-Ends =
    Ends-bind (send (text upgrade_command)) _ (send-Ends (text upgrade_command)) λ _.
      Ends-bind (reader read_text_message) _ (reader-Ends read_text_message read_text_message-Ends)
        λ answer.
          Ends-bind (or_fail _ (parse_tls_ready answer)) _ (Ends-or_fail _ (parse_tls_ready answer))
            λ cert w. hex_decode-Ended cert
