-- ===== src/Session/Rounds.antt =====
-- wasm/src/session.rs: the rounds of `perform_credssp`.
use wasm_rdp.Prelude.{
  ℕ, zero, suc, ◌+◌, ◌≤◌, ◌<◌, ◌≡◌, refl, sym, ap, ◌∙◌, Bool, true, false, some, List, [], ◌∷◌,
  ◌++◌, append_assoc, ltb, Bool-cases, inl, inr, arith, same_text, same_text→eq, ltb→ge,
}
use wasm_rdp.Framed.{Message, bytes, read_credssp_response, read_exact}
use wasm_rdp.Framed.Total.{read_credssp_response-Ends, read_exact-Ends}
use wasm_rdp.Session.Wire.{done, Wire, Conn, or_fail, send, reader}
use wasm_rdp.Session.Credssp.{
  Sspi, Processed, process_error, suspended, reply_needed, final_message, zeros, early_auth_result,
  final_round, reply_round, round_of, credssp_loop, perform_credssp,
}
use wasm_rdp.Session.Ends.{
  ended_done, ended_failed, Ends, Ends-bind, Ends-pure, Ends-or_fail, Ends-if, send-Ends,
  reader-Ends,
}
use wasm_rdp.Session.Done.{proceed-done, or_fail-done, send-done, reader-done}

module _ (sspi : Sspi) where
  open sspi use {State, TsRequest}

  early_auth_result-Ends : (hybrid_ex : Bool) → Ends (early_auth_result sspi hybrid_ex)
  unfolding early_auth_result
  early_auth_result-Ends false = Ends-pure tt
  early_auth_result-Ends true =
      Ends-bind (reader (read_exact 4)) _ (reader-Ends (read_exact 4) (read_exact-Ends 4))
        λ auth_result.
          Ends-if (same_text auth_result zeros) _ _ (λ w. ended_done tt) (λ w. ended_failed _)

  final_round-Ends :
      (hybrid_ex : Bool) (request : TsRequest) → Ends (final_round sspi hybrid_ex request)
  unfolding final_round
  final_round-Ends hybrid_ex request =
      Ends-bind (or_fail _ (sspi.encode_ts_request request)) _
        (Ends-or_fail _ (sspi.encode_ts_request request))
        λ encoded.
          Ends-bind (send (bytes encoded)) _ (send-Ends (bytes encoded))
            λ _. early_auth_result-Ends hybrid_ex

  reply_round-Ends : (request : TsRequest) → Ends (reply_round sspi request)
  unfolding reply_round
  reply_round-Ends request =
      Ends-bind (or_fail _ (sspi.encode_ts_request request)) _
        (Ends-or_fail _ (sspi.encode_ts_request request))
        λ encoded. Ends-bind (send (bytes encoded)) _ (send-Ends (bytes encoded)) λ _.
          Ends-bind (reader read_credssp_response) _
            (reader-Ends read_credssp_response read_credssp_response-Ends)
            λ response. Ends-or_fail _ (sspi.from_buffer response)

  round_of-Ends :
      (hybrid_ex : Bool) (round : ℕ) (again : TsRequest → State → Conn (Unit {0}))
      → (ltb 10 round ≡ false → (ts_request : TsRequest) (s : State) → Ends (again ts_request s))
      → (x : Processed State TsRequest) → Ends (round_of sspi hybrid_ex round again x)
  unfolding round_of
  round_of-Ends hybrid_ex round again ends process_error w = ended_failed _
  round_of-Ends hybrid_ex round again ends suspended w = ended_failed _
  round_of-Ends hybrid_ex round again ends (final_message request s) w =
      final_round-Ends hybrid_ex request w
  round_of-Ends hybrid_ex round again ends (reply_needed request s) w =
      Ends-bind (reply_round sspi request) _ (reply_round-Ends request)
        (λ ts_request. elim (Bool-cases (ltb 10 round)) [
          | inl last ↦ rw last λ v. ended_failed _
          | inr more ↦ rw more (ends more ts_request s)
        ])
        w

  -- Each round that goes on counts up to ten.
  credssp_loop-Ends :
      (fuel : ℕ) (hybrid_ex : Bool) (round : ℕ) (ts_request : TsRequest) (s : State)
      → 11 ≤ fuel + round
      → 0 < fuel
      → Ends (credssp_loop sspi fuel hybrid_ex round ts_request s)
  unfolding credssp_loop
  credssp_loop-Ends zero hybrid_ex round ts_request s h some_fuel = absurd (omega arith)
  credssp_loop-Ends (suc fuel) hybrid_ex round ts_request s h some_fuel =
      round_of-Ends hybrid_ex (round + 1) (credssp_loop sspi fuel hybrid_ex (round + 1))
        (λ more ts s'.
          credssp_loop-Ends fuel hybrid_ex (round + 1) ts s' (omega arith)
            (omega (arith, ltb→ge 10 (round + 1) more)))
        (sspi.process ts_request s)

  -- CredSSP ends, with success, an error or a panic, whatever its client and the server do: the eleventh
  -- reply is the last.
  pub perform_credssp-Ends :
      (key : List ℕ) (hybrid_ex : Bool) → Ends (perform_credssp sspi key hybrid_ex)
  unfolding perform_credssp
  perform_credssp-Ends key hybrid_ex =
      Ends-bind (or_fail _ (sspi.new key)) _ (Ends-or_fail _ (sspi.new key))
        λ client. credssp_loop-Ends 11 hybrid_ex 0 (sspi.default) client (omega arith) (omega arith)

  -- What is left of the socket after the final message: with HYBRID_EX, what follows the server's four zero
  -- bytes, and all of it else.
  pub data Accepted (w v : Wire) : Bool → Type 0 where
    unasked : w ≡ v → Accepted w v false
    four_zeros : reader (read_exact 4) w ≡ (done zeros, v) → Accepted w v true

  -- The dialogue of CredSSP from one state of the socket to another: the client's replies, each answered by
  -- the message that the server's stream holds next, and its final message; what is sent, in as many
  -- rounds.
  pub data Dialogue (hybrid_ex : Bool)
      : TsRequest → State → ℕ → Wire → List Message → Wire → Type 0 where
    final :
        {ts_request : TsRequest} {s : State}
        → (request : TsRequest) (s' : State) (encoded : List ℕ) (w u v : Wire)
        → sspi.process ts_request s ≡ final_message request s'
        → sspi.encode_ts_request request ≡ some encoded
        → send (bytes encoded) w ≡ (done tt, u)
        → Accepted u v hybrid_ex
        → Dialogue hybrid_ex ts_request s 1 w (bytes encoded ∷ []) v
    reply :
        {ts_request : TsRequest} {s : State}
        → (request : TsRequest) (s' : State) (encoded response : List ℕ) (answer : TsRequest)
          (n : ℕ) (later : List Message) (w u u' v : Wire)
        → sspi.process ts_request s ≡ reply_needed request s'
        → sspi.encode_ts_request request ≡ some encoded
        → send (bytes encoded) w ≡ (done tt, u)
        → reader read_credssp_response u ≡ (done response, u')
        → sspi.from_buffer response ≡ some answer
        → Dialogue hybrid_ex answer s' n u' later v
        → Dialogue hybrid_ex ts_request s (suc n) w (bytes encoded ∷ later) v

  -- The dialogue behind a success: its rounds and what was sent.
  pub record Succeeded (most : ℕ) (hybrid_ex : Bool) (ts_request : TsRequest) (s : State)
      (w v : Wire) : Type 0 where
    pub rounds : ℕ
    pub messages : List Message
    pub at_most : rounds ≤ most
    pub dialogue : Dialogue hybrid_ex ts_request s rounds w messages v
    pub were_sent : v.sent ≡ w.sent ++ messages

  early_auth_result-done :
      (hybrid_ex : Bool) (w v : Wire)
      → early_auth_result sspi hybrid_ex w ≡ (done tt, v)
      → (v.sent ≡ w.sent) × Accepted w v hybrid_ex
  unfolding early_auth_result
  early_auth_result-done false w v h = (ap (λ q. q.1.sent) (sym h), unasked (ap (λ q. q.1) h))
  early_auth_result-done true w v h =
      let (auth_result, u, read, rest) = proceed-done _ (reader (read_exact 4) w) h in
      elim (Bool-cases (same_text auth_result zeros)) [
        | inr other ↦ absurd (cc (rw other at rest))
        | inl same ↦
            let ended : u ≡ v = ap (λ q. q.1) (rw same at rest) in
            let is_zeros : auth_result ≡ zeros = same_text→eq auth_result zeros same in
            (
              rw (← ended) (reader-done (read_exact 4) w read),
              four_zeros (rw (← ended, ← is_zeros) read),
            )
      ]

  reply_round-done :
      (request : TsRequest) (w u : Wire) (ts : TsRequest)
      → reply_round sspi request w ≡ (done ts, u)
      → (encoded : List ℕ) × (response : List ℕ) × (u' : Wire) × (sspi.encode_ts_request request
          ≡ some encoded)
        × (send (bytes encoded) w ≡ (done tt, u'))
        × (reader read_credssp_response u' ≡ (done response, u))
        × (sspi.from_buffer response ≡ some ts)
        × (u.sent ≡ w.sent ++ bytes encoded ∷ [])
  unfolding reply_round
  reply_round-done request w u ts h =
      let (encoded, u1, a, h1) = proceed-done _ (or_fail _ (sspi.encode_ts_request request) w) h in
      let (enc, same) = or_fail-done _ (sspi.encode_ts_request request) w a in
      let (_, u2, b, h2) = proceed-done _ (send (bytes encoded) u1) h1 in
      let (response, u3, c, h3) = proceed-done _ (reader read_credssp_response u2) h2 in
      let (dec, same') = or_fail-done _ (sspi.from_buffer response) u3 h3 in
      (
        encoded,
        response,
        u2,
        enc,
        rw same b,
        rw (← same') c,
        dec,
        ap (λ q. q.sent) (sym same')
            ∙ reader-done read_credssp_response u2 c
            ∙ send-done (bytes encoded) u1 b
            ∙ ap (λ q. q.sent ++ bytes encoded ∷ []) (sym same),
      )

  module _ (most : ℕ) (hybrid_ex : Bool) (w v : Wire) where
    round_of-Succeeded :
        (round : ℕ) (ts_request : TsRequest) (s : State)
        (again : TsRequest → State → Conn (Unit {0})) (x : Processed State TsRequest)
        → sspi.process ts_request s ≡ x
        → ((ts : TsRequest) (s' : State) (u : Wire)
            → again ts s' u ≡ (done tt, v)
            → Succeeded most hybrid_ex ts s' u v)
        → round_of sspi hybrid_ex round again x w ≡ (done tt, v)
        → Succeeded (suc most) hybrid_ex ts_request s w v
    unfolding round_of final_round reply_round
    round_of-Succeeded round ts_request s again process_error e later h = absurd (cc)
    round_of-Succeeded round ts_request s again suspended e later h = absurd (cc)
    round_of-Succeeded round ts_request s again (final_message request s') e later h =
        let (encoded, u, read, rest) =
          proceed-done _ (or_fail _ (sspi.encode_ts_request request) w) h in
        let (enc, same) = or_fail-done _ (sspi.encode_ts_request request) w read in
        let (_, u', ran, last) = proceed-done _ (send (bytes encoded) u) rest in
        let (quiet, accepted) = early_auth_result-done hybrid_ex u' v last in
        record {
          rounds = 1;
          messages = bytes encoded ∷ [];
          at_most = omega arith;
          dialogue = final request s' encoded w u' v e enc (rw same ran) accepted;
          were_sent =
              quiet
              ∙ send-done (bytes encoded) u ran
              ∙ ap (λ q. q.sent ++ bytes encoded ∷ []) (sym same);
        }
    round_of-Succeeded round ts_request s again (reply_needed request s') e later h =
        let (ts, u, ran, rest) = proceed-done _ (reply_round sspi request w) h in
        let (encoded, response, u', enc, wrote, read, dec, were) =
          reply_round-done request w u ts ran in
        elim (Bool-cases (ltb 10 round)) [
          | inl last ↦ absurd (cc (rw last at rest))
          | inr more ↦
              let next = later ts s' u (rw more at rest) in
              record {
                rounds = suc (next.rounds);
                messages = bytes encoded ∷ next.messages;
                at_most = omega (arith, next.at_most);
                dialogue =
                    reply request s' encoded response ts (next.rounds) (next.messages) w u' u v e
                      enc wrote read dec (next.dialogue);
                were_sent =
                    next.were_sent
                    ∙ ap (λ q. q ++ next.messages) were
                    ∙ append_assoc (w.sent) (bytes encoded ∷ []) (next.messages);
              }
        ]

  credssp_loop-Succeeded :
      (fuel : ℕ) (hybrid_ex : Bool) (round : ℕ) (ts_request : TsRequest) (s : State) (w v : Wire)
      → credssp_loop sspi fuel hybrid_ex round ts_request s w ≡ (done tt, v)
      → Succeeded fuel hybrid_ex ts_request s w v
  unfolding credssp_loop
  credssp_loop-Succeeded zero hybrid_ex round ts_request s w v h = absurd (cc)
  credssp_loop-Succeeded (suc fuel) hybrid_ex round ts_request s w v h =
      round_of-Succeeded fuel hybrid_ex w v (round + 1) ts_request s
        (credssp_loop sspi fuel hybrid_ex (round + 1)) (sspi.process ts_request s) refl
        (λ ts s' u k. credssp_loop-Succeeded fuel hybrid_ex (round + 1) ts s' u v k) h

  -- A success of CredSSP has a dialogue behind it, along the states of the socket from the first to the
  -- last: the client, made with the server's key, replied, and each reply was answered by the message that
  -- was read from the socket after it; at most eleven messages in all, and exactly they were sent. The last
  -- is the client's final message, and the next four bytes that were read from the socket after it are
  -- zeros with HYBRID_EX, while nothing was read after it without.
  pub perform_credssp-Succeeded :
      (key : List ℕ) (hybrid_ex : Bool) (w v : Wire)
      → perform_credssp sspi key hybrid_ex w ≡ (done tt, v)
      → (client : State) × (sspi.new key ≡ some client)
        × Succeeded 11 hybrid_ex (sspi.default) client w v
  unfolding perform_credssp
  perform_credssp-Succeeded key hybrid_ex w v h =
      let (client, u, a, rest) = proceed-done _ (or_fail _ (sspi.new key) w) h in
      let (new, same) = or_fail-done _ (sspi.new key) w a in
      (
        client,
        new,
        credssp_loop-Succeeded 11 hybrid_ex 0 (sspi.default) client w v (rw (← same) at rest),
      )
