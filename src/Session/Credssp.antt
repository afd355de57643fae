-- ===== src/Session/Credssp.antt =====
-- wasm/src/session.rs: `perform_credssp`. The client of the package sspi is an interface.
use wasm_rdp.Prelude.{
  ℕ, zero, suc, ◌+◌, Bool, true, false, Option, List, [], ◌∷◌, ltb, if◌then◌else◌, same_text,
}
use wasm_rdp.Framed.{bytes, read_credssp_response, read_exact}
use wasm_rdp.Session.Wire.{
  credssp_failed, kerberos, not_encoded, not_decoded, denied, too_many_rounds, out_of_fuel, Conn,
  ◌>>=◌, ◌>>◌, pure, fail, or_fail, send, reader,
}

-- What `process` comes to.
pub data Processed (State TsRequest : Type 0) : Type 0 where
  process_error : Processed State TsRequest
  suspended : Processed State TsRequest
  reply_needed : TsRequest → State → Processed State TsRequest
  final_message : TsRequest → State → Processed State TsRequest

pub record Sspi : Type 1 where
  pub State : Type 0
  pub TsRequest : Type 0
  pub default : TsRequest
  pub process : TsRequest → State → Processed State TsRequest
  pub encode_ts_request : TsRequest → Option (List ℕ)
  pub from_buffer : List ℕ → Option TsRequest
  -- `CredSspClient::new` with the server's key, or its error.
  pub new : List ℕ → Option State

abbrev pub zeros : List ℕ
zeros = 0 ∷ 0 ∷ 0 ∷ 0 ∷ []

module _ (sspi : Sspi) where
  open sspi use {State, TsRequest}

  -- `auth_result != [0, 0, 0, 0]`
  unfoldable pub early_auth_result : Bool → Conn (Unit {0})
  early_auth_result false = pure tt
  early_auth_result true = do
    auth_result ← reader (read_exact 4)
    (if same_text auth_result zeros then pure tt else fail (denied auth_result))

  unfoldable pub final_round : Bool → TsRequest → Conn (Unit {0})
  unfolding early_auth_result
  final_round hybrid_ex request = do
    encoded ← or_fail not_encoded (sspi.encode_ts_request request)
    send (bytes encoded)
    early_auth_result hybrid_ex

  -- A reply and the server's answer to it.
  unfoldable pub reply_round : TsRequest → Conn TsRequest
  reply_round request = do
    encoded ← or_fail not_encoded (sspi.encode_ts_request request)
    send (bytes encoded)
    response ← reader read_credssp_response
    or_fail not_decoded (sspi.from_buffer response)

  -- `again` is the loop from the next round on.
  unfoldable pub round_of :
      Bool → ℕ → (TsRequest → State → Conn (Unit {0})) → Processed State TsRequest → Conn (Unit {0})
  unfolding final_round reply_round
  round_of hybrid_ex round again process_error = fail credssp_failed
  round_of hybrid_ex round again suspended = fail kerberos
  round_of hybrid_ex round again (final_message request s) = final_round hybrid_ex request
  round_of hybrid_ex round again (reply_needed request s) = do
    ts_request ← reply_round request
    (if ltb 10 round then fail too_many_rounds else again ts_request s)

  -- The loop, from a round on.
  unfoldable pub credssp_loop : ℕ → Bool → ℕ → TsRequest → State → Conn (Unit {0})
  unfolding round_of
  credssp_loop zero hybrid_ex round ts_request s w = (out_of_fuel, w)
  credssp_loop (suc fuel) hybrid_ex round ts_request s w =
      round_of hybrid_ex (round + 1) (credssp_loop fuel hybrid_ex (round + 1))
        (sspi.process ts_request s) w

  -- The eleventh reply is the last.
  unfoldable pub perform_credssp : List ℕ → Bool → Conn (Unit {0})
  unfolding credssp_loop
  perform_credssp server_public_key hybrid_ex = do
    client ← or_fail credssp_failed (sspi.new server_public_key)
    credssp_loop 11 hybrid_ex 0 sspi.default client
