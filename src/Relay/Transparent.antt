-- ===== src/Relay/Transparent.antt =====
-- server/src/main.rs: what the relay has passed on, in any state that a schedule of events leads to.
use wasm_rdp.Prelude.{◌≡◌, refl, Bool, true, false, List, [], ◌∷◌}
use wasm_rdp.Relay.{
  Json, Phase, plain, tunneling, ended, Relay, Answers, Event, step_in, step, run, handle_ws,
}
use wasm_rdp.Relay.Prefixes.{payload, has, up_to, behind}
use wasm_rdp.Relay.Invariant.{
  IsTransparent, Invariant, in_plain, in_tunnel, at_end, Invariant-IsTransparent,
}
use wasm_rdp.Relay.Plain.{plain_step-Invariant}
use wasm_rdp.Relay.Tunnel.{tunnel_step-Invariant}

module _ (json : Json) where
  step_in-Invariant :
      (phase : Phase) (a : Answers) (v : Event) (r : Relay)
      → r.phase ≡ phase
      → Invariant json r
      → Invariant json (step_in json phase a v r)
  unfolding step_in
  step_in-Invariant plain a v r e (in_plain _ p) = plain_step-Invariant json a v r e p
  step_in-Invariant plain a v r e (in_tunnel e' p) = absurd (cc)
  step_in-Invariant plain a v r e (at_end e' t) = absurd (cc)
  step_in-Invariant tunneling a v r e (in_plain e' p) = absurd (cc)
  step_in-Invariant tunneling a v r e (in_tunnel _ p) = tunnel_step-Invariant json v r e p
  step_in-Invariant tunneling a v r e (at_end e' t) = absurd (cc)
  step_in-Invariant ended a v r e i = i

  pub run-Invariant :
      (events : List (Answers × Event)) (r : Relay)
      → Invariant json r
      → Invariant json (run json events r)
  unfolding run
  run-Invariant [] r i = i
  run-Invariant ((a, v) ∷ events) r i =
      run-Invariant events (step json a v r)
        (unfold step in step_in-Invariant (r.phase) a v r refl i)

  start-Invariant : (connected : Bool) → Invariant json (handle_ws connected)
  unfolding handle_ws has payload up_to behind
  start-Invariant true = in_plain refl (record {
    no_request = refl;
    no_text = refl;
    all_up = refl;
    all_down = refl;
    no_tls_got = refl;
    no_tls_sent = refl;
    no_up = refl;
    no_down = refl;
  })
  start-Invariant false = at_end refl (record {
    plain_up = ([], refl);
    tls_up = ([], refl);
    plain_down = ([], refl);
    tls_down = ([], refl);
  })

  -- Whatever the browser, the target and the relay's own tasks do, in any order, with writes that fail at
  -- any byte: in any state that the relay comes to, the target got, in the plain stream, the first of the
  -- bytes that the browser sent before its first request for TLS, in order, and within TLS the first of
  -- those behind the request, and nothing else; the browser got the first of the target's bytes, those
  -- of the plain stream before the relay's text and those of TLS behind it. While the relay runs,
  -- nothing of them is missing but what a task holds at that moment.
  pub run-IsTransparent :
      (connected : Bool) (events : List (Answers × Event))
      → IsTransparent json (run json events (handle_ws connected))
        × Invariant json (run json events (handle_ws connected))
  run-IsTransparent connected events =
      let i = run-Invariant events (handle_ws connected) (start-Invariant connected) in
      (Invariant-IsTransparent json _ i, i)
