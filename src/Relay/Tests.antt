-- ===== src/Relay/Tests.antt =====
-- server/src/main.rs: the relay at concrete inputs.
use wasm_rdp.Prelude.{◌≡◌, refl, true, none, some, List, [], ◌∷◌, codes, same_text, if◌then◌else◌}
use wasm_rdp.Relay.{
  binary, text, message, got, secured, Json, Answers, Event, from_browser, from_target,
  target_takes, target_fails, browser_takes, run, handle_ws, hex_encode,
}
use wasm_rdp.Relay.Invariant.{IsTransparent, Invariant}
use wasm_rdp.Relay.Transparent.{run-IsTransparent}

abbrev json : Json
json = record {
  cmd = λ t. if same_text t (codes "up") then some (codes "tls_upgrade") else none;
  tls_ready = λ hex. hex;
  tls_error = λ why. why;
}

abbrev answers : Answers
answers = record { write_fails = none; sends = true; handshake = secured (some (some (0xAB ∷ []))) }

-- A request and its answer, the upgrade, and a write within TLS that fails behind a byte while the
-- target's message is being sent.
abbrev events : List (Answers × Event)
events =
    (answers, from_browser (message (binary (1 ∷ 2 ∷ []))))
    ∷ (answers, from_target (got (3 ∷ [])))
    ∷ (answers, from_browser (message (text (codes "up"))))
    ∷ (answers, from_browser (message (binary (4 ∷ 5 ∷ []))))
    ∷ (answers, from_target (got (6 ∷ [])))
    ∷ (answers, target_takes 1)
    ∷ (answers, browser_takes)
    ∷ (answers, target_fails)
    ∷ []

passed_on : (run json events (handle_ws true)).tls_got ≡ 4 ∷ []
unfolding run handle_ws same_text
passed_on = refl

certificate_sent :
    (run json events (handle_ws true)).browser_got
    ≡ binary (3 ∷ []) ∷ text (codes "ab") ∷ binary (6 ∷ []) ∷ []
unfolding run handle_ws same_text hex_encode
certificate_sent = refl

run-IsTransparent_example :
    IsTransparent json (run json events (handle_ws true))
    × Invariant json (run json events (handle_ws true))
run-IsTransparent_example = run-IsTransparent json true events
