-- ===== src/Rail/Client/Launch.antt =====
-- crates/ironrdp-rail/src/client.rs: what a whole session of the channel sends and reports.
use wasm_rdp.Prelude.{
  ℕ, ◌≡◌, refl, ◌∙◌, ap, Bool, true, false, ◌||◌, List, [], ◌∷◌, ◌++◌, append_assoc, append-nil,
  map, if◌then◌else◌, returned,
}
use wasm_rdp.Rail.Wire.{WireError, Result, ok, err, ReadCursor}
use wasm_rdp.Rail.Pdu.{
  Text, ClientRailOrder, client_status, sys_param_high_contrast_off, sys_param_work_area, exec,
  ExecResult, ServerRailOrder, other,
}
use wasm_rdp.Rail.Pdu.Decode.{meaning, decode-meaning}
use wasm_rdp.Rail.Client.{
  Rail, client_init, handle_order, Svc, msg, handle_pdu, messages, process, process_each,
}

-- The server's orders in a session, in their order; a payload that is no order is left out.
unfoldable pub orders_of : List (Result ServerRailOrder) → List ServerRailOrder
orders_of [] = []
orders_of (ok o ∷ os) = o ∷ orders_of os
orders_of (err e ∷ os) = orders_of os

abbrev pub is_handshake : ServerRailOrder → Bool
is_handshake ServerRailOrder.handshake = true
is_handshake _ = false

unfoldable pub any_handshake : List ServerRailOrder → Bool
any_handshake [] = false
any_handshake (o ∷ os) = is_handshake o || any_handshake os

unfoldable pub exec_results : List ServerRailOrder → List ExecResult
exec_results [] = []
exec_results (ServerRailOrder.exec_result result ∷ os) = result ∷ exec_results os
exec_results (ServerRailOrder.handshake ∷ os) = exec_results os
exec_results (other t ∷ os) = exec_results os

-- The successful answers one after the other, and the errors.
unfoldable pub sent {ℓ} : {A : Type ℓ} → List (Result (List A)) → List A
sent [] = []
sent (ok xs ∷ rs) = xs ++ sent rs
sent (err e ∷ rs) = sent rs

unfoldable pub errors {ℓ} : {A : Type ℓ} → List (Result A) → List WireError
errors [] = []
errors (ok a ∷ rs) = errors rs
errors (err e ∷ rs) = e ∷ errors rs

-- The five orders that launch the program, in their order: the build number is 7601, the work area is
-- the whole desktop.
abbrev pub launch : (S : Svc) → Rail → List (S.SvcMessage)
launch S rail = map (msg S) (
    ClientRailOrder.handshake 7601
    ∷ client_status 0
    ∷ sys_param_high_contrast_off
    ∷ sys_param_work_area (rail.width) (rail.height)
    ∷ exec (rail.program) (rail.working_dir) (rail.arguments)
    ∷ [])

module _ (S : Svc) (R : ReadCursor) where
  open S use {SvcMessage}

  -- What a session from `rail` amounts to: the answers, and the processor after it.
  abbrev Amounts :
      Rail → List (Result ServerRailOrder) → List (Result (List SvcMessage)) × Rail → Type 0
  Amounts rail ms out =
      (sent (out.0) ≡ (
        if rail.handshake_done
        then []
        else (if any_handshake (orders_of ms) then launch S rail else [])))
      × (errors (out.0) ≡ errors ms)
      × (out.1 ≡ record rail {
        handler = rail.handler ++ exec_results (orders_of ms);
        handshake_done = rail.handshake_done || any_handshake (orders_of ms);
      })

  answers : Rail → List (Result ServerRailOrder) → List (Result (List SvcMessage)) × Rail
  answers rail [] = ([], rail)
  answers rail (m ∷ ms) =
      let first = handle_order rail m in
      let rest = answers (first.1) ms in (messages S R (first.0) ∷ rest.0, rest.1)

  process_each-answers :
      (rail : Rail) (payloads : List (List ℕ))
      → process_each S R rail payloads ≡ returned (answers rail (map meaning payloads))
  unfolding process_each process handle_pdu answers
  process_each-answers rail [] = refl
  process_each-answers rail (p ∷ ps) =
      rw (decode-meaning R p, process_each-answers ((handle_order rail (meaning p)).1) ps)

  answers-Amounts :
      (done : Bool) (handler : List ExecResult) (program dir arguments : Text) (width height : ℕ)
      (ms : List (Result ServerRailOrder))
      → let rail : Rail = record {
        handler = handler;
        program = program;
        working_dir = dir;
        arguments = arguments;
        width = width;
        height = height;
        handshake_done = done;
      } in
        Amounts rail ms (answers rail ms)
  unfolding answers handle_order sent errors orders_of any_handshake exec_results client_init
  answers-Amounts true h p d a x y [] = (refl, refl, rw (append-nil h))
  answers-Amounts false h p d a x y [] = (refl, refl, rw (append-nil h))
  answers-Amounts done h p d a x y (err e ∷ ms) =
      let (s, e', r) = answers-Amounts done h p d a x y ms in (s, ap (λ es. e ∷ es) e', r)
  answers-Amounts true h p d a x y (ok ServerRailOrder.handshake ∷ ms) =
      answers-Amounts true h p d a x y ms
  answers-Amounts false h p d a x y (ok ServerRailOrder.handshake ∷ ms) =
      let (s, e', r) = answers-Amounts true h p d a x y ms in (rw s (append-nil _), e', r)
  answers-Amounts done h p d a x y (ok (ServerRailOrder.exec_result r) ∷ ms) =
      let (s, e', end) = answers-Amounts done (h ++ (r ∷ [])) p d a x y ms in
      (s, e', rw (← append_assoc h (r ∷ []) (exec_results (orders_of ms))) end)
  answers-Amounts done h p d a x y (ok (other t) ∷ ms) = answers-Amounts done h p d a x y ms

  -- Over any payloads, the processor never panics and answers each. The init burst (handshake, client
  -- information, high contrast off, work area, execute) is sent once, when the first server handshake
  -- arrives, and nothing else is ever sent; a channel that has shaken hands sends nothing. The errors are
  -- those of the payloads that are no order, and change nothing; the handler is told each execute result,
  -- in order.
  pub process_each-launch :
      (rail : Rail) (payloads : List (List ℕ))
      → (results : List (Result (List SvcMessage))) × (process_each S R rail payloads
          ≡ returned (
            results,
            record rail {
              handler = rail.handler ++ exec_results (orders_of (map meaning payloads));
              handshake_done =
                  rail.handshake_done || any_handshake (orders_of (map meaning payloads));
            },
          ))
        × (sent results ≡ (
            if rail.handshake_done
            then []
            else (if any_handshake (orders_of (map meaning payloads)) then launch S rail else [])))
        × (errors results ≡ errors (map meaning payloads))
  process_each-launch rail payloads =
      let ms = map meaning payloads in
      let (s, e, end) =
        answers-Amounts (rail.handshake_done) (rail.handler) (rail.program) (rail.working_dir)
          (rail.arguments) (rail.width) (rail.height) ms in
      (
        (answers rail ms).0,
        process_each-answers rail payloads ∙ ap (λ r. returned ((answers rail ms).0, r)) end,
        s,
        e,
      )
