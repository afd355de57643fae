-- ===== src/RunLoop/Redirected.antt =====
-- wasm/src/session.rs: the redirection that a session leaves came from its server.
use wasm_rdp.Prelude.{ℕ, ◌≡◌, refl, some, List, [], ◌∷◌, ◌++◌}
use wasm_rdp.Canvas.{Page}
use wasm_rdp.Framed.{Action}
use wasm_rdp.Redirect.{RedirectionPacket}
use wasm_rdp.RunLoop.Stage.{Stage, Shared, redirect, Event}
use wasm_rdp.RunLoop.Loop.{Client}
use wasm_rdp.RunLoop.Input.{Outputs}
use wasm_rdp.RunLoop.Output.{handle_outputs}
use wasm_rdp.RunLoop.Turn.{Settings, outputs_of, turn, run_session}
use wasm_rdp.RunLoop.Kept.{still}
use wasm_rdp.RunLoop.Handed.{
  Holds, Handed, kept, Handed-proceed, Handed-map, after_kept, handle_outputs-Handed,
}
use wasm_rdp.RunLoop.Sources.{
  Source, of_process, of_fast_path, of_shutdown, no_output, one_frame, one_update,
  outputs_of-Sourced,
}

module _ (page : Page) (S : Stage) (settings : Settings) where
  -- The active stage gave the packet.
  pub data Gave (packet : RedirectionPacket) : Type 0 where
    by_process :
        (action : Action) (payload : List ℕ) (before : S.State × S.DecodedImage × Shared)
        (outputs : Outputs S)
        → (S.process action payload before).0 ≡ some outputs
        → Holds page S packet outputs
        → Gave packet
    by_fast_path :
        (events : S.FastPathInput) (before : S.State × S.DecodedImage) (outputs : Outputs S)
        → (S.process_fastpath_input events before).0 ≡ some outputs
        → Holds page S packet outputs
        → Gave packet
    by_shutdown :
        (before : S.State) (outputs : Outputs S)
        → (S.graceful_shutdown before).0 ≡ some outputs
        → Holds page S packet outputs
        → Gave packet

  not_empty :
      {A : Type 0} (packet : RedirectionPacket) (before after : Outputs S)
      → [] ≡ before ++ redirect packet ∷ after
      → A
  not_empty packet [] after h = absurd (cc)
  not_empty packet (out ∷ before) after h = absurd (cc)

  gave :
      (packet : RedirectionPacket) {outputs : Outputs S}
      → Source page S settings outputs
      → Holds page S packet outputs
      → Gave packet
  gave packet (of_process action payload before e) holds =
      by_process action payload before _ e holds
  gave packet (of_fast_path events before e) holds = by_fast_path events before _ e holds
  gave packet (of_shutdown before e) holds = by_shutdown before _ e holds
  gave packet no_output (before, after, e) = not_empty packet before after e
  gave packet (one_frame frame) ([], after, e) = absurd (cc)
  gave packet (one_frame frame) (out ∷ before, after, e) = not_empty packet before after (cc)
  gave packet (one_update region) ([], after, e) = absurd (cc)
  gave packet (one_update region) (out ∷ before, after, e) = not_empty packet before after (cc)

  turn-Handed : (e : Event S) (c : Client S) → Handed page S Gave c (turn page S settings e c)
  unfolding turn
  turn-Handed e c =
      let s = outputs_of-Sourced page S settings e c in
      after_kept page S (handle_outputs page S (settings.rail_mode) (settings.fuel)) c
        (outputs_of page S settings e c) (s.keeps)
        λ outputs d given.
          let source : Source page S settings outputs = rw given at (s.source) in
          Handed-map page S (λ packet holds. gave packet source holds)
            (handle_outputs-Handed page S (settings.rail_mode) (settings.fuel) outputs d)

  -- However a session runs, it ends with the tag `redirected` only behind a redirection that its active
  -- stage gave, and then the packet's is the pending one; otherwise the pending redirection is as it was.
  pub run_session-Handed :
      (events : List (Event S)) (c : Client S)
      → Handed page S Gave c (run_session page S settings events c)
  unfolding run_session
  run_session-Handed [] c = kept (still S refl refl)
  run_session-Handed (e ∷ events) c =
      Handed-proceed page S (λ _. run_session page S settings events) c (turn page S settings e c)
        (turn-Handed e c) (λ packet g. g) λ _ d _. run_session-Handed events d
