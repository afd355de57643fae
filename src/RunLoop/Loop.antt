-- ===== src/RunLoop/Loop.antt =====
-- wasm/src/session.rs: the state of `run_session`, and what a part of it comes to.
use wasm_rdp.Prelude.{
  ℕ, ◌+◌, ◌-◌, ◌%◌, ◌^◌, Bool, true, false, Option, none, some, List, [], ◌∷◌, ◌++◌, map, ◌==◌,
  if◌then◌else◌, Outcome, returned, panicked,
}
use wasm_rdp.Prelude
use wasm_rdp.Canvas.{Canvas, Put}
use wasm_rdp.Framed.{WasmFramed, Reason, Run, ok, bail, Read}
use wasm_rdp.Framed
use wasm_rdp.Redirect.{PendingRedirect}
use wasm_rdp.RunLoop.Stage.{Stage, Pointer}
use wasm_rdp.RunLoop.Windows.{WindowCall}

pub data Cause : Type 0 where
  reading : Reason → Cause
  input_failed : Cause
  not_sent : Cause
  not_encoded : Cause
  shutdown_failed : Cause
  reactivation_failed : Cause

-- A value, the tag that `run_session` returns, an error, a panic, or a model's fuel that ran out.
pub data Flow (A : Type 0) : Type 0 where
  next : A → Flow A
  returns : List ℕ → Flow A
  fails : Cause → Flow A
  panics : Flow A
  out_of_fuel : Flow A

-- What the page is told; a surface is named by its place.
pub data Call : Type 0 where
  put_image : ℕ → Put → Call
  notify_frame : Call
  set_cursor : ℕ → List ℕ → Call
  set_custom_cursor : ℕ → Pointer → Call
  notify_desktop_resized : ℕ → ℕ → Call
  window : WindowCall → Call

module _ (S : Stage) where
  -- The oldest frame and the oldest call first; the writer takes `room` more frames before it is closed.
  -- `pending` is `PENDING_REDIRECT`.
  pub record Client : Type 0 where
    pub framed : WasmFramed
    pub stage : S.State
    pub image : S.DecodedImage
    pub surfaces : List Canvas
    pub egfx_active : Bool
    pub legacy_paints : ℕ
    pub frames : List (List ℕ)
    pub room : ℕ
    pub pending : Option PendingRedirect
    pub calls : List Call

  abbrev pub Loop : Type 0 → Type 0
  Loop A = Client → Flow A × Client

  abbrev pub proceed : {A B : Type 0} → (A → Loop B) → Flow A × Client → Flow B × Client
  proceed k (next a, c) = k a c
  proceed k (returns tag, c) = (returns tag, c)
  proceed k (fails e, c) = (fails e, c)
  proceed k (panics, c) = (panics, c)
  proceed k (out_of_fuel, c) = (out_of_fuel, c)

  abbrev pub bind : {A B : Type 0} → Loop A → (A → Loop B) → Loop B
  bind m k c = proceed k (m c)

  abbrev pub pure : {A : Type 0} → A → Loop A
  pure a c = (next a, c)

  abbrev pub fail : {A : Type 0} → Cause → Loop A
  fail e c = (fails e, c)

  abbrev pub finish : {A : Type 0} → List ℕ → Loop A
  finish tag c = (returns tag, c)

  abbrev pub or_fail : {A : Type 0} → Cause → Option A → Loop A
  or_fail e none = fail e
  or_fail e (some a) = pure a

  abbrev pub of_outcome : {A : Type 0} → Outcome A → Loop A
  of_outcome (returned a) c = (next a, c)
  of_outcome Prelude.panicked c = (panics, c)

  abbrev pub change : (Client → Client) → Loop (Unit {0})
  change f c = (next tt, f c)

  abbrev pub tell : List Call → Loop (Unit {0})
  tell new = change λ c. record c { calls = c.calls ++ new }

  -- `writer_tx.unbounded_send(frame)?`
  unfoldable pub send_frame : List ℕ → Loop (Unit {0})
  send_frame frame c =
      if c.room == 0
      then (fails not_sent, c)
      else (next tt, record c { frames = c.frames ++ frame ∷ []; room = c.room - 1 })

  abbrev pub of_run : {A : Type 0} → Run A → Flow A
  of_run (ok a) = next a
  of_run (bail e) = fails (reading e)
  of_run Framed.panic = panics
  of_run Run.out_of_fuel = out_of_fuel

  unfoldable pub reader : {A : Type 0} → Read A → Loop A
  reader m c = let (r, f) = m (c.framed) in (of_run r, record c { framed = f })
