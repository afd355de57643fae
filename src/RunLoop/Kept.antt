-- ===== src/RunLoop/Kept.antt =====
-- wasm/src/session.rs: the parts of `run_session` that leave the pending redirection.
use wasm_rdp.Prelude.{
  ℕ, zero, suc, ◌≡◌, refl, ◌∙◌, ap, sym, Bool, true, false, ◌||◌, Option, none, some, List, [], ◌∷◌,
  ◌++◌, map, codes, same_text, contains_text, ◌==◌, length, if◌then◌else◌, Outcome, returned,
  Bool-cases, inl, inr,
}
use wasm_rdp.Prelude
use wasm_rdp.Framed.{Read, Run, ok, bail}
use wasm_rdp.Framed
use wasm_rdp.RunLoop.Stage.{Stage}
use wasm_rdp.RunLoop.Loop.{
  Cause, Flow, next, returns, fails, panics, out_of_fuel, Client, Loop, proceed, bind, or_fail,
  of_outcome, send_frame, of_run, reader,
}

abbrev pub redirected : List ℕ
redirected = codes "redirected"

abbrev pub is_redirected : {A : Type 0} → Flow A → Bool
is_redirected (next a) = false
is_redirected (returns tag) = same_text tag redirected
is_redirected (fails e) = false
is_redirected panics = false
is_redirected out_of_fuel = false

module _ (S : Stage) where
  -- A part that leaves the pending redirection and does not return `redirected`.
  pub record Kept {A : Type 0} (c : Client S) (p : Flow A × Client S) : Type 0 where
    pub same : p.1.pending ≡ c.pending
    pub not_redirected : is_redirected (p.0) ≡ false

  abbrev pub Keeps : {A : Type 0} → Loop S A → Type 0
  Keeps m = (c : Client S) → Kept c (m c)

  pub Kept-proceed :
      {A B : Type 0} (k : A → Loop S B) (c : Client S) (p : Flow A × Client S)
      → Kept c p
      → ((a : A) → Keeps (k a))
      → Kept c (proceed S k p)
  Kept-proceed k c (next a, d) h keeps = record {
    same = (keeps a d).same ∙ h.same;
    not_redirected = (keeps a d).not_redirected;
  }
  Kept-proceed k c (returns tag, d) h keeps = record {
    same = h.same;
    not_redirected = h.not_redirected;
  }
  Kept-proceed k c (fails e, d) h keeps = record { same = h.same; not_redirected = refl }
  Kept-proceed k c (panics, d) h keeps = record { same = h.same; not_redirected = refl }
  Kept-proceed k c (out_of_fuel, d) h keeps = record { same = h.same; not_redirected = refl }

  pub Keeps-bind :
      {A B : Type 0} (m : Loop S A) (k : A → Loop S B)
      → Keeps m
      → ((a : A) → Keeps (k a))
      → Keeps (bind S m k)
  Keeps-bind m k h keeps c = Kept-proceed k c (m c) (h c) keeps

  pub still :
      {A : Type 0} {c : Client S} {r : Flow A} {d : Client S}
      → d.pending ≡ c.pending
      → is_redirected r ≡ false
      → Kept c (r, d)
  still e h = record { same = e; not_redirected = h }

  pub Keeps-or_fail : {A : Type 0} (e : Cause) (o : Option A) → Keeps (or_fail S e o)
  Keeps-or_fail e none c = still refl refl
  Keeps-or_fail e (some a) c = still refl refl

  pub Keeps-of_outcome : {A : Type 0} (o : Outcome A) → Keeps (of_outcome S o)
  Keeps-of_outcome (returned a) c = still refl refl
  Keeps-of_outcome Prelude.panicked c = still refl refl

  pub Kept-if :
      {A : Type 0} {c : Client S} (b : Bool) (p q : Flow A × Client S)
      → Kept c p
      → Kept c q
      → Kept c (if b then p else q)
  Kept-if true p q h k = h
  Kept-if false p q h k = k

  pub send_frame-Keeps : (frame : List ℕ) → Keeps (send_frame S frame)
  unfolding send_frame
  send_frame-Keeps frame c = elim (Bool-cases (c.room == 0)) [
    | inl e ↦ rw e (still refl refl)
    | inr e ↦ rw e (still refl refl)
  ]

  of_run-not_redirected : {A : Type 0} (r : Run A) → is_redirected (of_run S r) ≡ false
  of_run-not_redirected (ok a) = refl
  of_run-not_redirected (bail e) = refl
  of_run-not_redirected Framed.panic = refl
  of_run-not_redirected Run.out_of_fuel = refl

  pub reader-Keeps : {A : Type 0} (m : Read A) → Keeps (reader S m)
  unfolding reader
  reader-Keeps m c = still refl (of_run-not_redirected ((m (c.framed)).0))
