-- ===== src/Session/Step/Runs.antt =====
-- Induction over an interleaving.
use xds_test_harness.Base.{
  ◌≡◌, ◌∙◌, arith, false, some, List, [], ◌∷◌, Option-cases, some→≡, some-of-none, ap, subst, inl,
  inr,
}
use xds_test_harness.Proto.{Anypb}
use xds_test_harness.Session.{Session, Event}
use xds_test_harness.Session.Step.{move, step, run}

module _ {Any : Type 0} (pb : Anypb Any) where
  -- A step is a move of a state that has not panicked.
  pub step-move :
      (e : Event Any) (s t : Session Any)
      → step pb e s ≡ some t
      → (s.panicked ≡ false) × (move pb e s ≡ some t)
  unfolding step
  step-move e s t h = ground arith

  -- The first step of an interleaving, and the rest.
  pub run-first :
      (e : Event Any) (es : List (Event Any)) (s t : Session Any)
      → run pb (e ∷ es) s ≡ some t
      → (u : Session Any) × (step pb e s ≡ some u) × (run pb es u ≡ some t)
  unfolding run
  run-first e es s t h = elim (Option-cases (step pb e s)) [
    | inl blocked ↦ some-of-none (rw (blocked, run) at h)
    | inr (u, moved) ↦ (u, moved, rw (moved, run) at h)
  ]

  -- What every step keeps holds behind every interleaving.
  pub run-keeps {κ} :
      (P : Session Any → Type κ)
      → ((e : Event Any) (s t : Session Any) → step pb e s ≡ some t → P s → P t)
      → (es : List (Event Any)) (s t : Session Any) → run pb es s ≡ some t
      → P s
      → P t
  unfolding run
  run-keeps P keeps [] s t h p = subst P (some→≡ h) p
  run-keeps P keeps (e ∷ es) s t h p =
      let (u, moved, rest) = run-first e es s t h in
      run-keeps P keeps es u t rest (keeps e s u moved p)

  -- A state that goes on to one that has not panicked has not panicked.
  pub run-panicked :
      (es : List (Event Any)) (s t : Session Any)
      → run pb es s ≡ some t
      → t.panicked ≡ false
      → s.panicked ≡ false
  unfolding run
  run-panicked [] s t h ok = ap (λ (u : Session Any). u.panicked) (some→≡ h) ∙ ok
  run-panicked (e ∷ es) s t h ok =
      let (u, moved, rest) = run-first e es s t h in (step-move e s u moved).0
