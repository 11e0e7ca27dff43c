-- ===== src/Formatter/Failures.antt =====
-- The failed scenarios of the summary, and the scenarios that the log calls failed.
use xds_test_harness.Base.{
  ◌≡◌, ◌↔◌, inl, inr, refl, sym, ◌∙◌, ap, Bool, true, false, Bool-cases, Option, if◌then◌else◌,
  subst, none, some, some→≡, some-of-none, List, [], ◌∷◌, ◌++◌,
}
use xds_test_harness.Text.{Text, codes}
use xds_test_harness.Types.{FailedScenario}
use xds_test_harness.Formatter.{
  ◌>>=◌, Scenario, Storage, StepResult, Feature, FeatureStep, feature_step, step_of, is_failed,
  fail_from, did_scenario_fail, gather_from, gather_failed_scenarios,
}

-- What is reported of a result: the feature is the one at the uri of the scenario, and the step of it
-- is the one of the first node of the pickle step.
abbrev pub Reported : Storage → StepResult → FailedScenario → Type 0
Reported storage r s =
    (scenario : Scenario) × (storage.pickle r.pickle_id ≡ some scenario)
    × (scenario.name ≡ s.name)
    × (f : Feature) × (storage.feature scenario.uri ≡ some f)
    × (n : Text) × (nodes : List Text) × (storage.pickle_step r.pickle_step_id ≡ some (n ∷ nodes))
    × (at : FeatureStep) × (f.find_step n ≡ some at)
    × (s.failed_step ≡ at.text)
    × (s.line ≡ f.uri ++ (codes ":" ++ at.line))
    × (r.error ≡ some s.error)

-- One report for each result, in order.
abbrev pub AllReported : Storage → List StepResult → List FailedScenario → Type 0
AllReported storage [] [] = Unit
AllReported storage (r ∷ rs) (s ∷ ss) = Reported storage r s × AllReported storage rs ss
AllReported storage _ _ = ⊥

bind-some :
    {A B : Type 0} (m : Option A) (f : A → Option B) (b : B)
    → (m >>= f) ≡ some b
    → (a : A) × (m ≡ some a) × (f a ≡ some b)
bind-some none f b h = some-of-none h
bind-some (some a) f b h = (a, refl, h)

-- Where the step of a result is.
step_of-some :
    (storage : Storage) (scenario : Scenario) (r : StepResult) (f : Feature) (at : FeatureStep)
    → step_of storage scenario r ≡ some (f, at)
    → (storage.feature scenario.uri ≡ some f)
      × (n : Text) × (nodes : List Text) × (storage.pickle_step r.pickle_step_id ≡ some (n ∷ nodes))
      × (f.find_step n ≡ some at)
unfolding step_of feature_step
step_of-some storage scenario r f at h =
    let (f', e, h1) = bind-some _ _ _ h in
    let (nodes, e1, h2) = bind-some _ _ _ h1 in
    let (at', e2, h3) = bind-some (feature_step f' nodes) _ _ h2 in
    let same : f' ≡ f = ap (λ p. p.0) (some→≡ h3) in
    let same' : at' ≡ at = ap (λ p. p.1) (some→≡ h3) in
    let (n, ns, first, found) =
      node nodes e1 (ap (λ x. feature_step x nodes) (sym same) ∙ e2 ∙ ap some same') in
    (e ∙ ap some same, n, ns, first, found)
  where
    node :
        (nodes : List Text)
        → storage.pickle_step r.pickle_step_id ≡ some nodes
        → feature_step f nodes ≡ some at
        → (n : Text) × (nodes : List Text) × (storage.pickle_step r.pickle_step_id
            ≡ some (n ∷ nodes))
          × (f.find_step n ≡ some at)
    node [] e k = some-of-none k
    node (n ∷ ns) e k = (n, ns, e, k)

some-step_of :
    (storage : Storage) (scenario : Scenario) (r : StepResult) (f : Feature) (at : FeatureStep)
    (n : Text) (nodes : List Text)
    → storage.feature scenario.uri ≡ some f
    → storage.pickle_step r.pickle_step_id ≡ some (n ∷ nodes)
    → f.find_step n ≡ some at
    → step_of storage scenario r ≡ some (f, at)
unfolding step_of feature_step
some-step_of storage scenario r f at n nodes e e1 e2 = rw (step_of, e, e1, e2)

abbrev report_of : Scenario → Feature × FeatureStep → Text → FailedScenario
report_of scenario at e = record {
  name = scenario.name;
  failed_step = at.1.text;
  line = at.0.uri ++ (codes ":" ++ at.1.line);
  error = e;
}

gather_from-AllReported :
    (storage : Storage) (rs : List StepResult) (ss : List FailedScenario)
    → gather_from storage rs ≡ some ss
    → AllReported storage rs ss
unfolding gather_from
gather_from-AllReported storage [] ss h = subst (AllReported storage []) (some→≡ h) tt
gather_from-AllReported storage (r ∷ rs) ss h =
    let (scenario, e, h1) = bind-some _ _ _ h in
    let (at, e1, h2) = bind-some _ _ _ h1 in
    let (error, e2, h3) = bind-some _ _ _ h2 in
    let (rest, e3, h4) = bind-some _ _ _ h3 in
    let (of_uri, n, nodes, first, found) = step_of-some storage scenario r at.0 at.1 e1 in
    subst (AllReported storage (r ∷ rs)) {x = report_of scenario at error ∷ rest} (some→≡ h4) (
      (scenario, e, refl, at.0, of_uri, n, nodes, first, at.1, found, refl, refl, e2),
      gather_from-AllReported storage rs rest e3,
    )

reported_eq :
    (n t l : Text) (s : FailedScenario)
    → n ≡ s.name
    → s.failed_step ≡ t
    → s.line ≡ l
    → record { name = n; failed_step = t; line = l; error = s.error } ≡ s
reported_eq n t l s hn ht hl = rw (hn, sym ht, sym hl)

AllReported-gather_from :
    (storage : Storage) (rs : List StepResult) (ss : List FailedScenario)
    → AllReported storage rs ss
    → gather_from storage rs ≡ some ss
unfolding gather_from
AllReported-gather_from storage [] [] h = refl
AllReported-gather_from storage [] (s ∷ ss) h = absurd h
AllReported-gather_from storage (r ∷ rs) [] h = absurd h
AllReported-gather_from storage (r ∷ rs) (s ∷ ss)
      ((scenario, e, n, f, of_uri, node, nodes, first, at, found, t, l, e2), hs) =
    let e1 = some-step_of storage scenario r f at node nodes of_uri first found in
    rw (gather_from, e, e1, e2, AllReported-gather_from storage rs ss hs)
      (ap (λ q. some (q ∷ ss)) (reported_eq scenario.name at.text _ s n t l))

-- Gathering the failed scenarios gives a list exactly when the storage has what it takes to report
-- every failed result: the name of its scenario, the text of its step, the place of the step in the
-- feature's file, and the error. The list has these reports, one for each failed result, in order.
pub gather_failed_scenarios_iff :
    (storage : Storage) (ss : List FailedScenario)
    → (gather_failed_scenarios storage ≡ some ss) ↔ AllReported storage storage.failed_results ss
unfolding gather_failed_scenarios
gather_failed_scenarios_iff storage ss =
    (gather_from-AllReported storage _ ss, AllReported-gather_from storage _ ss)

-- Whether a result in the list has failed.
abbrev pub any_failed : List StepResult → Bool
any_failed [] = false
any_failed (r ∷ rs) = if is_failed r.status then true else any_failed rs

or_false : (b : Bool) → (if b then true else false) ≡ b
or_false true = refl
or_false false = refl

or_true : (b : Bool) → (if b then true else true) ≡ true
or_true true = refl
or_true false = refl

module _ (storage : Storage) (scenario : Scenario) (found : Bool × Text × Text) where
  fail_from-hit :
      (r : StepResult) (rs : List StepResult)
      → is_failed r.status ≡ true
      → fail_from storage scenario found (r ∷ rs) ≡ (
          step_of storage scenario r >>= λ at.
          r.error >>= λ e. fail_from storage scenario (true, at.1.text, e) rs)
  unfolding fail_from
  fail_from-hit r rs h = rw (fail_from, h)

  fail_from-miss :
      (r : StepResult) (rs : List StepResult)
      → is_failed r.status ≡ false
      → fail_from storage scenario found (r ∷ rs) ≡ fail_from storage scenario found rs
  unfolding fail_from
  fail_from-miss r rs h = rw (fail_from, h)

fail_from-failed :
    (storage : Storage) (scenario : Scenario) (found last : Bool × Text × Text)
    (rs : List StepResult)
    → fail_from storage scenario found rs ≡ some last
    → last.0 ≡ (if found.0 then true else any_failed rs)
unfolding fail_from
fail_from-failed storage scenario found last [] h =
    ap (λ l. l.0) (some→≡ (sym h)) ∙ sym (or_false found.0)
fail_from-failed storage scenario found last (r ∷ rs) h = elim (Bool-cases (is_failed r.status)) [
  | inl e ↦
      let (at, _, h1) =
        bind-some (step_of storage scenario r) _ _
          (sym (fail_from-hit storage scenario found r rs e) ∙ h) in
      let (error, _, h2) =
        bind-some r.error (λ e'. fail_from storage scenario (true, at.1.text, e') rs) last h1 in
      fail_from-failed storage scenario (true, at.1.text, error) last rs h2
      ∙ rw e (sym (or_true found.0))
  | inr e ↦
      fail_from-failed storage scenario found last rs
        (sym (fail_from-miss storage scenario found r rs e) ∙ h)
      ∙ rw e
]

-- When didScenarioFail does not panic, it says yes exactly when a result of the scenario has failed.
did_scenario_fail-failed :
    (storage : Storage) (scenario : Scenario) (failed : Bool) (step error : Text)
    → did_scenario_fail storage scenario ≡ some (failed, step, error)
    → failed ≡ any_failed (storage.results_of scenario.id)
unfolding did_scenario_fail
did_scenario_fail-failed storage scenario failed step error h =
    fail_from-failed storage scenario (false, [], []) (failed, step, error)
      (storage.results_of scenario.id) h
