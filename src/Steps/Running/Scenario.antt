-- ===== src/Steps/Running/Scenario.antt =====
-- A scenario from its texts: a subscription, a session, and a check.
use xds_test_harness.Base.{
  ◌≡◌, ◌↔◌, iff_trans, inl, inr, refl, sym, ◌∙◌, ap, subst, false, Option, none, some, some→≡, List,
  [], ◌∷◌, All,
}
use xds_test_harness.Text.{Text, codes}
use xds_test_harness.Text.Parts.{Lacks, split}
use xds_test_harness.Dict.{lookup}
use xds_test_harness.Errors.{ok}
use xds_test_harness.Proto.{Anypb}
use xds_test_harness.Parser.{service_to_type_url}
use xds_test_harness.Service.{Channels}
use xds_test_harness.Validate.{at_type}
use xds_test_harness.Runner.{Runner}
use xds_test_harness.Session.{Session, Event, start}
use xds_test_harness.Session.Step.{run}
use xds_test_harness.Session.Step.History.{history, is_reset}
use xds_test_harness.Session.Step.History.Checks.{
  LastAt, LastRemoved, run-receives_iff, run-receives_removal_iff,
}
use xds_test_harness.Steps.{Verdict, passed, started}
use xds_test_harness.Steps.Subscriptions.{client_subscribes, wildcard_subscription}
use xds_test_harness.Steps.Subscriptions.Tracking.{client_subscribes-Tracks}
use xds_test_harness.Steps.Receiving.{receives, receives_removal, on_timer}
use xds_test_harness.Steps.Loading.{
  Pattern, client_does_a_wildcard_subscription_to_service,
  client_receives_resources_and_version_for_service,
  client_receives_notice_that_resource_was_removed_for_service,
}
use xds_test_harness.Steps.Loading.Dispatch.{render}
use xds_test_harness.Steps.Running.{
  Surroundings, Ran, undefined_step, mismatched, ran, call, run_text,
}
use xds_test_harness.Steps.Running.Calls.{run_text-call}

abbrev wildcard_pattern : Pattern
wildcard_pattern = record {
  first = codes "the Client does a wildcard subscription to ";
  rest = codes "" ∷ [];
}

abbrev receives_pattern : Pattern
receives_pattern = record {
  first = codes "the Client receives the resources ";
  rest = codes " and version " ∷ codes " for " ∷ codes "" ∷ [];
}

abbrev removal_pattern : Pattern
removal_pattern = record {
  first = codes "the Client receives notice that resource ";
  rest = codes " was removed for service " ∷ codes "" ∷ [];
}

-- The texts of the three steps.
abbrev pub wildcard_text : Text → Text
wildcard_text service = render wildcard_pattern (service ∷ [])

abbrev pub receives_text : Text → Text → Text → Text
receives_text resources version service =
    render receives_pattern (resources ∷ version ∷ service ∷ [])

abbrev pub removal_text : Text → Text → Text
removal_text resource service = render removal_pattern (resource ∷ service ∷ [])

abbrev runner_of : {Any Conn : Type 0} → Ran Any Conn → Option (Runner Any Conn)
runner_of undefined_step = none
runner_of mismatched = none
runner_of (ran r c v) = some r

abbrev verdict_in : {Any Conn : Type 0} → Ran Any Conn → Option Verdict
verdict_in undefined_step = none
verdict_in mismatched = none
verdict_in (ran r c v) = some v

module _ {Any Conn : Type 0} (pb : Anypb Any) (w : Surroundings Any Conn) where
  pub run_text-wildcard :
      (service : Text) (r : Runner Any Conn)
      → Lacks b'"' service
      → run_text pb w (wildcard_text service) r
        ≡ ran
            (client_subscribes pb w.opens service [] r).0
            none
            (client_subscribes pb w.opens service [] r).1
  unfolding call wildcard_subscription
  run_text-wildcard service r h =
      run_text-call pb w client_does_a_wildcard_subscription_to_service wildcard_pattern
        (service ∷ []) r (inr (inr (inl refl))) (h, tt)

  run_text-receives :
      (resources version service : Text) (r : Runner Any Conn)
      → Lacks b'"' resources
      → Lacks b'"' version
      → Lacks b'"' service
      → run_text pb w (receives_text resources version service) r
        ≡ ran r none (receives resources version service r w.wakeup)
  unfolding call
  run_text-receives resources version service r hr hv hs =
      run_text-call pb w client_receives_resources_and_version_for_service receives_pattern
        (resources ∷ version ∷ service ∷ []) r (inr (inr (inr (inr (inr (inr (inr (inl refl))))))))
        (hr, (hv, (hs, tt)))

  run_text-removal :
      (resource service : Text) (r : Runner Any Conn)
      → Lacks b'"' resource
      → Lacks b'"' service
      → run_text pb w (removal_text resource service) r
        ≡ ran r none (receives_removal resource service r w.wakeup)
  unfolding call
  run_text-removal resource service r hr hs =
      run_text-call pb w client_receives_notice_that_resource_was_removed_for_service
        removal_pattern (resource ∷ service ∷ []) r
        (inr (inr (inr (inr (inr (inr (inr (inr (inr (inr (inl refl))))))))))) (hr, (hs, tt))

  -- A wildcard subscription leaves nothing seen or removed of its type.
  wildcard-fresh :
      {u : Text} (service : Text) (before r : Runner Any Conn) (v : Verdict)
      → Lacks b'"' service
      → service_to_type_url service ≡ ok u
      → run_text pb w (wildcard_text service) before ≡ ran r none v
      → (name : Text)
      → (lookup name (at_type u r.validate.resources) ≡ none)
        × (lookup name (at_type u r.validate.removed_resources) ≡ none)
  unfolding lookup
  wildcard-fresh {u} service before r v hs hu h name =
      let same : (client_subscribes pb w.opens service [] before).0 ≡ r =
        some→≡ (ap runner_of (sym (run_text-wildcard service before hs) ∙ h)) in
      let tracked = client_subscribes-Tracks pb w.opens service [] before u hu in
      subst
        (λ (x : Runner Any Conn).
          (lookup name (at_type u x.validate.resources) ≡ none)
          × (lookup name (at_type u x.validate.removed_resources) ≡ none))
        same (tracked.asked name, ap (lookup name) tracked.none_removed)

module _ {Any Conn : Type 0} (r : Runner Any Conn) where
  -- The verdict of a text that is a check.
  check-passes :
      (x : Ran Any Conn) (v : Verdict) → x ≡ ran r none v → (x ≡ ran r none passed) ↔ (v ≡ passed)
  check-passes x v same =
      (λ e. some→≡ (ap verdict_in (sym same ∙ e)), λ e. same ∙ ap (ran r none) e)

module _ {Any Conn : Type 0} (pb : Anypb Any) (w : Surroundings Any Conn)
    (before r : Runner Any Conn) (ch : Channels Any) (es : List (Event Any)) (t : Session Any) where
  -- A scenario of two texts, with no quote in their arguments. The text of a wildcard subscription to
  -- a service that has a type URL starts the goroutines, on the channels of the runner that it leaves.
  -- The session is run through any interleaving that does not panic and in which the test does not
  -- start to track anew. Then the text that the client receives resources, in some version, for that
  -- service passes at its timer exactly where, for each of the comma-separated resources, some response
  -- of the session lists it among its own and the last to list it so has the version. That a later
  -- response removes the resource makes no difference.
  pub scenario-receives_iff :
      {u : Text} (resources version service : Text)
      → Lacks b'"' resources
      → Lacks b'"' version
      → Lacks b'"' service
      → service_to_type_url service ≡ ok u
      → w.wakeup ≡ on_timer
      → run_text pb w (wildcard_text service) before ≡ ran r none started
      → r.service.channels ≡ some ch
      → All (λ e. is_reset e ≡ false) es
      → run pb es (start r ch) ≡ some t
      → t.panicked ≡ false
      → (run_text pb w
            (receives_text resources version service)
            (record r { validate = t.validate })
          ≡ ran (record r { validate = t.validate }) none passed)
        ↔ All (LastAt u (history pb es (start r ch)) version) (split resources b',')
  scenario-receives_iff {u} resources version service hr hv hs hu timer text hc kept h fine =
      let after = record r { validate = t.validate } in
      let check =
        run-receives_iff pb r ch es t resources version service hc hu
          (λ name. (wildcard-fresh pb w service before r started hs hu text name).0) kept h fine in
      let text_passes =
        check-passes after _ _ (run_text-receives pb w resources version service after hr hv hs) in
      iff_trans text_passes (
        subst
          (λ x.
            (receives resources version service after x ≡ passed)
            ↔ All (LastAt u (history pb es (start r ch)) version) (split resources b','))
          (sym timer) check)

  -- A scenario of two texts, with no quote in their arguments. The text of a wildcard subscription to
  -- a service that has a type URL starts the goroutines, on the channels of the runner that it leaves.
  -- The session is run through any interleaving that does not panic and in which the test does not
  -- start to track anew. Then the text that the client receives notice of the removal of a resource
  -- from that service passes at its timer exactly where the last incremental response to mention the
  -- resource in the session has removed it.
  pub scenario-receives_removal_iff :
      {u : Text} (resource service : Text)
      → Lacks b'"' resource
      → Lacks b'"' service
      → service_to_type_url service ≡ ok u
      → w.wakeup ≡ on_timer
      → run_text pb w (wildcard_text service) before ≡ ran r none started
      → r.service.channels ≡ some ch
      → All (λ e. is_reset e ≡ false) es
      → run pb es (start r ch) ≡ some t
      → t.panicked ≡ false
      → (run_text pb w (removal_text resource service) (record r { validate = t.validate })
          ≡ ran (record r { validate = t.validate }) none passed)
        ↔ LastRemoved u (history pb es (start r ch)) resource
  scenario-receives_removal_iff {u} resource service hr hs hu timer text hc kept h fine =
      let after = record r { validate = t.validate } in
      let check =
        run-receives_removal_iff pb r ch es t resource service hc hu
          (wildcard-fresh pb w service before r started hs hu text resource).1 kept h fine in
      iff_trans (check-passes after _ _ (run_text-removal pb w resource service after hr hs)) (
        subst
          (λ x.
            (receives_removal resource service after x ≡ passed)
            ↔ LastRemoved u (history pb es (start r ch)) resource)
          (sym timer) check)
