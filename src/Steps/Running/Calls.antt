-- ===== src/Steps/Running/Calls.antt =====
-- The methods of the loaded steps take what the groups of their patterns catch.
use xds_test_harness.Base.{
  ℕ, suc, ◌≡◌, inl, inr, refl, sym, ◌∙◌, ap, subst, arith, Bool, true, ◌&&◌, ◌≤◌, leb, Option, List,
  [], ◌∷◌, length,
}
use xds_test_harness.Text.{Text}
use xds_test_harness.Dict.Walk.{In}
use xds_test_harness.Proto.{Anypb}
use xds_test_harness.Runner.{Runner}
use xds_test_harness.Steps.{Verdict}
use xds_test_harness.Steps.Target.{Call}
use xds_test_harness.Steps.Loading.{
  Pattern, Method, target_setup_with_service_resources_and_version,
  client_does_a_wildcard_subscription_to_service,
  client_subscribes_to_a_subset_of_resources_for_service,
  client_updates_subscription_to_a_resource_for_service_with_version,
  client_unsubscribes_from_all_resources_for_service, client_unsubscribes_from_resource_for_service,
  client_receives_resources_and_version_for_service,
  client_receives_only_the_resource_and_version_for_the_service,
  client_does_not_receive_any_message_from_service,
  client_receives_notice_that_resource_was_removed_for_service,
  client_does_not_receive_resource_of_service_at_version, resource_is_added_to_service_with_version,
  resource_of_service_is_updated_to_version, resource_is_removed_from_the_service,
  the_service_never_responds_more_than_necessary,
  resources_and_version_for_service_came_in_a_single_response,
  no_other_resource_has_same_version_or_nonce, no_other_resource_has_same_nonce, loaded_steps,
}
use xds_test_harness.Steps.Loading.Dispatch.{render, Fill}
use xds_test_harness.Steps.Loading.Distinct.{find_step-render}
use xds_test_harness.Steps.Running.{Surroundings, Ran, ran, call, run_text}

-- How many parameters a method has.
abbrev parameters : Method → ℕ
parameters target_setup_with_service_resources_and_version = 3
parameters client_does_a_wildcard_subscription_to_service = 1
parameters client_subscribes_to_a_subset_of_resources_for_service = 2
parameters client_updates_subscription_to_a_resource_for_service_with_version = 3
parameters client_unsubscribes_from_all_resources_for_service = 1
parameters client_unsubscribes_from_resource_for_service = 2
parameters client_receives_resources_and_version_for_service = 3
parameters client_receives_only_the_resource_and_version_for_the_service = 3
parameters client_does_not_receive_any_message_from_service = 1
parameters client_receives_notice_that_resource_was_removed_for_service = 2
parameters client_does_not_receive_resource_of_service_at_version = 3
parameters resource_is_added_to_service_with_version = 3
parameters resource_of_service_is_updated_to_version = 3
parameters resource_is_removed_from_the_service = 2
parameters the_service_never_responds_more_than_necessary = 0
parameters resources_and_version_for_service_came_in_a_single_response = 3
parameters no_other_resource_has_same_version_or_nonce = 2
parameters no_other_resource_has_same_nonce = 2

abbrev takes_groups : List (Method × Pattern) → Bool
takes_groups [] = true
takes_groups ((m, p) ∷ steps) = leb (parameters m) (length p.rest) && takes_groups steps

takes_groups-In :
    (steps : List (Method × Pattern)) (m : Method) (p : Pattern)
    → takes_groups steps ≡ true
    → In {A = Method × Pattern} (m, p) steps
    → parameters m ≤ length p.rest
takes_groups-In [] m p h i = elim i [ ]
takes_groups-In ((n, q) ∷ steps) m p h (inl e) =
    let here : parameters n ≤ length q.rest = ground arith in
    subst (λ (x : Method × Pattern). parameters x.0 ≤ length x.1.rest) e here
takes_groups-In ((n, q) ∷ steps) m p h (inr i) = takes_groups-In steps m p (ground arith) i

Fill-length : (lits args : List Text) → Fill lits args → length args ≡ length lits
Fill-length [] [] h = refl
Fill-length [] (arg ∷ args) h = absurd h
Fill-length (lit ∷ lits) [] h = absurd h
Fill-length (lit ∷ lits) (arg ∷ args) h = ap suc (Fill-length lits args h.1)

at_least-1 :
    (args : List Text) → 1 ≤ length args → (a : Text) × (more : List Text) × (args ≡ a ∷ more)
at_least-1 [] h = absurd (omega arith)
at_least-1 (a ∷ args) h = (a, args, refl)

at_least-2 :
    (args : List Text) → 2 ≤ length args → (a b : Text) × (more : List Text) × (args ≡ a ∷ b ∷ more)
at_least-2 [] h = absurd (omega arith)
at_least-2 (a ∷ args) h =
    let (b, more, e) = at_least-1 args (omega arith) in (a, b, more, ap (λ l. a ∷ l) e)

at_least-3 :
    (args : List Text)
    → 3 ≤ length args
    → (a b c : Text) × (more : List Text) × (args ≡ a ∷ b ∷ c ∷ more)
at_least-3 [] h = absurd (omega arith)
at_least-3 (a ∷ args) h =
    let (b, c, more, e) = at_least-2 args (omega arith) in (a, b, c, more, ap (λ l. a ∷ l) e)

-- A call with an argument for each parameter of the method runs.
abbrev Runs : {Any Conn : Type 0} → Ran Any Conn → Type 0
Runs {Any = Any} {Conn = Conn} x =
    (r : Runner Any Conn) × (c : Option (Call Any)) × (v : Verdict) × (x ≡ ran r c v)

module _ {Any Conn : Type 0} (pb : Anypb Any) (w : Surroundings Any Conn) where
  call-Runs :
      (m : Method) (args : List Text) (r : Runner Any Conn)
      → parameters m ≤ length args
      → Runs (call pb w m args r)
  unfolding call
  call-Runs target_setup_with_service_resources_and_version args r h =
      let (a, b, c, _, e) = at_least-3 args h in rw e (_, _, _, refl)
  call-Runs client_does_a_wildcard_subscription_to_service args r h =
      let (a, _, e) = at_least-1 args h in rw e (_, _, _, refl)
  call-Runs client_subscribes_to_a_subset_of_resources_for_service args r h =
      let (a, b, _, e) = at_least-2 args h in rw e (_, _, _, refl)
  call-Runs client_updates_subscription_to_a_resource_for_service_with_version args r h =
      let (a, b, c, _, e) = at_least-3 args h in rw e (_, _, _, refl)
  call-Runs client_unsubscribes_from_all_resources_for_service args r h =
      let (a, _, e) = at_least-1 args h in rw e (_, _, _, refl)
  call-Runs client_unsubscribes_from_resource_for_service args r h =
      let (a, b, _, e) = at_least-2 args h in rw e (_, _, _, refl)
  call-Runs client_receives_resources_and_version_for_service args r h =
      let (a, b, c, _, e) = at_least-3 args h in rw e (_, _, _, refl)
  call-Runs client_receives_only_the_resource_and_version_for_the_service args r h =
      let (a, b, c, _, e) = at_least-3 args h in rw e (_, _, _, refl)
  call-Runs client_does_not_receive_any_message_from_service args r h =
      let (a, _, e) = at_least-1 args h in rw e (_, _, _, refl)
  call-Runs client_receives_notice_that_resource_was_removed_for_service args r h =
      let (a, b, _, e) = at_least-2 args h in rw e (_, _, _, refl)
  call-Runs client_does_not_receive_resource_of_service_at_version args r h =
      let (a, b, c, _, e) = at_least-3 args h in rw e (_, _, _, refl)
  call-Runs resource_is_added_to_service_with_version args r h =
      let (a, b, c, _, e) = at_least-3 args h in rw e (_, _, _, refl)
  call-Runs resource_of_service_is_updated_to_version args r h =
      let (a, b, c, _, e) = at_least-3 args h in rw e (_, _, _, refl)
  call-Runs resource_is_removed_from_the_service args r h =
      let (a, b, _, e) = at_least-2 args h in rw e (_, _, _, refl)
  call-Runs the_service_never_responds_more_than_necessary args r h = (_, _, _, refl)
  call-Runs resources_and_version_for_service_came_in_a_single_response args r h =
      let (a, b, c, _, e) = at_least-3 args h in rw e (_, _, _, refl)
  call-Runs no_other_resource_has_same_version_or_nonce args r h =
      let (a, b, _, e) = at_least-2 args h in rw e (_, _, _, refl)
  call-Runs no_other_resource_has_same_nonce args r h =
      let (a, b, _, e) = at_least-2 args h in rw e (_, _, _, refl)

  pub run_text-call :
      (method : Method) (p : Pattern) (args : List Text) (r : Runner Any Conn)
      → In {A = Method × Pattern} (method, p) loaded_steps
      → Fill p.rest args
      → run_text pb w (render p args) r ≡ call pb w method args r
  unfolding run_text
  run_text-call method p args r i fill = rw (run_text, find_step-render method p args i fill) refl

  -- The text of each of the loaded steps, with an argument for each group of its pattern and no quote
  -- in any, is the call of its method with those arguments, which takes no more: it is neither
  -- undefined nor mismatched, and runs to a verdict.
  pub run_text-render :
      (method : Method) (p : Pattern) (args : List Text) (r : Runner Any Conn)
      → In {A = Method × Pattern} (method, p) loaded_steps
      → Fill p.rest args
      → (r' : Runner Any Conn) × (c : Option (Call Any)) × (v : Verdict) × (run_text pb w
            (render p args)
            r
          ≡ ran r' c v)
        × (call pb w method args r ≡ ran r' c v)
  run_text-render method p args r i fill =
      let taken =
        subst (λ n. parameters method ≤ n) (sym (Fill-length p.rest args fill))
          (takes_groups-In loaded_steps method p refl i) in
      let (r', c, v, e) = call-Runs method args r taken in
      (r', c, v, run_text-call method p args r i fill ∙ e, e)
