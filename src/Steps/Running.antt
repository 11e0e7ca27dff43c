-- ===== src/Steps/Running.antt =====
-- internal/runner/steps.go: the text of a step, run as godog does: the first of the loaded steps that
-- matches gives the method, which is called with what its groups caught. godog calls by reflection:
-- it reports an error where a method has more parameters than that, and drops what it has none for.
pub mod Calls
pub mod Scenario
use xds_test_harness.Base.{Bool, Option, none, some, List, [], ◌∷◌, if◌then◌else◌}
use xds_test_harness.Text.{Text}
use xds_test_harness.Dict.Walk.{Walk}
use xds_test_harness.Proto.{Anypb}
use xds_test_harness.Service.{Opens}
use xds_test_harness.Validate.{ValidateResource}
use xds_test_harness.Runner.{Runner}
use xds_test_harness.Steps.{Verdict, panicked, waits}
use xds_test_harness.Steps.Subscriptions.{
  wildcard_subscription, subset_subscription, update_subscription, unsubscribe_all,
  unsubscribe_from,
}
use xds_test_harness.Steps.Receiving.{
  Wakeup, receives, receives_only, receives_nothing, receives_removal, receives_no_resource,
}
use xds_test_harness.Steps.Validation.{
  never_responds_more, single_response, no_other_version_or_nonce, no_other_nonce,
}
use xds_test_harness.Steps.Target.{
  Call, Outcome, target_setup, resource_added, resource_updated, resource_removed,
}
use xds_test_harness.Steps.Loading.{
  Method, target_setup_with_service_resources_and_version,
  client_does_a_wildcard_subscription_to_service,
  client_subscribes_to_a_subset_of_resources_for_service,
  client_updates_subscription_to_a_resource_for_service_with_version,
  client_unsubscribes_from_all_resources_for_service, client_unsubscribes_from_resource_for_service,
  client_receives_resources_and_version_for_service,
  client_receives_only_the_resource_and_version_for_the_service,
  client_does_not_receive_any_message_from_service,
  client_receives_notice_that_resource_was_removed_for_service,
  client_does_not_receive_resource_of_service_at_version, resource_is_added_to_service_with_version,
  resource_of_service_is_updated_to_version, resource_is_removed_from_the_service,
  the_service_never_responds_more_than_necessary,
  resources_and_version_for_service_came_in_a_single_response,
  no_other_resource_has_same_version_or_nonce, no_other_resource_has_same_nonce, loaded_steps,
  find_step,
}

-- What surrounds a step: whether the server lets a stream through and the adapter accepts a call, the
-- order in which the map of resources is walked, what wakes a check, and whether Ack is there to take
-- what is sent to Done, as it is until it has taken one.
pub record Surroundings (Any Conn : Type 0) : Type 0 where
  pub opens : Opens Conn
  pub accepts : Call Any → Bool
  pub walk : Walk ValidateResource
  pub wakeup : Wakeup
  pub takes_done : Bool

-- How the text of a step ends: no step matches it, its method takes more arguments, or
-- the method has run, and has left this runner and made this call of the adapter, if any.
pub data Ran (Any Conn : Type 0) : Type 0 where
  undefined_step : Ran Any Conn
  mismatched : Ran Any Conn
  ran : Runner Any Conn → Option (Call Any) → Verdict → Ran Any Conn

module _ {Any Conn : Type 0} (pb : Anypb Any) (w : Surroundings Any Conn) where
  abbrev changing : Runner Any Conn × Verdict → Ran Any Conn
  changing (r, v) = ran r none v

  abbrev checking : Runner Any Conn → Verdict → Ran Any Conn
  checking r v = ran r none v

  abbrev targeting : Runner Any Conn → Outcome Any → Ran Any Conn
  targeting r (c, v) = ran r c v

  -- The call of a method. The check that looks at the counts first sends to the Done channel, which has
  -- no buffer: it waits where Ack does not take from it. A zero service has no channels.
  unfoldable pub call : Method → List Text → Runner Any Conn → Ran Any Conn
  unfolding target_setup
  call target_setup_with_service_resources_and_version (services ∷ resources ∷ version ∷ _) r =
      targeting r (target_setup pb w.accepts services resources version r)
  call client_does_a_wildcard_subscription_to_service (service ∷ _) r =
      changing (wildcard_subscription pb w.opens service r)
  call client_subscribes_to_a_subset_of_resources_for_service (subset ∷ service ∷ _) r =
      changing (subset_subscription pb w.opens subset service r)
  call client_updates_subscription_to_a_resource_for_service_with_version
        (resource ∷ service ∷ version ∷ _) r =
      changing (update_subscription pb resource service version r)
  call client_unsubscribes_from_all_resources_for_service (service ∷ _) r =
      changing (unsubscribe_all pb w.walk service r)
  call client_unsubscribes_from_resource_for_service (resource ∷ service ∷ _) r =
      changing (unsubscribe_from pb resource service r)
  call client_receives_resources_and_version_for_service (resources ∷ version ∷ service ∷ _) r =
      checking r (receives resources version service r w.wakeup)
  call client_receives_only_the_resource_and_version_for_the_service
        (resource ∷ version ∷ service ∷ _) r =
      checking r (receives_only w.walk resource version service r w.wakeup)
  call client_does_not_receive_any_message_from_service (service ∷ _) r =
      checking r (receives_nothing service r w.wakeup)
  call client_receives_notice_that_resource_was_removed_for_service (resource ∷ service ∷ _) r =
      checking r (receives_removal resource service r w.wakeup)
  call client_does_not_receive_resource_of_service_at_version (resource ∷ service ∷ version ∷ _) r =
      checking r (receives_no_resource resource service version r w.wakeup)
  call resource_is_added_to_service_with_version (resource ∷ service ∷ version ∷ _) r =
      targeting r (resource_added w.accepts resource service version r)
  call resource_of_service_is_updated_to_version (resource ∷ service ∷ version ∷ _) r =
      targeting r (resource_updated w.accepts resource service version r)
  call resource_is_removed_from_the_service (resource ∷ service ∷ _) r =
      targeting r (resource_removed w.accepts w.walk resource service r)
  call the_service_never_responds_more_than_necessary args r = checking r (elim r.service.channels [
    | none ↦ panicked
    | some ch ↦ if w.takes_done then never_responds_more r.validate else waits
  ])
  call resources_and_version_for_service_came_in_a_single_response
        (resources ∷ version ∷ service ∷ _) r =
      checking r (single_response resources version service r.validate)
  call no_other_resource_has_same_version_or_nonce (service ∷ resource ∷ _) r =
      checking r (no_other_version_or_nonce w.walk service resource r.validate)
  call no_other_resource_has_same_nonce (service ∷ resource ∷ _) r =
      checking r (no_other_nonce w.walk service resource r.validate)
  call method args r = mismatched

  -- The text of a step.
  unfoldable pub run_text : Text → Runner Any Conn → Ran Any Conn
  unfolding call
  run_text s r = elim (find_step loaded_steps s) [
    | none ↦ undefined_step
    | some (method, args) ↦ call method args r
  ]
