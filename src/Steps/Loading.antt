-- ===== src/Steps/Loading.antt =====
-- internal/runner/steps.go, LoadSteps: the patterns of the steps and the method behind each. godog
-- runs the first one that matches the text of a step, with what the groups of its pattern caught.
pub mod Dispatch
pub mod Distinct
use xds_test_harness.Base.{
  ℕ, Bool, true, false, ◌&&◌, ◌==◌, Option, none, some, List, [], ◌∷◌, ◌++◌, if◌then◌else◌,
}
use xds_test_harness.Text.{Text, codes, text_eq}

-- A pattern between ^ and $: literal text, and behind each group "([^"]*)" the literal up to the next.
pub record Pattern : Type 0 where
  pub first : Text
  pub rest : List Text

-- The methods of Runner that are steps.
pub data Method : Type 0 where
  target_setup_with_service_resources_and_version : Method
  client_does_a_wildcard_subscription_to_service : Method
  client_subscribes_to_a_subset_of_resources_for_service : Method
  client_updates_subscription_to_a_resource_for_service_with_version : Method
  client_unsubscribes_from_all_resources_for_service : Method
  client_unsubscribes_from_resource_for_service : Method
  client_receives_resources_and_version_for_service : Method
  client_receives_only_the_resource_and_version_for_the_service : Method
  client_does_not_receive_any_message_from_service : Method
  client_receives_notice_that_resource_was_removed_for_service : Method
  client_does_not_receive_resource_of_service_at_version : Method
  resource_is_added_to_service_with_version : Method
  resource_of_service_is_updated_to_version : Method
  resource_is_removed_from_the_service : Method
  the_service_never_responds_more_than_necessary : Method
  resources_and_version_for_service_came_in_a_single_response : Method
  no_other_resource_has_same_version_or_nonce : Method
  no_other_resource_has_same_nonce : Method

abbrev step : Text → List Text → Method → Method × Pattern
step first rest method = (method, record { first = first; rest = rest })

-- The calls of ctx.Step, in order.
abbrev pub loaded_steps : List (Method × Pattern)
loaded_steps =
    step (codes "a target setup with service ")
      (codes ", resources " ∷ codes ", and starting version " ∷ codes "" ∷ [])
      target_setup_with_service_resources_and_version
    ∷ step (codes "a target setup with multiple services ")
        (codes ", each with resources " ∷ codes ", and starting version " ∷ codes "" ∷ [])
        target_setup_with_service_resources_and_version
    ∷ step (codes "the Client does a wildcard subscription to ") (codes "" ∷ [])
        client_does_a_wildcard_subscription_to_service
    ∷ step (codes "the Client subscribes to resources ") (codes " for " ∷ codes "" ∷ [])
        client_subscribes_to_a_subset_of_resources_for_service
    ∷ step (codes "the Client updates subscription to a resource(")
        (codes ") of " ∷ codes " with version " ∷ codes "" ∷ [])
        client_updates_subscription_to_a_resource_for_service_with_version
    ∷ step (codes "the Client unsubscribes from all resources for ") (codes "" ∷ [])
        client_unsubscribes_from_all_resources_for_service
    ∷ step (codes "the Client unsubscribes from resource ") (codes " for service " ∷ codes "" ∷ [])
        client_unsubscribes_from_resource_for_service
    ∷ step (codes "the Client receives the resources ")
        (codes " and version " ∷ codes " for " ∷ codes "" ∷ [])
        client_receives_resources_and_version_for_service
    ∷ step (codes "the Client receives only the resource ")
        (codes " and version " ∷ codes " for the service " ∷ codes "" ∷ [])
        client_receives_only_the_resource_and_version_for_the_service
    ∷ step (codes "the Client does not receive any message from ") (codes "" ∷ [])
        client_does_not_receive_any_message_from_service
    ∷ step (codes "the Client receives notice that resource ")
        (codes " was removed for service " ∷ codes "" ∷ [])
        client_receives_notice_that_resource_was_removed_for_service
    ∷ step (codes "the client does not receive resource ")
        (codes " of service " ∷ codes " at version " ∷ codes "" ∷ [])
        client_does_not_receive_resource_of_service_at_version
    ∷ step (codes "the resource ")
        (codes " is added to the " ∷ codes " with version " ∷ codes "" ∷ [])
        resource_is_added_to_service_with_version
    ∷ step (codes "a resource ")
        (codes " is added to the " ∷ codes " with version " ∷ codes "" ∷ [])
        resource_is_added_to_service_with_version
    ∷ step (codes "the resources ")
        (codes " are added to the " ∷ codes " with version " ∷ codes "" ∷ [])
        resource_is_added_to_service_with_version
    ∷ step (codes "the resource ")
        (codes " of service " ∷ codes " is updated to version " ∷ codes "" ∷ [])
        resource_of_service_is_updated_to_version
    ∷ step (codes "the resource ") (codes " is removed from the " ∷ codes "" ∷ [])
        resource_is_removed_from_the_service
    ∷ step (codes "the service never responds more than necessary") []
        the_service_never_responds_more_than_necessary
    ∷ step (codes "the resources ")
        (codes " and version " ∷ codes " for " ∷ codes " came in a single response" ∷ [])
        resources_and_version_for_service_came_in_a_single_response
    ∷ step (codes "for service ")
        (codes ", no resource other than " ∷ codes " has same version or nonce" ∷ [])
        no_other_resource_has_same_version_or_nonce
    ∷ step (codes "for service ") (codes ", no resource other than " ∷ codes " has same nonce" ∷ [])
        no_other_resource_has_same_nonce
    ∷ step (codes "the Client sends an ACK to which the ") (codes " does not respond" ∷ [])
        the_service_never_responds_more_than_necessary
    ∷ []

-- What is left of a text behind a literal.
unfoldable pub strip : Text → Text → Option Text
strip [] s = some s
strip (c ∷ t) [] = none
strip (c ∷ t) (d ∷ s) = let rest = strip t s in if c == d then rest else none

-- What stands before the next quote, and what behind it.
unfoldable pub up_to_quote : Text → Option (Text × Text)
up_to_quote [] = none
up_to_quote (c ∷ s) =
    let rest = up_to_quote s in
    if c == b'"'
    then some ([], s)
    else elim rest [ none ↦ none | some (arg, s') ↦ some (c ∷ arg, s') ]

-- A group with its quotes.
unfoldable pub group : Text → Option (Text × Text)
unfolding up_to_quote
group [] = none
group (c ∷ s) = if c == b'"' then up_to_quote s else none

-- What the groups of a pattern catch in a text, if it matches from end to end. A group ends at the
-- next quote, so there is one way to match.
unfoldable pub match_rest : List Text → Text → Option (List Text)
unfolding strip group
match_rest [] [] = some []
match_rest [] (c ∷ s) = none
match_rest (lit ∷ lits) s = elim (group s) [
  | none ↦ none
  | some (arg, s') ↦ elim (strip lit s') [
    | none ↦ none
    | some s'' ↦ elim (match_rest lits s'') [ none ↦ none | some args ↦ some (arg ∷ args) ]
  ]
]

unfoldable pub match_pattern : Pattern → Text → Option (List Text)
unfolding match_rest
match_pattern p s = elim (strip p.first s) [ none ↦ none | some s' ↦ match_rest p.rest s' ]

-- The first of the steps that matches, with its arguments.
unfoldable pub find_step : List (Method × Pattern) → Text → Option (Method × List Text)
unfolding match_pattern
find_step [] s = none
find_step ((method, p) ∷ steps) s =
    let rest = find_step steps s in
    elim (match_pattern p s) [ none ↦ rest | some args ↦ some (method, args) ]
