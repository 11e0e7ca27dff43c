-- ===== src/Steps/Validation.antt =====
-- internal/runner/steps.go, the checks of how the server responded.
pub mod SingleResponse
pub mod Others
use xds_test_harness.Base.{
  Bool, true, false, not, ◌&&◌, ◌||◌, Option, none, some, List, [], ◌∷◌, if◌then◌else◌, length,
  ◌==◌,
}
use xds_test_harness.Words.{le64}
use xds_test_harness.Text.{Text, text_eq}
use xds_test_harness.Text.Parts.{split}
use xds_test_harness.Dict.{Dict, lookup, insert}
use xds_test_harness.Dict.Walk.{Walk}
use xds_test_harness.Errors.{
  Error, ok, err, too_many_responses, resource_missing, several_responses, same_nonce, same_version,
}
use xds_test_harness.Parser.{service_to_type_url}
use xds_test_harness.Validate.{ValidateResource, Validate, zero_resource, at_type, info_at}
use xds_test_harness.Steps.{Verdict, passed, failed}
use xds_test_harness.Steps.Receiving.{verdict_of}

-- TheServiceNeverRespondsMoreThanNecessary, behind the send to Done and the sleep.
unfoldable pub never_responds_more : Validate → Verdict
never_responds_more v =
    if le64 v.request_count v.response_count then failed too_many_responses else passed

-- The loop over the expected resources, with the nonces so far as the keys of a map; `none` is the
-- error.
unfoldable pub nonces_from :
    Dict ValidateResource → Text → Dict Bool → List Text → Option (Dict Bool)
nonces_from actual version responses [] = some responses
nonces_from actual version responses (resource ∷ resources) = elim (lookup resource actual) [
  | none ↦ none
  | some info ↦
      if not (text_eq info.version version)
      then none
      else nonces_from actual version (insert info.nonce true responses) resources
]

-- The verdict on the map of nonces.
abbrev pub count_verdict : Option (Dict Bool) → Verdict
count_verdict none = failed resource_missing
count_verdict (some responses) =
    if not (length responses == 1) then failed several_responses else passed

-- ResourcesAndVersionForServiceCameInASingleResponse
unfoldable pub single_response : Text → Text → Text → Validate → Verdict
unfolding nonces_from
single_response resources version service v = elim (service_to_type_url service) [
  | err e ↦ failed e
  | ok type_url ↦
      count_verdict (nonces_from (at_type type_url v.resources) version [] (split resources b','))
]

-- The loop of NoOtherResourceHasSameVersionOrNonce.
unfoldable pub check_others :
    Text → ValidateResource → List (Text × ValidateResource) → Option Error
check_others resource chosen [] = none
check_others resource chosen ((name, info) ∷ entries) =
    let rest = check_others resource chosen entries in
    if text_eq name resource
    then rest
    else if text_eq info.nonce chosen.nonce
    then some (same_nonce name)
    else if text_eq info.version chosen.version
    then some (same_version name)
    else rest

-- NoOtherResourceHasSameVersionOrNonce
unfoldable pub no_other_version_or_nonce : Walk ValidateResource → Text → Text → Validate → Verdict
no_other_version_or_nonce walk service resource v = elim (service_to_type_url service) [
  | err e ↦ failed e
  | ok type_url ↦ verdict_of (
      check_others resource (info_at type_url resource v.resources)
        (walk.entries (at_type type_url v.resources)))
]

-- The loop of NoOtherResourceHasSameNonce.
unfoldable pub check_nonces :
    Text → ValidateResource → List (Text × ValidateResource) → Option Error
check_nonces resource chosen [] = none
check_nonces resource chosen ((name, info) ∷ entries) =
    let rest = check_nonces resource chosen entries in
    if text_eq name resource
    then rest
    else if text_eq info.nonce chosen.nonce
    then some (same_nonce name)
    else rest

-- NoOtherResourceHasSameNonce
unfoldable pub no_other_nonce : Walk ValidateResource → Text → Text → Validate → Verdict
no_other_nonce walk service resource v = elim (service_to_type_url service) [
  | err e ↦ failed e
  | ok type_url ↦ verdict_of (
      check_nonces resource (info_at type_url resource v.resources)
        (walk.entries (at_type type_url v.resources)))
]
