-- ===== src/Steps/Receiving.antt =====
-- internal/runner/steps.go, the checks of what was received. Each waits for an error of the stream
-- or for its timer, and then looks at what the runner saw.
pub mod Laws
use xds_test_harness.Base.{
  Bool, true, false, not, ◌&&◌, ◌||◌, Option, none, some, List, [], ◌∷◌, if◌then◌else◌, length, ltb,
}
use xds_test_harness.Text.{Text, text_eq}
use xds_test_harness.Text.Parts.{split}
use xds_test_harness.Dict.{Dict, lookup}
use xds_test_harness.Dict.Walk.{Walk}
use xds_test_harness.Errors.{
  Error, ok, err, no_service, service_to_type_url_failed, stream_error, stream_error_nil,
  resource_not_found, wrong_version, unexpected_resource, too_many_resources, not_removed,
  still_received,
}
use xds_test_harness.Parser.{service_to_type_url}
use xds_test_harness.Validate.{ValidateResource, Seen, at_type}
use xds_test_harness.Runner.{Runner}
use xds_test_harness.Steps.{Verdict, passed, failed, panicked}

-- The case that the select of a check takes: an error of the stream, nil if the channel is closed,
-- or the timer.
pub data Wakeup : Type 0 where
  on_error : Option Error → Wakeup
  on_timer : Wakeup

abbrev pub verdict_of : Option Error → Verdict
verdict_of none = passed
verdict_of (some e) = failed e

-- fmt.Errorf with the error of the stream in its text.
abbrev pub wrapped : Option Error → Error
wrapped none = stream_error_nil
wrapped (some e) = stream_error e

-- The loop over the expected resources.
unfoldable pub check_versions : Dict ValidateResource → Text → List Text → Option Error
check_versions actual version [] = none
check_versions actual version (resource ∷ resources) = elim (lookup resource actual) [
  | none ↦ some (resource_not_found resource)
  | some info ↦
      if not (text_eq info.version version)
      then some (wrong_version version info.version)
      else check_versions actual version resources
]

-- The loop over the resources that were seen.
unfoldable pub check_only : Text → Text → List (Text × ValidateResource) → Option Error
check_only resource version [] = none
check_only resource version ((name, info) ∷ entries) =
    if not (text_eq name resource) || not (text_eq info.version version)
    then some (unexpected_resource name info.version)
    else check_only resource version entries

module _ {Any Conn : Type 0} where
  -- The select on the error channel and the timer; the channels of a zero service are nil.
  abbrev await : Runner Any Conn → (Option Error → Verdict) → Verdict → Wakeup → Verdict
  await r fails checked (on_error e) = elim r.service.channels [
    | none ↦ panicked
    | some ch ↦ fails e
  ]
  await r fails checked on_timer = elim r.service.channels [ none ↦ panicked | some ch ↦ checked ]

  -- ClientReceivesResourcesAndVersionForService
  unfoldable pub receives : Text → Text → Text → Runner Any Conn → Wakeup → Verdict
  receives resources version service r wakeup = elim (service_to_type_url service) [
    | err e ↦ failed (no_service service)
    | ok type_url ↦
        await r (λ e. failed (wrapped e))
          (verdict_of
            (check_versions (at_type type_url r.validate.resources) version (split resources b',')))
          wakeup
  ]

  -- ClientReceivesOnlyTheResourceAndVersionForTheService; it looks up the type URL after the wait.
  unfoldable pub receives_only :
      Walk ValidateResource → Text → Text → Text → Runner Any Conn → Wakeup → Verdict
  receives_only walk resource version service r wakeup =
      await r (λ e. failed (wrapped e))
        (elim (service_to_type_url service) [
          | err e ↦ failed service_to_type_url_failed
          | ok type_url ↦
              verdict_of
                (check_only resource version (walk.entries (at_type type_url r.validate.resources)))
        ])
        wakeup

  -- ClientDoesNotReceiveAnyMessageFromService; it returns the error of the stream as it is.
  unfoldable pub receives_nothing : Text → Runner Any Conn → Wakeup → Verdict
  receives_nothing service r wakeup = elim (service_to_type_url service) [
    | err e ↦ failed e
    | ok type_url ↦
        await r verdict_of
          (if ltb 0 (length (at_type type_url r.validate.resources))
            then failed too_many_resources
            else passed)
          wakeup
  ]

  -- ClientReceivesNoticeThatResourceWasRemovedForService
  unfoldable pub receives_removal : Text → Text → Runner Any Conn → Wakeup → Verdict
  receives_removal resource service r wakeup = elim (service_to_type_url service) [
    | err e ↦ failed (no_service service)
    | ok type_url ↦
        await r (λ e. failed (wrapped e))
          (elim (lookup resource (at_type type_url r.validate.removed_resources)) [
            | none ↦ failed (not_removed resource)
            | some info ↦ passed
          ])
          wakeup
  ]

  -- ClientDoesNotReceiveResourceOfServiceAtVersion; the version is not looked at.
  unfoldable pub receives_no_resource : Text → Text → Text → Runner Any Conn → Wakeup → Verdict
  receives_no_resource resource service version r wakeup = elim (service_to_type_url service) [
    | err e ↦ failed (no_service service)
    | ok type_url ↦
        await r (λ e. failed (wrapped e))
          (elim (lookup resource (at_type type_url r.validate.resources)) [
            | none ↦ passed
            | some info ↦ failed (still_received resource)
          ])
          wakeup
  ]
