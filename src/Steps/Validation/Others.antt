-- ===== src/Steps/Validation/Others.antt =====
-- Exactly when the checks of the other resources pass.
use xds_test_harness.Base.{◌≡◌, ◌≢◌, ◌↔◌, ◌⊎◌, refl, arith, none, some, List, [], ◌∷◌, All}
use xds_test_harness.Text.{Text, text_eq_iff}
use xds_test_harness.Dict.{lookup, IsMap}
use xds_test_harness.Dict.Walk.{Walk, All-entries}
use xds_test_harness.Errors.{ok}
use xds_test_harness.Parser.{service_to_type_url}
use xds_test_harness.Validate.{ValidateResource, Validate, at_type, info_at}
use xds_test_harness.Steps.{passed}
use xds_test_harness.Steps.Receiving.Laws.{verdict_of-passed}
use xds_test_harness.Steps.Validation.{
  check_others, check_nonces, no_other_version_or_nonce, no_other_nonce,
}

-- The entry is that of the resource, or came in another response, with another version.
abbrev pub Differs : Text → ValidateResource → Text × ValidateResource → Type 0
Differs resource chosen (name, info) =
    (name ≡ resource) ⊎ ((info.nonce ≢ chosen.nonce) × (info.version ≢ chosen.version))

-- The entry is that of the resource, or came in another response.
abbrev pub CameApart : Text → ValidateResource → Text × ValidateResource → Type 0
CameApart resource chosen (name, info) = (name ≡ resource) ⊎ (info.nonce ≢ chosen.nonce)

module _ (resource : Text) (chosen : ValidateResource) where
  check_others-All :
      (entries : List (Text × ValidateResource))
      → (check_others resource chosen entries ≡ none) ↔ All (Differs resource chosen) entries
  unfolding check_others
  check_others-All [] = (λ _. tt, λ _. refl)
  check_others-All ((name, info) ∷ entries) =
      let ih = check_others-All entries in
      (
        λ h. ground (
          arith,
          text_eq_iff name resource,
          text_eq_iff info.nonce chosen.nonce,
          text_eq_iff info.version chosen.version,
          ih,
        ),
        λ h. ground (
          arith,
          text_eq_iff name resource,
          text_eq_iff info.nonce chosen.nonce,
          text_eq_iff info.version chosen.version,
          ih,
        ),
      )

  check_nonces-All :
      (entries : List (Text × ValidateResource))
      → (check_nonces resource chosen entries ≡ none) ↔ All (CameApart resource chosen) entries
  unfolding check_nonces
  check_nonces-All [] = (λ _. tt, λ _. refl)
  check_nonces-All ((name, info) ∷ entries) =
      let ih = check_nonces-All entries in
      (
        λ h. ground (arith, text_eq_iff name resource, text_eq_iff info.nonce chosen.nonce, ih),
        λ h. ground (arith, text_eq_iff name resource, text_eq_iff info.nonce chosen.nonce, ih),
      )

module _ (walk : Walk ValidateResource) (service resource : Text) (v : Validate) (u : Text) where
  abbrev chosen : ValidateResource
  chosen = info_at u resource v.resources

  -- For a service that has a type URL, in whatever order its map of resources, which has no key
  -- twice, is walked: the check passes exactly where each other resource of the map has another
  -- nonce and another version than this one.
  pub no_other_version_or_nonce_iff :
      service_to_type_url service ≡ ok u
      → IsMap (at_type u v.resources)
      → (no_other_version_or_nonce walk service resource v ≡ passed) ↔ (
          (name : Text) (info : ValidateResource)
          → lookup name (at_type u v.resources) ≡ some info
          → Differs resource (info_at u resource v.resources) (name, info))
  unfolding no_other_version_or_nonce
  no_other_version_or_nonce_iff hu is_map =
      let entries = All-entries walk (at_type u v.resources) is_map (Differs resource chosen) in
      let loop = check_others-All resource chosen (walk.entries (at_type u v.resources)) in
      rw (hu, no_other_version_or_nonce)
        (
          λ h. entries.0 (loop.0 ((verdict_of-passed _).0 h)),
          λ h. (verdict_of-passed _).1 (loop.1 (entries.1 h)),
        )

  -- For a service that has a type URL, in whatever order its map of resources, which has no key
  -- twice, is walked: the check passes exactly where each other resource of the map has another
  -- nonce than this one.
  no_other_nonce_iff :
      service_to_type_url service ≡ ok u
      → IsMap (at_type u v.resources)
      → (no_other_nonce walk service resource v ≡ passed) ↔ (
          (name : Text) (info : ValidateResource)
          → lookup name (at_type u v.resources) ≡ some info
          → CameApart resource (info_at u resource v.resources) (name, info))
  unfolding no_other_nonce
  no_other_nonce_iff hu is_map =
      let entries = All-entries walk (at_type u v.resources) is_map (CameApart resource chosen) in
      let loop = check_nonces-All resource chosen (walk.entries (at_type u v.resources)) in
      rw (hu, no_other_nonce)
        (
          λ h. entries.0 (loop.0 ((verdict_of-passed _).0 h)),
          λ h. (verdict_of-passed _).1 (loop.1 (entries.1 h)),
        )
