-- ===== src/Steps/Receiving/Laws.antt =====
-- Exactly when the checks of what was received pass.
use xds_test_harness.Base.{
  ◌≡◌, ◌↔◌, ◌⊎◌, inl, inr, refl, sym, ◌∙◌, ap, subst, arith, true, Option, none, some, List, [],
  ◌∷◌, All, Option-cases, if◌then◌else◌, ltb, length,
}
use xds_test_harness.Text.{Text, text_eq, text_eq_iff, text_eq→≡}
use xds_test_harness.Text.Parts.{split}
use xds_test_harness.Dict.{Dict, lookup, IsMap}
use xds_test_harness.Dict.Walk.{Walk, In, In-lookup, lookup-In, All-entries}
use xds_test_harness.Errors.{Error, ok, too_many_resources}
use xds_test_harness.Parser.{service_to_type_url}
use xds_test_harness.Service.{Channels}
use xds_test_harness.Validate.{ValidateResource, at_type}
use xds_test_harness.Runner.{Runner}
use xds_test_harness.Steps.{passed, failed}
use xds_test_harness.Steps.Receiving.{
  Wakeup, on_error, on_timer, verdict_of, check_versions, check_only, receives, receives_only,
  receives_nothing, receives_removal,
}

-- The resource was seen at the version.
abbrev pub SeenAt : Dict ValidateResource → Text → Text → Type 0
SeenAt m version name =
    (info : ValidateResource) × (lookup name m ≡ some info) × (info.version ≡ version)

check_versions_sound :
    (m : Dict ValidateResource) (version : Text) (names : List Text)
    → check_versions m version names ≡ none
    → All (SeenAt m version) names
unfolding check_versions
check_versions_sound m version [] h = tt
check_versions_sound m version (name ∷ names) h = elim (Option-cases (lookup name m)) [
  | inl e ↦ ground arith
  | inr (info, e) ↦
      let same : text_eq info.version version ≡ true = ground arith in
      ((info, e, text_eq→≡ _ _ same), check_versions_sound m version names (ground arith))
]

check_versions_complete :
    (m : Dict ValidateResource) (version : Text) (names : List Text)
    → All (SeenAt m version) names
    → check_versions m version names ≡ none
unfolding check_versions
check_versions_complete m version [] h = refl
check_versions_complete m version (name ∷ names) h =
    ground (arith, text_eq_iff h.0.0.version version, check_versions_complete m version names h.1)

pub verdict_of-passed : (e : Option Error) → (verdict_of e ≡ passed) ↔ (e ≡ none)
verdict_of-passed none = (λ _. refl, λ _. refl)
verdict_of-passed (some e) = (λ h. cc, λ h. cc)

-- Each entry is the one resource, at the version.
abbrev pub IsOnly : Text → Text → Text × ValidateResource → Type 0
IsOnly resource version (name, info) = (name ≡ resource) × (info.version ≡ version)

-- A map all of whose entries are the one resource is empty or has that entry alone.
entries-alone :
    (resource version : Text) (m : Dict ValidateResource)
    → IsMap m
    → ((name : Text) (info : ValidateResource)
        → lookup name m ≡ some info
        → (name ≡ resource) × (info.version ≡ version))
      ↔ ((m ≡ [])
          ⊎ ((info : ValidateResource) × (m ≡ (resource, info) ∷ []) × (info.version ≡ version)))
entries-alone resource version m is_map = (alone m is_map, entry m is_map)
  where
    alone :
        (m : Dict ValidateResource)
        → IsMap m
        → ((name : Text) (info : ValidateResource)
            → lookup name m ≡ some info
            → (name ≡ resource) × (info.version ≡ version))
        → (m ≡ [])
          ⊎ ((info : ValidateResource) × (m ≡ (resource, info) ∷ []) × (info.version ≡ version))
    alone [] is h = inl refl
    alone ((k, i) ∷ []) is h =
        let (same, at) = h k i (In-lookup ((k, i) ∷ []) k i is (inl refl)) in
        inr (i, ap (λ n. (n, i) ∷ []) same, at)
    alone ((k, i) ∷ (k', i') ∷ m) is h =
        let whole = (k, i) ∷ (k', i') ∷ m in
        let (same, _) = h k i (In-lookup whole k i is (inl refl)) in
        let (same', _) = h k' i' (In-lookup whole k' i' is (inr (inl refl))) in
        absurd (ground (arith, text_eq_iff k' k, same, same', is.0.0))

    entry :
        (m : Dict ValidateResource)
        → IsMap m
        → (m ≡ [])
          ⊎ ((info : ValidateResource) × (m ≡ (resource, info) ∷ []) × (info.version ≡ version))
        → (name : Text) (info : ValidateResource) → lookup name m ≡ some info
        → (name ≡ resource) × (info.version ≡ version)
    entry m is (inl nil) name info e =
        absurd
          (subst (In {A = Text × ValidateResource} (name, info)) nil (lookup-In m name info is e))
    entry m is (inr (i, one, at)) name info e =
        let here =
          subst (In {A = Text × ValidateResource} (name, info)) one (lookup-In m name info is e) in
        elim here [
          | inl same ↦ (sym (ap (λ x. x.0) same), ap (λ x. x.1.version) (sym same) ∙ at)
          | inr none_else ↦ absurd none_else
        ]

check_only-All :
    (resource version : Text) (entries : List (Text × ValidateResource))
    → (check_only resource version entries ≡ none) ↔ All (IsOnly resource version) entries
unfolding check_only
check_only-All resource version [] = (λ _. tt, λ _. refl)
check_only-All resource version ((name, info) ∷ entries) =
    let ih = check_only-All resource version entries in
    (
      λ h. ground (arith, text_eq_iff name resource, text_eq_iff info.version version, ih),
      λ h. ground (arith, text_eq_iff name resource, text_eq_iff info.version version, ih),
    )

passed-nil :
    (m : Dict ValidateResource)
    → ((if ltb 0 (length m) then failed too_many_resources else passed) ≡ passed) ↔ (m ≡ [])
passed-nil [] = (λ _. refl, λ _. refl)
passed-nil (e ∷ m) = (λ h. ground arith, λ h. cc)

module _ {Any Conn : Type 0} (r : Runner Any Conn) {ch : Channels Any} {u : Text} where
  -- For a runner that has channels and a service that has a type URL, the check passes at its timer
  -- exactly where each of the comma-separated resources was seen at the version.
  pub receives_iff :
      (resources version service : Text)
      → r.service.channels ≡ some ch
      → service_to_type_url service ≡ ok u
      → (receives resources version service r on_timer ≡ passed)
        ↔ All (SeenAt (at_type u r.validate.resources) version) (split resources b',')
  unfolding receives
  receives_iff resources version service hc hu = rw (hu, hc, receives) (pass, seen)
    where
      m : Dict ValidateResource
      m = at_type u r.validate.resources

      pass :
          verdict_of (check_versions m version (split resources b',')) ≡ passed
          → All (SeenAt m version) (split resources b',')
      pass h = check_versions_sound m version _ ((verdict_of-passed _).0 h)

      seen :
          All (SeenAt m version) (split resources b',')
          → verdict_of (check_versions m version (split resources b',')) ≡ passed
      seen h = (verdict_of-passed _).1 (check_versions_complete m version _ h)

  -- For a runner that has channels and a service that has a type URL, in whatever order its map of
  -- resources, which has no key twice, is walked: the check passes at its timer exactly where the map
  -- is empty, or has one entry alone, which is the resource given at the version.
  pub receives_only_iff :
      (walk : Walk ValidateResource) (resource version service : Text)
      → r.service.channels ≡ some ch
      → service_to_type_url service ≡ ok u
      → IsMap (at_type u r.validate.resources)
      → (receives_only walk resource version service r on_timer ≡ passed) ↔ (
          (at_type u r.validate.resources ≡ [])
          ⊎ ((info : ValidateResource) × (at_type u r.validate.resources ≡ (resource, info) ∷ [])
              × (info.version ≡ version)))
  unfolding receives_only
  receives_only_iff walk resource version service hc hu is_map =
      let m = at_type u r.validate.resources in
      let only = check_only-All resource version (walk.entries m) in
      let entries = All-entries walk m is_map (IsOnly resource version) in
      let alone = entries-alone resource version m is_map in
      rw (hc, hu, receives_only)
        (
          λ h. alone.0 (entries.0 (only.0 ((verdict_of-passed _).0 h))),
          λ h. (verdict_of-passed _).1 (only.1 (entries.1 (alone.1 h))),
        )

  -- For a runner that has channels and a service that has a type URL, the check passes exactly where
  -- the timer fires with no resource in the map, or where the error channel gives nil, as it does
  -- once it is closed, whatever the map holds.
  pub receives_nothing_iff :
      (service : Text) (wakeup : Wakeup)
      → r.service.channels ≡ some ch
      → service_to_type_url service ≡ ok u
      → (receives_nothing service r wakeup ≡ passed)
        ↔ ((wakeup ≡ on_error none) ⊎ ((wakeup ≡ on_timer) × (at_type u r.validate.resources ≡ [])))
  unfolding receives_nothing
  receives_nothing_iff service (on_error none) hc hu =
      rw (hu, hc, receives_nothing) (λ _. inl refl, λ _. refl)
  receives_nothing_iff service (on_error (some e)) hc hu =
      rw (hu, hc, receives_nothing) (λ h. cc, λ h. ground arith)
  receives_nothing_iff service on_timer hc hu =
      let none_tracked = passed-nil (at_type u r.validate.resources) in
      rw (hu, hc, receives_nothing)
        (λ h. inr (refl, none_tracked.0 h), λ h. ground (arith, none_tracked))

  pub receives_removal_iff :
      (resource service : Text)
      → r.service.channels ≡ some ch
      → service_to_type_url service ≡ ok u
      → (receives_removal resource service r on_timer ≡ passed) ↔ (
          (info : ValidateResource) × (lookup resource (at_type u r.validate.removed_resources)
            ≡ some info))
  unfolding receives_removal
  receives_removal_iff resource service hc hu =
      elim (Option-cases (lookup resource (at_type u r.validate.removed_resources))) [
        | inl e ↦ rw (hu, hc, e, receives_removal) (λ h. cc, λ (info, h). cc)
        | inr (info, e) ↦ rw (hu, hc, e, receives_removal) (λ h. (info, refl), λ h. refl)
      ]
