-- ===== src/Steps/Target/Removal.antt =====
-- A removal carries the version at which the resource was seen.
use xds_test_harness.Base.{
  ◌≡◌, refl, sym, ◌∙◌, ap, Bool, true, false, Bool-cases, Option-cases, none, some, some→≡,
  some-of-none, inl, inr, List, [], ◌∷◌, All, if◌then◌else◌,
}
use xds_test_harness.Text.{Text, text_eq, text_eq→≡, text_eq_iff}
use xds_test_harness.Dict.{Dict, lookup, IsMap}
use xds_test_harness.Dict.Walk.{In, Walk, All-entries}
use xds_test_harness.Errors.{ok}
use xds_test_harness.Parser.{service_to_type_url}
use xds_test_harness.Validate.{ValidateResource, zero_resource, at_type, info_at}
use xds_test_harness.Runner.{Runner}
use xds_test_harness.Steps.Target.{Call, remove_resource, current_version, resource_removed}

module _ (resource : Text) (info : ValidateResource) where
  -- An entry of the resource is the one given.
  abbrev Fixed : Text × ValidateResource → Type 0
  Fixed (k, v) = text_eq k resource ≡ true → v ≡ info

  current_version-stays :
      (entries : List (Text × ValidateResource))
      → All Fixed entries
      → current_version resource info.version entries ≡ info.version
  unfolding current_version
  current_version-stays [] h = refl
  current_version-stays ((k, v) ∷ entries) (h, hs) = elim (Bool-cases (text_eq k resource)) [
    | inl e ↦ rw (e, h e) (current_version-stays entries hs)
    | inr e ↦ rw e (current_version-stays entries hs)
  ]

  current_version-found :
      (version : Text) (entries : List (Text × ValidateResource))
      → All Fixed entries
      → In (resource, info) entries
      → current_version resource version entries ≡ info.version
  unfolding current_version
  current_version-found version [] h i = elim i [ ]
  current_version-found version ((k, v) ∷ entries) (h, hs) (inl e) =
      let hit : text_eq k resource ≡ true = (text_eq_iff k resource).1 (ap (λ p. p.0) e) in
      rw (hit, h hit) (current_version-stays entries hs)
  current_version-found version ((k, v) ∷ entries) (h, hs) (inr i) =
      current_version-found (if text_eq k resource then v.version else version) entries hs i

current_version-none :
    (resource version : Text) (entries : List (Text × ValidateResource))
    → All (λ (e : Text × ValidateResource). text_eq e.0 resource ≡ false) entries
    → current_version resource version entries ≡ version
unfolding current_version
current_version-none resource version [] h = refl
current_version-none resource version ((k, v) ∷ entries) (h, hs) =
    rw h (current_version-none resource version entries hs)

-- The version that the loop finds is that of the map, in whatever order it is walked.
removed_version :
    (walk : Walk ValidateResource) (resource : Text) (m : Dict ValidateResource)
    → IsMap m
    → current_version resource [] (walk.entries m)
      ≡ (elim (lookup resource m) as (λ _. ValidateResource) [
        | none ↦ zero_resource
        | some info ↦ info
      ]).version
removed_version walk resource m is_map = elim (Option-cases (lookup resource m)) [
  | inl e ↦
      let others =
        (All-entries walk m is_map (λ p. text_eq p.0 resource ≡ false)).1
          (λ k v h. other k v h e) in
      current_version-none resource [] (walk.entries m) others ∙ rw e
  | inr (info, e) ↦
      let fixed =
        (All-entries walk m is_map (Fixed resource info)).1 (λ k v h. same k v info h e) in
      current_version-found resource info [] (walk.entries m) fixed
        (walk.complete m resource info is_map e)
      ∙ rw e
]
  where
    same :
        (k : Text) (v info : ValidateResource)
        → lookup k m ≡ some v
        → lookup resource m ≡ some info
        → Fixed resource info (k, v)
    same k v info h e hit = some→≡ (sym h ∙ ap (λ j. lookup j m) (text_eq→≡ k resource hit) ∙ e)

    other :
        (k : Text) (v : ValidateResource)
        → lookup k m ≡ some v
        → lookup resource m ≡ none
        → text_eq k resource ≡ false
    other k v h e = elim (Bool-cases (text_eq k resource)) [
      | inl hit ↦ some-of-none (sym e ∙ ap (λ j. lookup j m) (sym (text_eq→≡ k resource hit)) ∙ h)
      | inr miss ↦ miss
    ]

module _ {Any Conn : Type 0} (accepts : Call Any → Bool) (walk : Walk ValidateResource) where
  -- A removal from a service that has a type URL makes one call of the adapter, for the resource at
  -- the version at which it was seen, or at the empty version if it was not, in whatever order the
  -- map of the resources, which has no key twice, is walked.
  pub resource_removed-version :
      (resource service u : Text) (r : Runner Any Conn)
      → service_to_type_url service ≡ ok u
      → IsMap (at_type u r.validate.resources)
      → (resource_removed accepts walk resource service r).0
        ≡ some (
            remove_resource (record {
              node = r.node_id;
              type_url = u;
              resource_name = resource;
              version = (info_at u resource r.validate.resources).version;
            }))
  unfolding resource_removed
  resource_removed-version resource service u r h is_map =
      rw (resource_removed, h, removed_version walk resource _ is_map)
