-- ===== src/Steps/Target.antt =====
-- internal/runner/steps.go, the steps that change the state of the target through its adapter, and the
-- hook behind a scenario (internal/runner/suite.go). Whether the adapter accepts a call is a parameter.
pub mod SetUp
pub mod Removal
use xds_test_harness.Base.{Bool, Option, none, some, List, [], ◌∷◌, ◌++◌, if◌then◌else◌}
use xds_test_harness.Text.{Text, text_eq}
use xds_test_harness.Text.Parts.{split}
use xds_test_harness.Errors.{
  Error, Result, ok, err, ◌>>=◌, set_state_failed, add_failed, update_failed, remove_failed,
}
use xds_test_harness.Proto.{Anypb, Codec}
use xds_test_harness.Parser.{
  type_url_lds, type_url_cds, type_url_rds, type_url_eds, service_to_type_url,
}
use xds_test_harness.Dict.Walk.{Walk}
use xds_test_harness.Validate.{ValidateResource, at_type}
use xds_test_harness.Runner.{Runner}
use xds_test_harness.Runner.Requests.{pack}
use xds_test_harness.Steps.{Verdict, passed, failed, panicked}

-- pb.SetStateRequest
pub record SetStateRequest (Any : Type 0) : Type 0 where
  pub node : Text
  pub version : Text
  pub resources : List (Option Any)

-- pb.ResourceRequest
pub record ResourceRequest : Type 0 where
  pub node : Text
  pub type_url : Text
  pub resource_name : Text
  pub version : Text

-- A call of the adapter.
pub data Call (Any : Type 0) : Type 0 where
  set_state : SetStateRequest Any → Call Any
  add_resource : ResourceRequest → Call Any
  update_resource : ResourceRequest → Call Any
  remove_resource : ResourceRequest → Call Any

-- The call that a step makes, if it makes one, and its verdict.
abbrev pub Outcome : Type 0 → Type 0
Outcome Any = Option (Call Any) × Verdict

module _ {Any : Type 0} (pb : Anypb Any) where
  -- The switch of the inner loop, on the type URL; it has no default.
  unfoldable pub pack_resource : Text → Text → Option Any × Option Error
  pack_resource type_url name =
      if text_eq type_url type_url_cds
      then pack pb.cluster name
      else if text_eq type_url type_url_lds
      then pack pb.listener name
      else if text_eq type_url type_url_eds
      then pack pb.endpoint name
      else if text_eq type_url type_url_rds
      then pack pb.route name
      else (none, none)

  -- The inner loop, over the names.
  unfoldable pub pack_names : Text → List Text → List (Option Any) → Result (List (Option Any))
  pack_names type_url [] resources = ok resources
  pack_names type_url (name ∷ names) resources =
      let (a, e) = pack_resource type_url name in
      elim e [ some e' ↦ err e' | none ↦ pack_names type_url names (resources ++ a ∷ []) ]

  -- The outer loop, over the services.
  unfoldable pub pack_services :
      List Text → List Text → List (Option Any) → Result (List (Option Any))
  unfolding pack_names
  pack_services [] names resources = ok resources
  pack_services (service ∷ services) names resources = service_to_type_url service >>= λ type_url.
      pack_names type_url names resources >>= λ rs. pack_services services names rs

-- A call, and the error that a step makes of the adapter's.
abbrev called : {Any : Type 0} → (Call Any → Bool) → Call Any → Error → Outcome Any
called accepts c e = (some c, if accepts c then passed else failed e)

module _ {Any Conn : Type 0} (pb : Anypb Any) (accepts : Call Any → Bool) where
  -- TargetSetupWithServiceResourcesAndVersion
  unfoldable pub target_setup : Text → Text → Text → Runner Any Conn → Outcome Any
  unfolding pack_services
  target_setup services resources version r =
      elim (pack_services pb (split services b',') (split resources b',') []) [
        | err e ↦ (none, failed e)
        | ok any_resources ↦
            called accepts
              (set_state
                (record { node = r.node_id; version = version; resources = any_resources }))
              set_state_failed
      ]

-- The loop that looks for the version of a resource.
unfoldable pub current_version : Text → Text → List (Text × ValidateResource) → Text
current_version resource version [] = version
current_version resource version ((k, v) ∷ entries) =
    current_version resource (if text_eq k resource then v.version else version) entries

module _ {Any Conn : Type 0} (accepts : Call Any → Bool) where
  -- ResourceIsAddedToServiceWithVersion
  unfoldable pub resource_added : Text → Text → Text → Runner Any Conn → Outcome Any
  resource_added resource service version r = elim (service_to_type_url service) [
    | err e ↦ (none, failed e)
    | ok type_url ↦
        called accepts
          (add_resource (record {
            node = r.node_id;
            type_url = type_url;
            resource_name = resource;
            version = version;
          }))
          add_failed
  ]

  -- ResourceOfServiceIsUpdatedToVersion
  unfoldable pub resource_updated : Text → Text → Text → Runner Any Conn → Outcome Any
  resource_updated resource service version r = elim (service_to_type_url service) [
    | err e ↦ (none, failed e)
    | ok type_url ↦
        called accepts
          (update_resource (record {
            node = r.node_id;
            type_url = type_url;
            resource_name = resource;
            version = version;
          }))
          update_failed
  ]

  -- ResourceIsRemovedFromTheService
  unfoldable pub resource_removed :
      Walk ValidateResource → Text → Text → Runner Any Conn → Outcome Any
  unfolding current_version
  resource_removed walk resource service r = elim (service_to_type_url service) [
    | err e ↦ (none, failed e)
    | ok type_url ↦
        let c = remove_resource (record {
          node = r.node_id;
          type_url = type_url;
          resource_name = resource;
          version =
              current_version resource [] (walk.entries (at_type type_url r.validate.resources));
        }) in
        called accepts c remove_failed
  ]

-- The After hook of ConfigureSuite, with the answer of ClearState if the call succeeds. The hook logs
-- the error of the call and then reads the answer, which is nil.
unfoldable pub after_scenario : Option Text → Verdict
after_scenario none = panicked
after_scenario (some response) = passed
