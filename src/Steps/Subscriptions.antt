-- ===== src/Steps/Subscriptions.antt =====
-- internal/runner/steps.go, the client's subscriptions.
pub mod Tracking
pub mod Streams
use xds_test_harness.Base.{
  Bool, true, false, Option, none, some, List, [], ◌∷◌, if◌then◌else◌, is_some,
}
use xds_test_harness.Text.{Text, codes}
use xds_test_harness.Text.Parts.{split}
use xds_test_harness.Dict.{Dict, insert}
use xds_test_harness.Dict.Walk.{Walk}
use xds_test_harness.Errors.{Error, Result, ok, err, no_service}
use xds_test_harness.Proto.{Anypb}
use xds_test_harness.Parser.{service_to_type_url}
use xds_test_harness.Service.{
  Opens, Builder, ServiceBuilder, XdsService, Stream, zero_builder, get_builder,
}
use xds_test_harness.Validate.{
  ValidateResource, Validate, Seen, zero_resource, at_type, info_at, delete_at,
}
use xds_test_harness.Runner.{Runner}
use xds_test_harness.Runner.Requests.{new_request}
use xds_test_harness.Steps.{Verdict, passed, started, failed, panicked, push_request}

-- The loop that enters each resource with a zero value.
unfoldable pub enter_all : List Text → Dict ValidateResource → Dict ValidateResource
enter_all [] m = m
enter_all (name ∷ names) m = enter_all names (insert name zero_resource m)

-- The maps of the type URL are made anew, and the resources are entered.
unfoldable pub track : Text → List Text → Validate → Validate
unfolding enter_all
track type_url resources v = record v {
  resources = insert type_url (enter_all resources []) v.resources;
  removed_resources = insert type_url [] v.removed_resources;
}

-- The loop over the resources, which keeps the last nonce.
unfoldable pub last_nonce : Text → List (Text × ValidateResource) → Text
last_nonce nonce [] = nonce
last_nonce nonce ((k, info) ∷ entries) = last_nonce info.nonce entries

module _ {Any Conn : Type 0} where
  abbrev pub has_stream : Runner Any Conn → Bool
  has_stream r = if r.incremental then is_some r.service.delta else is_some r.service.sotw

  -- The service with its stream, made by a builder, or the error of the stream.
  unfoldable pub build :
      Opens Conn → Text → Runner Any Conn → ServiceBuilder Any Conn → Result (XdsService Any Conn)
  build opens srv r methods =
      let (b, e) =
        if r.incremental
        then methods.set_delta_stream opens r.target.conn (methods.open_channels zero_builder)
        else methods.set_sotw_stream opens r.target.conn (methods.open_channels zero_builder) in
      elim e [ none ↦ ok (methods.get_service srv b) | some e' ↦ err e' ]

module _ {Any Conn : Type 0} (pb : Anypb Any) where
  -- The first subscription: a new service, whose goroutines are started.
  unfoldable pub start_stream :
      Opens Conn → Text → Text → List Text → Runner Any Conn → Runner Any Conn × Verdict
  unfolding build
  start_stream opens type_url srv resources r =
      elim (if r.aggregated then get_builder (codes "ADS") else get_builder srv) [
        | none ↦ (r, panicked)
        | some methods ↦ elim (build opens srv r methods) [
          | err e ↦ (r, failed e)
          | ok service ↦ (
            record r { service = service; subscribe_request = new_request pb r resources type_url },
            started,
          )
        ]
      ]

  -- ClientSubscribesToServiceForResources
  unfoldable pub client_subscribes :
      Opens Conn → Text → List Text → Runner Any Conn → Runner Any Conn × Verdict
  unfolding start_stream
  client_subscribes opens srv resources r = elim (service_to_type_url srv) [
    | err e ↦ (r, failed e)
    | ok type_url ↦
        let r' = record r { validate = track type_url resources r.validate } in
        if has_stream r'
        then push_request (new_request pb r' resources type_url) r'
        else start_stream opens type_url srv resources r'
  ]

  -- ClientDoesAWildcardSubscriptionToService
  unfoldable pub wildcard_subscription :
      Opens Conn → Text → Runner Any Conn → Runner Any Conn × Verdict
  unfolding client_subscribes
  wildcard_subscription opens service r = client_subscribes opens service [] r

  -- ClientSubscribesToASubsetOfResourcesForService
  unfoldable pub subset_subscription :
      Opens Conn → Text → Text → Runner Any Conn → Runner Any Conn × Verdict
  unfolding client_subscribes
  subset_subscription opens subset service r = client_subscribes opens service (split subset b',') r

  -- ClientUpdatesSubscriptionToAResourceForServiceWithVersion
  unfoldable pub update_subscription :
      Text → Text → Text → Runner Any Conn → Runner Any Conn × Verdict
  update_subscription resource service version r = elim (service_to_type_url service) [
    | err e ↦ (r, failed (no_service service))
    | ok type_url ↦
        let current = info_at type_url resource r.validate.resources in
        let request = pb.request.marshal (record {
          version_info = current.version;
          node = none;
          resource_names = resource ∷ [];
          type_url = type_url;
          response_nonce = current.nonce;
        }) in
        push_request request (record r {
          validate = record r.validate {
            resources = insert type_url (insert resource current []) r.validate.resources;
          };
          subscribe_request = request;
        })
  ]

  -- ClientUnsubscribesFromAllResourcesForService
  unfoldable pub unsubscribe_all :
      Walk ValidateResource → Text → Runner Any Conn → Runner Any Conn × Verdict
  unfolding last_nonce
  unsubscribe_all walk service r = elim (service_to_type_url service) [
    | err e ↦ (r, failed (no_service service))
    | ok type_url ↦
        let request = pb.request.marshal (record {
          version_info = [];
          node = none;
          resource_names = [] ∷ [];
          type_url = type_url;
          response_nonce = last_nonce [] (walk.entries (at_type type_url r.validate.resources));
        }) in
        push_request request (record r {
          validate = record r.validate { resources = insert type_url [] r.validate.resources };
          subscribe_request = request;
        })
  ]

  -- ClientUnsubscribesFromResourceForService
  unfoldable pub unsubscribe_from : Text → Text → Runner Any Conn → Runner Any Conn × Verdict
  unsubscribe_from resource service r = elim (service_to_type_url service) [
    | err e ↦ (r, failed (no_service service))
    | ok type_url ↦
        let request = pb.delta_request.marshal (record {
          node = none;
          type_url = type_url;
          resource_names_subscribe = [];
          resource_names_unsubscribe = resource ∷ [];
          response_nonce = [];
        }) in
        push_request request (record r {
          validate = record r.validate {
            resources = delete_at type_url resource r.validate.resources;
          };
          subscribe_request = request;
        })
  ]
