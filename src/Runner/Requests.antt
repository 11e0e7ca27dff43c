-- ===== src/Runner/Requests.antt =====
-- internal/runner/runner.go: newAckFromResponse and newRequest.
pub mod Acks
use xds_test_harness.Base.{Bool, Option, none, some, List, [], if◌then◌else◌}
use xds_test_harness.Text.{Text}
use xds_test_harness.Errors.{Error, unmarshal_failed, marshal_failed}
use xds_test_harness.Proto.{
  Codec, Anypb, DiscoveryRequest, DeltaDiscoveryRequest, DiscoveryResponse, DeltaDiscoveryResponse,
  unmarshal_to,
}
use xds_test_harness.Runner.{Runner}

-- any.New, with its error.
abbrev pub pack : {Any M : Type 0} → Codec Any M → M → Option Any × Option Error
pack c m = elim (c.marshal m) [ none ↦ (none, some marshal_failed) | some a ↦ (some a, none) ]

module _ {Any : Type 0} (pb : Anypb Any) where
  delta_ack : Option DeltaDiscoveryResponse → Option Any × Option Error
  delta_ack none = (none, some unmarshal_failed)
  delta_ack (some response) = pack pb.delta_request (record {
    node = none;
    type_url = response.type_url;
    resource_names_subscribe = [];
    resource_names_unsubscribe = [];
    response_nonce = response.nonce;
  })

  sotw_ack : Option DiscoveryRequest → Option (DiscoveryResponse Any) → Option Any × Option Error
  sotw_ack none response = (none, some unmarshal_failed)
  sotw_ack (some sub) none = (none, some unmarshal_failed)
  sotw_ack (some sub) (some response) = pack pb.request (record {
    version_info = response.version_info;
    node = none;
    resource_names = sub.resource_names;
    type_url = sub.type_url;
    response_nonce = response.nonce;
  })

  -- newAckFromResponse reads of the runner the flag Incremental and the subscribing request.
  unfoldable pub new_ack : Bool → Option Any → Option Any → Option Any × Option Error
  unfolding delta_ack sotw_ack
  new_ack incremental subscribe_request res =
      if incremental
      then delta_ack (unmarshal_to pb.delta_response res)
      else sotw_ack (unmarshal_to pb.request subscribe_request) (unmarshal_to pb.response res)

module _ {Any Conn : Type 0} (pb : Anypb Any) where
  -- newRequest drops the error of any.New.
  unfoldable pub new_request : Runner Any Conn → List Text → Text → Option Any
  new_request r resource_names type_url =
      if r.incremental
      then pb.delta_request.marshal (record {
        node = some r.node_id;
        type_url = type_url;
        resource_names_subscribe = resource_names;
        resource_names_unsubscribe = [];
        response_nonce = [];
      })
      else pb.request.marshal (record {
        version_info = [];
        node = some r.node_id;
        resource_names = resource_names;
        type_url = type_url;
        response_nonce = [];
      })
