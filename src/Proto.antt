-- ===== src/Proto.antt =====
-- Protocol messages, as records of the fields that the harness reads or writes, and the package
-- anypb as a parameter: it packs a message into an `Any` and takes it out again.
use xds_test_harness.Base.{Option, none, some, List, ◌≡◌}
use xds_test_harness.Text.{Text}

-- discovery.DiscoveryRequest; the node is its id.
pub record DiscoveryRequest : Type 0 where
  pub version_info : Text
  pub node : Option Text
  pub resource_names : List Text
  pub type_url : Text
  pub response_nonce : Text

-- discovery.DeltaDiscoveryRequest
pub record DeltaDiscoveryRequest : Type 0 where
  pub node : Option Text
  pub type_url : Text
  pub resource_names_subscribe : List Text
  pub resource_names_unsubscribe : List Text
  pub response_nonce : Text

-- discovery.DiscoveryResponse
pub record DiscoveryResponse (Any : Type 0) : Type 0 where
  pub version_info : Text
  pub resources : List Any
  pub type_url : Text
  pub nonce : Text

-- discovery.DeltaDiscoveryResponse; of a resource the harness reads the name.
pub record DeltaDiscoveryResponse : Type 0 where
  pub system_version_info : Text
  pub resources : List Text
  pub type_url : Text
  pub removed_resources : List Text
  pub nonce : Text

-- anypb.New and UnmarshalTo at one message type. Both can fail, and what was packed is read back.
pub record Codec (Any M : Type 0) : Type 0 where
  pub marshal : M → Option Any
  pub unmarshal : Any → Option M
  pub unmarshal-marshal : (m : M) (a : Any) → marshal m ≡ some a → unmarshal a ≡ some m

-- The message types that the harness packs. Of the four resource types it sets and reads the name.
pub record Anypb (Any : Type 0) : Type 0 where
  pub request : Codec Any DiscoveryRequest
  pub delta_request : Codec Any DeltaDiscoveryRequest
  pub response : Codec Any (DiscoveryResponse Any)
  pub delta_response : Codec Any DeltaDiscoveryResponse
  pub listener : Codec Any Text
  pub cluster : Codec Any Text
  pub endpoint : Codec Any Text
  pub route : Codec Any Text

-- UnmarshalTo of a pointer: a nil `Any` is an error.
abbrev pub unmarshal_to : {Any M : Type 0} → Codec Any M → Option Any → Option M
unmarshal_to c none = none
unmarshal_to c (some a) = c.unmarshal a
