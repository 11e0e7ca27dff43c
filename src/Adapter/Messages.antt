-- ===== src/Adapter/Messages.antt =====
-- The Envoy messages that examples/go-control-plane/adapter.go builds, with the fields that it sets;
-- the fields of a oneof are inlined, and an enumeration has the values that the adapter uses.
use xds_test_harness.Base.{ℕ, Bool, Option, List}
use xds_test_harness.Text.{Text}

-- durationpb.Duration; the seconds are a 64-bit pattern.
pub record Duration : Type 0 where
  pub seconds : ℕ
  pub nanos : ℕ

pub data Protocol : Type 0 where
  tcp : Protocol

-- core.Address with its SocketAddress.
pub record Address : Type 0 where
  pub protocol : Protocol
  pub address : Text
  pub port_value : ℕ

pub data ApiVersion : Type 0 where
  v3 : ApiVersion

pub data ApiType : Type 0 where
  grpc : ApiType

-- core.ApiConfigSource; a gRPC service is the name of its cluster.
pub record ApiConfigSource : Type 0 where
  pub transport_api_version : ApiVersion
  pub api_type : ApiType
  pub set_node_on_first_message_only : Bool
  pub grpc_services : List Text

-- core.ConfigSource
pub record ConfigSource : Type 0 where
  pub resource_api_version : ApiVersion
  pub api_config_source : ApiConfigSource

pub data DiscoveryType : Type 0 where
  eds_discovery : DiscoveryType

-- cluster.Cluster
pub record Cluster : Type 0 where
  pub name : Text
  pub connect_timeout : Duration
  pub cluster_discovery_type : DiscoveryType
  pub eds_config : ConfigSource
  pub dns_refresh_rate : Duration

-- route.Route: the prefix that it matches and the cluster that it leads to.
pub record Route : Type 0 where
  pub prefix : Text
  pub cluster : Text

-- route.VirtualHost
pub record VirtualHost : Type 0 where
  pub name : Text
  pub domains : List Text
  pub routes : List Route

-- route.RouteConfiguration
pub record RouteConfiguration : Type 0 where
  pub name : Text
  pub internal_only_headers : List Text
  pub virtual_hosts : List VirtualHost

-- endpoint.ClusterLoadAssignment: the policy's EndpointStaleAfter, and the addresses of the endpoints
-- of each locality.
pub record ClusterLoadAssignment : Type 0 where
  pub cluster_name : Text
  pub endpoint_stale_after : Duration
  pub endpoints : List (List Address)

pub data CodecType : Type 0 where
  auto : CodecType

-- hcm.Rds
pub record Rds : Type 0 where
  pub config_source : ConfigSource
  pub route_config_name : Text

-- hcm.HttpConnectionManager; a filter is its name.
pub record HttpConnectionManager : Type 0 where
  pub codec_type : CodecType
  pub stat_prefix : Text
  pub http_filters : List Text
  pub rds : Option Rds

-- listener.Filter
pub record Filter (Any : Type 0) : Type 0 where
  pub name : Text
  pub typed_config : Any

-- listener.Listener; a filter chain is its filters. The backlog is an unsigned 32-bit number.
pub record Listener (Any : Type 0) : Type 0 where
  pub name : Text
  pub address : Address
  pub filter_chains : List (List (Filter Any))
  pub tcp_backlog_size : ℕ

-- The values of a protobuf Struct.
pub data Value : Type 0 where
  number_value : ℕ → Value
  string_value : Text → Value

-- runtime.Runtime
pub record Runtime : Type 0 where
  pub name : Text
  pub layer : List (Text × Value)

-- types.Resource, for the four types that the adapter serves.
pub data Resource (Any : Type 0) : Type 0 where
  cluster : Cluster → Resource Any
  listener : Listener Any → Resource Any
  route : RouteConfiguration → Resource Any
  endpoint : ClusterLoadAssignment → Resource Any

-- The name under which a snapshot has a resource.
abbrev pub name_of : {Any : Type 0} → Resource Any → Text
name_of (cluster c) = c.name
name_of (listener l) = l.name
name_of (route r) = r.name
name_of (endpoint e) = e.cluster_name
