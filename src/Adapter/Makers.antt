-- ===== src/Adapter/Makers.antt =====
-- examples/go-control-plane/adapter.go, the functions that make resources. The names of Envoy's
-- filters are constants of go-control-plane and stand as parameters.
use xds_test_harness.Base.{ℕ, true, Option, none, some, List, [], ◌∷◌}
use xds_test_harness.Text.{Text, codes}
use xds_test_harness.Proto.{Codec}
use xds_test_harness.Adapter.Messages.{
  Duration, tcp, Address, v3, grpc, ConfigSource, eds_discovery, Cluster, RouteConfiguration,
  ClusterLoadAssignment, auto, HttpConnectionManager, Filter, Listener, number_value, string_value,
  Runtime,
}

abbrev five_seconds : Duration
five_seconds = record { seconds = 5; nanos = 0 }

abbrev tcp_address : Text → ℕ → Address
tcp_address address port = record { protocol = tcp; address = address; port_value = port }

-- MakeEndpoint
unfoldable pub make_endpoint : Text → Text → ℕ → ClusterLoadAssignment
make_endpoint cluster_name address port = record {
  cluster_name = cluster_name;
  endpoint_stale_after = five_seconds;
  endpoints = (tcp_address address port ∷ []) ∷ [];
}

-- configSource
unfoldable pub config_source : Text → ConfigSource
config_source cluster_name = record {
  resource_api_version = v3;
  api_config_source = record {
    transport_api_version = v3;
    api_type = grpc;
    set_node_on_first_message_only = true;
    grpc_services = cluster_name ∷ [];
  };
}

-- MakeCluster; its configuration comes from the cluster that the node names.
unfoldable pub make_cluster : Text → Text → Cluster
unfolding config_source
make_cluster cluster_name node = record {
  name = cluster_name;
  connect_timeout = five_seconds;
  cluster_discovery_type = eds_discovery;
  eds_config = config_source node;
  dns_refresh_rate = five_seconds;
}

-- MakeRoute
unfoldable pub make_route : Text → Text → RouteConfiguration
make_route route_name cluster_name = record {
  name = route_name;
  internal_only_headers = [];
  virtual_hosts =
      (record {
        name = route_name;
        domains = codes "*" ∷ [];
        routes = (record { prefix = codes "/"; cluster = cluster_name }) ∷ [];
      })
      ∷ [];
}

-- makeListener
unfoldable pub make_listener :
    {Any : Type 0} → Text → Text → ℕ → List (List (Filter Any)) → Listener Any
make_listener listener_name address port filter_chains = record {
  name = listener_name;
  address = tcp_address address port;
  filter_chains = filter_chains;
  tcp_backlog_size = 5;
}

-- buildHttpConnectionManager, with wellknown.Router.
unfoldable pub build_http_connection_manager : Text → HttpConnectionManager
build_http_connection_manager router = record {
  codec_type = auto;
  stat_prefix = codes "http";
  http_filters = router ∷ [];
  rds = none;
}

-- MakeRouteHTTPListener, with wellknown.HTTPConnectionManager and wellknown.Router; `none` is the
-- panic at an error of any.New.
unfoldable pub make_route_http_listener :
    {Any : Type 0}
    → Codec Any HttpConnectionManager
    → (manager_name router : Text) → (cluster_name listener_name listener_address : Text) → ℕ
    → Text
    → Option (Listener Any)
unfolding build_http_connection_manager config_source make_listener
make_route_http_listener codec manager_name router cluster_name listener_name listener_address port
      route =
    elim (codec.marshal (record (build_http_connection_manager router) {
      rds = some (record { config_source = config_source cluster_name; route_config_name = route });
    })) [
      | none ↦ none
      | some packed ↦ some (
          make_listener listener_name listener_address port
            (((record { name = manager_name; typed_config = packed }) ∷ []) ∷ []))
    ]

-- MakeRuntime
unfoldable pub make_runtime : Text → Runtime
make_runtime runtime_name = record {
  name = runtime_name;
  layer =
      (codes "field-0", number_value 100) ∷ (codes "field-1", string_value (codes "foobar")) ∷ [];
}
