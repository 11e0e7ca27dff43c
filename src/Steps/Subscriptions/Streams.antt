-- ===== src/Steps/Subscriptions/Streams.antt =====
-- Which stream a subscription starts or uses.
use xds_test_harness.Base.{
  ◌≡◌, ◌≢◌, ◌⊎◌, refl, sym, ap, arith, Bool, true, false, Option, none, some, List, if◌then◌else◌,
  inl, inr,
}
use xds_test_harness.Text.{Text, codes, text_eq, text_eq_iff}
use xds_test_harness.Text.Case.{to_lower, lower}
use xds_test_harness.Errors.{ok, err, stream_failed, no_type_url}
use xds_test_harness.Proto.{Anypb, DiscoveryRequest, DiscoveryResponse, unmarshal_to}
use xds_test_harness.Parser.{service_to_type_url}
use xds_test_harness.Parser.TypeUrls.{Service, lds, cds, eds, rds, url}
use xds_test_harness.Service.{
  Opens, get_builder, fresh_channels, Stream, Rpc, stream_listeners, delta_listeners,
  stream_clusters, delta_clusters, stream_routes, delta_routes, stream_endpoints, delta_endpoints,
  stream_aggregated_resources, delta_aggregated_resources,
}
use xds_test_harness.Dict.{lookup}
use xds_test_harness.Runner.{Runner}
use xds_test_harness.Runner.Requests.{new_request, new_ack}
use xds_test_harness.Runner.Requests.Acks.{new_ack-sotw}
use xds_test_harness.Steps.{started, failed, panicked, push_request}
use xds_test_harness.Steps.Subscriptions.{track, has_stream, client_subscribes}

-- The names by which the builders are found.
abbrev pub upper : Service → Text
upper lds = codes "LDS"
upper cds = codes "CDS"
upper eds = codes "EDS"
upper rds = codes "RDS"

module _ {Any Conn : Type 0} where
  push_request-keeps :
      (request : Option Any) (r : Runner Any Conn)
      → ((push_request request r).0.subscribe_request ≡ r.subscribe_request)
        × ((push_request request r).0.service.sotw ≡ r.service.sotw)
        × ((push_request request r).0.service.delta ≡ r.service.delta)
  unfolding push_request
  push_request-keeps request r = ground arith

  not-upper-get_builder :
      (srv : Text)
      → ((k : Service) → srv ≢ upper k)
      → srv ≢ codes "ADS"
      → get_builder {Any = Any} {Conn = Conn} srv ≡ none
  unfolding get_builder
  not-upper-get_builder srv h a = ground (
    arith,
    h lds,
    h cds,
    h eds,
    h rds,
    text_eq_iff srv (codes "LDS"),
    text_eq_iff srv (codes "CDS"),
    text_eq_iff srv (codes "RDS"),
    text_eq_iff srv (codes "EDS"),
    text_eq_iff srv (codes "ADS"),
  )

ads-err : service_to_type_url (codes "ADS") ≡ err (no_type_url (codes "ads"))
unfolding service_to_type_url to_lower lower lookup text_eq
ads-err = refl

ne-ads : (srv u : Text) → service_to_type_url srv ≡ ok u → srv ≢ codes "ADS"
ne-ads srv u h e = cc (ap service_to_type_url e, ads-err)

-- In capitals the four names have both a type URL and a builder.
service_to_type_url-upper : (k : Service) → service_to_type_url (upper k) ≡ ok (url k)
unfolding service_to_type_url to_lower lower lookup text_eq
service_to_type_url-upper lds = refl
service_to_type_url-upper cds = refl
service_to_type_url-upper eds = refl
service_to_type_url-upper rds = refl

-- The call by which a service is streamed.
abbrev pub rpc_for : Bool → Bool → Service → Rpc
rpc_for true true k = delta_aggregated_resources
rpc_for true false k = stream_aggregated_resources
rpc_for false true lds = delta_listeners
rpc_for false true cds = delta_clusters
rpc_for false true eds = delta_endpoints
rpc_for false true rds = delta_routes
rpc_for false false lds = stream_listeners
rpc_for false false cds = stream_clusters
rpc_for false false eds = stream_endpoints
rpc_for false false rds = stream_routes

module _ {Any Conn : Type 0} (pb : Anypb Any) (opens : Opens Conn) (names : List Text) where
  -- A runner that does not aggregate and has no stream panics when it subscribes to a service that
  -- has a type URL but whose name is not one of the four in capitals.
  pub client_subscribes-panics :
      (srv u : Text) (r : Runner Any Conn)
      → service_to_type_url srv ≡ ok u
      → ((k : Service) → srv ≢ upper k)
      → r.aggregated ≡ false
      → has_stream r ≡ false
      → (client_subscribes pb opens srv names r).1 ≡ panicked
  unfolding client_subscribes
  client_subscribes-panics srv u r hu not_upper apart fresh =
      ground
        (arith, not-upper-get_builder {Any = Any} {Conn = Conn} srv not_upper (ne-ads srv u hu))

  -- The runner after a first subscription.
  abbrev pub streaming : Service → Text → Runner Any Conn → Runner Any Conn
  streaming k u r =
      let stream : Stream Conn = record {
        conn = r.target.conn;
        rpc = rpc_for r.aggregated r.incremental k;
      } in
      record r {
        validate = track u names r.validate;
        service = record {
          name = if r.aggregated then codes "ADS" else upper k;
          channels = some fresh_channels;
          sotw = if r.incremental then none else some stream;
          delta = if r.incremental then some stream else none;
        };
        subscribe_request = new_request pb r names u;
      }

  client_subscribes-upper :
      (k : Service) (r : Runner Any Conn)
      → r.aggregated ≡ false
      → has_stream r ≡ false
      → client_subscribes pb opens (upper k) names r ≡ (
          if opens r.target.conn (rpc_for r.aggregated r.incremental k)
          then (streaming k (url k) r, started)
          else (record r { validate = track (url k) names r.validate }, failed stream_failed))
  unfolding client_subscribes text_eq get_builder new_request
  client_subscribes-upper lds r apart fresh = ground (arith, service_to_type_url-upper lds)
  client_subscribes-upper cds r apart fresh = ground (arith, service_to_type_url-upper cds)
  client_subscribes-upper eds r apart fresh = ground (arith, service_to_type_url-upper eds)
  client_subscribes-upper rds r apart fresh = ground (arith, service_to_type_url-upper rds)

  client_subscribes-ads :
      (srv : Text) (k : Service) (r : Runner Any Conn)
      → service_to_type_url srv ≡ ok (url k)
      → r.aggregated ≡ true
      → has_stream r ≡ false
      → client_subscribes pb opens srv names r ≡ (
          if opens r.target.conn (rpc_for r.aggregated r.incremental k)
          then (streaming k (url k) r, started)
          else (record r { validate = track (url k) names r.validate }, failed stream_failed))
  unfolding client_subscribes text_eq get_builder new_request
  client_subscribes-ads srv k r hu joined fresh = ground arith

  -- A runner without a stream subscribes to a service that has a type URL, by its name in capitals
  -- unless it aggregates. It opens the stream of the service, or the aggregated one, by the call for
  -- the mode. If the server lets it through, the runner has a service with fresh channels and that
  -- stream alone, and its request is the one that it subscribes by; if not, the step fails, and of
  -- the runner only what it tracks has changed.
  pub client_subscribes-first :
      (srv : Text) (k : Service) (r : Runner Any Conn)
      → service_to_type_url srv ≡ ok (url k)
      → (r.aggregated ≡ true) ⊎ ((r.aggregated ≡ false) × (srv ≡ upper k))
      → has_stream r ≡ false
      → client_subscribes pb opens srv names r ≡ (
          if opens r.target.conn (rpc_for r.aggregated r.incremental k)
          then (streaming k (url k) r, started)
          else (record r { validate = track (url k) names r.validate }, failed stream_failed))
  client_subscribes-first srv k r hu (inl joined) fresh =
      client_subscribes-ads srv k r hu joined fresh
  client_subscribes-first srv k r hu (inr (apart, e)) fresh =
      rw e (client_subscribes-upper k r apart fresh)

  -- A further subscription leaves the stream and the subscribing request as they are.
  client_subscribes-again :
      (srv u : Text) (r : Runner Any Conn)
      → service_to_type_url srv ≡ ok u
      → has_stream r ≡ true
      → ((client_subscribes pb opens srv names r).0.subscribe_request ≡ r.subscribe_request)
        × ((client_subscribes pb opens srv names r).0.service.sotw ≡ r.service.sotw)
        × ((client_subscribes pb opens srv names r).0.service.delta ≡ r.service.delta)
  unfolding client_subscribes
  client_subscribes-again srv u r hu has =
      let r' : Runner Any Conn = record r { validate = track u names r.validate } in
      ground (arith, push_request-keeps (new_request pb r' names u) r')

  -- A runner that has a stream subscribes to a further service. A response is then acknowledged,
  -- state of the world, with success, and is of another type than the runner's subscribing request
  -- from before the step. Then the ACK has the nonce of the response, but the resource names and the
  -- type URL of that request, so that it is not of the type of its response.
  pub client_subscribes-ack_type :
      (srv u : Text) (r : Runner Any Conn) (sub : DiscoveryRequest) (res : Option Any)
      (response : DiscoveryResponse Any) (ack : Any)
      → service_to_type_url srv ≡ ok u
      → has_stream r ≡ true
      → unmarshal_to pb.request r.subscribe_request ≡ some sub
      → unmarshal_to pb.response res ≡ some response
      → response.type_url ≢ sub.type_url
      → (new_ack pb false (client_subscribes pb opens srv names r).0.subscribe_request res).0
        ≡ some ack
      → (request : DiscoveryRequest) × (pb.request.unmarshal ack ≡ some request)
        × (request.response_nonce ≡ response.nonce)
        × (request.resource_names ≡ sub.resource_names)
        × (request.type_url ≡ sub.type_url)
        × (request.type_url ≢ response.type_url)
  client_subscribes-ack_type srv u r sub res response ack hu has hs hr other h =
      let same = (client_subscribes-again srv u r hu has).0 in
      (
        _,
        new_ack-sotw pb r.subscribe_request res sub response ack hs hr (rw same at h),
        refl,
        refl,
        refl,
        λ e. other (sym e),
      )
