-- ===== src/Service.antt =====
-- internal/runner/services.go: the channels of a service, its stream, and the five builders.
use xds_test_harness.Base.{Bool, Option, none, some, [], if◌then◌else◌}
use xds_test_harness.Text.{Text, codes, text_eq}
use xds_test_harness.Errors.{Error, stream_failed}
use xds_test_harness.Chan.{Chan, make}

-- Requests and responses are pointers to an `Any`. The channel Done has no buffer: a send to it and
-- the receive are one step (module Session), so it holds nothing.
pub record Channels (Any : Type 0) : Type 0 where
  pub req : Chan (Option Any)
  pub res : Chan (Option Any)
  pub errors : Chan Error

-- The calls that open a stream.
pub data Rpc : Type 0 where
  stream_listeners delta_listeners : Rpc
  stream_clusters delta_clusters : Rpc
  stream_routes delta_routes : Rpc
  stream_endpoints delta_endpoints : Rpc
  stream_aggregated_resources delta_aggregated_resources : Rpc

-- A stream with its context: the call that opened it, on a connection.
pub record Stream (Conn : Type 0) : Type 0 where
  pub conn : Option Conn
  pub rpc : Rpc

pub record XdsService (Any Conn : Type 0) : Type 0 where
  pub name : Text
  pub channels : Option (Channels Any)
  pub sotw : Option (Stream Conn)
  pub delta : Option (Stream Conn)

-- The fields of a builder, the same for each of the five types.
pub record Builder (Any Conn : Type 0) : Type 0 where
  pub name : Text
  pub channels : Option (Channels Any)
  pub sotw : Option (Stream Conn)
  pub delta : Option (Stream Conn)

-- Whether the server lets the call through.
abbrev pub Opens : Type 0 → Type 0
Opens Conn = Option Conn → Rpc → Bool

-- The interface serviceBuilder.
pub record ServiceBuilder (Any Conn : Type 0) : Type 0 where
  pub open_channels : Builder Any Conn → Builder Any Conn
  pub set_sotw_stream :
      Opens Conn → Option Conn → Builder Any Conn → Builder Any Conn × Option Error
  pub set_delta_stream :
      Opens Conn → Option Conn → Builder Any Conn → Builder Any Conn × Option Error
  pub get_service : Text → Builder Any Conn → XdsService Any Conn

abbrev pub fresh_channels : {Any : Type 0} → Channels Any
fresh_channels = record { req = make 2; res = make 2; errors = make 2 }

module _ {Any Conn : Type 0} where
  -- &LDSBuilder{} and the like.
  abbrev pub zero_builder : Builder Any Conn
  zero_builder = record { name = []; channels = none; sotw = none; delta = none }

  -- &XDSService{}
  abbrev pub zero_service : XdsService Any Conn
  zero_service = record { name = []; channels = none; sotw = none; delta = none }

  -- The methods of a builder that opens its streams by these two calls.
  abbrev builder_of : Text → Rpc → Rpc → ServiceBuilder Any Conn
  builder_of name sotw delta = record {
    open_channels = λ b. record b { channels = some fresh_channels };
    set_sotw_stream = λ opens conn b.
        if opens conn sotw
        then (record b { sotw = some (record { conn = conn; rpc = sotw }) }, none)
        else (b, some stream_failed);
    set_delta_stream = λ opens conn b.
        if opens conn delta
        then (record b { delta = some (record { conn = conn; rpc = delta }) }, none)
        else (b, some stream_failed);
    get_service =
        λ srv b. record { name = name; channels = b.channels; sotw = b.sotw; delta = b.delta };
  }

  unfoldable pub lds_builder : ServiceBuilder Any Conn
  lds_builder = builder_of (codes "LDS") stream_listeners delta_listeners

  unfoldable pub cds_builder : ServiceBuilder Any Conn
  cds_builder = builder_of (codes "CDS") stream_clusters delta_clusters

  unfoldable pub rds_builder : ServiceBuilder Any Conn
  rds_builder = builder_of (codes "RDS") stream_routes delta_routes

  unfoldable pub eds_builder : ServiceBuilder Any Conn
  eds_builder = builder_of (codes "EDS") stream_endpoints delta_endpoints

  unfoldable pub ads_builder : ServiceBuilder Any Conn
  ads_builder = builder_of (codes "ADS") stream_aggregated_resources delta_aggregated_resources

  -- getBuilder; nil is `none`.
  unfoldable pub get_builder : Text → Option (ServiceBuilder Any Conn)
  unfolding lds_builder cds_builder rds_builder eds_builder ads_builder
  get_builder builder_type =
      if text_eq builder_type (codes "LDS")
      then some lds_builder
      else if text_eq builder_type (codes "CDS")
      then some cds_builder
      else if text_eq builder_type (codes "RDS")
      then some rds_builder
      else if text_eq builder_type (codes "EDS")
      then some eds_builder
      else if text_eq builder_type (codes "ADS")
      then some ads_builder
      else none
