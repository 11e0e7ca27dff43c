-- ===== src/Runner.antt =====
-- internal/runner/runner.go: the runner's state, a fresh runner and its connections. The requests
-- that it makes are in Requests, and the goroutines of that file in module Session.
pub mod Requests
pub mod Laws
use xds_test_harness.Base.{
  Bool, true, false, Option, none, some, List, [], ◌∷◌, ◌++◌, if◌then◌else◌,
}
use xds_test_harness.Text.{Text, codes, text_eq, has_prefix}
use xds_test_harness.Errors.{Error, Result, ok, err, cannot_connect}
use xds_test_harness.Service.{XdsService, zero_service}
use xds_test_harness.Validate.{Validate, new_validate}

pub record ClientConfig (Conn : Type 0) : Type 0 where
  pub port : Text
  pub conn : Option Conn

-- The field Cache is set to an empty cache and read nowhere, and is left out.
pub record Runner (Any Conn : Type 0) : Type 0 where
  pub adapter : ClientConfig Conn
  pub target : ClientConfig Conn
  pub node_id : Text
  pub aggregated : Bool
  pub incremental : Bool
  pub service : XdsService Any Conn
  pub subscribe_request : Option Any
  pub validate : Validate

abbrev pub address_port : Text → Text
address_port address = if has_prefix address (codes ":") then address else codes ":" ++ address

module _ {Conn : Type 0} where
  abbrev pub zero_client : ClientConfig Conn
  zero_client = record { port = []; conn = none }

  -- connectViaGRPC, with the outcome of the dial at each address.
  unfoldable pub connect_via_grpc : (Text → Option Conn) → ClientConfig Conn → Result Conn
  connect_via_grpc dial client = elim (dial client.port) [
    | none ↦ err (cannot_connect client.port)
    | some conn ↦ ok conn
  ]

  -- The rest of ConnectClient, for the client that the server's name picks.
  unfoldable pub connect :
      (Text → Option Conn) → Text → ClientConfig Conn → ClientConfig Conn × Option Error
  unfolding connect_via_grpc
  connect dial address client =
      let dialled = record client { port = address_port address } in
      elim (connect_via_grpc dial dialled) [
        | err e ↦ (dialled, some e)
        | ok conn ↦ (record dialled { conn = some conn }, none)
      ]

module _ {Any Conn : Type 0} where
  -- The runner that FreshRunner makes, with what it takes over from another.
  abbrev fresh_with : ClientConfig Conn → ClientConfig Conn → Text → Bool → Bool → Runner Any Conn
  fresh_with adapter target node_id aggregated incremental = record {
    adapter = adapter;
    target = target;
    node_id = node_id;
    aggregated = aggregated;
    incremental = incremental;
    service = zero_service;
    subscribe_request = none;
    validate = new_validate;
  }

  -- FreshRunner; the argument may be left out.
  unfoldable pub fresh_runner : Option (Runner Any Conn) → Runner Any Conn
  unfolding new_validate
  fresh_runner none = fresh_with zero_client zero_client [] false false
  fresh_runner (some current) =
      fresh_with current.adapter current.target current.node_id current.aggregated
        current.incremental

  -- ConnectClient. `none` is the panic at a nil client, for any other name.
  unfoldable pub connect_client :
      (Text → Option Conn) → Text → Text → Runner Any Conn → Option (Runner Any Conn × Option Error)
  unfolding connect
  connect_client dial server address r =
      if text_eq server (codes "target")
      then (let (client, e) = connect dial address r.target in
          some (record r { target = client }, e))
      else if text_eq server (codes "adapter")
      then (let (client, e) = connect dial address r.adapter in
          some (record r { adapter = client }, e))
      else none
