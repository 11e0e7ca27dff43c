-- ===== src/Tests/Fixtures.antt =====
-- A runner that has subscribed to listeners, and a response.
use xds_test_harness.Base.{◌≡◌, refl, true, false, none, some, [], ◌∷◌, ℕ}
use xds_test_harness.Text.{codes}
use xds_test_harness.Errors.{ok}
use xds_test_harness.Proto.{DiscoveryRequest, DiscoveryResponse}
use xds_test_harness.Parser.{type_url_lds, resource_names}
use xds_test_harness.Service.{Opens, fresh_channels}
use xds_test_harness.Validate.{Validate}
use xds_test_harness.Parser.{service_to_type_url, gather}
use xds_test_harness.Dict.{lookup, insert}
use xds_test_harness.Text.{text_eq}
use xds_test_harness.Text.Case.{to_lower, lower}
use xds_test_harness.Runner.Requests.{new_request}
use xds_test_harness.Service.{zero_service, stream_listeners, get_builder}
use xds_test_harness.Steps.Subscriptions.{track}
use xds_test_harness.Steps.{started}
use xds_test_harness.Runner.{Runner}
use xds_test_harness.Steps.Subscriptions.{client_subscribes}
use xds_test_harness.Session.Responses.Recorded.{Tracked}
use xds_test_harness.Tests.{Packed, packed_request, packed_listener, pb}

abbrev pub any_server : Opens ℕ
any_server conn rpc = true

abbrev pub zero_listening : Validate
zero_listening = record {
  request_count = 0;
  response_count = 0;
  resources = (type_url_lds, []) ∷ [];
  removed_resources = (type_url_lds, []) ∷ [];
}

abbrev pub wildcard : DiscoveryRequest
wildcard = record {
  version_info = [];
  node = some (codes "test-id");
  resource_names = [];
  type_url = type_url_lds;
  response_nonce = [];
}

abbrev pub base_runner : Runner Packed ℕ
base_runner = record {
  adapter = record { port = codes ":17000"; conn = some 1 };
  target = record { port = codes ":18000"; conn = some 2 };
  node_id = codes "test-id";
  aggregated = false;
  incremental = false;
  service = zero_service;
  subscribe_request = none;
  validate = record {
    request_count = 0;
    response_count = 0;
    resources = [];
    removed_resources = [];
  };
}

-- A runner that has subscribed to all listeners.
abbrev pub listening : Runner Packed ℕ
listening = record base_runner {
  service = record {
    name = codes "LDS";
    channels = some fresh_channels;
    sotw = some (record { conn = some 2; rpc = stream_listeners });
    delta = none;
  };
  subscribe_request = some (packed_request wildcard);
  validate = zero_listening;
}

pub listening-eq :
    client_subscribes pb any_server (codes "LDS") [] base_runner ≡ (listening, started)
unfolding client_subscribes service_to_type_url to_lower lower lookup text_eq get_builder
    new_request track insert
listening-eq = refl

abbrev pub two_listeners : DiscoveryResponse Packed
two_listeners = record {
  version_info = codes "1";
  resources = packed_listener (codes "A") ∷ packed_listener (codes "B") ∷ [];
  type_url = type_url_lds;
  nonce = codes "n";
}

pub two_listeners-names : resource_names pb two_listeners ≡ ok (codes "A" ∷ codes "B" ∷ [])
unfolding resource_names gather text_eq
two_listeners-names = refl

pub listening-Tracked : Tracked type_url_lds zero_listening.resources
unfolding lookup text_eq
listening-Tracked = refl
