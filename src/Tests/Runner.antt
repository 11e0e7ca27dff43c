-- ===== src/Tests/Runner.antt =====
-- ACKs, fresh runners, and the parser, on concrete inputs.
use xds_test_harness.Base.{◌≡◌, ◌↔◌, inl, inr, arith, refl, none, some, [], ◌∷◌}
use xds_test_harness.Text.{codes, text_eq}
use xds_test_harness.Text.Case.{to_lower, lower}
use xds_test_harness.Dict.{lookup}
use xds_test_harness.Errors.{ok, unrecognized_variant}
use xds_test_harness.Proto.{DeltaDiscoveryResponse, DiscoveryResponse}
use xds_test_harness.Types.{sotw_aggregated}
use xds_test_harness.Parser.{
  type_url_lds, service_to_type_url, resource_names, parse_supported_variants,
}
use xds_test_harness.Parser.TypeUrls.{lds}
use xds_test_harness.Parser.Names.{Reads, codec, resource_names_iff}
use xds_test_harness.Parser.Variants.{Known, parse_supported_variants-unknown}
use xds_test_harness.Runner.Requests.{new_ack}
use xds_test_harness.Runner.Requests.Acks.{new_ack-sotw}
use xds_test_harness.Tests.{Packed, packed_request, packed_response, packed_nil, pb}
use xds_test_harness.Tests.Fixtures.{two_listeners, wildcard}

abbrev no_listeners : DiscoveryResponse Packed
no_listeners = record {
  version_info = codes "1";
  resources = [];
  type_url = type_url_lds;
  nonce = codes "n";
}

new_ack-sotw_example :
    pb.request.unmarshal (
      packed_request
        (record wildcard { version_info = codes "1"; node = none; response_nonce = codes "n" }))
    ≡ some (record {
      version_info = codes "1";
      node = none;
      resource_names = [];
      type_url = type_url_lds;
      response_nonce = codes "n";
    })
unfolding new_ack
new_ack-sotw_example =
    new_ack-sotw pb (some (packed_request wildcard))
      (some (packed_response (codes "1") packed_nil type_url_lds (codes "n"))) wildcard no_listeners
      (packed_request
        (record wildcard { version_info = codes "1"; node = none; response_nonce = codes "n" }))
      refl refl refl

abbrev delta_listeners : DeltaDiscoveryResponse
delta_listeners = record {
  system_version_info = codes "1";
  resources = codes "A" ∷ [];
  type_url = type_url_lds;
  removed_resources = [];
  nonce = codes "n";
}

resource_names_iff_example :
    (resource_names pb two_listeners ≡ ok (codes "A" ∷ codes "B" ∷ []))
    ↔ Reads (codec pb lds) two_listeners.resources (codes "A" ∷ codes "B" ∷ [])
resource_names_iff_example =
    resource_names_iff pb lds two_listeners (codes "A" ∷ codes "B" ∷ []) refl

unknown-delta : ¬ Known (to_lower (codes "delta"))
unfolding to_lower lower
unknown-delta (inl e) = ground arith
unknown-delta (inr (inl e)) = ground arith
unknown-delta (inr (inr (inl e))) = ground arith
unknown-delta (inr (inr (inr e))) = ground arith

parse_supported_variants-unknown_example :
    parse_supported_variants (codes "SOTW aggregated" ∷ codes "delta" ∷ [])
    ≡ (sotw_aggregated ∷ [], some (unrecognized_variant []))
unfolding to_lower lower
parse_supported_variants-unknown_example =
    parse_supported_variants-unknown (codes "SOTW aggregated" ∷ []) (codes "delta") []
      (inr (inl refl), tt) unknown-delta

-- ServiceToTypeURL and ResourceNames, run.
parser-runs :
    (service_to_type_url (codes "Rds")
      ≡ ok (codes "type.googleapis.com/envoy.config.route.v3.RouteConfiguration"))
    × (resource_names pb (record two_listeners { type_url = codes "other" }) ≡ ok [])
unfolding service_to_type_url lookup text_eq to_lower lower resource_names
parser-runs = (refl, refl)
