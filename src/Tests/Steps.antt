-- ===== src/Tests/Steps.antt =====
-- The steps of a scenario on runners that have seen a few resources.
use xds_test_harness.Base.{
  ◌≡◌, ◌≢◌, ◌↔◌, ◌⊎◌, inr, arith, refl, All, true, false, none, some, [], ◌∷◌, ℕ,
}
use xds_test_harness.Text.{Text, codes, text_eq}
use xds_test_harness.Text.Case.{to_lower, lower}
use xds_test_harness.Text.Parts.{onto_first, split}
use xds_test_harness.Dict.{lookup, insert, IsMap}
use xds_test_harness.Dict.Walk.{in_order}
use xds_test_harness.Errors.{ok, same_nonce, resource_missing}
use xds_test_harness.Proto.{DiscoveryRequest}
use xds_test_harness.Parser.{type_url_lds, type_url_cds, service_to_type_url}
use xds_test_harness.Parser.TypeUrls.{Service, lds, cds, eds, rds}
use xds_test_harness.Validate.{Validate, ValidateResource, at_type, info_at}
use xds_test_harness.Runner.{Runner}
use xds_test_harness.Runner.Requests.{new_ack, new_request}
use xds_test_harness.Chan.{send}
use xds_test_harness.Steps.{passed, started, failed, panicked, push_request}
use xds_test_harness.Steps.Subscriptions.{client_subscribes}
use xds_test_harness.Steps.Subscriptions.Tracking.{Tracks, client_subscribes-Tracks}
use xds_test_harness.Steps.Subscriptions.Streams.{
  upper, streaming, client_subscribes-first, client_subscribes-panics, client_subscribes-ack_type,
}
use xds_test_harness.Steps.Receiving.{on_error, on_timer, receives_only, receives_nothing}
use xds_test_harness.Steps.Receiving.Laws.{receives_only_iff, receives_nothing_iff}
use xds_test_harness.Steps.Validation.{
  nonces_from, check_others, check_nonces, single_response, no_other_version_or_nonce,
  no_other_nonce,
}
use xds_test_harness.Steps.Validation.SingleResponse.{SeenIn, single_response_iff}
use xds_test_harness.Steps.Validation.Others.{Differs, no_other_version_or_nonce_iff}
use xds_test_harness.Tests.{Packed, packed_request, packed_response, packed_nil, pb}
use xds_test_harness.Tests.Fixtures.{any_server, base_runner, listening, wildcard}

pub lds-url : service_to_type_url (codes "LDS") ≡ ok type_url_lds
unfolding service_to_type_url to_lower lower lookup text_eq
lds-url = refl

cds-url : service_to_type_url (codes "CDS") ≡ ok type_url_cds
unfolding service_to_type_url to_lower lower lookup text_eq
cds-url = refl

lower-url : service_to_type_url (codes "lds") ≡ ok type_url_lds
unfolding service_to_type_url to_lower lower lookup text_eq
lower-url = refl

client_subscribes-Tracks_example :
    Tracks type_url_lds
      (codes "A" ∷ [])
      base_runner.validate
      (client_subscribes pb any_server (codes "LDS") (codes "A" ∷ []) base_runner).0.validate
client_subscribes-Tracks_example =
    client_subscribes-Tracks pb any_server (codes "LDS") (codes "A" ∷ []) base_runner type_url_lds
      lds-url

client_subscribes-first_example :
    client_subscribes pb any_server (codes "LDS") [] base_runner
    ≡ (streaming pb any_server [] lds type_url_lds base_runner, started)
client_subscribes-first_example =
    client_subscribes-first pb any_server [] (codes "LDS") lds base_runner lds-url
      (inr (refl, refl)) refl

not-capitals : (k : Service) → codes "lds" ≢ upper k
not-capitals lds h = ground arith
not-capitals cds h = ground arith
not-capitals eds h = ground arith
not-capitals rds h = ground arith

client_subscribes-panics_example :
    (client_subscribes pb any_server (codes "lds") [] base_runner).1 ≡ panicked
client_subscribes-panics_example =
    client_subscribes-panics pb any_server [] (codes "lds") type_url_lds base_runner lower-url
      not-capitals refl refl

-- An aggregated stream that was opened for listeners.
abbrev joined : Runner Packed ℕ
joined = record listening { aggregated = true }

-- A response of clusters on it.
abbrev clusters : Packed
clusters = packed_response (codes "7") packed_nil type_url_cds (codes "c")

abbrev late_ack : DiscoveryRequest
late_ack = record {
  version_info = codes "7";
  node = none;
  resource_names = [];
  type_url = type_url_lds;
  response_nonce = codes "c";
}

clusters-other : type_url_cds ≢ type_url_lds
clusters-other h = ground arith

joined-ack :
    (new_ack pb false
      (client_subscribes pb any_server (codes "CDS") [] joined).0.subscribe_request
      (some clusters)).0
    ≡ some (packed_request late_ack)
unfolding new_ack client_subscribes push_request send new_request service_to_type_url to_lower lower
    lookup text_eq
joined-ack = refl

client_subscribes-ack_type_example :
    (request : DiscoveryRequest) × (pb.request.unmarshal (packed_request late_ack) ≡ some request)
    × (request.response_nonce ≡ codes "c")
    × (request.resource_names ≡ [])
    × (request.type_url ≡ type_url_lds)
    × (request.type_url ≢ type_url_cds)
client_subscribes-ack_type_example =
    client_subscribes-ack_type pb any_server [] (codes "CDS") type_url_cds joined wildcard
      (some clusters)
      (record {
        version_info = codes "7";
        resources = [];
        type_url = type_url_cds;
        nonce = codes "c";
      })
      (packed_request late_ack) cds-url refl refl refl clusters-other joined-ack

-- What a runner saw of two listeners.
abbrev pub saw : ValidateResource → ValidateResource → Validate
saw a b = record {
  request_count = 3;
  response_count = 2;
  resources = (type_url_lds, (codes "A", a) ∷ (codes "B", b) ∷ []) ∷ [];
  removed_resources = (type_url_lds, []) ∷ [];
}

abbrev together : Validate
together =
    saw (record { version = codes "1"; nonce = codes "n" })
      (record { version = codes "1"; nonce = codes "n" })

abbrev pub apart : Validate
apart =
    saw (record { version = codes "1"; nonce = codes "n" })
      (record { version = codes "2"; nonce = codes "m" })

-- The checks tell the two apart.
together-checks :
    (single_response (codes "A,B") (codes "1") (codes "LDS") together ≡ passed)
    × (no_other_nonce in_order (codes "LDS") (codes "A") together ≡ failed (same_nonce (codes "B")))
    × (no_other_version_or_nonce in_order (codes "LDS") (codes "A") apart ≡ passed)
    × (single_response (codes "A,B") (codes "1") (codes "LDS") apart ≡ failed resource_missing)
unfolding single_response no_other_nonce no_other_version_or_nonce check_others check_nonces
    nonces_from service_to_type_url to_lower lower lookup insert text_eq split onto_first
together-checks = (refl, refl, refl, refl)

pub apart-IsMap : IsMap (at_type type_url_lds apart.resources)
unfolding lookup text_eq
apart-IsMap = ((refl, tt), (tt, tt))

single_response_iff_example :
    (single_response (codes "A,B") (codes "1") (codes "LDS") together ≡ passed) ↔ (
      (nonce : Text) × All
        (SeenIn (at_type type_url_lds together.resources) (codes "1") nonce)
        (split (codes "A,B") b','))
single_response_iff_example =
    single_response_iff (codes "A,B") (codes "1") (codes "LDS") together type_url_lds lds-url

no_other_version_or_nonce_iff_example :
    (no_other_version_or_nonce in_order (codes "LDS") (codes "A") apart ≡ passed) ↔ (
      (name : Text) (info : ValidateResource)
      → lookup name (at_type type_url_lds apart.resources) ≡ some info
      → Differs (codes "A") (info_at type_url_lds (codes "A") apart.resources) (name, info))
no_other_version_or_nonce_iff_example =
    no_other_version_or_nonce_iff in_order (codes "LDS") (codes "A") apart type_url_lds lds-url
      apart-IsMap

abbrev pub receiver : Runner Packed ℕ
receiver = record listening { validate = apart }

receives_only_iff_example :
    (receives_only in_order (codes "A") (codes "1") (codes "LDS") receiver on_timer ≡ passed) ↔ (
      (at_type type_url_lds apart.resources ≡ [])
      ⊎ ((info : ValidateResource) × (at_type type_url_lds apart.resources ≡ (codes "A", info) ∷ [])
          × (info.version ≡ codes "1")))
receives_only_iff_example =
    receives_only_iff receiver in_order (codes "A") (codes "1") (codes "LDS") refl lds-url
      apart-IsMap

receives_nothing_iff_example :
    (receives_nothing (codes "LDS") receiver (on_error none) ≡ passed) ↔ (
      (on_error none ≡ on_error none)
      ⊎ ((on_error none ≡ on_timer) × (at_type type_url_lds apart.resources ≡ [])))
receives_nothing_iff_example =
    receives_nothing_iff receiver (codes "LDS") (on_error none) refl lds-url
