-- ===== src/Parser.antt =====
-- internal/parser/parser.go, but for ValuesFromConfig (reading a YAML file).
pub mod TypeUrls
pub mod Names
pub mod Variants
use xds_test_harness.Base.{Option, none, some, List, [], ◌∷◌, ◌++◌, if◌then◌else◌}
use xds_test_harness.Text.{Text, codes, text_eq}
use xds_test_harness.Text.Case.{to_lower}
use xds_test_harness.Dict.{Dict, lookup}
use xds_test_harness.Errors.{
  Error, Result, ok, err, no_type_url, no_resource_name, unrecognized_variant,
}
use xds_test_harness.Proto.{Codec, Anypb, DiscoveryResponse}
use xds_test_harness.Types.{
  Variant, sotw_non_aggregated, sotw_aggregated, incremental_non_aggregated, incremental_aggregated,
}

abbrev pub type_url_lds : Text
type_url_lds = codes "type.googleapis.com/envoy.config.listener.v3.Listener"

abbrev pub type_url_cds : Text
type_url_cds = codes "type.googleapis.com/envoy.config.cluster.v3.Cluster"

abbrev pub type_url_rds : Text
type_url_rds = codes "type.googleapis.com/envoy.config.route.v3.RouteConfiguration"

abbrev pub type_url_eds : Text
type_url_eds = codes "type.googleapis.com/envoy.config.endpoint.v3.ClusterLoadAssignment"

abbrev pub type_urls : Dict Text
type_urls =
    (codes "lds", type_url_lds)
    ∷ (codes "cds", type_url_cds)
    ∷ (codes "eds", type_url_eds)
    ∷ (codes "rds", type_url_rds)
    ∷ []

abbrev pub found_or {ℓ} : {A : Type ℓ} → Error → Option A → Result A
found_or e none = err e
found_or e (some a) = ok a

-- ServiceToTypeURL
unfoldable pub service_to_type_url : Text → Result Text
service_to_type_url service =
    let service' = to_lower service in found_or (no_type_url service') (lookup service' type_urls)

module _ {Any : Type 0} where
  -- One loop of ResourceNames: the names so far, and the resources left.
  unfoldable pub gather : Codec Any Text → List Text → List Any → Result (List Text)
  gather c names [] = ok names
  gather c names (r ∷ rs) = elim (c.unmarshal r) [
    | none ↦ err no_resource_name
    | some name ↦ gather c (names ++ name ∷ []) rs
  ]

  -- ResourceNames
  unfoldable pub resource_names : Anypb Any → DiscoveryResponse Any → Result (List Text)
  resource_names pb res =
      if text_eq res.type_url type_url_lds
      then gather pb.listener [] res.resources
      else if text_eq res.type_url type_url_cds
      then gather pb.cluster [] res.resources
      else if text_eq res.type_url type_url_eds
      then gather pb.endpoint [] res.resources
      else if text_eq res.type_url type_url_rds
      then gather pb.route [] res.resources
      else ok []

abbrev pub variant_map : Dict Variant
variant_map =
    (codes "sotw non-aggregated", sotw_non_aggregated)
    ∷ (codes "sotw aggregated", sotw_aggregated)
    ∷ (codes "incremental non-aggregated", incremental_non_aggregated)
    ∷ (codes "incremental aggregated", incremental_aggregated)
    ∷ []

-- The loop of ParseSupportedVariants. On an unknown key the variable `variant` holds the zero value
-- of its type, and the message prints that.
unfoldable pub parse_from : List Variant → List Text → List Variant × Option Error
parse_from supported [] = (supported, none)
parse_from supported (v ∷ vs) = elim (lookup (to_lower v) variant_map) [
  | none ↦ (supported, some (unrecognized_variant []))
  | some variant ↦ parse_from (supported ++ variant ∷ []) vs
]

-- ParseSupportedVariants
unfoldable pub parse_supported_variants : List Text → List Variant × Option Error
unfolding parse_from
parse_supported_variants variants = parse_from [] variants
