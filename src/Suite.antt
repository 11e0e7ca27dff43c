-- ===== src/Suite.antt =====
-- internal/runner/suite.go and the loop of main.go: a suite for each variant, its runner and tags,
-- and the results of all suites. godog, which runs the scenarios, is a parameter.
pub mod Tags
pub mod Totals
pub mod Heap
pub mod Scenarios
use xds_test_harness.Base.{
  ℕ, Bool, true, false, Option, none, some, List, [], ◌∷◌, ◌++◌, map, length, ltb, not,
  if◌then◌else◌,
}
use xds_test_harness.Words.{add64}
use xds_test_harness.Text.{Text, codes, text_eq}
use xds_test_harness.Text.Parts.{split, join}
use xds_test_harness.Errors.{Error, Result, ok, err, no_variant_type, no_target, no_adapter}
use xds_test_harness.Types.{
  Variant, VariantResults, Results, sotw_non_aggregated, sotw_aggregated,
  incremental_non_aggregated, incremental_aggregated,
}
use xds_test_harness.Runner.{Runner, fresh_runner, connect_client}

-- The buffer and the godog suite are left out.
pub record Suite (Any Conn : Type 0) : Type 0 where
  pub variant : Variant
  pub runner : Option (Runner Any Conn)
  pub aggregated : Bool
  pub incremental : Bool
  pub test_writing : Bool
  pub tags : Text

-- The tags of a suite, one for each word of the variant, and the tags of the command line.
unfoldable pub tag_list : Variant → Text → List Text
tag_list variant base =
    map (λ tag. codes "@" ++ tag) (split variant b' ')
    ++ (if text_eq base [] then [] else base ∷ [])

-- variantToOutputFile
unfoldable pub variant_to_output_file : Variant → Text
variant_to_output_file v = join (split v b' ') (codes "-") ++ codes ".json"

module _ {Any Conn : Type 0} where
  -- SetTags
  unfoldable pub set_tags : Text → Suite Any Conn → Suite Any Conn × Option Error
  unfolding tag_list
  set_tags base s =
      if ltb (length (split s.variant b' ')) 1
      then (s, some no_variant_type)
      else (record s { tags = join (tag_list s.variant base) (codes " && ") }, none)

  -- What StartRunner does behind the connection to the target.
  unfoldable pub start_adapter :
      (Text → Option Conn)
      → Text
      → Suite Any Conn
      → Runner Any Conn × Option Error
      → Option (Suite Any Conn × Option Error)
  start_adapter dial adapter s (r, some e) = some (record s { runner = some r }, some (no_target e))
  start_adapter dial adapter s (r, none) = elim (connect_client dial (codes "adapter") adapter r) [
    | none ↦ none
    | some (r', none) ↦ some (record s { runner = some r' }, none)
    | some (r', some e) ↦ some (record s { runner = some r' }, some (no_adapter e))
  ]

  -- StartRunner; `none` is a panic.
  unfoldable pub start_runner :
      (Text → Option Conn)
      → Text
      → Text
      → Text
      → Suite Any Conn
      → Option (Suite Any Conn × Option Error)
  unfolding start_adapter
  start_runner dial node adapter target s =
      let r : Runner Any Conn = record (fresh_runner none) {
        node_id = node;
        aggregated = s.aggregated;
        incremental = s.incremental;
      } in
      elim (connect_client dial (codes "target") target r) [
        | none ↦ none
        | some connected ↦ start_adapter dial adapter s connected
      ]

  abbrev pub suite_of : Variant → Bool → Bool → Bool → Suite Any Conn
  suite_of variant aggregated incremental test_writing = record {
    variant = variant;
    runner = none;
    aggregated = aggregated;
    incremental = incremental;
    test_writing = test_writing;
    tags = [];
  }

  unfoldable pub new_sotw_non_aggregated_suite : Bool → Suite Any Conn
  new_sotw_non_aggregated_suite = suite_of sotw_non_aggregated false false

  unfoldable pub new_sotw_aggregated_suite : Bool → Suite Any Conn
  new_sotw_aggregated_suite = suite_of sotw_aggregated true false

  unfoldable pub new_incremental_non_aggregated_suite : Bool → Suite Any Conn
  new_incremental_non_aggregated_suite = suite_of incremental_non_aggregated false true

  unfoldable pub new_incremental_aggregated_suite : Bool → Suite Any Conn
  new_incremental_aggregated_suite = suite_of incremental_aggregated true true

  -- NewSuite; nil is `none`.
  unfoldable pub new_suite : Variant → Bool → Option (Suite Any Conn)
  unfolding new_sotw_non_aggregated_suite new_sotw_aggregated_suite
      new_incremental_non_aggregated_suite new_incremental_aggregated_suite
  new_suite variant test_writing =
      if text_eq variant sotw_non_aggregated
      then some (new_sotw_non_aggregated_suite test_writing)
      else if text_eq variant sotw_aggregated
      then some (new_sotw_aggregated_suite test_writing)
      else if text_eq variant incremental_non_aggregated
      then some (new_incremental_non_aggregated_suite test_writing)
      else if text_eq variant incremental_aggregated
      then some (new_incremental_aggregated_suite test_writing)
      else none

-- The named result that Run starts with.
abbrev pub zero_variant_results : VariantResults
zero_variant_results = record {
  name = [];
  total = 0;
  passed = 0;
  failed = 0;
  skipped = 0;
  undefined = 0;
  pending = 0;
  failed_scenarios = [];
}

-- Run, with what the formatter left in the buffer when godog has run the suite, as Unmarshal reads it.
unfoldable pub run_suite :
    {Any Conn : Type 0}
    → (Suite Any Conn → Result VariantResults)
    → Suite Any Conn
    → Result VariantResults
run_suite reported s = elim s.test_writing [
  | true ↦ ok zero_variant_results
  | false ↦ elim (reported s) [
    | err e ↦ err e
    | ok results ↦ ok (record results { name = s.variant })
  ]
]

-- UpdateResults
unfoldable pub update_results : Results → VariantResults → Results
update_results current v = record {
  total = add64 current.total v.total;
  passed = add64 current.passed v.passed;
  failed = add64 current.failed v.failed;
  skipped = add64 current.skipped v.skipped;
  undefined = add64 current.undefined v.undefined;
  pending = add64 current.pending v.pending;
  variants = current.variants ++ v.name ∷ [];
  results_by_variant = current.results_by_variant ++ v ∷ [];
}
