-- ===== src/Types.antt =====
-- internal/types/types.go: the variants and the counts of results. The Cucumber records of that file
-- are used by nothing and are left out.
use xds_test_harness.Base.{ℕ, List}
use xds_test_harness.Text.{Text, codes}

-- A variant is a string in the source too.
abbrev pub Variant : Type 0
Variant = Text

abbrev pub sotw_non_aggregated : Variant
sotw_non_aggregated = codes "sotw non-aggregated"

abbrev pub sotw_aggregated : Variant
sotw_aggregated = codes "sotw aggregated"

abbrev pub incremental_non_aggregated : Variant
incremental_non_aggregated = codes "incremental non-aggregated"

abbrev pub incremental_aggregated : Variant
incremental_aggregated = codes "incremental aggregated"

pub record FailedScenario : Type 0 where
  pub name : Text
  pub failed_step : Text
  pub line : Text
  pub error : Text

-- The counts are `int`, 64-bit patterns.
pub record VariantResults : Type 0 where
  pub name : Text
  pub total : ℕ
  pub passed : ℕ
  pub failed : ℕ
  pub skipped : ℕ
  pub undefined : ℕ
  pub pending : ℕ
  pub failed_scenarios : List FailedScenario

-- The counts are `int64`.
pub record Results : Type 0 where
  pub total : ℕ
  pub passed : ℕ
  pub failed : ℕ
  pub skipped : ℕ
  pub undefined : ℕ
  pub pending : ℕ
  pub variants : List Text
  pub results_by_variant : List VariantResults
