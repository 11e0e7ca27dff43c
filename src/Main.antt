-- ===== src/Main.antt =====
-- main.go: the suites of all variants one after the other, and the sums of their results. The flags
-- are arguments; godog and the dial of gRPC are parameters.
pub mod Laws
pub mod Decimal
pub mod Printing
pub mod Settings
use xds_test_harness.Base.{ℕ, Bool, Option, none, some, List, [], ◌∷◌}
use xds_test_harness.Text.{Text}
use xds_test_harness.Errors.{Error, Result, ok, err}
use xds_test_harness.Types.{Variant, VariantResults, Results}
use xds_test_harness.Suite.{Suite, new_suite, start_runner, set_tags, run_suite, update_results}

-- A value, an exit by log.Fatal, or a panic.
pub data Outcome (A : Type 0) : Type 0 where
  finished : A → Outcome A
  fatal : Error → Outcome A
  panicked : Outcome A

-- The variable `results` before the loop.
abbrev pub zero_results : Results
zero_results = record {
  total = 0;
  passed = 0;
  failed = 0;
  skipped = 0;
  undefined = 0;
  pending = 0;
  variants = [];
  results_by_variant = [];
}

abbrev pub outcome_of : Result VariantResults → Outcome VariantResults
outcome_of (ok r) = finished r
outcome_of (err e) = fatal e

module _ {Any Conn : Type 0} (dial : Text → Option Conn)
    (reported : Suite Any Conn → Result VariantResults) (node adapter target tags : Text)
    (test_writing : Bool) where
  -- A suite whose runner is connected: its tags, and its run.
  unfoldable pub run_tagged : Suite Any Conn × Option Error → Outcome VariantResults
  run_tagged (s, some e) = fatal e
  run_tagged (s, none) = outcome_of (run_suite reported s)

  unfoldable pub run_connected : Suite Any Conn × Option Error → Outcome VariantResults
  unfolding run_tagged
  run_connected (s, some e) = fatal e
  run_connected (s, none) = run_tagged (set_tags tags s)

  -- One pass of the loop. NewSuite gives nil for an unknown variant, and StartRunner panics at it.
  unfoldable pub run_variant : Variant → Outcome VariantResults
  unfolding run_connected
  run_variant v = elim (new_suite {Any = Any} {Conn = Conn} v test_writing) [
    | none ↦ panicked
    | some s ↦ elim (start_runner dial node adapter target s) [
      | none ↦ panicked
      | some started ↦ run_connected started
    ]
  ]

  -- The loop over the supported variants.
  unfoldable pub run_variants : List Variant → Results → Outcome Results
  unfolding run_variant
  run_variants [] results = finished results
  run_variants (v ∷ vs) results = elim (run_variant v) [
    | finished r ↦ run_variants vs (update_results results r)
    | fatal e ↦ fatal e
    | panicked ↦ panicked
  ]
