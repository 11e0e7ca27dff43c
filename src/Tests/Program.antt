-- ===== src/Tests/Program.antt =====
-- Scenarios, the config file and the printed results.
use xds_test_harness.Base.{
  ℕ, ◌≡◌, refl, inl, inr, arith, map, if◌then◌else◌, true, false, Option, none, some, List, [], ◌∷◌,
  ◌++◌,
}
use xds_test_harness.Text.{Text, codes, text_eq, has_prefix}
use xds_test_harness.Text.Case.{to_lower, lower}
use xds_test_harness.Types.{Results}
use xds_test_harness.Runner.{Runner, fresh_runner, connect_client, connect, connect_via_grpc}
use xds_test_harness.Suite.{start_runner, start_adapter}
use xds_test_harness.Suite.Heap.{placed}
use xds_test_harness.Suite.Scenarios.{starts, start_runner-starts}
use xds_test_harness.Suite.Totals.{IsTotal}
use xds_test_harness.Main.{finished}
use xds_test_harness.Main.Laws.{AllReported}
use xds_test_harness.Main.Decimal.{show_int, digits}
use xds_test_harness.Main.Printing.{variant_results, failed_tests, print_results}
use xds_test_harness.Main.Printing.Lines.{Says, lines, variant_results-lines}
use xds_test_harness.Main.Settings.{scalar, list, File, Flags, main}
use xds_test_harness.Main.Settings.Config.{main-finished}
use xds_test_harness.Tests.{Packed, packed_listener}
use xds_test_harness.Tests.Fixtures.{base_runner}
use xds_test_harness.Tests.Harness.{aggregated_suite, dial, reported, three_passed}

-- The runner of a suite that is connected to both servers.
abbrev suite_runner : Runner Packed ℕ
suite_runner = record base_runner {
  adapter = record { port = codes ":17000"; conn = some 7 };
  target = record { port = codes ":18000"; conn = some 7 };
  aggregated = true;
}

suite_runner-started :
    start_runner dial (codes "test-id") (codes ":17000") (codes ":18000") aggregated_suite
    ≡ some (record aggregated_suite { runner = some suite_runner }, none)
unfolding start_runner start_adapter connect_client connect connect_via_grpc fresh_runner text_eq
    has_prefix
suite_runner-started = refl

-- A scenario that subscribes, and one that does nothing.
abbrev two_scenarios : List (Runner Packed ℕ → Runner Packed ℕ)
two_scenarios =
    (λ r. record r { subscribe_request = some (packed_listener (codes "A")) }) ∷ (λ r. r) ∷ []

start_runner-starts_example :
    starts two_scenarios 0 (placed suite_runner) ≡ suite_runner ∷ suite_runner ∷ []
start_runner-starts_example =
    start_runner-starts dial (codes "test-id") (codes ":17000") (codes ":18000") aggregated_suite
      (record aggregated_suite { runner = some suite_runner }) suite_runner suite_runner-started
      refl two_scenarios

three_passed-printed :
    variant_results three_passed
    ≡ codes "Total tests: 3\nPassed: 3\nFailed: 0\nSkipped: 0\nUndefined: 0\nPending: 0\n"
unfolding variant_results failed_tests show_int digits
three_passed-printed = refl

variant_results-lines_example :
    (total passed failed skipped undefined pending : Text) × (middle : List Text) × (lines
        (variant_results three_passed)
      ≡ total ∷ passed ∷ failed ∷ (middle ++ skipped ∷ undefined ∷ pending ∷ [] ∷ []))
    × Says (codes "Total tests: ") 3 total
    × Says (codes "Passed: ") 3 passed
    × Says (codes "Failed: ") 0 failed
    × Says (codes "Skipped: ") 0 skipped
    × Says (codes "Undefined: ") 0 undefined
    × Says (codes "Pending: ") 0 pending
variant_results-lines_example = variant_results-lines three_passed (record {
  total = omega arith;
  passed = omega arith;
  failed = omega arith;
  skipped = omega arith;
  undefined = omega arith;
  pending = omega arith;
})

-- A config file with two variants, and the flags that name it.
abbrev config_get : Text → Option Text
config_get key =
    if text_eq key (codes "nodeID")
    then some (codes "test-id")
    else if text_eq key (codes "targetAddress")
    then some (codes ":18000")
    else if text_eq key (codes "adapterAddress")
    then some (codes ":17000")
    else none

abbrev config_file : File
config_file = record {
  get = config_get;
  child = λ key.
      some (list (scalar (codes "sotw aggregated") ∷ scalar (codes "Incremental aggregated") ∷ []));
}

abbrev flags : Flags
flags = record {
  test_writing = false;
  config = codes "config.yaml";
  adapter_address = codes ":1";
  target_address = codes ":2";
  node_id = codes "other";
  variant = codes "sotw non-aggregated" ∷ [];
  tags = [];
}

main-finished_example :
    (final : Results) × (main {Any = Packed} {Conn = ℕ}
        (λ path. some config_file)
        dial
        reported
        flags
      ≡ finished (some (print_results final, final)))
    × IsTotal final
    × (final.variants
        ≡ map to_lower (codes "sotw aggregated" ∷ codes "Incremental aggregated" ∷ []))
    × AllReported {Any = Packed} dial reported
        (codes "test-id")
        (codes ":17000")
        (codes ":18000")
        []
        (map to_lower (codes "sotw aggregated" ∷ codes "Incremental aggregated" ∷ []))
        final.results_by_variant
unfolding text_eq to_lower lower
main-finished_example =
    main-finished (λ path. some config_file) dial reported flags (codes "test-id") (codes ":18000")
      config_file (codes "sotw aggregated" ∷ codes "Incremental aggregated" ∷ [])
      (λ address. (7, refl)) (λ s. (three_passed, refl)) refl (inl refl, tt) refl refl refl refl
      refl (inr (inl refl), (inr (inr (inr refl)), tt))
