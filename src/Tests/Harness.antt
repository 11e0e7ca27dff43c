-- ===== src/Tests/Harness.antt =====
-- The suites, the loop of main and the formatter on concrete inputs.
use xds_test_harness.Base.{
  ◌≡◌, ◌≢◌, ◌↔◌, arith, refl, All, true, false, Option, none, some, List, [], ◌∷◌, ℕ,
}
use xds_test_harness.Text.{Text, codes, text_eq}
use xds_test_harness.Text.Parts.{onto_first, split, behind, join}
use xds_test_harness.Text.Parts.Replace.{replace}
use xds_test_harness.Errors.{Result, ok}
use xds_test_harness.Types.{FailedScenario, VariantResults, sotw_aggregated}
use xds_test_harness.Suite.{Suite, suite_of, zero_variant_results, set_tags, variant_to_output_file}
use xds_test_harness.Suite.Tags.{expression, set_tags-expression}
use xds_test_harness.Formatter.{
  Status, passed, failed, Scenario, StepResult, Storage, XdsFmt, new_xds_fmt, is_last_step,
  did_scenario_fail, handle_all, gather_failed_scenarios,
}
use xds_test_harness.Formatter.Counts.{IsStored, IsCounted, handle_all-IsCounted}
use xds_test_harness.Formatter.LastStep.{EndsIn, is_last_step_iff}
use xds_test_harness.Formatter.Failures.{AllReported, gather_failed_scenarios_iff}
use xds_test_harness.Tests.{Packed}

abbrev pub aggregated_suite : Suite Packed ℕ
aggregated_suite = suite_of sotw_aggregated true false false

-- The tags of a suite and its output file, run.
suite-runs :
    (expression sotw_aggregated (codes "@LDS") ≡ codes "@sotw && @aggregated && @LDS")
    × (variant_to_output_file sotw_aggregated ≡ codes "sotw-aggregated.json")
unfolding expression replace text_eq variant_to_output_file split onto_first join behind
suite-runs = (refl, refl)

set_tags-expression_example :
    set_tags (codes "@LDS") aggregated_suite
    ≡ (record aggregated_suite { tags = expression sotw_aggregated (codes "@LDS") }, none)
set_tags-expression_example = set_tags-expression (codes "@LDS") aggregated_suite

abbrev pub three_passed : VariantResults
three_passed = record zero_variant_results { total = 3; passed = 3 }

abbrev pub dial : Text → Option ℕ
dial address = some 7

abbrev pub reported : Suite Packed ℕ → Result VariantResults
reported s = ok three_passed

-- A scenario of two steps, the second of which has failed.
abbrev scenario : Scenario
scenario = record {
  id = codes "p";
  name = codes "Wildcard";
  uri = codes "lds.feature";
  steps = codes "s1" ∷ codes "s2" ∷ [];
}

abbrev result_of : Text → StepResult
result_of id = record {
  status = failed;
  pickle_id = codes "p";
  pickle_step_id = id;
  error = some (codes "boom");
}

abbrev storage : Storage
storage = record {
  step_result = λ id. some (result_of id);
  results_of = λ id. result_of (codes "s2") ∷ [];
  failed_results = result_of (codes "s2") ∷ [];
  pickle = λ id. some scenario;
  feature = λ uri. some (record {
    uri = uri;
    find_step = λ node. some (record { text = codes "the Client does"; line = codes "12" });
  });
  pickle_step = λ id. some (codes "n" ∷ []);
}

abbrev calls : List (Status × Scenario × Text)
calls = (passed, scenario, codes "s1") ∷ (failed, scenario, codes "s2") ∷ []

scenario-fails :
    did_scenario_fail storage scenario ≡ some (true, codes "the Client does", codes "boom")
unfolding did_scenario_fail
scenario-fails = refl

some-scenario-fails : did_scenario_fail storage scenario ≢ none
some-scenario-fails h = cc (scenario-fails, h)

calls-IsStored : All (IsStored storage) calls
calls-IsStored = ((λ h. cc, some-scenario-fails), ((λ h. cc, some-scenario-fails), tt))

handle_all-IsCounted_example :
    (g : XdsFmt) × (handle_all storage calls new_xds_fmt ≡ some g) × IsCounted calls g
handle_all-IsCounted_example = handle_all-IsCounted storage calls calls-IsStored

is_last_step_iff_example :
    (is_last_step (codes "s2") scenario ≡ true) ↔ EndsIn (codes "s2") scenario.steps
is_last_step_iff_example = is_last_step_iff (codes "s2") scenario (λ h. cc) (omega arith)

-- A scenario without steps has any step for its last one.
no_steps-last : is_last_step (codes "s") (record scenario { steps = [] }) ≡ true
unfolding is_last_step
no_steps-last = refl

abbrev report : List FailedScenario
report =
    record {
      name = codes "Wildcard";
      failed_step = codes "the Client does";
      line = codes "lds.feature:12";
      error = codes "boom";
    }
    ∷ []

gathers : gather_failed_scenarios storage ≡ some report
unfolding gather_failed_scenarios
gathers = refl

gather_failed_scenarios_iff_example :
    (gather_failed_scenarios storage ≡ some report)
    ↔ AllReported storage storage.failed_results report
gather_failed_scenarios_iff_example = gather_failed_scenarios_iff storage report
