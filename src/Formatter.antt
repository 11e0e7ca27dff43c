-- ===== src/Formatter.antt =====
-- fmt_xds.go: the formatter that counts the results of steps and gathers the failed scenarios. The
-- storage of godog is a parameter; what the formatter prints and its lock are left out.
pub mod Counts
pub mod LastStep
pub mod Failures
use xds_test_harness.Base.{
  ℕ, ◌+◌, ◌%◌, ◌^◌, Bool, true, false, Option, none, some, List, [], ◌∷◌, ◌++◌, length, ◌==◌,
  if◌then◌else◌,
}
use xds_test_harness.Words.{inc64, add64}
use xds_test_harness.Text.{Text, codes, text_eq}
use xds_test_harness.Types.{VariantResults, FailedScenario}
use xds_test_harness.Suite.{zero_variant_results}

-- A panic ends a chain.
infixl 5 ◌>>=◌
abbrev pub ◌>>=◌ : {A B : Type 0} → Option A → (A → Option B) → Option B
none >>= f = none
some a >>= f = f a

-- godog.StepResultStatus
pub data Status : Type 0 where
  passed : Status
  failed : Status
  skipped : Status
  undefined : Status
  pending : Status

-- A pickle: its steps are their ids.
pub record Scenario : Type 0 where
  pub id : Text
  pub name : Text
  pub uri : Text
  pub steps : List Text

pub record StepResult : Type 0 where
  pub status : Status
  pub pickle_id : Text
  pub pickle_step_id : Text
  pub error : Option Text

-- A step of a feature file; the line is its number in decimal.
pub record FeatureStep : Type 0 where
  pub text : Text
  pub line : Text

pub record Feature : Type 0 where
  pub uri : Text
  pub find_step : Text → Option FeatureStep

-- godog's storage. Its MustGet functions panic at an unknown key, which is `none`. A pickle step is
-- its list of AST node ids.
pub record Storage : Type 0 where
  pub step_result : Text → Option StepResult
  pub results_of : Text → List StepResult
  pub failed_results : List StepResult
  pub pickle : Text → Option Scenario
  pub feature : Text → Option Feature
  pub pickle_step : Text → Option (List Text)

-- `steps` is the counter of the embedded formatter.
pub record XdsFmt : Type 0 where
  pub results : VariantResults
  pub steps : ℕ

-- newxdsFmt
abbrev pub new_xds_fmt : XdsFmt
new_xds_fmt = record { results = zero_variant_results; steps = 0 }

abbrev minus_one : ℕ
minus_one = 18446744073709551615

-- indexOf, from an index on; -1 is its pattern.
unfoldable pub index_from : ℕ → Text → List Text → ℕ
index_from i val [] = minus_one
index_from i val (v ∷ arr) =
    let rest = index_from (inc64 i) val arr in if text_eq v val then i else rest

unfoldable pub index_of : Text → List Text → ℕ
unfolding index_from
index_of = index_from 0

-- isLastStep
unfoldable pub is_last_step : Text → Scenario → Bool
unfolding index_of
is_last_step step_id scenario =
    index_of step_id scenario.steps == add64 (length scenario.steps) (minus_one)

-- The step of the feature that a pickle step comes from.
unfoldable pub feature_step : Feature → List Text → Option FeatureStep
feature_step f [] = none
feature_step f (n ∷ ns) = f.find_step n

-- The feature of a scenario, and the step of it that a result is about.
unfoldable pub step_of : Storage → Scenario → StepResult → Option (Feature × FeatureStep)
unfolding feature_step
step_of storage scenario result = do
  f ← storage.feature scenario.uri
  nodes ← storage.pickle_step result.pickle_step_id
  s ← feature_step f nodes
  some (f, s)

abbrev pub is_failed : Status → Bool
is_failed failed = true
is_failed _ = false

-- The loop of didScenarioFail: a failed result overwrites what was found before.
unfoldable pub fail_from :
    Storage → Scenario → Bool × Text × Text → List StepResult → Option (Bool × Text × Text)
unfolding step_of
fail_from storage scenario found [] = some found
fail_from storage scenario found (r ∷ rs) = elim (is_failed r.status) [
  | false ↦ fail_from storage scenario found rs
  | true ↦ do
    at ← step_of storage scenario r
    e ← r.error
    fail_from storage scenario (true, at.1.text, e) rs
]

-- didScenarioFail
unfoldable pub did_scenario_fail : Storage → Scenario → Option (Bool × Text × Text)
unfolding fail_from
did_scenario_fail storage scenario =
    fail_from storage scenario (false, [], []) (storage.results_of scenario.id)

-- The method `step`; `none` is a panic.
unfoldable pub step : Storage → Text → Scenario → XdsFmt → Option XdsFmt
unfolding is_last_step did_scenario_fail
step storage step_id scenario f = do
  _ ← storage.step_result step_id
  _ ←
      if is_last_step step_id scenario
      then did_scenario_fail storage scenario
      else some (false, [], [])
  some (record f { steps = inc64 f.steps })

-- The counters of the methods Passed, Failed, Skipped, Undefined and Pending.
unfoldable pub count : Status → VariantResults → VariantResults
count passed r = record r { total = inc64 r.total; passed = inc64 r.passed }
count failed r = record r { total = inc64 r.total; failed = inc64 r.failed }
count skipped r = record r { total = inc64 r.total; skipped = inc64 r.skipped }
count undefined r = record r { total = inc64 r.total; undefined = inc64 r.undefined }
count pending r = record r { total = inc64 r.total; pending = inc64 r.pending }

-- The method for a status.
unfoldable pub handle : Storage → Status → Scenario → Text → XdsFmt → Option XdsFmt
unfolding step count
handle storage status scenario step_id f =
    step storage step_id scenario (record f { results = count status f.results })

-- The calls that godog makes, in order.
unfoldable pub handle_all : Storage → List (Status × Scenario × Text) → XdsFmt → Option XdsFmt
unfolding handle
handle_all storage [] f = some f
handle_all storage ((status, scenario, step_id) ∷ es) f = do
  g ← handle storage status scenario step_id f
  handle_all storage es g

-- gatherFailedScenarios
unfoldable pub gather_from : Storage → List StepResult → Option (List FailedScenario)
unfolding step_of
gather_from storage [] = some []
gather_from storage (r ∷ rs) = do
  scenario ← storage.pickle r.pickle_id
  at ← step_of storage scenario r
  e ← r.error
  rest ← gather_from storage rs
  some (
      record {
        name = scenario.name;
        failed_step = at.1.text;
        line = at.0.uri ++ (codes ":" ++ at.1.line);
        error = e;
      }
      ∷ rest)

unfoldable pub gather_failed_scenarios : Storage → Option (List FailedScenario)
unfolding gather_from
gather_failed_scenarios storage = gather_from storage storage.failed_results

-- Summary, without the print.
unfoldable pub summary : Storage → XdsFmt → Option XdsFmt
unfolding gather_failed_scenarios
summary storage f = do
  scenarios ← gather_failed_scenarios storage
  some (record f { results = record f.results { failed_scenarios = scenarios } })
