-- ===== src/Main/Printing.antt =====
-- main.go, printResults and variantResults: what is printed of the results.
pub mod Lines
use xds_test_harness.Base.{ℕ, ◌^◌, Bool, ◌&&◌, List, [], ◌∷◌, ◌++◌, length, ltb, if◌then◌else◌}
use xds_test_harness.Text.{Text, codes}
use xds_test_harness.Types.{FailedScenario, VariantResults, Results}
use xds_test_harness.Main.Decimal.{show_int}

-- n > 0, of an int64.
abbrev pub positive : ℕ → Bool
positive n = ltb 0 n && ltb n (2 ^ 63)

abbrev pub newline : Text
newline = b'\n' ∷ []

abbrev pub divider : Text
divider = codes "-------------------"

-- A line of variantResults.
abbrev pub count_line : Text → ℕ → Text → Text
count_line label n rest = label ++ (show_int n ++ (b'\n' ∷ rest))

-- The loop over the failed tests.
unfoldable pub failed_tests : List FailedScenario → Text
failed_tests [] = []
failed_tests (test ∷ tests) =
    codes "  - "
    ++ (test.name
        ++ (newline
            ++ (codes "    Failed Step: "
                ++ (test.failed_step
                    ++ (newline
                        ++ (codes "    Error: "
                            ++ (test.error ++ (newline ++ failed_tests tests))))))))

-- variantResults; the failed tests stand behind the count of the failed.
unfoldable pub variant_results : VariantResults → Text
unfolding show_int failed_tests
variant_results r = count_line (codes "Total tests: ") r.total (
    count_line (codes "Passed: ") r.passed (
      count_line (codes "Failed: ") r.failed (
        (if ltb 0 (length r.failed_scenarios)
          then codes "Failed Tests:" ++ (newline ++ failed_tests r.failed_scenarios)
          else [])
        ++ count_line (codes "Skipped: ") r.skipped (
            count_line (codes "Undefined: ") r.undefined
              (count_line (codes "Pending: ") r.pending [])))))

-- fmt.Println(label, n), where the label has a space at its end, if n > 0.
abbrev if_positive : Text → ℕ → Text → Text
if_positive label n rest = if positive n then count_line label n rest else rest

-- The loop over the variants.
unfoldable pub print_variants : List VariantResults → Text
unfolding variant_results
print_variants [] = []
print_variants (v ∷ vs) =
    let rest = print_variants vs in
    if positive v.total
    then v.name ++ (newline ++ (divider ++ (newline ++ (variant_results v ++ (newline ++ rest)))))
    else rest

-- printResults
unfoldable pub print_results : Results → Text
unfolding show_int print_variants
print_results r =
    newline
    ++ (codes "Test Suite Finished"
        ++ (newline
            ++ (divider
                ++ (newline
                    ++ (codes "Ran "
                        ++ (show_int r.total
                            ++ (codes " tests across "
                                ++ (show_int (length r.variants)
                                    ++ (codes " variants"
                                        ++ (newline
                                            ++ (newline
                                                ++ count_line (codes "Passed:  ") r.passed (
                                                    if_positive (codes "Failed:  ") r.failed (
                                                      if_positive (codes "Skipped:  ") r.skipped (
                                                        if_positive (codes "Undefined:  ")
                                                          r.undefined
                                                          (if_positive (codes "Pending:  ")
                                                            r.pending
                                                            (newline
                                                            ++ (newline
                                                            ++ (codes
                                                            "Results broken down by Variant...."
                                                            ++ (newline
                                                            ++ (newline
                                                            ++ print_variants
                                                            r.results_by_variant))))))))))))))))))))
