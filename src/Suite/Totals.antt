-- ===== src/Suite/Totals.antt =====
-- The results of all suites are the sums of theirs.
use xds_test_harness.Base.{ℕ, ◌≡◌, sym, ◌∙◌, ap, arith, List, [], ◌∷◌, ◌++◌, map}
use xds_test_harness.Words.{add64}
use xds_test_harness.Types.{VariantResults, Results}
use xds_test_harness.Suite.{update_results}
use mathlib.Core.List.{map-append}

-- The sum of a count over suites, as Go adds.
abbrev pub sum64 : List ℕ → ℕ
sum64 [] = 0
sum64 (n ∷ ns) = add64 n (sum64 ns)

sum64-concat : (ns : List ℕ) (n : ℕ) → sum64 (ns ++ n ∷ []) ≡ add64 (sum64 ns) n
sum64-concat [] n = ground arith
sum64-concat (m ∷ ns) n = ground (arith, sum64-concat ns n)

-- Every count is the sum, modulo 2^64, of the suites' counts; the names are the suites' names.
pub record IsTotal (r : Results) : Type 0 where
  pub total : r.total ≡ sum64 (map (λ v. v.total) r.results_by_variant)
  pub passed : r.passed ≡ sum64 (map (λ v. v.passed) r.results_by_variant)
  pub failed : r.failed ≡ sum64 (map (λ v. v.failed) r.results_by_variant)
  pub skipped : r.skipped ≡ sum64 (map (λ v. v.skipped) r.results_by_variant)
  pub undefined : r.undefined ≡ sum64 (map (λ v. v.undefined) r.results_by_variant)
  pub pending : r.pending ≡ sum64 (map (λ v. v.pending) r.results_by_variant)
  pub variants : r.variants ≡ map (λ v. v.name) r.results_by_variant

sum-concat :
    (f : VariantResults → ℕ) (vs : List VariantResults) (v : VariantResults) (n : ℕ)
    → n ≡ sum64 (map f vs)
    → add64 n (f v) ≡ sum64 (map f (vs ++ v ∷ []))
sum-concat f vs v n h =
    ap (λ m. add64 m (f v)) h
    ∙ sym (sum64-concat (map f vs) (f v))
    ∙ ap sum64 (sym (map-append f vs (v ∷ [])))

-- To add a suite's results keeps every count the sum of the suites' counts.
pub update_results-IsTotal :
    (r : Results) (v : VariantResults) → IsTotal r → IsTotal (update_results r v)
unfolding update_results
update_results-IsTotal r v h = record {
  total = sum-concat (λ w. w.total) r.results_by_variant v r.total h.total;
  passed = sum-concat (λ w. w.passed) r.results_by_variant v r.passed h.passed;
  failed = sum-concat (λ w. w.failed) r.results_by_variant v r.failed h.failed;
  skipped = sum-concat (λ w. w.skipped) r.results_by_variant v r.skipped h.skipped;
  undefined = sum-concat (λ w. w.undefined) r.results_by_variant v r.undefined h.undefined;
  pending = sum-concat (λ w. w.pending) r.results_by_variant v r.pending h.pending;
  variants =
      ap (λ ns. ns ++ v.name ∷ []) h.variants
      ∙ sym (map-append (λ w. w.name) r.results_by_variant (v ∷ []));
}
