-- ===== src/Main/Printing/Lines.antt =====
-- The lines of the text that variantResults makes.
use xds_test_harness.Base.{
  ℕ, ◌≡◌, ◌≢◌, refl, sym, ◌∙◌, ap, false, Bool-cases, inl, inr, ◌==◌, List, [], ◌∷◌, ◌++◌,
  append_assoc, All-append, length, ltb, if◌then◌else◌,
}
use xds_test_harness.Words.{IsWord}
use xds_test_harness.Text.{Text, codes}
use xds_test_harness.Text.Parts.{
  Lacks, lacks-Lacks, onto_first, split, split-hit, split-miss, split-ne-nil, split-part,
}
use xds_test_harness.Types.{FailedScenario, VariantResults}
use xds_test_harness.Main.Decimal.{show_int, read_int, read_int-show_int, show_int-Lacks}
use xds_test_harness.Main.Printing.{count_line, newline, failed_tests, variant_results}

-- The line is the label and a number behind it, which reads as this one.
abbrev pub Says : Text → ℕ → Text → Type 0
Says label n line = (shown : Text) × (line ≡ label ++ shown) × (read_int shown ≡ n)

-- The lines of a text; behind its last newline stands an empty one.
abbrev pub lines : Text → List Text
lines t = split t b'\n'

onto_first-append :
    (c : ℕ) (ps qs : List Text) → ps ≢ [] → onto_first c (ps ++ qs) ≡ onto_first c ps ++ qs
unfolding onto_first
onto_first-append c [] qs h = absurd (h refl)
onto_first-append c (p ∷ ps) qs h = refl

-- What stands before a newline, and what behind it.
lines-append : (s t : Text) → lines (s ++ b'\n' ∷ t) ≡ lines s ++ lines t
unfolding split
lines-append [] t = split-hit b'\n' b'\n' t refl
lines-append (c ∷ s) t = elim (Bool-cases (c == b'\n')) [
  | inl hit ↦
      split-hit c b'\n' (s ++ b'\n' ∷ t) hit
      ∙ ap (λ l. [] ∷ l) (lines-append s t)
      ∙ ap (λ l. l ++ lines t) (sym (split-hit c b'\n' s hit))
  | inr miss ↦
      split-miss c b'\n' (s ++ b'\n' ∷ t) miss
      ∙ ap (onto_first c) (lines-append s t)
      ∙ onto_first-append c (lines s) (lines t) (split-ne-nil s b'\n')
      ∙ ap (λ l. l ++ lines t) (sym (split-miss c b'\n' s miss))
]

lines-count_line :
    (label : Text) (n : ℕ) (rest : Text)
    → Lacks b'\n' label
    → lines (count_line label n rest) ≡ (label ++ show_int n) ∷ lines rest
lines-count_line label n rest h =
    ap lines (sym (append_assoc label (show_int n) (b'\n' ∷ rest)))
    ∙ split-part b'\n' (label ++ show_int n) rest
        (All-append (λ c. (c == b'\n') ≡ false) label (show_int n) h (show_int-Lacks n))

-- The text ends with a newline.
abbrev EndsLine : Text → Type 0
EndsLine t = (s : Text) × (t ≡ s ++ newline)

append-EndsLine : (p t : Text) → EndsLine t → EndsLine (p ++ t)
append-EndsLine p t (s, e) = (p ++ s, ap (λ x. p ++ x) e ∙ sym (append_assoc p s newline))

-- One failed test, in front of others.
test-EndsLine :
    (test : FailedScenario) (tests : List FailedScenario)
    → EndsLine (newline ++ failed_tests tests)
    → EndsLine (failed_tests (test ∷ tests))
unfolding failed_tests
test-EndsLine test tests h = append-EndsLine (codes "  - ") _ (
    append-EndsLine test.name _ (
      append-EndsLine (newline ++ codes "    Failed Step: ") _ (
        append-EndsLine test.failed_step _
          (append-EndsLine (newline ++ codes "    Error: ") _ (append-EndsLine test.error _ h)))))

failed_tests-EndsLine : (tests : List FailedScenario) → EndsLine (newline ++ failed_tests tests)
unfolding failed_tests
failed_tests-EndsLine [] = ([], refl)
failed_tests-EndsLine (test ∷ tests) =
    append-EndsLine newline (failed_tests (test ∷ tests))
      (test-EndsLine test tests (failed_tests-EndsLine tests))

-- What variantResults has of the failed tests.
abbrev failures : List FailedScenario → Text
failures tests =
    if ltb 0 (length tests) then codes "Failed Tests:" ++ (newline ++ failed_tests tests) else []

lines-failures :
    (tests : List FailedScenario) (rest : Text)
    → (middle : List Text) × (lines (failures tests ++ rest) ≡ middle ++ lines rest)
lines-failures tests rest = elim (Bool-cases (ltb 0 (length tests))) [
  | inr none_failed ↦ ([], rw none_failed refl)
  | inl failed ↦
      let (s, e) = append-EndsLine (codes "Failed Tests:") _ (failed_tests-EndsLine tests) in
      (
        lines s,
        rw failed (
            ap (λ t. lines (t ++ rest)) e
            ∙ ap lines (append_assoc s newline rest)
            ∙ lines-append s rest),
      )
]

Says-show_int : (label : Text) (n : ℕ) → IsWord n → Says label n (label ++ show_int n)
Says-show_int label n h = (show_int n, refl, read_int-show_int n h)

module _ (r : VariantResults) where
  -- The six counts of a variant are 64-bit patterns.
  pub record IsCounts : Type 0 where
    pub total : IsWord r.total
    pub passed : IsWord r.passed
    pub failed : IsWord r.failed
    pub skipped : IsWord r.skipped
    pub undefined : IsWord r.undefined
    pub pending : IsWord r.pending

  -- When the counts of a variant are 64-bit patterns, its printed results have on their first three
  -- lines the numbers of all tests, of the passed and of the failed ones, and on their last three, which
  -- end the text, those of the skipped, the undefined and the pending ones: each behind its label, and
  -- read as a number again it is that count, whatever the names and errors of the failed tests are.
  pub variant_results-lines :
      IsCounts
      → (total passed failed skipped undefined pending : Text) × (middle : List Text) × (lines
            (variant_results r)
          ≡ total ∷ passed ∷ failed ∷ (middle ++ skipped ∷ undefined ∷ pending ∷ [] ∷ []))
        × Says (codes "Total tests: ") r.total total
        × Says (codes "Passed: ") r.passed passed
        × Says (codes "Failed: ") r.failed failed
        × Says (codes "Skipped: ") r.skipped skipped
        × Says (codes "Undefined: ") r.undefined undefined
        × Says (codes "Pending: ") r.pending pending
  unfolding variant_results split
  variant_results-lines h =
      let last =
        lines-count_line (codes "Pending: ") r.pending []
          (lacks-Lacks b'\n' (codes "Pending: ") refl) in
      let undef =
        lines-count_line (codes "Undefined: ") r.undefined _
          (lacks-Lacks b'\n' (codes "Undefined: ") refl) in
      let skip =
        lines-count_line (codes "Skipped: ") r.skipped _
          (lacks-Lacks b'\n' (codes "Skipped: ") refl) in
      let (middle, between) = lines-failures r.failed_scenarios _ in
      let third =
        lines-count_line (codes "Failed: ") r.failed _
          (lacks-Lacks b'\n' (codes "Failed: ") refl) in
      let second =
        lines-count_line (codes "Passed: ") r.passed _
          (lacks-Lacks b'\n' (codes "Passed: ") refl) in
      let first =
        lines-count_line (codes "Total tests: ") r.total _
          (lacks-Lacks b'\n' (codes "Total tests: ") refl) in
      let tail =
        skip
        ∙ ap (λ l. (codes "Skipped: " ++ show_int r.skipped) ∷ l)
            (undef ∙ ap (λ l. (codes "Undefined: " ++ show_int r.undefined) ∷ l) last) in
      (
        _,
        _,
        _,
        _,
        _,
        _,
        middle,
        first
            ∙ ap (λ l. (codes "Total tests: " ++ show_int r.total) ∷ l)
                (second
                  ∙ ap (λ l. (codes "Passed: " ++ show_int r.passed) ∷ l)
                      (third
                        ∙ ap (λ l. (codes "Failed: " ++ show_int r.failed) ∷ l)
                            (between ∙ ap (λ l. middle ++ l) tail))),
        Says-show_int (codes "Total tests: ") r.total h.total,
        Says-show_int (codes "Passed: ") r.passed h.passed,
        Says-show_int (codes "Failed: ") r.failed h.failed,
        Says-show_int (codes "Skipped: ") r.skipped h.skipped,
        Says-show_int (codes "Undefined: ") r.undefined h.undefined,
        Says-show_int (codes "Pending: ") r.pending h.pending,
      )
