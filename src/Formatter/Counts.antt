-- ===== src/Formatter/Counts.antt =====
-- What the counters hold when godog has called the formatter's methods.
use xds_test_harness.Base.{
  ℕ, ◌+◌, ◌%◌, ◌^◌, ◌≡◌, ◌≢◌, refl, append_assoc, append-nil, length-append, All, sym, subst, arith,
  Bool, true, false, Bool-cases, Option-cases, none, some, List, [], ◌∷◌, ◌++◌, length,
  if◌then◌else◌, inl, inr,
}
use xds_test_harness.Words.{inc64}
use xds_test_harness.Text.{Text}
use xds_test_harness.Formatter.{
  Status, passed, failed, skipped, undefined, pending, Scenario, Storage, XdsFmt, new_xds_fmt,
  is_last_step, did_scenario_fail, step, count, handle, handle_all,
}

-- How many calls are for each status.
abbrev pub same_status : Status → Status → Bool
same_status passed passed = true
same_status failed failed = true
same_status skipped skipped = true
same_status undefined undefined = true
same_status pending pending = true
same_status _ _ = false

abbrev pub calls_of : Status → List (Status × Scenario × Text) → ℕ
calls_of status [] = 0
calls_of status (e ∷ es) = (if same_status e.0 status then 1 else 0) + calls_of status es

-- The calls have been counted, modulo 2^64.
pub record IsCounted (es : List (Status × Scenario × Text)) (f : XdsFmt) : Type 0 where
  pub total : f.results.total ≡ length es % 2 ^ 64
  pub passed : f.results.passed ≡ calls_of passed es % 2 ^ 64
  pub failed : f.results.failed ≡ calls_of failed es % 2 ^ 64
  pub skipped : f.results.skipped ≡ calls_of skipped es % 2 ^ 64
  pub undefined : f.results.undefined ≡ calls_of undefined es % 2 ^ 64
  pub pending : f.results.pending ≡ calls_of pending es % 2 ^ 64
  pub steps : f.steps ≡ length es % 2 ^ 64

-- The storage has what a call asks it for.
abbrev pub IsStored : Storage → Status × Scenario × Text → Type 0
IsStored storage (status, scenario, step_id) =
    (storage.step_result step_id ≢ none) × (did_scenario_fail storage scenario ≢ none)

-- The counters after one call.
abbrev after : Status → XdsFmt → XdsFmt
after status f = record { results = count status f.results; steps = inc64 f.steps }

handle-after :
    (storage : Storage) (status : Status) (scenario : Scenario) (step_id : Text) (f : XdsFmt)
    → IsStored storage (status, scenario, step_id)
    → handle storage status scenario step_id f ≡ some (after status f)
unfolding handle step
handle-after storage status scenario step_id f (h, k) =
    elim (Option-cases (storage.step_result step_id)) [
      | inl e ↦ absurd (h e)
      | inr (r, e) ↦ elim (Bool-cases (is_last_step step_id scenario)) [
        | inr e' ↦ rw (e, e')
        | inl e' ↦ elim (Option-cases (did_scenario_fail storage scenario)) [
          | inl e'' ↦ absurd (k e'')
          | inr (d, e'') ↦ rw (e, e', e'')
        ]
      ]
    ]

calls_of-concat :
    (s : Status) (es : List (Status × Scenario × Text)) (e : Status × Scenario × Text)
    → calls_of s (es ++ e ∷ []) ≡ calls_of s es + (if same_status e.0 s then 1 else 0)
calls_of-concat s [] e = ground arith
calls_of-concat s (e' ∷ es) e = rw (calls_of-concat s es e) (omega arith)

bump : (a n m : ℕ) → a ≡ n % 2 ^ 64 → m ≡ n + 1 → inc64 a ≡ m % 2 ^ 64
bump a n m h k = omega (arith, h, k)

keep : (a n m : ℕ) → a ≡ n % 2 ^ 64 → m ≡ n + 0 → a ≡ m % 2 ^ 64
keep a n m h k = omega (arith, h, k)

module _ (es : List (Status × Scenario × Text)) (c : Scenario) (i : Text) (f : XdsFmt) where
  after-IsCounted : (s : Status) → IsCounted es f → IsCounted (es ++ (s, c, i) ∷ []) (after s f)
  unfolding count
  after-IsCounted passed h = record {
    total = bump _ _ _ h.total (length-append es _);
    passed = bump _ _ _ h.passed (calls_of-concat passed es _);
    failed = keep _ _ _ h.failed (calls_of-concat failed es _);
    skipped = keep _ _ _ h.skipped (calls_of-concat skipped es _);
    undefined = keep _ _ _ h.undefined (calls_of-concat undefined es _);
    pending = keep _ _ _ h.pending (calls_of-concat pending es _);
    steps = bump _ _ _ h.steps (length-append es _);
  }
  after-IsCounted failed h = record {
    total = bump _ _ _ h.total (length-append es _);
    passed = keep _ _ _ h.passed (calls_of-concat passed es _);
    failed = bump _ _ _ h.failed (calls_of-concat failed es _);
    skipped = keep _ _ _ h.skipped (calls_of-concat skipped es _);
    undefined = keep _ _ _ h.undefined (calls_of-concat undefined es _);
    pending = keep _ _ _ h.pending (calls_of-concat pending es _);
    steps = bump _ _ _ h.steps (length-append es _);
  }
  after-IsCounted skipped h = record {
    total = bump _ _ _ h.total (length-append es _);
    passed = keep _ _ _ h.passed (calls_of-concat passed es _);
    failed = keep _ _ _ h.failed (calls_of-concat failed es _);
    skipped = bump _ _ _ h.skipped (calls_of-concat skipped es _);
    undefined = keep _ _ _ h.undefined (calls_of-concat undefined es _);
    pending = keep _ _ _ h.pending (calls_of-concat pending es _);
    steps = bump _ _ _ h.steps (length-append es _);
  }
  after-IsCounted undefined h = record {
    total = bump _ _ _ h.total (length-append es _);
    passed = keep _ _ _ h.passed (calls_of-concat passed es _);
    failed = keep _ _ _ h.failed (calls_of-concat failed es _);
    skipped = keep _ _ _ h.skipped (calls_of-concat skipped es _);
    undefined = bump _ _ _ h.undefined (calls_of-concat undefined es _);
    pending = keep _ _ _ h.pending (calls_of-concat pending es _);
    steps = bump _ _ _ h.steps (length-append es _);
  }
  after-IsCounted pending h = record {
    total = bump _ _ _ h.total (length-append es _);
    passed = keep _ _ _ h.passed (calls_of-concat passed es _);
    failed = keep _ _ _ h.failed (calls_of-concat failed es _);
    skipped = keep _ _ _ h.skipped (calls_of-concat skipped es _);
    undefined = keep _ _ _ h.undefined (calls_of-concat undefined es _);
    pending = bump _ _ _ h.pending (calls_of-concat pending es _);
    steps = bump _ _ _ h.steps (length-append es _);
  }

handle_from :
    (storage : Storage) (es done : List (Status × Scenario × Text)) (f : XdsFmt)
    → All (IsStored storage) es
    → IsCounted done f
    → (g : XdsFmt) × (handle_all storage es f ≡ some g) × IsCounted (done ++ es) g
unfolding handle_all
handle_from storage [] done f h k =
    (f, refl, subst (λ es. IsCounted es f) (sym (append-nil done)) k)
handle_from storage ((s, c, i) ∷ es) done f (h, hs) k =
    let (g, e, k') =
      handle_from storage es (done ++ (s, c, i) ∷ []) (after s f) hs
        (after-IsCounted done c i f s k) in
    (
      g,
      rw (handle_all, handle-after storage s c i f h) e,
      subst (λ es. IsCounted es g) (append_assoc done ((s, c, i) ∷ []) es) k',
    )

-- When the storage has what the calls ask for, a new formatter handles them without a panic, and
-- its counters are, modulo 2^64, the numbers of calls for each status, with the total and the steps
-- the number of all calls.
pub handle_all-IsCounted :
    (storage : Storage) (es : List (Status × Scenario × Text))
    → All (IsStored storage) es
    → (g : XdsFmt) × (handle_all storage es new_xds_fmt ≡ some g) × IsCounted es g
handle_all-IsCounted storage es h = handle_from storage es [] new_xds_fmt h (record {
  total = refl;
  passed = refl;
  failed = refl;
  skipped = refl;
  undefined = refl;
  pending = refl;
  steps = refl;
})
