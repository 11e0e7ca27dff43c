-- ===== src/Main/Laws.antt =====
-- The loop of main finishes, and what it finishes with.
use xds_test_harness.Base.{
  ◌≡◌, refl, sym, ◌∙◌, ap, subst, if◌then◌else◌, Bool, true, false, Option, none, some, List, [],
  ◌∷◌, ◌++◌, All, append_assoc, append-nil, inl, inr,
}
use xds_test_harness.Text.{Text, codes, text_eq}
use xds_test_harness.Errors.{Result, ok}
use xds_test_harness.Types.{Variant, VariantResults, Results}
use xds_test_harness.Runner.{Runner, address_port, connect_client, fresh_runner, zero_client}
use xds_test_harness.Runner.Laws.{connect-some}
use xds_test_harness.Suite.{
  Suite, suite_of, new_suite, start_adapter, start_runner, run_suite, update_results,
}
use xds_test_harness.Suite.Tags.{expression, set_tags-expression}
use xds_test_harness.Suite.Totals.{IsTotal, update_results-IsTotal}
use xds_test_harness.Parser.Variants.{Known}
use xds_test_harness.Main.{
  outcome_of, finished, zero_results, run_tagged, run_connected, run_variant, run_variants,
}

-- The text of a variant.
abbrev pub variant_of : Bool → Bool → Variant
variant_of incremental aggregated =
    (if incremental then codes "incremental" else codes "sotw")
    ++ (codes " " ++ (if aggregated then codes "aggregated" else codes "non-aggregated"))

-- NewSuite at the text of a variant gives a suite of that variant without a runner, with the two
-- flags of the variant and no tags.
new_suite-variant_of :
    {Any Conn : Type 0} (incremental aggregated test_writing : Bool)
    → new_suite {Any = Any} {Conn = Conn} (variant_of incremental aggregated) test_writing
      ≡ some (suite_of (variant_of incremental aggregated) aggregated incremental test_writing)
unfolding new_suite text_eq
new_suite-variant_of true true w = refl
new_suite-variant_of true false w = refl
new_suite-variant_of false true w = refl
new_suite-variant_of false false w = refl

Known-variant_of : (v : Variant) → Known v → (i : Bool) × (a : Bool) × (v ≡ variant_of i a)
Known-variant_of v (inl e) = (false, false, e)
Known-variant_of v (inr (inl e)) = (false, true, e)
Known-variant_of v (inr (inr (inl e))) = (true, false, e)
Known-variant_of v (inr (inr (inr e))) = (true, true, e)

module _ {Any Conn : Type 0} (dial : Text → Option Conn)
    (reported : Suite Any Conn → Result VariantResults) (node adapter target tags : Text) where
  -- Both servers can be dialled.
  abbrev pub Up : Type 0
  Up = (a : Text) → (conn : Conn) × (dial a ≡ some conn)

  -- The runner of a suite whose target is connected, and of one whose adapter is too.
  half_connected : Up → Suite Any Conn → Runner Any Conn
  half_connected up s = record (fresh_runner none) {
    node_id = node;
    aggregated = s.aggregated;
    incremental = s.incremental;
    target = record { port = address_port target; conn = some (up (address_port target)).0 };
  }

  connected_runner : Up → Suite Any Conn → Runner Any Conn
  connected_runner up s = record (half_connected up s) {
    adapter = record { port = address_port adapter; conn = some (up (address_port adapter)).0 };
  }

  start_adapter-Up :
      (up : Up) (s : Suite Any Conn)
      → start_adapter dial adapter s (half_connected up s, none)
        ≡ some (record s { runner = some (connected_runner up s) }, none)
  unfolding start_adapter connect_client half_connected connected_runner text_eq fresh_runner
  start_adapter-Up up s =
      let dialled = connect-some dial adapter zero_client (up (address_port adapter)).1 in
      rw (start_adapter, connect_client, dialled)
        (ap
          (λ p.
            (some
              (record s { runner = some (record (half_connected up s) { adapter = p.0 }) }, none)))
          dialled)

  start_runner-Up :
      (up : Up) (s : Suite Any Conn)
      → start_runner dial node adapter target s
        ≡ some (record s { runner = some (connected_runner up s) }, none)
  unfolding start_runner connect_client half_connected text_eq fresh_runner
  start_runner-Up up s =
      rw (connect-some dial target zero_client (up (address_port target)).1) (start_adapter-Up up s)

  -- A suite that is run for a variant: its runner is connected to the target and the adapter, each
  -- at its own address, and has the node and the mode of the variant; its tags are those of the variant
  -- and of the command line.
  pub record IsReady (i a : Bool) (s : Suite Any Conn) : Type 0 where
    pub variant : s.variant ≡ variant_of i a
    pub tagged : s.tags ≡ expression (variant_of i a) tags
    pub writes : s.test_writing ≡ false
    pub connected :
        (r : Runner Any Conn) × (s.runner ≡ some r)
        × (r.node_id ≡ node)
        × (r.incremental ≡ i)
        × (r.aggregated ≡ a)
        × (r.target.port ≡ address_port target)
        × (r.target.conn ≡ dial (address_port target))
        × (r.adapter.port ≡ address_port adapter)
        × (r.adapter.conn ≡ dial (address_port adapter))

  -- The results of a variant are what was reported of a suite that is ready for it, under its name.
  abbrev pub IsReported : Variant → VariantResults → Type 0
  IsReported v r =
      (i a : Bool) × (v ≡ variant_of i a)
      × (s : Suite Any Conn) × IsReady i a s
      × (seen : VariantResults) × (reported s ≡ ok seen)
      × (r ≡ record seen { name = v })

  -- One such result for each variant, in order.
  abbrev pub AllReported : List Variant → List VariantResults → Type 0
  AllReported [] [] = Unit
  AllReported (v ∷ vs) (r ∷ rs) = IsReported v r × AllReported vs rs
  AllReported _ _ = ⊥

  -- The suite of a variant when it is run.
  ready : Up → Bool → Bool → Suite Any Conn
  ready up i a = record (suite_of (variant_of i a) a i false) {
    runner = some (connected_runner up (suite_of (variant_of i a) a i false));
    tags = expression (variant_of i a) tags;
  }

  ready-IsReady : (up : Up) (i a : Bool) → IsReady i a (ready up i a)
  unfolding ready connected_runner half_connected fresh_runner
  ready-IsReady up i a = record {
    variant = refl;
    tagged = refl;
    writes = refl;
    connected = (
      connected_runner up (suite_of (variant_of i a) a i false),
      refl,
      refl,
      refl,
      refl,
      refl,
      sym (up (address_port target)).1,
      refl,
      sym (up (address_port adapter)).1,
    );
  }

  run_variant-ready :
      (up : Up) (i a : Bool)
      → run_variant dial reported node adapter target tags false (variant_of i a)
        ≡ outcome_of (run_suite reported (ready up i a))
  unfolding run_variant run_connected run_tagged ready
  run_variant-ready up i a = rw (
    run_variant,
    new_suite-variant_of {Any = Any} {Conn = Conn} i a false,
    start_runner-Up up,
    run_connected,
    set_tags-expression,
  )

  -- The suite of a known variant finishes, with results under the variant's name.
  run_variant-Known :
      Up
      → ((s : Suite Any Conn) → (r : VariantResults) × (reported s ≡ ok r))
      → (v : Variant) → Known v
      → (r : VariantResults) × (run_variant dial reported node adapter target tags false v
          ≡ finished r)
        × (r.name ≡ v)
        × IsReported v r
  unfolding run_suite ready
  run_variant-Known up reads v known =
      let (i, a, e) = Known-variant_of v known in
      let (r, h) = reads (ready up i a) in
      (
        record r { name = variant_of i a },
        ap (run_variant dial reported node adapter target tags false) e
            ∙ run_variant-ready up i a
            ∙ rw h,
        sym e,
        (
          i,
          a,
          e,
          ready up i a,
          ready-IsReady up i a,
          r,
          h,
          ap (λ n. record r { name = n }) (sym e),
        ),
      )

  update_results-by_variant :
      (results : Results) (r : VariantResults) (rs : List VariantResults)
      → (update_results results r).results_by_variant ++ rs ≡ results.results_by_variant ++ r ∷ rs
  unfolding update_results
  update_results-by_variant results r rs = append_assoc results.results_by_variant (r ∷ []) rs

  run_from :
      (up : Up)
      → ((s : Suite Any Conn) → (r : VariantResults) × (reported s ≡ ok r))
      → (vs : List Variant) (results : Results) → All Known vs
      → IsTotal results
      → (final : Results) × (run_variants dial reported node adapter target tags false vs results
          ≡ finished final)
        × IsTotal final
        × (final.variants ≡ results.variants ++ vs)
        × (rs : List VariantResults) × (final.results_by_variant ≡ results.results_by_variant ++ rs)
        × AllReported vs rs
  unfolding run_variants
  run_from up reads [] results h t = (
    results,
    refl,
    t,
    sym (append-nil results.variants),
    [],
    sym (append-nil results.results_by_variant),
    tt,
  )
  run_from up reads (v ∷ vs) results (h, hs) t =
      let (r, e, n, says) = run_variant-Known up reads v h in
      let (final, e', t', n', rs, all, say) =
        run_from up reads vs (update_results results r) hs (update_results-IsTotal results r t) in
      (
        final,
        rw (run_variants, e) e',
        t',
        n'
            ∙ unfold update_results in
              rw (update_results, n) (append_assoc results.variants (v ∷ []) vs),
        r ∷ rs,
        all ∙ update_results-by_variant results r rs,
        (says, say),
      )

  zero_results-IsTotal : IsTotal zero_results
  zero_results-IsTotal = record {
    total = refl;
    passed = refl;
    failed = refl;
    skipped = refl;
    undefined = refl;
    pending = refl;
    variants = refl;
  }

  -- When results are written, both servers can be dialled and the formatter's output can always be
  -- read, the loop of main over known variants finishes; its results name these variants in order,
  -- and have for each what was reported of its suite, and every count is the sum, modulo 2 ^ 64, of
  -- that count in them.
  pub run_variants-finished :
      Up
      → ((s : Suite Any Conn) → (r : VariantResults) × (reported s ≡ ok r))
      → (vs : List Variant) → All Known vs
      → (final : Results) × (run_variants dial reported node adapter target tags false vs
            zero_results
          ≡ finished final)
        × IsTotal final
        × (final.variants ≡ vs)
        × AllReported vs final.results_by_variant
  run_variants-finished up reads vs h =
      let (final, e, t, n, rs, all, say) =
        run_from up reads vs zero_results h zero_results-IsTotal in
      (final, e, t, n, subst (AllReported vs) (sym all) say)
