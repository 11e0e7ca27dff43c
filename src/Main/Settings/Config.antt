-- ===== src/Main/Settings/Config.antt =====
-- Which config files are taken, and what main does with one.
use xds_test_harness.Base.{
  ◌≡◌, refl, sym, ◌∙◌, ap, false, Option, some, List, [], ◌∷◌, ◌++◌, map, All, append_assoc,
  append-nil,
}
use xds_test_harness.Text.{Text, codes, text_eq}
use xds_test_harness.Text.Case.{to_lower}
use xds_test_harness.Errors.{Result, ok}
use xds_test_harness.Types.{VariantResults, Results}
use xds_test_harness.Parser.Variants.{Known, parse_supported_variants-Known}
use xds_test_harness.Suite.{Suite}
use xds_test_harness.Suite.Totals.{IsTotal}
use xds_test_harness.Main.{finished}
use xds_test_harness.Main.Laws.{AllReported, run_variants-finished}
use xds_test_harness.Main.Printing.{print_results}
use xds_test_harness.Main.Settings.{
  scalar, list, File, scalars, variants_of, or_empty, values_from_config, Flags, settings, report,
  run_with, main,
}

scalars-all : (vs done : List Text) → scalars (map scalar vs) done ≡ some (done ++ vs)
unfolding scalars
scalars-all [] done = ap some (sym (append-nil done))
scalars-all (v ∷ vs) done =
    scalars-all vs (done ++ v ∷ []) ∙ ap some (append_assoc done (v ∷ []) vs)

All-lower : (vs : List Text) → All (λ v. Known (to_lower v)) vs → All Known (map to_lower vs)
All-lower [] h = tt
All-lower (v ∷ vs) (hv, h) = (hv, All-lower vs h)

-- A config file with an id of the node, an address of the target and a list of known variants is
-- taken; without an address of the adapter, that is empty.
values_from_config-list :
    (read_file : Text → Option File) (config node_id target : Text) (c : File) (vs : List Text)
    → read_file config ≡ some c
    → c.get (codes "nodeID") ≡ some node_id
    → c.get (codes "targetAddress") ≡ some target
    → c.child (codes "variants") ≡ some (list (map scalar vs))
    → All (λ v. Known (to_lower v)) vs
    → values_from_config read_file config
      ≡ finished (record {
        target_address = target;
        adapter_address = or_empty (c.get (codes "adapterAddress"));
        node_id = node_id;
        supported_variants = map to_lower vs;
      })
unfolding values_from_config variants_of
values_from_config-list read_file config node_id target c vs hc hn ht hv known =
    rw
      (
        values_from_config,
        hc,
        hn,
        ht,
        hv,
        variants_of,
        scalars-all vs [],
        parse_supported_variants-Known vs known,
        parse_supported_variants-Known vs known,
      )
      refl

module _ {Any Conn : Type 0} (read_file : Text → Option File) (dial : Text → Option Conn)
    (reported : Suite Any Conn → Result VariantResults) (flags : Flags) where
  -- When results are written, both servers can be dialled and the formatter's output can always be
  -- read, the variants of the flags are known but for case, and the config file that the flags name
  -- can be read, with an id of the node, an address of the target and a list of variants that are known
  -- but for case, main finishes. It prints and writes results that have, for each variant of the file
  -- in order and for none of the flags, what was reported of a suite for that variant: its runner is
  -- connected to the target and to the adapter at their addresses in the file, with the node of the
  -- file and the mode of the variant, and its tags are those of the variant and of the command line.
  -- The results name these variants, and each count in them is the sum, modulo 2 ^ 64, of that count
  -- over the variants.
  pub main-finished :
      (node_id target : Text) (c : File) (vs : List Text)
      → ((address : Text) → (conn : Conn) × (dial address ≡ some conn))
      → ((s : Suite Any Conn) → (r : VariantResults) × (reported s ≡ ok r))
      → flags.test_writing ≡ false
      → All (λ v. Known (to_lower v)) flags.variant
      → text_eq flags.config [] ≡ false
      → read_file flags.config ≡ some c
      → c.get (codes "nodeID") ≡ some node_id
      → c.get (codes "targetAddress") ≡ some target
      → c.child (codes "variants") ≡ some (list (map scalar vs))
      → All (λ v. Known (to_lower v)) vs
      → (final : Results) × (main read_file dial reported flags
          ≡ finished (some (print_results final, final)))
        × IsTotal final
        × (final.variants ≡ map to_lower vs)
        × AllReported dial reported node_id
            (or_empty (c.get (codes "adapterAddress")))
            target
            flags.tags
            (map to_lower vs)
            final.results_by_variant
  unfolding main settings run_with report
  main-finished node_id target c vs up reads writes known_flags named hc hn ht hv known =
      let (final, ran, total, names, all) =
        run_variants-finished dial reported node_id (or_empty (c.get (codes "adapterAddress")))
          target flags.tags up reads (map to_lower vs) (All-lower vs known) in
      (
        final,
        rw
            (
              main,
              settings,
              parse_supported_variants-Known flags.variant known_flags,
              named,
              values_from_config-list read_file flags.config node_id target c vs hc hn ht hv known,
              run_with,
              writes,
              ran,
              report,
              writes,
            )
            refl,
        total,
        names,
        all,
      )
