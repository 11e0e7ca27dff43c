-- ===== src/Parser/Variants.antt =====
-- What ParseSupportedVariants accepts, and where it stops.
use xds_test_harness.Base.{
  ◌≡◌, ◌⊎◌, inl, inr, arith, none, some, List, [], ◌∷◌, ◌++◌, sym, ◌∙◌, ap, append_assoc,
  append-nil, map, All,
}
use xds_test_harness.Text.{Text, text_eq, text_eq_iff}
use xds_test_harness.Text.Case.{to_lower}
use xds_test_harness.Dict.{lookup}
use xds_test_harness.Errors.{unrecognized_variant}
use xds_test_harness.Types.{
  Variant, sotw_non_aggregated, sotw_aggregated, incremental_non_aggregated, incremental_aggregated,
}
use xds_test_harness.Parser.{variant_map, parse_from, parse_supported_variants}

-- The four variants of the transport protocol.
abbrev pub Known : Text → Type 0
Known v =
    (v ≡ sotw_non_aggregated)
    ⊎ (v ≡ sotw_aggregated)
    ⊎ (v ≡ incremental_non_aggregated)
    ⊎ (v ≡ incremental_aggregated)

lookup-Known : (v : Text) → Known v → lookup v variant_map ≡ some v
unfolding lookup text_eq
lookup-Known v (inl e) = rw e
lookup-Known v (inr (inl e)) = rw e
lookup-Known v (inr (inr (inl e))) = rw e
lookup-Known v (inr (inr (inr e))) = rw e

not-Known-lookup : (v : Text) → ¬ Known v → lookup v variant_map ≡ none
unfolding lookup
not-Known-lookup v h = ground (
  arith,
  text_eq_iff sotw_non_aggregated v,
  text_eq_iff sotw_aggregated v,
  text_eq_iff incremental_non_aggregated v,
  text_eq_iff incremental_aggregated v,
)

-- The loop takes over known variants, in lower case, and goes on behind them.
parse_from-append :
    (done : List Variant) (vs rest : List Text)
    → All (λ v. Known (to_lower v)) vs
    → parse_from done (vs ++ rest) ≡ parse_from (done ++ map to_lower vs) rest
unfolding parse_from
parse_from-append done [] rest h = rw append-nil
parse_from-append done (v ∷ vs) rest h =
    rw (lookup-Known (to_lower v) h.0, parse_from)
      (parse_from-append (done ++ to_lower v ∷ []) vs rest h.1
        ∙ ap (λ d. parse_from d rest) (append_assoc done (to_lower v ∷ []) (map to_lower vs)))

-- A list of texts that are the four variants but for case is accepted: the result is these variants
-- in order, in lower case, and no error.
pub parse_supported_variants-Known :
    (vs : List Text)
    → All (λ v. Known (to_lower v)) vs
    → parse_supported_variants vs ≡ (map to_lower vs, none)
unfolding parse_supported_variants
parse_supported_variants-Known vs h =
    ap (parse_from []) (sym (append-nil vs)) ∙ parse_from-append [] vs [] h

-- At the first text that is not a variant but for case the loop stops: the result is the variants
-- before it, in lower case, and an error that prints the empty text, whatever that text is.
pub parse_supported_variants-unknown :
    (vs : List Text) (v : Text) (rest : List Text)
    → All (λ w. Known (to_lower w)) vs
    → ¬ Known (to_lower v)
    → parse_supported_variants (vs ++ v ∷ rest) ≡ (map to_lower vs, some (unrecognized_variant []))
unfolding parse_supported_variants
parse_supported_variants-unknown vs v rest h unknown =
    parse_from-append [] vs (v ∷ rest) h ∙ rw (not-Known-lookup (to_lower v) unknown, parse_from)
