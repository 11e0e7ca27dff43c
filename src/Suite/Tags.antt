-- ===== src/Suite/Tags.antt =====
-- The tags and the output file of a variant, character by character.
use xds_test_harness.Base.{
  ◌≡◌, ◌≢◌, refl, sym, ◌∙◌, ap, arith, false, Bool-cases, inl, inr, none, some, List, [], ◌∷◌, ◌++◌,
  map, length, ltb, if◌then◌else◌, append_assoc, append-nil,
}
use xds_test_harness.Text.{Text, codes, text_eq}
use xds_test_harness.Text.Parts.{split, behind, join, split-ne-nil}
use xds_test_harness.Text.Parts.Replace.{replace, behind-append, map-ne-nil, join-map-split}
use xds_test_harness.Errors.{no_variant_type}
use xds_test_harness.Suite.{Suite, tag_list, set_tags, variant_to_output_file}

map-id : (ps : List Text) → map (λ p. [] ++ p) ps ≡ ps
map-id [] = refl
map-id (p ∷ ps) = ap (λ qs. p ∷ qs) (map-id ps)

-- The output file of a variant is the variant's text with a dash for each of its spaces, and
-- ".json" behind it.
variant_to_output_file-replace :
    (v : Text) → variant_to_output_file v ≡ replace b' ' (codes "-") v ++ codes ".json"
unfolding variant_to_output_file
variant_to_output_file-replace v =
    ap (λ t. t ++ codes ".json")
      (ap (λ ps. join ps (codes "-")) (sym (map-id (split v b' ')))
        ∙ join-map-split b' ' [] (codes "-") v)

join-concat :
    (ps : List Text) (q new : Text) → ps ≢ [] → join (ps ++ q ∷ []) new ≡ join ps new ++ (new ++ q)
unfolding join behind
join-concat [] q new h = absurd (h refl)
join-concat (p ∷ ps) q new h = simp (behind-append new ps (q ∷ []), append-nil, append_assoc)

-- The tag expression of a variant.
unfoldable pub expression : Text → Text → Text
expression variant base =
    (codes "@" ++ replace b' ' (codes " && @") variant)
    ++ (if text_eq base [] then [] else codes " && " ++ base)

some-part : (ps : List Text) → ps ≢ [] → ltb (length ps) 1 ≡ false
some-part [] h = absurd (h refl)
some-part (p ∷ ps) h = ground arith

-- The tags joined are the expression.
tag_list-expression :
    (variant base : Text) → join (tag_list variant base) (codes " && ") ≡ expression variant base
unfolding tag_list expression
tag_list-expression variant base = elim (Bool-cases (text_eq base [])) [
  | inl hy ↦ rw hy (
      ap (λ ts. join ts (codes " && ")) (append-nil _)
      ∙ join-map-split b' ' (codes "@") (codes " && ") variant
      ∙ sym (append-nil _))
  | inr hn ↦ rw hn (
      join-concat _ base (codes " && ") (map-ne-nil _ _ (split-ne-nil variant b' '))
      ∙ ap (λ t. t ++ (codes " && " ++ base))
          (join-map-split b' ' (codes "@") (codes " && ") variant))
]

module _ {Any Conn : Type 0} where
  -- To set the tags of a suite never fails, and leaves in the suite the conjunction of one tag
  -- for each word of its variant and, when it is not empty, the expression of the command line:
  -- "@", the variant with " && @" for each space, then " && " and the given tags.
  pub set_tags-expression :
      (base : Text) (s : Suite Any Conn)
      → set_tags base s ≡ (record s { tags = expression s.variant base }, none)
  unfolding set_tags
  set_tags-expression base s =
      ap
        (λ b.
          if b
          then (s, some no_variant_type)
          else (record s { tags = join (tag_list s.variant base) (codes " && ") }, none))
        (some-part _ (split-ne-nil _ _))
      ∙ ap (λ t. (record s { tags = t }, none)) (tag_list-expression s.variant base)
