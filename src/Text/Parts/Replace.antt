-- ===== src/Text/Parts/Replace.antt =====
-- To split and to join again, with a text in front of each part, replaces the separator.
use xds_test_harness.Base.{
  ℕ, ◌≡◌, ◌≢◌, refl, ◌∙◌, ap, Bool-cases, inl, inr, ◌==◌, if◌then◌else◌, List, [], ◌∷◌, ◌++◌, map,
  append_assoc,
}
use xds_test_harness.Text.{Text}
use xds_test_harness.Text.Parts.{
  onto_first, split, split-hit, split-miss, behind, join, split-ne-nil,
}

-- Each `sep` of a text replaced by another text.
unfoldable pub replace : ℕ → Text → Text → Text
replace sep new [] = []
replace sep new (c ∷ s) = (if c == sep then new else c ∷ []) ++ replace sep new s

pub behind-append :
    (new : Text) (ps qs : List Text) → behind new (ps ++ qs) ≡ behind new ps ++ behind new qs
unfolding behind
behind-append new [] qs = refl
behind-append new (p ∷ ps) qs = simp (behind-append new ps, append_assoc)

pub map-ne-nil : (f : Text → Text) (ps : List Text) → ps ≢ [] → map f ps ≢ []
map-ne-nil f [] h = h
map-ne-nil f (p ∷ ps) h = λ e. cc

module _ (sep : ℕ) (pre new : Text) where
  -- The parts joined, with a text in front of each but the first.
  rejoined : List Text → Text
  unfolding behind
  rejoined [] = []
  rejoined (p ∷ ps) = p ++ behind new (map (λ q. pre ++ q) ps)

  rejoined-onto_first : (c : ℕ) (ps : List Text) → rejoined (onto_first c ps) ≡ c ∷ rejoined ps
  unfolding rejoined onto_first
  rejoined-onto_first c [] = refl
  rejoined-onto_first c (p ∷ ps) = refl

  rejoined-cons_nil : (ps : List Text) → ps ≢ [] → rejoined ([] ∷ ps) ≡ (new ++ pre) ++ rejoined ps
  unfolding rejoined behind
  rejoined-cons_nil [] h = absurd (h refl)
  rejoined-cons_nil (p ∷ ps) h = simp append_assoc

  rejoined-split : (s : Text) → rejoined (split s sep) ≡ replace sep (new ++ pre) s
  unfolding replace
  rejoined-split [] = unfold split rejoined in refl
  rejoined-split (c ∷ s) = elim (Bool-cases (c == sep)) [
    | inl hit ↦
        ap rejoined (split-hit c sep s hit)
        ∙ rejoined-cons_nil (split s sep) (split-ne-nil s sep)
        ∙ rw hit (ap (λ t. (new ++ pre) ++ t) (rejoined-split s))
    | inr miss ↦
        ap rejoined (split-miss c sep s miss)
        ∙ rejoined-onto_first c (split s sep)
        ∙ rw miss (ap (λ t. c ∷ t) (rejoined-split s))
  ]

  join-rejoined :
      (ps : List Text) → ps ≢ [] → join (map (λ q. pre ++ q) ps) new ≡ pre ++ rejoined ps
  unfolding join rejoined
  join-rejoined [] h = absurd (h refl)
  join-rejoined (p ∷ ps) h = append_assoc pre p _

pub join-map-split :
    (sep : ℕ) (pre new s : Text)
    → join (map (λ p. pre ++ p) (split s sep)) new ≡ pre ++ replace sep (new ++ pre) s
join-map-split sep pre new s =
    join-rejoined sep pre new (split s sep) (split-ne-nil s sep)
    ∙ ap (λ t. pre ++ t) (rejoined-split sep pre new s)
