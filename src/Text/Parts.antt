-- ===== src/Text/Parts.antt =====
-- strings.Split at a separator of one code point, and strings.Join.
pub mod Replace
use xds_test_harness.Base.{
  ℕ, ◌≡◌, ◌≢◌, refl, sym, ◌∙◌, ap, arith, Bool, true, false, not, ◌&&◌, Bool-cases, inl, inr, ◌==◌,
  List, [], ◌∷◌, ◌++◌, append-nil, All, if◌then◌else◌,
}
use xds_test_harness.Text.{Text}

-- A code point in front of the first part.
unfoldable pub onto_first : ℕ → List Text → List Text
onto_first c [] = (c ∷ []) ∷ []
onto_first c (p ∷ ps) = (c ∷ p) ∷ ps

unfoldable pub split : Text → ℕ → List Text
split [] sep = [] ∷ []
split (c ∷ s) sep = let rest = split s sep in if c == sep then [] ∷ rest else onto_first c rest

-- Each part behind the separator.
unfoldable pub behind : Text → List Text → Text
behind sep [] = []
behind sep (p ∷ ps) = sep ++ (p ++ behind sep ps)

unfoldable pub join : List Text → Text → Text
unfolding behind
join [] sep = []
join (p ∷ ps) sep = p ++ behind sep ps

onto_first-ne-nil : (c : ℕ) (ps : List Text) → onto_first c ps ≢ []
unfolding onto_first
onto_first-ne-nil c [] h = cc
onto_first-ne-nil c (p ∷ ps) h = cc

module _ (c sep : ℕ) (s : Text) where
  pub split-hit : (c == sep) ≡ true → split (c ∷ s) sep ≡ [] ∷ split s sep
  unfolding split
  split-hit e = rw e

  pub split-miss : (c == sep) ≡ false → split (c ∷ s) sep ≡ onto_first c (split s sep)
  unfolding split
  split-miss e = rw e

pub split-ne-nil : (s : Text) (sep : ℕ) → split s sep ≢ []
unfolding split
split-ne-nil [] sep h = cc
split-ne-nil (c ∷ s) sep h = elim (Bool-cases (c == sep)) [
  | inl hit ↦ cc (split-hit c sep s hit, h)
  | inr miss ↦ onto_first-ne-nil c (split s sep) (sym (split-miss c sep s miss) ∙ h)
]

abbrev pub Lacks : ℕ → Text → Type 0
Lacks b = All (λ c. (c == b) ≡ false)

-- A test for it.
abbrev pub lacks : ℕ → Text → Bool
lacks b [] = true
lacks b (c ∷ t) = not (c == b) && lacks b t

pub lacks-Lacks : (b : ℕ) (t : Text) → lacks b t ≡ true → Lacks b t
lacks-Lacks b [] h = tt
lacks-Lacks b (c ∷ t) h = (ground arith, lacks-Lacks b t (ground arith))

module _ (sep : ℕ) where
  -- A part that ends the text.
  split-last : (p : Text) → Lacks sep p → split p sep ≡ p ∷ []
  unfolding split onto_first
  split-last [] h = refl
  split-last (c ∷ p) (hc, hp) = split-miss c sep p hc ∙ ap (onto_first c) (split-last p hp)

  sep-hit : (sep == sep) ≡ true
  sep-hit = ground arith

  -- A part that a separator ends.
  pub split-part : (p s : Text) → Lacks sep p → split (p ++ sep ∷ s) sep ≡ p ∷ split s sep
  unfolding onto_first
  split-part [] s h = split-hit sep sep s sep-hit
  split-part (c ∷ p) s (hc, hp) =
      split-miss c sep (p ++ sep ∷ s) hc ∙ ap (onto_first c) (split-part p s hp)

  split-behind :
      (p : Text) (ps : List Text)
      → Lacks sep p
      → All (Lacks sep) ps
      → split (p ++ behind (sep ∷ []) ps) sep ≡ p ∷ ps
  unfolding behind
  split-behind p [] h _ = ap (λ t. split t sep) (append-nil p) ∙ split-last p h
  split-behind p (q ∷ ps) h (hq, hps) =
      split-part p (q ++ behind (sep ∷ []) ps) h ∙ ap (λ rest. p ∷ rest) (split-behind q ps hq hps)

-- Parts that lack the separator are found again in their join.
split-join :
    (ps : List Text) (sep : ℕ) → ps ≢ [] → All (Lacks sep) ps → split (join ps (sep ∷ [])) sep ≡ ps
unfolding join
split-join [] sep h _ = absurd (h refl)
split-join (p ∷ ps) sep _ (hp, hps) = split-behind sep p ps hp hps
