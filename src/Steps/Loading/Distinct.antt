-- ===== src/Steps/Loading/Distinct.antt =====
-- The patterns of LoadSteps are apart from one another.
use xds_test_harness.Base.{
  ◌≡◌, inl, inr, refl, sym, ◌∙◌, ap, ap₂, subst, arith, Bool, true, false, not, ◌&&◌, ◌||◌, some,
  List, [], ◌∷◌, All, ℕ,
}
use xds_test_harness.Text.{Text, text_eq, text_eq_refl}
use xds_test_harness.Text.Parts.{Lacks, lacks, lacks-Lacks}
use xds_test_harness.Dict.Walk.{In}
use xds_test_harness.Steps.Loading.{Pattern, Method, loaded_steps, find_step}
use xds_test_harness.Steps.Loading.Dispatch.{
  render, Fill, IsPlain, match_pattern-render, match_pattern_unique, find_step-some,
}

abbrev all_lack : ℕ → List Text → Bool
all_lack b [] = true
all_lack b (t ∷ ts) = lacks b t && all_lack b ts

all_lack-All : (b : ℕ) (ts : List Text) → all_lack b ts ≡ true → All (Lacks b) ts
all_lack-All b [] h = tt
all_lack-All b (t ∷ ts) h = (lacks-Lacks b t (ground arith), all_lack-All b ts (ground arith))

abbrev all_plain : List (Method × Pattern) → Bool
all_plain [] = true
all_plain ((m, p) ∷ steps) = (lacks b'"' p.first && all_lack b'"' p.rest) && all_plain steps

all_plain-IsPlain :
    (steps : List (Method × Pattern)) (m : Method) (p : Pattern)
    → all_plain steps ≡ true
    → In {A = Method × Pattern} (m, p) steps
    → IsPlain p
all_plain-IsPlain [] m p h i = elim i [ ]
all_plain-IsPlain ((n, q) ∷ steps) m p h (inl e) =
    subst IsPlain (ap (λ x. x.1) e)
      (lacks-Lacks b'"' q.first (ground arith), all_lack-All b'"' q.rest (ground arith))
all_plain-IsPlain ((n, q) ∷ steps) m p h (inr i) = all_plain-IsPlain steps m p (ground arith) i

abbrev texts_eq : List Text → List Text → Bool
texts_eq [] [] = true
texts_eq (s ∷ ss) (t ∷ ts) = text_eq s t && texts_eq ss ts
texts_eq _ _ = false

abbrev pattern_eq : Pattern → Pattern → Bool
pattern_eq p q = text_eq p.first q.first && texts_eq p.rest q.rest

texts_eq_refl : (ts : List Text) → texts_eq ts ts ≡ true
texts_eq_refl [] = refl
texts_eq_refl (t ∷ ts) = ground (arith, text_eq_refl t, texts_eq_refl ts)

abbrev has_pattern : Pattern → List (Method × Pattern) → Bool
has_pattern p [] = false
has_pattern p ((m, q) ∷ steps) = pattern_eq p q || has_pattern p steps

abbrev distinct : List (Method × Pattern) → Bool
distinct [] = true
distinct ((m, p) ∷ steps) = not (has_pattern p steps) && distinct steps

In-has_pattern :
    (steps : List (Method × Pattern)) (m : Method) (p : Pattern)
    → In {A = Method × Pattern} (m, p) steps
    → has_pattern p steps ≡ true
In-has_pattern [] m p i = elim i [ ]
In-has_pattern ((n, q) ∷ steps) m p (inl e) =
    let same : q ≡ p = ap (λ x. x.1) e in
    rw same (ground (arith, text_eq_refl p.first, texts_eq_refl p.rest))
In-has_pattern ((n, q) ∷ steps) m p (inr i) = ground (arith, In-has_pattern steps m p i)

twice :
    {B : Type 0} (steps : List (Method × Pattern)) (m : Method) (q : Pattern)
    → not (has_pattern q steps) && distinct steps ≡ true
    → In {A = Method × Pattern} (m, q) steps
    → B
twice steps m q h i = absurd (ground (arith, In-has_pattern steps m q i))

-- Where the patterns are distinct, each has one method.
distinct-method :
    (steps : List (Method × Pattern)) (m n : Method) (p : Pattern)
    → distinct steps ≡ true
    → In {A = Method × Pattern} (m, p) steps
    → In {A = Method × Pattern} (n, p) steps
    → m ≡ n
distinct-method [] m n p h i j = elim i [ ]
distinct-method (x ∷ steps) m n p h (inl e) (inl e') = ap (λ y. y.0) (sym e ∙ e')
distinct-method ((k, q) ∷ steps) m n p h (inl e) (inr j) =
    twice steps n q h
      (subst (λ x. In {A = Method × Pattern} (n, x) steps) (sym (ap (λ y. y.1) e)) j)
distinct-method ((k, q) ∷ steps) m n p h (inr i) (inl e') =
    twice steps m q h
      (subst (λ x. In {A = Method × Pattern} (m, x) steps) (sym (ap (λ y. y.1) e')) i)
distinct-method ((k, q) ∷ steps) m n p h (inr i) (inr j) =
    distinct-method steps m n p (ground arith) i j

loaded-checks : (all_plain loaded_steps ≡ true) × (distinct loaded_steps ≡ true)
unfolding text_eq
loaded-checks = (refl, refl)

-- The text of each of the loaded steps, with an argument for each group of its pattern and no quote in
-- any, runs the method of that step with those arguments: no other step comes before it.
pub find_step-render :
    (method : Method) (p : Pattern) (args : List Text)
    → In {A = Method × Pattern} (method, p) loaded_steps
    → Fill p.rest args
    → find_step loaded_steps (render p args) ≡ some (method, args)
find_step-render method p args i fill =
    let here = match_pattern-render p args fill in
    let (m, q, args', j, there, found) =
      find_step-some loaded_steps method p (render p args) args i here in
    let (same, same_args) =
      match_pattern_unique p q (render p args) args args'
        (all_plain-IsPlain loaded_steps method p loaded-checks.0 i)
        (all_plain-IsPlain loaded_steps m q loaded-checks.0 j) here there in
    let one =
      distinct-method loaded_steps method m q loaded-checks.1
        (subst (λ x. In {A = Method × Pattern} (method, x) loaded_steps) same i) j in
    found ∙ ap some (ap₂ (λ x y. (x, y)) (sym one) (sym same_args))
