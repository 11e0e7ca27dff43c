-- ===== src/Steps/Loading/Dispatch.antt =====
-- Each text of a step runs the step that it is written for.
use xds_test_harness.Base.{
  ℕ, ◌≡◌, inl, inr, refl, sym, ◌∙◌, ap, ap₂, subst, arith, true, true≢false, Bool-cases,
  Option-cases, some, some→≡, some-of-none, List, [], ◌∷◌, ◌++◌, ◌==◌, All,
}
use xds_test_harness.Text.{Text}
use xds_test_harness.Text.Parts.{Lacks}
use xds_test_harness.Dict.Walk.{In}
use xds_test_harness.Steps.Loading.{
  Pattern, Method, strip, up_to_quote, group, match_rest, match_pattern, find_step,
}

-- The text of a step of this pattern, with these arguments.
abbrev pub render_rest : List Text → List Text → Text
render_rest (lit ∷ lits) (arg ∷ args) = b'"' ∷ (arg ++ (b'"' ∷ (lit ++ render_rest lits args)))
render_rest _ _ = []

abbrev pub render : Pattern → List Text → Text
render p args = p.first ++ render_rest p.rest args

-- An argument for each group, without a quote in it.
abbrev pub Fill : List Text → List Text → Type 0
Fill [] [] = Unit
Fill (lit ∷ lits) (arg ∷ args) = Lacks b'"' arg × Fill lits args
Fill _ _ = ⊥

strip-append : (t s : Text) → strip t (t ++ s) ≡ some s
unfolding strip
strip-append [] s = refl
strip-append (c ∷ t) s = ground (arith, strip-append t s)

up_to_quote-append :
    (arg s : Text) → Lacks b'"' arg → up_to_quote (arg ++ (b'"' ∷ s)) ≡ some (arg, s)
unfolding up_to_quote
up_to_quote-append [] s h = refl
up_to_quote-append (c ∷ arg) s (hc, h) = rw (hc, up_to_quote-append arg s h) refl

group-append : (arg s : Text) → Lacks b'"' arg → group (b'"' ∷ (arg ++ (b'"' ∷ s))) ≡ some (arg, s)
unfolding group
group-append arg s h = up_to_quote-append arg s h

match_rest-group :
    (lit : Text) (lits : List Text) (s arg s' s'' : Text) (later : List Text)
    → group s ≡ some (arg, s')
    → strip lit s' ≡ some s''
    → match_rest lits s'' ≡ some later
    → match_rest (lit ∷ lits) s ≡ some (arg ∷ later)
unfolding match_rest
match_rest-group lit lits s arg s' s'' later g st m = rw (match_rest, g, st, m) refl

match_rest-render :
    (lits args : List Text) → Fill lits args → match_rest lits (render_rest lits args) ≡ some args
unfolding match_rest
match_rest-render [] [] h = refl
match_rest-render [] (arg ∷ args) h = absurd h
match_rest-render (lit ∷ lits) [] h = absurd h
match_rest-render (lit ∷ lits) (arg ∷ args) (ha, h) =
    match_rest-group lit lits (render_rest (lit ∷ lits) (arg ∷ args)) arg
      (lit ++ render_rest lits args) (render_rest lits args) args
      (group-append arg (lit ++ render_rest lits args) ha)
      (strip-append lit (render_rest lits args)) (match_rest-render lits args h)

pub match_pattern-render :
    (p : Pattern) (args : List Text)
    → Fill p.rest args
    → match_pattern p (render p args) ≡ some args
unfolding match_pattern
match_pattern-render p args h =
    rw (match_pattern, strip-append p.first (render_rest p.rest args))
      (match_rest-render p.rest args h)

-- A match of one more group.
match_rest-cons :
    (lit : Text) (lits : List Text) (s : Text) (args : List Text)
    → match_rest (lit ∷ lits) s ≡ some args
    → (arg : Text) × (s' : Text) × (s'' : Text) × (later : List Text) × (group s ≡ some (arg, s'))
      × (strip lit s' ≡ some s'')
      × (match_rest lits s'' ≡ some later)
      × (args ≡ arg ∷ later)
unfolding match_rest
match_rest-cons lit lits s args h = elim (Option-cases (group s)) [
  | inl e ↦ some-of-none (rw (e, match_rest) at h)
  | inr ((arg, s'), e) ↦ elim (Option-cases (strip lit s')) [
    | inl e' ↦ some-of-none (rw (e, e', match_rest) at h)
    | inr (s'', e') ↦ elim (Option-cases (match_rest lits s'')) [
      | inl e'' ↦ some-of-none (rw (e, e', e'', match_rest) at h)
      | inr (later, e'') ↦
          (arg, s', s'', later, e, e', e'', sym (some→≡ (rw (e, e', e'', match_rest) at h)))
    ]
  ]
]

-- What a match is left with is empty or starts with a quote.
abbrev Begins : Text → Type 0
Begins [] = Unit
Begins (c ∷ s) = (c == b'"') ≡ true

match_rest-Begins :
    (lits : List Text) (s : Text) (args : List Text) → match_rest lits s ≡ some args → Begins s
unfolding match_rest group
match_rest-Begins lits [] args h = tt
match_rest-Begins [] (c ∷ s) args h = some-of-none h
match_rest-Begins (lit ∷ lits) (c ∷ s) args h = elim (Bool-cases (c == b'"')) [
  | inl e ↦ e
  | inr e ↦ some-of-none (rw (e, match_rest) at h)
]

strip-cons :
    (c d : ℕ) (t s r : Text) → strip (c ∷ t) (d ∷ s) ≡ some r → (c ≡ d) × (strip t s ≡ some r)
unfolding strip
strip-cons c d t s r h = ground arith

-- Two literals that lack a quote, and are followed by one or by the end, are the same.
strip_unique :
    (t t' s r r' : Text)
    → Lacks b'"' t
    → Lacks b'"' t'
    → Begins r
    → Begins r'
    → strip t s ≡ some r
    → strip t' s ≡ some r'
    → (t ≡ t') × (r ≡ r')
unfolding strip
strip_unique [] [] s r r' h h' b b' e e' = (refl, some→≡ (sym e ∙ e'))
strip_unique [] (c ∷ t') [] r r' h h' b b' e e' = some-of-none e'
strip_unique [] (c ∷ t') (d ∷ s) r r' h h' b b' e e' =
    let (same, _) = strip-cons c d t' s r' e' in
    let quote : (d == b'"') ≡ true = subst Begins (sym (some→≡ e)) b in
    absurd (true≢false (sym quote ∙ ap (λ x. x == b'"') (sym same) ∙ h'.0))
strip_unique (c ∷ t) [] [] r r' h h' b b' e e' = some-of-none e
strip_unique (c ∷ t) [] (d ∷ s) r r' h h' b b' e e' =
    let (same, _) = strip-cons c d t s r e in
    let quote : (d == b'"') ≡ true = subst Begins (sym (some→≡ e')) b' in
    absurd (true≢false (sym quote ∙ ap (λ x. x == b'"') (sym same) ∙ h.0))
strip_unique (c ∷ t) (c' ∷ t') [] r r' h h' b b' e e' = some-of-none e
strip_unique (c ∷ t) (c' ∷ t') (d ∷ s) r r' h h' b b' e e' =
    let (same, f) = strip-cons c d t s r e in
    let (same', f') = strip-cons c' d t' s r' e' in
    let (q, q') = strip_unique t t' s r r' h.1 h'.1 b b' f f' in
    (ap₂ (λ x xs. x ∷ xs) (same ∙ sym same') q, q')

match_rest_unique :
    (lits lits' : List Text) (s : Text) (args args' : List Text)
    → All (Lacks b'"') lits
    → All (Lacks b'"') lits'
    → match_rest lits s ≡ some args
    → match_rest lits' s ≡ some args'
    → (lits ≡ lits') × (args ≡ args')
unfolding match_rest group
match_rest_unique [] [] s args args' h h' e e' = (refl, some→≡ (sym e ∙ e'))
match_rest_unique [] (l' ∷ ls') [] args args' h h' e e' = some-of-none e'
match_rest_unique [] (l' ∷ ls') (c ∷ s) args args' h h' e e' = some-of-none e
match_rest_unique (l ∷ ls) [] [] args args' h h' e e' = some-of-none e
match_rest_unique (l ∷ ls) [] (c ∷ s) args args' h h' e e' = some-of-none e'
match_rest_unique (l ∷ ls) (l' ∷ ls') s args args' h h' e e' =
    let (a, s₁, s₂, later, g, st, m, q) = match_rest-cons l ls s args e in
    let (a', s₁', s₂', later', g', st', m', q') = match_rest-cons l' ls' s args' e' in
    let caught = some→≡ (sym g ∙ g') in
    let (same, left) =
      strip_unique l l' s₁ s₂ s₂' h.0 h'.0 (match_rest-Begins ls s₂ later m)
        (match_rest-Begins ls' s₂' later' m') st (ap (strip l') (ap (λ p. p.1) caught) ∙ st') in
    let (same', args_same) =
      match_rest_unique ls ls' s₂ later later' h.1 h'.1 m (ap (match_rest ls') left ∙ m') in
    (
      ap₂ (λ x xs. x ∷ xs) same same',
      q ∙ ap₂ (λ x xs. x ∷ xs) (ap (λ p. p.0) caught) args_same ∙ sym q',
    )

-- A pattern's literals have no quote of their own.
abbrev pub IsPlain : Pattern → Type 0
IsPlain p = Lacks b'"' p.first × All (Lacks b'"') p.rest

match_pattern-strip :
    (p : Pattern) (s : Text) (args : List Text)
    → match_pattern p s ≡ some args
    → (s' : Text) × (strip p.first s ≡ some s') × (match_rest p.rest s' ≡ some args)
unfolding match_pattern
match_pattern-strip p s args h = elim (Option-cases (strip p.first s)) [
  | inl e ↦ some-of-none (rw (e, match_pattern) at h)
  | inr (s', e) ↦ (s', e, rw (e, match_pattern) at h)
]

-- Two patterns that match one text are the same, and catch the same.
pub match_pattern_unique :
    (p q : Pattern) (s : Text) (args args' : List Text)
    → IsPlain p
    → IsPlain q
    → match_pattern p s ≡ some args
    → match_pattern q s ≡ some args'
    → (p ≡ q) × (args ≡ args')
match_pattern_unique p q s args args' h h' e e' =
    let (r, st, m) = match_pattern-strip p s args e in
    let (r', st', m') = match_pattern-strip q s args' e' in
    let (same, left) =
      strip_unique p.first q.first s r r' h.0 h'.0 (match_rest-Begins p.rest r args m)
        (match_rest-Begins q.rest r' args' m') st st' in
    let (same', args_same) =
      match_rest_unique p.rest q.rest r args args' h.1 h'.1 m (ap (match_rest q.rest) left ∙ m') in
    (ap₂ (λ f r. record { first = f; rest = r }) same same', args_same)

-- A text that one of the steps matches runs some step that matches it.
pub find_step-some :
    (steps : List (Method × Pattern)) (method : Method) (p : Pattern) (s : Text) (args : List Text)
    → In {A = Method × Pattern} (method, p) steps
    → match_pattern p s ≡ some args
    → (m : Method) × (q : Pattern) × (args' : List Text) × In {A = Method × Pattern} (m, q) steps
      × (match_pattern q s ≡ some args')
      × (find_step steps s ≡ some (m, args'))
unfolding find_step
find_step-some [] method p s args i h = elim i [ ]
find_step-some ((m, q) ∷ steps) method p s args i h = elim (Option-cases (match_pattern q s)) [
  | inr (args', e) ↦ (m, q, args', inl refl, e, rw (find_step, e) refl)
  | inl e ↦ elim i [
    | inl same ↦ some-of-none (sym e ∙ ap (λ x. match_pattern x s) (ap (λ x. x.1) same) ∙ h)
    | inr j ↦
        let (m', q', args', j', e', found) = find_step-some steps method p s args j h in
        (m', q', args', inr j', e', rw (find_step, e) found)
  ]
]
