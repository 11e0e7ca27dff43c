-- ===== src/Adapter/Names.antt =====
-- Which resources a snapshot has after an update, an addition and a removal.
use xds_test_harness.Base.{
  ◌≡◌, ◌≢◌, ◌↔◌, ◌⊎◌, inl, inr, refl, sym, ◌∙◌, ap, arith, Bool, true, false, true≢false,
  Bool-cases, some, List, [], ◌∷◌, All, if◌then◌else◌,
}
use xds_test_harness.Text.{Text, text_eq, text_eq_iff}
use xds_test_harness.Dict.Walk.{In}
use xds_test_harness.Steps.Target.{ResourceRequest}
use xds_test_harness.Adapter.Messages.{Resource, cluster, listener, route, endpoint, name_of}
use xds_test_harness.Adapter.{
  new_resource, update_for_type, picked, update_loop, add_loop, remove_loop,
}

-- Each entry stands under its resource's name.
abbrev pub Keyed : {Any : Type 0} → List (Text × Resource Any) → Type 0
Keyed {Any = Any} = All (λ (e : Text × Resource Any). e.0 ≡ name_of e.1)

-- The list has a resource of this name; the entries have one under it.
abbrev pub Has : {Any : Type 0} → List (Resource Any) → Text → Type 0
Has {Any = Any} rs n = (r : Resource Any) × In r rs × (name_of r ≡ n)

abbrev pub Under : {Any : Type 0} → List (Text × Resource Any) → Text → Type 0
Under {Any = Any} es n = (r : Resource Any) × In (n, r) es

module _ {Any : Type 0} (n : Text) where
  pub Has-cons :
      (r : Resource Any) (rs : List (Resource Any)) → Has (r ∷ rs) n ↔ ((name_of r ≡ n) ⊎ Has rs n)
  Has-cons r rs = (to, from)
    where
      to : Has (r ∷ rs) n → (name_of r ≡ n) ⊎ Has rs n
      to (s, inl e, h) = inl (ap name_of e ∙ h)
      to (s, inr i, h) = inr (s, i, h)

      from : (name_of r ≡ n) ⊎ Has rs n → Has (r ∷ rs) n
      from (inl h) = (r, inl refl, h)
      from (inr (s, i, h)) = (s, inr i, h)

  pub Under-cons :
      (k : Text) (r : Resource Any) (es : List (Text × Resource Any))
      → Under ((k, r) ∷ es) n ↔ ((k ≡ n) ⊎ Under es n)
  Under-cons k r es = (to, from)
    where
      to : Under ((k, r) ∷ es) n → (k ≡ n) ⊎ Under es n
      to (s, inl e) = inl (ap (λ p. p.0) e)
      to (s, inr i) = inr (s, i)

      from : (k ≡ n) ⊎ Under es n → Under ((k, r) ∷ es) n
      from (inl h) = (r, inl (ap (λ j. (j, r)) h))
      from (inr (s, i)) = (s, inr i)

name_of-update_for_type :
    {Any : Type 0} (r : Resource Any) → name_of (update_for_type r) ≡ name_of r
unfolding update_for_type
name_of-update_for_type (cluster c) = refl
name_of-update_for_type (listener l) = refl
name_of-update_for_type (route r) = refl
name_of-update_for_type (endpoint e) = refl

name_of-if :
    {Any : Type 0} (b : Bool) (r : Resource Any)
    → name_of (if b then update_for_type r else r) ≡ name_of r
name_of-if true r = name_of-update_for_type r
name_of-if false r = refl

module _ (request : ResourceRequest) (u : Text) where
  picked_iff :
      (k : Text)
      → (picked request u k ≡ true) ↔ ((k ≡ request.resource_name) × (u ≡ request.type_url))
  picked_iff k = ground (arith, text_eq_iff k request.resource_name, text_eq_iff u request.type_url)

  -- The name is taken off.
  abbrev pub Off : Text → Type 0
  Off n = (n ≡ request.resource_name) × (u ≡ request.type_url)

module _ {Any : Type 0} (request : ResourceRequest) (u n : Text) where
  pub update_loop-Has :
      (es : List (Text × Resource Any)) → Keyed es → Has (update_loop request u es) n ↔ Under es n
  unfolding update_loop
  update_loop-Has [] h = (λ (r, i, e). elim i [ ], λ (r, i). elim i [ ])
  update_loop-Has ((k, r) ∷ es) (h, hs) =
      let ih = update_loop-Has es hs in
      let left =
        Has-cons n (if picked request u k then update_for_type r else r)
          (update_loop request u es) in
      let right = Under-cons n k r es in
      let same = name_of-if (picked request u k) r in
      (
        λ x. right.1 (elim (left.0 x) [ inl e ↦ inl (h ∙ sym same ∙ e) | inr y ↦ inr (ih.0 y) ]),
        λ x. left.1 (elim (right.0 x) [ inl e ↦ inl (same ∙ sym h ∙ e) | inr y ↦ inr (ih.1 y) ]),
      )

  pub remove_loop-Has :
      (es : List (Text × Resource Any))
      → Keyed es
      → Has (remove_loop request u es) n ↔ (Under es n × (¬ (Off request u n)))
  unfolding remove_loop
  remove_loop-Has [] h = (λ (r, i, e). elim i [ ], λ ((r, i), _). elim i [ ])
  remove_loop-Has ((k, r) ∷ es) (h, hs) =
      let ih = remove_loop-Has es hs in
      let left = Has-cons n r (remove_loop request u es) in
      let right = Under-cons n k r es in
      elim (Bool-cases (picked request u k)) [
        | inl hit ↦
            let at = (picked_iff request u k).0 hit in
            rw hit (
              λ x. (right.1 (inr (ih.0 x).0), (ih.0 x).1),
              λ (x, off). elim (right.0 x) [
                | inl e ↦ absurd (off (sym e ∙ at.0, at.1))
                | inr y ↦ ih.1 (y, off)
              ],
            )
        | inr miss ↦ rw miss (
          λ x. elim (left.0 x) [
            | inl e ↦ (
              right.1 (inl (h ∙ e)),
              λ (a, b). true≢false (sym ((picked_iff request u k).1 (h ∙ e ∙ a, b)) ∙ miss),
            )
            | inr y ↦ (right.1 (inr (ih.0 y).0), (ih.0 y).1)
          ],
          λ (x, off).
              left.1 (elim (right.0 x) [ inl e ↦ inl (sym h ∙ e) | inr y ↦ inr (ih.1 (y, off)) ]),
        )
      ]

  pub add_loop-other :
      (es : List (Text × Resource Any))
      → Keyed es
      → text_eq u request.type_url ≡ false
      → Has (add_loop request u es) n ↔ Under es n
  unfolding add_loop
  add_loop-other [] h miss = (λ (r, i, e). elim i [ ], λ (r, i). elim i [ ])
  add_loop-other ((k, r) ∷ es) (h, hs) miss =
      let ih = add_loop-other es hs miss in
      let left = Has-cons n r (add_loop request u es) in
      let right = Under-cons n k r es in
      rw miss (
        λ x. right.1 (elim (left.0 x) [ inl e ↦ inl (h ∙ e) | inr y ↦ inr (ih.0 y) ]),
        λ x. left.1 (elim (right.0 x) [ inl e ↦ inl (sym h ∙ e) | inr y ↦ inr (ih.1 y) ]),
      )

  module _ (new : Resource Any) where
    pub add_loop-same :
        (es : List (Text × Resource Any))
        → Keyed es
        → text_eq u request.type_url ≡ true
        → new_resource request ≡ some new
        → name_of new ≡ request.resource_name
        → Has (add_loop request u es) n ↔ (Under es n ⊎ ((n ≡ request.resource_name) × (es ≢ [])))
    unfolding add_loop
    add_loop-same [] h hit made named = (
      λ (r, i, e). elim i [ ],
      λ x. elim x [ inl (r, i) ↦ elim i [ ] | inr (_, some_left) ↦ absurd (some_left refl) ],
    )
    add_loop-same ((k, r) ∷ es) (h, hs) hit made named =
        let ih = add_loop-same es hs hit made named in
        let first = Has-cons n r (new ∷ add_loop request u es) in
        let second = Has-cons n new (add_loop request u es) in
        let right = Under-cons n k r es in
        rw (hit, made)
          (
            λ x. elim (first.0 x) [
              | inl e ↦ inl (right.1 (inl (h ∙ e)))
              | inr y ↦ elim (second.0 y) [
                | inl e ↦ inr (sym e ∙ named, λ q. cc)
                | inr z ↦ elim (ih.0 z) [
                  | inl old ↦ inl (right.1 (inr old))
                  | inr (e, _) ↦ inr (e, λ q. cc)
                ]
              ]
            ],
            λ x. elim x [
              | inl old ↦ elim (right.0 old) [
                | inl e ↦ first.1 (inl (sym h ∙ e))
                | inr y ↦ first.1 (inr (second.1 (inr (ih.1 (inl y)))))
              ]
              | inr (e, _) ↦ first.1 (inr (second.1 (inl (named ∙ sym e))))
            ],
          )
