-- ===== src/Adapter/Setting/SetUp.antt =====
-- The step that sets up the target, and what the example adapter then serves.
use xds_test_harness.Base.{
  ℕ, ◌≡◌, ◌≢◌, ◌↔◌, iff_trans, ◌⊎◌, inl, inr, refl, sym, ◌∙◌, ap, ap₂, subst, Bool, Option, none,
  some, some-of-none, List, [], ◌∷◌, ◌++◌, map, All,
}
use xds_test_harness.Text.{Text}
use xds_test_harness.Text.Parts.{split}
use xds_test_harness.Dict.Walk.{In}
use xds_test_harness.Parser.TypeUrls.{Service, url, url-injective}
use xds_test_harness.Parser.Names.{codec}
use xds_test_harness.Proto.{Anypb}
use xds_test_harness.Runner.{Runner}
use xds_test_harness.Steps.Target.{Call, set_state, target_setup}
use xds_test_harness.Steps.Target.SetUp.{Carries, wanted, Named, target_setup-Carries}
use xds_test_harness.Adapter.Addresses.{Rand}
use xds_test_harness.Adapter.{Index, Snapshot, Cache}
use xds_test_harness.Adapter.Handlers.{Serves}
use xds_test_harness.Adapter.Setting
use xds_test_harness.Adapter.Setting.{StateRequest, SetResult, success, exits, name_in}
use xds_test_harness.Adapter.Setting.Served.{Asks, set_state-Serves}

-- Each service with each name.
In-append : {A : Type 0} (a : A) (xs ys : List A) → In a (xs ++ ys) ↔ (In a xs ⊎ In a ys)
In-append a [] ys = (λ i. inr i, λ x. elim x [ inl i ↦ elim i [ ] | inr i ↦ i ])
In-append a (x ∷ xs) ys =
    let ih = In-append a xs ys in
    (
      λ i. elim i [
        | inl e ↦ inl (inl e)
        | inr j ↦ elim (ih.0 j) [ inl k ↦ inl (inr k) | inr k ↦ inr k ]
      ],
      λ s. elim s [
        | inl i ↦ elim i [ inl e ↦ inl e | inr j ↦ inr (ih.1 (inl j)) ]
        | inr i ↦ inr (ih.1 (inr i))
      ],
    )

In-map-pair :
    (k j : Service) (n : Text) (names : List Text)
    → In {A = Service × Text} (k, n) (map (λ name. (j, name)) names) ↔ ((j ≡ k) × In n names)
In-map-pair k j n [] = (λ i. elim i [ ], λ (_, i). elim i [ ])
In-map-pair k j n (m ∷ names) =
    let ih = In-map-pair k j n names in
    (
      λ i. elim i [
        | inl e ↦ (ap (λ p. p.0) e, inl (ap (λ p. p.1) e))
        | inr i' ↦ let (e, i'') = ih.0 i' in (e, inr i'')
      ],
      λ (e, i). elim i [ inl e' ↦ inl (ap₂ (λ a b. (a, b)) e e') | inr i' ↦ inr (ih.1 (e, i')) ],
    )

In-wanted :
    (k : Service) (n : Text) (ks : List Service) (names : List Text)
    → In {A = Service × Text} (k, n) (wanted ks names) ↔ (In k ks × In n names)
In-wanted k n [] names = (λ i. elim i [ ], λ (i, _). elim i [ ])
In-wanted k n (j ∷ ks) names =
    let here = In-map-pair k j n names in
    let rest = In-wanted k n ks names in
    let both = In-append (k, n) (map (λ name. (j, name)) names) (wanted ks names) in
    (
      λ i. elim (both.0 i) [
        | inl i' ↦ let (e, i'') = here.0 i' in (inl e, i'')
        | inr i' ↦ let (e, i'') = rest.0 i' in (inr e, i'')
      ],
      λ (i, i'). both.1 (elim i [ inl e ↦ inl (here.1 (e, i')) | inr j' ↦ inr (rest.1 (j', i')) ]),
    )

module _ {Any : Type 0} (pb : Anypb Any) where
  -- What was packed is not nil.
  Carries-some :
      (ws : List (Service × Text)) (rs : List (Option Any))
      → Carries pb ws rs
      → (sent : List Any) × (rs ≡ map some sent)
  Carries-some [] [] c = ([], refl)
  Carries-some [] (a ∷ rs) c = absurd c
  Carries-some (w ∷ ws) [] c = absurd c
  Carries-some ((j, name) ∷ ws) (none ∷ rs) (read, c) = some-of-none read
  Carries-some ((j, name) ∷ ws) (some a ∷ rs) (read, c) =
      let (sent, e) = Carries-some ws rs c in (a ∷ sent, ap (λ as_sent. some a ∷ as_sent) e)

module _ {Any : Type 0} (pb : Anypb Any) (type_url remains : Any → Text) where
  -- A message that can be read as a resource of a type has the type URL of that type: UnmarshalTo
  -- compares them first.
  abbrev pub TellsType : Type 0
  TellsType =
      (k : Service) (a : Any) (name : Text)
      → (codec pb k).unmarshal a ≡ some name
      → type_url a ≡ url k

  -- The resource asks for what it is read as, and for nothing else.
  Asks-read :
      (j : Service) (name : Text) (a : Any) (k : Service) (n : Text)
      → TellsType
      → (codec pb j).unmarshal a ≡ some name
      → Asks pb type_url remains k n a ↔ ((j ≡ k) × (name ≡ n))
  unfolding name_in
  Asks-read j name a k n tells read = (to, from)
    where
      named : name_in remains (codec pb j) a ≡ name
      named = rw (read, name_in) refl

      to : Asks pb type_url remains k n a → (j ≡ k) × (name ≡ n)
      to (here, e) =
          let same = url-injective j k (sym (tells j a name read) ∙ here) in
          (same, sym named ∙ ap (λ i. name_in remains (codec pb i) a) same ∙ e)

      from : (j ≡ k) × (name ≡ n) → Asks pb type_url remains k n a
      from (same, e) = (
        tells j a name read ∙ ap url same,
        ap (λ i. name_in remains (codec pb i) a) (sym same) ∙ named ∙ e,
      )

  Carries-Asks :
      (ws : List (Service × Text)) (sent : List Any)
      → TellsType
      → Carries pb ws (map some sent)
      → (k : Service) (n : Text)
      → ((a : Any) × In a sent × Asks pb type_url remains k n a) ↔ In {A = Service × Text} (k, n) ws
  Carries-Asks [] [] tells c k n = (λ (a, i, _). elim i [ ], λ i. elim i [ ])
  Carries-Asks [] (a ∷ sent) tells c k n = absurd c
  Carries-Asks (w ∷ ws) [] tells c k n = absurd c
  Carries-Asks ((j, name) ∷ ws) (a ∷ sent) tells (read, c) k n =
      let ih = Carries-Asks ws sent tells c k n in
      let here = Asks-read j name a k n tells read in
      (
        λ (b, i, asks). elim i [
          | inl e ↦
              let (same, e') = here.0 (subst (Asks pb type_url remains k n) (sym e) asks) in
              inl (ap₂ (λ x y. (x, y)) same e')
          | inr i' ↦ inr (ih.0 (b, i', asks))
        ],
        λ i. elim i [
          | inl e ↦ (a, inl refl, here.1 (ap (λ p. p.0) e, ap (λ p. p.1) e))
          | inr i' ↦ let (b, i'', asks) = ih.1 i' in (b, inr i'', asks)
        ],
      )

module _ {Any Conn Items Store : Type 0} (pb : Anypb Any) (accepts : Call Any → Bool)
    (type_url remains : Any → Text) (rand : ℕ → Rand) (index : Index Any Items)
    (cache : Cache Items Store) where
  -- A set-up of services that all have type URLs, with names that can all be packed as resources of
  -- each type, calls the adapter with one state. When the example adapter gets that state, it sets a
  -- snapshot that serves exactly each of the names for each of the services.
  pub target_setup-Serves :
      (services resources version : Text) (r : Runner Any Conn) (ks : List Service) (store : Store)
      → TellsType pb type_url remains
      → Named (split services b',') ks
      → ((k : Service) → All (λ name. (codec pb k).marshal name ≢ none) (split resources b','))
      → (sent : List Any) × ((target_setup pb accepts services resources version r).0
          ≡ some (
              set_state
                (record { node = r.node_id; version = version; resources = map some sent })))
        × (snapshot : Snapshot Items) × (Setting.set_state pb type_url remains rand index cache
              (record { node = r.node_id; version = version; resources = sent })
              store
            ≡ (elim (cache.set_snapshot r.node_id snapshot store) [
              | none ↦ exits
              | some store' ↦ success store'
            ]))
        × ((k : Service) (n : Text)
            → Serves index cache snapshot k n ↔ (In k ks × In n (split resources b',')))
  target_setup-Serves services resources version r ks store tells named packs =
      let (rs, carries, c, same, made) =
        target_setup-Carries pb accepts services resources version r ks named packs in
      let names = split resources b',' in
      let (sent, e) = Carries-some pb (wanted ks names) rs carries in
      let (snapshot, set, serves) =
        set_state-Serves pb type_url remains rand index cache
          (record { node = r.node_id; version = version; resources = sent }) store in
      (
        sent,
        ap (λ o. o.0) made
            ∙ ap some (
                same
                ∙ ap
                    (λ q. set_state (record { node = r.node_id; version = version; resources = q }))
                    e),
        snapshot,
        set,
        λ k n. iff_trans (serves k n) (
            iff_trans
              (Carries-Asks pb type_url remains (wanted ks names) sent tells
                (subst (Carries pb (wanted ks names)) e carries) k n)
              (In-wanted k n ks names)),
      )
