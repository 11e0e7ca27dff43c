-- ===== src/Adapter/Setting/Served.antt =====
-- What SetState serves.
use xds_test_harness.Base.{
  ℕ, suc, ◌≡◌, ◌↔◌, iff_trans, ◌⊎◌, inl, inr, refl, sym, ◌∙◌, ap, subst, false, true≢false,
  Bool-cases, none, some, List, [], ◌∷◌,
}
use xds_test_harness.Text.{Text, text_eq, text_eq_iff, text_eq→≡}
use xds_test_harness.Dict.Walk.{In}
use xds_test_harness.Parser.TypeUrls.{Service, lds, cds, eds, rds, url, url-injective}
use xds_test_harness.Parser.Names.{codec}
use xds_test_harness.Proto.{Anypb}
use xds_test_harness.Adapter.Messages.{Resource, cluster, listener, route, endpoint, name_of}
use xds_test_harness.Adapter.Makers.{make_cluster, make_listener, make_route, make_endpoint}
use xds_test_harness.Adapter.Addresses.{Rand, random_address-length}
use xds_test_harness.Adapter.{Index, Snapshot, Cache}
use xds_test_harness.Adapter.Names.{Has}
use xds_test_harness.Adapter.Handlers.{Serves}
use xds_test_harness.Adapter.Setting.{
  StateRequest, Building, success, exits, name_in, grow, set_resource, set_resources, nothing_made,
  set_state,
}
use xds_test_harness.Adapter.Setting.Growing.{Built, nothing_made-Built, grow-Built, grow-Has}

-- A type URL that is none of the four.
missed :
    (u : Text)
    → text_eq u (url cds) ≡ false
    → text_eq u (url lds) ≡ false
    → text_eq u (url eds) ≡ false
    → text_eq u (url rds) ≡ false
    → (k : Service) → text_eq u (url k) ≡ false
missed u c l e r cds = c
missed u c l e r lds = l
missed u c l e r eds = e
missed u c l e r rds = r

-- A resource of this type that is given this name.
abbrev pub Asks :
    {Any : Type 0} → Anypb Any → (type_url remains : Any → Text) → Service → Text → Any → Type 0
Asks pb type_url remains k n a = (type_url a ≡ url k) × (name_in remains (codec pb k) a ≡ n)

module _ {Any Items : Type 0} (pb : Anypb Any) (type_url remains : Any → Text) (rand : ℕ → Rand)
    (index : Index Any Items) where
  -- What a pass of the loop adds.
  pub record Adds (a : Any) (b b' : Building Any Items) : Type 0 where
    pub built : Built index b'
    pub has :
        (k : Service) (n : Text)
        → Has (b'.made k) n ↔ (Has (b.made k) n ⊎ Asks pb type_url remains k n a)

  grow-Adds :
      (version : Text) (k : Service) (r : Resource Any) (a : Any) (b : Building Any Items)
      → Built index b
      → type_url a ≡ url k
      → name_of r ≡ name_in remains (codec pb k) a
      → Adds a b (grow index version k r b)
  grow-Adds version k r a b h at named = record {
    built = grow-Built index version k r b h;
    has = λ j n. iff_trans (grow-Has index version k j n r b) (
      λ x. elim x [
        | inl y ↦ inl y
        | inr (same, e) ↦ inr (at ∙ ap url same, rw⁻¹ same (sym named ∙ e))
      ],
      λ x. elim x [
        | inl y ↦ inl y
        | inr (here, e) ↦
            let same = url-injective k j (sym at ∙ here) in
            inr (same, named ∙ ap (λ i. name_in remains (codec pb i) a) same ∙ e)
      ],
    );
  }

  none-Adds :
      (a : Any) (b : Building Any Items)
      → Built index b
      → ((k : Service) → text_eq (type_url a) (url k) ≡ false)
      → Adds a b b
  none-Adds a b h miss = record {
    built = h;
    has = λ k n. (
      λ y. inl y,
      λ x. elim x [
        | inl y ↦ y
        | inr (here, e) ↦
            absurd (true≢false (sym ((text_eq_iff (type_url a) (url k)).1 here) ∙ miss k))
      ],
    );
  }

  set_resource-Adds :
      (request : StateRequest Any) (n : ℕ) (a : Any) (b : Building Any Items)
      → Built index b
      → (b' : Building Any Items) × (set_resource pb type_url remains rand index request n a b
          ≡ some b')
        × Adds a b b'
  unfolding set_resource make_cluster make_listener make_endpoint make_route
  set_resource-Adds request n a b h =
      let (address, made, _, _) = random_address-length (rand n) in
      let c : Resource Any = cluster (make_cluster (name_in remains pb.cluster a) request.node) in
      let l : Resource Any =
        listener (make_listener (name_in remains pb.listener a) address 10000 []) in
      let p : Resource Any =
        endpoint (make_endpoint (name_in remains pb.endpoint a) address 10000) in
      let r : Resource Any =
        route (make_route (name_in remains pb.route a) (name_in remains pb.route a)) in
      let with = grow index request.version in
      elim (Bool-cases (text_eq (type_url a) (url cds))) [
        | inl e ↦
            (with cds c b, rw e refl, grow-Adds request.version cds c a b h (text_eq→≡ _ _ e) refl)
        | inr e₁ ↦ elim (Bool-cases (text_eq (type_url a) (url lds))) [
          | inl e ↦ (
            with lds l b,
            rw (e₁, e, made) refl,
            grow-Adds request.version lds l a b h (text_eq→≡ _ _ e) refl,
          )
          | inr e₂ ↦ elim (Bool-cases (text_eq (type_url a) (url eds))) [
            | inl e ↦ (
              with eds p b,
              rw (e₁, e₂, e, made) refl,
              grow-Adds request.version eds p a b h (text_eq→≡ _ _ e) refl,
            )
            | inr e₃ ↦ elim (Bool-cases (text_eq (type_url a) (url rds))) [
              | inl e ↦ (
                with rds r b,
                rw (e₁, e₂, e₃, e) refl,
                grow-Adds request.version rds r a b h (text_eq→≡ _ _ e) refl,
              )
              | inr e₄ ↦
                  (b, rw (e₁, e₂, e₃, e₄) refl, none-Adds a b h (missed (type_url a) e₁ e₂ e₃ e₄))
            ]
          ]
        ]
      ]

  -- The loop: what is built serves what was there and what the resources ask for.
  set_resources-Adds :
      (request : StateRequest Any) (n : ℕ) (as_asked : List Any) (b : Building Any Items)
      → Built index b
      → (b' : Building Any Items) × (set_resources pb type_url remains rand index request n as_asked
            b
          ≡ some b')
        × Built index b'
        × ((k : Service) (m : Text)
            → Has (b'.made k) m
              ↔ (Has (b.made k) m ⊎ ((a : Any) × In a as_asked × Asks pb type_url remains k m a)))
  unfolding set_resources
  set_resources-Adds request n [] b h =
      (b, refl, h, λ k m. (λ y. inl y, λ x. elim x [ inl y ↦ y | inr (a, i, _) ↦ elim i [ ] ]))
  set_resources-Adds request n (a ∷ rest) b h =
      let (b₁, first, adds) = set_resource-Adds request n a b h in
      let (b', later, built, has) = set_resources-Adds request (suc n) rest b₁ adds.built in
      (
        b',
        rw (first, set_resources) later,
        built,
        λ k m. iff_trans (has k m) (
          λ x. elim x [
            | inl y ↦ elim ((adds.has k m).0 y) [
              | inl z ↦ inl z
              | inr asks ↦ inr (a, inl refl, asks)
            ]
            | inr (c, i, asks) ↦ inr (c, inr i, asks)
          ],
          λ x. elim x [
            | inl y ↦ inl ((adds.has k m).1 (inl y))
            | inr (c, inl e, asks) ↦
                inl ((adds.has k m).1 (inr (subst (Asks pb type_url remains k m) (sym e) asks)))
            | inr (c, inr i, asks) ↦ inr (c, i, asks)
          ],
        ),
      )

  module _ {Store : Type 0} (cache : Cache Items Store) where
    -- SetState sets one snapshot, and answers with success if the cache takes it and leaves the program
    -- if not: it never panics. The snapshot has a resource of a name among those of a type exactly where
    -- a resource of that type in the request reads as that name, or is left with it when it cannot be
    -- read.
    pub set_state-Serves :
        (request : StateRequest Any) (store : Store)
        → (snapshot : Snapshot Items) × (set_state pb type_url remains rand index cache request
              store
            ≡ (elim (cache.set_snapshot request.node snapshot store) [
              | none ↦ exits
              | some store' ↦ success store'
            ]))
          × ((k : Service) (n : Text)
              → Serves index cache snapshot k n
                ↔ ((a : Any) × In a request.resources × Asks pb type_url remains k n a))
    unfolding set_state
    set_state-Serves request store =
        let (b, made, built, has) =
          set_resources-Adds request 0 request.resources (nothing_made index)
            (nothing_made-Built index) in
        (
          b.snapshot,
          rw (made, set_state) refl,
          λ k n. iff_trans (built k n) (
              iff_trans (has k n)
                (λ x. elim x [ inl (r, i, _) ↦ elim i [ ] | inr asks ↦ asks ], λ asks. inr asks)),
        )
