-- ===== src/Steps/Target/SetUp.antt =====
-- A set-up carries the resources of every service, or makes no call.
use xds_test_harness.Base.{
  ◌≡◌, ◌≢◌, refl, sym, ◌∙◌, ap, Bool, Option, Option-cases, none, some, inl, inr, List, [], ◌∷◌,
  ◌++◌, map, append_assoc, append-nil, All, if◌then◌else◌,
}
use xds_test_harness.Text.{Text, text_eq}
use xds_test_harness.Text.Parts.{split}
use xds_test_harness.Dict.Walk.{In}
use xds_test_harness.Errors.{Error, Result-cases, ok, err, set_state_failed}
use xds_test_harness.Proto.{Anypb, unmarshal_to}
use xds_test_harness.Parser.{service_to_type_url}
use xds_test_harness.Parser.TypeUrls.{Service, lds, cds, eds, rds, url}
use xds_test_harness.Parser.Names.{codec}
use xds_test_harness.Runner.{Runner}
use xds_test_harness.Runner.Requests.{pack}
use xds_test_harness.Steps.{passed, failed}
use xds_test_harness.Steps.Target.{
  Call, set_state, pack_resource, pack_names, pack_services, target_setup,
}

module _ {Any : Type 0} (pb : Anypb Any) where
  -- Each resource reads back as the one wanted, in order.
  abbrev pub Carries : List (Service × Text) → List (Option Any) → Type 0
  Carries [] [] = Unit
  Carries ((k, name) ∷ ws) (a ∷ rs) = (unmarshal_to (codec pb k) a ≡ some name) × Carries ws rs
  Carries _ _ = ⊥

  pack_resource-url :
      (k : Service) (name : Text) → pack_resource pb (url k) name ≡ pack (codec pb k) name
  unfolding pack_resource text_eq
  pack_resource-url lds name = refl
  pack_resource-url cds name = refl
  pack_resource-url eds name = refl
  pack_resource-url rds name = refl

-- The services with their names, in the order of the two loops.
abbrev pub wanted : List Service → List Text → List (Service × Text)
wanted [] names = []
wanted (k ∷ ks) names = map (λ name. (k, name)) names ++ wanted ks names

-- The services have these type URLs, in order.
abbrev pub Named : List Text → List Service → Type 0
Named [] [] = Unit
Named (s ∷ ss) (k ∷ ks) = (service_to_type_url s ≡ ok (url k)) × Named ss ks
Named _ _ = ⊥

module _ {Any : Type 0} (pb : Anypb Any) where
  Carries-append :
      (ws xs : List (Service × Text)) (rs ts : List (Option Any))
      → Carries pb ws rs
      → Carries pb xs ts
      → Carries pb (ws ++ xs) (rs ++ ts)
  Carries-append [] xs [] ts _ k = k
  Carries-append [] xs (a ∷ rs) ts h k = absurd h
  Carries-append (w ∷ ws) xs [] ts h k = absurd h
  Carries-append (w ∷ ws) xs (a ∷ rs) ts (h, hs) k = (h, Carries-append ws xs rs ts hs k)

  pack_names-packed :
      (u name : Text) (names : List Text) (done : List (Option Any)) (a : Any)
      → pack_resource pb u name ≡ (some a, none)
      → pack_names pb u (name ∷ names) done ≡ pack_names pb u names (done ++ some a ∷ [])
  unfolding pack_names
  pack_names-packed u name names done a h =
      ap (λ p. elim p.1 [ some e ↦ err e | none ↦ pack_names pb u names (done ++ p.0 ∷ []) ]) h

  pack_names-Carries :
      (k : Service) (names : List Text) (done : List (Option Any))
      → All (λ name. (codec pb k).marshal name ≢ none) names
      → (rs : List (Option Any)) × (pack_names pb (url k) names done ≡ ok (done ++ rs))
        × Carries pb (map (λ name. (k, name)) names) rs
  unfolding pack_names
  pack_names-Carries k [] done h = ([], ap ok (sym (append-nil done)), tt)
  pack_names-Carries k (name ∷ names) done (h, hs) =
      elim (Option-cases ((codec pb k).marshal name)) [
        | inl e ↦ absurd (h e)
        | inr (a, e) ↦
            let (rs, eq, c) = pack_names-Carries k names (done ++ some a ∷ []) hs in
            (
              some a ∷ rs,
              pack_names-packed (url k) name names done a
                    (pack_resource-url pb k name ∙ rw (pack, e))
                  ∙ eq
                  ∙ ap ok (append_assoc done (some a ∷ []) rs),
              ((codec pb k).unmarshal-marshal name a e, c),
            )
      ]

  pack_services-Carries :
      (services : List Text) (ks : List Service) (names : List Text) (done : List (Option Any))
      → Named services ks
      → ((k : Service) → All (λ name. (codec pb k).marshal name ≢ none) names)
      → (rs : List (Option Any)) × (pack_services pb services names done ≡ ok (done ++ rs))
        × Carries pb (wanted ks names) rs
  unfolding pack_services
  pack_services-Carries [] [] names done h packs = ([], ap ok (sym (append-nil done)), tt)
  pack_services-Carries [] (k ∷ ks) names done h packs = absurd h
  pack_services-Carries (s ∷ ss) [] names done h packs = absurd h
  pack_services-Carries (s ∷ ss) (k ∷ ks) names done (h, hs) packs =
      let (rs, eq, c) = pack_names-Carries k names done (packs k) in
      let (ts, eq', c') = pack_services-Carries ss ks names (done ++ rs) hs packs in
      (
        rs ++ ts,
        rw (pack_services, h, eq) (eq' ∙ ap ok (append_assoc done rs ts)),
        Carries-append _ _ rs ts c c',
      )

  -- A service that has no type URL ends the loops.
  pack_services-unknown :
      (services names : List Text) (done : List (Option Any)) (service : Text) (e : Error)
      → In service services
      → service_to_type_url service ≡ err e
      → (e' : Error) × (pack_services pb services names done ≡ err e')
  unfolding pack_services
  pack_services-unknown [] names done service e i h = elim i [ ]
  pack_services-unknown (s ∷ ss) names done service e (inl eq) h = (e, rw (pack_services, eq, h))
  pack_services-unknown (s ∷ ss) names done service e (inr i) h =
      elim (Result-cases (service_to_type_url s)) [
        | inl (e', bad) ↦ (e', rw (pack_services, bad))
        | inr (u, good) ↦ elim (Result-cases (pack_names pb u names done)) [
          | inl (e', bad) ↦ (e', rw (pack_services, good, bad))
          | inr (rs, packed) ↦
              let (e', rest) = pack_services-unknown ss names rs service e i h in
              (e', rw (pack_services, good, packed) rest)
        ]
      ]

module _ {Any Conn : Type 0} (pb : Anypb Any) (accepts : Call Any → Bool) where
  -- A set-up of services that all have type URLs, with names that can all be packed as resources of
  -- each type, makes one call of the adapter: with the node and the version, and with resources that
  -- read back as each name in turn, for each service in turn. The step passes exactly when the adapter
  -- accepts that call.
  pub target_setup-Carries :
      (services resources version : Text) (r : Runner Any Conn) (ks : List Service)
      → Named (split services b',') ks
      → ((k : Service) → All (λ name. (codec pb k).marshal name ≢ none) (split resources b','))
      → (rs : List (Option Any)) × Carries pb (wanted ks (split resources b',')) rs
        × (c : Call Any) × (c
            ≡ set_state (record { node = r.node_id; version = version; resources = rs }))
        × (target_setup pb accepts services resources version r
            ≡ (some c, if accepts c then passed else failed set_state_failed))
  unfolding target_setup
  target_setup-Carries services resources version r ks named packs =
      let (rs, eq, c) =
        pack_services-Carries pb (split services b',') ks (split resources b',') [] named packs in
      (rs, c, _, refl, rw (target_setup, eq))

  -- A set-up in which one of the services has no type URL makes no call of the adapter.
  target_setup-unknown :
      (services resources version : Text) (r : Runner Any Conn) (service : Text) (e : Error)
      → In service (split services b',')
      → service_to_type_url service ≡ err e
      → (target_setup pb accepts services resources version r).0 ≡ none
  unfolding target_setup
  target_setup-unknown services resources version r service e i h =
      let (e', bad) =
        pack_services-unknown pb (split services b',') (split resources b',') [] service e i h in
      rw (target_setup, bad)
