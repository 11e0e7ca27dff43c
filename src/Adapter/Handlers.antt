-- ===== src/Adapter/Handlers.antt =====
-- What each handler of the adapter leaves in the snapshot that it sets.
use xds_test_harness.Base.{
  ◌≡◌, ◌≢◌, ◌↔◌, iff_trans, ◌⊎◌, inl, inr, refl, sym, ◌∙◌, true≢false, Bool-cases, some, List, [],
  ◌++◌,
}
use xds_test_harness.Text.{Text, codes, text_eq, text_eq_iff, text_eq→≡}
use xds_test_harness.Parser.TypeUrls.{Service, lds, cds, eds, rds, url}
use xds_test_harness.Steps.Target.{ResourceRequest}
use xds_test_harness.Adapter.Messages.{Resource, cluster, listener, route, endpoint, name_of}
use xds_test_harness.Adapter.Makers.{make_cluster, make_listener, make_route, make_endpoint}
use xds_test_harness.Adapter.{
  Index, Snapshot, Cache, new_resource, update_loop, add_loop, remove_loop, rebuild,
  update_resource, add_resource, remove_resource,
}
use xds_test_harness.Adapter.Names.{
  Keyed, Has, Under, update_loop-Has, remove_loop-Has, add_loop-other, add_loop-same,
}

-- For the type URL of a service there is a new resource, of the name asked for.
new_resource-url :
    {Any : Type 0} (k : Service) (request : ResourceRequest)
    → request.type_url ≡ url k
    → (new : Resource Any) × (new_resource request ≡ some new)
      × (name_of new ≡ request.resource_name)
unfolding new_resource text_eq make_cluster make_listener make_route make_endpoint
new_resource-url lds request e = (
  listener (
      make_listener request.resource_name
        (codes "https://" ++ request.resource_name ++ codes "iscool.resources.com") 11223 []),
  simp e,
  refl,
)
new_resource-url cds request e =
    (cluster (make_cluster request.resource_name request.node), simp e, refl)
new_resource-url eds request e = (
  endpoint (
      make_endpoint request.resource_name
        (codes "https://" ++ request.resource_name ++ codes "iscool.endpoints.com") 10000),
  simp e,
  refl,
)
new_resource-url rds request e =
    (route (make_route request.resource_name request.resource_name), simp e, refl)

add_loop-Has :
    {Any : Type 0} (request : ResourceRequest) (k : Service) (n : Text)
    (es : List (Text × Resource Any))
    → Keyed es
    → Has (add_loop request (url k) es) n
      ↔ (Under es n ⊎ ((n ≡ request.resource_name) × (url k ≡ request.type_url) × (es ≢ [])))
add_loop-Has request k n es h = elim (Bool-cases (text_eq (url k) request.type_url)) [
  | inl hit ↦
      let same = text_eq→≡ (url k) request.type_url hit in
      let (new, made, named) = new_resource-url k request (sym same) in
      iff_trans (add_loop-same request (url k) n new es h hit made named) (
        λ x. elim x [ inl old ↦ inl old | inr (e, left) ↦ inr (e, same, left) ],
        λ x. elim x [ inl old ↦ inl old | inr (e, _, left) ↦ inr (e, left) ],
      )
  | inr miss ↦ iff_trans (add_loop-other request (url k) n es h miss) (
    λ x. inl x,
    λ x. elim x [
      | inl old ↦ old
      | inr (_, e, _) ↦
          absurd (true≢false (sym ((text_eq_iff (url k) request.type_url).1 e) ∙ miss))
    ],
  )
]

module _ {Any Items Store : Type 0} (index : Index Any Items) (cache : Cache Items Store) where
  -- The snapshot has a resource of this name among those of the type.
  abbrev pub Serves : Snapshot Items → Service → Text → Type 0
  Serves snapshot k n = Under (index.walk (snapshot k)) n

  -- Every resource of the snapshot stands under its name.
  abbrev pub IsKeyed : Snapshot Items → Type 0
  IsKeyed snapshot = (k : Service) → Keyed (index.walk (snapshot k))

  -- The snapshot that a handler sets.
  abbrev rebuilt :
      (ResourceRequest → Text → List (Text × Resource Any) → List (Resource Any))
      → ResourceRequest
      → Snapshot Items
      → Snapshot Items
  rebuilt loop request state k =
      index.new_resources request.version (loop request (url k) (index.walk (state k)))

  rebuild-eq :
      (loop : ResourceRequest → Text → List (Text × Resource Any) → List (Resource Any))
      (request : ResourceRequest) (store : Store) (state : Snapshot Items)
      → cache.get_snapshot request.node store ≡ some state
      → rebuild index cache loop request store
        ≡ cache.set_snapshot request.node (rebuilt loop request state) store
  unfolding rebuild
  rebuild-eq loop request store state h = rw (rebuild, h)

  -- An update of a node that has a snapshot, whose resources stand under their names, sets a snapshot
  -- that serves the same names.
  update_resource-Serves :
      (request : ResourceRequest) (store : Store) (state : Snapshot Items)
      → cache.get_snapshot request.node store ≡ some state
      → IsKeyed state
      → (snapshot : Snapshot Items) × (update_resource index cache request store
          ≡ cache.set_snapshot request.node snapshot store)
        × ((k : Service) (n : Text) → Serves snapshot k n ↔ Serves state k n)
  unfolding update_resource
  update_resource-Serves request store state h keyed = (
    rebuilt update_loop request state,
    rebuild-eq update_loop request store state h,
    λ k n.
        iff_trans (index.walk-new_resources request.version n _)
          (update_loop-Has request (url k) n _ (keyed k)),
  )

  -- A removal from a node that has a snapshot, whose resources stand under their names, sets a
  -- snapshot that serves the same names but for the one removed, of the type of the request.
  pub remove_resource-Serves :
      (request : ResourceRequest) (store : Store) (state : Snapshot Items)
      → cache.get_snapshot request.node store ≡ some state
      → IsKeyed state
      → (snapshot : Snapshot Items) × (remove_resource index cache request store
          ≡ cache.set_snapshot request.node snapshot store)
        × ((k : Service) (n : Text)
            → Serves snapshot k n
              ↔ (Serves state k n × (¬ ((n ≡ request.resource_name) × (url k ≡ request.type_url)))))
  unfolding remove_resource
  remove_resource-Serves request store state h keyed = (
    rebuilt remove_loop request state,
    rebuild-eq remove_loop request store state h,
    λ k n.
        iff_trans (index.walk-new_resources request.version n _)
          (remove_loop-Has request (url k) n _ (keyed k)),
  )

  -- An addition to a node that has a snapshot, whose resources stand under their names, sets a
  -- snapshot that serves the same names, and the one added where the type is that of the request and
  -- has a resource already: a type without resources stays without.
  pub add_resource-Serves :
      (request : ResourceRequest) (store : Store) (state : Snapshot Items)
      → cache.get_snapshot request.node store ≡ some state
      → IsKeyed state
      → (snapshot : Snapshot Items) × (add_resource index cache request store
          ≡ cache.set_snapshot request.node snapshot store)
        × ((k : Service) (n : Text)
            → Serves snapshot k n ↔ (
                Serves state k n
                ⊎ ((n ≡ request.resource_name)
                    × (url k ≡ request.type_url)
                    × (index.walk (state k) ≢ []))))
  unfolding add_resource
  add_resource-Serves request store state h keyed = (
    rebuilt add_loop request state,
    rebuild-eq add_loop request store state h,
    λ k n.
        iff_trans (index.walk-new_resources request.version n _)
          (add_loop-Has request k n _ (keyed k)),
  )
