-- ===== src/Adapter.antt =====
-- examples/go-control-plane/adapter.go: the adapter of the example server, which changes the snapshot
-- that a node is served. The snapshot cache of go-control-plane is a parameter. Every resource of a
-- snapshot is one that the adapter has made, so the messages inside it are not nil.
pub mod Messages
pub mod Makers
pub mod Addresses
pub mod Names
pub mod Handlers
pub mod Setting
use xds_test_harness.Base.{
  ℕ, ◌+◌, ◌%◌, ◌^◌, ◌≡◌, ◌↔◌, Bool, true, false, ◌&&◌, Option, none, some, List, [], ◌∷◌, ◌++◌, All,
  if◌then◌else◌,
}
use xds_test_harness.Words.{add64}
use xds_test_harness.Text.{Text, codes, text_eq}
use xds_test_harness.Dict.Walk.{In}
use xds_test_harness.Parser.{type_url_lds, type_url_cds, type_url_rds, type_url_eds}
use xds_test_harness.Parser.TypeUrls.{Service, lds, cds, eds, rds, url}
use xds_test_harness.Steps.Target.{ResourceRequest}
use xds_test_harness.Adapter.Messages.{Resource, cluster, listener, route, endpoint, name_of}
use xds_test_harness.Adapter.Makers.{make_cluster, make_listener, make_route, make_endpoint}

-- NewResources indexes a list of resources by their names, and GetResources gives the index, which is
-- walked in some order.
pub record Index (Any Items : Type 0) : Type 0 where
  pub no_items : Items  -- of each type, in a snapshot that is made of no resources
  pub new_resources : Text → List (Resource Any) → Items
  pub walk : Items → List (Text × Resource Any)
  pub walk-no_items : walk no_items ≡ []
  -- An index has an entry under a name exactly where the list has a resource of that name.
  pub walk-new_resources :
      (version n : Text) (rs : List (Resource Any))
      → ((r : Resource Any) × In (n, r) (walk (new_resources version rs)))
        ↔ ((r : Resource Any) × In r rs × (name_of r ≡ n))
  -- Each entry stands under its name.
  pub walk-name_of :
      (version : Text) (rs : List (Resource Any))
      → All (λ (e : Text × Resource Any). e.0 ≡ name_of e.1) (walk (new_resources version rs))

-- A snapshot has an index for each of the four types.
abbrev pub Snapshot : Type 0 → Type 0
Snapshot Items = Service → Items

-- The snapshot cache: what it has for a node, and how it answers a new snapshot (`none` is an error).
pub record Cache (Items Store : Type 0) : Type 0 where
  pub get_snapshot : Text → Store → Option (Snapshot Items)
  pub set_snapshot : Text → Snapshot Items → Store → Option Store

-- newResource, for a request of a type URL of the four; any other gives nil.
unfoldable pub new_resource : {Any : Type 0} → ResourceRequest → Option (Resource Any)
unfolding make_cluster make_listener make_route make_endpoint
new_resource request =
    if text_eq request.type_url type_url_cds
    then some (cluster (make_cluster request.resource_name request.node))
    else if text_eq request.type_url type_url_lds
    then some (
        listener (
          make_listener request.resource_name
            (codes "https://" ++ request.resource_name ++ codes "iscool.resources.com") 11223 []))
    else if text_eq request.type_url type_url_rds
    then some (route (make_route request.resource_name request.resource_name))
    else if text_eq request.type_url type_url_eds
    then some (
        endpoint (
          make_endpoint request.resource_name
            (codes "https://" ++ request.resource_name ++ codes "iscool.endpoints.com") 10000))
    else none

-- updateForType. The source changes the resource in place, in the snapshot that the cache still has.
unfoldable pub update_for_type : {Any : Type 0} → Resource Any → Resource Any
update_for_type (cluster c) = cluster (record c {
  dns_refresh_rate = record c.dns_refresh_rate { seconds = add64 c.dns_refresh_rate.seconds 5 };
})
update_for_type (listener l) =
    listener (record l { tcp_backlog_size = (l.tcp_backlog_size + 5) % 2 ^ 32 })
update_for_type (route r) = route (record r { internal_only_headers = codes "Testing" ∷ [] })
update_for_type (endpoint e) =
    endpoint (record e { endpoint_stale_after = record { seconds = 10; nanos = 0 } })

abbrev picked : ResourceRequest → Text → Text → Bool
picked request type_url name =
    text_eq name request.resource_name && text_eq type_url request.type_url

-- The loops over the resources of one type.
unfoldable pub update_loop :
    {Any : Type 0} → ResourceRequest → Text → List (Text × Resource Any) → List (Resource Any)
unfolding update_for_type
update_loop request type_url [] = []
update_loop request type_url ((name, r) ∷ entries) =
    (if picked request type_url name then update_for_type r else r)
    ∷ update_loop request type_url entries

-- A nil resource does not occur: the type URL is one of the four wherever it is the request's.
unfoldable pub add_loop :
    {Any : Type 0} → ResourceRequest → Text → List (Text × Resource Any) → List (Resource Any)
unfolding new_resource
add_loop request type_url [] = []
add_loop request type_url ((name, r) ∷ entries) =
    let rest = add_loop request type_url entries in
    r
    ∷ (if text_eq type_url request.type_url
        then elim (new_resource request) [ none ↦ rest | some new ↦ new ∷ rest ]
        else rest)

unfoldable pub remove_loop :
    {Any : Type 0} → ResourceRequest → Text → List (Text × Resource Any) → List (Resource Any)
remove_loop request type_url [] = []
remove_loop request type_url ((name, r) ∷ entries) =
    let rest = remove_loop request type_url entries in
    if picked request type_url name then rest else r ∷ rest

module _ {Any Items Store : Type 0} (index : Index Any Items) (cache : Cache Items Store) where
  -- What the three handlers share: the loop runs over every type, and the snapshot is replaced.
  unfoldable pub rebuild :
      (ResourceRequest → Text → List (Text × Resource Any) → List (Resource Any))
      → ResourceRequest
      → Store
      → Option Store
  rebuild loop request store = elim (cache.get_snapshot request.node store) [
    | none ↦ none
    | some state ↦
        cache.set_snapshot request.node
          (λ k. index.new_resources request.version (loop request (url k) (index.walk (state k))))
          store
  ]

  -- UpdateResource
  unfoldable pub update_resource : ResourceRequest → Store → Option Store
  unfolding rebuild update_loop
  update_resource = rebuild update_loop

  -- AddResource
  unfoldable pub add_resource : ResourceRequest → Store → Option Store
  unfolding rebuild add_loop
  add_resource = rebuild add_loop

  -- RemoveResource
  unfoldable pub remove_resource : ResourceRequest → Store → Option Store
  unfolding rebuild remove_loop
  remove_resource = rebuild remove_loop

-- ClearState, with ClearSnapshot of the cache as a parameter.
unfoldable pub clear_state : {Store : Type 0} → (Text → Store → Store) → Text → Store → Store × Text
clear_state clear_snapshot node store = (clear_snapshot node store, codes "All Clear")
