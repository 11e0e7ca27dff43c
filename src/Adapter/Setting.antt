-- ===== src/Adapter/Setting.antt =====
-- examples/go-control-plane/adapter.go, SetState: a snapshot of the resources asked for, made anew.
pub mod Growing
pub mod Served
pub mod SetUp
use xds_test_harness.Base.{ℕ, suc, Option, none, some, List, [], ◌∷◌, ◌++◌, if◌then◌else◌}
use xds_test_harness.Text.{Text, text_eq}
use xds_test_harness.Parser.{type_url_lds, type_url_cds, type_url_rds, type_url_eds}
use xds_test_harness.Parser.TypeUrls.{Service, lds, cds, eds, rds}
use xds_test_harness.Proto.{Codec, Anypb}
use xds_test_harness.Adapter.Messages.{Resource, cluster, listener, route, endpoint}
use xds_test_harness.Adapter.Makers.{make_cluster, make_listener, make_route, make_endpoint}
use xds_test_harness.Adapter.Addresses.{Rand, random_address}
use xds_test_harness.Adapter.{Index, Snapshot, Cache}

-- pb.SetStateRequest, as the server gets it: no resource is nil.
pub record StateRequest (Any : Type 0) : Type 0 where
  pub node : Text
  pub version : Text
  pub resources : List Any

-- The four slices of resources, and the snapshot that is made of them.
pub record Building (Any Items : Type 0) : Type 0 where
  pub made : Service → List (Resource Any)
  pub snapshot : Snapshot Items

-- An assignment to the one of four.
unfoldable pub put : {A : Type 0} → Service → A → (Service → A) → Service → A
put lds a f lds = a
put cds a f cds = a
put eds a f eds = a
put rds a f rds = a
put _ a f k = f k

-- What SetState does: it answers with success, it leaves by os.Exit, or it panics.
pub data SetResult (Store : Type 0) : Type 0 where
  success : Store → SetResult Store
  exits : SetResult Store
  panics : SetResult Store

-- The name in a resource, or the one that a read that has failed leaves: its error is dropped.
unfoldable pub name_in : {Any : Type 0} → (Any → Text) → Codec Any Text → Any → Text
name_in remains codec a = elim (codec.unmarshal a) [ none ↦ remains a | some name ↦ name ]

module _ {Any Items : Type 0} (index : Index Any Items) where
  -- slice = append(slice, r), and snapshot.Resources[k] = cache.NewResources(version, slice)
  unfoldable pub grow : Text → Service → Resource Any → Building Any Items → Building Any Items
  unfolding put
  grow version k r b = record {
    made = put k (b.made k ++ r ∷ []) b.made;
    snapshot = put k (index.new_resources version (b.made k ++ r ∷ [])) b.snapshot;
  }

  -- Before the loop: four empty slices, and what cache.NewSnapshot makes of no resources.
  abbrev pub nothing_made : Building Any Items
  nothing_made = record { made = λ k. []; snapshot = λ k. index.no_items }

-- Beside the index: the type URL of a packed message, the name that is left in a message whose read
-- has failed, and the random numbers behind the address of the n-th resource.
module _ {Any Items : Type 0} (pb : Anypb Any) (type_url remains : Any → Text) (rand : ℕ → Rand)
    (index : Index Any Items) where
  -- The body of the loop, at the n-th resource; `none` is a panic in randomAddress. A type URL that is
  -- none of the four is passed over.
  unfoldable pub set_resource :
      StateRequest Any → ℕ → Any → Building Any Items → Option (Building Any Items)
  unfolding name_in grow
  set_resource request n a b =
      if text_eq (type_url a) type_url_cds
      then some (
          grow index request.version cds
            (cluster (make_cluster (name_in remains pb.cluster a) request.node)) b)
      else if text_eq (type_url a) type_url_lds
      then elim (random_address (rand n)) [
        | none ↦ none
        | some address ↦ some (
            grow index request.version lds
              (listener (make_listener (name_in remains pb.listener a) address 10000 [])) b)
      ]
      else if text_eq (type_url a) type_url_eds
      then elim (random_address (rand n)) [
        | none ↦ none
        | some address ↦ some (
            grow index request.version eds
              (endpoint (make_endpoint (name_in remains pb.endpoint a) address 10000)) b)
      ]
      else if text_eq (type_url a) type_url_rds
      then some (
          grow index request.version rds
            (route (make_route (name_in remains pb.route a) (name_in remains pb.route a))) b)
      else some b

  unfoldable pub set_resources :
      StateRequest Any → ℕ → List Any → Building Any Items → Option (Building Any Items)
  unfolding set_resource
  set_resources request n [] b = some b
  set_resources request n (a ∷ rest) b = elim (set_resource request n a b) [
    | none ↦ none
    | some b' ↦ set_resources request (suc n) rest b'
  ]

  -- SetState
  unfoldable pub set_state :
      {Store : Type 0} → Cache Items Store → StateRequest Any → Store → SetResult Store
  unfolding set_resources
  set_state cache request store =
      elim (set_resources request 0 request.resources (nothing_made index)) [
        | none ↦ panics
        | some b ↦ elim (cache.set_snapshot request.node b.snapshot store) [
          | none ↦ exits
          | some store' ↦ success store'
        ]
      ]
