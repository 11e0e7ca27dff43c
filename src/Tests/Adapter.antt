-- ===== src/Tests/Adapter.antt =====
-- The handlers of the example adapter, on an index that is a list of entries and a cache of one node.
use xds_test_harness.Base.{◌≡◌, ◌≢◌, ◌↔◌, ◌⊎◌, refl, inl, inr, map, some, List, [], ◌∷◌}
use xds_test_harness.Text.{Text, codes}
use xds_test_harness.Parser.{type_url_cds, type_url_lds}
use xds_test_harness.Parser.TypeUrls.{Service, lds, cds, eds, rds, url}
use xds_test_harness.Steps.Target.{ResourceRequest}
use xds_test_harness.Adapter.Messages.{Resource, cluster, name_of}
use xds_test_harness.Adapter.Makers.{make_cluster}
use xds_test_harness.Adapter.{Index, Snapshot, Cache, add_resource, remove_resource}
use xds_test_harness.Tests.{Packed}
use xds_test_harness.Adapter.Names.{Has, Under, Has-cons, Under-cons, Keyed}
use xds_test_harness.Adapter.Handlers.{Serves, IsKeyed, remove_resource-Serves, add_resource-Serves}

abbrev pub Entries : Type 0
Entries = List (Text × Resource Packed)

abbrev pub named : List (Resource Packed) → Entries
named = map (λ r. (name_of r, r))

pub named-Under : (n : Text) (rs : List (Resource Packed)) → Under (named rs) n ↔ Has rs n
named-Under n [] = (λ (r, i). elim i [ ], λ (r, i, e). elim i [ ])
named-Under n (r ∷ rs) =
    let ih = named-Under n rs in
    let left = Under-cons n (name_of r) r (named rs) in
    let right = Has-cons n r rs in
    (
      λ x. right.1 (elim (left.0 x) [ inl e ↦ inl e | inr y ↦ inr (ih.0 y) ]),
      λ x. left.1 (elim (right.0 x) [ inl e ↦ inl e | inr y ↦ inr (ih.1 y) ]),
    )

pub named-Keyed : (rs : List (Resource Packed)) → Keyed (named rs)
named-Keyed [] = tt
named-Keyed (r ∷ rs) = (refl, named-Keyed rs)

abbrev pub index : Index Packed Entries
index = record {
  no_items = [];
  walk-no_items = refl;
  new_resources = λ version rs. named rs;
  walk = λ items. items;
  walk-new_resources = λ version n rs. named-Under n rs;
  walk-name_of = λ version rs. named-Keyed rs;
}

abbrev pub cache : Cache Entries (Snapshot Entries)
cache = record { get_snapshot = λ node s. some s; set_snapshot = λ node s old. some s }

abbrev a_cluster : Text → Resource Packed
a_cluster name = cluster (make_cluster name (codes "test-id"))

-- Two clusters, and no listener.
abbrev two_clusters : Snapshot Entries
two_clusters lds = []
two_clusters cds = named (a_cluster (codes "A") ∷ a_cluster (codes "B") ∷ [])
two_clusters eds = []
two_clusters rds = []

two_clusters-Keyed : IsKeyed index cache two_clusters
unfolding make_cluster
two_clusters-Keyed lds = tt
two_clusters-Keyed cds = (refl, (refl, tt))
two_clusters-Keyed eds = tt
two_clusters-Keyed rds = tt

abbrev for_cluster : ResourceRequest
for_cluster = record {
  node = codes "test-id";
  type_url = type_url_cds;
  resource_name = codes "B";
  version = codes "2";
}

abbrev for_listener : ResourceRequest
for_listener = record for_cluster { type_url = type_url_lds }

remove_resource-Serves_example :
    (snapshot : Snapshot Entries) × (remove_resource index cache for_cluster two_clusters
      ≡ some snapshot)
    × ((k : Service) (n : Text)
        → Serves index cache snapshot k n
          ↔ (Serves index cache two_clusters k n × (¬ ((n ≡ codes "B") × (url k ≡ type_url_cds)))))
remove_resource-Serves_example =
    remove_resource-Serves index cache for_cluster two_clusters two_clusters refl two_clusters-Keyed

-- A first listener is not added.
add_resource-Serves_example :
    (snapshot : Snapshot Entries) × (add_resource index cache for_listener two_clusters
      ≡ some snapshot)
    × ((k : Service) (n : Text)
        → Serves index cache snapshot k n ↔ (
            Serves index cache two_clusters k n
            ⊎ ((n ≡ codes "B") × (url k ≡ type_url_lds) × (index.walk (two_clusters k) ≢ []))))
add_resource-Serves_example =
    add_resource-Serves index cache for_listener two_clusters two_clusters refl two_clusters-Keyed
