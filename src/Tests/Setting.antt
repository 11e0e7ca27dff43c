-- ===== src/Tests/Setting.antt =====
-- SetState of the example adapter, behind the step that sets up the target.
use xds_test_harness.Base.{some-of-none, ◌≤◌, ◌≡◌, ◌↔◌, refl, some, List, [], ◌∷◌, map, length}
use xds_test_harness.Text.{Text, codes}
use xds_test_harness.Text.Parts.{split, onto_first}
use xds_test_harness.Dict.Walk.{In}
use xds_test_harness.Parser.{type_url_lds, type_url_cds, type_url_eds, type_url_rds}
use xds_test_harness.Parser.TypeUrls.{Service, lds, cds, eds, rds}
use xds_test_harness.Steps.Target.{set_state, target_setup}
use xds_test_harness.Adapter.Addresses.{Rand, get, syllables, random_address, random_address-length}
use xds_test_harness.Adapter.{Snapshot}
use xds_test_harness.Adapter.Handlers.{Serves}
use xds_test_harness.Adapter.Setting
use xds_test_harness.Adapter.Setting.{success, exits}
use xds_test_harness.Adapter.Setting.Served.{Asks, set_state-Serves}
use xds_test_harness.Adapter.Setting.SetUp.{TellsType, target_setup-Serves}
use xds_test_harness.Tests.{
  Packed, packed_delta_response, packed_listener, packed_cluster, packed_endpoint, packed_route, pb,
}
use xds_test_harness.Tests.Fixtures.{base_runner}
use xds_test_harness.Tests.Steps.{lds-url}
use xds_test_harness.Tests.Target.{any_call, packs}
use xds_test_harness.Tests.Adapter.{Entries, index, cache}

-- Always the lowest number.
abbrev lowest : Rand
lowest = record { intn = λ call bound. 0; intn-below = λ call bound h. h }

lowest-address : random_address lowest ≡ some (codes "babababababa.biz")
unfolding random_address syllables get
lowest-address = refl

abbrev packed_url : Packed → Text
packed_url (packed_listener name) = type_url_lds
packed_url (packed_cluster name) = type_url_cds
packed_url (packed_endpoint name) = type_url_eds
packed_url (packed_route name) = type_url_rds
packed_url _ = []

abbrev no_name : Packed → Text
no_name a = []

packed_url-TellsType : TellsType pb packed_url no_name
packed_url-TellsType lds (packed_listener n) name h = refl
packed_url-TellsType cds (packed_cluster n) name h = refl
packed_url-TellsType eds (packed_endpoint n) name h = refl
packed_url-TellsType rds (packed_route n) name h = refl
packed_url-TellsType _ _ name h = some-of-none h

abbrev nothing : Snapshot Entries
nothing k = []

target_setup-Serves_example :
    (sent : List Packed) × ((target_setup pb any_call
        (codes "LDS")
        (codes "A,B")
        (codes "1")
        base_runner).0
      ≡ some (
          set_state
            (record { node = codes "test-id"; version = codes "1"; resources = map some sent })))
    × (snapshot : Snapshot Entries) × (Setting.set_state pb packed_url no_name
          (λ n. lowest)
          index
          cache
          (record { node = codes "test-id"; version = codes "1"; resources = sent })
          nothing
        ≡ success snapshot)
    × ((k : Service) (n : Text)
        → Serves index cache snapshot k n ↔ (In k (lds ∷ []) × In n (split (codes "A,B") b',')))
unfolding split onto_first
target_setup-Serves_example =
    target_setup-Serves pb any_call packed_url no_name (λ n. lowest) index cache (codes "LDS")
      (codes "A,B") (codes "1") base_runner (lds ∷ []) nothing packed_url-TellsType (lds-url, tt)
      packs

random_address-length_example :
    (address : Text) × (random_address lowest ≡ some address)
    × (16 ≤ length address)
    × (length address ≤ 38)
random_address-length_example = random_address-length lowest

-- A listener A, and a message that is of no type that the adapter serves.
abbrev mixed : Setting.StateRequest Packed
mixed = record {
  node = codes "test-id";
  version = codes "1";
  resources =
      packed_listener (codes "A")
      ∷ packed_delta_response (record {
        system_version_info = [];
        resources = [];
        type_url = [];
        removed_resources = [];
        nonce = [];
      })
      ∷ [];
}

set_state-Serves_example :
    (snapshot : Snapshot Entries) × (Setting.set_state pb packed_url no_name
        (λ n. lowest)
        index
        cache
        mixed
        nothing
      ≡ success snapshot)
    × ((k : Service) (n : Text)
        → Serves index cache snapshot k n
          ↔ ((a : Packed) × In a mixed.resources × Asks pb packed_url no_name k n a))
set_state-Serves_example =
    set_state-Serves pb packed_url no_name (λ n. lowest) index cache mixed nothing
