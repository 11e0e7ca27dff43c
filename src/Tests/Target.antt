-- ===== src/Tests/Target.antt =====
-- The steps that call the adapter, on concrete inputs.
use xds_test_harness.Base.{◌≡◌, ◌≢◌, refl, All, Bool, true, none, some, [], ◌∷◌}
use xds_test_harness.Text.{codes, text_eq}
use xds_test_harness.Text.Case.{to_lower, lower}
use xds_test_harness.Text.Parts.{onto_first, split}
use xds_test_harness.Dict.{lookup}
use xds_test_harness.Dict.Walk.{in_order}
use xds_test_harness.Errors.{err, no_type_url}
use xds_test_harness.Parser.{type_url_lds, service_to_type_url}
use xds_test_harness.Parser.TypeUrls.{Service, lds, cds, eds, rds}
use xds_test_harness.Parser.Names.{codec}
use xds_test_harness.Validate.{info_at}
use xds_test_harness.Steps.{passed, failed}
use xds_test_harness.Steps.Target.{
  Call, set_state, remove_resource, pack_resource, target_setup, resource_removed,
}
use xds_test_harness.Steps.Target.Removal.{resource_removed-version}
use xds_test_harness.Tests.{Packed, packed_listener, packed_cluster, pb}
use xds_test_harness.Tests.Fixtures.{base_runner}
use xds_test_harness.Tests.Steps.{lds-url, receiver, apart-IsMap}

abbrev pub any_call : Call Packed → Bool
any_call c = true

abbrev both : Call Packed
both = set_state (record {
  node = codes "test-id";
  version = codes "1";
  resources =
      some (packed_listener (codes "A"))
      ∷ some (packed_listener (codes "B"))
      ∷ some (packed_cluster (codes "A"))
      ∷ some (packed_cluster (codes "B"))
      ∷ [];
})

-- A set-up and a removal, run.
target-runs :
    (target_setup pb any_call (codes "LDS,CDS") (codes "A,B") (codes "1") base_runner
      ≡ (some both, passed))
    × (target_setup pb any_call (codes "LDS,XDS") (codes "A") (codes "1") base_runner
        ≡ (none, failed (no_type_url (codes "xds"))))
    × ((resource_removed any_call in_order (codes "B") (codes "LDS") receiver).0
        ≡ some (
            remove_resource (record {
              node = codes "test-id";
              type_url = type_url_lds;
              resource_name = codes "B";
              version = codes "2";
            })))
unfolding target_setup resource_removed pack_resource split onto_first service_to_type_url to_lower
    lower lookup text_eq
target-runs = (refl, refl, refl)

pub packs :
    (k : Service) → All (λ name. (codec pb k).marshal name ≢ none) (split (codes "A,B") b',')
unfolding split onto_first
packs lds = ((λ h. cc), ((λ h. cc), tt))
packs cds = ((λ h. cc), ((λ h. cc), tt))
packs eds = ((λ h. cc), ((λ h. cc), tt))
packs rds = ((λ h. cc), ((λ h. cc), tt))

xds-err : service_to_type_url (codes "XDS") ≡ err (no_type_url (codes "xds"))
unfolding service_to_type_url to_lower lower lookup text_eq
xds-err = refl

resource_removed-version_example :
    (resource_removed any_call in_order (codes "B") (codes "LDS") receiver).0
    ≡ some (
        remove_resource (record {
          node = codes "test-id";
          type_url = type_url_lds;
          resource_name = codes "B";
          version = (info_at type_url_lds (codes "B") receiver.validate.resources).version;
        }))
resource_removed-version_example =
    resource_removed-version any_call in_order (codes "B") (codes "LDS") type_url_lds receiver
      lds-url apart-IsMap
