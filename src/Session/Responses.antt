-- ===== src/Session/Responses.antt =====
-- What the response loops do with a response.
pub mod Recorded
use xds_test_harness.Base.{true, Option, none, some, List, [], ◌∷◌}
use xds_test_harness.Words.{inc64}
use xds_test_harness.Text.{Text}
use xds_test_harness.Errors.{Error, ok, err}
use xds_test_harness.Proto.{Anypb, DiscoveryResponse, DeltaDiscoveryResponse}
use xds_test_harness.Parser.{resource_names}
use xds_test_harness.Validate.{ValidateResource, Seen, assign, delete_at}
use xds_test_harness.Runner.Requests.{pack}
use xds_test_harness.Session.{Session, Reader, warning, forwarding, failing}

-- The loop that enters what a response says of each resource; `none` is the panic at a nil map.
unfoldable pub record_all : Text → ValidateResource → List Text → Seen → Option Seen
record_all type_url info [] m = some m
record_all type_url info (name ∷ names) m = elim (assign type_url name info m) [
  | none ↦ none
  | some m' ↦ record_all type_url info names m'
]

-- The loop over the names of removed resources, which are forgotten as removed.
unfoldable pub unremove_all : Text → List Text → Seen → Seen
unremove_all type_url [] m = m
unremove_all type_url (name ∷ names) m = unremove_all type_url names (delete_at type_url name m)

-- The result of any.New goes to the channel, behind its error if there is one.
abbrev pub forward : {Any : Type 0} → Option Any × Option Error → Reader Any
forward (res, none) = forwarding res
forward (res, some e) = warning e res

module _ {Any : Type 0} (pb : Anypb Any) where
  -- The body of the loop in SotwStream, behind a Recv that succeeded.
  unfoldable pub on_sotw_response : DiscoveryResponse Any → Session Any → Session Any
  on_sotw_response response s = elim (resource_names pb response) [
    | err e ↦ record s { reader = failing e }
    | ok names ↦
        elim (record_all response.type_url
          (record { version = response.version_info; nonce = response.nonce }) names
          s.validate.resources) [
            | none ↦ record s { panicked = true }
            | some m ↦ record s {
              validate = record s.validate {
                resources = m;
                response_count = inc64 s.validate.response_count;
              };
              reader = forward (pack pb.response response);
            }
          ]
  ]

  -- The body of the loop in DeltaStream, behind a Recv that succeeded. The source enters and
  -- un-removes name by name; the two maps are apart, so here one loop follows the other.
  unfoldable pub on_delta_response : DeltaDiscoveryResponse → Session Any → Session Any
  on_delta_response response s =
      elim (record_all response.type_url
        (record { version = response.system_version_info; nonce = response.nonce })
        response.resources s.validate.resources) [
          | none ↦ record s { panicked = true }
          | some m ↦
              elim (record_all response.type_url (record { version = []; nonce = response.nonce })
                response.removed_resources
                (unremove_all response.type_url response.resources s.validate.removed_resources)) [
                  | none ↦ record s { panicked = true }
                  | some removed ↦ record s {
                    validate = record s.validate {
                      resources = m;
                      removed_resources = removed;
                      response_count = inc64 s.validate.response_count;
                    };
                    reader = forward (pack pb.delta_response response);
                  }
                ]
        ]
