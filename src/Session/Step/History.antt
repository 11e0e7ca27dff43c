-- ===== src/Session/Step/History.antt =====
-- The history of a session: the responses that its response loop has taken in, in order, and what
-- the last of them to mention a resource says of it.
pub mod Kept
pub mod Checks
use xds_test_harness.Base.{
  ◌≡◌, ◌∙◌, refl, sym, ap, arith, Bool, true, false, ◌&&◌, Option, none, some, List, [], ◌∷◌, ◌++◌,
  All, if◌then◌else◌, Option-cases, Bool-cases, some→≡, some-of-none, subst, else-some, then-some,
  inl, inr, true≢false,
}
use xds_test_harness.Text.{Text, contains, text_eq}
use xds_test_harness.Dict.{lookup}
use xds_test_harness.Errors.{ok, err, Result-cases}
use xds_test_harness.Proto.{Anypb, DiscoveryResponse, DeltaDiscoveryResponse}
use xds_test_harness.Parser.{resource_names}
use xds_test_harness.Chan.{send, take}
use xds_test_harness.Validate.{ValidateResource, Seen, at_type}
use xds_test_harness.Session.{
  Session, Reader, looping, receiving, warning, forwarding, failing, stopped, Reply, eof, broken,
  sotw_response, delta_response, Writer, Acker, Event, reader, writer, acker, done, tester_pushes,
  tester_resets, tester_takes_error,
}
use xds_test_harness.Session.Responses.{
  record_all, unremove_all, on_sotw_response, on_delta_response,
}
use xds_test_harness.Session.Responses.Recorded.{Enters, record_all-Enters, lookup-unremove_all}
use xds_test_harness.Session.Step.{
  reader_step, writer_step, acker_step, done_step, take_error, select, range, move, step, run,
}
use xds_test_harness.Session.Step.Runs.{step-move, run-first, run-panicked}

-- What a response says: of its resources, a version and a nonce; an incremental one also says which
-- are removed, and that its resources are not.
pub record Heard : Type 0 where
  pub incremental : Bool
  pub type_url : Text
  pub info : ValidateResource
  pub names : List Text
  pub removed : List Text

-- What the last response to list the resource among its own says of it; a removal does not count.
unfoldable pub last_seen : Text → Text → List Heard → Option ValidateResource
last_seen t j [] = none
last_seen t j (h ∷ hs) = elim (last_seen t j hs) [
  | some info ↦ some info
  | none ↦ if text_eq h.type_url t && contains j h.names then some h.info else none
]

-- Whether the last incremental response to mention the resource has removed it, and at which nonce;
-- `none` where no response says.
unfoldable pub last_removed : Text → Text → List Heard → Option (Option ValidateResource)
last_removed t j [] = none
last_removed t j (h ∷ hs) = elim (last_removed t j hs) [
  | some said ↦ some said
  | none ↦
      if text_eq h.type_url t && contains j h.removed
      then some (some (record { version = []; nonce = h.info.nonce }))
      else if h.incremental && text_eq h.type_url t && contains j h.names
      then some none
      else none
]

abbrev pub or_else : {A : Type 0} → Option A → Option A → Option A
or_else none other = other
or_else (some a) other = some a

abbrev pub or_before : {A : Type 0} → Option A → A → A
or_before none before = before
or_before (some a) before = a

module _ {Any : Type 0} (pb : Anypb Any) where
  abbrev pub hears_sotw : DiscoveryResponse Any → List Heard
  hears_sotw response = elim (resource_names pb response) [
    | err e ↦ []
    | ok names ↦
        (record {
          incremental = false;
          type_url = response.type_url;
          info = record { version = response.version_info; nonce = response.nonce };
          names = names;
          removed = [];
        })
        ∷ []
  ]

  -- The response that a step takes in, if it takes one in.
  unfoldable pub hears : Reader Any → Reply Any → List Heard
  hears receiving (sotw_response response) = hears_sotw response
  hears receiving (delta_response response) =
      (record {
        incremental = true;
        type_url = response.type_url;
        info = record { version = response.system_version_info; nonce = response.nonce };
        names = response.resources;
        removed = response.removed_resources;
      })
      ∷ []
  hears _ _ = []

  unfoldable pub heard : Event Any → Session Any → List Heard
  heard (reader reply) s = hears s.reader reply
  heard _ s = []

  -- The responses that an interleaving takes in, in order.
  unfoldable pub history : List (Event Any) → Session Any → List Heard
  history [] s = []
  history (e ∷ es) s = heard e s ++ elim (step pb e s) [ none ↦ [] | some t ↦ history es t ]

abbrev pub is_reset : {Any : Type 0} → Event Any → Bool
is_reset (tester_resets request resources removed) = true
is_reset _ = false

-- The second of two states holds what these responses say, and of the rest what the first holds.
pub record Follows (hs : List Heard) (seen removed seen' removed' : Seen) : Type 0 where
  pub shown :
      (t j : Text)
      → lookup j (at_type t seen') ≡ or_else (last_seen t j hs) (lookup j (at_type t seen))
  pub gone :
      (t j : Text)
      → lookup j (at_type t removed')
        ≡ or_before (last_removed t j hs) (lookup j (at_type t removed))
