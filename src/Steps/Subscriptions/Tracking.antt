-- ===== src/Steps/Subscriptions/Tracking.antt =====
-- What a subscription enters into the runner's view of the resources.
use xds_test_harness.Base.{
  ◌≡◌, refl, arith, false, Option, none, some, List, [], ◌∷◌, if◌then◌else◌,
}
use xds_test_harness.Text.{Text, contains, text_eq, text_eq_refl}
use xds_test_harness.Dict.{Dict, lookup, insert, lookup-insert, IsMap, insert-IsMap}
use xds_test_harness.Errors.{ok}
use xds_test_harness.Proto.{Anypb}
use xds_test_harness.Parser.{service_to_type_url}
use xds_test_harness.Service.{Opens}
use xds_test_harness.Validate.{ValidateResource, Validate, zero_resource, at_type}
use xds_test_harness.Validate.Laws.{IsValid, at_type-insert, insert-IsNested}
use xds_test_harness.Runner.{Runner}
use xds_test_harness.Steps.{push_request}
use xds_test_harness.Steps.Subscriptions.{enter_all, track, start_stream, client_subscribes}
use xds_test_harness.Runner.Requests.{new_request}

lookup-enter_all :
    (k : Text) (names : List Text) (m : Dict ValidateResource)
    → lookup k (enter_all names m) ≡ (if contains k names then some zero_resource else lookup k m)
unfolding enter_all
lookup-enter_all k [] m = refl
lookup-enter_all k (n ∷ names) m =
    ground (
      arith,
      lookup-insert n k zero_resource m,
      lookup-enter_all k names (insert n zero_resource m),
    )

enter_all-IsMap :
    (names : List Text) (m : Dict ValidateResource) → IsMap m → IsMap (enter_all names m)
unfolding enter_all
enter_all-IsMap [] m h = h
enter_all-IsMap (n ∷ names) m h =
    enter_all-IsMap names (insert n zero_resource m) (insert-IsMap n zero_resource m h)

track-IsValid :
    (u : Text) (names : List Text) (v : Validate) → IsValid v → IsValid (track u names v)
unfolding track
track-IsValid u names v h = record {
  seen = insert-IsNested u (enter_all names []) v.resources (enter_all-IsMap names [] tt) h.seen;
  removed = insert-IsNested u [] v.removed_resources tt h.removed;
}

-- What is tracked of a type after a subscription: the resources asked for, with nothing received,
-- and no removal; the other types and the counts stay as they were.
pub record Tracks (u : Text) (names : List Text) (before after : Validate) : Type 0 where
  pub asked :
      (k : Text)
      → lookup k (at_type u after.resources)
        ≡ (if contains k names then some zero_resource else none)
  pub none_removed : at_type u after.removed_resources ≡ []
  pub others :
      (t : Text) → text_eq u t ≡ false → at_type t after.resources ≡ at_type t before.resources
  pub others_removed :
      (t : Text)
      → text_eq u t ≡ false
      → at_type t after.removed_resources ≡ at_type t before.removed_resources
  pub counts :
      (after.request_count ≡ before.request_count) × (after.response_count ≡ before.response_count)

track-Tracks : (u : Text) (names : List Text) (v : Validate) → Tracks u names v (track u names v)
unfolding track lookup
track-Tracks u names v = record {
  asked = λ k.
      rw
        (
          at_type-insert u u (enter_all names []) v.resources,
          text_eq_refl u,
          lookup-enter_all k names [],
        )
        refl;
  none_removed = rw (at_type-insert u u [] v.removed_resources, text_eq_refl u);
  others = λ t h. rw (at_type-insert u t (enter_all names []) v.resources, h);
  others_removed = λ t h. rw (at_type-insert u t [] v.removed_resources, h);
  counts = (refl, refl);
}

module _ {Any Conn : Type 0} where
  -- A send to the request channel touches the service alone.
  push_request-validate :
      (request : Option Any) (r : Runner Any Conn)
      → (push_request request r).0.validate ≡ r.validate
  unfolding push_request
  push_request-validate request r = ground arith

  start_stream-validate :
      (pb : Anypb Any) (opens : Opens Conn) (u srv : Text) (names : List Text) (r : Runner Any Conn)
      → (start_stream pb opens u srv names r).0.validate ≡ r.validate
  unfolding start_stream
  start_stream-validate pb opens u srv names r = ground arith

  client_subscribes-track :
      (pb : Anypb Any) (opens : Opens Conn) (srv : Text) (names : List Text) (r : Runner Any Conn)
      {u : Text}
      → service_to_type_url srv ≡ ok u
      → (client_subscribes pb opens srv names r).0.validate ≡ track u names r.validate
  unfolding client_subscribes
  client_subscribes-track pb opens srv names r {u} hu =
      let r' : Runner Any Conn = record r { validate = track u names r.validate } in
      ground (
        arith,
        push_request-validate (new_request pb r' names u) r',
        start_stream-validate pb opens u srv names r',
      )

  -- A subscription to a service that has a type URL, whether it starts a stream, uses the one there
  -- is, fails, waits, or panics, tracks of that type exactly the resources asked for, with nothing
  -- received and no removal; the other types and the counts stay as they were.
  pub client_subscribes-Tracks :
      (pb : Anypb Any) (opens : Opens Conn) (srv : Text) (names : List Text) (r : Runner Any Conn)
      (u : Text)
      → service_to_type_url srv ≡ ok u
      → Tracks u names r.validate (client_subscribes pb opens srv names r).0.validate
  client_subscribes-Tracks pb opens srv names r u hu =
      rw (client_subscribes-track pb opens srv names r hu) (track-Tracks u names r.validate)
