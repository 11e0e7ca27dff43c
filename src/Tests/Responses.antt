-- ===== src/Tests/Responses.antt =====
-- Responses to a session that has subscribed to listeners.
use xds_test_harness.Base.{◌≡◌, ◌&&◌, if◌then◌else◌, refl, arith, true, false, none, some, [], ◌∷◌}
use xds_test_harness.Text.{Text, codes}
use xds_test_harness.Words.{inc64}
use xds_test_harness.Session.Step.Waiting.{Stuck, run-waiting}
use xds_test_harness.Proto.{DeltaDiscoveryResponse}
use xds_test_harness.Parser.{type_url_lds, resource_names}
use xds_test_harness.Parser.{gather}
use xds_test_harness.Dict.{lookup, insert}
use xds_test_harness.Text.{text_eq, contains}
use xds_test_harness.Validate.{assign, at_type}
use xds_test_harness.Chan.{make, close, send}
use xds_test_harness.Session.{receiving, waiting, finished}
use xds_test_harness.Session.Responses.{record_all}
use xds_test_harness.Session.{Session, reader, broken, sotw_response}
use xds_test_harness.Session.Responses.{on_sotw_response, on_delta_response}
use xds_test_harness.Session.Responses.Recorded.{
  Enters, on_sotw_response-Enters, on_sotw_response-panics, on_delta_response-Enters,
}
use xds_test_harness.Session.Step.{run}
use xds_test_harness.Tests.{Packed, packed_response, packed_listener, packed_nil, packed_cons, pb}
use xds_test_harness.Tests.Fixtures.{
  zero_listening, base_runner, two_listeners, two_listeners-names, listening-Tracked,
}
use xds_test_harness.Tests.Exchange.{acked}

-- The request loop is told to end while the reader is in Recv.
abbrev waits : Session Packed
waits = record acked {
  reader = receiving;
  req = close (make 2);
  writer = waiting;
  acker = finished;
}

abbrev waits_still : Session Packed
waits_still = record waits {
  validate = record acked.validate { response_count = 2 };
  res = record (make 2) {
    buffer =
        some (
          packed_response (codes "1")
            (packed_cons (packed_listener (codes "A"))
              (packed_cons (packed_listener (codes "B")) packed_nil))
            type_url_lds (codes "n"))
        ∷ [];
  };
  wait = 2;
  reader = receiving;
}

run-waiting_example : Stuck waits waits_still
unfolding run send on_sotw_response resource_names gather record_all assign lookup insert text_eq
run-waiting_example =
    run-waiting pb (reader (sotw_response two_listeners) ∷ reader broken ∷ reader broken ∷ []) waits
      waits_still refl (omega arith) refl

abbrev opened : Session Packed
opened = record acked { validate = zero_listening; wait = 1; reader = receiving }

on_sotw_response-Enters_example :
    Enters type_url_lds
      (record { version = codes "1"; nonce = codes "n" })
      (codes "A" ∷ codes "B" ∷ [])
      zero_listening.resources
      (on_sotw_response pb two_listeners opened).validate.resources
    × ((on_sotw_response pb two_listeners opened).validate.removed_resources
        ≡ zero_listening.removed_resources)
    × ((on_sotw_response pb two_listeners opened).validate.response_count ≡ inc64 0)
    × ((on_sotw_response pb two_listeners opened).panicked ≡ false)
on_sotw_response-Enters_example =
    on_sotw_response-Enters pb opened two_listeners (codes "A" ∷ codes "B" ∷ []) two_listeners-names
      listening-Tracked

on_sotw_response-panics_example :
    (on_sotw_response pb two_listeners (record opened { validate = base_runner.validate })).panicked
    ≡ true
unfolding lookup
on_sotw_response-panics_example =
    on_sotw_response-panics pb (record opened { validate = base_runner.validate }) two_listeners
      (codes "A") (codes "B" ∷ []) two_listeners-names refl

-- An incremental response that has one listener and removes another.
abbrev pub one_removed : DeltaDiscoveryResponse
one_removed = record {
  system_version_info = codes "2";
  resources = codes "A" ∷ [];
  type_url = type_url_lds;
  removed_resources = codes "B" ∷ [];
  nonce = codes "m";
}

on_delta_response-Enters_example :
    Enters type_url_lds
      (record { version = codes "2"; nonce = codes "m" })
      (codes "A" ∷ [])
      zero_listening.resources
      (on_delta_response pb one_removed opened).validate.resources
    × ((t j : Text)
        → lookup j (at_type t (on_delta_response pb one_removed opened).validate.removed_resources)
          ≡ (if text_eq type_url_lds t && contains j (codes "B" ∷ [])
              then some (record { version = []; nonce = codes "m" })
              else if text_eq type_url_lds t && contains j (codes "A" ∷ [])
              then none
              else lookup j (at_type t zero_listening.removed_resources)))
    × ((on_delta_response pb one_removed opened).validate.response_count ≡ inc64 0)
    × ((on_delta_response pb one_removed opened).panicked ≡ false)
unfolding lookup text_eq
on_delta_response-Enters_example = on_delta_response-Enters pb opened one_removed refl refl
