-- ===== src/Tests/Exchange.antt =====
-- A session that subscribes to listeners and acknowledges a response, step by step.
use xds_test_harness.Base.{
  ◌≡◌, ◌↔◌, All, ◌≤◌, ◌%◌, ◌^◌, ◌++◌, refl, arith, true, false, none, some, List, [], ◌∷◌, ◌+◌,
}
use xds_test_harness.Text.{codes}
use xds_test_harness.Proto.{DiscoveryRequest}
use xds_test_harness.Parser.{type_url_lds, resource_names}
use xds_test_harness.Service.{fresh_channels}
use xds_test_harness.Parser.{gather}
use xds_test_harness.Dict.{lookup, insert}
use xds_test_harness.Text.{text_eq}
use xds_test_harness.Validate.{assign}
use xds_test_harness.Chan.{make, send, take}
use xds_test_harness.Runner.Requests.{new_ack}
use xds_test_harness.Session.{looping, ranging, selecting, sotw}
use xds_test_harness.Session.Responses.{record_all}
use xds_test_harness.Steps.{passed}
use xds_test_harness.Steps.Validation.{never_responds_more}
use xds_test_harness.Session.Step.Counts.{on_the_way, is_eof}
use xds_test_harness.Session.Step.Counts.Total.{pushes_in, run-balance, run-never_responds_more}
use xds_test_harness.Session.{Session, Event, reader, writer, acker, broken, sotw_response, start}
use xds_test_harness.Session.Responses.{on_sotw_response}
use xds_test_harness.Session.Step.{run}
use xds_test_harness.Tests.{Packed, packed_request, pb}
use xds_test_harness.Tests.Fixtures.{wildcard, listening, two_listeners}

-- The subscribing request reaches the server, and is counted.
abbrev pub subscribing : List (Event Packed)
subscribing = acker ∷ writer true ∷ writer true ∷ writer true ∷ []

-- A response is received, handed on, acknowledged, and the ACK sent and counted.
abbrev pub acknowledging : List (Event Packed)
acknowledging =
    reader broken
    ∷ reader (sotw_response two_listeners)
    ∷ reader broken
    ∷ acker
    ∷ acker
    ∷ writer true
    ∷ writer true
    ∷ writer true
    ∷ []

abbrev pub exchange : List (Event Packed)
exchange = subscribing ++ acknowledging

abbrev pub ack : DiscoveryRequest
ack = record {
  version_info = codes "1";
  node = none;
  resource_names = [];
  type_url = type_url_lds;
  response_nonce = codes "n";
}

-- The state behind the exchange.
abbrev pub acked : Session Packed
acked = record {
  incremental = false;
  subscribe_request = some (packed_request wildcard);
  validate = record {
    request_count = 2;
    response_count = 1;
    resources =
        (
          type_url_lds,
          (codes "A", record { version = codes "1"; nonce = codes "n" })
              ∷ (codes "B", record { version = codes "1"; nonce = codes "n" })
              ∷ [],
        )
        ∷ [];
    removed_resources = (type_url_lds, []) ∷ [];
  };
  req = make 2;
  res = make 2;
  errors = make 2;
  wait = 1;
  cancelled = false;
  reader = looping;
  writer = ranging;
  acker = selecting;
  sent = sotw ack ∷ sotw wildcard ∷ [];
  panicked = false;
}

pub exchange-run : run pb exchange (start listening fresh_channels) ≡ some acked
unfolding run start send take on_sotw_response resource_names gather record_all assign lookup insert
    text_eq new_ack
exchange-run = refl

-- Two requests are counted for one response, and the check of superfluous responses passes.
exchange-counts :
    (acked.validate.request_count ≡ 2)
    × (acked.validate.response_count ≡ 1)
    × (never_responds_more acked.validate ≡ passed)
unfolding never_responds_more
exchange-counts = (refl, refl, refl)

pub exchange-live : All (λ e. is_eof e ≡ false) exchange
exchange-live = (
  refl,
  (refl, (refl, (refl, (refl, (refl, (refl, (refl, (refl, (refl, (refl, (refl, tt))))))))))),
)

run-balance_example :
    (acked.validate.request_count + on_the_way acked) % 2 ^ 64
    ≡ (acked.validate.response_count + 1 + pushes_in pb exchange) % 2 ^ 64
run-balance_example =
    run-balance pb listening exchange acked refl exchange-live exchange-run refl refl

run-never_responds_more_example :
    (never_responds_more acked.validate ≡ passed) ↔ (on_the_way acked ≤ pushes_in pb exchange)
run-never_responds_more_example =
    run-never_responds_more pb listening exchange acked refl exchange-live exchange-run refl refl
      (omega arith) (omega arith)
