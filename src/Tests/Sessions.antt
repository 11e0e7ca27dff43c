-- ===== src/Tests/Sessions.antt =====
-- What holds of every session, at the exchange of a subscription and an acknowledged response.
use xds_test_harness.Base.{◌+◌, ◌≤◌, ◌≡◌, ◌↔◌, refl, arith, All, false, none, some, List, [], ◌∷◌}
use xds_test_harness.Text.{Text, codes, text_eq}
use xds_test_harness.Text.Parts.{split}
use xds_test_harness.Dict.{lookup, insert}
use xds_test_harness.Parser.{type_url_lds, resource_names, gather}
use xds_test_harness.Service.{fresh_channels}
use xds_test_harness.Validate.{ValidateResource, assign}
use xds_test_harness.Chan.{send, take}
use xds_test_harness.Runner.Requests.{new_ack}
use xds_test_harness.Session.{Session, forwarding, opening, start}
use xds_test_harness.Session.Responses.{record_all, on_sotw_response}
use xds_test_harness.Session.Step.{run}
use xds_test_harness.Session.Step.Counts.Total.{pushes_in}
use xds_test_harness.Session.Step.Bounds.{run-bounds}
use xds_test_harness.Session.Step.Sending.{OfKind, run-sent-OfKind}
use xds_test_harness.Session.Step.History.{Heard, history, is_reset, Follows, heard, hears}
use xds_test_harness.Session.Step.History.Kept.{run-Follows}
use xds_test_harness.Session.Step.History.Checks.{LastAt, run-receives_iff}
use xds_test_harness.Steps.{passed}
use xds_test_harness.Steps.Receiving.{receives, on_timer}
use xds_test_harness.Tests.{Packed, packed_response, packed_cons, packed_nil, packed_listener, pb}
use xds_test_harness.Tests.Fixtures.{listening}
use xds_test_harness.Tests.Exchange.{exchange, acked, exchange-run, exchange-live}
use xds_test_harness.Tests.Steps.{lds-url}

run-bounds_example :
    (acked.validate.request_count ≤ acked.validate.response_count + 1 + pushes_in pb exchange)
    × (acked.validate.response_count + 1 + pushes_in pb exchange ≤ acked.validate.request_count + 7)
run-bounds_example =
    run-bounds pb listening exchange acked refl exchange-live exchange-run refl refl (omega arith)
      (omega arith)

run-sent-OfKind_example : OfKind false acked.sent
run-sent-OfKind_example = run-sent-OfKind pb listening fresh_channels exchange acked exchange-run

pub exchange-kept : All (λ e. is_reset e ≡ false) exchange
exchange-kept = (
  refl,
  (refl, (refl, (refl, (refl, (refl, (refl, (refl, (refl, (refl, (refl, (refl, tt))))))))))),
)

-- One response is heard, of the listeners A and B.
abbrev two_heard : List Heard
two_heard =
    (record {
      incremental = false;
      type_url = type_url_lds;
      info = record { version = codes "1"; nonce = codes "n" };
      names = codes "A" ∷ codes "B" ∷ [];
      removed = [];
    })
    ∷ []

exchange-history : history pb exchange (start listening fresh_channels) ≡ two_heard
unfolding history heard hears run start send take on_sotw_response resource_names gather record_all
    assign lookup insert text_eq new_ack
exchange-history = refl

run-Follows_example :
    Follows
      (history pb exchange (start listening fresh_channels))
      listening.validate.resources
      listening.validate.removed_resources
      acked.validate.resources
      acked.validate.removed_resources
unfolding start
run-Follows_example =
    run-Follows pb exchange (start listening fresh_channels) acked exchange-kept exchange-run refl

nothing_seen : (name : Text) → lookup {V = ValidateResource} name [] ≡ none
unfolding lookup
nothing_seen name = refl

run-receives_iff_example :
    (receives
        (codes "A,B")
        (codes "1")
        (codes "LDS")
        (record listening { validate = acked.validate })
        on_timer
      ≡ passed)
    ↔ All
        (LastAt type_url_lds (history pb exchange (start listening fresh_channels)) (codes "1"))
        (split (codes "A,B") b',')
unfolding lookup text_eq
run-receives_iff_example =
    run-receives_iff pb listening fresh_channels exchange acked (codes "A,B") (codes "1")
      (codes "LDS") refl lds-url nothing_seen exchange-kept exchange-run refl

-- A response is to be handed on, and Ack has still to subscribe.
abbrev busy : Session Packed
busy = record acked {
  reader = forwarding (
      some (
        packed_response (codes "1") (packed_cons (packed_listener (codes "A")) packed_nil)
          type_url_lds (codes "n")));
  acker = opening;
}
