-- ===== src/Tests/Scenario.antt =====
-- The texts of a scenario, run on a server that answers.
use xds_test_harness.Base.{
  ℕ, ◌≡◌, ◌↔◌, refl, inl, inr, ◌∙◌, ap, true, Option, none, some, List, [], ◌∷◌, All,
}
use xds_test_harness.Text.{codes}
use xds_test_harness.Text.Parts.{split}
use xds_test_harness.Dict.Walk.{in_order}
use xds_test_harness.Text.{text_eq}
use xds_test_harness.Text.Case.{to_lower, lower}
use xds_test_harness.Dict.{lookup, insert, delete}
use xds_test_harness.Validate.{assign, delete_at}
use xds_test_harness.Runner.Requests.{new_request}
use xds_test_harness.Session.Responses.{record_all, unremove_all, on_delta_response}
use xds_test_harness.Session.Step.{run}
use xds_test_harness.Steps.Subscriptions.{client_subscribes, track}
use xds_test_harness.Parser.{type_url_lds, service_to_type_url}
use xds_test_harness.Service.{fresh_channels, delta_listeners, get_builder}
use xds_test_harness.Runner.{Runner}
use xds_test_harness.Session.{Session, Event, reader, broken, delta_response, forwarding, start}
use xds_test_harness.Session.Step.History.{history}
use xds_test_harness.Session.Step.History.Checks.{LastAt, LastRemoved}
use xds_test_harness.Steps.{Verdict, passed, started}
use xds_test_harness.Steps.Receiving.{on_timer}
use xds_test_harness.Steps.Target.{Call}
use xds_test_harness.Steps.Loading.{
  Pattern, the_service_never_responds_more_than_necessary, strip, match_pattern, find_step,
}
use xds_test_harness.Steps.Loading.Dispatch.{render}
use xds_test_harness.Steps.Running.{Surroundings, undefined_step, ran, call, run_text}
use xds_test_harness.Steps.Running.Calls.{run_text-render}
use xds_test_harness.Steps.Running.Scenario.{
  receives_text, removal_text, run_text-wildcard, scenario-receives_iff,
  scenario-receives_removal_iff,
}
use xds_test_harness.Tests.{Packed, packed_delta_request, packed_delta_response, pb}
use xds_test_harness.Tests.Fixtures.{
  any_server, base_runner, listening, listening-eq, zero_listening,
}
use xds_test_harness.Tests.Responses.{one_removed}
use xds_test_harness.Tests.Exchange.{exchange, acked, exchange-run}
use xds_test_harness.Tests.Sessions.{exchange-kept}
use xds_test_harness.Tests.Steps.{lds-url}

abbrev around : Surroundings Packed ℕ
around = record {
  opens = any_server;
  accepts = λ c. true;
  walk = in_order;
  wakeup = on_timer;
  takes_done = true;
}

-- A text that no step has.
no_such_step : run_text pb around (codes "the Client waits") base_runner ≡ undefined_step
unfolding run_text find_step match_pattern strip
no_such_step = refl

-- The group of this step has no parameter behind it.
abbrev does_not_respond : Pattern
does_not_respond = record {
  first = codes "the Client sends an ACK to which the ";
  rest = codes " does not respond" ∷ [];
}

run_text-render_example :
    (r : Runner Packed ℕ) × (c : Option (Call Packed)) × (v : Verdict) × (run_text pb around
        (render does_not_respond (codes "LDS" ∷ []))
        listening
      ≡ ran r c v)
    × (call pb around the_service_never_responds_more_than_necessary (codes "LDS" ∷ []) listening
        ≡ ran r c v)
run_text-render_example =
    run_text-render pb around the_service_never_responds_more_than_necessary does_not_respond
      (codes "LDS" ∷ []) listening
      (inr (
        inr (
          inr (
            inr (
              inr (
                inr (
                  inr (
                    inr (
                      inr (
                        inr (
                          inr (
                            inr (
                              inr (
                                inr
                                  (inr (inr (inr (inr (inr (inr (inr (inl refl))))))))))))))))))))))
      ((refl, (refl, (refl, tt))), tt)

scenario-receives_iff_example :
    (run_text pb around
        (receives_text (codes "A,B") (codes "1") (codes "LDS"))
        (record listening { validate = acked.validate })
      ≡ ran (record listening { validate = acked.validate }) none passed)
    ↔ All
        (LastAt type_url_lds (history pb exchange (start listening fresh_channels)) (codes "1"))
        (split (codes "A,B") b',')
scenario-receives_iff_example =
    scenario-receives_iff pb around base_runner listening fresh_channels exchange acked
      (codes "A,B") (codes "1") (codes "LDS") (refl, (refl, (refl, tt))) (refl, tt)
      (refl, (refl, (refl, tt))) lds-url refl
      (run_text-wildcard pb around (codes "LDS") base_runner (refl, (refl, (refl, tt)))
        ∙ ap (λ x. ran x.0 none x.1) listening-eq)
      refl exchange-kept exchange-run refl

-- An incremental client that has subscribed to all listeners.
abbrev incremental_runner : Runner Packed ℕ
incremental_runner = record base_runner { incremental = true }

abbrev delta_listening : Runner Packed ℕ
delta_listening = record incremental_runner {
  service = record {
    name = codes "LDS";
    channels = some fresh_channels;
    sotw = none;
    delta = some (record { conn = some 2; rpc = delta_listeners });
  };
  subscribe_request = some (
      packed_delta_request (record {
        node = some (codes "test-id");
        type_url = type_url_lds;
        resource_names_subscribe = [];
        resource_names_unsubscribe = [];
        response_nonce = [];
      }));
  validate = zero_listening;
}

delta_listening-eq :
    client_subscribes pb any_server (codes "LDS") [] incremental_runner ≡ (delta_listening, started)
unfolding client_subscribes service_to_type_url to_lower lower lookup text_eq get_builder
    new_request track insert
delta_listening-eq = refl

-- A response that removes B.
abbrev removal : List (Event Packed)
removal = reader broken ∷ reader (delta_response one_removed) ∷ []

abbrev removed : Session Packed
removed = record (start delta_listening fresh_channels) {
  validate = record {
    request_count = 0;
    response_count = 1;
    resources =
        (type_url_lds, (codes "A", record { version = codes "2"; nonce = codes "m" }) ∷ []) ∷ [];
    removed_resources =
        (type_url_lds, (codes "B", record { version = []; nonce = codes "m" }) ∷ []) ∷ [];
  };
  wait = 1;
  reader = forwarding (some (packed_delta_response one_removed));
}

removal-run : run pb removal (start delta_listening fresh_channels) ≡ some removed
unfolding run on_delta_response record_all unremove_all assign lookup insert text_eq start delete_at
    delete
removal-run = refl

scenario-receives_removal_iff_example :
    (run_text pb around
        (removal_text (codes "B") (codes "LDS"))
        (record delta_listening { validate = removed.validate })
      ≡ ran (record delta_listening { validate = removed.validate }) none passed)
    ↔ LastRemoved type_url_lds
        (history pb removal (start delta_listening fresh_channels))
        (codes "B")
unfolding start
scenario-receives_removal_iff_example =
    scenario-receives_removal_iff pb around incremental_runner delta_listening fresh_channels
      removal removed (codes "B") (codes "LDS") (refl, tt) (refl, (refl, (refl, tt))) lds-url refl
      (run_text-wildcard pb around (codes "LDS") incremental_runner (refl, (refl, (refl, tt)))
        ∙ ap (λ x. ran x.0 none x.1) delta_listening-eq)
      refl (refl, (refl, tt)) removal-run refl
