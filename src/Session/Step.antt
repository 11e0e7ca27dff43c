-- ===== src/Session/Step.antt =====
-- One move of one goroutine.
pub mod Runs
pub mod Waiting
pub mod Counts
pub mod Buffers
pub mod Bounds
pub mod Sending
pub mod History
pub mod Draining
use xds_test_harness.Base.{
  ℕ, ◌+◌, Bool, true, false, Option, none, some, List, [], ◌∷◌, if◌then◌else◌, ◌==◌,
}
use xds_test_harness.Words.{inc64}
use xds_test_harness.Errors.{Error, recv_failed, send_failed, unmarshal_failed}
use xds_test_harness.Proto.{Anypb, unmarshal_to}
use xds_test_harness.Chan.{
  Chan, Sent, sent, full, send_on_closed, send, Taken, taken, empty, closed_and_empty, take, close,
}
use xds_test_harness.Runner.Requests.{new_ack}
use xds_test_harness.Session.{
  Session, Reader, looping, receiving, warning, forwarding, failing, stopped, Request, sotw, delta,
  Writer, ranging, aborting, resuming, sending, excusing, counting, closing, regretting, waiting,
  returning, returned, Acker, opening, selecting, acking, finished, Reply, eof, broken,
  sotw_response, delta_response, Event, reader, writer, acker, done, tester_pushes, tester_resets,
  tester_takes_error,
}
use xds_test_harness.Session.Responses.{on_sotw_response, on_delta_response}

module _ {Any : Type 0} where
  -- What follows a send: the goroutine goes on, waits (there is no step), or panics.
  abbrev pub after_send :
      {A : Type 0} → Session Any → (Chan A → Session Any) → Sent A → Option (Session Any)
  after_send s goes_on (sent q) = some (goes_on q)
  after_send s goes_on full = none
  after_send s goes_on send_on_closed = some (record s { panicked = true })

  -- Err <- e
  abbrev pub complain : Error → Session Any → (Session Any → Session Any) → Option (Session Any)
  complain e s goes_on = after_send s (λ q. goes_on (record s { errors = q })) (send e s.errors)

module _ {Any : Type 0} (pb : Anypb Any) where
  unfoldable pub reader_step : Reader Any → Reply Any → Session Any → Option (Session Any)
  reader_step looping reply s = some (record s { wait = s.wait + 1; reader = receiving })
  reader_step receiving eof s = some (record s { res = close s.res; reader = stopped })
  reader_step receiving broken s = some (record s { reader = failing recv_failed })
  reader_step receiving (sotw_response response) s =
      if s.incremental then none else some (on_sotw_response pb response s)
  reader_step receiving (delta_response response) s =
      if s.incremental then some (on_delta_response pb response s) else none
  reader_step (warning e res) reply s = complain e s (λ t. record t { reader = forwarding res })
  reader_step (forwarding res) reply s =
      after_send s (λ q. record s { res = q; reader = looping }) (send res s.res)
  reader_step (failing e) reply s = complain e s (λ t. record t { reader = stopped })
  reader_step stopped reply s = none

  -- What the request loop does with a request. A message that cannot be read ends SotwStream;
  -- DeltaStream goes on with the zero request.
  unfoldable pub sotw_request : Option Any → Session Any → Writer
  sotw_request a s = elim (unmarshal_to pb.request a) [
    | none ↦ aborting unmarshal_failed
    | some request ↦ sending (sotw request)
  ]

  unfoldable pub delta_request : Option Any → Session Any → Writer
  delta_request a s = elim (unmarshal_to pb.delta_request a) [
    | none ↦ resuming unmarshal_failed (
        delta (record {
          node = none;
          type_url = [];
          resource_names_subscribe = [];
          resource_names_unsubscribe = [];
          response_nonce = [];
        }))
    | some request ↦ sending (delta request)
  ]

  unfoldable pub range : Taken (Option Any) → Session Any → Option (Session Any)
  unfolding sotw_request delta_request
  range (taken a q) s =
      some (record s {
        req = q;
        writer = if s.incremental then delta_request a s else sotw_request a s;
      })
  range empty s = none
  range closed_and_empty s = some (record s { writer = closing })

  unfoldable pub writer_step : Writer → Bool → Session Any → Option (Session Any)
  unfolding range
  writer_step ranging success s = range (take s.req) s
  writer_step (aborting e) success s = complain e s (λ t. record t { writer = returning })
  writer_step (resuming e request) success s =
      complain e s (λ t. record t { writer = sending request })
  writer_step (sending request) true s =
      some (record s { sent = request ∷ s.sent; writer = counting })
  writer_step (sending request) false s = some (record s { writer = excusing send_failed })
  writer_step (excusing e) success s = complain e s (λ t. record t { writer = counting })
  writer_step counting success s = some (record s {
    validate = record s.validate { request_count = inc64 s.validate.request_count };
    writer = ranging;
  })
  writer_step closing true s = some (record s { writer = waiting })
  writer_step closing false s = some (record s { writer = regretting send_failed })
  writer_step (regretting e) success s = complain e s (λ t. record t { writer = waiting })
  writer_step waiting success s =
      if s.wait == 0 then some (record s { writer = returning }) else none
  writer_step returning success s =
      some (record s { errors = close s.errors; cancelled = true; writer = returned })
  writer_step returned success s = none

  -- Ack's receive from Res: a closed channel gives a nil response.
  unfoldable pub select : Taken (Option Any) → Session Any → Option (Session Any)
  select (taken res q) s =
      some
        (record s { res = q; acker = acking (new_ack pb s.incremental s.subscribe_request res).0 })
  select empty s = none
  select closed_and_empty s =
      some (record s { acker = acking (new_ack pb s.incremental s.subscribe_request none).0 })

  unfoldable pub acker_step : Acker Any → Session Any → Option (Session Any)
  unfolding select
  acker_step opening s =
      after_send s (λ q. record s { req = q; acker = selecting }) (send s.subscribe_request s.req)
  acker_step selecting s = select (take s.res) s
  acker_step (acking ack) s =
      after_send s (λ q. record s { req = q; acker = selecting }) (send ack s.req)
  acker_step finished s = none

  unfoldable pub done_step : Acker Any → Session Any → Option (Session Any)
  done_step selecting s = some (record s { req = close s.req; acker = finished })
  done_step _ s = none

  unfoldable pub take_error : Taken Error → Session Any → Option (Session Any)
  take_error (taken e q) s = some (record s { errors = q })
  take_error empty s = none
  take_error closed_and_empty s = some s

  unfoldable pub move : Event Any → Session Any → Option (Session Any)
  unfolding reader_step writer_step acker_step done_step take_error
  move (reader reply) s = reader_step s.reader reply s
  move (writer success) s = writer_step s.writer success s
  move acker s = acker_step s.acker s
  move done s = done_step s.acker s
  move (tester_pushes request) s = after_send s (λ q. record s { req = q }) (send request s.req)
  move (tester_resets request resources removed) s = some (record s {
    subscribe_request = request;
    validate = record s.validate { resources = resources; removed_resources = removed };
  })
  move tester_takes_error s = take_error (take s.errors) s

  -- `none`: the goroutine waits, or has ended, or the program has panicked.
  unfoldable pub step : Event Any → Session Any → Option (Session Any)
  unfolding move
  step e s = if s.panicked then none else move e s

  -- The state behind an interleaving, if each of its events can happen.
  unfoldable pub run : List (Event Any) → Session Any → Option (Session Any)
  unfolding step
  run [] s = some s
  run (e ∷ es) s = elim (step e s) [ none ↦ none | some t ↦ run es t ]
