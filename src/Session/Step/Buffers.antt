-- ===== src/Session/Step/Buffers.antt =====
-- The channels of a session keep their capacity: no send goes past it.
use xds_test_harness.Base.{
  ◌≤◌, ◌≡◌, sym, refl, arith, Bool, Option, some, [], ◌∷◌, length, length-append, some→≡,
  some-of-none, else-some, then-some, subst,
}
use xds_test_harness.Errors.{Error}
use xds_test_harness.Proto.{Anypb, DiscoveryResponse, DeltaDiscoveryResponse}
use xds_test_harness.Chan.{
  Chan, Sent, sent, full, send_on_closed, send, Taken, taken, empty, closed_and_empty, take,
}
use xds_test_harness.Session.{
  Session, Reader, looping, receiving, warning, forwarding, failing, stopped, Reply, eof, broken,
  sotw_response, delta_response, Writer, ranging, aborting, resuming, excusing, regretting, Acker,
  opening, selecting, acking, finished, Event, reader, writer, acker, done, tester_pushes,
  tester_resets, tester_takes_error,
}
use xds_test_harness.Session.Responses.{on_sotw_response, on_delta_response}
use xds_test_harness.Session.Step.{
  after_send, reader_step, range, writer_step, select, acker_step, done_step, take_error, move,
  step,
}
use xds_test_harness.Session.Step.Runs.{step-move}

-- A channel of capacity 2 with at most two entries.
pub record Pair {A : Type 0} (c : Chan A) : Type 0 where
  pub room : c.capacity ≡ 2
  pub held : length c.buffer ≤ 2

pub record Pairs {Any : Type 0} (s : Session Any) : Type 0 where
  pub req : Pair s.req
  pub res : Pair s.res
  pub errors : Pair s.errors

module _ {A : Type 0} where
  send-Pair : (a : A) (c d : Chan A) → send a c ≡ sent d → Pair c → Pair d
  unfolding send
  send-Pair a c d h p = ground (arith, length-append c.buffer (a ∷ []))

  take-Pair : (a : A) (c d : Chan A) → take c ≡ taken a d → Pair c → Pair d
  unfolding take
  take-Pair a c d h p = ground arith

module _ {Any : Type 0} where
  after_send-Pairs :
      {A : Type 0} (s t : Session Any) (goes_on : Chan A → Session Any) (a : A) (c : Chan A)
      (x : Sent A)
      → send a c ≡ x
      → after_send s goes_on x ≡ some t
      → Pairs s
      → Pair c
      → ((d : Chan A) → Pair d → Pairs (goes_on d))
      → Pairs t
  after_send-Pairs s t goes_on a c (sent d) went h ps p on =
      subst Pairs (some→≡ h) (on d (send-Pair a c d went p))
  after_send-Pairs s t goes_on a c full went h ps p on = some-of-none h
  after_send-Pairs s t goes_on a c send_on_closed went h ps p on =
      subst Pairs (some→≡ h) (record { req = ps.req; res = ps.res; errors = ps.errors })

  -- The moves that leave the three channels alone.
  same-Pairs :
      (s t : Session Any) → t.req ≡ s.req → t.res ≡ s.res → t.errors ≡ s.errors → Pairs s → Pairs t
  same-Pairs s t hq hr he ps = record {
    req = subst Pair (sym hq) ps.req;
    res = subst Pair (sym hr) ps.res;
    errors = subst Pair (sym he) ps.errors;
  }

  complain-Pairs :
      (e : Error) (s t : Session Any) (goes_on : Chan Error → Session Any)
      → after_send s goes_on (send e s.errors) ≡ some t
      → Pairs s
      → ((d : Chan Error) → Pair d → Pairs (goes_on d))
      → Pairs t
  complain-Pairs e s t goes_on h ps on =
      after_send-Pairs s t goes_on e s.errors (send e s.errors) refl h ps ps.errors on

module _ {Any : Type 0} (pb : Anypb Any) where
  on_sotw_response-Pairs :
      (response : DiscoveryResponse Any) (s : Session Any)
      → Pairs s
      → Pairs (on_sotw_response pb response s)
  unfolding on_sotw_response
  on_sotw_response-Pairs response s ps = ground arith

  on_delta_response-Pairs :
      (response : DeltaDiscoveryResponse) (s : Session Any)
      → Pairs s
      → Pairs (on_delta_response pb response s)
  unfolding on_delta_response
  on_delta_response-Pairs response s ps = ground arith

  reader_step-Pairs :
      (p : Reader Any) (reply : Reply Any) (s t : Session Any)
      → reader_step pb p reply s ≡ some t
      → Pairs s
      → Pairs t
  unfolding reader_step
  reader_step-Pairs looping reply s t h ps = ground arith
  reader_step-Pairs receiving eof s t h ps = ground arith
  reader_step-Pairs receiving broken s t h ps = ground arith
  reader_step-Pairs receiving (sotw_response response) s t h ps =
      subst Pairs (else-some s.incremental h) (on_sotw_response-Pairs response s ps)
  reader_step-Pairs receiving (delta_response response) s t h ps =
      subst Pairs (then-some s.incremental h) (on_delta_response-Pairs response s ps)
  reader_step-Pairs (warning e res) reply s t h ps =
      complain-Pairs e s t _ h ps (λ d pd. record { req = ps.req; res = ps.res; errors = pd })
  reader_step-Pairs (forwarding res) reply s t h ps =
      after_send-Pairs s t _ res s.res (send res s.res) refl h ps ps.res
        (λ d pd. record { req = ps.req; res = pd; errors = ps.errors })
  reader_step-Pairs (failing e) reply s t h ps =
      complain-Pairs e s t _ h ps (λ d pd. record { req = ps.req; res = ps.res; errors = pd })
  reader_step-Pairs stopped reply s t h ps = some-of-none h

  range-Pairs :
      (x : Taken (Option Any)) (s t : Session Any)
      → take s.req ≡ x
      → range pb x s ≡ some t
      → Pairs s
      → Pairs t
  unfolding range
  range-Pairs (taken a q) s t took h ps =
      subst Pairs (some→≡ h)
        (record { req = take-Pair a s.req q took ps.req; res = ps.res; errors = ps.errors })
  range-Pairs empty s t took h ps = some-of-none h
  range-Pairs closed_and_empty s t took h ps = ground arith

  writer_step-Pairs :
      (p : Writer) (success : Bool) (s t : Session Any)
      → writer_step pb p success s ≡ some t
      → Pairs s
      → Pairs t
  unfolding writer_step
  writer_step-Pairs ranging success s t h ps = range-Pairs (take s.req) s t refl h ps
  writer_step-Pairs (aborting e) success s t h ps =
      complain-Pairs e s t _ h ps (λ d pd. record { req = ps.req; res = ps.res; errors = pd })
  writer_step-Pairs (resuming e request) success s t h ps =
      complain-Pairs e s t _ h ps (λ d pd. record { req = ps.req; res = ps.res; errors = pd })
  writer_step-Pairs (excusing e) success s t h ps =
      complain-Pairs e s t _ h ps (λ d pd. record { req = ps.req; res = ps.res; errors = pd })
  writer_step-Pairs (regretting e) success s t h ps =
      complain-Pairs e s t _ h ps (λ d pd. record { req = ps.req; res = ps.res; errors = pd })
  writer_step-Pairs p success s t h ps = ground arith

  select-Pairs :
      (x : Taken (Option Any)) (s t : Session Any)
      → take s.res ≡ x
      → select pb x s ≡ some t
      → Pairs s
      → Pairs t
  unfolding select
  select-Pairs (taken a q) s t took h ps =
      subst Pairs (some→≡ h)
        (record { req = ps.req; res = take-Pair a s.res q took ps.res; errors = ps.errors })
  select-Pairs empty s t took h ps = some-of-none h
  select-Pairs closed_and_empty s t took h ps = ground arith

  push-Pairs :
      (a : Option Any) (s t : Session Any) (goes_on : Chan (Option Any) → Session Any)
      → after_send s goes_on (send a s.req) ≡ some t
      → Pairs s
      → ((d : Chan (Option Any)) → Pair d → Pairs (goes_on d))
      → Pairs t
  push-Pairs a s t goes_on h ps on =
      after_send-Pairs s t goes_on a s.req (send a s.req) refl h ps ps.req on

  acker_step-Pairs :
      (p : Acker Any) (s t : Session Any) → acker_step pb p s ≡ some t → Pairs s → Pairs t
  unfolding acker_step
  acker_step-Pairs opening s t h ps =
      push-Pairs s.subscribe_request s t _ h ps
        (λ d pd. record { req = pd; res = ps.res; errors = ps.errors })
  acker_step-Pairs selecting s t h ps = select-Pairs (take s.res) s t refl h ps
  acker_step-Pairs (acking ack) s t h ps =
      push-Pairs ack s t _ h ps (λ d pd. record { req = pd; res = ps.res; errors = ps.errors })
  acker_step-Pairs finished s t h ps = some-of-none h

  take_error-Pairs :
      (x : Taken Error) (s t : Session Any)
      → take s.errors ≡ x
      → take_error pb x s ≡ some t
      → Pairs s
      → Pairs t
  unfolding take_error
  take_error-Pairs (taken a q) s t took h ps =
      subst Pairs (some→≡ h)
        (record { req = ps.req; res = ps.res; errors = take-Pair a s.errors q took ps.errors })
  take_error-Pairs empty s t took h ps = some-of-none h
  take_error-Pairs closed_and_empty s t took h ps = subst Pairs (some→≡ h) ps

  move-Pairs : (e : Event Any) (s t : Session Any) → move pb e s ≡ some t → Pairs s → Pairs t
  unfolding move done_step
  move-Pairs (reader reply) s t h ps = reader_step-Pairs s.reader reply s t h ps
  move-Pairs (writer success) s t h ps = writer_step-Pairs s.writer success s t h ps
  move-Pairs acker s t h ps = acker_step-Pairs s.acker s t h ps
  move-Pairs done s t h ps = ground arith
  move-Pairs (tester_pushes request) s t h ps =
      push-Pairs request s t _ h ps (λ d pd. record { req = pd; res = ps.res; errors = ps.errors })
  move-Pairs (tester_resets request resources removed) s t h ps = ground arith
  move-Pairs tester_takes_error s t h ps = take_error-Pairs (take s.errors) s t refl h ps

  pub step-Pairs : (e : Event Any) (s t : Session Any) → step pb e s ≡ some t → Pairs s → Pairs t
  step-Pairs e s t h ps = move-Pairs e s t (step-move pb e s t h).1 ps
