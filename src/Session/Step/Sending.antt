-- ===== src/Session/Step/Sending.antt =====
-- What goes out on a stream is of the stream's kind.
use xds_test_harness.Base.{◌≡◌, refl, arith, Bool, true, false, some, List, [], ◌∷◌, All}
use xds_test_harness.Proto.{Anypb}
use xds_test_harness.Chan.{send, take}
use xds_test_harness.Service.{Channels}
use xds_test_harness.Runner.{Runner}
use xds_test_harness.Session.{
  Session, Request, sotw, delta, Reader, looping, receiving, Reply, eof, broken, sotw_response,
  delta_response, Writer, ranging, aborting, resuming, sending, Acker, Event, reader, writer, acker,
  done, tester_pushes, tester_resets, tester_takes_error, start,
}
use xds_test_harness.Session.Responses.{on_sotw_response, on_delta_response}
use xds_test_harness.Session.Step.{
  reader_step, writer_step, acker_step, done_step, take_error, select, range, sotw_request,
  delta_request, move, run,
}
use xds_test_harness.Session.Step.Runs.{step-move, run-keeps}

abbrev pub is_delta : Request → Bool
is_delta (sotw request) = false
is_delta (delta request) = true

-- The request in the writer's hands.
abbrev pub to_be_sent : Writer → List Request
to_be_sent (resuming e request) = request ∷ []
to_be_sent (sending request) = request ∷ []
to_be_sent _ = []

abbrev pub OfKind : Bool → List Request → Type 0
OfKind incremental requests = All (λ q. is_delta q ≡ incremental) requests

pub record Typed {Any : Type 0} (incremental : Bool) (s : Session Any) : Type 0 where
  pub kind : s.incremental ≡ incremental
  pub in_hand : OfKind incremental (to_be_sent s.writer)
  pub gone : OfKind incremental s.sent

module _ {Any : Type 0} (pb : Anypb Any) {b : Bool} where
  reader_step-Typed :
      (p : Reader Any) (reply : Reply Any) (s t : Session Any)
      → reader_step pb p reply s ≡ some t
      → Typed b s
      → Typed b t
  unfolding reader_step on_sotw_response on_delta_response send
  reader_step-Typed looping reply s t h ty = ground arith
  reader_step-Typed receiving eof s t h ty = ground arith
  reader_step-Typed receiving broken s t h ty = ground arith
  reader_step-Typed receiving (sotw_response response) s t h ty = ground arith
  reader_step-Typed receiving (delta_response response) s t h ty = ground arith
  reader_step-Typed p reply s t h ty = ground arith

  acker_step-Typed :
      (p : Acker Any) (s t : Session Any) → acker_step pb p s ≡ some t → Typed b s → Typed b t
  unfolding acker_step send take select
  acker_step-Typed p s t h ty = ground arith

  range-Typed : (s t : Session Any) → range pb (take s.req) s ≡ some t → Typed b s → Typed b t
  unfolding range take sotw_request delta_request
  range-Typed s t h ty = ground arith

  writer_step-Typed :
      (p : Writer) (success : Bool) (s t : Session Any)
      → s.writer ≡ p
      → writer_step pb p success s ≡ some t
      → Typed b s
      → Typed b t
  unfolding writer_step send
  writer_step-Typed ranging success s t at_p h ty = range-Typed s t h ty
  writer_step-Typed (aborting e) success s t at_p h ty = ground arith
  writer_step-Typed (resuming e request) success s t at_p h ty = ground (arith, ty.in_hand)
  writer_step-Typed (sending request) true s t at_p h ty = ground (arith, ty.in_hand)
  writer_step-Typed (sending request) false s t at_p h ty = ground arith
  writer_step-Typed p success s t at_p h ty = ground arith

  move-Typed : (e : Event Any) (s t : Session Any) → move pb e s ≡ some t → Typed b s → Typed b t
  unfolding move done_step take_error send take
  move-Typed (reader reply) s t h ty = reader_step-Typed s.reader reply s t h ty
  move-Typed (writer success) s t h ty = writer_step-Typed s.writer success s t refl h ty
  move-Typed acker s t h ty = acker_step-Typed s.acker s t h ty
  move-Typed done s t h ty = ground arith
  move-Typed (tester_pushes request) s t h ty = ground arith
  move-Typed (tester_resets request resources removed) s t h ty = ground arith
  move-Typed tester_takes_error s t h ty = ground arith

module _ {Any : Type 0} (pb : Anypb Any) where
  module _ {Conn : Type 0} (r : Runner Any Conn) (ch : Channels Any) (es : List (Event Any))
      (t : Session Any) where
    -- After any interleaving from the start of a session, every request that was sent is of the kind
    -- of its stream: incremental on an incremental stream, and state of the world on any other.
    pub run-sent-OfKind : run pb es (start r ch) ≡ some t → OfKind r.incremental t.sent
    unfolding start
    run-sent-OfKind h =
        (run-keeps pb (Typed r.incremental)
          (λ e s u k ty. move-Typed pb e s u (step-move pb e s u k).1 ty) es (start r ch) t h
          (record { kind = refl; in_hand = tt; gone = tt })).gone
