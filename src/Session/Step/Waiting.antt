-- ===== src/Session/Step/Waiting.antt =====
-- The WaitGroup is never marked done, so a request loop that waits for it waits for ever.
use xds_test_harness.Base.{◌≤◌, ◌<◌, ◌≡◌, ◌∙◌, arith, some, List, [], ◌∷◌, Option-cases, inl, inr}
use xds_test_harness.Proto.{Anypb, DiscoveryResponse, DeltaDiscoveryResponse}
use xds_test_harness.Chan.{send, take}
use xds_test_harness.Session.{
  Session, Reader, looping, receiving, Reply, eof, sotw_response, delta_response, waiting, Event,
  reader, writer, acker, done, tester_pushes, tester_resets, tester_takes_error,
}
use xds_test_harness.Session.Responses.{on_sotw_response, on_delta_response}
use xds_test_harness.Session.Step.{reader_step, step, run}

-- What a move of another goroutine leaves alone.
pub record Stuck {Any : Type 0} (s t : Session Any) : Type 0 where
  pub grows : s.wait ≤ t.wait
  pub still : t.writer ≡ s.writer
  pub open_errors : t.errors.closed ≡ s.errors.closed
  pub not_cancelled : t.cancelled ≡ s.cancelled

module _ {Any : Type 0} (pb : Anypb Any) where
  on_sotw_response-Stuck :
      (response : DiscoveryResponse Any) (s : Session Any)
      → Stuck s (on_sotw_response pb response s)
  unfolding on_sotw_response
  on_sotw_response-Stuck response s = ground arith

  on_delta_response-Stuck :
      (response : DeltaDiscoveryResponse) (s : Session Any)
      → Stuck s (on_delta_response pb response s)
  unfolding on_delta_response
  on_delta_response-Stuck response s = ground arith

  reader_step-Stuck :
      (p : Reader Any) (reply : Reply Any) (s t : Session Any)
      → reader_step pb p reply s ≡ some t
      → Stuck s t
  unfolding reader_step send
  reader_step-Stuck receiving (sotw_response response) s t h =
      ground (arith, on_sotw_response-Stuck response s)
  reader_step-Stuck receiving (delta_response response) s t h =
      ground (arith, on_delta_response-Stuck response s)
  reader_step-Stuck looping eof s t h = ground arith
  reader_step-Stuck p reply s t h = ground arith

  step-Stuck :
      (e : Event Any) (s t : Session Any)
      → step pb e s ≡ some t
      → s.writer ≡ waiting
      → 0 < s.wait
      → Stuck s t
  unfolding step send take
  step-Stuck (reader reply) s t h w k = ground (arith, reader_step-Stuck s.reader reply s t)
  step-Stuck (writer success) s t h w k = ground arith
  step-Stuck acker s t h w k = ground arith
  step-Stuck done s t h w k = ground arith
  step-Stuck (tester_pushes request) s t h w k = ground arith
  step-Stuck (tester_resets request resources removed) s t h w k = ground arith
  step-Stuck tester_takes_error s t h w k = ground arith

  -- From a state in which the request loop waits and the response loop has begun, no interleaving of
  -- the goroutines, the server and the test lets the request loop return: behind any run it waits,
  -- the counter of the WaitGroup is no smaller, and the error channel is not closed nor the context
  -- cancelled by it.
  pub run-waiting :
      (es : List (Event Any)) (s t : Session Any)
      → s.writer ≡ waiting
      → 0 < s.wait
      → run pb es s ≡ some t
      → Stuck s t
  unfolding run
  run-waiting [] s t w k h = ground arith
  run-waiting (e ∷ es) s t w k h = elim (Option-cases (step pb e s)) [
    | inl blocked ↦ ground arith
    | inr (u, moved) ↦
        let one = step-Stuck e s u moved w k in
        let rest = run-waiting es u t (one.still ∙ w) (omega arith) (rw (moved, run) at h) in
        ground arith
  ]
