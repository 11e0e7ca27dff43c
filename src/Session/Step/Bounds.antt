-- ===== src/Session/Step/Bounds.antt =====
-- How far the counts of requests and responses can be apart: as far as the channels have room.
use xds_test_harness.Base.{◌+◌, ◌^◌, ◌≤◌, ◌<◌, ◌≡◌, refl, arith, false, some, List, length, All}
use xds_test_harness.Proto.{Anypb}
use xds_test_harness.Service.{fresh_channels}
use xds_test_harness.Runner.{Runner}
use xds_test_harness.Session.{Session, Reader, Writer, Acker, Event, start}
use xds_test_harness.Session.Step.{run}
use xds_test_harness.Session.Step.Buffers.{Pairs, step-Pairs}
use xds_test_harness.Session.Step.Runs.{run-keeps}
use xds_test_harness.Session.Step.Counts.{
  in_reader, in_writer, in_acker, has_left, on_the_way, is_eof,
}
use xds_test_harness.Session.Step.Counts.Total.{pushes_in, run-balance}

in_writer-one : (p : Writer) → in_writer p ≤ 1
in_writer-one p = ground arith

module _ {Any : Type 0} where
  in_reader-one : (p : Reader Any) → in_reader p ≤ 1
  in_reader-one p = ground arith

  in_acker-one : (p : Acker Any) → in_acker p ≤ 1
  in_acker-one p = ground arith

  on_the_way-Pairs : (s : Session Any) → Pairs s → on_the_way s ≤ 7
  on_the_way-Pairs s ps = omega (
    arith,
    in_reader-one s.reader,
    in_writer-one s.writer,
    in_acker-one s.acker,
    ps.res.held,
    ps.req.held,
  )

module _ {Any Conn : Type 0} (pb : Anypb Any) (r : Runner Any Conn) (es : List (Event Any))
    (t : Session Any) where
  start-Pairs : Pairs (start r (fresh_channels {Any = Any}))
  unfolding start
  start-Pairs = record {
    req = record { room = refl; held = omega arith };
    res = record { room = refl; held = omega arith };
    errors = record { room = refl; held = omega arith };
  }

  -- A session that is started on fresh channels has, after any interleaving of its goroutines, the
  -- server and the test, at most two entries in each of its channels.
  run-held :
      run pb es (start r fresh_channels) ≡ some t
      → (length t.req.buffer ≤ 2) × (length t.res.buffer ≤ 2) × (length t.errors.buffer ≤ 2)
  run-held h =
      let ps = run-keeps pb Pairs (step-Pairs pb) es _ t h start-Pairs in
      (ps.req.held, ps.res.held, ps.errors.held)

  -- A session is started with equal counts and fresh channels, and run through any interleaving in
  -- which the server does not end the stream, the request loop has not left, nothing has panicked,
  -- and the counts stay seven below 2 ^ 64. Then the first request, those of the test and the
  -- responses counted are together at least the requests counted, and at most seven more.
  pub run-bounds :
      r.validate.request_count ≡ r.validate.response_count
      → All (λ e. is_eof e ≡ false) es
      → run pb es (start r fresh_channels) ≡ some t
      → t.panicked ≡ false
      → has_left t.writer ≡ false
      → t.validate.request_count + 7 < 2 ^ 64
      → t.validate.response_count + 1 + pushes_in pb es < 2 ^ 64
      → (t.validate.request_count ≤ t.validate.response_count + 1 + pushes_in pb es)
        × (t.validate.response_count + 1 + pushes_in pb es ≤ t.validate.request_count + 7)
  run-bounds same live h ok stays few less =
      let ps = run-keeps pb Pairs (step-Pairs pb) es _ t h start-Pairs in
      omega (arith, run-balance pb r es t same live h ok stays, on_the_way-Pairs t ps)
