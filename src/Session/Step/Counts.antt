-- ===== src/Session/Step/Counts.antt =====
-- Every response is one more message on its way to a request: the counts of requests and responses
-- differ by what is on its way and by what the test has asked for.
pub mod Readers
pub mod Writers
pub mod Ackers
pub mod Total
use xds_test_harness.Base.{
  ℕ, suc, ◌+◌, ◌%◌, ◌^◌, ◌≤◌, ◌<◌, ◌≡◌, refl, sym, ◌∙◌, arith, Bool, true, false, true≢false,
  Option, none, some, List, [], ◌∷◌, if◌then◌else◌, ◌==◌, Option-cases, List-cases, Bool-cases, ltb,
  ◌++◌, subst, ap, some→≡, some-of-none, else-some, then-some, inl, inr, length, length-append,
}
use xds_test_harness.Words.{inc64}
use xds_test_harness.Errors.{Error, recv_failed, send_failed, Result-cases}
use xds_test_harness.Parser.{resource_names}
use xds_test_harness.Validate.{Seen}
use xds_test_harness.Runner.Requests.{pack}
use xds_test_harness.Proto.{Anypb, DiscoveryResponse, DeltaDiscoveryResponse}
use xds_test_harness.Chan.{Chan, send, send-cases, take, take-cases, close}
use xds_test_harness.Session.{
  Session, Reader, looping, receiving, warning, forwarding, failing, stopped, Reply, eof, broken,
  sotw_response, delta_response, Request, Writer, ranging, aborting, resuming, sending, excusing,
  counting, closing, regretting, waiting, returning, returned, Acker, opening, selecting, acking,
  finished, Event, reader, writer, acker, done, tester_pushes, tester_resets, tester_takes_error,
}
use xds_test_harness.Session.Responses.{record_all, forward, on_sotw_response, on_delta_response}
use xds_test_harness.Session.Step.{
  after_send, reader_step, sotw_request, delta_request, range, writer_step, select, acker_step,
  done_step, take_error, step, run,
}

-- A response that the reader has still to hand on.
abbrev pub in_reader : {Any : Type 0} → Reader Any → ℕ
in_reader (warning e res) = 1
in_reader (forwarding res) = 1
in_reader _ = 0

-- A request that the writer has taken and not counted.
abbrev pub in_writer : Writer → ℕ
in_writer (resuming e request) = 1
in_writer (sending request) = 1
in_writer (excusing e) = 1
in_writer counting = 1
in_writer _ = 0

-- A request that Ack has still to hand on.
abbrev pub in_acker : {Any : Type 0} → Acker Any → ℕ
in_acker opening = 1
in_acker (acking ack) = 1
in_acker _ = 0

-- The request loop has dropped a request that it could not read, or has ended.
abbrev pub has_left : Writer → Bool
has_left (aborting e) = true
has_left returning = true
has_left returned = true
has_left _ = false

-- The messages that are on their way to the server.
abbrev pub on_the_way : {Any : Type 0} → Session Any → ℕ
on_the_way s =
    in_reader s.reader
    + length s.res.buffer
    + in_acker s.acker
    + length s.req.buffer
    + in_writer s.writer

-- With `pushes` requests of the test beside the first one.
pub record Counted {Any : Type 0} (pushes : ℕ) (s : Session Any) : Type 0 where
  pub open_res : s.res.closed ≡ false
  pub balanced :
      has_left s.writer ≡ false
      → s.panicked ≡ false
      → (s.validate.request_count + on_the_way s) % 2 ^ 64
        ≡ (s.validate.response_count + 1 + pushes) % 2 ^ 64

abbrev pub is_eof : {Any : Type 0} → Event Any → Bool
is_eof (reader eof) = true
is_eof _ = false

abbrev pub pushes_of : {Any : Type 0} → Event Any → ℕ
pushes_of (tester_pushes request) = 1
pushes_of _ = 0

module _ {Any : Type 0} where
  -- A move that counts nothing and leaves as much on the way.
  pub record Same (s t : Session Any) : Type 0 where
    pub res_closed : t.res.closed ≡ s.res.closed
    pub left : has_left t.writer ≡ false → has_left s.writer ≡ false
    pub way : has_left t.writer ≡ false → on_the_way t ≡ on_the_way s
    pub requests : t.validate.request_count ≡ s.validate.request_count
    pub responses : t.validate.response_count ≡ s.validate.response_count
    pub panics : t.panicked ≡ s.panicked

module _ {Any : Type 0} (n : ℕ) where
  pub Same-Counted : (s t : Session Any) → Same s t → Counted n s → Counted n t
  Same-Counted s t m c = record {
    open_res = m.res_closed ∙ c.open_res;
    balanced = λ h k.
        omega (arith, c.balanced (m.left h) (sym m.panics ∙ k), m.way h, m.requests, m.responses);
  }

  panicked-Counted : (s : Session Any) → Counted n s → Counted n (record s { panicked = true })
  panicked-Counted s c = record { open_res = c.open_res; balanced = λ h k. cc }

  pub after_send-Counted :
      {A : Type 0} (s t : Session Any) (goes_on : Chan A → Session Any) (a : A) (c : Chan A)
      → after_send s goes_on (send a c) ≡ some t
      → Counted n s
      → Counted n (goes_on (record c { buffer = c.buffer ++ a ∷ [] }))
      → Counted n t
  after_send-Counted s t goes_on a c h before after = elim (send-cases a c) [
    | inl went ↦ subst (Counted n) (some→≡ (ap (after_send s goes_on) (sym went) ∙ h)) after
    | inr (inl no_room) ↦ some-of-none (ap (after_send s goes_on) (sym no_room) ∙ h)
    | inr (inr shut) ↦
        subst (Counted n) (some→≡ (ap (after_send s goes_on) (sym shut) ∙ h))
          (panicked-Counted s before)
  ]
