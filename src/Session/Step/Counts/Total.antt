-- ===== src/Session/Step/Counts/Total.antt =====
-- The balance of the counts along an interleaving, and what the check of the counts then says.
use xds_test_harness.Base.{
  ℕ, ◌+◌, ◌%◌, ◌^◌, ◌≤◌, ◌<◌, ◌≡◌, ◌↔◌, refl, sym, ◌∙◌, arith, false, true≢false, Option, some,
  List, [], ◌∷◌, All, inl, inr, length-append, some→≡, some-of-none, subst, ap, ◌++◌, add-zero,
  zero-add, add_assoc,
}
use xds_test_harness.Proto.{Anypb}
use xds_test_harness.Chan.{Sent, send-cases}
use xds_test_harness.Words.{le64-count}
use xds_test_harness.Validate.{Validate}
use xds_test_harness.Service.{fresh_channels}
use xds_test_harness.Runner.{Runner}
use xds_test_harness.Session.{
  Session, Event, reader, writer, acker, done, tester_pushes, tester_resets, tester_takes_error,
  start,
}
use xds_test_harness.Session.Step.{after_send, move, step, run}
use xds_test_harness.Session.Step.Runs.{step-move, run-first, run-panicked}
use xds_test_harness.Session.Step.Counts.{
  has_left, on_the_way, Counted, is_eof, pushes_of, Same-Counted,
}
use xds_test_harness.Session.Step.Counts.Readers.{reader_step-Counted}
use xds_test_harness.Session.Step.Counts.Writers.{writer_step-Counted}
use xds_test_harness.Session.Step.Counts.Ackers.{
  acker_step-Counted, done_step-Counted, take_error-Counted,
}
use xds_test_harness.Steps.{passed}
use xds_test_harness.Steps.Validation.{never_responds_more}

-- The check of the counts, for counts that differ by what is on its way.
verdict :
    (v : Validate) (way pushes : ℕ)
    → v.request_count + way < 2 ^ 63
    → v.response_count + 1 + pushes < 2 ^ 63
    → (v.request_count + way) % 2 ^ 64 ≡ (v.response_count + 1 + pushes) % 2 ^ 64
    → (never_responds_more v ≡ passed) ↔ (way ≤ pushes)
unfolding never_responds_more
verdict v way pushes few less same =
    rw (le64-count v.request_count v.response_count (omega arith) (omega arith))
      (λ h. ground arith, λ h. ground arith)

module _ {Any : Type 0} (pb : Anypb Any) where
  push-Counted :
      (n : ℕ) (s : Session Any) (a : Option Any)
      → Counted n s
      → Counted (n + 1) (record s { req = record s.req { buffer = s.req.buffer ++ a ∷ [] } })
  push-Counted n s a c = record {
    open_res = c.open_res;
    balanced = λ h k. omega (arith, c.balanced h k, length-append s.req.buffer (a ∷ []));
  }

  move-Counted :
      (e : Event Any) (n : ℕ) (s t : Session Any)
      → is_eof e ≡ false
      → move pb e s ≡ some t
      → Counted n s
      → t.panicked ≡ false
      → Counted (n + pushes_of e) t
  unfolding move
  move-Counted (reader reply) n s t live h c ok =
      rw add-zero (reader_step-Counted pb n s.reader reply s t refl live h c)
  move-Counted (writer success) n s t live h c ok =
      rw add-zero (writer_step-Counted pb n s.writer success s t refl h c)
  move-Counted acker n s t live h c ok = rw add-zero (acker_step-Counted pb n s.acker s t refl h c)
  move-Counted done n s t live h c ok = rw add-zero (done_step-Counted pb n s.acker s t refl h c)
  move-Counted (tester_pushes a) n s t live h c ok = elim (send-cases a s.req) [
    | inl went ↦ subst (Counted (n + 1)) (some→≡ (ap goes (sym went) ∙ h)) (push-Counted n s a c)
    | inr (inl no_room) ↦ some-of-none (ap goes (sym no_room) ∙ h)
    | inr (inr shut) ↦
        absurd
          (true≢false (ap (λ (u : Session Any). u.panicked) (some→≡ (ap goes (sym shut) ∙ h)) ∙ ok))
  ]
    where
      goes : Sent (Option Any) → Option (Session Any)
      goes = after_send s (λ q. record s { req = q })
  move-Counted (tester_resets request resources removed) n s t live h c ok = rw add-zero (
      subst (Counted n) (some→≡ h) (
        Same-Counted n s _
          (record {
            res_closed = refl;
            left = λ l. l;
            way = λ _. refl;
            requests = refl;
            responses = refl;
            panics = refl;
          })
          c))
  move-Counted tester_takes_error n s t live h c ok = rw add-zero (take_error-Counted pb n s t h c)

  -- The requests of the test in an interleaving.
  abbrev pub pushes_in : List (Event Any) → ℕ
  pushes_in [] = 0
  pushes_in (e ∷ es) = pushes_of e + pushes_in es

  step-Counted :
      (e : Event Any) (n : ℕ) (s t : Session Any)
      → is_eof e ≡ false
      → step pb e s ≡ some t
      → Counted n s
      → t.panicked ≡ false
      → Counted (n + pushes_of e) t
  step-Counted e n s t live h c ok = move-Counted e n s t live (step-move pb e s t h).1 c ok

  run-Counted :
      (es : List (Event Any)) (n : ℕ) (s t : Session Any)
      → All (λ e. is_eof e ≡ false) es
      → run pb es s ≡ some t
      → t.panicked ≡ false
      → Counted n s
      → Counted (n + pushes_in es) t
  unfolding run
  run-Counted [] n s t live h ok c = rw add-zero (subst (Counted n) (some→≡ h) c)
  run-Counted (e ∷ es) n s t live h ok c =
      let (u, moved, rest) = run-first pb e es s t h in
      let here = step-Counted e n s u live.0 moved c (run-panicked pb es u t rest ok) in
      subst (λ k. Counted k t) (add_assoc n (pushes_of e) (pushes_in es))
        (run-Counted es (n + pushes_of e) u t live.1 rest ok here)

  module _ {Conn : Type 0} (r : Runner Any Conn) (es : List (Event Any)) (t : Session Any) where
    -- A session is started with equal counts and fresh channels, and run through any interleaving of
    -- its goroutines, the server and the test in which the server does not end the stream, the
    -- request loop has not left, and nothing has panicked. Then the requests counted and the messages
    -- on their way are, modulo 2 ^ 64, the responses counted, the first request, and those of the test.
    pub run-balance :
        r.validate.request_count ≡ r.validate.response_count
        → All (λ e. is_eof e ≡ false) es
        → run pb es (start r fresh_channels) ≡ some t
        → t.panicked ≡ false
        → has_left t.writer ≡ false
        → (t.validate.request_count + on_the_way t) % 2 ^ 64
          ≡ (t.validate.response_count + 1 + pushes_in es) % 2 ^ 64
    unfolding start
    run-balance same live h ok stays =
        rw zero-add at (run-Counted es 0 (start r fresh_channels) t live h ok begin).balanced stays
          ok
      where
        begin : Counted 0 (start r fresh_channels)
        begin = record { open_res = refl; balanced = λ _ _. omega (arith, same) }

    -- A session is started with equal counts and fresh channels, and run through any interleaving in
    -- which the server does not end the stream, the request loop has not left, nothing has panicked,
    -- and the two sums of counts stay below 2 ^ 63. Then the check of superfluous responses passes
    -- exactly where no more messages are on their way than the test has sent requests of its own.
    pub run-never_responds_more :
        r.validate.request_count ≡ r.validate.response_count
        → All (λ e. is_eof e ≡ false) es
        → run pb es (start r fresh_channels) ≡ some t
        → t.panicked ≡ false
        → has_left t.writer ≡ false
        → t.validate.request_count + on_the_way t < 2 ^ 63
        → t.validate.response_count + 1 + pushes_in es < 2 ^ 63
        → (never_responds_more t.validate ≡ passed) ↔ (on_the_way t ≤ pushes_in es)
    unfolding never_responds_more
    run-never_responds_more same live h ok stays few less =
        verdict t.validate (on_the_way t) (pushes_in es) few less (run-balance same live h ok stays)
