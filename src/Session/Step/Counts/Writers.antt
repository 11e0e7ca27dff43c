-- ===== src/Session/Step/Counts/Writers.antt =====
-- The moves of the request loop keep the balance of the counts.
use xds_test_harness.Base.{
  ℕ, ◌≡◌, refl, sym, ◌∙◌, arith, Bool, true, false, Option, some, List, ◌∷◌, if◌then◌else◌, ◌==◌,
  subst, ap, some→≡, some-of-none, then-some, inl, inr, length,
}
use xds_test_harness.Words.{inc64}
use xds_test_harness.Errors.{Error, send_failed}
use xds_test_harness.Proto.{Anypb}
use xds_test_harness.Chan.{Chan, take, take-cases, close}
use xds_test_harness.Session.{
  Session, Request, Writer, ranging, aborting, resuming, sending, excusing, counting, closing,
  regretting, waiting, returning, returned,
}
use xds_test_harness.Session.Step.{sotw_request, delta_request, range, writer_step}
use xds_test_harness.Session.Step.Counts.{
  in_writer, has_left, Counted, Same, Same-Counted, after_send-Counted,
}

module _ {Any : Type 0} (pb : Anypb Any) (n : ℕ) where
  -- The moves of the writer.
  take-Same :
      (s : Session Any) (a : Option Any) (rest : List (Option Any)) (w : Writer)
      → s.writer ≡ ranging
      → s.req.buffer ≡ a ∷ rest
      → (has_left w ≡ false → in_writer w ≡ 1)
      → Same s (record s { req = record s.req { buffer = rest }; writer = w })
  take-Same s a rest w at_p full_req one = ground (arith, ap length full_req)

  -- From one position to another with as much in the writer's hands; the other parts of the state
  -- that change are the errors, what was sent, and the context.
  pass-Same :
      (s : Session Any) (p w : Writer) (q : Chan Error) (requests : List Request) (cancelled : Bool)
      → s.writer ≡ p
      → (has_left w ≡ false → (has_left p ≡ false) × (in_writer w ≡ in_writer p))
      → Same s (record s { errors = q; sent = requests; cancelled = cancelled; writer = w })
  pass-Same s p w q requests cancelled at_p one = ground arith

  count-Counted :
      (s : Session Any)
      → s.writer ≡ counting
      → Counted n s
      → Counted n (record s {
        validate = record s.validate { request_count = inc64 s.validate.request_count };
        writer = ranging;
      })
  count-Counted s at_p c = record {
    open_res = c.open_res;
    balanced = λ h k. ground (arith, c.balanced (rw at_p) k);
  }

  range-Counted :
      (s t : Session Any)
      → s.writer ≡ ranging
      → range pb (take s.req) s ≡ some t
      → Counted n s
      → Counted n t
  unfolding range
  range-Counted s t at_p h c = elim (take-cases s.req) [
    | inl idle ↦ some-of-none (ap (λ x. range pb x s) (sym idle) ∙ h)
    | inr (inl (_, ended)) ↦ subst (Counted n) (some→≡ (ap (λ x. range pb x s) (sym ended) ∙ h)) (
        Same-Counted n s _
          (pass-Same s ranging closing s.errors s.sent s.cancelled at_p (λ l. (refl, refl))) c)
    | inr (inr (a, rest, some_left, took)) ↦
        subst (Counted n) (some→≡ (ap (λ x. range pb x s) (sym took) ∙ h))
          (Same-Counted n s _ (take-Same s a rest _ at_p some_left (in_hand a)) c)
  ]
    where
      in_hand :
          (a : Option Any)
          → has_left (if s.incremental then delta_request pb a s else sotw_request pb a s) ≡ false
          → in_writer (if s.incremental then delta_request pb a s else sotw_request pb a s) ≡ 1
      in_hand a l = ground arith

  pub writer_step-Counted :
      (p : Writer) (success : Bool) (s t : Session Any)
      → s.writer ≡ p
      → writer_step pb p success s ≡ some t
      → Counted n s
      → Counted n t
  unfolding writer_step
  writer_step-Counted ranging success s t at_p h c = range-Counted s t at_p h c
  writer_step-Counted (aborting e) success s t at_p h c =
      after_send-Counted n s t _ e s.errors h c (
        Same-Counted n s _ (pass-Same s (aborting e) returning _ s.sent s.cancelled at_p (λ l. cc))
          c)
  writer_step-Counted (resuming e request) success s t at_p h c =
      after_send-Counted n s t _ e s.errors h c (
        Same-Counted n s _
          (pass-Same s (resuming e request) (sending request) _ s.sent s.cancelled at_p
            (λ l. (refl, refl)))
          c)
  writer_step-Counted (sending request) true s t at_p h c = subst (Counted n) (some→≡ h) (
      Same-Counted n s _
        (pass-Same s (sending request) counting s.errors (request ∷ s.sent) s.cancelled at_p
          (λ l. (refl, refl)))
        c)
  writer_step-Counted (sending request) false s t at_p h c = subst (Counted n) (some→≡ h) (
      Same-Counted n s _
        (pass-Same s (sending request) (excusing send_failed) s.errors s.sent s.cancelled at_p
          (λ l. (refl, refl)))
        c)
  writer_step-Counted (excusing e) success s t at_p h c =
      after_send-Counted n s t _ e s.errors h c (
        Same-Counted n s _
          (pass-Same s (excusing e) counting _ s.sent s.cancelled at_p (λ l. (refl, refl))) c)
  writer_step-Counted counting success s t at_p h c =
      subst (Counted n) (some→≡ h) (count-Counted s at_p c)
  writer_step-Counted closing true s t at_p h c = subst (Counted n) (some→≡ h) (
      Same-Counted n s _
        (pass-Same s closing waiting s.errors s.sent s.cancelled at_p (λ l. (refl, refl))) c)
  writer_step-Counted closing false s t at_p h c = subst (Counted n) (some→≡ h) (
      Same-Counted n s _
        (pass-Same s closing (regretting send_failed) s.errors s.sent s.cancelled at_p
          (λ l. (refl, refl)))
        c)
  writer_step-Counted (regretting e) success s t at_p h c =
      after_send-Counted n s t _ e s.errors h c (
        Same-Counted n s _
          (pass-Same s (regretting e) waiting _ s.sent s.cancelled at_p (λ l. (refl, refl))) c)
  writer_step-Counted waiting success s t at_p h c = subst (Counted n) (then-some (s.wait == 0) h) (
      Same-Counted n s _ (pass-Same s waiting returning s.errors s.sent s.cancelled at_p (λ l. cc))
        c)
  writer_step-Counted returning success s t at_p h c = subst (Counted n) (some→≡ h) (
      Same-Counted n s _
        (pass-Same s returning returned (close s.errors) s.sent true at_p (λ l. cc)) c)
  writer_step-Counted returned success s t at_p h c = some-of-none h
