-- ===== src/Session/Step/Counts/Ackers.antt =====
-- The moves of Ack and of the test keep the balance of the counts.
use xds_test_harness.Base.{
  ℕ, ◌≡◌, refl, sym, ◌∙◌, arith, true≢false, Option, some, List, [], ◌∷◌, ◌++◌, subst, ap, some→≡,
  some-of-none, inl, inr, length, length-append,
}
use xds_test_harness.Proto.{Anypb}
use xds_test_harness.Chan.{take, take-cases, close}
use xds_test_harness.Session.{Session, Acker, opening, selecting, acking, finished}
use xds_test_harness.Session.Step.{select, acker_step, done_step, take_error}
use xds_test_harness.Session.Step.Counts.{in_acker, Counted, Same, Same-Counted, after_send-Counted}

module _ {Any : Type 0} (pb : Anypb Any) (n : ℕ) where
  -- The moves of Ack.
  ack-Same :
      (s : Session Any) (p : Acker Any) (a : Option Any)
      → s.acker ≡ p
      → in_acker p ≡ 1
      → Same s
          (record s { req = record s.req { buffer = s.req.buffer ++ a ∷ [] }; acker = selecting })
  ack-Same s p a at_p one = ground (arith, length-append s.req.buffer (a ∷ []))

  respond-Same :
      (s : Session Any) (a ack : Option Any) (rest : List (Option Any))
      → s.acker ≡ selecting
      → s.res.buffer ≡ a ∷ rest
      → Same s (record s { res = record s.res { buffer = rest }; acker = acking ack })
  respond-Same s a ack rest at_p some_left = ground (arith, ap length some_left)

  select-Counted :
      (s t : Session Any)
      → s.acker ≡ selecting
      → select pb (take s.res) s ≡ some t
      → Counted n s
      → Counted n t
  unfolding select
  select-Counted s t at_p h c = elim (take-cases s.res) [
    | inl idle ↦ some-of-none (ap (λ x. select pb x s) (sym idle) ∙ h)
    | inr (inl (shut, _)) ↦ absurd (true≢false (sym shut ∙ c.open_res))
    | inr (inr (a, rest, some_left, took)) ↦
        subst (Counted n) (some→≡ (ap (λ x. select pb x s) (sym took) ∙ h))
          (Same-Counted n s _ (respond-Same s a _ rest at_p some_left) c)
  ]

  pub acker_step-Counted :
      (p : Acker Any) (s t : Session Any)
      → s.acker ≡ p
      → acker_step pb p s ≡ some t
      → Counted n s
      → Counted n t
  unfolding acker_step
  acker_step-Counted opening s t at_p h c =
      after_send-Counted n s t _ s.subscribe_request s.req h c
        (Same-Counted n s _ (ack-Same s opening s.subscribe_request at_p refl) c)
  acker_step-Counted selecting s t at_p h c = select-Counted s t at_p h c
  acker_step-Counted (acking ack) s t at_p h c =
      after_send-Counted n s t _ ack s.req h c
        (Same-Counted n s _ (ack-Same s (acking ack) ack at_p refl) c)
  acker_step-Counted finished s t at_p h c = some-of-none h

  pub done_step-Counted :
      (p : Acker Any) (s t : Session Any)
      → s.acker ≡ p
      → done_step pb p s ≡ some t
      → Counted n s
      → Counted n t
  unfolding done_step
  done_step-Counted selecting s t at_p h c =
      subst (Counted n) (some→≡ h) (Same-Counted n s _ (done-Same at_p) c)
    where
      done-Same : s.acker ≡ selecting → Same s (record s { req = close s.req; acker = finished })
      done-Same e = ground arith
  done_step-Counted opening s t at_p h c = some-of-none h
  done_step-Counted (acking ack) s t at_p h c = some-of-none h
  done_step-Counted finished s t at_p h c = some-of-none h

  pub take_error-Counted :
      (s t : Session Any) → take_error pb (take s.errors) s ≡ some t → Counted n s → Counted n t
  unfolding take_error
  take_error-Counted s t h c = elim (take-cases s.errors) [
    | inl idle ↦ some-of-none (ap (λ x. take_error pb x s) (sym idle) ∙ h)
    | inr (inl (_, ended)) ↦
        subst (Counted n) (some→≡ (ap (λ x. take_error pb x s) (sym ended) ∙ h)) c
    | inr (inr (a, rest, _, took)) ↦
        subst (Counted n) (some→≡ (ap (λ x. take_error pb x s) (sym took) ∙ h)) (
          Same-Counted n s _
            (record {
              res_closed = refl;
              left = λ l. l;
              way = λ _. refl;
              requests = refl;
              responses = refl;
              panics = refl;
            })
            c)
  ]
