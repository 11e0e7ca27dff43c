-- ===== src/Session/Step/Counts/Readers.antt =====
-- The moves of the response loop keep the balance of the counts.
use xds_test_harness.Base.{
  ℕ, ◌+◌, ◌≡◌, refl, arith, false, Option, none, some, [], ◌∷◌, Option-cases, ◌++◌, subst, some→≡,
  some-of-none, else-some, then-some, inl, inr, length-append,
}
use xds_test_harness.Words.{inc64}
use xds_test_harness.Errors.{Error, recv_failed, Result-cases}
use xds_test_harness.Parser.{resource_names}
use xds_test_harness.Validate.{Seen}
use xds_test_harness.Runner.Requests.{pack}
use xds_test_harness.Proto.{Anypb, DiscoveryResponse, DeltaDiscoveryResponse}
use xds_test_harness.Chan.{Chan}
use xds_test_harness.Session.{
  Session, Reader, looping, receiving, warning, forwarding, failing, stopped, Reply, eof, broken,
  sotw_response, delta_response, reader,
}
use xds_test_harness.Session.Responses.{record_all, forward, on_sotw_response, on_delta_response}
use xds_test_harness.Session.Step.{reader_step}
use xds_test_harness.Session.Step.Counts.{
  in_reader, Counted, is_eof, Same, Same-Counted, after_send-Counted,
}

in_reader-forward : {Any : Type 0} (p : Option Any × Option Error) → in_reader (forward p) ≡ 1
in_reader-forward (res, none) = refl
in_reader-forward (res, some e) = refl

module _ {Any : Type 0} (pb : Anypb Any) (n : ℕ) where
  -- A response that is counted and handed on is on its way.
  received-Counted :
      (m removed : Seen) (r : Reader Any) (s : Session Any)
      → in_reader r ≡ 1
      → s.reader ≡ receiving
      → Counted n s
      → Counted n (record s {
        validate = record s.validate {
          resources = m;
          removed_resources = removed;
          response_count = inc64 s.validate.response_count;
        };
        reader = r;
      })
  received-Counted m removed r s one at_recv c = record {
    open_res = c.open_res;
    balanced = λ h k. ground (arith, c.balanced h k);
  }

  on_sotw_response-Counted :
      (response : DiscoveryResponse Any) (s : Session Any)
      → s.reader ≡ receiving
      → Counted n s
      → Counted n (on_sotw_response pb response s)
  unfolding on_sotw_response
  on_sotw_response-Counted response s r c = elim (Result-cases (resource_names pb response)) [
    | inl (e, bad) ↦
        rw (bad, on_sotw_response)
          (record { open_res = c.open_res; balanced = λ h k. ground (arith, c.balanced h k) })
    | inr (names, good) ↦
        elim (Option-cases (
          record_all response.type_url
            (record { version = response.version_info; nonce = response.nonce }) names
            s.validate.resources)) [
              | inl nil_map ↦
                  rw (good, nil_map, on_sotw_response)
                    (record { open_res = c.open_res; balanced = λ h k. cc })
              | inr (m, written) ↦
                  rw (good, written, on_sotw_response)
                    (received-Counted m s.validate.removed_resources _ s
                      (in_reader-forward (pack pb.response response)) r c)
            ]
  ]

  on_delta_response-Counted :
      (response : DeltaDiscoveryResponse) (s : Session Any)
      → s.reader ≡ receiving
      → Counted n s
      → Counted n (on_delta_response pb response s)
  unfolding on_delta_response
  on_delta_response-Counted response s r c = ground arith

  -- The moves of the reader.
  add-Same :
      (s : Session Any)
      → s.reader ≡ looping
      → Same s (record s { wait = s.wait + 1; reader = receiving })
  add-Same s at_p = ground arith

  break-Same :
      (s : Session Any) (e : Error)
      → s.reader ≡ receiving
      → Same s (record s { reader = failing e })
  break-Same s e at_p = ground arith

  warn-Same :
      (s : Session Any) (e : Error) (res : Option Any) (q : Chan Error)
      → s.reader ≡ warning e res
      → Same s (record s { errors = q; reader = forwarding res })
  warn-Same s e res q at_p = ground arith

  forward-Same :
      (s : Session Any) (res : Option Any)
      → s.reader ≡ forwarding res
      → Same s
          (record s { res = record s.res { buffer = s.res.buffer ++ res ∷ [] }; reader = looping })
  forward-Same s res at_p = ground (arith, length-append s.res.buffer (res ∷ []))

  fail-Same :
      (s : Session Any) (e : Error) (q : Chan Error)
      → s.reader ≡ failing e
      → Same s (record s { errors = q; reader = stopped })
  fail-Same s e q at_p = ground arith

  pub reader_step-Counted :
      (p : Reader Any) (reply : Reply Any) (s t : Session Any)
      → s.reader ≡ p
      → is_eof (reader reply) ≡ false
      → reader_step pb p reply s ≡ some t
      → Counted n s
      → Counted n t
  unfolding reader_step
  reader_step-Counted looping reply s t at_p live h c =
      subst (Counted n) (some→≡ h) (Same-Counted n s _ (add-Same s at_p) c)
  reader_step-Counted receiving eof s t at_p live h c = cc
  reader_step-Counted receiving broken s t at_p live h c =
      subst (Counted n) (some→≡ h) (Same-Counted n s _ (break-Same s recv_failed at_p) c)
  reader_step-Counted receiving (sotw_response response) s t at_p live h c =
      subst (Counted n) (else-some s.incremental h) (on_sotw_response-Counted response s at_p c)
  reader_step-Counted receiving (delta_response response) s t at_p live h c =
      subst (Counted n) (then-some s.incremental h) (on_delta_response-Counted response s at_p c)
  reader_step-Counted (warning e res) reply s t at_p live h c =
      after_send-Counted n s t _ e s.errors h c (Same-Counted n s _ (warn-Same s e res _ at_p) c)
  reader_step-Counted (forwarding res) reply s t at_p live h c =
      after_send-Counted n s t _ res s.res h c (Same-Counted n s _ (forward-Same s res at_p) c)
  reader_step-Counted (failing e) reply s t at_p live h c =
      after_send-Counted n s t _ e s.errors h c (Same-Counted n s _ (fail-Same s e _ at_p) c)
  reader_step-Counted stopped reply s t at_p live h c = some-of-none h
