-- ===== src/Session/Step/History/Kept.antt =====
-- A session holds what its history says.
use xds_test_harness.Base.{
  ◌≡◌, refl, arith, Bool, false, some, List, [], ◌∷◌, ◌++◌, All, Option-cases, some→≡, subst,
  else-some, then-some, inl, inr, true≢false,
}
use xds_test_harness.Text.{Text}
use xds_test_harness.Errors.{Result-cases}
use xds_test_harness.Proto.{Anypb, DiscoveryResponse, DeltaDiscoveryResponse}
use xds_test_harness.Parser.{resource_names}
use xds_test_harness.Chan.{send, take}
use xds_test_harness.Validate.{ValidateResource, Seen}
use xds_test_harness.Session.{
  Session, Reader, receiving, Reply, sotw_response, delta_response, Writer, Acker, Event, reader,
  writer, acker, done, tester_pushes, tester_resets, tester_takes_error,
}
use xds_test_harness.Session.Responses.{
  record_all, unremove_all, on_sotw_response, on_delta_response,
}
use xds_test_harness.Session.Responses.Recorded.{record_all-Enters, lookup-unremove_all}
use xds_test_harness.Session.Step.{
  reader_step, writer_step, acker_step, done_step, take_error, select, range, move, run,
}
use xds_test_harness.Session.Step.Runs.{step-move, run-first, run-panicked}
use xds_test_harness.Session.Step.History.{
  Heard, last_seen, last_removed, or_else, hears_sotw, hears, heard, history, is_reset, Follows,
}

last_seen-append :
    (t j : Text) (hs later : List Heard)
    → last_seen t j (hs ++ later) ≡ or_else (last_seen t j later) (last_seen t j hs)
unfolding last_seen
last_seen-append t j [] later = ground arith
last_seen-append t j (h ∷ hs) later = ground (arith, last_seen-append t j hs later)

last_removed-append :
    (t j : Text) (hs later : List Heard)
    → last_removed t j (hs ++ later) ≡ or_else (last_removed t j later) (last_removed t j hs)
unfolding last_removed
last_removed-append t j [] later = ground arith
last_removed-append t j (h ∷ hs) later = ground (arith, last_removed-append t j hs later)

Follows-append :
    (hs later : List Heard) (m r m₁ r₁ m₂ r₂ : Seen)
    → Follows hs m r m₁ r₁
    → Follows later m₁ r₁ m₂ r₂
    → Follows (hs ++ later) m r m₂ r₂
Follows-append hs later m r m₁ r₁ m₂ r₂ f g = record {
  shown = λ t j. ground (arith, f.shown t j, g.shown t j, last_seen-append t j hs later);
  gone = λ t j. ground (arith, f.gone t j, g.gone t j, last_removed-append t j hs later);
}

Follows-refl : (m r : Seen) → Follows [] m r m r
unfolding last_seen last_removed
Follows-refl m r = record { shown = λ t j. refl; gone = λ t j. refl }

module _ {Any : Type 0} (pb : Anypb Any) where
  abbrev Hears : List Heard → Session Any → Session Any → Type 0
  Hears hs s t =
      Follows hs s.validate.resources s.validate.removed_resources t.validate.resources
        t.validate.removed_resources

  on_sotw_response-Hears :
      (response : DiscoveryResponse Any) (s : Session Any)
      → (on_sotw_response pb response s).panicked ≡ false
      → Hears (hears_sotw pb response) s (on_sotw_response pb response s)
  unfolding on_sotw_response last_seen last_removed
  on_sotw_response-Hears response s fine = elim (Result-cases (resource_names pb response)) [
    | inl (e, unread) ↦ rw (unread, on_sotw_response, hears_sotw) (Follows-refl _ _)
    | inr (names, read) ↦
        let info : ValidateResource = record {
          version = response.version_info;
          nonce = response.nonce;
        } in
        elim (Option-cases (record_all response.type_url info names s.validate.resources)) [
          | inl nil_map ↦ absurd (true≢false (rw (read, nil_map, on_sotw_response) at fine))
          | inr (m', wrote) ↦
              rw (read, wrote, on_sotw_response, hears_sotw)
                (record {
                  shown = λ t j. ground (
                    arith,
                    record_all-Enters response.type_url info names s.validate.resources m' wrote t
                        j,
                  );
                  gone = λ t j. ground arith;
                })
        ]
  ]

  on_delta_response-Hears :
      (response : DeltaDiscoveryResponse) (s : Session Any)
      → (on_delta_response pb response s).panicked ≡ false
      → Hears (hears pb receiving (delta_response response)) s (on_delta_response pb response s)
  unfolding on_delta_response last_seen last_removed hears
  on_delta_response-Hears response s fine =
      let info : ValidateResource = record {
        version = response.system_version_info;
        nonce = response.nonce;
      } in
      let left : ValidateResource = record { version = []; nonce = response.nonce } in
      let kept = unremove_all response.type_url response.resources s.validate.removed_resources in
      elim (Option-cases
        (record_all response.type_url info response.resources s.validate.resources)) [
          | inl nil_map ↦ absurd (true≢false (rw (nil_map, on_delta_response) at fine))
          | inr (m', wrote) ↦
              elim (Option-cases
                (record_all response.type_url left response.removed_resources kept)) [
                  | inl nil_map ↦
                      absurd (true≢false (rw (wrote, nil_map, on_delta_response) at fine))
                  | inr (r', wrote') ↦
                      rw (wrote, wrote', on_delta_response)
                        (record {
                          shown = λ t j. ground (
                            arith,
                            record_all-Enters response.type_url info response.resources
                                s.validate.resources m' wrote t j,
                          );
                          gone = λ t j. ground (
                            arith,
                            record_all-Enters response.type_url left response.removed_resources kept
                                r' wrote' t j,
                            lookup-unremove_all response.type_url t j response.resources
                                s.validate.removed_resources,
                          );
                        })
                ]
        ]

  -- The moves that take in no response.
  same-Hears :
      (s t : Session Any)
      → t.validate.resources ≡ s.validate.resources
      → t.validate.removed_resources ≡ s.validate.removed_resources
      → Hears [] s t
  unfolding last_seen last_removed
  same-Hears s t hm hr = record { shown = λ ty j. rw hm; gone = λ ty j. rw hr }

  reader_step-Hears :
      (p : Reader Any) (reply : Reply Any) (s t : Session Any)
      → reader_step pb p reply s ≡ some t
      → t.panicked ≡ false
      → Hears (hears pb p reply) s t
  unfolding reader_step hears send
  reader_step-Hears receiving (sotw_response response) s t h fine =
      subst (λ (u : Session Any). u.panicked ≡ false → Hears (hears_sotw pb response) s u)
        (else-some s.incremental h) (on_sotw_response-Hears response s) fine
  reader_step-Hears receiving (delta_response response) s t h fine =
      subst
        (λ (u : Session Any).
          u.panicked ≡ false → Hears (hears pb receiving (delta_response response)) s u)
        (then-some s.incremental h) (on_delta_response-Hears response s) fine
  reader_step-Hears p reply s t h fine = same-Hears s t (ground arith) (ground arith)

  writer_step-Hears :
      (p : Writer) (success : Bool) (s t : Session Any)
      → writer_step pb p success s ≡ some t
      → Hears [] s t
  unfolding writer_step range send take
  writer_step-Hears p success s t h = same-Hears s t (ground arith) (ground arith)

  acker_step-Hears : (p : Acker Any) (s t : Session Any) → acker_step pb p s ≡ some t → Hears [] s t
  unfolding acker_step select send take
  acker_step-Hears p s t h = same-Hears s t (ground arith) (ground arith)

  move-Hears :
      (e : Event Any) (s t : Session Any)
      → is_reset e ≡ false
      → move pb e s ≡ some t
      → t.panicked ≡ false
      → Hears (heard pb e s) s t
  unfolding move heard done_step take_error send take
  move-Hears (reader reply) s t kept h fine = reader_step-Hears s.reader reply s t h fine
  move-Hears (writer success) s t kept h fine = writer_step-Hears s.writer success s t h
  move-Hears acker s t kept h fine = acker_step-Hears s.acker s t h
  move-Hears (tester_resets request resources removed) s t kept h fine = absurd (true≢false kept)
  move-Hears done s t kept h fine = same-Hears s t (ground arith) (ground arith)
  move-Hears (tester_pushes request) s t kept h fine = same-Hears s t (ground arith) (ground arith)
  move-Hears tester_takes_error s t kept h fine = same-Hears s t (ground arith) (ground arith)

  -- After any interleaving that has not panicked and in which the test does not start to track anew,
  -- the session holds as seen of each resource what the last response to list it among its own says,
  -- and of the others what it held before: a removal changes nothing there. In the same way it holds as
  -- removed what the last incremental response to list or remove a resource has removed.
  pub run-Follows :
      (es : List (Event Any)) (s t : Session Any)
      → All (λ e. is_reset e ≡ false) es
      → run pb es s ≡ some t
      → t.panicked ≡ false
      → Follows
          (history pb es s)
          s.validate.resources
          s.validate.removed_resources
          t.validate.resources
          t.validate.removed_resources
  unfolding run history
  run-Follows [] s t kept h fine = subst (Hears [] s) (some→≡ h) (Follows-refl _ _)
  run-Follows (e ∷ es) s t kept h fine =
      let (u, moved, rest) = run-first pb e es s t h in
      let first =
        move-Hears e s u kept.0 (step-move pb e s u moved).1 (run-panicked pb es u t rest fine) in
      rw (moved, history)
        (Follows-append _ _ _ _ _ _ _ _ first (run-Follows es u t kept.1 rest fine))
