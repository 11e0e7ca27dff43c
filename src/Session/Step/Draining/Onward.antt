-- ===== src/Session/Step/Draining/Onward.antt =====
-- Each move that brings a message nearer to the server.
use xds_test_harness.Base.{
  ◌≡◌, arith, Bool, true, false, Option, some, List, [], ◌∷◌, ◌++◌, append-nil, append_assoc, refl,
  ap, if◌then◌else◌, Option-cases, ◌⊎◌, inl, inr,
}
use xds_test_harness.Words.{inc64}
use xds_test_harness.Proto.{Anypb, unmarshal_to}
use xds_test_harness.Chan.{send, take}
use xds_test_harness.Runner.Requests.{new_ack}
use xds_test_harness.Session.{
  Session, Reader, Writer, Acker, Request, sotw, delta, looping, forwarding, broken, ranging,
  sending, counting, opening, selecting, acking, Event, reader, writer, acker,
}
use xds_test_harness.Session.Step.{
  reader_step, writer_step, acker_step, select, range, sotw_request, delta_request, move, step,
}
use xds_test_harness.Session.Step.Draining.{
  readable, Flowing, Moves, read_request, read_ack, acks, of_reader, queue, to_send, onto,
  by_itself,
}

module _ {Any : Type 0} (pb : Anypb Any) where
  abbrev pub Next : Session Any → Type 0
  Next s =
      (e : Event Any) × (t : Session Any) × (step pb e s ≡ some t)
      × Moves pb s t
      × (by_itself e ≡ true)
      × (onto t.sent (to_send pb t) ≡ onto s.sent (to_send pb s))

  module _ (incremental : Bool) (sub : Option Any) (w : Writer) (req res : List (Option Any))
      (acking_at : Acker Any) (reading_at : Reader Any) where
    queue-ranging :
        {a : Option Any} {rest : List (Option Any)} {q : Request}
        → w ≡ ranging
        → req ≡ a ∷ rest
        → read_request pb incremental a ≡ q ∷ []
        → queue pb incremental sub (sending q) rest acking_at res reading_at
          ≡ queue pb incremental sub w req acking_at res reading_at
    queue-ranging hw hr hq = rw (hw, hr, hq) refl

    queue-pushing :
        {a : Option Any}
        → req ≡ []
        → ((acking_at ≡ opening) × (sub ≡ a)) ⊎ (acking_at ≡ acking a)
        → queue pb incremental sub w (a ∷ []) selecting res reading_at
          ≡ queue pb incremental sub w req acking_at res reading_at
    queue-pushing {a} hr (inl (ha, hs)) =
        rw (hr, ha, hs, append-nil (read_request pb incremental a)) refl
    queue-pushing {a} hr (inr ha) = rw (hr, ha, append-nil (read_request pb incremental a)) refl

    queue-selecting :
        {a : Option Any} {rest : List (Option Any)}
        → acking_at ≡ selecting
        → res ≡ a ∷ rest
        → queue pb incremental sub w req (acking (new_ack pb incremental sub a).0) rest reading_at
          ≡ queue pb incremental sub w req acking_at res reading_at
    queue-selecting {a} {rest} ha hr =
        rw
          (
            ha,
            hr,
            append_assoc (read_ack pb incremental sub a) (acks pb incremental sub rest)
                (of_reader pb incremental sub reading_at),
          )
          refl

    queue-forwarding :
        {a : Option Any}
        → reading_at ≡ forwarding a
        → res ≡ []
        → queue pb incremental sub w req acking_at (a ∷ []) looping
          ≡ queue pb incremental sub w req acking_at res reading_at
    queue-forwarding {a} hf hr =
        let ack = read_ack pb incremental sub a in
        rw (hf, hr, append-nil (ack ++ []), append-nil ack) refl

  pub Next-counting : (s : Session Any) → Flowing pb s → s.writer ≡ counting → Next s
  unfolding step move writer_step
  Next-counting s f at_p = (
    writer true,
    record s {
      validate = record s.validate { request_count = inc64 s.validate.request_count };
      writer = ranging;
    },
    ground arith,
    ground arith,
    refl,
    rw at_p refl,
  )

  pub Next-sending : (s : Session Any) (q : Request) → Flowing pb s → s.writer ≡ sending q → Next s
  unfolding step move writer_step
  Next-sending s q f at_p = (
    writer true,
    record s { sent = q ∷ s.sent; writer = counting },
    ground arith,
    ground arith,
    refl,
    rw at_p refl,
  )

  -- What the request loop makes of a request that it can read.
  sotw_request-readable :
      (a : Option Any) (s : Session Any)
      → readable pb false a ≡ true
      → (q : Request) × (sotw_request pb a s ≡ sending q) × (read_request pb false a ≡ q ∷ [])
  unfolding sotw_request
  sotw_request-readable a s h = elim (Option-cases (unmarshal_to pb.request a)) [
    | inl e ↦ absurd (ground arith)
    | inr (q, e) ↦ (sotw q, rw (e, sotw_request), rw (e, read_request) refl)
  ]

  delta_request-readable :
      (a : Option Any) (s : Session Any)
      → readable pb true a ≡ true
      → (q : Request) × (delta_request pb a s ≡ sending q) × (read_request pb true a ≡ q ∷ [])
  unfolding delta_request
  delta_request-readable a s h = elim (Option-cases (unmarshal_to pb.delta_request a)) [
    | inl e ↦ absurd (ground arith)
    | inr (q, e) ↦ (delta q, rw (e, delta_request), rw (e, read_request) refl)
  ]

  request-readable :
      (incremental : Bool) (a : Option Any) (s : Session Any)
      → readable pb incremental a ≡ true
      → (q : Request) × ((if incremental then delta_request pb a s else sotw_request pb a s)
          ≡ sending q)
        × (read_request pb incremental a ≡ q ∷ [])
  request-readable true a s h = delta_request-readable a s h
  request-readable false a s h = sotw_request-readable a s h

  pub Next-ranging :
      (s : Session Any) (a : Option Any) (rest : List (Option Any))
      → Flowing pb s
      → s.writer ≡ ranging
      → s.req.buffer ≡ a ∷ rest
      → Next s
  unfolding step move writer_step range take
  Next-ranging s a rest f at_p full_req =
      let (q, read, same) = request-readable s.incremental a s (ground (arith, f.requests)) in
      (
        writer true,
        record s { req = record s.req { buffer = rest }; writer = sending q },
        ground (arith, f.fine),
        ground arith,
        refl,
        ap (onto s.sent) (
            queue-ranging s.incremental s.subscribe_request s.writer s.req.buffer s.res.buffer
              s.acker s.reader at_p full_req same),
      )

  pub Next-pushing :
      (s : Session Any) (a : Option Any)
      → Flowing pb s
      → s.req.buffer ≡ []
      → ((s.acker ≡ opening) × (s.subscribe_request ≡ a)) ⊎ (s.acker ≡ acking a)
      → Next s
  unfolding step move acker_step send
  Next-pushing s a f none_left (inl at_p) = (
    acker,
    record s { req = record s.req { buffer = a ∷ [] }; acker = selecting },
    ground arith,
    ground arith,
    refl,
    ap (onto s.sent) (
        queue-pushing s.incremental s.subscribe_request s.writer s.req.buffer s.res.buffer s.acker
          s.reader none_left (inl at_p)),
  )
  Next-pushing s a f none_left (inr at_p) = (
    acker,
    record s { req = record s.req { buffer = a ∷ [] }; acker = selecting },
    ground arith,
    ground arith,
    refl,
    ap (onto s.sent) (
        queue-pushing s.incremental s.subscribe_request s.writer s.req.buffer s.res.buffer s.acker
          s.reader none_left (inr at_p)),
  )

  pub Next-selecting :
      (s : Session Any) (res : Option Any) (rest : List (Option Any))
      → Flowing pb s
      → s.acker ≡ selecting
      → s.res.buffer ≡ res ∷ rest
      → Next s
  unfolding step move acker_step select take
  Next-selecting s res rest f at_p full_res = (
    acker,
    record s {
      res = record s.res { buffer = rest };
      acker = acking (new_ack pb s.incremental s.subscribe_request res).0;
    },
    ground arith,
    ground arith,
    refl,
    ap (onto s.sent) (
        queue-selecting s.incremental s.subscribe_request s.writer s.req.buffer s.res.buffer s.acker
          s.reader at_p full_res),
  )

  pub Next-forwarding :
      (s : Session Any) (res : Option Any)
      → Flowing pb s
      → s.reader ≡ forwarding res
      → s.res.buffer ≡ []
      → Next s
  unfolding step move reader_step send
  Next-forwarding s res f at_p none_left = (
    reader broken,
    record s { res = record s.res { buffer = res ∷ [] }; reader = looping },
    ground arith,
    ground arith,
    refl,
    ap (onto s.sent) (
        queue-forwarding s.incremental s.subscribe_request s.writer s.req.buffer s.res.buffer
          s.acker s.reader at_p none_left),
  )
