-- ===== src/Session/Step/Draining.antt =====
-- A session whose messages can be read comes to rest by itself: what is on its way to the server
-- gets there.
pub mod Onward
pub mod Schedule
use xds_test_harness.Base.{
  ℕ, zero, suc, ◌+◌, ◌*◌, ◌%◌, ◌^◌, ◌≤◌, ◌<◌, ◌≡◌, ◌∙◌, refl, sym, ap, arith, Bool, true, false,
  Option, none, some, List, [], ◌∷◌, ◌++◌, length, length-append, All, All-append, if◌then◌else◌,
  is_some, ltb, Option-cases, Bool-cases, List-cases, some→≡, some-of-none, subst, ◌⊎◌, inl, inr,
}
use xds_test_harness.Words.{inc64}
use xds_test_harness.Proto.{Anypb, unmarshal_to}
use xds_test_harness.Chan.{Chan, send, take}
use xds_test_harness.Runner.Requests.{new_ack}
use xds_test_harness.Session.{
  Session, Request, sotw, delta, Reader, looping, receiving, warning, forwarding, failing, stopped,
  Reply, eof, broken, Writer, ranging, aborting, resuming, sending, excusing, counting, closing,
  regretting, waiting, returning, returned, Acker, opening, selecting, acking, finished, Event,
  reader, writer, acker, done,
}
use xds_test_harness.Session.Step.{
  reader_step, writer_step, acker_step, select, range, sotw_request, delta_request, move, step, run,
}
use xds_test_harness.Session.Step.Counts.{on_the_way}

-- A channel that takes what is sent to it when it is empty, and is not closed.
abbrev pub IsOpen : {A : Type 0} → Chan A → Type 0
IsOpen c = (c.closed ≡ false) × (0 < c.capacity)

-- The moves that a message has still to make: from the reader, through two channels and Ack.
abbrev pub moves_of : Writer → ℕ
moves_of (sending request) = 2
moves_of counting = 1
moves_of _ = 0

abbrev pub reader_moves : {Any : Type 0} → Reader Any → ℕ
reader_moves (forwarding res) = 6
reader_moves _ = 0

abbrev pub acker_moves : {Any : Type 0} → Acker Any → ℕ
acker_moves opening = 4
acker_moves (acking ack) = 4
acker_moves _ = 0

abbrev pub moves_left : {Any : Type 0} → Session Any → ℕ
moves_left s =
    reader_moves s.reader
    + 5 * length s.res.buffer
    + acker_moves s.acker
    + 3 * length s.req.buffer
    + moves_of s.writer

module _ {Any : Type 0} (pb : Anypb Any) where
  -- The request loop can read the request.
  abbrev pub readable : Bool → Option Any → Bool
  readable true a = is_some (unmarshal_to pb.delta_request a)
  readable false a = is_some (unmarshal_to pb.request a)

  -- The response has an ACK that the request loop can read.
  abbrev pub ackable : Bool → Option Any → Option Any → Bool
  ackable incremental sub res = readable incremental (new_ack pb incremental sub res).0

  -- Where the goroutines stand, and what they hold.
  abbrev pub ReaderFlows : Bool → Option Any → Reader Any → Type 0
  ReaderFlows incremental sub (warning e res) = ⊥
  ReaderFlows incremental sub (forwarding res) = ackable incremental sub res ≡ true
  ReaderFlows incremental sub _ = Unit

  abbrev pub WriterFlows : Writer → Type 0
  WriterFlows ranging = Unit
  WriterFlows (sending request) = Unit
  WriterFlows counting = Unit
  WriterFlows _ = ⊥

  abbrev pub AckerFlows : Bool → Option Any → Acker Any → Type 0
  AckerFlows incremental sub opening = readable incremental sub ≡ true
  AckerFlows incremental sub selecting = Unit
  AckerFlows incremental sub (acking ack) = readable incremental ack ≡ true
  AckerFlows incremental sub finished = ⊥

  pub record Flowing (s : Session Any) : Type 0 where
    pub fine : s.panicked ≡ false
    pub open_req : IsOpen s.req
    pub open_res : IsOpen s.res
    pub requests : All (λ a. readable s.incremental a ≡ true) s.req.buffer
    pub responses : All (λ res. ackable s.incremental s.subscribe_request res ≡ true) s.res.buffer
    pub reader : ReaderFlows s.incremental s.subscribe_request s.reader
    pub writer : WriterFlows s.writer
    pub acker : AckerFlows s.incremental s.subscribe_request s.acker

  -- One move of one message.
  pub record Moves (s t : Session Any) : Type 0 where
    pub one : moves_left t + 1 ≡ moves_left s
    pub requests :
        (t.validate.request_count + on_the_way t) % 2 ^ 64
        ≡ (s.validate.request_count + on_the_way s) % 2 ^ 64
    pub responses : t.validate.response_count ≡ s.validate.response_count
    pub flows : Flowing t

  -- The request that the request loop makes of a message, if it can read it.
  abbrev pub read_request : Bool → Option Any → List Request
  read_request true a = elim (unmarshal_to pb.delta_request a) [ none ↦ [] | some q ↦ delta q ∷ [] ]
  read_request false a = elim (unmarshal_to pb.request a) [ none ↦ [] | some q ↦ sotw q ∷ [] ]

  abbrev pub reads : Bool → List (Option Any) → List Request
  reads incremental [] = []
  reads incremental (a ∷ buffer) = read_request incremental a ++ reads incremental buffer

  -- The request that acknowledges a response.
  abbrev pub read_ack : Bool → Option Any → Option Any → List Request
  read_ack incremental sub res = read_request incremental (new_ack pb incremental sub res).0

  abbrev pub acks : Bool → Option Any → List (Option Any) → List Request
  acks incremental sub [] = []
  acks incremental sub (res ∷ buffer) = read_ack incremental sub res ++ acks incremental sub buffer

  abbrev pub of_writer : Writer → List Request
  of_writer (sending request) = request ∷ []
  of_writer _ = []

  abbrev pub of_acker : Bool → Option Any → Acker Any → List Request
  of_acker incremental sub opening = read_request incremental sub
  of_acker incremental sub (acking ack) = read_request incremental ack
  of_acker incremental sub _ = []

  abbrev pub of_reader : Bool → Option Any → Reader Any → List Request
  of_reader incremental sub (forwarding res) = read_ack incremental sub res
  of_reader incremental sub _ = []

  -- The requests that have still to be sent, the next one first: of the request loop, of the channel
  -- to it, of Ack, of the channel to Ack, and of the response loop.
  abbrev pub queue :
      Bool
      → Option Any
      → Writer
      → List (Option Any)
      → Acker Any
      → List (Option Any)
      → Reader Any
      → List Request
  queue incremental sub w req a res p =
      of_writer w
      ++ (reads incremental req
          ++ (of_acker incremental sub a
              ++ (acks incremental sub res ++ of_reader incremental sub p)))

  abbrev pub to_send : Session Any → List Request
  to_send s =
      queue s.incremental s.subscribe_request s.writer s.req.buffer s.acker s.res.buffer s.reader

-- What is sent, newest first, once these requests are sent too.
abbrev pub onto : List Request → List Request → List Request
onto sent [] = sent
onto sent (q ∷ qs) = onto (q ∷ sent) qs

-- A move of a goroutine: the server takes what is sent to it, and gives no further response.
abbrev pub by_itself : {Any : Type 0} → Event Any → Bool
by_itself (reader broken) = true
by_itself (writer success) = success
by_itself acker = true
by_itself _ = false
