-- ===== src/Session.antt =====
-- internal/runner/runner.go, the goroutines of a service: the response loop and the request loop of
-- SotwStream and DeltaStream, the loop of Ack, and the test that shares their channels. A state has
-- a position for each; `step` moves one of them, and a list of events is an interleaving.
pub mod Responses
pub mod Step
use xds_test_harness.Base.{ℕ, Bool, true, false, Option, none, some, List, []}
use xds_test_harness.Text.{Text}
use xds_test_harness.Errors.{Error}
use xds_test_harness.Proto.{
  DiscoveryRequest, DeltaDiscoveryRequest, DiscoveryResponse, DeltaDiscoveryResponse,
}
use xds_test_harness.Chan.{Chan}
use xds_test_harness.Service.{Channels}
use xds_test_harness.Validate.{Validate, Seen}
use xds_test_harness.Runner.{Runner}

-- The goroutine of the response loop.
pub data Reader (Any : Type 0) : Type 0 where
  looping : Reader Any  -- before wg.Add(1)
  receiving : Reader Any  -- in Recv
  warning : Error → Option Any → Reader Any  -- before `ch.Err <- err` and `ch.Res <- res`
  forwarding : Option Any → Reader Any  -- before `ch.Res <- res`
  failing : Error → Reader Any  -- before `ch.Err <- err` and `return`
  stopped : Reader Any

-- A request as it is sent to the server.
pub data Request : Type 0 where
  sotw : DiscoveryRequest → Request
  delta : DeltaDiscoveryRequest → Request

-- The request loop of SotwStream or DeltaStream, and what stands behind it.
pub data Writer : Type 0 where
  ranging : Writer  -- at `range service.Channels.Req`
  aborting : Error → Writer  -- before `Err <- …` and `return`
  resuming : Error → Request → Writer  -- before `Err <- …`, and then Send
  sending : Request → Writer  -- in Send
  excusing : Error → Writer  -- before `Err <- …`, behind a Send that failed
  counting : Writer  -- before RequestCount++
  closing : Writer  -- in CloseSend
  regretting : Error → Writer  -- before `ch.Err <- err`, behind a CloseSend that failed
  waiting : Writer  -- in wg.Wait
  returning : Writer  -- before the deferred calls
  returned : Writer

-- The goroutine of Ack.
pub data Acker (Any : Type 0) : Type 0 where
  opening : Acker Any  -- before it sends the subscribing request
  selecting : Acker Any
  acking : Option Any → Acker Any  -- before it sends an ACK
  finished : Acker Any

-- What the goroutines and the test share, and where each goroutine stands.
pub record Session (Any : Type 0) : Type 0 where
  pub incremental : Bool
  pub subscribe_request : Option Any
  pub validate : Validate
  pub req : Chan (Option Any)
  pub res : Chan (Option Any)
  pub errors : Chan Error
  pub wait : ℕ  -- the counter of the WaitGroup
  pub cancelled : Bool  -- the context of the stream
  pub reader : Reader Any
  pub writer : Writer
  pub acker : Acker Any
  pub sent : List Request  -- newest first
  pub panicked : Bool

-- What Recv returns.
pub data Reply (Any : Type 0) : Type 0 where
  eof : Reply Any
  broken : Reply Any
  sotw_response : DiscoveryResponse Any → Reply Any
  delta_response : DeltaDiscoveryResponse → Reply Any

-- A move of one goroutine. The reader is given what Recv returns, if it stands there; the writer,
-- whether Send or CloseSend succeeds. `done` is the test's send to Done and Ack's receive from it.
pub data Event (Any : Type 0) : Type 0 where
  reader : Reply Any → Event Any
  writer : Bool → Event Any
  acker : Event Any
  done : Event Any
  tester_pushes : Option Any → Event Any  -- to Req
  tester_resets : Option Any → Seen → Seen → Event Any  -- the request and what is tracked
  tester_takes_error : Event Any

-- `go r.Stream(r.Service)` and `go r.Ack(r.Service)`, on the channels of the service.
unfoldable pub start : {Any Conn : Type 0} → Runner Any Conn → Channels Any → Session Any
start r ch = record {
  incremental = r.incremental;
  subscribe_request = r.subscribe_request;
  validate = r.validate;
  req = ch.req;
  res = ch.res;
  errors = ch.errors;
  wait = 0;
  cancelled = false;
  reader = looping;
  writer = ranging;
  acker = opening;
  sent = [];
  panicked = false;
}
