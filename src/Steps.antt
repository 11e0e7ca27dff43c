-- ===== src/Steps.antt =====
-- internal/runner/steps.go: what a step of a scenario does, and the patterns that its steps have in the
-- texts of scenarios. The steps are in the child modules.
pub mod Subscriptions
pub mod Receiving
pub mod Validation
pub mod Target
pub mod Loading
pub mod Running
use xds_test_harness.Base.{Bool, Option, none, some}
use xds_test_harness.Errors.{Error}
use xds_test_harness.Chan.{Sent, send, sent, full, send_on_closed}
use xds_test_harness.Service.{Channels}
use xds_test_harness.Runner.{Runner}

-- How a step ends: it returns nil or an error, panics, or waits at a full channel. A step that
-- returns nil may have started the goroutines Stream and Ack on a new service.
pub data Verdict : Type 0 where
  passed : Verdict
  started : Verdict
  failed : Error → Verdict
  panicked : Verdict
  waits : Verdict

module _ {Any Conn : Type 0} where
  -- What follows a send to the request channel.
  pushed : Runner Any Conn → Channels Any → Sent (Option Any) → Runner Any Conn × Verdict
  pushed r ch (sent q) =
      (record r { service = record r.service { channels = some (record ch { req = q }) } }, passed)
  pushed r ch full = (r, waits)
  pushed r ch send_on_closed = (r, panicked)

  -- r.Service.Channels.Req <- request; the channels of a zero service are nil.
  unfoldable pub push_request : Option Any → Runner Any Conn → Runner Any Conn × Verdict
  unfolding pushed
  push_request request r = elim r.service.channels [
    | none ↦ (r, panicked)
    | some ch ↦ pushed r ch (send request ch.req)
  ]
