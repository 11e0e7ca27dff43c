-- ===== src/Session/Step/Draining/Schedule.antt =====
-- The schedule: while a message is on its way, one of the goroutines can move it.
use xds_test_harness.Session.{Session}
