-- ===== src/Lib.antt =====
-- A model of the xDS test harness and its correctness. The harness plays the client of an xDS control
-- plane: godog reads scenarios, a runner subscribes to a service of the target over a gRPC stream, two
-- goroutines receive and send on it and a third acknowledges, and the steps look at what was seen.
--
-- The parts, from below:
-- - Base, Text, Dict, Words: shared helpers. Go strings are lists of code points, with ToLower, Split,
--   Join and HasPrefix of package strings; maps are association lists in which a walk may take any
--   order (Dict/Walk); int and int64 are 64-bit patterns whose addition wraps.
-- - Errors, Proto, Types (internal/types/types.go): the errors, one constructor for each place that
--   makes one; the protocol messages, of which the fields are kept that the harness reads or writes;
--   the variants and the counts. Package anypb is a parameter, a record of codecs with the law that
--   what was packed is read back.
-- - Parser (internal/parser/parser.go): service_to_type_url is ServiceToTypeURL, resource_names is
--   ResourceNames, parse_supported_variants is ParseSupportedVariants.
-- - Chan: Go channels with a buffer. A send waits at a full channel and panics at a closed one.
-- - Service (internal/runner/services.go): the channels, the streams and the five builders.
-- - Validate, Runner, Runner/Requests (internal/runner/runner.go): what the runner saw of each
--   resource; fresh_runner is FreshRunner, connect_client is ConnectClient, new_ack is
--   newAckFromResponse, new_request is newRequest. A write to a nil map is a panic.
-- - Session, Session/Responses, Session/Step (internal/runner/runner.go): SotwStream, DeltaStream,
--   Stream and Ack. A state has the shared maps, counts and channels and a position for each
--   goroutine; `step` moves one of them, and `run` follows a list of events, which is an interleaving
--   together with the replies of the server and the sends of the test. Below Step, Counts follows the
--   messages from the reader to the server, Buffers and Bounds the room in the channels, Sending the
--   kind of what is sent, History the responses that were taken in, and Draining the schedules that
--   bring every message on.
-- - Steps (internal/runner/steps.go): the steps of a scenario. Subscriptions has the subscribing and
--   unsubscribing steps, Receiving and Validation the checks, and Target the steps that call the
--   adapter of the target, with the calls as values. A step ends in a verdict: it passes, fails,
--   panics, waits, or has started the goroutines. Loading has LoadSteps: the pattern of each step as
--   literals and groups, with the match of a text. Running runs the text of a step as a call of its
--   method, and joins a subscription, a session and a check to a scenario.
-- - Suite (internal/runner/suite.go): the suite of a variant, its runner and tags; Suite/Scenarios has
--   ConfigureSuite, with the runners that the hook before each scenario makes: the steps of a scenario
--   are bound to the one made before. Suite/Heap has the objects behind the pointers of a runner, with
--   FreshRunner on them (fresh_at), so that what two runners share is seen. godog is a parameter.
-- - Main (main.go): the loop over all variants with the sums of their results; Main/Settings has the
--   flags and the config file (ValuesFromConfig of internal/parser/parser.go, with the YAML library as
--   a parameter) and main as a whole, Main/Printing the texts of printResults and variantResults.
-- - Formatter (fmt_xds.go): the counters and the failed scenarios, over a storage as parameter.
-- - Adapter (examples/go-control-plane/adapter.go): Messages has the Envoy messages, Makers the functions
--   that make them, Addresses randomAddress, and Adapter and Setting the five handlers, over a snapshot
--   cache, random numbers and the read of a packed message as parameters. Setting/SetUp joins SetState
--   to the step that calls it.
-- - Tests: anypb as a data type, runs on concrete inputs, and each property applied to one.
--
-- Bounds: the channels hold two entries, as in the source; lists, maps and texts have any length. The
-- loops are structural, and the endless loops of the goroutines are cut into steps; only the decimal
-- print of a number runs on fuel, of the twenty digits that a 64-bit pattern can have. Time is
-- not modelled: whether an error or the timer wakes a check is an argument.
--
-- Not modelled: logging and its level, the encoding of results.json, the prints of the adapter, the
-- timers, and the aliasing by which the adapter's update changes a resource in the snapshot that the
-- cache still holds. Under examples/go-control-plane, RunAdapter, server.go, logger.go and main/main.go
-- only start library servers and log. The Cucumber records of internal/types/types.go are used by
-- nothing.
pub mod Base
pub mod Text
pub mod Dict
pub mod Words
pub mod Proto
pub mod Errors
pub mod Types
pub mod Parser
pub mod Chan
pub mod Service
pub mod Validate
pub mod Runner
pub mod Steps
pub mod Session
pub mod Suite
pub mod Main
pub mod Formatter
pub mod Adapter
pub mod Tests
