-- ===== src/Lib.antt =====
-- agent-host watches and drives coding agents. This development models the parts of it that keep
-- state and make promises, in the JavaScript files under src/.
--
-- The launch ledger (src/core/launch-ledger.js) is the durable list of launches and of the
-- tombstones of retired ones. Launch/Ledger.antt has its data, its validators, the bytes bound of
-- #persist and the document that it writes; Launch/Ledger/Open.antt has open with its migrations
-- and close, Launch/Ledger/Reserve.antt the lookups, reserve and transition,
-- Launch/Ledger/Retire.antt the calls that retire a launch. An operation takes the outcome of its
-- write and returns the new ledger with a result, so that a failed write and its rollback are
-- ordinary branches. A write of writePrivateFileAtomic (src/secure-state.js) is done, fails before
-- it replaces the file, or fails late, after the rename, by the chmod or the sync of the
-- directory: then memory is rolled back and the file holds the new content. #exclusive runs one
-- operation at a time, so a history is a list of calls. The entries of a document are typed: its
-- identifiers, hashes and times are texts, while open would also take a list of one text for some
-- of those of tombstones and cleanups, which it tests by regular expressions alone.
-- Launch/Contracts.antt has the records of src/core/launch-contracts.js and their validation,
-- Launch/Catalog.antt the launch catalog, the normalization of a launch request and, of
-- src/core/launch-coordinator.js, the catalog that a stored request stands for.
--
-- Registry/Circuit.antt is the circuit breaker that src/core/registry.js keeps for each adapter.
-- Http/ActionExecutor.antt is the per-agent queue of actions with its idempotency cache
-- (src/http/action-executor.js), Http/SseClient.antt the bounded buffer of an event-stream client
-- (src/http/sse-client.js). Http/Security.antt has the checks of src/http/security.js and which of
-- them src/http/server.js makes of a request, by its method and its path. Associations.antt with
-- Associations/Wording.antt and Associations/Context.antt are the reader of repository contexts
-- (src/core/repository-associations.js). Histories of these are lists of events in which the
-- environment chooses clocks, socket answers and outcomes.
--
-- Discovery.antt is the reconciliation, the views and the order of discovered agents
-- (src/core/discovery.js).
--
-- Launch/Coordinator.antt has the queues of src/core/launch-coordinator.js: which launches and
-- retirements wait and run, with the pump loops, which run on the length of their queue since each
-- round takes one entry from it. Launch/Coordinator/Submit.antt is submit, over the ledger, the
-- catalog and the queue, Launch/Coordinator/Settle.antt what a run does to its launch over the
-- ledger, with the answers of providers as arguments; the files beside them hold the proofs. A
-- history is a list of events: a launch is queued, a run ends, a retirement is asked for, the
-- coordinator stops.
--
-- Adapters/Wire.antt is the WebSocket client that the Codex adapter speaks through
-- (src/adapters/codex-websocket-wire.js): its state and the handling of one frame, with
-- Adapters/Wire/Handshake.antt, the check of the server's response, and
-- Adapters/Wire/Receive.antt, the loop on the received bytes and the public methods. The loop runs
-- on fuel, the number of bytes held, since a frame takes two bytes at least. The files beside them
-- hold the proofs, and Frames.antt the frames as RFC 6455 lays them out. Adapters/Rpc.antt is the
-- table of requests that wait for an answer in src/adapters/codex-rpc.js.
--
-- Operations/Metrics.antt has the counters, gauges and histograms of src/operations/metrics.js.
--
-- Common.antt passes on the shared names: tests, lists and texts, JavaScript Maps as association
-- lists in insertion order with their laws, JSON values, results. Tests.antt has runs at concrete
-- inputs.
--
-- Hashes, Date.parse, JSON.stringify, the URL parser, byte lengths and the order of localeCompare
-- are parameters. The other loops are structural recursions, so no fuel is needed. Not modelled:
-- the start of the coordinator, its timeouts, the bodies of retirements and the cleanups, the
-- registry's discovery flights and merging of agents, the HTTP server, the other adapters, logs,
-- file locks and permissions, configuration and installation.
pub mod Common
pub mod Launch
pub mod Registry
pub mod Http
pub mod Associations
pub mod Discovery
pub mod Adapters
pub mod Operations
pub mod Tests
