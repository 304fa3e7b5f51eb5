-- ===== src/Lib.antt =====
-- A library that models and verifies edt, a runner for event-driven scenarios with a control plane.
--
-- The program. A scenario (pkg/scenario) lists steps, checks and evals. The orchestrator
-- (pkg/orchestrator) runs its steps against Kafka, HTTP, SSE, WebSocket and gRPC; what they see goes
-- to the event store (pkg/events), which the checks (pkg/checks) and the evals (pkg/eval) read.
-- Their results make a report (pkg/report) with a status and an exit code. A control plane
-- (pkg/controlplane) keeps scenarios, workers, runs and tokens and serves them over REST; workers
-- (pkg/worker) poll it for assignments, run them and send the reports back. Messages with a schema
-- go through the codec of pkg/schemaregistry.
--
-- Which file models what:
--   Events: pkg/events/event.go and store.go, `MemStore` with `append`, `query` and `query_range`;
--     Invariant and Retention prove what it keeps. Window: pkg/events/window.go, with its sort in
--     Insertion.
--   Checks: pkg/checks; Result is check.go and result.go, Glob and Latency are globMatch and
--     fnLatency of operators.go, and Operators the others; Glob.Spec says what a pattern means, and
--     Operators.Streams is about the one on HTTP streams.
--   Report: pkg/report/report.go, `finalize`.
--   Spec: the document types of pkg/scenario/types.go; Validate is validateCrossField of schema.go,
--     and Percentage the rates of percentage.go.
--   Storage: pkg/controlplane/storage/storage.go and memory.go, one file for each table: Scenarios,
--     Workers, Runs (with Listing), Slo, Samples, and Tokens for tokens.go. Interface is the Go
--     interface `Storage` as a record of operations, and `mem_storage` the in-memory store as one.
--     Placement takes the mutating methods as the steps of a state machine, on the lemmas of
--     Extending.
--   Api: pkg/controlplane/api, over any `Storage`: Auth, Scenarios, Runs (with Outline for what one
--     run shows of its scenario), EvalRuns, Workers and Tokens are the handlers of the files of
--     these names. Assigning, Ingesting and Uploading prove what the handlers do to the in-memory
--     store. Adhoc is adhoc.go, on the orchestrator's `run`, with the verdicts in Adhoc.Verdict.
--   Cli: cmd/edt/run.go and main.go, `doRun` and the exit code; Host is expandHostEnv, Exit proves how
--     a run ends.
--   Server: pkg/controlplane/server.go, the bootstrap of tokens and the role of each route.
--   Worker: pkg/worker/loop.go, as steps of the loop and its goroutines on the state they share;
--     Reach is the relation; Tracking, Invariant and Redispatch are about what it reaches.
--   Mcp: pkg/controlplane/mcp/mcp.go; Tools is `invoke`, Handler the requests and batches. Policy and
--     Replies are about what a caller may change and what is answered.
--   Eval: pkg/eval/executor.go (Executor, Matching, Words, and Rounds for both loops, with
--     Rounds.Scoring) and aggregator.go (Aggregate).
--   SchemaRegistry: pkg/schemaregistry/codec.go, the header and `Codec` with both its caches, and
--     Proto for the message index of proto.go.
--   Json: the values of Go's `any`; Equal is equalAny of pkg/orchestrator/grpc.go.
--   Orchestrator: pkg/orchestrator. Interpolate is interpolate.go, with os.Expand; Matcher is match.go;
--     Runner, Produce, Consume and Run are run.go, Calls its runHTTP and runGRPC of grpc.go, and
--     Expectation the expectation of pkg/httpc/client.go. Receive is the loop that runSSE of sse.go
--     and runWebSocket of websocket.go have in common, and Run opens their sessions. Watch is
--     watch.go. The other files prove: Growth what a whole run does to the event store, Delivery and
--     Payload what a producing step sends, Answering and Passing when a step passes, Previous what
--     it remembers, Interpolate.Render, References and Bare what becomes of a text, Watch.Snapshot
--     and Watch.Loop how a watch goes on.
--   Sse: the framing of pkg/httpc/sse.go; Framing and Ending are about its lines.
--   Common: maps, lists, texts and sorts that these share. The modules named Examples hold runs at
--     concrete inputs.
--
-- How the code is read. A method with a pointer receiver takes the state and gives the next one; an
-- error is a value of a sum or of `Option`. A method that holds a mutex is one step. A `time.Time`
-- is the number of nanoseconds since Go's zero time, which is 0; the clock is an argument. A Go map
-- is an association list with one entry for each key, and a range over it visits the entries in the
-- list's order, one of the orders that Go may take. `sort.Slice` is a stable sort, one of the
-- results it may have. A text is a sequence of characters. A `float64` is of a type of its own, with
-- the operations the code uses as parameters. The JSON and YAML decoders, the CEL engine, SHA-256,
-- random ids, the judge, the registry's client and the formats of messages are parameters; where
-- a theorem relies on one, it names what it relies on as a hypothesis.
--
-- What a connector delivers while a step runs is an explicit list or an argument, and so are the
-- polls that an eval makes while it waits for an output: the list ends at the deadline. Every loop
-- of the code is a structural recursion over such a list or over a collection, so that nothing
-- runs on fuel.
--
-- Not modelled: the clients of Kafka, HTTP, WebSocket, gRPC, of the registry, of the control plane
-- and of the PostgreSQL store, the formats of messages, the printing of reports, metrics, the
-- embedded UI, the other commands and the generator of random data, which only pass on to a library.
pub mod Common
pub mod Json
pub mod Events
pub mod Checks
pub mod Cli
pub mod Report
pub mod Storage
pub mod Api
pub mod Spec
pub mod Server
pub mod Worker
pub mod Eval
pub mod Mcp
pub mod Sse
pub mod SchemaRegistry
pub mod Orchestrator
