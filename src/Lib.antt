-- ===== src/Lib.antt =====
-- The asset pipeline of WTR, the Trace provider's client, the preference jury, the briefs of labs, the streaming
-- hash of uploads and the parser and redactor of agent traces, as a model and their theorems.
--
-- An asset goes through five stages: it is ingested, labelled, registered (3a the encrypted upload, 3b the
-- Trace record, 3c the Story IP asset, 3d the licence vault), listed and settled. Each stage has a handler
-- (src/lib/pipeline/stages) that reads the asset's event log, skips what an event shows to be done, calls
-- the outside world through ports, and appends an event with an idempotency key for each step. A handler
-- that throws on the way answers a failed result, and a retry goes on from the log. The driver
-- (src/lib/pipeline/index.ts) runs the handlers in order until one fails.
--
-- Common: JavaScript's texts, lists and JSON values, and results of code that may throw.
-- Crypto: src/lib/crypto/canonical.ts. Story: src/lib/story/ip-metadata.ts.
-- Trace/Schema: src/lib/trace/schema.ts and attestation.ts. Trace/Pii: `assertNoPii` of schema.ts.
-- Trace/Promotion: src/lib/trace/promotion.ts.
-- Trace/Client: src/lib/trace/client.ts; Client/Attempts and Client/Guards hold its theorems.
-- Trace/Mock: src/lib/trace/mock.ts; Mock/Batches holds its theorems.
-- Labels/Registry: src/lib/labels/registry.ts; Registry/Claims has its theorem.
-- Labels/PerceptualHash: the Hamming distance of src/lib/labels/perceptual-hash.ts.
-- Labels/Preference: src/lib/labels/preference.ts, its specifications; Preference/Jury has its jurors and
--   votes, Preference/Tally the lemmas on counting, Votes, Valid and Spec the theorems.
-- Upload/Sha256: src/lib/upload/sha256-stream.ts; Sha256/Reference is the standard's digest, a byte at a time,
--   Feed, Update and Padding hold the lemmas, Stream and Blob the theorems.
-- Upload/Manifest: src/lib/upload/manifest.ts; Manifest/RoundTrip has its theorem.
-- Traces/Parse: src/lib/traces/parse.ts, with the loops over records in Parse/Formats and the rest of
--   parseTrace in Parse/Whole; Canonical, Calls, Steps, Counted and Sound hold the lemmas, Single the theorems.
-- Traces/Redact: src/lib/traces/redact.ts, with Redact/Bounds, Preview and Structure.
-- Requests: src/lib/requests/service.ts; Requests/Steps has the operations on submissions and the histories,
--   Funding and Final the lemmas, Recorded the theorems.
-- Pipeline/PgLog: appendEvent of src/lib/pipeline/pg-store.ts, against that of the in-memory store.
-- Pipeline/Types, Rows, Ports: src/lib/pipeline/types.ts, store.ts, ports.ts and deps.ts.
-- Pipeline/Store: src/lib/pipeline/testing/memory-store.ts, the store that the handlers are run against.
-- Pipeline/TraceDocument: src/lib/pipeline/trace-document.ts.
-- Pipeline/Exec: `async` functions as functions of the store, of the outside world and of the handlers'
--   own variables; what is done before an exception stays done. Exec/Hoare has the rules for what an action
--   makes of the log, Exec/Total those for actions that throw nothing.
-- Pipeline/Actions: the store calls and results that the handlers share.
-- Pipeline/Log: what `appendEvent` keeps: Log/Kinds (keys and types), Log/Numbering (sequence numbers and
--   unique keys), Log/Spine (the order of events).
-- Pipeline/Stages: the handlers, one module each, `ListStage` being list.ts. Stages/Rules and Stages/Keeps
--   show what they keep; Stages/Reaching shows how far each takes the log.
-- Pipeline/Driver: src/lib/pipeline/index.ts, with Driver/History, Driver/Order,
--   Driver/Retry and Driver/Total.
-- Pipeline/Sample and the modules called Tests: sample data, runs and examples.
--
-- A statement on the event log throws on the constraints of `trace_seq` in db/migrations/0001_init.sql, and
-- gives a new event any id, since the sequence of ids may skip some; the asset exists. Each statement of the job
-- queue is a step of its own; an operation on briefs is one transaction.
--
-- A port is any function of a request and of the state of the outside world, which may fail, and may answer
-- otherwise the next time; the theorems hold for all ports. A moment is its text by `toISOString`. Numbers
-- are natural, as are all amounts, counts and ids of the source; a payload's other numbers are texts.
-- `fetch`, `sleep`, `Math.random`, the platform's SHA-256, UTF-8, `toUpperCase`, `toLowerCase`, `JSON.parse`,
-- the engine of regular expressions and the date parser are parameters too. A text cut at a number of UTF-16
-- units leaves out a character that the cut would split.
-- The loops of the source are structural recursion; the retries of the Trace client recur on the attempts
-- left, which the configuration bounds; the loop over the blocks of a chunk recurs on fuel, the chunk's
-- length, since each round takes 64 bytes off, and the search for embedded tool calls on the text's length,
-- since each round takes a character off; the count of a hexadecimal digit's bits recurs on four.
--
-- A log is sound (Log/Spine) if every event has the type that its idempotency key announces and has before
-- it the event that its stage needs; the empty log is.
--
-- Not modelled: the rest of the PostgreSQL store and every other service that is mainly SQL, the SDK
-- adapters, upload but its hash and its manifest, the other labellers, the perceptual hashes of pixels
-- (floating-point numbers), the labels of agent traces, authentication, the user interface, routes and scripts.
pub mod Common
pub mod Crypto
pub mod Story
pub mod Trace
pub mod Labels
pub mod Pipeline
pub mod Upload
pub mod Traces
pub mod Requests
