-- ===== src/Lib.antt =====
-- A model of the platform core of this repository: the in-memory aggregates that the services and
-- the database repositories share. Each is a Python class whose methods check, raise or write; here
-- each is a record of its dicts and lists, and each method a function on it in the effect
-- `Exec S E A = S → Result E A × S` (Prelude/Effect): a raise gives an error and the state as it was
-- written up to there. A Python `dict` is an association list in insertion order (Prelude/Dict).
--
-- The parts, each with its source under packages/:
--   Jobs/Job, Jobs/Ledger     platform/src/vda_platform/jobs/ledger.py: `JobLedger`, the leases and
--                             fences of durable jobs; Jobs/Ledger/Call has its calls as values
--   Jobs/Worker               platform/src/vda_platform/jobs/worker.py: `ControlWorker.run_once`,
--                             which claims a job of the ledger, runs a handler and settles the job
--   Durable/Tables, Durable/Events, Durable/Runs, Durable/Operations
--                             platform/src/vda_platform/jobs/repository.py:
--                             `PostgresRuntimeRepository`, its tables with the constraints of
--                             database/migrations, and its statements as reads and writes of them;
--                             Durable/Runs/Tenure is the abstract account of a run's leases, and
--                             Durable/Runs/Calls has the calls as values
--   Durable/Worker            platform/src/vda_platform/jobs/postgres_worker.py: the worker over the
--                             repository, with its heartbeat and its loop
--   Ingestion/Objects         adapters/src/vda_adapters/s3/store.py: `InMemoryObjectStore`
--   Ingestion/Sources         data_profiling/src/vda_data/ingestion/sources.py: `SourceRegistry` over
--                             an interface of the object store, whose contract is `IsSound` of
--                             Ingestion/Sources/Linked; Ingestion/Port fills both with the store
--                             above, as services/api/src/vda_api/application.py (from the root) does
--   Local, Local/Conversations
--                             services/api/src/vda_api/application.py (from the root):
--                             `LocalApplication`, its datasets over the sources and the store, and its
--                             conversations over the outbox
--   Runtime/Runs              platform/src/vda_platform/runtime/runs.py: `RunLedger`, the life cycle
--                             of a bot's run
--   Runtime/Mailbox           platform/src/vda_platform/runtime/mailbox.py: messages and handoffs
--                             between bots
--   Runtime/Turn              platform/src/vda_platform/runtime/loop.py: `BotRuntime.execute`, one
--                             turn over the context builder and the tool registry
--   Conversation/State        platform/src/vda_platform/conversation/state.py: `ConversationState`
--   Conversation/Outbox       platform/src/vda_platform/conversation/outbox.py: the outbox over a
--                             conversation, its events and the dispatch quota
--   Identity/Directory        platform/src/vda_platform/identity/directory.py: principals,
--                             workspaces, memberships and grants
--   Identity/Sessions         platform/src/vda_platform/identity/sessions.py: `SessionManager`
--   Memory/Context            platform/src/vda_platform/memory/context.py: `build_context`, the items
--                             of a bot's context and their token budget
--   Tools/Registry            platform/src/vda_platform/tools/registry.py: `ToolRegistry.invoke`, which
--                             denies, validates and performs a tool
--   Observatory/Journal       platform/src/vda_platform/observatory/journal.py: the screened journal
--   Reports/Evidence, Reports/Workflow
--                             data_profiling/src/vda_data/evidence/manifest.py and
--                             reports/workflow.py: reports from the draft to the publication
--   Tests                     the theorems at concrete inputs
--
-- Methods keep the names of the source, without a leading underscore; `handoff` is `hand_over`.
-- An exception class with several messages is a data type with a constructor for each. The calls of
-- a client are a data type for each component, `step` runs one, raising or not, and `steps` a list
-- of them; theorems on `steps` are thus on all interleavings of calls, each of which is atomic, as
-- the source has no await or lock inside a method.
--
-- Parameters stand for what the source calls: `json_safe` for `json.dumps` on a payload, `show`
-- for the decimal text of a number, `utf8_length` for the bytes of a text, `is_sha256` for the
-- regular expression of a hash, `sha256` for the hash of a credential, `is_identifier` for
-- `str.isidentifier`, the tests on a payload's values, the tool handlers and the job handler. The
-- record `Host` has what the SQL repository takes of Python and of the database, `Hashing` and
-- `Admission` what the sources take of Python and of the parsers of CSV and Parquet files; ids that
-- the source draws and rows that other transactions lock are arguments. A transaction runs alone, and
-- what raises in it is rolled back.
-- Instants are numbers in UTC, and `now` is an argument. Counters are natural numbers, as Python's
-- integers have no bound. Every loop of the source runs over a list, but for that of `run_forever` in
-- jobs/postgres_worker.py, which polls until another thread sets the stop event: the state of the event
-- at each test is an argument and the loop is on fuel, which is enough where it exceeds the number of
-- iterations before the event is set.
--
-- Not modelled: the profiling engine and statistics (third-party data frames and floating point),
-- the other SQL code, the HTTP services, the adapters of outside services, and the smaller
-- components of the platform that the list above does not name.
pub mod Prelude
pub mod Durable
pub mod Ingestion
pub mod Local
pub mod Identity
pub mod Jobs
pub mod Runtime
pub mod Conversation
pub mod Memory
pub mod Observatory
pub mod Reports
pub mod Tools
pub mod Tests
