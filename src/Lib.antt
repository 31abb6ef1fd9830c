-- ===== src/Lib.antt =====
-- langsmith-deployment-go: the run queue of the deployment service, its authorization filters, its
-- leases and its signals, its threads and its crons, as a model with theorems.
--
-- The program is a set of gRPC services over PostgreSQL and Redis. A request carries authorization
-- filters, which internal/auth turns into SQL; internal/runs keeps the queue of runs on threads:
-- workers claim pending runs (Next), keep them by heartbeats (ExtendLease), and report (SetStatus,
-- MarkDone); a reaper puts runs with an expired lease back (Sweep); callers create, cancel, delete
-- and read runs. internal/threads keeps the threads that runs belong to, whose status follows their
-- runs, and deletes those whose time to live is over; internal/crons starts runs on a schedule;
-- internal/checkpointer keeps the states that runs have saved on their threads; internal/assistants
-- keeps the assistants that runs belong to, with the history of their versions. The services tell
-- workers and readers of all this over Redis keys and channels.
--
--   Prelude    numbers, lists, membership, sorting and error results
--   Sql        the conditions that the stores build at run time, under SQL's three-valued logic
--   Auth       internal/auth/filter.go: AuthFilter, emit, joinNested (emit_each), ApplyToQuery
--     Parameters, Fragments   which placeholder reads which argument; one fragment at a time
--     Meaning, Errors         the whole condition; the filters that are refused
--   Runs       internal/runs/store.go
--     Model      the rows of run, thread, assistant, checkpoints and checkpoint_writes
--     Query      Get, whereArgs, Search (search_runs), Count, PublishExistsAndAuth
--     Lease      ExtendLease, SetStatus, MarkDone, Next, Sweep
--     Cancel     CancelWithAction, Cancel, CancelByStatus
--     Create, Insert   Create, in the order of its statements (create_steps), and Delete
--     Rows, Tables     ids that name one row, isolated threads, and what an UPDATE keeps
--     Visibility       what filters let the reads show
--     Claims, Isolation, Fencing, Sweeping, Recovery   Next, heartbeats and Sweep
--     Cancelling, Cancelled   the WHERE clause of CancelWithAction, and its effect
--     Creating, Strategies    Create, step by step and as a whole
--     Finished, Effects, Steps   finished runs, and all operations as steps of one database
--   Redis      internal/stream/keys.go, and the commands that the services send
--   Service    internal/runs/service.go: Signals, Handlers, Publish, Delivery (theorems on Publish);
--              the tick of internal/runs/reaper.go is sweep_runs of Handlers
--   Threads    internal/threads
--     Query, Rows, Status   store.go: the reads; Create, Patch, Delete and copyRow; SetStatus and
--                SetJointStatus
--     Expiry     ttl.go: ttlSweepTick
--     Handlers   service.go: every handler but Stream; Copies has the theorem on its Copy
--     Visibility, Created, Pages, Busy, Guard   theorems on the reads and writes of store.go
--     Deleting, Sweeping   the cascade of a delete, and the sweep
--   Crons      internal/crons
--     Rows, Patch, Next   store.go: Create, Delete, SetNextRunDate; Patch; Next
--     Scheduler  scheduler.go: schedulerTick with injectOnCompletion and mergeCronMetadata
--     Search     store.go: whereArgs, Search and Count
--     Firing, Patching, Defaults, Shown   theorems on Next, Patch, injectOnCompletion and Search
--   Checkpointer   internal/checkpointer
--     Rows, Reads, Copying   Put and PutWrites; GetTuple and List; the deletes, CopyThread, Prune
--     Json, Messages, Values, Handlers   service.go: the trees of documents; marshalCheckpoint,
--                marshalMetadata and what rowToTuple reads; the channel values; the handlers
--     Stored, View, Copied   what a read finds after a Put, the table as a map, copies and prunes
--     Coding, Loading, Holding, Readable, Steps   what is stored decodes
--     Channels, Blobs, Readback, Sent   what GetTuple reads after a Put
--   Assistants   internal/assistants
--     Query, Rows, Patch, Latest   store.go: the reads; Create and Delete; Patch with findArgIdx;
--                SetLatest
--     Handlers   service.go
--     Places, History, Added, Kept, Reached   what findArgIdx finds; the invariant of the versions
--     Revision, Rollback, Filtered   theorems on Patch and SetLatest
--   Cache      internal/cache and the key checks of internal/auth; Tenants has its theorems
--   Witnesses  the theorems at concrete data
--
-- How code becomes definitions. A database is a record of tables, a table a list of rows, and an
-- operation a function from a database to its result and the database after it. A transaction is
-- one step, with two exceptions: Next takes what commits between its SELECT and its UPDATE
-- (`next_with`; `next` is the case of nothing), and the two statements of CancelWithAction, which
-- are no transaction, are one step with one now(). `now` is the now() of the transaction, in
-- microseconds. What a concurrent transaction may do stands in explicit parameters: the rows that
-- it has locked (Next passes them over), and the changes that it commits between the transactions
-- of one Sweep (`Turn`). A text of SQL is kept as its syntax tree (`Sql.Cond`), with the same
-- placeholders and the same arguments in the same order; `Sql.bind` casts the arguments, and a
-- refused cast is the error `database`. Go's sentinel errors are values of `Prelude.Results.Error`.
-- A handler gives its reply, the database, and the list of Redis commands; the services drop the
-- errors of these commands, so they have no effect.
--
-- What is a parameter. `Sql.Postgres` holds PostgreSQL's uuid and jsonb operations, which this
-- repository only calls: no law of them is assumed. `Service.Signals.Backend` holds whether Redis
-- and the streamer are there, and google/uuid's Parse. `Crons.Rows.Calendar` holds robfig/cron and
-- the time zones, `Crons.Patch.Codec` encoding/json with the conversion of payloads of the legacy
-- shape, and the RunsCreator of schedulerTick is its argument `create`. `Checkpointer.Json.JsonCodec`
-- and `Checkpointer.Values.ValueCodec` hold encoding/json and protobuf for the checkpointer; a
-- theorem names what it needs of them. Random uuids are arguments.
--
-- Bounds. Go's uint64 and int64 counters (limits, seconds, attempts, generations) are natural
-- numbers; the wrap-around of `int64(in.AfterSeconds)` in Create from 2^63 seconds on is left out.
-- A TTL is a whole number of seconds. Numbers inside a JSON document are kept as they are, also
-- where the code passes them through a float64. The loop of ttlSweepTick is on fuel, and ends on
-- fuel of more than a hundredth of the number of threads; every other loop runs over a list.
--
-- What is not modelled: Enter and Stream of internal/runs/service.go and Stream of
-- internal/threads/service.go (goroutines over live channels), Stats, PoolStats and the conversions
-- to messages; the handlers of internal/crons and the codec of their payloads; GetCapabilities of
-- the checkpointer; configuration, servers, logging, metrics, tracing and generated code. Errors of
-- the connection itself (a lost connection, a failed commit) are left out.
pub mod Prelude
pub mod Sql
pub mod Auth
pub mod Runs
pub mod Redis
pub mod Service
pub mod Threads
pub mod Crons
pub mod Checkpointer
pub mod Assistants
pub mod Cache
pub mod Witnesses
