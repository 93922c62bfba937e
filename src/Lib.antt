-- ===== src/Lib.antt =====
-- Verification library of go-bemu, a local endpoint that is compatible with BigQuery.
--
-- The program (Go, under internal/) is a set of services behind REST and gRPC transports. The
-- services keep their state in memory, write it ahead to a state repository (SQLite), and call
-- an SQL engine (DuckDB) through ports. Modelled here are the Storage Write service,
-- internal/storagewrite (streams of appended rows, and their atomic commit); the Storage Read
-- service, internal/storageread (sessions over a snapshot that is cut into streams, under a
-- byte budget); the rules of the catalog, internal/domain (decimals, schemas, query jobs); and the
-- in-memory repository of query jobs, internal/adapters/memory; and load jobs, internal/loadjob.
-- They share no state.
--
-- Which file models what:
-- - Base, Exec, Words, Text, Maps, Numerals, Errors: shared data and lemmas. `Exec S E A` is a
--   function from a state to a result and a state, so a failing handler keeps the changes that
--   it made before. Words writes an int64 as its bit pattern below 2 ^ 64 (`add64` wraps). Text
--   is Go's string as its list of bytes; Maps is a Go map as an association list. Errors is
--   Go's `error` with `errors.Is`, `errors.Join` and coded domain errors.
-- - Catalog/Fields, Catalog/Schema: Field of internal/domain/catalog.go with its Validate, and
--   validateFieldList. Catalog/Names has the regular expressions of IDs, Catalog/Failure the
--   errors. Catalog/Casing is a parameter, a record of the functions of Go's `strings` that read
--   Unicode; a theorem that needs something of them has the hypothesis `IsCasing`.
-- - Catalog/Evolution: internal/domain/schema_evolution.go. Extension states what it decides,
--   without its tests.
-- - Catalog/Literal, Catalog/Decimal: internal/domain/decimal.go. A big.Rat is a fraction of
--   natural numbers beside a sign, not in lowest terms.
-- - Catalog/Job: internal/domain/job.go, with Query for the construction of a job, Phases for its
--   states, and Digest for the normal form of its configuration. Catalog/Job/Repository is
--   internal/adapters/memory/jobs.go.
-- - StorageWrite/Domain, StorageWrite/Ports: the types of internal/storagewrite/domain and the
--   interfaces of internal/storagewrite/ports. The clock, the ID generator, the coordinator,
--   the state repository and SHA-256 are parameters: the fields of a record `Env W` of functions
--   on the state W of the world. No theorem assumes anything of them.
-- - StorageWrite/Names: ParseTableName, ParseStreamName, TableReference.Name.
-- - StorageWrite/Service, StorageWrite/Registry: the structs Service, streamState and
--   appendReceipt of internal/storagewrite/application/service.go, and its helpers that look
--   up, admit and create streams. `Machine W` is the service with the world; `Locked W` is one
--   stream's state, whose mutex the handler holds, with the world.
-- - StorageWrite/Append: Service.Append. Checks has the tests that refuse a request, Steps the
--   calls and state changes after them (`append_locked` is the body under the stream's mutex);
--   Untouched and Refusals are about appends that fail.
-- - StorageWrite/Handlers: CreateStream, GetStream, Append, Finalize. StorageWrite/Created is
--   about CreateStream.
-- - StorageWrite/Commit: Service.BatchCommit. Selection has its validation, Group the
--   phases of its streams and of the commit group, Steps the calls and outcomes; View, Atomic,
--   Success, Chosen and Response are about the streams after it.
-- - StorageWrite/Finalized: Service.Finalize, and appends after it.
-- - StorageWrite/Examples, StorageRead/Examples, Catalog/Examples,
--   LoadJob/Examples: runs at concrete inputs.
-- - LoadJob/Domain, LoadJob/Sources, LoadJob/Submission, LoadJob/Terminal: the job of
--   internal/loadjob/domain, and resolveObjects, Submit, execute and terminalError of
--   internal/loadjob/application/service.go over the repository of repository.go. Submit hands
--   the job to a goroutine; the events of Once are the submissions and the updates of running jobs
--   in any order.
-- - StorageRead/Domain, StorageRead/Service: the types of internal/storageread/domain, the state
--   of internal/storageread/application/service.go, and its ports as a record `Env W`.
-- - StorageRead/Contracts: negotiateStreamCount, partitionStreams and the resource names of
--   internal/storageread/application/contracts.go.
-- - StorageRead/Requests, StorageRead/Session: CreateSession. What other callers do while it
--   makes its snapshot is a list of operations, its parameter. Stored, Accepted and Refused are
--   about a session that is stored, returned and refused.
-- - StorageRead/Rows: ReadRows; a run also returns the chunks that it handed to the sender.
-- - StorageRead/Admission, StorageRead/Lifecycle: reserveSession, commitReservedSession,
--   releaseReservation, releaseSnapshotBudget, SweepExpired and Close. `perform_all` runs a
--   sequence of them, each as one step; the code gives the mutex back inside SweepExpired and
--   Close, between their parts.
--
-- The interleavings of one stream's operations are sequences of runs of `append_locked`, since
-- each holds the stream's mutex to its end. BatchCommit runs under the mutexes of all its
-- streams, which it takes in name order; it is modelled as one step.
--
-- All definitions are structurally recursive. `format_int` has fuel 20, the digits of 2 ^ 64;
-- `nat_text` of n has fuel n + 1.
-- The loop of ReadRows has as fuel the rows that the range has left and one more; the result
-- `none` stands for too little fuel, and the theorem on ReadRows excludes it.
--
-- Not modelled: logging, goroutines and mutexes as such, contexts but for the errors they bring,
-- the values in error texts, and the other services (the execution of queries, catalog
-- operations), transports and adapters. `Service.run` of the load jobs, which calls the warehouse,
-- is a parameter of `execute`: its result is a pair of statistics and an error, if there is one.
pub mod Base
pub mod Catalog
pub mod Errors
pub mod Exec
pub mod LoadJob
pub mod Maps
pub mod Numerals
pub mod StorageRead
pub mod StorageWrite
pub mod Text
pub mod Words
