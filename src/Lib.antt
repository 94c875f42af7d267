-- ===== src/Lib.antt =====
-- The control plane of iroum-ax (apps/control-plane): the workflow engine, the evaluation of scores with
-- their reviews and rubrics, and the access control in front of them.
--
-- A workflow is a row of a store. `TxCoordinator` creates it and `StateMachine` moves it from PENDING
-- to RUNNING and to COMPLETED or FAILED, each time in a transaction that also writes an audit event.
-- A score is created as DRAFT, may be CONFIRMED and is then only corrected by a new one; a request for
-- its review goes from SUBMITTED over UNDER_REVIEW to APPROVED or REJECTED; a rubric goes from draft
-- over active to archived and gives a grade to a value by its bands. Each lives in tables of PostgreSQL
-- that a handler changes in one transaction with an audit event.
-- Requests reach the handlers through a chain: authentication by a bearer token, authorization by the
-- roles in the token's scopes, and conditions on attributes.
--
-- Types         internal/types/workflow.go: WorkflowState, Workflow, ValidTransitions,
--               IsValidTransition. Types/Transitions has the diagram as a relation.
-- Errors        internal/errors/errors.go, internal/auth/errors.go: sentinels, wrapping, errors.Is.
-- Audit         internal/audit/audit.go and recorder.go: events and the recorder's workflow methods;
--               Audit/Entities: its methods for scores, reviews and rubrics.
-- Store         internal/store/fake_store.go: FakeStore, FakeTx, BeginTx, Commit, Rollback and the
--               operations of a transaction; Store/Query: QueryAuditLogs and ListWorkflows.
-- Postgres      internal/store/store.go and .moai/db/schema/migrations: the rows of the tables, a
--               transaction of pgx with its faults; Postgres/Tables: the statements of SQL.
-- Server        cmd/server: what the handlers share, the reply, the guards by role, the frame of a
--               transaction (Server/Transactions) and the pages of a list (Server/Paging).
-- Score         internal/store/score.go; Score/Rules has its checks, Score/Sums the weighted sum of an
--               item, Score/Handlers cmd/server/score_handlers.go, Score/Requests its requests as one
--               type, Score/Effects, Results and Successes what
--               they do. Score/Updates, Replacement, Corrections, Immutable, Overwrites, Confirmed and
--               Unconfirmed are about them.
-- Review        internal/store/score_review_request.go; Review/Handlers cmd/server/review_handlers.go.
--               Review/Moves has assignment, approval and rejection as values of one type,
--               Review/Requests the requests, Review/History sequences of them.
-- Rubric        internal/store/rubric.go; Rubric/Bodies and Rubric/Handlers
--               cmd/server/rubric_handlers.go. Rubric/Steps, Changes and Additions are about
--               the store, Answers, Parts, Lookups, Requests, Results and Served about the requests,
--               one by one and by what they change, Archived, Bands and Applied about sequences of requests
--               and about the grade of a value.
-- Coordinator   internal/workflow/transaction.go: ExecuteWorkflowCreate, ExecuteWorkflowTransition.
-- StateMachine  internal/workflow/state_machine.go: Start, Complete, Fail, CurrentState.
--               StateMachine/Moves has them as values of one type, StateMachine/Reference a
--               description without transactions, StateMachine/History sequences of them.
-- Callback      cmd/server/workflow_callback_handler.go: the worker's report of a result, which takes a
--               workflow from RUNNING to its end in a transaction of its own.
-- Auth          internal/auth: Rbac (rbac.go), Mapping (authz_mapping.go), Authz
--               (authz_middleware.go), Claims and Validator (validator.go), Authn (middleware.go), Abac
--               (abac.go), Jwks (jwks_cache.go), Refresh (refresh.go), Chain (chain.go, and the root
--               handler of cmd/server/server.go). Http and Grpc hold the parts of those libraries that
--               the middleware touches.
-- Prelude       shared names, lists, association lists, sorting and text.
-- Tests         runs at concrete inputs.
--
-- Stateful code is a function from a state to a result and a state. A Session is a transaction with
-- the store that it points to, a Machine the store with the transition counter. A map is an
-- association list, a table the list of its rows, a nil pointer none, an error a value of Error whose
-- layers are kept. A handler is a function from a request to a reply. The code has no unbounded loop,
-- so there is no fuel.
--
-- A transaction on the tables is a function from the tables to a result and the tables; Faults says
-- which of its calls of pgx fail, also for a reason of a column's type or of a table that is not there.
-- UpdateScore and SupersedeAndReplaceScore read a row without locking it, so what others commit before
-- they write is an argument; the other transactions lock the row that they change. The handlers run
-- with nothing committed by others between their statements, and a request's queries see its own writes.
--
-- Bounds: identifiers are the number of their 16 bytes, times are natural numbers of nanoseconds since
-- 1970 (claims of seconds are integers), and both are taken to be far from the range where Go's
-- types wrap. A transition holds its mutex from beginning to end, so concurrent transitions are a
-- sequence of them.
--
-- Parameters: the UUID library (Audit/Uuid), the base64 and JSON decoders and the JWT library
-- (JwtLib), the key set and the blacklist (fields of Validator), the endpoint of the keys and their
-- construction (Response and KeyLib of Auth/Jwks), the store of refresh tokens and the issuer
-- (TokenStore and RefreshService; RedisRefreshStore of refresh.go only has stubs and is not modelled,
-- and the issuer is taken to give the same pair to the same question), the clock, and the text of an error in a gRPC status. Floating-point
-- numbers with what a NUMERIC column keeps of one are Floats of Postgres, exact sums Numerics of
-- Score/Sums; a handler's body is what the JSON decoder gives, and ParseFloat is an argument.
--
-- Not modelled: the stores of evidence and evaluation items and their handlers, reports, the rollup of
-- scores as text, the dispatcher, the connection to PostgreSQL, metrics other than the transition
-- counter, configuration, generated code.
pub mod Prelude
pub mod Errors
pub mod Types
pub mod Audit
pub mod Store
pub mod Postgres
pub mod Server
pub mod Score
pub mod Review
pub mod Rubric
pub mod Coordinator
pub mod StateMachine
pub mod Callback
pub mod Auth
pub mod Tests
