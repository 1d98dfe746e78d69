-- ===== src/Lib.antt =====
-- Verification library of Composer, a platform on which users draw workflows as graphs of typed
-- nodes, which are compiled to LangGraph state graphs and run as durable executions behind a web
-- API.
--
-- The parts and their files. A workflow (src/engine/workflow.py) is Workflow.antt; its nodes
-- carry the data that the graph builder and the routers read. The state that flows between nodes,
-- with its reducers (src/engine/state.py), is State.antt over the JSON-like values of Value.antt.
-- The graph builder (src/engine/graph_builder.py) is Graph: Graph/Shape has
-- collect_workflow_violations and validate_workflow_shape, Graph/Reachability the search from the
-- start, Graph/Markers _branch_markers and _mutually_exclusive, Graph/Branches _branch_mapping,
-- Graph/Routers the routing functions, Graph/Build build_graph up to the call of compile. The
-- life of an execution is Executions: Store has the tables of prisma/schema.prisma with the
-- Prisma queries the code makes, Handlers the cancel and resume handlers of
-- src/api/executions.py, Creating and Deleting the create and delete handlers, Worker the claim
-- and the end of a run (claim_and_run_execution of src/api/internal.py and LangGraphExecutor of
-- src/engine/langgraph_executor.py), Sweeper the sweeps of src/maintenance/execution_sweeper.py.
-- The event log (PostgresEventStore of src/engine/events_pg.py, with sweep_old_execution_events)
-- is Events.antt, and Events/Stream the WebSocket stream that reads it (src/api/events_ws.py);
-- Events/Stream/Follow is the relation of what can happen while a client follows an execution.
-- The rate limiters (src/security/rate_limit.py and src/security/rate_limit_pg.py) are
-- RateLimit.antt, with exact units of 1/60000000 token in place of floats. Executions/Maintenance
-- is the request handler that runs all sweeps (sweep of src/api/internal.py). Executions/Emails
-- is src/api/approval_email.py with the verification of its tokens in src/security/jwt.py. Texts
-- with placeholders (src/variable_substitution.py) are Substitution/Scan, for the pattern, and
-- Substitution/Resolve; their validation (src/variable_validation.py) is Substitution/Validation.
-- The builder's draft with its tools (src/builder/draft.py and src/builder/builder_tools.py) is
-- Builder/Tools, and the repair after a turn (src/builder/normalize.py) Builder/Normalize; the
-- search for a free id runs on fuel, one more than there are nodes. The encryption of texts and
-- of header values (src/security/encryption.py) is Secrets. Executions/Lifecycle puts the
-- operations together: each is a step of one relation on the tables, in any order and with any
-- arguments, the rows that a handler read earlier among them, so a handler may act on stale rows;
-- a sweep acts on the rows that it has just read. The statements of a decision (resume_execution,
-- confirm_approval_email) are steps of their own there, so that others may come between them, and
-- Executions/Lifecycle/Composed shows that the two handlers are made of these steps. The
-- executors of nodes are Executors: Executors/WhileLoop is src/executors/while_loop.py,
-- Executors/Start src/executors/start.py, Executors/Approval src/executors/user_approval.py, and
-- Executors/Simple the executors join, end, if_else, set_state and transform of src/executors.
-- Base holds what they share.
--
-- How they interact. A request creates a queued row and a task; the task's delivery claims the
-- row under a lease and runs the graph that build_graph compiled; the run ends by writing the
-- row; cancel, resume, delete and the sweeps work on the same row meanwhile. A handler reads the
-- row in one statement and writes it in another, so the models of handlers take the rows that
-- were read and the database that is written to as two arguments: a statement that quantifies
-- over both speaks of every interleaving of other requests between the two. The rows that a sweep
-- reads are its snapshot. Between the later statements of one handler nothing comes in its own
-- model; for a decision, Executions/Lifecycle has them apart. The writes of a handler to the
-- database are taken to go through, those of a sweep and of a failure that is recorded excepted.
--
-- Representation. Numbers are natural; times are seconds since an epoch, and microseconds in the
-- rate limiters. A dict is an association list in insertion order. Exceptions are results. The
-- search for reachable nodes runs on fuel of one more than the number of edges, which is enough
-- since a step either follows an edge for the first time or shortens the queue; the marker loop
-- makes as many rounds as the source, one more than the number of nodes. Every other loop is
-- structural, but for the builder's search for a free id.
--
-- Parameters. The evaluator of conditions (src/executors/_eval.py over simpleeval) is a function
-- of the routers and of the while executor, as are Python's dict() and int() of lists and texts.
-- Whether a Cloud Tasks call goes through, whether an update of a sweep or the write of a failure
-- does, what LangGraph's ainvoke returns or raises, the answer of the rate limiter to a handler,
-- whether the first query of a sweep goes through, the messages on a socket, the user that a
-- token names, the clocks, fresh ids, datetime.fromisoformat, json.loads, json.dumps, float, the
-- str.strip of the transform executor and the match of an identifier are arguments, as are
-- jwt.decode, pydantic's models and their dumps, AES-GCM with base64 and UTF-8, and the tokens of
-- secrets.token_hex, and so are the texts of a node with their variables substituted.
--
-- Not modelled. The other node executors, except for what routing needs, the wrapper of
-- executors, the checkpointer, authentication other than by the token of an emailed link, the
-- OIDC check, the rounding of floats in the rate limiters, the loop and the layout of the builder
-- agent, the composing and sending of emails, the providers for models, tools, vector stores and
-- file storage, the MCP client, document conversion, the migration from the older store, the
-- command line and the frontend. In Executions an event is no more than the id of its execution,
-- which is what deletion needs. The database is a parameter of the source; its tables are lists
-- of rows here, with Prisma's find_unique, find_many, update and update_many by their documented
-- effect on them, and each of these calls is taken to be atomic, as a single SQL statement is.
pub mod Base
pub mod Workflow
pub mod Value
pub mod State
pub mod Graph
pub mod Executors
pub mod Executions
pub mod Events
pub mod RateLimit
pub mod Substitution
pub mod Builder
pub mod Secrets
