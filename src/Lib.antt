-- ===== src/Lib.antt =====
-- A verification library for the backend of LangGraph UAS (backend/suas), which plans drone missions:
-- a deterministic calculator decides whether a mission is flyable, a gate decides in what mode, a graph
-- of nodes takes a plan from its request through weather, calculation and review to a written brief,
-- and a seal keeps the writer of that brief from changing the decision.
--
-- Parts and files, with the code that each models:
--   Prelude, Float          shared tests, lists and texts (Prelude/Sort: the stable sort of Python,
--                           Prelude/Rearranged: lists in another order); the interface for
--                           floating-point numbers
--   Schemas                 schemas: provenance, domain, assessment, responses, requests, alerts,
--                           telemetry (Schemas/Alerts/Order: severities and actions)
--   Calculations/Battery, Physics, Gate, Assessment, Replan
--                           calculations/battery.py, physics.py, gate.py, assessment.py, replan.py, a
--                           definition for each function under its own name; the laws of each stand in
--                           its child Laws
--   Graph/State, Seal, Nodes, Workflow
--                           graph/state.py and dependencies.py, seal.py, nodes.py, workflow.py: a node
--                           make_x_node is the function x from a state to the state with its updates
--   Graph/Runs, Outcome, Review, Edits, Signing, Restart, Brief
--                           runs of that graph: where they stop, the review loop, what edits reach,
--                           what the model cannot touch, second plans on a thread, the brief
--   Graph/Replan            graph/replan.py, its five nodes in a line
--   Api/RateLimit           api/ratelimit.py, with Window (the two limiters), Ceiling, and Pruning (the
--                           pass over idle buckets: Same, Pass)
--   Api/Provenance          api/number_provenance.py: the label of each figure (Weakest)
--   Api/ThreadLocks         api/thread_locks.py, a state machine over what coroutines do, with Sound
--                           (its invariant), Exclusion and Overlap
--   Api/Plans (Laws, Planning), Replans
--                           api/routes.py: plan_mission, acknowledge_plan, replan_mission over a store of
--                           rows and checkpoints
--   Api/ReportSource        api/report_source.py: who counts as the writer of a report
--   Api/Security            api/security.py and key_overlap.py: operators, keys and addresses
--   Services/Report         services/llm.py: the prompt, and the text that stands in for the model
--   Db/Retention            db/retention.py: rows of threads, with Ids (replan ids), Purge and
--                           Expired (the pass over old threads)
--   Services/Weather        services/weather.py, with Honesty (labels of readings) and Cache; a body
--                           that the parser cannot read raises, as in the code
--   Rag/Words, Rows, Fusion, Retrieve
--                           rag/retrieve.py: words of a question, rows of the corpus, the fusion of two
--                           rankings (Scores, Order) and the evidence (Sources, Known, Returns: where it comes
--                           from, and that it comes)
--   Rag/Embedding           rag/embedding.py, rag/provider.py: the providers of vectors (Served)
--   Rag/Manifest, Screening, Ingest
--                           rag/manifest.py, rag/screening.py, db/corpus.py: what may enter the corpus,
--                           with Accounts (what an ingest counts) and Quarantine
--   Eval/Metrics, Stats, Scoring, Citations, Harness
--                           eval/retrieval_metrics.py, stats.py, mission_scoring.py, citation_checks.py,
--                           harness.py, the last over Rag/Ingest and Rag/Retrieve, with Leaks, Gate and
--                           Report
--   FlightLogs/Samples, Estimate, Import, Store
--                           schemas/flight_log.py and calculations/from_log.py (Selected: who is chosen,
--                           Trust: what an estimate is worth), flight_log_import.py (Rows), and
--                           db/flight_logs.py (Applied, Ingested)
--   Tests                   runs on concrete values, over decimal numbers
--
-- How the code is read:
--   Floating-point numbers are a type F with the operations of the interface Float, so the theorems on
--   figures hold for whatever arithmetic the machine does; no law of real numbers is
--   assumed, except that Rag/Fusion/Order asks of comparisons what holds of doubles.
--   Datetimes are numbers of microseconds. A StrEnum is a data type, a TypedDict or a model a record, a
--   dictionary the list of its entries. A raised error is an Option or a constructor of a result.
--   The database, the report service, what the graph retrieves, text patterns, JSON texts and the digest of the
--   inputs are code outside the repository or calls into it: they are fields of Dependencies, Patterns
--   and Json, or arguments.
--   A run of the graph is a recursion on fuel over its nodes. It is given 8 nodes, and a run has at
--   most 7: validate, weather, calculations, cite_limits, human_ack, report and the end; Graph/Runs
--   proves that every run stops within them. The review step listens for max_ack_rounds = 5 answers.
--   A thread id is its segments between colons, so that `parent:n` is a child of `parent`. The text of a
--   number in such an id is a parameter, of which the theorems assume that it is injective.
--   The search for a free replan id has one step more than there are rows. Rate limits are on times in
--   whole microseconds. Requests to the routes are sequential: Api/ThreadLocks is about their turns.
--   A request of the weather service recurses on the attempts that remain.
--   The order in which Python walks through a set of texts is an argument `arrange`, of which the
--   theorems assume that it rearranges its list. `json.loads` of a stored vector, the reader of CSV,
--   and the parsers of numbers and times are arguments too. Tables are lists in the order that a query
--   returns them. Of the lower case of a text, what the pattern of words can match is written out: the
--   letters A to Z, and the two other characters that become one of a to z.
--   The pass over idle buckets has one page more than there are rows. The
--   order of keys in the database, and the rows that other transactions have locked, are arguments.
--   A write to the database is a new value of its tables, and a failed one leaves them as they were.
--
-- Not modelled: the HTTP application, its configuration, logging, metrics and tracing; the database
-- engine, migrations and seeding; files of fixtures and baselines; the frontend. The weather cache
-- that the database holds and its pruning are not either. The exact p-value of `mcnemar` is modelled
-- below 1024 discordant pairs, from where its quotient of powers no longer fits a float. The harness
-- takes a chunk without a configuration as an error where the code sorts the owners of chunks. Times
-- with and without an offset are not told apart, so the sort of samples that mixes them does not
-- raise. A run of the planning graph that raised keeps no thread state; the checkpointer would keep
-- the steps before the failed node, and an acknowledgement would resume them there.
pub mod Prelude
pub mod Float
pub mod Rag
pub mod Eval
pub mod Schemas
pub mod Calculations
pub mod Graph
pub mod Services
pub mod FlightLogs
pub mod Db
pub mod Api
pub mod Tests
