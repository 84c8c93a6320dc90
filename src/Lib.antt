-- ===== src/Lib.antt =====
-- A model of the incident support platform: the intake of incidents, the outbox that publishes
-- their events, the processing of these, the controlled agent workflow, the review of its
-- resolutions, and the knowledge base that the workflow searches.
--
-- The service classifies an incident by rules, stores it together with an event in one
-- transaction, and tells workers of it by that event. A worker gives each event to
-- `ControlledAgentWorkflow.resolve` (app/agent/workflow.py), which claims an execution, lets a
-- language model choose typed tools until the required evidence is gathered, asks the model for a
-- final response, validates it and stores it for human review. Each step is stored with the
-- execution, so that a run that was interrupted is resumed from its steps.
--
-- The files:
--   Common         shared names; tests, lists, members of lists, tables of rows (Common/Rows), and
--                  methods that may raise with rules to reason about them (Common/Exec)
--   Db             the rows of app/db/models.py and the database as a list of rows for each table
--   Agent/Models, Agent/Failure
--                  app/agent/models.py, app/agent/errors.py and the other exceptions that meet in
--                  the workflow
--   Agent/Env      what the workflow meets outside: clocks, driver, provider, tools, pydantic, json
--   Agent/Tables   the queries; Agent/Claim: `_claim_impl`; Agent/Failing: `_record_failure`,
--                  `_record_terminal_failure`, `_set_status`, `_check_time_and_step_budgets`;
--                  Agent/Steps: `_persist_tool_step`, `_persist_rejected_step`,
--                  `_restore_results`, `_model_call`; Agent/Evidence: the evidence of an execution;
--                  Agent/Validation: `_validate_final`; Agent/Final: `_generate_final`,
--                  `_persist_final`; Agent/Planning, Agent/Acting, Agent/Loop: `_resolve`
--   Agent/Tools    the registry and `ToolExecutor` of app/agent/tools.py; Agent/Tools/Similar: the
--                  searches for similar incidents and for earlier resolutions
--   Agent/Audit    the invariant of the stored steps and its proof, method by method
--   Review         `add_feedback` (app/repositories/agent.py) and `_record_feedback_impl`
--                  (app/api/routes/incidents.py)
--   Workers        `IncidentEventProcessor` (app/workers/processor.py); the workflow is a record
--                  with the method that it calls; Workers/Runner: the message handler and the loop
--                  of `KafkaIncidentWorker` (app/workers/runner.py), with its calls of the client
--   Events         the outbox (app/repositories/outbox.py) and `OutboxDispatcher`
--                  (app/events/dispatcher.py)
--   Services       Patterns: the regular expressions of app/services/analyzer.py as executable
--                  patterns; Analyzer: its rules and `analyze_incident`; Incidents:
--                  `analyze_and_persist_incident` (app/services/incidents.py) and
--                  `IncidentRepository` (app/repositories/incidents.py)
--   Knowledge      Whitespace: the string methods; Chunking: app/knowledge/chunking.py; Loader:
--                  app/knowledge/loader.py; Tables: the knowledge tables of app/db/models.py;
--                  Ingestion: `KnowledgeIngestor` (app/knowledge/ingestion.py); Retrieval:
--                  `KnowledgeRetriever` (app/knowledge/retrieval.py)
--   Ai             Resolution: `validate_citations` (app/ai/prompting.py) and the faults of an
--                  attempt; Workflow: `IncidentResolutionWorkflow` (app/ai/workflow.py), an
--                  instance of the processor's workflow
--   Examples       tests and concrete instances
--
-- How the code is read. A method is a function from a world to a result or an exception and a
-- world. The world is the database and a tick, and each use of a clock, of the driver, of the model
-- or of a tool reads the answer that the environment has for the next tick. A statement about every
-- environment is therefore one about all answers in all orders. A session commits all of its
-- writes at its end, or none if it raises. `str(exc)`, prompt rendering, JSON lengths, pydantic's
-- validation and the provider's and tools' bodies are fields of the environment.
--
-- Numbers. Times and durations are natural numbers of one unit. `confidence` counts units of
-- 2 ^ -1074, in which every double of [0, 1] is whole, so 0.5 is 2 ^ 1073. Texts that the code
-- walks are lists of code points. Lower case is modelled on ASCII letters, which is exact for the
-- fragments that are searched.
--
-- Fuel. The loop `while True` of `_resolve` runs on (max_steps + 1) * (repair_attempts + 1) rounds;
-- a theorem below shows that it never needs more.
--
-- The processor reads another worker's marker as an answer of its environment, and the dispatcher
-- has a world of its own, with the messages that the broker has received, which the intake of
-- incidents shares.
--
-- The knowledge base has its own tables and tick. The sequences that number rows are part of the
-- tables, so a session that fails gives its numbers back, which PostgreSQL does not do. The digest,
-- the embedding provider, the file system, the cosine of two vectors of one length, the database's
-- distance and the rows that its index scan visits are arguments, and a vector is a list of bit
-- patterns. The index of the column (HNSW) is approximate, which is why the rows that it visits are
-- not said to be all; an error of pgvector, as on a vector of another dimension, is one of the
-- database. A similarity counts units of 2 ^ -1074,
-- like `confidence`. A regular expression is a pattern that lists the places where a match can end;
-- which characters beyond ASCII are letters or digits is an argument.
--
-- Two exceptions that come after a write. `session.refresh` in `_persist_tool_step` may raise when
-- the step is stored already, and the foreign key of a marker may refuse it with the same exception
-- as its primary key; the model has neither: a session that raises leaves the database as it was,
-- and an incident that was stored stays, since the program deletes none.
--
-- Not modelled: metrics, spans and logs, which change no state; the prompts' wording; the HTTP
-- interface; the Kafka and Ollama clients' own behaviour; the bodies
-- of the other tools; evaluation; and sessions that interleave with those of an
-- execution, which is claimed under a row lock.
pub mod Common
pub mod Db
pub mod Agent
pub mod Review
pub mod Workers
pub mod Events
pub mod Knowledge
pub mod Services
pub mod Ai
pub mod Examples
