-- ===== src/Lib.antt =====
-- The verification library of the bank reconciliation agent: the decisions that the Python package
-- src/bank_reconciliation_agent takes about an item, from the classification of two files' rows to the
-- audited decision and a human's review, with the guards around them, and the job that carries a task
-- through them.
--
-- The program's parts and where each is modelled (paths below src/bank_reconciliation_agent, except
-- rules/, which is at the repository's root):
-- * Breaker (services/circuit_breaker.py): `CircuitBreaker` as a record with one function for each
--   method, which the lock makes one step. Breaker/Pool.antt adds the callers that hold permits, as a
--   step relation.
-- * Rules (services/rule_engine.py, rules/*.yaml): `RuleEngine.evaluate`, and the two rule files as
--   lists.
-- * Amount and Router (services/exception_router.py): `classify`. Rows and dates are in Router/Rows,
--   the T+1 search in Router/Candidate, the cutoff window in Router/Clock, the duplicate search in
--   Router/Duplicates, the facts in Router/Facts and the fuzzy pass in Router/Fuzzy.
-- * Audit (agents/audit_agent.py, services/hooks.py, services/fallback.py): the rule decision, in
--   Audit/Model the model's decision with its safety policy, in Audit/Hooks the hooks behind them.
-- * Tools (services/tool_executor.py): `ToolExecutor.execute` with its attempts.
-- * Llm (core/llm/): the provider that guards its calls by the breaker and the one that retries them
--   (reliability.py), in Llm/Cache the one that caches answers (cache.py), in Llm/RateLimit the one
--   that limits calls (rate_limit.py), and in Llm/Structured `complete_structured` (structured.py).
--   Each is a function of what the provider within it answers.
-- * Workflow (services/workflow/runner.py, decision.py, tools.py): `run_item`. It reads what Router has
--   classified, calls the tools, the audit agent and the hooks, and leaves the decision in the state.
--   What tools and agents answer is a `World`, an argument of the run.
-- * Tasks (services/task.py): the table of tasks as a list of rows, and the statements of `TaskService`.
--   Base/Table.antt has the statements of SQL that the services use, on lists of rows.
-- * Reconcile (services/reconciliation/input.py, flow.py, batch.py, persistence.py, services/queue.py,
--   services/ledger.py): the router's results become the rows of the queue, the runs of the items become
--   the rows of the ledger, and one transaction writes both (Reconcile/Store). Reconcile/Listing has the
--   pages of the ledger, Reconcile/Views the list of exceptions, and Reconcile/Sources reads the column
--   `rag_source` back.
-- * Jobs (worker.py, services/reconciliation/service.py, services/queue_client.py): a task from its
--   upload (Jobs/Requests) through the tries of its job to its end. A try calls Reconcile on the tables.
-- * Retrieval (rag/): reciprocal rank fusion and the lexical reranker, and in Retrieval/Search
--   `RuleRetriever.search` with what it calls; Retrieval/Lookup finds chunks by their ids. The tools of
--   Workflow reach it through their adapters.
-- * Review (services/review.py, services/review_graph.py): a human decides an item of the queue,
--   which is then no longer in the pages of Review/Pending.
-- * Trace (schemas/trace.py, services/trace.py): the checks of a `TraceSpan`, its row (Trace/Rows), the
--   saving and reading of rows (Trace/Saved), and the snapshot that is persisted (Trace/Snapshot).
--   Trace/Recorder has `TraceRecorder`, Trace/Builder its spans, and Trace/Flow the calls that a flow
--   makes, as a tree: a body within `with recorder.span(...)` is a subtree. Ids and clock readings stand
--   in the calls.
--
-- How values are modelled: amounts are whole cents or NaN once the code has rounded them; scores and
-- confidences are counted in ten-thousandths; times are counts of ticks, a time of day is a count of
-- minutes, a date is its ordinal. An exception that a function lets through is `none` or a constructor
-- of the function's result. The loops are structural recursions on the rows, the rules, the results or
-- the attempts that are left, but for the two waiting loops of Llm/RateLimit, which run on fuel: the
-- waiting time in polls and two more are enough. A table is the list of its rows in the order of
-- their insertion, a transaction one step; the database's clock is an argument.
--
-- Parameters for code that is not in the repository: `datetime.fromisoformat` and `date.fromisoformat`
-- (Router/Rows, `Calendar`), the printing of decimals (Workflow/States, `World`), the model's answer
-- behind `complete_structured` (Audit/Model, `Completion`), the schemas, adapters and predicates of the
-- tools (Tools, `ToolDefinition`), JSON and the schemas of pydantic (Llm/Structured, Trace), the
-- answers of Redis (Llm/Cache, Llm/RateLimit), floats, the vector store, the sparse index and the
-- tokens of a text (Retrieval, `Floats` and `Backends`). What one try of a job meets, exceptions
-- included, is an `Attempt` (Jobs).
--
-- Not modelled: the HTTP interface, embeddings and the synchronisation of the vector store, the
-- selection of a run for the replay, metrics, streams and the tables that no decision reads; the calls
-- of the model's API; the validation of the input's data frames; the stored runs of LangGraph behind a
-- review. `int` reads ASCII digits only; a candidate of the fuzzy pass keeps its amount and date
-- unprinted; the log rows, stream rows and spans that these components emit are left out, for no branch
-- reads them.
pub mod Base
pub mod Breaker
pub mod Rules
pub mod Amount
pub mod Router
pub mod Reconcile
pub mod Tasks
pub mod Jobs
pub mod Retrieval
pub mod Review
pub mod Audit
pub mod Tools
pub mod Trace
pub mod Llm
pub mod Workflow
