-- ===== src/Lib.antt =====
-- A verification library for Repo-Agent, which answers questions about a repository: a gateway takes
-- a request, an orchestrator plans it, calls agents over MCP (an indexer, a graph query agent, a code
-- analyst, a memory agent) and synthesises an answer with a language model. The library models the
-- parts that decide: what is admitted, what is called again, what is counted, what is kept.
--
-- The parts and their files:
-- * Resilience (core/src/core/resilience). Resilience/Breaker is CircuitBreaker of
--   circuit_breaker.py: `read_state`, `guard`, `record_success`, `record_failure`, `snapshot`, and
--   `run` split into `guard` and `complete`, so that the calls of several tasks interleave as a list
--   of events. Resilience/Registry is CircuitBreakerRegistry of the same file, one breaker to an agent.
--   Resilience/Retry is await_with_timeout_retry of retry.py: the ends of the attempts are its input.
--   Resilience/Bucket is _AgentSessionBucket of session_pool.py; each of its operations is a critical
--   section under the bucket's condition, and Resilience/Bucket/Steps interleaves them for many tasks.
--   Resilience/Pool is `_call_with_session` and `call` of AgentSessionPool, over the bucket and the
--   retry: the sequence of attempts of one call.
-- * Gateway (core/src/core/gateway.py, gateway/src/gateway/app.py). Gateway/RateLimiter is
--   SlidingWindowRateLimiter. Gateway/Events and Gateway/Payload are the helpers that shape the events
--   of a chat; Gateway/Stream is ChatGatewayService.stream, with `_emit_routing_and_agent` in
--   Stream/Routing and what its waiting branch reads in Stream/Waiting; what handle_query does, its
--   callbacks and its end, is an argument. Gateway/Run is ChatGatewayService.run, which collects the
--   events. Gateway/Jobs is IndexJobRegistry with `_run_index_job` and `_follow_index_job` of app.py.
-- * Llm (core/src/core/llm). Llm/Pricing is the resolution of rates and the cost of a call of
--   pricing.py.
-- * Observability (core/src/core/observability). Observability/Ledger is TokenLedger of ledger.py,
--   with TokenUsage of llm/provider.py; it prices its calls with Llm/Pricing.
-- * Orchestration (core/src/core/orchestration). Orchestration/Budget is RequestBudget of budget.py,
--   which reads the ledger's snapshots. Orchestration/Loop is run_refinement_loop
--   of loop.py; it asks the budget before each round, and takes run_plan, merge_agent_outputs,
--   evaluate_evidence and refine_plan as arguments. Orchestration/Models is the data that is passed
--   around, of models.py. Orchestration/Router is router.py: Router/Names, with the word list
--   Router/Fillers, the entities of a query, Router/Rules the rules, Router/Intents the way from a
--   route or the model's answer to a plan.
--   Of executor.py, Orchestration/Executor/Tools is the choice of tools, Executor/Candidates the hits
--   of a result and which of them are analysed, ranked as Querying/Ranking does, and Executor/Graph
--   with Executor/Run the graph agent of run_plan: how each `_call` ends is an argument.
--   Orchestration/Evidence is evidence.py: Evidence/Findings and Evidence/Terms, with
--   Evidence/Stopwords, what it reads, Evidence/Assess evaluate_evidence, with scope.py,
--   Evidence/Refine refine_plan and Evidence/Merge merge_agent_outputs. Orchestration/PromptBudget is
--   apply_prompt_budget of prompt_budget.py.
-- * Indexing (core/src/core/indexing, core/src/core/graph). Of indexer.py, Indexing/Imports is
--   resolve_relative_module and bindings_from_imports, and Indexing/Names _follow_reexports and
--   _resolve_name, on the dotted names of Indexing/Dotted. Indexing/Run is index_repository and
--   index_file, on the graph of Indexing/Graph, which is what the Cypher of graph/upserts.py does to
--   the rows of files, functions and calls. The walk over the directories, the parser, the digest and
--   the tables that a name is resolved against are arguments of a run.
-- * Querying (core/src/core/querying). Querying/Safety is safety.py and _ensure_limit of service.py:
--   the guard that a query passes before it is run in a read-only transaction. Safety/Pieces says what
--   a query is made of, without the scanner. The rest of service.py
--   is Querying/Ranking (the order of hits, the names a question stands for), Querying/Lucene
--   (lucene_query), Querying/Hits (the shapes of rows and their merging) and Querying/Service, which
--   is GraphQueryService: every query runs through execute_query, that is through the guard, and
--   Service/Search is retrieve. The Cypher texts and what the database answers are arguments.
-- * Analysis (core/src/core/analysis). Analysis/Snippets is get_snippet and
--   cap_module_snippet_range of snippets.py, with the lines of the file as an argument.
-- * Memory (core/src/core/memory), service.py. Memory/Tables holds the tables and the inserts,
--   Memory/Summary append_turn and summarize_session with the language model as an argument,
--   Memory/Recall get_context, Memory/Responses the cache of responses.
-- Prelude holds what they share: tests on the native numbers, lists, signed settings, dictionaries,
-- texts as lists of code points with their searches, JSON values, a stable sort.
--
-- Conventions. Mutable objects are records that each operation returns changed. A method that reads
-- the clock takes the readings as arguments, one for each; what an awaited call does is an argument
-- as well. An exception is a constructor of the result. Times are whole ticks, money whole multiples
-- of a billionth of a dollar where the source computes with floats: rounding of floats is not
-- modelled, the ledger's round to eight places is. A signed setting is a ℤ, and the clamp that the
-- source applies to it is written out; the score of a hit is a whole number of a fixed unit. Texts are
-- ASCII where the source upper-cases or strips them.
--
-- Recursion is structural everywhere but in `decimal` of Prelude/Text, which runs on fuel, one more
-- than the number it prints, and a number has at most that many digits; in `slices` of
-- Gateway/Events, on the length of the text, which each chunk shortens; and in `nearest` of
-- Indexing/Dotted, on the length of the name, which each step up shortens. The polling of an index job
-- reads a list of rounds, and its deadline ends it. The retry loop counts its
-- attempts down, the refinement loop its rounds, the truncation of a prompt its 64 and the re-exports
-- of a name their 5 passes, from the bounds of the source.
--
-- Not modelled: logging, tracing and metrics, which only write; the transport of MCP, FastAPI, Neo4j
-- and SQLite, which are libraries (the tables of the memory service are modelled as lists); the
-- parsing of Python by its ast module; the language models. Nor are the rest of the indexer, the calls
-- of the analyst and the indexer in the executor, the synthesis, the composition in the orchestrator's
-- service and the evaluation harness. str() of a JSON value that is not a text is an
-- argument. Regular expressions are written out as scans of ASCII text.
pub mod Analysis
pub mod Gateway
pub mod Indexing
pub mod Llm
pub mod Memory
pub mod Observability
pub mod Orchestration
pub mod Prelude
pub mod Querying
pub mod Resilience
