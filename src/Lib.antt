-- ===== src/Lib.antt =====
-- Chief Opportunity Intelligence Agent: a model of the backend's decision core.
--
-- The backend finds opportunities (jobs, grants, programmes), scores them against a user's goal and
-- lets a graph of agents investigate them. The parts modelled here, with the files of the
-- repository that they translate:
--
--   Enums          backend/app/models/enums.py, the shared enumerations
--   Lifecycle      backend/app/services/lifecycle.py: the statuses of an opportunity, the allowed
--                  moves and `transition`, which writes an event for each move
--   Decimal        the arithmetic of Python's `decimal` that the scoring engine uses
--   Scoring        backend/app/services/scoring.py: `Weights` (Scoring/Weights, with `build`,
--                  `with_override` and the profiles), `score` (Scoring/Engine) and `recommend`
--                  (Scoring/Verdict); Scoring/Stored is the stored form of a score, Scoring/Factors
--                  is backend/app/services/factors.py, Scoring/Service is
--                  backend/app/services/scoring_service.py with the table of scores
--   Gates          backend/app/agents/decision_gates.py: the gates that a recommendation passes
--   Urgency        the clock arithmetic of backend/app/services/freshness.py and factors.py
--   Tools          backend/app/tools/: registry, budget, rate limit, permissions and the executor,
--                  whose `invoke` (Tools/Invoke) is one call of a tool with its trace row
--   Investigation  backend/app/agents/{graph,routing,state,nodes}.py: the graph of agents, and the
--                  stages that backend/app/evaluation/trace_audit.py requires
--   Http           backend/app/api/middleware.py: the limiter of requests
--   Listing        backend/app/services/opportunity_service.py: filters and keyset pagination
--   Runs           backend/app/services/{agent_run_service,investigation_service}.py: the rows of
--                  runs and tasks, and the background run that drives the graph
--   Chunking       backend/app/retrieval/chunking.py: the splitting of a block that is too long
--   Retrieval      backend/app/retrieval/: reciprocal rank fusion (hybrid.py), the retriever
--                  (Retrieval/Retriever) and the ranking of profile passages
--   Memory         backend/app/memory/service.py: the append-only memory of facts about a user
--   Normalization  backend/app/services/normalization.py: texts, fingerprints, compensation
--   Opportunities  backend/app/models/opportunity.py: the rows, their events and the session
--   Dedup          backend/app/services/dedup.py: the four probes of `find_duplicate`, trigrams
--                  (Dedup/Titles) and seniority (Dedup/Seniority)
--   Ingestion      backend/app/services/ingestion.py: `ingest` (Ingestion/Store, Ingestion/Rows),
--                  `refresh` and `set_status` (Ingestion/Refresh), `ingest_many` (Ingestion/Batch)
--   Inference      backend/app/inference/gateway.py and observability/cost.py: `complete` with its
--                  cache, providers and costs (Inference/Gateway), and
--                  backend/app/agents/llm/structured.py (Inference/Json, Inference/Structured)
--   Egress         backend/app/security/egress.py: `validate_url` and `fetch`
--
-- Ingestion normalises an item, asks the probes for a row that is the same, and merges the item
-- into it or stores a new row with its events; the scoring service derives factors of a row, scores
-- them with the engine, keeps one score for each opportunity, goal and version of weights and moves
-- the row's status. An investigation runs the graph; its nodes call tools through the executor,
-- score candidates with the engine, pass the verdicts through the gates and read and write memory.
-- The factors of a score come from the clock arithmetic among others; ingestion and scoring move
-- statuses through `transition`. Agents ask the language models through the gateway.
--
-- State is passed explicitly: the session's rows are lists, the clock's readings and fresh ids are
-- arguments, exceptions are the `err` of a result. Numbers are unbounded as in Python. A decimal is
-- a coefficient and a number of places; results are rounded to 28 digits, half to even, as the
-- default context does. The graph runs under LangGraph's recursion limit, which stops it as
-- documented; a node may raise. The digits of a quotient are counted on fuel too: 28 and one more
-- for each unit of the divisor. A block is split on fuel for each of its words.
--
-- Parameters, since their code is not in the repository: what a tool does when it runs, JSON and
-- SHA-256 of a payload, the hash of a bearer token, the answers of the language models and the rows
-- that a query finds; Unicode's tables (Platform in Normalization); the cosine of two embeddings;
-- the resolver, the sockets and the parsing of URLs and addresses (Net in Egress); the providers of
-- language models and a schema's validation; what the nodes of the graph raise, and what the
-- flushes and commits of a background run raise; floats, embedder, stores and reranker of
-- Retrieval. Readers in Ingestion stands for `canonicalize_url`, `parse_deadline` and the freshness
-- decay, which read URLs, dates and floats with the standard library and are not modelled.
--
-- Not modelled: the `InvalidOperation` of `quantize` beyond 28 digits, which the scores and weights
-- of the program are far below; the expiry of the Redis cache; texts of explanations and reports,
-- float arithmetic (the decay of freshness, embeddings, metrics), routes, schemas, migrations, and
-- the services that only read and write rows. The rest of retrieval (parsing, stores, rerankers,
-- `chunk_text`), the content of what agents answer, passwords and tokens, and the sanitising of
-- external text are not modelled either.
pub mod Prelude
pub mod Normalization
pub mod Opportunities
pub mod Dedup
pub mod Ingestion
pub mod Inference
pub mod Egress
pub mod Samples
pub mod Enums
pub mod Lifecycle
pub mod Tools
pub mod Investigation
pub mod Http
pub mod Decimal
pub mod Scoring
pub mod Memory
pub mod Gates
pub mod Urgency
pub mod Listing
pub mod Runs
pub mod Chunking
pub mod Retrieval
