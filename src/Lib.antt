-- ===== src/Lib.antt =====
-- ChatDoc answers questions about financial PDFs and shows only answers that it can ground in the
-- text of the document. This library models the API, the ingest worker and the retrieval and
-- grounding code as functions on explicit state.
--
-- A user registers and logs in (Auth for api/auth.py and api/deps.py, Csrf for api/csrf.py,
-- Routes for api/routes_auth.py), uploads a PDF (Routes for api/routes_documents.py, Storage for
-- api/storage.py) and so enters a row into documents and one into the job queue (Documents for
-- api/documents_repo.py, Jobs for api/jobs_repo.py). A worker (Worker for api/worker.py) claims
-- the job, reads the blob, cuts the pages into chunks (Chunker for ingest/chunker.py) and writes
-- them in batches with their embeddings (Pipeline for ingest/pipeline.py, IngestDb for
-- ingest/db.py). A question (Query for api/routes_query.py and api/query_service.py) retrieves
-- chunks (Retrieval for ingest/retrieval.py), streams the answer of the model and ends with an
-- answer or a refusal, as the gate decides (the client of the model is GeminiClient for
-- eval/gemini_client.py; Query.Thread has the worker thread that reads the model's stream beside
-- the loop that sends the events; Gate for eval/gate.py and eval/gate_schema.py, Normalize for
-- eval/normalize.py). The evaluation runs splits of questions (Dataset for the records under
-- eval/data, BuildDataset for eval/build_dataset.py, which sorts out the answers that can be
-- graded, Negatives for eval/build_negatives.py, which makes the unanswerable ones) through the
-- same retrieval and model, under a quota guard (Quota for eval/quota_guard.py), and keeps what
-- it gets in a cache (Cache for eval/cache.py), so that a run can stop and be resumed (Runner for
-- eval/runner_v2.py; Baseline for eval/runner.py, the naive runner, which also looks a prompt up
-- before it calls the model). The gate is then replayed offline on what was kept (Ablation for
-- eval/ablation.py), and the continuous integration compares the result with a baseline
-- (Regression for scripts/check_eval_regression.py). RetrievalEval has the naive retriever and
-- the measures of a retriever (eval/run_retrieval_eval.py, eval/run_retrieval_eval_v2.py).
--
-- Database holds the tables of db/schema.sql as lists of rows in the order of insertion, with the
-- columns that the code reads. Each SQL statement is one function on the database: connections
-- are in autocommit mode, so a statement is a transaction of its own, and an UPDATE or DELETE
-- with its WHERE is update_where or select of Prelude.Lists. ON DELETE CASCADE is written out in
-- delete_document. A UNIQUE or foreign key violation is an outcome (Result, Violation); an
-- HTTPException is http_error of Http with its status. Times are seconds that the caller gives,
-- the worker's progress clock is a list of readings in milliseconds. A random token, salt or key
-- is an argument.
--
-- Prelude has the tests on numbers, lists, texts as lists of code points (with the str methods
-- the code calls, for ASCII) and dicts in insertion order. Floats is the interface of Python
-- floats: a type and the operations used, of finite numbers; where an order matters,
-- Retrieval.Ranking.Ordered states its laws as a hypothesis. Storage.Storage is the interface of
-- the two storage backends with its laws; Storage.LocalStorage fills it from the code,
-- Storage.R2Storage from the S3 client, which is a parameter with the documented behaviour of its
-- calls. Auth.PasswordHasher is argon2 with the law that a hash verifies its password.
--
-- Other parameters stand for code outside the repository: the pages, blocks and tables that
-- PyMuPDF finds (records of Chunker; a PDF that it refuses is none), the embedding model and the
-- cross-encoder (functions on texts, the first with one vector for each text as a named
-- hypothesis), the order in which PostgreSQL returns search hits, the parser of the model's JSON,
-- and the text of an exception. What a call of the Gemini SDK gives is an argument (SdkResult, or
-- the arrivals of a stream). The texts of a PDF's pages, the places that the random generator
-- draws, a prompt's key in the cache, the text of a prompt template, and math.log and math.sqrt
-- are parameters too. Rows that another transaction has locked, which SKIP LOCKED passes over,
-- are a predicate given to claim_job.
--
-- Routes.Served puts the parts together, from the upload over the claim and the job to the
-- question. Runs are sequences of steps: Jobs.Steps for the queue, with any interleaving of
-- workers, uploads and deletions; Auth.Lifetime for sessions; and for the event stream the turns
-- of Query, what the loop meets at each turn, which Query.Thread makes of any interleaving (Act)
-- of the steps of the worker thread, the callbacks that it hands to the loop and the turns of the
-- loop. The readings of the clock while a call waits for a token are a list; Quota.Ends says how
-- long a list is enough. Loops are structural, or on fuel with the length of the text as fuel:
-- windows of Prelude.Windows (for the prose of Chunker and the words of RetrievalEval),
-- read_chunks of Storage.Streams and findall of Normalize each take at least one character a
-- turn; the theorems on these components show that the fuel reaches the end.
--
-- Quota counts time in milliseconds and tokens in 60000ths, so that a bucket of a whole number of
-- requests a minute is exact; the clock readings and the answers of the API are lists, and what
-- is left unanswered at the end of a list is an outcome of its own. Runner takes for each record
-- the date and the answers of its turn. Keys of the dicts of a kept generation are numbers, as
-- eval/ablation.py makes them from the JSON, and its parsed answer is the model that it validates
-- to.
--
-- Not modelled: the downloads and manifests of the datasets, the text of the prompt template, the
-- comparison of two measurements and the command lines under eval/, tracing, the other scripts,
-- the web client and the start-up code. An exception of the embedding model or of the database
-- connection in the middle of an ingest is not an outcome of the model, and an ingest runs
-- without another transaction in between.
pub mod Prelude
pub mod Floats
pub mod Database
pub mod Documents
pub mod Jobs
pub mod Auth
pub mod Normalize
pub mod Gate
pub mod Retrieval
pub mod Query
pub mod Chunker
pub mod IngestDb
pub mod Pipeline
pub mod Storage
pub mod Worker
pub mod Csrf
pub mod Routes
pub mod Cache
pub mod Quota
pub mod GeminiClient
pub mod Dataset
pub mod BuildDataset
pub mod Negatives
pub mod Ablation
pub mod RetrievalEval
pub mod Runner
pub mod Baseline
pub mod Regression
pub mod Examples
