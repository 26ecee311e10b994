-- ===== src/Lib.antt =====
-- A model of the RAG knowledge platform: documents of a tenant are uploaded, parsed, cut into chunks,
-- embedded and stored by a worker, and then retrieved and cited in answers.
--
-- The parts, and the code that each models:
--
-- - Prelude, Text: Boolean tests, lists, and Python's `str` as the list of its code points, with
--   `split`, `join`, `strip` and `==`. Prelude/ and Text/ hold their lemmas.
-- - Errors: src/rag_platform/exceptions.py. A call that may raise returns a `Result`; `Exc` also has
--   Python's own exceptions and those of libraries.
-- - Chunking: src/rag_platform/ingestion/chunking.py. Sentences is `_sentences` with its regular
--   expression as a scan, Packing is `_merge_meta` and `chunk_blocks`, whose nested `emit` works on the
--   fields of `Packer`. Chunking/Contract proves what `chunk_blocks` promises, which
--   Packing/Promise states, by the lemmas of Packing/Windows and Packing/Progress. Sentences/Bounds and
--   Sentences/Coverage prove what it needs of sentences.
-- - Database: the tables of src/rag_platform/models.py that the pipeline uses, as lists of rows, with
--   the keys that the models declare, and the queries of the services. Database/Where says what it is to
--   be the rows that a WHERE clause picks.
-- - Ingestion: src/rag_platform/services/ingestion.py. A method takes the committed database and
--   returns its outcome beside the database that it leaves committed; what a rollback discards is never
--   part of it. Ingestion/Process and Ingestion/Redelivery are about `process`, Ingestion/Register
--   about `register`, Ingestion/Raises about the exceptions of its steps.
-- - Worker: src/rag_platform/worker/tasks.py. `ingest_document` is one delivery of the task, and
--   `deliver` the task with its retries. Its fuel counts deliveries: `worker_max_retries` + 1 are enough,
--   which is part of the theorem on it.
-- - RateLimit: src/rag_platform/ratelimit.py.
-- - Sorting: Python's `sorted` by a key. Retrieval: src/rag_platform/retrieval/service.py, and
--   Retrieval/Repository is src/rag_platform/retrieval/repository.py with the rows of Database. A dict is
--   an association list in the order of insertion. Retrieval/Fusion is about the fused scores,
--   Retrieval/Repository/Isolation about the tenants of the hits, and Retrieval/Isolation about the search
--   as a whole, by the lemmas of Retrieval/Answers on its steps and of Retrieval/Dicts on its dicts.
-- - Answering: src/rag_platform/services/answering.py, and the events of src/rag_platform/llm/base.py.
--   Answering/Citations is `format_location` and `_cited_only`, the expression for markers as a scan;
--   Citations/Seen and Citations/Members are about the loop and the lists of markers in it, and
--   Citations/Cited about its result. Answering/Streaming is about `stream`. Usage rows are a list.
-- - Parsers: the scanner of markdown in src/rag_platform/ingestion/parsers.py, and `str.splitlines`. The
--   two expressions are functions on a line. Parsers/Markdown is about the words of the blocks.
--   Parsers/Formats is PDF, HTML and `parse_document`. Parsers/Outline is about HTML, by the lemmas of
--   Parsers/Headings on the stack of headings, and Parsers/Extracts about all three.
-- - Documents: the uploads of src/rag_platform/api/routes/documents.py, and `source_type_for_filename` of
--   the parsers. Documents/Batch is about the batch upload. Documents/Owned is the reading, listing and
--   deletion of documents, with Owned/Deleting and Owned/Listing about the last two (Owned/Order is the order of the
--   list), and Documents/Events
--   the stream of a document's status, as a loop on fuel that counts the polls: 300 seconds with 2 between
--   the polls take 152 at most. Events/Protocol is about the stream. The rows that the polls read and the clock are functions.
-- - Security: src/rag_platform/security.py, the credentials of models.py, and the commands of
--   src/rag_platform/cli.py that make and revoke them. Security/Credentials is about the table, and
--   Security/Tokens about the tokens.
-- - Auth: src/rag_platform/api/routes/auth.py, and the guards of src/rag_platform/api/deps.py that
--   src/rag_platform/main.py puts before the other routers. Auth/Access, Auth/Revocation (with
--   Auth/Revoked) and Auth/Throttle are about the life of a credential, and Auth/Live and Auth/Guarded
--   about what a guarded handler may assume.
-- - Usage: src/rag_platform/api/routes/usage.py over the usage rows with their times; Usage/Totals is about
--   the totals.
-- - Evals: the scores of evals/run_eval.py. Evals/Hits is about the hits, and Evals/Facts
--   about the facts, by Evals/Tallies on the loop and Evals/Parts on `in`.
-- - Configuration: src/rag_platform/config.py and src/rag_platform/llm/factory.py, and the factories of
--   deps.py and run_eval.py that make services of the settings. Configuration/Chunks is about their chunk
--   sizes.
-- - Providers: src/rag_platform/llm/fake.py. Providers/Fakes is about these providers. The arithmetic on vectors
--   and what `\w` matches are parameters.
-- - Lifecycle: the steps that change documents and chunks, in any order, as a relation on databases.
--   Lifecycle/Integrity is about all of them, Fits, Processing and Registering hold what it needs.
-- - Routes: src/rag_platform/api/routes/search.py and answers.py, and `handle_app_error` of main.py.
--   Routes/Searching puts the guards, the route and the search together, Routes/Answers the route and the
--   usage rows, by the lemmas of Answering/Streaming and Answering/Metering.
--
-- Parameters. What is not in the repository is an argument: the embedder's `embed_documents`, `str` of
-- a UUID, the hash, Redis as a record of its two commands. What is assumed of them stands in the
-- theorems' hypotheses: `IsCounting` (Redis answers, INCR counts, EXPIRE keeps the value within the
-- window), and `NeverNotFound` (neither the parser nor the embedder raises `NotFoundError`).
-- `parse_document` is a field of `Ports`. Embeddings are of any type. What PostgreSQL computes for a
-- query is an `Engine`: the cosine distance, the match and the rank of a text, and the rows that a scan
-- of the approximate vector index visits, which `IsScan` says are stored rows. Floats are a type with
-- the operations of `Floats`, of which nothing is assumed. `embed_query` and `rerank` are functions,
-- and `IsAnswering` says that they return, with one score for each text. `top_n` is not negative, which
-- the routes see to. Which characters are digits, and their values, is a function, and so is the
-- provider's `generate`; a provider's stream is the list of what it yields, with the exception that
-- ends it, if one does. `Prices` is the arithmetic on prices, and `Costs` that on the
-- costs of the rollup. The
-- decoding of UTF-8 is a function that may fail, and whether the broker takes the task of a document is
-- a function of its id. `Texts` and `Vectors` are what the fake providers use. `Names` is `str.lower` and `repr`.
-- `HtmlParser` is Beautiful Soup, and a PDF is the pages that pypdf reads, each with what its
-- `extract_text` does; the methods of Beautiful Soup on what it has parsed do not fail, and
-- `IsStripping` says that `get_text` with `strip=True` returns a text without spaces at its ends.
-- `Crypto` is PyJWT, SHA-256 and UUIDs as text, and `IsSound` what is documented of them: a token gives
-- its payload back until it expires, and a UUID its value. A UUID and a time are numbers.
--
-- Bounds. Numbers are naturals; token counts, sizes and limits are not negative in the program. The
-- estimate of tokens is exact arithmetic, which the float division of the code agrees with below 2 ^ 50.
-- The cut of a list into slices takes the list's length for its fuel, and digits of a number take the
-- number, which is enough in both cases (`concat-slices` proves it of slices).
--
-- Not modelled: failures of the database server other than key conflicts, updates that other sessions
-- make while a call runs, the encoding of events and responses, the health routes, request ids, logging,
-- metrics, tracing, the configuration of Celery, the migrations, the parsing of the command line and its
-- commands other than those on credentials, evals/answer_eval.py, the frontend, the benchmarks and the
-- deployment.
pub mod Prelude
pub mod Text
pub mod Errors
pub mod Chunking
pub mod Database
pub mod Ingestion
pub mod Worker
pub mod RateLimit
pub mod Sorting
pub mod Retrieval
pub mod Answering
pub mod Parsers
pub mod Documents
pub mod Security
pub mod Auth
pub mod Routes
pub mod Lifecycle
pub mod Usage
pub mod Evals
pub mod Configuration
pub mod Providers
mod Tests
