-- ===== src/Lib.antt =====
-- AIDataPipeline: services that bring the documents of tenants into vector indexes and answer
-- questions over them. A connector lists a bucket or a file tree and publishes an event per object;
-- the document processor fetches, parses and cuts each into chunks; the embedding worker embeds the
-- chunks and writes them to the collection of their tenant; the RAG API answers queries from that
-- collection through a cache and a circuit breaker; the metadata service stores what the others
-- report of documents, chunks and embeddings and how one comes from another; the quota service
-- counts what tenants use; the BFF is what users call, and the operator keeps the Kubernetes
-- resources that all of this runs on.
--
-- Where the code is:
--   Prelude/    lists, integers and case splits over the native numbers, and Action, a state and
--               exception monad in which what was written before an exception stays written
--   External/   what lies outside: Redis commands and their laws; Database, a psycopg2 connection with
--               its transaction; Pool, asyncpg statements that commit by themselves; Kubernetes, the
--               requests of its API; and Calls, a log of the calls made of brokers and databases,
--               each with whether it returned. Memory and Session are instances that meet the laws
--   Quota       services/quota-service/src/quota_service.py; Limits is db_queries.py and the limit
--               function of server.py; Server is the HTTP and gRPC adapters of server.py; Admission
--               and Usage hold theorems
--   Processor   services/doc-processor/src: Chunker is chunker.py, Document is processor.py,
--               events.py and status.py
--   Embedding   services/embedding-worker/src/worker.py, `_process_batch`; Grouping is its grouping
--               of rows by tenant
--   Connector   the retry loop, events.py and status.py of services/connector-s3/src, which
--               services/connector-nfs/src has too; S3 is the former's connector.py and watermark.py,
--               Nfs the latter's connector.py
--   Rag         services/rag-api/src: Breaker is circuit_breaker.py, Service is app.py and models.py,
--               Service/Reliance what it relies on of what lies outside
--   Metadata    services/metadata-service/src: Tables is the statements of db.py that write, as
--               functions of the tables, Writes its functions over a connection, Events and Consumer
--               are events.py and consumer.py, Lineage the recursive queries of db.py, Versions its
--               schema versions and stale embeddings. Consumer/Changes is the abstract view of an
--               event, as a change of the tables with no transaction and no failures
--   Operator    services/pipeline-operator/operator: Upgrade is the coordinated upgrade of handlers.py,
--               Resources its other handlers with the names of rbac.py, Manifests the objects that
--               k8s_real_client.py and rbac.py write, Client the requests of k8s_real_client.py and
--               what it inherits from k8s_client.py; Client/Reconcile and Client/Upgrading put the
--               handlers on top of the client
--   Bff         services/bff/src: Auth is auth.py, Sources is user_sources.py, Workspaces is
--               user_endpoints.py on db_client.py, Admin is admin_endpoints.py, Ssrf is
--               ssrf_validator.py
--
-- A method of a Python class is a function of the same name into Action (or, where it has no
-- effect, a plain function); a method that the source writes as one body is cut at its early
-- returns into functions that call each other in the order of the source. The state of a service
-- is a record; a mutable dict of Redis, Kubernetes or Kafka is behind a parameter. Every call that
-- may raise is answered by a parameter, so the theorems hold whatever fails; a theorem that needs
-- more names it as a hypothesis, and the module of tests beside it applies it to a concrete outside.
--
-- A statement of SQL is a function of the tables that it touches, with the constraints that it
-- relies on (the keys of ON CONFLICT, the references of the BFF's tables); a connection is a
-- parameter whose laws say what a statement and a commit do, failing or not. Rows are in the
-- order in which they are inserted, and answers that the source leaves unordered are in that
-- order; the order of the files of a workspace, by a column with ties, is a parameter.
--
-- Bounds: the recursive queries run as many rounds as their limits on the depth, 5 and 4, which
-- is enough, since a row at the limit leads to no other; the chunker's loop runs on fuel, the
-- number of tokens, which is enough since every step moves by at least one; the retry loops run
-- on the attempts left, five as in the source; waiting for Kafka to drain runs on fuel, one
-- round for every five seconds of its timeout and one more. Python integers are unbounded, so
-- counters are integers and sizes natural numbers. Times are natural numbers (milliseconds or
-- microseconds); scores, which are floats, are a parameter with a comparison.
--
-- Not modelled: reading the environment, logging, tracing and the wiring of main.py in each
-- service; pymilvus, sentence-transformers, tiktoken, jose and kubernetes-asyncio, which are
-- parameters; the reports of the metadata service that are one select each (runs, quality,
-- provenance); the merge that a Kubernetes patch makes, a parameter; timestamps of the database,
-- `updated_at` among them; whether a message that a Kafka producer took reaches the broker,
-- since a call of the producer that returns has only queued it; checks of several clients of the
-- quota service whose Redis commands interleave; the operator's token helpers and the conversion
-- of intervals to cron schedules; the BFF's list of connectors and its endpoints that delegate
-- to Keycloak; the front end, the migrations and the deployment files.
pub mod Prelude
pub mod External
pub mod Quota
pub mod Processor
pub mod Embedding
pub mod Connector
pub mod Rag
pub mod Metadata
pub mod Bff
pub mod Operator
