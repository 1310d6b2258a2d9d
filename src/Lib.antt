-- ===== src/Lib.antt =====
-- A model of the batch path of the lakehouse pipeline, in src/ecommerce_pipeline of the repository.
--
-- The pipeline reads an outbox table of PostgreSQL into append-only Bronze tables, builds Silver and
-- Gold from them, and publishes a Gold release. One command runs the stages; manifests carry what one
-- task hands to the next, and the progress of each stage travels in the commit metadata of the Delta
-- tables that it writes.
--
-- The files, and the code that each models:
-- - Prelude, Result, Dict and Json: Python's tests, exceptions, dicts and `json` module. An error
--   keeps its class and the fixed part of its message; `is_exception` is what `except Exception`
--   handles. A dict is the list of its entries in insertion
--   order. `JsonCodec` is what the code relies on of `json.dumps` and `json.loads`: a value without
--   repeated keys is read back from its text, and what is read has no repeated keys.
-- - Contracts: contracts/*.py. The tables of each layer, the typed CDC contracts and the topics.
-- - Manifest: control/manifests.py. `from_results`, `serialize_manifest`, `deserialize_manifest`.
-- - Delta: the progress readers of adapters/lakehouse.py. A table's history is the list of its commits,
--   newest first, and `DeltaLog` is what an append-only table promises: a write is one commit with its
--   metadata, and adds its rows at the end. The bounded scan reads 100 commits, as the code does.
-- - Release: control/gold_releases.py, and the pinned reads of `LakehouseAdapter.read_table`.
--   `DeltaProperties` is what a table's version and properties promise; a property is read back where
--   its SQL literal has no quote and no backslash, since `_sql_literal` leaves backslashes as they are.
-- - Ingest: ingestion/batch/*.py and the guards of adapters/postgres.py. Query has what the SQL selects
--   of the outbox, Table one table's run, Extract the run over all the selected tables. The outbox is
--   the list of its events. The tables of one batch are different ones, each with its own state, so that
--   the order in which the threads commit does not show. After the first table that raises, which of
--   the later ones the pool still runs is a parameter; what was committed stays.
-- - Jobs: jobs/run_batch.py and control/batch_runs.py. A run is the list of its steps with its result,
--   so that an exception keeps the steps before it. The stages, the Spark session, the configuration
--   and the taking and the release of a lock are parameters, any of which may raise; the taking may raise
--   before or after it has the lock.
-- - CloudLock: control/cloud_lock.py. The lock row and the owners inside the lock are one state; each
--   MERGE, read, release and passing of time is a step, in any order. A MERGE is atomic, and times are
--   numbers of one clock.
-- - Postgres: `PostgresReader.with_retry` of adapters/postgres.py. How the call of each attempt ends is a
--   parameter, and a run has the delays that it slept, floats as dyadic fractions.
-- - Debezium: contracts/cdc_events.py, the validity of an event in ingestion/streaming/debezium.py and
--   the reason of its quarantine in cdc_decoder.py. What `from_json` reads is a parameter.
-- - Queue: control/gold_reconcile_queue.py. The queue is the list of its rows; `upsert` is the merge of
--   `LakehouseAdapter.upsert_table` under the options that the queue uses.
-- - Upsert: `LakehouseAdapter.upsert_table`. A row is a function of its column names, a cell a value or
--   NULL, and the SQL conditions that the code writes are terms that `eval` reads in three-valued
--   logic. `DeltaTables` is what the adapter relies on of Delta tables: `merged_rows` is the documented
--   meaning of a MERGE, and a table holds its rows in no particular order. Whether a table exists is
--   one with `target_exists`.
-- - Scd2: transformations/gold/scd2.py. Windows are recursions over the ordered events of one entity;
--   the join by `_history_event_id` is a search in the boundaries. The hash of the surrogate key, the
--   open end and the time of the job are parameters.
-- - FactSales: the money columns of transformations/gold/fact_sales.py, for the lines of one order.
--   Amounts are cents, which the schema keeps from being NULL; the rounded quotient of Spark's decimals
--   is a parameter. Equal ids in a window keep an order that Spark leaves open.
-- - Silver: transformations/silver/*.py and pipelines/build_silver.py. The functions of Spark on values
--   and texts, and the reads of the Bronze table and of its change feed, are parameters. A run of a
--   table is a state with a result, so that an error keeps what was written before it. The tables of
--   `build_silver` are separate states; which of them ran when one fails is left open.
--
-- A component's module named Tests has the runs at concrete inputs, and one named Values a concrete
-- instance of an interface for them; Prelude/Tests has Python's Boolean tests. Numbers are unbounded,
-- as in Python. Every loop is a recursion on a list, so no definition takes fuel.
--
-- Not modelled: the Gold builder, the keys of its facts and the dimensions built of the replay, the
-- rest of the streaming path, the deadline of the cloud lock's waiting loop, configuration and
-- validation jobs, the data generator, and the infrastructure. Of the parts that are modelled,
-- timings, caches, log texts and the retries of the batch's reads are left out, and so is the order of
-- the threads in a pool, whose tasks each write a table of their own.
pub mod Prelude
pub mod Result
pub mod Dict
pub mod Json
pub mod Manifest
pub mod Contracts
pub mod Release
pub mod Delta
pub mod Ingest
pub mod Upsert
pub mod Scd2
pub mod Silver
pub mod Jobs
pub mod Queue
pub mod CloudLock
pub mod FactSales
pub mod Debezium
pub mod Postgres
