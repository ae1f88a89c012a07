-- ===== src/Lib.antt =====
-- A verification library for the CTV attribution pipeline (Python): households see exposures, conversions
-- arrive from devices, a device graph resolves each conversion to one household or to several, an engine
-- credits the last touch in a window, and a reconciliation pass over the lake of record recovers what
-- the engine missed.
--
-- The parts, and the files that model them (paths from the repository's root):
-- - Model: producer/models.py, the rows and the validator of an attributed row.
-- - Resolve: resolve/index.py, resolve/resolver.py, resolve/metrics.py; `from_households`, `resolve_one`,
--   `resolve_stream` and the counters. The engine calls it through `resolve_conversions`.
-- - Attribute: streaming/attribute.py. Dedup is `dedup_by_id` and `dedup_streams`; Candidates is
--   `one_row_per_conversion` and `candidate_households_by_conversion`; LastTouch is `last_touch` and
--   `attribute_household`; Streaming is `attribute_household_streaming`, whose loop is `steps` over a
--   record `Pass` of its local variables; Oracle is `attribute`, which never evicts.
-- - Engine: streaming/dataflow.py and streaming/metrics.py, `run_attribution` and `run_engine` from the
--   drained rows, with the counters passed along. Rows, Buckets and Groups relate the rows of a run to
--   its buckets and groups by household; Resolved is about the streams that the resolver makes.
-- - Lake: lake/land_exposures.py, lake/land_attributed.py, lake/read_attributed.py and
--   lake/read_exposures.py, an append-only log and its reads.
-- - Reconcile: reconcile/reconcile.py, from the candidates of the lake to the corrections that a pass
--   lands.
-- - Table: a ReplacingMergeTree table, as the log of its inserts with the view that `final` gives of it;
--   Final, Shown and Sorted are about that view.
-- - Serving: clickhouse/ddl.sql and lake/load_serving.py, the serving tables, the loads of a day and the
--   marks of the keys that they touch; Serving/Rollup: reconcile/rollup.py, the refresh of the marked
--   keys, the whole-table rebuild and the report snapshots.
-- - Orchestration: orchestration/run.py, orchestration/replay.py, orchestration/assets.py, the end of
--   reconcile/reconcile.py and of lake/destructive.py, and clickhouse/write_marker.py. A `World` is the
--   lake and the serving tables; each operation gives what it returned or raised and the world it left.
--   Steps has the relation between worlds that the operations make.
-- - Kafka: common/kafka.py. LakeRoot: lake/iceberg_catalog.py and lake/destructive.py, the root of the
--   lake and its reset. Accuracy: accuracy/score.py and accuracy/guard.py. Scrape:
--   observability/ch_scrape.py. Agent: agent/hypotheses.py, agent/finding.py, agent/loop.py,
--   agent/eval/scenarios.py, agent/eval/scoring.py and agent/eval/run_eval.py. Producer: producer/config.py and
--   producer/generate.py, the checks on a profile and the stream's ingest times and re-sends.
-- - Base, Sort and Dict: Boolean tests, lists, results, stable sorts, sorted sets and Python's dict in
--   insertion order. Tests: runs at concrete inputs.
--
-- How values are represented: an identifier or a name, which the code only compares, is a number; an
-- instant is a number of milliseconds since the least datetime, a day a number of days since then. A
-- difference below the least datetime is an OverflowError, which the definitions raise; instants have no
-- greatest, so an overflow at the year 9999 is not modelled. Money is in cents; a rate is a fraction.
-- Code that raises returns a `Result`. A set is the list of its members, ascending where it is compared.
--
-- Loops recurse on their input and need no fuel. The rounds of the agent's loop are bounded by
-- `max_rounds`, as in the code. The loops over a broker's polls and over storage samples run on a list
-- of answers; a list that ends before the loop does gives `none`.
--
-- Parameters, for code outside the repository: the hash of the table format (`bucket_of`), the language
-- model, the probes' queries, the schema check of a payload, and Python's random numbers, with
-- `rng.uniform` as a function of one. A left join of the rollup that finds no stamp counts as dirty, as
-- its comment means it; by ClickHouse's defaults the stamp is then the year 1970.
--
-- Not modelled: Kafka, ClickHouse, DuckDB, Iceberg and Dagster calls beyond what their statements say,
-- metrics of the load, lake maintenance, the graph and the loop of the producer, the command lines,
-- rendering, and development scripts.
pub mod Base
pub mod Sort
pub mod Dict
pub mod Model
pub mod Table
pub mod Resolve
pub mod Attribute
pub mod Engine
pub mod Lake
pub mod Reconcile
pub mod Serving
pub mod Orchestration
pub mod Agent
pub mod Accuracy
pub mod Kafka
pub mod LakeRoot
pub mod Scrape
pub mod Producer
pub mod Tests
