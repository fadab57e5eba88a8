-- ===== src/Lib.antt =====
-- A model of the o11y insights function: it lists Azure resources, reads their metrics, and writes
-- one row for each finding, either of resources that are hot now (Ops) or that are cold over a
-- longer window and may be resized (FinOps).
--
-- The parts and the files that model them:
--   Models      src/models.py and src/errors.py: the records, the tags and properties of a resource
--               (Models/Props), and the counters of a run (Models/Summary).
--   Config      src/config/models.py: thresholds, windows and metric thresholds; Config/Validate is
--               `_one_request_per_raw_metric`, Config/Groups the assignment groups and SKU catalogs,
--               Config/Settings the `Settings` of src/config/settings.py, Config/Merge the `deep_merge`,
--               Config/Loader the rest of src/config/loader.py, and Config/Ignore the ignore patterns.
--   Evaluate    src/evaluate: `percentile` (Evaluate/Percentile), threshold tags and windows
--               (Evaluate/Threshold), `evaluate_hot` (Evaluate/Hot), `evaluate_cold` (Evaluate/Cold).
--   Metrics     src/metrics: `requests_for`, `resolve_series` and the derivations (Metrics/Derive),
--               `chunk` and `parse_batch_response` (Metrics/Batch), `MetricsBatchClient.query`
--               (Metrics/Batch/Query).
--   Inventory   src/inventory: `filter_resources` (Inventory/Filters) and the paging of
--               `list_resources` (Inventory/Graph).
--   Recommend   src/recommend: the ladder functions (Recommend/Ladder), the family rules of vm and
--               postgres (Recommend/Family), the SQL rules (Recommend/Sql), eventhub, servicebus and
--               appgateway (Recommend/Units), cosmos and storage (Recommend/Account), Recommend/Redis,
--               aks (Recommend/Nodes), appserviceplan (Recommend/Plans), and the retail prices with
--               their cache (Recommend/Prices).
--   Types       src/resource_types: the shared parsing (Types/Row), the parsers, enrichers and checks
--               of each type (Types/Compute, Sql, Data, Capacity, Subnets), and the specs with their
--               recommenders (Types/Registry).
--   Storage     src/storage/law.py, src/notify/sinks.py, and `describe` of src/errors.py.
--   Bootstrap   src/bootstrap.py: the choice of the sink, and what `main` logs.
--   Notify      src/notify/findings.py: the rows; Notify/Columns has the columns that
--               schema/findings-tables.json declares.
--   Pipeline    src/pipeline.py: `_fetch_all` (Pipeline/Fetch), `_run_type` (Pipeline/TypeRun), `run`
--               (Pipeline/Run), on the actions of Pipeline/Action. Pipeline/Counters and
--               Pipeline/Quiet carry the part of the summary that a type leaves alone.
-- Prelude holds what these share: Boolean tests, lists, texts, `dict` as an association list in the
-- order of insertion, exceptions as values, and `sorted` with its lemmas. Samples and Tests apply
-- the theorems at concrete inputs.
--
-- How the code is rendered. A call that may raise returns a `Result`. The code changes one
-- `RunSummary` in place; an `Action` passes it on and keeps what was counted before a raise. The
-- chunks of one fetch run at the same time and each answers for itself, so their order does not
-- show. With a `max_concurrency` of 0 the fetch of a chunk never returns, for which the model has
-- no value: `fetch_all` marks that call as blocked, and what a run does behind it is not modelled.
-- Python's floats are a type `F` with its operations (Float); the theorems that need it take the
-- laws of comparison and rounding up as a hypothesis, `IsFloat`, which the fixed-point numbers of
-- Float/Fixed satisfy. A `datetime` and a `timedelta` are microseconds; an amount is a number of
-- 10^-10 currency units.
--
-- Fuel: `chunk_from` has the number of ids as its fuel, which is enough since a slice is not empty;
-- `pages_from` has a bound on the pages, and as many rounds as pages are enough.
--
-- Parameters: the SDK calls behind the inventory, the metrics and the log ingestion, the GET of the
-- prices and its decimal parser, the clients behind the ports (inventory, metrics, prices, sink), the
-- files and the pydantic validators of the configuration, `isodate.parse_duration`, the match of an
-- ignore pattern and of the e-mail pattern.
--
-- Rows and configurations. A row of Resource Graph is a dictionary of cells: a plain value, a list or
-- an object; what lies deeper than a parser reads is a value with its text and its truth. A YAML value
-- is a mapping or a leaf, which the merge does not look into. Counts are never negative. A prefix length
-- in ASCII digits is read by the model; what `isdigit` and `int` make of other digits is a parameter.
-- The timestamp and the values of a metric point are what their reading answers, a value or an
-- exception. A call that changes the world outside, the GET of a price or the reading of a catalog,
-- passes on a state of any type, so that a theorem can say that no such call was made.
--
-- Not modelled: negative settings, the HTTP clients' pools, retries and response hooks, the YAML and
-- JSON parsers, the KQL queries (they run in the service), the timer functions and the command line,
-- logging, and the infrastructure code.
pub mod Prelude
pub mod Float
pub mod Models
pub mod Config
pub mod Evaluate
pub mod Metrics
pub mod Inventory
pub mod Recommend
pub mod Notify
pub mod Pipeline
pub mod Types
pub mod Storage
pub mod Bootstrap
pub mod Samples
pub mod Tests
