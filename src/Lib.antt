-- ===== src/Lib.antt =====
-- A verification library of Be Certain, the analysis engine that finds the root causes of incidents
-- from logs, metrics and traces. The definitions follow the Python code of the repository function by
-- function; paths are from the root of the repository.
--
-- The parts and how they interact. A request comes through the middleware of
-- services/security_service.py, which authenticates it and sets the internal context. The routes ask
-- services/rca_job_service.py for jobs and reports; it keeps them in two tables (db_models.py) and
-- runs each analysis as a task. A job may carry a YAML document of settings, which
-- services/analysis_config_service.py checks and has in force while the job runs. An analysis reads
-- state of the tenant through store/client.py, groups anomalies by engine/dedup/grouping.py,
-- correlates the signals by engine/correlation, asks engine/topology/graph.py for the services that an
-- incident reaches, orders the metrics of the causal graph of engine/causal/graph.py, and makes
-- root causes of all this in engine/rca. engine/registry.py keeps how far each tenant trusts each
-- signal, in the process and through store/weights.py.
--
-- Files and sources:
-- - Prelude (with Prelude/Tests, Lists, Texts, Table): the library names that the modules share, the
--   Boolean tests on numbers, lists and texts as Python has them, and tables with a primary key;
--   Prelude/Sorting has `sorted` with a key.
-- - Http: replies and `HTTPException`, as a monad. Value: decoded JSON documents as Python values.
--   Floats: the operations of floats, as parameters, and whole numbers in their place for samples.
-- - Jobs: services/rca_job_service.py over the tables of db_models.py. Jobs/Rows has the rows and
--   views; Jobs/Marks the transactions of the worker (`_mark_running`, `_mark_completed`,
--   `_mark_failed`, `_mark_cancelled`), the restart and the retention; Jobs/Access `create_job`,
--   `get_job`, `get_job_result`, `get_report` and `delete_report`; Jobs/Listing `list_jobs` with its
--   cursors; Jobs/Service the service as a step relation: each database session is one step, and the
--   tasks of `_run_job` take theirs in any interleaving with the requests.
-- - Security: services/security_service.py. Security/Context has the context and the checks that read
--   it, Security/Replay `_assert_jti_not_replayed`, Security/Decode the way from headers to a context,
--   Security/Middleware `InternalAuthMiddleware.dispatch`. The context variable and the dict
--   `_jti_seen_cache` are passed as state.
-- - Settings: services/analysis_config_service.py. Settings/Constants has the checks of the constants
--   of a document, Settings/Document its pydantic models, Settings/Defaults what it may
--   override, Settings/Request `_parse_document` and
--   `prepare_request`, Settings/Runtime `apply_runtime_overrides`. The attributes of the object
--   `settings` and of the modules are cells of one heap, so that a module may have two names in
--   `sys.modules`; the body of the context manager is any function on the process, whether it
--   returns, raises or is cancelled.
-- - Correlation: engine/correlation/temporal.py (Correlation/Temporal, with the names of services in
--   Correlation/Services) and engine/correlation/signals.py (Correlation/Links).
-- - Rca: engine/rca/scoring.py (Rca/Scoring), engine/rca/hypothesis.py (Rca/Names for the texts,
--   Rca/Hypothesis for the cause of one event, Rca/Generate for `generate`), and
--   engine/events/registry.py, whose registry is the list of its events.
-- - Registry: engine/registry.py, the weights of the signals (`TenantState`); Registry/Tenants has
--   `TenantRegistry`, each call of which is one step.
-- - Topology: engine/topology/graph.py. Topology/Graph has the graph, `add_call` and `blast_radius`,
--   Topology/Upstream `find_upstream_roots`, Topology/Route `critical_path`.
-- - Causal: engine/causal/graph.py, the graph and its `topological_sort`.
-- - Enums: engine/enums.py. Dedup: engine/dedup/grouping.py.
-- - Store/Client: store/client.py, whose globals are the record `Store`. Store/Documents: the tests on
--   decoded JSON that the modules of store/ share. Store/Events: store/events.py. Store/Granger:
--   store/granger.py; the key of a service, a hash, is a parameter. Store/Weights: store/weights.py.
--   Store/Reading: an `OverflowError`, apart from the errors that the modules of store/ catch.
-- - Retry: datasources/retry.py, the loop that both wrappers of the decorator have.
--
-- Bounds and fuel. The three searches of Topology run on fuel: the number of elements of all the
-- adjacency sets, and two more. `blast_radius` puts a service into its queue when it marks it as
-- seen, so once at most; the other two put the neighbours of a service into theirs when they mark
-- that service, so each set once at most. The theorems say that they return, so no fuel runs out.
-- The loop of Retry has one unit of fuel for each attempt, and `topological_sort` one for each
-- node, as each is taken from the queue once, and one more. `follow`, a client of the listing,
-- makes as many requests as its fuel says. Numbers are unbounded, as Python's are. Instants are
-- counted in ticks of a clock. The loops of the other parts run over a list, and are recursions on
-- it.
--
-- Parameters, as they are not code of the repository: pydantic's coercion of a single value, its
-- tests against a bound and its errors, `yaml.safe_load`, and the validation of the class
-- `Settings` of config.py (which is not modelled); SQLAlchemy's session operations are those of
-- Prelude/Table, each session being one step, as it is one transaction; PyJWT's decoding; Redis and
-- its client library; `fnmatch`, SHA-256, base64, JSON and ISO dates; `str` and `int` of values,
-- `upper` and `lower` of texts; the floats. A Python set is a list whose order the theorems leave
-- open. The regular expression of engine/correlation is written out as a matcher. Whitespace, for
-- `strip`, is that of ASCII.
--
-- Not modelled: what an analysis computes (numpy, scipy and scikit-learn over floats), the
-- connectors and the routes (I/O and glue), the configuration, `DependencyGraph.from_spans`,
-- store/baseline.py and `load_all_services` of store/granger.py, the template
-- that services/analysis_config_service.py gives out, `_tokenize` of
-- engine/correlation/temporal.py, which nothing calls, and the further modules of engine/ and
-- datasources/. The lock of `apply_runtime_overrides` is the order of its calls; a job without
-- overrides does not take it. Nor are overlapping calls of `TenantRegistry` modelled, for which the
-- awaits of one call leave room.
pub mod Prelude
pub mod Http
pub mod Jobs
pub mod Value
pub mod Security
pub mod Topology
pub mod Floats
pub mod Enums
pub mod Correlation
pub mod Dedup
pub mod Settings
pub mod Store
pub mod Rca
pub mod Registry
pub mod Retry
pub mod Causal
