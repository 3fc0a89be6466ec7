-- ===== src/Lib.antt =====
-- The Kafka backup operator for Strimzi: a Kubernetes operator, written in Rust, that turns
-- KafkaBackup and KafkaRestore resources into Jobs, CronJobs and ConfigMaps that run kafka-backup,
-- reports their outcome in the status of the resource, and prunes old backups.
--
-- The parts, by file (paths from the root of the repository):
--   Crd/*          src/crd: the specifications and the statuses as records. `Time` is an integer
--                  count of nanoseconds, a BTreeMap is its list of entries.
--   Error          src/error.rs: the error type; `Result` has `panic` for a Rust panic.
--   Json           serde_json's `Value`, as far as the code reads one.
--   JobState/*     src/jobs/job_state.rs: the state of a resource's Jobs and whether another Job may
--                  be created.
--   Status/*       src/status/conditions.rs: the conditions of a status. The present time is an
--                  argument.
--   Retention/*    src/retention/policy.rs (Policy), the history functions of
--                  src/reconcilers/backup.rs (History), and src/retention/storage.rs (Storage).
--   Strimzi/*      src/strimzi and src/adapters/secrets.rs: clusters, listeners, users and CAs.
--   Adapters/*     src/adapters: the configurations of kafka-backup as YAML mappings.
--   Jobs/*         src/jobs: the labels, volumes, pods, Jobs and CronJobs. `Volumes/Agreement`
--                  compares what a Job attaches with what the configurations refer to.
--   Reconcile/*    src/reconcilers/restore.rs (Restore), src/reconcilers/mod.rs (Shared), and
--                  src/reconcilers/backup.rs (Backup): the status updates, `check_job_completion`
--                  (Outcome), `active_backup_ids` (Active), the one-shot step with its trigger
--                  (OneShot), `handle_cleanup` (Cleanup), `apply_retention_policy` (Retain) and
--                  `reconcile_backup` (Run). `Server` has the effects: a computation returns its
--                  result and a log of the writes that it attempted, the newest first, and the
--                  cluster, a parameter, answers each by the log so far. `Counting` bounds the writes
--                  of a computation, and `Hoare` is a program logic of what holds of the log before
--                  and after it. `Restore/Lifecycle` is a step relation over many reconciliations,
--                  and `Restore/Plan` an abstract restore, which `Restore/Refinement` compares with
--                  the code.
--   Metrics/*      src/metrics/prometheus.rs: the metrics and what is recorded in them.
--   Controllers/*  src/controllers: what is done around a reconciliation.
--   Base/*         The standard library's operations over the native numbers and texts.
--   Tests/*        The theorems applied to concrete resources.
-- A reconciler reads the Jobs of its resource by a label selector, decides by JobState, resolves the
-- cluster by Strimzi, prints a configuration by Adapters, creates what Jobs builds, and writes a
-- status that Status makes.
--
-- Bounds: i32, i64 and usize are written out where they wrap or refuse (`as_i32`, `as_usize`,
-- `parse_i64`, `try_from`, `sum_u64`). Every loop is a structural recursion; only the printing of a
-- number (`show`) has fuel, 20 digits, which is enough for a u64.
--
-- Parameters: the API server (`Reads`, `World`), the object stores and their builders (`ObjectStore`,
-- `Backends`), chrono's clock and parser, the YAML printer, serde_json's conversions to Kubernetes
-- types (`Conversions`) and of manifests, and the prometheus crate (`Prometheus`).
--
-- Not modelled: the reads of the CA in `reconcile_backup` and `reconcile_restore`, whose failure is
-- logged and whose result is not used; logging; the watches and streams of kube::runtime; the text
-- encoder of the metrics; the generation of CRD schemas; the start of the process and its HTTP
-- server.
pub mod Base
pub mod Json
pub mod Error
pub mod Crd
pub mod JobState
pub mod Status
pub mod Retention
pub mod Strimzi
pub mod Adapters
pub mod Jobs
pub mod Tests
pub mod Reconcile
pub mod Metrics
pub mod Controllers
