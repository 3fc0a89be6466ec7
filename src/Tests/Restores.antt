-- ===== src/Tests/Restores.antt =====
-- Reconciliations of a restore, over a cluster that accepts every write.
use strimzi_backup_operator.Base.{
  String, ◌≡◌, ◌≢◌, refl, ◌≤◌, ◌⊎◌, true, Option, none, some, List, [], ◌∷◌,
}
use strimzi_backup_operator.Base.Int.{ℤ, pos}
use strimzi_backup_operator.Error.{ok, api, kube}
use strimzi_backup_operator.Crd.Backup.{ObjectMeta}
use strimzi_backup_operator.Crd.Restore.{KafkaRestore}
use strimzi_backup_operator.Crd.Status.{KafkaRestoreStatus, default_restore_status}
use strimzi_backup_operator.JobState.{Job}
use strimzi_backup_operator.Status.{new_condition}
use strimzi_backup_operator.Strimzi.Reads.{found, failed}
use strimzi_backup_operator.Reconcile.Server.{World, Write, answered, outcome}
use strimzi_backup_operator.Retention.Storage.Open
use strimzi_backup_operator.Retention.Storage.Open.{built}
use strimzi_backup_operator.Tests.Stores.{bucket}
use strimzi_backup_operator.Reconcile.Shared.{is_reconciliation_paused}
use strimzi_backup_operator.Reconcile.Counting.{count}
use strimzi_backup_operator.Reconcile.Restore.{
  is_complete, reconcile_restore, restore_jobs_selector,
}
use strimzi_backup_operator.Reconcile.Restore.Creates.{creates_job}
use strimzi_backup_operator.Reconcile.Restore.Safety.{
  status_write, reconcile_restore_creates_one, reconcile_restore_complete, reconcile_restore_listed,
  reconcile_restore_paused,
}
use strimzi_backup_operator.Reconcile.Restore.Deletion.{
  deletions, finalizer_removal, reconcile_restore_deleted,
}
use strimzi_backup_operator.Tests.Resources.{restore_spec}
use strimzi_backup_operator.Tests.Decisions.{broken}

-- A cluster with these Jobs, and with nothing else.
abbrev pub cluster : List Job → World
cluster jobs = record {
  answer = λ log write. none;
  now = λ log. pos 100;
  reads = λ log. record {
    object_at = λ version namespace kind name. failed (api 404 "not found");
    secret = λ namespace name. failed (api 404 "not found");
  };
  jobs = λ log namespace selector. found jobs;
  backup = λ log namespace name. failed (api 404 "not found");
  timestamp = λ t. "20260101-000000";
  print = λ entries. ok "mode: restore";
  parse_rfc3339 = λ t. some (pos 7);
  backends = λ log. record {
    s3 = λ builder. built bucket.store;
    azure = λ builder. built bucket.store;
    gcs = λ builder. built bucket.store;
    filesystem = λ path. Open.failed "no such directory";
    federated_token_file = none;
  };
  parse_manifest = λ bytes. none;
  from_timestamp_millis = λ n. some n;
  earliest = pos 0;
  latest = pos 1000;
  conversions = record {
    env_var = λ v. none;
    is_affinity = λ v. true;
    is_toleration = λ v. true;
    is_pod_security_context = λ v. true;
    is_pull_secret = λ v. true;
    is_container_security_context = λ v. true;
  };
  service_account = none;
}

abbrev pub metadata : Option ℤ → List (String × String) → ObjectMeta
metadata deleted annotations = record {
  name = some "restore-1";
  generate_name = none;
  namespace = some "kafka";
  uid = some "42";
  generation = some (pos 1);
  deletion_timestamp = deleted;
  finalizers = none;
  annotations = annotations;
}

abbrev pub restore_of : Option ℤ → List (String × String) → Option KafkaRestoreStatus → KafkaRestore
restore_of deleted annotations status = record {
  metadata = metadata deleted annotations;
  spec = restore_spec;
  status = status;
}

abbrev pub fresh : KafkaRestore
fresh = restore_of none [] none

abbrev paused : KafkaRestore
paused = restore_of none (("strimzi.io/pause-reconciliation", "TRUE") ∷ []) none

abbrev deleted : KafkaRestore
deleted = restore_of (some (pos 50)) [] none

abbrev complete : KafkaRestore
complete = restore_of none [] (
    some (record default_restore_status {
      conditions = new_condition (pos 9) "RestoreComplete" "True" "RestoreCompleted" "" ∷ [];
    }))

complete_is : is_complete complete ≡ true
unfolding is_complete new_condition
complete_is = refl

paused_is : is_reconciliation_paused paused.metadata ≡ true
unfolding is_reconciliation_paused
paused_is = refl

reconcile_restore_creates_one_example :
    count creates_job (reconcile_restore (cluster []) fresh []).1 ≤ 1
reconcile_restore_creates_one_example = reconcile_restore_creates_one (cluster []) fresh

reconcile_restore_complete_example :
    count creates_job (reconcile_restore (cluster []) complete []).1 ≡ 0
reconcile_restore_complete_example = reconcile_restore_complete (cluster []) complete complete_is

one_listed :
    (log : List Write)
    → answered ((cluster (broken ∷ [])).jobs log "kafka" (restore_jobs_selector "restore-1"))
      ≢ ok []
one_listed log e = cc

reconcile_restore_listed_example :
    count creates_job (reconcile_restore (cluster (broken ∷ [])) fresh []).1 ≡ 0
reconcile_restore_listed_example =
    reconcile_restore_listed (cluster (broken ∷ [])) fresh "kafka" refl one_listed

reconcile_restore_paused_example :
    ((reconcile_restore (cluster []) paused []).1 ≡ [])
    ⊎ ((status : KafkaRestoreStatus) × ((reconcile_restore (cluster []) paused []).1
          ≡ status_write "kafka" "restore-1" status ∷ []))
reconcile_restore_paused_example =
    reconcile_restore_paused (cluster []) paused "kafka" refl refl paused_is

reconcile_restore_deleted_example : reconcile_restore (cluster (broken ∷ [])) deleted [] ≡ (
  outcome kube none,
  finalizer_removal "kafka" "restore-1" ∷ deletions (cluster (broken ∷ [])) "kafka" "restore-1",
)
reconcile_restore_deleted_example =
    reconcile_restore_deleted (cluster (broken ∷ [])) deleted "kafka" refl refl
