-- ===== src/Tests/Reconciliations.antt =====
-- Whole reconciliations, in a cluster that has what they depend on.
use strimzi_backup_operator.Base.{
  ◌≡◌, refl, ◌≤◌, Bool, true, false, none, some, [], ◌∷◌, ◌+◌, inr, arith, List,
}
use strimzi_backup_operator.Error.{ok, kube}
use strimzi_backup_operator.Crd.Backup.{KafkaBackup}
use strimzi_backup_operator.Crd.Restore.{KafkaRestore}
use strimzi_backup_operator.Reconcile.Server.{
  World, Write, Action, delete_object, outcome, ◌>>=◌, lift, reporting, asks,
}
use strimzi_backup_operator.Reconcile.Server
use strimzi_backup_operator.Reconcile.Counting.{count}
use strimzi_backup_operator.Reconcile.Ordering.{is_ordered}
use strimzi_backup_operator.Reconcile.Shared.{is_reconciliation_paused}
use strimzi_backup_operator.Reconcile.Restore.Creates.{creates_job}
use strimzi_backup_operator.Reconcile.Backup.OneShot.{is_triggered}
use strimzi_backup_operator.Reconcile.Backup.Cleanup.Laws.{cleaned, released}
use strimzi_backup_operator.Reconcile.Backup.Retain.Prunable.{AreAllowed}
use strimzi_backup_operator.Reconcile.Backup.Run.{reconcile_backup}
use strimzi_backup_operator.Reconcile.Backup.Run.Creates.{
  reconcile_backup_creates_one, reconcile_backup_scheduled,
}
use strimzi_backup_operator.Reconcile.Backup.Run.Deletes.{reconcile_backup-AreAllowed}
use strimzi_backup_operator.Reconcile.Backup.Run.Laws.{
  IsStatusOnly, reconcile_backup_deleted, reconcile_backup_paused,
}
use strimzi_backup_operator.Reconcile.Backup.Run.Order.{config_map_of, reconcile_backup_ordered}
use strimzi_backup_operator.Base.Int.{pos}
use strimzi_backup_operator.Base.Sort.{sort_desc}
use strimzi_backup_operator.JobState.{Job, job_succeeded, job_failed, classify_jobs}
use strimzi_backup_operator.Strimzi.Listener.{auth_matches}
use strimzi_backup_operator.Strimzi.Cluster.{resolve_kafka_cluster}
use strimzi_backup_operator.Strimzi.Auth.{no_auth, resolve_auth}
use strimzi_backup_operator.Adapters.Restore.{build_restore_config}
use strimzi_backup_operator.Reconcile.Restore.{is_complete, reconcile_restore}
use strimzi_backup_operator.Reconcile.Restore.Plan.{
  effects, plan, situation_of, proceed, guard, told, started, configured, guarded,
}
use strimzi_backup_operator.Reconcile.Restore.Status.{says_paused}
use strimzi_backup_operator.Reconcile.Restore.Progress.{IsResolved, IsServing}
use strimzi_backup_operator.Reconcile.Restore.Refinement.{
  effects-reconcile_restore, reconcile_restore_starts,
}
use strimzi_backup_operator.Reconcile.Restore.Lifecycle.{
  Life, Lists, accepted, Reach, here, next, reconcile, created_once,
}
use strimzi_backup_operator.Tests.Decisions.{done, broken, running}
use strimzi_backup_operator.Tests.Restores.{metadata, fresh}
use strimzi_backup_operator.Tests.Worlds.{served, stored, scheduled}

-- The older backup's two objects are deleted.
abbrev deletes_object : Action → Bool
deletes_object (delete_object _) = true
deletes_object _ = false

older_is_pruned : count deletes_object (reconcile_backup (served []) scheduled []).1 ≡ 2
unfolding reconcile_backup ◌>>=◌ lift reporting auth_matches asks Server.done sort_desc
older_is_pruned = refl

one_is_created : count creates_job (reconcile_backup (served []) stored []).1 ≡ 1
unfolding reconcile_backup ◌>>=◌ lift reporting auth_matches asks Server.done
one_is_created = refl

abbrev paused : KafkaBackup
paused = record stored {
  metadata = metadata none (("strimzi.io/pause-reconciliation", "true") ∷ []);
}

abbrev deleted : KafkaBackup
deleted = record stored { metadata = metadata (some (pos 5)) [] }

paused_is : is_reconciliation_paused paused.metadata ≡ true
unfolding is_reconciliation_paused
paused_is = refl

not_triggered : is_triggered scheduled ≡ false
unfolding is_triggered
not_triggered = refl

reconcile_backup_creates_one_example :
    count creates_job (reconcile_backup (served []) stored []).1 ≤ 1
reconcile_backup_creates_one_example = reconcile_backup_creates_one (served []) stored

reconcile_backup_scheduled_example :
    count creates_job (reconcile_backup (served []) scheduled []).1 ≡ 0
reconcile_backup_scheduled_example =
    reconcile_backup_scheduled (served []) scheduled refl not_triggered

reconcile_backup-AreAllowed_example :
    AreAllowed
      (served (done ∷ []))
      "kafka"
      scheduled
      (reconcile_backup (served (done ∷ [])) scheduled []).1
reconcile_backup-AreAllowed_example =
    reconcile_backup-AreAllowed (served (done ∷ [])) scheduled "kafka" refl

reconcile_backup_ordered_example :
    is_ordered (served []) (config_map_of stored) (reconcile_backup (served []) stored []).1 ≡ true
reconcile_backup_ordered_example = reconcile_backup_ordered (served []) stored "kafka" refl

reconcile_backup_paused_example :
    IsStatusOnly "kafka" "restore-1" (reconcile_backup (served []) paused []).1
reconcile_backup_paused_example =
    reconcile_backup_paused (served []) paused "kafka" refl refl paused_is

reconcile_backup_deleted_example : reconcile_backup (served (broken ∷ [])) deleted [] ≡ (
  outcome kube none,
  released "kafka" "restore-1" ∷ cleaned (served (broken ∷ [])) "kafka" "restore-1",
)
reconcile_backup_deleted_example =
    reconcile_backup_deleted (served (broken ∷ [])) deleted "kafka" refl refl

-- A restore that names a backup has what it depends on.
abbrev named : KafkaRestore
named = record fresh {
  spec = record fresh.spec {
    backup_ref = record { name = "restore-1"; backup_id = some "restore-1-a" };
  };
}

resolved : IsResolved (served []) "kafka" named
unfolding resolve_kafka_cluster auth_matches resolve_auth build_restore_config
resolved = record {
  source = stored;
  has_source = λ log. refl;
  kafka = _;
  has_kafka = λ log. refl;
  auth = no_auth;
  has_auth = λ log. refl;
  config = _;
  has_config = refl;
  yaml = "mode: restore";
  has_yaml = refl;
}

serving : (jobs : List Job) → IsServing (served jobs) "kafka" named jobs
serving jobs = record { accepts = λ log write. refl; lists = λ log. refl }

named_runs : is_reconciliation_paused named.metadata ≡ false
unfolding is_reconciliation_paused
named_runs = refl

named_is_incomplete : is_complete named ≡ false
unfolding is_complete
named_is_incomplete = refl

reconcile_restore_starts_example :
    ((reconcile_restore (served []) named []).0 ≡ ok tt)
    × (count creates_job (reconcile_restore (served []) named []).1 ≡ 1)
reconcile_restore_starts_example =
    reconcile_restore_starts (served []) "kafka" named refl refl named_runs named_is_incomplete
      (serving []) resolved

effects-reconcile_restore_example :
    ((reconcile_restore (served []) named []).0 ≡ ok tt)
    × (effects (reconcile_restore (served []) named []).1
        ≡ plan (situation_of named) (classify_jobs []) [])
effects-reconcile_restore_example =
    effects-reconcile_restore (served []) "kafka" named [] refl refl (serving []) (λ _. resolved)

-- The plan of the first reconciliation, the newest effect first.
first_plan :
    plan (situation_of named) (classify_jobs []) []
    ≡ told "restore-1" (some "RestoreRunning")
      ∷ started
      ∷ configured "restore-1-config"
      ∷ guarded "restore-1"
      ∷ []
unfolding plan situation_of classify_jobs proceed guard is_reconciliation_paused is_complete
    says_paused
first_plan = refl

-- One reconciliation, after which the Job is listed, and another one.
abbrev once : Life
once = record {
  jobs = running ∷ [];
  created = 0 + accepted (served []) (reconcile_restore (served []) named []).1;
}

abbrev twice : Life
twice = record {
  jobs = done ∷ [];
  created =
      once.created
      + accepted (served (running ∷ [])) (reconcile_restore (served (running ∷ [])) named []).1;
}

Lists-none : Lists (served []) "kafka" "restore-1" []
Lists-none log = inr refl

Lists-running : Lists (served (running ∷ [])) "kafka" "restore-1" (running ∷ [])
Lists-running log = inr refl

one_accepted : accepted (served []) (reconcile_restore (served []) named []).1 ≡ 1
unfolding reconcile_restore ◌>>=◌ lift reporting auth_matches asks Server.done
one_accepted = refl

none_accepted :
    accepted (served (running ∷ [])) (reconcile_restore (served (running ∷ [])) named []).1 ≡ 0
unfolding reconcile_restore ◌>>=◌ lift reporting auth_matches asks Server.done job_succeeded
    job_failed
none_accepted = refl

reached : Reach "kafka" "restore-1" (record { jobs = []; created = 0 }) twice
reached =
    next
      (next here (
        reconcile (served []) named (running ∷ []) refl refl Lists-none
          (omega (arith, one_accepted))))
      (reconcile (served (running ∷ [])) named (done ∷ []) refl refl Lists-running
        (omega (arith, none_accepted)))

created_once_example : twice.created ≤ 1
created_once_example = created_once "kafka" "restore-1" [] twice reached
