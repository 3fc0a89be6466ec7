-- ===== src/Reconcile/Backup/Retain.antt =====
-- `apply_retention_policy` of src/reconcilers/backup.rs: the backups that a schedule retains.
pub mod Prunable
pub mod Known
pub mod Laws
use strimzi_backup_operator.Base.{
  String, Bool, not, Option, none, some, List, [], ◌∷◌, ◌++◌, map, is_empty, is_some, retain,
  unwrap_or, if◌then◌else◌,
}
use strimzi_backup_operator.Error.{Result, ok, err, panic}
use strimzi_backup_operator.Error
use strimzi_backup_operator.Crd.Backup.{KafkaBackup, RetentionSpec, name_any}
use strimzi_backup_operator.Crd.Status.{BackupHistoryEntry}
use strimzi_backup_operator.Retention.History.{merge_backup_history}
use strimzi_backup_operator.Retention.Policy.{evaluate_retention, member}
use strimzi_backup_operator.Retention.Policy.Duration.{Clock}
use strimzi_backup_operator.Retention.Storage.{BackupObjectStore, Deleting, prune_backup_ids}
use strimzi_backup_operator.Retention.Storage.Open.{build_store}
use strimzi_backup_operator.Retention.Storage.Discover.{Manifests, discover_backup_history}
use strimzi_backup_operator.Reconcile.Server.{
  World, Write, Op, ◌>>=◌, asks, lift, done, delete_object,
}
use strimzi_backup_operator.Reconcile.Backup.Status.{current_backup_status, patch_backup_history}
use strimzi_backup_operator.Reconcile.Backup.Active.{active_backup_ids, keep_active}

abbrev pub object_deletion : String → String → Write
object_deletion namespace path = record { namespace = namespace; action = delete_object path }

-- The deletions of objects are writes.
unfoldable pub deleting : {A : Type 0} → String → Deleting A → Op A
deleting namespace deletion log =
    ((deletion []).0, map (object_deletion namespace) (deletion []).1 ++ log)

unfoldable pub store_of : World → String → KafkaBackup → List Write → Result BackupObjectStore
unfolding build_store
store_of w namespace backup log =
    build_store (w.backends log) (w.reads log) namespace backup.spec.storage

abbrev pub manifests_at : World → List Write → Manifests
manifests_at w log = record {
  parse = w.parse_manifest;
  from_timestamp_millis = w.from_timestamp_millis;
  now = w.now log;
}

abbrev pub clock_at : World → List Write → Clock
clock_at w log = record { now = w.now log; earliest = w.earliest; latest = w.latest }

-- The pruning, and the history without what was pruned.
prune_marked :
    World
    → String
    → KafkaBackup
    → List BackupHistoryEntry
    → (to_prune : List String) → Op (Unit {0})
unfolding store_of prune_backup_ids deleting patch_backup_history
prune_marked w namespace backup history to_prune = do
  opened ← asks (store_of w namespace backup)
  store ← lift opened
  pruned ← deleting namespace (prune_backup_ids store [] to_prune)
  patch_backup_history w namespace (name_any backup.metadata)
      (retain (λ entry. not (member entry.id pruned)) history)

-- The ids that may be pruned: those that the policy marks and no running Job keeps.
prune_history :
    World → String → KafkaBackup → RetentionSpec → List BackupHistoryEntry → Op (Unit {0})
unfolding active_backup_ids evaluate_retention keep_active patch_backup_history prune_marked
prune_history w namespace backup retention history =
    active_backup_ids w namespace backup >>= λ active.
    asks (λ log. evaluate_retention (clock_at w log) history retention) >>= λ evaluated.
    lift evaluated >>= λ marked.
    let to_prune = keep_active active marked in
    if is_empty to_prune
    then patch_backup_history w namespace (name_any backup.metadata) history
    else prune_marked w namespace backup history to_prune

retain_backups : World → String → KafkaBackup → RetentionSpec → Op (Unit {0})
unfolding current_backup_status store_of discover_backup_history merge_backup_history prune_history
retain_backups w namespace backup retention = do
  let name = name_any backup.metadata
  status ← current_backup_status w namespace name
  opened ← asks (store_of w namespace backup)
  store ← lift opened
  found ← asks (λ log. discover_backup_history (manifests_at w log) store name [])
  discovered ← lift found
  prune_history w namespace backup retention (merge_backup_history status.backup_history discovered)

-- Retention is for scheduled backups that ask for it.
unfoldable pub apply_retention_policy : World → KafkaBackup → Op (Unit {0})
unfolding retain_backups
apply_retention_policy w backup = elim backup.spec.retention [
  | none ↦ done
  | some retention ↦
      if is_some backup.spec.schedule
      then (if retention.prune_on_schedule
          then retain_backups w (unwrap_or backup.metadata.namespace "") backup retention
          else done)
      else done
]
