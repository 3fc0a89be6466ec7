-- ===== src/Reconcile/Backup/Retain/Prunable.antt =====
-- Which objects the retention of src/reconcilers/backup.rs may delete, and why.
use strimzi_backup_operator.Base.{String, ◌≡◌, true, false, some, List, [], any, All}
use strimzi_backup_operator.Base.Text.{starts_with}
use strimzi_backup_operator.Error.{ok}
use strimzi_backup_operator.Crd.Backup.{KafkaBackup, RetentionSpec, name_any}
use strimzi_backup_operator.Crd.Status.{BackupHistoryEntry, KafkaBackupStatus}
use strimzi_backup_operator.JobState.{Job}
use strimzi_backup_operator.Retention.History.{merge_backup_history}
use strimzi_backup_operator.Retention.Policy.{evaluate_retention, member}
use strimzi_backup_operator.Retention.Storage.{BackupObjectStore, backup_prefix, full_path}
use strimzi_backup_operator.Retention.Storage.Discover.{discover_backup_history}
use strimzi_backup_operator.Reconcile.Server.{World, Write, Action, answered, delete_object}
use strimzi_backup_operator.Reconcile.Hoare.{Pred}
use strimzi_backup_operator.Reconcile.Backup.Status.{current_backup_status}
use strimzi_backup_operator.Reconcile.Backup.Outcome.{backup_jobs_selector}
use strimzi_backup_operator.Reconcile.Backup.Active.{runs_as}
use strimzi_backup_operator.Reconcile.Backup.Retain.{store_of, clock_at, manifests_at}

-- The history that retention judges: that of the status, with what is discovered in the storage.
pub record IsHistory (w : World) (namespace : String) (backup : KafkaBackup)
    (history : List BackupHistoryEntry) : Type 0 where
  pub status_at : List Write
  pub status : KafkaBackupStatus
  pub current :
      (current_backup_status w namespace (name_any backup.metadata) status_at).0 ≡ ok status
  pub opened_at : List Write
  pub store : BackupObjectStore
  pub opened : store_of w namespace backup opened_at ≡ ok store
  pub discovered_at : List Write
  pub discovered : List BackupHistoryEntry
  pub read :
      discover_backup_history (manifests_at w discovered_at) store (name_any backup.metadata) []
      ≡ ok discovered
  pub merged : history ≡ merge_backup_history status.backup_history discovered

-- The ids that may be pruned: those of this history that the policy marks and that no Job runs as, in
-- the Jobs of the resource as they were listed.
pub record IsExpired (w : World) (namespace : String) (backup : KafkaBackup) (id : String)
    : Type 0 where
  pub listed_at : List Write
  pub jobs : List Job
  pub listed :
      answered (w.jobs listed_at namespace (backup_jobs_selector (name_any backup.metadata)))
      ≡ ok jobs
  pub idle : any (runs_as id) jobs ≡ false
  pub retention : RetentionSpec
  pub asked : backup.spec.retention ≡ some retention
  pub history : List BackupHistoryEntry
  pub known : IsHistory w namespace backup history
  pub evaluated_at : List Write
  pub marked : List String
  pub evaluated : evaluate_retention (clock_at w evaluated_at) history retention ≡ ok marked
  pub is_marked : member id marked ≡ true

-- Why an object may be deleted: its key is under the folder of such an id, in the storage.
pub record IsPrunable (w : World) (namespace : String) (backup : KafkaBackup) (path : String)
    : Type 0 where
  pub id : String
  pub expired : IsExpired w namespace backup id
  pub opened_at : List Write
  pub store : BackupObjectStore
  pub opened : store_of w namespace backup opened_at ≡ ok store
  pub key : String
  pub under : starts_with (backup_prefix store id) key ≡ true
  pub located : path ≡ full_path store key

-- Every write other than the deletion of an object is allowed.
abbrev pub IsAllowed : World → String → KafkaBackup → Action → Type 0
IsAllowed w namespace backup (delete_object path) = IsPrunable w namespace backup path
IsAllowed w namespace backup _ = Unit

abbrev pub AreAllowed : World → String → KafkaBackup → Pred
AreAllowed w namespace backup log = All (λ write. IsAllowed w namespace backup write.action) log
