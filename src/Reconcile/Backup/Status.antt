-- ===== src/Reconcile/Backup/Status.antt =====
-- The status updates of src/reconcilers/backup.rs. A status is read, changed and patched.
use strimzi_backup_operator.Base.{
  String, ◌==◌, Bool, ◌&&◌, none, some, List, [], ◌∷◌, is_some_and, is_none, unwrap_or,
  if◌then◌else◌,
}
use strimzi_backup_operator.Base.Int.{ℤ, pos, eqb_ℤ}
use strimzi_backup_operator.Base.Text.{format}
use strimzi_backup_operator.Error.{Error, ok, err, panic, reason, to_string}
use strimzi_backup_operator.Crd.Status.{
  Condition, BackupStatus, BackupHistoryEntry, KafkaBackupStatus, default_backup_status,
}
use strimzi_backup_operator.Crd.Backup.{KafkaBackup, name_any}
use strimzi_backup_operator.Status.{
  condition_type_ready, condition_type_reconciliation_paused, find_condition, is_condition_true,
  ready, not_ready, reconciliation_paused, error_conditions,
}
use strimzi_backup_operator.Retention.History.{upsert_history_entry}
use strimzi_backup_operator.Reconcile.Server.{
  World, Op, ◌>>=◌, asks, lift, answered, done, send, send_or, patch_backup_status,
  BackupStatusPatch, whole, suspension, history,
}

unfoldable pub patch : World → String → String → BackupStatusPatch → Op (Unit {0})
unfolding send_or
patch w namespace name p = send w namespace (patch_backup_status name p)

unfoldable pub patch_status : World → String → String → KafkaBackupStatus → Op (Unit {0})
unfolding patch
patch_status w namespace name status = patch w namespace name (whole status)

unfoldable pub patch_backup_history :
    World → String → String → List BackupHistoryEntry → Op (Unit {0})
unfolding patch
patch_backup_history w namespace name entries = patch w namespace name (history entries)

unfoldable pub current_backup_status : World → String → String → Op KafkaBackupStatus
current_backup_status w namespace name log =
    lift
      (elim (answered (w.backup log namespace name)) [
        | ok backup ↦ ok (unwrap_or backup.status default_backup_status)
        | err e ↦ err e
        | panic ↦ panic
      ])
      log

-- The status is read, and patched with other conditions for this generation.
unfoldable pub set_conditions : World → String → String → ℤ → List Condition → Op (Unit {0})
unfolding current_backup_status patch_status
set_conditions w namespace name generation conditions = do
  status ← current_backup_status w namespace name
  patch_status w namespace name
      (record status { conditions = conditions; observed_generation = some generation })

unfoldable pub update_status_running : World → String → String → ℤ → Op (Unit {0})
unfolding set_conditions not_ready
update_status_running w namespace name generation = do
  now ← asks w.now
  set_conditions w namespace name generation
      (not_ready now "BackupRunning" "Backup job is running" ∷ [])

unfoldable pub update_status_error : World → String → String → ℤ → Error → Op (Unit {0})
unfolding set_conditions error_conditions reason to_string
update_status_error w namespace name generation error = do
  now ← asks w.now
  set_conditions w namespace name generation (error_conditions now (reason error) (to_string error))

unfoldable pub says_paused : KafkaBackupStatus → ℤ → Bool
unfolding is_condition_true
says_paused status generation =
    is_condition_true status.conditions condition_type_reconciliation_paused
    && is_some_and status.observed_generation (λ g. eqb_ℤ g generation)

unfoldable pub update_status_reconciliation_paused : World → String → KafkaBackup → Op (Unit {0})
unfolding patch_status reconciliation_paused says_paused
update_status_reconciliation_paused w namespace backup =
    let generation = unwrap_or backup.metadata.generation (pos 0) in
    let status = unwrap_or backup.status default_backup_status in
    if says_paused status generation
    then done
    else asks w.now >>= λ now. patch_status w namespace (name_any backup.metadata) (record status {
      conditions = reconciliation_paused now ∷ [];
      observed_generation = some generation;
    })

-- Whether the condition `Ready` has this reason.
unfoldable pub is_ready_for : String → KafkaBackupStatus → Bool
unfolding find_condition
is_ready_for reason status =
    is_some_and (find_condition status.conditions condition_type_ready)
      λ c. is_some_and c.reason (λ r. r == reason)

unfoldable pub says_scheduled : KafkaBackupStatus → ℤ → String → Bool
unfolding is_ready_for
says_scheduled status generation next_backup =
    is_ready_for "BackupScheduled" status
    && is_some_and status.next_scheduled_backup (λ n. n == next_backup)
    && is_some_and status.observed_generation (λ g. eqb_ℤ g generation)

unfoldable pub update_status_scheduled : World → String → String → ℤ → String → Op (Unit {0})
unfolding current_backup_status says_scheduled patch_status ready format
update_status_scheduled w namespace name generation next_backup =
    current_backup_status w namespace name >>= λ status.
    if says_scheduled status generation next_backup
    then done
    else asks w.now >>= λ now. patch_status w namespace name (record status {
      conditions =
          ready now "BackupScheduled" (format ("Next backup scheduled: " ∷ next_backup ∷ [])) ∷ [];
      observed_generation = some generation;
      next_scheduled_backup = some next_backup;
    })

unfoldable pub says_suspended : KafkaBackupStatus → ℤ → Bool
unfolding is_ready_for
says_suspended status generation =
    is_ready_for "BackupSuspended" status
    && is_none status.next_scheduled_backup
    && is_some_and status.observed_generation (λ g. eqb_ℤ g generation)

unfoldable pub update_status_suspended : World → String → String → ℤ → Op (Unit {0})
unfolding current_backup_status says_suspended patch ready
update_status_suspended w namespace name generation =
    current_backup_status w namespace name >>= λ current.
    if says_suspended current generation
    then done
    else asks w.now >>= λ now.
        patch w namespace name
          (suspension (ready now "BackupSuspended" "Backup schedule is suspended") generation)

-- The status with a completed backup: the last one, and in the history.
unfoldable pub completed_status :
    KafkaBackupStatus → Condition → ℤ → BackupHistoryEntry → KafkaBackupStatus
unfolding upsert_history_entry
completed_status status condition generation entry = record status {
  conditions = condition ∷ [];
  last_backup = some (record {
    id = entry.id;
    start_time = entry.start_time;
    completion_time = entry.completion_time;
    status = BackupStatus.completed;
    size_bytes = entry.size_bytes;
    topics_backed_up = entry.topics_backed_up;
    partitions_backed_up = entry.partitions_backed_up;
    oldest_timestamp = none;
    newest_timestamp = none;
  });
  observed_generation = some generation;
  backup_history = upsert_history_entry status.backup_history entry;
}

unfoldable pub update_status_completed :
    World → String → String → ℤ → BackupHistoryEntry → Op (Unit {0})
unfolding current_backup_status completed_status patch_status ready
update_status_completed w namespace name generation entry = do
  status ← current_backup_status w namespace name
  now ← asks w.now
  patch_status w namespace name (
      completed_status status (ready now "BackupCompleted" "Backup completed successfully")
        generation entry)
