-- ===== src/Reconcile/Restore/Status.antt =====
-- The status updates of src/reconcilers/restore.rs.
use strimzi_backup_operator.Base.{
  String, ◌==◌, Bool, ◌&&◌, Option, none, some, [], ◌∷◌, is_some_and, unwrap_or, map_some,
  if◌then◌else◌,
}
use strimzi_backup_operator.Base.Int.{ℤ, pos, eqb_ℤ}
use strimzi_backup_operator.Base.Text.{format}
use strimzi_backup_operator.Error.{Error, reason, to_string}
use strimzi_backup_operator.Crd.Status.{KafkaRestoreStatus, RestoreInfo, default_restore_status}
use strimzi_backup_operator.Crd.Backup.{name_any}
use strimzi_backup_operator.Crd.Restore.{KafkaRestore}
use strimzi_backup_operator.Status.{
  condition_type_restore_complete, condition_type_reconciliation_paused, status_true, new_condition,
  find_condition, is_condition_true, ready, not_ready, reconciliation_paused, error_conditions,
}
use strimzi_backup_operator.Reconcile.Server.{
  World, Op, ◌>>=◌, asks, done, send, send_or, patch_restore_status,
}

unfoldable pub patch_status : World → String → String → KafkaRestoreStatus → Op (Unit {0})
unfolding send_or
patch_status w namespace name status = send w namespace (patch_restore_status name status)

unfoldable pub update_status_running : World → String → String → ℤ → Op (Unit {0})
unfolding patch_status not_ready
update_status_running w namespace name generation = do
  now ← asks w.now
  patch_status w namespace name (record {
    conditions = not_ready now "RestoreRunning" "Restore job is running" ∷ [];
    restore = none;
    observed_generation = some generation;
  })

unfoldable pub update_status_completed : World → String → String → ℤ → RestoreInfo → Op (Unit {0})
unfolding patch_status ready new_condition
update_status_completed w namespace name generation info = do
  now ← asks w.now
  patch_status w namespace name (record {
    conditions =
        ready now "RestoreCompleted" "Restore completed successfully"
        ∷ new_condition now condition_type_restore_complete status_true "RestoreCompleted"
            "Restore completed successfully"
        ∷ [];
    restore = some info;
    observed_generation = some generation;
  })

unfoldable pub update_status_failed : World → String → String → ℤ → String → Op (Unit {0})
unfolding patch_status error_conditions format
update_status_failed w namespace name generation job_name = do
  now ← asks w.now
  patch_status w namespace name (record {
    conditions =
        error_conditions now "RestoreFailed" (format ("Restore job " ∷ job_name ∷ " failed" ∷ []));
    restore = none;
    observed_generation = some generation;
  })

unfoldable pub update_status_error : World → String → String → ℤ → Error → Op (Unit {0})
unfolding patch_status error_conditions reason to_string
update_status_error w namespace name generation error = do
  now ← asks w.now
  patch_status w namespace name (record {
    conditions = error_conditions now (reason error) (to_string error);
    restore = none;
    observed_generation = some generation;
  })

-- Whether the status says already that the reconciliation is paused, for this generation.
unfoldable pub says_paused : KafkaRestoreStatus → ℤ → Bool
unfolding is_condition_true
says_paused status generation =
    is_condition_true status.conditions condition_type_reconciliation_paused
    && is_some_and status.observed_generation (λ g. eqb_ℤ g generation)

unfoldable pub update_status_reconciliation_paused : World → String → KafkaRestore → Op (Unit {0})
unfolding patch_status reconciliation_paused says_paused
update_status_reconciliation_paused w namespace restore =
    let generation = unwrap_or restore.metadata.generation (pos 0) in
    let status = unwrap_or restore.status default_restore_status in
    if says_paused status generation
    then done
    else asks w.now >>= λ now. patch_status w namespace (name_any restore.metadata) (record status {
      conditions = reconciliation_paused now ∷ [];
      observed_generation = some generation;
    })

unfoldable pub has_condition_reason : Option KafkaRestoreStatus → String → String → Bool
unfolding find_condition
has_condition_reason status condition_type reason =
    is_some_and (find_condition (unwrap_or (map_some status (λ s. s.conditions)) []) condition_type)
      λ c. is_some_and c.reason (λ r. r == reason)
