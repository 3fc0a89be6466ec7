-- ===== src/Reconcile/Restore/Plan.antt =====
-- An abstract restore, as a user of src/reconcilers/restore.rs sees it: what its reconciliations have
-- done so far, without the Kubernetes objects, the messages or the times.
use strimzi_backup_operator.Base.{
  ℕ, ◌+◌, ◌≡◌, refl, String, ◌==◌, Bool, Option, none, some, List, [], ◌∷◌, any, is_some_and,
  unwrap_or, arith, if◌then◌else◌,
}
use strimzi_backup_operator.Base.Int.{pos}
use strimzi_backup_operator.Base.Text.{format}
use strimzi_backup_operator.Crd.Status.{Condition, default_restore_status}
use strimzi_backup_operator.Crd.Backup.{name_any}
use strimzi_backup_operator.Crd.Restore.{KafkaRestore}
use strimzi_backup_operator.JobState.{JobsState, no_jobs, in_progress, succeeded, failed}
use strimzi_backup_operator.Status.{condition_type_error, condition_type_ready}
use strimzi_backup_operator.Reconcile.Server.{
  Write, Action, patch_backup_status, patch_finalizers, finalizers, null_finalizers,
  patch_restore_status, remove_annotation, apply_config_map, create_job, apply_cronjob, delete_job,
  delete_cronjob, delete_config_map, delete_object,
}
use strimzi_backup_operator.Reconcile.Counting.{count}
use strimzi_backup_operator.Reconcile.Shared.{finalizer, is_reconciliation_paused}
use strimzi_backup_operator.Reconcile.Restore.{is_complete}
use strimzi_backup_operator.Reconcile.Restore.Status.{says_paused, has_condition_reason}
use strimzi_backup_operator.Reconcile.Restore.Creates.{creates_job}

-- `told` has the reason of the first condition of the status.
pub data Effect : Type 0 where
  guarded released : (name : String) → Effect
  configured : (config_map : String) → Effect
  started : Effect
  told : (name : String) → (reason : Option String) → Effect
  discarded : (name : String) → Effect
  other : Effect

abbrev first_reason : List Condition → Option String
first_reason [] = none
first_reason (c ∷ cs) = c.reason

abbrev pub effect_of : Action → Effect
effect_of (patch_backup_status name status) = other
effect_of (patch_finalizers kind name (finalizers fs)) = guarded name
effect_of (patch_finalizers kind name null_finalizers) = released name
effect_of (patch_restore_status name status) = told name (first_reason status.conditions)
effect_of (remove_annotation name key) = other
effect_of (apply_config_map c) = configured c.name
effect_of (create_job job) = started
effect_of (apply_cronjob cronjob) = other
effect_of (delete_job p name) = discarded name
effect_of (delete_cronjob p name) = discarded name
effect_of (delete_config_map p name) = discarded name
effect_of (delete_object path) = other

-- What the writes amount to, the newest first.
abbrev pub effects : List Write → List Effect
effects [] = []
effects (write ∷ log) = effect_of write.action ∷ effects log

-- What decides about a restore, besides its Jobs.
pub record Situation : Type 0 where
  pub name : String
  pub is_guarded : Bool
  pub is_paused : Bool
  pub is_done : Bool
  pub told_paused : Bool
  pub told_running : Bool
  pub told_failed : Bool

unfoldable pub situation_of : KafkaRestore → Situation
unfolding is_reconciliation_paused is_complete says_paused has_condition_reason
situation_of restore = record {
  name = name_any restore.metadata;
  is_guarded = is_some_and restore.metadata.finalizers (λ fs. any (λ f. f == finalizer) fs);
  is_paused = is_reconciliation_paused restore.metadata;
  is_done = is_complete restore;
  told_paused =
      says_paused (unwrap_or restore.status default_restore_status)
        (unwrap_or restore.metadata.generation (pos 0));
  told_running = has_condition_reason restore.status condition_type_ready "RestoreRunning";
  told_failed = has_condition_reason restore.status condition_type_error "RestoreFailed";
}

tell : Situation → String → List Effect → List Effect
tell s reason history = told s.name (some reason) ∷ history

-- What follows from the Jobs.
unfoldable pub proceed : Situation → JobsState → List Effect → List Effect
unfolding tell format
proceed s no_jobs history =
    tell s "RestoreRunning" (started ∷ configured (format (s.name ∷ "-config" ∷ [])) ∷ history)
proceed s in_progress history = if s.told_running then history else tell s "RestoreRunning" history
proceed s (succeeded job_name) history = tell s "RestoreCompleted" history
proceed s (failed job_name) history =
    if s.told_failed then history else tell s "RestoreFailed" history

unfoldable pub guard : Situation → List Effect → List Effect
guard s history = if s.is_guarded then history else guarded s.name ∷ history

-- One reconciliation of a restore that is not deleted.
unfoldable pub plan : Situation → JobsState → List Effect → List Effect
unfolding tell guard proceed
plan s jobs history =
    if s.is_paused
    then (if s.told_paused then history else tell s "ReconciliationPaused" history)
    else if s.is_done
    then guard s history
    else proceed s jobs (guard s history)

is_start : Effect → ℕ
is_start started = 1
is_start _ = 0

unfoldable pub starts : List Effect → ℕ
unfolding is_start
starts [] = 0
starts (e ∷ history) = is_start e + starts history

creates-start : (a : Action) → (if creates_job a then 1 else 0) ≡ is_start (effect_of a)
unfolding is_start
creates-start (patch_backup_status a b) = refl
creates-start (patch_finalizers k a (finalizers fs)) = refl
creates-start (patch_finalizers k a null_finalizers) = refl
creates-start (patch_restore_status a b) = refl
creates-start (remove_annotation a b) = refl
creates-start (apply_config_map c) = refl
creates-start (create_job j) = refl
creates-start (apply_cronjob c) = refl
creates-start (delete_job p a) = refl
creates-start (delete_cronjob p a) = refl
creates-start (delete_config_map p a) = refl
creates-start (delete_object a) = refl

count-write :
    (write : Write) (log : List Write)
    → count creates_job (write ∷ log)
      ≡ (if creates_job write.action then 1 else 0) + count creates_job log
count-write write log = ground arith

-- The Jobs that a log creates are those that its effects start.
pub starts-effects : (log : List Write) → count creates_job log ≡ starts (effects log)
unfolding starts
starts-effects [] = refl
starts-effects (write ∷ log) =
    omega (arith, count-write write log, creates-start write.action, starts-effects log)

-- A restore without Jobs, neither paused nor done, is started once.
pub starts-plan :
    (s : Situation)
    → s.is_paused ≡ Bool.false
    → s.is_done ≡ Bool.false
    → starts (plan s no_jobs []) ≡ 1
unfolding starts is_start plan proceed tell guard
starts-plan s running incomplete = ground (arith, running, incomplete)
