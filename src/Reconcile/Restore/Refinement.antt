-- ===== src/Reconcile/Restore/Refinement.antt =====
-- That src/reconcilers/restore.rs implements the abstract restore, and so starts it.
use strimzi_backup_operator.Base.{
  String, ◌≡◌, ◌∙◌, refl, sym, ap, subst, false, some, List, [], is_some, if◌then◌else◌,
}
use strimzi_backup_operator.Error.{ok}
use strimzi_backup_operator.Crd.Restore.{KafkaRestore}
use strimzi_backup_operator.JobState.{
  Job, JobsState, no_jobs, in_progress, succeeded, failed, classify_jobs,
}
use strimzi_backup_operator.Reconcile.Server.{World, answered}
use strimzi_backup_operator.Reconcile.Shared.{is_reconciliation_paused}
use strimzi_backup_operator.Reconcile.Counting.{count}
use strimzi_backup_operator.Reconcile.Hoare.Success.{
  Succeeds, Succeeds-lift, Succeeds-asks, Succeeds-result, Succeeds-done,
}
use strimzi_backup_operator.Reconcile.Restore.{
  advance, follow_jobs, is_complete, reconcile_live, dispatch, reconcile_restore,
}
use strimzi_backup_operator.Reconcile.Restore.Creates.{creates_job}
use strimzi_backup_operator.Reconcile.Restore.Safety.{reconcile_restore-dispatch}
use strimzi_backup_operator.Reconcile.Restore.Plan.{
  Effect, effects, situation_of, proceed, guard, plan, starts, starts-effects, starts-plan,
}
use strimzi_backup_operator.Reconcile.Restore.Progress.{
  IsResolved, IsServing, Did, Did-if, Did-then, running-Did, completed-Did, failed-Did, paused-Did,
  finalizer-Did, start-Did,
}

module _ (w : World) (namespace : String) (restore : KafkaRestore) (jobs : List Job)
    (serving : IsServing w namespace restore jobs)
    (resolved : classify_jobs jobs ≡ no_jobs → IsResolved w namespace restore) where
  advance-Did :
      (s : JobsState) (history : List Effect)
      → classify_jobs jobs ≡ s
      → Succeeds
          (Did history)
          (advance w namespace restore jobs s)
          (λ _. Did (proceed (situation_of restore) s history))
  unfolding advance proceed situation_of
  advance-Did no_jobs history e = start-Did w namespace restore jobs serving (resolved e) history
  advance-Did in_progress history e =
      Did-if _ history history _ _ _ (Succeeds-done (Did history))
        (running-Did w namespace restore jobs serving history _)
  advance-Did (succeeded job_name) history e =
      Succeeds-asks (Did history) (λ _. Did _) w.now _
        λ at. completed-Did w namespace restore jobs serving history _ _
  advance-Did (failed job_name) history e =
      Did-if _ history history _ _ _ (Succeeds-done (Did history))
        (failed-Did w namespace restore jobs serving history _ job_name)

  follow-Did :
      (history : List Effect)
      → Succeeds
          (Did history)
          (follow_jobs w namespace restore)
          (λ _. Did (proceed (situation_of restore) (classify_jobs jobs) history))
  unfolding follow_jobs
  follow-Did history =
      Succeeds-asks (Did history) (λ _. Did _) _ _
        λ at.
          Succeeds-lift (Did history) (λ _. Did _) _ _ jobs (ap answered (serving.lists at))
            (advance-Did (classify_jobs jobs) history refl)

  live-Did :
      (history : List Effect)
      → Succeeds (Did history) (reconcile_live w namespace restore) (λ _. Did (
          if (situation_of restore).is_done
          then guard (situation_of restore) history
          else proceed
              (situation_of restore)
              (classify_jobs jobs)
              (guard (situation_of restore) history)))
  unfolding reconcile_live situation_of
  live-Did history =
      let guarded_now = guard (situation_of restore) history in
      Did-then history guarded_now _ _ _ (finalizer-Did w namespace restore jobs serving history) (
        Did-if (is_complete restore) guarded_now guarded_now _ _ _ (Succeeds-done (Did guarded_now))
          (follow-Did guarded_now))

  dispatch-Did :
      is_some restore.metadata.deletion_timestamp ≡ false
      → (history : List Effect)
      → Succeeds
          (Did history)
          (dispatch w restore namespace)
          (λ _. Did (plan (situation_of restore) (classify_jobs jobs) history))
  unfolding dispatch plan situation_of
  dispatch-Did live history = rw live (
      Did-if (is_reconciliation_paused restore.metadata) history _ _ _ _
        (paused-Did w namespace restore jobs serving history) (live-Did history))

-- Where the cluster accepts every write and lists the restore's Jobs, and what the restore depends on
-- is there if there is no Job, the reconciliation of a restore that is not deleted succeeds, and what
-- its writes amount to is what the abstract restore does in the same situation, for these Jobs.
pub effects-reconcile_restore :
    (w : World) (namespace : String) (restore : KafkaRestore) (jobs : List Job)
    → restore.metadata.namespace ≡ some namespace
    → is_some restore.metadata.deletion_timestamp ≡ false
    → IsServing w namespace restore jobs
    → (classify_jobs jobs ≡ no_jobs → IsResolved w namespace restore)
    → ((reconcile_restore w restore []).0 ≡ ok tt)
      × (effects (reconcile_restore w restore []).1
          ≡ plan (situation_of restore) (classify_jobs jobs) [])
effects-reconcile_restore w namespace restore jobs n live serving resolved =
    let (_, ended, planned) =
      Succeeds-result (Did []) (dispatch w restore namespace) (λ _. Did _) []
        (dispatch-Did w namespace restore jobs serving resolved live []) refl in
    subst (λ r. (r.0 ≡ ok tt) × (effects r.1 ≡ plan (situation_of restore) (classify_jobs jobs) []))
      (sym (reconcile_restore-dispatch w restore namespace n)) (ended, planned)

plan-starts :
    (restore : KafkaRestore)
    → is_reconciliation_paused restore.metadata ≡ false
    → is_complete restore ≡ false
    → starts (plan (situation_of restore) (classify_jobs []) []) ≡ 1
unfolding situation_of classify_jobs
plan-starts restore running incomplete = starts-plan (situation_of restore) running incomplete

-- Where the cluster accepts every write, lists no Job of the restore, and has what the restore
-- depends on, the reconciliation of a restore that is not deleted, paused or complete succeeds and
-- creates exactly one Job.
pub reconcile_restore_starts :
    (w : World) (namespace : String) (restore : KafkaRestore)
    → restore.metadata.namespace ≡ some namespace
    → is_some restore.metadata.deletion_timestamp ≡ false
    → is_reconciliation_paused restore.metadata ≡ false
    → is_complete restore ≡ false
    → IsServing w namespace restore []
    → IsResolved w namespace restore
    → ((reconcile_restore w restore []).0 ≡ ok tt)
      × (count creates_job (reconcile_restore w restore []).1 ≡ 1)
reconcile_restore_starts w namespace restore n live running incomplete serving resolved =
    let (ended, planned) =
      effects-reconcile_restore w namespace restore [] n live serving (λ _. resolved) in
    (
      ended,
      starts-effects (reconcile_restore w restore []).1
          ∙ ap starts planned
          ∙ plan-starts restore running incomplete,
    )
