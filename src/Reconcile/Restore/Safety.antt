-- ===== src/Reconcile/Restore/Safety.antt =====
-- What src/reconcilers/restore.rs writes in one reconciliation, whatever the cluster answers.
use strimzi_backup_operator.Base.{
  String, ◌≡◌, ◌≢◌, refl, sym, ap, ◌∙◌, ◌≤◌, ◌⊎◌, true, false, some, List, [], ◌∷◌, arith, is_some,
  unwrap_or, inl, inr, subst, Bool-cases,
}
use strimzi_backup_operator.Base.Int.{pos}
use strimzi_backup_operator.Error.{Result, ok, err, panic, ok_or, missing_object_key}
use strimzi_backup_operator.Crd.Backup.{name_any}
use strimzi_backup_operator.Crd.Restore.{KafkaRestore}
use strimzi_backup_operator.Crd.Status.{KafkaRestoreStatus, default_restore_status}
use strimzi_backup_operator.JobState.{Job, classify_jobs}
use strimzi_backup_operator.Reconcile.Server.{
  World, Write, ◌>>=◌, after, lift, asks, answered, done, send_or, patch_restore_status,
}
use strimzi_backup_operator.Reconcile.Shared.{is_reconciliation_paused}
use strimzi_backup_operator.Reconcile.Counting.{count, AtMost, AtMost->>=, AtMost-lift, AtMost-done}
use strimzi_backup_operator.Reconcile.Restore.{
  advance, follow_jobs, is_complete, reconcile_live, dispatch, reconcile_restore,
  restore_jobs_selector,
}
use strimzi_backup_operator.Reconcile.Restore.Status.{
  patch_status, says_paused, update_status_reconciliation_paused,
}
use strimzi_backup_operator.Reconcile.Restore.Creates.{
  creates_job, ensure_finalizer-creates, advance_none, reconcile_live-creates, dispatched_one,
}

-- One reconciliation of a restore attempts to create at most one Job, whatever the cluster answers.
pub reconcile_restore_creates_one :
    (w : World) (restore : KafkaRestore) → count creates_job (reconcile_restore w restore []).1 ≤ 1
unfolding reconcile_restore
reconcile_restore_creates_one w restore =
    (AtMost-lift creates_job 1 _ _ λ namespace.
        dispatched_one w namespace restore 1 (reconcile_live-creates w namespace restore)).at_most
      []

creates_none :
    (w : World) (restore : KafkaRestore)
    → ((namespace : String) → AtMost creates_job 0 (reconcile_live w namespace restore))
    → count creates_job (reconcile_restore w restore []).1 ≡ 0
unfolding reconcile_restore
creates_none w restore h =
    let bound : AtMost creates_job 0 (reconcile_restore w restore) =
      AtMost-lift creates_job 0 _ _
        λ namespace. dispatched_one w namespace restore 0 (h namespace) in
    omega (arith, bound.at_most [])

live_complete :
    (w : World) (namespace : String) (restore : KafkaRestore)
    → is_complete restore ≡ true
    → AtMost creates_job 0 (reconcile_live w namespace restore)
unfolding reconcile_live
live_complete w namespace restore h =
    AtMost->>= creates_job 0 0 _ _ (ensure_finalizer-creates w namespace restore)
      λ _. rw h (AtMost-done creates_job 0)

-- A restore whose status has the condition `RestoreComplete` creates no Job, whatever the cluster
-- answers: not even if its Jobs are gone.
pub reconcile_restore_complete :
    (w : World) (restore : KafkaRestore)
    → is_complete restore ≡ true
    → count creates_job (reconcile_restore w restore []).1 ≡ 0
reconcile_restore_complete w restore h =
    creates_none w restore λ namespace. live_complete w namespace restore h

follow_listed :
    (w : World) (namespace : String) (restore : KafkaRestore) (r : Result (List Job))
    → r ≢ ok []
    → AtMost creates_job 0
        (lift r >>= λ jobs. advance w namespace restore jobs (classify_jobs jobs))
unfolding ◌>>=◌ lift
follow_listed w namespace restore (ok jobs) h = record {
  at_most = λ log. (advance_none w namespace restore jobs λ e. h (ap ok e)).at_most log;
}
follow_listed w namespace restore (err e) h = record { at_most = λ log. omega arith }
follow_listed w namespace restore panic h = record { at_most = λ log. omega arith }

live_listed :
    (w : World) (namespace : String) (restore : KafkaRestore)
    → ((log : List Write)
        → answered (w.jobs log namespace (restore_jobs_selector (name_any restore.metadata)))
          ≢ ok [])
    → AtMost creates_job 0 (reconcile_live w namespace restore)
unfolding reconcile_live follow_jobs ◌>>=◌ asks
live_listed w namespace restore h =
    AtMost->>= creates_job 0 0 _ _ (ensure_finalizer-creates w namespace restore) λ _.
      elim (Bool-cases (is_complete restore)) [
        | inl e ↦ rw e (AtMost-done creates_job 0)
        | inr e ↦
            rw e (record {
              at_most = λ log. (follow_listed w namespace restore _ (h log)).at_most log;
            })
      ]

pub reconcile_restore-dispatch :
    (w : World) (restore : KafkaRestore) (namespace : String)
    → restore.metadata.namespace ≡ some namespace
    → reconcile_restore w restore [] ≡ dispatch w restore namespace []
unfolding reconcile_restore ◌>>=◌ lift
reconcile_restore-dispatch w restore namespace n =
    ap (λ o. after (ok_or o (missing_object_key ".metadata.namespace"), []) (dispatch w restore)) n

-- A restore creates no Job unless the list of its Jobs in its namespace is answered, and empty: a Job
-- in any state, or a list that fails, suppresses another one.
pub reconcile_restore_listed :
    (w : World) (restore : KafkaRestore) (namespace : String)
    → restore.metadata.namespace ≡ some namespace
    → ((log : List Write)
        → answered (w.jobs log namespace (restore_jobs_selector (name_any restore.metadata)))
          ≢ ok [])
    → count creates_job (reconcile_restore w restore []).1 ≡ 0
reconcile_restore_listed w restore namespace n h =
    let bound = dispatched_one w namespace restore 0 (live_listed w namespace restore h) in
    let reached =
      ap (λ r. count creates_job r.1) (reconcile_restore-dispatch w restore namespace n) in
    omega (arith, reached, bound.at_most [])

dispatch_paused :
    (w : World) (restore : KafkaRestore) (namespace : String)
    → is_some restore.metadata.deletion_timestamp ≡ false
    → is_reconciliation_paused restore.metadata ≡ true
    → dispatch w restore namespace [] ≡ update_status_reconciliation_paused w namespace restore []
unfolding dispatch
dispatch_paused w restore namespace live paused = rw (live, paused) refl

-- A write of the status of a resource.
abbrev pub status_write : String → String → KafkaRestoreStatus → Write
status_write namespace name status = record {
  namespace = namespace;
  action = patch_restore_status name status;
}

paused_writes :
    (w : World) (namespace : String) (restore : KafkaRestore)
    → ((update_status_reconciliation_paused w namespace restore []).1 ≡ [])
      ⊎ ((status : KafkaRestoreStatus) × ((update_status_reconciliation_paused w namespace restore
              []).1
            ≡ status_write namespace (name_any restore.metadata) status ∷ []))
unfolding update_status_reconciliation_paused patch_status send_or ◌>>=◌ asks done lift
paused_writes w namespace restore =
    elim (Bool-cases (
      says_paused (unwrap_or restore.status default_restore_status)
        (unwrap_or restore.metadata.generation (pos 0)))) [
          | inl e ↦ inl (rw e refl)
          | inr e ↦ inr (rw e (_, refl))
        ]

-- A paused restore that is not deleted gets at most one write, and that is of its status.
pub reconcile_restore_paused :
    (w : World) (restore : KafkaRestore) (namespace : String)
    → restore.metadata.namespace ≡ some namespace
    → is_some restore.metadata.deletion_timestamp ≡ false
    → is_reconciliation_paused restore.metadata ≡ true
    → ((reconcile_restore w restore []).1 ≡ [])
      ⊎ ((status : KafkaRestoreStatus) × ((reconcile_restore w restore []).1
            ≡ status_write namespace (name_any restore.metadata) status ∷ []))
reconcile_restore_paused w restore namespace n live paused =
    subst
      (λ r.
        (r.1 ≡ [])
        ⊎ ((status : KafkaRestoreStatus) × (r.1
              ≡ status_write namespace (name_any restore.metadata) status ∷ [])))
      (sym (
        reconcile_restore-dispatch w restore namespace n
        ∙ dispatch_paused w restore namespace live paused))
      (paused_writes w namespace restore)
