-- ===== src/Reconcile/Restore/Lifecycle.antt =====
-- A KafkaRestore over its life: src/reconcilers/restore.rs reconciles it any number of times, and
-- between these the cluster runs its Jobs.
use strimzi_backup_operator.Base.{
  ℕ, ◌+◌, ◌≤◌, String, ◌≡◌, ◌≢◌, ◌⊎◌, sym, subst, some, false, ◌&&◌, List, [], ◌∷◌, length, arith,
  is_none, if◌then◌else◌,
}
use strimzi_backup_operator.Error.{Result, ok, is_ok}
use strimzi_backup_operator.Crd.Backup.{name_any}
use strimzi_backup_operator.Crd.Restore.{KafkaRestore}
use strimzi_backup_operator.JobState.{Job}
use strimzi_backup_operator.Reconcile.Server.{World, Write, answered}
use strimzi_backup_operator.Reconcile.Counting.{count}
use strimzi_backup_operator.Reconcile.Restore.{reconcile_restore, restore_jobs_selector}
use strimzi_backup_operator.Reconcile.Restore.Creates.{creates_job}
use strimzi_backup_operator.Reconcile.Restore.Safety.{
  reconcile_restore_creates_one, reconcile_restore_listed,
}

-- The Jobs that the cluster would list, and how many Jobs it has accepted from the operator.
pub record Life : Type 0 where
  pub jobs : List Job
  pub created : ℕ

-- How many Jobs were created, of those that were attempted.
abbrev pub accepted : World → List Write → ℕ
accepted w [] = 0
accepted w (write ∷ log) =
    (if creates_job write.action && is_none (w.answer log write) then 1 else 0) + accepted w log

accepted-le-count : (w : World) (log : List Write) → accepted w log ≤ count creates_job log
accepted-le-count w [] = omega arith
accepted-le-count w (write ∷ log) = ground (arith, accepted-le-count w log)

-- If the Jobs of this restore are listed at all in its namespace, it is these.
abbrev pub Lists : World → (namespace name : String) → List Job → Type 0
Lists w namespace name jobs =
    (log : List Write)
    → (is_ok (answered (w.jobs log namespace (restore_jobs_selector name))) ≡ false)
      ⊎ (answered (w.jobs log namespace (restore_jobs_selector name)) ≡ ok jobs)

-- A step of the cluster changes the Jobs, as their pods run; one of the operator is a reconciliation
-- of the resource, whatever its status is by then. Jobs do not disappear, and those that were
-- created are listed afterwards.
pub data Step (namespace name : String) (s : Life) : Life → Type 0 where
  run_jobs :
      (jobs : List Job)
      → length s.jobs ≤ length jobs
      → Step namespace name s (record s { jobs = jobs })
  reconcile :
      (w : World) (restore : KafkaRestore) (jobs : List Job)
      → restore.metadata.namespace ≡ some namespace
      → name_any restore.metadata ≡ name
      → Lists w namespace name s.jobs
      → length s.jobs + accepted w (reconcile_restore w restore []).1 ≤ length jobs
      → Step namespace name s (record {
        jobs = jobs;
        created = s.created + accepted w (reconcile_restore w restore []).1;
      })

pub data Reach (namespace name : String) (s : Life) : Life → Type 0 where
  here : Reach namespace name s s
  next :
      {t u : Life} → Reach namespace name s t → Step namespace name t u → Reach namespace name s u

-- At most one Job was created, and if so there is a Job.
abbrev IsOnce : Life → Type 0
IsOnce s = (s.created ≤ 1) × (s.created ≤ length s.jobs)

not_empty :
    (r : Result (List Job)) (job : Job) (jobs : List Job)
    → (is_ok r ≡ false) ⊎ (r ≡ ok (job ∷ jobs))
    → r ≢ ok []
not_empty r job jobs h e = ground (arith, h, e)

nothing_accepted :
    (w : World) (restore : KafkaRestore) (namespace name : String) (job : Job) (jobs : List Job)
    → restore.metadata.namespace ≡ some namespace
    → name_any restore.metadata ≡ name
    → Lists w namespace name (job ∷ jobs)
    → accepted w (reconcile_restore w restore []).1 ≡ 0
nothing_accepted w restore namespace name job jobs ns n lists =
    let none_created = reconcile_restore_listed w restore namespace ns λ log.
      subst (λ x. answered (w.jobs log namespace (restore_jobs_selector x)) ≢ ok []) (sym n)
        (not_empty _ job jobs (lists log)) in
    omega (arith, none_created, accepted-le-count w (reconcile_restore w restore []).1)

reconciled-IsOnce :
    (namespace name : String) (w : World) (restore : KafkaRestore) (old jobs : List Job)
    (created : ℕ)
    → created ≤ 1
    → created ≤ length old
    → restore.metadata.namespace ≡ some namespace
    → name_any restore.metadata ≡ name
    → Lists w namespace name old
    → length old + accepted w (reconcile_restore w restore []).1 ≤ length jobs
    → IsOnce
        (record { jobs = jobs; created = created + accepted w (reconcile_restore w restore []).1 })
reconciled-IsOnce namespace name w restore [] jobs created one listed ns n lists kept =
    let bound = reconcile_restore_creates_one w restore in
    let few = accepted-le-count w (reconcile_restore w restore []).1 in
    (omega (arith, one, listed, kept, bound, few), omega (arith, one, listed, kept, bound, few))
reconciled-IsOnce namespace name w restore (job ∷ old) jobs created one listed ns n lists kept =
    let none_accepted = nothing_accepted w restore namespace name job old ns n lists in
    (
      omega (arith, one, listed, kept, none_accepted),
      omega (arith, one, listed, kept, none_accepted),
    )

Step-IsOnce : {namespace name : String} {s t : Life} → Step namespace name s t → IsOnce s → IsOnce t
Step-IsOnce {s = s} (run_jobs jobs h) (one, listed) = (one, omega (arith, listed, h))
Step-IsOnce {namespace = namespace} {name = name} {s = s} (reconcile w restore jobs ns n lists kept)
      (one, listed) =
    reconciled-IsOnce namespace name w restore s.jobs jobs s.created one listed ns n lists kept

Reach-IsOnce :
    {namespace name : String} {s t : Life} → IsOnce s → Reach namespace name s t → IsOnce t
Reach-IsOnce h here = h
Reach-IsOnce h (next r st) = Step-IsOnce st (Reach-IsOnce h r)

-- However often a restore is reconciled while the cluster runs its Jobs, with whatever statuses and
-- answers, at most one Job is ever created for it, provided that its Jobs do not disappear and that a
-- list of them in its namespace that is answered has them.
pub created_once :
    (namespace name : String) (jobs : List Job) (t : Life)
    → Reach namespace name (record { jobs = jobs; created = 0 }) t
    → t.created ≤ 1
created_once namespace name jobs t r = (Reach-IsOnce (omega arith, omega arith) r).0
