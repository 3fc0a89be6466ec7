-- ===== src/Reconcile/Backup/Outcome/Laws.antt =====
-- What `check_job_completion` of src/reconcilers/backup.rs writes, and for which Job.
use strimzi_backup_operator.Base.{
  String, ◌≡◌, refl, sym, ◌∙◌, ◌≤◌, Bool, true, false, ◌&&◌, Option, none, some, List, [], ◌∷◌,
  arith, any, retain, inl, inr, Bool-cases, if◌then◌else◌, unwrap_or, subst, ◌+◌,
}
use mathlib.Core.Option.{some-injective}
use strimzi_backup_operator.Base.Int.{ℤ}
use strimzi_backup_operator.Error.{kube, ok}
use strimzi_backup_operator.Crd.Backup.{KafkaBackup, name_any}
use strimzi_backup_operator.Crd.Status.{Time, BackupHistoryEntry, Condition, KafkaBackupStatus}
use strimzi_backup_operator.JobState.{Job}
use strimzi_backup_operator.Strimzi.Reads.{found}
use strimzi_backup_operator.Reconcile.Server.{Write, Action, World, Op, ◌>>=◌, lift, asks, done}
use strimzi_backup_operator.Reconcile.Counting.{
  count, AtMost, AtMost->>=, AtMost-lift, AtMost-asks, AtMost-done, AtMost-if, AtMost-send,
}
use strimzi_backup_operator.Reconcile.Backup.Status.{
  patch, patch_status, current_backup_status, set_conditions, update_status_completed,
}
use strimzi_backup_operator.Reconcile.Backup.Outcome.{
  is_terminal, starts_before, start_of, latest_from, latest, latest_terminal, already_recorded,
  record_outcome, record_latest, check_job_completion, backup_jobs_selector,
}

-- Whether the other Job started after this one.
abbrev pub is_after : Job → Job → Bool
is_after job other = starts_before (start_of job) (start_of other)

before_trans :
    (a b c : Option Time)
    → starts_before a b ≡ true
    → starts_before b c ≡ true
    → starts_before a c ≡ true
unfolding starts_before
before_trans (some a) none c p q = ground arith
before_trans none (some b) none p q = ground arith
before_trans (some a) (some b) none p q = ground arith
before_trans none b (some c) p q = refl
before_trans (some a) (some b) (some c) p q = ground arith
before_trans none none none p q = ground arith

not_before_trans :
    (a b c : Option Time)
    → starts_before a b ≡ false
    → starts_before b c ≡ false
    → starts_before a c ≡ false
unfolding starts_before
not_before_trans none b none p q = refl
not_before_trans (some a) b none p q = refl
not_before_trans a none (some c) p q = ground arith
not_before_trans none (some b) (some c) p q = ground arith
not_before_trans (some a) (some b) (some c) p q = ground arith

latest_of_later :
    (m best job : Job) (jobs : List Job)
    → any (is_after m) ((if starts_before (start_of job) (start_of best) then best else job) ∷ jobs)
      ≡ false
    → any (is_after m) (best ∷ job ∷ jobs) ≡ false
latest_of_later m best job jobs h =
    elim (Bool-cases (starts_before (start_of job) (start_of best))) [
      | inl e ↦
          let k : any (is_after m) (best ∷ jobs) ≡ false =
            subst (λ b. any (is_after m) ((if b then best else job) ∷ jobs) ≡ false) e h in
          ground (arith, k, before_trans (start_of m) (start_of job) (start_of best))
      | inr e ↦ ground (arith, h, e, not_before_trans (start_of m) (start_of job) (start_of best))
    ]

not_before_self : (t : Option Time) → starts_before t t ≡ false
unfolding starts_before
not_before_self none = refl
not_before_self (some t) = ground arith

latest_from-greatest :
    (best : Job) (jobs : List Job) → any (is_after (latest_from best jobs)) (best ∷ jobs) ≡ false
unfolding latest_from
latest_from-greatest best [] = ground (arith, not_before_self (start_of best))
latest_from-greatest best (job ∷ jobs) =
    let later = if starts_before (start_of job) (start_of best) then best else job in
    latest_of_later (latest_from later jobs) best job jobs (latest_from-greatest later jobs)

any-retain :
    (p q : Job → Bool) (jobs : List Job) → any p (retain q jobs) ≡ any (λ j. q j && p j) jobs
any-retain p q [] = refl
any-retain p q (j ∷ jobs) = ground (arith, any-retain p q jobs)

latest-greatest :
    (jobs : List Job) (job : Job) → latest jobs ≡ some job → any (is_after job) jobs ≡ false
unfolding latest
latest-greatest [] job h = cc
latest-greatest (j ∷ jobs) job h =
    subst (λ x. any (is_after x) (j ∷ jobs) ≡ false) (some-injective _ _ h)
      (latest_from-greatest j jobs)

-- No Job that ended started after the one that is recorded.
pub latest_terminal-greatest :
    (jobs : List Job) (job : Job)
    → latest_terminal jobs ≡ some job
    → any (λ j. is_terminal j && is_after job j) jobs ≡ false
unfolding latest_terminal
latest_terminal-greatest jobs job h =
    sym (any-retain (is_after job) is_terminal jobs)
    ∙ latest-greatest (retain is_terminal jobs) job h

abbrev pub is_write : Action → Bool
is_write a = true

module _ (w : World) (namespace : String) where
  patch_status-writes :
      (name : String) (s : KafkaBackupStatus) → AtMost is_write 1 (patch_status w namespace name s)
  unfolding patch_status patch
  patch_status-writes name s = AtMost-send is_write kube w namespace _

  read_writes :
      (name : String) (log : List Write)
      → count is_write (current_backup_status w namespace name log).1 ≤ 0 + count is_write log
  unfolding current_backup_status lift
  read_writes name log = omega arith

  status_read :
      {B : Type 0} (name : String) (f : KafkaBackupStatus → Op B)
      → ((s : KafkaBackupStatus) → AtMost is_write 1 (f s))
      → AtMost is_write 1 (current_backup_status w namespace name >>= f)
  status_read name f h =
      AtMost->>= is_write 0 1 _ _ (record { at_most = λ log. read_writes name log }) h

  set_conditions-writes :
      (name : String) (g : ℤ) (cs : List Condition)
      → AtMost is_write 1 (set_conditions w namespace name g cs)
  unfolding set_conditions
  set_conditions-writes name g cs = status_read name _ λ s. patch_status-writes name _

  completed-writes :
      (name : String) (g : ℤ) (entry : BackupHistoryEntry)
      → AtMost is_write 1 (update_status_completed w namespace name g entry)
  unfolding update_status_completed
  completed-writes name g entry =
      status_read name _ λ s. AtMost-asks is_write 1 _ _ λ now. patch_status-writes name _

  record_outcome-writes :
      (backup : KafkaBackup) (g : ℤ) (job : Job)
      → AtMost is_write 1 (record_outcome w namespace backup g job)
  unfolding record_outcome
  record_outcome-writes backup g job =
      AtMost-if is_write 1 _ _ _ (AtMost-asks is_write 1 _ _ λ now. completed-writes _ g _)
        (AtMost-asks is_write 1 _ _ λ now. set_conditions-writes _ g _)

  record_latest-writes :
      (backup : KafkaBackup) (g : ℤ) (job : Option Job)
      → AtMost is_write 1 (record_latest w namespace backup g job)
  unfolding record_latest
  record_latest-writes backup g none = AtMost-done is_write 1
  record_latest-writes backup g (some job) =
      AtMost-if is_write 1 _ _ _ (AtMost-done is_write 1) (record_outcome-writes backup g job)

-- The check of the Jobs attempts at most one write, whatever the cluster answers.
pub check_job_completion_writes_once :
    (w : World) (backup : KafkaBackup) (generation : ℤ)
    → count is_write (check_job_completion w backup generation []).1 ≤ 1
unfolding check_job_completion
check_job_completion_writes_once w backup generation =
    (AtMost-asks is_write 1 _ _ λ reply. AtMost-lift is_write 1 _ _ λ jobs.
        record_latest-writes w (unwrap_or backup.metadata.namespace "") backup generation
          (latest_terminal jobs)).at_most
      []

-- An outcome that the status has already is not written again: the check of the Jobs writes nothing
-- if the latest Job that ended is recorded.
pub check_job_completion_recorded :
    (w : World) (backup : KafkaBackup) (generation : ℤ) (jobs : List Job) (job : Job)
    → w.jobs []
        (unwrap_or backup.metadata.namespace "")
        (backup_jobs_selector (name_any backup.metadata))
      ≡ found jobs
    → latest_terminal jobs ≡ some job
    → already_recorded backup job ≡ true
    → check_job_completion w backup generation [] ≡ (ok tt, [])
unfolding check_job_completion ◌>>=◌ asks lift record_latest done
check_job_completion_recorded w backup generation jobs job listing last recorded =
    rw (listing, last, recorded) refl
