-- ===== src/Reconcile/Backup/Outcome/Recorded.antt =====
-- That `check_job_completion` of src/reconcilers/backup.rs recognises what it has recorded.
use strimzi_backup_operator.Base.{
  String, ◌≡◌, refl, sym, ◌∙◌, subst, true, false, some, List, [], ◌∷◌, All, inl, inr, Bool-cases,
  unwrap_or, eq_refl,
}
use strimzi_backup_operator.Base.Int.{ℤ}
use strimzi_backup_operator.Error.{kube, ok}
use strimzi_backup_operator.Crd.Backup.{KafkaBackup, name_any}
use strimzi_backup_operator.Crd.Status.{KafkaBackupStatus, BackupHistoryEntry, Condition, Time}
use strimzi_backup_operator.JobState.{Job, job_succeeded, name_of}
use strimzi_backup_operator.Status.{new_condition, not_ready, error_conditions, find_condition}
use strimzi_backup_operator.Strimzi.Reads.{found}
use strimzi_backup_operator.Reconcile.Server.{
  World, Action, ◌>>=◌, asks, lift, patch_backup_status, whole,
}
use strimzi_backup_operator.Reconcile.Hoare.{
  Pred, Keeps, Keeps->>=, Keeps-asks, Keeps-reads, Keeps-send, Keeps-done, Keeps-if, kept,
}
use strimzi_backup_operator.Reconcile.Backup.Status.{
  current_backup_status, patch, patch_status, set_conditions, completed_status,
  update_status_completed,
}
use strimzi_backup_operator.Reconcile.Backup.Outcome.{
  latest_terminal, backup_jobs_selector, history_entry, failure_message, already_recorded,
  record_outcome, record_latest, check_job_completion,
}
use strimzi_backup_operator.Reconcile.Backup.Outcome.Laws.{check_job_completion_recorded}

-- A write of a whole status, if it is one, writes one of which this holds.
abbrev Says : (KafkaBackupStatus → Type 0) → Action → Type 0
Says P (patch_backup_status name (whole s)) = P s
Says P _ = Unit

module _ (P : KafkaBackupStatus → Type 0) (w : World) (namespace : String) where
  abbrev AllSay : Pred
  AllSay log = All (λ write. Says P write.action) log

  status-AllSay :
      (name : String) (s : KafkaBackupStatus) → P s → Keeps AllSay (patch_status w namespace name s)
  unfolding patch_status patch
  status-AllSay name s p = Keeps-send AllSay kube w namespace _ λ log i. (p, i)

  current-AllSay : (name : String) → Keeps AllSay (current_backup_status w namespace name)
  unfolding current_backup_status
  current-AllSay name = Keeps-reads AllSay _

  set_conditions-AllSay :
      (name : String) (g : ℤ) (cs : List Condition)
      → ((s : KafkaBackupStatus) → P (record s { conditions = cs; observed_generation = some g }))
      → Keeps AllSay (set_conditions w namespace name g cs)
  unfolding set_conditions
  set_conditions-AllSay name g cs h =
      Keeps->>= AllSay _ _ (current-AllSay name) λ s. status-AllSay name _ (h s)

  completed-AllSay :
      (name : String) (g : ℤ) (entry : BackupHistoryEntry)
      → ((s : KafkaBackupStatus) (c : Condition) → P (completed_status s c g entry))
      → Keeps AllSay (update_status_completed w namespace name g entry)
  unfolding update_status_completed
  completed-AllSay name g entry h =
      Keeps->>= AllSay _ _ (current-AllSay name)
        λ s. Keeps-asks AllSay _ _ λ at. status-AllSay name _ (h s _)

-- The status records the outcome of the Job.
abbrev Records : KafkaBackup → Job → KafkaBackupStatus → Type 0
Records backup job s = already_recorded (record backup { status = some s }) job ≡ true

completed-Records :
    (backup : KafkaBackup) (job : Job) (g : ℤ) (now : Time) (s : KafkaBackupStatus) (c : Condition)
    → job_succeeded job ≡ true
    → Records backup job (completed_status s c g (history_entry job now))
unfolding already_recorded completed_status history_entry
completed-Records backup job g now s c e = rw e (eq_refl (name_of job))

failed-Records :
    (backup : KafkaBackup) (job : Job) (g : ℤ) (now : Time) (s : KafkaBackupStatus)
    → job_succeeded job ≡ false
    → Records backup job (record s {
      conditions = error_conditions now "BackupFailed" (failure_message job);
      observed_generation = some g;
    })
unfolding already_recorded error_conditions find_condition not_ready new_condition
failed-Records backup job g now s e = rw e (eq_refl (failure_message job))

module _ (w : World) (namespace : String) (backup : KafkaBackup) (g : ℤ) where
  outcome-AllSay :
      (job : Job)
      → Keeps (AllSay (Records backup job) w namespace) (record_outcome w namespace backup g job)
  unfolding record_outcome
  outcome-AllSay job =
      let I = AllSay (Records backup job) w namespace in
      elim (Bool-cases (job_succeeded job)) [
        | inl e ↦ rw e (
            Keeps-asks I _ _ λ at.
              completed-AllSay (Records backup job) w namespace _ g _
                λ s c. completed-Records backup job g (w.now at) s c e)
        | inr e ↦ rw e (
            Keeps-asks I _ _ λ at.
              set_conditions-AllSay (Records backup job) w namespace _ g _
                λ s. failed-Records backup job g (w.now at) s e)
      ]

  latest-AllSay :
      (job : Job)
      → Keeps
          (AllSay (Records backup job) w namespace)
          (record_latest w namespace backup g (some job))
  unfolding record_latest
  latest-AllSay job =
      let I = AllSay (Records backup job) w namespace in
      Keeps-if I _ _ _ (Keeps-done I) (outcome-AllSay job)

checked :
    (w : World) (backup : KafkaBackup) (generation : ℤ) (jobs : List Job) (job : Job)
    → w.jobs []
        (unwrap_or backup.metadata.namespace "")
        (backup_jobs_selector (name_any backup.metadata))
      ≡ found jobs
    → latest_terminal jobs ≡ some job
    → check_job_completion w backup generation []
      ≡ record_latest w (unwrap_or backup.metadata.namespace "") backup generation (some job) []
unfolding check_job_completion ◌>>=◌ asks lift
checked w backup generation jobs job listing last = rw (listing, last) refl

-- Only two parts of the status decide.
already_recorded-eq :
    (backup later : KafkaBackup) (s t : KafkaBackupStatus) (job : Job)
    → later.status ≡ some t
    → t.last_backup ≡ s.last_backup
    → t.conditions ≡ s.conditions
    → already_recorded later job ≡ already_recorded (record backup { status = some s }) job
unfolding already_recorded
already_recorded-eq backup later s t job e l c = rw (e, l, c) refl

-- The outcome of a Job is not written twice: if the check of the Jobs wrote a status for the Job that
-- ended last, and the resource has the last backup and the conditions of that status, then a later
-- check, in whatever cluster lists Jobs of which this one ended last, succeeds and writes nothing.
pub check_job_completion_once :
    (w v : World) (backup later : KafkaBackup) (generation next : ℤ) (jobs others : List Job)
    (job : Job) (namespace name : String) (s t : KafkaBackupStatus)
    → w.jobs []
        (unwrap_or backup.metadata.namespace "")
        (backup_jobs_selector (name_any backup.metadata))
      ≡ found jobs
    → latest_terminal jobs ≡ some job
    → (check_job_completion w backup generation []).1
      ≡ record { namespace = namespace; action = patch_backup_status name (whole s) } ∷ []
    → later.status ≡ some t
    → t.last_backup ≡ s.last_backup
    → t.conditions ≡ s.conditions
    → v.jobs []
        (unwrap_or later.metadata.namespace "")
        (backup_jobs_selector (name_any later.metadata))
      ≡ found others
    → latest_terminal others ≡ some job
    → check_job_completion v later next [] ≡ (ok tt, [])
check_job_completion_once w v backup later generation next jobs others job namespace name s t
      listing last wrote has l c relisting again =
    let at = unwrap_or backup.metadata.namespace "" in
    let I = AllSay (Records backup job) w at in
    let said : I (check_job_completion w backup generation []).1 =
      subst (λ r. I r.1) (sym (checked w backup generation jobs job listing last))
        (kept I (record_latest w at backup generation (some job)) []
          (latest-AllSay w at backup generation job) tt) in
    let (records, _) = subst I wrote said in
    check_job_completion_recorded v later next others job relisting again
      (already_recorded-eq backup later s t job has l c ∙ records)
