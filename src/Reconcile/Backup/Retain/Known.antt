-- ===== src/Reconcile/Backup/Retain/Known.antt =====
-- What retention of src/reconcilers/backup.rs knows of the Jobs, the status and the ids that it prunes.
use strimzi_backup_operator.Base.{
  String, ◌≡◌, refl, sym, subst, ap, true, some, List, is_some, arith,
}
use strimzi_backup_operator.Error.{Result, ok, err, panic}
use strimzi_backup_operator.Crd.Backup.{KafkaBackup, RetentionSpec, name_any}
use strimzi_backup_operator.Crd.Status.{BackupHistoryEntry, KafkaBackupStatus}
use strimzi_backup_operator.JobState.{Job}
use strimzi_backup_operator.Retention.Policy.{evaluate_retention, member}
use strimzi_backup_operator.Reconcile.Server.{World, Write, ◌>>=◌, after, asks, lift, answered}
use strimzi_backup_operator.Reconcile.Hoare.{Pred, Ends, Hoare}
use strimzi_backup_operator.Reconcile.Backup.Status.{current_backup_status}
use strimzi_backup_operator.Reconcile.Backup.Outcome.{backup_jobs_selector}
use strimzi_backup_operator.Reconcile.Backup.Active.{
  active_backup_ids, active_ids, keep_active, member-keep_active,
}
use strimzi_backup_operator.Reconcile.Backup.Retain.{clock_at}
use strimzi_backup_operator.Reconcile.Backup.Retain.Prunable.{IsHistory, IsExpired}

module _ (w : World) (namespace : String) (backup : KafkaBackup) where
  -- What is known of the ids that running Jobs keep.
  abbrev pub IsListed : List String → Type 0
  IsListed active =
      (at : List Write) × (jobs : List Job) × (answered
          (w.jobs at namespace (backup_jobs_selector (name_any backup.metadata)))
        ≡ ok jobs)
      × (active_ids (is_some backup.spec.offset_storage) (name_any backup.metadata) jobs ≡ active)

  -- An id that is marked and not kept has expired.
  pub expired :
      (retention : RetentionSpec) (history : List BackupHistoryEntry) (active marked : List String)
      (at : List Write) (id : String)
      → backup.spec.retention ≡ some retention
      → IsHistory w namespace backup history
      → IsListed active
      → evaluate_retention (clock_at w at) history retention ≡ ok marked
      → member id (keep_active active marked) ≡ true
      → IsExpired w namespace backup id
  expired retention history active marked at id r k (jobs_at, jobs, listed, e) m h =
      let stores = is_some backup.spec.offset_storage in
      let name = name_any backup.metadata in
      let kept : member id (keep_active (active_ids stores name jobs) marked) ≡ true =
        subst (λ x. member id (keep_active x marked) ≡ true) (sym e) h in
      let split = member-keep_active stores name id jobs marked in
      record {
        listed_at = jobs_at;
        jobs = jobs;
        listed = listed;
        idle = ground (arith, split, kept);
        retention = retention;
        asked = r;
        history = history;
        known = k;
        evaluated_at = at;
        marked = marked;
        evaluated = m;
        is_marked = ground (arith, split, kept);
      }

  module _ (I : Pred) where
    IsListed-Ends :
        (at log : List Write) (r : Result (List Job))
        → answered (w.jobs at namespace (backup_jobs_selector (name_any backup.metadata))) ≡ r
        → I log
        → Ends
            (λ active l. IsListed active × I l)
            I
            (after
              (r, log)
              (λ jobs. lift (
                ok (
                  active_ids
                    (is_some backup.spec.offset_storage)
                    (name_any backup.metadata)
                    jobs))))
    unfolding lift
    IsListed-Ends at log (ok jobs) e i = ((at, jobs, e, refl), i)
    IsListed-Ends at log (err x) e i = i
    IsListed-Ends at log panic e i = i

    pub active_backup_ids-IsListed :
        Hoare I (active_backup_ids w namespace backup) (λ a log. IsListed a × I log) I
    unfolding active_backup_ids ◌>>=◌ asks lift
    active_backup_ids-IsListed = record { ends = λ log i. IsListed-Ends log log _ refl i }

    current-Ends :
        (log : List Write) (s : Result KafkaBackupStatus × List Write)
        → current_backup_status w namespace (name_any backup.metadata) log ≡ s
        → I s.1
        → Ends
            (λ status l.
              ((at : List Write) × ((current_backup_status w namespace
                    (name_any backup.metadata)
                    at).0
                  ≡ ok status))
              × I l)
            I
            s
    current-Ends log (ok status, l) e i = ((log, ap (λ x. x.0) e), i)
    current-Ends log (err x, l) e i = i
    current-Ends log (panic, l) e i = i

    current_reads :
        (log : List Write)
        → (current_backup_status w namespace (name_any backup.metadata) log).1 ≡ log
    unfolding current_backup_status lift
    current_reads log = refl

    -- The status that is read.
    pub current_known :
        Hoare I
          (current_backup_status w namespace (name_any backup.metadata))
          (λ status l.
            ((at : List Write) × ((current_backup_status w namespace
                  (name_any backup.metadata)
                  at).0
                ≡ ok status))
            × I l)
          I
    current_known = record {
      ends = λ log i. current-Ends log _ refl (subst I (sym (current_reads log)) i);
    }
