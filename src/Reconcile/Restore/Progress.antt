-- ===== src/Reconcile/Restore/Progress.antt =====
-- What the parts of src/reconcilers/restore.rs do to the abstract restore.
use strimzi_backup_operator.Base.{
  String, ◌≡◌, refl, ap, Bool, true, false, none, some, List, [], ◌∷◌, map_some, if◌then◌else◌,
}
use strimzi_backup_operator.Base.Int.{ℤ}
use strimzi_backup_operator.Base.Text.{format}
use strimzi_backup_operator.Error.{Error, KubeError, ok, kube}
use strimzi_backup_operator.Crd.Backup.{KafkaBackup, name_any}
use strimzi_backup_operator.Crd.Restore.{KafkaRestore}
use strimzi_backup_operator.Crd.Status.{RestoreInfo, KafkaRestoreStatus}
use strimzi_backup_operator.JobState.{Job, no_jobs}
use strimzi_backup_operator.Status.{
  new_condition, ready, not_ready, error_conditions, reconciliation_paused,
}
use strimzi_backup_operator.Strimzi.Reads.{found}
use strimzi_backup_operator.Strimzi.Cluster.{ResolvedKafkaCluster, resolve_kafka_cluster}
use strimzi_backup_operator.Strimzi.Auth.{ResolvedAuth, resolve_auth}
use strimzi_backup_operator.Adapters.Yaml.{Entries}
use strimzi_backup_operator.Adapters.Restore.{build_restore_config}
use strimzi_backup_operator.Jobs.Build.{build_restore_job}
use strimzi_backup_operator.Reconcile.Server.{
  World, Action, Op, Write, send_or, ◌>>=◌, patch_restore_status,
}
use strimzi_backup_operator.Reconcile.Hoare.{Pred, Hoare->>=}
use strimzi_backup_operator.Reconcile.Hoare.Success.{
  Succeeds, Succeeds-lift, Succeeds-asks, Succeeds-reporting, Succeeds-send, Succeeds-done,
}
use strimzi_backup_operator.Reconcile.Restore.{
  add_finalizer, ensure_finalizer, create_or_update_config_map, create_restore_job, resolve_target,
  source_backup, start_restore, restore_jobs_selector,
}
use strimzi_backup_operator.Reconcile.Restore.Status.{
  patch_status, update_status_running, update_status_completed, update_status_failed,
  update_status_reconciliation_paused,
}
use strimzi_backup_operator.Reconcile.Restore.Plan.{
  Effect, configured, started, told, effect_of, effects, situation_of, proceed, guard,
}

-- What a restore depends on is there: its backup, its cluster and its authentication, of which a
-- configuration is made and printed.
pub record IsResolved (w : World) (namespace : String) (restore : KafkaRestore) : Type 0 where
  pub source : KafkaBackup
  pub has_source :
      (log : List Write) → w.backup log namespace restore.spec.backup_ref.name ≡ found source
  pub kafka : ResolvedKafkaCluster
  pub has_kafka :
      (log : List Write)
      → resolve_kafka_cluster
          (w.reads log)
          restore.spec.strimzi_cluster_ref
          namespace
          (map_some restore.spec.authentication (λ a. a.auth_type))
        ≡ ok kafka
  pub auth : ResolvedAuth
  pub has_auth :
      (log : List Write)
      → resolve_auth (w.reads log) restore.spec.authentication namespace ≡ ok auth
  pub config : Entries
  pub has_config : build_restore_config w.parse_rfc3339 restore source kafka auth ≡ ok config
  pub yaml : String
  pub has_yaml : w.print config ≡ ok yaml

-- A cluster that accepts every write and lists these Jobs of the restore.
pub record IsServing (w : World) (namespace : String) (restore : KafkaRestore) (jobs : List Job)
    : Type 0 where
  pub accepts : (log : List Write) (write : Write) → w.answer log write ≡ none
  pub lists :
      (log : List Write)
      → w.jobs log namespace (restore_jobs_selector (name_any restore.metadata)) ≡ found jobs

-- The writes amount to this.
abbrev pub Did : List Effect → Pred
Did history log = effects log ≡ history

pub Did-if :
    (b : Bool) (history x y : List Effect) (m k : Op (Unit {0}))
    → Succeeds (Did history) m (λ _. Did x)
    → Succeeds (Did history) k (λ _. Did y)
    → Succeeds (Did history) (if b then m else k) (λ _. Did (if b then x else y))
Did-if true history x y m k h g = h
Did-if false history x y m k h g = g

-- What one computation does and another after it.
pub Did-then :
    (history mid last : List Effect) (m k : Op (Unit {0}))
    → Succeeds (Did history) m (λ _. Did mid)
    → Succeeds (Did mid) k (λ _. Did last)
    → Succeeds (Did history) (m >>= λ _. k) (λ _. Did last)
Did-then history mid last m k h g =
    Hoare->>= (Did history) (λ _. Did mid) (λ _. Did last) (λ _. ⊥) m (λ _. k) h (λ _. g)

module _ (w : World) (namespace : String) (restore : KafkaRestore) (jobs : List Job)
    (serving : IsServing w namespace restore jobs) (history : List Effect) where
  pub sends :
      (f : KubeError → Error) (a : Action)
      → Succeeds (Did history) (send_or f w namespace a) (λ _. Did (effect_of a ∷ history))
  sends f a =
      Succeeds-send (Did history) (Did (effect_of a ∷ history)) f w namespace a serving.accepts
        λ log h. ap (λ x. effect_of a ∷ x) h

  patches :
      (status : KafkaRestoreStatus)
      → Succeeds
          (Did history)
          (patch_status w namespace (name_any restore.metadata) status)
          (λ _. Did (effect_of (patch_restore_status (name_any restore.metadata) status) ∷ history))
  unfolding patch_status
  patches status = sends kube _

  pub running-Did :
      (generation : ℤ)
      → Succeeds
          (Did history)
          (update_status_running w namespace (name_any restore.metadata) generation)
          (λ _. Did (told (name_any restore.metadata) (some "RestoreRunning") ∷ history))
  unfolding update_status_running not_ready new_condition
  running-Did generation = Succeeds-asks (Did history) (λ _. Did _) w.now _ λ at. patches _

  pub completed-Did :
      (generation : ℤ) (info : RestoreInfo)
      → Succeeds
          (Did history)
          (update_status_completed w namespace (name_any restore.metadata) generation info)
          (λ _. Did (told (name_any restore.metadata) (some "RestoreCompleted") ∷ history))
  unfolding update_status_completed ready new_condition
  completed-Did generation info = Succeeds-asks (Did history) (λ _. Did _) w.now _ λ at. patches _

  pub failed-Did :
      (generation : ℤ) (job_name : String)
      → Succeeds
          (Did history)
          (update_status_failed w namespace (name_any restore.metadata) generation job_name)
          (λ _. Did (told (name_any restore.metadata) (some "RestoreFailed") ∷ history))
  unfolding update_status_failed error_conditions not_ready new_condition
  failed-Did generation job_name = Succeeds-asks (Did history) (λ _. Did _) w.now _ λ at. patches _

  pub paused-Did :
      Succeeds (Did history) (update_status_reconciliation_paused w namespace restore) (λ _. Did (
        if (situation_of restore).told_paused
        then history
        else told (name_any restore.metadata) (some "ReconciliationPaused") ∷ history))
  unfolding update_status_reconciliation_paused reconciliation_paused new_condition situation_of
  paused-Did =
      Did-if _ history history _ _ _ (Succeeds-done (Did history))
        (Succeeds-asks (Did history) (λ _. Did _) w.now _ λ at. patches _)

  pub finalizer-Did :
      Succeeds
        (Did history)
        (ensure_finalizer w namespace restore)
        (λ _. Did (guard (situation_of restore) history))
  unfolding ensure_finalizer add_finalizer guard situation_of
  finalizer-Did = Did-if _ history history _ _ _ (Succeeds-done (Did history)) (sends kube _)

module _ (w : World) (namespace : String) (restore : KafkaRestore) (jobs : List Job)
    (serving : IsServing w namespace restore jobs) (resolved : IsResolved w namespace restore)
    (history : List Effect) where
  abbrev begun : List Effect
  begun = proceed (situation_of restore) no_jobs history

  create-Did :
      Succeeds
        (Did history)
        (create_restore_job w namespace restore resolved.source resolved.kafka resolved.auth)
        (λ _. Did begun)
  unfolding create_restore_job create_or_update_config_map build_restore_job proceed situation_of
      format
  create-Did =
      let post : Unit {0} → Pred = λ _. Did begun in
      let name = format (name_any restore.metadata ∷ "-config" ∷ []) in
      Succeeds-lift (Did history) post _ _ resolved.config resolved.has_config (
        Succeeds-lift (Did history) post _ _ resolved.yaml resolved.has_yaml (
          Did-then history (configured name ∷ history) begun _ _
            (sends w namespace restore jobs serving history kube _)
            (Succeeds-asks (Did (configured name ∷ history)) post _ _ λ at.
              Succeeds-lift (Did (configured name ∷ history)) post _ _ _ refl (
                Did-then (configured name ∷ history) (started ∷ configured name ∷ history) begun _ _
                  (sends w namespace restore jobs serving (configured name ∷ history) _ _)
                  (running-Did w namespace restore jobs serving
                    (started ∷ configured name ∷ history) _)))))

  pub start-Did : Succeeds (Did history) (start_restore w namespace restore) (λ _. Did begun)
  unfolding start_restore source_backup resolve_target
  start-Did =
      let post : Unit {0} → Pred = λ _. Did begun in
      Succeeds-asks (Did history) post _ _ λ at.
        Succeeds-lift (Did history) post _ _ resolved.source
          (ap (λ r. source_backup r restore.spec.backup_ref.name) (resolved.has_source at))
          (Succeeds-reporting (Did history) post _ _ _ resolved.kafka resolved.has_kafka (
            Succeeds-asks (Did history) post _ _ λ later.
              Succeeds-lift (Did history) post _ _ resolved.auth (resolved.has_auth later)
                create-Did))
