-- ===== src/Reconcile/Server.antt =====
-- The Kubernetes API as the reconcilers use it through the kube crate, and the effects of their
-- asynchronous functions. What the cluster answers is a parameter, `World`, which may depend on every
-- write that was attempted before; between two writes of the operator it is taken not to change.
use strimzi_backup_operator.Base.{String, Option, none, some, List, ◌∷◌}
use strimzi_backup_operator.Base.Int.{ℤ}
use strimzi_backup_operator.Error.{Error, KubeError, kube, Result, ok, err, panic}
use strimzi_backup_operator.JobState.{Job}
use strimzi_backup_operator.Crd.Status.{
  Time, Condition, BackupHistoryEntry, KafkaBackupStatus, KafkaRestoreStatus,
}
use strimzi_backup_operator.Crd.Backup.{KafkaBackup}
use strimzi_backup_operator.Strimzi.Reads.{Reply, found, failed, Reads, Bytes}
use strimzi_backup_operator.Retention.Storage.Manifest.{StoredBackupManifest}
use strimzi_backup_operator.Retention.Storage.Open.{Backends}
use strimzi_backup_operator.Adapters.Yaml.{Entries}
use strimzi_backup_operator.Jobs.Objects.{Conversions, JobObject, CronJobObject, OwnerReference}

pub record ConfigMapObject : Type 0 where
  pub name : String
  pub namespace : String
  pub labels : List (String × String)
  pub owner : OwnerReference
  pub contents : List (String × String)

-- What becomes of the objects that a deleted one owns.
pub data PropagationPolicy : Type 0 where
  orphan background foreground : PropagationPolicy

-- kube's parameters of a deletion, as far as the operator sets them. The server has its own default.
pub record DeleteParams : Type 0 where
  pub propagation_policy : Option PropagationPolicy

-- A merge patch of an object's finalizers: a list, or null.
pub data FinalizersPatch : Type 0 where
  finalizers : List String → FinalizersPatch
  null_finalizers : FinalizersPatch

-- The kinds of resource that the operator reconciles.
pub data Kind : Type 0 where
  kafka_backup kafka_restore : Kind

-- A merge patch of a KafkaBackup's status: a status, whose absent fields are skipped; the suspension,
-- which sets `nextScheduledBackup` to null; or the history alone.
pub data BackupStatusPatch : Type 0 where
  whole : KafkaBackupStatus → BackupStatusPatch
  suspension : Condition → (generation : ℤ) → BackupStatusPatch
  history : List BackupHistoryEntry → BackupStatusPatch

pub data Action : Type 0 where
  patch_backup_status : (name : String) → BackupStatusPatch → Action
  patch_finalizers : Kind → (name : String) → FinalizersPatch → Action
  patch_restore_status : (name : String) → KafkaRestoreStatus → Action
  -- a merge patch of a KafkaBackup that sets the annotation to null
  remove_annotation : (name key : String) → Action
  apply_config_map : ConfigMapObject → Action
  create_job : JobObject → Action
  -- a forced apply
  apply_cronjob : CronJobObject → Action
  delete_job delete_cronjob delete_config_map : DeleteParams → (name : String) → Action
  -- the deletion of an object in a backup's storage, which is in no namespace: the resource's is noted
  delete_object : (path : String) → Action

-- A write that was attempted, in its namespace. A log of them has the newest first.
pub record Write : Type 0 where
  pub namespace : String
  pub action : Action

pub record World : Type 0 where
  pub answer : List Write → Write → Option KubeError
  pub now : List Write → Time
  pub reads : List Write → Reads
  pub jobs : List Write → (namespace selector : String) → Reply (List Job)
  pub backup : List Write → (namespace name : String) → Reply KafkaBackup
  -- `format("%Y%m%d-%H%M%S")`
  pub timestamp : Time → String
  -- `serde_yaml::to_string`
  pub print : Entries → Result String
  pub parse_rfc3339 : String → Option ℤ
  -- the object stores that can be opened
  pub backends : List Write → Backends
  -- `serde_json::from_slice(...).ok()` on a manifest
  pub parse_manifest : Bytes → Option StoredBackupManifest
  pub from_timestamp_millis : ℤ → Option Time
  -- the bounds of `DateTime<Utc>`
  pub earliest : Time
  pub latest : Time
  pub conversions : Conversions
  -- The variable `BACKUP_JOB_SERVICE_ACCOUNT`
  pub service_account : Option String

abbrev pub Op : Type 0 → Type 0
Op A = List Write → Result A × List Write

module _ {A B : Type 0} where
  abbrev pub after : Result A × List Write → (A → Op B) → Result B × List Write
  after (ok a, log) f = f a log
  after (err e, log) f = (err e, log)
  after (panic, log) f = (panic, log)

  infixl 5 ◌>>=◌
  unfoldable pub ◌>>=◌ : Op A → (A → Op B) → Op B
  (m >>= f) log = after (m log) f

infixl 5 ◌>>◌
abbrev pub ◌>>◌ : {B : Type 0} → Op (Unit {0}) → Op B → Op B
m >> k = m >>= λ _. k

module _ {A : Type 0} where
  -- A computation that writes nothing.
  unfoldable pub lift : Result A → Op A
  lift r log = (r, log)

  -- What is read in the cluster as it is.
  unfoldable pub asks : (List Write → A) → Op A
  asks f log = (ok (f log), log)

  abbrev pub answered : Reply A → Result A
  answered (found a) = ok a
  answered (failed e) = err (kube e)

  unfoldable pub reported : Result A → (Error → Op (Unit {0})) → Op A
  unfolding lift ◌>>=◌
  reported (ok a) report = lift (ok a)
  reported (err e) report = report e >>= λ _. lift (err e)
  reported panic report = lift panic

  -- `match ... { Err(e) => { report(e).await?; return Err(e) } }` around reads
  unfoldable pub reporting : (List Write → Result A) → (Error → Op (Unit {0})) → Op A
  unfolding reported
  reporting result report log = reported (result log) report log

-- `let _ = ...`
abbrev pub ignoring : Result (Unit {0}) × List Write → Result (Unit {0}) × List Write
ignoring (ok _, log) = (ok tt, log)
ignoring (err _, log) = (ok tt, log)
ignoring (panic, log) = (panic, log)

unfoldable pub done : Op (Unit {0})
unfolding lift
done = lift (ok tt)

abbrev pub outcome : (KubeError → Error) → Option KubeError → Result (Unit {0})
outcome to_error none = ok tt
outcome to_error (some e) = err (to_error e)

-- One write, whose answer depends on those before, with the error that a failure becomes.
unfoldable pub send_or : (KubeError → Error) → World → String → Action → Op (Unit {0})
send_or to_error w namespace action log =
    let write : Write = record { namespace = namespace; action = action } in
    (outcome to_error (w.answer log write), write ∷ log)

abbrev pub send : World → String → Action → Op (Unit {0})
send w namespace action = send_or kube w namespace action
