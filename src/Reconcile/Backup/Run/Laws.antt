-- ===== src/Reconcile/Backup/Run/Laws.antt =====
-- What one reconciliation of src/reconcilers/backup.rs does to a deleted or paused resource, and which
-- objects it deletes.
use strimzi_backup_operator.Base.{
  String, ◌≡◌, refl, sym, subst, ap, ◌∙◌, ◌⊎◌, inl, inr, true, false, some, List, [], ◌∷◌, is_some,
  unwrap_or, Bool-cases,
}
use strimzi_backup_operator.Base.Int.{pos}
use strimzi_backup_operator.Error.{ok_or, missing_object_key, kube}
use strimzi_backup_operator.Crd.Backup.{KafkaBackup, name_any}
use strimzi_backup_operator.Crd.Status.{KafkaBackupStatus, default_backup_status}
use strimzi_backup_operator.Reconcile.Server.{
  World, Write, ◌>>=◌, after, lift, asks, done, send_or, outcome, patch_backup_status, whole,
}
use strimzi_backup_operator.Reconcile.Shared.{is_reconciliation_paused}
use strimzi_backup_operator.Reconcile.Backup.Status.{
  patch, patch_status, says_paused, update_status_reconciliation_paused,
}
use strimzi_backup_operator.Reconcile.Backup.Cleanup.{handle_cleanup}
use strimzi_backup_operator.Reconcile.Backup.Cleanup.Laws.{cleaned, released, handle_cleanup_writes}
use strimzi_backup_operator.Reconcile.Backup.Run.{dispatch, reconcile_backup}

pub reconcile_backup-dispatch :
    (w : World) (backup : KafkaBackup) (namespace : String)
    → backup.metadata.namespace ≡ some namespace
    → reconcile_backup w backup [] ≡ dispatch w backup namespace []
unfolding reconcile_backup ◌>>=◌ lift
reconcile_backup-dispatch w backup namespace n =
    ap (λ o. after (ok_or o (missing_object_key ".metadata.namespace"), []) (dispatch w backup)) n

dispatch_deleted :
    (w : World) (backup : KafkaBackup) (namespace : String)
    → is_some backup.metadata.deletion_timestamp ≡ true
    → dispatch w backup namespace [] ≡ handle_cleanup w backup.metadata namespace []
unfolding dispatch
dispatch_deleted w backup namespace deleted = rw deleted refl

dispatch_paused :
    (w : World) (backup : KafkaBackup) (namespace : String)
    → is_some backup.metadata.deletion_timestamp ≡ false
    → is_reconciliation_paused backup.metadata ≡ true
    → dispatch w backup namespace [] ≡ update_status_reconciliation_paused w namespace backup []
unfolding dispatch
dispatch_paused w backup namespace live paused = rw (live, paused) refl

-- A deleted backup, paused or not, gets a deletion of each Job that is listed, then one of its
-- CronJob, then one of its ConfigMap, all with background propagation, and then the removal of the
-- finalizer, whichever of the deletions fail; the result is that of the removal.
pub reconcile_backup_deleted :
    (w : World) (backup : KafkaBackup) (namespace : String)
    → backup.metadata.namespace ≡ some namespace
    → is_some backup.metadata.deletion_timestamp ≡ true
    → reconcile_backup w backup [] ≡ (
      outcome kube (
          w.answer
            (cleaned w namespace (name_any backup.metadata))
            (released namespace (name_any backup.metadata))),
      released namespace (name_any backup.metadata)
          ∷ cleaned w namespace (name_any backup.metadata),
    )
reconcile_backup_deleted w backup namespace n deleted =
    reconcile_backup-dispatch w backup namespace n
    ∙ dispatch_deleted w backup namespace deleted
    ∙ handle_cleanup_writes w backup.metadata namespace

-- A write of the whole status of a backup.
abbrev pub status_written : String → String → KafkaBackupStatus → Write
status_written namespace name status = record {
  namespace = namespace;
  action = patch_backup_status name (whole status);
}

-- A log of at most one write, which is of the resource's status.
abbrev pub IsStatusOnly : String → String → List Write → Type 0
IsStatusOnly namespace name log =
    (log ≡ []) ⊎ ((status : KafkaBackupStatus) × (log ≡ status_written namespace name status ∷ []))

paused_writes :
    (w : World) (namespace : String) (backup : KafkaBackup)
    → IsStatusOnly namespace
        (name_any backup.metadata)
        (update_status_reconciliation_paused w namespace backup []).1
unfolding update_status_reconciliation_paused patch_status patch send_or ◌>>=◌ asks done lift
paused_writes w namespace backup =
    elim (Bool-cases (
      says_paused (unwrap_or backup.status default_backup_status)
        (unwrap_or backup.metadata.generation (pos 0)))) [
          | inl e ↦ inl (rw e refl)
          | inr e ↦ inr (rw e (_, refl))
        ]

-- A paused backup that is not deleted gets at most one write, and that is of its status: no
-- finalizer, ConfigMap, CronJob or Job.
pub reconcile_backup_paused :
    (w : World) (backup : KafkaBackup) (namespace : String)
    → backup.metadata.namespace ≡ some namespace
    → is_some backup.metadata.deletion_timestamp ≡ false
    → is_reconciliation_paused backup.metadata ≡ true
    → IsStatusOnly namespace (name_any backup.metadata) (reconcile_backup w backup []).1
reconcile_backup_paused w backup namespace n live paused =
    subst (λ r. IsStatusOnly namespace (name_any backup.metadata) r.1)
      (sym (
        reconcile_backup-dispatch w backup namespace n
        ∙ dispatch_paused w backup namespace live paused))
      (paused_writes w namespace backup)
