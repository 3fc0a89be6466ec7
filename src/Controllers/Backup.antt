-- ===== src/Controllers/Backup.antt =====
-- `reconcile` of src/controllers/backup.rs.
use strimzi_backup_operator.Base.{ℕ, []}
use strimzi_backup_operator.Error.{Result}
use strimzi_backup_operator.Crd.Backup.{KafkaBackup}
use strimzi_backup_operator.Metrics.{Prometheus}
use strimzi_backup_operator.Reconcile.Server.{World}
use strimzi_backup_operator.Reconcile.Backup.Run.{reconcile_backup}
use strimzi_backup_operator.Controllers.{Requeue, recorded}

unfoldable pub reconcile :
    {S F : Type 0} → Prometheus S F → World → KafkaBackup → (elapsed : ℕ) → S → Result Requeue × S
unfolding recorded reconcile_backup
reconcile p w backup elapsed s = recorded p "backup" (reconcile_backup w backup []).0 elapsed s
