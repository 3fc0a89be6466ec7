-- ===== src/Controllers/Restore.antt =====
-- `reconcile` of src/controllers/restore.rs.
use strimzi_backup_operator.Base.{ℕ, []}
use strimzi_backup_operator.Error.{Result}
use strimzi_backup_operator.Crd.Restore.{KafkaRestore}
use strimzi_backup_operator.Metrics.{Prometheus}
use strimzi_backup_operator.Reconcile.Server.{World}
use strimzi_backup_operator.Reconcile.Restore.{reconcile_restore}
use strimzi_backup_operator.Controllers.{Requeue, recorded}

unfoldable pub reconcile :
    {S F : Type 0} → Prometheus S F → World → KafkaRestore → (elapsed : ℕ) → S → Result Requeue × S
unfolding recorded reconcile_restore
reconcile p w restore elapsed s = recorded p "restore" (reconcile_restore w restore []).0 elapsed s
