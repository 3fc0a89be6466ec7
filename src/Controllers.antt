-- ===== src/Controllers.antt =====
-- src/controllers: what each controller does around a reconciliation. The runtime of the kube crate,
-- which calls these, is not modelled.
pub mod Backup
pub mod Restore
pub mod Laws
use strimzi_backup_operator.Base.{ℕ, String, true, false, [], List, ◌∷◌}
use strimzi_backup_operator.Error.{Error, Result, ok, err, panic}
use strimzi_backup_operator.Metrics.{Prometheus, record_reconciliation}

-- kube's `Action`
pub data Requeue : Type 0 where
  requeue : (seconds : ℕ) → Requeue

unfoldable pub error_policy : Error → Requeue
error_policy error = requeue 30

module _ {S F : Type 0} (p : Prometheus S F) where
  -- The result of a reconciliation is recorded, and then returned; a panic is neither.
  unfoldable pub recorded :
      (controller : String) → Result (Unit {0}) → (elapsed : ℕ) → S → Result Requeue × S
  unfolding record_reconciliation
  recorded controller (ok _) elapsed s =
      (ok (requeue 300), record_reconciliation p controller true elapsed s)
  recorded controller (err e) elapsed s =
      (err e, record_reconciliation p controller false elapsed s)
  recorded controller panic elapsed s = (panic, s)
