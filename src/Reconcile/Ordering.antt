-- ===== src/Reconcile/Ordering.antt =====
-- The order of a ConfigMap and the Job that mounts it.
use strimzi_backup_operator.Base.{
  String, ◌==◌, Bool, true, false, not, ◌&&◌, ◌||◌, List, [], ◌∷◌, is_none,
}
use strimzi_backup_operator.Reconcile.Server.{World, Write, Action, apply_config_map}
use strimzi_backup_operator.Reconcile.Restore.Creates.{creates_job}

-- The write applies the ConfigMap of this name.
abbrev pub applies : String → Action → Bool
applies name (apply_config_map c) = c.name == name
applies name _ = false

-- The ConfigMap of this name was applied, and the cluster accepted it.
abbrev pub is_configured : World → String → List Write → Bool
is_configured w name [] = false
is_configured w name (write ∷ log) =
    (applies name write.action && is_none (w.answer log write)) || is_configured w name log

-- Whenever the creation of a Job was attempted, the ConfigMap of this name was accepted before.
abbrev pub is_ordered : World → String → List Write → Bool
is_ordered w name [] = true
is_ordered w name (write ∷ log) =
    (not (creates_job write.action) || is_configured w name log) && is_ordered w name log
