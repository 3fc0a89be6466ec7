-- ===== src/Metrics/Counters.antt =====
-- The counters of src/metrics/prometheus.rs: how many reconciliations are recorded.
use strimzi_backup_operator.Base.{
  ℕ, ◌+◌, ◌%◌, ◌^◌, String, ◌==◌, ◌≡◌, Bool, true, false, ◌&&◌, List, [], ◌∷◌, if◌then◌else◌,
}
use strimzi_backup_operator.Metrics.{Prometheus}

abbrev pub same_labels : List String → List String → Bool
same_labels [] [] = true
same_labels (x ∷ xs) (y ∷ ys) = x == y && same_labels xs ys
same_labels _ _ = false

-- A counter of u64 adds what its series is increased by; nothing else changes it.
pub record IsCounting {S F : Type 0} (p : Prometheus S F) : Type 0 where
  pub counter : S → String → List String → ℕ
  pub adds :
      (name : String) (values : List String) (n : ℕ) (s : S) (other : List String)
      → counter (p.inc_by name values n s) name other ≡ (
          if same_labels values other
          then (counter s name other + n) % 2 ^ 64
          else counter s name other)
  pub observes :
      (metric : String) (values : List String) (x : F) (s : S) (name : String) (other : List String)
      → counter (p.observe metric values x s) name other ≡ counter s name other
