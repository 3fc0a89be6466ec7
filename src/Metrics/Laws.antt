-- ===== src/Metrics/Laws.antt =====
-- What src/metrics/prometheus.rs asks of the prometheus crate, and what follows.
use strimzi_backup_operator.Base.{
  ℕ, String, ◌==◌, ◌≡◌, Bool, true, false, not, ◌&&◌, ◌||◌, some, List, [], ◌∷◌, any, all,
}
use strimzi_backup_operator.Metrics.{Prometheus, Metric}
use strimzi_backup_operator.Metrics.Valid.{is_valid}

-- A registry takes every valid metric whose name it does not have yet, and only registrations change
-- its names.
pub record IsRegistry {S F : Type 0} (p : Prometheus S F) : Type 0 where
  pub has : S → String → Bool
  pub has_none : (name : String) → has p.empty name ≡ false
  pub takes :
      (metric : Metric) (s : S)
      → is_valid metric ≡ true
      → has s metric.name ≡ false
      → (t : S) × (p.register metric s ≡ some t)
        × ((name : String) → has t name ≡ (metric.name == name || has s name))
  pub keeps :
      (metric : String) (values : List String) (n : ℕ) (s : S) (name : String)
      → has (p.set_int metric values n s) name ≡ has s name

abbrev pub named : String → List Metric → Bool
named name metrics = any (λ m. name == m.name) metrics

abbrev distinct : List Metric → Bool
distinct [] = true
distinct (metric ∷ metrics) = not (named metric.name metrics) && distinct metrics

-- No name of the metrics is registered.
abbrev unseen : (String → Bool) → List Metric → Bool
unseen has metrics = all (λ m. not (has m.name)) metrics
