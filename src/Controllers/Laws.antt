-- ===== src/Controllers/Laws.antt =====
-- What the metrics say of the reconciliations of src/controllers.
use native.Mathlib.Nat.{mod-add-mod}
use strimzi_backup_operator.Base.{
  ℕ, ◌+◌, ◌%◌, ◌^◌, String, ◌==◌, ◌≡◌, ap, ◌∙◌, Bool, true, false, ◌&&◌, List, [], ◌∷◌, arith,
  length, retain, if◌then◌else◌,
}
use strimzi_backup_operator.Error.{Result, ok, err, panic}
use strimzi_backup_operator.Metrics.{Prometheus, record_reconciliation}
use strimzi_backup_operator.Metrics.Counters.{IsCounting, same_labels}
use strimzi_backup_operator.Controllers.{recorded}

-- One reconciliation that a controller has done, by how it ended.
pub record Reconciled : Type 0 where
  pub controller : String
  pub result : Result (Unit {0})
  pub elapsed : ℕ

abbrev pub ended : (succeeded : Bool) → Result (Unit {0}) → Bool
ended true (ok _) = true
ended false (err _) = true
ended _ _ = false

abbrev pub is_counted : (controller : String) → (succeeded : Bool) → Reconciled → Bool
is_counted controller succeeded r = r.controller == controller && ended succeeded r.result

abbrev pub labels_of : String → Bool → List String
labels_of controller succeeded = controller ∷ (if succeeded then "success" else "error") ∷ []

-- One counted reconciliation, then the others, modulo the width of the counter.
grown :
    (b : Bool) (x y t : ℕ) (r : Reconciled) (rs : List Reconciled)
    → y ≡ (if b then (x + 1) % 2 ^ 64 else x)
    → t ≡ (y + length rs) % 2 ^ 64
    → t ≡ (x + length (if b then r ∷ rs else rs)) % 2 ^ 64
grown true x y t r rs e h =
    h
    ∙ ap (λ z. (z + length rs) % 2 ^ 64) e
    ∙ mod-add-mod (x + 1) (2 ^ 64) (length rs)
    ∙ ap (λ z. z % 2 ^ 64) (omega arith)
grown false x y t r rs e h = h ∙ ap (λ z. (z + length rs) % 2 ^ 64) e

fits :
    (b : Bool) (x y : ℕ) → y ≡ (if b then (x + 1) % 2 ^ 64 else x) → x % 2 ^ 64 ≡ x → y % 2 ^ 64 ≡ y
fits true x y e h = omega (arith, e)
fits false x y e h = omega (arith, e, h)

module _ {S F : Type 0} (p : Prometheus S F) where
  -- The metrics after any number of reconciliations, in the order in which they ended.
  abbrev pub record_all : List Reconciled → S → S
  record_all [] s = s
  record_all (r ∷ rs) s = record_all rs (recorded p r.controller r.result r.elapsed s).1

  module _ (counting : IsCounting p) where
    abbrev pub total : S → String → Bool → ℕ
    total s controller succeeded =
        counting.counter s "strimzi_backup_operator_reconciliations_total"
          (labels_of controller succeeded)

    recorded_once :
        (c : String) (b : Bool) (d : ℕ) (s : S) (controller : String) (succeeded : Bool)
        → total (record_reconciliation p c b d s) controller succeeded ≡ (
            if same_labels (labels_of c b) (labels_of controller succeeded)
            then (total s controller succeeded + 1) % 2 ^ 64
            else total s controller succeeded)
    unfolding record_reconciliation
    recorded_once c b d s controller succeeded =
        counting.observes _ _ _ _ _ _ ∙ counting.adds _ _ 1 s (labels_of controller succeeded)

    step_total :
        (c : String) (result : Result (Unit {0})) (d : ℕ) (s : S) (controller : String)
        (succeeded : Bool)
        → total (recorded p c result d s).1 controller succeeded ≡ (
            if c == controller && ended succeeded result
            then (total s controller succeeded + 1) % 2 ^ 64
            else total s controller succeeded)
    unfolding recorded
    step_total c (ok _) d s k true = ground (arith, recorded_once c true d s k true)
    step_total c (ok _) d s k false = ground (arith, recorded_once c true d s k false)
    step_total c (err _) d s k true = ground (arith, recorded_once c false d s k true)
    step_total c (err _) d s k false = ground (arith, recorded_once c false d s k false)
    step_total c panic d s k true = ground arith
    step_total c panic d s k false = ground arith

    -- After any number of reconciliations, each counter of a controller and an outcome has grown by
    -- the number of that controller's reconciliations that ended so, modulo 2^64; one that panicked
    -- is not counted.
    pub total-record_all :
        (rs : List Reconciled) (s : S) (controller : String) (succeeded : Bool)
        → total s controller succeeded % 2 ^ 64 ≡ total s controller succeeded
        → total (record_all rs s) controller succeeded
          ≡ (total s controller succeeded + length (retain (is_counted controller succeeded) rs))
            % 2 ^ 64
    total-record_all [] s k b h = omega (arith, h)
    total-record_all (r ∷ rs) s k b h =
        let step = step_total r.controller r.result r.elapsed s k b in
        grown (is_counted k b r) _ _ _ r (retain (is_counted k b) rs) step (
          total-record_all rs (recorded p r.controller r.result r.elapsed s).1 k b
            (fits (is_counted k b r) _ _ step h))
