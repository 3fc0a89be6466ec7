-- ===== src/Status/Laws.antt =====
-- `set_condition` of src/status/conditions.rs as an update of a map from types to conditions.
use strimzi_backup_operator.Base.{
  String, ◌==◌, eq_iff, ◌≡◌, ◌∙◌, ap, subst, Bool-cases, true, Option, none, some, List, [], ◌∷◌,
  arith, find, find-concat, inl, inr, Option-cases, if◌then◌else◌,
}
use strimzi_backup_operator.Crd.Status.{Condition}
use strimzi_backup_operator.Status.{has_type, updated, update_first, set_condition, find_condition}

-- `set_condition` over a condition of the same type and status keeps its transition time, and with
-- another status it takes the new one's; either way the new status, reason and message are stored.
updated-eq :
    (existing new : Condition)
    → existing.condition_type ≡ new.condition_type
    → updated existing new ≡ record new {
      last_transition_time =
          if existing.status == new.status
          then existing.last_transition_time
          else new.last_transition_time;
    }
unfolding updated
updated-eq existing new h = ground (arith, eq_iff existing.status new.status)

-- What is stored: the new condition, whose transition time is that of the old one, if there was one,
-- with the same status.
abbrev pub stored : Option Condition → Condition → Condition
stored none new = new
stored (some existing) new = record new {
  last_transition_time =
      if existing.status == new.status
      then existing.last_transition_time
      else new.last_transition_time;
}

found-type :
    (t : String) (cs : List Condition) (c : Condition)
    → find (has_type t) cs ≡ some c
    → c.condition_type ≡ t
found-type t [] c h = cc
found-type t (x ∷ xs) c h = elim (Bool-cases (has_type t x)) [
  | inl e ↦
      let same : x ≡ c = ground (arith, h, e) in
      subst (λ y. y.condition_type ≡ t) same (ground (arith, eq_iff x.condition_type t, e))
  | inr e ↦ found-type t xs c (ground (arith, h, e))
]

type-updated :
    (c new : Condition)
    → has_type new.condition_type c ≡ true
    → (updated c new).condition_type ≡ new.condition_type
unfolding updated
type-updated c new h = ground (arith, eq_iff c.condition_type new.condition_type)

find-update_first :
    (t : String) (new existing : Condition) (cs : List Condition)
    → find (has_type new.condition_type) cs ≡ some existing
    → find (has_type t) (update_first new cs)
      ≡ (if new.condition_type == t then some (updated existing new) else find (has_type t) cs)
unfolding update_first
find-update_first t new e [] h = ground arith
find-update_first t new e (c ∷ cs) h = ground (
  arith,
  find-update_first t new e cs,
  type-updated c new,
  eq_iff c.condition_type new.condition_type,
  eq_iff c.condition_type t,
  eq_iff new.condition_type t,
  eq_iff (updated c new).condition_type t,
)

-- After `set_condition`, the new condition's type finds the new condition, with the transition time of
-- the old one if there was one with the same status, and every other type finds what it found before.
pub find_condition-set_condition :
    (cs : List Condition) (new : Condition) (t : String)
    → find_condition (set_condition cs new) t ≡ (
        if new.condition_type == t
        then some (stored (find_condition cs new.condition_type) new)
        else find_condition cs t)
unfolding find_condition set_condition
find_condition-set_condition cs new t =
    elim (Option-cases (find (has_type new.condition_type) cs)) [
      | inl e ↦
          rw (e, set_condition)
            (ground (arith, find-concat (has_type t) cs new, e, eq_iff new.condition_type t))
      | inr (c, e) ↦
          rw (e, set_condition)
            (find-update_first t new c cs e
              ∙ ap (λ x. if new.condition_type == t then some x else find (has_type t) cs)
                  (updated-eq c new (found-type new.condition_type cs c e)))
    ]
