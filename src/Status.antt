-- ===== src/Status.antt =====
-- src/status/conditions.rs: conditions of a resource's status. `now` is what `Utc::now()` returns.
pub mod Laws
use strimzi_backup_operator.Base.{
  String, ◌==◌, Bool, not, Option, none, some, List, [], ◌∷◌, ◌++◌, find, is_some_and,
  if◌then◌else◌,
}
use strimzi_backup_operator.Crd.Status.{Time, Condition}

abbrev pub condition_type_ready : String
condition_type_ready = "Ready"

abbrev pub condition_type_restore_complete : String
condition_type_restore_complete = "RestoreComplete"

abbrev pub condition_type_error : String
condition_type_error = "Error"

abbrev pub condition_type_reconciliation_paused : String
condition_type_reconciliation_paused = "ReconciliationPaused"

abbrev pub status_true : String
status_true = "True"

abbrev pub status_false : String
status_false = "False"

unfoldable pub new_condition :
    (now : Time) (condition_type status reason message : String) → Condition
new_condition now condition_type status reason message = record {
  condition_type = condition_type;
  status = status;
  reason = some reason;
  message = some message;
  last_transition_time = some now;
}

abbrev pub has_type : String → Condition → Bool
has_type t c = c.condition_type == t

-- What is written over the condition that is found.
unfoldable pub updated : Condition → Condition → Condition
updated existing new =
    if not (existing.status == new.status)
    then new
    else record existing { reason = new.reason; message = new.message }

-- The update through `iter_mut().find`: of the first condition of the type.
update_first : Condition → List Condition → List Condition
update_first new [] = []
update_first new (c ∷ cs) =
    if has_type new.condition_type c then updated c new ∷ cs else c ∷ update_first new cs

unfoldable pub set_condition : List Condition → Condition → List Condition
unfolding update_first
set_condition conditions new = elim (find (has_type new.condition_type) conditions) [
  | some _ ↦ update_first new conditions
  | none ↦ conditions ++ new ∷ []
]

unfoldable pub find_condition : List Condition → String → Option Condition
find_condition conditions t = find (has_type t) conditions

unfoldable pub is_condition_true : List Condition → String → Bool
unfolding find_condition
is_condition_true conditions t =
    is_some_and (find_condition conditions t) λ c. c.status == status_true

unfoldable pub ready : Time → String → String → Condition
unfolding new_condition
ready now reason message = new_condition now condition_type_ready status_true reason message

unfoldable pub not_ready : Time → String → String → Condition
unfolding new_condition
not_ready now reason message = new_condition now condition_type_ready status_false reason message

unfoldable pub reconciliation_paused : Time → Condition
unfolding new_condition
reconciliation_paused now =
    new_condition now condition_type_reconciliation_paused status_true "ReconciliationPaused"
      "Reconciliation is paused by annotation"

unfoldable pub error_conditions : Time → String → String → List Condition
unfolding not_ready
error_conditions now reason message =
    not_ready now reason message
    ∷ new_condition now condition_type_error status_true reason message
    ∷ []
