-- ===== src/Retention/Policy.antt =====
-- src/retention/policy.rs. chrono is read through `Clock`: the present time, and the earliest and
-- the latest `DateTime<Utc>`, outside which a subtraction panics. A duration is a number of seconds;
-- its constructors panic beyond i64::MAX milliseconds.
pub mod Duration
pub mod Laws
pub mod Survivors
use strimzi_backup_operator.Base.{
  ℕ, String, ◌==◌, ◌<◌, Bool, true, not, ◌&&◌, ◌||◌, Option, none, some, List, [], ◌∷◌, ◌++◌, any,
  drop, length, ltb, leb, is_empty, if◌then◌else◌,
}
use strimzi_backup_operator.Base.Int.{ℤ, ltb_ℤ, as_usize}
use strimzi_backup_operator.Base.Sort.{sort_desc}
use strimzi_backup_operator.Error.{Result, ok, ◌>>=◌}
use strimzi_backup_operator.Crd.Status.{Time, BackupHistoryEntry}
use strimzi_backup_operator.Crd.Backup.{RetentionSpec}
use strimzi_backup_operator.Retention.Policy.Duration.{Clock, parse_duration, before_now}
use strimzi_backup_operator.Retention.History.{start}

-- `to_prune.contains(&id)`
abbrev pub member : String → List String → Bool
member i ids = any (λ j. j == i) ids

-- A loop over entries that pushes the id of each one that passes, unless it is there.
mark : (BackupHistoryEntry → Bool) → List String → List BackupHistoryEntry → List String
mark p to_prune [] = to_prune
mark p to_prune (entry ∷ rest) =
    mark p
      (if p entry && not (member entry.id to_prune) then to_prune ++ entry.id ∷ [] else to_prune)
      rest

-- The entries past the newest `max_backups`.
mark_excess : Option ℤ → List BackupHistoryEntry → List String
unfolding mark as_usize
mark_excess none sorted = []
mark_excess (some max_backups) sorted =
    if ltb (as_usize max_backups) (length sorted)
    then mark (λ _. true) [] (drop (as_usize max_backups) sorted)
    else []

mark_old : Time → List String → List BackupHistoryEntry → List String
unfolding mark
mark_old cutoff to_prune sorted = mark (λ entry. ltb_ℤ entry.start_time cutoff) to_prune sorted

-- The time before which entries are too old; a text that is no duration only gets a warning.
pub cutoff_for : Clock → String → Result (Option Time)
unfolding parse_duration before_now
cutoff_for clock max_age = do
  parsed ← parse_duration max_age
  elim parsed [ none ↦ ok none | some duration ↦ before_now clock duration >>= λ c. ok (some c) ]

apply_max_age : Clock → Option String → List String → List BackupHistoryEntry → Result (List String)
unfolding mark_old cutoff_for
apply_max_age clock none to_prune sorted = ok to_prune
apply_max_age clock (some max_age) to_prune sorted = cutoff_for clock max_age >>= λ limit.
    ok (elim limit [ none ↦ to_prune | some cutoff ↦ mark_old cutoff to_prune sorted ])

unfoldable pub evaluate_retention :
    Clock → List BackupHistoryEntry → RetentionSpec → Result (List String)
unfolding mark_excess apply_max_age
evaluate_retention clock history retention =
    if is_empty history
    then ok []
    else let sorted = sort_desc start history in
      apply_max_age clock retention.max_age (mark_excess retention.max_backups sorted) sorted
