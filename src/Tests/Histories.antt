-- ===== src/Tests/Histories.antt =====
-- The backup history and the retention policy, applied to a history of three backups.
use strimzi_backup_operator.Base.{
  ◌++◌, drop, not, ◌&&◌, ℕ, suc, ◌≡◌, refl, ◌≤◌, true, false, some, none, List, [], ◌∷◌, any, arith,
  String, ◌||◌, ◌&&◌, find, retain, length, take, take, ◌==◌, eq_iff,
}
use strimzi_backup_operator.Base.Int.{pos, as_usize}
use strimzi_backup_operator.Base.Sort.{sort_desc, IsDesc}
use strimzi_backup_operator.Error.{ok}
use strimzi_backup_operator.Crd.Status.{BackupHistoryEntry, BackupStatus}
use strimzi_backup_operator.Crd.Backup.{RetentionSpec}
use strimzi_backup_operator.Retention.History.{start, same_id, merge_backup_history}
use strimzi_backup_operator.Retention.History.Laws.{
  HasUniqueIds, merge_backup_history-invariant, find-merge_backup_history,
}
use strimzi_backup_operator.Retention.Policy.{member, evaluate_retention}
use strimzi_backup_operator.Retention.Policy.Duration.{Clock}
use strimzi_backup_operator.Retention.Policy.Laws.{beyond, is_too_old, member-evaluate_retention}
use strimzi_backup_operator.Reconcile.Backup.Active.{keep_active}
use strimzi_backup_operator.Retention.Policy.Survivors.{
  survives, is_active, survivors-le-max_backups, survivors-eq-newest,
}

abbrev backup : String → ℕ → BackupHistoryEntry
backup id started = record {
  id = id;
  status = BackupStatus.completed;
  start_time = pos started;
  completion_time = some (pos (suc started));
  size_bytes = none;
  topics_backed_up = none;
  partitions_backed_up = none;
}

abbrev history : List BackupHistoryEntry
history = backup "b" 20 ∷ backup "a" 10 ∷ []

abbrev clock : Clock
clock = record { now = pos 100; earliest = pos 0; latest = pos 1000 }

abbrev newest_one : RetentionSpec
newest_one = record { max_backups = some (pos 1); max_age = none; prune_on_schedule = true }

one_is_marked : evaluate_retention clock history newest_one ≡ ok ("a" ∷ [])
unfolding evaluate_retention sort_desc
one_is_marked = refl

history-HasUniqueIds : HasUniqueIds history
history-HasUniqueIds i =
    let apart : ("b" == "a") ≡ false = refl in
    ground (arith, eq_iff "b" "a", eq_iff "a" i, eq_iff "b" i)

member-evaluate_retention_example : member "a" ("a" ∷ []) ≡ (
    any (same_id "a") (beyond (some (pos 1)) (sort_desc start history))
    || any (λ e. is_too_old clock none e && same_id "a" e) history)
member-evaluate_retention_example =
    member-evaluate_retention clock history newest_one ("a" ∷ []) "a" one_is_marked

-- `a` is the id of a running Job in the second example.
survivors-le-max_backups_example :
    length (retain (λ e. survives (keep_active [] ("a" ∷ [])) e && not (is_active [] e)) history)
    ≤ as_usize (pos 1)
survivors-le-max_backups_example =
    survivors-le-max_backups clock history newest_one [] ("a" ∷ []) (pos 1) one_is_marked refl

survivors-eq-newest_example :
    retain (survives (keep_active ("a" ∷ []) ("a" ∷ []))) (sort_desc start history)
    ≡ take (as_usize (pos 1)) (sort_desc start history)
      ++ retain (is_active ("a" ∷ [])) (drop (as_usize (pos 1)) (sort_desc start history))
survivors-eq-newest_example =
    survivors-eq-newest clock history newest_one ("a" ∷ []) ("a" ∷ []) (pos 1) one_is_marked refl
      refl history-HasUniqueIds

merge_backup_history-invariant_example :
    HasUniqueIds (merge_backup_history history (backup "c" 15 ∷ []))
    × IsDesc start (merge_backup_history history (backup "c" 15 ∷ []))
merge_backup_history-invariant_example =
    merge_backup_history-invariant history (backup "c" 15 ∷ []) history-HasUniqueIds

find-merge_backup_history_example :
    find (same_id "a") (merge_backup_history history (backup "c" 15 ∷ []))
    ≡ find (same_id "a") history
find-merge_backup_history_example =
    find-merge_backup_history history (backup "c" 15 ∷ []) "a" history-HasUniqueIds refl
