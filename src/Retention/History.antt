-- ===== src/Retention/History.antt =====
-- src/reconcilers/backup.rs: `upsert_history_entry` and `merge_backup_history`.
pub mod Laws
use strimzi_backup_operator.Base.{
  String, ◌==◌, Bool, Option, none, some, List, [], ◌∷◌, ◌++◌, find, if◌then◌else◌,
}
use strimzi_backup_operator.Base.Sort.{sort_desc}
use strimzi_backup_operator.Crd.Status.{Time, BackupHistoryEntry}

abbrev pub start : BackupHistoryEntry → Time
start entry = entry.start_time

abbrev pub same_id : String → BackupHistoryEntry → Bool
same_id i entry = entry.id == i

-- An entry without a completion time keeps the recorded one.
unfoldable pub keep_completion : BackupHistoryEntry → BackupHistoryEntry → BackupHistoryEntry
keep_completion existing entry = elim entry.completion_time [
  | none ↦ record entry { completion_time = existing.completion_time }
  | some _ ↦ entry
]

-- The write through `iter_mut().find`: over the first entry of that id.
replace_first : BackupHistoryEntry → List BackupHistoryEntry → List BackupHistoryEntry
replace_first entry [] = []
replace_first entry (x ∷ xs) = if same_id entry.id x then entry ∷ xs else x ∷ replace_first entry xs

-- The history before it is sorted again.
written : List BackupHistoryEntry → BackupHistoryEntry → List BackupHistoryEntry
unfolding replace_first keep_completion
written history entry = elim (find (same_id entry.id) history) [
  | some existing ↦ replace_first (keep_completion existing entry) history
  | none ↦ history ++ entry ∷ []
]

unfoldable pub upsert_history_entry :
    List BackupHistoryEntry → BackupHistoryEntry → List BackupHistoryEntry
unfolding written
upsert_history_entry history entry = sort_desc start (written history entry)

upsert_all : List BackupHistoryEntry → List BackupHistoryEntry → List BackupHistoryEntry
upsert_all history [] = history
upsert_all history (entry ∷ discovered) = upsert_all (upsert_history_entry history entry) discovered

unfoldable pub merge_backup_history :
    List BackupHistoryEntry → List BackupHistoryEntry → List BackupHistoryEntry
unfolding upsert_all
merge_backup_history history discovered = sort_desc start (upsert_all history discovered)
