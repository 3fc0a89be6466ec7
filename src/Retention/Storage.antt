-- ===== src/Retention/Storage.antt =====
-- src/retention/storage.rs: the keys of the object store, the pruning of backups, and the history
-- entry of a manifest. The object store is a parameter, whose answers may depend on the deletions
-- that were attempted before. `BackupObjectStore` stands for the store that `build_store` returns.
pub mod Laws
pub mod Ownership
pub mod Keys
pub mod Manifest
pub mod Credentials
pub mod Open
pub mod Discover
use strimzi_backup_operator.Base.{
  ℕ, ◌+◌, ◌*◌, ◌%◌, ◌^◌, String, ◌==◌, Bool, ◌||◌, Option, none, some, List, [], ◌∷◌, ◌++◌, map,
  flat_map, length, retain, ltb, leb, unwrap_or, if◌then◌else◌,
}
use strimzi_backup_operator.Base.Int.{ℤ, pos, ◌*ℤ◌}
use strimzi_backup_operator.Base.Order.{sort_texts}
use strimzi_backup_operator.Base.Text.{
  format, is_slash, starts_with, strip_prefix as strip, trim_matches, trim_start_matches,
  trim_end_matches, is_empty,
}
use strimzi_backup_operator.Error.{Error, Result, ok, err, panic, storage}
use strimzi_backup_operator.Crd.Status.{Time, BackupHistoryEntry, BackupStatus}
use strimzi_backup_operator.Strimzi.Reads.{Bytes}

pub data Deletion : Type 0 where
  deleted not_found : Deletion
  refused : (display : String) → Deletion

-- object_store's `ObjectStore`, and `Path::from`. A list answers with the locations, in any order.
pub record ObjectStore : Type 0 where
  pub list : (attempted : List String) → (path : String) → Result (List String)
  pub get : (attempted : List String) → (path : String) → Result Bytes
  pub delete : (attempted : List String) → (path : String) → Deletion
  pub path : String → String

pub record BackupObjectStore : Type 0 where
  pub store : ObjectStore
  pub prefix : Option String

unfoldable pub normalize_optional_prefix : Option String → Option String
unfolding trim_matches is_empty
normalize_optional_prefix none = none
normalize_optional_prefix (some prefix) =
    let trimmed = trim_matches is_slash prefix in if is_empty trimmed then none else some trimmed

unfoldable pub join_key : Option String → String → String
unfolding trim_start_matches is_empty format
join_key none key = trim_start_matches is_slash key
join_key (some prefix) key =
    let rest = trim_start_matches is_slash key in
    if is_empty rest then prefix else format (prefix ∷ "/" ∷ rest ∷ [])

unfoldable pub full_path : BackupObjectStore → String → String
unfolding join_key
full_path o key = o.store.path (join_key o.prefix key)

unfoldable pub strip_prefix : Option String → String → String
unfolding strip format
strip_prefix none key = key
strip_prefix (some prefix) key = unwrap_or (strip (format (prefix ∷ "/" ∷ [])) key) key

unfoldable pub backup_id_belongs_to_cr : String → String → Bool
unfolding starts_with format
backup_id_belongs_to_cr backup_id owner_name =
    backup_id == owner_name || starts_with (format (owner_name ∷ "-" ∷ [])) backup_id

-- What may delete: the attempted deletions are a log, the newest first.
abbrev pub Deleting : Type 0 → Type 0
Deleting A = List String → Result A × List String

module _ {A B : Type 0} where
  abbrev pub after : Result A × List String → (A → Deleting B) → Result B × List String
  after (ok a, log) f = f a log
  after (err e, log) f = (err e, log)
  after (panic, log) f = (panic, log)

unfoldable pub deletion_result : Deletion → Result (Unit {0})
deletion_result deleted = ok tt
deletion_result not_found = ok tt
deletion_result (refused text) = err (storage text)

module _ (o : BackupObjectStore) where
  unfoldable pub delete : String → Deleting (Unit {0})
  unfolding full_path deletion_result
  delete key log =
      let path = full_path o key in (deletion_result (o.store.delete log path), path ∷ log)

  unfoldable pub listed : List String → String → Result (List String)
  unfolding full_path strip_prefix sort_texts
  listed log prefix = elim (o.store.list log (full_path o prefix)) [
    | ok locations ↦ ok (sort_texts (map (strip_prefix o.prefix) locations))
    | err e ↦ err e
    | panic ↦ panic
  ]

  -- The loop over the keys under the prefix.
  delete_keys : String → List String → Deleting (Unit {0})
  unfolding delete starts_with
  delete_keys prefix [] log = (ok tt, log)
  delete_keys prefix (key ∷ keys) log =
      let rest = delete_keys prefix keys in
      if starts_with prefix key then after (delete key log) (λ _. rest) else rest log

  unfoldable pub backup_prefix : String → String
  unfolding trim_end_matches format
  backup_prefix backup_id = format (trim_end_matches is_slash backup_id ∷ "/" ∷ [])

  -- One turn of the loop over the ids.
  prune_backup : String → Deleting (Unit {0})
  unfolding listed delete_keys backup_prefix
  prune_backup backup_id log =
      after (listed log (backup_prefix backup_id), log) (delete_keys (backup_prefix backup_id))

  unfoldable pub prune_backup_ids : List String → List String → Deleting (List String)
  unfolding prune_backup
  prune_backup_ids pruned [] log = (ok pruned, log)
  prune_backup_ids pruned (backup_id ∷ backup_ids) log =
      let rest = prune_backup_ids (pruned ++ backup_id ∷ []) backup_ids in
      after (prune_backup backup_id log) (λ _. rest)
