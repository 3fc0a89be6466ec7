-- ===== src/Retention/Storage/Discover.antt =====
-- `discover_backup_history` of src/retention/storage.rs. `Manifests` is what serde_json and chrono
-- make of a manifest.
pub mod Laws
use strimzi_backup_operator.Base.{
  String, ◌≡◌, refl, Bool, Option, none, some, List, [], ◌∷◌, ◌++◌, map_some, retain, if◌then◌else◌,
}
use strimzi_backup_operator.Base.Int.{ℤ}
use strimzi_backup_operator.Base.Text.{ends_with}
use strimzi_backup_operator.Base.Lines.{trim_end_text}
use strimzi_backup_operator.Error.{Result, ok, err, panic, ◌>>=◌}
use strimzi_backup_operator.Crd.Status.{Time, BackupHistoryEntry}
use strimzi_backup_operator.Strimzi.Reads.{Bytes}
use strimzi_backup_operator.Retention.Storage.{
  BackupObjectStore, full_path, listed, backup_id_belongs_to_cr,
}
use strimzi_backup_operator.Retention.Storage.Manifest.{
  StoredBackupManifest, manifest_to_history_entry,
}

pub record Manifests : Type 0 where
  -- `serde_json::from_slice(...).ok()`
  pub parse : Bytes → Option StoredBackupManifest
  pub from_timestamp_millis : ℤ → Option Time
  -- `Utc::now()`
  pub now : Time

unfoldable pub is_manifest : String → Bool
unfolding ends_with
is_manifest key = ends_with "/manifest.json" key

-- The folder of a manifest.
unfoldable pub backup_id_of : String → String
unfolding trim_end_text
backup_id_of key = trim_end_text "/manifest.json" key

module _ (m : Manifests) (o : BackupObjectStore) where
  unfoldable pub get : List String → String → Result Bytes
  unfolding full_path
  get log key = o.store.get log (full_path o key)

  -- What is read fails to be an entry if it cannot be read or parsed. `get` does not panic.
  unfoldable pub entry_of : Result Bytes → Option BackupHistoryEntry
  unfolding manifest_to_history_entry
  entry_of (ok bytes) =
      map_some (m.parse bytes) (manifest_to_history_entry m.from_timestamp_millis m.now)
  entry_of (err _) = none
  entry_of panic = none

  -- The loop over the manifests.
  unfoldable pub discover_keys :
      (owner_name : String) → List String → List String → List BackupHistoryEntry
  unfolding backup_id_of backup_id_belongs_to_cr get entry_of
  discover_keys owner_name log [] = []
  discover_keys owner_name log (key ∷ keys) =
      let rest = discover_keys owner_name log keys in
      if backup_id_belongs_to_cr (backup_id_of key) owner_name
      then elim (entry_of (get log key)) [ none ↦ rest | some entry ↦ entry ∷ rest ]
      else rest

  unfoldable pub discover_backup_history :
      (owner_name : String) → List String → Result (List BackupHistoryEntry)
  unfolding listed is_manifest discover_keys
  discover_backup_history owner_name log =
      listed o log "" >>= λ keys. ok (discover_keys owner_name log (retain is_manifest keys))
