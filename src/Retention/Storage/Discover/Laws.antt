-- ===== src/Retention/Storage/Discover/Laws.antt =====
-- What src/retention/storage.rs discovers, and where it finds it.
use strimzi_backup_operator.Base.{
  String, ◌≡◌, true, some, List, [], ◌∷◌, All, inl, inr, Bool-cases, Option-cases, arith, retain,
  subst,
}
use strimzi_backup_operator.Error.{Result, ok, err, panic, ◌>>=◌}
use strimzi_backup_operator.Crd.Status.{BackupHistoryEntry}
use strimzi_backup_operator.Retention.Storage.{BackupObjectStore, listed, backup_id_belongs_to_cr}
use strimzi_backup_operator.Retention.Storage.Discover.{
  Manifests, is_manifest, backup_id_of, get, entry_of, discover_keys, discover_backup_history,
}

module _ (m : Manifests) (o : BackupObjectStore) (owner_name : String) where
  -- An entry that is made of a manifest in a folder that belongs to the resource.
  abbrev pub IsOwned : List String → BackupHistoryEntry → Type 0
  IsOwned log entry =
      (key : String) × (is_manifest key ≡ true)
      × (backup_id_belongs_to_cr (backup_id_of key) owner_name ≡ true)
      × (entry_of m o (get m o log key) ≡ some entry)

  discover_keys-IsOwned :
      (log keys : List String)
      → All (IsOwned log) (discover_keys m o owner_name log (retain is_manifest keys))
  unfolding discover_keys
  discover_keys-IsOwned log [] = tt
  discover_keys-IsOwned log (key ∷ keys) =
      let rest = discover_keys-IsOwned log keys in
      elim (Bool-cases (is_manifest key)) [
        | inr e ↦ rw e rest
        | inl e ↦ rw e (elim (Bool-cases (backup_id_belongs_to_cr (backup_id_of key) owner_name)) [
          | inr f ↦ rw f rest
          | inl f ↦ rw f (elim (Option-cases (entry_of m o (get m o log key))) [
            | inl n ↦ rw n rest
            | inr (entry, g) ↦ rw g ((key, e, f, g), rest)
          ])
        ])
      ]

listed_cases :
    {A : Type 0} (r : Result (List String)) (f : List String → List A) (entries : List A)
    → (r >>= λ keys. ok (f keys)) ≡ ok entries
    → (keys : List String) × (f keys ≡ entries)
listed_cases (ok keys) f entries h = (keys, ground (arith, h))
listed_cases (err e) f entries h = cc
listed_cases panic f entries h = cc

-- Every entry that is discovered is made of a manifest that was read and parsed, and that lies in a
-- folder whose name belongs to the resource.
pub discover_backup_history-IsOwned :
    (m : Manifests) (o : BackupObjectStore) (owner_name : String) (log : List String)
    (entries : List BackupHistoryEntry)
    → discover_backup_history m o owner_name log ≡ ok entries
    → All (IsOwned m o owner_name log) entries
unfolding discover_backup_history
discover_backup_history-IsOwned m o owner_name log entries h =
    let (keys, e) =
      listed_cases (listed o log "")
        (λ keys. discover_keys m o owner_name log (retain is_manifest keys)) entries h in
    subst (All (IsOwned m o owner_name log)) e (discover_keys-IsOwned m o owner_name log keys)
