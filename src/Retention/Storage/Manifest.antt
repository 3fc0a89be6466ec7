-- ===== src/Retention/Storage/Manifest.antt =====
-- The manifests of src/retention/storage.rs, and their history entries. An overflow of the u64 sum
-- wraps around, as in a release build.
use strimzi_backup_operator.Base.{
  ℕ, ◌+◌, ◌-◌, ◌%◌, ◌^◌, String, Option, none, some, List, [], ◌∷◌, map, flat_map, length, leb,
  unwrap_or, if◌then◌else◌,
}
use strimzi_backup_operator.Base.Int.{ℤ, pos}
use strimzi_backup_operator.Crd.Status.{Time, BackupHistoryEntry, BackupStatus}

pub record StoredSegment : Type 0 where
  pub compressed_size : ℕ

pub record StoredPartition : Type 0 where
  pub segments : List StoredSegment

pub record StoredTopic : Type 0 where
  pub partitions : List StoredPartition

pub record StoredBackupManifest : Type 0 where
  pub backup_id : String
  pub created_at : ℤ
  pub topics : List StoredTopic

-- `try_from(n).ok()` into a signed type with this maximum
abbrev pub try_from : ℕ → ℕ → Option ℤ
try_from maximum n = if leb n maximum then some (pos n) else none

abbrev pub max_i32 : ℕ
max_i32 = 2 ^ 31 - 1

abbrev pub max_i64 : ℕ
max_i64 = 2 ^ 63 - 1

-- `sum::<u64>()`
unfoldable pub sum_u64 : List ℕ → ℕ
sum_u64 [] = 0
sum_u64 (n ∷ ns) = (n + sum_u64 ns) % 2 ^ 64

unfoldable pub sum_usize : List ℕ → ℕ
sum_usize [] = 0
sum_usize (n ∷ ns) = n + sum_usize ns

-- `from_timestamp_millis` is chrono's, and `now` is what `Utc::now()` returns.
unfoldable pub manifest_to_history_entry :
    (from_timestamp_millis : ℤ → Option Time)
    → (now : Time) → StoredBackupManifest
    → BackupHistoryEntry
unfolding sum_u64 sum_usize
manifest_to_history_entry from_timestamp_millis now manifest =
    let partitions = flat_map (λ t. t.partitions) manifest.topics in
    let segments = flat_map (λ p. p.segments) partitions in
    record {
      id = manifest.backup_id;
      status = BackupStatus.completed;
      start_time = unwrap_or (from_timestamp_millis manifest.created_at) now;
      completion_time = none;
      size_bytes = try_from max_i64 (sum_u64 (map (λ s. s.compressed_size) segments));
      topics_backed_up = try_from max_i32 (length manifest.topics);
      partitions_backed_up =
          try_from max_i32 (sum_usize (map (λ t. length t.partitions) manifest.topics));
    }
