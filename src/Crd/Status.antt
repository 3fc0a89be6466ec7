-- ===== src/Crd/Status.antt =====
-- src/crd: the status types. A `DateTime<Utc>` is an integer count of nanoseconds from the epoch.
use strimzi_backup_operator.Base.{String, Option, none, List, []}
use strimzi_backup_operator.Base.Int.{ℤ}

abbrev pub Time : Type 0
Time = ℤ

pub record Condition : Type 0 where
  pub condition_type : String
  pub status : String
  pub reason : Option String
  pub message : Option String
  pub last_transition_time : Option Time

pub data BackupStatus : Type 0 where
  running completed failed : BackupStatus

pub record BackupHistoryEntry : Type 0 where
  pub id : String
  pub status : BackupStatus
  pub start_time : Time
  pub completion_time : Option Time
  pub size_bytes : Option ℤ
  pub topics_backed_up : Option ℤ
  pub partitions_backed_up : Option ℤ

pub record LastBackupInfo : Type 0 where
  pub id : String
  pub start_time : Time
  pub completion_time : Option Time
  pub status : BackupStatus
  pub size_bytes : Option ℤ
  pub topics_backed_up : Option ℤ
  pub partitions_backed_up : Option ℤ
  pub oldest_timestamp : Option Time
  pub newest_timestamp : Option Time

pub data RestoreStatus : Type 0 where
  running completed failed : RestoreStatus

pub record RestoreInfo : Type 0 where
  pub start_time : Time
  pub completion_time : Option Time
  pub status : RestoreStatus
  pub restored_topics : Option ℤ
  pub restored_partitions : Option ℤ
  pub restored_bytes : Option ℤ
  pub point_in_time_target : Option Time
  pub actual_point_in_time : Option Time

pub record KafkaBackupStatus : Type 0 where
  pub conditions : List Condition
  pub last_backup : Option LastBackupInfo
  pub backup_history : List BackupHistoryEntry
  pub observed_generation : Option ℤ
  pub next_scheduled_backup : Option String

pub record KafkaRestoreStatus : Type 0 where
  pub conditions : List Condition
  pub restore : Option RestoreInfo
  pub observed_generation : Option ℤ

-- The derived `Default`s.
abbrev pub default_backup_status : KafkaBackupStatus
default_backup_status = record {
  conditions = [];
  last_backup = none;
  backup_history = [];
  observed_generation = none;
  next_scheduled_backup = none;
}

abbrev pub default_restore_status : KafkaRestoreStatus
default_restore_status = record { conditions = []; restore = none; observed_generation = none }
