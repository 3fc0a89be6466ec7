-- ===== src/Tests/Storages.antt =====
-- Credentials, keys and manifests, on concrete texts.
use strimzi_backup_operator.Base.{◌≡◌, refl, none, some, [], ◌∷◌, All}
use mathlib.Core.List.{flat_map}
use strimzi_backup_operator.Base.Int.{pos}
use strimzi_backup_operator.Base.Text.{trim_end_matches, trim_start_matches, join}
use strimzi_backup_operator.Error.{ok}
use strimzi_backup_operator.Crd.Status.{BackupHistoryEntry, BackupStatus}
use strimzi_backup_operator.Retention.Storage.Credentials.{sas_token_pairs, is_question}
use strimzi_backup_operator.Retention.Storage.Credentials.Laws.{sas_token_pairs-join}
use strimzi_backup_operator.Retention.Storage.Discover.{Manifests, discover_backup_history}
use strimzi_backup_operator.Retention.Storage.Discover.Laws.{
  IsOwned, discover_backup_history-IsOwned,
}
use strimzi_backup_operator.Tests.Stores.{whole}

not_asked : trim_start_matches is_question "sv=2024&sig=a=b" ≡ "sv=2024&sig=a=b"
unfolding trim_start_matches
not_asked = refl

sas_token_pairs-join_example :
    sas_token_pairs "sv=2024&sig=a=b" ≡ ("sv", "2024") ∷ ("sig", "a=b") ∷ []
unfolding join
sas_token_pairs-join_example =
    sas_token_pairs-join ("sv", "2024") (("sig", "a=b") ∷ []) refl not_asked

-- Every manifest is that of the backup `a`, of the year 1970.
abbrev manifests : Manifests
manifests = record {
  parse = λ bytes. some (record { backup_id = "a"; created_at = pos 7; topics = [] });
  from_timestamp_millis = λ n. some n;
  now = pos 9;
}

abbrev found : BackupHistoryEntry
found = record {
  id = "a";
  status = BackupStatus.completed;
  start_time = pos 7;
  completion_time = none;
  size_bytes = some (pos 0);
  topics_backed_up = some (pos 0);
  partitions_backed_up = some (pos 0);
}

a_is_discovered : discover_backup_history manifests whole "a" [] ≡ ok (found ∷ [])
unfolding discover_backup_history flat_map trim_end_matches
a_is_discovered = refl

discover_backup_history-IsOwned_example : All (IsOwned manifests whole "a" []) (found ∷ [])
discover_backup_history-IsOwned_example =
    discover_backup_history-IsOwned manifests whole "a" [] (found ∷ []) a_is_discovered
