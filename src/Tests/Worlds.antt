-- ===== src/Tests/Worlds.antt =====
-- A cluster that has what the resources depend on, and accepts every write.
use strimzi_backup_operator.Base.{
  ℕ, String, ◌==◌, true, false, none, some, List, [], ◌∷◌, if◌then◌else◌,
}
use strimzi_backup_operator.Base.Int.{pos}
use strimzi_backup_operator.Json.{Json, obj, arr, str, bool, int, field, end, cons, nil}
use strimzi_backup_operator.Error.{api}
use strimzi_backup_operator.Crd.Backup.{KafkaBackup}
use strimzi_backup_operator.Crd.Storage.{StorageSpec, StorageType}
use strimzi_backup_operator.JobState.{Job}
use strimzi_backup_operator.Strimzi.Reads.{found, failed, utf8, binary}
use strimzi_backup_operator.Retention.Storage.Manifest.{StoredBackupManifest}
use strimzi_backup_operator.Retention.Storage.Open
use strimzi_backup_operator.Retention.Storage.Open.{built}
use strimzi_backup_operator.Reconcile.Server.{World}
use strimzi_backup_operator.Tests.Stores.{shelf}
use strimzi_backup_operator.Tests.Restores.{cluster, metadata}
use strimzi_backup_operator.Tests.Selectors.{backup}

abbrev listener : Json
listener = obj (
    field "name" (str "tls")
      (field "port" (int (pos 9093)) (field "type" (str "internal") (field "tls" (bool true) end))))

abbrev main_kafka : Json
main_kafka = obj (
    field "spec" (obj (field "kafka" (obj (field "listeners" (arr (cons listener nil)) end)) end))
      end)

abbrev pub on_disk : StorageSpec
on_disk = record {
  storage_type = StorageType.filesystem;
  s3 = none;
  azure = none;
  gcs = none;
  filesystem = some (record { path = "/backups" });
}

-- A backup named `restore-1`, like the restore of the other tests.
abbrev pub stored : KafkaBackup
stored = record backup { spec = record backup.spec { storage = on_disk } }

-- It has a schedule, and keeps one backup.
abbrev pub scheduled : KafkaBackup
scheduled = record stored {
  spec = record stored.spec {
    schedule = some (record { cron = "0 1 * * *"; timezone = none; suspend = false });
    retention =
        some (record { max_backups = some (pos 1); max_age = none; prune_on_schedule = true });
  };
}

-- A manifest is its key here: the younger backup has the longer one.
abbrev manifest : String → ℕ → StoredBackupManifest
manifest id created_at = record { backup_id = id; created_at = pos created_at; topics = [] }

abbrev pub served : List Job → World
served jobs = record (cluster jobs) {
  reads = λ log. record {
    object_at = λ version namespace kind name.
        found (record { metadata = metadata none []; data_ = main_kafka });
    secret = λ namespace name. failed (api 404 "not found");
  };
  backup = λ log namespace name. found stored;
  backends = λ log. record {
    s3 = λ builder. Open.failed "no bucket";
    azure = λ builder. Open.failed "no account";
    gcs = λ builder. Open.failed "no bucket";
    filesystem = λ path. built (
        shelf
          ("restore-1-a/manifest.json" ∷ "restore-1-a/topics" ∷ "restore-1-b/manifest.json" ∷ []));
    federated_token_file = none;
  };
  parse_manifest = λ bytes. elim bytes [
    | utf8 s ↦ some (
        if s == "restore-1-a/manifest.json"
        then manifest "restore-1-a" 1
        else manifest "restore-1-b" 2)
    | binary _ ↦ none
  ];
}
