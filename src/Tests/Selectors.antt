-- ===== src/Tests/Selectors.antt =====
-- The Jobs of a backup and of a restore with a template that adds a label of its own.
use strimzi_backup_operator.Base.{refl, true, none, some, [], ◌∷◌}
use strimzi_backup_operator.Base.Int.{pos}
use strimzi_backup_operator.Crd.Common.{PodTemplateSpec}
use strimzi_backup_operator.Crd.Storage.{StorageSpec, StorageType}
use strimzi_backup_operator.Crd.Backup.{KafkaBackup}
use strimzi_backup_operator.Crd.Restore.{KafkaRestore}
use strimzi_backup_operator.Strimzi.Cluster.{ResolvedKafkaCluster}
use strimzi_backup_operator.Strimzi.Auth.{no_auth}
use strimzi_backup_operator.Jobs.Build.{build_backup_job, build_restore_job}
use strimzi_backup_operator.Jobs.Selection.{
  IsSelected, requirements, labels_of, build_backup_job-IsSelected, build_restore_job-IsSelected,
}
use strimzi_backup_operator.Reconcile.Restore.{restore_jobs_selector}
use strimzi_backup_operator.Reconcile.Backup.Outcome.{backup_jobs_selector}
use strimzi_backup_operator.Tests.Restores.{cluster, metadata}
use strimzi_backup_operator.Tests.Resources.{restore_spec}

abbrev template : PodTemplateSpec
template = record {
  pod = some (record {
    metadata = some (record { labels = ("team", "data") ∷ []; annotations = [] });
    affinity = none;
    tolerations = [];
    security_context = none;
    image_pull_secrets = [];
    host_aliases = [];
    service_account_name = none;
  });
  container = none;
}

abbrev storage : StorageSpec
storage = record {
  storage_type = StorageType.s3;
  s3 = none;
  azure = none;
  gcs = none;
  filesystem = none;
}

abbrev pub backup : KafkaBackup
backup = record {
  metadata = metadata none [];
  spec = record {
    strimzi_cluster_ref = restore_spec.strimzi_cluster_ref;
    authentication = none;
    topics = none;
    connection = none;
    consumer_groups = none;
    logging = none;
    env = [];
    storage = storage;
    backup = none;
    metrics = none;
    offset_storage = none;
    schedule = none;
    retention = none;
    resources = none;
    template = some template;
    image = none;
    backoff_limit = none;
  };
  status = none;
}

abbrev pub kafka : ResolvedKafkaCluster
kafka = record {
  name = "main";
  namespace = "kafka";
  bootstrap_servers = "main-kafka-bootstrap.kafka.svc:9093";
  replicas = pos 3;
  tls_enabled = true;
  listener_name = "tls";
}

abbrev restore : KafkaRestore
restore = record {
  metadata = metadata none [];
  spec = record restore_spec { template = some template };
  status = none;
}

build_backup_job-IsSelected_example :
    IsSelected
      (backup_jobs_selector "restore-1")
      (requirements "kafkabackup.com/backup" "restore-1" "backup")
      (labels_of
        (build_backup_job (cluster []).conversions backup "job-1" "config" kafka no_auth none))
build_backup_job-IsSelected_example =
    build_backup_job-IsSelected (cluster []).conversions backup "job-1" "config" kafka no_auth none
      refl refl

build_restore_job-IsSelected_example :
    IsSelected
      (restore_jobs_selector "restore-1")
      (requirements "kafkabackup.com/restore" "restore-1" "restore")
      (labels_of (
        build_restore_job
          (cluster []).conversions
          restore
          "job-1"
          "config"
          kafka
          no_auth
          backup
          none))
build_restore_job-IsSelected_example =
    build_restore_job-IsSelected (cluster []).conversions restore "job-1" "config" kafka no_auth
      backup none refl refl
