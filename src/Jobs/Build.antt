-- ===== src/Jobs/Build.antt =====
-- src/jobs/backup_job.rs, restore_job.rs and cronjob.rs.
use strimzi_backup_operator.Base.{
  String, true, Option, none, some, List, [], ◌∷◌, ◌++◌, unwrap_or, map_some,
}
use strimzi_backup_operator.Base.Int.{pos}
use strimzi_backup_operator.Base.Text.{format}
use strimzi_backup_operator.Json.{Json}
use strimzi_backup_operator.Error.{Result, ok, panic}
use strimzi_backup_operator.Crd.Common.{MetricsSpec, PodTemplateSpec, ResourceRequirementsSpec}
use strimzi_backup_operator.Crd.Backup.{KafkaBackup, ObjectMeta, name_any}
use strimzi_backup_operator.Crd.Restore.{KafkaRestore}
use strimzi_backup_operator.Strimzi.Cluster.{ResolvedKafkaCluster}
use strimzi_backup_operator.Strimzi.Auth.{ResolvedAuth}
use strimzi_backup_operator.Jobs.Objects.{
  Conversions, Container, PodSpec, EnvVar, OwnerReference, JobObject, CronJobObject,
}
use strimzi_backup_operator.Jobs.Labels.{
  build_labels, build_annotations, merge_template_labels, add_metrics_discovery_label,
  job_metrics_ports,
}
use strimzi_backup_operator.Jobs.Volumes.{Attached, build_volumes_and_mounts, job_name_env_var}
use strimzi_backup_operator.Jobs.Pod.{nonempty, to_k8s, append_env_overrides, apply_pod_template}

abbrev pub default_backup_image : String
default_backup_image = "osodevops/kafka-backup:v0.15.12"

unfoldable pub owner_of : String → ObjectMeta → OwnerReference
owner_of kind metadata = record {
  api_version = "kafkabackup.com/v1alpha1";
  kind = kind;
  name = name_any metadata;
  uid = unwrap_or metadata.uid "";
  controller = true;
  block_owner_deletion = true;
}

-- The pod that runs kafka-backup with one subcommand, before and after the overrides.
module _ (c : Conversions) where
  pod_of :
      (subcommand image : String)
      → Attached
      → List EnvVar
      → Option MetricsSpec
      → Option ResourceRequirementsSpec
      → List Json
      → Option PodTemplateSpec
      → Option String
      → PodSpec
  unfolding format job_metrics_ports to_k8s append_env_overrides apply_pod_template
  pod_of subcommand image attached env metrics resources overrides template service_account_name =
      let container : Container = record {
        name = subcommand;
        image = image;
        command = "kafka-backup" ∷ [];
        args = subcommand ∷ "--config" ∷ format ("/config/" ∷ subcommand ∷ ".yaml" ∷ []) ∷ [];
        env = nonempty env;
        ports = job_metrics_ports metrics;
        volume_mounts = attached.mounts;
        resources = map_some resources to_k8s;
        security_context = none;
      } in
      let pod : PodSpec = record {
        container = append_env_overrides c container overrides;
        volumes = attached.volumes;
        restart_policy = "Never";
        service_account_name = service_account_name;
        affinity = none;
        tolerations = none;
        security_context = none;
        image_pull_secrets = none;
        host_aliases = none;
      } in
      apply_pod_template c pod template

  backup_pod : KafkaBackup → String → ResolvedKafkaCluster → ResolvedAuth → Option String → PodSpec
  unfolding pod_of build_volumes_and_mounts job_name_env_var
  backup_pod backup config_map_name cluster auth service_account_name =
      let attached =
        build_volumes_and_mounts config_map_name cluster.name cluster.tls_enabled auth
          backup.spec.storage backup.spec.strimzi_cluster_ref.ca_secret in
      pod_of "backup" (unwrap_or backup.spec.image default_backup_image) attached
        (attached.env ++ job_name_env_var "BACKUP_ID" ∷ []) backup.spec.metrics
        backup.spec.resources backup.spec.env backup.spec.template service_account_name

  unfoldable pub build_backup_job :
      KafkaBackup
      → (job_name config_map_name : String) → ResolvedKafkaCluster
      → ResolvedAuth
      → Option String
      → Result JobObject
  unfolding build_labels merge_template_labels build_annotations backup_pod owner_of
      add_metrics_discovery_label
  build_backup_job backup job_name config_map_name cluster auth service_account_name =
      let labels = build_labels (name_any backup.metadata) cluster.name "backup" in
      ok (record {
        name = job_name;
        namespace = unwrap_or backup.metadata.namespace "";
        labels = merge_template_labels labels backup.spec.template;
        annotations = nonempty (build_annotations backup.spec.template);
        owner = owner_of "KafkaBackup" backup.metadata;
        spec = record {
          backoff_limit = unwrap_or backup.spec.backoff_limit (pos 3);
          pod_labels = add_metrics_discovery_label labels backup.spec.metrics;
          pod = backup_pod backup config_map_name cluster auth service_account_name;
        };
      })

  unfoldable pub build_restore_job :
      KafkaRestore
      → (job_name config_map_name : String) → ResolvedKafkaCluster
      → ResolvedAuth
      → KafkaBackup
      → Option String
      → Result JobObject
  unfolding build_labels merge_template_labels build_annotations pod_of build_volumes_and_mounts
      owner_of add_metrics_discovery_label
  build_restore_job restore job_name config_map_name cluster auth source_backup
        service_account_name =
      let labels = build_labels (name_any restore.metadata) cluster.name "restore" in
      let attached =
        build_volumes_and_mounts config_map_name cluster.name cluster.tls_enabled auth
          source_backup.spec.storage restore.spec.strimzi_cluster_ref.ca_secret in
      ok (record {
        name = job_name;
        namespace = unwrap_or restore.metadata.namespace "";
        labels = merge_template_labels labels restore.spec.template;
        annotations = nonempty (build_annotations restore.spec.template);
        owner = owner_of "KafkaRestore" restore.metadata;
        spec = record {
          backoff_limit = unwrap_or restore.spec.backoff_limit (pos 0);
          pod_labels = add_metrics_discovery_label labels restore.spec.metrics;
          pod =
              pod_of "restore" (unwrap_or restore.spec.image default_backup_image) attached
                attached.env restore.spec.metrics restore.spec.resources restore.spec.env
                restore.spec.template service_account_name;
        };
      })

  -- `expect` panics where there is no schedule.
  unfoldable pub build_backup_cronjob :
      KafkaBackup
      → String
      → ResolvedKafkaCluster
      → ResolvedAuth
      → Option String
      → Result CronJobObject
  unfolding build_labels merge_template_labels backup_pod owner_of add_metrics_discovery_label
      format
  build_backup_cronjob backup config_map_name cluster auth service_account_name =
      let cr_name = name_any backup.metadata in
      let labels =
        merge_template_labels (build_labels cr_name cluster.name "backup") backup.spec.template in
      elim backup.spec.schedule [
        | none ↦ panic
        | some schedule ↦ ok (record {
          name = format (cr_name ∷ "-scheduled" ∷ []);
          namespace = unwrap_or backup.metadata.namespace "";
          labels = labels;
          owner = owner_of "KafkaBackup" backup.metadata;
          schedule = schedule.cron;
          time_zone = schedule.timezone;
          suspend = schedule.suspend;
          concurrency_policy = "Forbid";
          successful_jobs_history_limit = 3;
          failed_jobs_history_limit = 3;
          job_labels = labels;
          job_spec = record {
            backoff_limit = unwrap_or backup.spec.backoff_limit (pos 3);
            pod_labels = add_metrics_discovery_label labels backup.spec.metrics;
            pod = backup_pod backup config_map_name cluster auth service_account_name;
          };
        })
      ]
