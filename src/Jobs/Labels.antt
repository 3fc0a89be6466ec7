-- ===== src/Jobs/Labels.antt =====
-- src/jobs/templates.rs: labels and annotations. A BTreeMap is an association list without repeated
-- keys; its order is not modelled.
pub mod Laws
use strimzi_backup_operator.Base.{
  find, String, ◌==◌, eq_iff, ◌≡◌, refl, arith, Bool, true, Option, none, some, List, [], ◌∷◌,
  and_then, map_some, unwrap_or, if◌then◌else◌,
}
use strimzi_backup_operator.Base.Text.{format}
use strimzi_backup_operator.Crd.Common.{MetricsSpec, PodTemplateSpec, PodMetadata}
use strimzi_backup_operator.Jobs.Objects.{ContainerPort}

abbrev pub Labels : Type 0
Labels = List (String × String)

abbrev pub has_key : String → String × String → Bool
has_key key label = label.0 == key

-- `insert`: the value of a key that is there is replaced.
unfoldable pub insert : String → String → Labels → Labels
insert key value [] = (key, value) ∷ []
insert key value (label ∷ labels) =
    if has_key key label then (key, value) ∷ labels else label ∷ insert key value labels

-- The value of a key.
unfoldable pub value_of : Labels → String → Option String
value_of labels key = map_some (find (has_key key) labels) λ label. label.1

-- `extend`
pub extend : Labels → Labels → Labels
unfolding insert
extend labels [] = labels
extend labels (label ∷ rest) = extend (insert label.0 label.1 labels) rest

unfoldable pub build_labels : String → String → String → Labels
unfolding insert format
build_labels cr_name cluster_name job_type =
    insert (format ("kafkabackup.com/" ∷ job_type ∷ [])) cr_name (
      insert "kafkabackup.com/type" job_type (
        insert "strimzi.io/cluster" cluster_name (
          insert "app.kubernetes.io/managed-by" "kafka-backup-operator" (
            insert "app.kubernetes.io/part-of" "kafka-backup" (
              insert "app.kubernetes.io/instance" cr_name
                (insert "app.kubernetes.io/name" "kafka-backup-operator" []))))))

unfoldable pub job_metrics_enabled : Option MetricsSpec → Bool
job_metrics_enabled metrics = unwrap_or (and_then metrics (λ config. config.enabled)) true

unfoldable pub job_metrics_ports : Option MetricsSpec → Option (List ContainerPort)
unfolding job_metrics_enabled
job_metrics_ports metrics =
    if job_metrics_enabled metrics
    then some (
        record {
          name = "metrics";
          container_port = unwrap_or (and_then metrics (λ config. config.port)) 8080;
          protocol = "TCP";
        }
        ∷ [])
    else none

unfoldable pub add_metrics_discovery_label : Labels → Option MetricsSpec → Labels
unfolding job_metrics_enabled insert
add_metrics_discovery_label labels metrics =
    if job_metrics_enabled metrics
    then insert "kafkabackup.com/metrics" "enabled" labels
    else labels

-- `template.pod.metadata`
abbrev pub template_metadata : Option PodTemplateSpec → Option PodMetadata
template_metadata template = and_then (and_then template (λ t. t.pod)) (λ p. p.metadata)

abbrev pub template_labels : Option PodTemplateSpec → Labels
template_labels template = unwrap_or (map_some (template_metadata template) (λ m. m.labels)) []

unfoldable pub build_annotations : Option PodTemplateSpec → Labels
unfolding extend insert
build_annotations template =
    extend [] (unwrap_or (map_some (template_metadata template) (λ m. m.annotations)) [])

unfoldable pub merge_template_labels : Labels → Option PodTemplateSpec → Labels
unfolding extend insert
merge_template_labels labels template = extend labels (template_labels template)
