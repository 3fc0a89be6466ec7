-- ===== src/Jobs/Selection.antt =====
-- The labels of the Jobs of src/jobs/backup_job.rs and restore_job.rs against the selectors of
-- src/reconcilers, which list the Jobs of a resource by two of them.
use Prim.Native.String.{◌++◌}
use text.Mathlib.TextLemmas.{append_assoc}
use strimzi_backup_operator.Base.{
  String, ◌≡◌, ◌∙◌, Bool, true, false, ◌&&◌, Option, List, [], ◌∷◌, all, arith, any, is_some_and,
  ◌==◌, eq_refl,
}
use strimzi_backup_operator.Base.Text.{format}
use strimzi_backup_operator.Error.{Result, ok}
use strimzi_backup_operator.Crd.Common.{PodTemplateSpec}
use strimzi_backup_operator.Crd.Backup.{KafkaBackup, name_any}
use strimzi_backup_operator.Crd.Restore.{KafkaRestore}
use strimzi_backup_operator.Strimzi.Cluster.{ResolvedKafkaCluster}
use strimzi_backup_operator.Strimzi.Auth.{ResolvedAuth}
use strimzi_backup_operator.Jobs.Objects.{Conversions, JobObject}
use strimzi_backup_operator.Jobs.Labels.{
  Labels, has_key, value_of, insert, template_labels, build_labels, merge_template_labels,
}
use strimzi_backup_operator.Jobs.Labels.Laws.{value_of-merge_template_labels}
use strimzi_backup_operator.Reconcile.Restore.{restore_jobs_selector}
use strimzi_backup_operator.Reconcile.Backup.Outcome.{backup_jobs_selector}
use strimzi_backup_operator.Jobs.Build.{build_backup_job, build_restore_job}

-- The requirements of an equality-based label selector, in the text of the Kubernetes API.
abbrev pub print_selector : List (String × String) → String
unfolding format
print_selector [] = ""
print_selector ((key, value) ∷ []) = format (key ∷ "=" ∷ value ∷ [])
print_selector ((key, value) ∷ rs) = format (key ∷ "=" ∷ value ∷ "," ∷ print_selector rs ∷ [])

-- Labels meet the requirements.
abbrev pub meets : List (String × String) → Labels → Bool
meets rs labels = all (λ r. is_some_and (value_of labels r.0) (λ v. v == r.1)) rs

-- The requirements of a resource's Jobs.
abbrev pub requirements : (key name kind : String) → List (String × String)
requirements key name kind = (key, name) ∷ ("kafkabackup.com/type", kind) ∷ []

-- The selector is the text of these requirements, and the labels meet them.
pub record IsSelected (selector : String) (rs : List (String × String)) (labels : Labels)
    : Type 0 where
  pub printed : selector ≡ print_selector rs
  pub met : meets rs labels ≡ true

abbrev is_selected : (key name kind : String) → Labels → Bool
is_selected key name kind labels =
    is_some_and (value_of labels key) (λ v. v == name)
    && is_some_and (value_of labels "kafkabackup.com/type") (λ v. v == kind)

-- Whether the labels of a pod template leave the selector's two keys alone.
abbrev pub sets_key : String → Option PodTemplateSpec → Bool
sets_key key template = any (has_key key) (template_labels template)

-- The labels of a Job that is built; those of a failure match no selector.
abbrev pub labels_of : Result JobObject → Labels
labels_of (ok job) = job.labels
labels_of _ = []

backup_labels_selected :
    (name cluster : String)
    → is_selected "kafkabackup.com/backup" name "backup" (build_labels name cluster "backup") ≡ true
unfolding build_labels value_of insert format
backup_labels_selected name cluster = ground (arith, eq_refl name)

restore_labels_selected :
    (name cluster : String)
    → is_selected "kafkabackup.com/restore" name "restore" (build_labels name cluster "restore")
      ≡ true
unfolding build_labels value_of insert format
restore_labels_selected name cluster = ground (arith, eq_refl name)

merge_selected :
    (key name kind : String) (labels : Labels) (template : Option PodTemplateSpec)
    → sets_key key template ≡ false
    → sets_key "kafkabackup.com/type" template ≡ false
    → is_selected key name kind (merge_template_labels labels template)
      ≡ is_selected key name kind labels
merge_selected key name kind labels template a b = rw (
  value_of-merge_template_labels labels template key a,
  value_of-merge_template_labels labels template "kafkabackup.com/type" b,
)

backup_jobs_selector-printed :
    (name : String)
    → backup_jobs_selector name
      ≡ print_selector (requirements "kafkabackup.com/backup" name "backup")
unfolding backup_jobs_selector format
backup_jobs_selector-printed name =
    append_assoc "kafkabackup.com/backup" "=" (name ++ ",kafkabackup.com/type=backup")

restore_jobs_selector-printed :
    (name : String)
    → restore_jobs_selector name
      ≡ print_selector (requirements "kafkabackup.com/restore" name "restore")
unfolding restore_jobs_selector format
restore_jobs_selector-printed name =
    append_assoc "kafkabackup.com/restore" "=" (name ++ ",kafkabackup.com/type=restore")

met_of_selected :
    (key name kind : String) (labels : Labels)
    → is_selected key name kind labels ≡ true
    → meets (requirements key name kind) labels ≡ true
met_of_selected key name kind labels h = ground (arith, h)

-- A backup Job is built, and its labels meet the requirements of which the selector is the text by
-- which the reconciler lists the Jobs of its resource, if the pod template sets neither of the
-- selector's labels.
pub build_backup_job-IsSelected :
    (c : Conversions) (backup : KafkaBackup) (job_name config_map_name : String)
    (cluster : ResolvedKafkaCluster) (auth : ResolvedAuth) (account : Option String)
    → sets_key "kafkabackup.com/backup" backup.spec.template ≡ false
    → sets_key "kafkabackup.com/type" backup.spec.template ≡ false
    → IsSelected
        (backup_jobs_selector (name_any backup.metadata))
        (requirements "kafkabackup.com/backup" (name_any backup.metadata) "backup")
        (labels_of (build_backup_job c backup job_name config_map_name cluster auth account))
unfolding build_backup_job
build_backup_job-IsSelected c backup job_name config_map_name cluster auth account a b =
    let name = name_any backup.metadata in
    record {
      printed = backup_jobs_selector-printed name;
      met = met_of_selected "kafkabackup.com/backup" name "backup" _ (
          merge_selected "kafkabackup.com/backup" name "backup"
            (build_labels name cluster.name "backup") backup.spec.template a b
          ∙ backup_labels_selected name cluster.name);
    }

-- A restore Job is built, and its labels meet the requirements of which the selector is the text by
-- which the reconciler lists the Jobs of its resource, if the pod template sets neither of the
-- selector's labels.
pub build_restore_job-IsSelected :
    (c : Conversions) (restore : KafkaRestore) (job_name config_map_name : String)
    (cluster : ResolvedKafkaCluster) (auth : ResolvedAuth) (source : KafkaBackup)
    (account : Option String)
    → sets_key "kafkabackup.com/restore" restore.spec.template ≡ false
    → sets_key "kafkabackup.com/type" restore.spec.template ≡ false
    → IsSelected
        (restore_jobs_selector (name_any restore.metadata))
        (requirements "kafkabackup.com/restore" (name_any restore.metadata) "restore")
        (labels_of
          (build_restore_job c restore job_name config_map_name cluster auth source account))
unfolding build_restore_job
build_restore_job-IsSelected c restore job_name config_map_name cluster auth source account a b =
    let name = name_any restore.metadata in
    record {
      printed = restore_jobs_selector-printed name;
      met = met_of_selected "kafkabackup.com/restore" name "restore" _ (
          merge_selected "kafkabackup.com/restore" name "restore"
            (build_labels name cluster.name "restore") restore.spec.template a b
          ∙ restore_labels_selected name cluster.name);
    }
