-- ===== src/Jobs/Labels/Laws.antt =====
-- The labels of src/jobs/templates.rs as maps.
use strimzi_backup_operator.Base.{
  String, ◌==◌, eq_iff, ◌≡◌, refl, ◌∙◌, false, Option, some, [], ◌∷◌, arith, any, if◌then◌else◌,
}
use strimzi_backup_operator.Crd.Common.{PodTemplateSpec}
use strimzi_backup_operator.Jobs.Labels.{
  Labels, has_key, insert, value_of, extend, template_labels, merge_template_labels,
}

pub value_of-insert :
    (labels : Labels) (key value k : String)
    → value_of (insert key value labels) k ≡ (if key == k then some value else value_of labels k)
unfolding value_of insert
value_of-insert [] key value k = ground arith
value_of-insert (label ∷ labels) key value k =
    ground (
      arith,
      value_of-insert labels key value k,
      eq_iff label.0 key,
      eq_iff label.0 k,
      eq_iff key k,
    )

pub value_of-extend :
    (labels extra : Labels) (k : String)
    → any (has_key k) extra ≡ false
    → value_of (extend labels extra) k ≡ value_of labels k
unfolding extend
value_of-extend labels [] k h = refl
value_of-extend labels (label ∷ rest) k h =
    value_of-extend (insert label.0 label.1 labels) rest k (ground arith)
    ∙ ground (arith, value_of-insert labels label.0 label.1 k)

-- A label whose key the pod template does not set is kept by the merge.
pub value_of-merge_template_labels :
    (labels : Labels) (template : Option PodTemplateSpec) (k : String)
    → any (has_key k) (template_labels template) ≡ false
    → value_of (merge_template_labels labels template) k ≡ value_of labels k
unfolding merge_template_labels
value_of-merge_template_labels labels template k h =
    value_of-extend labels (template_labels template) k h
