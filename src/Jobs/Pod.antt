-- ===== src/Jobs/Pod.antt =====
-- src/jobs/templates.rs: the overrides of a pod, and `to_k8s` of src/crd/common.rs.
use strimzi_backup_operator.Base.{
  String, Bool, Option, none, some, List, [], ◌∷◌, ◌++◌, retain, unwrap_or, is_empty, if◌then◌else◌,
}
use strimzi_backup_operator.Base.Text
use strimzi_backup_operator.Json.{Json}
use strimzi_backup_operator.Crd.Common.{
  PodTemplateSpec, PodOverrides, ContainerOverrides, ResourceRequirementsSpec,
}
use strimzi_backup_operator.Jobs.Objects.{
  Conversions, Container, PodSpec, EnvVar, ResourceRequirements,
}

-- A list of no element as `None`.
abbrev pub nonempty {ℓ} : {A : Type ℓ} → List A → Option (List A)
nonempty l = if is_empty l then none else some l

unfoldable pub to_k8s : ResourceRequirementsSpec → ResourceRequirements
to_k8s r = record { requests = nonempty r.requests; limits = nonempty r.limits }

-- A value that converts replaces the field; any other leaves it.
abbrev override : (Json → Bool) → Option Json → Option Json → Option Json
override accepts none old = old
override accepts (some v) old = if accepts v then some v else old

-- The values that convert replace the field, unless there is none.
abbrev override_list : (Json → Bool) → List Json → Option (List Json) → Option (List Json)
override_list accepts vs old =
    let kept = retain accepts vs in if is_empty kept then old else some kept

override_account : Option String → Option String → Option String
unfolding Text.trim Text.is_empty
override_account none old = old
override_account (some sa) old = if Text.is_empty (Text.trim sa) then old else some (Text.trim sa)

module _ (c : Conversions) where
  converted : List Json → List EnvVar
  converted [] = []
  converted (v ∷ vs) = elim (c.env_var v) [ none ↦ converted vs | some e ↦ e ∷ converted vs ]

  unfoldable pub append_env_overrides : Container → List Json → Container
  unfolding converted
  append_env_overrides container env_values =
      let env_vars = converted env_values in
      if is_empty env_vars
      then container
      else record container { env = some (unwrap_or container.env [] ++ env_vars) }

  apply_pod_overrides : PodSpec → Option PodOverrides → PodSpec
  unfolding override_account
  apply_pod_overrides pod none = pod
  apply_pod_overrides pod (some o) = record pod {
    affinity = override c.is_affinity o.affinity pod.affinity;
    tolerations = override_list c.is_toleration o.tolerations pod.tolerations;
    security_context = override c.is_pod_security_context o.security_context pod.security_context;
    image_pull_secrets = override_list c.is_pull_secret o.image_pull_secrets pod.image_pull_secrets;
    host_aliases = if is_empty o.host_aliases then pod.host_aliases else some o.host_aliases;
    service_account_name = override_account o.service_account_name pod.service_account_name;
  }

  override_container : Container → ContainerOverrides → Container
  unfolding append_env_overrides
  override_container container o =
      let with_env = append_env_overrides container o.env in
      record with_env {
        security_context =
            override c.is_container_security_context o.security_context with_env.security_context;
      }

  apply_container_overrides : PodSpec → Option ContainerOverrides → PodSpec
  unfolding override_container
  apply_container_overrides pod none = pod
  apply_container_overrides pod (some o) = record pod {
    container = override_container pod.container o;
  }

  unfoldable pub apply_pod_template : PodSpec → Option PodTemplateSpec → PodSpec
  unfolding apply_pod_overrides apply_container_overrides
  apply_pod_template pod none = pod
  apply_pod_template pod (some tmpl) =
      apply_container_overrides (apply_pod_overrides pod tmpl.pod) tmpl.container
