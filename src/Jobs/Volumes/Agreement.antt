-- ===== src/Jobs/Volumes/Agreement.antt =====
-- That the Jobs of src/jobs provide what the configurations of src/adapters refer to: the variables
-- of the credentials, and the mounted files of the certificates.
use strimzi_backup_operator.Base.{
  String, ◌==◌, ◌≡◌, ◌∙◌, sym, refl, ap, false, ◌||◌, Option, none, some, [], ◌∷◌, arith,
  if◌then◌else◌,
}
use strimzi_backup_operator.Error.{ok}
use strimzi_backup_operator.Crd.Common.{SecretKeyRef}
use strimzi_backup_operator.Crd.Storage.{StorageSpec}
use strimzi_backup_operator.Adapters.Yaml.{Entries, text, lookup}
use strimzi_backup_operator.Adapters.Storage.{build_storage_config}
use strimzi_backup_operator.Adapters.Kafka.{security_section, is_tls_auth}
use strimzi_backup_operator.Strimzi.Cluster.{ResolvedKafkaCluster}
use strimzi_backup_operator.Strimzi.Auth.{ResolvedAuth}
use strimzi_backup_operator.Jobs.Objects.{secret}
use strimzi_backup_operator.Jobs.Volumes.{Attached, storage_credentials}
use strimzi_backup_operator.Jobs.Volumes.Provided.{
  Credential, variable_of, placeholder_of, has_env, has_env-join, Agrees, config-Agrees,
}
use strimzi_backup_operator.Jobs.Volumes.{cluster_ca, user_credentials, build_volumes_and_mounts}
use strimzi_backup_operator.Strimzi.Tls.{ca_secret_ref}
use strimzi_backup_operator.Jobs.Volumes.References.{
  Reference, credential, password, authority, certificate, private_key, section_of, name_of,
  referred, is_provided, IsFree-storage, ca_variables, user_variables, own, IsOwn, password-IsOwn,
  authority-IsOwn, certificate-IsOwn, private_key-IsOwn,
}
use strimzi_backup_operator.Jobs.Volumes.Files.{has_file, IsAbsent-storage, file-whole}

module _ (config_map_name : String) (cluster : ResolvedKafkaCluster) (auth : ResolvedAuth)
    (storage : StorageSpec) (ca : Option SecretKeyRef) where
  abbrev attached : Attached
  attached =
      build_volumes_and_mounts config_map_name cluster.name cluster.tls_enabled auth storage ca

  ca_variable :
      (name : String) → has_env name (cluster_ca cluster.name cluster.tls_enabled auth ca) ≡ false
  unfolding cluster_ca
  ca_variable name =
      ca_variables name (cluster.tls_enabled || is_tls_auth auth) "cluster-ca"
        (secret (ca_secret_ref cluster.name ca).0
          (some (record { key = (ca_secret_ref cluster.name ca).1; path = "ca.crt" } ∷ [])))
        "/certs/cluster-ca"

  own_variables :
      (name : String)
      → has_env name (own cluster ca cluster.tls_enabled auth)
        ≡ has_env name (user_credentials auth)
  own_variables name =
      has_env-join name (cluster_ca cluster.name cluster.tls_enabled auth ca)
        (user_credentials auth)
      ∙ ground (arith, ca_variable name)

  has_env-attached :
      (name : String)
      → has_env name attached
        ≡ (has_env name (user_credentials auth) || has_env name (storage_credentials storage))
  unfolding build_volumes_and_mounts
  has_env-attached name = simp has_env-join (ground (arith, ca_variable name))

  file-attached :
      (volume directory file : String)
      → ("storage-credentials" == volume) ≡ false
      → ("config" == volume) ≡ false
      → has_file volume directory file attached
        ≡ has_file volume directory file (own cluster ca cluster.tls_enabled auth)
  unfolding build_volumes_and_mounts
  file-attached volume directory file h k =
      file-whole volume directory file h config_map_name
        (cluster_ca cluster.name cluster.tls_enabled auth ca) (user_credentials auth)
        (storage_credentials storage) k
        (IsAbsent-storage volume directory file h storage storage.storage_type)

  own_provided :
      (r : Reference)
      → is_provided r attached ≡ is_provided r (own cluster ca cluster.tls_enabled auth)
      → IsOwn cluster ca r cluster.tls_enabled auth
      → lookup (name_of r) (security_section cluster auth)
        ≡ (if is_provided r attached then some (text (referred r)) else none)
  own_provided r e owned = owned ∙ ap (λ b. if b then some (text (referred r)) else none) (sym e)

  password-attached :
      is_provided password attached ≡ is_provided password (own cluster ca cluster.tls_enabled auth)
  password-attached = ground (
    arith,
    has_env-attached "KAFKA_SASL_PASSWORD",
    IsFree-storage storage storage.storage_type,
    own_variables "KAFKA_SASL_PASSWORD",
  )

  credential_provided :
      (section : Entries) (c : Credential)
      → build_storage_config storage ≡ ok section
      → Agrees section attached c
  credential_provided section c built =
      config-Agrees storage storage.storage_type section c built
      ∙ ap (λ b. if b then some (text (placeholder_of c)) else none)
          (ground (arith, has_env-attached (variable_of c), user_variables auth c))

-- Of the keys, tokens and secrets of a storage whose configuration is built, the password, the CA,
-- and the user's certificate and key, the configuration refers to exactly those that the Job's
-- container is given, by a variable, or by the mount of a Secret as a whole or of that file of it,
-- and it refers to them by that variable or path.
pub build_volumes_and_mounts_provides :
    (config_map_name : String) (cluster : ResolvedKafkaCluster) (auth : ResolvedAuth)
    (storage : StorageSpec) (ca : Option SecretKeyRef) (section : Entries) (r : Reference)
    → build_storage_config storage ≡ ok section
    → lookup (name_of r) (section_of r cluster auth section) ≡ (
        if is_provided r (
          build_volumes_and_mounts config_map_name cluster.name cluster.tls_enabled auth storage ca)
        then some (text (referred r))
        else none)
build_volumes_and_mounts_provides n cluster auth storage ca section (credential c) built =
    credential_provided n cluster auth storage ca section c built
build_volumes_and_mounts_provides n cluster auth storage ca section password built =
    own_provided n cluster auth storage ca password (password-attached n cluster auth storage ca)
      (password-IsOwn cluster ca cluster.tls_enabled auth)
build_volumes_and_mounts_provides n cluster auth storage ca section authority built =
    own_provided n cluster auth storage ca authority
      (file-attached n cluster auth storage ca "cluster-ca" "/certs/cluster-ca" "ca.crt" refl refl)
      (authority-IsOwn cluster ca cluster.tls_enabled auth)
build_volumes_and_mounts_provides n cluster auth storage ca section certificate built =
    own_provided n cluster auth storage ca certificate
      (file-attached n cluster auth storage ca "user-certs" "/certs/user" "user.crt" refl refl)
      (certificate-IsOwn cluster ca cluster.tls_enabled auth)
build_volumes_and_mounts_provides n cluster auth storage ca section private_key built =
    own_provided n cluster auth storage ca private_key
      (file-attached n cluster auth storage ca "user-certs" "/certs/user" "user.key" refl refl)
      (private_key-IsOwn cluster ca cluster.tls_enabled auth)
