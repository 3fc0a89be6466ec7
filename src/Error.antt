-- ===== src/Error.antt =====
-- src/error.rs: the operator's error type, its reason and its text.
-- A kube::Error is the HTTP code of an API response, or none, with the text that it displays; the
-- errors of serde and regex are the text that they display. `panic` is a Rust panic.
use strimzi_backup_operator.Base.{Bool, true, false, ℕ, String, ◌≡◌, refl, [], ◌∷◌, Option}
use strimzi_backup_operator.Base.Text.{format}

pub data KubeError : Type 0 where
  api : (code : ℕ) → (display : String) → KubeError
  other : (display : String) → KubeError

pub data Error : Type 0 where
  kube : KubeError → Error
  serialization yaml : String → Error
  strimzi_cluster_not_found : (name namespace : String) → Error
  secret_not_found : (name namespace : String) → Error
  secret_key_missing : (name key : String) → Error
  kafka_user_not_found : (name namespace : String) → Error
  invalid_config : String → Error
  no_compatible_listener : (cluster desired available : String) → Error
  storage : String → Error
  backup_not_found : (name : String) → Error
  job_creation_failed finalizer missing_object_key regex : String → Error

pub data Result {ℓ} (A : Type ℓ) : Type ℓ where
  ok : A → Result A
  err : Error → Result A
  panic : Result A

-- `is_ok`
abbrev pub is_ok {ℓ} : {A : Type ℓ} → Result A → Bool
is_ok (ok _) = true
is_ok (err _) = false
is_ok panic = false

infixl 5 ◌>>=◌ ◌>>◌
abbrev pub ◌>>=◌ {ℓ κ} : {A : Type ℓ} {B : Type κ} → Result A → (A → Result B) → Result B
ok a >>= f = f a
err e >>= f = err e
panic >>= f = panic

abbrev pub ◌>>◌ {ℓ} : {B : Type ℓ} → Result (Unit {0}) → Result B → Result B
m >> k = m >>= λ _. k

-- `ok_or`
abbrev pub ok_or {ℓ} : {A : Type ℓ} → Option A → Error → Result A
ok_or o e = elim o [ Option.none ↦ err e | Option.some a ↦ ok a ]

-- The `Display` of a kube::Error.
unfoldable pub display : KubeError → String
display (api code text) = text
display (other text) = text

-- The `#[error]` texts.
unfoldable pub to_string : Error → String
unfolding format display
to_string (kube e) = format ("Kubernetes API error: " ∷ display e ∷ [])
to_string (serialization e) = format ("Serialization error: " ∷ e ∷ [])
to_string (yaml e) = format ("YAML serialization error: " ∷ e ∷ [])
to_string (strimzi_cluster_not_found name ns) =
    format ("Strimzi cluster '" ∷ name ∷ "' not found in namespace '" ∷ ns ∷ "'" ∷ [])
to_string (secret_not_found name ns) =
    format ("Secret '" ∷ name ∷ "' not found in namespace '" ∷ ns ∷ "'" ∷ [])
to_string (secret_key_missing name key) =
    format ("Secret '" ∷ name ∷ "' missing key '" ∷ key ∷ "'" ∷ [])
to_string (kafka_user_not_found name ns) =
    format ("KafkaUser '" ∷ name ∷ "' not found in namespace '" ∷ ns ∷ "'" ∷ [])
to_string (invalid_config e) = format ("Invalid configuration: " ∷ e ∷ [])
to_string (no_compatible_listener cluster desired available) = format (
    "No listener on Kafka cluster '" ∷ cluster ∷ "' matches authentication type '" ∷ desired
    ∷ "'; available listeners: " ∷ available
    ∷ ". Set spec.strimziClusterRef.listener to select one explicitly" ∷ [])
to_string (storage e) = format ("Storage error: " ∷ e ∷ [])
to_string (backup_not_found name) = format ("Backup '" ∷ name ∷ "' not found" ∷ [])
to_string (job_creation_failed e) = format ("Job creation failed: " ∷ e ∷ [])
to_string (finalizer e) = format ("Finalizer error: " ∷ e ∷ [])
to_string (missing_object_key e) = format ("Missing object key: " ∷ e ∷ [])
to_string (regex e) = format ("Regex error: " ∷ e ∷ [])

unfoldable pub reason : Error → String
reason (kube e) = "KubernetesError"
reason (serialization e) = "SerializationError"
reason (yaml e) = "SerializationError"
reason (strimzi_cluster_not_found name ns) = "StrimziClusterNotFound"
reason (secret_not_found name ns) = "SecretNotFound"
reason (secret_key_missing name key) = "SecretKeyMissing"
reason (kafka_user_not_found name ns) = "KafkaUserNotFound"
reason (invalid_config e) = "InvalidConfiguration"
reason (no_compatible_listener cluster desired available) = "NoCompatibleListener"
reason (storage e) = "StorageError"
reason (backup_not_found name) = "BackupNotFound"
reason (job_creation_failed e) = "JobCreationFailed"
reason (finalizer e) = "FinalizerError"
reason (missing_object_key e) = "MissingObjectKey"
reason (regex e) = "RegexError"

shows_backup : to_string (backup_not_found "b") ≡ "Backup 'b' not found"
unfolding to_string
shows_backup = refl
