-- ===== src/Strimzi/Auth.antt =====
-- src/strimzi/kafka_user.rs: the credentials that a resource's authentication names.
use strimzi_backup_operator.Base.{String, Option, none, some, and_then, unwrap_or}
use strimzi_backup_operator.Json.{get, as_str}
use strimzi_backup_operator.Error.{
  Result, ok, err, ◌>>=◌, ok_or, invalid_config, kafka_user_not_found,
}
use strimzi_backup_operator.Crd.Common.{
  AuthenticationSpec, AuthenticationType, CertificateAndKeySecretRef,
}
use strimzi_backup_operator.Strimzi.Reads.{Reads, get_namespaced_resource, or_missing}

pub data ResolvedAuth : Type 0 where
  tls : (secret_name : String) → ResolvedAuth
  scram_sha512 : (username secret_name password_key : String) → ResolvedAuth
  no_auth : ResolvedAuth

-- The Secret that the User Operator reports, else the one named like the user.
unfoldable pub resolve_kafka_user_secret : Reads → String → String → Result String
unfolding get_namespaced_resource or_missing get as_str
resolve_kafka_user_secret reads user_name namespace = do
  user ←
      or_missing (get_namespaced_resource reads namespace "KafkaUser" user_name)
        (kafka_user_not_found user_name namespace)
  ok (unwrap_or (and_then (and_then (get "status" user.data_) (get "secret")) as_str) user_name)

tls_from_certificate : Option CertificateAndKeySecretRef → Result ResolvedAuth
tls_from_certificate (some cert_ref) = ok (tls cert_ref.secret_name)
tls_from_certificate none =
    err (invalid_config "TLS authentication requires either kafkaUserRef or certificateAndKey")

unfoldable pub resolve_tls_auth : Reads → AuthenticationSpec → String → Result ResolvedAuth
unfolding resolve_kafka_user_secret tls_from_certificate
resolve_tls_auth reads auth namespace = elim auth.kafka_user_ref [
  | some user_ref ↦ resolve_kafka_user_secret reads user_ref.name namespace >>= λ secret_name.
      ok (tls secret_name)
  | none ↦ tls_from_certificate auth.certificate_and_key
]

scram_from_secret : AuthenticationSpec → Result ResolvedAuth
scram_from_secret auth = do
  username ← ok_or auth.username (invalid_config "SCRAM authentication requires username")
  password_secret ←
      ok_or auth.password_secret
        (invalid_config "SCRAM authentication requires either kafkaUserRef or passwordSecret")
  ok (scram_sha512 username password_secret.name password_secret.key)

unfoldable pub resolve_scram_auth : Reads → AuthenticationSpec → String → Result ResolvedAuth
unfolding resolve_kafka_user_secret scram_from_secret
resolve_scram_auth reads auth namespace = elim auth.kafka_user_ref [
  | some user_ref ↦ resolve_kafka_user_secret reads user_ref.name namespace >>= λ secret_name.
      ok (scram_sha512 user_ref.name secret_name "password")
  | none ↦ scram_from_secret auth
]

unfoldable pub resolve_auth : Reads → Option AuthenticationSpec → String → Result ResolvedAuth
unfolding resolve_tls_auth resolve_scram_auth
resolve_auth reads none namespace = ok no_auth
resolve_auth reads (some auth) namespace = elim auth.auth_type [
  | AuthenticationType.tls ↦ resolve_tls_auth reads auth namespace
  | AuthenticationType.scram_sha512 ↦ resolve_scram_auth reads auth namespace
]
