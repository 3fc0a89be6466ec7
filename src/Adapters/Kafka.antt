-- ===== src/Adapters/Kafka.antt =====
-- `build_kafka_config` of src/adapters/backup_config.rs and restore_config.rs: the Kafka connection.
use strimzi_backup_operator.Base.{String, Bool, true, false, ◌||◌, Option, [], ◌∷◌}
use strimzi_backup_operator.Crd.Common.{TopicSelection, KafkaConnectionSpec}
use strimzi_backup_operator.Strimzi.Cluster.{ResolvedKafkaCluster}
use strimzi_backup_operator.Strimzi.Auth.{ResolvedAuth, tls, scram_sha512, no_auth}
use strimzi_backup_operator.Adapters.Yaml.{
  Entries, end, text, texts, mapping, Step, run, set, when, insert, values,
}
use strimzi_backup_operator.Adapters.Sections.{
  set_optional_section, build_topic_selection, build_connection_config,
}

unfoldable pub is_tls_auth : ResolvedAuth → Bool
is_tls_auth (tls _) = true
is_tls_auth _ = false

unfoldable pub security_protocol : Bool → ResolvedAuth → String
security_protocol tls_enabled (tls _) = "SSL"
security_protocol true (scram_sha512 _ _ _) = "SASL_SSL"
security_protocol false (scram_sha512 _ _ _) = "SASL_PLAINTEXT"
security_protocol true no_auth = "SSL"
security_protocol false no_auth = "PLAINTEXT"

unfoldable pub auth_settings : ResolvedAuth → Step
unfolding insert
auth_settings (tls _) m =
    run
      (set "ssl_certificate_location" (text "/certs/user/user.crt")
        ∷ set "ssl_key_location" (text "/certs/user/user.key")
        ∷ [])
      m
auth_settings (scram_sha512 username _ _) m =
    run
      (set "sasl_mechanism" (text "SCRAM-SHA512")
        ∷ set "sasl_username" (text username)
        ∷ set "sasl_password" (text "${KAFKA_SASL_PASSWORD}")
        ∷ [])
      m
auth_settings no_auth m = m

unfoldable pub security_section : ResolvedKafkaCluster → ResolvedAuth → Entries
unfolding is_tls_auth security_protocol auth_settings insert
security_section cluster auth =
    run
      (set "security_protocol" (text (security_protocol cluster.tls_enabled auth))
        ∷ when (cluster.tls_enabled || is_tls_auth auth)
            (set "ssl_ca_location" (text "/certs/cluster-ca/ca.crt"))
        ∷ auth_settings auth
        ∷ [])
      end

unfoldable pub build_kafka_config :
    ResolvedKafkaCluster
    → ResolvedAuth
    → Option TopicSelection
    → Option KafkaConnectionSpec
    → Entries
unfolding security_section set_optional_section insert values
build_kafka_config cluster auth topics connection =
    run
      (set "bootstrap_servers" (texts (cluster.bootstrap_servers ∷ []))
        ∷ set "security" (mapping (security_section cluster auth))
        ∷ set_optional_section "topics" build_topic_selection topics
        ∷ set_optional_section "connection" build_connection_config connection
        ∷ [])
      end
