-- ===== src/Tests/Resources.antt =====
-- The choice of a listener and the restore's options, applied to concrete resources.
use strimzi_backup_operator.Base.{
  ℕ, ◌≡◌, refl, Bool, false, true, some, none, List, [], ◌∷◌, String,
}
use strimzi_backup_operator.Base.Int.{pos}
use strimzi_backup_operator.Json.{Json, obj, str, bool, int, field, end}
use strimzi_backup_operator.Error.{ok}
use strimzi_backup_operator.Crd.Common.{scram_sha512}
use strimzi_backup_operator.Crd.Restore.{KafkaRestoreSpec}
use strimzi_backup_operator.Strimzi.Listener.{
  select_listener, key_less, auth_matches, is_in_cluster, listener_tls, to_selected,
}
use strimzi_backup_operator.Strimzi.Listener.Laws.{Selects, select_listener-Selects}

abbrev listener : String → ℕ → (type_ auth : String) → (tls : Bool) → Json
listener name port type_ auth tls = obj (
    field "name" (str name) (
      field "port" (int (pos port)) (
        field "type" (str type_) (
          field "tls" (bool tls)
            (field "authentication" (obj (field "type" (str auth) end)) end)))))

-- An external listener, one in the cluster without TLS, one with TLS, and one for other users.
abbrev four : List Json
four =
    listener "outside" 9094 "loadbalancer" "scram-sha-512" true
    ∷ listener "plain" 9092 "internal" "scram-sha-512" false
    ∷ listener "secure" 9093 "internal" "scram-sha-512" true
    ∷ listener "mutual" 9095 "internal" "tls" true
    ∷ []

select_listener-Selects_example :
    Selects four (some scram_sha512) "main" (select_listener four (some scram_sha512) none "main")
select_listener-Selects_example = select_listener-Selects four (some scram_sha512) "main"

secure_is_selected :
    select_listener four (some scram_sha512) none "main"
    ≡ ok (record { name = "secure"; port = pos 9093; tls = true })
unfolding select_listener key_less auth_matches is_in_cluster listener_tls to_selected
secure_is_selected = refl

abbrev pub restore_spec : KafkaRestoreSpec
restore_spec = record {
  strimzi_cluster_ref = record {
    name = "main";
    namespace = none;
    ca_secret = none;
    listener = none;
  };
  authentication = none;
  backup_ref = record { name = "daily"; backup_id = none };
  topics = none;
  point_in_time = some (record {
    timestamp = some "2026-01-01T00:00:00Z";
    start_timestamp = none;
    offset_from_end = none;
  });
  connection = none;
  logging = none;
  env = [];
  topic_mapping = [];
  consumer_groups = none;
  restore = none;
  metrics = none;
  resources = none;
  template = none;
  image = none;
  backoff_limit = none;
}
