-- ===== src/Strimzi/Cluster.antt =====
-- src/strimzi/kafka_cr.rs: the connection details of a Strimzi Kafka resource.
use strimzi_backup_operator.Base.{
  String, Bool, Option, none, some, List, [], ◌∷◌, find, and_then, unwrap_or, if◌then◌else◌,
  is_empty,
}
use strimzi_backup_operator.Base.Int.{ℤ, pos, as_i32}
use strimzi_backup_operator.Base.Text.{format, show}
use strimzi_backup_operator.Json.{Json, get, as_str, as_i64, as_array}
use strimzi_backup_operator.Error.{
  Result, ok, ◌>>=◌, ok_or, invalid_config, strimzi_cluster_not_found,
}
use strimzi_backup_operator.Crd.Common.{AuthenticationType, StrimziClusterRef}
use strimzi_backup_operator.Crd.Backup.{name_any}
use strimzi_backup_operator.Strimzi.Reads.{
  Reads, DynamicObject, get_namespaced_resource, or_missing,
}
use strimzi_backup_operator.Strimzi.Listener.{
  SelectedListener, is_text, listener_name, select_listener,
}

pub record ResolvedKafkaCluster : Type 0 where
  pub name : String
  pub namespace : String
  pub bootstrap_servers : String
  pub replicas : ℤ
  pub tls_enabled : Bool
  pub listener_name : String

pub record ResolvedConnection : Type 0 where
  pub bootstrap_servers : String
  pub tls_enabled : Bool
  pub listener_name : String

-- The status entry of the selected listener's name.
status_bootstrap : Json → String → Option String
unfolding get as_array listener_name as_str
status_bootstrap contents name =
    and_then (and_then (and_then (get "status" contents) (get "listeners")) as_array) λ listeners.
      and_then
        (and_then (find (λ l. is_text (listener_name l) name) listeners) (get "bootstrapServers"))
        as_str

unfoldable pub bootstrap_for_listener : DynamicObject → String → String → SelectedListener → String
unfolding status_bootstrap format show
bootstrap_for_listener kafka namespace cluster_name selected =
    unwrap_or (status_bootstrap kafka.data_ selected.name)
      (format (cluster_name ∷ "-kafka-bootstrap." ∷ namespace ∷ ".svc:" ∷ show selected.port ∷ []))

nonempty : List Json → Option (List Json)
nonempty l = if is_empty l then none else some l

-- The listeners of the specification, if there are any.
unfoldable pub spec_listeners : Json → Option (List Json)
unfolding get as_array nonempty
spec_listeners contents =
    and_then
      (and_then (and_then (and_then (get "spec" contents) (get "kafka")) (get "listeners"))
        as_array)
      nonempty

unfoldable pub resolve_connection :
    DynamicObject → String → Option AuthenticationType → Option String → Result ResolvedConnection
unfolding spec_listeners select_listener bootstrap_for_listener
resolve_connection kafka namespace desired_auth listener_override = do
  let cluster_name = name_any kafka.metadata
  listeners ← ok_or (spec_listeners kafka.data_) (
      invalid_config
        (format ("Kafka cluster '" ∷ cluster_name ∷ "' has no spec.kafka.listeners" ∷ [])))
  selected ← select_listener listeners desired_auth listener_override cluster_name
  ok (record {
    bootstrap_servers = bootstrap_for_listener kafka namespace cluster_name selected;
    tls_enabled = selected.tls;
    listener_name = selected.name;
  })

unfoldable pub extract_replicas : DynamicObject → ℤ
unfolding get as_i64 as_i32
extract_replicas kafka = as_i32 (
    unwrap_or
      (and_then (and_then (and_then (get "spec" kafka.data_) (get "kafka")) (get "replicas"))
        as_i64)
      (pos 3))

unfoldable pub resolve_kafka_cluster :
    Reads → StrimziClusterRef → String → Option AuthenticationType → Result ResolvedKafkaCluster
unfolding get_namespaced_resource or_missing resolve_connection extract_replicas
resolve_kafka_cluster reads cluster_ref default_namespace desired_auth = do
  let namespace = unwrap_or cluster_ref.namespace default_namespace
  kafka ←
      or_missing (get_namespaced_resource reads namespace "Kafka" cluster_ref.name)
        (strimzi_cluster_not_found cluster_ref.name namespace)
  connection ← resolve_connection kafka namespace desired_auth cluster_ref.listener
  ok (record {
    name = cluster_ref.name;
    namespace = namespace;
    bootstrap_servers = connection.bootstrap_servers;
    replicas = extract_replicas kafka;
    tls_enabled = connection.tls_enabled;
    listener_name = connection.listener_name;
  })
