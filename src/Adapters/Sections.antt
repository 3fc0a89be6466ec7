-- ===== src/Adapters/Sections.antt =====
-- The sections that backup and restore configurations share: src/adapters/logging_config.rs, and
-- the helpers that backup_config.rs and restore_config.rs both define.
use strimzi_backup_operator.Base.{
  String, Option, none, some, List, [], ◌∷◌, not, is_empty as is_empty_list,
}
use strimzi_backup_operator.Crd.Common.{
  TopicSelection, KafkaConnectionSpec, MetricsSpec, LoggingSpec, LoggingRotationSpec,
}
use strimzi_backup_operator.Adapters.Yaml.{
  Entries, end, text, bool, mapping, natural, texts, Step, run, set, set_some, when, set_section,
  insert, is_empty, values,
}

-- A BTreeMap of texts as a mapping.
text_mapping : List (String × String) → Entries → Entries
unfolding insert
text_mapping [] m = m
text_mapping ((k, v) ∷ rest) m = text_mapping rest (set k (text v) m)

rotation_section : Option LoggingRotationSpec → Entries
unfolding insert
rotation_section none = end
rotation_section (some rotation) =
    run
      (set_some "max_size_mb" natural rotation.max_size_mb
        ∷ set_some "max_files" natural rotation.max_files
        ∷ [])
      end

unfoldable pub build_logging_config : LoggingSpec → Entries
unfolding text_mapping rotation_section insert is_empty
build_logging_config logging =
    run
      (set_some "level" text logging.level
        ∷ set_some "format" text logging.format
        ∷ set_some "output" text logging.output
        ∷ when (not (is_empty_list logging.modules))
            (set "modules" (mapping (text_mapping logging.modules end)))
        ∷ set_section "rotation" (rotation_section logging.rotation)
        ∷ [])
      end

unfoldable pub build_topic_selection : TopicSelection → Entries
unfolding insert values
build_topic_selection topics =
    run
      (when (not (is_empty_list topics.include)) (set "include" (texts topics.include))
        ∷ when (not (is_empty_list topics.exclude)) (set "exclude" (texts topics.exclude))
        ∷ [])
      end

unfoldable pub build_connection_config : KafkaConnectionSpec → Entries
unfolding insert
build_connection_config connection =
    run
      (set_some "tcp_keepalive" bool connection.tcp_keepalive
        ∷ set_some "keepalive_time_secs" natural connection.keepalive_time_secs
        ∷ set_some "keepalive_interval_secs" natural connection.keepalive_interval_secs
        ∷ set_some "tcp_nodelay" bool connection.tcp_nodelay
        ∷ set_some "connections_per_broker" natural connection.connections_per_broker
        ∷ [])
      end

unfoldable pub build_metrics_options : MetricsSpec → Entries
unfolding insert
build_metrics_options metrics =
    run
      (set_some "enabled" bool metrics.enabled
        ∷ set_some "port" natural metrics.port
        ∷ set_some "bind_address" text metrics.bind_address
        ∷ set_some "path" text metrics.path
        ∷ set_some "keep_alive_seconds" natural metrics.keep_alive_seconds
        ∷ set_some "update_interval_ms" natural metrics.update_interval_ms
        ∷ set_some "max_partition_labels" natural metrics.max_partition_labels
        ∷ [])
      end

-- `if let Some(x) = ... { if !m.is_empty() { config.insert(...) } }`
unfoldable pub set_optional_section : {A : Type 0} → String → (A → Entries) → Option A → Step
unfolding insert is_empty
set_optional_section k build none m = m
set_optional_section k build (some a) m = set_section k (build a) m
