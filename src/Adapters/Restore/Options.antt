-- ===== src/Adapters/Restore/Options.antt =====
-- `build_restore_options` of src/adapters/restore_config.rs.
pub mod Laws
use strimzi_backup_operator.Base.{
  String, ◌==◌, Bool, true, false, not, ◌||◌, Option, none, some, List, [], ◌∷◌, map, all, is_some,
  map_some, unwrap_or, is_empty as is_empty_list, if◌then◌else◌,
}
use strimzi_backup_operator.Base.Int.{ℤ}
use strimzi_backup_operator.Base.Text.{format}
use strimzi_backup_operator.Error.{Result, ok, err, ◌>>=◌, ok_or, invalid_config}
use strimzi_backup_operator.Crd.Restore.{
  KafkaRestoreSpec, PointInTimeSpec, TopicMappingEntry, PartitionMappingEntry, ConsumerGroupMapping,
  ConsumerGroupRestoreSpec, RestoreOptionsSpec, TopicRepartitioningSpec, TopicCreationPolicy, auto,
  manual, ExistingTopicPolicy, fail, append, overwrite,
}
use strimzi_backup_operator.Adapters.Yaml.{
  Entries, end, Value, text, bool, number, sequence, mapping, index, name, natural, texts, Step,
  run, set, set_some, when, insert, values,
}

reject_offset_from_end : Option String → Entries → Result Entries
reject_offset_from_end none m = ok m
reject_offset_from_end (some _) m = err (
    invalid_config
      "pointInTime.offsetFromEnd is not supported by the current kafka-backup core config")

module _ (parse_rfc3339 : String → Option ℤ) where
  -- One timestamp of the window, under its key.
  set_time : String → String → Option String → Entries → Result Entries
  unfolding insert format
  set_time key problem none m = ok m
  set_time key problem (some timestamp) m =
      ok_or (parse_rfc3339 timestamp) (invalid_config (format (problem ∷ timestamp ∷ [])))
      >>= λ millis. ok (set key (number millis) m)

  pub set_point_in_time : Option PointInTimeSpec → Entries → Result Entries
  unfolding set_time reject_offset_from_end
  set_point_in_time none m = ok m
  set_point_in_time (some pitr) m = do
    started ← set_time "time_window_start" "Invalid startTimestamp format: " pitr.start_timestamp m
    ended ← set_time "time_window_end" "Invalid timestamp format: " pitr.timestamp started
    reject_offset_from_end pitr.offset_from_end ended

topic_mapping : List TopicMappingEntry → Entries → Entries
unfolding insert
topic_mapping [] m = m
topic_mapping (e ∷ rest) m = topic_mapping rest (set e.source_topic (text e.target_topic) m)

partition_mapping : List PartitionMappingEntry → Entries → Entries
unfolding insert
partition_mapping [] m = m
partition_mapping (e ∷ rest) m =
    partition_mapping rest (insert (index e.source_partition) (number e.target_partition) m)

repartitioning : List TopicRepartitioningSpec → Entries → Entries
unfolding insert
repartitioning [] m = m
repartitioning (e ∷ rest) m =
    let topic_config =
      run
        (set_some "strategy" text e.strategy
          ∷ set "target_partitions" (number e.target_partitions)
          ∷ [])
        end in
    repartitioning rest (set e.topic (mapping topic_config) m)

abbrev is_auto : TopicCreationPolicy → Bool
is_auto auto = true
is_auto manual = false

-- The options up to `existingTopicPolicy`.
early_options : RestoreOptionsSpec → Entries → Entries
unfolding insert values partition_mapping
early_options opts = run (
    set_some "dry_run" bool opts.dry_run
    ∷ set_some "include_original_offset_header" bool opts.include_original_offset_header
    ∷ when (not (is_empty_list opts.source_partitions))
        (set "source_partitions" (sequence (values (map number opts.source_partitions))))
    ∷ when (not (is_empty_list opts.partition_mapping))
        (set "partition_mapping" (mapping (partition_mapping opts.partition_mapping end)))
    ∷ set_some "max_concurrent_partitions" number opts.parallelism
    ∷ set_some "rate_limit_records_per_sec" natural opts.rate_limit_records_per_sec
    ∷ set_some "rate_limit_bytes_per_sec" natural opts.rate_limit_bytes_per_sec
    ∷ set_some "produce_batch_size" natural opts.produce_batch_size
    ∷ set_some "produce_acks" number opts.produce_acks
    ∷ set_some "produce_timeout_ms" number opts.produce_timeout_ms
    ∷ set_some "checkpoint_state" text opts.checkpoint_state
    ∷ set_some "checkpoint_interval_secs" natural opts.checkpoint_interval_secs
    ∷ set_some "create_topics" bool (map_some opts.topic_creation is_auto)
    ∷ set_some "default_replication_factor" number opts.default_replication_factor
    ∷ [])

set_existing_policy : Option ExistingTopicPolicy → Entries → Result Entries
unfolding insert
set_existing_policy none m = ok m
set_existing_policy (some overwrite) m = ok (set "purge_topics" (bool true) m)
set_existing_policy (some append) m = ok m
set_existing_policy (some fail) m = err (
    invalid_config
      "restore.existingTopicPolicy: fail is not supported by the current kafka-backup core config")

pub set_restore_options : Option RestoreOptionsSpec → Entries → Result Entries
unfolding early_options set_existing_policy repartitioning
set_restore_options none m = ok m
set_restore_options (some opts) m = do
  with_policy ← set_existing_policy opts.existing_topic_policy (early_options opts m)
  ok (
      run
        (set_some "purge_topics" bool opts.purge_topics
          ∷ when (not (is_empty_list opts.repartitioning))
              (set "repartitioning" (mapping (repartitioning opts.repartitioning end)))
          ∷ [])
        with_policy)

abbrev pub keeps_group : ConsumerGroupMapping → Bool
keeps_group e = e.source_group == e.target_group

-- `reset_consumer_offsets`, or the error if no group is meant.
set_reset : ConsumerGroupRestoreSpec → Entries → Result Entries
unfolding insert
set_reset cg m =
    if not (is_empty_list cg.mapping) || not (is_empty_list cg.groups)
    then ok (set "reset_consumer_offsets" (bool true) m)
    else if not (unwrap_or cg.auto false)
    then err (
        invalid_config
          "consumerGroups.restore requires consumerGroups.groups, consumerGroups.mapping, or consumerGroups.auto: true")
    else ok m

-- The groups: the mapping's targets if there is a mapping, which must rename none; else the list.
set_groups : ConsumerGroupRestoreSpec → Entries → Result Entries
unfolding insert values
set_groups cg m =
    if not (is_empty_list cg.mapping)
    then if all keeps_group cg.mapping
      then ok (set "consumer_groups" (texts (map (λ e. e.target_group) cg.mapping)) m)
      else err (
          invalid_config
            "consumerGroups.mapping with different sourceGroup and targetGroup is not supported by the current kafka-backup core config")
    else ok (when (not (is_empty_list cg.groups)) (set "consumer_groups" (texts cg.groups)) m)

settings : ConsumerGroupRestoreSpec → Entries → Entries
unfolding insert
settings cg m =
    run
      (set_some "consumer_group_strategy" text cg.strategy
        ∷ set_some "offset_report" text cg.offset_report
        ∷ set_some "auto_consumer_groups" bool cg.auto
        ∷ [])
      m

restore_groups : ConsumerGroupRestoreSpec → Entries → Result Entries
unfolding set_reset settings set_groups
restore_groups cg m = do reset ← set_reset cg m; set_groups cg (settings cg reset)

pub set_consumer_groups : Option ConsumerGroupRestoreSpec → Entries → Result Entries
unfolding restore_groups
set_consumer_groups none m = ok m
set_consumer_groups (some cg) m = if cg.restore then restore_groups cg m else ok m

unfoldable pub build_restore_options : (String → Option ℤ) → KafkaRestoreSpec → Result Entries
unfolding set_point_in_time topic_mapping set_restore_options set_consumer_groups
build_restore_options parse_rfc3339 spec = do
  window ← set_point_in_time parse_rfc3339 spec.point_in_time end
  options ← set_restore_options spec.restore (
      when (not (is_empty_list spec.topic_mapping))
        (set "topic_mapping" (mapping (topic_mapping spec.topic_mapping end))) window)
  set_consumer_groups spec.consumer_groups options
