-- ===== src/Adapters/Restore/Options/Laws.antt =====
-- Which restores `build_restore_options` of src/adapters/restore_config.rs accepts.
use strimzi_backup_operator.Base.{
  String, Bool, true, false, not, ◌&&◌, ◌||◌, Option, none, some, all, is_some, is_none, unwrap_or,
  is_empty as is_empty_list,
}
use strimzi_backup_operator.Base.Int.{ℤ}
use strimzi_backup_operator.Crd.Restore.{
  PointInTimeSpec, ConsumerGroupRestoreSpec, RestoreOptionsSpec, ExistingTopicPolicy, fail,
}
use strimzi_backup_operator.Adapters.Restore.Options.{keeps_group}

-- The specification of what is accepted, section by section.
abbrev pub accepts_time : (String → Option ℤ) → Option String → Bool
accepts_time parse none = true
accepts_time parse (some t) = is_some (parse t)

abbrev pub accepts_point_in_time : (String → Option ℤ) → Option PointInTimeSpec → Bool
accepts_point_in_time parse none = true
accepts_point_in_time parse (some p) =
    accepts_time parse p.start_timestamp
    && accepts_time parse p.timestamp
    && is_none p.offset_from_end

abbrev pub accepts_policy : Option ExistingTopicPolicy → Bool
accepts_policy (some fail) = false
accepts_policy _ = true

abbrev pub accepts_options : Option RestoreOptionsSpec → Bool
accepts_options none = true
accepts_options (some opts) = accepts_policy opts.existing_topic_policy

abbrev pub accepts_groups : Option ConsumerGroupRestoreSpec → Bool
accepts_groups none = true
accepts_groups (some cg) =
    not cg.restore
    || (all keeps_group cg.mapping
        && (not (is_empty_list cg.mapping)
            || not (is_empty_list cg.groups)
            || unwrap_or cg.auto false))
