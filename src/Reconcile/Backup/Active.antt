-- ===== src/Reconcile/Backup/Active.antt =====
-- `active_backup_ids` of src/reconcilers/backup.rs, and what `apply_retention_policy` keeps for it.
use strimzi_backup_operator.Base.{
  String, ◌==◌, eq_iff, ◌≡◌, refl, ◌∙◌, Bool, not, ◌&&◌, ◌||◌, Option, none, some, List, [], ◌∷◌,
  ◌++◌, arith, any, any-append, retain, is_some, is_some_and, unwrap_or, if◌then◌else◌,
}
use strimzi_backup_operator.Base.Int.{pos, ltb_ℤ}
use strimzi_backup_operator.Error.{ok}
use strimzi_backup_operator.Crd.Backup.{KafkaBackup, name_any}
use strimzi_backup_operator.JobState.{Job}
use strimzi_backup_operator.Retention.Policy.{member}
use strimzi_backup_operator.Reconcile.Server.{World, Op, ◌>>=◌, asks, lift, answered}
use strimzi_backup_operator.Reconcile.Backup.Outcome.{backup_jobs_selector}

unfoldable pub is_running : Job → Bool
is_running job = is_some_and job.status λ status. ltb_ℤ (pos 0) (unwrap_or status.active (pos 0))

abbrev pub to_list : Option String → List String
to_list none = []
to_list (some s) = s ∷ []

-- The loop over the Jobs: the name of each running one, which is its backup's id unless the offsets
-- are stored, when the id is the resource's name.
unfoldable pub active_ids :
    (stores_offsets : Bool) → (backup_name : String) → List Job → List String
unfolding is_running
active_ids stores_offsets backup_name [] = []
active_ids stores_offsets backup_name (job ∷ jobs) =
    let rest = active_ids stores_offsets backup_name jobs in
    if is_running job
    then to_list job.name ++ (if stores_offsets then backup_name ∷ rest else rest)
    else rest

unfoldable pub active_backup_ids : World → String → KafkaBackup → Op (List String)
unfolding active_ids backup_jobs_selector
active_backup_ids w namespace backup = do
  let name = name_any backup.metadata
  reply ← asks (λ log. w.jobs log namespace (backup_jobs_selector name))
  jobs ← lift (answered reply)
  lift (ok (active_ids (is_some backup.spec.offset_storage) name jobs))

-- `to_prune.retain(...)`
unfoldable pub keep_active : List String → List String → List String
keep_active active to_prune = retain (λ id. not (member id active)) to_prune

pub member-retain :
    (i : String) (active ids : List String)
    → member i (keep_active active ids) ≡ (member i ids && not (member i active))
unfolding keep_active
member-retain i active [] = refl
member-retain i active (id ∷ ids) = ground (arith, member-retain i active ids, eq_iff id i)

abbrev pub runs_as : String → Job → Bool
runs_as name job = is_running job && is_some_and job.name (λ n. n == name)

member-active_ids :
    (stores : Bool) (name i : String) (jobs : List Job)
    → member i (active_ids stores name jobs)
      ≡ (any (runs_as i) jobs || (stores && (name == i && any is_running jobs)))
unfolding active_ids
member-active_ids stores name i [] = ground arith
member-active_ids stores name i (job ∷ jobs) = ground (
  arith,
  member-active_ids stores name i jobs,
  any-append (λ j. j == i) (to_list job.name)
      (if stores then name ∷ active_ids stores name jobs else active_ids stores name jobs),
)

-- Of the ids that are marked, exactly those are pruned that are no running Job's name and, if the
-- offsets are stored and a Job is running, not the name of the resource.
pub member-keep_active :
    (stores_offsets : Bool) (name i : String) (jobs : List Job) (marked : List String)
    → member i (keep_active (active_ids stores_offsets name jobs) marked) ≡ (
        member i marked
        && not (any (runs_as i) jobs || (stores_offsets && (name == i && any is_running jobs))))
member-keep_active stores name i jobs marked =
    member-retain i (active_ids stores name jobs) marked ∙ rw (member-active_ids stores name i jobs)
