-- ===== src/Reconcile/Backup/Retain/Laws.antt =====
-- What the retention of src/reconcilers/backup.rs deletes.
use strimzi_backup_operator.Base.{
  String, ◌≡◌, refl, sym, subst, true, Option, none, some, List, [], ◌∷◌, ◌++◌, map, All, is_some,
  if◌then◌else◌, unwrap_or,
}
use strimzi_backup_operator.Error.{Result, ok, err, panic, kube}
use strimzi_backup_operator.Crd.Backup.{KafkaBackup, RetentionSpec, name_any}
use strimzi_backup_operator.Crd.Status.{BackupHistoryEntry}
use strimzi_backup_operator.Retention.Policy.{evaluate_retention, member}
use strimzi_backup_operator.Retention.Storage.{BackupObjectStore, prune_backup_ids}
use strimzi_backup_operator.Retention.Storage.Laws.{IsUnder, prune_backup_ids-IsUnder}
use strimzi_backup_operator.Reconcile.Server.{World, Write, done}
use strimzi_backup_operator.Reconcile.Hoare.{
  IsClosed, Pred, Ends, Keeps, Keeps->>=, Keeps-knowing, Keeps-asks, Keeps-lift, Keeps-if,
  Keeps-done, Keeps-send,
}
use strimzi_backup_operator.Reconcile.Backup.Status.{patch_backup_history, patch}
use strimzi_backup_operator.Reconcile.Backup.Retain.{
  object_deletion, deleting, store_of, clock_at, prune_marked, prune_history, retain_backups,
  apply_retention_policy,
}
use strimzi_backup_operator.Reconcile.Backup.Retain.Known.{
  IsListed, expired, active_backup_ids-IsListed, current_known,
}
use strimzi_backup_operator.Reconcile.Backup.Retain.Prunable.{IsHistory, IsExpired, IsPrunable}

-- An invariant that no quiet write breaks, nor a deletion that is allowed.
module _ (w : World) (namespace : String) (backup : KafkaBackup) (I : Pred) (closed : IsClosed I)
    (removes : (log : List Write) (path : String)
      → IsPrunable w namespace backup path
      → I log
      → I (object_deletion namespace path ∷ log)) where
  deletions-keep :
      (paths : List String) (log : List Write)
      → All (λ path. IsPrunable w namespace backup path) paths
      → I log
      → I (map (object_deletion namespace) paths ++ log)
  deletions-keep [] log h i = i
  deletions-keep (path ∷ paths) log (h, hs) i = removes _ path h (deletions-keep paths log hs i)

  prunable :
      (store : BackupObjectStore) (at : List Write) (ids paths : List String)
      → store_of w namespace backup at ≡ ok store
      → ((id : String) → member id ids ≡ true → IsExpired w namespace backup id)
      → All (IsUnder store ids) paths
      → All (λ path. IsPrunable w namespace backup path) paths
  prunable store at ids [] o h a = tt
  prunable store at ids (path ∷ paths) o h ((id, key, m, under, located), rest) = (
    record {
      id = id;
      expired = h id m;
      opened_at = at;
      store = store;
      opened = o;
      key = key;
      under = under;
      located = located;
    },
    prunable store at ids paths o h rest,
  )

  deleting-Ends :
      (s : Result (List String) × List String) (log : List Write)
      → All (λ path. IsPrunable w namespace backup path) s.1
      → I log
      → Ends (λ _. I) I (s.0, map (object_deletion namespace) s.1 ++ log)
  deleting-Ends (ok ids, paths) log h i = deletions-keep paths log h i
  deleting-Ends (err e, paths) log h i = deletions-keep paths log h i
  deleting-Ends (panic, paths) log h i = deletions-keep paths log h i

  history-Keeps :
      (history : List BackupHistoryEntry)
      → Keeps I (patch_backup_history w namespace (name_any backup.metadata) history)
  unfolding patch_backup_history patch
  history-Keeps history = Keeps-send I kube w namespace _ (λ log i. closed log namespace _ refl i)

  prune_marked-Keeps :
      (history : List BackupHistoryEntry) (ids : List String)
      → ((id : String) → member id ids ≡ true → IsExpired w namespace backup id)
      → Keeps I (prune_marked w namespace backup history ids)
  unfolding prune_marked deleting
  prune_marked-Keeps history ids h = Keeps-asks I (store_of w namespace backup) _ λ at.
      Keeps-lift I (store_of w namespace backup at) _ λ store o.
        Keeps->>= I _ _
          (record {
            ends = λ log i.
                deleting-Ends (prune_backup_ids store [] ids []) log
                  (prunable store at ids _ o h (prune_backup_ids-IsUnder store ids)) i;
          })
          λ pruned. history-Keeps _

  prune_history-Keeps :
      (retention : RetentionSpec) (history : List BackupHistoryEntry)
      → backup.spec.retention ≡ some retention
      → IsHistory w namespace backup history
      → Keeps I (prune_history w namespace backup retention history)
  unfolding prune_history
  prune_history-Keeps retention history r k =
      Keeps-knowing I (IsListed w namespace backup) _ _
        (active_backup_ids-IsListed w namespace backup I)
        λ active l.
          Keeps-asks I (λ log. evaluate_retention (clock_at w log) history retention) _
            λ at. Keeps-lift I _ _ λ marked m. Keeps-if I _ _ _ (history-Keeps history) (
              prune_marked-Keeps history _ (λ id h.
                expired w namespace backup retention history active marked at id r k l m h))

  retain_backups-Keeps :
      (retention : RetentionSpec)
      → backup.spec.retention ≡ some retention
      → Keeps I (retain_backups w namespace backup retention)
  unfolding retain_backups
  retain_backups-Keeps retention r =
      Keeps-knowing I _ _ _ (current_known w namespace backup I) λ status (status_at, c).
        Keeps-asks I (store_of w namespace backup) _ λ opened_at. Keeps-lift I _ _ λ store o.
          Keeps-asks I _ _ λ discovered_at. Keeps-lift I _ _ λ discovered d.
            prune_history-Keeps retention _ r (record {
              status_at = status_at;
              status = status;
              current = c;
              opened_at = opened_at;
              store = store;
              opened = o;
              discovered_at = discovered_at;
              discovered = discovered;
              read = d;
              merged = refl;
            })

  when_asked :
      (r : Option RetentionSpec) (n : String)
      → n ≡ namespace
      → backup.spec.retention ≡ r
      → Keeps I (elim r [
        | none ↦ done
        | some retention ↦
            if is_some backup.spec.schedule
            then (if retention.prune_on_schedule then retain_backups w n backup retention else done)
            else done
      ])
  when_asked none n e r = Keeps-done I
  when_asked (some retention) n e r =
      Keeps-if I _ _ _
        (Keeps-if I _ _ _
          (subst (λ x. Keeps I (retain_backups w x backup retention)) (sym e)
            (retain_backups-Keeps retention r))
          (Keeps-done I))
        (Keeps-done I)

  -- Retention deletes only what it may.
  pub apply_retention_policy-Keeps :
      unwrap_or backup.metadata.namespace "" ≡ namespace → Keeps I (apply_retention_policy w backup)
  unfolding apply_retention_policy
  apply_retention_policy-Keeps e = when_asked backup.spec.retention _ e refl
