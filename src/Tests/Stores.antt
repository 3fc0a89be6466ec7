-- ===== src/Tests/Stores.antt =====
-- Pruning in a store with one backup of two objects.
use strimzi_backup_operator.Base.{
  String, List, none, not, ◌&&◌, ◌||◌, Bool, any, retain, arith, false, eq_refl, ◌==◌, ◌≡◌, refl,
  true, some, [], ◌∷◌, All, if◌then◌else◌,
}
use strimzi_backup_operator.Base.Text.{starts_with, trim_end_matches, is_slash, is_empty, format}
use strimzi_backup_operator.Strimzi.Reads.{utf8}
use strimzi_backup_operator.Tests.Keys.{manifest_key}
use strimzi_backup_operator.Retention.Storage.Laws.Complete.{
  answers_with, prune_backup_ids_complete,
}
use strimzi_backup_operator.Retention.Storage.{
  ObjectStore, full_path, listed, join_key, strip_prefix, backup_prefix,
}
use strimzi_backup_operator.Error.{ok, err, storage}
use strimzi_backup_operator.Retention.Storage.{
  deletion_result, BackupObjectStore, deleted, prune_backup_ids, backup_id_belongs_to_cr,
}
use strimzi_backup_operator.Retention.Storage.Laws.{
  IsUnder, prune_backup_ids-IsUnder, prune_backup_ids_ok,
}
use strimzi_backup_operator.Retention.Storage.Ownership.{backup_id_belongs_to_cr_nested}

abbrev pub bucket : BackupObjectStore
bucket = record {
  store = record {
    list = λ attempted path.
        ok (if path == "team/a" then "team/a/manifest.json" ∷ "team/a/topics/0" ∷ [] else []);
    get = λ attempted path. err (storage "not found");
    delete = λ attempted path. deleted;
    path = trim_end_matches is_slash;
  };
  prefix = some "team";
}

two_are_deleted :
    prune_backup_ids bucket [] ("a" ∷ "b" ∷ []) []
    ≡ (ok ("a" ∷ "b" ∷ []), "team/a/topics/0" ∷ "team/a/manifest.json" ∷ [])
unfolding prune_backup_ids
two_are_deleted = refl

prune_backup_ids-IsUnder_example :
    All (IsUnder bucket ("a" ∷ [])) (prune_backup_ids bucket [] ("a" ∷ []) []).1
prune_backup_ids-IsUnder_example = prune_backup_ids-IsUnder bucket ("a" ∷ [])

prune_backup_ids_ok_example :
    (prune_backup_ids bucket [] ("a" ∷ "b" ∷ []) []).0 ≡ ok ("a" ∷ "b" ∷ [])
prune_backup_ids_ok_example =
    prune_backup_ids_ok bucket (λ log path. refl) (λ log path. unfold deletion_result in refl)
      ("a" ∷ "b" ∷ [])

orders_belong : backup_id_belongs_to_cr "daily-orders-2" "daily-orders" ≡ true
unfolding backup_id_belongs_to_cr
orders_belong = refl

backup_id_belongs_to_cr_nested_example : backup_id_belongs_to_cr "daily-orders-2" "daily" ≡ true
backup_id_belongs_to_cr_nested_example =
    backup_id_belongs_to_cr_nested "daily-orders-2" "daily" "orders" orders_belong

-- A location is the path, or in its folder: a prefix is one of whole segments.
abbrev is_in : (path location : String) → Bool
is_in path location =
    is_empty path || path == location || starts_with (format (path ∷ "/" ∷ [])) location

-- A store of these locations, which lists what is not deleted yet, and in which a path ends without a
-- slash.
abbrev pub shelf : List String → ObjectStore
shelf keys = record {
  list =
      λ attempted path. ok (retain (λ k. is_in path k && not (any (λ a. a == k) attempted)) keys);
  get = λ attempted path. ok (utf8 path);
  delete = λ attempted path. deleted;
  path = trim_end_matches is_slash;
}

abbrev pub whole : BackupObjectStore
whole = record { store = shelf ("b/manifest.json" ∷ manifest_key ∷ []); prefix = none }

-- A part of a segment is no prefix.
segments_are_whole : listed whole [] "b/man" ≡ ok []
unfolding listed trim_end_matches is_empty starts_with format
segments_are_whole = refl

manifest_is_listed :
    (log : List String)
    → any (λ p. p == full_path whole manifest_key) log ≡ false
    → answers_with
        (full_path whole manifest_key)
        (whole.store.list log (full_path whole (backup_prefix whole "a")))
      ≡ true
unfolding full_path join_key backup_prefix trim_end_matches is_empty starts_with format
manifest_is_listed log e = ground (arith, e)

manifest_is_stripped : strip_prefix whole.prefix (full_path whole manifest_key) ≡ manifest_key
unfolding strip_prefix full_path join_key trim_end_matches
manifest_is_stripped = refl

manifest_is_under : starts_with (backup_prefix whole "a") manifest_key ≡ true
unfolding backup_prefix starts_with
manifest_is_under = refl

prune_backup_ids_complete_example :
    any (λ p. p == full_path whole manifest_key) (prune_backup_ids whole [] ("a" ∷ []) []).1 ≡ true
prune_backup_ids_complete_example =
    prune_backup_ids_complete whole manifest_key "a" (λ log path. refl)
      (λ log path. unfold deletion_result in refl) manifest_is_stripped manifest_is_under
      manifest_is_listed ("a" ∷ []) (ground (arith, eq_refl "a"))
