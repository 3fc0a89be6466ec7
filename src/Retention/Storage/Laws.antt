-- ===== src/Retention/Storage/Laws.antt =====
-- What the pruning of src/retention/storage.rs deletes and returns.
pub mod Complete
use strimzi_backup_operator.Base.{
  ap, subst, sym, String, ◌==◌, eq_refl, ◌≡◌, refl, ◌∙◌, true, List, [], ◌∷◌, ◌++◌, arith, any, All,
  inl, inr, Bool-cases,
}
use strimzi_backup_operator.Base.Text.{starts_with}
use strimzi_backup_operator.Error.{Result, ok, err, panic, is_ok}
use strimzi_backup_operator.Retention.Storage.{
  BackupObjectStore, Deleting, after, full_path, delete, listed, delete_keys, backup_prefix,
  prune_backup, prune_backup_ids, deletion_result,
}

-- A path that pruning these ids may delete: that of a key under the folder of one of them.
abbrev pub IsUnder : BackupObjectStore → List String → String → Type 0
IsUnder o ids path =
    (id : String) × (key : String) × (any (λ i. i == id) ids ≡ true)
    × (starts_with (backup_prefix o id) key ≡ true)
    × (path ≡ full_path o key)

module _ (P : String → Type 0) where
  after-All :
      {A B : Type 0} (s : Result A × List String) (f : A → Deleting B)
      → All P s.1
      → ((a : A) (log : List String) → All P log → All P (f a log).1)
      → All P (after s f).1
  after-All (ok a, log) f h g = g a log h
  after-All (err e, log) f h g = h
  after-All (panic, log) f h g = h

  module _ (o : BackupObjectStore) where
    delete_keys-All :
        (prefix : String) (keys log : List String)
        → ((key : String) → starts_with prefix key ≡ true → P (full_path o key))
        → All P log
        → All P (delete_keys o prefix keys log).1
    unfolding delete_keys delete
    delete_keys-All prefix [] log h g = g
    delete_keys-All prefix (key ∷ keys) log h g = elim (Bool-cases (starts_with prefix key)) [
      | inl e ↦ rw e (
          after-All (delete o key log) (λ _. delete_keys o prefix keys) (h key e, g)
            (λ _ later k. delete_keys-All prefix keys later h k))
      | inr e ↦ rw e (delete_keys-All prefix keys log h g)
    ]

    prune_backup_ids-All :
        (pruned ids log : List String)
        → ((id key : String)
            → any (λ i. i == id) ids ≡ true
            → starts_with (backup_prefix o id) key ≡ true
            → P (full_path o key))
        → All P log
        → All P (prune_backup_ids o pruned ids log).1
    unfolding prune_backup_ids prune_backup
    prune_backup_ids-All pruned [] log h g = g
    prune_backup_ids-All pruned (id ∷ ids) log h g =
        after-All (prune_backup o id log) (λ _. prune_backup_ids o (pruned ++ id ∷ []) ids)
          (after-All (listed o log (backup_prefix o id), log) (delete_keys o (backup_prefix o id)) g
            (λ keys later k.
              delete_keys-All (backup_prefix o id) keys later
                (λ key. h id key (ground (arith, eq_refl id))) k))
          (λ _ later k.
            prune_backup_ids-All (pruned ++ id ∷ []) ids later
              (λ i key m. h i key (ground (arith, m))) k)

-- Pruning attempts to delete only the objects under the folders of the given ids, also when it
-- fails on the way.
pub prune_backup_ids-IsUnder :
    (o : BackupObjectStore) (ids : List String)
    → All (IsUnder o ids) (prune_backup_ids o [] ids []).1
prune_backup_ids-IsUnder o ids =
    prune_backup_ids-All (IsUnder o ids) o [] ids [] (λ id key m e. (id, key, m, e, refl)) tt

append_one :
    (xs : List String) (x : String) (ys : List String) → (xs ++ x ∷ []) ++ ys ≡ xs ++ x ∷ ys
append_one [] x ys = refl
append_one (z ∷ xs) x ys = cc (append_one xs x ys)

append_nil : (xs : List String) → xs ++ [] ≡ xs
append_nil [] = refl
append_nil (x ∷ xs) = cc (append_nil xs)

after_eq :
    {A B : Type 0} (s : Result A × List String) (a : A) (f : A → Deleting B) (r : Result B)
    → s.0 ≡ ok a
    → ((log : List String) → (f a log).0 ≡ r)
    → (after s f).0 ≡ r
after_eq (ok b, log) a f r e h = subst (λ x. (after (x, log) f).0 ≡ r) (sym e) (h log)
after_eq (err x, log) a f r e h = cc
after_eq (panic, log) a f r e h = cc

module _ (o : BackupObjectStore)
    (lists : (log : List String) (path : String) → is_ok (o.store.list log path) ≡ true)
    (deletes : (log : List String) (path : String)
      → deletion_result (o.store.delete log path) ≡ ok tt) where
  delete_keys_ok :
      (prefix : String) (keys log : List String) → (delete_keys o prefix keys log).0 ≡ ok tt
  unfolding delete_keys delete
  delete_keys_ok prefix [] log = refl
  delete_keys_ok prefix (key ∷ keys) log = elim (Bool-cases (starts_with prefix key)) [
    | inl e ↦ rw e (
        after_eq (delete o key log) tt (λ _. delete_keys o prefix keys) (ok tt)
          (deletes log (full_path o key)) (delete_keys_ok prefix keys))
    | inr e ↦ rw e (delete_keys_ok prefix keys log)
  ]

  deleted_after :
      (r : Result (List String)) (prefix : String) (log : List String)
      → is_ok r ≡ true
      → (after (r, log) (delete_keys o prefix)).0 ≡ ok tt
  deleted_after (ok keys) prefix log h = delete_keys_ok prefix keys log
  deleted_after (err e) prefix log h = cc
  deleted_after panic prefix log h = cc

  listed_ok : (log : List String) (prefix : String) → is_ok (listed o log prefix) ≡ true
  unfolding listed
  listed_ok log prefix = ground (arith, lists log (full_path o prefix))

  pruned_ok :
      (pruned ids log : List String) → (prune_backup_ids o pruned ids log).0 ≡ ok (pruned ++ ids)
  unfolding prune_backup_ids prune_backup
  pruned_ok pruned [] log = ap ok (sym (append_nil pruned))
  pruned_ok pruned (id ∷ ids) log =
      after_eq (prune_backup o id log) tt (λ _. prune_backup_ids o (pruned ++ id ∷ []) ids)
        (ok (pruned ++ id ∷ ids))
        (deleted_after (listed o log (backup_prefix o id)) (backup_prefix o id) log
          (listed_ok log (backup_prefix o id)))
        (λ later. pruned_ok (pruned ++ id ∷ []) ids later ∙ ap ok (append_one pruned id ids))

  -- Where every list is answered and no deletion is refused, pruning succeeds, and it reports exactly
  -- the given ids, in order.
  pub prune_backup_ids_ok : (ids : List String) → (prune_backup_ids o [] ids []).0 ≡ ok ids
  prune_backup_ids_ok ids = pruned_ok [] ids []
