-- ===== src/Retention/Storage/Laws/Complete.antt =====
-- That the pruning of src/retention/storage.rs deletes every object of the backups it prunes.
use strimzi_backup_operator.Base.{
  String, ◌==◌, eq_refl, eq_iff, ◌≡◌, sym, subst, Bool, true, false, List, [], ◌∷◌, ◌++◌, arith,
  any, map, ◌∙◌, inl, inr, Bool-cases,
}
use strimzi_backup_operator.Base.Order.{sort_texts, any-sort_texts}
use strimzi_backup_operator.Base.Text.{starts_with}
use strimzi_backup_operator.Error.{Result, ok, err, panic, is_ok}
use strimzi_backup_operator.Retention.Storage.{
  BackupObjectStore, Deleting, strip_prefix, after, full_path, delete, listed, delete_keys,
  backup_prefix, prune_backup, prune_backup_ids, deletion_result,
}
use strimzi_backup_operator.Retention.Storage.Laws.{deleted_after, listed_ok}

eq_to_path : (x y : String) → (x == y) ≡ true → x ≡ y
eq_to_path x y e = ground (arith, eq_iff x y, e)

-- A list of texts that is answered, and has this one.
abbrev pub answers_with : String → Result (List String) → Bool
answers_with x (ok xs) = any (λ y. y == x) xs
answers_with x (err _) = false
answers_with x panic = false

any-map :
    (f : String → String) (x : String) (xs : List String)
    → any (λ y. y == x) xs ≡ true
    → any (λ y. y == f x) (map f xs) ≡ true
any-map f x [] h = cc
any-map f x (y ∷ ys) h = elim (Bool-cases (y == x)) [
  | inl e ↦
      subst (λ z. any (λ w. w == f z) (map f (y ∷ ys)) ≡ true) (eq_to_path y x e)
        (ground (arith, eq_refl (f y)))
  | inr e ↦ ground (arith, any-map f x ys (ground (arith, h, e)))
]

module _ (o : BackupObjectStore) (key id : String)
    (lists : (log : List String) (path : String) → is_ok (o.store.list log path) ≡ true)
    (deletes : (log : List String) (path : String)
      → deletion_result (o.store.delete log path) ≡ ok tt)
    (stripped : strip_prefix o.prefix (full_path o key) ≡ key)
    (under : starts_with (backup_prefix o id) key ≡ true)
    (present : (log : List String)
      → any (λ p. p == full_path o key) log ≡ false
      → answers_with (full_path o key) (o.store.list log (full_path o (backup_prefix o id)))
        ≡ true) where
  answered_key :
      (r : Result (List String))
      → answers_with (full_path o key) r ≡ true
      → answers_with key (elim r [
        | ok locations ↦ ok (sort_texts (map (strip_prefix o.prefix) locations))
        | err e ↦ err e
        | panic ↦ panic
      ])
        ≡ true
  answered_key (ok locations) h =
      any-sort_texts (λ y. y == key) (map (strip_prefix o.prefix) locations)
      ∙ subst (λ k. any (λ y. y == k) (map (strip_prefix o.prefix) locations) ≡ true) stripped
          (any-map (strip_prefix o.prefix) (full_path o key) locations h)
  answered_key (err e) h = cc
  answered_key panic h = cc

  present_key :
      (log : List String)
      → any (λ p. p == full_path o key) log ≡ false
      → answers_with key (listed o log (backup_prefix o id)) ≡ true
  unfolding listed
  present_key log e = answered_key _ (present log e)

  abbrev IsDeleted : List String → Type 0
  IsDeleted log = any (λ p. p == full_path o key) log ≡ true

  after-IsDeleted :
      {A B : Type 0} (s : Result A × List String) (f : A → Deleting B)
      → IsDeleted s.1
      → ((a : A) (log : List String) → IsDeleted log → IsDeleted (f a log).1)
      → IsDeleted (after s f).1
  after-IsDeleted (ok a, log) f h g = g a log h
  after-IsDeleted (err e, log) f h g = h
  after-IsDeleted (panic, log) f h g = h

  delete-IsDeleted : (k : String) (log : List String) → IsDeleted log → IsDeleted (delete o k log).1
  unfolding delete
  delete-IsDeleted k log h = ground (arith, h)

  IsDeleted-now : (k : String) (log : List String) → key ≡ k → IsDeleted (delete o k log).1
  unfolding delete
  IsDeleted-now k log e =
      subst (λ x. any (λ p. p == full_path o key) (full_path o x ∷ log) ≡ true) e
        (ground (arith, eq_refl (full_path o key)))

  deleted_ok : (k : String) (log : List String) → (delete o k log).0 ≡ ok tt
  unfolding delete
  deleted_ok k log = deletes log (full_path o k)

  pruned_backup_ok : (id : String) (log : List String) → (prune_backup o id log).0 ≡ ok tt
  unfolding prune_backup
  pruned_backup_ok id log =
      deleted_after o lists deletes (listed o log (backup_prefix o id)) (backup_prefix o id) log
        (listed_ok o lists deletes log (backup_prefix o id))

  after_ok :
      {A B : Type 0} (s : Result A × List String) (a : A) (f : A → Deleting B)
      → s.0 ≡ ok a
      → ((log : List String) → IsDeleted (f a log).1)
      → IsDeleted (after s f).1
  after_ok (ok b, log) a f e h = subst (λ x. IsDeleted (after (x, log) f).1) (sym e) (h log)
  after_ok (err x, log) a f e h = cc
  after_ok (panic, log) a f e h = cc

  keys-IsDeleted :
      (prefix : String) (keys log : List String)
      → IsDeleted log
      → IsDeleted (delete_keys o prefix keys log).1
  unfolding delete_keys
  keys-IsDeleted prefix [] log h = h
  keys-IsDeleted prefix (k ∷ keys) log h = elim (Bool-cases (starts_with prefix k)) [
    | inl e ↦ rw e (
        after-IsDeleted (delete o k log) (λ _. delete_keys o prefix keys) (delete-IsDeleted k log h)
          (λ _ later g. keys-IsDeleted prefix keys later g))
    | inr e ↦ rw e (keys-IsDeleted prefix keys log h)
  ]

  -- The loop deletes the object if its key is among those that are listed.
  keys_complete :
      (prefix : String) (keys log : List String)
      → any (λ y. y == key) keys ≡ true
      → starts_with prefix key ≡ true
      → IsDeleted (delete_keys o prefix keys log).1
  unfolding delete_keys
  keys_complete prefix [] log m h = cc
  keys_complete prefix (k ∷ keys) log m h = elim (Bool-cases (k == key)) [
    | inl e ↦
        let same : key ≡ k = sym (eq_to_path k key e) in
        rw (subst (λ x. starts_with prefix x ≡ true) same h) (
          after-IsDeleted (delete o k log) (λ _. delete_keys o prefix keys)
            (IsDeleted-now k log same) (λ _ later g. keys-IsDeleted prefix keys later g))
    | inr e ↦
        let later : (l : List String) → IsDeleted (delete_keys o prefix keys l).1 =
          λ l. keys_complete prefix keys l (ground (arith, m, e)) h in
        elim (Bool-cases (starts_with prefix k)) [
          | inl f ↦ rw f (
              after_ok (delete o k log) tt (λ _. delete_keys o prefix keys) (deleted_ok k log)
                later)
          | inr f ↦ rw f (later log)
        ]
  ]

  prune-IsDeleted :
      (id : String) (log : List String) → IsDeleted log → IsDeleted (prune_backup o id log).1
  unfolding prune_backup
  prune-IsDeleted id log h =
      after-IsDeleted (listed o log (backup_prefix o id), log) (delete_keys o (backup_prefix o id))
        h λ keys later g. keys-IsDeleted (backup_prefix o id) keys later g

  found-IsDeleted :
      (prefix : String) (r : Result (List String)) (log : List String)
      → answers_with key r ≡ true
      → starts_with prefix key ≡ true
      → IsDeleted (after (r, log) (delete_keys o prefix)).1
  found-IsDeleted prefix (ok keys) log a h = keys_complete prefix keys log a h
  found-IsDeleted prefix (err e) log a h = cc
  found-IsDeleted prefix panic log a h = cc

  -- One turn of the loop over the ids.
  prune_complete : (log : List String) → IsDeleted (prune_backup o id log).1
  prune_complete log = elim (Bool-cases (any (λ p. p == full_path o key) log)) [
    | inl e ↦ prune-IsDeleted id log e
    | inr e ↦
        unfold prune_backup in
        found-IsDeleted (backup_prefix o id) (listed o log (backup_prefix o id)) log
          (present_key log e) under
  ]

  ids-IsDeleted :
      (pruned ids log : List String)
      → IsDeleted log
      → IsDeleted (prune_backup_ids o pruned ids log).1
  unfolding prune_backup_ids
  ids-IsDeleted pruned [] log h = h
  ids-IsDeleted pruned (id ∷ ids) log h =
      after-IsDeleted (prune_backup o id log) (λ _. prune_backup_ids o (pruned ++ id ∷ []) ids)
        (prune-IsDeleted id log h) λ _ later g. ids-IsDeleted (pruned ++ id ∷ []) ids later g

  ids_complete :
      (pruned ids log : List String)
      → any (λ i. i == id) ids ≡ true
      → IsDeleted (prune_backup_ids o pruned ids log).1
  unfolding prune_backup_ids
  ids_complete pruned [] log m = cc
  ids_complete pruned (i ∷ ids) log m = elim (Bool-cases (i == id)) [
    | inl e ↦
        let same : id ≡ i = sym (eq_to_path i id e) in
        after-IsDeleted (prune_backup o i log) (λ _. prune_backup_ids o (pruned ++ i ∷ []) ids)
          (subst (λ x. IsDeleted (prune_backup o x log).1) same (prune_complete log))
          λ _ later g. ids-IsDeleted (pruned ++ i ∷ []) ids later g
    | inr e ↦
        after_ok (prune_backup o i log) tt (λ _. prune_backup_ids o (pruned ++ i ∷ []) ids)
          (pruned_backup_ok i log)
          λ later. ids_complete (pruned ++ i ∷ []) ids later (ground (arith, m, e))
  ]

  -- Where every list is answered, no deletion is refused, and the list of the folder of one of the
  -- given ids has an object until it is deleted, whose key is its location without the prefix and lies
  -- in this folder, pruning deletes the object.
  pub prune_backup_ids_complete :
      (ids : List String)
      → any (λ i. i == id) ids ≡ true
      → any (λ p. p == full_path o key) (prune_backup_ids o [] ids []).1 ≡ true
  prune_backup_ids_complete ids m = ids_complete [] ids [] m
