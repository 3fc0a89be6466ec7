-- ===== src/Retention/Policy/Survivors.antt =====
-- What the retention policy leaves, for the pruning of src/reconcilers/backup.rs.
use strimzi_backup_operator.Base.{
  ap, ◌&&◌, ◌++◌, ℕ, zero, suc, String, eq_refl, ◌≡◌, refl, ◌∙◌, ◌≤◌, Bool, true, false, not, none,
  some, List, [], ◌∷◌, arith, any, drop, take, length, retain, any-eq_false_of_count,
}
use strimzi_backup_operator.Base.Int.{ℤ, as_usize}
use strimzi_backup_operator.Base.Sort.{sort_desc, count-sort_desc}
use strimzi_backup_operator.Error.{ok}
use strimzi_backup_operator.Crd.Status.{BackupHistoryEntry}
use strimzi_backup_operator.Crd.Backup.{RetentionSpec}
use strimzi_backup_operator.Retention.History.{start, same_id}
use strimzi_backup_operator.Retention.History.Laws.{HasUniqueIds}
use strimzi_backup_operator.Retention.Policy.{member, evaluate_retention}
use strimzi_backup_operator.Reconcile.Backup.Active.{keep_active, member-retain}
use strimzi_backup_operator.Retention.Policy.Duration.{Clock}
use strimzi_backup_operator.Retention.Policy.Laws.{any-never, member-evaluate_retention}

-- An entry that is kept when these ids are pruned.
abbrev pub survives : List String → BackupHistoryEntry → Bool
survives ids e = not (member e.id ids)

-- An entry whose id a running Job keeps.
abbrev pub is_active : List String → BackupHistoryEntry → Bool
is_active active e = member e.id active

-- What survives the pruning and is kept by no running Job is not marked.
idle_survivors :
    (active ids : List String) (xs : List BackupHistoryEntry)
    → retain (λ e. survives (keep_active active ids) e && not (is_active active e)) xs
      ≡ retain (λ e. survives ids e && not (is_active active e)) xs
idle_survivors active ids [] = refl
idle_survivors active ids (x ∷ xs) =
    ground (arith, member-retain x.id active ids, idle_survivors active ids xs)

idle-le :
    (p q : BackupHistoryEntry → Bool) (xs : List BackupHistoryEntry)
    → length (retain (λ e. p e && q e) xs) ≤ length (retain p xs)
idle-le p q [] = omega arith
idle-le p q (x ∷ xs) = ground (arith, idle-le p q xs)

-- Entries of `xs` whose ids are all marked do not survive.
none_survive :
    (ids : List String) (xs : List BackupHistoryEntry)
    → ((i : String) → any (same_id i) xs ≡ true → member i ids ≡ true)
    → length (retain (survives ids) xs) ≡ 0
none_survive ids [] h = refl
none_survive ids (x ∷ xs) h =
    ground (arith, h x.id, eq_refl x.id, none_survive ids xs (λ i e. h i (ground arith)))

survivors_of_drop :
    (ids : List String) (m : ℕ) (xs : List BackupHistoryEntry)
    → length (retain (survives ids) (drop m xs)) ≡ 0
    → length (retain (survives ids) xs) ≤ m
survivors_of_drop ids zero xs h = omega arith
survivors_of_drop ids (suc m) [] h = omega arith
survivors_of_drop ids (suc m) (x ∷ xs) h = ground (arith, survivors_of_drop ids m xs)

marked_of_beyond :
    (clock : Clock) (h : List BackupHistoryEntry) (r : RetentionSpec) (ids : List String) (m : ℤ)
    (i : String)
    → evaluate_retention clock h r ≡ ok ids
    → r.max_backups ≡ some m
    → any (same_id i) (drop (as_usize m) (sort_desc start h)) ≡ true
    → member i ids ≡ true
marked_of_beyond clock h r ids m i e limit k =
    member-evaluate_retention clock h r ids i e ∙ rw (limit, k)

marked_survivors :
    (clock : Clock) (h : List BackupHistoryEntry) (r : RetentionSpec) (ids : List String) (m : ℤ)
    → evaluate_retention clock h r ≡ ok ids
    → r.max_backups ≡ some m
    → length (retain (survives ids) h) ≤ as_usize m
marked_survivors clock h r ids m e limit =
    let sorted = sort_desc start h in
    let gone =
      none_survive ids (drop (as_usize m) sorted)
        (λ i. marked_of_beyond clock h r ids m i e limit) in
    omega (
      arith,
      count-sort_desc start (survives ids) h,
      survivors_of_drop ids (as_usize m) sorted gone,
    )

-- Of a history without the ids that are pruned, which are those that the policy marks and no running
-- Job keeps, at most `maxBackups` entries are kept by no running Job, whatever the history and `maxAge`
-- are. (A negative limit is read as a large one.)
pub survivors-le-max_backups :
    (clock : Clock) (h : List BackupHistoryEntry) (r : RetentionSpec) (active ids : List String)
    (m : ℤ)
    → evaluate_retention clock h r ≡ ok ids
    → r.max_backups ≡ some m
    → length (retain (λ e. survives (keep_active active ids) e && not (is_active active e)) h)
      ≤ as_usize m
survivors-le-max_backups clock h r active ids m e limit = omega (
  arith,
  ap length (idle_survivors active ids h),
  idle-le (survives ids) (λ x. not (is_active active x)) h,
  marked_survivors clock h r ids m e limit,
)

any-drop :
    (p : BackupHistoryEntry → Bool) (m : ℕ) (xs : List BackupHistoryEntry)
    → any p xs ≡ false
    → any p (drop m xs) ≡ false
any-drop p zero xs h = h
any-drop p (suc m) [] h = refl
any-drop p (suc m) (x ∷ xs) h = any-drop p m xs (ground arith)

-- With unique ids, and the ids past the first `m` marked and no other, the first `m` survive, and of
-- the others those that a running Job keeps.
survivors-eq-take :
    (active ids : List String) (m : ℕ) (xs : List BackupHistoryEntry)
    → ((i : String) → any (same_id i) xs ≡ true → member i ids ≡ any (same_id i) (drop m xs))
    → HasUniqueIds xs
    → retain (survives (keep_active active ids)) xs
      ≡ take m xs ++ retain (is_active active) (drop m xs)
survivors-eq-take active ids zero [] h u = refl
survivors-eq-take active ids (suc m) [] h u = refl
survivors-eq-take active ids zero (x ∷ xs) h u =
    let ih =
      survivors-eq-take active ids zero xs (λ i e. ground (arith, h i (ground arith)))
        (λ i. ground (arith, u i)) in
    ground (
      arith,
      member-retain x.id active ids,
      h x.id (ground (arith, eq_refl x.id)),
      eq_refl x.id,
      ih,
    )
survivors-eq-take active ids (suc m) (x ∷ xs) h u =
    let ih =
      survivors-eq-take active ids m xs (λ i e. h i (ground arith)) (λ i. ground (arith, u i)) in
    ground (
      arith,
      member-retain x.id active ids,
      h x.id (ground (arith, eq_refl x.id)),
      eq_refl x.id,
      u x.id,
      any-eq_false_of_count (same_id x.id) xs,
      any-drop (same_id x.id) m xs,
      ih,
    )

marked_iff_beyond :
    (clock : Clock) (h : List BackupHistoryEntry) (r : RetentionSpec) (ids : List String) (m : ℤ)
    (i : String)
    → evaluate_retention clock h r ≡ ok ids
    → r.max_backups ≡ some m
    → r.max_age ≡ none
    → member i ids ≡ any (same_id i) (drop (as_usize m) (sort_desc start h))
marked_iff_beyond clock h r ids m i e limit ageless =
    member-evaluate_retention clock h r ids i e ∙ rw (limit, ageless) (ground (arith, any-never h))

-- With `maxBackups` alone and unique ids, and where the ids are pruned that the policy marks and no
-- running Job keeps, exactly the newest `maxBackups` entries survive, and after them those older ones
-- that a running Job keeps, in the order of the sorted history.
pub survivors-eq-newest :
    (clock : Clock) (h : List BackupHistoryEntry) (r : RetentionSpec) (active ids : List String)
    (m : ℤ)
    → evaluate_retention clock h r ≡ ok ids
    → r.max_backups ≡ some m
    → r.max_age ≡ none
    → HasUniqueIds h
    → retain (survives (keep_active active ids)) (sort_desc start h)
      ≡ take (as_usize m) (sort_desc start h)
        ++ retain (is_active active) (drop (as_usize m) (sort_desc start h))
survivors-eq-newest clock h r active ids m e limit ageless u =
    survivors-eq-take active ids (as_usize m) (sort_desc start h)
      (λ i _. marked_iff_beyond clock h r ids m i e limit ageless)
      (λ i. omega (arith, u i, count-sort_desc start (same_id i) h))
