-- ===== src/Retention/History/Laws.antt =====
-- The history as a map from ids to entries, newest first.
use strimzi_backup_operator.Base.{
  String, ◌==◌, eq_iff, ◌≡◌, refl, ◌∙◌, true, false, ◌||◌, Option, none, some, List, [], ◌∷◌, arith,
  find, any, retain, length, ◌≤◌, inl, inr, Option-cases, find-eq-none, find-eq-some, find-concat,
  count-concat, count-eq_zero_of_any, any-append, if◌then◌else◌,
}
use strimzi_backup_operator.Base.Sort.{
  IsDesc, sort_desc-IsDesc, any-sort_desc, count-sort_desc, find-sort_desc,
}
use strimzi_backup_operator.Crd.Status.{BackupHistoryEntry}
use strimzi_backup_operator.Retention.History.{
  start, same_id, keep_completion, replace_first, written, upsert_history_entry, upsert_all,
  merge_backup_history,
}

-- No two entries have one id.
abbrev pub HasUniqueIds : List BackupHistoryEntry → Type 0
HasUniqueIds h = (i : String) → length (retain (same_id i) h) ≤ 1

-- What is found under the id of an entry that was inserted.
abbrev pub recorded : Option BackupHistoryEntry → BackupHistoryEntry → BackupHistoryEntry
recorded none entry = entry
recorded (some existing) entry = keep_completion existing entry

id-keep_completion : (existing e : BackupHistoryEntry) → (keep_completion existing e).id ≡ e.id
unfolding keep_completion
id-keep_completion existing e = ground arith

count-replace_first :
    (i : String) (e : BackupHistoryEntry) (h : List BackupHistoryEntry)
    → length (retain (same_id i) (replace_first e h)) ≡ length (retain (same_id i) h)
unfolding replace_first
count-replace_first i e [] = refl
count-replace_first i e (x ∷ xs) =
    ground (arith, count-replace_first i e xs, eq_iff x.id e.id, eq_iff x.id i, eq_iff e.id i)

find-replace_first :
    (i : String) (e : BackupHistoryEntry) (h : List BackupHistoryEntry)
    → any (same_id e.id) h ≡ true
    → find (same_id i) (replace_first e h) ≡ (if e.id == i then some e else find (same_id i) h)
unfolding replace_first
find-replace_first i e [] k = ground arith
find-replace_first i e (x ∷ xs) k =
    ground (arith, find-replace_first i e xs, eq_iff x.id e.id, eq_iff x.id i, eq_iff e.id i)

written-HasUniqueIds :
    (h : List BackupHistoryEntry) (e : BackupHistoryEntry)
    → HasUniqueIds h
    → HasUniqueIds (written h e)
unfolding written
written-HasUniqueIds h e u i = elim (Option-cases (find (same_id e.id) h)) [
  | inl absent ↦
      rw (absent, written)
        (ground (
          arith,
          u i,
          count-concat (same_id i) h e,
          count-eq_zero_of_any (same_id e.id) h (find-eq-none (same_id e.id) h absent),
          eq_iff e.id i,
        ))
  | inr (x, present) ↦
      rw (present, written) (ground (arith, u i, count-replace_first i (keep_completion x e) h))
]

any-replace_first :
    (i : String) (e : BackupHistoryEntry) (h : List BackupHistoryEntry)
    → any (same_id i) (replace_first e h) ≡ any (same_id i) h
unfolding replace_first
any-replace_first i e [] = refl
any-replace_first i e (x ∷ xs) =
    ground (arith, any-replace_first i e xs, eq_iff x.id e.id, eq_iff x.id i, eq_iff e.id i)

any-written :
    (h : List BackupHistoryEntry) (e : BackupHistoryEntry) (i : String)
    → any (same_id i) (written h e) ≡ (any (same_id i) h || e.id == i)
unfolding written
any-written h e i = elim (Option-cases (find (same_id e.id) h)) [
  | inl absent ↦
      rw (absent, written) (ground (arith, any-append (same_id i) h (e ∷ []), eq_iff e.id i))
  | inr (x, present) ↦
      rw (present, written)
        (ground (
          arith,
          any-replace_first i (keep_completion x e) h,
          find-eq-some (same_id e.id) h x present,
          eq_iff e.id i,
        ))
]

find-written :
    (h : List BackupHistoryEntry) (e : BackupHistoryEntry) (i : String)
    → find (same_id i) (written h e)
      ≡ (if e.id == i then some (recorded (find (same_id e.id) h) e) else find (same_id i) h)
unfolding written
find-written h e i = elim (Option-cases (find (same_id e.id) h)) [
  | inl absent ↦
      rw (absent, written) (ground (arith, absent, find-concat (same_id i) h e, eq_iff e.id i))
  | inr (x, present) ↦
      rw (present, written)
        (ground (
          arith,
          find-replace_first i (keep_completion x e) h,
          find-eq-some (same_id e.id) h x present,
          id-keep_completion x e,
          eq_iff e.id i,
        ))
]

pub upsert_history_entry-HasUniqueIds :
    (h : List BackupHistoryEntry) (e : BackupHistoryEntry)
    → HasUniqueIds h
    → HasUniqueIds (upsert_history_entry h e)
unfolding upsert_history_entry
upsert_history_entry-HasUniqueIds h e u i =
    omega (arith, written-HasUniqueIds h e u i, count-sort_desc start (same_id i) (written h e))

-- After an upsert into a history with unique ids, the entry's id finds the entry, with the recorded
-- completion time if it has none of its own, and every other id finds what it found before.
pub find-upsert_history_entry :
    (h : List BackupHistoryEntry) (e : BackupHistoryEntry) (i : String)
    → HasUniqueIds h
    → find (same_id i) (upsert_history_entry h e)
      ≡ (if e.id == i then some (recorded (find (same_id e.id) h) e) else find (same_id i) h)
unfolding upsert_history_entry
find-upsert_history_entry h e i u =
    find-sort_desc start (same_id i) (written h e) (written-HasUniqueIds h e u i)
    ∙ find-written h e i

upsert_all-HasUniqueIds :
    (h ds : List BackupHistoryEntry) → HasUniqueIds h → HasUniqueIds (upsert_all h ds)
unfolding upsert_all
upsert_all-HasUniqueIds h [] u = u
upsert_all-HasUniqueIds h (d ∷ ds) u =
    upsert_all-HasUniqueIds (upsert_history_entry h d) ds (upsert_history_entry-HasUniqueIds h d u)

-- Merging keeps ids unique and leaves the history newest first.
pub merge_backup_history-invariant :
    (h ds : List BackupHistoryEntry)
    → HasUniqueIds h
    → HasUniqueIds (merge_backup_history h ds) × IsDesc start (merge_backup_history h ds)
unfolding merge_backup_history
merge_backup_history-invariant h ds u = (
  λ i. omega (
    arith,
    upsert_all-HasUniqueIds h ds u i,
    count-sort_desc start (same_id i) (upsert_all h ds),
  ),
  sort_desc-IsDesc start (upsert_all h ds),
)

find-upsert_all :
    (h ds : List BackupHistoryEntry) (i : String)
    → HasUniqueIds h
    → any (same_id i) ds ≡ false
    → find (same_id i) (upsert_all h ds) ≡ find (same_id i) h
unfolding upsert_all
find-upsert_all h [] i u k = refl
find-upsert_all h (d ∷ ds) i u k =
    find-upsert_all (upsert_history_entry h d) ds i (upsert_history_entry-HasUniqueIds h d u)
      (ground arith)
    ∙ ground (arith, find-upsert_history_entry h d i u)

any-upsert_all :
    (h ds : List BackupHistoryEntry) (i : String)
    → any (same_id i) (upsert_all h ds) ≡ (any (same_id i) h || any (same_id i) ds)
unfolding upsert_all upsert_history_entry
any-upsert_all h [] i = ground arith
any-upsert_all h (d ∷ ds) i =
    any-upsert_all (upsert_history_entry h d) ds i
    ∙ ground (arith, any-sort_desc start (same_id i) (written h d), any-written h d i)

-- The merged history has the ids of the history and of what was discovered, and no other.
pub any-merge_backup_history :
    (h ds : List BackupHistoryEntry) (i : String)
    → any (same_id i) (merge_backup_history h ds) ≡ (any (same_id i) h || any (same_id i) ds)
unfolding merge_backup_history
any-merge_backup_history h ds i =
    any-sort_desc start (same_id i) (upsert_all h ds) ∙ any-upsert_all h ds i

-- An entry of a history with unique ids that is not discovered again is found unchanged.
pub find-merge_backup_history :
    (h ds : List BackupHistoryEntry) (i : String)
    → HasUniqueIds h
    → any (same_id i) ds ≡ false
    → find (same_id i) (merge_backup_history h ds) ≡ find (same_id i) h
unfolding merge_backup_history
find-merge_backup_history h ds i u absent =
    find-sort_desc start (same_id i) (upsert_all h ds) (upsert_all-HasUniqueIds h ds u i)
    ∙ find-upsert_all h ds i u absent
