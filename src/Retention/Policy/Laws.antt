-- ===== src/Retention/Policy/Laws.antt =====
-- What `evaluate_retention` of src/retention/policy.rs marks for pruning.
use strimzi_backup_operator.Base.{
  ℕ, zero, suc, String, ◌==◌, eq_iff, ◌≡◌, refl, ◌∙◌, Bool, true, false, not, ◌&&◌, ◌||◌, Option,
  none, some, List, [], ◌∷◌, ◌++◌, arith, any, drop, length, ltb, any-append, if◌then◌else◌,
}
use strimzi_backup_operator.Base.Int.{ℤ, ltb_ℤ, as_usize}
use strimzi_backup_operator.Base.Sort.{sort_desc, any-sort_desc}
use strimzi_backup_operator.Error.{Result, ok, err, panic, ◌>>=◌}
use strimzi_backup_operator.Crd.Status.{Time, BackupHistoryEntry}
use strimzi_backup_operator.Crd.Backup.{RetentionSpec}
use strimzi_backup_operator.Retention.History.{start, same_id}
use strimzi_backup_operator.Retention.Policy.{
  member, mark, mark_excess, mark_old, cutoff_for, apply_max_age, evaluate_retention,
}
use strimzi_backup_operator.Retention.Policy.Duration.{Clock}

-- The specification: the entries past the newest, and those that are too old.
abbrev pub beyond : Option ℤ → List BackupHistoryEntry → List BackupHistoryEntry
beyond none xs = []
beyond (some max_backups) xs = drop (as_usize max_backups) xs

abbrev pub is_before : Result (Option Time) → BackupHistoryEntry → Bool
is_before (ok (some cutoff)) e = ltb_ℤ e.start_time cutoff
is_before _ e = false

abbrev pub is_too_old : Clock → Option String → BackupHistoryEntry → Bool
is_too_old clock none e = false
is_too_old clock (some max_age) e = is_before (cutoff_for clock max_age) e

member-mark :
    (p : BackupHistoryEntry → Bool) (i : String) (ids : List String) (es : List BackupHistoryEntry)
    → member i (mark p ids es) ≡ (member i ids || any (λ e. p e && same_id i e) es)
unfolding mark
member-mark p i ids [] = ground arith
member-mark p i ids (e ∷ es) =
    member-mark p i (if p e && not (member e.id ids) then ids ++ e.id ∷ [] else ids) es
    ∙ ground (arith, any-append (λ j. j == i) ids (e.id ∷ []), eq_iff e.id i)

drop-nil : (n : ℕ) (es : List BackupHistoryEntry) → ltb n (length es) ≡ false → drop n es ≡ []
drop-nil zero [] h = refl
drop-nil zero (e ∷ es) h = ground arith
drop-nil (suc n) [] h = refl
drop-nil (suc n) (e ∷ es) h = drop-nil n es (ground arith)

member-mark_excess :
    (i : String) (m : Option ℤ) (es : List BackupHistoryEntry)
    → member i (mark_excess m es) ≡ any (same_id i) (beyond m es)
unfolding mark_excess
member-mark_excess i none es = refl
member-mark_excess i (some m) es =
    ground (arith, member-mark (λ _. true) i [] (drop (as_usize m) es), drop-nil (as_usize m) es)

pub any-never : (es : List BackupHistoryEntry) → any (λ e. false) es ≡ false
any-never [] = refl
any-never (e ∷ es) = any-never es

member-apply_cutoff :
    (i : String) (r : Result (Option Time)) (ids : List String) (es : List BackupHistoryEntry)
    {out : List String}
    → (r >>= λ limit. ok (elim limit [ none ↦ ids | some cutoff ↦ mark_old cutoff ids es ]))
      ≡ ok out
    → member i out ≡ (member i ids || any (λ e. is_before r e && same_id i e) es)
unfolding mark_old
member-apply_cutoff i (ok none) ids es h = ground (arith, any-never es)
member-apply_cutoff i (ok (some cutoff)) ids es h =
    ground (arith, member-mark (λ e. ltb_ℤ e.start_time cutoff) i ids es)
member-apply_cutoff i (err e) ids es h = cc
member-apply_cutoff i panic ids es h = cc

member-apply_max_age :
    (i : String) (clock : Clock) (age : Option String) (ids : List String)
    (es : List BackupHistoryEntry) {out : List String}
    → apply_max_age clock age ids es ≡ ok out
    → member i out ≡ (member i ids || any (λ e. is_too_old clock age e && same_id i e) es)
unfolding apply_max_age
member-apply_max_age i clock none ids es h = ground (arith, any-never es)
member-apply_max_age i clock (some age) ids es h =
    member-apply_cutoff i (cutoff_for clock age) ids es h

beyond-nil : (m : Option ℤ) → beyond m [] ≡ []
beyond-nil none = refl
beyond-nil (some m) = drop-nil (as_usize m) [] (ground arith)

-- An id is marked for pruning exactly if an entry of that id is past the newest `maxBackups` ones
-- or started before the cutoff of `maxAge`, whenever the evaluation does not panic.
pub member-evaluate_retention :
    (clock : Clock) (h : List BackupHistoryEntry) (r : RetentionSpec) (ids : List String)
    (i : String)
    → evaluate_retention clock h r ≡ ok ids
    → member i ids ≡ (
        any (same_id i) (beyond r.max_backups (sort_desc start h))
        || any (λ e. is_too_old clock r.max_age e && same_id i e) h)
unfolding evaluate_retention sort_desc
member-evaluate_retention clock [] r ids i h = ground (arith, beyond-nil r.max_backups)
member-evaluate_retention clock (e ∷ es) r ids i h =
    let sorted = sort_desc start (e ∷ es) in
    member-apply_max_age i clock r.max_age (mark_excess r.max_backups sorted) sorted h
    ∙ ground (
      arith,
      member-mark_excess i r.max_backups sorted,
      any-sort_desc start (λ x. is_too_old clock r.max_age x && same_id i x) (e ∷ es),
    )
