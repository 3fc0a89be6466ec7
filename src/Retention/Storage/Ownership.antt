-- ===== src/Retention/Storage/Ownership.antt =====
-- Which backups a resource takes for its own in src/retention/storage.rs.
use Prim.Native.String.{[], ◌∷◌, ◌++◌}
use text.Mathlib.TextLemmas.{cons-append, append_assoc, append-nil}
use strimzi_backup_operator.Base.{
  String, ◌==◌, eq_iff, ◌≡◌, refl, sym, ◌∙◌, ap, true, arith, inl, inr, Bool-cases, subst,
}
use strimzi_backup_operator.Base.Text.{format, starts_with}
use strimzi_backup_operator.Retention.Storage.{backup_id_belongs_to_cr}

starts_with-append : (p q s : String) → starts_with (p ++ q) s ≡ true → starts_with p s ≡ true
unfolding starts_with
starts_with-append [] q s h = refl
starts_with-append (c ∷ p) q [] h =
    let k = subst (λ x. starts_with x [] ≡ true) (cons-append c p q) h in k
starts_with-append (c ∷ p) q (d ∷ s) h =
    let k = subst (λ x. starts_with x (d ∷ s) ≡ true) (cons-append c p q) h in
    ground (arith, k, starts_with-append p q s)

starts_with_self : (p : String) → starts_with p p ≡ true
unfolding starts_with
starts_with_self [] = refl
starts_with_self (c ∷ p) = ground (arith, starts_with_self p)

abbrev dashed : String → String
dashed owner = owner ++ ("-" ++ [])

-- The nested prefix begins with the outer one.
split_nested :
    (owner suffix rest : String)
    → (owner ++ ("-" ++ suffix)) ++ rest ≡ dashed owner ++ (suffix ++ rest)
split_nested owner suffix rest =
    append_assoc owner ("-" ++ suffix) rest
    ∙ ap (λ x. owner ++ x) (append_assoc "-" suffix rest)
    ∙ sym (append_assoc owner "-" (suffix ++ rest))
    ∙ ap (λ x. (owner ++ x) ++ (suffix ++ rest)) (sym (append-nil "-"))

nested_starts :
    (owner suffix rest s : String)
    → starts_with ((owner ++ ("-" ++ suffix)) ++ rest) s ≡ true
    → starts_with (dashed owner) s ≡ true
nested_starts owner suffix rest s h =
    starts_with-append (dashed owner) (suffix ++ rest) s
      (subst (λ x. starts_with x s ≡ true) (split_nested owner suffix rest) h)

nested_self : (owner suffix : String) → starts_with (dashed owner) (owner ++ ("-" ++ suffix)) ≡ true
nested_self owner suffix = nested_starts owner suffix [] (owner ++ ("-" ++ suffix)) (
    subst (λ x. starts_with x (owner ++ ("-" ++ suffix)) ≡ true)
      (sym (append-nil (owner ++ ("-" ++ suffix)))) (starts_with_self (owner ++ ("-" ++ suffix))))

-- What belongs to a resource whose name is another's name, a dash and more also belongs to the
-- other: the backups of `a-b` are taken for those of `a`.
pub backup_id_belongs_to_cr_nested :
    (backup_id owner suffix : String)
    → backup_id_belongs_to_cr backup_id (owner ++ ("-" ++ suffix)) ≡ true
    → backup_id_belongs_to_cr backup_id owner ≡ true
unfolding backup_id_belongs_to_cr format
backup_id_belongs_to_cr_nested backup_id owner suffix h =
    elim (Bool-cases (backup_id == owner ++ ("-" ++ suffix))) [
      | inl e ↦
          let same : backup_id ≡ owner ++ ("-" ++ suffix) =
            ground (arith, eq_iff backup_id (owner ++ ("-" ++ suffix))) in
          let starts : starts_with (dashed owner) backup_id ≡ true =
            subst (λ x. starts_with (dashed owner) x ≡ true) (sym same)
              (nested_self owner suffix) in
          ground (arith, starts)
      | inr e ↦
          let later : starts_with ((owner ++ ("-" ++ suffix)) ++ ("-" ++ [])) backup_id ≡ true =
            ground arith in
          let starts = nested_starts owner suffix ("-" ++ []) backup_id later in
          ground (arith, starts)
    ]
