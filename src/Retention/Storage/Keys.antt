-- ===== src/Retention/Storage/Keys.antt =====
-- The keys of src/retention/storage.rs under a prefix.
use Prim.Native.String.{[], ◌∷◌, ◌++◌}
use text.Mathlib.TextLemmas.{cons-append, append_assoc, append-nil, nil-append}
use strimzi_backup_operator.Base.{
  String, ◌≡◌, refl, sym, ◌∙◌, ap, false, Option, none, some, arith, unwrap_or,
}
use strimzi_backup_operator.Base.Text.{
  format, is_empty, is_slash, trim_start_matches, strip_prefix as strip,
}
use strimzi_backup_operator.Retention.Storage.{join_key, strip_prefix}

strip-append : (p s : String) → strip p (p ++ s) ≡ some s
unfolding strip
strip-append [] s = ap (strip []) (nil-append s)
strip-append (c ∷ p) s = ap (strip (c ∷ p)) (cons-append c p s) ∙ ground (arith, strip-append p s)

-- The prefix with its slash comes off the key that it was put before.
joined : (p s : String) → p ++ ("/" ++ (s ++ [])) ≡ (p ++ ("/" ++ [])) ++ s
joined p s =
    ap (λ x. p ++ ("/" ++ x)) (append-nil s)
    ∙ ap (λ x. p ++ (x ++ s)) (sym (append-nil "/"))
    ∙ sym (append_assoc p ("/" ++ []) s)

-- A key that is not empty but for slashes at its start comes back without them when the prefix, if
-- there is one, is put before it and stripped again.
pub strip_prefix-join_key :
    (prefix : Option String) (key : String)
    → is_empty (trim_start_matches is_slash key) ≡ false
    → strip_prefix prefix (join_key prefix key) ≡ trim_start_matches is_slash key
unfolding strip_prefix join_key format
strip_prefix-join_key none key h = refl
strip_prefix-join_key (some p) key h =
    let rest = trim_start_matches is_slash key in
    rw h (
      ap (λ x. unwrap_or (strip (p ++ ("/" ++ [])) x) x) (joined p rest)
      ∙ ap (λ o. unwrap_or o ((p ++ ("/" ++ [])) ++ rest)) (strip-append (p ++ ("/" ++ [])) rest))
