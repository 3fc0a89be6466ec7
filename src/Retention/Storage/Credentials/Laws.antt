-- ===== src/Retention/Storage/Credentials/Laws.antt =====
-- Shared access signatures in src/retention/storage.rs: the pairs of a token.
use Prim.Native.String.{◌++◌}
use strimzi_backup_operator.Base.{
  String, ◌≡◌, refl, ◌∙◌, ap, Bool, true, ◌&&◌, List, [], ◌∷◌, map, all, arith,
}
use strimzi_backup_operator.Base.Text.{join, trim_start_matches}
use strimzi_backup_operator.Base.Lines.{split}
use strimzi_backup_operator.Base.Lines.Laws.{
  lacks, split-separator, split_whole, split_once-separator,
}
use strimzi_backup_operator.Retention.Storage.Credentials.{
  pairs_of, sas_token_pairs, is_equals, is_question, is_ampersand,
}

-- A pair as a token has it.
abbrev pub shown : String × String → String
shown (key, value) = key ++ ("=" ++ value)

-- The key has no separator, and the pair as a whole no `&`.
abbrev pub is_plain : String × String → Bool
is_plain pair = lacks is_equals pair.0 && lacks is_ampersand (shown pair)

split-shown :
    (pair : String × String) (pairs : List (String × String))
    → all is_plain (pair ∷ pairs) ≡ true
    → split is_ampersand (join "&" (map shown (pair ∷ pairs))) ≡ map shown (pair ∷ pairs)
unfolding join
split-shown pair [] h = split_whole is_ampersand (shown pair) (ground arith)
split-shown pair (next ∷ pairs) h =
    split-separator is_ampersand "&" refl (shown pair) (join "&" (map shown (next ∷ pairs)))
      (ground arith)
    ∙ ap (λ parts. shown pair ∷ parts) (split-shown next pairs (ground arith))

pairs_of-shown :
    (pairs : List (String × String))
    → all is_plain pairs ≡ true
    → pairs_of (map shown pairs) ≡ pairs
unfolding pairs_of
pairs_of-shown [] h = refl
pairs_of-shown ((key, value) ∷ pairs) h =
    let once = split_once-separator is_equals "=" refl key value (ground arith) in
    ground (arith, once, pairs_of-shown pairs)

-- A token that joins pairs with `&`, each of a key without `=`, then `=`, then a value, neither with
-- `&`, gives these pairs, in order, if it does not begin with `?`; a value may contain `=`.
pub sas_token_pairs-join :
    (pair : String × String) (pairs : List (String × String))
    → all is_plain (pair ∷ pairs) ≡ true
    → trim_start_matches is_question (join "&" (map shown (pair ∷ pairs)))
      ≡ join "&" (map shown (pair ∷ pairs))
    → sas_token_pairs (join "&" (map shown (pair ∷ pairs))) ≡ pair ∷ pairs
unfolding sas_token_pairs
sas_token_pairs-join pair pairs h q =
    ap (λ token. pairs_of (split is_ampersand token)) q
    ∙ ap pairs_of (split-shown pair pairs h)
    ∙ pairs_of-shown (pair ∷ pairs) h
