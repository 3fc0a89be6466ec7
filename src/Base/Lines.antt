-- ===== src/Base/Lines.antt =====
-- Rust's string methods that take a text apart at each match: `split`, `lines`, and
-- `trim_end_matches` of a text.
pub mod Laws
use Prim.Native.Char.{Char, code}
use Prim.Native.String.{String, [], ◌∷◌}
use mathlib.Core.Path.{◌≡◌, refl}
use mathlib.Core.Bool.{Bool}
use mathlib.Core.List.{List}
use strimzi_backup_operator.Base.Tests.{eqb, if◌then◌else◌}
use strimzi_backup_operator.Base.Text.{is_empty, same_text}

abbrev prepend_first : Char → List String → List String
prepend_first c List.[] = List.◌∷◌ (c ∷ []) List.[]
prepend_first c (List.◌∷◌ s parts) = List.◌∷◌ (c ∷ s) parts

-- `split` at a character: one part more than there are matches
unfoldable pub split : (Char → Bool) → String → List String
split p [] = List.◌∷◌ [] List.[]
split p (c ∷ s) = let rest = split p s in if p c then List.◌∷◌ [] rest else prepend_first c rest

abbrev is_newline : Char → Bool
is_newline c = eqb (code c) 10

-- A line without the carriage return before its end.
without_return : String → String
unfolding is_empty
without_return [] = []
without_return (c ∷ s) =
    let rest = without_return s in
    if is_empty s then (if eqb (code c) 13 then [] else c ∷ []) else c ∷ rest

-- The parts between the newlines, the last of which no newline ends.
ended : List String → List String
unfolding is_empty without_return
ended List.[] = List.[]
ended (List.◌∷◌ s List.[]) = if is_empty s then List.[] else List.◌∷◌ s List.[]
ended (List.◌∷◌ s (List.◌∷◌ t parts)) = List.◌∷◌ (without_return s) (ended (List.◌∷◌ t parts))

unfoldable pub lines : String → List String
unfolding split ended
lines s = ended (split is_newline s)

-- `trim_end_matches` of a text: what ends with the text loses it, again and again.
unfoldable pub trim_end_text : String → String → String
unfolding same_text
trim_end_text suffix [] = []
trim_end_text suffix (c ∷ s) =
    let rest = trim_end_text suffix s in if same_text suffix (c ∷ rest) then [] else c ∷ rest

lines_end : lines "a\n\nb\n" ≡ List.◌∷◌ "a" (List.◌∷◌ "" (List.◌∷◌ "b" List.[]))
unfolding lines
lines_end = refl

trims_twice : trim_end_text "ab" "xabab" ≡ "x"
unfolding trim_end_text
trims_twice = refl
