-- ===== src/Base/Text.antt =====
-- The string methods of Rust's standard library that the code uses, over the native `String`.
use Prim.Native.Nat.{ℕ, zero, suc, ◌+◌, ◌*◌, ◌-◌, ◌/◌, ◌%◌, ◌^◌}
use Prim.Native.Char.{Char, code}
use Prim.Native.String.{String, [], ◌∷◌, ◌++◌}
use mathlib.Core.Path.{◌≡◌, refl}
use mathlib.Core.Bool.{Bool, true, false, ◌&&◌, ◌||◌}
use mathlib.Core.Option.{Option, none, some}
use mathlib.Core.List.{List}
use strimzi_backup_operator.Base.Tests.{ltb, leb, eqb, if◌then◌else◌}
use strimzi_backup_operator.Base.Int.{ℤ, pos, negsuc}

-- `format!`, as the list of the parts that it joins
unfoldable pub format : List String → String
format List.[] = []
format (List.◌∷◌ s parts) = s ++ format parts

-- `join`
unfoldable pub join : String → List String → String
join sep List.[] = []
join sep (List.◌∷◌ s List.[]) = s
join sep (List.◌∷◌ s (List.◌∷◌ t parts)) = s ++ (sep ++ join sep (List.◌∷◌ t parts))

unfoldable pub is_empty : String → Bool
is_empty [] = true
is_empty (c ∷ s) = false

-- `char::is_whitespace`
is_whitespace : Char → Bool
is_whitespace c =
    let n = code c in
    (leb 9 n && leb n 13)
    || eqb n 32
    || eqb n 0x85
    || eqb n 0xa0
    || eqb n 0x1680
    || (leb 0x2000 n && leb n 0x200a)
    || eqb n 0x2028
    || eqb n 0x2029
    || eqb n 0x202f
    || eqb n 0x205f
    || eqb n 0x3000

unfoldable pub trim_start_matches : (Char → Bool) → String → String
trim_start_matches p [] = []
trim_start_matches p (c ∷ s) = let rest = trim_start_matches p s in if p c then rest else c ∷ s

unfoldable pub trim_end_matches : (Char → Bool) → String → String
unfolding is_empty
trim_end_matches p [] = []
trim_end_matches p (c ∷ s) =
    let rest = trim_end_matches p s in if is_empty rest && p c then [] else c ∷ rest

unfoldable pub trim_matches : (Char → Bool) → String → String
unfolding trim_start_matches trim_end_matches
trim_matches p s = trim_end_matches p (trim_start_matches p s)

unfoldable pub trim : String → String
unfolding trim_matches is_whitespace
trim s = trim_matches is_whitespace s

abbrev pub is_slash : Char → Bool
is_slash c = eqb (code c) b'/'

-- `strip_prefix`
unfoldable pub strip_prefix : String → String → Option String
strip_prefix [] s = some s
strip_prefix (c ∷ p) [] = none
strip_prefix (c ∷ p) (d ∷ s) = if eqb (code c) (code d) then strip_prefix p s else none

unfoldable pub starts_with : String → String → Bool
starts_with [] s = true
starts_with (c ∷ p) [] = false
starts_with (c ∷ p) (d ∷ s) = eqb (code c) (code d) && starts_with p s

unfoldable pub same_text : String → String → Bool
same_text [] [] = true
same_text (c ∷ s) (d ∷ t) = eqb (code c) (code d) && same_text s t
same_text _ _ = false

unfoldable pub ends_with : String → String → Bool
unfolding same_text
ends_with p [] = same_text p []
ends_with p (c ∷ s) = same_text p (c ∷ s) || ends_with p s

-- `split_once` at a character
abbrev prepend : Char → Option (String × String) → Option (String × String)
prepend c none = none
prepend c (some (k, v)) = some (c ∷ k, v)

unfoldable pub split_once : (Char → Bool) → String → Option (String × String)
split_once p [] = none
split_once p (c ∷ s) = let rest = split_once p s in if p c then some ([], s) else prepend c rest

abbrev lower : ℕ → ℕ
lower n = if leb b'A' n && leb n b'Z' then n + 32 else n

unfoldable pub eq_ignore_ascii_case : String → String → Bool
eq_ignore_ascii_case [] [] = true
eq_ignore_ascii_case (c ∷ s) (d ∷ t) =
    eqb (lower (code c)) (lower (code d)) && eq_ignore_ascii_case s t
eq_ignore_ascii_case _ _ = false

-- The value of a nonempty run of decimal digits.
digits : ℕ → String → Option ℕ
digits n [] = some n
digits n (c ∷ s) =
    let rest = digits (n * 10 + (code c - 48)) s in
    if leb b'0' (code c) && leb (code c) b'9' then rest else none

number : String → Option ℕ
unfolding digits
number [] = none
number (c ∷ s) = digits 0 (c ∷ s)

positive : Option ℕ → Option ℤ
positive none = none
positive (some n) = if leb n (2 ^ 63 - 1) then some (pos n) else none

negative : Option ℕ → Option ℤ
negative none = none
negative (some n) =
    if leb n (2 ^ 63) then some (if eqb n 0 then pos 0 else negsuc (n - 1)) else none

-- `str::parse::<i64>().ok()`: a sign, digits, and the range of i64
unfoldable pub parse_i64 : String → Option ℤ
unfolding number positive negative
parse_i64 [] = none
parse_i64 (c ∷ s) =
    if eqb (code c) b'-'
    then negative (number s)
    else positive (if eqb (code c) b'+' then number s else number (c ∷ s))

-- The text without its last character, and that character.
unfoldable pub split_last : String → Option (String × Char)
split_last [] = none
split_last (c ∷ s) = elim (split_last s) [
  | none ↦ some ([], c)
  | some (front, last) ↦ some (c ∷ front, last)
]

digit : ℕ → String
digit n =
    if eqb n 0
    then "0"
    else if eqb n 1
    then "1"
    else if eqb n 2
    then "2"
    else if eqb n 3
    then "3"
    else if eqb n 4
    then "4"
    else if eqb n 5
    then "5"
    else if eqb n 6
    then "6"
    else if eqb n 7
    then "7"
    else if eqb n 8
    then "8"
    else "9"

-- The decimal digits, most significant first; a u64 has at most 20, so the fuel is enough for it.
decimal : ℕ → ℕ → String → String
decimal zero n rest = rest
decimal (suc fuel) n rest =
    let more = decimal fuel (n / 10) (digit (n % 10) ++ rest) in
    if ltb n 10 then digit n ++ rest else more

-- `to_string` of an integer
unfoldable pub show : ℤ → String
unfolding decimal digit
show (pos n) = decimal 20 n ""
show (negsuc n) = "-" ++ decimal 20 (n + 1) ""

shows : show (negsuc 9092) ≡ "-9093"
unfolding show
shows = refl

trims : trim "  30d " ≡ "30d"
unfolding trim
trims = refl

parses : parse_i64 "-12" ≡ some (negsuc 11)
unfolding parse_i64
parses = refl
