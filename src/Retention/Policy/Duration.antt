-- ===== src/Retention/Policy/Duration.antt =====
-- `parse_duration` of src/retention/policy.rs, and the cutoff `Utc::now() - duration`.
use Prim.Native.Char.{code}
use strimzi_backup_operator.Base.{
  ℕ, String, ◌≡◌, refl, ◌||◌, Option, none, some, ltb, eqb, if◌then◌else◌,
}
use strimzi_backup_operator.Base.Int.{ℤ, pos, negsuc, ltb_ℤ, ◌*ℤ◌, ◌-ℤ◌}
use strimzi_backup_operator.Base.Text.{trim, parse_i64, split_last}
use strimzi_backup_operator.Error.{Result, ok, panic}
use strimzi_backup_operator.Crd.Status.{Time}

pub record Clock : Type 0 where
  pub now : Time
  pub earliest : Time
  pub latest : Time

-- i64::MAX milliseconds, in whole seconds
abbrev max_seconds : ℤ
max_seconds = pos 9223372036854775

-- `Duration::seconds`, `minutes`, ...: a number of units of so many seconds
units : ℕ → ℤ → Result (Option ℤ)
unfolding ◌*ℤ◌ ◌-ℤ◌
units seconds value =
    let total = value *ℤ pos seconds in
    if ltb_ℤ max_seconds total || ltb_ℤ total (pos 0 -ℤ max_seconds) then panic else ok (some total)

-- The unit, with the character that `split_at(s.len() - 1)` cut off.
of_unit : ℕ → ℤ → Result (Option ℤ)
unfolding units
of_unit unit value =
    if eqb unit b's'
    then units 1 value
    else if eqb unit b'm'
    then units 60 value
    else if eqb unit b'h'
    then units 3600 value
    else if eqb unit b'd'
    then units 86400 value
    else if eqb unit b'w'
    then units 604800 value
    else ok none

-- `split_at` panics unless the last character is one byte long.
unfoldable pub parse_duration : String → Result (Option ℤ)
unfolding of_unit trim parse_i64 split_last
parse_duration s = elim (split_last (trim s)) [
  | none ↦ ok none
  | some (num_str, last) ↦
      if ltb (code last) 128
      then elim (parse_i64 num_str) [ none ↦ ok none | some value ↦ of_unit (code last) value ]
      else panic
]

-- `Utc::now() - duration`
unfoldable pub before_now : Clock → ℤ → Result Time
unfolding ◌*ℤ◌ ◌-ℤ◌
before_now clock duration =
    let cutoff = clock.now -ℤ duration *ℤ pos 1_000_000_000 in
    if ltb_ℤ cutoff clock.earliest || ltb_ℤ clock.latest cutoff then panic else ok cutoff

thirty_days : parse_duration " 30d" ≡ ok (some (pos 2592000))
unfolding parse_duration
thirty_days = refl

four_weeks : parse_duration "4w" ≡ ok (some (pos 2419200))
unfolding parse_duration
four_weeks = refl

no_duration : parse_duration "invalid" ≡ ok none
unfolding parse_duration
no_duration = refl

empty : parse_duration "" ≡ ok none
unfolding parse_duration
empty = refl

negative_age : parse_duration "-5d" ≡ ok (some (negsuc 431999))
unfolding parse_duration
negative_age = refl

wide_unit : parse_duration "30日" ≡ panic
unfolding parse_duration
wide_unit = refl

too_long : parse_duration "999999999999999d" ≡ panic
unfolding parse_duration
too_long = refl
