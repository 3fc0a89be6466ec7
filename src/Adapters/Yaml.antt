-- ===== src/Adapters/Yaml.antt =====
-- serde_yaml's `Value` and `Mapping`. A mapping keeps its insertion order, and inserting under a key
-- that is there replaces the value. A key is a text or an integer.
use strimzi_backup_operator.Base.{
  ℕ, String, ◌==◌, eq_iff, ◌≡◌, refl, arith, Bool, true, false, Option, none, some, List, [], ◌∷◌,
  map, if◌then◌else◌,
}
use strimzi_backup_operator.Base.Int.{ℤ, pos, eqb_ℤ}

pub data Key : Type 0 where
  name : String → Key
  index : ℤ → Key

mutual
  pub data Value : Type 0 where
    text : String → Value
    bool : Bool → Value
    number : ℤ → Value
    sequence : Values → Value
    mapping : Entries → Value

  pub data Values : Type 0 where
    nil : Values
    cons : Value → Values → Values

  pub data Entries : Type 0 where
    end : Entries
    entry : Key → Value → Entries → Entries

unfoldable pub same_key : Key → Key → Bool
same_key (name s) (name t) = s == t
same_key (index i) (index j) = eqb_ℤ i j
same_key _ _ = false

-- `Mapping::insert`
unfoldable pub insert : Key → Value → Entries → Entries
unfolding same_key
insert k v end = entry k v end
insert k v (entry j w rest) = if same_key j k then entry j v rest else entry j w (insert k v rest)

-- `Mapping::get` at a text
unfoldable pub lookup : String → Entries → Option Value
unfolding same_key
lookup k end = none
lookup k (entry j w rest) = if same_key j (name k) then some w else lookup k rest

unfoldable pub is_empty : Entries → Bool
is_empty end = true
is_empty (entry _ _ _) = false

unfoldable pub values : List Value → Values
values [] = nil
values (v ∷ vs) = cons v (values vs)

abbrev pub texts : List String → Value
texts ss = sequence (values (map text ss))

-- One statement of the code that builds a mapping, and several in a row.
abbrev pub Step : Type 0
Step = Entries → Entries

abbrev pub run : List Step → Entries → Entries
run [] m = m
run (s ∷ ss) m = run ss (s m)

abbrev pub set : String → Value → Step
set k v m = insert (name k) v m

-- `if let Some(value) = ...`
abbrev pub set_some {ℓ} : {A : Type ℓ} → String → (A → Value) → Option A → Step
set_some k f none m = m
set_some k f (some a) m = set k (f a) m

abbrev pub when : Bool → Step → Step
when true s m = s m
when false s m = m

abbrev pub natural : ℕ → Value
natural n = number (pos n)

-- `if !section.is_empty()`, for a section under a key
abbrev pub set_section : String → Entries → Step
unfolding is_empty
set_section k section m = if is_empty section then m else set k (mapping section) m

-- The value under a key after an insertion.
pub lookup-set :
    (k j : String) (v : Value) (m : Entries)
    → lookup j (set k v m) ≡ (if k == j then some v else lookup j m)
unfolding lookup insert
lookup-set k j v end = refl
lookup-set k j v (entry (index i) w rest) = lookup-set k j v rest
lookup-set k j v (entry (name i) w rest) =
    ground (arith, eq_iff k j, eq_iff i k, eq_iff i j, lookup-set k j v rest)
