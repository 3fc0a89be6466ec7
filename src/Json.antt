-- ===== src/Json.antt =====
-- serde_json's `Value`, as far as the operator reads one: `get`, `as_str`, `as_bool`, `as_i64` and
-- `as_array`. A number is an integer or one that `as_i64` refuses.
use strimzi_backup_operator.Base.{
  String, ◌==◌, Bool, Option, none, some, List, [], ◌∷◌, if◌then◌else◌,
}
use strimzi_backup_operator.Base.Int.{ℤ}

mutual
  pub data Json : Type 0 where
    null : Json
    bool : Bool → Json
    int : ℤ → Json
    float : String → Json
    str : String → Json
    arr : Items → Json
    obj : Fields → Json

  pub data Items : Type 0 where
    nil : Items
    cons : Json → Items → Items

  pub data Fields : Type 0 where
    end : Fields
    field : String → Json → Fields → Fields

field_of : String → Fields → Option Json
field_of k end = none
field_of k (field j v fs) = if j == k then some v else field_of k fs

abbrev pub items : Items → List Json
items nil = []
items (cons v vs) = v ∷ items vs

-- An object's fields have distinct keys, so the first is the only one.
unfoldable pub get : String → Json → Option Json
unfolding field_of
get k (obj fs) = field_of k fs
get k _ = none

unfoldable pub as_str : Json → Option String
as_str (str s) = some s
as_str _ = none

unfoldable pub as_bool : Json → Option Bool
as_bool (bool b) = some b
as_bool _ = none

unfoldable pub as_i64 : Json → Option ℤ
as_i64 (int n) = some n
as_i64 _ = none

unfoldable pub as_array : Json → Option (List Json)
as_array (arr vs) = some (items vs)
as_array _ = none
