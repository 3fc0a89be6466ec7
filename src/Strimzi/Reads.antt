-- ===== src/Strimzi/Reads.antt =====
-- The API server as far as src/strimzi and src/adapters/secrets.rs read it, and
-- src/strimzi/resource.rs. What a request answers is a parameter of the model.
use strimzi_backup_operator.Base.{
  ℕ, String, ◌≡◌, refl, sym, ◌==◌, eqb, Bool, false, Option, none, some, List, [], ◌∷◌, unwrap_or,
  if◌then◌else◌,
}
use strimzi_backup_operator.Json.{Json}
use strimzi_backup_operator.Error.{
  Error, KubeError, api, other, Result, ok, err, panic, ◌>>=◌, ok_or, kube, secret_not_found,
  secret_key_missing,
}
use strimzi_backup_operator.Crd.Backup.{ObjectMeta}

pub data Reply (A : Type 0) : Type 0 where
  found : A → Reply A
  failed : KubeError → Reply A

pub record DynamicObject : Type 0 where
  pub metadata : ObjectMeta
  pub data_ : Json

-- A Secret's value is UTF-8 text, or other bytes.
pub data Bytes : Type 0 where
  utf8 : String → Bytes
  binary : List ℕ → Bytes

pub record Secret : Type 0 where
  pub name : Option String
  pub data_ : Option (List (String × Bytes))

pub record Reads : Type 0 where
  pub object_at : (version namespace kind name : String) → Reply DynamicObject
  pub secret : (namespace name : String) → Reply Secret

unfoldable pub is_not_found : KubeError → Bool
is_not_found (api code _) = eqb code 404
is_not_found (other _) = false

-- `map_err` with a 404 arm: a failed read is `missing` on 404, and the kube error otherwise.
unfoldable pub or_missing : {A : Type 0} → Reply A → Error → Result A
unfolding is_not_found
or_missing (found a) missing = ok a
or_missing (failed e) missing = err (if is_not_found e then missing else kube e)

-- The v1 API first, then v1beta2 if that answers 404.
unfoldable pub get_namespaced_resource : Reads → String → String → String → Reply DynamicObject
unfolding is_not_found
get_namespaced_resource reads namespace kind name =
    elim (reads.object_at "v1" namespace kind name) [
      | found resource ↦ found resource
      | failed error ↦
          if is_not_found error then reads.object_at "v1beta2" namespace kind name else failed error
    ]

-- `data.get(key)`
unfoldable pub entry : String → List (String × Bytes) → Option Bytes
entry key [] = none
entry key ((k, v) ∷ rest) = if k == key then some v else entry key rest

text_of : Bytes → Option String
text_of (utf8 s) = some s
text_of (binary _) = none

-- `extract_secret_string` of tls.rs, and `extract_secret_data` of adapters/secrets.rs with the
-- Secret's own name
unfoldable pub extract_secret_string : Secret → String → String → Result String
unfolding entry text_of
extract_secret_string secret key secret_name = do
  contents ← ok_or secret.data_ (secret_key_missing secret_name key)
  bytes ← ok_or (entry key contents) (secret_key_missing secret_name key)
  ok_or (text_of bytes) (secret_key_missing secret_name key)

unfoldable pub extract_secret_data : Secret → String → Result String
unfolding extract_secret_string
extract_secret_data secret key = extract_secret_string secret key (unwrap_or secret.name "unknown")

unfoldable extract_secret_bytes : Secret → String → Result Bytes
unfolding entry
extract_secret_bytes secret key = do
  let name = unwrap_or secret.name "unknown"
  contents ← ok_or secret.data_ (secret_key_missing name key)
  ok_or (entry key contents) (secret_key_missing name key)

assoc :
    {A B C : Type 0} (r : Result A) (f : A → Result B) (g : B → Result C)
    → (r >>= f >>= g) ≡ (r >>= λ a. f a >>= g)
assoc (ok a) f g = refl
assoc (err e) f g = refl
assoc panic f g = refl

-- The text of a key is the text of its bytes, if they are UTF-8.
extract_secret_data-extract_secret_bytes :
    (secret : Secret) (key : String)
    → extract_secret_data secret key ≡ (
        extract_secret_bytes secret key >>= λ bytes.
        ok_or (text_of bytes) (secret_key_missing (unwrap_or secret.name "unknown") key))
unfolding extract_secret_data extract_secret_bytes extract_secret_string
extract_secret_data-extract_secret_bytes secret key =
    let missing = secret_key_missing (unwrap_or secret.name "unknown") key in
    sym (
      assoc (ok_or secret.data_ missing) (λ contents. ok_or (entry key contents) missing)
        λ bytes. ok_or (text_of bytes) missing)

unfoldable pub get_secret : Reads → String → String → Result Secret
unfolding or_missing
get_secret reads name namespace =
    or_missing (reads.secret namespace name) (secret_not_found name namespace)
