-- ===== src/Jobs/Volumes/Provided.antt =====
-- That the variables of src/jobs/templates.rs are those to which the storage sections of
-- src/adapters/storage_config.rs refer.
use strimzi_backup_operator.Base.{
  String, ◌==◌, ◌≡◌, refl, subst, Bool, true, false, ◌||◌, Option, none, some, any, any-append,
  is_some, or_else, arith, if◌then◌else◌,
}
use strimzi_backup_operator.Error.{Error, ok_or, ◌>>=◌, ok}
use strimzi_backup_operator.Crd.Common.{SecretKeyRef}
use strimzi_backup_operator.Crd.Storage.{
  StorageSpec, StorageType, S3StorageSpec, AzureStorageSpec, GcsStorageSpec, FilesystemStorageSpec,
  s3, azure, gcs, filesystem,
}
use strimzi_backup_operator.Adapters.Yaml.{
  Value, Entries, text, insert, same_key, set, set_some, when, lookup, lookup-set,
}
use strimzi_backup_operator.Adapters.Storage.{
  s3_section, azure_section, gcs_section, filesystem_section, build_storage_config,
}
use strimzi_backup_operator.Jobs.Volumes.{
  Attached, join, env_of, credentials_file, s3_credentials, azure_credentials, gcs_credentials,
  storage_credentials, nothing, secret_env_var, credentials_file_volume, static_env_var,
}

-- The credentials that a storage section refers to by a variable.
pub data Credential : Type 0 where
  access_key secret_key account_key sas_token client_secret : Credential

abbrev pub key_of : Credential → String
key_of access_key = "access_key"
key_of secret_key = "secret_key"
key_of account_key = "account_key"
key_of sas_token = "sas_token"
key_of client_secret = "client_secret"

abbrev pub variable_of : Credential → String
variable_of access_key = "AWS_ACCESS_KEY_ID"
variable_of secret_key = "AWS_SECRET_ACCESS_KEY"
variable_of account_key = "AZURE_STORAGE_KEY"
variable_of sas_token = "AZURE_STORAGE_SAS_TOKEN"
variable_of client_secret = "AZURE_CLIENT_SECRET"

abbrev pub placeholder_of : Credential → String
placeholder_of access_key = "${AWS_ACCESS_KEY_ID}"
placeholder_of secret_key = "${AWS_SECRET_ACCESS_KEY}"
placeholder_of account_key = "${AZURE_STORAGE_KEY}"
placeholder_of sas_token = "${AZURE_STORAGE_SAS_TOKEN}"
placeholder_of client_secret = "${AZURE_CLIENT_SECRET}"

abbrev pub has_env : String → Attached → Bool
has_env name attached = any (λ e. e.name == name) attached.env

lookup-set_some :
    {A : Type 0} (k j : String) (f : A → Value) (o : Option A) (m : Entries)
    → (k == j) ≡ false
    → lookup j (set_some k f o m) ≡ lookup j m
lookup-set_some k j f none m h = refl
lookup-set_some k j f (some a) m h = ground (arith, lookup-set k j (f a) m, h)

lookup-when :
    (k j : String) (b : Bool) (v : Value) (m : Entries)
    → lookup j (when b (set k v) m)
      ≡ (if b then (if k == j then some v else lookup j m) else lookup j m)
lookup-when k j true v m = lookup-set k j v m
lookup-when k j false v m = refl

pub has_env-join :
    (name : String) (a b : Attached) → has_env name (join a b) ≡ (has_env name a || has_env name b)
has_env-join name a b = any-append (λ e. e.name == name) a.env b.env

pub has_env-env_of :
    (name variable : String) (r : Option SecretKeyRef)
    → has_env name (env_of variable r) ≡ (if is_some r then variable == name else false)
unfolding env_of secret_env_var
has_env-env_of name variable none = refl
has_env-env_of name variable (some r) = ground arith

pub has_env-file :
    (name variable : String) (r : Option SecretKeyRef)
    → has_env name (credentials_file variable r) ≡ (if is_some r then variable == name else false)
unfolding credentials_file credentials_file_volume static_env_var
has_env-file name variable none = refl
has_env-file name variable (some r) = ground arith

ruleset provided = (lookup-when, lookup-set_some, has_env-join, has_env-env_of, has_env-file)

-- The section has a placeholder for the credential exactly if its variable is set.
abbrev pub Agrees : Entries → Attached → Credential → Type 0
Agrees section attached c =
    lookup (key_of c) section
    ≡ (if has_env (variable_of c) attached then some (text (placeholder_of c)) else none)

s3-Agrees : (s : S3StorageSpec) (c : Credential) → Agrees (s3_section s) (s3_credentials (some s)) c
unfolding s3_section s3_credentials lookup insert same_key
s3-Agrees s access_key = simp provided (ground arith)
s3-Agrees s secret_key = simp provided (ground arith)
s3-Agrees s account_key = simp provided (ground arith)
s3-Agrees s sas_token = simp provided (ground arith)
s3-Agrees s client_secret = simp provided (ground arith)

is_some-or_else : {A : Type 0} (a b : Option A) → is_some (or_else a b) ≡ (is_some b || is_some a)
is_some-or_else none none = refl
is_some-or_else none (some b) = refl
is_some-or_else (some a) none = refl
is_some-or_else (some a) (some b) = refl

azure-Agrees :
    (a : AzureStorageSpec) (c : Credential)
    → Agrees (azure_section a) (azure_credentials (some a)) c
unfolding azure_section azure_credentials lookup insert same_key
azure-Agrees a access_key = simp (provided, is_some-or_else) (ground arith)
azure-Agrees a secret_key = simp (provided, is_some-or_else) (ground arith)
azure-Agrees a account_key = simp (provided, is_some-or_else) (ground arith)
azure-Agrees a sas_token = simp (provided, is_some-or_else) (ground arith)
azure-Agrees a client_secret = simp (provided, is_some-or_else) (ground arith)

gcs-Agrees :
    (g : GcsStorageSpec) (c : Credential) → Agrees (gcs_section g) (gcs_credentials (some g)) c
unfolding gcs_section gcs_credentials lookup insert same_key
gcs-Agrees g access_key = simp provided (ground arith)
gcs-Agrees g secret_key = simp provided (ground arith)
gcs-Agrees g account_key = simp provided (ground arith)
gcs-Agrees g sas_token = simp provided (ground arith)
gcs-Agrees g client_secret = simp provided (ground arith)

filesystem-Agrees :
    (f : FilesystemStorageSpec) (c : Credential) → Agrees (filesystem_section f) nothing c
unfolding filesystem_section lookup insert same_key
filesystem-Agrees f access_key = refl
filesystem-Agrees f secret_key = refl
filesystem-Agrees f account_key = refl
filesystem-Agrees f sas_token = refl
filesystem-Agrees f client_secret = refl

-- What agrees for each specification of a kind agrees for the one that is built, if there is one.
built-Agrees :
    {A : Type 0} (f : A → Entries) (g : Option A → Attached) (c : Credential)
    → ((a : A) → Agrees (f a) (g (some a)) c)
    → (o : Option A) (e : Error) (section : Entries) → (ok_or o e >>= λ a. ok (f a)) ≡ ok section
    → Agrees section (g o) c
built-Agrees f g c h none e section built = absurd (ground (arith, built))
built-Agrees f g c h (some a) e section built =
    subst (λ x. Agrees x (g (some a)) c) (ground (arith, built)) (h a)

pub config-Agrees :
    (storage : StorageSpec) (kind : StorageType) (section : Entries) (c : Credential)
    → build_storage_config (record storage { storage_type = kind }) ≡ ok section
    → Agrees section (storage_credentials (record storage { storage_type = kind })) c
unfolding build_storage_config storage_credentials
config-Agrees storage s3 section c built =
    built-Agrees s3_section s3_credentials c (λ s. s3-Agrees s c) storage.s3 _ section built
config-Agrees storage azure section c built =
    built-Agrees azure_section azure_credentials c (λ a. azure-Agrees a c) storage.azure _ section
      built
config-Agrees storage gcs section c built =
    built-Agrees gcs_section gcs_credentials c (λ g. gcs-Agrees g c) storage.gcs _ section built
config-Agrees storage filesystem section c built =
    built-Agrees filesystem_section (λ _. nothing) c (λ f. filesystem-Agrees f c) storage.filesystem
      _ section built
