-- ===== src/Retention/Storage/Credentials.antt =====
-- The parsing of credentials in src/retention/storage.rs.
pub mod Laws
use Prim.Native.Char.{Char, code}
use strimzi_backup_operator.Base.{
  String, ◌==◌, ◌≡◌, refl, Bool, ◌||◌, Option, none, some, List, [], ◌∷◌, eqb, if◌then◌else◌,
}
use strimzi_backup_operator.Base.Text.{
  trim, trim_matches, trim_start_matches, split_once, is_empty, starts_with,
}
use strimzi_backup_operator.Base.Lines.{split, lines}

pub record AwsSharedCredentials : Type 0 where
  pub access_key_id : Option String
  pub secret_access_key : Option String
  pub session_token : Option String

-- `AwsSharedCredentials::default()`
abbrev no_credentials : AwsSharedCredentials
no_credentials = record { access_key_id = none; secret_access_key = none; session_token = none }

unfoldable pub trim_credential_value : String → String
unfolding trim trim_matches
trim_credential_value value =
    trim_matches (λ c. eqb (code c) b'\'') (trim_matches (λ c. eqb (code c) b'"') (trim value))

-- The arms of the match on the key.
unfoldable pub set_credential : String → String → AwsSharedCredentials → AwsSharedCredentials
set_credential key value credentials =
    if key == "aws_access_key_id" || key == "access_key" || key == "access_key_id"
    then record credentials { access_key_id = some value }
    else if key == "aws_secret_access_key" || key == "secret_key" || key == "secret_access_key"
    then record credentials { secret_access_key = some value }
    else if key == "aws_session_token" || key == "session_token" || key == "token"
    then record credentials { session_token = some value }
    else credentials

abbrev pub is_equals : Char → Bool
is_equals c = eqb (code c) b'='

-- A line that is trimmed.
unfoldable pub read_credential : String → AwsSharedCredentials → AwsSharedCredentials
unfolding is_empty starts_with split_once trim trim_credential_value set_credential
read_credential line credentials =
    if is_empty line || starts_with "#" line || starts_with "[" line
    then credentials
    else elim (split_once is_equals line) [
      | none ↦ credentials
      | some (key, value) ↦ set_credential (trim key) (trim_credential_value value) credentials
    ]

unfoldable pub read_credentials : List String → AwsSharedCredentials → AwsSharedCredentials
unfolding read_credential trim
read_credentials [] credentials = credentials
read_credentials (line ∷ rest) credentials =
    read_credentials rest (read_credential (trim line) credentials)

unfoldable pub parse_aws_shared_credentials : String → AwsSharedCredentials
unfolding lines read_credentials
parse_aws_shared_credentials input = read_credentials (lines input) no_credentials

-- `filter_map` of `split_once`
unfoldable pub pairs_of : List String → List (String × String)
unfolding split_once
pairs_of [] = []
pairs_of (part ∷ parts) = elim (split_once is_equals part) [
  | none ↦ pairs_of parts
  | some pair ↦ pair ∷ pairs_of parts
]

abbrev pub is_question : Char → Bool
is_question c = eqb (code c) b'?'

abbrev pub is_ampersand : Char → Bool
is_ampersand c = eqb (code c) b'&'

unfoldable pub sas_token_pairs : String → List (String × String)
unfolding trim_start_matches split pairs_of
sas_token_pairs token = pairs_of (split is_ampersand (trim_start_matches is_question token))

credentials_parse :
    parse_aws_shared_credentials "[default]\naws_access_key_id = \"access\"\r\n# no\ntoken='t'"
    ≡ record { access_key_id = some "access"; secret_access_key = none; session_token = some "t" }
unfolding parse_aws_shared_credentials
credentials_parse = refl

token_parses : sas_token_pairs "?sv=2024&sig=a=b" ≡ ("sv", "2024") ∷ ("sig", "a=b") ∷ []
unfolding sas_token_pairs
token_parses = refl
