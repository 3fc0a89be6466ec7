-- ===== src/Strimzi/Tls.antt =====
-- src/strimzi/tls.rs: the cluster's and the clients' CA certificates.
use strimzi_backup_operator.Base.{String, Bool, Option, none, some, [], ◌∷◌, is_some}
use strimzi_backup_operator.Base.Text.{format}
use strimzi_backup_operator.Error.{Result, ok, err, panic, ◌>>=◌, secret_not_found}
use strimzi_backup_operator.Crd.Common.{SecretKeyRef}
use strimzi_backup_operator.Strimzi.Reads.{Reads, found, failed, or_missing, extract_secret_string}

pub record ResolvedTlsCerts : Type 0 where
  pub cluster_ca_cert : String
  pub has_client_ca : Bool
  pub client_ca_cert : Option String

abbrev pub default_ca_key : String
default_ca_key = "ca.crt"

unfoldable pub cluster_ca_secret_name : String → String
unfolding format
cluster_ca_secret_name cluster_name = format (cluster_name ∷ "-cluster-ca-cert" ∷ [])

unfoldable pub clients_ca_secret_name : String → String
unfolding format
clients_ca_secret_name cluster_name = format (cluster_name ∷ "-clients-ca-cert" ∷ [])

unfoldable pub ca_secret_ref : String → Option SecretKeyRef → String × String
unfolding cluster_ca_secret_name
ca_secret_ref cluster_name (some r) = (r.name, r.key)
ca_secret_ref cluster_name none = (cluster_ca_secret_name cluster_name, default_ca_key)

-- `.ok()`
abbrev pub to_option {ℓ} : {A : Type ℓ} → Result A → Option A
to_option (ok a) = some a
to_option (err e) = none
to_option panic = none

-- The clients' CA, which may be missing; it is not looked up under an override.
client_ca : Reads → String → Option SecretKeyRef → String → Option String
unfolding clients_ca_secret_name extract_secret_string
client_ca reads cluster_name (some _) namespace = none
client_ca reads cluster_name none namespace =
    let client_ca_name = clients_ca_secret_name cluster_name in
    elim (reads.secret namespace client_ca_name) [
      | found client_secret ↦
          to_option (extract_secret_string client_secret default_ca_key client_ca_name)
      | failed _ ↦ none
    ]

unfoldable pub resolve_cluster_ca :
    Reads → String → Option SecretKeyRef → String → Result ResolvedTlsCerts
unfolding ca_secret_ref or_missing extract_secret_string client_ca
resolve_cluster_ca reads cluster_name ca_override namespace = do
  let secret_name = (ca_secret_ref cluster_name ca_override).0
  let ca_key = (ca_secret_ref cluster_name ca_override).1
  ca_secret ←
      or_missing (reads.secret namespace secret_name) (secret_not_found secret_name namespace)
  cluster_ca_cert ← extract_secret_string ca_secret ca_key secret_name
  let client_ca_cert = client_ca reads cluster_name ca_override namespace
  ok (record {
    cluster_ca_cert = cluster_ca_cert;
    has_client_ca = is_some client_ca_cert;
    client_ca_cert = client_ca_cert;
  })
