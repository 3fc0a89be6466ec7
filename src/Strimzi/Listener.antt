-- ===== src/Strimzi/Listener.antt =====
-- src/strimzi/kafka_cr.rs: the choice of a listener of the Kafka resource.
pub mod Order
pub mod Laws
use strimzi_backup_operator.Base.{
  ℕ, suc, String, ◌==◌, Bool, true, false, not, ◌&&◌, ◌||◌, ltb, Option, none, some, List, [], ◌∷◌,
  map, find, retain, and_then, map_some, is_some_and, unwrap_or, is_none, if◌then◌else◌,
}
use strimzi_backup_operator.Base.Int.{ℤ, pos}
use strimzi_backup_operator.Base.Text.{format, join, show}
use strimzi_backup_operator.Json.{Json, get, as_str, as_bool, as_i64}
use strimzi_backup_operator.Error.{Result, ok, err, invalid_config, no_compatible_listener}
use strimzi_backup_operator.Crd.Common.{AuthenticationType, tls, scram_sha512}

pub record SelectedListener : Type 0 where
  pub name : String
  pub port : ℤ
  pub tls : Bool

abbrev pub is_text : Option String → String → Bool
is_text o s = is_some_and o (λ t. t == s)

unfoldable pub listener_name : Json → Option String
unfolding get as_str
listener_name listener = and_then (get "name" listener) as_str

-- `authentication.type`
unfoldable pub listener_auth : Json → Option String
unfolding get as_str
listener_auth listener = and_then (and_then (get "authentication" listener) (get "type")) as_str

unfoldable pub auth_matches : Json → Option AuthenticationType → Bool
unfolding listener_auth
auth_matches listener none = is_none (listener_auth listener)
auth_matches listener (some tls) = is_text (listener_auth listener) "tls"
auth_matches listener (some scram_sha512) = is_text (listener_auth listener) "scram-sha-512"

unfoldable pub is_in_cluster : Json → Bool
unfolding get as_str
is_in_cluster listener = elim (and_then (get "type" listener) as_str) [
  | none ↦ true
  | some t ↦ t == "internal" || t == "cluster-ip"
]

unfoldable pub listener_tls : Json → Bool
unfolding get as_bool
listener_tls listener = unwrap_or (and_then (get "tls" listener) as_bool) false

unfoldable pub to_selected : Json → SelectedListener
unfolding listener_name listener_tls get as_i64
to_selected listener = record {
  name = unwrap_or (listener_name listener) "unnamed";
  port = unwrap_or (and_then (get "port" listener) as_i64) (pos 9092);
  tls = listener_tls listener;
}

unfoldable pub desired_auth_label : Option AuthenticationType → String
desired_auth_label none = "none"
desired_auth_label (some tls) = "tls"
desired_auth_label (some scram_sha512) = "scram-sha-512"

abbrev show_bool : Bool → String
show_bool b = if b then "true" else "false"

summarize_listener : Json → String
unfolding listener_auth listener_name listener_tls get as_i64 format show
summarize_listener l = format (
    unwrap_or (listener_name l) "unnamed"
    ∷ " (port "
    ∷ show (unwrap_or (and_then (get "port" l) as_i64) (pos 0))
    ∷ ", tls: "
    ∷ show_bool (listener_tls l)
    ∷ ", auth: "
    ∷ unwrap_or (listener_auth l) "none"
    ∷ ")"
    ∷ [])

unfoldable pub summarize_listeners : List Json → String
unfolding summarize_listener join
summarize_listeners listeners = join ", " (map summarize_listener listeners)

-- `enumerate`
unfoldable pub enumerate : ℕ → List Json → List (ℕ × Json)
enumerate i [] = []
enumerate i (l ∷ ls) = (i, l) ∷ enumerate (suc i) ls

-- `false < true`
abbrev pub before : Bool → Bool → Bool
before a b = not a && b

abbrev pub same : Bool → Bool → Bool
same a b = if a then b else not b

-- The order of the keys `(external, plaintext, idx)`.
unfoldable pub key_less : ℕ × Json → ℕ × Json → Bool
key_less (i, l) (j, k) =
    let external_l = not (is_in_cluster l) in
    let external_k = not (is_in_cluster k) in
    let plaintext_l = not (listener_tls l) in
    let plaintext_k = not (listener_tls k) in
    before external_l external_k
    || (same external_l external_k
        && (before plaintext_l plaintext_k || (same plaintext_l plaintext_k && ltb i j)))

-- `min_by_key`: the first of the least elements
unfoldable pub min_from : ℕ × Json → List (ℕ × Json) → ℕ × Json
min_from best [] = best
min_from best (x ∷ xs) = min_from (if key_less x best then x else best) xs

unfoldable pub min_by_key : List (ℕ × Json) → Option (ℕ × Json)
unfolding min_from
min_by_key [] = none
min_by_key (x ∷ xs) = some (min_from x xs)

-- The listeners that the desired authentication fits, with their places.
unfoldable pub compatible : List Json → Option AuthenticationType → List (ℕ × Json)
unfolding enumerate
compatible listeners desired = retain (λ p. auth_matches p.1 desired) (enumerate 0 listeners)

unfoldable pub select_listener :
    List Json → Option AuthenticationType → Option String → String → Result SelectedListener
unfolding compatible min_by_key
select_listener listeners desired (some override_name) cluster_name =
    elim (find (λ l. is_text (listener_name l) override_name) listeners) [
      | some listener ↦ ok (to_selected listener)
      | none ↦ err (
          invalid_config (
            format (
              "listener '"
              ∷ override_name
              ∷ "' from spec.strimziClusterRef.listener not found on Kafka cluster '"
              ∷ cluster_name
              ∷ "'; available listeners: "
              ∷ summarize_listeners listeners
              ∷ [])))
    ]
select_listener listeners desired none cluster_name =
    elim (min_by_key (compatible listeners desired)) [
      | some (_, listener) ↦ ok (to_selected listener)
      | none ↦ err (
          no_compatible_listener cluster_name (desired_auth_label desired)
            (summarize_listeners listeners))
    ]
