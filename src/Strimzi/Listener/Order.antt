-- ===== src/Strimzi/Listener/Order.antt =====
-- The order in which `select_listener` of src/strimzi/kafka_cr.rs prefers listeners, by ranks.
use strimzi_backup_operator.Base.{
  and_then, is_some_and, ◌==◌, eq_iff, ℕ, ◌+◌, Bool, ltb, eqb, ◌&&◌, ◌||◌, ◌≡◌, refl, inl, inr,
  true, none, some, [], ◌∷◌, arith, any, Option-cases, if◌then◌else◌,
}
use strimzi_backup_operator.Json.{Json, get, as_str, as_bool}
use strimzi_backup_operator.Strimzi.Listener.{is_in_cluster, listener_tls, key_less}

-- A listener inside of the cluster, which one is without a type, and one with TLS.
abbrev pub is_internal : Json → Bool
is_internal l = elim (and_then (get "type" l) as_str) [
  | none ↦ true
  | some t ↦ any (λ x. x == t) ("internal" ∷ "cluster-ip" ∷ [])
]

abbrev pub is_encrypted : Json → Bool
is_encrypted l = is_some_and (and_then (get "tls" l) as_bool) (λ b. b)

is_in_cluster-is_internal : (l : Json) → is_in_cluster l ≡ is_internal l
unfolding is_in_cluster get as_str
is_in_cluster-is_internal l = elim (Option-cases (and_then (get "type" l) as_str)) [
  | inl e ↦ rw (e, is_in_cluster, is_internal) refl
  | inr (t, e) ↦
      rw (e, is_in_cluster, is_internal)
        (ground (
          arith,
          eq_iff t "internal",
          eq_iff t "cluster-ip",
          eq_iff "internal" t,
          eq_iff "cluster-ip" t,
        ))
]

listener_tls-is_encrypted : (l : Json) → listener_tls l ≡ is_encrypted l
unfolding listener_tls get as_bool
listener_tls-is_encrypted l = elim (Option-cases (and_then (get "tls" l) as_bool)) [
  | inl e ↦ rw (e, listener_tls, is_encrypted) refl
  | inr (b, e) ↦ rw (e, listener_tls, is_encrypted) (ground arith)
]

-- How good a listener is, the best one being 0: in-cluster ones before external ones, and among these
-- TLS before plaintext.
abbrev pub rank : Json → ℕ
rank l = (if is_internal l then 0 else 2) + (if is_encrypted l then 0 else 1)

-- The listener at the first place is better than that at the second, or as good and earlier.
abbrev pub is_better : ℕ × Json → ℕ × Json → Bool
is_better (i, l) (j, k) = ltb (rank l) (rank k) || (eqb (rank l) (rank k) && ltb i j)

pub is_better-key_less : (p q : ℕ × Json) → key_less p q ≡ is_better p q
unfolding key_less
is_better-key_less (i, l) (j, k) = ground (
  arith,
  is_in_cluster-is_internal l,
  is_in_cluster-is_internal k,
  listener_tls-is_encrypted l,
  listener_tls-is_encrypted k,
)
