-- ===== src/Strimzi/Listener/Laws.antt =====
-- `select_listener` of src/strimzi/kafka_cr.rs picks a best compatible listener.
use strimzi_backup_operator.Base.{
  ℕ, suc, ◌+◌, String, ◌&&◌, ◌≡◌, refl, sym, ap, ◌∙◌, inl, inr, true, false, Option, none, some,
  List, [], ◌∷◌, arith, any, retain, get_elem?, All, All-retain, Bool-cases, Option-cases,
  if◌then◌else◌, is_some, subst,
}
use mathlib.Core.Option.{some-injective}
use strimzi_backup_operator.Json.{Json}
use strimzi_backup_operator.Error.{Result, ok, err, panic, no_compatible_listener}
use strimzi_backup_operator.Crd.Common.{AuthenticationType}
use strimzi_backup_operator.Strimzi.Listener.Order.{is_better, is_better-key_less}
use strimzi_backup_operator.Strimzi.Listener.{
  SelectedListener, auth_matches, to_selected, enumerate, key_less, min_from, min_by_key,
  compatible, select_listener, desired_auth_label, summarize_listeners,
}

key_less_trans :
    (x y z : ℕ × Json) → key_less x y ≡ true → key_less y z ≡ true → key_less x z ≡ true
unfolding key_less
key_less_trans (i, l) (j, k) (n, m) p q = ground arith

not_less_trans :
    (x y z : ℕ × Json) → key_less x y ≡ false → key_less y z ≡ false → key_less x z ≡ false
unfolding key_less
not_less_trans (i, l) (j, k) (n, m) p q = ground arith

not_less_self : (x : ℕ × Json) → key_less x x ≡ false
unfolding key_less
not_less_self (i, l) = ground arith

-- What is not above the better of two is above neither.
least_of_better :
    (m best x : ℕ × Json) (xs : List (ℕ × Json))
    → any (λ q. key_less q m) ((if key_less x best then x else best) ∷ xs) ≡ false
    → any (λ q. key_less q m) (best ∷ x ∷ xs) ≡ false
least_of_better m best x xs h = ground (arith, key_less_trans x best m, not_less_trans x best m)

-- Nothing is less than the minimum.
min_from-least :
    (best : ℕ × Json) (xs : List (ℕ × Json))
    → any (λ q. key_less q (min_from best xs)) (best ∷ xs) ≡ false
unfolding min_from
min_from-least best [] = rw (not_less_self best)
min_from-least best (x ∷ xs) =
    let better = if key_less x best then x else best in
    least_of_better (min_from better xs) best x xs (min_from-least better xs)

min_from-All :
    (P : ℕ × Json → Type 0) (best : ℕ × Json) (xs : List (ℕ × Json))
    → P best
    → All P xs
    → P (min_from best xs)
unfolding min_from
min_from-All P best [] h hs = h
min_from-All P best (x ∷ xs) h (hx, hs) = elim (Bool-cases (key_less x best)) [
  | inl e ↦ rw e (min_from-All P x xs hx hs)
  | inr e ↦ rw e (min_from-All P best xs h hs)
]

enumerate-All :
    (n : ℕ) (xs : List Json) (f : ℕ → Option Json)
    → ((i : ℕ) → f (n + i) ≡ get_elem? xs i)
    → All (λ p. f p.0 ≡ some p.1) (enumerate n xs)
unfolding enumerate
enumerate-All n [] f h = tt
enumerate-All n (x ∷ xs) f h =
    (ap f (omega arith) ∙ h 0, enumerate-All (suc n) xs f (λ i. ap f (omega arith) ∙ h (suc i)))

-- Compatible listeners stand in the list at their places and fit the authentication.
compatible-All :
    (listeners : List Json) (desired : Option AuthenticationType)
    → All
        (λ p. (get_elem? listeners p.0 ≡ some p.1) × (auth_matches p.1 desired ≡ true))
        (compatible listeners desired)
unfolding compatible
compatible-All listeners desired =
    All-retain (λ p. get_elem? listeners p.0 ≡ some p.1) (λ p. auth_matches p.1 desired)
      (enumerate 0 listeners)
      (enumerate-All 0 listeners (get_elem? listeners)
        (λ i. ap (get_elem? listeners) (omega arith)))

-- A listener that may be chosen: it stands at place `i`, fits the authentication, and no listener that
-- fits is better.
pub record IsBest (listeners : List Json) (desired : Option AuthenticationType) (i : ℕ) (l : Json)
    : Type 0 where
  pub at_place : get_elem? listeners i ≡ some l
  pub fits : auth_matches l desired ≡ true
  pub least :
      any (λ q. auth_matches q.1 desired && is_better q (i, l)) (enumerate 0 listeners) ≡ false

-- What no compatible listener is, none that fits is.
least-enumerate :
    (p : ℕ × Json) (desired : Option AuthenticationType) (qs : List (ℕ × Json))
    → any (λ q. key_less q p) (retain (λ q. auth_matches q.1 desired) qs) ≡ false
    → any (λ q. auth_matches q.1 desired && is_better q p) qs ≡ false
least-enumerate p desired [] h = refl
least-enumerate p desired (q ∷ qs) h =
    ground (arith, h, is_better-key_less q p, least-enumerate p desired qs)

abbrev Fits : List Json → Option AuthenticationType → ℕ × Json → Type 0
Fits listeners desired p = (get_elem? listeners p.0 ≡ some p.1) × (auth_matches p.1 desired ≡ true)

min_by_key-IsBest :
    (listeners : List Json) (desired : Option AuthenticationType) (cs : List (ℕ × Json)) (i : ℕ)
    (l : Json)
    → compatible listeners desired ≡ cs
    → min_by_key cs ≡ some (i, l)
    → IsBest listeners desired i l
unfolding min_by_key
min_by_key-IsBest listeners desired [] i l e h = cc
min_by_key-IsBest listeners desired (c ∷ cs) i l e h =
    let chosen : min_from c cs ≡ (i, l) = some-injective _ _ h in
    let every : All (Fits listeners desired) (c ∷ cs) =
      subst (All (Fits listeners desired)) e (compatible-All listeners desired) in
    let fit =
      subst (Fits listeners desired) chosen
        (min_from-All (Fits listeners desired) c cs every.0 every.1) in
    record {
      at_place = fit.0;
      fits = fit.1;
      least =
          least-enumerate (i, l) desired (enumerate 0 listeners)
            (unfold compatible in
              subst (λ q. any (λ p. key_less p q) (compatible listeners desired) ≡ false) chosen
                (subst (λ ps. any (λ p. key_less p (min_from c cs)) ps ≡ false) (sym e)
                  (min_from-least c cs)));
    }

any-enumerate :
    (n : ℕ) (ls : List Json) (desired : Option AuthenticationType)
    → is_some (min_by_key (retain (λ p. auth_matches p.1 desired) (enumerate n ls)))
      ≡ any (λ l. auth_matches l desired) ls
unfolding enumerate min_by_key
any-enumerate n [] desired = refl
any-enumerate n (l ∷ ls) desired = elim (Bool-cases (auth_matches l desired)) [
  | inl e ↦ rw e
  | inr e ↦ rw e (any-enumerate (suc n) ls desired)
]

-- The result of the automatic choice: the selection of a best listener, or the error that names
-- what was desired if no listener fits.
abbrev pub Selects :
    List Json → Option AuthenticationType → String → Result SelectedListener → Type 0
Selects listeners desired cluster (ok s) =
    (i : ℕ) × (l : Json) × IsBest listeners desired i l × (s ≡ to_selected l)
Selects listeners desired cluster (err e) =
    (any (λ l. auth_matches l desired) listeners ≡ false)
    × (e
        ≡ no_compatible_listener cluster (desired_auth_label desired)
            (summarize_listeners listeners))
Selects listeners desired cluster panic = ⊥

-- Without an override, a listener is selected exactly if one fits the desired authentication, and it
-- is a best one: in-cluster before external, then TLS before plaintext, then the order of the
-- specification; otherwise the error lists the listeners.
pub select_listener-Selects :
    (listeners : List Json) (desired : Option AuthenticationType) (cluster : String)
    → Selects listeners desired cluster (select_listener listeners desired none cluster)
unfolding select_listener
select_listener-Selects listeners desired cluster =
    elim (Option-cases (min_by_key (compatible listeners desired))) [
      | inl e ↦
          rw (e, Selects)
            (sym (any-enumerate 0 listeners desired) ∙ unfold compatible in rw e, refl)
      | inr ((i, l), e) ↦
          rw (e, Selects)
            (
              i,
              l,
              min_by_key-IsBest listeners desired (compatible listeners desired) i l refl e,
              refl,
            )
    ]
