-- ===== src/Base/Lists.antt =====
-- Lists measured by native numbers, and the iterator methods that the code uses.
use Prim.Native.Nat.{ℕ, zero, suc, ◌+◌, ◌≤◌}
use mathlib.Core.Path.{◌≡◌, refl}
use mathlib.Core.Bool.{Bool, true, false, ◌&&◌, ◌||◌}
use mathlib.Core.List.{List, [], ◌∷◌, ◌++◌}
use mathlib.Core.Option.{Option, none, some}
use native.Mathlib.Omega.{arith}
use mathlib.Core.Logic.{inl, inr}
use strimzi_backup_operator.Base.Tests.{if◌then◌else◌, Bool-cases}

module _ {ℓ} {A : Type ℓ} where
  abbrev pub length : List A → ℕ
  length [] = 0
  length (x ∷ xs) = suc (length xs)

  abbrev pub get_elem? : List A → ℕ → Option A
  get_elem? [] i = none
  get_elem? (x ∷ xs) zero = some x
  get_elem? (x ∷ xs) (suc i) = get_elem? xs i

  abbrev pub drop : ℕ → List A → List A
  drop zero xs = xs
  drop (suc n) [] = []
  drop (suc n) (x ∷ xs) = drop n xs

  abbrev pub take : ℕ → List A → List A
  take zero xs = []
  take (suc n) [] = []
  take (suc n) (x ∷ xs) = x ∷ take n xs

  abbrev pub is_empty : List A → Bool
  is_empty [] = true
  is_empty (x ∷ xs) = false

  -- `iter().any(p)`
  abbrev pub any : (A → Bool) → List A → Bool
  any p [] = false
  any p (x ∷ xs) = p x || any p xs

  -- `iter().all(p)`
  abbrev pub all : (A → Bool) → List A → Bool
  all p [] = true
  all p (x ∷ xs) = p x && all p xs

  -- `iter().find(p)`: the first element that passes
  abbrev pub find : (A → Bool) → List A → Option A
  find p [] = none
  find p (x ∷ xs) = if p x then some x else find p xs

  -- `retain(p)` and `iter().filter(p)`
  abbrev pub retain : (A → Bool) → List A → List A
  retain p [] = []
  retain p (x ∷ xs) = if p x then x ∷ retain p xs else retain p xs

  -- What holds of every element, by recursion.
  abbrev pub All {κ} : (A → Type κ) → List A → Type κ
  All P [] = Unit
  All P (x ∷ xs) = P x × All P xs

module _ {ℓ} {A : Type ℓ} where
  pub length-append : (xs ys : List A) → length (xs ++ ys) ≡ length xs + length ys
  length-append [] ys = omega arith
  length-append (x ∷ xs) ys = omega (arith, length-append xs ys)

  pub any-append : (p : A → Bool) (xs ys : List A) → any p (xs ++ ys) ≡ (any p xs || any p ys)
  any-append p [] ys = refl
  any-append p (x ∷ xs) ys = ground (arith, any-append p xs ys)

  pub length-retain-le : (p : A → Bool) (xs : List A) → length (retain p xs) ≤ length xs
  length-retain-le p [] = omega arith
  length-retain-le p (x ∷ xs) = ground (arith, length-retain-le p xs)

  -- `find` succeeds exactly if `any` does.
  pub find-eq-none : (p : A → Bool) (xs : List A) → find p xs ≡ none → any p xs ≡ false
  find-eq-none p [] h = refl
  find-eq-none p (x ∷ xs) h = ground (arith, find-eq-none p xs)

  pub find-eq_none_of_any : (p : A → Bool) (xs : List A) → any p xs ≡ false → find p xs ≡ none
  find-eq_none_of_any p [] h = refl
  find-eq_none_of_any p (x ∷ xs) h = ground (arith, find-eq_none_of_any p xs)

  pub find-eq-some :
      (p : A → Bool) (xs : List A) (y : A) → find p xs ≡ some y → (p y ≡ true) × (any p xs ≡ true)
  find-eq-some p (x ∷ xs) y h = ground (arith, find-eq-some p xs y)
  find-eq-some p [] y h = ground arith

  pub any-eq-true : (p : A → Bool) (xs : List A) → any p xs ≡ true → (y : A) × (find p xs ≡ some y)
  any-eq-true p [] h = ground arith
  any-eq-true p (x ∷ xs) h = elim (Bool-cases (p x)) [
    | inl e ↦ (x, rw e)
    | inr e ↦ let (y, found) = any-eq-true p xs (ground arith) in (y, rw e found)
  ]

  pub any-eq_false_of_count :
      (p : A → Bool) (xs : List A) → length (retain p xs) ≤ 0 → any p xs ≡ false
  any-eq_false_of_count p [] h = refl
  any-eq_false_of_count p (x ∷ xs) h = ground (arith, any-eq_false_of_count p xs)

  pub count-eq_zero_of_any :
      (p : A → Bool) (xs : List A) → any p xs ≡ false → length (retain p xs) ≡ 0
  count-eq_zero_of_any p [] h = refl
  count-eq_zero_of_any p (x ∷ xs) h = ground (arith, count-eq_zero_of_any p xs)

  pub count-concat :
      (p : A → Bool) (xs : List A) (x : A)
      → length (retain p (xs ++ x ∷ [])) ≡ length (retain p xs) + (if p x then 1 else 0)
  count-concat p [] x = ground arith
  count-concat p (y ∷ xs) x = ground (arith, count-concat p xs x)

  pub find-concat :
      (p : A → Bool) (xs : List A) (x : A)
      → find p (xs ++ x ∷ [])
        ≡ elim (find p xs) [ some y ↦ some y | none ↦ if p x then some x else none ]
  find-concat p [] x = refl
  find-concat p (y ∷ xs) x = ground (arith, find-concat p xs x)

  pub All-retain {κ} :
      (P : A → Type κ) (q : A → Bool) (xs : List A)
      → All P xs
      → All (λ x. P x × (q x ≡ true)) (retain q xs)
  All-retain P q [] h = tt
  All-retain P q (x ∷ xs) (h, hs) = elim (Bool-cases (q x)) [
    | inl e ↦ rw e ((h, e), All-retain P q xs hs)
    | inr e ↦ rw e (All-retain P q xs hs)
  ]
