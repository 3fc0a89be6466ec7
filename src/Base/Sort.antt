-- ===== src/Base/Sort.antt =====
-- `sort_by_key(|x| Reverse(key(x)))`, the standard library's stable sort by a descending key.
use Prim.Native.Nat.{◌≤◌}
use mathlib.Core.Path.{◌≡◌, refl, ◌∙◌}
use mathlib.Core.Bool.{Bool, true, false, ◌||◌}
use mathlib.Core.List.{List, [], ◌∷◌, Perm}
use mathlib.Core.List.Perm
use native.Mathlib.Omega.{arith}
use strimzi_backup_operator.Base.Tests.{if◌then◌else◌, Bool-cases}
use strimzi_backup_operator.Base.Int.{ℤ, ltb_ℤ, ◌≤ℤ◌}
use strimzi_backup_operator.Base.Lists.{any, find, retain, All, length, any-eq_false_of_count}
use mathlib.Core.Logic.{inl, inr}

module _ {ℓ} {A : Type ℓ} (key : A → ℤ) where
  unfoldable pub insert_desc : A → List A → List A
  insert_desc x [] = x ∷ []
  insert_desc x (y ∷ ys) = if ltb_ℤ (key x) (key y) then y ∷ insert_desc x ys else x ∷ y ∷ ys

  unfoldable pub sort_desc : List A → List A
  unfolding insert_desc
  sort_desc [] = []
  sort_desc (x ∷ xs) = insert_desc x (sort_desc xs)

  abbrev pub IsDesc : List A → Type 0
  IsDesc [] = Unit
  IsDesc (x ∷ xs) = All (λ y. key y ≤ℤ key x) xs × IsDesc xs

  All-insert_desc :
      (x b : A) (ys : List A)
      → key x ≤ℤ key b
      → All (λ y. key y ≤ℤ key b) ys
      → All (λ y. key y ≤ℤ key b) (insert_desc x ys)
  unfolding insert_desc
  All-insert_desc x b [] h k = (h, tt)
  All-insert_desc x b (y ∷ ys) h (k, ks) = elim (Bool-cases (ltb_ℤ (key x) (key y))) [
    | inl e ↦ rw e (k, All-insert_desc x b ys h ks)
    | inr e ↦ rw e (h, (k, ks))
  ]

  All-trans :
      (x y : A) (ys : List A)
      → key y ≤ℤ key x
      → All (λ z. key z ≤ℤ key y) ys
      → All (λ z. key z ≤ℤ key x) ys
  All-trans x y [] h k = tt
  All-trans x y (z ∷ ys) h (k, ks) = (omega arith, All-trans x y ys h ks)

  insert_desc-IsDesc : (x : A) (ys : List A) → IsDesc ys → IsDesc (insert_desc x ys)
  unfolding insert_desc
  insert_desc-IsDesc x [] h = (tt, tt)
  insert_desc-IsDesc x (y ∷ ys) (k, h) = elim (Bool-cases (ltb_ℤ (key x) (key y))) [
    | inl e ↦ rw e (All-insert_desc x y ys (ground arith) k, insert_desc-IsDesc x ys h)
    | inr e ↦
        let below : key y ≤ℤ key x = ground arith in
        rw e ((below, All-trans x y ys below k), (k, h))
  ]

  -- The result is in descending order.
  pub sort_desc-IsDesc : (xs : List A) → IsDesc (sort_desc xs)
  unfolding sort_desc
  sort_desc-IsDesc [] = tt
  sort_desc-IsDesc (x ∷ xs) = insert_desc-IsDesc x (sort_desc xs) (sort_desc-IsDesc xs)

  insert_desc-perm : (x : A) (ys : List A) → Perm (insert_desc x ys) (x ∷ ys)
  unfolding insert_desc
  insert_desc-perm x [] = Perm.refl (x ∷ [])
  insert_desc-perm x (y ∷ ys) = elim (Bool-cases (ltb_ℤ (key x) (key y))) [
    | inl e ↦ rw e (Perm.trans (Perm.cons y (insert_desc-perm x ys)) (Perm.swap x y ys))
    | inr e ↦ rw e (Perm.refl (x ∷ y ∷ ys))
  ]

  -- The result has the same elements, as often.
  pub sort_desc-perm : (xs : List A) → Perm (sort_desc xs) xs
  unfolding sort_desc
  sort_desc-perm [] = Perm.refl []
  sort_desc-perm (x ∷ xs) =
      Perm.trans (insert_desc-perm x (sort_desc xs)) (Perm.cons x (sort_desc-perm xs))

  any-insert_desc :
      (p : A → Bool) (x : A) (ys : List A) → any p (insert_desc x ys) ≡ (p x || any p ys)
  unfolding insert_desc
  any-insert_desc p x [] = refl
  any-insert_desc p x (y ∷ ys) = ground (arith, any-insert_desc p x ys)

  pub any-sort_desc : (p : A → Bool) (xs : List A) → any p (sort_desc xs) ≡ any p xs
  unfolding sort_desc
  any-sort_desc p [] = refl
  any-sort_desc p (x ∷ xs) = ground (arith, any-insert_desc p x (sort_desc xs), any-sort_desc p xs)

  count-insert_desc :
      (p : A → Bool) (x : A) (ys : List A)
      → length (retain p (insert_desc x ys)) ≡ length (retain p (x ∷ ys))
  unfolding insert_desc
  count-insert_desc p x [] = refl
  count-insert_desc p x (y ∷ ys) = ground (arith, count-insert_desc p x ys)

  -- As many elements pass a test before and after.
  pub count-sort_desc :
      (p : A → Bool) (xs : List A) → length (retain p (sort_desc xs)) ≡ length (retain p xs)
  unfolding sort_desc
  count-sort_desc p [] = refl
  count-sort_desc p (x ∷ xs) =
      ground (arith, count-insert_desc p x (sort_desc xs), count-sort_desc p xs)

  find-insert_desc :
      (p : A → Bool) (x : A) (ys : List A)
      → (p x ≡ true → any p ys ≡ false)
      → find p (insert_desc x ys) ≡ find p (x ∷ ys)
  unfolding insert_desc
  find-insert_desc p x [] h = refl
  find-insert_desc p x (y ∷ ys) h = ground (arith, h, find-insert_desc p x ys)

  -- An element that is alone in passing a test is found as before.
  pub find-sort_desc :
      (p : A → Bool) (xs : List A) → length (retain p xs) ≤ 1 → find p (sort_desc xs) ≡ find p xs
  unfolding sort_desc
  find-sort_desc p [] h = refl
  find-sort_desc p (x ∷ xs) h =
      find-insert_desc p x (sort_desc xs)
        (λ e. any-sort_desc p xs ∙ any-eq_false_of_count p xs (ground arith))
      ∙ ground (arith, find-sort_desc p xs (ground (arith)))
