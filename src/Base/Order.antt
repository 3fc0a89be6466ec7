-- ===== src/Base/Order.antt =====
-- The standard library's order of texts, which is that of their bytes and so of their characters, and
-- `sort` by it.
use Prim.Native.Char.{code}
use Prim.Native.String.{String, [], ◌∷◌}
use mathlib.Core.Path.{◌≡◌, refl}
use mathlib.Core.Bool.{Bool, true, false, ◌&&◌, ◌||◌}
use mathlib.Core.List.{List}
use native.Mathlib.Omega.{arith}
use strimzi_backup_operator.Base.Tests.{ltb, eqb, if◌then◌else◌}
use strimzi_backup_operator.Base.Lists.{any}

unfoldable pub text_less : String → String → Bool
text_less [] [] = false
text_less [] (d ∷ t) = true
text_less (c ∷ s) [] = false
text_less (c ∷ s) (d ∷ t) = ltb (code c) (code d) || (eqb (code c) (code d) && text_less s t)

-- Equal texts cannot be told apart, so that the order of insertion does not matter.
insert_text : String → List String → List String
unfolding text_less
insert_text x List.[] = List.◌∷◌ x List.[]
insert_text x (List.◌∷◌ y ys) =
    if text_less y x then List.◌∷◌ y (insert_text x ys) else List.◌∷◌ x (List.◌∷◌ y ys)

unfoldable pub sort_texts : List String → List String
unfolding insert_text
sort_texts List.[] = List.[]
sort_texts (List.◌∷◌ x xs) = insert_text x (sort_texts xs)

any-insert_text :
    (p : String → Bool) (x : String) (ys : List String)
    → any p (insert_text x ys) ≡ (p x || any p ys)
unfolding insert_text
any-insert_text p x List.[] = refl
any-insert_text p x (List.◌∷◌ y ys) = ground (arith, any-insert_text p x ys)

-- Sorting keeps what is in the list.
pub any-sort_texts : (p : String → Bool) (xs : List String) → any p (sort_texts xs) ≡ any p xs
unfolding sort_texts
any-sort_texts p List.[] = refl
any-sort_texts p (List.◌∷◌ x xs) =
    ground (arith, any-insert_text p x (sort_texts xs), any-sort_texts p xs)
