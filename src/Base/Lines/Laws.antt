-- ===== src/Base/Lines/Laws.antt =====
-- `split` and `split_once` on a text that was joined.
use Prim.Native.Char.{Char}
use Prim.Native.String.{String, [], ◌∷◌, ◌++◌}
use text.Mathlib.TextLemmas.{cons-append, nil-append}
use mathlib.Core.Path.{◌≡◌, refl, ◌∙◌, ap}
use mathlib.Core.Bool.{Bool, true, not, ◌&&◌}
use mathlib.Core.Option.{some}
use mathlib.Core.List.{List}
use native.Mathlib.Omega.{arith}
use strimzi_backup_operator.Base.Lines.{split}
use strimzi_backup_operator.Base.Text.{split_once}

-- No character of the text passes.
abbrev pub lacks : (Char → Bool) → String → Bool
lacks p [] = true
lacks p (c ∷ s) = not (p c) && lacks p s

-- A text of one character before another.
one-append : (c : Char) (t : String) → (c ∷ []) ++ t ≡ c ∷ t
one-append c t = cons-append c [] t ∙ ap (λ s. c ∷ s) (nil-append t)

module _ (p : Char → Bool) (c : Char) (h : p c ≡ true) where
  split-append : (s t : String) → lacks p s ≡ true → split p (s ++ (c ∷ t)) ≡ List.◌∷◌ s (split p t)
  unfolding split
  split-append [] t k = ap (split p) (nil-append (c ∷ t)) ∙ ground (arith, h)
  split-append (d ∷ s) t k =
      ap (split p) (cons-append d s (c ∷ t)) ∙ ground (arith, split-append s t)

  split_once-append : (s t : String) → lacks p s ≡ true → split_once p (s ++ (c ∷ t)) ≡ some (s, t)
  unfolding split_once
  split_once-append [] t k = ap (split_once p) (nil-append (c ∷ t)) ∙ ground (arith, h)
  split_once-append (d ∷ s) t k =
      ap (split_once p) (cons-append d s (c ∷ t)) ∙ ground (arith, split_once-append s t)

pub split_whole : (p : Char → Bool) (s : String) → lacks p s ≡ true → split p s ≡ List.◌∷◌ s List.[]
unfolding split
split_whole p [] k = refl
split_whole p (d ∷ s) k = ground (arith, split_whole p s)

-- The same with a separator that is a text of one character.
module _ (p : Char → Bool) (c : Char) (h : p c ≡ true) (s t : String) (k : lacks p s ≡ true) where
  pub split-separator : split p (s ++ ((c ∷ []) ++ t)) ≡ List.◌∷◌ s (split p t)
  split-separator = ap (λ u. split p (s ++ u)) (one-append c t) ∙ split-append p c h s t k

  pub split_once-separator : split_once p (s ++ ((c ∷ []) ++ t)) ≡ some (s, t)
  split_once-separator =
      ap (λ u. split_once p (s ++ u)) (one-append c t) ∙ split_once-append p c h s t k
