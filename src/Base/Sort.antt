-- ===== src/Base/Sort.antt =====
-- Python's `sorted` for a total comparison, and the order of texts.
use mathlib.Core.Bool.{Bool, true, false}
use mathlib.Core.List.{List, [], ◌∷◌}
use eval_hive.Base.Tests.{ltb, if◌then◌else◌}
use eval_hive.Base.Equality.{Text, nat_eq, ◌==◌}

module _ {ℓ} {A : Type ℓ} (le : A → A → Bool) where
  abbrev pub insert_sorted : A → List A → List A
  insert_sorted x [] = x ∷ []
  insert_sorted x (y ∷ ys) = if le x y then x ∷ (y ∷ ys) else y ∷ insert_sorted x ys

  abbrev pub sorted : List A → List A
  sorted [] = []
  sorted (x ∷ xs) = insert_sorted x (sorted xs)

unfoldable pub text_le : Text → Text → Bool
text_le [] t = true
text_le (x ∷ xs) [] = false
text_le (x ∷ xs) (y ∷ ys) = if ltb x y then true else if x == y then text_le xs ys else false
