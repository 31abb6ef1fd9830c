-- ===== src/Prelude/Sorting.antt =====
-- ORDER BY: insertion sort by a Boolean test `before`, which is true of equal rows.
use Prim.Native.String.{String, compare}
use langsmith_deployment_go.Prelude.Tests.{if◌then◌else◌}
use text.Mathlib.Text.{is_lt}
use mathlib.Core.Bool.{Bool}
use mathlib.Core.List.{List, [], ◌∷◌}

abbrev pub str_lt : String → String → Bool
str_lt s t = is_lt (compare s t)

module _ {ℓ} {A : Type ℓ} (before : A → A → Bool) where
  abbrev pub insert_by : A → List A → List A
  insert_by x [] = x ∷ []
  insert_by x (y ∷ ys) = let rest = insert_by x ys in if before x y then x ∷ y ∷ ys else y ∷ rest

  abbrev pub sort_by : List A → List A
  sort_by [] = []
  sort_by (x ∷ xs) = insert_by x (sort_by xs)
