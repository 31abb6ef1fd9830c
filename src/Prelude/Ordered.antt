-- ===== src/Prelude/Ordered.antt =====
-- What ORDER BY and LIMIT promise: by a numeric key, the rows taken come before those left.
use Prim.Native.Nat.{ℕ, zero, suc, ◌≤◌, min}
use mathlib.Core.Path.{◌≡◌, refl, sym, subst}
use mathlib.Core.Logic.{inl, inr}
use mathlib.Core.Bool.{Bool, true, false}
use mathlib.Core.List.{List, [], ◌∷◌}
use native.Mathlib.Omega.{arith}
use native.Mathlib.Nat.{le_trans}
use langsmith_deployment_go.Prelude.Tests.{Bool-cases}
use langsmith_deployment_go.Prelude.Lists.{length, take, drop}
use langsmith_deployment_go.Prelude.Sorting.{insert_by, sort_by}
use langsmith_deployment_go.Prelude.Members.{IsIn, All, IsIn-All, All-IsIn, IsIn-insert_by}

module _ {A : Type 0} (key : A → ℕ) where
  abbrev pub IsOrdered : List A → Type 0
  IsOrdered [] = Unit
  IsOrdered (x ∷ xs) = All (λ y. key x ≤ key y) xs × IsOrdered xs

  pub take-le-drop :
      (n : ℕ) (xs : List A) (x y : A)
      → IsOrdered xs
      → IsIn x (take n xs)
      → IsIn y (drop n xs)
      → key x ≤ key y
  take-le-drop zero xs x y h m k = absurd m
  take-le-drop (suc n) [] x y h m k = absurd m
  take-le-drop (suc n) (z ∷ zs) x y h (inl e) k =
      subst (λ w. key w ≤ key y) (sym e) (IsIn-All (λ w. key z ≤ key w) y zs h.0 (drop-IsIn n zs k))
    where
      drop-IsIn : (m : ℕ) (ws : List A) → IsIn y (drop m ws) → IsIn y ws
      drop-IsIn zero ws k' = k'
      drop-IsIn (suc m) [] k' = k'
      drop-IsIn (suc m) (w ∷ ws) k' = inr (drop-IsIn m ws k')
  take-le-drop (suc n) (z ∷ zs) x y h (inr m) k = take-le-drop n zs x y h.1 m k

  module _ (before : A → A → Bool) (yes_le : (x y : A) → before x y ≡ true → key x ≤ key y)
      (no_le : (x y : A) → before x y ≡ false → key y ≤ key x) where
    insert_by-IsOrdered : (x : A) (xs : List A) → IsOrdered xs → IsOrdered (insert_by before x xs)
    insert_by-IsOrdered x [] h = (tt, tt)
    insert_by-IsOrdered x (y ∷ ys) h = elim (Bool-cases (before x y)) [
      | inl b ↦ rw b (
        (
          yes_le x y b,
          All-IsIn (λ w. key x ≤ key w) ys
              (λ w m. le_trans (yes_le x y b) (IsIn-All (λ v. key y ≤ key v) w ys h.0 m)),
        ),
        h,
      )
      | inr b ↦ rw b (
        All-IsIn (λ w. key y ≤ key w) (insert_by before x ys)
            (λ w m. elim (IsIn-insert_by before w x ys m) [
              | inl e ↦ subst (λ v. key y ≤ key v) (sym e) (no_le x y b)
              | inr k ↦ IsIn-All (λ v. key y ≤ key v) w ys h.0 k
            ]),
        insert_by-IsOrdered x ys h.1,
      )
    ]

    pub sort_by-IsOrdered : (xs : List A) → IsOrdered (sort_by before xs)
    sort_by-IsOrdered [] = tt
    sort_by-IsOrdered (x ∷ xs) = insert_by-IsOrdered x (sort_by before xs) (sort_by-IsOrdered xs)

module _ {A : Type 0} (before : A → A → Bool) where
  length-insert_by : (x : A) (xs : List A) → length (insert_by before x xs) ≡ suc (length xs)
  length-insert_by x [] = refl
  length-insert_by x (y ∷ ys) = ground (arith, length-insert_by x ys)

  pub length-sort_by : (xs : List A) → length (sort_by before xs) ≡ length xs
  length-sort_by [] = refl
  length-sort_by (x ∷ xs) = omega (arith, length-insert_by x (sort_by before xs), length-sort_by xs)

pub length-take {ℓ} : {A : Type ℓ} (n : ℕ) (xs : List A) → length (take n xs) ≡ min n (length xs)
length-take zero xs = omega arith
length-take (suc n) [] = omega arith
length-take (suc n) (x ∷ xs) = omega (arith, length-take n xs)
