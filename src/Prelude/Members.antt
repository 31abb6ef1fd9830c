-- ===== src/Prelude/Members.antt =====
-- Membership in the lists that WHERE, ORDER BY and LIMIT make.
use Prim.Native.Nat.{ℕ, zero, suc}
use mathlib.Core.Path.{◌≡◌, refl, sym, subst}
use mathlib.Core.Logic.{◌⊎◌, inl, inr}
use mathlib.Core.Bool.{Bool, true, false}
use mathlib.Core.List.{List, [], ◌∷◌}
use native.Mathlib.Omega.{arith}
use langsmith_deployment_go.Prelude.Tests.{if◌then◌else◌, Bool-cases}
use langsmith_deployment_go.Prelude.Lists.{keep, take, drop, any}
use langsmith_deployment_go.Prelude.Sorting.{insert_by, sort_by}

-- The rows of a list, by recursion: tactics take it apart. Rows are small.
abbrev pub IsIn : {A : Type 0} → A → List A → Type 0
IsIn x [] = ⊥
IsIn x (y ∷ ys) = (x ≡ y) ⊎ IsIn x ys

abbrev pub All {ℓ κ} : {A : Type ℓ} → (A → Type κ) → List A → Type κ
All P [] = Unit
All P (x ∷ xs) = P x × All P xs

module _ {A : Type 0} where
  IsIn-if :
      (x : A) (b : Bool) (xs ys : List A) → IsIn x (if b then xs else ys) → IsIn x xs ⊎ IsIn x ys
  IsIn-if x true xs ys m = inl m
  IsIn-if x false xs ys m = inr m

  pub IsIn-insert_by :
      (before : A → A → Bool) (x y : A) (ys : List A)
      → IsIn x (insert_by before y ys)
      → IsIn x (y ∷ ys)
  IsIn-insert_by before x y [] m = m
  IsIn-insert_by before x y (z ∷ zs) m =
      elim (IsIn-if x (before y z) (y ∷ z ∷ zs) (z ∷ insert_by before y zs) m) [
        | inl k ↦ k
        | inr (inl e) ↦ inr (inl e)
        | inr (inr k) ↦ elim (IsIn-insert_by before x y zs k) [
          | inl e ↦ inl e
          | inr l ↦ inr (inr l)
        ]
      ]

  pub insert_by-IsIn :
      (before : A → A → Bool) (x y : A) (ys : List A)
      → IsIn x (y ∷ ys)
      → IsIn x (insert_by before y ys)
  insert_by-IsIn before x y [] m = m
  insert_by-IsIn before x y (z ∷ zs) m = elim (Bool-cases (before y z)) [
    | inl b ↦ rw b m
    | inr b ↦ rw b (elim m [
      | inl e ↦ inr (insert_by-IsIn before x y zs (inl e))
      | inr (inl e) ↦ inl e
      | inr (inr k) ↦ inr (insert_by-IsIn before x y zs (inr k))
    ])
  ]

  pub IsIn-sort_by :
      (before : A → A → Bool) (x : A) (xs : List A) → IsIn x (sort_by before xs) → IsIn x xs
  IsIn-sort_by before x [] m = m
  IsIn-sort_by before x (y ∷ ys) m = elim (IsIn-insert_by before x y (sort_by before ys) m) [
    | inl e ↦ inl e
    | inr k ↦ inr (IsIn-sort_by before x ys k)
  ]

  pub sort_by-IsIn :
      (before : A → A → Bool) (x : A) (xs : List A) → IsIn x xs → IsIn x (sort_by before xs)
  sort_by-IsIn before x [] m = m
  sort_by-IsIn before x (y ∷ ys) (inl e) = insert_by-IsIn before x y (sort_by before ys) (inl e)
  sort_by-IsIn before x (y ∷ ys) (inr k) =
      insert_by-IsIn before x y (sort_by before ys) (inr (sort_by-IsIn before x ys k))

  pub IsIn-keep :
      (p : A → Bool) (x : A) (xs : List A) → IsIn x (keep p xs) → IsIn x xs × (p x ≡ true)
  IsIn-keep p x [] m = absurd m
  IsIn-keep p x (y ∷ ys) m = elim (Bool-cases (p y)) [
    | inl b ↦ elim (rw b at m) [
      | inl e ↦ (inl e, rw e b)
      | inr k ↦ let (a, c) = IsIn-keep p x ys k in (inr a, c)
    ]
    | inr b ↦ let (a, c) = IsIn-keep p x ys (rw b at m) in (inr a, c)
  ]

  pub keep-IsIn : (p : A → Bool) (x : A) (xs : List A) → IsIn x xs → p x ≡ true → IsIn x (keep p xs)
  keep-IsIn p x [] m h = absurd m
  keep-IsIn p x (y ∷ ys) (inl e) h = rw (← e, h) (inl refl)
  keep-IsIn p x (y ∷ ys) (inr k) h = elim (Bool-cases (p y)) [
    | inl b ↦ rw b (inr (keep-IsIn p x ys k h))
    | inr b ↦ rw b (keep-IsIn p x ys k h)
  ]

  pub IsIn-take : (n : ℕ) (x : A) (xs : List A) → IsIn x (take n xs) → IsIn x xs
  IsIn-take zero x xs m = absurd m
  IsIn-take (suc n) x [] m = m
  IsIn-take (suc n) x (y ∷ ys) (inl e) = inl e
  IsIn-take (suc n) x (y ∷ ys) (inr k) = inr (IsIn-take n x ys k)

  pub take-or-drop :
      (n : ℕ) (x : A) (xs : List A) → IsIn x xs → IsIn x (take n xs) ⊎ IsIn x (drop n xs)
  take-or-drop zero x xs m = inr m
  take-or-drop (suc n) x [] m = absurd m
  take-or-drop (suc n) x (y ∷ ys) (inl e) = inl (inl e)
  take-or-drop (suc n) x (y ∷ ys) (inr k) = elim (take-or-drop n x ys k) [
    | inl a ↦ inl (inr a)
    | inr b ↦ inr b
  ]

  pub IsIn-any : (p : A → Bool) (xs : List A) → any p xs ≡ true → (x : A) × IsIn x xs × (p x ≡ true)
  IsIn-any p [] h = absurd (ground (arith, h))
  IsIn-any p (y ∷ ys) h = elim (Bool-cases (p y)) [
    | inl b ↦ (y, inl refl, b)
    | inr b ↦ let (x, m, k) = IsIn-any p ys (rw b at h) in (x, inr m, k)
  ]

  pub any-IsIn : (p : A → Bool) (x : A) (xs : List A) → IsIn x xs → p x ≡ true → any p xs ≡ true
  any-IsIn p x [] m h = absurd m
  any-IsIn p x (y ∷ ys) (inl e) h = rw (← e, h) refl
  any-IsIn p x (y ∷ ys) (inr k) h = elim (Bool-cases (p y)) [
    | inl b ↦ rw b refl
    | inr b ↦ rw b (any-IsIn p x ys k h)
  ]

  pub All-IsIn {κ} : (P : A → Type κ) (xs : List A) → ((x : A) → IsIn x xs → P x) → All P xs
  All-IsIn P [] h = tt
  All-IsIn P (x ∷ xs) h = (h x (inl refl), All-IsIn P xs (λ y m. h y (inr m)))

  pub IsIn-All {κ} : (P : A → Type κ) (x : A) (xs : List A) → All P xs → IsIn x xs → P x
  IsIn-All P x [] h m = absurd m
  IsIn-All P x (y ∷ ys) h (inl e) = subst P (sym e) h.0
  IsIn-All P x (y ∷ ys) h (inr k) = IsIn-All P x ys h.1 k
