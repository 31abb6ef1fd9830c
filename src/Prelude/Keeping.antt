-- ===== src/Prelude/Keeping.antt =====
-- The rows that one test keeps after another, and their number.
use Prim.Native.Nat.{ℕ, zero, suc, ◌+◌, ◌≤◌, ◌<◌}
use Prim.Native.String.{String}
use mathlib.Core.Path.{◌≡◌, refl, ap, sym}
use mathlib.Core.Logic.{inl, inr}
use mathlib.Core.Bool.{Bool, true, not, ◌&&◌}
use mathlib.Core.List.{List, [], ◌∷◌, map}
use native.Mathlib.Omega.{arith}
use text.Mathlib.Text.{◌==◌ as str_eq}
use text.Mathlib.TextEquality.{eq_iff}
use text.Mathlib.TextPositions.{eq_refl}
use langsmith_deployment_go.Prelude.Tests.{Bool-cases}
use langsmith_deployment_go.Prelude.Lists.{length, take, keep, elem}
use langsmith_deployment_go.Prelude.Members.{IsIn}

module _ {A : Type 0} where
  pub keep-keep : (p q : A → Bool) (xs : List A) → keep p (keep q xs) ≡ keep (λ x. q x && p x) xs
  keep-keep p q [] = refl
  keep-keep p q (x ∷ xs) = elim (Bool-cases (q x)) [
    | inl a ↦ elim (Bool-cases (p x)) [
      | inl b ↦ rw (a, b) (ap (λ l. x ∷ l) (keep-keep p q xs))
      | inr b ↦ rw (a, b) (keep-keep p q xs)
    ]
    | inr a ↦ rw a (keep-keep p q xs)
  ]

  pub keep-congr :
      (p q : A → Bool) (xs : List A) → ((x : A) → IsIn x xs → p x ≡ q x) → keep p xs ≡ keep q xs
  keep-congr p q [] h = refl
  keep-congr p q (x ∷ xs) h = rw (h x (inl refl), keep-congr p q xs (λ y m. h y (inr m))) refl

  pub length-keep-not :
      (p : A → Bool) (xs : List A)
      → length (keep (λ x. not (p x)) xs) + length (keep p xs) ≡ length xs
  length-keep-not p [] = refl
  length-keep-not p (x ∷ xs) = elim (Bool-cases (p x)) [
    | inl a ↦ rw a (omega (arith, length-keep-not p xs))
    | inr a ↦ rw a (omega (arith, length-keep-not p xs))
  ]

  -- The first `n` rows of one test are no more than the rows of another that holds of them.
  pub take-keep-length :
      (n : ℕ) (p q : A → Bool) (xs : List A)
      → ((x : A) → IsIn x (take n (keep p xs)) → q x ≡ true)
      → length (take n (keep p xs)) ≤ length (keep q xs)
  take-keep-length zero p q xs h = omega arith
  take-keep-length (suc n) p q [] h = omega arith
  take-keep-length (suc n) p q (x ∷ xs) h = elim (Bool-cases (p x)) [
    | inl a ↦
        let h' = rw a at h in
        rw (a, h' x (inl refl)) (omega (arith, take-keep-length n p q xs (λ y m. h' y (inr m))))
    | inr a ↦
        let rest = take-keep-length (suc n) p q xs (rw a at h) in
        elim (Bool-cases (q x)) [ inl b ↦ rw (a, b) (omega (arith, rest)) | inr b ↦ rw (a, b) rest ]
  ]

  -- A cut that gives fewer rows than it may has cut nothing.
  pub take_all : (n : ℕ) (xs : List A) → length (take n xs) < n → take n xs ≡ xs
  take_all zero xs h = absurd (omega (arith, h))
  take_all (suc n) [] h = refl
  take_all (suc n) (x ∷ xs) h = ap (λ l. x ∷ l) (take_all n xs (omega (arith, h)))

  pub elem-map : (f : A → String) (x : A) (xs : List A) → IsIn x xs → elem (f x) (map f xs) ≡ true
  elem-map f x [] m = absurd m
  elem-map f x (y ∷ ys) (inl e) = rw e (rw eq_refl)
  elem-map f x (y ∷ ys) (inr m) = elim (Bool-cases (str_eq (f x) (f y))) [
    | inl b ↦ rw b
    | inr b ↦ rw b (elem-map f x ys m)
  ]

  pub map-elem :
      (f : A → String) (s : String) (xs : List A)
      → elem s (map f xs) ≡ true
      → (x : A) × IsIn x xs × (f x ≡ s)
  map-elem f s [] h = absurd (ground (arith, h))
  map-elem f s (y ∷ ys) h = elim (Bool-cases (str_eq s (f y))) [
    | inl b ↦ (y, inl refl, sym ((eq_iff s (f y)).0 b))
    | inr b ↦ let (x, m, e) = map-elem f s ys (rw b at h) in (x, inr m, e)
  ]
