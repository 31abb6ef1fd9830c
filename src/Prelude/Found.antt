-- ===== src/Prelude/Found.antt =====
-- What a search of a table answers, and the values of results.
use mathlib.Core.Path.{◌≡◌, refl, sym, ap, ◌∙◌}
use mathlib.Core.Logic.{inl, inr}
use mathlib.Core.Bool.{Bool, true}
use mathlib.Core.Option.{Option, none, some}
use mathlib.Core.List.{List, [], ◌∷◌, ◌++◌}
use native.Mathlib.Omega.{arith}
use langsmith_deployment_go.Prelude.Tests.{Bool-cases}
use langsmith_deployment_go.Prelude.Lists.{find?, any}
use langsmith_deployment_go.Prelude.Members.{IsIn}
use langsmith_deployment_go.Prelude.Results.{Error, Result, ok, err, from_option}

pub ok-injective : {A : Type 0} (a b : A) → ok a ≡ ok b → a ≡ b
ok-injective {A} a b h = ap (λ (r : Result A). elim r [ err e ↦ a | ok x ↦ x ]) h

pub some-injective : {A : Type 0} (a b : A) → some a ≡ some b → a ≡ b
some-injective {A} a b h = ap (λ (r : Option A). elim r [ none ↦ a | some x ↦ x ]) h

-- A row that a search gives is in the table and passes the test.
pub found-IsIn :
    {A : Type 0} (p : A → Bool) (e : Error) (xs : List A) (x : A)
    → from_option e (find? p xs) ≡ ok x
    → IsIn x xs × (p x ≡ true)
found-IsIn p e [] x h = absurd (ground (arith, h))
found-IsIn p e (y ∷ ys) x h = elim (Bool-cases (p y)) [
  | inl b ↦ let same : y ≡ x = ok-injective y x (rw b at h) in (inl (sym same), ap p (sym same) ∙ b)
  | inr b ↦ let (m, q) = found-IsIn p e ys x (rw b at h) in (inr m, q)
]

pub left-IsIn : {A : Type 0} (x : A) (xs ys : List A) → IsIn x xs → IsIn x (xs ++ ys)
left-IsIn x [] ys m = absurd m
left-IsIn x (z ∷ zs) ys (inl e) = inl e
left-IsIn x (z ∷ zs) ys (inr m) = inr (left-IsIn x zs ys m)

pub right-IsIn : {A : Type 0} (x : A) (xs ys : List A) → IsIn x ys → IsIn x (xs ++ ys)
right-IsIn x [] ys m = m
right-IsIn x (z ∷ zs) ys m = inr (right-IsIn x zs ys m)

-- A search finds a row where there is one to find.
pub any-found :
    {A : Type 0} (p : A → Bool) (e : Error) (xs : List A)
    → any p xs ≡ true
    → (x : A) × (from_option e (find? p xs) ≡ ok x)
any-found p e [] h = absurd (ground (arith, h))
any-found p e (y ∷ ys) h = elim (Bool-cases (p y)) [
  | inl b ↦ (y, rw b refl)
  | inr b ↦ let (x, f) = any-found p e ys (rw b at h) in (x, rw b f)
]
