-- ===== src/Checkpointer/Holding.antt =====
-- What holds of all rows after the conflict clauses of internal/checkpointer/store.go.
use langsmith_deployment_go.Prelude.{
  sym, subst, Bool, List, [], ◌∷◌, map, any, inl, inr, refl, Bool-cases, IsIn,
}
use langsmith_deployment_go.Checkpointer.Rows.{replace, insert_new}
use langsmith_deployment_go.Checkpointer.Copying.{insert_each}

pub replace-holds :
    {A : Type 0} (Q : A → Type 0) (p : A → Bool) (f : A → A) (xs : List A)
    → ((x : A) → Q (f x))
    → ((x : A) → IsIn x xs → Q x)
    → (x : A) → IsIn x (replace p f xs)
    → Q x
replace-holds Q p f [] good h x m = absurd m
replace-holds Q p f (y ∷ ys) good h x (inl e) =
    subst Q (sym e)
      (elim (Bool-cases (p y)) [ inl b ↦ rw b (good y) | inr b ↦ rw b (h y (inl refl)) ])
replace-holds Q p f (y ∷ ys) good h x (inr m) = replace-holds Q p f ys good (λ z k. h z (inr k)) x m

module _ {A : Type 0} (Q : A → Type 0) (same : A → A → Bool) where
  insert_new-holds :
      (y : A) (xs : List A)
      → Q y
      → ((x : A) → IsIn x xs → Q x)
      → (x : A) → IsIn x (insert_new same y xs)
      → Q x
  insert_new-holds y xs k h x m = elim (Bool-cases (any (same y) xs)) [
    | inl b ↦ h x (rw b at m)
    | inr b ↦ elim (rw b at m) [ inl e ↦ subst Q (sym e) k | inr n ↦ h x n ]
  ]

  pub insert_each-holds :
      (ys xs : List A)
      → ((y : A) → IsIn y ys → Q y)
      → ((x : A) → IsIn x xs → Q x)
      → (x : A) → IsIn x (insert_each same ys xs)
      → Q x
  insert_each-holds [] xs g h x m = h x m
  insert_each-holds (y ∷ ys) xs g h x m =
      insert_each-holds ys (insert_new same y xs) (λ z k. g z (inr k))
        (insert_new-holds y xs (g y (inl refl)) h) x m

pub map-holds :
    {A : Type 0} (Q : A → Type 0) (f : A → A) (xs : List A)
    → ((x : A) → IsIn x xs → Q (f x))
    → (y : A) → IsIn y (map f xs)
    → Q y
map-holds Q f [] h y m = absurd m
map-holds Q f (x ∷ xs) h y (inl e) = subst Q (sym e) (h x (inl refl))
map-holds Q f (x ∷ xs) h y (inr m) = map-holds Q f xs (λ z k. h z (inr k)) y m
