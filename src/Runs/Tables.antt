-- ===== src/Runs/Tables.antt =====
-- What the statements of internal/runs/store.go do to the run table, row by row, and what a table
-- keeps under them.
use mathlib.Core.Bool.{false≢true}
use langsmith_deployment_go.Prelude.{
  ◌≤◌, String, ◌≡◌, sym, ◌∙◌, subst, Bool, false, List, ◌∷◌, arith, eq_iff, elem, any, keep, inl,
  inr, IsIn, IsIn-keep, any-IsIn, Bool-cases,
}
use langsmith_deployment_go.Runs.Model.{Run, has_run_id, update_runs}
use langsmith_deployment_go.Runs.Lease.{run_ids}
use langsmith_deployment_go.Runs.Rows.{
  UniqueIds, IsIn-update_runs, update_runs-UniqueIds, cons-UniqueIds, elem-run_ids,
}

module _ {V : Type 0} where
  -- An update of a row keeps its identity, never turns its generation back, and does not count more
  -- claims than generations.
  pub record RowStep (r r' : Run V) : Type 0 where
    pub same_id : r'.run_id ≡ r.run_id
    pub same_thread : r'.thread_id ≡ r.thread_id
    pub same_creation : r'.created_at ≡ r.created_at
    pub grows : r.lease_generation ≤ r'.lease_generation
    pub counts : r.attempt ≤ r.lease_generation → r'.attempt ≤ r'.lease_generation

  pub data TableStep : List (Run V) → List (Run V) → Type 0 where
    unchanged : (rs : List (Run V)) → TableStep rs rs
    updated :
        (p : Run V → Bool) (f : Run V → Run V) (rs : List (Run V))
        → ((r : Run V) → RowStep r (f r))
        → TableStep rs (update_runs p f rs)
    removed : (p : Run V → Bool) (rs : List (Run V)) → TableStep rs (keep p rs)
    inserted :
        (r : Run V) (rs : List (Run V))
        → any (has_run_id r.run_id) rs ≡ false
        → r.attempt ≡ 0
        → TableStep rs (r ∷ rs)
    both : (rs ss ts : List (Run V)) → TableStep rs ss → TableStep ss ts → TableStep rs ts

  -- No run has been claimed more often than its generation was raised.
  pub record IsCounted (rs : List (Run V)) : Type 0 where
    pub bounded : (r : Run V) → IsIn r rs → r.attempt ≤ r.lease_generation

  pub keep-UniqueIds : (p : Run V → Bool) (rs : List (Run V)) → UniqueIds rs → UniqueIds (keep p rs)
  keep-UniqueIds p rs u = record {
    same = λ x y mx my e. u.same x y (IsIn-keep p x rs mx).0 (IsIn-keep p y rs my).0 e;
  }

  fresh_id :
      (u : String) (rs : List (Run V)) → any (has_run_id u) rs ≡ false → elem u (run_ids rs) ≡ false
  fresh_id u rs h = elim (Bool-cases (elem u (run_ids rs))) [
    | inl b ↦
        let (r, m, e) = elem-run_ids u rs b in
        absurd (false≢true (sym h ∙ any-IsIn (has_run_id u) r rs m ((eq_iff r.run_id u).1 e)))
    | inr b ↦ b
  ]

  pub TableStep-UniqueIds : (rs ss : List (Run V)) → TableStep rs ss → UniqueIds rs → UniqueIds ss
  TableStep-UniqueIds rs ss (unchanged _) u = u
  TableStep-UniqueIds rs ss (updated p f _ h) u =
      update_runs-UniqueIds p f rs (λ r. let s = h r in s.same_id) u
  TableStep-UniqueIds rs ss (removed p _) u = keep-UniqueIds p rs u
  TableStep-UniqueIds rs ss (inserted r _ h a) u = cons-UniqueIds r rs (fresh_id r.run_id rs h) u
  TableStep-UniqueIds rs ss (both _ ms _ s t) u =
      TableStep-UniqueIds ms ss t (TableStep-UniqueIds rs ms s u)

  update_runs-IsCounted :
      (p : Run V → Bool) (f : Run V → Run V) (rs : List (Run V))
      → ((r : Run V) → RowStep r (f r))
      → IsCounted rs
      → IsCounted (update_runs p f rs)
  update_runs-IsCounted p f rs h c = record {
    bounded = λ y m.
        let (x, k, e) = IsIn-update_runs p f y rs m in
        subst (λ (r : Run V). r.attempt ≤ r.lease_generation) (sym e)
          (elim (Bool-cases (p x)) [
            | inl b ↦ rw b (let s = h x in s.counts (c.bounded x k))
            | inr b ↦ rw b (c.bounded x k)
          ]);
  }

  inserted-IsCounted :
      (r : Run V) (rs : List (Run V)) → r.attempt ≡ 0 → IsCounted rs → IsCounted (r ∷ rs)
  inserted-IsCounted r rs a c = record { bounded = λ y m. row y m }
    where
      row : (y : Run V) → IsIn y (r ∷ rs) → y.attempt ≤ y.lease_generation
      row y (inl e) = rw e (rw a (omega arith))
      row y (inr m) = c.bounded y m

  pub TableStep-IsCounted : (rs ss : List (Run V)) → TableStep rs ss → IsCounted rs → IsCounted ss
  TableStep-IsCounted rs ss (unchanged _) c = c
  TableStep-IsCounted rs ss (updated p f _ h) c = update_runs-IsCounted p f rs h c
  TableStep-IsCounted rs ss (removed p _) c = record {
    bounded = λ y m. c.bounded y (IsIn-keep p y rs m).0;
  }
  TableStep-IsCounted rs ss (inserted r _ h a) c = inserted-IsCounted r rs a c
  TableStep-IsCounted rs ss (both _ ms _ s t) c =
      TableStep-IsCounted ms ss t (TableStep-IsCounted rs ms s c)
