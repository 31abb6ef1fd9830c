-- ===== src/Runs/Claims.antt =====
-- Which runs Next of internal/runs/store.go claims, in which order, and what that does to the
-- isolation of threads.
use langsmith_deployment_go.Prelude.{
  ℕ, ◌≤◌, ◌≡◌, refl, sym, ap, ◌∙◌, Bool, true, false, List, [], ◌∷◌, arith, length, keep, elem, inl,
  inr, IsIn, IsIn-take, IsIn-sort_by, IsIn-keep, keep-IsIn, sort_by-IsIn, take-or-drop,
  take-le-drop, sort_by-IsOrdered, length-sort_by, length-take, sort_by,
}
use Prim.Native.Nat.{min}
use langsmith_deployment_go.Sql.{Postgres}
use langsmith_deployment_go.Runs.Model.{Run, Database, is_pending}
use langsmith_deployment_go.Runs.Lease.{
  is_eligible, limit_of, thread_is_running, is_due, older, next_rows, claim_rows, claimed, run_ids,
  next, next_with, with_runs, finish_next,
}
use langsmith_deployment_go.Runs.Rows.{update_runs-IsIn, update_runs-none, run_ids-elem}

module _ {V : Type 0} (locked : Run V → Bool) (now limit : ℕ) (rs : List (Run V)) where
  pub next_rows-eligible :
      (r : Run V)
      → IsIn r (next_rows locked now limit rs)
      → IsIn r rs × (is_eligible locked now rs r ≡ true)
  unfolding next_rows
  next_rows-eligible r m = IsIn-keep (is_eligible locked now rs) r rs (
      IsIn-sort_by older r (keep (is_eligible locked now rs) rs)
        (IsIn-take (limit_of limit) r (sort_by older (keep (is_eligible locked now rs) rs)) m))

  older_yes : (x y : Run V) → older x y ≡ true → x.created_at ≤ y.created_at
  older_yes x y h = ground arith

  older_no : (x y : Run V) → older x y ≡ false → y.created_at ≤ x.created_at
  older_no x y h = ground arith

  -- Next serves the oldest first. A run that it claims was pending and due, on a thread where no
  -- run was running and not locked by another transaction; a run that was all this and that Next
  -- leaves is no older; and the number of runs claimed is the limit (1 for a limit of 0), or that
  -- of all such runs if there are fewer.
  pub next_rows_fair :
      ((r : Run V)
        → IsIn r (next_rows locked now limit rs)
        → IsIn r rs
          × (is_pending r.status ≡ true)
          × (is_due now r ≡ true)
          × (thread_is_running rs r ≡ false)
          × (locked r ≡ false))
      × ((r s : Run V)
          → IsIn r (next_rows locked now limit rs)
          → IsIn s rs
          → is_eligible locked now rs s ≡ true
          → ¬ IsIn s (next_rows locked now limit rs)
          → r.created_at ≤ s.created_at)
      × (length (next_rows locked now limit rs)
          ≡ min (limit_of limit) (length (keep (is_eligible locked now rs) rs)))
  unfolding next_rows
  next_rows_fair = (
    λ r m.
        let (a, e) = next_rows-eligible r m in
        (a, ground (arith, e), ground (arith, e), ground (arith, e), ground (arith, e)),
    λ r s m n e out.
        elim (take-or-drop (limit_of limit) s (sort_by older (keep (is_eligible locked now rs) rs))
          (sort_by-IsIn older s (keep (is_eligible locked now rs) rs)
            (keep-IsIn (is_eligible locked now rs) s rs n e))) [
              | inl k ↦ absurd (out k)
              | inr k ↦
                  take-le-drop (λ x. x.created_at) (limit_of limit)
                    (sort_by older (keep (is_eligible locked now rs) rs)) r s
                    (sort_by-IsOrdered (λ x. x.created_at) older older_yes older_no
                      (keep (is_eligible locked now rs) rs))
                    m k
            ],
    length-take (limit_of limit) (sort_by older (keep (is_eligible locked now rs) rs))
        ∙ ap (min (limit_of limit)) (length-sort_by older (keep (is_eligible locked now rs) rs)),
  )

module _ {V : Type 0} (pg : Postgres V) (locked : Run V → Bool) (now ttl : ℕ) where
  pub runs-next_with :
      (limit : ℕ) (others : Database V → Database V) (db : Database V)
      → (next_with pg locked now ttl limit others db).1.runs
        ≡ claim_rows now ttl (next_rows locked now limit db.runs) (others db).runs
  unfolding next_with claim_rows
  runs-next_with limit others db = go (next_rows locked now limit db.runs)
    where
      go :
          (rows : List (Run V))
          → (finish_next pg rows
              (others db)
              (with_runs (others db) (claim_rows now ttl rows (others db).runs))).1.runs
            ≡ claim_rows now ttl rows (others db).runs
      go [] = sym (update_runs-none (λ r. false) (claimed now ttl) (others db).runs (λ r. refl))
      go (r ∷ rs) = refl

  pub runs-next :
      (limit : ℕ) (db : Database V)
      → (next pg locked now ttl limit db).1.runs
        ≡ claim_rows now ttl (next_rows locked now limit db.runs) db.runs
  unfolding next
  runs-next limit db = runs-next_with limit (λ d. d) db

-- A row that Next locks is in the table afterwards as a claimed row.
pub claimed-IsIn :
    {V : Type 0} (now ttl : ℕ) (rows rs : List (Run V)) (r : Run V)
    → IsIn r rows
    → IsIn r rs
    → IsIn (claimed now ttl r) (claim_rows now ttl rows rs)
unfolding claim_rows
claimed-IsIn now ttl rows rs r m k =
    rw (run_ids-elem r rows m) at
      (update_runs-IsIn (λ x. elem x.run_id (run_ids rows)) (claimed now ttl) r rs k)
