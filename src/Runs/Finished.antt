-- ===== src/Runs/Finished.antt =====
-- Finished runs under Next, Sweep and CancelWithAction of internal/runs/store.go.
use mathlib.Core.Bool.{false≢true}
use langsmith_deployment_go.Prelude.{
  ℕ, String, ◌≡◌, refl, sym, ◌∙◌, subst, Bool, true, false, not, ◌&&◌, List, arith, str_eq, elem,
  keep, if◌then◌else◌, ◌⊎◌, inl, inr, IsIn, keep-IsIn, Bool-cases, ok,
}
use langsmith_deployment_go.Sql.{Postgres}
use langsmith_deployment_go.Auth.{Filters}
use langsmith_deployment_go.Runs.Model.{
  RunStatus, pending, running, error, success, timeout, interrupted, rollback, other, Run, Database,
  is_terminal_status, is_pending, is_running, update_runs,
}
use langsmith_deployment_go.Runs.Lease.{
  next, next_rows, claim_rows, claimed, run_ids, sweep_one, swept,
}
use langsmith_deployment_go.Runs.Cancel.{CancelResult, cancel_with_action, request_row}
use langsmith_deployment_go.Runs.Rows.{UniqueIds, update_runs-IsIn}
use langsmith_deployment_go.Runs.Claims.{runs-next, next_rows_fair}
use langsmith_deployment_go.Runs.Isolation.{claimed_is_row}
use langsmith_deployment_go.Runs.Sweeping.{runs-sweep_one, reapable}
use langsmith_deployment_go.Runs.Cancelled.{cancel_row, cancel_with_action_exact}
use langsmith_deployment_go.Runs.Cancelling.{is_target}

-- A terminal status is none that the queue works on.
neither :
    (s : RunStatus) → is_terminal_status s ≡ true → (is_pending s ≡ false) × (is_running s ≡ false)
neither pending h = absurd (false≢true h)
neither running h = absurd (false≢true h)
neither error h = (refl, refl)
neither success h = (refl, refl)
neither timeout h = (refl, refl)
neither interrupted h = (refl, refl)
neither rollback h = (refl, refl)
neither (other s) h = absurd (false≢true h)

module _ {V : Type 0} where
  -- A row that the update does not change stays in the table.
  untouched :
      (p : Run V → Bool) (f : Run V → Run V) (r : Run V) (rs : List (Run V))
      → IsIn r rs
      → (p r ≡ true → f r ≡ r)
      → IsIn r (update_runs p f rs)
  untouched p f r rs m h =
      subst (λ x. IsIn x (update_runs p f rs)) (same (Bool-cases (p r)))
        (update_runs-IsIn p f r rs m)
    where
      same : (p r ≡ true) ⊎ (p r ≡ false) → (if p r then f r else r) ≡ r
      same (inl b) = rw b (h b)
      same (inr b) = rw b refl

module _ {V : Type 0} (pg : Postgres V) (db : Database V) (r : Run V) where
  next-finished :
      (locked : Run V → Bool) (now ttl limit : ℕ)
      → UniqueIds db.runs
      → IsIn r db.runs
      → is_terminal_status r.status ≡ true
      → IsIn r (next pg locked now ttl limit db).1.runs
  unfolding claim_rows
  next-finished locked now ttl limit u m t =
      subst (λ rs. IsIn r rs) (sym (runs-next pg locked now ttl limit db))
        (untouched (λ x. elem x.run_id (run_ids (next_rows locked now limit db.runs)))
          (claimed now ttl) r db.runs m
          (λ b. absurd (
            false≢true (
              sym (neither r.status t).0
              ∙ ((next_rows_fair locked now limit db.runs).0 r
                  (claimed_is_row locked now ttl limit db.runs u r m b)).1))))

  sweep_one-finished :
      (now : ℕ) (id : String)
      → UniqueIds db.runs
      → IsIn r db.runs
      → is_terminal_status r.status ≡ true
      → IsIn r (sweep_one now id db).0.runs
  sweep_one-finished now id u m t =
      subst (λ rs. IsIn r rs) (sym (runs-sweep_one now id db u))
        (untouched (reapable now id) (swept now) r db.runs m
          (λ b. absurd (false≢true (sym (not_reapable (neither r.status t).1) ∙ b))))
    where
      not_reapable : is_running r.status ≡ false → reapable now id r ≡ false
      not_reapable e = ground (arith, e)

  cancel_with_action-finished :
      (now : ℕ) (runs : List String) (thread action : String) (fs : Filters)
      {res : List CancelResult}
      → (cancel_with_action pg now db runs thread action fs).0 ≡ ok res
      → IsIn r db.runs
      → is_terminal_status r.status ≡ true
      → IsIn r (cancel_with_action pg now db runs thread action fs).1.runs
  cancel_with_action-finished now runs thread action fs h m t =
      subst (λ rs. IsIn r rs) (sym (cancel_with_action_exact pg now db runs thread action fs h))
        (by_action (str_eq action "rollback"))
    where
      p : is_pending r.status ≡ false
      p = (neither r.status t).0

      q : is_running r.status ≡ false
      q = (neither r.status t).1

      hit : Run V → Bool
      hit x = is_target pg db fs thread runs x

      kept : not (hit r && is_pending r.status) ≡ true
      kept = rw p (ground arith)

      idle : (hit r && is_running r.status) ≡ true → request_row now r ≡ r
      idle e = absurd (false≢true (sym (ground (arith, q)) ∙ e))

      by_action :
          (b : Bool)
          → IsIn r (
              if b
              then update_runs
                  (λ x. hit x && is_running x.status)
                  (request_row now)
                  (keep (λ x. not (hit x && is_pending x.status)) db.runs)
              else update_runs hit (cancel_row now) db.runs)
      by_action true =
          untouched (λ x. hit x && is_running x.status) (request_row now) r
            (keep (λ x. not (hit x && is_pending x.status)) db.runs)
            (keep-IsIn (λ x. not (hit x && is_pending x.status)) r db.runs m kept) idle
      by_action false = untouched hit (cancel_row now) r db.runs m (λ e. rw (p, q) refl)

  -- A run with a terminal status stays in the table exactly as it is, whatever Next claims, whichever
  -- id Sweep takes up, and whatever an answered CancelWithAction names, by either action, in a table
  -- where every id names one run.
  pub finished_stays :
      (locked : Run V → Bool) (now ttl limit : ℕ) (id : String) (runs : List String)
      (thread action : String) (fs : Filters) {res : List CancelResult}
      → UniqueIds db.runs
      → IsIn r db.runs
      → is_terminal_status r.status ≡ true
      → (cancel_with_action pg now db runs thread action fs).0 ≡ ok res
      → IsIn r (next pg locked now ttl limit db).1.runs
        × IsIn r (sweep_one now id db).0.runs
        × IsIn r (cancel_with_action pg now db runs thread action fs).1.runs
  finished_stays locked now ttl limit id runs thread action fs u m t h = (
    next-finished locked now ttl limit u m t,
    sweep_one-finished now id u m t,
    cancel_with_action-finished now runs thread action fs h m t,
  )
