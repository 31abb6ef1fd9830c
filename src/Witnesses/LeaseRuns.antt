-- ===== src/Witnesses/LeaseRuns.antt =====
-- Leases of internal/runs/store.go: claims, sweeps and heartbeats.
use mathlib.Core.Bool.{false≢true}
use langsmith_deployment_go.Prelude.{
  ◌≤◌, ◌≡◌, ◌≢◌, refl, sym, ap, ◌∙◌, Bool, true, false, [], ◌∷◌, arith, err, not_found, none,
  str_eq, inl, inr, IsIn, keep, length, eq_iff,
}
use Prim.Native.Nat.{min}
use langsmith_deployment_go.Runs.Model.{Run, Database, pending, is_pending}
use langsmith_deployment_go.Runs.Lease.{
  next_rows, next, next_with, sweep, sweep_one, swept, claimed, is_expired, extend_lease,
  is_eligible, is_due, thread_is_running, limit_of,
}
use langsmith_deployment_go.Runs.Rows.{
  UniqueIds, IsIsolated, cons-UniqueIds, cons-IsIsolated, empty-UniqueIds,
}
use langsmith_deployment_go.Runs.Claims.{next_rows_fair}
use langsmith_deployment_go.Runs.Isolation.{
  next_one-IsIsolated, next_batch_breaks_isolation, next_beside_next_breaks_isolation,
}
use langsmith_deployment_go.Runs.Recovery.{runs_on, sweep-next_restarts}
use langsmith_deployment_go.Runs.Sweeping.{sweep_exact}
use langsmith_deployment_go.Runs.Fencing.{extend_lease-sweep_one}
use langsmith_deployment_go.Witnesses.Documents.{
  Document, postgres, waiting, first, second, leased, run_at,
}

abbrev unlocked : Run Document → Bool
unlocked r = false

waiting-UniqueIds : UniqueIds waiting.runs
waiting-UniqueIds =
    cons-UniqueIds first _ refl
      (cons-UniqueIds second _ refl (cons-UniqueIds leased _ refl empty-UniqueIds))

leased-IsIsolated : IsIsolated (leased ∷ [])
leased-IsIsolated = record { single = λ x y mx my rx ry t. one x y mx my }
  where
    one : (x y : Run Document) → IsIn x (leased ∷ []) → IsIn y (leased ∷ []) → x.run_id ≡ y.run_id
    one x y (inl e) (inl d) = ap (λ r. r.run_id) (e ∙ sym d)
    one x y (inl e) (inr k) = absurd k
    one x y (inr m) k = absurd m

waiting-IsIsolated : IsIsolated waiting.runs
waiting-IsIsolated = cons-IsIsolated first _ refl (cons-IsIsolated second _ refl leased-IsIsolated)

first_claimed : IsIn first (next_rows unlocked 30 2 waiting.runs)
unfolding next_rows
first_claimed = inl refl

second_claimed : IsIn second (next_rows unlocked 30 2 waiting.runs)
unfolding next_rows
second_claimed = inr (inl refl)

next_rows_fair_example :
    ((r : Run Document)
      → IsIn r (next_rows unlocked 30 2 waiting.runs)
      → IsIn r waiting.runs
        × (is_pending r.status ≡ true)
        × (is_due 30 r ≡ true)
        × (thread_is_running waiting.runs r ≡ false)
        × (unlocked r ≡ false))
    × ((r s : Run Document)
        → IsIn r (next_rows unlocked 30 2 waiting.runs)
        → IsIn s waiting.runs
        → is_eligible unlocked 30 waiting.runs s ≡ true
        → ¬ IsIn s (next_rows unlocked 30 2 waiting.runs)
        → r.created_at ≤ s.created_at)
    × (length (next_rows unlocked 30 2 waiting.runs)
        ≡ min (limit_of 2) (length (keep (is_eligible unlocked 30 waiting.runs) waiting.runs)))
next_rows_fair_example = next_rows_fair unlocked 30 2 waiting.runs

-- Another worker adds a run of a third thread between the two statements.
abbrev added : Database Document → Database Document
added db = record db { runs = run_at "r4" "t3" pending 40 none ∷ db.runs }

added-UniqueIds : UniqueIds (added waiting).runs
added-UniqueIds = cons-UniqueIds (run_at "r4" "t3" pending 40 none) _ refl waiting-UniqueIds

added-IsIsolated : IsIsolated (added waiting).runs
added-IsIsolated = cons-IsIsolated (run_at "r4" "t3" pending 40 none) _ refl waiting-IsIsolated

one_claimed : (r : Run Document) → IsIn r (next_rows unlocked 30 1 waiting.runs) → r ≡ first
unfolding next_rows
one_claimed r (inl e) = e
one_claimed r (inr m) = absurd m

next_one-IsIsolated_example : IsIsolated (next_with postgres unlocked 30 10 1 added waiting).1.runs
next_one-IsIsolated_example =
    next_one-IsIsolated postgres unlocked 30 10 1 added waiting (omega arith) added-UniqueIds
      added-IsIsolated (λ r m. inr (inl (one_claimed r m)))
      (λ r m h. ap (thread_is_running (added waiting).runs) (one_claimed r m))

different : first.run_id ≢ second.run_id
different e = false≢true ((eq_iff first.run_id second.run_id).1 e)

next_batch_breaks_isolation_example : ¬ IsIsolated (next postgres unlocked 30 10 2 waiting).1.runs
next_batch_breaks_isolation_example =
    next_batch_breaks_isolation postgres unlocked 30 10 2 waiting first second first_claimed
      second_claimed refl different

-- The second worker passes over "r1" and takes "r2", of the same thread.
abbrev holds_first : Run Document → Bool
holds_first r = str_eq r.run_id "r1"

second_free : IsIn second (next_rows holds_first 31 1 waiting.runs)
unfolding next_rows
second_free = inl refl

reaped : (sweep_one 60 "r3" waiting).1 ≡ true
unfolding sweep_one
reaped = refl

sweep_exact_example : (sweep 60 [] waiting).0.runs ≡ first ∷ second ∷ swept 60 leased ∷ []
sweep_exact_example = sweep_exact 60 waiting waiting-UniqueIds

all_lost : (x : Run Document) → IsIn x waiting.runs → runs_on "t2" x ≡ true → is_expired 60 x ≡ true
all_lost x (inl e) h = absurd (false≢true (ap (runs_on "t2") (sym e) ∙ h))
all_lost x (inr (inl e)) h = absurd (false≢true (ap (runs_on "t2") (sym e) ∙ h))
all_lost x (inr (inr (inl e))) h = ap (is_expired 60) e
all_lost x (inr (inr (inr m))) h = absurd m

sweep-next_restarts_example :
    IsIn
      (claimed 70 10 (swept 60 leased))
      (next postgres (λ x. false) 70 10 3 (sweep 60 [] waiting).0).1.runs
sweep-next_restarts_example =
    sweep-next_restarts postgres 60 70 10 3 waiting leased waiting-UniqueIds (inr (inr (inl refl)))
      refl all_lost refl (omega arith)

only_claimed : IsIn first (next_rows unlocked 30 1 waiting.runs)
unfolding next_rows
only_claimed = inl refl

next_beside_next_breaks_isolation_example :
    ¬ IsIsolated
      (next_with postgres unlocked 30 10 1
        (λ d. (next postgres holds_first 31 10 1 d).1)
        waiting).1.runs
next_beside_next_breaks_isolation_example =
    next_beside_next_breaks_isolation postgres unlocked 30 10 1 holds_first 31 10 1 waiting first
      second waiting-UniqueIds only_claimed second_free refl refl different

extend_lease-sweep_one_example :
    (extend_lease postgres 70 10 (sweep_one 60 "r3" waiting).0 "r3" "").0 ≡ err not_found
extend_lease-sweep_one_example =
    extend_lease-sweep_one postgres 60 70 10 "r3" "r3" "" waiting refl reaped
