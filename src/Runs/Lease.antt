-- ===== src/Runs/Lease.antt =====
-- The lease operations of internal/runs/store.go: ExtendLease, SetStatus, MarkDone, Next, Sweep.
-- `now` is the transaction's now(). A transaction is one step of the model.
use langsmith_deployment_go.Prelude.{
  ℕ, ◌+◌, String, Bool, true, false, not, ◌&&◌, ◌||◌, none, some, List, [], ◌∷◌, map, str_eq, elem,
  any, keep, take, ltb, leb, ◌==◌, if◌then◌else◌, Result, ok, err, not_found, database, ◌>>=◌,
  sort_by, str_lt,
}
use langsmith_deployment_go.Sql.{Postgres}
use langsmith_deployment_go.Auth.{nil}
use langsmith_deployment_go.Runs.Model.{
  RunStatus, pending, running, is_pending, is_running, Run, Database, has_run_id, update_runs,
  seconds,
}
use langsmith_deployment_go.Runs.Query.{get}

-- Next takes a limit of 0 for 1.
abbrev pub limit_of : ℕ → ℕ
limit_of limit = if limit == 0 then 1 else limit

-- NewStoreWithLeaseTTL: a TTL that is not positive becomes 30 seconds. A Go int64 below 0 is 0 here.
abbrev pub lease_ttl : ℕ → ℕ
lease_ttl secs = if secs == 0 then 30 else secs

-- What the other replicas commit before a transaction, and the now() of that transaction.
abbrev pub Turn : Type 0 → Type 0
Turn V = ℕ × (Database V → Database V)

module _ {V : Type 0} where
  abbrev pub with_runs : Database V → List (Run V) → Database V
  with_runs db rs = record db { runs = rs }

  -- `lease_holder_id = $2`: never true of NULL
  abbrev pub has_holder : String → Run V → Bool
  has_holder h r = elim r.lease_holder_id [ none ↦ false | some x ↦ str_eq x h ]

  -- The rows that ExtendLease updates: any holder is good enough for an empty one.
  abbrev pub extends : String → String → Run V → Bool
  extends u holder r =
      has_run_id u r && is_running r.status && (str_eq holder "" || has_holder holder r)

  abbrev pub extended : ℕ → ℕ → Run V → Run V
  extended now ttl r = record r { lease_expires_at = some (now + seconds ttl); updated_at = now }

  abbrev pub claimed : ℕ → ℕ → Run V → Run V
  claimed now ttl r = record r {
    status = running;
    lease_expires_at = some (now + seconds ttl);
    lease_generation = r.lease_generation + 1;
    attempt = r.attempt + 1;
    updated_at = now;
  }

  abbrev pub is_due : ℕ → Run V → Bool
  is_due now r = elim r.run_after [ none ↦ true | some t ↦ leb t now ]

  -- `EXISTS (SELECT 1 FROM run r2 WHERE r2.thread_id = run.thread_id AND r2.status = 'running')`
  abbrev pub thread_is_running : List (Run V) → Run V → Bool
  thread_is_running rs r = any (λ x. str_eq x.thread_id r.thread_id && is_running x.status) rs

  abbrev pub is_claimable : ℕ → List (Run V) → Run V → Bool
  is_claimable now rs r = is_pending r.status && is_due now r && not (thread_is_running rs r)

  abbrev pub is_eligible : (Run V → Bool) → ℕ → List (Run V) → Run V → Bool
  is_eligible locked now rs r = is_claimable now rs r && not (locked r)

  -- `ORDER BY created_at ASC, run_id ASC`
  abbrev pub older : Run V → Run V → Bool
  older a b =
      ltb a.created_at b.created_at
      || (a.created_at == b.created_at && not (str_lt b.run_id a.run_id))

  -- The rows that the SELECT of Next locks. `locked` holds of the rows that other transactions have
  -- locked, which SKIP LOCKED passes over.
  unfoldable pub next_rows : (Run V → Bool) → ℕ → ℕ → List (Run V) → List (Run V)
  next_rows locked now limit rs =
      take (limit_of limit) (sort_by older (keep (is_eligible locked now rs) rs))

  abbrev pub run_ids : List (Run V) → List String
  run_ids rs = map (λ r. r.run_id) rs

  -- The UPDATE of Next.
  unfoldable pub claim_rows : ℕ → ℕ → List (Run V) → List (Run V) → List (Run V)
  claim_rows now ttl rows rs = update_runs (λ r. elem r.run_id (run_ids rows)) (claimed now ttl) rs

  abbrev pub is_expired : ℕ → Run V → Bool
  is_expired now r =
      is_running r.status && elim r.lease_expires_at [ none ↦ false | some t ↦ ltb t now ]

  abbrev pub swept : ℕ → Run V → Run V
  swept now r = record r {
    status = pending;
    updated_at = now;
    lease_holder_id = none;
    lease_expires_at = none;
    lease_generation = r.lease_generation + 1;
  }

  -- The transaction of Sweep for one candidate, under its advisory lock: the row is checked again.
  unfoldable pub sweep_one : ℕ → String → Database V → Database V × Bool
  sweep_one now u db =
      if any (λ r. has_run_id u r && is_expired now r) db.runs
      then (with_runs db (update_runs (has_run_id u) (swept now) db.runs), true)
      else (db, false)

  -- The first read of Sweep.
  unfoldable pub sweep_candidates : ℕ → Database V → List String
  sweep_candidates now db = run_ids (keep (is_expired now) db.runs)

  -- The loop of Sweep, over the turns before each candidate's transaction. After the last turn
  -- nothing else commits.
  unfoldable pub sweep_each :
      ℕ → List (Turn V) → List String → Database V → Database V × List String
  sweep_each now turns [] db = (db, [])
  sweep_each now [] (u ∷ us) db =
      let one = sweep_one now u db in
      let rest = sweep_each now [] us one.0 in (rest.0, if one.1 then u ∷ rest.1 else rest.1)
  sweep_each now ((t, others) ∷ turns) (u ∷ us) db =
      let one = sweep_one t u (others db) in
      let rest = sweep_each t turns us one.0 in (rest.0, if one.1 then u ∷ rest.1 else rest.1)

  unfoldable pub sweep : ℕ → List (Turn V) → Database V → Database V × List String
  sweep now turns db = sweep_each now turns (sweep_candidates now db) db

-- A run that Next returns, with the number of times that it has been claimed.
pub record ClaimedRun (V : Type 0) : Type 0 where
  pub run : Run V
  pub attempt : ℕ

module _ {V : Type 0} (pg : Postgres V) where
  -- An UPDATE by `run_id = $1::uuid`
  abbrev pub update_by_id : Database V → String → (Run V → Run V) → Result (Unit {0}) × Database V
  update_by_id db run f = elim (pg.uuid run) [
    | none ↦ (err database, db)
    | some u ↦ (ok tt, with_runs db (update_runs (has_run_id u) f db.runs))
  ]

  unfoldable pub extend_lease :
      ℕ → ℕ → Database V → String → String → Result (Unit {0}) × Database V
  extend_lease now ttl db run holder = elim (pg.uuid run) [
    | none ↦ (err database, db)
    | some u ↦ (
      if any (extends u holder) db.runs then ok tt else err not_found,
      with_runs db (update_runs (extends u holder) (extended now ttl) db.runs),
    )
  ]

  unfoldable pub set_status : ℕ → Database V → String → RunStatus → Result (Unit {0}) × Database V
  set_status now db run s = update_by_id db run (λ r. record r { status = s; updated_at = now })

  unfoldable pub mark_done : ℕ → Database V → String → Result (Unit {0}) × Database V
  mark_done now db run =
      update_by_id db run
        (λ r. record r { updated_at = now; lease_holder_id = none; lease_expires_at = none })

  -- The reads that Next makes after its commit; an error hides the claims, which stay.
  unfoldable pub refetch : Database V → List (Run V) → Result (List (ClaimedRun V))
  refetch db [] = ok []
  refetch db (r ∷ rs) = get pg db r.run_id "" nil >>= λ fresh.
      refetch db rs >>= λ out. ok (record { run = fresh; attempt = fresh.attempt } ∷ out)

  -- With no row the transaction commits at once.
  abbrev pub finish_next :
      List (Run V) → Database V → Database V → Result (List (ClaimedRun V)) × Database V
  finish_next [] db db' = (ok [], db)
  finish_next (r ∷ rs) db db' = (refetch db' (r ∷ rs), db')

  -- Next, with what other transactions commit between its SELECT and its UPDATE.
  unfoldable pub next_with :
      (Run V → Bool)
      → ℕ
      → ℕ
      → ℕ
      → (Database V → Database V)
      → Database V
      → Result (List (ClaimedRun V)) × Database V
  next_with locked now ttl limit others db =
      let rows = next_rows locked now limit db.runs in
      finish_next rows (others db)
        (with_runs (others db) (claim_rows now ttl rows (others db).runs))

  -- Next, when no other transaction commits between the two statements.
  unfoldable pub next :
      (Run V → Bool) → ℕ → ℕ → ℕ → Database V → Result (List (ClaimedRun V)) × Database V
  next locked now ttl limit db = next_with locked now ttl limit (λ d. d) db
