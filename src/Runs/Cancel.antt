-- ===== src/Runs/Cancel.antt =====
-- CancelWithAction, Cancel and CancelByStatus of internal/runs/store.go.
use langsmith_deployment_go.Prelude.{
  ℕ, ◌+◌, String, Bool, true, false, not, ◌&&◌, Option, none, some, List, [], ◌∷◌, ◌++◌, map,
  str_eq, elem, keep, length, if◌then◌else◌, Result, ok, err, database, ◌>>=◌,
}
use langsmith_deployment_go.Sql.{
  Postgres, run_id, run_thread_id, run_status, thread_metadata, own_metadata, Arg, uuid_arg,
  uuids_arg, texts_arg, Cond, Conds, end, cond, uuid_is, is_any, thread_exists, append_conds, bind,
  optional,
}
use langsmith_deployment_go.Auth.{Filters, apply_to_query}
use langsmith_deployment_go.Runs.Model.{
  interrupted, is_pending, is_running, Run, Database, Checkpoint, update_runs,
}
use langsmith_deployment_go.Runs.Query.{selected}
use langsmith_deployment_go.Runs.Lease.{with_runs, run_ids}

pub record CancelResult : Type 0 where
  pub run_id : String
  pub deleted : Bool
  pub terminal : Bool

-- The WHERE fragment that the statements of CancelWithAction share, with its arguments.
abbrev pub thread_part : String → Conds × List Arg
thread_part thread =
    if str_eq thread ""
    then (end, [])
    else (cond (uuid_is run_thread_id 1) end, uuid_arg thread ∷ [])

abbrev pub add_exists : Conds × List Arg → Option Cond × List Arg → Conds × List Arg
add_exists w (none, args) = w
add_exists w (some c, args) = (append_conds w.0 (cond (thread_exists c) end), w.1 ++ args)

unfoldable pub cancel_where : List String → String → Filters → Result (Conds × List Arg)
cancel_where runs thread filters =
    let base = thread_part thread in
    apply_to_query filters thread_metadata (length base.1 + 1) >>= λ e.
    let w = add_exists base e in
    ok (append_conds w.0 (cond (is_any run_id (length w.1 + 1)) end), w.1 ++ uuids_arg runs ∷ [])

abbrev pub of_deleted : {V : Type 0} → List String → Checkpoint V → Bool
of_deleted ids c = elim c.run_id [ none ↦ false | some u ↦ elem u ids ]

abbrev pub result_ids : List CancelResult → List String
result_ids rs = map (λ r. r.run_id) rs

module _ {V : Type 0} where
  abbrev pub interrupt_row : ℕ → Run V → Run V
  interrupt_row now r = record r {
    status = interrupted;
    cancel_requested_at = some now;
    updated_at = now;
  }

  abbrev pub request_row : ℕ → Run V → Run V
  request_row now r = record r { cancel_requested_at = some now; updated_at = now }

  abbrev pub not_requested : Run V → Bool
  not_requested r = elim r.cancel_requested_at [ none ↦ true | some t ↦ false ]

  -- `DELETE FROM run WHERE …`; the foreign key of `checkpoints` deletes the rows that name a
  -- deleted run.
  unfoldable pub delete_runs : (Run V → Bool) → Database V → Database V
  delete_runs p db =
      let ids = run_ids (keep p db.runs) in
      record db {
        runs = keep (λ r. not (p r)) db.runs;
        checkpoints = keep (λ c. not (of_deleted ids c)) db.checkpoints;
      }

  abbrev pub results_of : Bool → Bool → List (Run V) → List CancelResult
  results_of deleted terminal rs =
      map (λ r. record { run_id = r.run_id; deleted = deleted; terminal = terminal }) rs

  -- The statement for pending rows, by action.
  unfoldable pub cancel_pending :
      ℕ → Bool → (Database V → Run V → Bool) → Database V → Database V × List CancelResult
  cancel_pending now rollback target db =
      let hit = λ (r : Run V). target db r && is_pending r.status in
      if rollback then (delete_runs hit db, results_of true true (keep hit db.runs)) else (
        with_runs db (update_runs hit (interrupt_row now) db.runs),
        results_of false true (keep hit db.runs),
      )

  -- The statement for running rows, which comes second.
  unfoldable pub cancel_running :
      ℕ → (Database V → Run V → Bool) → Database V → Database V × List CancelResult
  cancel_running now target db =
      let hit = λ (r : Run V). target db r && is_running r.status in
      (
        with_runs db (update_runs hit (request_row now) db.runs),
        results_of false false (keep hit db.runs),
      )

  unfoldable pub cancel_targets :
      ℕ → Bool → (Database V → Run V → Bool) → Database V → Database V × List CancelResult
  cancel_targets now rollback target db =
      let first = cancel_pending now rollback target db in
      let second = cancel_running now target first.0 in (second.0, first.1 ++ second.1)

module _ {V : Type 0} (pg : Postgres V) where
  -- CancelWithAction. Any action but "rollback" is an interrupt. Its two statements run at one now(),
  -- and nothing else commits between them.
  unfoldable pub cancel_with_action :
      ℕ
      → Database V
      → List String
      → String
      → String
      → Filters
      → Result (List CancelResult) × Database V
  cancel_with_action now db [] thread action filters = (ok [], db)
  cancel_with_action now db (u ∷ us) thread action filters =
      elim (cancel_where (u ∷ us) thread filters) [
        | err e ↦ (err e, db)
        | ok (cs, args) ↦ elim (bind pg args) [
          | none ↦ (err database, db)
          | some ps ↦
              let done =
                cancel_targets now (str_eq action "rollback") (λ d r. selected pg d cs ps r) db in
              (ok done.1, done.0)
        ]
      ]

  -- Cancel
  unfoldable pub cancel :
      ℕ → Database V → List String → String → Filters → Result (List String) × Database V
  cancel now db runs thread filters =
      let done = cancel_with_action now db runs thread "interrupt" filters in
      (done.0 >>= λ rs. ok (result_ids rs), done.1)

  -- CancelByStatus: the filters read `metadata` of the run itself.
  unfoldable pub cancel_by_status :
      ℕ → Database V → List String → Filters → Result (List String) × Database V
  cancel_by_status now db [] filters = (ok [], db)
  cancel_by_status now db (s ∷ ss) filters = elim (apply_to_query filters own_metadata 2) [
    | err e ↦ (err e, db)
    | ok (frag, args) ↦ elim (bind pg (texts_arg (s ∷ ss) ∷ args)) [
      | none ↦ (err database, db)
      | some ps ↦
          let hit = λ (r : Run V).
            not_requested r && selected pg db (cond (is_any run_status 1) (optional frag)) ps r in
          (
            ok (run_ids (keep hit db.runs)),
            with_runs db (update_runs hit (request_row now) db.runs),
          )
    ]
  ]
