-- ===== src/Service/Handlers.antt =====
-- The handlers of internal/runs/service.go that change runs, and RunReaper's tick: each gives its
-- reply, the database after it, and the commands that it sends to Redis.
use langsmith_deployment_go.Prelude.{
  ℕ, String, Bool, true, false, ◌&&◌, ◌||◌, List, [], ◌∷◌, ◌++◌, map, str_eq, elem, all, ◌==◌,
  if◌then◌else◌, Error, inflight, Result, ok, err,
}
use langsmith_deployment_go.Sql.{Postgres}
use langsmith_deployment_go.Auth.{Filters, nil}
use langsmith_deployment_go.Redis.{Command, push, run_queue_key}
use langsmith_deployment_go.Runs.Model.{RunStatus, is_pending, is_terminal_status, Run, Database}
use langsmith_deployment_go.Runs.Lease.{
  Turn, ClaimedRun, set_status, mark_done, next, sweep, limit_of,
}
use langsmith_deployment_go.Runs.Cancel.{
  CancelResult, result_ids, cancel_with_action, cancel_by_status,
}
use langsmith_deployment_go.Runs.Create.{CreateRunInput, CreateResult}
use langsmith_deployment_go.Runs.Insert.{create, delete}
use langsmith_deployment_go.Service.Signals.{
  Backend, Reply, reply, status, code_not_found, code_invalid_argument, code_already_exists,
  map_err, CancelRunStatus, cancel_status_to_run_statuses, when, wake, publish_cancel_signals,
  publish_cancel_terminals, publish_terminal_done,
}

-- What a handler leaves behind.
pub record Outcome (V A : Type 0) : Type 0 where
  pub answer : Reply A
  pub db : Database V
  pub commands : List Command

pub data CancelTarget : Type 0 where
  run_ids_target : List String → String → CancelTarget
  status_target : CancelRunStatus → CancelTarget
  no_target : CancelTarget

module _ {V : Type 0} (pg : Postgres V) (b : Backend) where
  abbrev pub failed : {A : Type 0} → Database V → Error → Outcome V A
  failed db e = record { answer = status (map_err e); db = db; commands = [] }

  -- Create applies what Cancel would to the runs that the strategy displaced; an error of that is
  -- dropped. `later` is the now() of those statements.
  abbrev pub displaces : String → List String → Bool
  displaces strategy [] = false
  displaces strategy (u ∷ us) = str_eq strategy "interrupt" || str_eq strategy "rollback"

  abbrev pub cancelled_reply :
      Run V → List Command → String → Result (List CancelResult) × Database V → Outcome V (Run V)
  cancelled_reply r sent strategy (err e, db) = record {
    answer = reply r;
    db = db;
    commands = sent;
  }
  cancelled_reply r sent strategy (ok rs, db) = record {
    answer = reply r;
    db = db;
    commands = sent ++ (publish_cancel_signals b rs strategy ++ publish_cancel_terminals b rs);
  }

  unfoldable pub displace :
      ℕ → Database V → CreateResult V → String → List Command → Outcome V (Run V)
  displace later db res strategy sent =
      if displaces strategy res.inflight_run_ids
      then cancelled_reply res.run sent strategy
          (cancel_with_action pg later db res.inflight_run_ids res.run.thread_id strategy nil)
      else record { answer = reply res.run; db = db; commands = sent }

  -- Service.Create
  unfoldable pub create_run :
      ℕ → ℕ → Database V → String → String → CreateRunInput → Filters → Filters → Outcome V (Run V)
  create_run now later db fresh_thread fresh_run i thread_filters assistant_filters =
      let made = create pg now db fresh_thread fresh_run i thread_filters assistant_filters in
      elim made.0 [
        | err inflight ↦ record { answer = status code_already_exists; db = made.1; commands = [] }
        | err e ↦ failed made.1 e
        | ok res ↦
            displace later made.1 res i.multitask_strategy
              (when (b.has_redis && i.after_seconds == 0) (push run_queue_key res.run.run_id))
      ]

  -- Service.Delete
  unfoldable pub delete_run : Database V → String → String → Filters → Outcome V String
  delete_run db run thread filters =
      let done = delete pg db run thread filters in
      elim done.0 [
        | err e ↦ failed done.1 e
        | ok id ↦ record { answer = reply id; db = done.1; commands = [] }
      ]

  abbrev pub action_of : Bool → String
  action_of true = "rollback"
  action_of false = "interrupt"

  abbrev pub all_matched : List String → List CancelResult → Reply (Unit {0})
  all_matched ids rs =
      if all (λ u. elem u (result_ids rs)) ids then reply tt else status code_not_found

  abbrev pub fake_results : List String → List CancelResult
  fake_results ids = map (λ u. record { run_id = u; deleted = false; terminal = false }) ids

  -- Service.Cancel
  unfoldable pub cancel_runs : ℕ → Database V → Bool → CancelTarget → Filters → Outcome V (Unit {0})
  cancel_runs now db rollback (run_ids_target ids thread) filters =
      let done = cancel_with_action pg now db ids thread (action_of rollback) filters in
      elim done.0 [
        | err e ↦ failed done.1 e
        | ok rs ↦ record {
          answer = all_matched ids rs;
          db = done.1;
          commands =
              publish_cancel_signals b rs (action_of rollback) ++ publish_cancel_terminals b rs;
        }
      ]
  cancel_runs now db rollback (status_target s) filters = elim (cancel_status_to_run_statuses s) [
    | [] ↦ record { answer = status code_invalid_argument; db = db; commands = [] }
    | st ∷ sts ↦
        let done = cancel_by_status pg now db (st ∷ sts) filters in
        let failure = λ (e : Error). failed {A = Unit {0}} done.1 e in
        elim done.0 [
          | err e ↦ failure e
          | ok ids ↦ record {
            answer = reply tt;
            db = done.1;
            commands = publish_cancel_signals b (fake_results ids) "interrupt";
          }
        ]
  ]
  cancel_runs now db rollback no_target filters = record {
    answer = status code_invalid_argument;
    db = db;
    commands = [];
  }

  -- Service.SetStatus
  unfoldable pub set_run_status : ℕ → Database V → String → RunStatus → Outcome V (Unit {0})
  set_run_status now db run s =
      let done = set_status pg now db run s in
      elim done.0 [
        | err e ↦ failed done.1 e
        | ok u ↦ record {
          answer = reply tt;
          db = done.1;
          commands =
              (if is_terminal_status s then publish_terminal_done b run else [])
              ++ when (is_pending s && b.has_redis) (push run_queue_key run);
        }
      ]

  -- Service.MarkDone
  unfoldable pub mark_run_done : ℕ → Database V → String → Outcome V (Unit {0})
  mark_run_done now db run =
      let done = mark_done pg now db run in
      elim done.0 [
        | err e ↦ failed done.1 e
        | ok u ↦ record { answer = reply tt; db = done.1; commands = publish_terminal_done b run }
      ]

  abbrev pub claimed_reply :
      Result (List (ClaimedRun V)) × Database V → Outcome V (List (ClaimedRun V))
  claimed_reply (err e, db) = failed db e
  claimed_reply (ok rs, db) = record { answer = reply rs; db = db; commands = [] }

  -- Service.Next. With `wait` a first empty answer blocks on the queue: `woken` is what other
  -- transactions commit until then, and `later` the now() of the second try.
  unfoldable pub next_runs :
      (Run V → Bool)
      → ℕ
      → ℕ
      → ℕ
      → ℕ
      → Bool
      → (Database V → Database V)
      → Database V
      → Outcome V (List (ClaimedRun V))
  next_runs locked now later ttl limit wait woken db =
      let first = next pg locked now ttl (limit_of limit) db in
      let second = next pg locked later ttl (limit_of limit) (woken first.1) in
      elim first.0 [
        | err e ↦ failed first.1 e
        | ok [] ↦
            if wait && b.has_redis then claimed_reply second else claimed_reply (ok [], first.1)
        | ok (r ∷ rs) ↦ claimed_reply (ok (r ∷ rs), first.1)
      ]

  -- Service.Sweep, and the tick of RunReaper: the workers are woken for each run that was reset.
  unfoldable pub sweep_runs : ℕ → List (Turn V) → Database V → Outcome V (List String)
  sweep_runs now turns db =
      let done = sweep now turns db in
      record { answer = reply done.1; db = done.0; commands = wake b done.1 }
