-- ===== src/Threads/Status.antt =====
-- SetStatus and SetJointStatus of internal/threads/store.go.
use langsmith_deployment_go.Prelude.{
  ℕ, String, Bool, true, false, ◌&&◌, Option, none, some, List, [], ◌∷◌, str_eq, elem, any, find?,
  if◌then◌else◌, Result, ok, failed_precondition, guard, ◌>>=◌, ◌>>◌,
}
use langsmith_deployment_go.Sql.{Postgres}
use langsmith_deployment_go.Runs.Model.{
  RunStatus, pending, running, error, success, timeout, interrupted, rollback, other, Run, Thread,
  Database, has_thread_id, update_runs,
}
use langsmith_deployment_go.Runs.Cancel.{delete_runs}
use langsmith_deployment_go.Runs.Create.{or_default, json_of, uuid_of, update_threads, is_inflight}
use langsmith_deployment_go.Runs.Insert.{optional_json, committed}

pub record SetStatusInput : Type 0 where
  pub thread_id : String
  pub status_text : String
  -- `none` is nil
  pub values_json : Option String
  pub interrupts : Option String
  pub expected_status : List String

-- The empty text of an exception is `none`.
pub record SetJointStatusInput : Type 0 where
  pub thread_id : String
  pub run_id : String
  pub run_status : String
  pub graph_id : String
  pub values_json : Option String
  pub interrupts_json : Option String
  pub next : List String
  pub exception_json : Option String

-- The text of `run.status` as the column holds it.
unfoldable pub status_of : String → RunStatus
status_of s =
    if str_eq s "pending"
    then pending
    else if str_eq s "running"
    then running
    else if str_eq s "error"
    then error
    else if str_eq s "success"
    then success
    else if str_eq s "timeout"
    then timeout
    else if str_eq s "interrupted"
    then interrupted
    else if str_eq s "rollback"
    then rollback
    else other s

-- The switch over the exception and the next nodes.
abbrev pub base_status : Option String → List String → String
base_status (some e) next = "error"
base_status none (n ∷ ns) = "interrupted"
base_status none [] = "idle"

abbrev pub is_nil {ℓ} : {A : Type ℓ} → List A → Bool
is_nil [] = true
is_nil (x ∷ xs) = false

-- `CASE WHEN EXISTS (…) THEN 'busy' ELSE $n END`
abbrev pub busy_or : Bool → String → String
busy_or busy s = if busy then "busy" else s

module _ {V : Type 0} (pg : Postgres V) where
  abbrev pub has_inflight : String → Database V → Bool
  has_inflight u db = any (is_inflight pg u) db.runs

  abbrev pub status_row : ℕ → Option V → V → V → String → Thread V → Thread V
  status_row now values interrupts metadata s t = record t {
    updated_at = now;
    values = values;
    interrupts = interrupts;
    metadata = metadata;
    status = s;
  }

  -- setStatusSQL. A thread that is missing is no row and no error; otherwise the value tells
  -- whether the new status is "busy".
  unfoldable pub apply_status : ℕ → Database V → SetStatusInput → Result (Bool × Database V)
  apply_status now db i = uuid_of pg i.thread_id >>= λ u. optional_json pg i.values_json >>= λ vs.
      json_of pg (or_default "{}" i.interrupts) >>= λ n.
      let final = busy_or (has_inflight u db) i.status_text in
      if any (has_thread_id u) db.threads
      then ok (
        str_eq final "busy",
        record db {
          threads =
              update_threads pg (has_thread_id u) (λ t. status_row now vs n t.metadata final t)
                db.threads;
        },
      )
      else ok (false, db)

  -- The row lock and the guard on the current status.
  unfoldable pub guarded_status : ℕ → Database V → SetStatusInput → Result (Bool × Database V)
  guarded_status now db i = uuid_of pg i.thread_id >>= λ u.
      elim (find? (has_thread_id u) db.threads) [
        | none ↦ ok (false, db)
        | some t ↦
            guard (elem t.status i.expected_status) failed_precondition >> apply_status now db i
      ]

  -- SetStatus
  unfoldable pub set_thread_status : ℕ → Database V → SetStatusInput → Result Bool × Database V
  set_thread_status now db i =
      committed pg db
        (if is_nil i.expected_status then apply_status now db i else guarded_status now db i)

  abbrev pub is_run_of : String → String → Run V → Bool
  is_run_of run thread r = str_eq r.run_id run && str_eq r.thread_id thread

  -- The first statement: "rollback" deletes the run, any other text is its status.
  unfoldable pub joint_run : ℕ → Database V → String → String → String → Database V
  joint_run now db run thread s =
      if str_eq s "rollback" then delete_runs (is_run_of run thread) db else record db {
        runs =
            update_runs (is_run_of run thread)
              (λ r. record r { status = status_of s; updated_at = now }) db.runs;
      }

  -- The second statement, which sees the first.
  unfoldable pub joint_thread :
      ℕ → Database V → String → Option V → V → String → String → Database V
  joint_thread now db thread values interrupts graph base = record db {
    threads =
        update_threads pg (has_thread_id thread)
          (λ t.
            status_row now values interrupts
              (pg.merge t.metadata (pg.build (("graph_id", pg.from_text graph) ∷ [])))
              (busy_or (has_inflight thread db) base) t)
          db.threads;
  }

  -- SetJointStatus: both statements in one transaction. Their casts are the only errors.
  unfoldable pub set_joint_status :
      ℕ → Database V → SetJointStatusInput → Result (Unit {0}) × Database V
  set_joint_status now db i = committed pg db (
      uuid_of pg i.run_id >>= λ run. uuid_of pg i.thread_id >>= λ thread.
      let db1 = joint_run now db run thread i.run_status in
      optional_json pg i.values_json >>= λ vs.
      json_of pg (or_default "{}" i.interrupts_json) >>= λ n.
      ok (tt, joint_thread now db1 thread vs n i.graph_id (base_status i.exception_json i.next)))
