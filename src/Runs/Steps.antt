-- ===== src/Runs/Steps.antt =====
-- The operations of internal/runs/store.go as steps of one database, in any order and from any
-- caller, and what every database reached by them keeps.
use langsmith_deployment_go.Prelude.{ℕ, String, Bool, List}
use langsmith_deployment_go.Sql.{Postgres}
use langsmith_deployment_go.Auth.{Filters}
use langsmith_deployment_go.Runs.Model.{Run, RunStatus, Database}
use langsmith_deployment_go.Runs.Lease.{extend_lease, set_status, mark_done, next, sweep_one}
use langsmith_deployment_go.Runs.Cancel.{cancel_with_action, cancel_by_status}
use langsmith_deployment_go.Runs.Create.{CreateRunInput}
use langsmith_deployment_go.Runs.Insert.{create, delete}
use langsmith_deployment_go.Runs.Rows.{UniqueIds}
use langsmith_deployment_go.Runs.Tables.{IsCounted, TableStep-UniqueIds, TableStep-IsCounted}
use langsmith_deployment_go.Runs.Effects.{
  Table, next-Table, sweep_one-Table, extend_lease-Table, set_status-Table, mark_done-Table,
  cancel_with_action-Table, cancel_by_status-Table, delete-Table, create-Table,
}

module _ {V : Type 0} (pg : Postgres V) where
  -- One committed operation, whatever it answers; Sweep commits once for each run.
  pub data Step : Database V → Database V → Type 0 where
    by_create :
        (now : ℕ) (fresh_thread fresh_run : String) (i : CreateRunInput)
        (thread_filters assistant_filters : Filters) (db : Database V)
        → Step db (create pg now db fresh_thread fresh_run i thread_filters assistant_filters).1
    by_delete :
        (run thread : String) (filters : Filters) (db : Database V)
        → Step db (delete pg db run thread filters).1
    by_cancel :
        (now : ℕ) (runs : List String) (thread action : String) (filters : Filters)
        (db : Database V)
        → Step db (cancel_with_action pg now db runs thread action filters).1
    by_cancel_status :
        (now : ℕ) (statuses : List String) (filters : Filters) (db : Database V)
        → Step db (cancel_by_status pg now db statuses filters).1
    by_next :
        (locked : Run V → Bool) (now ttl limit : ℕ) (db : Database V)
        → Step db (next pg locked now ttl limit db).1
    by_sweep : (now : ℕ) (u : String) (db : Database V) → Step db (sweep_one now u db).0
    by_extend_lease :
        (now ttl : ℕ) (run holder : String) (db : Database V)
        → Step db (extend_lease pg now ttl db run holder).1
    by_set_status :
        (now : ℕ) (run : String) (s : RunStatus) (db : Database V)
        → Step db (set_status pg now db run s).1
    by_mark_done : (now : ℕ) (run : String) (db : Database V) → Step db (mark_done pg now db run).1

  pub data Steps : Database V → Database V → Type 0 where
    here : (db : Database V) → Steps db db
    after : (a b c : Database V) → Steps a b → Step b c → Steps a c

  Step-Table : (a b : Database V) → Step a b → Table pg a b
  Step-Table a b (by_create now ft fr i tf af _) = create-Table pg now ft fr i tf af a
  Step-Table a b (by_delete run thread filters _) = delete-Table pg run thread filters a
  Step-Table a b (by_cancel now runs thread action filters _) =
      cancel_with_action-Table pg now runs thread action filters a
  Step-Table a b (by_cancel_status now ss filters _) = cancel_by_status-Table pg now ss filters a
  Step-Table a b (by_next locked now ttl limit _) = next-Table pg locked now ttl limit a
  Step-Table a b (by_sweep now u _) = sweep_one-Table pg now u a
  Step-Table a b (by_extend_lease now ttl run holder _) = extend_lease-Table pg now ttl run holder a
  Step-Table a b (by_set_status now run s _) = set_status-Table pg now run s a
  Step-Table a b (by_mark_done now run _) = mark_done-Table pg now run a

  -- Whatever operations callers, workers and reapers commit in whatever order, from a table where
  -- every id names one run and no run was claimed more often than its lease generation says, they
  -- reach only tables of that kind: an attempt is never counted without a new generation.
  pub Steps-keep :
      (a b : Database V)
      → Steps a b
      → UniqueIds a.runs
      → IsCounted a.runs
      → UniqueIds b.runs × IsCounted b.runs
  Steps-keep a b (here _) u c = (u, c)
  Steps-keep a b (after _ m _ s t) u c =
      let (v, d) = Steps-keep a m s u c in
      let w = Step-Table m b t in
      (TableStep-UniqueIds m.runs b.runs w v, TableStep-IsCounted m.runs b.runs w d)
