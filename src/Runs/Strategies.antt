-- ===== src/Runs/Strategies.antt =====
-- Create of internal/runs/store.go: the multitask strategy, the error path, and the thread filters.
use langsmith_deployment_go.Prelude.{
  ℕ, String, ◌≡◌, refl, subst, false, ◌∷◌, arith, any, keep, Error, Result, ok, err,
}
use langsmith_deployment_go.Sql.{Postgres}
use langsmith_deployment_go.Auth.{Filters}
use langsmith_deployment_go.Runs.Model.{Database, has_run_id}
use langsmith_deployment_go.Runs.Lease.{run_ids}
use langsmith_deployment_go.Runs.Create.{CreateRunInput, CreateResult, strategy_of, is_inflight}
use langsmith_deployment_go.Runs.Insert.{committed, create_steps, create}
use langsmith_deployment_go.Runs.Creating.{OnOk, Created, create_steps-Created}

module _ {V : Type 0} (pg : Postgres V) where
  -- The database after Create is the one that its steps have made, or the old one.
  pub create-Created :
      (now : ℕ) (db : Database V) (fresh_thread fresh_run : String) (i : CreateRunInput)
      (thread_filters assistant_filters : Filters) {res : CreateResult V}
      → (create pg now db fresh_thread fresh_run i thread_filters assistant_filters).0 ≡ ok res
      → Created pg db i
          (res, (create pg now db fresh_thread fresh_run i thread_filters assistant_filters).1)
  unfolding create
  create-Created now db fresh_thread fresh_run i thread_filters assistant_filters {res} h =
      finish (create_steps pg now db fresh_thread fresh_run i thread_filters assistant_filters)
        (create_steps-Created pg now db fresh_thread fresh_run i thread_filters assistant_filters) h
    where
      finish :
          (r : Result (CreateResult V × Database V)) {res : CreateResult V}
          → OnOk (Created pg db i) r
          → (committed pg db r).0 ≡ ok res
          → Created pg db i (res, (committed pg db r).1)
      finish (err e) k h = absurd (ground (arith, h))
      finish (ok (made, d)) {res} k h =
          let e : made ≡ res = ground (arith, h) in subst (λ x. Created pg db i (x, d)) e k

  -- An error leaves the database as it was.
  pub create-err :
      (now : ℕ) (db : Database V) (fresh_thread fresh_run : String) (i : CreateRunInput)
      (thread_filters assistant_filters : Filters) {e : Error}
      → (create pg now db fresh_thread fresh_run i thread_filters assistant_filters).0 ≡ err e
      → (create pg now db fresh_thread fresh_run i thread_filters assistant_filters).1 ≡ db
  unfolding create
  create-err now db fresh_thread fresh_run i thread_filters assistant_filters h =
      kept (create_steps pg now db fresh_thread fresh_run i thread_filters assistant_filters) h
    where
      kept :
          (r : Result (CreateResult V × Database V)) {e : Error}
          → (committed pg db r).0 ≡ err e
          → (committed pg db r).1 ≡ db
      kept (err x) h = refl
      kept (ok (made, d)) h = absurd (ground (arith, h))

  -- A successful Create has put one run into the table, under an id that no run had, and has changed
  -- no other run. Under the strategy "reject" (or none) no run of the thread was pending or running;
  -- under "interrupt" and "rollback" the ids that it returns are those of the thread's pending and
  -- running runs.
  pub create_strategy :
      (now : ℕ) (db : Database V) (fresh_thread fresh_run : String) (i : CreateRunInput)
      (thread_filters assistant_filters : Filters) {res : CreateResult V}
      → (create pg now db fresh_thread fresh_run i thread_filters assistant_filters).0 ≡ ok res
      → ((create pg now db fresh_thread fresh_run i thread_filters assistant_filters).1.runs
          ≡ res.run ∷ db.runs)
        × (any (has_run_id res.run.run_id) db.runs ≡ false)
        × (strategy_of i ≡ "reject" → any (is_inflight pg res.run.thread_id) db.runs ≡ false)
        × (strategy_of i ≡ "interrupt"
            → res.inflight_run_ids ≡ run_ids (keep (is_inflight pg res.run.thread_id) db.runs))
        × (strategy_of i ≡ "rollback"
            → res.inflight_run_ids ≡ run_ids (keep (is_inflight pg res.run.thread_id) db.runs))
  create_strategy now db fresh_thread fresh_run i thread_filters assistant_filters h =
      let (r, f, _, _, d) =
        create-Created now db fresh_thread fresh_run i thread_filters assistant_filters h in
      (r, f, d.0, d.1, d.2)
