-- ===== src/Runs/Insert.antt =====
-- The INSERT that ends Create of internal/runs/store.go, the whole transaction, and Delete.
use langsmith_deployment_go.Prelude.{
  ℕ, ◌+◌, String, Bool, false, not, ◌&&◌, ◌||◌, Option, none, some, List, [], ◌∷◌, str_eq, any,
  find?, keep, ◌==◌, if◌then◌else◌, Result, ok, err, not_found, database, from_option, guard, ◌>>=◌,
  ◌>>◌,
}
use langsmith_deployment_go.Sql.{
  Postgres, run_id, run_thread_id, thread_metadata, Arg, uuid_arg, Conds, cond, uuid_is, bind,
  optional,
}
use langsmith_deployment_go.Auth.{Filters, apply_to_query}
use langsmith_deployment_go.Runs.Model.{
  pending, Run, Thread, Assistant, Database, CheckpointWrite, Checkpoint, has_run_id, has_thread_id,
  has_assistant_id, is_joined, seconds,
}
use langsmith_deployment_go.Runs.Query.{selected, is_given}
use langsmith_deployment_go.Runs.Cancel.{delete_runs}
use langsmith_deployment_go.Runs.Create.{
  CreateRunInput, CreateResult, or_default, first_of, strategy_of, null_if_empty, json_of, uuid_of,
  field_or_empty, request_config, assistant_exists, ensure_thread, occupy_thread, check_inflight,
}

module _ {V : Type 0} (pg : Postgres V) where
  abbrev pub nested_text : V → String → String → Option String
  nested_text v k j = elim (pg.field v k) [ none ↦ none | some w ↦ pg.text_field w j ]

  -- The COALESCE over the places that may name the user: request, thread, assistant, then the
  -- fallback; SQL's NULL is the null of jsonb.
  unfoldable pub user_id_of : V → V → V → String → V
  user_id_of request thread_config assistant_config fallback =
      let asked : Option String = elim (pg.field request "config") [
        | none ↦ none
        | some c ↦ nested_text c "configurable" "user_id"
      ] in
      elim (first_of asked (
        first_of (nested_text thread_config "configurable" "user_id") (
          first_of (nested_text assistant_config "configurable" "user_id")
            (null_if_empty fallback)))) [ none ↦ pg.null_value | some s ↦ pg.from_text s ]

  -- The identifiers that are written over whatever the request says.
  abbrev pub own_ids : String → Thread V → Assistant V → V → V
  own_ids u t a user = pg.build (
      ("run_id", pg.from_text u)
      ∷ ("thread_id", pg.from_text t.thread_id)
      ∷ ("graph_id", pg.from_text a.graph_id)
      ∷ ("assistant_id", pg.from_text a.assistant_id)
      ∷ ("user_id", user)
      ∷ [])

  unfoldable pub run_kwargs : String → Thread V → Assistant V → V → V → String → V
  run_kwargs u t a kwargs metadata user =
      let request = field_or_empty pg kwargs "config" in
      let configurable =
        pg.merge
          (pg.merge
            (pg.merge (field_or_empty pg a.config "configurable")
              (field_or_empty pg t.config "configurable"))
            (field_or_empty pg request "configurable"))
          (own_ids u t a (user_id_of kwargs t.config a.config user)) in
      let extra = pg.build (
        ("configurable", configurable)
        ∷ ("metadata", pg.merge (pg.merge a.metadata t.metadata) metadata)
        ∷ []) in
      pg.merge kwargs
        (pg.build (("config", pg.merge (pg.merge (pg.merge a.config t.config) request) extra) ∷ []))

  abbrev pub start_time : ℕ → ℕ → Option ℕ
  start_time now after = if after == 0 then none else some (now + seconds after)

  abbrev pub new_run :
      ℕ → CreateRunInput → String → Thread V → Assistant V → V → V → Option V → Run V
  new_run now i u t a kwargs metadata encryption = record {
    run_id = u;
    thread_id = t.thread_id;
    assistant_id = a.assistant_id;
    status = or_default pending i.status;
    kwargs = run_kwargs u t a kwargs metadata i.user_id;
    multitask_strategy = strategy_of i;
    created_at = or_default now (start_time now i.after_seconds);
    updated_at = now;
    metadata = pg.merge (pg.build (("assistant_id", pg.from_text a.assistant_id) ∷ [])) metadata;
    lease_generation = 0;
    run_after = start_time now i.after_seconds;
    attempt = 0;
    encryption_context = encryption;
    lease_holder_id = none;
    lease_expires_at = none;
    cancel_requested_at = none;
  }

  abbrev pub optional_json : Option String → Result (Option V)
  optional_json none = ok none
  optional_json (some s) = json_of pg s >>= λ v. ok (some v)

  -- `COALESCE(NULLIF($1, '')::uuid, gen_random_uuid())`
  abbrev pub run_id_of : String → String → Result String
  run_id_of given fresh = if str_eq given "" then ok fresh else uuid_of pg given

  -- No row of the assistant or the thread: no row is inserted, and the scan fails. A run id that is
  -- there already breaks the primary key.
  unfoldable pub insert_run :
      ℕ
      → Database V
      → String
      → CreateRunInput
      → String
      → String
      → String
      → String
      → Result (Run V × Database V)
  insert_run now db fresh i thread assistant kwargs metadata = run_id_of i.run_id fresh >>= λ u.
      json_of pg kwargs >>= λ k. json_of pg metadata >>= λ m.
      optional_json i.encryption_context >>= λ enc.
      from_option database (find? (has_assistant_id assistant) db.assistants) >>= λ a.
      from_option database (find? (has_thread_id thread) db.threads) >>= λ t.
      guard (not (any (has_run_id u) db.runs)) database
      >> (let r = new_run now i u t a k m enc in ok (r, record db { runs = r ∷ db.runs }))

  -- The steps between Begin and Commit. `fresh_thread` and `fresh_run` are the random uuids.
  unfoldable pub create_steps :
      ℕ
      → Database V
      → String
      → String
      → CreateRunInput
      → Filters
      → Filters
      → Result (CreateResult V × Database V)
  create_steps now db fresh_thread fresh_run i thread_filters assistant_filters =
      let kwargs = or_default "{}" i.kwargs_json in
      let metadata = or_default "{}" i.metadata in
      let thread = if str_eq i.thread_id "" then fresh_thread else i.thread_id in
      assistant_exists pg db i.assistant_id assistant_filters >>= λ found.
      guard found not_found
      >> (ensure_thread pg now db thread i kwargs metadata thread_filters >>= λ db1.
          uuid_of pg thread >>= λ t. uuid_of pg i.assistant_id >>= λ a.
          let db2 =
            occupy_thread pg db1 t (find? (has_assistant_id a) db1.assistants)
              (request_config pg kwargs) in
          check_inflight pg db2 t (strategy_of i) >>= λ displaced.
          insert_run now db2 fresh_run i t a kwargs metadata >>= λ out.
          ok (record { run = out.0; inflight_run_ids = displaced }, out.1))

  -- Commit, or the deferred Rollback.
  abbrev pub committed : {A : Type 0} → Database V → Result (A × Database V) → Result A × Database V
  committed db (err e) = (err e, db)
  committed db (ok (res, db')) = (ok res, db')

  -- Create
  unfoldable pub create :
      ℕ
      → Database V
      → String
      → String
      → CreateRunInput
      → Filters
      → Filters
      → Result (CreateResult V) × Database V
  create now db fresh_thread fresh_run i thread_filters assistant_filters =
      committed db (create_steps now db fresh_thread fresh_run i thread_filters assistant_filters)

  -- The rows of checkpoint_writes that belong to a checkpoint of the run.
  abbrev pub is_write_of : List (Checkpoint V) → String → CheckpointWrite → Bool
  is_write_of cs u w =
      any
        (λ c.
          elim c.run_id [ none ↦ false | some x ↦ str_eq x u ]
          && (str_eq w.checkpoint_id c.checkpoint_id
              && (str_eq w.thread_id c.thread_id && str_eq w.checkpoint_ns c.checkpoint_ns)))
        cs

  -- `WITH selected …, del_checkpoint_writes … DELETE FROM run`
  unfoldable pub delete_selected : (Run V → Bool) → Database V → Result String × Database V
  delete_selected p db = elim (find? p db.runs) [
    | none ↦ (err not_found, db)
    | some r ↦ (
      ok r.run_id,
      delete_runs (has_run_id r.run_id) (record db {
        checkpoint_writes =
            keep (λ w. not (is_write_of db.checkpoints r.run_id w)) db.checkpoint_writes;
      }),
    )
  ]

  abbrev pub delete_where : Database V → Conds → List Arg → Bool → Result String × Database V
  delete_where db cs args join = elim (bind pg args) [
    | none ↦ (err database, db)
    | some ps ↦ delete_selected (λ r. (not join || is_joined db r) && selected pg db cs ps r) db
  ]

  -- Delete
  unfoldable pub delete : Database V → String → String → Filters → Result String × Database V
  delete db run thread filters =
      if str_eq thread ""
      then elim (apply_to_query filters thread_metadata 2) [
        | err e ↦ (err e, db)
        | ok (frag, args) ↦
            delete_where db (cond (uuid_is run_id 1) (optional frag)) (uuid_arg run ∷ args)
              (is_given frag)
      ]
      else elim (apply_to_query filters thread_metadata 3) [
        | err e ↦ (err e, db)
        | ok (frag, args) ↦
            delete_where db
              (cond (uuid_is run_id 1) (cond (uuid_is run_thread_id 2) (optional frag)))
              (uuid_arg run ∷ uuid_arg thread ∷ args) (is_given frag)
      ]
