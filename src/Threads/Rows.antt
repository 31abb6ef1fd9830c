-- ===== src/Threads/Rows.antt =====
-- The writes of internal/threads/store.go on one row: Create, Patch, Delete and Copy. Each is one
-- statement: its error leaves the old database. The result of a read is the row; where threadCols
-- reads NULL as an empty value, the row keeps `none`.
use langsmith_deployment_go.Prelude.{
  ℕ, ◌+◌, String, Bool, true, false, not, ◌&&◌, Option, none, some, List, [], ◌∷◌, ◌++◌, map,
  str_eq, elem, any, find?, keep, length, if◌then◌else◌, Result, ok, not_found, already_exists,
  database, from_option, guard, ◌>>=◌, ◌>>◌,
}
use langsmith_deployment_go.Sql.{
  Postgres, thread_id, own_metadata, Arg, uuid_arg, json_arg, number_arg, cond, uuid_is, optional,
}
use langsmith_deployment_go.Auth.{Filters, apply_to_query}
use langsmith_deployment_go.Runs.Model.{Thread, Database, has_thread_id, seconds}
use langsmith_deployment_go.Runs.Cancel.{delete_runs}
use langsmith_deployment_go.Runs.Create.{or_default, first_of, json_of, update_threads}
use langsmith_deployment_go.Runs.Insert.{optional_json, run_id_of, committed}
use langsmith_deployment_go.Threads.Query.{selects_thread, by_id, bound, get_thread}

-- A TTL is taken to be a whole number of seconds, not negative.
pub record CreateThreadInput : Type 0 where
  -- "" for a random id
  pub thread_id : String
  -- `none` is nil
  pub metadata : Option String
  pub config : Option String
  pub ttl_seconds : Option ℕ
  pub if_exists : String
  pub filters : Filters

-- `none` is empty for the texts, nil for the TTL.
pub record PatchThreadInput : Type 0 where
  pub metadata : Option String
  pub config : Option String
  pub ttl_seconds : Option ℕ

-- `now() + ($n::float8 * interval '1 second')`
abbrev pub expiry : ℕ → Option ℕ → Option ℕ
expiry now none = none
expiry now (some n) = some (now + seconds n)

-- `in.IfExists == "do_nothing" && in.ThreadID != ""`
abbrev pub returns_existing : CreateThreadInput → Bool
returns_existing i = str_eq i.if_exists "do_nothing" && not (str_eq i.thread_id "")

abbrev pub ttl_args : Option ℕ → List Arg
ttl_args none = []
ttl_args (some n) = number_arg n ∷ []

-- The arguments before those of the filters.
abbrev pub value_args : CreateThreadInput → List Arg
value_args i =
    json_arg (or_default "{}" i.metadata)
    ∷ json_arg (or_default "{}" i.config)
    ∷ ttl_args i.ttl_seconds

abbrev pub create_args : CreateThreadInput → List Arg
create_args i = uuid_arg i.thread_id ∷ value_args i

abbrev pub is_absent {ℓ} : {A : Type ℓ} → Option A → Bool
is_absent none = true
is_absent (some a) = false

-- `len(sets) == 0`
abbrev pub sets_nothing : PatchThreadInput → Bool
sets_nothing i = is_absent i.metadata && (is_absent i.config && is_absent i.ttl_seconds)

module _ {V : Type 0} where
  abbrev pub thread_ids : List (Thread V) → List String
  thread_ids ts = map (λ t. t.thread_id) ts

  -- `DELETE FROM thread WHERE …`: the foreign keys delete the thread's runs with their checkpoints,
  -- and the thread's own checkpoints, writes and blobs.
  unfoldable pub delete_threads : (Thread V → Bool) → Database V → Database V
  delete_threads p db =
      let ids = thread_ids (keep p db.threads) in
      let rest = delete_runs (λ r. elem r.thread_id ids) db in
      record rest {
        threads = keep (λ t. not (p t)) db.threads;
        checkpoints = keep (λ c. not (elem c.thread_id ids)) rest.checkpoints;
        checkpoint_writes = keep (λ w. not (elem w.thread_id ids)) db.checkpoint_writes;
        checkpoint_blobs = keep (λ b. not (elem b.thread_id ids)) db.checkpoint_blobs;
      }

module _ {V : Type 0} (pg : Postgres V) where
  abbrev pub new_thread : ℕ → String → V → V → Option ℕ → Thread V
  new_thread now u metadata config ttl = record {
    thread_id = u;
    status = "idle";
    metadata = metadata;
    config = config;
    created_at = now;
    updated_at = now;
    expires_at = expiry now ttl;
    state_updated_at = none;
    values = none;
    interrupts = pg.empty;
  }

  -- The row that VALUES names. `fresh` is gen_random_uuid().
  abbrev pub thread_to_insert : ℕ → String → CreateThreadInput → Result (Thread V)
  thread_to_insert now fresh i = run_id_of pg i.thread_id fresh >>= λ u.
      json_of pg (or_default "{}" i.metadata) >>= λ m.
      json_of pg (or_default "{}" i.config) >>= λ c. ok (new_thread now u m c i.ttl_seconds)

  -- Both legs: the new row where its id is free, and otherwise the row that the second one selects.
  abbrev pub insert_unless :
      Database V → (Thread V → Bool) → Thread V → Result (Thread V × Database V)
  insert_unless db hit t =
      if any (has_thread_id t.thread_id) db.threads
      then (from_option already_exists (find? hit db.threads) >>= λ old. ok (old, db))
      else ok (t, record db { threads = t ∷ db.threads })

  -- `INSERT … ON CONFLICT DO NOTHING … UNION ALL SELECT … WHERE NOT EXISTS …`: the second leg reads
  -- the table as it was before the statement.
  unfoldable pub insert_or_read :
      ℕ → Database V → String → CreateThreadInput → Result (Thread V × Database V)
  insert_or_read now db fresh i =
      apply_to_query i.filters own_metadata (length (create_args i) + 1) >>= λ e.
      bound pg (create_args i ++ e.1) >>= λ ps. thread_to_insert now fresh i >>= λ t.
      insert_unless db (selects_thread pg (cond (uuid_is thread_id 1) (optional e.0)) ps) t

  -- The plain INSERT: a taken id is the unique violation 23505.
  unfoldable pub insert_thread :
      ℕ → Database V → String → CreateThreadInput → Result (Thread V × Database V)
  insert_thread now db fresh i = thread_to_insert now fresh i >>= λ t.
      guard (not (any (has_thread_id t.thread_id) db.threads)) already_exists
      >> ok (t, record db { threads = t ∷ db.threads })

  -- Create
  unfoldable pub create_thread :
      ℕ → Database V → String → CreateThreadInput → Result (Thread V) × Database V
  create_thread now db fresh i =
      committed pg db
        (if returns_existing i then insert_or_read now db fresh i else insert_thread now db fresh i)

  abbrev pub merge_given : V → Option V → V
  merge_given m none = m
  merge_given m (some n) = pg.merge m n

  -- The SET list. `updated_at` is not among it.
  abbrev pub patched : Option V → Option V → Option ℕ → Thread V → Thread V
  patched metadata config expires t = record t {
    metadata = merge_given t.metadata metadata;
    config = or_default t.config config;
    expires_at = first_of expires t.expires_at;
  }

  -- `UPDATE thread SET … WHERE thread_id = $1::uuid AND … RETURNING …`
  unfoldable pub update_thread :
      ℕ → Database V → String → PatchThreadInput → Filters → Result (Thread V × Database V)
  update_thread now db id i filters = by_id pg id filters >>= λ w. bound pg w.1 >>= λ ps.
      optional_json pg i.metadata >>= λ m. optional_json pg i.config >>= λ c.
      let hit = selects_thread pg w.0 ps in
      let change = patched m c (expiry now i.ttl_seconds) in
      from_option not_found (find? hit db.threads) >>= λ t.
      ok (change t, record db { threads = update_threads pg hit change db.threads })

  -- Patch. The filters are expanded first, also for a patch that sets nothing, which is a Get.
  unfoldable pub patch_thread :
      ℕ → Database V → String → PatchThreadInput → Filters → Result (Thread V) × Database V
  patch_thread now db id i filters =
      if sets_nothing i
      then (get_thread pg db id filters, db)
      else committed pg db (update_thread now db id i filters)

  -- Delete
  unfoldable pub delete_thread : Database V → String → Filters → Result String × Database V
  delete_thread db id filters = committed pg db (
      by_id pg id filters >>= λ w. bound pg w.1 >>= λ ps.
      let hit = selects_thread pg w.0 ps in
      from_option not_found (find? hit db.threads) >>= λ t. ok (t.thread_id, delete_threads hit db))

  -- copyRow: metadata is copied, every other column takes its default.
  unfoldable pub copy_row :
      ℕ → Database V → String → String → Filters → Result (Thread V × Database V)
  copy_row now db fresh source filters = by_id pg source filters >>= λ w. bound pg w.1 >>= λ ps.
      from_option not_found (find? (selects_thread pg w.0 ps) db.threads) >>= λ t.
      guard (not (any (has_thread_id fresh) db.threads)) database
      >> (let copy = new_thread now fresh t.metadata pg.empty none in
          ok (copy, record db { threads = copy ∷ db.threads }))
