-- ===== src/Checkpointer/Copying.antt =====
-- DeleteThread, DeleteForRuns, CopyThread and Prune of internal/checkpointer/store.go. The foreign
-- keys of the writes and blobs point to `thread` alone: deleting a checkpoint leaves them.
use langsmith_deployment_go.Prelude.{
  ℕ, String, Bool, true, false, not, ◌&&◌, ◌||◌, List, [], ◌∷◌, map, str_eq, elem, any, keep, ◌==◌,
  if◌then◌else◌, Result, ok, err, database, unknown_strategy, from_option, guard, ◌>>=◌, ◌>>◌,
  str_lt,
}
use langsmith_deployment_go.Sql.{Postgres, cast_uuids}
use langsmith_deployment_go.Runs.Model.{Database, Checkpoint, CheckpointWrite, CheckpointBlob}
use langsmith_deployment_go.Runs.Cancel.{of_deleted}
use langsmith_deployment_go.Runs.Create.{uuid_of}
use langsmith_deployment_go.Runs.Insert.{committed}
use langsmith_deployment_go.Checkpointer.Rows.{
  same_write, same_blob, same_checkpoint, insert_new, has_thread, bump_thread,
}

-- `INSERT … SELECT … ON CONFLICT DO NOTHING`
abbrev pub insert_each {ℓ} : {A : Type ℓ} → (A → A → Bool) → List A → List A → List A
insert_each same [] olds = olds
insert_each same (n ∷ ns) olds = insert_each same ns (insert_new same n olds)

abbrev pub is_none_left {ℓ} : {A : Type ℓ} → List A → Bool
is_none_left [] = true
is_none_left (x ∷ xs) = false

module _ {V : Type 0} (pg : Postgres V) where
  -- DeleteThread
  unfoldable pub delete_thread_checkpoints : Database V → String → Result (Database V)
  delete_thread_checkpoints db thread = uuid_of pg thread >>= λ u.
      ok (record db { checkpoints = keep (λ c. not (str_eq c.thread_id u)) db.checkpoints })

  -- DeleteForRuns
  unfoldable pub delete_for_runs : Database V → List String → Result (Database V)
  delete_for_runs db [] = ok db
  delete_for_runs db (r ∷ rs) = from_option database (cast_uuids pg (r ∷ rs)) >>= λ us.
      ok (record db { checkpoints = keep (λ c. not (of_deleted us c)) db.checkpoints })

  -- The copied rows. The run of a checkpoint is kept, and its metadata names the new thread.
  abbrev pub copied_checkpoint : String → Checkpoint V → Checkpoint V
  copied_checkpoint to c = record c {
    thread_id = to;
    metadata = pg.set_field c.metadata "thread_id" (pg.from_text to);
  }

  abbrev pub copied_checkpoints : String → String → Database V → List (Checkpoint V)
  copied_checkpoints from to db =
      map (copied_checkpoint to) (keep (λ c. str_eq c.thread_id from) db.checkpoints)

  abbrev pub copied_blobs : String → String → Database V → List CheckpointBlob
  copied_blobs from to db =
      map (λ (b : CheckpointBlob). record b { thread_id = to })
        (keep (λ b. str_eq b.thread_id from) db.checkpoint_blobs)

  abbrev pub copied_writes : String → String → Database V → List CheckpointWrite
  copied_writes from to db =
      map (λ (w : CheckpointWrite). record w { thread_id = to })
        (keep (λ w. str_eq w.thread_id from) db.checkpoint_writes)

  -- copyThreadRows. The foreign key refuses rows of a thread that is not there.
  unfoldable pub copy_thread_rows :
      ℕ → Database V → String → String → Result (Unit {0} × Database V)
  copy_thread_rows now db from to = uuid_of pg from >>= λ f. uuid_of pg to >>= λ t.
      let cs = copied_checkpoints f t db in
      let bs = copied_blobs f t db in
      let ws = copied_writes f t db in
      guard (has_thread db t || (is_none_left cs && (is_none_left bs && is_none_left ws))) database
      >> ok (
        tt,
        bump_thread pg now t (record db {
          checkpoints = insert_each same_checkpoint cs db.checkpoints;
          checkpoint_blobs = insert_each same_blob bs db.checkpoint_blobs;
          checkpoint_writes = insert_each same_write ws db.checkpoint_writes;
        }),
      )

  -- CopyThread
  unfoldable pub copy_thread : ℕ → Database V → String → String → Result (Unit {0}) × Database V
  copy_thread now db from to = committed pg db (copy_thread_rows now db from to)

  -- A row that DISTINCT ON (thread_id, checkpoint_ns) … ORDER BY checkpoint_id DESC returns.
  abbrev pub is_latest : List (Checkpoint V) → Checkpoint V → Bool
  is_latest cs c = not (
      any
        (λ d.
          str_eq d.thread_id c.thread_id
          && (str_eq d.checkpoint_ns c.checkpoint_ns && str_lt c.checkpoint_id d.checkpoint_id))
        cs)

  -- Prune: KEEP_LATEST is 1, DELETE_ALL is 2.
  unfoldable pub prune : Database V → List String → ℕ → Result (Database V)
  prune db [] strategy = ok db
  prune db (t ∷ ts) strategy =
      if strategy == 2
      then (from_option database (cast_uuids pg (t ∷ ts)) >>= λ us.
          ok (record db { checkpoints = keep (λ c. not (elem c.thread_id us)) db.checkpoints }))
      else if strategy == 1
      then (from_option database (cast_uuids pg (t ∷ ts)) >>= λ us. ok (record db {
        checkpoints =
            keep (λ c. not (elem c.thread_id us) || is_latest db.checkpoints c) db.checkpoints;
      }))
      else err unknown_strategy
