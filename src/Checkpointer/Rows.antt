-- ===== src/Checkpointer/Rows.antt =====
-- Put and PutWrites of internal/checkpointer/store.go: one transaction each, whose error gives the
-- old database back. The foreign keys refuse a row of a thread or a run that is not there.
use langsmith_deployment_go.Prelude.{
  ℕ, String, Bool, true, false, ◌&&◌, ◌||◌, Option, none, some, List, [], ◌∷◌, str_eq, any, ◌==◌,
  if◌then◌else◌, Result, ok, database, guard, ◌>>=◌, ◌>>◌,
}
use langsmith_deployment_go.Sql.{Postgres}
use langsmith_deployment_go.Runs.Model.{
  Database, ℤ, pos, negsuc, Checkpoint, CheckpointWrite, CheckpointBlob, has_thread_id, has_run_id,
}
use langsmith_deployment_go.Runs.Create.{json_of, uuid_of, update_threads}
use langsmith_deployment_go.Runs.Insert.{committed}

pub record BlobInput : Type 0 where
  pub channel : String
  pub version : String
  pub encoding : String
  pub blob : Option String

pub record WriteInput : Type 0 where
  pub idx : ℤ
  pub channel : String
  pub encoding : String
  pub blob : String

-- "" is no parent and no run.
pub record PutInput : Type 0 where
  pub thread_id : String
  pub checkpoint_ns : String
  pub checkpoint_id : String
  pub parent_checkpoint_id : String
  pub run_id : String
  pub checkpoint_json : String
  pub metadata_json : String
  pub blobs : List BlobInput

pub record PutWritesInput : Type 0 where
  pub thread_id : String
  pub checkpoint_ns : String
  pub checkpoint_id : String
  pub task_id : String
  pub task_path : String
  pub writes : List WriteInput

abbrev pub int_eq : ℤ → ℤ → Bool
int_eq (pos a) (pos b) = a == b
int_eq (negsuc a) (negsuc b) = a == b
int_eq _ _ = false

-- `w.Idx < 0`
abbrev pub is_sentinel : ℤ → Bool
is_sentinel (pos n) = false
is_sentinel (negsuc n) = true

-- The primary keys of checkpoint_writes and checkpoint_blobs.
abbrev pub same_write : CheckpointWrite → CheckpointWrite → Bool
same_write a b =
    str_eq b.thread_id a.thread_id
    && (str_eq b.checkpoint_ns a.checkpoint_ns
        && (str_eq b.checkpoint_id a.checkpoint_id
            && (str_eq b.task_id a.task_id && int_eq b.idx a.idx)))

abbrev pub same_blob : CheckpointBlob → CheckpointBlob → Bool
same_blob a b =
    str_eq b.thread_id a.thread_id
    && (str_eq b.checkpoint_ns a.checkpoint_ns
        && (str_eq b.channel a.channel && str_eq b.version a.version))

-- `ON CONFLICT … DO NOTHING`
abbrev pub insert_new {ℓ} : {A : Type ℓ} → (A → A → Bool) → A → List A → List A
insert_new same a as' = if any (same a) as' then as' else a ∷ as'

-- `ON CONFLICT … DO UPDATE SET …` of all columns but the key.
abbrev pub replace {ℓ} : {A : Type ℓ} → (A → Bool) → (A → A) → List A → List A
replace p f [] = []
replace p f (x ∷ xs) = (if p x then f x else x) ∷ replace p f xs

abbrev pub overwrite : CheckpointWrite → CheckpointWrite → CheckpointWrite
overwrite w x = record x {
  channel = w.channel;
  encoding = w.encoding;
  blob = w.blob;
  task_path = w.task_path;
}

-- One write: a sentinel index takes the latest value, any other keeps the first.
unfoldable pub put_write : CheckpointWrite → List CheckpointWrite → List CheckpointWrite
put_write w ws =
    if any (same_write w) ws
    then (if is_sentinel w.idx then replace (same_write w) (overwrite w) ws else ws)
    else w ∷ ws

module _ {V : Type 0} where
  -- The primary key of checkpoints.
  abbrev pub is_at : String → String → String → Checkpoint V → Bool
  is_at thread ns id c =
      str_eq c.thread_id thread && (str_eq c.checkpoint_ns ns && str_eq c.checkpoint_id id)

  abbrev pub same_checkpoint : Checkpoint V → Checkpoint V → Bool
  same_checkpoint a b = is_at a.thread_id a.checkpoint_ns a.checkpoint_id b

  abbrev pub revise : Checkpoint V → Checkpoint V → Checkpoint V
  revise c x = record x { checkpoint = c.checkpoint; metadata = c.metadata }

  -- The upsert of a checkpoint, which leaves the run and the parent of a row that is there.
  unfoldable pub put_checkpoint : Checkpoint V → List (Checkpoint V) → List (Checkpoint V)
  put_checkpoint c cs =
      if any (same_checkpoint c) cs then replace (same_checkpoint c) (revise c) cs else c ∷ cs

  abbrev pub has_thread : Database V → String → Bool
  has_thread db u = any (has_thread_id u) db.threads

  abbrev pub has_run : Database V → Option String → Bool
  has_run db none = true
  has_run db (some u) = any (has_run_id u) db.runs

module _ {V : Type 0} (pg : Postgres V) where
  -- `NULLIF($n, '')::uuid`
  abbrev pub null_or_uuid : String → Result (Option String)
  null_or_uuid s = if str_eq s "" then ok none else (uuid_of pg s >>= λ u. ok (some u))

  -- `UPDATE thread SET state_updated_at = now(), updated_at = now()`
  abbrev pub bump_thread : ℕ → String → Database V → Database V
  bump_thread now u db = record db {
    threads =
        update_threads pg (has_thread_id u)
          (λ t. record t { state_updated_at = some now; updated_at = now }) db.threads;
  }

  abbrev pub blob_of : String → String → BlobInput → CheckpointBlob
  blob_of thread ns b = record {
    thread_id = thread;
    checkpoint_ns = ns;
    channel = b.channel;
    version = b.version;
    encoding = b.encoding;
    blob = b.blob;
  }

  abbrev pub put_blob : CheckpointBlob → Database V → Result (Database V)
  put_blob b db =
      guard (any (same_blob b) db.checkpoint_blobs || has_thread db b.thread_id) database
      >> ok (record db { checkpoint_blobs = insert_new same_blob b db.checkpoint_blobs })

  unfoldable pub put_blobs : String → String → List BlobInput → Database V → Result (Database V)
  put_blobs thread ns [] db = ok db
  put_blobs thread ns (b ∷ bs) db =
      put_blob (blob_of thread ns b) db >>= λ db'. put_blobs thread ns bs db'

  abbrev pub checkpoint_of :
      PutInput → String → String → Option String → Option String → V → V → Checkpoint V
  checkpoint_of i thread id run parent checkpoint metadata = record {
    thread_id = thread;
    checkpoint_id = id;
    checkpoint_ns = i.checkpoint_ns;
    run_id = run;
    parent_checkpoint_id = parent;
    checkpoint = checkpoint;
    metadata = metadata;
  }

  -- Put
  unfoldable pub put_steps : ℕ → Database V → PutInput → Result (Unit {0} × Database V)
  put_steps now db i = null_or_uuid i.run_id >>= λ run. uuid_of pg i.thread_id >>= λ thread.
      uuid_of pg i.checkpoint_id >>= λ id. null_or_uuid i.parent_checkpoint_id >>= λ parent.
      json_of pg i.checkpoint_json >>= λ checkpoint. json_of pg i.metadata_json >>= λ metadata.
      let c = checkpoint_of i thread id run parent checkpoint metadata in
      guard (any (same_checkpoint c) db.checkpoints || (has_thread db thread && has_run db run))
        database
      >> (put_blobs thread i.checkpoint_ns i.blobs
            (record db { checkpoints = put_checkpoint c db.checkpoints })
          >>= λ db'. ok (tt, bump_thread now thread db'))

  unfoldable pub put : ℕ → Database V → PutInput → Result (Unit {0}) × Database V
  put now db i = committed pg db (put_steps now db i)

  abbrev pub write_of : PutWritesInput → String → String → String → WriteInput → CheckpointWrite
  write_of i thread id task w = record {
    thread_id = thread;
    checkpoint_id = id;
    checkpoint_ns = i.checkpoint_ns;
    task_id = task;
    idx = w.idx;
    channel = w.channel;
    encoding = w.encoding;
    blob = w.blob;
    task_path = i.task_path;
  }

  -- The loop over the writes; a uuid that does not parse fails the first of them.
  unfoldable pub put_each_write :
      PutWritesInput → List WriteInput → Database V → Result (Database V)
  put_each_write i [] db = ok db
  put_each_write i (w ∷ ws) db = uuid_of pg i.thread_id >>= λ thread.
      uuid_of pg i.checkpoint_id >>= λ id. uuid_of pg i.task_id >>= λ task.
      let row = write_of i thread id task w in
      guard (any (same_write row) db.checkpoint_writes || has_thread db thread) database
      >> put_each_write i ws (record db { checkpoint_writes = put_write row db.checkpoint_writes })

  -- PutWrites
  unfoldable pub put_writes : ℕ → Database V → PutWritesInput → Result (Unit {0}) × Database V
  put_writes now db i = committed pg db (
      put_each_write i i.writes db >>= λ db'.
      uuid_of pg i.thread_id >>= λ thread. ok (tt, bump_thread now thread db'))
