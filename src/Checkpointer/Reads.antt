-- ===== src/Checkpointer/Reads.antt =====
-- GetTuple, loadBlobsAndWrites and List of internal/checkpointer/store.go.
use langsmith_deployment_go.Prelude.{
  ℕ, String, Bool, true, false, not, ◌&&◌, ◌||◌, Option, none, some, List, [], ◌∷◌, map, str_eq,
  find?, keep, take, ltb, if◌then◌else◌, Result, ok, ◌>>=◌, sort_by, str_lt,
}
use langsmith_deployment_go.Sql.{Postgres}
use langsmith_deployment_go.Runs.Model.{
  Database, ℤ, pos, negsuc, Checkpoint, CheckpointWrite, CheckpointBlob,
}
use langsmith_deployment_go.Runs.Create.{uuid_of}
use langsmith_deployment_go.Runs.Insert.{optional_json}
use langsmith_deployment_go.Checkpointer.Rows.{is_at, null_or_uuid}

pub record CheckpointRow (V : Type 0) : Type 0 where
  pub row : Checkpoint V
  pub blobs : List CheckpointBlob
  pub writes : List CheckpointWrite
  -- the type and the blob of each
  pub pending_sends : List (String × String)

abbrev pub int_lt : ℤ → ℤ → Bool
int_lt (pos a) (pos b) = ltb a b
int_lt (negsuc a) (negsuc b) = ltb b a
int_lt (negsuc a) (pos b) = true
int_lt (pos a) (negsuc b) = false

-- `ORDER BY task_id, idx`
abbrev pub writes_first : CheckpointWrite → CheckpointWrite → Bool
writes_first a b =
    str_lt a.task_id b.task_id || (str_eq a.task_id b.task_id && not (int_lt b.idx a.idx))

-- The writes of a checkpoint, in order.
abbrev pub writes_at : String → String → String → List CheckpointWrite → List CheckpointWrite
writes_at thread ns id ws = sort_by writes_first (
    keep
      (λ w. str_eq w.thread_id thread && (str_eq w.checkpoint_ns ns && str_eq w.checkpoint_id id))
      ws)

abbrev pub tasks_channel : String
tasks_channel = "__pregel_tasks"

module _ {V : Type 0} where
  abbrev pub sends_from : Option String → Database V → Checkpoint V → List (String × String)
  sends_from none db c = []
  sends_from (some parent) db c =
      map (λ w. (w.encoding, w.blob))
        (keep (λ w. str_eq w.channel tasks_channel)
          (writes_at c.thread_id c.checkpoint_ns parent db.checkpoint_writes))

  -- loadBlobsAndWrites: all blobs of the thread and namespace, whatever version.
  unfoldable pub load_blobs_and_writes : Database V → Checkpoint V → CheckpointRow V
  load_blobs_and_writes db c = record {
    row = c;
    blobs =
        keep (λ b. str_eq b.thread_id c.thread_id && str_eq b.checkpoint_ns c.checkpoint_ns)
          db.checkpoint_blobs;
    writes = writes_at c.thread_id c.checkpoint_ns c.checkpoint_id db.checkpoint_writes;
    pending_sends = sends_from c.parent_checkpoint_id db c;
  }

  abbrev pub in_namespace : String → String → Checkpoint V → Bool
  in_namespace thread ns c = str_eq c.thread_id thread && str_eq c.checkpoint_ns ns

  -- `ORDER BY checkpoint_id DESC`: ids compare as their canonical texts.
  abbrev pub latest_first : Checkpoint V → Checkpoint V → Bool
  latest_first a b = not (str_lt a.checkpoint_id b.checkpoint_id)

  abbrev pub head? : List (Checkpoint V) → Option (Checkpoint V)
  head? [] = none
  head? (c ∷ cs) = some c

  abbrev pub loaded : Database V → Option (Checkpoint V) → Option (CheckpointRow V)
  loaded db none = none
  loaded db (some c) = some (load_blobs_and_writes db c)

module _ {V : Type 0} (pg : Postgres V) where
  -- GetTuple: without an id the latest checkpoint; `none` if there is none.
  unfoldable pub get_tuple :
      Database V → String → String → String → Result (Option (CheckpointRow V))
  get_tuple db thread ns id = uuid_of pg thread >>= λ u.
      if str_eq id ""
      then ok (loaded db (head? (sort_by latest_first (keep (in_namespace u ns) db.checkpoints))))
      else (uuid_of pg id >>= λ v. ok (loaded db (find? (is_at u ns v) db.checkpoints)))

  abbrev pub is_before : Option String → Checkpoint V → Bool
  is_before none c = true
  is_before (some b) c = str_lt c.checkpoint_id b

  abbrev pub meets_filter : Option V → Checkpoint V → Bool
  meets_filter none c = true
  meets_filter (some f) c = pg.contains c.metadata f

  abbrev pub limited : Option ℕ → List (Checkpoint V) → List (Checkpoint V)
  limited none cs = cs
  limited (some n) cs = take n cs

  -- List. An empty filter is `none`.
  unfoldable pub list_checkpoints :
      Database V
      → String
      → String
      → String
      → Option ℕ
      → Option String
      → Result (List (CheckpointRow V))
  list_checkpoints db thread ns before limit filter = uuid_of pg thread >>= λ u.
      null_or_uuid pg before >>= λ b. optional_json pg filter >>= λ f. ok (
        map (load_blobs_and_writes db) (
          limited limit (
            sort_by latest_first (
              keep (λ c. in_namespace u ns c && (is_before b c && meets_filter f c))
                db.checkpoints))))
