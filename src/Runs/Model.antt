-- ===== src/Runs/Model.antt =====
-- The rows behind internal/runs/store.go, internal/threads/store.go and the checkpointer's store. A timestamp is a number of
-- microseconds, an id the canonical text of its uuid. A column that no modelled statement reads or
-- writes is left out.
use langsmith_deployment_go.Prelude.{
  ℕ, ◌*◌, String, Bool, true, false, Option, none, some, List, [], ◌∷◌, str_eq, any, find?,
  if◌then◌else◌,
}
use langsmith_deployment_go.Sql.{
  Column, run_id, run_thread_id, run_status, run_metadata, thread_id, thread_metadata, own_metadata,
  own_status, own_values, Datum, null, text, json,
}

-- The text of `run.status`: the names of the enum, or any other text.
pub data RunStatus : Type 0 where
  pending running error success timeout interrupted rollback : RunStatus
  other : String → RunStatus

abbrev pub status_name : RunStatus → String
status_name pending = "pending"
status_name running = "running"
status_name error = "error"
status_name success = "success"
status_name timeout = "timeout"
status_name interrupted = "interrupted"
status_name rollback = "rollback"
status_name (other s) = s

abbrev pub is_pending : RunStatus → Bool
is_pending pending = true
is_pending _ = false

abbrev pub is_running : RunStatus → Bool
is_running running = true
is_running _ = false

-- isTerminalStatus
abbrev pub is_terminal_status : RunStatus → Bool
is_terminal_status success = true
is_terminal_status error = true
is_terminal_status interrupted = true
is_terminal_status timeout = true
is_terminal_status rollback = true
is_terminal_status _ = false

pub record Run (V : Type 0) : Type 0 where
  pub run_id : String
  pub thread_id : String
  pub assistant_id : String
  pub status : RunStatus
  pub kwargs : V
  pub multitask_strategy : String
  pub created_at : ℕ
  pub updated_at : ℕ
  pub metadata : V
  pub lease_generation : ℕ
  pub run_after : Option ℕ
  pub attempt : ℕ
  pub encryption_context : Option V
  pub lease_holder_id : Option String
  pub lease_expires_at : Option ℕ
  pub cancel_requested_at : Option ℕ

pub record Thread (V : Type 0) : Type 0 where
  pub thread_id : String
  pub status : String
  pub metadata : V
  pub config : V
  pub created_at : ℕ
  pub updated_at : ℕ
  pub expires_at : Option ℕ
  pub state_updated_at : Option ℕ
  -- `"values"`, which may be NULL
  pub values : Option V
  pub interrupts : V

pub record Assistant (V : Type 0) : Type 0 where
  pub assistant_id : String
  pub graph_id : String
  pub version : ℕ
  pub created_at : ℕ
  pub updated_at : ℕ
  pub config : V
  pub context : V
  pub metadata : V
  -- "" for NULL
  pub name : String
  pub description : Option String

pub record AssistantVersion (V : Type 0) : Type 0 where
  pub assistant_id : String
  pub graph_id : String
  pub name : String
  pub version : ℕ
  pub created_at : ℕ
  pub config : V
  pub context : V
  pub metadata : V
  pub description : Option String

-- `int4`: `negsuc n` is the number -(n + 1).
pub data ℤ : Type 0 where
  pos negsuc : ℕ → ℤ

pub record Checkpoint (V : Type 0) : Type 0 where
  pub thread_id : String
  pub checkpoint_id : String
  pub checkpoint_ns : String
  pub run_id : Option String
  pub parent_checkpoint_id : Option String
  pub checkpoint : V
  pub metadata : V

pub record CheckpointWrite : Type 0 where
  pub thread_id : String
  pub checkpoint_id : String
  pub checkpoint_ns : String
  pub task_id : String
  pub idx : ℤ
  pub channel : String
  -- the column `type`
  pub encoding : String
  pub blob : String
  pub task_path : String

pub record CheckpointBlob : Type 0 where
  pub thread_id : String
  pub checkpoint_ns : String
  pub channel : String
  pub version : String
  pub encoding : String
  pub blob : Option String

pub record Database (V : Type 0) : Type 0 where
  pub runs : List (Run V)
  pub threads : List (Thread V)
  pub assistants : List (Assistant V)
  pub assistant_versions : List (AssistantVersion V)
  pub checkpoints : List (Checkpoint V)
  pub checkpoint_writes : List CheckpointWrite
  pub checkpoint_blobs : List CheckpointBlob

-- `n * INTERVAL '1 second'`
abbrev pub seconds : ℕ → ℕ
seconds n = n * 1000000

module _ {V : Type 0} where
  abbrev pub has_run_id : String → Run V → Bool
  has_run_id u r = str_eq r.run_id u

  abbrev pub has_thread_id : String → Thread V → Bool
  has_thread_id u t = str_eq t.thread_id u

  abbrev pub has_assistant_id : String → Assistant V → Bool
  has_assistant_id u a = str_eq a.assistant_id u

  -- The row of `thread` that `JOIN thread USING (thread_id)` puts beside a run.
  abbrev pub thread_of : Database V → Run V → Option (Thread V)
  thread_of db r = find? (has_thread_id r.thread_id) db.threads

  abbrev pub is_joined : Database V → Run V → Bool
  is_joined db r = any (has_thread_id r.thread_id) db.threads

  abbrev pub joined_id : Option (Thread V) → Datum V
  joined_id none = null
  joined_id (some t) = text t.thread_id

  abbrev pub joined_metadata : Option (Thread V) → Datum V
  joined_metadata none = null
  joined_metadata (some t) = json t.metadata

  abbrev pub run_row : Database V → Run V → Column → Datum V
  run_row db r run_id = text r.run_id
  run_row db r run_thread_id = text r.thread_id
  run_row db r run_status = text (status_name r.status)
  run_row db r run_metadata = json r.metadata
  run_row db r thread_id = joined_id (thread_of db r)
  run_row db r thread_metadata = joined_metadata (thread_of db r)
  run_row db r own_metadata = json r.metadata
  run_row db r own_status = text (status_name r.status)
  run_row db r own_values = null

  -- A row of `thread` or of `assistant`, whose dynamic conditions read `metadata` alone.
  abbrev pub metadata_row : V → Column → Datum V
  metadata_row m own_metadata = json m
  metadata_row m _ = null

  -- `UPDATE run SET … WHERE …`
  abbrev pub update_runs : (Run V → Bool) → (Run V → Run V) → List (Run V) → List (Run V)
  update_runs p f [] = []
  update_runs p f (r ∷ rs) = (if p r then f r else r) ∷ update_runs p f rs
