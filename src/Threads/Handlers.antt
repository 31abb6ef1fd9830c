-- ===== src/Threads/Handlers.antt =====
-- The handlers of internal/threads/service.go but for Stream: each gives its reply, the database
-- after it, and the commands that it sends to Redis. A thread stands for its message.
use langsmith_deployment_go.Prelude.{
  ℕ, ◌*◌, String, Bool, true, false, ◌&&◌, Option, none, some, List, [], map, str_eq, if◌then◌else◌,
  Error, not_found, forbidden, failed_precondition, already_exists, Result, ok, err,
}
use langsmith_deployment_go.Sql.{Postgres}
use langsmith_deployment_go.Auth.{Filters, nil}
use langsmith_deployment_go.Redis.{Command, push, run_queue_key}
use langsmith_deployment_go.Runs.Model.{Thread, Database}
use langsmith_deployment_go.Runs.Insert.{committed}
use langsmith_deployment_go.Service.Signals.{
  Backend, Code, reply, status, code_not_found, code_internal, code_already_exists,
  code_failed_precondition, when,
}
use langsmith_deployment_go.Service.Handlers.{Outcome}
use langsmith_deployment_go.Threads.Query.{
  ThreadSearch, get_thread, search_threads, count_threads, get_graph_id,
}
use langsmith_deployment_go.Threads.Rows.{
  CreateThreadInput, PatchThreadInput, create_thread, patch_thread, delete_thread, copy_row,
}
use langsmith_deployment_go.Threads.Status.{
  SetStatusInput, SetJointStatusInput, base_status, set_thread_status, set_joint_status,
}
use langsmith_deployment_go.Checkpointer.Copying.{copy_thread_rows}

pub data ThreadStatus : Type 0 where
  idle_thread busy_thread interrupted_thread error_thread : ThreadStatus

-- thStatusEnumToText
unfoldable pub th_status_enum_to_text : ThreadStatus → String
th_status_enum_to_text idle_thread = "idle"
th_status_enum_to_text busy_thread = "busy"
th_status_enum_to_text interrupted_thread = "interrupted"
th_status_enum_to_text error_thread = "error"

-- thStatusTextToEnum
unfoldable pub th_status_text_to_enum : String → ThreadStatus
th_status_text_to_enum s =
    if str_eq s "busy"
    then busy_thread
    else if str_eq s "interrupted"
    then interrupted_thread
    else if str_eq s "error"
    then error_thread
    else idle_thread

pub data ThreadsSortBy : Type 0 where
  unspecified_column thread_id_column status_column created_at_column : ThreadsSortBy
  updated_at_column state_updated_at_column : ThreadsSortBy

-- threadsSortByToColumn
unfoldable pub threads_sort_by_to_column : ThreadsSortBy → String
threads_sort_by_to_column thread_id_column = "thread_id"
threads_sort_by_to_column status_column = "status"
threads_sort_by_to_column created_at_column = "created_at"
threads_sort_by_to_column updated_at_column = "updated_at"
threads_sort_by_to_column _ = ""

-- extractTTLSeconds of a whole number of minutes
abbrev pub extract_ttl_seconds : Option ℕ → Option ℕ
extract_ttl_seconds none = none
extract_ttl_seconds (some minutes) = some (minutes * 60)

-- mapErr
abbrev pub map_thread_err : Error → Code
map_thread_err not_found = code_not_found
map_thread_err forbidden = code_not_found
map_thread_err failed_precondition = code_failed_precondition
map_thread_err _ = code_internal

-- The errors of Create
abbrev pub map_create_err : Error → Code
map_create_err already_exists = code_already_exists
map_create_err e = map_thread_err e

-- SearchThreadsRequest. `sort_ascending` is whether the order is ASC.
pub record SearchThreadsRequest : Type 0 where
  pub status : Option ThreadStatus
  pub metadata_json : Option String
  pub values_json : Option String
  pub ids : List String
  pub limit : ℕ
  pub offset : ℕ
  pub sort_column : Option ThreadsSortBy
  pub sort_ascending : Option Bool

-- ThreadTTLConfig is its default_ttl, and `do_nothing` whether if_exists is DO_NOTHING.
pub record CreateThreadRequest : Type 0 where
  pub thread_id : Option String
  pub metadata_json : Option String
  pub ttl_minutes : Option ℕ
  pub do_nothing : Bool

pub record CheckpointPayload : Type 0 where
  pub next : List String
  pub values_json : Option String
  pub interrupts_json : Option String

pub record SetThreadStatusRequest : Type 0 where
  pub thread_id : String
  pub checkpoint : Option CheckpointPayload
  pub exception_json : Option String
  pub expected_status : List ThreadStatus

abbrev pub status_text : Option ThreadStatus → String
status_text none = ""
status_text (some s) = th_status_enum_to_text s

abbrev pub column_text : Option ThreadsSortBy → String
column_text none = ""
column_text (some c) = threads_sort_by_to_column c

abbrev pub order_text : Option Bool → String
order_text none = ""
order_text (some true) = "asc"
order_text (some false) = "desc"

abbrev pub search_input : SearchThreadsRequest → ThreadSearch
search_input req = record {
  status = status_text req.status;
  metadata_filter = req.metadata_json;
  values_filter = req.values_json;
  ids = req.ids;
  limit = req.limit;
  offset = req.offset;
  sort_column = column_text req.sort_column;
  sort_order = order_text req.sort_ascending;
}

-- Count reads the status and the two JSON filters only.
abbrev pub count_input : SearchThreadsRequest → ThreadSearch
count_input req = record {
  status = status_text req.status;
  metadata_filter = req.metadata_json;
  values_filter = req.values_json;
  ids = [];
  limit = 0;
  offset = 0;
  sort_column = "";
  sort_order = "";
}

-- Create sends no config.
abbrev pub create_input : CreateThreadRequest → Filters → CreateThreadInput
create_input req fs = record {
  thread_id = elim req.thread_id [ none ↦ "" | some u ↦ u ];
  metadata = req.metadata_json;
  config = none;
  ttl_seconds = extract_ttl_seconds req.ttl_minutes;
  if_exists = if req.do_nothing then "do_nothing" else "raise";
  filters = fs;
}

abbrev pub patch_input : Option String → Option ℕ → PatchThreadInput
patch_input metadata minutes = record {
  metadata = metadata;
  config = none;
  ttl_seconds = extract_ttl_seconds minutes;
}

-- The protobuf getters of a checkpoint that is absent.
abbrev pub payload_of : Option CheckpointPayload → CheckpointPayload
payload_of none = record { next = []; values_json = none; interrupts_json = none }
payload_of (some c) = c

abbrev pub status_input : SetThreadStatusRequest → SetStatusInput
status_input req = record {
  thread_id = req.thread_id;
  status_text = base_status req.exception_json (payload_of req.checkpoint).next;
  values_json = (payload_of req.checkpoint).values_json;
  interrupts = (payload_of req.checkpoint).interrupts_json;
  expected_status = map th_status_enum_to_text req.expected_status;
}

module _ {V : Type 0} where
  -- What a store call leaves when it sends nothing.
  abbrev pub answered : {A : Type 0} → (Error → Code) → Result A × Database V → Outcome V A
  answered code (err e, db) = record { answer = status (code e); db = db; commands = [] }
  answered code (ok res, db) = record { answer = reply res; db = db; commands = [] }

  -- What a store call leaves whose value says what to send.
  abbrev pub sending :
      {A : Type 0} → (A → List Command) → Result A × Database V → Outcome V (Unit {0})
  sending sent (err e, db) = record { answer = status (map_thread_err e); db = db; commands = [] }
  sending sent (ok res, db) = record { answer = reply tt; db = db; commands = sent res }

module _ {V : Type 0} (pg : Postgres V) where
  -- Service.Get
  unfoldable pub get_thread_rpc : Database V → String → Filters → Outcome V (Thread V)
  get_thread_rpc db id fs = answered map_thread_err (get_thread pg db id fs, db)

  -- Service.Search
  unfoldable pub search_threads_rpc :
      (String → Option ℕ)
      → Database V
      → SearchThreadsRequest
      → Filters
      → Outcome V (List (Thread V))
  search_threads_rpc keys db req fs =
      answered map_thread_err (search_threads pg keys db (search_input req) fs, db)

  -- Service.Count
  unfoldable pub count_threads_rpc :
      (String → Option ℕ) → Database V → SearchThreadsRequest → Filters → Outcome V ℕ
  count_threads_rpc keys db req fs =
      answered map_thread_err (count_threads pg keys db (count_input req) fs, db)

  -- Service.GetGraphID, which has no filters
  unfoldable pub get_graph_id_rpc : Database V → String → Outcome V String
  get_graph_id_rpc db id = answered map_thread_err (get_graph_id pg db id nil, db)

  -- Service.Create
  unfoldable pub create_thread_rpc :
      ℕ → Database V → String → CreateThreadRequest → Filters → Outcome V (Thread V)
  create_thread_rpc now db fresh req fs =
      answered map_create_err (create_thread pg now db fresh (create_input req fs))

  -- Service.Patch
  unfoldable pub patch_thread_rpc :
      ℕ → Database V → String → Option String → Option ℕ → Filters → Outcome V (Thread V)
  patch_thread_rpc now db id metadata minutes fs =
      answered map_thread_err (patch_thread pg now db id (patch_input metadata minutes) fs)

  -- Service.Delete
  unfoldable pub delete_thread_rpc : Database V → String → Filters → Outcome V String
  delete_thread_rpc db id fs = answered map_thread_err (delete_thread pg db id fs)

  -- Service.SetStatus: a busy thread wakes a worker with its id.
  unfoldable pub set_thread_status_rpc :
      Backend → ℕ → Database V → SetThreadStatusRequest → Outcome V (Unit {0})
  set_thread_status_rpc b now db req =
      sending (λ busy. when (busy && b.has_redis) (push run_queue_key req.thread_id))
        (set_thread_status pg now db (status_input req))

  -- Service.SetJointStatus: a run that is pending again wakes a worker.
  unfoldable pub set_joint_status_rpc :
      Backend → ℕ → Database V → SetJointStatusInput → Outcome V (Unit {0})
  set_joint_status_rpc b now db i =
      sending
        (λ _. when (str_eq i.run_status "pending" && b.has_redis) (push run_queue_key i.run_id))
        (set_joint_status pg now db i)

  -- The checkpoints of a copied thread: every error of the copy is Internal, and rolls back.
  abbrev pub with_checkpoints :
      Database V → Thread V → Result (Unit {0} × Database V) → Outcome V (Thread V)
  with_checkpoints db t (err e) = record { answer = status code_internal; db = db; commands = [] }
  with_checkpoints db t (ok done) = record { answer = reply t; db = done.1; commands = [] }

  abbrev pub copied_row :
      ℕ → Database V → String → Result (Thread V × Database V) → Outcome V (Thread V)
  copied_row now db source (err e) = record {
    answer = status (map_thread_err e);
    db = db;
    commands = [];
  }
  copied_row now db source (ok made) =
      with_checkpoints db made.0 (copy_thread_rows pg now made.1 source made.0.thread_id)

  -- Service.Copy. `copier` is whether a CheckpointerCopier is wired: then the row and the
  -- checkpoints are copied in one transaction.
  unfoldable pub copy_thread_rpc :
      Bool → ℕ → Database V → String → String → Filters → Outcome V (Thread V)
  copy_thread_rpc copier now db fresh source fs =
      if copier
      then copied_row now db source (copy_row pg now db fresh source fs)
      else answered map_thread_err (committed pg db (copy_row pg now db fresh source fs))
