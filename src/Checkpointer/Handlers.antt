-- ===== src/Checkpointer/Handlers.antt =====
-- The handlers of internal/checkpointer/service.go: requests as store inputs, rowToTuple and replies.
-- Every error is Internal. The order in which Go visits a map is that of the list.
use langsmith_deployment_go.Prelude.{
  ℕ, suc, String, Option, none, some, List, [], ◌∷◌, str_eq, if◌then◌else◌, Result, ok, err, ◌>>=◌,
}
use langsmith_deployment_go.Sql.{Postgres}
use langsmith_deployment_go.Runs.Model.{Database, ℤ, pos, negsuc, Checkpoint}
use langsmith_deployment_go.Service.Signals.{Reply, reply, status, code_internal}
use langsmith_deployment_go.Checkpointer.Rows.{
  BlobInput, WriteInput, PutInput, PutWritesInput, put, put_writes,
}
use langsmith_deployment_go.Checkpointer.Reads.{CheckpointRow, get_tuple, list_checkpoints}
use langsmith_deployment_go.Checkpointer.Copying.{
  delete_thread_checkpoints, delete_for_runs, copy_thread, prune,
}
use langsmith_deployment_go.Checkpointer.Json.{JsonCodec}
use langsmith_deployment_go.Checkpointer.Messages.{
  CheckpointState, CheckpointMetadata, marshal_checkpoint, marshal_metadata, as_map,
  read_checkpoint, read_metadata,
}
use langsmith_deployment_go.Checkpointer.Values.{
  ChannelValue, serialized_value, ValueCodec, encode_write_value, version_under, blob_values,
  pending_sends, add_sends, pending_writes,
}

-- The configurable fields of a config, "" for an absent one.
pub record CheckpointConfig : Type 0 where
  pub thread_id : String
  pub checkpoint_ns : String
  pub checkpoint_id : String
  pub run_id : String

-- A checkpoint and its metadata are there.
pub record PutRequest : Type 0 where
  pub config : CheckpointConfig
  pub id : String
  pub checkpoint : CheckpointState
  pub channel_values : List (String × ChannelValue)
  pub metadata : CheckpointMetadata
  pub new_versions : List (String × String)

-- channel and value of each write
pub record PutWritesRequest : Type 0 where
  pub config : CheckpointConfig
  pub task_id : String
  pub task_path : String
  pub writes : List (String × Option ChannelValue)

pub record CheckpointTuple : Type 0 where
  pub config : CheckpointConfig
  pub checkpoint : CheckpointState
  pub channel_values : List (String × ChannelValue)
  pub metadata : CheckpointMetadata
  pub pending_writes : List (String × String × ChannelValue)
  pub parent_config : Option CheckpointConfig

-- writesIdxMap
unfoldable pub writes_idx_map : String → Option ℤ
writes_idx_map s =
    if str_eq s "__error__"
    then some (negsuc 0)
    else if str_eq s "__scheduled__"
    then some (negsuc 1)
    else if str_eq s "__interrupt__"
    then some (negsuc 2)
    else if str_eq s "__resume__"
    then some (negsuc 3)
    else none

-- The blobs of the serialized channel values.
abbrev pub blob_inputs : List (String × String) → List (String × ChannelValue) → List BlobInput
blob_inputs versions [] = []
blob_inputs versions ((k, serialized_value encoding bytes) ∷ rest) =
    record {
      channel = k;
      version = elim (version_under k versions) [ none ↦ "" | some s ↦ s ];
      encoding = encoding;
      blob = some bytes;
    }
    ∷ blob_inputs versions rest
blob_inputs versions ((k, _) ∷ rest) = blob_inputs versions rest

abbrev pub next_config : CheckpointConfig → String → CheckpointConfig
next_config c id = record c { checkpoint_id = id; run_id = "" }

abbrev pub done_reply : {A : Type 0} → Result A → Reply (Unit {0})
done_reply (err e) = status code_internal
done_reply (ok a) = reply tt

module _ (pb : ValueCodec) where
  -- The loop over the writes: `i` is the index of the next one.
  unfoldable pub write_inputs : ℕ → List (String × Option ChannelValue) → List WriteInput
  write_inputs i [] = []
  write_inputs i ((channel, value) ∷ rest) =
      record {
        idx = elim (writes_idx_map channel) [ none ↦ pos i | some n ↦ n ];
        channel = channel;
        encoding = (encode_write_value pb value).0;
        blob = (encode_write_value pb value).1;
      }
      ∷ write_inputs (suc i) rest

module _ {V : Type 0} (pg : Postgres V) (js : JsonCodec V) (pb : ValueCodec) where
  abbrev pub put_input : PutRequest → PutInput
  put_input req = record {
    thread_id = req.config.thread_id;
    checkpoint_ns = req.config.checkpoint_ns;
    checkpoint_id = req.id;
    parent_checkpoint_id = req.config.checkpoint_id;
    run_id = if str_eq req.config.run_id "" then req.metadata.run_id else req.config.run_id;
    checkpoint_json = js.print (marshal_checkpoint req.id req.checkpoint);
    metadata_json = js.print (marshal_metadata req.metadata);
    blobs = blob_inputs req.new_versions req.channel_values;
  }

  abbrev pub put_reply :
      PutRequest → Result (Unit {0}) × Database V → Reply CheckpointConfig × Database V
  put_reply req (err e, db) = (status code_internal, db)
  put_reply req (ok u, db) = (reply (next_config req.config req.id), db)

  -- Service.Put
  unfoldable pub put_rpc : ℕ → Database V → PutRequest → Reply CheckpointConfig × Database V
  put_rpc now db req = put_reply req (put pg now db (put_input req))

  abbrev pub writes_input : PutWritesRequest → PutWritesInput
  writes_input req = record {
    thread_id = req.config.thread_id;
    checkpoint_ns = req.config.checkpoint_ns;
    checkpoint_id = req.config.checkpoint_id;
    task_id = req.task_id;
    task_path = req.task_path;
    writes = write_inputs pb 0 req.writes;
  }

  -- Service.PutWrites
  unfoldable pub put_writes_rpc : ℕ → Database V → PutWritesRequest → Reply (Unit {0}) × Database V
  put_writes_rpc now db req =
      let done = put_writes pg now db (writes_input req) in (done_reply done.0, done.1)

  abbrev pub config_at : Checkpoint V → String → CheckpointConfig
  config_at c id = record {
    thread_id = c.thread_id;
    checkpoint_ns = c.checkpoint_ns;
    checkpoint_id = id;
    run_id = "";
  }

  abbrev pub parent_of : Checkpoint V → Option CheckpointConfig
  parent_of c = elim c.parent_checkpoint_id [ none ↦ none | some p ↦ some (config_at c p) ]

  -- rowToTuple
  unfoldable pub row_to_tuple : CheckpointRow V → Result CheckpointTuple
  row_to_tuple r = as_map (js.tree r.row.checkpoint) >>= λ fs.
      let cp = read_checkpoint fs in
      blob_values pb cp.channel_versions r.blobs [] >>= λ values.
      pending_sends pb r.pending_sends >>= λ ss. as_map (js.tree r.row.metadata) >>= λ ms.
      pending_writes pb r.writes >>= λ ws. ok (record {
        config = config_at r.row r.row.checkpoint_id;
        checkpoint = cp;
        channel_values = add_sends ss values;
        metadata = read_metadata ms;
        pending_writes = ws;
        parent_config = parent_of r.row;
      })

  abbrev pub tuple_reply : Result (Option (CheckpointRow V)) → Reply (Option CheckpointTuple)
  tuple_reply (err e) = status code_internal
  tuple_reply (ok none) = reply none
  tuple_reply (ok (some r)) = elim (row_to_tuple r) [
    | err e ↦ status code_internal
    | ok t ↦ reply (some t)
  ]

  -- Service.GetTuple
  unfoldable pub get_tuple_rpc : Database V → CheckpointConfig → Reply (Option CheckpointTuple)
  get_tuple_rpc db c = tuple_reply (get_tuple pg db c.thread_id c.checkpoint_ns c.checkpoint_id)

  unfoldable pub rows_to_tuples : List (CheckpointRow V) → Result (List CheckpointTuple)
  rows_to_tuples [] = ok []
  rows_to_tuples (r ∷ rs) = row_to_tuple r >>= λ t. rows_to_tuples rs >>= λ ts. ok (t ∷ ts)

  abbrev pub list_reply : Result (List CheckpointTuple) → Reply (List CheckpointTuple)
  list_reply (err e) = status code_internal
  list_reply (ok ts) = reply ts

  -- Service.List
  unfoldable pub list_rpc :
      Database V
      → CheckpointConfig
      → Option CheckpointConfig
      → Option ℕ
      → Option String
      → Reply (List CheckpointTuple)
  list_rpc db c before limit filter = list_reply (
      list_checkpoints pg db c.thread_id c.checkpoint_ns
        (elim before [ none ↦ "" | some b ↦ b.checkpoint_id ]) limit filter
      >>= λ rows. rows_to_tuples rows)

module _ {V : Type 0} (pg : Postgres V) where
  -- The database after a statement that may fail.
  abbrev pub kept_or : Database V → Result (Database V) → Reply (Unit {0}) × Database V
  kept_or db (err e) = (status code_internal, db)
  kept_or db (ok db') = (reply tt, db')

  -- Service.DeleteThread
  unfoldable pub delete_thread_checkpoints_rpc : Database V → String → Reply (Unit {0}) × Database V
  delete_thread_checkpoints_rpc db thread = kept_or db (delete_thread_checkpoints pg db thread)

  -- Service.DeleteForRuns
  unfoldable pub delete_for_runs_rpc : Database V → List String → Reply (Unit {0}) × Database V
  delete_for_runs_rpc db runs = kept_or db (delete_for_runs pg db runs)

  -- Service.CopyThread
  unfoldable pub copy_checkpoints_rpc :
      ℕ → Database V → String → String → Reply (Unit {0}) × Database V
  copy_checkpoints_rpc now db from to =
      let done = copy_thread pg now db from to in (done_reply done.0, done.1)

  -- Service.Prune
  unfoldable pub prune_rpc : Database V → List String → ℕ → Reply (Unit {0}) × Database V
  prune_rpc db threads strategy = kept_or db (prune pg db threads strategy)
