-- ===== src/Checkpointer/Steps.antt =====
-- The handlers of internal/checkpointer/service.go that write, as steps of the database.
use langsmith_deployment_go.Prelude.{
  ℕ, String, ◌≡◌, refl, sym, subst, true, ◌&&◌, ◌||◌, some, List, [], ◌∷◌, ◌==◌, all, inl, inr,
  Bool-cases, IsIn-keep, Result, ok, err, database, from_option,
}
use langsmith_deployment_go.Sql.{Postgres, cast_uuids}
use langsmith_deployment_go.Runs.Model.{Database, Checkpoint, CheckpointWrite, CheckpointBlob}
use langsmith_deployment_go.Runs.Create.{uuid_of, or_default}
use langsmith_deployment_go.Runs.Creating.{OnOk, OnOk-then, OnOk-check, value_of, committed-either}
use langsmith_deployment_go.Checkpointer.Rows.{
  same_write, same_blob, has_thread, put, put_steps, put_each_write, put_writes,
}
use langsmith_deployment_go.Checkpointer.Copying.{
  is_none_left, delete_thread_checkpoints, delete_for_runs, copied_checkpoints, copied_blobs,
  copied_writes, copy_thread_rows, copy_thread, prune,
}
use langsmith_deployment_go.Checkpointer.Values.{ChannelValue, ValueCodec}
use langsmith_deployment_go.Checkpointer.Json.{JsonCodec}
use langsmith_deployment_go.Checkpointer.Handlers.{
  PutRequest, PutWritesRequest, put_input, put_reply, put_rpc, writes_input, put_writes_rpc,
  kept_or, delete_thread_checkpoints_rpc, delete_for_runs_rpc, copy_checkpoints_rpc, prune_rpc,
}
use langsmith_deployment_go.Checkpointer.Holding.{insert_each-holds, map-holds}
use langsmith_deployment_go.Checkpointer.Loading.{decodes, IsReadable}
use langsmith_deployment_go.Checkpointer.Readable.{
  is_plain, is_plain_write, blob_inputs-decode, write_inputs-decode, put_steps-IsReadable,
  put_each_write-IsReadable,
}

module _ {V : Type 0} (pg : Postgres V) where
  put_reply-database :
      (js : JsonCodec V) (pb : ValueCodec) (req : PutRequest) (x : Result (Unit {0}) × Database V)
      → (put_reply pg js pb req x).1 ≡ x.1
  put_reply-database js pb req (err e, db) = refl
  put_reply-database js pb req (ok u, db) = refl

  kept_or-holds :
      (Q : Database V → Type 0) (db : Database V) (r : Result (Database V))
      → Q db
      → OnOk Q r
      → Q (kept_or pg db r).1
  kept_or-holds Q db (err e) k h = k
  kept_or-holds Q db (ok d) k h = h

module _ {V : Type 0} (pg : Postgres V) (js : JsonCodec V) (pb : ValueCodec) where
  pub put_rpc-IsReadable :
      (now : ℕ) (db : Database V) (req : PutRequest)
      → all (λ e. is_plain e.1) req.channel_values ≡ true
      → IsReadable pb db
      → IsReadable pb (put_rpc pg js pb now db req).1
  unfolding put_rpc put
  put_rpc-IsReadable now db req plain good =
      let i = put_input pg js pb req in
      subst (IsReadable pb) (sym (put_reply-database pg js pb req (put pg now db i))) (
        committed-either pg (IsReadable pb) db (put_steps pg now db i) good (
          put_steps-IsReadable pg pb now db i
            (blob_inputs-decode pb req.new_versions req.channel_values plain) good))

  put_writes_rpc-IsReadable :
      (now : ℕ) (db : Database V) (req : PutWritesRequest)
      → ((x : ChannelValue) → (y : ChannelValue) × (pb.unmarshal (pb.marshal x) ≡ some y))
      → all (λ e. is_plain_write e.1) req.writes ≡ true
      → IsReadable pb db
      → IsReadable pb (put_writes_rpc pg js pb now db req).1
  unfolding put_writes_rpc put_writes
  put_writes_rpc-IsReadable now db req back plain good =
      let i = writes_input pg js pb req in
      let P : Unit {0} × Database V → Type 0 = λ x. IsReadable pb x.1 in
      let inputs = write_inputs-decode pb back 0 req.writes plain in
      committed-either pg (IsReadable pb) db _ good (
        OnOk-then P (put_each_write pg i i.writes db) _ (λ d e.
          OnOk-then P (uuid_of pg i.thread_id) _ (λ t _.
            let stored : IsReadable pb d =
              value_of (IsReadable pb) (put_each_write-IsReadable pg pb i i.writes db inputs good)
                e in
            record { blobs = stored.blobs; writes = stored.writes })))

  copy_checkpoints_rpc-IsReadable :
      (now : ℕ) (db : Database V) (from to : String)
      → IsReadable pb db
      → IsReadable pb (copy_checkpoints_rpc pg now db from to).1
  unfolding copy_checkpoints_rpc copy_thread copy_thread_rows
  copy_checkpoints_rpc-IsReadable now db from to good =
      let P : Unit {0} × Database V → Type 0 = λ x. IsReadable pb x.1 in
      committed-either pg (IsReadable pb) db _ good (
        OnOk-then P (uuid_of pg from) _ (λ f _. OnOk-then P (uuid_of pg to) _ (λ t _.
          let cs = copied_checkpoints pg f t db in
          let bs = copied_blobs pg f t db in
          let ws = copied_writes pg f t db in
          OnOk-check P
            (has_thread db t || (is_none_left cs && (is_none_left bs && is_none_left ws))) database
            _
            (λ _. record {
              blobs =
                  insert_each-holds
                    (λ (b : CheckpointBlob). decodes pb b.encoding (or_default "" b.blob) ≡ true)
                    same_blob bs db.checkpoint_blobs
                    (map-holds _ _ _ (λ b m. good.blobs b (IsIn-keep _ b _ m).0)) good.blobs;
              writes =
                  insert_each-holds (λ (w : CheckpointWrite). decodes pb w.encoding w.blob ≡ true)
                    same_write ws db.checkpoint_writes
                    (map-holds _ _ _ (λ w m. good.writes w (IsIn-keep _ w _ m).0)) good.writes;
            }))))

  -- Only the checkpoints differ.
  abbrev same_values :
      {db : Database V}
      → IsReadable pb db
      → (cs : List (Checkpoint V)) → IsReadable pb (record db { checkpoints = cs })
  same_values good cs = record { blobs = good.blobs; writes = good.writes }

  prune-IsReadable :
      (db : Database V) (threads : List String) (strategy : ℕ)
      → IsReadable pb db
      → OnOk (IsReadable pb) (prune pg db threads strategy)
  unfolding prune
  prune-IsReadable db [] strategy good = good
  prune-IsReadable db (t ∷ ts) strategy good =
      let us = from_option database (cast_uuids pg (t ∷ ts)) in
      elim (Bool-cases (strategy == 2)) [
        | inl b ↦ rw b (OnOk-then (IsReadable pb) us _ (λ l _. same_values good _))
        | inr b ↦ elim (Bool-cases (strategy == 1)) [
          | inl c ↦ rw (b, c) (OnOk-then (IsReadable pb) us _ (λ l _. same_values good _))
          | inr c ↦ rw (b, c) tt
        ]
      ]

  delete_for_runs-IsReadable :
      (db : Database V) (runs : List String)
      → IsReadable pb db
      → OnOk (IsReadable pb) (delete_for_runs pg db runs)
  unfolding delete_for_runs
  delete_for_runs-IsReadable db [] good = good
  delete_for_runs-IsReadable db (r ∷ rs) good =
      OnOk-then (IsReadable pb) (from_option database (cast_uuids pg (r ∷ rs))) _
        (λ us _. same_values good _)

  delete_thread_checkpoints-IsReadable :
      (db : Database V) (thread : String)
      → IsReadable pb db
      → OnOk (IsReadable pb) (delete_thread_checkpoints pg db thread)
  unfolding delete_thread_checkpoints
  delete_thread_checkpoints-IsReadable db thread good =
      OnOk-then (IsReadable pb) (uuid_of pg thread) _ (λ u _. same_values good _)

  -- A request, whatever it answers. The values of a Put and a PutWrites are plain.
  pub data CheckpointStep : Database V → Database V → Type 0 where
    by_put :
        (now : ℕ) (req : PutRequest) (db : Database V)
        → all (λ e. is_plain e.1) req.channel_values ≡ true
        → CheckpointStep db (put_rpc pg js pb now db req).1
    by_put_writes :
        (now : ℕ) (req : PutWritesRequest) (db : Database V)
        → all (λ e. is_plain_write e.1) req.writes ≡ true
        → CheckpointStep db (put_writes_rpc pg js pb now db req).1
    by_delete_thread :
        (thread : String) (db : Database V)
        → CheckpointStep db (delete_thread_checkpoints_rpc pg db thread).1
    by_delete_for_runs :
        (runs : List String) (db : Database V)
        → CheckpointStep db (delete_for_runs_rpc pg db runs).1
    by_copy :
        (now : ℕ) (from to : String) (db : Database V)
        → CheckpointStep db (copy_checkpoints_rpc pg now db from to).1
    by_prune :
        (threads : List String) (strategy : ℕ) (db : Database V)
        → CheckpointStep db (prune_rpc pg db threads strategy).1

  pub data CheckpointSteps : Database V → Database V → Type 0 where
    no_step : (db : Database V) → CheckpointSteps db db
    one_more : (a b c : Database V) → CheckpointSteps a b → CheckpointStep b c → CheckpointSteps a c

  CheckpointStep-IsReadable :
      (a b : Database V)
      → ((x : ChannelValue) → (y : ChannelValue) × (pb.unmarshal (pb.marshal x) ≡ some y))
      → CheckpointStep a b
      → IsReadable pb a
      → IsReadable pb b
  unfolding delete_thread_checkpoints_rpc delete_for_runs_rpc prune_rpc
  CheckpointStep-IsReadable a b back (by_put now req _ plain) good =
      put_rpc-IsReadable now a req plain good
  CheckpointStep-IsReadable a b back (by_put_writes now req _ plain) good =
      put_writes_rpc-IsReadable now a req back plain good
  CheckpointStep-IsReadable a b back (by_delete_thread thread _) good =
      kept_or-holds pg (IsReadable pb) a _ good (delete_thread_checkpoints-IsReadable a thread good)
  CheckpointStep-IsReadable a b back (by_delete_for_runs runs _) good =
      kept_or-holds pg (IsReadable pb) a _ good (delete_for_runs-IsReadable a runs good)
  CheckpointStep-IsReadable a b back (by_copy now from to _) good =
      copy_checkpoints_rpc-IsReadable now a from to good
  CheckpointStep-IsReadable a b back (by_prune threads strategy _) good =
      kept_or-holds pg (IsReadable pb) a _ good (prune-IsReadable a threads strategy good)

  -- If every stored blob and write decodes, so does every one after any sequence of Puts, PutWrites,
  -- DeleteThreads, DeleteForRuns, CopyThreads and Prunes. Protobuf decodes whatever it writes, and no
  -- serialized value of a request has the encoding that the service keeps for protobuf.
  pub CheckpointSteps-IsReadable :
      (a b : Database V)
      → ((x : ChannelValue) → (y : ChannelValue) × (pb.unmarshal (pb.marshal x) ≡ some y))
      → CheckpointSteps a b
      → IsReadable pb a
      → IsReadable pb b
  CheckpointSteps-IsReadable a b back (no_step _) good = good
  CheckpointSteps-IsReadable a c back (one_more _ b _ before last) good =
      CheckpointStep-IsReadable b c back last (CheckpointSteps-IsReadable a b back before good)
