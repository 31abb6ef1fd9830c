-- ===== src/Checkpointer/Readback.antt =====
-- Put and GetTuple of internal/checkpointer/service.go together.
use langsmith_deployment_go.Prelude.{
  ℕ, String, ◌≡◌, refl, sym, ap, ◌∙◌, subst, true, false, not, some, arith, str_eq, all, Result, ok,
  err, ok-injective, List, [],
}
use langsmith_deployment_go.Sql.{Postgres}
use langsmith_deployment_go.Runs.Model.{Database, Checkpoint, CheckpointBlob}
use langsmith_deployment_go.Service.Signals.{reply}
use langsmith_deployment_go.Checkpointer.Rows.{put}
use langsmith_deployment_go.Checkpointer.Reads.{CheckpointRow, get_tuple, load_blobs_and_writes}
use langsmith_deployment_go.Checkpointer.Stored.{get_tuple-put}
use langsmith_deployment_go.Checkpointer.Json.{
  Json, object_json, Fields, no_fields, lookup, JsonCodec,
}
use langsmith_deployment_go.Checkpointer.Messages.{
  CheckpointState, CheckpointMetadata, marshal_checkpoint, marshal_metadata, as_map, as_text,
  as_texts, as_source, as_number, read_checkpoint, read_metadata, is_known_key,
}
use langsmith_deployment_go.Checkpointer.Values.{
  Send, ChannelValue, blob_values, ValueCodec, add_sends,
}
use langsmith_deployment_go.Checkpointer.Handlers.{
  PutRequest, CheckpointTuple, next_config, put_input, put_reply, put_rpc, config_at, parent_of,
  row_to_tuple, tuple_reply, get_tuple_rpc,
}
use langsmith_deployment_go.Checkpointer.Coding.{
  read_checkpoint-marshal_checkpoint, is_plain_source, read_metadata-marshal_metadata,
}
use langsmith_deployment_go.Checkpointer.Readable.{is_plain}
use langsmith_deployment_go.Checkpointer.Steps.{put_rpc-IsReadable}
use langsmith_deployment_go.Checkpointer.Loading.{IsReadable, load_blobs_and_writes-decodes}

abbrev pub object_fields : Json → Fields
object_fields (object_json fs) = fs
object_fields _ = no_fields

-- The fields of an object under the keys that rowToTuple asks for are those of the other.
abbrev Agree : Fields → Fields → Type 0
Agree fs gs = (k : String) → lookup k gs ≡ lookup k fs

read_checkpoint-Agree : (fs gs : Fields) → Agree fs gs → read_checkpoint gs ≡ read_checkpoint fs
unfolding read_checkpoint
read_checkpoint-Agree fs gs same =
    rw (same "v", same "ts", same "channel_versions", same "versions_seen", same "updated_channels")
      refl

-- The known metadata fields of two messages.
abbrev pub SameFields : CheckpointMetadata → CheckpointMetadata → Type 0
SameFields a b =
    (a.source ≡ b.source) × (a.step ≡ b.step) × (a.parents ≡ b.parents) × (a.run_id ≡ b.run_id)

read_metadata-Agree :
    (md : CheckpointMetadata) (fs gs : Fields)
    → Agree fs gs
    → SameFields (read_metadata fs) md
    → SameFields (read_metadata gs) md
unfolding read_metadata
read_metadata-Agree md fs gs same h = (
  ap as_source (same "source") ∙ h.0,
  ap as_number (same "step") ∙ h.1,
  ap as_texts (same "parents") ∙ h.2,
  ap as_text (same "run_id") ∙ h.3,
)

module _ {V : Type 0} (pg : Postgres V) (js : JsonCodec V) (pb : ValueCodec) where
  -- A tree that comes back from the column as an object with the same field under every key, in
  -- whatever order.
  abbrev pub ComesBack : Json → Type 0
  ComesBack j =
      (v : V)
      → pg.parse (js.print j) ≡ some v
      → (gs : Fields) × (js.tree v ≡ some (object_json gs)) × Agree (object_fields j) gs

  checkpoint_read :
      (id : String) (cp : CheckpointState) (v : V)
      → ComesBack (marshal_checkpoint id cp)
      → pg.parse (js.print (marshal_checkpoint id cp)) ≡ some v
      → (gs : Fields) × (as_map (js.tree v) ≡ ok gs) × (read_checkpoint gs ≡ cp)
  unfolding marshal_checkpoint
  checkpoint_read id cp v back e =
      let (gs, tree, same) = back v e in
      let (fs, is_map, read) = read_checkpoint-marshal_checkpoint id cp in
      let own : object_fields (marshal_checkpoint id cp) ≡ fs = ok-injective _ _ is_map in
      (gs, ap as_map tree, read_checkpoint-Agree _ gs same ∙ ap read_checkpoint own ∙ read)

  metadata_read :
      (md : CheckpointMetadata) (v : V)
      → is_plain_source md.source ≡ true
      → all (λ e. not (is_known_key e.0)) md.extras ≡ true
      → ComesBack (marshal_metadata md)
      → pg.parse (js.print (marshal_metadata md)) ≡ some v
      → (gs : Fields) × (as_map (js.tree v) ≡ ok gs) × SameFields (read_metadata gs) md
  unfolding marshal_metadata
  metadata_read md v plain own_names back e =
      let (gs, tree, same) = back v e in
      let (fs, is_map, read) = read_metadata-marshal_metadata md plain own_names in
      let own : object_fields (marshal_metadata md) ≡ fs = ok-injective _ _ is_map in
      (gs, ap as_map tree, read_metadata-Agree md fs gs (λ k. same k ∙ ap (lookup k) own) read)

  -- The channel values are those of the blobs, below the pending sends.
  abbrev pub HasValues : List (String × String) → List CheckpointBlob → CheckpointTuple → Type 0
  HasValues versions bs t =
      (ss : List Send) × (vs : List (String × ChannelValue)) × (t.channel_values ≡ add_sends ss vs)
      × (blob_values pb versions bs [] ≡ ok vs)

  -- A row whose documents are objects and whose values decode becomes a tuple.
  row_to_tuple-total :
      (db : Database V) (c : Checkpoint V) (fs ms : Fields)
      → IsReadable pb db
      → as_map (js.tree c.checkpoint) ≡ ok fs
      → as_map (js.tree c.metadata) ≡ ok ms
      → (t : CheckpointTuple) × (row_to_tuple pg js pb (load_blobs_and_writes db c) ≡ ok t)
        × (t.checkpoint ≡ read_checkpoint fs)
        × (t.metadata ≡ read_metadata ms)
        × (t.config ≡ config_at pg js pb c c.checkpoint_id)
        × HasValues (read_checkpoint fs).channel_versions (load_blobs_and_writes db c).blobs t
  unfolding row_to_tuple load_blobs_and_writes
  row_to_tuple-total db c fs ms good a b =
      let ((vs, x), (ss, y), (ws, z)) =
        load_blobs_and_writes-decodes pb db good c (read_checkpoint fs).channel_versions in
      (
        record {
          config = config_at pg js pb c c.checkpoint_id;
          checkpoint = read_checkpoint fs;
          channel_values = add_sends ss vs;
          metadata = read_metadata ms;
          pending_writes = ws;
          parent_config = parent_of pg js pb c;
        },
        rw (a, x, y, b, z) refl,
        refl,
        refl,
        refl,
        (ss, vs, refl, x),
      )

  replied :
      (r : CheckpointRow V) (t : CheckpointTuple)
      → row_to_tuple pg js pb r ≡ ok t
      → tuple_reply pg js pb (ok (some r)) ≡ reply (some t)
  replied r t h = rw (h, tuple_reply) refl

  pub answered :
      (req : PutRequest) (x : Result (Unit {0}) × Database V)
      → (put_reply pg js pb req x).0 ≡ reply (next_config req.config req.id)
      → (x.0 ≡ ok tt) × ((put_reply pg js pb req x).1 ≡ x.1)
  answered req (err e, db) h = absurd (ground (arith, h))
  answered req (ok u, db) h = (refl, refl)

  -- The tuple that is read, and the rows that its channel values come from.
  abbrev pub ReadBack : ℕ → Database V → PutRequest → String → String → CheckpointTuple → Type 0
  ReadBack now db req u v t =
      (get_tuple_rpc pg js pb (put_rpc pg js pb now db req).1 (next_config req.config req.id)
        ≡ reply (some t))
      × (t.checkpoint ≡ req.checkpoint)
      × SameFields t.metadata req.metadata
      × (t.config ≡ record {
        thread_id = u;
        checkpoint_ns = req.config.checkpoint_ns;
        checkpoint_id = v;
        run_id = "";
      })
      × ((c : Checkpoint V) × (c.thread_id ≡ u)
          × (c.checkpoint_ns ≡ req.config.checkpoint_ns)
          × HasValues req.checkpoint.channel_versions
              (load_blobs_and_writes (put pg now db (put_input pg js pb req)).1 c).blobs t)

  pub put_rpc-ReadBack :
      (now : ℕ) (db : Database V) (req : PutRequest) (u v : String)
      → pg.uuid req.config.thread_id ≡ some u
      → pg.uuid req.id ≡ some v
      → str_eq req.id "" ≡ false
      → is_plain_source req.metadata.source ≡ true
      → all (λ e. not (is_known_key e.0)) req.metadata.extras ≡ true
      → ComesBack (marshal_checkpoint req.id req.checkpoint)
      → ComesBack (marshal_metadata req.metadata)
      → all (λ e. is_plain e.1) req.channel_values ≡ true
      → IsReadable pb db
      → (put_rpc pg js pb now db req).0 ≡ reply (next_config req.config req.id)
      → (t : CheckpointTuple) × ReadBack now db req u v t
  unfolding get_tuple_rpc put_rpc
  put_rpc-ReadBack now db req u v ku kv named plain own_names back1 back2 values good done =
      let (ran, stored) = answered req (put pg now db (put_input pg js pb req)) done in
      let db' = (put pg now db (put_input pg js pb req)).1 in
      let (c, found, e1, e2, et, en, ei) =
        get_tuple-put pg now db (put_input pg js pb req) u v ku kv named ran in
      let (fs, a, ra) = checkpoint_read req.id req.checkpoint c.checkpoint back1 e1 in
      let (ms, b, rb) = metadata_read req.metadata c.metadata plain own_names back2 e2 in
      let (t, made, x, y, z, held) =
        row_to_tuple-total db' c fs ms
          (subst (IsReadable pb) stored (put_rpc-IsReadable pg js pb now db req values good)) a b in
      (
        t,
        (
          ap
                (λ d.
                  tuple_reply pg js pb
                    (get_tuple pg d req.config.thread_id req.config.checkpoint_ns req.id))
                stored
              ∙ ap (tuple_reply pg js pb) found
              ∙ replied (load_blobs_and_writes db' c) t made,
          x ∙ ra,
          subst (λ m. SameFields m req.metadata) (sym y) rb,
          z ∙ rw (et, en, ei) refl,
          (
            c,
            et,
            en,
            subst
                (λ (p : CheckpointState).
                  HasValues p.channel_versions (load_blobs_and_writes db' c).blobs t)
                ra held,
          ),
        ),
      )

  -- After an answered Put, GetTuple under the config that it answers gives a tuple under the thread,
  -- the namespace and the id of the checkpoint, with the fields of the request's checkpoint that its
  -- document holds (v, ts, the channel versions, the versions seen and the updated channels) and the
  -- source, step, parents and run id of its metadata. The thread and the checkpoint have uuids, the
  -- source is one that has a name or unknown, no extra of the metadata has the name of a known
  -- field, every stored value decodes, no serialized value of the request has the encoding that the
  -- service keeps for protobuf, and jsonb gives the two documents back up to the order of their
  -- fields.
  pub get_tuple_rpc-put_rpc :
      (now : ℕ) (db : Database V) (req : PutRequest) (u v : String)
      → pg.uuid req.config.thread_id ≡ some u
      → pg.uuid req.id ≡ some v
      → str_eq req.id "" ≡ false
      → is_plain_source req.metadata.source ≡ true
      → all (λ e. not (is_known_key e.0)) req.metadata.extras ≡ true
      → ComesBack (marshal_checkpoint req.id req.checkpoint)
      → ComesBack (marshal_metadata req.metadata)
      → all (λ e. is_plain e.1) req.channel_values ≡ true
      → IsReadable pb db
      → (put_rpc pg js pb now db req).0 ≡ reply (next_config req.config req.id)
      → (t : CheckpointTuple) × (get_tuple_rpc pg js pb
            (put_rpc pg js pb now db req).1
            (next_config req.config req.id)
          ≡ reply (some t))
        × (t.checkpoint ≡ req.checkpoint)
        × SameFields t.metadata req.metadata
        × (t.config ≡ record {
          thread_id = u;
          checkpoint_ns = req.config.checkpoint_ns;
          checkpoint_id = v;
          run_id = "";
        })
  get_tuple_rpc-put_rpc now db req u v ku kv named plain own_names back1 back2 values good done =
      let (t, (a, b, c, d, _)) =
        put_rpc-ReadBack now db req u v ku kv named plain own_names back1 back2 values good done in
      (t, a, b, c, d)
