-- ===== src/Witnesses/CheckpointTrips.antt =====
-- Requests to internal/checkpointer/service.go over a codec that knows their two documents.
use langsmith_deployment_go.Prelude.{
  ap, IsIn, ◌≡◌, subst, some-injective, inr, Bool-cases, length, refl, none, some, [], ◌∷◌, ok,
  String, inl, Option, str_eq, if◌then◌else◌,
}
use langsmith_deployment_go.Runs.Model.{Database, negsuc}
use langsmith_deployment_go.Service.Signals.{reply}
use langsmith_deployment_go.Checkpointer.Rows.{
  put, put_steps, put_blobs, put_checkpoint, put_each_write, put_write, put_writes,
}
use langsmith_deployment_go.Checkpointer.Copying.{copy_thread, copy_thread_rows}
use langsmith_deployment_go.Checkpointer.Json.{
  Json, null_json, object_json, Fields, lookup, JsonCodec,
}
use langsmith_deployment_go.Checkpointer.Messages.{
  CheckpointState, CheckpointMetadata, loop_source, marshal_checkpoint, marshal_metadata,
}
use langsmith_deployment_go.Checkpointer.Values.{
  ChannelValue, serialized_value, sends_value, missing_value, no_value, ValueCodec,
  decode_write_value, encode_write_value,
}
use langsmith_deployment_go.Checkpointer.Handlers.{
  PutRequest, PutWritesRequest, CheckpointTuple, next_config, put_rpc, write_inputs, writes_idx_map,
  put_writes_rpc, get_tuple_rpc, copy_checkpoints_rpc,
}
use langsmith_deployment_go.Checkpointer.Coding.{decode_write_value-encode_write_value}
use langsmith_deployment_go.Checkpointer.Loading.{IsReadable}
use langsmith_deployment_go.Checkpointer.Steps.{
  by_put, by_put_writes, by_copy, no_step, one_more, CheckpointSteps-IsReadable,
}
use langsmith_deployment_go.Checkpointer.Channels.{value_under}
use langsmith_deployment_go.Checkpointer.Sent.{get_tuple_rpc-put_rpc_value}
use langsmith_deployment_go.Checkpointer.Readback.{object_fields, SameFields, get_tuple_rpc-put_rpc}
use langsmith_deployment_go.Witnesses.Documents.{Document, has_entry, postgres, waiting}

abbrev sent : CheckpointState
sent = record {
  v = 1;
  ts = "2024-05-01T00:00:00Z";
  channel_versions = ("messages", "1") ∷ [];
  versions_seen = ("agent", ("messages", "1") ∷ []) ∷ [];
  updated_channels = "messages" ∷ [];
}

abbrev described : CheckpointMetadata
described = record {
  source = loop_source;
  step = negsuc 0;
  parents = [];
  run_id = "r1";
  extras = ("writes", null_json) ∷ [];
}

abbrev name_of : Option Json → String
name_of none = "metadata"
name_of (some j) = "checkpoint"

abbrev json : JsonCodec Document
json = record {
  print = λ j. name_of (lookup "v" (object_fields j));
  tree = λ d.
      if has_entry ("", "checkpoint") d
      then some (marshal_checkpoint "c1" sent)
      else some (marshal_metadata described);
}

-- Sends lose their contents.
abbrev protobuf : ValueCodec
protobuf = record {
  marshal = λ cv. elim cv [
    | serialized_value encoding bytes ↦ bytes
    | sends_value ss ↦ "sends"
    | missing_value ↦ "missing"
    | no_value ↦ ""
  ];
  unmarshal = λ s. if str_eq s "missing" then some missing_value else some (sends_value []);
}

abbrev request : PutRequest
request = record {
  config = record { thread_id = "t1"; checkpoint_ns = ""; checkpoint_id = ""; run_id = "" };
  id = "c1";
  checkpoint = sent;
  channel_values = ("messages", serialized_value "json" "hi") ∷ [];
  metadata = described;
  new_versions = ("messages", "1") ∷ [];
}

waiting-IsReadable : IsReadable protobuf waiting
waiting-IsReadable = record { blobs = λ b m. absurd m; writes = λ w m. absurd m }

request_answered :
    (put_rpc postgres json protobuf 70 waiting request).0
    ≡ reply (next_config request.config request.id)
unfolding put_rpc put put_steps put_blobs put_checkpoint marshal_checkpoint marshal_metadata
request_answered = refl

checkpoint_comes_back :
    (v : Document)
    → postgres.parse (json.print (marshal_checkpoint "c1" sent)) ≡ some v
    → (gs : Fields) × (json.tree v ≡ some (object_json gs))
      × ((k : String) → lookup k gs ≡ lookup k (object_fields (marshal_checkpoint "c1" sent)))
unfolding marshal_checkpoint
checkpoint_comes_back v e =
    let gs = object_fields (marshal_checkpoint "c1" sent) in
    (
      gs,
      subst (λ d. json.tree d ≡ some (object_json gs))
          (some-injective (("", "checkpoint") ∷ []) v e) refl,
      λ k. refl,
    )

metadata_comes_back :
    (v : Document)
    → postgres.parse (json.print (marshal_metadata described)) ≡ some v
    → (gs : Fields) × (json.tree v ≡ some (object_json gs))
      × ((k : String) → lookup k gs ≡ lookup k (object_fields (marshal_metadata described)))
unfolding marshal_metadata
metadata_comes_back v e =
    let gs = object_fields (marshal_metadata described) in
    (
      gs,
      subst (λ d. json.tree d ≡ some (object_json gs)) (some-injective (("", "metadata") ∷ []) v e)
          refl,
      λ k. refl,
    )

get_tuple_rpc-put_rpc_example :
    (t : CheckpointTuple) × (get_tuple_rpc postgres json protobuf
        (put_rpc postgres json protobuf 70 waiting request).1
        (next_config request.config request.id)
      ≡ reply (some t))
    × (t.checkpoint ≡ request.checkpoint)
    × SameFields t.metadata request.metadata
    × (t.config
        ≡ record { thread_id = "t1"; checkpoint_ns = ""; checkpoint_id = "c1"; run_id = "" })
get_tuple_rpc-put_rpc_example =
    get_tuple_rpc-put_rpc postgres json protobuf 70 waiting request "t1" "c1" refl refl refl refl
      refl checkpoint_comes_back metadata_comes_back refl waiting-IsReadable request_answered

one_message :
    (x : ChannelValue)
    → IsIn ("messages", x) request.channel_values
    → x ≡ serialized_value "json" "hi"
one_message x (inl e) = ap (λ (p : String × ChannelValue). p.1) e
one_message x (inr m) = absurd m

get_tuple_rpc-put_rpc_value_example :
    (t : CheckpointTuple) × (get_tuple_rpc postgres json protobuf
        (put_rpc postgres json protobuf 70 waiting request).1
        (next_config request.config request.id)
      ≡ reply (some t))
    × (value_under "messages" t.channel_values ≡ some (serialized_value "json" "hi"))
get_tuple_rpc-put_rpc_value_example =
    get_tuple_rpc-put_rpc_value postgres json protobuf 70 waiting request "t1" "c1" "messages" "1"
      "json" "hi" refl refl refl refl refl checkpoint_comes_back metadata_comes_back refl
      waiting-IsReadable request_answered (inl refl) one_message refl refl refl refl refl

decode_write_value-encode_write_value_example :
    decode_write_value protobuf
      (encode_write_value protobuf (some missing_value)).0
      (encode_write_value protobuf (some missing_value)).1
    ≡ ok missing_value
decode_write_value-encode_write_value_example =
    decode_write_value-encode_write_value protobuf missing_value refl refl

abbrev writes_request : PutWritesRequest
writes_request = record {
  config = record { thread_id = "t1"; checkpoint_ns = ""; checkpoint_id = "c1"; run_id = "" };
  task_id = "k1";
  task_path = "";
  writes =
      ("__error__", some missing_value) ∷ ("messages", some (serialized_value "json" "hi")) ∷ [];
}

decodes_all :
    (x : ChannelValue) → (y : ChannelValue) × (protobuf.unmarshal (protobuf.marshal x) ≡ some y)
decodes_all x = elim (Bool-cases (str_eq (protobuf.marshal x) "missing")) [
  | inl b ↦ (missing_value, rw b refl)
  | inr b ↦ (sends_value [], rw b refl)
]

abbrev with_checkpoint : Database Document
with_checkpoint = (put_rpc postgres json protobuf 70 waiting request).1

abbrev with_writes : Database Document
with_writes = (put_writes_rpc postgres json protobuf 80 with_checkpoint writes_request).1

abbrev with_copy : Database Document
with_copy = (copy_checkpoints_rpc postgres 90 with_writes "t1" "t2").1

-- A blob in each thread, and two writes in each.
steps_sizes : (length with_copy.checkpoint_blobs ≡ 2) × (length with_copy.checkpoint_writes ≡ 4)
unfolding put_rpc put put_steps put_blobs put_checkpoint put_writes_rpc put_writes write_inputs
    put_each_write put_write writes_idx_map encode_write_value copy_checkpoints_rpc copy_thread
    copy_thread_rows marshal_checkpoint marshal_metadata
steps_sizes = (refl, refl)

CheckpointSteps-IsReadable_example : IsReadable protobuf with_copy
CheckpointSteps-IsReadable_example =
    CheckpointSteps-IsReadable postgres json protobuf waiting with_copy decodes_all
      (one_more waiting with_writes with_copy
        (one_more waiting with_checkpoint with_writes
          (one_more waiting waiting with_checkpoint (no_step waiting)
            (by_put 70 request waiting refl))
          (by_put_writes 80 writes_request with_checkpoint refl))
        (by_copy 90 "t1" "t2" with_writes))
      waiting-IsReadable
