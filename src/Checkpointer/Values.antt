-- ===== src/Checkpointer/Values.antt =====
-- encodeWriteValue and decodeWriteValue of internal/checkpointer/service.go, and the loops of
-- rowToTuple over blobs, pending sends and writes. A map of channel values is a list whose first
-- entry under a key counts.
use langsmith_deployment_go.Prelude.{
  String, Bool, Option, none, some, List, [], ◌∷◌, ◌++◌, str_eq, not, ◌&&◌, if◌then◌else◌, Result,
  ok, json_error, from_option, ◌>>=◌, false,
}
use langsmith_deployment_go.Runs.Model.{CheckpointWrite, CheckpointBlob}
use langsmith_deployment_go.Runs.Create.{or_default}
use langsmith_deployment_go.Checkpointer.Reads.{tasks_channel}

-- A serialized value is its encoding and its bytes.
pub record Send : Type 0 where
  pub node : String
  pub arg : String × String

-- `no_value` is a message whose oneof is not set.
pub data ChannelValue : Type 0 where
  serialized_value : String → String → ChannelValue
  sends_value : List Send → ChannelValue
  missing_value no_value : ChannelValue

-- google.golang.org/protobuf on ChannelValue
pub record ValueCodec : Type 0 where
  pub marshal : ChannelValue → String
  pub unmarshal : String → Option ChannelValue

-- channelValueProtoEncoding
abbrev pub proto_encoding : String
proto_encoding = "__lsd_channel_value_pb__"

abbrev pub version_under : String → List (String × String) → Option String
version_under k [] = none
version_under k ((l, s) ∷ kvs) = if str_eq l k then some s else version_under k kvs

-- Whether a blob belongs to a checkpoint with these channel versions, and is not empty.
abbrev pub is_of_checkpoint : List (String × String) → CheckpointBlob → Bool
is_of_checkpoint versions b = elim (version_under b.channel versions) [
  | none ↦ false
  | some s ↦ str_eq b.version s && not (str_eq b.encoding "empty")
]

abbrev pub sends_of : ChannelValue → List Send
sends_of (sends_value ss) = ss
sends_of (serialized_value encoding bytes) = record { node = ""; arg = (encoding, bytes) } ∷ []
sends_of _ = []

abbrev pub add_sends : List Send → List (String × ChannelValue) → List (String × ChannelValue)
add_sends [] values = values
add_sends (s ∷ ss) values = (tasks_channel, sends_value (s ∷ ss)) ∷ values

module _ (pb : ValueCodec) where
  -- encodeWriteValue: `none` is a nil message.
  unfoldable pub encode_write_value : Option ChannelValue → String × String
  encode_write_value (some (serialized_value encoding bytes)) = (encoding, bytes)
  encode_write_value (some (sends_value ss)) = (proto_encoding, pb.marshal (sends_value ss))
  encode_write_value (some missing_value) = (proto_encoding, pb.marshal missing_value)
  encode_write_value (some no_value) = ("", "")
  encode_write_value none = ("", "")

  -- decodeWriteValue
  unfoldable pub decode_write_value : String → String → Result ChannelValue
  decode_write_value encoding bytes =
      if str_eq encoding proto_encoding
      then from_option json_error (pb.unmarshal bytes)
      else ok (serialized_value encoding bytes)

  -- The loop over the blobs; a later blob of a channel replaces an earlier one.
  unfoldable pub blob_values :
      List (String × String)
      → List CheckpointBlob
      → List (String × ChannelValue)
      → Result (List (String × ChannelValue))
  blob_values versions [] acc = ok acc
  blob_values versions (b ∷ bs) acc =
      let skipped = blob_values versions bs acc in
      let taken = decode_write_value b.encoding (or_default "" b.blob) >>= λ cv.
      blob_values versions bs ((b.channel, cv) ∷ acc) in
      if is_of_checkpoint versions b then taken else skipped

  -- The loop over the pending sends of the parent
  unfoldable pub pending_sends : List (String × String) → Result (List Send)
  pending_sends [] = ok []
  pending_sends (p ∷ ps) =
      decode_write_value p.0 p.1 >>= λ cv. pending_sends ps >>= λ ss. ok (sends_of cv ++ ss)

  -- task id, channel and value of each pending write
  unfoldable pub pending_writes :
      List CheckpointWrite → Result (List (String × String × ChannelValue))
  pending_writes [] = ok []
  pending_writes (w ∷ ws) = decode_write_value w.encoding w.blob >>= λ cv.
      pending_writes ws >>= λ rest. ok ((w.task_id, w.channel, cv) ∷ rest)
