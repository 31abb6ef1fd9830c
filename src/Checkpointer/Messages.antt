-- ===== src/Checkpointer/Messages.antt =====
-- marshalCheckpoint and marshalMetadata of internal/checkpointer/service.go, and the part of
-- rowToTuple that reads their trees back. `v` and `step` pass through a float64 on the way back,
-- which holds them exactly up to 2^53; a number that does not fit its field is left out. An extra
-- stands for its decoded value, and a message that is not there (nil, stored as `{}`) is left out.
use langsmith_deployment_go.Prelude.{
  ℕ, String, Bool, ◌||◌, Option, none, some, List, [], ◌∷◌, str_eq, ◌==◌, if◌then◌else◌, Result, ok,
  err, json_error,
}
use langsmith_deployment_go.Runs.Model.{ℤ, pos, negsuc}
use langsmith_deployment_go.Checkpointer.Json.{
  Json, null_json, number_json, string_json, array_json, object_json, Fields, no_fields, field,
  lookup, assign, text_fields, text_items, texts_of_fields, texts_of_items,
}

-- The fields of Checkpoint that its document holds beside the id. The channel values go to the blobs,
-- and stand beside this record in PutRequest and CheckpointTuple; the id stands in PutRequest, and in
-- the config of a CheckpointTuple, since rowToTuple takes both from the row. An empty list is nil.
pub record CheckpointState : Type 0 where
  pub v : ℕ
  pub ts : String
  pub channel_versions : List (String × String)
  pub versions_seen : List (String × List (String × String))
  pub updated_channels : List String

pub data CheckpointSource : Type 0 where
  unknown_source loop_source input_source update_source fork_source : CheckpointSource
  other_source : ℤ → CheckpointSource

-- An empty run id is none.
pub record CheckpointMetadata : Type 0 where
  pub source : CheckpointSource
  pub step : ℤ
  pub parents : List (String × String)
  pub run_id : String
  pub extras : List (String × Json)

abbrev pub seen_fields : List (String × List (String × String)) → Fields
seen_fields [] = no_fields
seen_fields ((node, kvs) ∷ rest) = field node (object_json (text_fields kvs)) (seen_fields rest)

-- A nil slice and a nil map become `null`.
abbrev pub array_or_null : List String → Json
array_or_null [] = null_json
array_or_null (s ∷ ss) = array_json (text_items (s ∷ ss))

abbrev pub map_or_null : List (String × String) → Json
map_or_null [] = null_json
map_or_null (kv ∷ kvs) = object_json (text_fields (kv ∷ kvs))

-- marshalCheckpoint
unfoldable pub marshal_checkpoint : String → CheckpointState → Json
marshal_checkpoint id cp = object_json (
    field "v" (number_json (pos cp.v)) (
      field "id" (string_json id) (
        field "ts" (string_json cp.ts) (
          field "channel_versions" (object_json (text_fields cp.channel_versions)) (
            field "versions_seen" (object_json (seen_fields cp.versions_seen))
              (field "updated_channels" (array_or_null cp.updated_channels) no_fields))))))

-- sourceIntToString: `none` for a source that is left out
abbrev pub source_int_to_string : CheckpointSource → Option String
source_int_to_string loop_source = some "loop"
source_int_to_string input_source = some "input"
source_int_to_string update_source = some "update"
source_int_to_string fork_source = some "fork"
source_int_to_string _ = none

-- sourceStringToInt
abbrev pub source_string_to_int : String → Option CheckpointSource
source_string_to_int s =
    if str_eq s "input"
    then some input_source
    else if str_eq s "loop"
    then some loop_source
    else if str_eq s "update"
    then some update_source
    else if str_eq s "fork"
    then some fork_source
    else none

-- The enum of a legacy number
abbrev pub source_of_number : ℤ → CheckpointSource
source_of_number (pos n) =
    if n == 0
    then unknown_source
    else if n == 1
    then loop_source
    else if n == 2
    then input_source
    else if n == 3
    then update_source
    else if n == 4
    then fork_source
    else other_source (pos n)
source_of_number (negsuc n) = other_source (negsuc n)

abbrev pub assign_source : Option String → Fields → Fields
assign_source none fs = fs
assign_source (some s) fs = assign "source" (string_json s) fs

abbrev pub assign_run_id : String → Fields → Fields
assign_run_id s fs = if str_eq s "" then fs else assign "run_id" (string_json s) fs

-- The loop over the extras, which wins over the fields that are there.
abbrev pub assign_extras : List (String × Json) → Fields → Fields
assign_extras [] fs = fs
assign_extras ((k, j) ∷ rest) fs = assign_extras rest (assign k j fs)

-- marshalMetadata
unfoldable pub marshal_metadata : CheckpointMetadata → Json
marshal_metadata md = object_json (
    assign_extras md.extras (
      assign_run_id md.run_id (
        assign_source (source_int_to_string md.source) (
          field "step" (number_json md.step)
            (field "parents" (map_or_null md.parents) no_fields)))))

-- The type switches of rowToTuple, each with the zero value for what does not fit.
abbrev pub as_count : Option Json → ℕ
as_count (some (number_json (pos n))) = n
as_count _ = 0

abbrev pub as_number : Option Json → ℤ
as_number (some (number_json n)) = n
as_number _ = pos 0

abbrev pub as_text : Option Json → String
as_text (some (string_json s)) = s
as_text _ = ""

abbrev pub as_texts : Option Json → List (String × String)
as_texts (some (object_json fs)) = texts_of_fields fs
as_texts _ = []

abbrev pub seen_of_fields : Fields → List (String × List (String × String))
seen_of_fields no_fields = []
seen_of_fields (field node (object_json fs) rest) = (node, texts_of_fields fs) ∷ seen_of_fields rest
seen_of_fields (field node _ rest) = seen_of_fields rest

abbrev pub as_seen : Option Json → List (String × List (String × String))
as_seen (some (object_json fs)) = seen_of_fields fs
as_seen _ = []

abbrev pub as_list : Option Json → List String
as_list (some (array_json js)) = texts_of_items js
as_list _ = []

-- Decoding into a map: `null` leaves it nil, what is no object fails.
abbrev pub as_map : Option Json → Result Fields
as_map (some (object_json fs)) = ok fs
as_map (some null_json) = ok no_fields
as_map _ = err json_error

unfoldable pub read_checkpoint : Fields → CheckpointState
read_checkpoint fs = record {
  v = as_count (lookup "v" fs);
  ts = as_text (lookup "ts" fs);
  channel_versions = as_texts (lookup "channel_versions" fs);
  versions_seen = as_seen (lookup "versions_seen" fs);
  updated_channels = as_list (lookup "updated_channels" fs);
}

abbrev pub source_or_unknown : Option CheckpointSource → CheckpointSource
source_or_unknown none = unknown_source
source_or_unknown (some s) = s

abbrev pub as_source : Option Json → CheckpointSource
as_source (some (string_json s)) = source_or_unknown (source_string_to_int s)
as_source (some (number_json n)) = source_of_number n
as_source _ = unknown_source

abbrev pub is_known_key : String → Bool
is_known_key k = str_eq k "source" || (str_eq k "step" || (str_eq k "parents" || str_eq k "run_id"))

abbrev pub extras_of : Fields → List (String × Json)
extras_of no_fields = []
extras_of (field k j fs) = let rest = extras_of fs in if is_known_key k then rest else (k, j) ∷ rest

unfoldable pub read_metadata : Fields → CheckpointMetadata
read_metadata fs = record {
  source = as_source (lookup "source" fs);
  step = as_number (lookup "step" fs);
  parents = as_texts (lookup "parents" fs);
  run_id = as_text (lookup "run_id" fs);
  extras = extras_of fs;
}
