-- ===== src/Checkpointer/Coding.antt =====
-- What internal/checkpointer/service.go writes into values and trees, it reads back.
use langsmith_deployment_go.Prelude.{
  String, ◌≡◌, refl, sym, ap, ap₂, ◌∙◌, Bool, true, false, not, Option, none, some, List, [], ◌∷◌,
  arith, str_eq, eq_iff, all, inl, inr, Bool-cases, &&-left, &&-right, ok,
}
use mathlib.Core.Bool.{false≢true}
use langsmith_deployment_go.Checkpointer.Json.{
  Json, number_json, string_json, Fields, no_fields, field, lookup, assign, text_fields, text_items,
  texts_of_fields, texts_of_items,
}
use langsmith_deployment_go.Checkpointer.Messages.{
  CheckpointState, CheckpointSource, unknown_source, loop_source, input_source, update_source,
  fork_source, other_source, CheckpointMetadata, seen_fields, array_or_null, map_or_null,
  marshal_checkpoint, source_int_to_string, assign_source, assign_run_id, assign_extras,
  marshal_metadata, as_texts, as_list, as_map, as_source, as_text, as_number, seen_of_fields,
  read_checkpoint, is_known_key, read_metadata,
}
use langsmith_deployment_go.Checkpointer.Values.{
  ChannelValue, serialized_value, sends_value, missing_value, no_value, ValueCodec, proto_encoding,
  encode_write_value, decode_write_value,
}

-- A value that is set, and no serialized value under the encoding that marks protobuf.
abbrev pub is_storable : ChannelValue → Bool
is_storable (serialized_value encoding bytes) = not (str_eq encoding proto_encoding)
is_storable (sends_value ss) = true
is_storable missing_value = true
is_storable no_value = false

-- decodeWriteValue gives the value back that encodeWriteValue stored, if it is set, if its encoding
-- is not the one that the service keeps for protobuf, and if protobuf reads it back from what it
-- writes for it.
pub decode_write_value-encode_write_value :
    (pb : ValueCodec) (cv : ChannelValue)
    → pb.unmarshal (pb.marshal cv) ≡ some cv
    → is_storable cv ≡ true
    → decode_write_value pb (encode_write_value pb (some cv)).0 (encode_write_value pb (some cv)).1
      ≡ ok cv
unfolding encode_write_value decode_write_value
decode_write_value-encode_write_value pb (serialized_value encoding bytes) back h =
    elim (Bool-cases (str_eq encoding proto_encoding)) [
      | inl b ↦ absurd (ground (arith, b, h))
      | inr b ↦ rw b refl
    ]
decode_write_value-encode_write_value pb (sends_value ss) back h = rw back refl
decode_write_value-encode_write_value pb missing_value back h = rw back refl
decode_write_value-encode_write_value pb no_value back h = absurd (ground (arith, h))

texts_of_text_fields : (kvs : List (String × String)) → texts_of_fields (text_fields kvs) ≡ kvs
texts_of_text_fields [] = refl
texts_of_text_fields ((k, s) ∷ kvs) = ap (λ l. (k, s) ∷ l) (texts_of_text_fields kvs)

texts_of_text_items : (ss : List String) → texts_of_items (text_items ss) ≡ ss
texts_of_text_items [] = refl
texts_of_text_items (s ∷ ss) = ap (λ l. s ∷ l) (texts_of_text_items ss)

seen_of_seen_fields :
    (vs : List (String × List (String × String))) → seen_of_fields (seen_fields vs) ≡ vs
seen_of_seen_fields [] = refl
seen_of_seen_fields ((node, kvs) ∷ vs) =
    ap₂ (λ a b. (node, a) ∷ b) (texts_of_text_fields kvs) (seen_of_seen_fields vs)

list_of_array : (ss : List String) → as_list (some (array_or_null ss)) ≡ ss
list_of_array [] = refl
list_of_array (s ∷ ss) = texts_of_text_items (s ∷ ss)

texts_of_map : (kvs : List (String × String)) → as_texts (some (map_or_null kvs)) ≡ kvs
texts_of_map [] = refl
texts_of_map (kv ∷ kvs) = texts_of_text_fields (kv ∷ kvs)

-- The tree of a checkpoint is an object, which is read back as that checkpoint.
pub read_checkpoint-marshal_checkpoint :
    (id : String) (cp : CheckpointState)
    → (fs : Fields) × (as_map (some (marshal_checkpoint id cp)) ≡ ok fs) × (read_checkpoint fs ≡ cp)
unfolding marshal_checkpoint read_checkpoint
read_checkpoint-marshal_checkpoint id cp = (
  _,
  refl,
  rw
      (
        texts_of_text_fields cp.channel_versions,
        seen_of_seen_fields cp.versions_seen,
        list_of_array cp.updated_channels,
      )
      refl,
)

lookup-assign :
    (k l : String) (j : Json) (fs : Fields)
    → str_eq l k ≡ false
    → lookup k (assign l j fs) ≡ lookup k fs
lookup-assign k l j no_fields h = rw h refl
lookup-assign k l j (field m i fs) h = elim (Bool-cases (str_eq m l)) [
  | inl b ↦
      let other : str_eq m k ≡ false = ap (λ t. str_eq t k) ((eq_iff m l).0 b) ∙ h in
      rw (b, other) refl
  | inr b ↦ rw b (elim (Bool-cases (str_eq m k)) [
    | inl c ↦ rw c refl
    | inr c ↦ rw c (lookup-assign k l j fs h)
  ])
]

lookup-assign_same : (k : String) (j : Json) (fs : Fields) → lookup k (assign k j fs) ≡ some j
lookup-assign_same k j no_fields = rw ((eq_iff k k).1 refl) refl
lookup-assign_same k j (field m i fs) = elim (Bool-cases (str_eq m k)) [
  | inl b ↦ rw (b, b) refl
  | inr b ↦ rw (b, b) (lookup-assign_same k j fs)
]

differ : (k l : String) → is_known_key k ≡ true → is_known_key l ≡ false → str_eq l k ≡ false
differ k l known h = elim (Bool-cases (str_eq l k)) [
  | inr b ↦ b
  | inl b ↦ absurd (false≢true (sym h ∙ (ap is_known_key ((eq_iff l k).0 b) ∙ known)))
]

negation : (b : Bool) → not b ≡ true → b ≡ false
negation b h = ground arith

-- Extras of other names leave a known field alone.
lookup-assign_extras :
    (k : String) (es : List (String × Json)) (fs : Fields)
    → is_known_key k ≡ true
    → all (λ e. not (is_known_key e.0)) es ≡ true
    → lookup k (assign_extras es fs) ≡ lookup k fs
lookup-assign_extras k [] fs known h = refl
lookup-assign_extras k ((l, j) ∷ es) fs known h =
    lookup-assign_extras k es (assign l j fs) known (&&-right (not (is_known_key l)) _ h)
    ∙ lookup-assign k l j fs
        (differ k l known (negation (is_known_key l) (&&-left (not (is_known_key l)) _ h)))

-- The fields that marshalMetadata writes before the extras.
abbrev own_fields : CheckpointMetadata → Fields
own_fields md = assign_run_id md.run_id (
    assign_source (source_int_to_string md.source)
      (field "step" (number_json md.step) (field "parents" (map_or_null md.parents) no_fields)))

abbrev pub is_plain_source : CheckpointSource → Bool
is_plain_source (other_source n) = false
is_plain_source _ = true

-- The four known fields of `fs` are read as those of the metadata.
abbrev pub HasFields : CheckpointMetadata → Fields → Type 0
HasFields md fs =
    ((read_metadata fs).source ≡ md.source)
    × ((read_metadata fs).step ≡ md.step)
    × ((read_metadata fs).parents ≡ md.parents)
    × ((read_metadata fs).run_id ≡ md.run_id)

lookup-assign_run_id :
    (k s : String) (fs : Fields)
    → str_eq "run_id" k ≡ false
    → lookup k (assign_run_id s fs) ≡ lookup k fs
lookup-assign_run_id k s fs h = elim (Bool-cases (str_eq s "")) [
  | inl b ↦ rw b refl
  | inr b ↦ rw b (lookup-assign k "run_id" (string_json s) fs h)
]

lookup-assign_source :
    (k : String) (s : Option String) (fs : Fields)
    → str_eq "source" k ≡ false
    → lookup k (assign_source s fs) ≡ lookup k fs
lookup-assign_source k none fs h = refl
lookup-assign_source k (some s) fs h = lookup-assign k "source" (string_json s) fs h

abbrev base_fields : CheckpointMetadata → Fields
base_fields md =
    field "step" (number_json md.step) (field "parents" (map_or_null md.parents) no_fields)

own_source :
    (md : CheckpointMetadata)
    → is_plain_source md.source ≡ true
    → as_source (lookup "source" (assign_source (source_int_to_string md.source) (base_fields md)))
      ≡ md.source
own_source md h = by_source md.source h
  where
    by_source :
        (source : CheckpointSource)
        → is_plain_source source ≡ true
        → as_source (lookup "source" (assign_source (source_int_to_string source) (base_fields md)))
          ≡ source
    by_source unknown_source h = refl
    by_source loop_source h = refl
    by_source input_source h = refl
    by_source update_source h = refl
    by_source fork_source h = refl
    by_source (other_source n) h = absurd (false≢true h)

own_run_id : (md : CheckpointMetadata) → as_text (lookup "run_id" (own_fields md)) ≡ md.run_id
own_run_id md = elim (Bool-cases (str_eq md.run_id "")) [
  | inl b ↦ rw b (
      ap as_text (lookup-assign_source "run_id" (source_int_to_string md.source) _ refl)
      ∙ sym ((eq_iff md.run_id "").0 b))
  | inr b ↦ rw b (
      ap as_text (
        lookup-assign_same "run_id" (string_json md.run_id)
          (assign_source (source_int_to_string md.source) (base_fields md))))
]

-- The metadata that is written is read back with its source, step, parents and run id, if the source
-- has a name or is not set and no extra takes the name of one of these fields.
pub read_metadata-marshal_metadata :
    (md : CheckpointMetadata)
    → is_plain_source md.source ≡ true
    → all (λ e. not (is_known_key e.0)) md.extras ≡ true
    → (fs : Fields) × (as_map (some (marshal_metadata md)) ≡ ok fs) × HasFields md fs
unfolding marshal_metadata read_metadata
read_metadata-marshal_metadata md plain h = (
  assign_extras md.extras (own_fields md),
  refl,
  (
    ap as_source (kept "source" refl ∙ lookup-assign_run_id "source" md.run_id _ refl)
        ∙ own_source md plain,
    ap as_number (kept "step" refl ∙ under "step" refl refl),
    ap as_texts (kept "parents" refl ∙ under "parents" refl refl) ∙ texts_of_map md.parents,
    ap as_text (kept "run_id" refl) ∙ own_run_id md,
  ),
)
  where
    kept :
        (k : String)
        → is_known_key k ≡ true
        → lookup k (assign_extras md.extras (own_fields md)) ≡ lookup k (own_fields md)
    kept k known = lookup-assign_extras k md.extras (own_fields md) known h

    under :
        (k : String)
        → str_eq "run_id" k ≡ false
        → str_eq "source" k ≡ false
        → lookup k (own_fields md) ≡ lookup k (base_fields md)
    under k a b =
        lookup-assign_run_id k md.run_id _ a
        ∙ lookup-assign_source k (source_int_to_string md.source) _ b
