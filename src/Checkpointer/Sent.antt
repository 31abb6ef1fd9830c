-- ===== src/Checkpointer/Sent.antt =====
-- A channel value of internal/checkpointer/service.go from Put to GetTuple.
use langsmith_deployment_go.Prelude.{
  ℕ, String, ◌≡◌, refl, sym, ap, ◌∙◌, subst, Bool, true, false, not, ◌&&◌, Option, none, some, List,
  [], ◌∷◌, arith, str_eq, eq_iff, eq_refl, any, all, inl, inr, Bool-cases, &&-left, &&-right, IsIn,
  IsIn-keep, keep-IsIn, ok,
}
use langsmith_deployment_go.Sql.{Postgres}
use langsmith_deployment_go.Runs.Model.{Database, CheckpointBlob, Checkpoint}
use langsmith_deployment_go.Runs.Create.{or_default}
use langsmith_deployment_go.Service.Signals.{reply}
use langsmith_deployment_go.Checkpointer.Rows.{BlobInput, same_blob, blob_of, put}
use langsmith_deployment_go.Checkpointer.Reads.{load_blobs_and_writes, tasks_channel}
use langsmith_deployment_go.Checkpointer.Json.{JsonCodec}
use langsmith_deployment_go.Checkpointer.Messages.{
  marshal_checkpoint, marshal_metadata, is_known_key,
}
use langsmith_deployment_go.Checkpointer.Values.{
  ChannelValue, serialized_value, sends_value, missing_value, no_value, Send, ValueCodec,
  proto_encoding, version_under, decode_write_value, add_sends,
}
use langsmith_deployment_go.Checkpointer.Handlers.{
  PutRequest, CheckpointTuple, next_config, put_input, put_rpc, get_tuple_rpc, blob_inputs,
}
use langsmith_deployment_go.Checkpointer.Coding.{is_plain_source}
use langsmith_deployment_go.Checkpointer.Readable.{is_plain}
use langsmith_deployment_go.Checkpointer.Loading.{IsReadable}
use langsmith_deployment_go.Checkpointer.Channels.{value_under, is_version, blob_values-value}
use langsmith_deployment_go.Checkpointer.Blobs.{put-Holds}
use langsmith_deployment_go.Checkpointer.Readback.{ComesBack, answered, put_rpc-ReadBack}

abbrev version_or_empty : Option String → String
version_or_empty none = ""
version_or_empty (some s) = s

-- What Put makes of a channel value, and nothing much of one that it does not store.
abbrev input_of : List (String × String) → String → ChannelValue → BlobInput
input_of versions k (serialized_value encoding bytes) = record {
  channel = k;
  version = elim (version_under k versions) [ none ↦ "" | some s ↦ s ];
  encoding = encoding;
  blob = some bytes;
}
input_of versions k _ = record { channel = k; version = ""; encoding = ""; blob = none }

blob_inputs-IsIn :
    (versions : List (String × String)) (k encoding bytes : String)
    (kvs : List (String × ChannelValue))
    → IsIn (k, serialized_value encoding bytes) kvs
    → IsIn (input_of versions k (serialized_value encoding bytes)) (blob_inputs versions kvs)
blob_inputs-IsIn versions k encoding bytes [] m = absurd m
blob_inputs-IsIn versions k encoding bytes ((l, cv) ∷ rest) (inl e) =
    subst
      (λ (p : String × ChannelValue).
        IsIn (input_of versions k (serialized_value encoding bytes))
          (blob_inputs versions (p ∷ rest)))
      e (inl refl)
blob_inputs-IsIn versions k encoding bytes ((l, serialized_value e b) ∷ rest) (inr m) =
    inr (blob_inputs-IsIn versions k encoding bytes rest m)
blob_inputs-IsIn versions k encoding bytes ((l, sends_value ss) ∷ rest) (inr m) =
    blob_inputs-IsIn versions k encoding bytes rest m
blob_inputs-IsIn versions k encoding bytes ((l, missing_value) ∷ rest) (inr m) =
    blob_inputs-IsIn versions k encoding bytes rest m
blob_inputs-IsIn versions k encoding bytes ((l, no_value) ∷ rest) (inr m) =
    blob_inputs-IsIn versions k encoding bytes rest m

abbrev SentFrom : List (String × String) → List (String × ChannelValue) → BlobInput → Type 0
SentFrom versions kvs y =
    (l : String) × (cv : ChannelValue) × IsIn (l, cv) kvs × (y ≡ input_of versions l cv)

SentFrom-more :
    (versions : List (String × String)) (kvs : List (String × ChannelValue))
    (p : String × ChannelValue) (y : BlobInput)
    → SentFrom versions kvs y
    → SentFrom versions (p ∷ kvs) y
SentFrom-more versions kvs p y (l, cv, m, e) = (l, cv, inr m, e)

blob_inputs-SentFrom :
    (versions : List (String × String)) (kvs : List (String × ChannelValue)) (y : BlobInput)
    → IsIn y (blob_inputs versions kvs)
    → SentFrom versions kvs y
blob_inputs-SentFrom versions [] y m = absurd m
blob_inputs-SentFrom versions ((l, serialized_value e b) ∷ rest) y (inl same) =
    (l, serialized_value e b, inl refl, same)
blob_inputs-SentFrom versions ((l, serialized_value e b) ∷ rest) y (inr m) =
    SentFrom-more versions rest _ y (blob_inputs-SentFrom versions rest y m)
blob_inputs-SentFrom versions ((l, sends_value ss) ∷ rest) y m =
    SentFrom-more versions rest _ y (blob_inputs-SentFrom versions rest y m)
blob_inputs-SentFrom versions ((l, missing_value) ∷ rest) y m =
    SentFrom-more versions rest _ y (blob_inputs-SentFrom versions rest y m)
blob_inputs-SentFrom versions ((l, no_value) ∷ rest) y m =
    SentFrom-more versions rest _ y (blob_inputs-SentFrom versions rest y m)

channel_of :
    (versions : List (String × String)) (k : String) (cv : ChannelValue)
    → (input_of versions k cv).channel ≡ k
channel_of versions k (serialized_value e b) = refl
channel_of versions k (sends_value ss) = refl
channel_of versions k missing_value = refl
channel_of versions k no_value = refl

-- A map has one value for a key, so one blob is sent under it.
one_input :
    (versions : List (String × String)) (kvs : List (String × ChannelValue)) (k : String)
    (cv : ChannelValue) (y : BlobInput)
    → ((x : ChannelValue) → IsIn (k, x) kvs → x ≡ cv)
    → IsIn y (blob_inputs versions kvs)
    → y.channel ≡ k
    → y ≡ input_of versions k cv
one_input versions kvs k cv y one m same =
    let (l, x, n, e) = blob_inputs-SentFrom versions kvs y m in
    let l_k : l ≡ k = sym (channel_of versions l x) ∙ ap (λ y. y.channel) (sym e) ∙ same in
    let x_cv = one x (subst (λ j. IsIn (j, x) kvs) l_k n) in
    e ∙ ap (λ j. input_of versions j x) l_k ∙ ap (input_of versions k) x_cv

all-IsIn :
    {A : Type 0} (p : A → Bool) (x : A) (xs : List A) → all p xs ≡ true → IsIn x xs → p x ≡ true
all-IsIn p x [] h m = absurd m
all-IsIn p x (y ∷ ys) h (inl e) = ap p e ∙ &&-left _ _ h
all-IsIn p x (y ∷ ys) h (inr m) = all-IsIn p x ys (&&-right (p y) _ h) m

under_sends :
    (k : String) (ss : List Send) (vs : List (String × ChannelValue))
    → str_eq tasks_channel k ≡ false
    → value_under k (add_sends ss vs) ≡ value_under k vs
under_sends k [] vs h = refl
under_sends k (s ∷ ss) vs h = rw h refl

module _ {V : Type 0} (pg : Postgres V) where
  -- The row that Put inserts for a channel value.
  abbrev pub sent_row : PutRequest → String → String → String → String → String → CheckpointBlob
  sent_row req u k s encoding bytes = record {
    thread_id = u;
    checkpoint_ns = req.config.checkpoint_ns;
    channel = k;
    version = s;
    encoding = encoding;
    blob = some bytes;
  }

  row_of :
      (req : PutRequest) (u k s encoding bytes : String)
      → version_under k req.new_versions ≡ some s
      → blob_of pg u req.config.checkpoint_ns
          (input_of req.new_versions k (serialized_value encoding bytes))
        ≡ sent_row req u k s encoding bytes
  row_of req u k s encoding bytes at_s =
      ap
        (λ (o : Option String). sent_row req u k (elim o [ none ↦ "" | some v ↦ v ]) encoding bytes)
        at_s

  same_channel :
      (row : CheckpointBlob) (u ns : String) (y : BlobInput)
      → same_blob row (blob_of pg u ns y) ≡ true
      → y.channel ≡ row.channel
  same_channel row u ns y h = (eq_iff y.channel row.channel).0 (
      &&-left _ _
        (&&-right (str_eq ns row.checkpoint_ns) _ (&&-right (str_eq u row.thread_id) _ h)))

module _ {V : Type 0} where
  of_row :
      (row : CheckpointBlob) (c : Checkpoint V) (b : CheckpointBlob)
      → c.thread_id ≡ row.thread_id
      → c.checkpoint_ns ≡ row.checkpoint_ns
      → (str_eq b.thread_id c.thread_id && str_eq b.checkpoint_ns c.checkpoint_ns) ≡ true
      → is_version row.channel row.version b ≡ true
      → same_blob row b ≡ true
  of_row row c b et en h at_s =
      rw
        (
          ap (str_eq b.thread_id) (sym et) ∙ &&-left _ _ h,
          ap (str_eq b.checkpoint_ns) (sym en) ∙ &&-right (str_eq b.thread_id c.thread_id) _ h,
          &&-left (str_eq b.channel row.channel) _ at_s,
          &&-right (str_eq b.channel row.channel) _ at_s,
        )
        refl

plain_value :
    (pb : ValueCodec) (encoding bytes : String)
    → not (str_eq encoding proto_encoding) ≡ true
    → decode_write_value pb encoding bytes ≡ ok (serialized_value encoding bytes)
unfolding decode_write_value
plain_value pb encoding bytes h = elim (Bool-cases (str_eq encoding proto_encoding)) [
  | inl b ↦ absurd (ground (arith, b, h))
  | inr b ↦ rw b refl
]

module _ {V : Type 0} (pg : Postgres V) (js : JsonCodec V) (pb : ValueCodec) where
  -- After an answered Put, the tuple that GetTuple gives under the answered config has the serialized
  -- value that was sent for a channel, if the request has no other value for the channel and the same
  -- version of it among its new versions and in its checkpoint, no blob of this version is stored
  -- before, the value is not "empty" and the channel not that of the pending sends. The rest is
  -- as for the tuple: the thread and the checkpoint have uuids, the source is one that has a name or
  -- unknown, no extra of the metadata has the name of a known field, every stored value decodes, no
  -- serialized value of the request has the encoding that the service keeps for protobuf, and jsonb
  -- gives the two documents back up to the order of their fields.
  pub get_tuple_rpc-put_rpc_value :
      (now : ℕ) (db : Database V) (req : PutRequest) (u v k s encoding bytes : String)
      → pg.uuid req.config.thread_id ≡ some u
      → pg.uuid req.id ≡ some v
      → str_eq req.id "" ≡ false
      → is_plain_source req.metadata.source ≡ true
      → all (λ e. not (is_known_key e.0)) req.metadata.extras ≡ true
      → ComesBack pg js pb (marshal_checkpoint req.id req.checkpoint)
      → ComesBack pg js pb (marshal_metadata req.metadata)
      → all (λ e. is_plain e.1) req.channel_values ≡ true
      → IsReadable pb db
      → (put_rpc pg js pb now db req).0 ≡ reply (next_config req.config req.id)
      → IsIn (k, serialized_value encoding bytes) req.channel_values
      → ((x : ChannelValue) → IsIn (k, x) req.channel_values → x ≡ serialized_value encoding bytes)
      → version_under k req.new_versions ≡ some s
      → version_under k req.checkpoint.channel_versions ≡ some s
      → any (same_blob (sent_row pg req u k s encoding bytes)) db.checkpoint_blobs ≡ false
      → str_eq encoding "empty" ≡ false
      → str_eq tasks_channel k ≡ false
      → (t : CheckpointTuple) × (get_tuple_rpc pg js pb
            (put_rpc pg js pb now db req).1
            (next_config req.config req.id)
          ≡ reply (some t))
        × (value_under k t.channel_values ≡ some (serialized_value encoding bytes))
  unfolding put_rpc load_blobs_and_writes
  get_tuple_rpc-put_rpc_value now db req u v k s encoding bytes ku kv named plain own_names back1
        back2 values good done sent one new_s listed free full not_tasks =
      let row = sent_row pg req u k s encoding bytes in
      let cv = serialized_value encoding bytes in
      let i = put_input pg js pb req in
      let (t, (answer, _, _, _, (c, et, en, (ss, vs, shown, loaded)))) =
        put_rpc-ReadBack pg js pb now db req u v ku kv named plain own_names back1 back2 values good
          done in
      let (there, only) =
        put-Holds pg now db i u row (input_of req.new_versions k cv) ku free
          (blob_inputs-IsIn req.new_versions k encoding bytes req.channel_values sent)
          (row_of pg req u k s encoding bytes new_s)
          (λ y m same.
            ap (blob_of pg u req.config.checkpoint_ns) (
              one_input req.new_versions req.channel_values k cv y one m
                (same_channel pg row u req.config.checkpoint_ns y same))
            ∙ row_of pg req u k s encoding bytes new_s)
          (answered pg js pb req (put pg now db i) done).0 in
      let db' = (put pg now db i).1 in
      (
        t,
        answer,
        ap (value_under k) shown
            ∙ under_sends k ss vs not_tasks
            ∙ blob_values-value pb req.checkpoint.channel_versions k s cv listed
                (load_blobs_and_writes db' c).blobs [] vs
                (λ b m at_s.
                  let (n, h) = IsIn-keep _ b db'.checkpoint_blobs m in
                  ap
                    (λ (b : CheckpointBlob).
                      decode_write_value pb b.encoding (or_default "" b.blob))
                    (only b n (of_row row c b et en h at_s))
                  ∙ plain_value pb encoding bytes
                      (all-IsIn (λ e. is_plain e.1) (k, cv) req.channel_values values sent))
                (inr (
                  row,
                  keep-IsIn _ row db'.checkpoint_blobs there
                      (rw (et, en, eq_refl u, eq_refl req.config.checkpoint_ns) refl),
                  rw (eq_refl k, eq_refl s) refl,
                  full,
                ))
                loaded,
      )
