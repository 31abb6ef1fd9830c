-- ===== src/Checkpointer/Readable.antt =====
-- Put and PutWrites of internal/checkpointer/service.go store values that the service can decode.
use langsmith_deployment_go.Prelude.{
  ℕ, suc, String, ◌≡◌, refl, sym, subst, Bool, true, not, ◌&&◌, ◌||◌, Option, none, some, List, [],
  ◌∷◌, arith, str_eq, any, all, inl, inr, Bool-cases, &&-left, &&-right, IsIn, ok, database,
}
use langsmith_deployment_go.Sql.{Postgres}
use langsmith_deployment_go.Runs.Model.{Database, CheckpointWrite, CheckpointBlob}
use langsmith_deployment_go.Runs.Create.{json_of, uuid_of, or_default}
use langsmith_deployment_go.Runs.Creating.{OnOk, OnOk-then, OnOk-check, value_of}
use langsmith_deployment_go.Checkpointer.Rows.{
  BlobInput, WriteInput, PutInput, PutWritesInput, same_write, same_blob, insert_new, overwrite,
  is_sentinel, put_write, same_checkpoint, put_checkpoint, has_thread, has_run, null_or_uuid,
  blob_of, put_blob, put_blobs, checkpoint_of, put_steps, write_of, put_each_write,
}
use langsmith_deployment_go.Checkpointer.Values.{
  ChannelValue, serialized_value, sends_value, missing_value, no_value, ValueCodec, proto_encoding,
  encode_write_value, decode_write_value,
}
use langsmith_deployment_go.Checkpointer.Handlers.{blob_inputs, write_inputs}
use langsmith_deployment_go.Checkpointer.Holding.{replace-holds}
use langsmith_deployment_go.Checkpointer.Loading.{decodes, IsReadable}

-- No serialized value under the encoding that marks protobuf.
abbrev pub is_plain : ChannelValue → Bool
is_plain (serialized_value encoding bytes) = not (str_eq encoding proto_encoding)
is_plain _ = true

abbrev pub is_plain_write : Option ChannelValue → Bool
is_plain_write none = true
is_plain_write (some cv) = is_plain cv

module _ (pb : ValueCodec) where
  abbrev HasReadable : (String × String) → Type 0
  HasReadable s = decodes pb s.0 s.1 ≡ true

  plain_decodes :
      (encoding bytes : String)
      → not (str_eq encoding proto_encoding) ≡ true
      → decodes pb encoding bytes ≡ true
  unfolding decode_write_value
  plain_decodes encoding bytes h = elim (Bool-cases (str_eq encoding proto_encoding)) [
    | inl b ↦ absurd (ground (arith, b, h))
    | inr b ↦ rw (b, decodes) refl
  ]

  encoded_decodes :
      ((x : ChannelValue) → (y : ChannelValue) × (pb.unmarshal (pb.marshal x) ≡ some y))
      → (cv : Option ChannelValue) → is_plain_write cv ≡ true
      → HasReadable (encode_write_value pb cv)
  unfolding encode_write_value decode_write_value
  encoded_decodes back none h = refl
  encoded_decodes back (some (serialized_value encoding bytes)) h = plain_decodes encoding bytes h
  encoded_decodes back (some (sends_value ss)) h = rw ((back (sends_value ss)).1, decodes) refl
  encoded_decodes back (some missing_value) h = rw ((back missing_value).1, decodes) refl
  encoded_decodes back (some no_value) h = refl

  abbrev pub ReadableBlob : BlobInput → Type 0
  ReadableBlob x = decodes pb x.encoding (or_default "" x.blob) ≡ true

  abbrev pub ReadableWrite : WriteInput → Type 0
  ReadableWrite x = decodes pb x.encoding x.blob ≡ true

  pub blob_inputs-decode :
      (versions : List (String × String)) (kvs : List (String × ChannelValue))
      → all (λ e. is_plain e.1) kvs ≡ true
      → (x : BlobInput) → IsIn x (blob_inputs versions kvs)
      → ReadableBlob x
  blob_inputs-decode versions [] h x m = absurd m
  blob_inputs-decode versions ((k, serialized_value encoding bytes) ∷ rest) h x (inl e) =
      subst ReadableBlob (sym e)
        (plain_decodes encoding bytes (&&-left (not (str_eq encoding proto_encoding)) _ h))
  blob_inputs-decode versions ((k, serialized_value encoding bytes) ∷ rest) h x (inr m) =
      blob_inputs-decode versions rest (&&-right (not (str_eq encoding proto_encoding)) _ h) x m
  blob_inputs-decode versions ((k, sends_value ss) ∷ rest) h x m =
      blob_inputs-decode versions rest h x m
  blob_inputs-decode versions ((k, missing_value) ∷ rest) h x m =
      blob_inputs-decode versions rest h x m
  blob_inputs-decode versions ((k, no_value) ∷ rest) h x m = blob_inputs-decode versions rest h x m

  pub write_inputs-decode :
      ((x : ChannelValue) → (y : ChannelValue) × (pb.unmarshal (pb.marshal x) ≡ some y))
      → (i : ℕ) (kvs : List (String × Option ChannelValue))
      → all (λ e. is_plain_write e.1) kvs ≡ true
      → (x : WriteInput) → IsIn x (write_inputs pb i kvs)
      → ReadableWrite x
  unfolding write_inputs
  write_inputs-decode back i [] h x m = absurd m
  write_inputs-decode back i ((k, cv) ∷ rest) h x (inl e) =
      subst ReadableWrite (sym e) (encoded_decodes back cv (&&-left (is_plain_write cv) _ h))
  write_inputs-decode back i ((k, cv) ∷ rest) h x (inr m) =
      write_inputs-decode back (suc i) rest (&&-right (is_plain_write cv) _ h) x m

module _ {V : Type 0} (pg : Postgres V) (pb : ValueCodec) where
  put_blobs-IsReadable :
      (thread ns : String) (bs : List BlobInput) (db : Database V)
      → ((x : BlobInput) → IsIn x bs → ReadableBlob pb x)
      → IsReadable pb db
      → OnOk (IsReadable pb) (put_blobs pg thread ns bs db)
  unfolding put_blobs
  put_blobs-IsReadable thread ns [] db h good = good
  put_blobs-IsReadable thread ns (b ∷ bs) db h good =
      let P : Database V → Type 0 = IsReadable pb in
      let row = blob_of pg thread ns b in
      OnOk-then P (put_blob pg row db) _ (λ d e.
        put_blobs-IsReadable thread ns bs d (λ x m. h x (inr m))
          (value_of P
            (OnOk-check P (any (same_blob row) db.checkpoint_blobs || has_thread db thread) database
              (ok (record db { checkpoint_blobs = insert_new same_blob row db.checkpoint_blobs }))
              (λ _. added row (h b (inl refl))))
            e))
    where
      added :
          (row : CheckpointBlob)
          → decodes pb row.encoding (or_default "" row.blob) ≡ true
          → IsReadable pb
              (record db { checkpoint_blobs = insert_new same_blob row db.checkpoint_blobs })
      added row k = record {
        blobs = λ x m. elim (Bool-cases (any (same_blob row) db.checkpoint_blobs)) [
          | inl c ↦ good.blobs x (rw c at m)
          | inr c ↦ elim (rw c at m) [ inl e ↦ rw e k | inr n ↦ good.blobs x n ]
        ];
        writes = good.writes;
      }

  pub put_steps-IsReadable :
      (now : ℕ) (db : Database V) (i : PutInput)
      → ((x : BlobInput) → IsIn x i.blobs → ReadableBlob pb x)
      → IsReadable pb db
      → OnOk (λ x. IsReadable pb x.1) (put_steps pg now db i)
  unfolding put_steps
  put_steps-IsReadable now db i h good =
      let P : Unit {0} × Database V → Type 0 = λ x. IsReadable pb x.1 in
      OnOk-then P (null_or_uuid pg i.run_id) _ (λ run _.
        OnOk-then P (uuid_of pg i.thread_id) _ (λ u _.
          OnOk-then P (uuid_of pg i.checkpoint_id) _ (λ v _.
            OnOk-then P (null_or_uuid pg i.parent_checkpoint_id) _ (λ parent _.
              OnOk-then P (json_of pg i.checkpoint_json) _ (λ k _.
                OnOk-then P (json_of pg i.metadata_json) _ (λ m _.
                  let c = checkpoint_of pg i u v run parent k m in
                  let db' : Database V = record db {
                    checkpoints = put_checkpoint c db.checkpoints;
                  } in
                  OnOk-check P
                    (any (same_checkpoint c) db.checkpoints || (has_thread db u && has_run db run))
                    database _
                    (λ _. OnOk-then P (put_blobs pg u i.checkpoint_ns i.blobs db') _ (λ d e.
                      let stored : IsReadable pb d =
                        value_of (IsReadable pb)
                          (put_blobs-IsReadable u i.checkpoint_ns i.blobs db' h
                            (record { blobs = good.blobs; writes = good.writes }))
                          e in
                      record { blobs = stored.blobs; writes = stored.writes }))))))))

  put_write-IsReadable :
      (w : CheckpointWrite) (ws : List CheckpointWrite)
      → decodes pb w.encoding w.blob ≡ true
      → ((x : CheckpointWrite) → IsIn x ws → decodes pb x.encoding x.blob ≡ true)
      → (x : CheckpointWrite) → IsIn x (put_write w ws)
      → decodes pb x.encoding x.blob ≡ true
  unfolding put_write
  put_write-IsReadable w ws k h x m = elim (Bool-cases (any (same_write w) ws)) [
    | inl b ↦ elim (Bool-cases (is_sentinel w.idx)) [
      | inl s ↦
          replace-holds (λ y. decodes pb y.encoding y.blob ≡ true) (same_write w) (overwrite w) ws
            (λ y. k) h x (rw (b, s) at m)
      | inr s ↦ h x (rw (b, s) at m)
    ]
    | inr b ↦ elim (rw b at m) [ inl e ↦ rw e k | inr n ↦ h x n ]
  ]

  pub put_each_write-IsReadable :
      (i : PutWritesInput) (ws : List WriteInput) (db : Database V)
      → ((x : WriteInput) → IsIn x ws → ReadableWrite pb x)
      → IsReadable pb db
      → OnOk (IsReadable pb) (put_each_write pg i ws db)
  unfolding put_each_write
  put_each_write-IsReadable i [] db h good = good
  put_each_write-IsReadable i (w ∷ ws) db h good =
      let P : Database V → Type 0 = IsReadable pb in
      OnOk-then P (uuid_of pg i.thread_id) _ (λ t _.
        OnOk-then P (uuid_of pg i.checkpoint_id) _ (λ c _.
          OnOk-then P (uuid_of pg i.task_id) _ (λ k _.
            let row = write_of pg i t c k w in
            let db' : Database V = record db {
              checkpoint_writes = put_write row db.checkpoint_writes;
            } in
            OnOk-check P (any (same_write row) db.checkpoint_writes || has_thread db t) database
              (put_each_write pg i ws db')
              (λ _.
                put_each_write-IsReadable i ws db' (λ x m. h x (inr m))
                  (record {
                    blobs = good.blobs;
                    writes =
                        put_write-IsReadable row db.checkpoint_writes (h w (inl refl)) good.writes;
                  })))))
