-- ===== src/Checkpointer/Loading.antt =====
-- The loops of rowToTuple of internal/checkpointer/service.go over rows that the service can decode.
use langsmith_deployment_go.Prelude.{
  String, ◌≡◌, refl, Bool, true, false, Option, none, some, List, [], ◌∷◌, ◌++◌, map, arith, inl,
  inr, Bool-cases, IsIn, IsIn-keep, IsIn-sort_by, Result, ok, err,
}
use langsmith_deployment_go.Runs.Model.{Database, CheckpointWrite, CheckpointBlob, Checkpoint}
use langsmith_deployment_go.Runs.Create.{or_default}
use langsmith_deployment_go.Checkpointer.Reads.{
  writes_at, writes_first, load_blobs_and_writes, sends_from,
}
use langsmith_deployment_go.Checkpointer.Values.{
  ChannelValue, Send, ValueCodec, decode_write_value, is_of_checkpoint, sends_of, blob_values,
  pending_sends, pending_writes,
}

abbrev pub decodes : ValueCodec → String → String → Bool
decodes pb encoding bytes = elim (decode_write_value pb encoding bytes) [
  | err e ↦ false
  | ok cv ↦ true
]

module _ (pb : ValueCodec) where
  -- Every blob and every write of the database decodes.
  pub record IsReadable {V : Type 0} (db : Database V) : Type 0 where
    pub blobs :
        (b : CheckpointBlob)
        → IsIn b db.checkpoint_blobs
        → decodes pb b.encoding (or_default "" b.blob) ≡ true
    pub writes :
        (w : CheckpointWrite) → IsIn w db.checkpoint_writes → decodes pb w.encoding w.blob ≡ true

  decoded :
      (encoding bytes : String)
      → decodes pb encoding bytes ≡ true
      → (cv : ChannelValue) × (decode_write_value pb encoding bytes ≡ ok cv)
  decoded encoding bytes h = by_case (decode_write_value pb encoding bytes) h
    where
      by_case :
          (r : Result ChannelValue)
          → elim r [ err e ↦ false | ok cv ↦ true ] ≡ true
          → (cv : ChannelValue) × (r ≡ ok cv)
      by_case (err e) k = absurd (ground (arith, k))
      by_case (ok cv) k = (cv, refl)

  blob_values-total :
      (versions : List (String × String)) (bs : List CheckpointBlob)
      (acc : List (String × ChannelValue))
      → ((b : CheckpointBlob) → IsIn b bs → decodes pb b.encoding (or_default "" b.blob) ≡ true)
      → (vs : List (String × ChannelValue)) × (blob_values pb versions bs acc ≡ ok vs)
  unfolding blob_values
  blob_values-total versions [] acc h = (acc, refl)
  blob_values-total versions (b ∷ bs) acc h =
      let (cv, e) = decoded b.encoding (or_default "" b.blob) (h b (inl refl)) in
      let below = λ (acc' : List (String × ChannelValue)).
        blob_values-total versions bs acc' (λ x m. h x (inr m)) in
      elim (Bool-cases (is_of_checkpoint versions b)) [
        | inl k ↦ let (vs, d) = below ((b.channel, cv) ∷ acc) in (vs, rw (k, e) d)
        | inr k ↦ let (vs, d) = below acc in (vs, rw k d)
      ]

  pending_sends-total :
      (ws : List CheckpointWrite)
      → ((w : CheckpointWrite) → IsIn w ws → decodes pb w.encoding w.blob ≡ true)
      → (ss : List Send) × (pending_sends pb (map (λ w. (w.encoding, w.blob)) ws) ≡ ok ss)
  unfolding pending_sends
  pending_sends-total [] h = ([], refl)
  pending_sends-total (w ∷ ws) h =
      let (cv, e) = decoded w.encoding w.blob (h w (inl refl)) in
      let (ss, d) = pending_sends-total ws (λ x m. h x (inr m)) in
      (sends_of cv ++ ss, rw (e, d) refl)

  pub pending_writes-total :
      (ws : List CheckpointWrite)
      → ((w : CheckpointWrite) → IsIn w ws → decodes pb w.encoding w.blob ≡ true)
      → (vs : List (String × String × ChannelValue)) × (pending_writes pb ws ≡ ok vs)
  unfolding pending_writes
  pending_writes-total [] h = ([], refl)
  pending_writes-total (w ∷ ws) h =
      let (cv, e) = decoded w.encoding w.blob (h w (inl refl)) in
      let (vs, d) = pending_writes-total ws (λ x m. h x (inr m)) in
      ((w.task_id, w.channel, cv) ∷ vs, rw (e, d) refl)

module _ {V : Type 0} (pb : ValueCodec) (db : Database V) (good : IsReadable pb db) where
  at_checkpoint :
      (thread ns id : String) (w : CheckpointWrite)
      → IsIn w (writes_at thread ns id db.checkpoint_writes)
      → decodes pb w.encoding w.blob ≡ true
  at_checkpoint thread ns id w m =
      good.writes w (IsIn-keep _ w db.checkpoint_writes (IsIn-sort_by writes_first w _ m)).0

  -- The three loops over what is loaded for a checkpoint succeed.
  pub load_blobs_and_writes-decodes :
      (c : Checkpoint V) (versions : List (String × String))
      → ((vs : List (String × ChannelValue)) × (blob_values pb versions
              (load_blobs_and_writes db c).blobs
              []
            ≡ ok vs))
        × ((ss : List Send) × (pending_sends pb (load_blobs_and_writes db c).pending_sends ≡ ok ss))
        × ((ws : List (String × String × ChannelValue)) × (pending_writes pb
                (load_blobs_and_writes db c).writes
              ≡ ok ws))
  unfolding load_blobs_and_writes pending_sends
  load_blobs_and_writes-decodes c versions = (
    blob_values-total pb versions _ []
        (λ b m. good.blobs b (IsIn-keep _ b db.checkpoint_blobs m).0),
    sends c.parent_checkpoint_id,
    pending_writes-total pb _ (at_checkpoint c.thread_id c.checkpoint_ns c.checkpoint_id),
  )
    where
      sends :
          (parent : Option String)
          → (ss : List Send) × (pending_sends pb (sends_from parent db c) ≡ ok ss)
      sends none = ([], refl)
      sends (some p) =
          pending_sends-total pb _
            (λ w m. at_checkpoint c.thread_id c.checkpoint_ns p w (IsIn-keep _ w _ m).0)
