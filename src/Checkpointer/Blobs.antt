-- ===== src/Checkpointer/Blobs.antt =====
-- The blobs that Put of internal/checkpointer/store.go inserts: a new key holds the value sent for it.
use mathlib.Core.Bool.{false≢true}
use langsmith_deployment_go.Prelude.{
  ℕ, String, ◌≡◌, refl, sym, ap, ◌∙◌, subst, true, false, ◌&&◌, ◌||◌, some, List, [], ◌∷◌, eq_refl,
  any, ◌⊎◌, inl, inr, Bool-cases, IsIn, any-IsIn, ok, database,
}
use langsmith_deployment_go.Sql.{Postgres}
use langsmith_deployment_go.Runs.Model.{Database, CheckpointBlob}
use langsmith_deployment_go.Runs.Create.{json_of, uuid_of}
use langsmith_deployment_go.Runs.Creating.{OnOk, OnOk-then, OnOk-check, value_of, on_committed}
use langsmith_deployment_go.Checkpointer.Rows.{
  BlobInput, PutInput, same_blob, insert_new, same_checkpoint, put_checkpoint, has_thread, has_run,
  null_or_uuid, blob_of, put_blob, put_blobs, checkpoint_of, put_steps, put,
}

same_self : (row : CheckpointBlob) → same_blob row row ≡ true
same_self row =
    rw (eq_refl row.thread_id, eq_refl row.checkpoint_ns, eq_refl row.channel, eq_refl row.version)
      refl

module _ {V : Type 0} (row : CheckpointBlob) where
  -- The row is there, and nothing else has its key.
  abbrev pub Holds : Database V → Type 0
  Holds db =
      IsIn row db.checkpoint_blobs
      × ((b : CheckpointBlob) → IsIn b db.checkpoint_blobs → same_blob row b ≡ true → b ≡ row)

  abbrev pub IsFree : Database V → Type 0
  IsFree db = any (same_blob row) db.checkpoint_blobs ≡ false

  abbrev added : CheckpointBlob → Database V → Database V
  added x db = record db { checkpoint_blobs = insert_new same_blob x db.checkpoint_blobs }

  nothing_free :
      (db : Database V) (b : CheckpointBlob)
      → IsFree db
      → IsIn b db.checkpoint_blobs
      → same_blob row b ≡ true
      → ⊥
  nothing_free db b free m same =
      false≢true (sym free ∙ any-IsIn (same_blob row) b db.checkpoint_blobs m same)

  -- The row itself is inserted where its key is free.
  added-Holds : (db : Database V) → IsFree db → Holds (added row db)
  added-Holds db free =
      rw free (
        inl refl,
        λ b m same. elim m [ inl e ↦ e | inr k ↦ absurd (nothing_free db b free k same) ],
      )

  -- A row of the key that is there stays as it is, whatever is inserted: an insert of the same key
  -- does nothing.
  Holds-stays :
      (db : Database V) (x : CheckpointBlob)
      → Holds db
      → (same_blob row x ≡ true → x ≡ row)
      → Holds (added x db)
  Holds-stays db x (m, one) known = elim (Bool-cases (any (same_blob x) db.checkpoint_blobs)) [
    | inl b ↦ rw b (m, one)
    | inr b ↦ rw b (
      inr m,
      λ y k same. elim k [
        | inl e ↦ e ∙ known (ap (same_blob row) (sym e) ∙ same)
        | inr n ↦ one y n same
      ],
    )
  ]

  IsFree-stays :
      (db : Database V) (x : CheckpointBlob)
      → IsFree db
      → same_blob row x ≡ false
      → IsFree (added x db)
  IsFree-stays db x free other = elim (Bool-cases (any (same_blob x) db.checkpoint_blobs)) [
    | inl b ↦ rw b free
    | inr b ↦ rw (b, other) free
  ]

module _ {V : Type 0} (pg : Postgres V) (thread ns : String) (row : CheckpointBlob) where
  -- The loop over the blobs: it holds the row at its end if it held it before, or if its key was
  -- free and it is among the blobs, as their only one of that key.
  put_blobs-Holds :
      (bs : List BlobInput) (db : Database V)
      → ((x : BlobInput)
          → IsIn x bs
          → same_blob row (blob_of pg thread ns x) ≡ true
          → blob_of pg thread ns x ≡ row)
      → Holds row db
        ⊎ (IsFree row db × ((x : BlobInput) × IsIn x bs × (blob_of pg thread ns x ≡ row)))
      → OnOk (Holds row) (put_blobs pg thread ns bs db)
  unfolding put_blobs
  put_blobs-Holds [] db one (inl h) = h
  put_blobs-Holds [] db one (inr (free, (x, m, e))) = absurd m
  put_blobs-Holds (b ∷ bs) db one state =
      let new = blob_of pg thread ns b in
      let P : Database V → Type 0 = λ d. d ≡ added row new db in
      OnOk-then (Holds row) (put_blob pg new db) _ (λ d e.
        let is_added : d ≡ added row new db =
          value_of P
            (OnOk-check P (any (same_blob new) db.checkpoint_blobs || has_thread db thread) database
              (ok (added row new db)) (λ _. refl))
            e in
        put_blobs-Holds bs d (λ x m. one x (inr m))
          (subst
            (λ d.
              Holds row d
              ⊎ (IsFree row d × ((x : BlobInput) × IsIn x bs × (blob_of pg thread ns x ≡ row))))
            (sym is_added) (step state)))
    where
      step :
          Holds row db
            ⊎ (IsFree row db × ((x : BlobInput) × IsIn x (b ∷ bs) × (blob_of pg thread ns x ≡ row)))
          → Holds row (added row (blob_of pg thread ns b) db)
            ⊎ (IsFree row (added row (blob_of pg thread ns b) db)
                × ((x : BlobInput) × IsIn x bs × (blob_of pg thread ns x ≡ row)))
      step (inl h) = inl (Holds-stays row db (blob_of pg thread ns b) h (one b (inl refl)))
      step (inr (free, (x, m, e))) = elim (Bool-cases (same_blob row (blob_of pg thread ns b))) [
        | inl same ↦ inl (
            subst (λ r. Holds row (added row r db)) (sym (one b (inl refl) same))
              (added-Holds row db free))
        | inr other ↦ elim m [
          | inl at ↦ absurd (
              false≢true (
                sym other
                ∙ ap (λ y. same_blob row (blob_of pg thread ns y)) (sym at)
                ∙ ap (same_blob row) e
                ∙ same_self row))
          | inr k ↦ inr (IsFree-stays row db _ free other, (x, k, e))
        ]
      ]

module _ {V : Type 0} (pg : Postgres V) where
  put_steps-Holds :
      (now : ℕ) (db : Database V) (i : PutInput) (u : String) (row : CheckpointBlob) (x : BlobInput)
      → pg.uuid i.thread_id ≡ some u
      → IsFree row db
      → IsIn x i.blobs
      → blob_of pg u i.checkpoint_ns x ≡ row
      → ((y : BlobInput)
          → IsIn y i.blobs
          → same_blob row (blob_of pg u i.checkpoint_ns y) ≡ true
          → blob_of pg u i.checkpoint_ns y ≡ row)
      → OnOk (λ p. Holds row p.1) (put_steps pg now db i)
  unfolding put_steps
  put_steps-Holds now db i u row x ku free m e one =
      let P : Unit {0} × Database V → Type 0 = λ p. Holds row p.1 in
      OnOk-then P (null_or_uuid pg i.run_id) _ (λ run _. rw ku (
        OnOk-then P (uuid_of pg i.checkpoint_id) _ (λ v _.
          OnOk-then P (null_or_uuid pg i.parent_checkpoint_id) _ (λ parent _.
            OnOk-then P (json_of pg i.checkpoint_json) _ (λ k _.
              OnOk-then P (json_of pg i.metadata_json) _ (λ md _.
                let c = checkpoint_of pg i u v run parent k md in
                let db' : Database V = record db {
                  checkpoints = put_checkpoint c db.checkpoints;
                } in
                OnOk-check P
                  (any (same_checkpoint c) db.checkpoints || (has_thread db u && has_run db run))
                  database _
                  (λ _. OnOk-then P (put_blobs pg u i.checkpoint_ns i.blobs db') _ (λ d ed.
                    value_of (Holds row)
                      (put_blobs-Holds pg u i.checkpoint_ns row i.blobs db' one
                        (inr (free, (x, m, e))))
                      ed))))))))

  -- After an answered Put the blob of a key that was free is the one that was sent under it.
  pub put-Holds :
      (now : ℕ) (db : Database V) (i : PutInput) (u : String) (row : CheckpointBlob) (x : BlobInput)
      → pg.uuid i.thread_id ≡ some u
      → IsFree row db
      → IsIn x i.blobs
      → blob_of pg u i.checkpoint_ns x ≡ row
      → ((y : BlobInput)
          → IsIn y i.blobs
          → same_blob row (blob_of pg u i.checkpoint_ns y) ≡ true
          → blob_of pg u i.checkpoint_ns y ≡ row)
      → (put pg now db i).0 ≡ ok tt
      → Holds row (put pg now db i).1
  unfolding put
  put-Holds now db i u row x ku free m e one answered =
      on_committed pg (λ p. Holds row p.1) db (put_steps pg now db i) tt
        (put_steps-Holds now db i u row x ku free m e one) answered
