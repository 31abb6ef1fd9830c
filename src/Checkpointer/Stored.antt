-- ===== src/Checkpointer/Stored.antt =====
-- Put and PutWrites of internal/checkpointer/store.go: what a later read finds.
use mathlib.Core.Bool.{false≢true}
use langsmith_deployment_go.Prelude.{
  ℕ, String, ◌≡◌, refl, sym, ap, ◌∙◌, subst, Bool, true, false, ◌&&◌, ◌||◌, some, List, [], ◌∷◌,
  arith, str_eq, eq_refl, any, find?, inl, inr, Bool-cases, Option-cases, IsIn, ok, database,
  eq_iff, &&-left, &&-right, some-injective,
}
use langsmith_deployment_go.Sql.{Postgres}
use langsmith_deployment_go.Runs.Model.{Database, ℤ, pos, negsuc, Checkpoint, CheckpointWrite}
use langsmith_deployment_go.Runs.Create.{json_of, uuid_of}
use langsmith_deployment_go.Runs.Creating.{
  OnOk, OnOk-then, OnOk-check, value_of, on_committed, committed-either,
}
use langsmith_deployment_go.Checkpointer.Rows.{
  BlobInput, PutInput, PutWritesInput, WriteInput, int_eq, is_sentinel, same_write, same_blob,
  insert_new, replace, overwrite, put_write, is_at, same_checkpoint, revise, put_checkpoint,
  has_thread, has_run, null_or_uuid, blob_of, put_blob, put_blobs, checkpoint_of, put_steps, put,
  write_of, put_each_write, put_writes,
}
use langsmith_deployment_go.Checkpointer.Reads.{load_blobs_and_writes, loaded, get_tuple}

same_sign : (a b : ℤ) → int_eq a b ≡ true → is_sentinel a ≡ is_sentinel b
same_sign (pos a) (pos b) h = refl
same_sign (negsuc a) (negsuc b) h = refl
same_sign (pos a) (negsuc b) h = absurd (ground (arith, h))
same_sign (negsuc a) (pos b) h = absurd (ground (arith, h))

IsIn-replace :
    {A : Type 0} (p : A → Bool) (f : A → A) (x : A) (xs : List A)
    → IsIn x xs
    → p x ≡ false
    → IsIn x (replace p f xs)
IsIn-replace p f x [] m h = absurd m
IsIn-replace p f x (y ∷ ys) (inl e) h = inl (e ∙ sym (rw (ap p (sym e) ∙ h) refl))
IsIn-replace p f x (y ∷ ys) (inr m) h = inr (IsIn-replace p f x ys m h)

fifth : (a b c d e : Bool) → (a && (b && (c && (d && e)))) ≡ true → e ≡ true
fifth a b c d e h = ground arith

not_same_key :
    (w x : CheckpointWrite)
    → is_sentinel w.idx ≡ true
    → is_sentinel x.idx ≡ false
    → same_write w x ≡ false
not_same_key w x s r = elim (Bool-cases (same_write w x)) [
  | inr b ↦ b
  | inl b ↦
      let same =
        fifth (str_eq x.thread_id w.thread_id) (str_eq x.checkpoint_ns w.checkpoint_ns)
          (str_eq x.checkpoint_id w.checkpoint_id) (str_eq x.task_id w.task_id) (int_eq x.idx w.idx)
          b in
      absurd (false≢true (sym r ∙ same_sign x.idx w.idx same ∙ s))
]

put_write-IsIn :
    (w x : CheckpointWrite) (ws : List CheckpointWrite)
    → IsIn x ws
    → is_sentinel x.idx ≡ false
    → IsIn x (put_write w ws)
unfolding put_write
put_write-IsIn w x ws m regular = elim (Bool-cases (any (same_write w) ws)) [
  | inl b ↦ elim (Bool-cases (is_sentinel w.idx)) [
    | inl s ↦
        rw (b, s) (IsIn-replace (same_write w) (overwrite w) x ws m (not_same_key w x s regular))
    | inr s ↦ rw (b, s) m
  ]
  | inr b ↦ rw b (inr m)
]

module _ {V : Type 0} (pg : Postgres V) where
  -- A regular write that is stored is stored after every further write.
  abbrev Keeps : CheckpointWrite → Database V → Type 0
  Keeps x db = IsIn x db.checkpoint_writes

  put_each_write-Keeps :
      (i : PutWritesInput) (ws : List WriteInput) (db : Database V) (x : CheckpointWrite)
      → is_sentinel x.idx ≡ false
      → Keeps x db
      → OnOk (Keeps x) (put_each_write pg i ws db)
  unfolding put_each_write
  put_each_write-Keeps i [] db x regular m = m
  put_each_write-Keeps i (w ∷ ws) db x regular m =
      OnOk-then (Keeps x) (uuid_of pg i.thread_id) _ (λ t _.
        OnOk-then (Keeps x) (uuid_of pg i.checkpoint_id) _ (λ c _.
          OnOk-then (Keeps x) (uuid_of pg i.task_id) _ (λ k _.
            let row = write_of pg i t c k w in
            let db' : Database V = record db {
              checkpoint_writes = put_write row db.checkpoint_writes;
            } in
            OnOk-check (Keeps x) (any (same_write row) db.checkpoint_writes || has_thread db t)
              database (put_each_write pg i ws db')
              (λ _.
                put_each_write-Keeps i ws db' x regular
                  (put_write-IsIn row x db.checkpoint_writes m regular)))))

  -- PutWrites, whatever it answers, never changes or removes a stored write whose index is not one
  -- of the negative sentinels: the first value of such a write stays.
  pub put_writes_keep :
      (now : ℕ) (db : Database V) (i : PutWritesInput) (x : CheckpointWrite)
      → IsIn x db.checkpoint_writes
      → is_sentinel x.idx ≡ false
      → IsIn x (put_writes pg now db i).1.checkpoint_writes
  unfolding put_writes
  put_writes_keep now db i x m regular = committed-either pg (Keeps x) db _ m (
      OnOk-then (λ r. Keeps x r.1) (put_each_write pg i i.writes db) _
        (λ db' e.
          OnOk-then (λ r. Keeps x r.1) (uuid_of pg i.thread_id) _
            (λ t _. value_of (Keeps x) (put_each_write-Keeps i i.writes db x regular m) e)))

  -- The row that Put has upserted, with its key and its documents.
  abbrev pub Upserted : PutInput → String → String → Database V → Database V → Type 0
  Upserted i u v db db' =
      (c : Checkpoint V) × (c.thread_id ≡ u)
      × (c.checkpoint_ns ≡ i.checkpoint_ns)
      × (c.checkpoint_id ≡ v)
      × (pg.parse i.checkpoint_json ≡ some c.checkpoint)
      × (pg.parse i.metadata_json ≡ some c.metadata)
      × (db'.checkpoints ≡ put_checkpoint c db.checkpoints)

  find?-replace :
      (c : Checkpoint V) (cs : List (Checkpoint V))
      → any (same_checkpoint c) cs ≡ true
      → (x : Checkpoint V) × (find? (same_checkpoint c) (replace (same_checkpoint c) (revise c) cs)
          ≡ some (revise c x))
  find?-replace c [] h = absurd (ground (arith, h))
  find?-replace c (x ∷ xs) h = elim (Bool-cases (same_checkpoint c x)) [
    | inl b ↦ (x, rw (b, b) refl)
    | inr b ↦ let (y, e) = find?-replace c xs (rw b at h) in (y, rw (b, b) e)
  ]

  pub find?-put_checkpoint :
      (c : Checkpoint V) (cs : List (Checkpoint V))
      → (y : Checkpoint V) × (find? (same_checkpoint c) (put_checkpoint c cs) ≡ some y)
        × (y.checkpoint ≡ c.checkpoint)
        × (y.metadata ≡ c.metadata)
  unfolding put_checkpoint
  find?-put_checkpoint c cs = elim (Bool-cases (any (same_checkpoint c) cs)) [
    | inl b ↦ let (x, e) = find?-replace c cs b in (revise c x, rw b e, refl, refl)
    | inr b ↦ (
      c,
      rw (b, eq_refl c.thread_id, eq_refl c.checkpoint_ns, eq_refl c.checkpoint_id) refl,
      refl,
      refl,
    )
  ]

  pub put_blobs-checkpoints :
      (thread ns : String) (bs : List BlobInput) (db : Database V)
      → OnOk (λ d. d.checkpoints ≡ db.checkpoints) (put_blobs pg thread ns bs db)
  unfolding put_blobs
  put_blobs-checkpoints thread ns [] db = refl
  put_blobs-checkpoints thread ns (b ∷ bs) db =
      let P : Database V → Type 0 = λ d. d.checkpoints ≡ db.checkpoints in
      let row = blob_of pg thread ns b in
      OnOk-then P (put_blob pg row db) _ (λ d e.
        let same =
          value_of P
            (OnOk-check P (any (same_blob row) db.checkpoint_blobs || has_thread db thread) database
              (ok (record db { checkpoint_blobs = insert_new same_blob row db.checkpoint_blobs }))
              (λ _. refl))
            e in
        subst (λ l. OnOk (λ d'. d'.checkpoints ≡ l) (put_blobs pg thread ns bs d)) same
          (put_blobs-checkpoints thread ns bs d))

  pub parsed : (s : String) (v : V) → json_of pg s ≡ ok v → pg.parse s ≡ some v
  parsed s v e = elim (Option-cases (pg.parse s)) [
    | inl n ↦ absurd (ground (arith, (rw n at e)))
    | inr (x, n) ↦ let same : x ≡ v = ground (arith, (rw n at e)) in n ∙ ap some same
  ]

  put_steps-Upserted :
      (now : ℕ) (db : Database V) (i : PutInput) (u v : String)
      → pg.uuid i.thread_id ≡ some u
      → pg.uuid i.checkpoint_id ≡ some v
      → OnOk (λ x. Upserted i u v db x.1) (put_steps pg now db i)
  unfolding put_steps
  put_steps-Upserted now db i u v ku kv =
      let P : Unit {0} × Database V → Type 0 = λ x. Upserted i u v db x.1 in
      OnOk-then P (null_or_uuid pg i.run_id) _ (λ run _.
        rw (ku, kv)
          (OnOk-then P (null_or_uuid pg i.parent_checkpoint_id) _ (λ parent _.
            OnOk-then P (json_of pg i.checkpoint_json) _ (λ k ek.
              OnOk-then P (json_of pg i.metadata_json) _ (λ m em.
                let c = checkpoint_of pg i u v run parent k m in
                let db' : Database V = record db {
                  checkpoints = put_checkpoint c db.checkpoints;
                } in
                OnOk-check P
                  (any (same_checkpoint c) db.checkpoints || (has_thread db u && has_run db run))
                  database _
                  (λ _. OnOk-then P (put_blobs pg u i.checkpoint_ns i.blobs db') _ (λ db2 e2. (
                    c,
                    refl,
                    refl,
                    refl,
                    parsed i.checkpoint_json k ek,
                    parsed i.metadata_json m em,
                    value_of (λ d. d.checkpoints ≡ db'.checkpoints)
                        (put_blobs-checkpoints u i.checkpoint_ns i.blobs db') e2,
                  ))))))))

  pub put-Upserted :
      (now : ℕ) (db : Database V) (i : PutInput) (u v : String)
      → pg.uuid i.thread_id ≡ some u
      → pg.uuid i.checkpoint_id ≡ some v
      → (put pg now db i).0 ≡ ok tt
      → Upserted i u v db (put pg now db i).1
  unfolding put
  put-Upserted now db i u v ku kv answered =
      on_committed pg (λ x. Upserted i u v db x.1) db (put_steps pg now db i) tt
        (put_steps-Upserted now db i u v ku kv) answered

  at_key :
      (c : Checkpoint V) {u ns v : String}
      → c.thread_id ≡ u
      → c.checkpoint_ns ≡ ns
      → c.checkpoint_id ≡ v
      → (cs : List (Checkpoint V)) → find? (is_at u ns v) cs ≡ find? (same_checkpoint c) cs
  at_key c et en ei cs = rw (← et, ← en, ← ei) refl

  found_passes :
      {A : Type 0} (p : A → Bool) (xs : List A) (x : A) → find? p xs ≡ some x → p x ≡ true
  found_passes p [] x h = absurd (ground (arith, h))
  found_passes p (y ∷ ys) x h = elim (Bool-cases (p y)) [
    | inl b ↦ ap p (sym (some-injective y x (rw b at h))) ∙ b
    | inr b ↦ found_passes p ys x (rw b at h)
  ]

  same_keys :
      (c y : Checkpoint V)
      → same_checkpoint c y ≡ true
      → (y.thread_id ≡ c.thread_id)
        × (y.checkpoint_ns ≡ c.checkpoint_ns)
        × (y.checkpoint_id ≡ c.checkpoint_id)
  same_keys c y h =
      let rest = &&-right (str_eq y.thread_id c.thread_id) _ h in
      (
        (eq_iff y.thread_id c.thread_id).0 (&&-left _ _ h),
        (eq_iff y.checkpoint_ns c.checkpoint_ns).0 (&&-left _ _ rest),
        (eq_iff y.checkpoint_id c.checkpoint_id).0
            (&&-right (str_eq y.checkpoint_ns c.checkpoint_ns) _ rest),
      )

  -- After an answered Put, GetTuple with its thread, namespace and id answers a tuple whose
  -- checkpoint and metadata are the documents of the Put, whether or not there was a row before. The
  -- ids are uuids, and that of the checkpoint is not the empty text.
  pub get_tuple-put :
      (now : ℕ) (db : Database V) (i : PutInput) (u v : String)
      → pg.uuid i.thread_id ≡ some u
      → pg.uuid i.checkpoint_id ≡ some v
      → str_eq i.checkpoint_id "" ≡ false
      → (put pg now db i).0 ≡ ok tt
      → (c : Checkpoint V) × (get_tuple pg
            (put pg now db i).1
            i.thread_id
            i.checkpoint_ns
            i.checkpoint_id
          ≡ ok (some (load_blobs_and_writes (put pg now db i).1 c)))
        × (pg.parse i.checkpoint_json ≡ some c.checkpoint)
        × (pg.parse i.metadata_json ≡ some c.metadata)
        × (c.thread_id ≡ u)
        × (c.checkpoint_ns ≡ i.checkpoint_ns)
        × (c.checkpoint_id ≡ v)
  unfolding get_tuple
  get_tuple-put now db i u v ku kv named answered =
      let db' = (put pg now db i).1 in
      let (c, et, en, ei, ec, ed, table) = put-Upserted now db i u v ku kv answered in
      let (y, found, e1, e2) = find?-put_checkpoint c db.checkpoints in
      let (ft, fn, fi) = same_keys c y (found_passes (same_checkpoint c) _ y found) in
      (
        y,
        rw (ku, named, kv)
            (ap (λ o. ok (loaded db' o))
              (at_key c et en ei db'.checkpoints ∙ ap (find? (same_checkpoint c)) table ∙ found)),
        ec ∙ ap some (sym e1),
        ed ∙ ap some (sym e2),
        ft ∙ et,
        fn ∙ en,
        fi ∙ ei,
      )
