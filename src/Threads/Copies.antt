-- ===== src/Threads/Copies.antt =====
-- Service.Copy of internal/threads/service.go with a checkpointer: all of it or nothing.
use langsmith_deployment_go.Prelude.{
  ℕ, String, ◌≡◌, refl, ◌∙◌, Bool, true, false, not, ◌||◌, ◌&&◌, some, none, List, [], ◌∷◌, arith,
  eq_refl, any, inl, inr, find?, ok, database, not_found, from_option, Bool-cases,
}
use langsmith_deployment_go.Sql.{Postgres}
use langsmith_deployment_go.Auth.{Filters}
use langsmith_deployment_go.Runs.Model.{Thread, Database, has_thread_id}
use langsmith_deployment_go.Runs.Create.{update_threads}
use langsmith_deployment_go.Runs.Creating.{OnOk, OnOk-then, OnOk-check, Result-cases, value_of}
use langsmith_deployment_go.Service.Signals.{reply, status}
use langsmith_deployment_go.Service.Handlers.{Outcome}
use langsmith_deployment_go.Threads.Query.{by_id, bound, selects_thread}
use langsmith_deployment_go.Threads.Rows.{new_thread, copy_row}
use langsmith_deployment_go.Threads.Handlers.{copied_row, copy_thread_rpc}
use langsmith_deployment_go.Checkpointer.Rows.{has_thread}
use langsmith_deployment_go.Checkpointer.Copying.{
  is_none_left, copied_checkpoints, copied_blobs, copied_writes, copy_thread_rows,
}
use langsmith_deployment_go.Checkpointer.Copied.{Copied, copy_thread_rows-Copied, negated}

module _ {V : Type 0} (pg : Postgres V) where
  -- An UPDATE that meets no row changes none.
  update_threads-none :
      (p : Thread V → Bool) (f : Thread V → Thread V) (ts : List (Thread V))
      → any p ts ≡ false
      → update_threads pg p f ts ≡ ts
  update_threads-none p f [] h = refl
  update_threads-none p f (t ∷ ts) h = elim (Bool-cases (p t)) [
    | inl b ↦ absurd (ground (arith, b, h))
    | inr b ↦ rw (b, update_threads-none p f ts (rw b at h)) refl
  ]

  abbrev pub bumped : ℕ → Thread V → Thread V
  bumped now t = record t { state_updated_at = some now; updated_at = now }

  abbrev IsRowCopy : String → Database V → Thread V × Database V → Type 0
  IsRowCopy fresh db x =
      (x.0.thread_id ≡ fresh)
      × (any (has_thread_id fresh) db.threads ≡ false)
      × (x.1 ≡ record db { threads = x.0 ∷ db.threads })

  copy_row-IsRowCopy :
      (now : ℕ) (db : Database V) (fresh source : String) (fs : Filters)
      → OnOk (IsRowCopy fresh db) (copy_row pg now db fresh source fs)
  unfolding copy_row
  copy_row-IsRowCopy now db fresh source fs =
      let P = IsRowCopy fresh db in
      OnOk-then P (by_id pg source fs) _ (λ w _. OnOk-then P (bound pg w.1) _ (λ ps _.
        OnOk-then P (from_option not_found (find? (selects_thread pg w.0 ps) db.threads)) _ (λ t _.
          OnOk-check P (not (any (has_thread_id fresh) db.threads)) database
            (let copy = new_thread pg now fresh t.metadata pg.empty none in
              ok (copy, record db { threads = copy ∷ db.threads }))
            (λ free. (refl, negated _ free, refl)))))

  abbrev Bumped : ℕ → String → Database V → Database V → Type 0
  Bumped now t db db' =
      (db'.threads ≡ update_threads pg (has_thread_id t) (bumped now) db.threads)
      × (db'.runs ≡ db.runs)

  copy_thread_rows-Bumped :
      (now : ℕ) (db : Database V) (from to f t : String)
      → pg.uuid from ≡ some f
      → pg.uuid to ≡ some t
      → OnOk (λ x. Bumped now t db x.1) (copy_thread_rows pg now db from to)
  unfolding copy_thread_rows
  copy_thread_rows-Bumped now db from to f t kf kt =
      rw (kf, kt)
        (OnOk-check (λ x. Bumped now t db x.1)
          (has_thread db t
            || (is_none_left (copied_checkpoints pg f t db)
                && (is_none_left (copied_blobs pg f t db)
                    && is_none_left (copied_writes pg f t db))))
          database _ (λ _. (refl, refl)))

  -- One new thread, which a checkpoint has just touched, with all that the source has.
  abbrev IsCopy : ℕ → String → String → Database V → Thread V → Database V → Type 0
  IsCopy now u fresh db t db' =
      (t.thread_id ≡ fresh)
      × (any (has_thread_id fresh) db.threads ≡ false)
      × (db'.threads ≡ bumped now t ∷ db.threads)
      × (db'.runs ≡ db.runs)
      × Copied pg u fresh db db'

  abbrev pub AllOrNothing : ℕ → String → String → Database V → Outcome V (Thread V) → Type 0
  AllOrNothing now u fresh db o = elim o.answer [
    | reply t ↦ IsCopy now u fresh db t o.db
    | status c ↦ o.db ≡ db
  ]

  with_checkpoints-AllOrNothing :
      (now : ℕ) (db : Database V) (source u fresh : String) (t : Thread V)
      → pg.uuid source ≡ some u
      → pg.uuid fresh ≡ some fresh
      → t.thread_id ≡ fresh
      → any (has_thread_id fresh) db.threads ≡ false
      → AllOrNothing now u fresh db
          (copied_row pg now db source (ok (t, record db { threads = t ∷ db.threads })))
  with_checkpoints-AllOrNothing now db source u fresh t ks kf e free =
      let db1 : Database V = record db { threads = t ∷ db.threads } in
      let kt : pg.uuid t.thread_id ≡ some fresh = rw e kf in
      elim (Result-cases (copy_thread_rows pg now db1 source t.thread_id)) [
        | inl (x, h) ↦ rw h refl
        | inr (done, h) ↦
            let b =
              value_of (λ x. Bumped now fresh db1 x.1)
                (copy_thread_rows-Bumped now db1 source t.thread_id u fresh ks kt) h in
            let c =
              value_of (λ x. Copied pg u fresh db1 x.1)
                (copy_thread_rows-Copied pg now db1 source t.thread_id u fresh ks kt) h in
            rw h (e, free, b.0 ∙ first_alone now fresh t db.threads e free, b.1, c)
      ]
    where
      first_alone :
          (now : ℕ) (fresh : String) (t : Thread V) (ts : List (Thread V))
          → t.thread_id ≡ fresh
          → any (has_thread_id fresh) ts ≡ false
          → update_threads pg (has_thread_id fresh) (bumped now) (t ∷ ts) ≡ bumped now t ∷ ts
      first_alone now fresh t ts e free =
          rw (e, eq_refl fresh, update_threads-none (has_thread_id fresh) (bumped now) ts free) refl

  -- Copy with a checkpointer, of a uuid and with a canonical fresh id, answers a thread of the fresh
  -- id, which was free; then the thread table has that thread in addition, touched at the time of
  -- the copy, the runs are as they were, no checkpoint and no write is lost, and the thread has a
  -- checkpoint and a write for each of the source's. Or it answers an error and changes nothing.
  pub copy_thread_rpc-AllOrNothing :
      (now : ℕ) (db : Database V) (fresh source u : String) (fs : Filters)
      → pg.uuid source ≡ some u
      → pg.uuid fresh ≡ some fresh
      → AllOrNothing now u fresh db (copy_thread_rpc pg true now db fresh source fs)
  unfolding copy_thread_rpc
  copy_thread_rpc-AllOrNothing now db fresh source u fs ks kf =
      elim (Result-cases (copy_row pg now db fresh source fs)) [
        | inl (x, h) ↦ rw h refl
        | inr (made, h) ↦
            let (e, free, same) =
              value_of (IsRowCopy fresh db) (copy_row-IsRowCopy now db fresh source fs) h in
            rw (h, same) (with_checkpoints-AllOrNothing now db source u fresh made.0 ks kf e free)
      ]
