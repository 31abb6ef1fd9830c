-- ===== src/Threads/Deleting.antt =====
-- DELETE FROM thread with its cascade: deleting a part of the rows first changes nothing.
use langsmith_deployment_go.Prelude.{
  String, ◌≡◌, refl, ap, ◌∙◌, Bool, true, false, not, ◌&&◌, ◌||◌, Option, some, none, List, [], ◌∷◌,
  arith, map, elem, keep, inl, inr, Bool-cases, IsIn, keep-keep, keep-congr,
}
use langsmith_deployment_go.Runs.Model.{Thread, Database, Checkpoint}
use langsmith_deployment_go.Runs.Cancel.{delete_runs, of_deleted}
use langsmith_deployment_go.Threads.Rows.{thread_ids, delete_threads}

module _ {A : Type 0} where
  -- What two tests keep one after the other is what one test keeps that is met by what meets both.
  keep-twice :
      (p q r : A → Bool) (xs : List A)
      → ((x : A) → IsIn x xs → (q x && p x) ≡ r x)
      → keep p (keep q xs) ≡ keep r xs
  keep-twice p q r xs h = keep-keep p q xs ∙ keep-congr _ r xs h

  -- The keys of a set of rows, and those of a part of it and of the rest.
  keys_split :
      (f : A → String) (p q r : A → Bool) (s : String) (xs : List A)
      → ((x : A) → IsIn x xs → r x ≡ (p x || q x))
      → elem s (map f (keep r xs))
        ≡ (elem s (map f (keep p xs)) || elem s (map f (keep q (keep (λ x. not (p x)) xs))))
  keys_split f p q r s [] h = refl
  keys_split f p q r s (x ∷ xs) h =
      let ih = keys_split f p q r s xs (λ y m. h y (inr m)) in
      elim (Bool-cases (p x)) [
        | inl a ↦ rw (h x (inl refl), a) (ground (arith, ih))
        | inr a ↦ elim (Bool-cases (q x)) [
          | inl b ↦ rw (h x (inl refl), a, b) (ground (arith, ih))
          | inr b ↦ rw (h x (inl refl), a, b) ih
        ]
      ]

of_deleted-split :
    {V : Type 0} (one two both : List String) (c : Checkpoint V)
    → ((s : String) → elem s both ≡ (elem s one || elem s two))
    → of_deleted both c ≡ (of_deleted one c || of_deleted two c)
of_deleted-split one two both c h = by_run c.run_id
  where
    goes : List String → Option String → Bool
    goes ids o = elim o [ none ↦ false | some u ↦ elem u ids ]

    by_run : (o : Option String) → goes both o ≡ (goes one o || goes two o)
    by_run none = refl
    by_run (some u) = h u

-- The checkpoints that are left, by the run they name and then by their thread.
abbrev checkpoints_left :
    {V : Type 0} → List String → List String → List (Checkpoint V) → List (Checkpoint V)
checkpoints_left runs threads cs =
    keep (λ c. not (elem c.thread_id threads)) (keep (λ c. not (of_deleted runs c)) cs)

checkpoints_left-twice :
    {V : Type 0} (r1 r2 r t1 t2 t : List String) (cs : List (Checkpoint V))
    → ((s : String) → elem s r ≡ (elem s r1 || elem s r2))
    → ((s : String) → elem s t ≡ (elem s t1 || elem s t2))
    → checkpoints_left r2 t2 (checkpoints_left r1 t1 cs) ≡ checkpoints_left r t cs
checkpoints_left-twice r1 r2 r t1 t2 t cs hr ht =
    simp keep-keep
      (keep-congr _ _ cs (λ c m. rw (of_deleted-split r1 r2 r c hr, ht c.thread_id) (ground arith)))

module _ {V : Type 0} where
  -- Whoever deletes the rows of `part` and then those of `p` has deleted the rows of `p`, if `part`
  -- is a part of them.
  pub delete_threads-part :
      (p part : Thread V → Bool) (db : Database V)
      → ((t : Thread V) → IsIn t db.threads → part t ≡ true → p t ≡ true)
      → delete_threads p (delete_threads part db) ≡ delete_threads p db
  unfolding delete_threads delete_runs
  delete_threads-part p part db h =
      let one = thread_ids (keep part db.threads) in
      let two = thread_ids (keep p (keep (λ t. not (part t)) db.threads)) in
      let ids : (s : String)
          → elem s (thread_ids (keep p db.threads)) ≡ (elem s one || elem s two) =
        λ s. keys_split (λ t. t.thread_id) part p p s db.threads (λ t m. ground (arith, h t m)) in
      let runs : (s : String) → _ = λ s.
        keys_split (λ r. r.run_id) (λ r. elem r.thread_id one) (λ r. elem r.thread_id two)
          (λ r. elem r.thread_id (thread_ids (keep p db.threads))) s db.runs
          (λ r m. ids r.thread_id) in
      rw
        (
          keep-twice (λ t. not (p t)) (λ t. not (part t)) (λ t. not (p t)) db.threads
              (λ t m. ground (arith, h t m)),
          keep-twice (λ r. not (elem r.thread_id two)) (λ r. not (elem r.thread_id one))
              (λ r. not (elem r.thread_id (thread_ids (keep p db.threads)))) db.runs
              (λ r m. rw (ids r.thread_id) (ground arith)),
          checkpoints_left-twice _ _ _ one two (thread_ids (keep p db.threads)) db.checkpoints runs
              ids,
          keep-twice (λ w. not (elem w.thread_id two)) (λ w. not (elem w.thread_id one))
              (λ w. not (elem w.thread_id (thread_ids (keep p db.threads)))) db.checkpoint_writes
              (λ w m. rw (ids w.thread_id) (ground arith)),
          keep-twice (λ b. not (elem b.thread_id two)) (λ b. not (elem b.thread_id one))
              (λ b. not (elem b.thread_id (thread_ids (keep p db.threads)))) db.checkpoint_blobs
              (λ b m. rw (ids b.thread_id) (ground arith)),
        )
        refl

  pub delete_threads-congr :
      (p q : Thread V → Bool) (db : Database V)
      → ((t : Thread V) → IsIn t db.threads → p t ≡ q t)
      → delete_threads p db ≡ delete_threads q db
  unfolding delete_threads
  delete_threads-congr p q db h =
      rw
        (
          keep-congr p q db.threads h,
          keep-congr (λ t. not (p t)) (λ t. not (q t)) db.threads (λ t m. ap not (h t m)),
        )
        refl
