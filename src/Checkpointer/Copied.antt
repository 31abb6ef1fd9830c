-- ===== src/Checkpointer/Copied.antt =====
-- CopyThread and Prune of internal/checkpointer/store.go.
use mathlib.Core.Bool.{false≢true}
use langsmith_deployment_go.Prelude.{
  ℕ, String, ◌≡◌, refl, sym, ap, subst, ◌∙◌, Bool, true, false, not, ◌&&◌, ◌||◌, some, List, [],
  ◌∷◌, arith, map, str_eq, eq_refl, elem, any, keep, inl, inr, Bool-cases, Option-cases, IsIn,
  IsIn-keep, keep-IsIn, IsIn-any, any-IsIn, Result, ok, err, database,
}
use langsmith_deployment_go.Sql.{Postgres, cast_uuids}
use langsmith_deployment_go.Runs.Model.{Database, ℤ, pos, negsuc, Checkpoint, CheckpointWrite}
use langsmith_deployment_go.Runs.Creating.{OnOk, OnOk-check, on_committed}
use langsmith_deployment_go.Checkpointer.Rows.{
  int_eq, same_write, same_checkpoint, insert_new, has_thread,
}
use langsmith_deployment_go.Checkpointer.Copying.{
  insert_each, is_none_left, copied_checkpoint, copied_checkpoints, copied_blobs, copied_writes,
  copy_thread_rows, copy_thread, is_latest, prune,
}

module _ {A : Type 0} (same : A → A → Bool) where
  insert_new-IsIn : (a x : A) (xs : List A) → IsIn x xs → IsIn x (insert_new same a xs)
  insert_new-IsIn a x xs m = elim (Bool-cases (any (same a) xs)) [
    | inl b ↦ rw b m
    | inr b ↦ rw b (inr m)
  ]

  insert_each-IsIn :
      (ns : List A) (x : A) (xs : List A) → IsIn x xs → IsIn x (insert_each same ns xs)
  insert_each-IsIn [] x xs m = m
  insert_each-IsIn (n ∷ ns) x xs m =
      insert_each-IsIn ns x (insert_new same n xs) (insert_new-IsIn n x xs m)

  any-insert_new :
      (a : A) (xs : List A) → same a a ≡ true → any (same a) (insert_new same a xs) ≡ true
  any-insert_new a xs h = elim (Bool-cases (any (same a) xs)) [
    | inl b ↦ rw (b, b) refl
    | inr b ↦ rw (b, h) refl
  ]

  -- Under the key of every new row there is a row afterwards.
  any-insert_each :
      (ns : List A) (n : A) (xs : List A)
      → ((a : A) → same a a ≡ true)
      → IsIn n ns
      → any (same n) (insert_each same ns xs) ≡ true
  any-insert_each [] n xs h m = absurd m
  any-insert_each (y ∷ ys) n xs h (inr m) = any-insert_each ys n (insert_new same y xs) h m
  any-insert_each (y ∷ ys) n xs h (inl e) =
      let (z, k, b) = IsIn-any (same y) (insert_new same y xs) (any-insert_new y xs (h y)) in
      any-IsIn (same n) z _ (insert_each-IsIn ys z (insert_new same y xs) k)
        (ap (λ a. same a z) e ∙ b)

IsIn-map : {A B : Type 0} (f : A → B) (x : A) (xs : List A) → IsIn x xs → IsIn (f x) (map f xs)
IsIn-map f x [] m = absurd m
IsIn-map f x (y ∷ ys) (inl e) = inl (ap f e)
IsIn-map f x (y ∷ ys) (inr m) = inr (IsIn-map f x ys m)

int_eq_refl : (a : ℤ) → int_eq a a ≡ true
int_eq_refl (pos n) = ground arith
int_eq_refl (negsuc n) = ground arith

same_write_refl : (w : CheckpointWrite) → same_write w w ≡ true
same_write_refl w =
    rw
      (
        eq_refl w.thread_id,
        eq_refl w.checkpoint_ns,
        eq_refl w.checkpoint_id,
        eq_refl w.task_id,
        int_eq_refl w.idx,
      )
      refl

keep_all :
    {A : Type 0} (p : A → Bool) (xs : List A) → ((x : A) → IsIn x xs → p x ≡ true) → keep p xs ≡ xs
keep_all p [] h = refl
keep_all p (x ∷ xs) h = rw (h x (inl refl), keep_all p xs (λ y m. h y (inr m))) refl

-- What no row meets, no row of a part meets.
any-keep :
    {A : Type 0} (p q : A → Bool) (xs : List A) → any p xs ≡ false → any p (keep q xs) ≡ false
any-keep p q xs h = elim (Bool-cases (any p (keep q xs))) [
  | inr b ↦ b
  | inl b ↦
      let (x, m, e) = IsIn-any p (keep q xs) b in
      absurd (false≢true (sym h ∙ any-IsIn p x xs (IsIn-keep q x xs m).0 e))
]

pub negated : (b : Bool) → not b ≡ true → b ≡ false
negated b h = ground arith

or_mono : (a b b' : Bool) → (b ≡ true → b' ≡ true) → (a || b) ≡ true → (a || b') ≡ true
or_mono a b b' f h = ground (arith, f, h)

module _ {V : Type 0} (pg : Postgres V) where
  same_checkpoint_refl : (c : Checkpoint V) → same_checkpoint c c ≡ true
  same_checkpoint_refl c =
      rw (eq_refl c.thread_id, eq_refl c.checkpoint_ns, eq_refl c.checkpoint_id) refl

  -- No checkpoint and no write is lost, and under the target thread there is one for each of the
  -- source's.
  abbrev pub Copied : String → String → Database V → Database V → Type 0
  Copied f t db db' =
      ((c : Checkpoint V) → IsIn c db.checkpoints → IsIn c db'.checkpoints)
      × ((w : CheckpointWrite) → IsIn w db.checkpoint_writes → IsIn w db'.checkpoint_writes)
      × ((c : Checkpoint V)
          → IsIn c db.checkpoints
          → str_eq c.thread_id f ≡ true
          → any (same_checkpoint (copied_checkpoint pg t c)) db'.checkpoints ≡ true)
      × ((w : CheckpointWrite)
          → IsIn w db.checkpoint_writes
          → str_eq w.thread_id f ≡ true
          → any (same_write (record w { thread_id = t })) db'.checkpoint_writes ≡ true)

  pub copy_thread_rows-Copied :
      (now : ℕ) (db : Database V) (from to f t : String)
      → pg.uuid from ≡ some f
      → pg.uuid to ≡ some t
      → OnOk (λ x. Copied f t db x.1) (copy_thread_rows pg now db from to)
  unfolding copy_thread_rows
  copy_thread_rows-Copied now db from to f t kf kt =
      let cs = copied_checkpoints pg f t db in
      let ws = copied_writes pg f t db in
      rw (kf, kt)
        (OnOk-check (λ x. Copied f t db x.1)
          (has_thread db t
            || (is_none_left cs && (is_none_left (copied_blobs pg f t db) && is_none_left ws)))
          database _
          (λ _. (
            λ c m. insert_each-IsIn same_checkpoint cs c db.checkpoints m,
            λ w m. insert_each-IsIn same_write ws w db.checkpoint_writes m,
            λ c m e.
                any-insert_each same_checkpoint cs (copied_checkpoint pg t c) db.checkpoints
                  same_checkpoint_refl
                  (IsIn-map (copied_checkpoint pg t) c _ (keep-IsIn _ c db.checkpoints m e)),
            λ w m e.
                any-insert_each same_write ws (record w { thread_id = t }) db.checkpoint_writes
                  same_write_refl
                  (IsIn-map (λ (w : CheckpointWrite). record w { thread_id = t }) w _
                    (keep-IsIn _ w db.checkpoint_writes m e)),
          )))

  -- An answered CopyThread loses no checkpoint and no write, and gives the target thread a
  -- checkpoint and a write under the namespace and ids of each of the source's. The ids are uuids.
  pub copy_thread_complete :
      (now : ℕ) (db : Database V) (from to f t : String)
      → pg.uuid from ≡ some f
      → pg.uuid to ≡ some t
      → (copy_thread pg now db from to).0 ≡ ok tt
      → Copied f t db (copy_thread pg now db from to).1
  unfolding copy_thread
  copy_thread_complete now db from to f t kf kt answered =
      on_committed pg (λ x. Copied f t db x.1) db (copy_thread_rows pg now db from to) tt
        (copy_thread_rows-Copied now db from to f t kf kt) answered

  abbrev stays : List String → List (Checkpoint V) → Checkpoint V → Bool
  stays us cs c = not (elem c.thread_id us) || is_latest pg cs c

  latest_part :
      (q : Checkpoint V → Bool) (cs : List (Checkpoint V)) (c : Checkpoint V)
      → is_latest pg cs c ≡ true
      → is_latest pg (keep q cs) c ≡ true
  latest_part q cs c h = rw (any-keep _ q cs (negated _ h)) refl

  latest_twice :
      (us : List String) (cs : List (Checkpoint V))
      → keep (stays us (keep (stays us cs) cs)) (keep (stays us cs) cs) ≡ keep (stays us cs) cs
  latest_twice us cs = keep_all _ (keep (stays us cs) cs) (λ x m.
      or_mono (not (elem x.thread_id us)) (is_latest pg cs x) _ (latest_part (stays us cs) cs x)
        (IsIn-keep (stays us cs) x cs m).1)

  -- A second Prune with KEEP_LATEST over the same threads, right after the first, deletes nothing.
  pub prune_again :
      (db db' : Database V) (ts : List String)
      → prune pg db ts 1 ≡ ok db'
      → prune pg db' ts 1 ≡ ok db'
  unfolding prune
  prune_again db db' [] e = refl
  prune_again db db' (t ∷ ts) e = elim (Option-cases (cast_uuids pg (t ∷ ts))) [
    | inl n ↦ absurd (ground (arith, (rw n at e)))
    | inr (us, n) ↦
        let pruned = keep (stays us db.checkpoints) db.checkpoints in
        let same : record db { checkpoints = pruned } ≡ db' = unpack (rw n at e) in
        subst (λ d. prune pg d (t ∷ ts) 1 ≡ ok d) same
          (rw n (ap (λ l. ok (record db { checkpoints = l })) (latest_twice us db.checkpoints)))
  ]
    where
      unpack : {a b : Database V} → ok a ≡ ok b → a ≡ b
      unpack {a = a} h = ap (λ (r : Result (Database V)). elim r [ err e ↦ a | ok x ↦ x ]) h
