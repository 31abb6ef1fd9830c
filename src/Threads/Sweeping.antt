-- ===== src/Threads/Sweeping.antt =====
-- ttlSweepTick of internal/threads/ttl.go: the loop ends, and does what one DELETE would do.
use langsmith_deployment_go.Prelude.{
  ℕ, zero, suc, ◌+◌, ◌*◌, ◌<◌, ◌≡◌, refl, sym, ap, ◌∙◌, Bool, true, false, not, some, List, arith,
  elem, keep, length, ltb, inl, inr, Bool-cases, IsIn, IsIn-keep, keep-IsIn, IsIn-take,
  length-keep-not, take-keep-length, take_all, elem-map, map-elem, ltb→lt, same_truth,
}
use langsmith_deployment_go.Runs.Model.{Thread, Database}
use langsmith_deployment_go.Threads.Rows.{thread_ids, delete_threads}
use langsmith_deployment_go.Threads.Deleting.{delete_threads-part, delete_threads-congr}
use langsmith_deployment_go.Threads.Expiry.{
  batch_size, is_past, in_batch, sweep_batch, sweep_batches, ttl_sweep_tick,
}

module _ {V : Type 0} where
  -- The primary key of `thread`.
  pub record UniqueThreads (ts : List (Thread V)) : Type 0 where
    pub same : (x y : Thread V) → IsIn x ts → IsIn y ts → x.thread_id ≡ y.thread_id → x ≡ y

  pub keep-UniqueThreads :
      (p : Thread V → Bool) (ts : List (Thread V)) → UniqueThreads ts → UniqueThreads (keep p ts)
  keep-UniqueThreads p ts u = record {
    same = λ x y mx my e. u.same x y (IsIn-keep p x ts mx).0 (IsIn-keep p y ts my).0 e;
  }

  -- A full batch takes a hundred threads off the table.
  batch_shrinks :
      (now : ℕ) (db : Database V)
      → length (sweep_batch now db).0.threads + (sweep_batch now db).1 ≡ length db.threads
  unfolding sweep_batch delete_threads
  batch_shrinks now db = length-keep-not (in_batch now db.threads) db.threads

  sweep_batches-ends :
      (clock : ℕ → ℕ) (fuel k : ℕ) (db : Database V)
      → length db.threads < 100 * fuel
      → (db' : Database V) × (sweep_batches clock fuel k db ≡ some db')
  unfolding sweep_batches
  sweep_batches-ends clock zero k db h = absurd (omega (arith, h))
  sweep_batches-ends clock (suc fuel) k db h =
      elim (Bool-cases (ltb (sweep_batch (clock k) db).1 batch_size)) [
        | inl b ↦ ((sweep_batch (clock k) db).0, rw b)
        | inr b ↦
            let (db', e) =
              sweep_batches-ends clock fuel (suc k) (sweep_batch (clock k) db).0
                (ground (arith, b, h, batch_shrinks (clock k) db)) in
            (db', rw b e)
      ]

  -- An id of the batch is the id of an expired thread.
  in_batch-is_past :
      (now : ℕ) (ts : List (Thread V)) (t : Thread V)
      → UniqueThreads ts
      → IsIn t ts
      → in_batch now ts t ≡ true
      → is_past now t ≡ true
  in_batch-is_past now ts t u m h =
      let (x, k, e) = map-elem (λ t. t.thread_id) t.thread_id _ h in
      let (mx, past) = IsIn-keep (is_past now) x ts (IsIn-take batch_size x _ k) in
      ap (is_past now) (sym (u.same x t mx m e)) ∙ past

  -- A batch that is not full has taken every expired thread.
  last_batch :
      (now : ℕ) (ts : List (Thread V)) (t : Thread V)
      → length (keep (in_batch now ts) ts) < batch_size
      → IsIn t ts
      → is_past now t ≡ true
      → in_batch now ts t ≡ true
  last_batch now ts t few m past =
      let whole = take_all batch_size (keep (is_past now) ts) (
        omega (
          arith,
          few,
          take-keep-length batch_size (is_past now) (in_batch now ts) ts
              (λ x k. elem-map (λ t. t.thread_id) x _ k),
        )) in
      ap (λ l. elem t.thread_id (thread_ids l)) whole
      ∙ elem-map (λ t. t.thread_id) t _ (keep-IsIn (is_past now) t ts m past)

  last_batch-exact :
      (now : ℕ) (db : Database V)
      → UniqueThreads db.threads
      → ltb (sweep_batch now db).1 batch_size ≡ true
      → (sweep_batch now db).0 ≡ delete_threads (is_past now) db
  unfolding sweep_batch
  last_batch-exact now db u few =
      delete_threads-congr (in_batch now db.threads) (is_past now) db (λ t m.
        same_truth _ _ (in_batch-is_past now db.threads t u m)
          (last_batch now db.threads t (ltb→lt _ _ few) m))

  batch-UniqueThreads :
      (now : ℕ) (db : Database V)
      → UniqueThreads db.threads
      → UniqueThreads (sweep_batch now db).0.threads
  unfolding sweep_batch delete_threads
  batch-UniqueThreads now db u =
      keep-UniqueThreads (λ t. not (in_batch now db.threads t)) db.threads u

  batch_absorbed :
      (now : ℕ) (db : Database V)
      → UniqueThreads db.threads
      → delete_threads (is_past now) (sweep_batch now db).0 ≡ delete_threads (is_past now) db
  unfolding sweep_batch
  batch_absorbed now db u =
      delete_threads-part (is_past now) (in_batch now db.threads) db
        (λ t m. in_batch-is_past now db.threads t u m)

  -- The loop at one time does what one DELETE of the expired threads would do.
  sweep_batches-exact :
      (now fuel k : ℕ) (db : Database V)
      → UniqueThreads db.threads
      → length db.threads < 100 * fuel
      → sweep_batches (λ _. now) fuel k db ≡ some (delete_threads (is_past now) db)
  unfolding sweep_batches
  sweep_batches-exact now zero k db u h = absurd (omega (arith, h))
  sweep_batches-exact now (suc fuel) k db u h =
      elim (Bool-cases (ltb (sweep_batch now db).1 batch_size)) [
        | inl b ↦ rw b (ap some (last_batch-exact now db u b))
        | inr b ↦ rw b (
            sweep_batches-exact now fuel (suc k) (sweep_batch now db).0
              (batch-UniqueThreads now db u) (ground (arith, b, h, batch_shrinks now db))
            ∙ ap some (batch_absorbed now db u))
      ]

  -- The tick of the TTL sweeper ends, whatever the time does between its batches, after at most one
  -- batch more than there are hundreds of threads.
  pub ttl_sweep_tick_ends :
      (locked : Bool) (clock : ℕ → ℕ) (fuel : ℕ) (db : Database V)
      → length db.threads < 100 * fuel
      → (db' : Database V) × (ttl_sweep_tick locked clock fuel db ≡ some db')
  unfolding ttl_sweep_tick
  ttl_sweep_tick_ends true clock fuel db h = sweep_batches-ends clock fuel 0 db h
  ttl_sweep_tick_ends false clock fuel db h = (db, refl)

  -- A tick that has the lock, at one time and over a table with unique ids, leaves the database that
  -- a single unlimited DELETE of the expired threads would leave, with its cascade.
  pub ttl_sweep_tick_exact :
      (now fuel : ℕ) (db : Database V)
      → UniqueThreads db.threads
      → length db.threads < 100 * fuel
      → ttl_sweep_tick true (λ _. now) fuel db ≡ some (delete_threads (is_past now) db)
  unfolding ttl_sweep_tick
  ttl_sweep_tick_exact now fuel db u h = sweep_batches-exact now fuel 0 db u h
