-- ===== src/Threads/Expiry.antt =====
-- ttlSweepTick of internal/threads/ttl.go.
use langsmith_deployment_go.Prelude.{
  ℕ, zero, suc, String, Bool, false, Option, none, some, List, elem, keep, take, length, ltb,
  if◌then◌else◌,
}
use langsmith_deployment_go.Runs.Model.{Thread, Database}
use langsmith_deployment_go.Threads.Rows.{thread_ids, delete_threads}

abbrev pub batch_size : ℕ
batch_size = 100

module _ {V : Type 0} where
  -- `expires_at IS NOT NULL AND expires_at < now()`
  abbrev pub is_past : ℕ → Thread V → Bool
  is_past now t = elim t.expires_at [ none ↦ false | some at ↦ ltb at now ]

  -- The ids of the subselect, whose LIMIT cuts a scan of the table.
  abbrev pub batch_ids : ℕ → List (Thread V) → List String
  batch_ids now ts = thread_ids (take batch_size (keep (is_past now) ts))

  abbrev pub in_batch : ℕ → List (Thread V) → Thread V → Bool
  in_batch now ts t = elem t.thread_id (batch_ids now ts)

  -- One DELETE, with its RowsAffected.
  unfoldable pub sweep_batch : ℕ → Database V → Database V × ℕ
  sweep_batch now db = (
    delete_threads (in_batch now db.threads) db,
    length (keep (in_batch now db.threads) db.threads),
  )

  -- The loop, on fuel: `none` is a loop that has not ended. Batch `k` runs at the time `clock k`.
  unfoldable pub sweep_batches : (ℕ → ℕ) → ℕ → ℕ → Database V → Option (Database V)
  sweep_batches clock zero k db = none
  sweep_batches clock (suc fuel) k db =
      let done = sweep_batch (clock k) db in
      let rest = sweep_batches clock fuel (suc k) done.0 in
      if ltb done.1 batch_size then some done.0 else rest

  -- Without the advisory lock another replica sweeps, and the tick does nothing.
  unfoldable pub ttl_sweep_tick : Bool → (ℕ → ℕ) → ℕ → Database V → Option (Database V)
  ttl_sweep_tick locked clock fuel db = if locked then sweep_batches clock fuel 0 db else some db
