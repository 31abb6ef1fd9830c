-- ===== src/Runs/Fencing.antt =====
-- Heartbeats against reaping in internal/runs/store.go: ExtendLease after Sweep.
use mathlib.Core.Bool.{false≢true}
use langsmith_deployment_go.Prelude.{
  ℕ, String, ◌≡◌, refl, true, false, ◌&&◌, some, List, [], ◌∷◌, arith, any, inl, inr, Bool-cases,
  err, not_found,
}
use langsmith_deployment_go.Sql.{Postgres}
use langsmith_deployment_go.Runs.Model.{Run, Database, has_run_id, update_runs}
use langsmith_deployment_go.Runs.Lease.{extends, extend_lease, swept, sweep_one, is_expired}

module _ {V : Type 0} (pg : Postgres V) where
  none_extends :
      (now : ℕ) (u holder : String) (rs : List (Run V))
      → any (extends u holder) (update_runs (has_run_id u) (swept now) rs) ≡ false
  none_extends now u holder [] = refl
  none_extends now u holder (r ∷ rs) = elim (Bool-cases (has_run_id u r)) [
    | inl b ↦ rw (b, none_extends now u holder rs) (ground arith)
    | inr b ↦ rw (b, b, none_extends now u holder rs)
  ]

  reaped_none_extends :
      (now : ℕ) (u holder : String) (db : Database V)
      → (sweep_one now u db).1 ≡ true
      → any (extends u holder) (sweep_one now u db).0.runs ≡ false
  unfolding sweep_one
  reaped_none_extends now u holder db h =
      elim (Bool-cases (any (λ r. has_run_id u r && is_expired now r) db.runs)) [
        | inl b ↦ rw (b, none_extends now u holder db.runs)
        | inr b ↦ absurd (false≢true (rw b at h))
      ]

  extend_lease-none :
      (t ttl : ℕ) (run u holder : String) (db : Database V)
      → pg.uuid run ≡ some u
      → any (extends u holder) db.runs ≡ false
      → (extend_lease pg t ttl db run holder).0 ≡ err not_found
  unfolding extend_lease
  extend_lease-none t ttl run u holder db c h = rw (c, extend_lease, h)

  -- A heartbeat under a uuid of a run that Sweep has just reaped fails with ErrNotFound, whoever
  -- sends it and whenever, as long as nothing else has changed the run.
  pub extend_lease-sweep_one :
      (now t ttl : ℕ) (run u holder : String) (db : Database V)
      → pg.uuid run ≡ some u
      → (sweep_one now u db).1 ≡ true
      → (extend_lease pg t ttl (sweep_one now u db).0 run holder).0 ≡ err not_found
  extend_lease-sweep_one now t ttl run u holder db c h =
      extend_lease-none t ttl run u holder (sweep_one now u db).0 c
        (reaped_none_extends now u holder db h)
