-- ===== src/Runs/Effects.antt =====
-- What each operation of internal/runs/store.go does to the run table.
use langsmith_deployment_go.Prelude.{
  ℕ, String, ◌≡◌, refl, sym, subst, Bool, true, false, ◌&&◌, List, [], ◌∷◌, arith, any, find?,
  str_eq, inl, inr, Bool-cases, Option-cases,
}
use langsmith_deployment_go.Sql.{
  Postgres, Arg, Conds, bind, own_metadata, thread_metadata, texts_arg, cond, uuid_is, run_id,
  run_thread_id, optional, uuid_arg,
}
use langsmith_deployment_go.Auth.{Filters, apply_to_query}
use langsmith_deployment_go.Runs.Model.{Run, RunStatus, Database, has_run_id}
use langsmith_deployment_go.Runs.Lease.{
  extend_lease, extended, extends, update_by_id, set_status, mark_done, next, claim_rows, claimed,
  sweep_one, swept, is_expired,
}
use langsmith_deployment_go.Runs.Cancel.{
  cancel_with_action, cancel_by_status, cancel_targets, cancel_pending, cancel_running,
  cancel_where, interrupt_row, request_row, delete_runs,
}
use langsmith_deployment_go.Runs.Create.{CreateRunInput}
use langsmith_deployment_go.Runs.Insert.{create, delete, delete_where, delete_selected}
use langsmith_deployment_go.Runs.Strategies.{create-Created, create-err}
use langsmith_deployment_go.Runs.Query.{is_given}
use langsmith_deployment_go.Runs.Creating.{Result-cases}
use langsmith_deployment_go.Runs.Claims.{runs-next}
use langsmith_deployment_go.Runs.Tables.{
  RowStep, TableStep, unchanged, updated, removed, inserted, both,
}

module _ {V : Type 0} (pg : Postgres V) where
  abbrev pub Table : Database V → Database V → Type 0
  Table a b = TableStep a.runs b.runs

  -- An update that leaves the identity, the generation and the claims alone.
  plain_step :
      (r r' : Run V)
      → r'.run_id ≡ r.run_id
      → r'.thread_id ≡ r.thread_id
      → r'.created_at ≡ r.created_at
      → r'.lease_generation ≡ r.lease_generation
      → r'.attempt ≡ r.attempt
      → RowStep r r'
  plain_step r r' a b c g t = record {
    same_id = a;
    same_thread = b;
    same_creation = c;
    grows = omega (arith, g);
    counts = λ h. omega (arith, g, t, h);
  }

  pub next-Table :
      (locked : Run V → Bool) (now ttl limit : ℕ) (db : Database V)
      → Table db (next pg locked now ttl limit db).1
  unfolding claim_rows
  next-Table locked now ttl limit db =
      subst (λ rs. TableStep db.runs rs) (sym (runs-next pg locked now ttl limit db))
        (updated _ (claimed now ttl) db.runs (λ r. record {
          same_id = refl;
          same_thread = refl;
          same_creation = refl;
          grows = omega arith;
          counts = λ h. omega (arith, h);
        }))

  pub sweep_one-Table : (now : ℕ) (u : String) (db : Database V) → Table db (sweep_one now u db).0
  unfolding sweep_one
  sweep_one-Table now u db =
      elim (Bool-cases (any (λ r. has_run_id u r && is_expired now r) db.runs)) [
        | inl b ↦ rw b (
            updated (has_run_id u) (swept now) db.runs (λ r. record {
              same_id = refl;
              same_thread = refl;
              same_creation = refl;
              grows = omega arith;
              counts = λ h. omega (arith, h);
            }))
        | inr b ↦ rw b (unchanged db.runs)
      ]

  pub extend_lease-Table :
      (now ttl : ℕ) (run holder : String) (db : Database V)
      → Table db (extend_lease pg now ttl db run holder).1
  unfolding extend_lease
  extend_lease-Table now ttl run holder db = elim (Option-cases (pg.uuid run)) [
    | inl c ↦ rw (extend_lease, c) (unchanged db.runs)
    | inr (u, c) ↦
        rw (extend_lease, c)
          (updated (extends u holder) (extended now ttl) db.runs
            (λ r. plain_step r (extended now ttl r) refl refl refl refl refl))
  ]

  update_by_id-Table :
      (db : Database V) (run : String) (f : Run V → Run V)
      → ((r : Run V) → RowStep r (f r))
      → Table db (update_by_id pg db run f).1
  update_by_id-Table db run f h = elim (Option-cases (pg.uuid run)) [
    | inl c ↦ rw (update_by_id, c) (unchanged db.runs)
    | inr (u, c) ↦ rw (update_by_id, c) (updated (has_run_id u) f db.runs h)
  ]

  pub set_status-Table :
      (now : ℕ) (run : String) (s : RunStatus) (db : Database V)
      → Table db (set_status pg now db run s).1
  unfolding set_status
  set_status-Table now run s db =
      update_by_id-Table db run _ (λ r. plain_step r _ refl refl refl refl refl)

  pub mark_done-Table :
      (now : ℕ) (run : String) (db : Database V) → Table db (mark_done pg now db run).1
  unfolding mark_done
  mark_done-Table now run db =
      update_by_id-Table db run _ (λ r. plain_step r _ refl refl refl refl refl)

  cancel_pending-Table :
      (now : ℕ) (rollback : Bool) (target : Database V → Run V → Bool) (db : Database V)
      → Table db (cancel_pending now rollback target db).0
  unfolding cancel_pending delete_runs
  cancel_pending-Table now true target db = removed _ db.runs
  cancel_pending-Table now false target db =
      updated _ (interrupt_row now) db.runs
        (λ r. plain_step r (interrupt_row now r) refl refl refl refl refl)

  cancel_running-Table :
      (now : ℕ) (target : Database V → Run V → Bool) (db : Database V)
      → Table db (cancel_running now target db).0
  unfolding cancel_running
  cancel_running-Table now target db =
      updated _ (request_row now) db.runs
        (λ r. plain_step r (request_row now r) refl refl refl refl refl)

  cancel_targets-Table :
      (now : ℕ) (rollback : Bool) (target : Database V → Run V → Bool) (db : Database V)
      → Table db (cancel_targets now rollback target db).0
  unfolding cancel_targets
  cancel_targets-Table now rollback target db =
      both db.runs (cancel_pending now rollback target db).0.runs
        (cancel_targets now rollback target db).0.runs (cancel_pending-Table now rollback target db)
        (cancel_running-Table now target (cancel_pending now rollback target db).0)

  pub cancel_with_action-Table :
      (now : ℕ) (runs : List String) (thread action : String) (filters : Filters) (db : Database V)
      → Table db (cancel_with_action pg now db runs thread action filters).1
  unfolding cancel_with_action
  cancel_with_action-Table now [] thread action filters db = unchanged db.runs
  cancel_with_action-Table now (u ∷ us) thread action filters db =
      elim (Result-cases (cancel_where (u ∷ us) thread filters)) [
        | inl (e, c) ↦ rw (cancel_with_action, c) (unchanged db.runs)
        | inr ((cs, args), c) ↦ elim (Option-cases (bind pg args)) [
          | inl b ↦ rw (cancel_with_action, c, b) (unchanged db.runs)
          | inr (ps, b) ↦ rw (cancel_with_action, c, b) (cancel_targets-Table now _ _ db)
        ]
      ]

  pub cancel_by_status-Table :
      (now : ℕ) (statuses : List String) (filters : Filters) (db : Database V)
      → Table db (cancel_by_status pg now db statuses filters).1
  unfolding cancel_by_status
  cancel_by_status-Table now [] filters db = unchanged db.runs
  cancel_by_status-Table now (s ∷ ss) filters db =
      elim (Result-cases (apply_to_query filters own_metadata 2)) [
        | inl (e, c) ↦ rw (cancel_by_status, c) (unchanged db.runs)
        | inr ((frag, args), c) ↦ elim (Option-cases (bind pg (texts_arg (s ∷ ss) ∷ args))) [
          | inl b ↦ rw (cancel_by_status, c, b) (unchanged db.runs)
          | inr (ps, b) ↦
              rw (cancel_by_status, c, b)
                (updated _ (request_row now) db.runs
                  (λ r. plain_step r (request_row now r) refl refl refl refl refl))
        ]
      ]

  delete_selected-Table :
      (p : Run V → Bool) (db : Database V) → Table db (delete_selected pg p db).1
  unfolding delete_selected delete_runs
  delete_selected-Table p db = elim (Option-cases (find? p db.runs)) [
    | inl c ↦ rw (delete_selected, c) (unchanged db.runs)
    | inr (r, c) ↦ rw (delete_selected, c) (removed _ db.runs)
  ]

  delete_where-Table :
      (db : Database V) (cs : Conds) (args : List Arg) (join : Bool)
      → Table db (delete_where pg db cs args join).1
  delete_where-Table db cs args join = elim (Option-cases (bind pg args)) [
    | inl c ↦ rw (delete_where, c) (unchanged db.runs)
    | inr (ps, c) ↦ rw (delete_where, c) (delete_selected-Table _ db)
  ]

  pub delete-Table :
      (run thread : String) (filters : Filters) (db : Database V)
      → Table db (delete pg db run thread filters).1
  unfolding delete
  delete-Table run thread filters db = elim (Bool-cases (str_eq thread "")) [
    | inl b ↦ elim (Result-cases (apply_to_query filters thread_metadata 2)) [
      | inl (e, c) ↦ rw (delete, b, c) (unchanged db.runs)
      | inr ((frag, args), c) ↦
          rw (delete, b, c)
            (delete_where-Table db (cond (uuid_is run_id 1) (optional frag)) (uuid_arg run ∷ args)
              (is_given frag))
    ]
    | inr b ↦ elim (Result-cases (apply_to_query filters thread_metadata 3)) [
      | inl (e, c) ↦ rw (delete, b, c) (unchanged db.runs)
      | inr ((frag, args), c) ↦
          rw (delete, b, c)
            (delete_where-Table db
              (cond (uuid_is run_id 1) (cond (uuid_is run_thread_id 2) (optional frag)))
              (uuid_arg run ∷ uuid_arg thread ∷ args) (is_given frag))
    ]
  ]

  pub create-Table :
      (now : ℕ) (fresh_thread fresh_run : String) (i : CreateRunInput)
      (thread_filters assistant_filters : Filters) (db : Database V)
      → Table db (create pg now db fresh_thread fresh_run i thread_filters assistant_filters).1
  create-Table now ft fr i tf af db = elim (Result-cases (create pg now db ft fr i tf af).0) [
    | inl (e, c) ↦
        subst (λ (d : Database V). Table db d) (sym (create-err pg now db ft fr i tf af c))
          (unchanged db.runs)
    | inr (res, c) ↦
        let (rows, free, at', g, d) = create-Created pg now db ft fr i tf af c in
        subst (λ rs. TableStep db.runs rs) (sym rows) (inserted res.run db.runs free at')
  ]
