-- ===== src/Runs/Cancelled.antt =====
-- What CancelWithAction of internal/runs/store.go leaves in the run table.
use mathlib.Core.Path.{fun_ext}
use langsmith_deployment_go.Prelude.{
  ℕ, String, ◌≡◌, refl, sym, ap, ap₂, ◌∙◌, Bool, true, false, not, ◌&&◌, List, [], ◌∷◌, arith,
  str_eq, keep, if◌then◌else◌, inl, inr, Bool-cases, Option-cases, ok,
}
use langsmith_deployment_go.Sql.{Postgres, bind}
use langsmith_deployment_go.Auth.{Filters}
use langsmith_deployment_go.Auth.Parameters.{Loaded-bind}
use langsmith_deployment_go.Runs.Model.{Run, Database, is_pending, is_running, update_runs}
use langsmith_deployment_go.Runs.Query.{selected}
use langsmith_deployment_go.Runs.Cancel.{
  CancelResult, cancel_where, cancel_with_action, cancel_targets, cancel_pending, cancel_running,
  interrupt_row, request_row, delete_runs,
}
use langsmith_deployment_go.Runs.Rows.{update_runs-none}
use langsmith_deployment_go.Runs.Creating.{Result-cases}
use langsmith_deployment_go.Runs.Cancelling.{is_target, cancel_where_value}

module _ {V : Type 0} where
  -- What an interrupt does to a run that it reaches.
  abbrev pub cancel_row : ℕ → Run V → Run V
  cancel_row now r =
      if is_pending r.status
      then interrupt_row now r
      else if is_running r.status
      then request_row now r
      else r

  cancelled_row :
      (now : ℕ) (t : Run V → Bool) (r : Run V)
      → t (interrupt_row now r) ≡ t r
      → (let x = (if t r && is_pending r.status then interrupt_row now r else r) in
          if t x && is_running x.status then request_row now x else x)
        ≡ (if t r then cancel_row now r else r)
  cancelled_row now t r h = elim (Bool-cases (t r)) [
    | inr b ↦ rw (b, b) refl
    | inl b ↦ elim (Bool-cases (is_pending r.status)) [
      | inl c ↦ rw (b, c, h, b) refl
      | inr c ↦ rw (b, c, b) refl
    ]
  ]

  cancelled_rows :
      (now : ℕ) (t : Run V → Bool) (rs : List (Run V))
      → ((r : Run V) → t (interrupt_row now r) ≡ t r)
      → update_runs
          (λ r. t r && is_running r.status)
          (request_row now)
          (update_runs (λ r. t r && is_pending r.status) (interrupt_row now) rs)
        ≡ update_runs t (cancel_row now) rs
  cancelled_rows now t [] h = refl
  cancelled_rows now t (r ∷ rs) h =
      ap₂ ◌∷◌ (cancelled_row now t r (h r)) (cancelled_rows now t rs h)

module _ {V : Type 0} (pg : Postgres V) where
  no_targets :
      (db : Database V) (fs : Filters) (thread : String) (r : Run V)
      → is_target pg db fs thread [] r ≡ false
  no_targets db fs thread r = ground arith

  cancel_targets-interrupt :
      (now : ℕ) (db : Database V) (fs : Filters) (thread : String) (runs : List String)
      → (cancel_targets now false (λ d r. is_target pg d fs thread runs r) db).0.runs
        ≡ update_runs (is_target pg db fs thread runs) (cancel_row now) db.runs
  unfolding cancel_targets cancel_pending cancel_running
  cancel_targets-interrupt now db fs thread runs =
      cancelled_rows now (is_target pg db fs thread runs) db.runs (λ r. refl)

  cancel_targets-rollback :
      (now : ℕ) (db : Database V) (fs : Filters) (thread : String) (runs : List String)
      → (cancel_targets now true (λ d r. is_target pg d fs thread runs r) db).0.runs
        ≡ update_runs
            (λ r. is_target pg db fs thread runs r && is_running r.status)
            (request_row now)
            (keep (λ r. not (is_target pg db fs thread runs r && is_pending r.status)) db.runs)
  unfolding cancel_targets cancel_pending cancel_running delete_runs
  cancel_targets-rollback now db fs thread runs = refl

  -- A call that is answered has updated the targets.
  cancel_with_action-targets :
      (now : ℕ) (db : Database V) (u : String) (us : List String) (thread action : String)
      (fs : Filters) {res : List CancelResult}
      → (cancel_with_action pg now db (u ∷ us) thread action fs).0 ≡ ok res
      → (cancel_with_action pg now db (u ∷ us) thread action fs).1
        ≡ (cancel_targets now
            (str_eq action "rollback")
            (λ d r. is_target pg d fs thread (u ∷ us) r)
            db).0
  unfolding cancel_with_action
  cancel_with_action-targets now db u us thread action fs h =
      elim (Result-cases (cancel_where (u ∷ us) thread fs)) [
        | inl (e, c) ↦ absurd (ground (arith, h, c))
        | inr ((cs, args), c) ↦ elim (Option-cases (bind pg args)) [
          | inl b ↦ absurd (ground (arith, h, c, b))
          | inr (ps, b) ↦
              let target : (λ d r. selected pg d cs ps r)
                  ≡ (λ d r. is_target pg d fs thread (u ∷ us) r) =
                fun_ext (λ (d : Database V). fun_ext (λ (r : Run V).
                  cancel_where_value pg d (u ∷ us) thread fs ps r c (Loaded-bind pg args ps b))) in
              rw (cancel_with_action, c, b)
                (ap (λ t. (cancel_targets now (str_eq action "rollback") t db).0) target)
        ]
      ]

  keep-all : (p : Run V → Bool) (rs : List (Run V)) → ((r : Run V) → p r ≡ true) → keep p rs ≡ rs
  keep-all p [] h = refl
  keep-all p (r ∷ rs) h = rw (h r, keep-all p rs h) refl

  -- The table after a call for these runs, by action.
  abbrev cancelled_table : ℕ → Database V → List String → String → Bool → Filters → List (Run V)
  cancelled_table now db runs thread rollback fs =
      if rollback
      then update_runs (λ r. is_target pg db fs thread runs r && is_running r.status)
          (request_row now)
          (keep (λ r. not (is_target pg db fs thread runs r && is_pending r.status)) db.runs)
      else update_runs (is_target pg db fs thread runs) (cancel_row now) db.runs

  nothing_cancelled :
      (now : ℕ) (db : Database V) (thread : String) (rollback : Bool) (fs : Filters)
      → cancelled_table now db [] thread rollback fs ≡ db.runs
  nothing_cancelled now db thread true fs =
      rw
        (keep-all (λ r. not (is_target pg db fs thread [] r && is_pending r.status)) db.runs
          (λ r. rw (no_targets db fs thread r) refl))
        (update_runs-none (λ r. is_target pg db fs thread [] r && is_running r.status)
          (request_row now) db.runs (λ r. rw (no_targets db fs thread r) refl))
  nothing_cancelled now db thread false fs =
      update_runs-none (is_target pg db fs thread []) (cancel_row now) db.runs
        (no_targets db fs thread)

  -- CancelWithAction, when it is answered, reaches the runs that are named, on the thread that is
  -- named if one is, with a thread that meets the filters if there are any. A pending run among them
  -- is deleted by "rollback" and interrupted by any other action; a running one only has its
  -- cancellation requested; every other run stays as it is.
  pub cancel_with_action_exact :
      (now : ℕ) (db : Database V) (runs : List String) (thread action : String) (fs : Filters)
      {res : List CancelResult}
      → (cancel_with_action pg now db runs thread action fs).0 ≡ ok res
      → (cancel_with_action pg now db runs thread action fs).1.runs ≡ (
          if str_eq action "rollback"
          then update_runs
              (λ r. is_target pg db fs thread runs r && is_running r.status)
              (request_row now)
              (keep (λ r. not (is_target pg db fs thread runs r && is_pending r.status)) db.runs)
          else update_runs (is_target pg db fs thread runs) (cancel_row now) db.runs)
  unfolding cancel_with_action
  cancel_with_action_exact now db [] thread action fs h =
      sym (nothing_cancelled now db thread (str_eq action "rollback") fs)
  cancel_with_action_exact now db (u ∷ us) thread action fs h =
      ap (λ d. d.runs) (cancel_with_action-targets now db u us thread action fs h)
      ∙ by_action (str_eq action "rollback")
    where
      by_action :
          (b : Bool)
          → (cancel_targets now b (λ d r. is_target pg d fs thread (u ∷ us) r) db).0.runs
            ≡ cancelled_table now db (u ∷ us) thread b fs
      by_action true = cancel_targets-rollback now db fs thread (u ∷ us)
      by_action false = cancel_targets-interrupt now db fs thread (u ∷ us)
