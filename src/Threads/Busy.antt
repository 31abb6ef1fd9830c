-- ===== src/Threads/Busy.antt =====
-- SetStatus and SetJointStatus of internal/threads/store.go: a thread is busy if and only if it has
-- a pending or running run, and the guard on the current status.
use mathlib.Core.Bool.{false≢true}
use langsmith_deployment_go.Prelude.{
  &&-left, &&-right, ℕ, String, ◌≡◌, ◌≢◌, refl, sym, ap, ◌∙◌, subst, Bool, true, false, not, Option,
  some, List, [], ◌∷◌, arith, str_eq, eq_iff, inl, inr, ◌⊎◌, Bool-cases, IsIn, IsIn-keep, keep-IsIn,
  ok, if◌then◌else◌, ◌&&◌,
}
use langsmith_deployment_go.Sql.{Postgres}
use langsmith_deployment_go.Runs.Model.{Thread, Run, Database, has_thread_id}
use langsmith_deployment_go.Runs.Rows.{IsIn-update_runs, update_runs-IsIn}
use langsmith_deployment_go.Runs.Cancel.{delete_runs}
use langsmith_deployment_go.Runs.Create.{or_default, json_of, update_threads}
use langsmith_deployment_go.Runs.Insert.{optional_json}
use langsmith_deployment_go.Runs.Creating.{on_committed, OnOk-then}
use langsmith_deployment_go.Threads.Status.{
  SetJointStatusInput, status_of, base_status, busy_or, has_inflight, is_run_of, joint_run,
  joint_thread, set_joint_status,
}

module _ {V : Type 0} (pg : Postgres V) where
  -- Every row after an UPDATE is an updated row or one that the WHERE clause has passed over.
  pub IsIn-update_threads :
      (p : Thread V → Bool) (f : Thread V → Thread V) (t : Thread V) (ts : List (Thread V))
      → IsIn t (update_threads pg p f ts)
      → (x : Thread V) × IsIn x ts × (((p x ≡ true) × (t ≡ f x)) ⊎ ((p x ≡ false) × (t ≡ x)))
  IsIn-update_threads p f t [] m = absurd m
  IsIn-update_threads p f t (y ∷ ys) (inl e) = elim (Bool-cases (p y)) [
    | inl b ↦ (y, inl refl, inl (b, rw b at e))
    | inr b ↦ (y, inl refl, inr (b, rw b at e))
  ]
  IsIn-update_threads p f t (y ∷ ys) (inr m) =
      let (x, k, h) = IsIn-update_threads p f t ys m in (x, inr k, h)

  -- The thread of this id has this status, and no other thread has changed.
  abbrev pub OnlyThread : String → Database V → Database V → (Thread V → Type 0) → Type 0
  OnlyThread u db db' P =
      (t : Thread V)
      → IsIn t db'.threads
      → ((t.thread_id ≡ u) × P t) ⊎ ((t.thread_id ≢ u) × IsIn t db.threads)

  other_id : (t : Thread V) (u : String) → has_thread_id u t ≡ false → t.thread_id ≢ u
  other_id t u h e = false≢true (sym h ∙ (eq_iff t.thread_id u).1 e)

  pub updated_only :
      (u : String) (f : Thread V → Thread V) (P : Thread V → Type 0) (db : Database V)
      → ((x : Thread V) → (f x).thread_id ≡ x.thread_id)
      → ((x : Thread V) → IsIn x db.threads → has_thread_id u x ≡ true → P (f x))
      → OnlyThread u db (record db { threads = update_threads pg (has_thread_id u) f db.threads }) P
  updated_only u f P db same h t m =
      let (x, k, c) = IsIn-update_threads (has_thread_id u) f t db.threads m in
      elim c [
        | inl (b, e) ↦ inl (
          ap (λ t. t.thread_id) e ∙ same x ∙ (eq_iff x.thread_id u).0 b,
          subst P (sym e) (h x k b),
        )
        | inr (b, e) ↦ inr (
          subst (λ t. t.thread_id ≢ u) (sym e) (other_id x u b),
          subst (λ t. IsIn t db.threads) (sym e) k,
        )
      ]

  -- A row of this id under this thread has the new status, unless the status has deleted it, and
  -- every other row was there before.
  abbrev pub OnlyRun : String → String → String → Database V → Database V → Type 0
  OnlyRun run u s db db' =
      (r : Run V)
      → IsIn r db'.runs
      → ((str_eq s "rollback" ≡ false)
          × (r.run_id ≡ run)
          × (r.thread_id ≡ u)
          × (r.status ≡ status_of s))
        ⊎ (((r.run_id ≡ run) × (r.thread_id ≡ u) → ⊥) × IsIn r db.runs)

  -- Every row of another run or of another thread is still there, and so is the run itself, with
  -- the status alone and its date changed, unless the status deletes it.
  abbrev pub RunsStay : ℕ → String → String → String → Database V → Database V → Type 0
  RunsStay now run u s db db' =
      ((r : Run V) → IsIn r db.runs → ((r.run_id ≡ run) × (r.thread_id ≡ u) → ⊥) → IsIn r db'.runs)
      × ((r : Run V)
          → IsIn r db.runs
          → r.run_id ≡ run
          → r.thread_id ≡ u
          → str_eq s "rollback" ≡ false
          → IsIn (record r { status = status_of s; updated_at = now }) db'.runs)

  -- Every other thread is still there, and so is a row of this id, where there was one.
  abbrev pub ThreadsStay : String → Database V → Database V → Type 0
  ThreadsStay u db db' =
      ((t : Thread V) → t.thread_id ≢ u → IsIn t db.threads → IsIn t db'.threads)
      × ((t : Thread V)
          → t.thread_id ≡ u
          → IsIn t db.threads
          → (x : Thread V) × IsIn x db'.threads × (x.thread_id ≡ u))

  not_run_of :
      (r : Run V) (run u : String)
      → is_run_of pg run u r ≡ false
      → (r.run_id ≡ run) × (r.thread_id ≡ u)
      → ⊥
  not_run_of r run u h (a, b) =
      false≢true (sym h ∙ both _ _ ((eq_iff r.run_id run).1 a) ((eq_iff r.thread_id u).1 b))
    where
      both : (x y : Bool) → x ≡ true → y ≡ true → (x && y) ≡ true
      both x y f g = rw (f, g) refl

  other_run :
      (r : Run V) (run u : String)
      → ((r.run_id ≡ run) × (r.thread_id ≡ u) → ⊥)
      → is_run_of pg run u r ≡ false
  other_run r run u out = elim (Bool-cases (is_run_of pg run u r)) [
    | inl b ↦ absurd (
        out (
          (eq_iff r.run_id run).0 (&&-left _ _ b),
          (eq_iff r.thread_id u).0 (&&-right (str_eq r.run_id run) _ b),
        ))
    | inr b ↦ b
  ]

  joint_run-RunsStay :
      (now : ℕ) (db : Database V) (run u s : String)
      → RunsStay now run u s db (joint_run pg now db run u s)
  unfolding joint_run delete_runs
  joint_run-RunsStay now db run u s = elim (Bool-cases (str_eq s "rollback")) [
    | inl b ↦ rw b (
      λ r m out.
          keep-IsIn (λ r. not (is_run_of pg run u r)) r db.runs m (rw (other_run r run u out) refl),
      λ r m same at_u kept. absurd (false≢true (sym kept)),
    )
    | inr b ↦
        let f : Run V → Run V = λ r. record r { status = status_of s; updated_at = now } in
        rw b (
          λ r m out.
              rw (other_run r run u out) at (update_runs-IsIn (is_run_of pg run u) f r db.runs m),
          λ r m same at_u kept.
              rw ((eq_iff r.run_id run).1 same, (eq_iff r.thread_id u).1 at_u) at
                (update_runs-IsIn (is_run_of pg run u) f r db.runs m),
        )
  ]

  update_threads-IsIn :
      (p : Thread V → Bool) (f : Thread V → Thread V) (t : Thread V) (ts : List (Thread V))
      → IsIn t ts
      → IsIn (if p t then f t else t) (update_threads pg p f ts)
  update_threads-IsIn p f t [] m = absurd m
  update_threads-IsIn p f t (x ∷ xs) (inl e) = inl (rw e refl)
  update_threads-IsIn p f t (x ∷ xs) (inr m) = inr (update_threads-IsIn p f t xs m)

  updated-ThreadsStay :
      (u : String) (f : Thread V → Thread V) (db : Database V)
      → ((x : Thread V) → (f x).thread_id ≡ x.thread_id)
      → ThreadsStay u db (record db { threads = update_threads pg (has_thread_id u) f db.threads })
  updated-ThreadsStay u f db keeps = (
    λ t other m. rw (no_id t other) at (update_threads-IsIn (has_thread_id u) f t db.threads m),
    λ t same m. (
      f t,
      rw ((eq_iff t.thread_id u).1 same) at
          (update_threads-IsIn (has_thread_id u) f t db.threads m),
      keeps t ∙ same,
    ),
  )
    where
      no_id : (t : Thread V) → t.thread_id ≢ u → has_thread_id u t ≡ false
      no_id t other = elim (Bool-cases (has_thread_id u t)) [
        | inl b ↦ absurd (other ((eq_iff t.thread_id u).0 b))
        | inr b ↦ b
      ]

  joint_run-OnlyRun :
      (now : ℕ) (db : Database V) (run u s : String)
      → OnlyRun run u s db (joint_run pg now db run u s)
  unfolding joint_run delete_runs
  joint_run-OnlyRun now db run u s r m = elim (Bool-cases (str_eq s "rollback")) [
    | inl b ↦
        let (k, n) = IsIn-keep (λ r. not (is_run_of pg run u r)) r db.runs (rw b at m) in
        inr (not_run_of r run u (ground (arith, n)), k)
    | inr b ↦
        let (x, k, e) = IsIn-update_runs (is_run_of pg run u) _ r db.runs (rw b at m) in
        elim (Bool-cases (is_run_of pg run u x)) [
          | inl c ↦
              let e' = rw c at e in
              inl (
                b,
                ap (λ r. r.run_id) e' ∙ (eq_iff x.run_id run).0 (&&-left _ _ c),
                ap (λ r. r.thread_id) e' ∙ (eq_iff x.thread_id u).0 (&&-right _ _ c),
                ap (λ r. r.status) e',
              )
          | inr c ↦
              let e' = rw c at e in
              inr (
                not_run_of r run u (ap (is_run_of pg run u) e' ∙ c),
                subst (λ r. IsIn r db.runs) (sym e') k,
              )
        ]
  ]

  joint_run-threads :
      (now : ℕ) (db : Database V) (run u s : String)
      → (joint_run pg now db run u s).threads ≡ db.threads
  unfolding joint_run delete_runs
  joint_run-threads now db run u s = elim (Bool-cases (str_eq s "rollback")) [
    | inl b ↦ rw b
    | inr b ↦ rw b
  ]

  abbrev pub JointDone :
      ℕ → String → String → SetJointStatusInput → Database V → Database V → Type 0
  JointDone now run u i db db' =
      OnlyThread u db db'
        (λ t. t.status ≡ busy_or (has_inflight pg u db') (base_status i.exception_json i.next))
      × ThreadsStay u db db'
      × OnlyRun run u i.run_status db db'
      × RunsStay now run u i.run_status db db'

  joint_steps :
      (now : ℕ) (db : Database V) (run u s graph base : String) (vs : Option V) (n : V)
      → OnlyThread u db
          (joint_thread pg now (joint_run pg now db run u s) u vs n graph base)
          (λ t. t.status ≡ busy_or (has_inflight pg u (joint_run pg now db run u s)) base)
  unfolding joint_thread
  joint_steps now db run u s graph base vs n t m =
      let d = joint_run pg now db run u s in
      subst
        (λ ts.
          ((t.thread_id ≡ u) × (t.status ≡ busy_or (has_inflight pg u d) base))
          ⊎ ((t.thread_id ≢ u) × IsIn t ts))
        (joint_run-threads now db run u s)
        (updated_only u _ (λ t. t.status ≡ busy_or (has_inflight pg u d) base) d (λ x. refl)
          (λ x k h. refl) t m)

  -- An answered SetJointStatus leaves the thread busy if it has a pending or running run after the
  -- run's own change, and otherwise with "error" after an exception, "interrupted" before further
  -- nodes, or "idle". The run has the given status, or is gone if that is "rollback". No other
  -- thread and no other run has changed, gone or come. The ids are uuids.
  pub set_joint_status_exact :
      (now : ℕ) (db : Database V) (i : SetJointStatusInput) (run u : String)
      → pg.uuid i.run_id ≡ some run
      → pg.uuid i.thread_id ≡ some u
      → (set_joint_status pg now db i).0 ≡ ok tt
      → JointDone now run u i db (set_joint_status pg now db i).1
  unfolding set_joint_status joint_thread
  set_joint_status_exact now db i run u c d answered =
      on_committed pg (λ x. JointDone now run u i db x.1) db _ tt
        (rw (c, d)
          (OnOk-then _ (optional_json pg i.values_json) _ (λ vs _.
            OnOk-then _ (json_of pg (or_default "{}" i.interrupts_json)) _ (λ n _. (
              joint_steps now db run u i.run_status i.graph_id (base_status i.exception_json i.next)
                  vs n,
              subst
                  (λ ts.
                    ThreadsStay u (record db { threads = ts })
                      (joint_thread pg now (joint_run pg now db run u i.run_status) u vs n
                        i.graph_id (base_status i.exception_json i.next)))
                  (joint_run-threads now db run u i.run_status)
                  (updated-ThreadsStay u _ (joint_run pg now db run u i.run_status) (λ x. refl)),
              joint_run-OnlyRun now db run u i.run_status,
              joint_run-RunsStay now db run u i.run_status,
            )))))
        answered
