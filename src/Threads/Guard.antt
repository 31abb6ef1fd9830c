-- ===== src/Threads/Guard.antt =====
-- SetStatus of internal/threads/store.go: the guard on the current status, and the new one.
use langsmith_deployment_go.Prelude.{
  ℕ, String, ◌≡◌, refl, ap, Bool, true, false, Option, some, none, List, [], ◌∷◌, arith, str_eq,
  any, elem, find?, inl, inr, ◌⊎◌, Bool-cases, ok, err, failed_precondition, guard, ◌>>◌,
}
use langsmith_deployment_go.Sql.{Postgres}
use langsmith_deployment_go.Runs.Model.{Thread, Database, has_thread_id}
use langsmith_deployment_go.Runs.Create.{or_default, json_of}
use langsmith_deployment_go.Runs.Insert.{optional_json}
use langsmith_deployment_go.Runs.Creating.{on_committed, OnOk, OnOk-then}
use langsmith_deployment_go.Threads.Status.{
  SetStatusInput, busy_or, is_nil, has_inflight, apply_status, guarded_status, set_thread_status,
}
use langsmith_deployment_go.Threads.Busy.{OnlyThread, updated_only}

module _ {V : Type 0} (pg : Postgres V) where
  -- What a successful statement has done to the thread, and what it tells.
  abbrev pub StatusSet : String → SetStatusInput → Database V → Bool × Database V → Type 0
  StatusSet u i db x = OnlyThread pg u db x.1 (λ t.
      (t.status ≡ busy_or (has_inflight pg u db) i.status_text) × (x.0 ≡ str_eq t.status "busy"))

  find?-any :
      (p : Thread V → Bool) (ts : List (Thread V)) (x : Thread V)
      → find? p ts ≡ some x
      → any p ts ≡ true
  find?-any p [] x h = absurd (ground (arith, h))
  find?-any p (t ∷ ts) x h = elim (Bool-cases (p t)) [
    | inl b ↦ rw b
    | inr b ↦ rw b (find?-any p ts x (rw b at h))
  ]

  apply_status-StatusSet :
      (now : ℕ) (db : Database V) (i : SetStatusInput) (u : String) (x : Thread V)
      → pg.uuid i.thread_id ≡ some u
      → find? (has_thread_id u) db.threads ≡ some x
      → OnOk (StatusSet u i db) (apply_status pg now db i)
  unfolding apply_status
  apply_status-StatusSet now db i u x c found = rw c (
      OnOk-then (StatusSet u i db) (optional_json pg i.values_json) _ (λ vs _.
        OnOk-then (StatusSet u i db) (json_of pg (or_default "{}" i.interrupts)) _ (λ n _.
          rw (find?-any (has_thread_id u) db.threads x found) (
            updated_only pg u _
              (λ t.
                (t.status ≡ busy_or (has_inflight pg u db) i.status_text)
                × (str_eq (busy_or (has_inflight pg u db) i.status_text) "busy"
                    ≡ str_eq t.status "busy"))
              db (λ x. refl) (λ x k h. (refl, refl))))))

  guarded_status-found :
      (now : ℕ) (db : Database V) (i : SetStatusInput) (u : String) (x : Thread V)
      → pg.uuid i.thread_id ≡ some u
      → find? (has_thread_id u) db.threads ≡ some x
      → guarded_status pg now db i
        ≡ (guard (elem x.status i.expected_status) failed_precondition >> apply_status pg now db i)
  unfolding guarded_status
  guarded_status-found now db i u x c found = rw c (
      ap
        (λ (o : Option (Thread V)). elim o [
          | none ↦ ok (false, db)
          | some t ↦
              guard (elem t.status i.expected_status) failed_precondition
              >> apply_status pg now db i
        ])
        found)

  -- SetStatus of a thread that is there: with a list of expected statuses that lacks the current
  -- one it answers ErrFailedPrecondition and changes nothing. When it answers, there was no such list
  -- or it had the current status; the thread is "busy" if it has a pending or running run and has
  -- the given status otherwise, the answer tells whether it is "busy", and no other thread has
  -- changed. The id is a uuid.
  pub set_thread_status_guard :
      (now : ℕ) (db : Database V) (i : SetStatusInput) (u : String) (x : Thread V)
      → pg.uuid i.thread_id ≡ some u
      → find? (has_thread_id u) db.threads ≡ some x
      → (is_nil i.expected_status ≡ false
          → elem x.status i.expected_status ≡ false
          → set_thread_status pg now db i ≡ (err failed_precondition, db))
        × ((busy : Bool)
            → (set_thread_status pg now db i).0 ≡ ok busy
            → ((is_nil i.expected_status ≡ true) ⊎ (elem x.status i.expected_status ≡ true))
              × StatusSet u i db (busy, (set_thread_status pg now db i).1))
  unfolding set_thread_status
  set_thread_status_guard now db i u x c found = (
    λ given other. rw (given, guarded_status-found now db i u x c found, other) refl,
    λ busy answered. elim (Bool-cases (is_nil i.expected_status)) [
      | inl b ↦ (
        inl b,
        on_committed pg (StatusSet u i db) db _ busy
            (rw b (apply_status-StatusSet now db i u x c found)) answered,
      )
      | inr b ↦ elim (Bool-cases (elem x.status i.expected_status)) [
        | inl e ↦ (
          inr e,
          on_committed pg (StatusSet u i db) db _ busy
              (rw (b, guarded_status-found now db i u x c found, e)
                (apply_status-StatusSet now db i u x c found))
              answered,
        )
        | inr e ↦
            absurd
              (ground (arith, (rw (b, guarded_status-found now db i u x c found, e) at answered)))
      ]
    ],
  )
