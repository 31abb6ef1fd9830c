-- ===== src/Threads/Created.antt =====
-- Create of internal/threads/store.go: what it writes, and what a second Create does.
use native.Mathlib.Nat.{add_comm}
use langsmith_deployment_go.Prelude.{
  ℕ, ◌+◌, String, ◌≡◌, refl, ap, ◌∙◌, subst, Bool, true, false, not, Option, some, List, ◌++◌,
  arith, str_eq, eq_refl, any, find?, length, inl, inr, &&-right, Bool-cases, Option-cases, Result,
  ok, err,
}
use langsmith_deployment_go.Sql.{
  Postgres, thread_id, own_metadata, Arg, Param, Cond, cond, uuid_is, bind, eval, optional,
}
use langsmith_deployment_go.Auth.{apply_to_query}
use langsmith_deployment_go.Auth.Parameters.{Loaded, Loaded-bind, Loaded-append, passes-and}
use langsmith_deployment_go.Auth.Fragments.{allows_all}
use langsmith_deployment_go.Auth.Meaning.{apply_to_query-Loaded}
use langsmith_deployment_go.Runs.Model.{Thread, Database, has_thread_id}
use langsmith_deployment_go.Runs.Create.{or_default, json_of}
use langsmith_deployment_go.Runs.Insert.{run_id_of, committed}
use langsmith_deployment_go.Runs.Creating.{on_committed, OnOk, OnOk-then, value_of}
use langsmith_deployment_go.Runs.Visibility.{uuid_param}
use langsmith_deployment_go.Threads.Query.{thread_row, selects_thread, bound}
use langsmith_deployment_go.Threads.Rows.{
  CreateThreadInput, returns_existing, create_args, value_args, new_thread, thread_to_insert,
  insert_unless, insert_or_read, create_thread,
}
use langsmith_deployment_go.Threads.Visibility.{is_shown}

module _ {V : Type 0} (pg : Postgres V) where
  -- The row that a second Create with the same given id would insert has the same id.
  abbrev Again : ℕ → String → CreateThreadInput → Thread V → Type 0
  Again now fresh i t =
      (t' : Thread V) × (thread_to_insert pg now fresh i ≡ ok t')
      × (t'.thread_id ≡ t.thread_id)
      × (pg.uuid i.thread_id ≡ some t.thread_id)

  given_uuid :
      (id fresh u : String)
      → str_eq id "" ≡ false
      → run_id_of pg id fresh ≡ ok u
      → (pg.uuid id ≡ some u) × ((fresh' : String) → run_id_of pg id fresh' ≡ ok u)
  given_uuid id fresh u given e = elim (Option-cases (pg.uuid id)) [
    | inl n ↦ absurd (ground (arith, (rw (given, n) at e)))
    | inr (x, n) ↦
        let same : x ≡ u = ground (arith, (rw (given, n) at e)) in
        (n ∙ ap some same, λ fresh'. rw (given, n) (ap ok same))
  ]

  thread_to_insert-Again :
      (now now' : ℕ) (fresh fresh' : String) (i : CreateThreadInput)
      → str_eq i.thread_id "" ≡ false
      → OnOk (Again now' fresh' i) (thread_to_insert pg now fresh i)
  thread_to_insert-Again now now' fresh fresh' i given =
      let P = Again now' fresh' i in
      OnOk-then P (run_id_of pg i.thread_id fresh) _ (λ u eu.
        OnOk-then P (json_of pg (or_default "{}" i.metadata)) _ (λ m em.
          OnOk-then P (json_of pg (or_default "{}" i.config)) _ (λ c ec.
            let (known, again) = given_uuid i.thread_id fresh u given eu in
            (new_thread pg now' u m c i.ttl_seconds, rw (again fresh', em, ec) refl, refl, known))))

  -- The second leg's condition.
  reads_shown :
      (i : CreateThreadInput) {frag : Option Cond} {args : List Arg} {ps : List (Param V)}
      (u : String) (t : Thread V)
      → pg.uuid i.thread_id ≡ some u
      → apply_to_query i.filters own_metadata (length (create_args i) + 1) ≡ ok (frag, args)
      → bind pg (create_args i ++ args) ≡ some ps
      → selects_thread pg (cond (uuid_is thread_id 1) (optional frag)) ps t
        ≡ is_shown pg i.filters u t
  unfolding eval
  reads_shown i {frag} {args} {ps} u t c emitted bound =
      let loaded = Loaded-bind pg (create_args i ++ args) ps bound in
      let (p, _) = uuid_param pg i.thread_id u 1 (value_args i ++ args) ps c loaded in
      let (_, rest) = Loaded-append pg (create_args i) args 1 ps loaded in
      let seen =
        apply_to_query-Loaded pg (thread_row t) i.filters own_metadata t.metadata
          (length (create_args i) + 1) ps refl emitted
          (subst (λ n. Loaded pg args n ps) (add_comm 1 (length (create_args i))) rest) in
      rw (passes-and, p) (ground (arith, seen))

  insert_unless-again :
      (db : Database V) (allowed hit : Thread V → Bool) (t t' : Thread V)
      → t'.thread_id ≡ t.thread_id
      → (allowed t ≡ true → hit t ≡ true)
      → OnOk
          (λ x. allowed x.0 ≡ true → insert_unless pg x.1 hit t' ≡ ok x)
          (insert_unless pg db hit t)
  insert_unless-again db allowed hit t t' same h =
      elim (Bool-cases (any (has_thread_id t.thread_id) db.threads)) [
        | inl b ↦ elim (Option-cases (find? hit db.threads)) [
          | inl n ↦ rw (b, n) tt
          | inr (old, n) ↦ rw (b, n) (λ _. rw (same, b, n) refl)
        ]
        | inr b ↦ rw b (λ a. rw (same, eq_refl t.thread_id, h a) refl)
      ]

  OnOk-weaken :
      {A : Type 0} (Q P : A → Type 0) (r : Result A) → ((a : A) → Q a → P a) → OnOk Q r → OnOk P r
  OnOk-weaken Q P (ok a) f q = f a q
  OnOk-weaken Q P (err e) f q = tt

  bound_binds :
      (args : List Arg) (ps : List (Param V)) → bound pg args ≡ ok ps → bind pg args ≡ some ps
  bound_binds args ps e = elim (Option-cases (bind pg args)) [
    | inl n ↦ absurd (ground (arith, (rw n at e)))
    | inr (x, n) ↦ let same : x ≡ ps = ground (arith, (rw n at e)) in n ∙ ap some same
  ]

  shown_hit :
      (i : CreateThreadInput) (frag : Option Cond) (args : List Arg) (ps : List (Param V))
      (t : Thread V)
      → pg.uuid i.thread_id ≡ some t.thread_id
      → apply_to_query i.filters own_metadata (length (create_args i) + 1) ≡ ok (frag, args)
      → bound pg (create_args i ++ args) ≡ ok ps
      → allows_all pg i.filters t.metadata ≡ true
      → selects_thread pg (cond (uuid_is thread_id 1) (optional frag)) ps t ≡ true
  shown_hit i frag args ps t known emitted bound_ok a =
      reads_shown i t.thread_id t known emitted (bound_binds (create_args i ++ args) ps bound_ok)
      ∙ rw (eq_refl t.thread_id, a) refl

  -- The second Create finds what the first has left.
  abbrev SecondFinds : ℕ → String → CreateThreadInput → Thread V × Database V → Type 0
  SecondFinds now' fresh' i (t, db') =
      allows_all pg i.filters t.metadata ≡ true → insert_or_read pg now' db' fresh' i ≡ ok (t, db')

  insert_or_read-again :
      (now now' : ℕ) (db : Database V) (fresh fresh' : String) (i : CreateThreadInput)
      → str_eq i.thread_id "" ≡ false
      → OnOk (SecondFinds now' fresh' i) (insert_or_read pg now db fresh i)
  unfolding insert_or_read
  insert_or_read-again now now' db fresh fresh' i given =
      let P = SecondFinds now' fresh' i in
      OnOk-then P (apply_to_query i.filters own_metadata (length (create_args i) + 1)) _ (λ e ee.
        OnOk-then P (bound pg (create_args i ++ e.1)) _ (λ ps eps.
          OnOk-then P (thread_to_insert pg now fresh i) _ (λ t et.
            let (t', et', same, known) =
              value_of (Again now' fresh' i) (thread_to_insert-Again now now' fresh fresh' i given)
                et in
            let hit = selects_thread pg (cond (uuid_is thread_id 1) (optional e.0)) ps in
            OnOk-weaken
              (λ x.
                allows_all pg i.filters x.0.metadata ≡ true → insert_unless pg x.1 hit t' ≡ ok x)
              P (insert_unless pg db hit t) (λ x q a. rw (ee, eps, et') (q a))
              (insert_unless-again db (λ t. allows_all pg i.filters t.metadata) hit t t' same
                (λ a. shown_hit i e.0 e.1 ps t known ee eps a)))))

  given_id : (i : CreateThreadInput) → returns_existing i ≡ true → str_eq i.thread_id "" ≡ false
  given_id i h = not_twice _ (&&-right (str_eq i.if_exists "do_nothing") _ h)
    where
      not_twice : (b : Bool) → not b ≡ true → b ≡ false
      not_twice b n = ground (arith, n)

  -- A Create that answers under "do_nothing" can be repeated: a second one with the same input, at
  -- any later time, answers the same thread and changes nothing, if the filters allow that thread.
  pub create_thread_again :
      (now now' : ℕ) (db : Database V) (fresh fresh' : String) (i : CreateThreadInput)
      (t : Thread V)
      → returns_existing i ≡ true
      → (create_thread pg now db fresh i).0 ≡ ok t
      → allows_all pg i.filters t.metadata ≡ true
      → create_thread pg now' (create_thread pg now db fresh i).1 fresh' i
        ≡ (ok t, (create_thread pg now db fresh i).1)
  unfolding create_thread
  create_thread_again now now' db fresh fresh' i t existing answered allowed =
      let done = committed pg db (insert_or_read pg now db fresh i) in
      let found =
        on_committed pg (SecondFinds now' fresh' i) db (insert_or_read pg now db fresh i) t
          (insert_or_read-again now now' db fresh fresh' i (given_id i existing))
          (rw existing at answered) in
      rw existing (ap (committed pg done.1) (found allowed))
