-- ===== src/Threads/Visibility.antt =====
-- What the auth filters of a request let a caller reach through internal/threads/store.go.
use mathlib.Core.Path.{fun_ext}
use langsmith_deployment_go.Prelude.{
  ℕ, String, ◌≡◌, refl, ap, ◌∙◌, Bool, ◌&&◌, Option, some, none, List, ◌∷◌, arith, find?, inl, inr,
  Bool-cases, Result, ok, err, not_found, from_option, ◌>>=◌,
}
use langsmith_deployment_go.Sql.{
  Postgres, thread_id, own_metadata, Arg, uuid_arg, Param, Cond, cond, uuid_is, bind, eval,
  optional,
}
use langsmith_deployment_go.Auth.{Filters, apply_to_query}
use langsmith_deployment_go.Auth.Parameters.{Loaded-bind, passes-and}
use langsmith_deployment_go.Auth.Fragments.{allows_all}
use langsmith_deployment_go.Auth.Meaning.{apply_to_query-Loaded}
use langsmith_deployment_go.Runs.Model.{Thread, Database, has_thread_id}
use langsmith_deployment_go.Runs.Visibility.{uuid_param}
use langsmith_deployment_go.Threads.Query.{thread_row, selects_thread, get_thread}
use langsmith_deployment_go.Threads.Rows.{
  PatchThreadInput, sets_nothing, delete_threads, update_thread, patch_thread, delete_thread,
}
use langsmith_deployment_go.Runs.Insert.{optional_json, committed}
use langsmith_deployment_go.Runs.Creating.{OnOk, OnOk-then}

module _ {V : Type 0} (pg : Postgres V) where
  -- The thread of this id, if the caller's filters allow its metadata.
  abbrev pub is_shown : Filters → String → Thread V → Bool
  is_shown fs u t = has_thread_id u t && allows_all pg fs t.metadata

  pub selects-is_shown :
      (fs : Filters) {frag : Option Cond} {args : List Arg} {ps : List (Param V)} (id u : String)
      (t : Thread V)
      → pg.uuid id ≡ some u
      → apply_to_query fs own_metadata 2 ≡ ok (frag, args)
      → bind pg (uuid_arg id ∷ args) ≡ some ps
      → selects_thread pg (cond (uuid_is thread_id 1) (optional frag)) ps t ≡ is_shown fs u t
  unfolding eval
  selects-is_shown fs {frag = frag} {args = args} {ps = ps} id u t c emitted bound =
      let (p, rest) =
        uuid_param pg id u 1 args ps c (Loaded-bind pg (uuid_arg id ∷ args) ps bound) in
      let seen =
        apply_to_query-Loaded pg (thread_row t) fs own_metadata t.metadata 2 ps refl emitted rest in
      rw (passes-and, p) (ground (arith, seen))

  -- Get: the thread of that id if the filters allow it, and ErrNotFound if it is hidden or missing.
  -- The id is a uuid, the filters are well-formed and PostgreSQL accepts their arguments.
  pub get_thread_verdict :
      (db : Database V) (fs : Filters) {frag : Option Cond} {args : List Arg} {ps : List (Param V)}
      (id u : String)
      → pg.uuid id ≡ some u
      → apply_to_query fs own_metadata 2 ≡ ok (frag, args)
      → bind pg (uuid_arg id ∷ args) ≡ some ps
      → get_thread pg db id fs ≡ from_option not_found (find? (is_shown fs u) db.threads)
  unfolding get_thread
  get_thread_verdict db fs id u c emitted bound =
      rw (emitted, bound)
        (ap (λ (p : Thread V → Bool). from_option not_found (find? p db.threads))
          (fun_ext (λ t. selects-is_shown fs id u t c emitted bound)))

  abbrev pub deleted_or_not :
      Database V → (Thread V → Bool) → Option (Thread V) → Result String × Database V
  deleted_or_not db p none = (err not_found, db)
  deleted_or_not db p (some t) = (ok t.thread_id, delete_threads p db)

  committed-delete :
      (db : Database V) (p : Thread V → Bool) (o : Option (Thread V))
      → committed pg db (from_option not_found o >>= λ t. ok (t.thread_id, delete_threads p db))
        ≡ deleted_or_not db p o
  committed-delete db p none = refl
  committed-delete db p (some t) = refl

  -- Delete answers the id and deletes with its cascade the thread that Get would have shown, or
  -- answers ErrNotFound and changes nothing if there is none such. The id is a uuid, the filters are
  -- well-formed and PostgreSQL accepts their arguments.
  pub delete_thread_verdict :
      (db : Database V) (fs : Filters) {frag : Option Cond} {args : List Arg} {ps : List (Param V)}
      (id u : String)
      → pg.uuid id ≡ some u
      → apply_to_query fs own_metadata 2 ≡ ok (frag, args)
      → bind pg (uuid_arg id ∷ args) ≡ some ps
      → delete_thread pg db id fs
        ≡ deleted_or_not db (is_shown fs u) (find? (is_shown fs u) db.threads)
  unfolding delete_thread
  delete_thread_verdict db fs id u c emitted bound =
      rw (emitted, bound)
        (ap
            (λ (p : Thread V → Bool). committed pg db (
              from_option not_found (find? p db.threads) >>= λ t.
              ok (t.thread_id, delete_threads p db)))
            (fun_ext (λ t. selects-is_shown fs id u t c emitted bound))
          ∙ committed-delete db (is_shown fs u) (find? (is_shown fs u) db.threads))

  failed-committed :
      {A : Type 0} (db : Database V) (r : Result (A × Database V))
      → OnOk (λ x. ⊥) r
      → (committed pg db r).1 ≡ db
  failed-committed db (err e) h = refl
  failed-committed db (ok a) h = absurd h

  update_hidden :
      (now : ℕ) (db : Database V) (i : PatchThreadInput) (fs : Filters) {frag : Option Cond}
      {args : List Arg} {ps : List (Param V)} (id u : String)
      → pg.uuid id ≡ some u
      → apply_to_query fs own_metadata 2 ≡ ok (frag, args)
      → bind pg (uuid_arg id ∷ args) ≡ some ps
      → find? (is_shown fs u) db.threads ≡ none
      → OnOk (λ x. ⊥) (update_thread pg now db id i fs)
  unfolding update_thread
  update_hidden now db i fs {frag} {args} {ps} id u c emitted bound hidden =
      let none_selected =
        ap (λ p. find? p db.threads)
          (fun_ext
            (λ t. selects-is_shown fs {frag = frag} {args = args} {ps = ps} id u t c emitted bound))
        ∙ hidden in
      rw (emitted, bound)
        (OnOk-then (λ x. ⊥) (optional_json pg i.metadata) _
          (λ m _. OnOk-then (λ x. ⊥) (optional_json pg i.config) _ (λ k _. rw none_selected tt)))

  -- A thread that the filters hide, or that is missing, is ErrNotFound to Get and Delete, and
  -- neither Delete nor Patch changes anything. The id is a uuid, the filters are well-formed and
  -- PostgreSQL accepts their arguments.
  pub hidden_thread_untouched :
      (now : ℕ) (db : Database V) (i : PatchThreadInput) (fs : Filters) {frag : Option Cond}
      {args : List Arg} {ps : List (Param V)} (id u : String)
      → pg.uuid id ≡ some u
      → apply_to_query fs own_metadata 2 ≡ ok (frag, args)
      → bind pg (uuid_arg id ∷ args) ≡ some ps
      → find? (is_shown fs u) db.threads ≡ none
      → (get_thread pg db id fs ≡ err not_found)
        × (delete_thread pg db id fs ≡ (err not_found, db))
        × ((patch_thread pg now db id i fs).1 ≡ db)
  unfolding patch_thread
  hidden_thread_untouched now db i fs id u c emitted bound hidden = (
    get_thread_verdict db fs id u c emitted bound ∙ ap (from_option not_found) hidden,
    delete_thread_verdict db fs id u c emitted bound
        ∙ ap (deleted_or_not db (is_shown fs u)) hidden,
    elim (Bool-cases (sets_nothing i)) [
      | inl b ↦ rw b
      | inr b ↦ rw b (failed-committed db _ (update_hidden now db i fs id u c emitted bound hidden))
    ],
  )
