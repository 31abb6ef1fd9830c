-- ===== src/Runs/Visibility.antt =====
-- What the auth filters of a request let a caller see through the reads of internal/runs/store.go.
use mathlib.Core.Path.{fun_ext}
use langsmith_deployment_go.Prelude.{
  ℕ, suc, String, ◌≡◌, refl, sym, ap, ◌∙◌, Bool, true, false, ◌&&◌, Option, some, none, List, [],
  ◌∷◌, arith, str_eq, any, find?, if◌then◌else◌, ◌⊎◌, inl, inr, Bool-cases, ok, err, not_found,
  forbidden, from_option,
}
use langsmith_deployment_go.Sql.{
  Postgres, run_id, run_thread_id, thread_metadata, Arg, uuid_arg, Param, Cond, end, cond, uuid_is,
  bind, passes, eval, eval_all, optional, param, text_param, cast,
}
use langsmith_deployment_go.Auth.{Filters, nil, cons, emit, apply_to_query}
use langsmith_deployment_go.Auth.Parameters.{Loaded, Loaded-bind, passes-and}
use langsmith_deployment_go.Auth.Fragments.{allows_all}
use langsmith_deployment_go.Auth.Meaning.{apply_to_query-Loaded}
use langsmith_deployment_go.Runs.Model.{
  Run, Thread, Database, has_run_id, has_thread_id, thread_of, is_joined, run_row, joined_metadata,
}
use langsmith_deployment_go.Runs.Query.{selected, get, publish_exists_and_auth, exists_row}

module _ {V : Type 0} (pg : Postgres V) where
  -- A run is visible if its thread exists and the thread's metadata meets every filter.
  abbrev pub sees : Filters → Option (Thread V) → Bool
  sees fs none = false
  sees fs (some t) = allows_all pg fs t.metadata

  abbrev pub is_visible : Database V → Filters → Run V → Bool
  is_visible db fs r = sees fs (thread_of db r)

  any-find? :
      {A : Type 0} (p : A → Bool) (xs : List A)
      → ((find? p xs ≡ none) × (any p xs ≡ false))
        ⊎ ((x : A) × (find? p xs ≡ some x) × (any p xs ≡ true))
  any-find? p [] = inl (refl, refl)
  any-find? p (x ∷ xs) = elim (Bool-cases (p x)) [
    | inl b ↦ inr (x, rw b, rw b)
    | inr b ↦ rw b (any-find? p xs)
  ]

  -- The JOIN and the fragment together.
  pub joined_and_allowed :
      (db : Database V) (fs : Filters) (start : ℕ) {frag : Option Cond} {args : List Arg}
      (ps : List (Param V)) (r : Run V)
      → apply_to_query fs thread_metadata start ≡ ok (frag, args)
      → Loaded pg args start ps
      → (is_joined db r && passes (eval_all pg (optional frag) (run_row db r) ps))
        ≡ is_visible db fs r
  joined_and_allowed db fs start {frag} ps r emitted loaded =
      elim (any-find? (has_thread_id r.thread_id) db.threads) [
        | inl (f, a) ↦ rw (a, f)
        | inr (t, f, a) ↦
            rw (a, f)
              (apply_to_query-Loaded pg (run_row db r) fs thread_metadata t.metadata start ps
                (ap joined_metadata f) emitted loaded)
      ]

  pub uuid_param :
      (run u : String) (i : ℕ) (as' : List Arg) (ps : List (Param V))
      → pg.uuid run ≡ some u
      → Loaded pg (uuid_arg run ∷ as') i ps
      → (param i ps ≡ some (text_param u)) × Loaded pg as' (suc i) ps
  uuid_param run u i as' ps c (p, e, l, rest) = (l ∙ sym e ∙ cast_uuid, rest)
    where
      cast_uuid : cast pg (uuid_arg run) ≡ some (text_param u)
      cast_uuid = rw (c, cast)

  -- `run.run_id = $1 AND <filters from $2>` of a joined run.
  by_run :
      (db : Database V) (fs : Filters) {frag : Option Cond} {args : List Arg} (ps : List (Param V))
      (run u : String) (r : Run V)
      → pg.uuid run ≡ some u
      → apply_to_query fs thread_metadata 2 ≡ ok (frag, args)
      → Loaded pg (uuid_arg run ∷ args) 1 ps
      → (is_joined db r && selected pg db (cond (uuid_is run_id 1) (optional frag)) ps r)
        ≡ (has_run_id u r && is_visible db fs r)
  unfolding eval
  by_run db fs {frag} {args} ps run u r c emitted loaded =
      let (p, rest) = uuid_param run u 1 args ps c loaded in
      let seen = joined_and_allowed db fs 2 ps r emitted rest in
      rw (passes-and, p) (ground (arith, seen))

  -- `run.run_id = $1 AND run.thread_id = $2 AND <filters from $3>` of a joined run.
  by_run_and_thread :
      (db : Database V) (fs : Filters) {frag : Option Cond} {args : List Arg} (ps : List (Param V))
      (run u thread v : String) (r : Run V)
      → pg.uuid run ≡ some u
      → pg.uuid thread ≡ some v
      → apply_to_query fs thread_metadata 3 ≡ ok (frag, args)
      → Loaded pg (uuid_arg run ∷ uuid_arg thread ∷ args) 1 ps
      → (is_joined db r
          && selected pg db
              (cond (uuid_is run_id 1) (cond (uuid_is run_thread_id 2) (optional frag)))
              ps
              r)
        ≡ (has_run_id u r && (str_eq r.thread_id v && is_visible db fs r))
  unfolding eval
  by_run_and_thread db fs {frag} {args} ps run u thread v r c d emitted loaded =
      let (p, rest) = uuid_param run u 1 (uuid_arg thread ∷ args) ps c loaded in
      let (q, rest') = uuid_param thread v 2 args ps d rest in
      let seen = joined_and_allowed db fs 3 ps r emitted rest' in
      rw (passes-and, passes-and, p, q) (ground (arith, seen))

  -- Get without a thread id: the run of that id if the caller's filters let its thread be seen, and
  -- ErrNotFound if there is none such. The id is a uuid, the filters are well-formed and PostgreSQL
  -- accepts their arguments.
  pub get-by_run :
      (db : Database V) (fs : Filters) {frag : Option Cond} {args : List Arg} {ps : List (Param V)}
      (run u : String)
      → pg.uuid run ≡ some u
      → apply_to_query fs thread_metadata 2 ≡ ok (frag, args)
      → bind pg (uuid_arg run ∷ args) ≡ some ps
      → get pg db run "" fs
        ≡ from_option not_found (find? (λ r. has_run_id u r && is_visible db fs r) db.runs)
  unfolding get
  get-by_run db fs {frag} {args} {ps} run u c emitted bound =
      rw (emitted, bound)
        (ap (λ (p : Run V → Bool). from_option not_found (find? p db.runs))
          (fun_ext (λ r.
            by_run db fs ps run u r c emitted (Loaded-bind pg (uuid_arg run ∷ args) ps bound))))

  -- A run that is there under its thread, whoever asks.
  abbrev pub is_present : Database V → String → String → Run V → Bool
  is_present db u v r = has_run_id u r && (str_eq r.thread_id v && is_joined db r)

  abbrev pub is_shown : Database V → Filters → String → String → Run V → Bool
  is_shown db fs u v r = has_run_id u r && (str_eq r.thread_id v && is_visible db fs r)

  visible_without_filters : (db : Database V) (r : Run V) → is_visible db nil r ≡ is_joined db r
  unfolding allows_all
  visible_without_filters db r = elim (any-find? (has_thread_id r.thread_id) db.threads) [
    | inl (f, a) ↦ rw (f, a)
    | inr (t, f, a) ↦ rw (f, a)
  ]

  exists_row-shown :
      (db : Database V) (fs : Filters) {frag : Option Cond} {args : List Arg} {ps : List (Param V)}
      (run u thread v : String)
      → pg.uuid run ≡ some u
      → pg.uuid thread ≡ some v
      → apply_to_query fs thread_metadata 3 ≡ ok (frag, args)
      → bind pg (uuid_arg run ∷ uuid_arg thread ∷ args) ≡ some ps
      → exists_row pg db
          (cond (uuid_is run_id 1) (cond (uuid_is run_thread_id 2) (optional frag)))
          (uuid_arg run ∷ uuid_arg thread ∷ args)
        ≡ ok (any (is_shown db fs u v) db.runs)
  exists_row-shown db fs {frag} {args} {ps} run u thread v c d emitted bound = rw bound (
      ap (λ (p : Run V → Bool). ok (any p db.runs))
        (fun_ext (λ r.
          by_run_and_thread db fs ps run u thread v r c d emitted
            (Loaded-bind pg (uuid_arg run ∷ uuid_arg thread ∷ args) ps bound))))

  any-weaker :
      {A : Type 0} (p q : A → Bool) (xs : List A) → ((x : A) → p x ≡ q x) → any p xs ≡ any q xs
  any-weaker p q xs h = ap (λ f. any f xs) (fun_ext h)

  shown_without_filters :
      (db : Database V) (u v : String)
      → any (is_shown db nil u v) db.runs ≡ any (is_present db u v) db.runs
  shown_without_filters db u v =
      any-weaker (is_shown db nil u v) (is_present db u v) db.runs
        (λ r. rw (visible_without_filters db r))

  pub exists_row-present :
      (db : Database V) (run u thread v : String)
      → pg.uuid run ≡ some u
      → pg.uuid thread ≡ some v
      → exists_row pg db
          (cond (uuid_is run_id 1) (cond (uuid_is run_thread_id 2) end))
          (uuid_arg run ∷ uuid_arg thread ∷ [])
        ≡ ok (any (is_present db u v) db.runs)
  unfolding apply_to_query emit
  exists_row-present db run u thread v c d =
      exists_row-shown db nil {frag = none} {args = []} {ps = text_param u ∷ text_param v ∷ []} run
        u thread v c d refl (rw (c, d, bind))
      ∙ ap ok (shown_without_filters db u v)

  -- PublishExistsAndAuth tells three cases apart: ErrNotFound if there is no such run under this
  -- thread, ErrForbidden if there is one but the filters hide its thread, and no error if they
  -- show it. The ids are uuids, the filters are well-formed and PostgreSQL accepts their arguments.
  pub publish_exists_and_auth_verdict :
      (db : Database V) (fs : Filters) {frag : Option Cond} {args : List Arg} {ps : List (Param V)}
      (run u thread v : String)
      → pg.uuid run ≡ some u
      → pg.uuid thread ≡ some v
      → apply_to_query fs thread_metadata 3 ≡ ok (frag, args)
      → bind pg (uuid_arg run ∷ uuid_arg thread ∷ args) ≡ some ps
      → publish_exists_and_auth pg db run thread fs ≡ (
          if any (is_present db u v) db.runs
          then (if any (is_shown db fs u v) db.runs then ok tt else err forbidden)
          else err not_found)
  unfolding publish_exists_and_auth
  publish_exists_and_auth_verdict db nil run u thread v c d emitted bound =
      rw (exists_row-present db run u thread v c d, shown_without_filters db u v) (ground arith)
  publish_exists_and_auth_verdict db (cons f fs) run u thread v c d emitted bound =
      rw
        (
          exists_row-present db run u thread v c d,
          emitted,
          exists_row-shown db (cons f fs) run u thread v c d emitted bound,
        )
        (ground arith)
