-- ===== src/Runs/Cancelling.antt =====
-- Which runs CancelWithAction of internal/runs/store.go reaches, and what it does to them.
use langsmith_deployment_go.Prelude.{
  ℕ, ◌+◌, String, ◌≡◌, refl, sym, ap, ap₂, ◌∙◌, subst, Bool, true, false, ◌&&◌, ◌||◌, Option, some,
  none, List, [], ◌∷◌, ◌++◌, arith, str_eq, elem, length, inl, inr, Bool-cases, Option-cases,
  Result, ok,
}
use langsmith_deployment_go.Sql.{
  Postgres, Column, Datum, run_id, thread_metadata, Arg, uuid_arg, uuids_arg, Param, Cond, Conds,
  end, cond, is_any, thread_exists, all_of, passes, eval, eval_all, append_conds, texts_param, cast,
  cast_uuids,
}
use langsmith_deployment_go.Auth.{
  AuthFilter, Filters, nil, cons, is_empty, emit, emit_each, join_emitted, apply_to_query,
}
use langsmith_deployment_go.Auth.Parameters.{Loaded, Loaded-append, passes-and}
use langsmith_deployment_go.Auth.Meaning.{apply_to_query-Loaded, and_null-true}
use langsmith_deployment_go.Runs.Model.{Run, Database, thread_of, run_row, joined_metadata}
use langsmith_deployment_go.Runs.Query.{selected}
use langsmith_deployment_go.Runs.Cancel.{thread_part, cancel_where}
use langsmith_deployment_go.Runs.Creating.{Result-cases}
use langsmith_deployment_go.Runs.Visibility.{is_visible, uuid_param}

module _ {V : Type 0} (pg : Postgres V) where
  -- Without filters nothing is asked of the thread.
  abbrev pub is_reached : Database V → Filters → Run V → Bool
  is_reached db fs r = is_empty fs || is_visible pg db fs r

  passes-append_conds :
      (cs ds : Conds) (row : Column → Datum V) (ps : List (Param V))
      → passes (eval_all pg (append_conds cs ds) row ps)
        ≡ (passes (eval_all pg cs row ps) && passes (eval_all pg ds row ps))
  unfolding eval
  passes-append_conds end ds row ps = refl
  passes-append_conds (cond c cs) ds row ps =
      rw (passes-and, passes-and, passes-append_conds cs ds row ps) (ground arith)

  exists_value :
      (db : Database V) (fs : Filters) (i : ℕ) (c : Cond) (args : List Arg) (ps : List (Param V))
      (r : Run V)
      → apply_to_query fs thread_metadata i ≡ ok (some c, args)
      → Loaded pg args i ps
      → passes (eval pg (thread_exists c) (run_row db r) ps) ≡ is_visible pg db fs r
  unfolding eval
  exists_value db fs i c args ps r emitted loaded = elim (Option-cases (thread_of db r)) [
    | inl f ↦ rw f refl
    | inr (t, f) ↦
        let seen =
          apply_to_query-Loaded pg (run_row db r) fs thread_metadata t.metadata i ps
            (ap joined_metadata f) emitted loaded in
        rw f (ap passes (sym (and_null-true (eval pg c (run_row db r) ps))) ∙ seen)
  ]

  no_filters :
      (i : ℕ) {frag : Option Cond} {args : List Arg}
      → apply_to_query nil thread_metadata i ≡ ok (frag, args)
      → (frag ≡ none) × (args ≡ [])
  unfolding apply_to_query emit
  no_filters i h = (ground (arith, h), ground (arith, h))

  some_filters :
      (g : AuthFilter) (fs : Filters) (i : ℕ) {frag : Option Cond} {args : List Arg}
      → apply_to_query (cons g fs) thread_metadata i ≡ ok (frag, args)
      → (c : Cond) × (frag ≡ some c)
  unfolding apply_to_query emit
  some_filters g fs i {frag} {args} h = elim (Result-cases (emit g thread_metadata i)) [
    | inl (e, a) ↦ absurd (ground (arith, h, a))
    | inr ((c, as', j), a) ↦ elim (Result-cases (emit_each fs thread_metadata j)) [
      | inl (e, b) ↦ absurd (ground (arith, h, a, b))
      | inr ((cs, bs, k), b) ↦ joined c (as' ++ bs) k cs (rw (a, b) at h)
    ]
  ]
    where
      joined :
          (c : Cond) (as' : List Arg) (k : ℕ) (cs : Conds)
          → join_emitted (ok (cond c cs, as', k)) ≡ ok (frag, args)
          → (d : Cond) × (frag ≡ some d)
      joined c as' k end h = (c, ground (arith, h))
      joined c as' k (cond d ds) h = (all_of (cond c (cond d ds)), ground (arith, h))

  abbrev pub is_on_thread : String → Run V → Bool
  is_on_thread thread r =
      str_eq thread "" || elim (pg.uuid thread) [ none ↦ false | some v ↦ str_eq r.thread_id v ]

  abbrev pub is_listed : List String → Run V → Bool
  is_listed runs r = elim (cast_uuids pg runs) [ none ↦ false | some us ↦ elem r.run_id us ]

  -- A run that the request names, on the thread that it names if it names one, with a thread that
  -- the filters show if there are any.
  abbrev pub is_target : Database V → Filters → String → List String → Run V → Bool
  is_target db fs thread runs r = (is_on_thread thread r && is_reached db fs r) && is_listed runs r

  thread_value :
      (db : Database V) (thread : String) (ps : List (Param V)) (r : Run V)
      → Loaded pg (thread_part thread).1 1 ps
      → passes (eval_all pg (thread_part thread).0 (run_row db r) ps) ≡ is_on_thread thread r
  unfolding eval
  thread_value db thread ps r loaded = elim (Bool-cases (str_eq thread "")) [
    | inl b ↦ rw b refl
    | inr b ↦ elim (Option-cases (pg.uuid thread)) [
      | inl c ↦ absurd (no_id c (rw b at loaded))
      | inr (v, c) ↦ rw (b, c, (uuid_param pg thread v 1 [] ps c (rw b at loaded)).0) (ground arith)
    ]
  ]
    where
      no_id : pg.uuid thread ≡ none → Loaded pg (uuid_arg thread ∷ []) 1 ps → ⊥
      no_id c (p, e, l, rest) = ground (arith, c, e)

  ids_value :
      (db : Database V) (runs : List String) (i : ℕ) (ps : List (Param V)) (r : Run V)
      → Loaded pg (uuids_arg runs ∷ []) i ps
      → passes (eval_all pg (cond (is_any run_id i) end) (run_row db r) ps) ≡ is_listed runs r
  unfolding eval
  ids_value db runs i ps r (p, e, l, rest) = elim (Option-cases (cast_uuids pg runs)) [
    | inl c ↦ absurd (ground (arith, c, e))
    | inr (us, c) ↦
        let us_param : some p ≡ some (texts_param us) = sym e ∙ cast_ids us c in
        rw (l ∙ us_param, is_listed, c) (ground arith)
  ]
    where
      cast_ids :
          (us : List String)
          → cast_uuids pg runs ≡ some us
          → cast pg (uuids_arg runs) ≡ some (texts_param us)
      cast_ids us c = rw (cast, c) refl

  with_ids :
      (db : Database V) (runs : List String) (cs : Conds) (args : List Arg) (ps : List (Param V))
      (r : Run V) (b : Bool)
      → (Loaded pg args 1 ps → passes (eval_all pg cs (run_row db r) ps) ≡ b)
      → Loaded pg (args ++ (uuids_arg runs ∷ [])) 1 ps
      → passes (
          eval_all pg
            (append_conds cs (cond (is_any run_id (length args + 1)) end))
            (run_row db r)
            ps)
        ≡ (b && is_listed runs r)
  with_ids db runs cs args ps r b h loaded =
      let (l1, l2) = Loaded-append pg args (uuids_arg runs ∷ []) 1 ps loaded in
      rw passes-append_conds (
        ap₂ ◌&&◌ (h l1) (
          ids_value db runs (length args + 1) ps r
            (subst (λ i. Loaded pg (uuids_arg runs ∷ []) i ps) (next_place (length args)) l2)))
    where
      next_place : (n : ℕ) → 1 + n ≡ n + 1
      next_place n = omega arith

  with_exists :
      (db : Database V) (fs : Filters) (thread : String) (c : Cond) (args : List Arg)
      (ps : List (Param V)) (r : Run V)
      → apply_to_query fs thread_metadata (length (thread_part thread).1 + 1) ≡ ok (some c, args)
      → Loaded pg ((thread_part thread).1 ++ args) 1 ps
      → passes (
          eval_all pg
            (append_conds (thread_part thread).0 (cond (thread_exists c) end))
            (run_row db r)
            ps)
        ≡ (is_on_thread thread r && is_visible pg db fs r)
  unfolding eval
  with_exists db fs thread c args ps r emitted loaded =
      let (l1, l2) = Loaded-append pg (thread_part thread).1 args 1 ps loaded in
      rw passes-append_conds (
        ap₂ ◌&&◌ (thread_value db thread ps r l1) (
          ap passes (and_null-true (eval pg (thread_exists c) (run_row db r) ps))
          ∙ exists_value db fs (length (thread_part thread).1 + 1) c args ps r emitted
              (subst (λ i. Loaded pg args i ps) (next_place (length (thread_part thread).1)) l2)))
    where
      next_place : (n : ℕ) → 1 + n ≡ n + 1
      next_place n = omega arith

  -- The last condition and the last argument, whatever stands before them.
  ended_value :
      (db : Database V) (runs : List String) (cs0 cs : Conds) (args0 args : List Arg)
      (ps : List (Param V)) (r : Run V) (b : Bool)
      → (Loaded pg args0 1 ps → passes (eval_all pg cs0 (run_row db r) ps) ≡ b)
      → ◌≡◌ {A = Result (Conds × List Arg)}
          (ok (
            append_conds cs0 (cond (is_any run_id (length args0 + 1)) end),
            args0 ++ (uuids_arg runs ∷ []),
          ))
          (ok (cs, args))
      → Loaded pg args 1 ps
      → selected pg db cs ps r ≡ (b && is_listed runs r)
  ended_value db runs cs0 cs args0 args ps r b h built loaded =
      let e1 : append_conds cs0 (cond (is_any run_id (length args0 + 1)) end) ≡ cs =
        ground (arith, built) in
      let e2 : args ≡ args0 ++ (uuids_arg runs ∷ []) = sym (ground (arith, built)) in
      subst (λ ds. selected pg db ds ps r ≡ (b && is_listed runs r)) e1
        (with_ids db runs cs0 args0 ps r b h (subst (λ as'. Loaded pg as' 1 ps) e2 loaded))

  unfiltered_where :
      (db : Database V) (runs : List String) (thread : String) {cs : Conds} {args : List Arg}
      (ps : List (Param V)) (r : Run V)
      → cancel_where runs thread nil ≡ ok (cs, args)
      → Loaded pg args 1 ps
      → selected pg db cs ps r ≡ is_target db nil thread runs r
  unfolding cancel_where apply_to_query emit
  unfiltered_where db runs thread {cs} {args} ps r built loaded =
      ended_value db runs (thread_part thread).0 cs (thread_part thread).1 args ps r
        (is_on_thread thread r && true) (λ l. thread_value db thread ps r l ∙ ground arith) built
        loaded

  filtered_where :
      (db : Database V) (runs : List String) (thread : String) (g : AuthFilter) (fs : Filters)
      {cs : Conds} {args : List Arg} (ps : List (Param V)) (r : Run V)
      → cancel_where runs thread (cons g fs) ≡ ok (cs, args)
      → Loaded pg args 1 ps
      → selected pg db cs ps r ≡ is_target db (cons g fs) thread runs r
  unfolding cancel_where
  filtered_where db runs thread g fs {cs} {args} ps r built loaded =
      elim (Result-cases
        (apply_to_query (cons g fs) thread_metadata (length (thread_part thread).1 + 1))) [
          | inl (e, a) ↦ absurd (ground (arith, built, a))
          | inr ((frag, as'), a) ↦
              let (c, s) = some_filters g fs (length (thread_part thread).1 + 1) a in
              let a' : apply_to_query (cons g fs) thread_metadata
                    (length (thread_part thread).1 + 1)
                  ≡ ok (some c, as') =
                a ∙ ap (λ f. ok (f, as')) s in
              ended_value db runs (append_conds (thread_part thread).0 (cond (thread_exists c) end))
                cs ((thread_part thread).1 ++ as') args ps r
                (is_on_thread thread r && is_visible pg db (cons g fs) r)
                (λ l. with_exists db (cons g fs) thread c as' ps r a' l) (rw a' at built) loaded
        ]

  -- The WHERE clause of CancelWithAction holds of the targets.
  pub cancel_where_value :
      (db : Database V) (runs : List String) (thread : String) (fs : Filters) {cs : Conds}
      {args : List Arg} (ps : List (Param V)) (r : Run V)
      → cancel_where runs thread fs ≡ ok (cs, args)
      → Loaded pg args 1 ps
      → selected pg db cs ps r ≡ is_target db fs thread runs r
  cancel_where_value db runs thread nil ps r built loaded =
      unfiltered_where db runs thread ps r built loaded
  cancel_where_value db runs thread (cons g fs) ps r built loaded =
      filtered_where db runs thread g fs ps r built loaded
