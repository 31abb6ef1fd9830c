-- ===== src/Crons/Shown.antt =====
-- What the filters of a request let Search of internal/crons/store.go show.
use native.Mathlib.Numerals.{one-add}
use langsmith_deployment_go.Prelude.{
  ℕ, zero, suc, ◌+◌, String, ◌≡◌, refl, sym, ap, ◌∙◌, true, not, ◌&&◌, Option, none, some, List, [],
  ◌∷◌, ◌++◌, arith, find?, drop, length, ◌==◌, if◌then◌else◌, inr, IsIn, IsIn-keep, IsIn-take,
  IsIn-sort_by, &&-left, &&-right, ok, err, database, from_option,
}
use langsmith_deployment_go.Sql.{Postgres, own_metadata, Arg, Param, Cond, bind}
use langsmith_deployment_go.Auth.{Filters, nil, cons, is_empty, apply_to_query}
use langsmith_deployment_go.Auth.Parameters.{Loaded, Loaded-append, Loaded-bind}
use langsmith_deployment_go.Auth.Fragments.{allows_all}
use langsmith_deployment_go.Auth.Meaning.{apply_to_query-Loaded}
use langsmith_deployment_go.Runs.Model.{Thread, Database, has_thread_id, metadata_row}
use langsmith_deployment_go.Runs.Creating.{OnOk, OnOk-then, value_of}
use langsmith_deployment_go.Threads.Query.{bound}
use langsmith_deployment_go.Crons.Rows.{Cron, cte_filters, meets, uuid_or_null}
use langsmith_deployment_go.Crons.Search.{
  CronSearch, CronWhere, search_args, cron_where_args, is_wanted, is_enabled_as, in_cron_order,
  crons_sort_clause, thread_passes, selects_searched, matching_crons, search_crons,
}

IsIn-drop : {A : Type 0} (n : ℕ) (x : A) (xs : List A) → IsIn x (drop n xs) → IsIn x xs
IsIn-drop zero x xs m = m
IsIn-drop (suc n) x [] m = m
IsIn-drop (suc n) x (y ∷ ys) m = inr (IsIn-drop n x ys m)

bound-some : {A : Type 0} (o : Option A) (a : A) → from_option database o ≡ ok a → o ≡ some a
bound-some none a h = absurd (ground (arith, h))
bound-some (some b) a h = ap some (ap (λ r. elim r [ ok x ↦ x | err e ↦ b ]) h)

module _ {V : Type 0} (pg : Postgres V) where
  -- The cron is allowed, and so is its thread, if it has one that is there.
  abbrev IsShown : Database V → Filters → Filters → Cron V → Type 0
  IsShown db fs ts c =
      (allows_all pg fs c.metadata ≡ true)
      × ((u : String) (x : Thread V)
          → c.thread_id ≡ some u
          → find? (has_thread_id u) db.threads ≡ some x
          → allows_all pg ts x.metadata ≡ true)

  thread_part :
      (ts : Filters) (start : ℕ) (m : V) {e : Option Cond × List Arg} (ps : List (Param V))
      → cte_filters (not (is_empty ts)) ts start ≡ ok e
      → Loaded pg e.1 start ps
      → meets pg e.0 ps m ≡ true
      → allows_all pg ts m ≡ true
  unfolding allows_all
  thread_part nil start m ps made loaded h = refl
  thread_part (cons f ts) start m ps made loaded h =
      sym (
        apply_to_query-Loaded pg (metadata_row m) (cons f ts) own_metadata m start ps refl made
          loaded)
      ∙ h

  selected-IsShown :
      (db : Database V) (s : CronSearch) (fs : Filters) (a t : Option String)
      {e j : Option Cond × List Arg} (ps : List (Param V)) (c : Cron V)
      → apply_to_query fs own_metadata (suc (length (search_args s))) ≡ ok e
      → cte_filters
          (not (is_empty s.thread_filters))
          s.thread_filters
          (suc (length (search_args s)) + length e.1)
        ≡ ok j
      → bind pg (search_args s ++ (e.1 ++ j.1)) ≡ some ps
      → selects_searched pg db s a t
          (record { cron_cond = e.0; thread_cond = j.0; args = search_args s ++ (e.1 ++ j.1) })
          ps
          c
        ≡ true
      → IsShown db fs s.thread_filters c
  selected-IsShown db s fs a t {e = e} {j = j} ps c emitted joined loaded h =
      let own = search_args s in
      let rest =
        (Loaded-append pg own (e.1 ++ j.1) 1 ps
          (Loaded-bind pg (own ++ (e.1 ++ j.1)) ps loaded)).1 in
      let (le, lj) = Loaded-append pg e.1 j.1 (suc (length own)) ps (rw one-add at rest) in
      let allowed = meets pg e.0 ps c.metadata in
      let linked = thread_passes pg j.0 ps db c.thread_id in
      let on = is_enabled_as s.enabled c.enabled in
      let both : (allowed && linked) ≡ true = &&-right on (allowed && linked) (
        &&-right (is_wanted t c.thread_id) (on && (allowed && linked))
          (&&-right (is_wanted a (some c.assistant_id)) _ h)) in
      let through : linked ≡ true = &&-right allowed linked both in
      (
        sym (
              apply_to_query-Loaded pg (metadata_row c.metadata) fs own_metadata c.metadata _ ps
                refl emitted le)
            ∙ &&-left allowed linked both,
        λ u x named found.
            thread_part s.thread_filters _ x.metadata ps joined lj (rw (named, found) at through),
      )

  abbrev WhereShown : Database V → CronSearch → Filters → CronWhere → Type 0
  WhereShown db s fs w =
      (a t : Option String) (ps : List (Param V)) (c : Cron V)
      → bind pg w.args ≡ some ps
      → selects_searched pg db s a t w ps c ≡ true
      → IsShown db fs s.thread_filters c

  cron_where_args-WhereShown :
      (db : Database V) (s : CronSearch) (fs : Filters)
      → OnOk (WhereShown db s fs) (cron_where_args s fs)
  unfolding cron_where_args
  cron_where_args-WhereShown db s fs =
      let P = WhereShown db s fs in
      let start = suc (length (search_args s)) in
      OnOk-then P (apply_to_query fs own_metadata start) _ (λ e emitted.
        OnOk-then P
          (cte_filters (not (is_empty s.thread_filters)) s.thread_filters (start + length e.1)) _
          (λ j joined a t ps c loaded h. selected-IsShown db s fs a t ps c emitted joined loaded h))

  abbrev AllShown : Database V → List (Cron V) → Filters → Filters → List (Cron V) → Type 0
  AllShown db cs fs ts hits = (c : Cron V) → IsIn c hits → IsIn c cs × IsShown db fs ts c

  matching_crons-AllShown :
      (db : Database V) (cs : List (Cron V)) (s : CronSearch) (fs : Filters)
      → OnOk (AllShown db cs fs s.thread_filters) (matching_crons pg db cs s fs)
  matching_crons-AllShown db cs s fs =
      let P = AllShown db cs fs s.thread_filters in
      OnOk-then P (cron_where_args s fs) _ (λ w made. OnOk-then P (bound pg w.args) _ (λ ps loaded.
        OnOk-then P (uuid_or_null pg s.assistant_id) _ (λ a _.
          OnOk-then P (uuid_or_null pg s.thread_id) _ (λ t _ c m.
            let (k, h) = IsIn-keep (selects_searched pg db s a t w ps) c cs m in
            (
              k,
              value_of (WhereShown db s fs) (cron_where_args-WhereShown db s fs) made a t ps c
                  (bound-some _ ps loaded) h,
            )))))

  search_crons-AllShown :
      (db : Database V) (cs : List (Cron V)) (s : CronSearch) (fs : Filters)
      → OnOk (AllShown db cs fs s.thread_filters) (search_crons pg db cs s fs)
  unfolding search_crons
  search_crons-AllShown db cs s fs =
      let P = AllShown db cs fs s.thread_filters in
      OnOk-then P (matching_crons pg db cs s fs) _ (λ hits e c m.
        value_of (AllShown db cs fs s.thread_filters) (matching_crons-AllShown db cs s fs) e c (
          IsIn-sort_by (in_cron_order (crons_sort_clause s.sort_column s.sort_order)) c hits
            (IsIn-drop s.offset c _ (IsIn-take (if s.limit == 0 then 100 else s.limit) c _ m))))

  -- An answered Search gives only rows of the table whose metadata meets the filters and whose
  -- thread, if the cron has one that is there, meets the thread filters.
  pub search_crons-IsShown :
      (db : Database V) (cs : List (Cron V)) (s : CronSearch) (fs : Filters) (hits : List (Cron V))
      (c : Cron V)
      → search_crons pg db cs s fs ≡ ok hits
      → IsIn c hits
      → IsIn c cs × IsShown db fs s.thread_filters c
  search_crons-IsShown db cs s fs hits c answered m =
      value_of (AllShown db cs fs s.thread_filters) (search_crons-AllShown db cs s fs) answered c m
