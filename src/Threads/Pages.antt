-- ===== src/Threads/Pages.antt =====
-- Search and Count of internal/threads/store.go tell of the same rows.
use Prim.Native.Nat.{min}
use langsmith_deployment_go.Prelude.{
  ℕ, zero, suc, ◌-◌, String, ◌≡◌, refl, ap, ◌∙◌, Option, List, [], ◌∷◌, arith, keep, drop, length,
  ◌==◌, if◌then◌else◌, sort_by, length-sort_by, length-take, ok,
}
use langsmith_deployment_go.Sql.{Postgres}
use langsmith_deployment_go.Auth.{Filters}
use langsmith_deployment_go.Runs.Model.{Thread, Database}
use langsmith_deployment_go.Runs.Creating.{OnOk, OnOk-then, value_of}
use langsmith_deployment_go.Threads.Query.{
  ThreadSearch, thread_where_args, sort_clause, in_order, selects_thread, bound, slice,
  search_threads, count_threads,
}

length-drop {ℓ} : {A : Type ℓ} (n : ℕ) (xs : List A) → length (drop n xs) ≡ length xs - n
length-drop zero xs = omega arith
length-drop (suc n) [] = omega arith
length-drop (suc n) (x ∷ xs) = omega (arith, length-drop n xs)

length-slice :
    {A : Type 0} (limit offset : ℕ) (xs : List A)
    → length (slice limit offset xs) ≡ min (if limit == 0 then 100 else limit) (length xs - offset)
length-slice limit offset xs =
    length-take (if limit == 0 then 100 else limit) (drop offset xs)
    ∙ ap (min (if limit == 0 then 100 else limit)) (length-drop offset xs)

module _ {V : Type 0} (pg : Postgres V) (keys : String → Option ℕ) where
  abbrev Paged : Database V → ThreadSearch → Filters → ℕ → Type 0
  Paged db s fs n =
      (ts : List (Thread V)) × (search_threads pg keys db s fs ≡ ok ts)
      × (length ts ≡ min (if s.limit == 0 then 100 else s.limit) (n - s.offset))

  count_threads-Paged :
      (db : Database V) (s : ThreadSearch) (fs : Filters)
      → OnOk (Paged db s fs) (count_threads pg keys db s fs)
  unfolding count_threads search_threads
  count_threads-Paged db s fs = OnOk-then (Paged db s fs) (thread_where_args keys s fs) _ (λ w ew.
      OnOk-then (Paged db s fs) (bound pg w.args) _ (λ ps eps.
        let hits = keep (selects_thread pg w.conds ps) db.threads in
        let ordered = sort_by (in_order (sort_clause s.sort_column s.sort_order)) hits in
        (
          slice s.limit s.offset ordered,
          rw (ew, eps) refl,
          length-slice s.limit s.offset ordered
              ∙ ap (λ k. min (if s.limit == 0 then 100 else s.limit) (k - s.offset))
                  (length-sort_by (in_order (sort_clause s.sort_column s.sort_order)) hits),
        )))

  -- When Count answers `n`, Search with the same criteria answers a page of that many rows: all of
  -- them from the offset on, or as many as the limit, which is 100 if none is given.
  pub search_threads-count_threads :
      (db : Database V) (s : ThreadSearch) (fs : Filters) (n : ℕ)
      → count_threads pg keys db s fs ≡ ok n
      → (ts : List (Thread V)) × (search_threads pg keys db s fs ≡ ok ts)
        × (length ts ≡ min (if s.limit == 0 then 100 else s.limit) (n - s.offset))
  search_threads-count_threads db s fs n counted =
      value_of (Paged db s fs) (count_threads-Paged db s fs) counted
