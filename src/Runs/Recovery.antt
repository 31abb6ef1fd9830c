-- ===== src/Runs/Recovery.antt =====
-- Sweep and then Next of internal/runs/store.go: a run whose worker is lost runs again.
use Prim.Native.Nat.{zero}
use langsmith_deployment_go.Prelude.{
  ℕ, suc, ◌≤◌, String, ◌≡◌, refl, sym, ap, ◌∙◌, subst, Bool, true, false, ◌&&◌, List, [], ◌∷◌,
  arith, str_eq, any, keep, take, length, inl, inr, IsIn, keep-IsIn, sort_by-IsIn, Bool-cases,
  length-sort_by, sort_by,
}
use langsmith_deployment_go.Sql.{Postgres}
use langsmith_deployment_go.Runs.Model.{Run, Database, is_running, update_runs}
use langsmith_deployment_go.Runs.Lease.{
  is_expired, swept, sweep, claimed, is_due, is_eligible, thread_is_running, older, limit_of,
  next_rows, next, claim_rows,
}
use langsmith_deployment_go.Runs.Rows.{UniqueIds, update_runs-IsIn}
use langsmith_deployment_go.Runs.Claims.{runs-next, claimed-IsIn}
use langsmith_deployment_go.Runs.Sweeping.{sweep_exact}

take-IsIn :
    {A : Type 0} (n : ℕ) (x : A) (xs : List A) → length xs ≤ n → IsIn x xs → IsIn x (take n xs)
take-IsIn n x [] h m = absurd m
take-IsIn zero x (y ∷ ys) h m = absurd (omega (arith, h))
take-IsIn (suc n) x (y ∷ ys) h (inl e) = inl e
take-IsIn (suc n) x (y ∷ ys) h (inr m) = inr (take-IsIn n x ys (omega (arith, h)) m)

le-limit_of : (limit : ℕ) → limit ≤ limit_of limit
le-limit_of limit = ground arith

length-keep : {A : Type 0} (p : A → Bool) (xs : List A) → length (keep p xs) ≤ length xs
length-keep p [] = omega arith
length-keep p (x ∷ xs) = elim (Bool-cases (p x)) [
  | inl b ↦ rw b (omega (arith, length-keep p xs))
  | inr b ↦ rw b (omega (arith, length-keep p xs))
]

module _ {V : Type 0} where
  length-update_runs :
      (p : Run V → Bool) (f : Run V → Run V) (rs : List (Run V))
      → length (update_runs p f rs) ≡ length rs
  length-update_runs p f [] = refl
  length-update_runs p f (r ∷ rs) = ap suc (length-update_runs p f rs)

  -- A run of the thread that is running.
  abbrev pub runs_on : String → Run V → Bool
  runs_on thread x = str_eq x.thread_id thread && is_running x.status

  -- After the sweep no run is running on a thread whose running runs had all lost their leases.
  sweep_idles :
      (now : ℕ) (thread : String) (rs : List (Run V))
      → ((x : Run V) → IsIn x rs → runs_on thread x ≡ true → is_expired now x ≡ true)
      → any (runs_on thread) (update_runs (is_expired now) (swept now) rs) ≡ false
  sweep_idles now thread [] h = refl
  sweep_idles now thread (x ∷ xs) h =
      let rest = sweep_idles now thread xs (λ y m. h y (inr m)) in
      elim (Bool-cases (is_expired now x)) [
        | inl b ↦ rw (b, rest) (ground arith)
        | inr b ↦ elim (Bool-cases (runs_on thread x)) [
          | inl c ↦ absurd (ground (arith, b, h x (inl refl) c))
          | inr c ↦ rw (b, rest, c) refl
        ]
      ]

  next_rows-all :
      (now limit : ℕ) (rs : List (Run V)) (r : Run V)
      → length rs ≤ limit
      → IsIn r rs
      → is_eligible (λ x. false) now rs r ≡ true
      → IsIn r (next_rows (λ x. false) now limit rs)
  unfolding next_rows
  next_rows-all now limit rs r h m e =
      let rows = keep (is_eligible (λ x. false) now rs) rs in
      take-IsIn (limit_of limit) r (sort_by older rows)
        (omega (
          arith,
          h,
          length-sort_by older rows,
          length-keep (is_eligible (λ x. false) now rs) rs,
          le-limit_of limit,
        ))
        (sort_by-IsIn older r rows (keep-IsIn (is_eligible (λ x. false) now rs) r rs m e))

  eligible :
      (swept_at now : ℕ) (rs : List (Run V)) (r : Run V)
      → is_due now r ≡ true
      → thread_is_running rs r ≡ false
      → is_eligible (λ x. false) now rs (swept swept_at r) ≡ true
  eligible swept_at now rs r due idle = rw (due, idle) refl

module _ {V : Type 0} (pg : Postgres V) where
  -- A Sweep with no other replica at work and a Next after it that finds no locked row start a run
  -- again whose worker is lost: if its lease has expired, all running runs of its thread have lost
  -- theirs too, its date has come, ids are unique, and the limit of Next is not below the number of
  -- runs, then it is running again with one more attempt, a lease, and a higher generation.
  pub sweep-next_restarts :
      (swept_at now ttl limit : ℕ) (db : Database V) (r : Run V)
      → UniqueIds db.runs
      → IsIn r db.runs
      → is_expired swept_at r ≡ true
      → ((x : Run V) → IsIn x db.runs → runs_on r.thread_id x ≡ true → is_expired swept_at x ≡ true)
      → is_due now r ≡ true
      → length db.runs ≤ limit
      → IsIn
          (claimed now ttl (swept swept_at r))
          (next pg (λ x. false) now ttl limit (sweep swept_at [] db).0).1.runs
  sweep-next_restarts swept_at now ttl limit db r un m lost alone due h =
      let db' = (sweep swept_at [] db).0 in
      let rs = update_runs (is_expired swept_at) (swept swept_at) db.runs in
      let after = sweep_exact swept_at db un in
      let there : IsIn (swept swept_at r) rs =
        rw lost at (update_runs-IsIn (is_expired swept_at) (swept swept_at) r db.runs m) in
      let rows =
        next_rows-all now limit rs (swept swept_at r)
          (omega (arith, h, length-update_runs (is_expired swept_at) (swept swept_at) db.runs))
          there (eligible swept_at now rs r due (sweep_idles swept_at r.thread_id db.runs alone)) in
      subst (λ l. IsIn (claimed now ttl (swept swept_at r)) l)
        (sym (
          runs-next pg (λ x. false) now ttl limit db'
          ∙ ap (λ l. claim_rows now ttl (next_rows (λ x. false) now limit l) l) after))
        (claimed-IsIn now ttl _ rs (swept swept_at r) rows there)
