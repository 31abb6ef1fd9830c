-- ===== src/Runs/Isolation.antt =====
-- The thread-isolation guard of Next in internal/runs/store.go: what it keeps and what it lets by.
use mathlib.Core.Bool.{false≢true}
use langsmith_deployment_go.Prelude.{
  ℕ, ◌≤◌, ◌≡◌, ◌≢◌, refl, sym, ap, ◌∙◌, subst, Bool, true, false, ◌&&◌, List, [], ◌∷◌, arith, keep,
  take, str_eq, elem, ◌⊎◌, inl, inr, IsIn, any-IsIn, eq_refl, Bool-cases, sort_by,
}
use langsmith_deployment_go.Sql.{Postgres}
use langsmith_deployment_go.Runs.Model.{Run, Database, is_running}
use langsmith_deployment_go.Runs.Lease.{
  is_eligible, limit_of, thread_is_running, older, next_rows, claim_rows, claimed, run_ids, next,
  next_with,
}
use langsmith_deployment_go.Runs.Rows.{
  UniqueIds, IsIsolated, IsIn-update_runs, update_runs-IsIn, elem-run_ids,
}
use langsmith_deployment_go.Runs.Claims.{
  claimed-IsIn, next_rows-eligible, next_rows_fair, runs-next, runs-next_with,
}

module _ {V : Type 0} (now ttl : ℕ) (rows rs : List (Run V)) where
  -- A row after the UPDATE of Next is a claimed row or an old one.
  pub claim_rows-cases :
      (y : Run V)
      → IsIn y (claim_rows now ttl rows rs)
      → (x : Run V) × IsIn x rs
        × (((y ≡ claimed now ttl x) × (elem x.run_id (run_ids rows) ≡ true)) ⊎ (y ≡ x))
  unfolding claim_rows
  claim_rows-cases y m =
      let (x, k, e) =
        IsIn-update_runs (λ r. elem r.run_id (run_ids rows)) (claimed now ttl) y rs m in
      elim (Bool-cases (elem x.run_id (run_ids rows))) [
        | inl b ↦ (x, k, inl (rw b at e, b))
        | inr b ↦ (x, k, inr (rw b at e))
      ]

module _ {V : Type 0} (locked : Run V → Bool) (now ttl limit : ℕ) (rs : List (Run V)) where
  -- With unique ids the rows that the UPDATE finds by id are the rows that the SELECT locked.
  pub claimed_is_row :
      UniqueIds rs
      → (x : Run V) → IsIn x rs
      → elem x.run_id (run_ids (next_rows locked now limit rs)) ≡ true
      → IsIn x (next_rows locked now limit rs)
  claimed_is_row u x m h =
      let (r, k, e) = elem-run_ids x.run_id (next_rows locked now limit rs) h in
      subst (λ w. IsIn w (next_rows locked now limit rs))
        (u.same r x (next_rows-eligible locked now limit rs r k).0 m e) k

-- The UPDATE of Next on rows that stand in the table, on threads where no run is running.
module _ {V : Type 0} (now ttl : ℕ) (rows rs : List (Run V))
    (there : (r : Run V) → IsIn r rows → IsIn r rs)
    (idle : (r : Run V) → IsIn r rows → thread_is_running rs r ≡ false) where
  row_of :
      UniqueIds rs → (x : Run V) → IsIn x rs → elem x.run_id (run_ids rows) ≡ true → IsIn x rows
  row_of u x m h =
      let (r, k, e) = elem-run_ids x.run_id rows h in
      subst (λ w. IsIn w rows) (u.same r x (there r k) m e) k

  busy_thread :
      (x y : Run V)
      → IsIn y rs
      → is_running y.status ≡ true
      → y.thread_id ≡ x.thread_id
      → thread_is_running rs x ≡ true
  busy_thread x y m h t =
      any-IsIn (λ w. str_eq w.thread_id x.thread_id && is_running w.status) y rs m
        (rw (t, h, eq_refl))

  -- A claimed row and an old running row are on different threads.
  never_beside :
      (x y x0 y0 : Run V)
      → x ≡ claimed now ttl x0
      → y ≡ y0
      → IsIn x0 rows
      → IsIn y0 rs
      → is_running y.status ≡ true
      → x.thread_id ≡ y.thread_id
      → ⊥
  never_beside x y x0 y0 ex ey mx my ry t = false≢true (
      sym (idle x0 mx)
      ∙ busy_thread x0 y0 my (rw ey at ry)
          (ap (λ r. r.thread_id) (sym ey) ∙ sym t ∙ ap (λ r. r.thread_id) ex))

  -- If at most one run of each thread is claimed, then no thread gets a second running run.
  claim_rows-IsIsolated :
      UniqueIds rs
      → IsIsolated rs
      → ((r s : Run V)
          → IsIn r rows
          → IsIn s rows
          → r.thread_id ≡ s.thread_id
          → r.run_id ≡ s.run_id)
      → IsIsolated (claim_rows now ttl rows rs)
  claim_rows-IsIsolated u h one = record {
    single = λ x y mx my rx ry t.
        let (x0, kx, cx) = claim_rows-cases now ttl rows rs x mx in
        let (y0, ky, cy) = claim_rows-cases now ttl rows rs y my in
        elim cx [
          | inl (ex, bx) ↦ elim cy [
            | inl (ey, by') ↦
                ap (λ r. r.run_id) ex
                ∙ one x0 y0 (row_of u x0 kx bx) (row_of u y0 ky by')
                    (ap (λ r. r.thread_id) (sym ex) ∙ t ∙ ap (λ r. r.thread_id) ey)
                ∙ ap (λ r. r.run_id) (sym ey)
            | inr ey ↦ absurd (never_beside x y x0 y0 ex ey (row_of u x0 kx bx) ky ry t)
          ]
          | inr ex ↦ elim cy [
            | inl (ey, by') ↦
                absurd (never_beside y x y0 x0 ey ex (row_of u y0 ky by') kx rx (sym t))
            | inr ey ↦
                h.single x y (subst (λ w. IsIn w rs) (sym ex) kx)
                  (subst (λ w. IsIn w rs) (sym ey) ky) rx ry t
          ]
        ];
  }

-- A list that LIMIT 1 has cut holds one row.
take_one : {A : Type 0} (xs : List A) (x y : A) → IsIn x (take 1 xs) → IsIn y (take 1 xs) → x ≡ y
take_one [] x y m k = absurd m
take_one (z ∷ zs) x y (inl e) (inl d) = e ∙ sym d
take_one (z ∷ zs) x y (inl e) (inr k) = absurd k
take_one (z ∷ zs) x y (inr m) k = absurd m

one_row : (limit : ℕ) → limit ≤ 1 → limit_of limit ≡ 1
one_row limit l = ground arith

only_row :
    {V : Type 0} (limit : ℕ)
    → limit ≤ 1
    → (locked : Run V → Bool) (now : ℕ) (rs : List (Run V)) (r s : Run V)
    → IsIn r (next_rows locked now limit rs)
    → IsIn s (next_rows locked now limit rs)
    → r ≡ s
unfolding next_rows
only_row limit l locked now rs r s mr ms =
    let xs = sort_by older (keep (is_eligible locked now rs) rs) in
    take_one xs r s (subst (λ n. IsIn r (take n xs)) (one_row limit l) mr)
      (subst (λ n. IsIn s (take n xs)) (one_row limit l) ms)

-- A running row is running after the UPDATE of a Next, under its id and on its thread.
still_running :
    {V : Type 0} (now ttl : ℕ) (rows rs : List (Run V)) (x : Run V)
    → IsIn x rs
    → is_running x.status ≡ true
    → (y : Run V) × IsIn y (claim_rows now ttl rows rs)
      × (is_running y.status ≡ true)
      × (y.run_id ≡ x.run_id)
      × (y.thread_id ≡ x.thread_id)
unfolding claim_rows
still_running now ttl rows rs x m h =
    let k = update_runs-IsIn (λ r. elem r.run_id (run_ids rows)) (claimed now ttl) x rs m in
    elim (Bool-cases (elem x.run_id (run_ids rows))) [
      | inl b ↦ (claimed now ttl x, rw b at k, refl, refl, refl)
      | inr b ↦ (x, rw b at k, h, refl, refl)
    ]

-- Next leaves a row that another transaction holds.
passed_over :
    {V : Type 0} (locked : Run V → Bool) (now ttl limit : ℕ) (rs : List (Run V))
    → UniqueIds rs
    → (r : Run V) → IsIn r rs
    → locked r ≡ true
    → IsIn r (claim_rows now ttl (next_rows locked now limit rs) rs)
unfolding claim_rows
passed_over locked now ttl limit rs u r m held =
    let rows = next_rows locked now limit rs in
    let k = update_runs-IsIn (λ r. elem r.run_id (run_ids rows)) (claimed now ttl) r rs m in
    elim (Bool-cases (elem r.run_id (run_ids rows))) [
      | inl b ↦ absurd (
          false≢true (
            sym
              ((next_rows_fair locked now limit rs).0 r
                (claimed_is_row locked now ttl limit rs u r m b)).4
            ∙ held))
      | inr b ↦ rw b at k
    ]

module _ {V : Type 0} (pg : Postgres V) (locked : Run V → Bool) (now ttl : ℕ) where
  -- A worker that claims one run at a time (limit 1, or 0 which means 1) keeps threads isolated,
  -- whatever rows other transactions hold locked: where at most one run of each thread is running
  -- after what others commit between the two statements of Next, so it is after Next. The others
  -- leave the row that Next has locked, start no run of its thread, and keep ids unique.
  pub next_one-IsIsolated :
      (limit : ℕ) (others : Database V → Database V) (db : Database V)
      → limit ≤ 1
      → UniqueIds (others db).runs
      → IsIsolated (others db).runs
      → ((r : Run V) → IsIn r (next_rows locked now limit db.runs) → IsIn r (others db).runs)
      → ((r : Run V)
          → IsIn r (next_rows locked now limit db.runs)
          → thread_is_running db.runs r ≡ false
          → thread_is_running (others db).runs r ≡ false)
      → IsIsolated (next_with pg locked now ttl limit others db).1.runs
  next_one-IsIsolated limit others db l u h there idle = rw runs-next_with (
      claim_rows-IsIsolated now ttl (next_rows locked now limit db.runs) (others db).runs there
        (λ r m. idle r m ((next_rows_fair locked now limit db.runs).0 r m).3) u h
        (λ r s mr ms t. ap (λ w. w.run_id) (only_row limit l locked now db.runs r s mr ms)))

  -- Two due, unlocked, pending runs of one idle thread, and a limit that reaches them both: Next
  -- makes both run, and the thread is no longer isolated.
  pub next_batch_breaks_isolation :
      (limit : ℕ) (db : Database V) (r s : Run V)
      → IsIn r (next_rows locked now limit db.runs)
      → IsIn s (next_rows locked now limit db.runs)
      → r.thread_id ≡ s.thread_id
      → r.run_id ≢ s.run_id
      → ¬ IsIsolated (next pg locked now ttl limit db).1.runs
  next_batch_breaks_isolation limit db r s mr ms t d h =
      let rows = next_rows locked now limit db.runs in
      let after = rw runs-next at h in
      d (
        after.single (claimed now ttl r) (claimed now ttl s)
          (claimed-IsIn now ttl rows db.runs r mr
            (next_rows-eligible locked now limit db.runs r mr).0)
          (claimed-IsIn now ttl rows db.runs s ms
            (next_rows-eligible locked now limit db.runs s ms).0)
          refl refl t)

  -- Another Next that runs between the two statements and passes over the row that this one has
  -- locked may claim a second run of the thread: then both run, whatever the limits are, and the
  -- thread is no longer isolated. Ids are unique.
  pub next_beside_next_breaks_isolation :
      (limit : ℕ) (locked' : Run V → Bool) (now' ttl' limit' : ℕ) (db : Database V) (r s : Run V)
      → UniqueIds db.runs
      → IsIn r (next_rows locked now limit db.runs)
      → IsIn s (next_rows locked' now' limit' db.runs)
      → locked' r ≡ true
      → r.thread_id ≡ s.thread_id
      → r.run_id ≢ s.run_id
      → ¬ IsIsolated
          (next_with pg locked now ttl limit
            (λ d. (next pg locked' now' ttl' limit' d).1)
            db).1.runs
  next_beside_next_breaks_isolation limit locked' now' ttl' limit' db r s u mr ms held t d h =
      let others = λ (d : Database V). (next pg locked' now' ttl' limit' d).1 in
      let rows = next_rows locked now limit db.runs in
      let rows' = next_rows locked' now' limit' db.runs in
      let between = claim_rows now' ttl' rows' db.runs in
      let in_db = (next_rows-eligible locked now limit db.runs r mr).0 in
      let after : IsIsolated (claim_rows now ttl rows between) =
        subst IsIsolated
          (runs-next_with pg locked now ttl limit others db
            ∙ ap (claim_rows now ttl rows) (runs-next pg locked' now' ttl' limit' db))
          h in
      let (y, my, ry, ey, ty) =
        still_running now ttl rows between (claimed now' ttl' s)
          (claimed-IsIn now' ttl' rows' db.runs s ms
            (next_rows-eligible locked' now' limit' db.runs s ms).0)
          refl in
      d (
        after.single (claimed now ttl r) y
          (claimed-IsIn now ttl rows between r mr
            (passed_over locked' now' ttl' limit' db.runs u r in_db held))
          my refl ry (t ∙ sym ty)
        ∙ ey)
