-- ===== src/Runs/Sweeping.antt =====
-- Sweep of internal/runs/store.go: which runs it touches.
use mathlib.Core.Bool.{false≢true}
use langsmith_deployment_go.Prelude.{
  ℕ, String, ◌≡◌, refl, sym, ap, ap₂, ◌∙◌, subst, Bool, true, false, ◌&&◌, List, [], ◌∷◌, arith,
  eq_iff, elem, any, keep, if◌then◌else◌, inl, inr, IsIn, keep-IsIn, IsIn-any, any-IsIn, Bool-cases,
  &&-left, &&-right,
}
use langsmith_deployment_go.Runs.Model.{Run, Database, has_run_id, update_runs}
use langsmith_deployment_go.Runs.Lease.{
  is_expired, swept, sweep_one, sweep_candidates, sweep_each, sweep, run_ids,
}
use langsmith_deployment_go.Runs.Rows.{
  UniqueIds, update_runs-UniqueIds, update_runs-congr, update_runs-none, run_ids-elem,
}

module _ {V : Type 0} where
  abbrev pub reapable : ℕ → String → Run V → Bool
  reapable t u r = has_run_id u r && is_expired t r

  -- One sweep touches the expired row of that id, if there is one.
  pub runs-sweep_one :
      (now : ℕ) (u : String) (db : Database V)
      → UniqueIds db.runs
      → (sweep_one now u db).0.runs ≡ update_runs (reapable now u) (swept now) db.runs
  unfolding sweep_one
  runs-sweep_one now u db un = elim (Bool-cases (any (reapable now u) db.runs)) [
    | inl b ↦
        let (r, k, e) = IsIn-any (reapable now u) db.runs b in
        rw b (
          update_runs-congr (has_run_id u) (reapable now u) (swept now) db.runs
            (λ x m. same_test x r u m k e))
    | inr b ↦ rw b (
        sym (
          update_runs-congr (reapable now u) (λ r. false) (swept now) db.runs
            (λ x m. none_found x m b)
          ∙ update_runs-none (λ r. false) (swept now) db.runs (λ r. refl)))
  ]
    where
      same_test :
          (x r : Run V) (v : String)
          → IsIn x db.runs
          → IsIn r db.runs
          → reapable now v r ≡ true
          → has_run_id v x ≡ reapable now v x
      same_test x r v m k e = elim (Bool-cases (has_run_id v x)) [
        | inl c ↦
            rw
              (
                c,
                subst (λ w. is_expired now w ≡ true)
                    (un.same r x k m
                      ((eq_iff r.run_id v).0 (&&-left _ _ e) ∙ sym ((eq_iff x.run_id v).0 c)))
                    (&&-right (has_run_id v r) (is_expired now r) e),
              )
              refl
        | inr c ↦ rw c
      ]

      none_found :
          (x : Run V)
          → IsIn x db.runs
          → any (reapable now u) db.runs ≡ false
          → reapable now u x ≡ false
      none_found x m b = elim (Bool-cases (reapable now u x)) [
        | inl c ↦ absurd (false≢true (sym b ∙ any-IsIn (reapable now u) x db.runs m c))
        | inr c ↦ c
      ]

  sweep_one-UniqueIds :
      (now : ℕ) (u : String) (db : Database V)
      → UniqueIds db.runs
      → UniqueIds (sweep_one now u db).0.runs
  sweep_one-UniqueIds now u db un =
      rw (runs-sweep_one now u db un)
        (update_runs-UniqueIds (reapable now u) (swept now) db.runs (λ r. refl) un)

  abbrev listed : ℕ → List String → Run V → Bool
  listed now us r = elem r.run_id us && is_expired now r

  listed_row :
      (now : ℕ) (u : String) (us : List String) (r : Run V)
      → (let x = (if reapable now u r then swept now r else r) in
          if listed now us x then swept now x else x)
        ≡ (if listed now (u ∷ us) r then swept now r else r)
  listed_row now u us r = elim (Bool-cases (has_run_id u r)) [
    | inl b ↦ elim (Bool-cases (is_expired now r)) [
      | inl c ↦ rw (b, c) (ground arith)
      | inr c ↦ rw (b, c) (ground arith)
    ]
    | inr b ↦ rw b
  ]

  listed_rows :
      (now : ℕ) (u : String) (us : List String) (rs : List (Run V))
      → update_runs (listed now us) (swept now) (update_runs (reapable now u) (swept now) rs)
        ≡ update_runs (listed now (u ∷ us)) (swept now) rs
  listed_rows now u us [] = refl
  listed_rows now u us (r ∷ rs) = ap₂ ◌∷◌ (listed_row now u us r) (listed_rows now u us rs)

  runs-sweep_each :
      (now : ℕ) (us : List String) (db : Database V)
      → UniqueIds db.runs
      → (sweep_each now [] us db).0.runs ≡ update_runs (listed now us) (swept now) db.runs
  unfolding sweep_each
  runs-sweep_each now [] db un =
      sym (update_runs-none (listed now []) (swept now) db.runs (λ r. refl))
  runs-sweep_each now (u ∷ us) db un =
      runs-sweep_each now us (sweep_one now u db).0 (sweep_one-UniqueIds now u db un)
      ∙ ap (update_runs (listed now us) (swept now)) (runs-sweep_one now u db un)
      ∙ listed_rows now u us db.runs

  -- Sweep with no other replica at work, over a table with unique ids: the runs that were running
  -- with a lease before now() are reset to pending, with no lease and the next generation, and
  -- every other row is as it was.
  pub sweep_exact :
      (now : ℕ) (db : Database V)
      → UniqueIds db.runs
      → (sweep now [] db).0.runs ≡ update_runs (is_expired now) (swept now) db.runs
  unfolding sweep sweep_candidates
  sweep_exact now db un =
      let ids = run_ids (keep (is_expired now) db.runs) in
      runs-sweep_each now ids db un
      ∙ update_runs-congr (listed now ids) (is_expired now) (swept now) db.runs (λ r m.
        elim (Bool-cases (is_expired now r)) [
          | inl b ↦
              rw
                (
                  b,
                  run_ids-elem r (keep (is_expired now) db.runs)
                      (keep-IsIn (is_expired now) r db.runs m b),
                )
                refl
          | inr b ↦ rw b (ground arith)
        ])
