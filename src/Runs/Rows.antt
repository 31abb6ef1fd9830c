-- ===== src/Runs/Rows.antt =====
-- The run table under UPDATE: which rows it holds, and the ids that name one row each.
use mathlib.Core.Bool.{false≢true}
use langsmith_deployment_go.Prelude.{
  map-elem, elem-map, String, ◌≡◌, refl, sym, ap, Bool, true, false, List, [], ◌∷◌, elem,
  if◌then◌else◌, inl, inr, IsIn, Bool-cases, ◌∙◌,
}
use langsmith_deployment_go.Runs.Model.{Run, is_running, update_runs}
use langsmith_deployment_go.Runs.Lease.{run_ids}

module _ {V : Type 0} where
  -- run_pkey: an id names one row.
  pub record UniqueIds (rs : List (Run V)) : Type 0 where
    pub same : (x y : Run V) → IsIn x rs → IsIn y rs → x.run_id ≡ y.run_id → x ≡ y

  -- At most one run of a thread is running.
  pub record IsIsolated (rs : List (Run V)) : Type 0 where
    pub single :
        (x y : Run V)
        → IsIn x rs
        → IsIn y rs
        → is_running x.status ≡ true
        → is_running y.status ≡ true
        → x.thread_id ≡ y.thread_id
        → x.run_id ≡ y.run_id

  pub IsIn-update_runs :
      (p : Run V → Bool) (f : Run V → Run V) (y : Run V) (rs : List (Run V))
      → IsIn y (update_runs p f rs)
      → (x : Run V) × IsIn x rs × (y ≡ (if p x then f x else x))
  IsIn-update_runs p f y [] m = absurd m
  IsIn-update_runs p f y (r ∷ rs) (inl e) = (r, inl refl, e)
  IsIn-update_runs p f y (r ∷ rs) (inr k) =
      let (x, m, e) = IsIn-update_runs p f y rs k in (x, inr m, e)

  pub update_runs-IsIn :
      (p : Run V → Bool) (f : Run V → Run V) (x : Run V) (rs : List (Run V))
      → IsIn x rs
      → IsIn (if p x then f x else x) (update_runs p f rs)
  update_runs-IsIn p f x [] m = absurd m
  update_runs-IsIn p f x (r ∷ rs) (inl e) = inl (rw e)
  update_runs-IsIn p f x (r ∷ rs) (inr k) = inr (update_runs-IsIn p f x rs k)

  pub update_runs-none :
      (p : Run V → Bool) (f : Run V → Run V) (rs : List (Run V))
      → ((r : Run V) → p r ≡ false)
      → update_runs p f rs ≡ rs
  update_runs-none p f [] h = refl
  update_runs-none p f (r ∷ rs) h = rw (h r, update_runs-none p f rs h)

  pub elem-run_ids :
      (u : String) (rows : List (Run V))
      → elem u (run_ids rows) ≡ true
      → (r : Run V) × IsIn r rows × (r.run_id ≡ u)
  elem-run_ids u rows h = map-elem (λ r. r.run_id) u rows h

  pub run_ids-elem :
      (r : Run V) (rows : List (Run V)) → IsIn r rows → elem r.run_id (run_ids rows) ≡ true
  run_ids-elem r rows m = elem-map (λ r. r.run_id) r rows m

  pub update_runs-UniqueIds :
      (p : Run V → Bool) (f : Run V → Run V) (rs : List (Run V))
      → ((r : Run V) → (f r).run_id ≡ r.run_id)
      → UniqueIds rs
      → UniqueIds (update_runs p f rs)
  update_runs-UniqueIds p f rs keeps u = record {
    same = λ x y mx my e.
        let (x0, kx, ex) = IsIn-update_runs p f x rs mx in
        let (y0, ky, ey) = IsIn-update_runs p f y rs my in
        ex
        ∙ ap (λ r. if p r then f r else r)
            (u.same x0 y0 kx ky (
              sym (same_id x0)
              ∙ ap (λ r. r.run_id) (sym ex)
              ∙ e
              ∙ ap (λ r. r.run_id) ey
              ∙ same_id y0))
        ∙ sym ey;
  }
    where
      same_id : (r : Run V) → (if p r then f r else r).run_id ≡ r.run_id
      same_id r = elim (Bool-cases (p r)) [ inl b ↦ rw b (keeps r) | inr b ↦ rw b ]

  pub update_runs-congr :
      (p q : Run V → Bool) (f : Run V → Run V) (rs : List (Run V))
      → ((r : Run V) → IsIn r rs → p r ≡ q r)
      → update_runs p f rs ≡ update_runs q f rs
  update_runs-congr p q f [] h = refl
  update_runs-congr p q f (r ∷ rs) h =
      rw (h r (inl refl), update_runs-congr p q f rs (λ x m. h x (inr m)))

  -- A new row under a new id.
  pub cons-UniqueIds :
      (r : Run V) (rs : List (Run V))
      → elem r.run_id (run_ids rs) ≡ false
      → UniqueIds rs
      → UniqueIds (r ∷ rs)
  cons-UniqueIds r rs h u = record { same = λ x y mx my e. pair x y mx my e }
    where
      fresh : (y : Run V) → IsIn y rs → r.run_id ≡ y.run_id → ⊥
      fresh y m e = false≢true (sym h ∙ ap (λ i. elem i (run_ids rs)) e ∙ run_ids-elem y rs m)

      pair : (x y : Run V) → IsIn x (r ∷ rs) → IsIn y (r ∷ rs) → x.run_id ≡ y.run_id → x ≡ y
      pair x y (inl e) (inl d) t = e ∙ sym d
      pair x y (inl e) (inr k) t = absurd (fresh y k (ap (λ w. w.run_id) (sym e) ∙ t))
      pair x y (inr m) (inl d) t = absurd (fresh x m (ap (λ w. w.run_id) (sym d) ∙ sym t))
      pair x y (inr m) (inr k) t = u.same x y m k t

  -- A new row that does not run.
  pub cons-IsIsolated :
      (r : Run V) (rs : List (Run V))
      → is_running r.status ≡ false
      → IsIsolated rs
      → IsIsolated (r ∷ rs)
  cons-IsIsolated r rs h i = record { single = λ x y mx my rx ry t. pair x y mx my rx ry t }
    where
      idle : (x : Run V) → x ≡ r → is_running x.status ≡ true → ⊥
      idle x e rx = false≢true (sym h ∙ ap (λ w. is_running w.status) (sym e) ∙ rx)

      pair :
          (x y : Run V)
          → IsIn x (r ∷ rs)
          → IsIn y (r ∷ rs)
          → is_running x.status ≡ true
          → is_running y.status ≡ true
          → x.thread_id ≡ y.thread_id
          → x.run_id ≡ y.run_id
      pair x y (inl e) my rx ry t = absurd (idle x e rx)
      pair x y (inr m) (inl d) rx ry t = absurd (idle y d ry)
      pair x y (inr m) (inr k) rx ry t = i.single x y m k rx ry t

  pub empty-UniqueIds : UniqueIds []
  empty-UniqueIds = record { same = λ x y mx my e. absurd mx }

  pub empty-IsIsolated : IsIsolated []
  empty-IsIsolated = record { single = λ x y mx my rx ry t. absurd mx }
