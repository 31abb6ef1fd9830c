-- ===== src/Runs/Creating.antt =====
-- Create of internal/runs/store.go: what a successful transaction has checked and written.
use mathlib.Core.Bool.{false≢true}
use langsmith_deployment_go.Prelude.{
  ℕ, String, ◌≡◌, refl, sym, ap, ◌∙◌, subst, Bool, true, false, not, ◌||◌, Option, none, some, List,
  [], ◌∷◌, arith, str_eq, eq_iff, any, keep, find?, if◌then◌else◌, ◌⊎◌, inl, inr, Bool-cases, Error,
  Result, ok, err, not_found, inflight, database, from_option, guard, ◌>>=◌, ◌>>◌,
}
use langsmith_deployment_go.Sql.{Postgres}
use langsmith_deployment_go.Auth.{Filters}
use langsmith_deployment_go.Runs.Model.{
  Run, Thread, Assistant, Database, has_run_id, has_thread_id, has_assistant_id,
}
use langsmith_deployment_go.Runs.Lease.{run_ids}
use langsmith_deployment_go.Runs.Create.{
  CreateRunInput, CreateResult, or_default, strategy_of, creates_thread, json_of, uuid_of,
  request_config, assistant_exists, thread_visible, ensure_thread, occupy_thread, is_inflight,
  check_inflight,
}
use langsmith_deployment_go.Runs.Insert.{
  committed, new_run, optional_json, run_id_of, insert_run, create_steps,
}

-- A property of the value, if there is one.
abbrev pub OnOk {ℓ} : {A : Type ℓ} → (A → Type 0) → Result A → Type 0
OnOk p (ok a) = p a
OnOk p (err e) = Unit

pub Result-cases {ℓ} :
    {A : Type ℓ} (r : Result A) → ((e : Error) × (r ≡ err e)) ⊎ ((a : A) × (r ≡ ok a))
Result-cases (ok a) = inr (a, refl)
Result-cases (err e) = inl (e, refl)

-- It holds after a step if it holds whatever value the step gives.
pub OnOk-then {ℓ κ} :
    {A : Type ℓ} {B : Type κ} (p : B → Type 0) (m : Result A) (f : A → Result B)
    → ((a : A) → m ≡ ok a → OnOk p (f a))
    → OnOk p (m >>= f)
OnOk-then p (ok a) f h = h a refl
OnOk-then p (err e) f h = tt

pub OnOk-check {κ} :
    {B : Type κ} (p : B → Type 0) (t : Bool) (e : Error) (m : Result B)
    → (t ≡ true → OnOk p m)
    → OnOk p (guard t e >> m)
OnOk-check p true e m h = h refl
OnOk-check p false e m h = tt

-- What holds of a result that is there holds of its value.
pub value_of {ℓ} : {A : Type ℓ} (p : A → Type 0) {r : Result A} {a : A} → OnOk p r → r ≡ ok a → p a
value_of p h e = subst (OnOk p) e h

find?-holds :
    {A : Type 0} (p : A → Bool) (xs : List A) (x : A)
    → from_option database (find? p xs) ≡ ok x
    → p x ≡ true
find?-holds p [] x h = absurd (ground (arith, h))
find?-holds p (y ∷ ys) x h = elim (Bool-cases (p y)) [
  | inl b ↦ let e : y ≡ x = ground (arith, b, h) in ap p (sym e) ∙ b
  | inr b ↦ find?-holds p ys x (rw b at h)
]

module _ {V : Type 0} (pg : Postgres V) where
  -- What the last statement writes: one more run, under an id that was free, on a thread that is
  -- there, neither claimed nor leased.
  abbrev pub Inserted : Database V → String → Run V × Database V → Type 0
  Inserted db thread (r, db') =
      (db'.runs ≡ r ∷ db.runs)
      × (any (has_run_id r.run_id) db.runs ≡ false)
      × (r.attempt ≡ 0)
      × (r.lease_generation ≡ 0)
      × (r.thread_id ≡ thread)

  not_taken : (b : Bool) → not b ≡ true → b ≡ false
  not_taken b h = ground arith

  insert_run-Inserted :
      (now : ℕ) (db : Database V) (fresh : String) (i : CreateRunInput)
      (thread assistant kwargs metadata : String)
      → OnOk (Inserted db thread) (insert_run pg now db fresh i thread assistant kwargs metadata)
  unfolding insert_run
  insert_run-Inserted now db fresh i thread assistant kwargs metadata =
      let P = Inserted db thread in
      OnOk-then P (run_id_of pg i.run_id fresh) _ (λ u _. OnOk-then P (json_of pg kwargs) _ (λ k _.
        OnOk-then P (json_of pg metadata) _ (λ m _.
          OnOk-then P (optional_json pg i.encryption_context) _ (λ enc _.
            OnOk-then P (from_option database (find? (has_assistant_id assistant) db.assistants)) _
              (λ a _.
                OnOk-then P (from_option database (find? (has_thread_id thread) db.threads)) _
                  (λ t found.
                    OnOk-check P (not (any (has_run_id u) db.runs)) database
                      (let r = new_run pg now i u t a k m enc in
                        ok (r, record db { runs = r ∷ db.runs }))
                      (λ free. (refl, not_taken _ free, refl, refl, has_its_id t found))))))))
    where
      has_its_id :
          (t : Thread V)
          → from_option database (find? (has_thread_id thread) db.threads) ≡ ok t
          → t.thread_id ≡ thread
      has_its_id t found =
          (eq_iff t.thread_id thread).0 (find?-holds (has_thread_id thread) db.threads t found)

  ensure_thread-runs :
      (now : ℕ) (db : Database V) (thread : String) (i : CreateRunInput) (kwargs metadata : String)
      (filters : Filters)
      → OnOk
          (λ (d : Database V). d.runs ≡ db.runs)
          (ensure_thread pg now db thread i kwargs metadata filters)
  unfolding ensure_thread
  ensure_thread-runs now db thread i kwargs metadata filters =
      let P = λ (d : Database V). d.runs ≡ db.runs in
      OnOk-then P (thread_visible pg db thread filters) _ (λ seen _. elim (Bool-cases seen) [
        | inl b ↦ rw b refl
        | inr b ↦ rw b (
            OnOk-check P (creates_thread i) not_found _ (λ _.
              OnOk-then P (uuid_of pg thread) _ (λ u _.
                OnOk-then P (uuid_of pg i.assistant_id) _
                  (λ a _. OnOk-then P (json_of pg metadata) _ (λ m _. refl)))))
      ])

  occupy_thread-runs :
      (db : Database V) (u : String) (a : Option (Assistant V)) (config : V)
      → (occupy_thread pg db u a config).runs ≡ db.runs
  unfolding occupy_thread
  occupy_thread-runs db u none config = refl
  occupy_thread-runs db u (some a) config = refl

  -- The runs of the thread that the strategy looks for, in a table of runs.
  abbrev pub Displaces : List (Run V) → String → String → List String → Type 0
  Displaces rs thread strategy ids =
      (strategy ≡ "reject" → any (is_inflight pg thread) rs ≡ false)
      × (strategy ≡ "interrupt" → ids ≡ run_ids (keep (is_inflight pg thread) rs))
      × (strategy ≡ "rollback" → ids ≡ run_ids (keep (is_inflight pg thread) rs))

  check_inflight-Displaces :
      (db : Database V) (thread strategy : String)
      → OnOk (Displaces db.runs thread strategy) (check_inflight pg db thread strategy)
  unfolding check_inflight
  check_inflight-Displaces db thread strategy =
      let P = Displaces db.runs thread strategy in
      let rejects = str_eq strategy "reject" in
      elim (Bool-cases (str_eq strategy "reject")) [
        | inl b ↦
            let s : strategy ≡ "reject" = (eq_iff strategy "reject").0 b in
            rw b (
              OnOk-check P (not (any (is_inflight pg thread) db.runs)) inflight (ok []) (λ free. (
                λ _. not_taken _ free,
                λ e. absurd (two_texts "reject" "interrupt" strategy refl s e),
                λ e. absurd (two_texts "reject" "rollback" strategy refl s e),
              )))
        | inr b ↦
            rw b (elim (Bool-cases (str_eq strategy "rollback" || str_eq strategy "interrupt")) [
              | inl c ↦ rw c (
                λ e. absurd (false≢true (sym b ∙ (eq_iff strategy "reject").1 e)),
                λ _. refl,
                λ _. refl,
              )
              | inr c ↦ rw c (
                λ e. absurd (false≢true (sym b ∙ (eq_iff strategy "reject").1 e)),
                λ e. absurd (listed strategy (inr e) c),
                λ e. absurd (listed strategy (inl e) c),
              )
            ])
      ]
    where
      two_texts : (a b s : String) → str_eq a b ≡ false → s ≡ a → s ≡ b → ⊥
      two_texts a b s h e d = false≢true (sym h ∙ (eq_iff a b).1 (sym e ∙ d))

      listed :
          (s : String)
          → (s ≡ "rollback") ⊎ (s ≡ "interrupt")
          → (str_eq s "rollback" || str_eq s "interrupt") ≡ false
          → ⊥
      listed s (inl e) h =
          false≢true (sym h ∙ ap (λ t. str_eq t "rollback" || str_eq t "interrupt") e)
      listed s (inr e) h =
          false≢true (sym h ∙ ap (λ t. str_eq t "rollback" || str_eq t "interrupt") e)

  -- What Create has checked and written when it succeeds.
  abbrev pub Created : Database V → CreateRunInput → CreateResult V × Database V → Type 0
  Created db i (res, db') =
      (db'.runs ≡ res.run ∷ db.runs)
      × (any (has_run_id res.run.run_id) db.runs ≡ false)
      × (res.run.attempt ≡ 0)
      × (res.run.lease_generation ≡ 0)
      × Displaces db.runs res.run.thread_id (strategy_of i) res.inflight_run_ids

  pub create_steps-Created :
      (now : ℕ) (db : Database V) (fresh_thread fresh_run : String) (i : CreateRunInput)
      (thread_filters assistant_filters : Filters)
      → OnOk
          (Created db i)
          (create_steps pg now db fresh_thread fresh_run i thread_filters assistant_filters)
  unfolding create_steps
  create_steps-Created now db fresh_thread fresh_run i thread_filters assistant_filters =
      let P = Created db i in
      let kwargs = or_default "{}" i.kwargs_json in
      let metadata = or_default "{}" i.metadata in
      let thread = if str_eq i.thread_id "" then fresh_thread else i.thread_id in
      OnOk-then P (assistant_exists pg db i.assistant_id assistant_filters) _ (λ found _.
        OnOk-check P found not_found _ (λ _.
          OnOk-then P (ensure_thread pg now db thread i kwargs metadata thread_filters) _ (λ db1 e1.
            OnOk-then P (uuid_of pg thread) _ (λ t _.
              OnOk-then P (uuid_of pg i.assistant_id) _ (λ a _.
                let db2 =
                  occupy_thread pg db1 t (find? (has_assistant_id a) db1.assistants)
                    (request_config pg kwargs) in
                let same : db2.runs ≡ db.runs =
                  occupy_thread-runs db1 t (find? (has_assistant_id a) db1.assistants)
                    (request_config pg kwargs)
                  ∙ value_of (λ (d : Database V). d.runs ≡ db.runs)
                      (ensure_thread-runs now db thread i kwargs metadata thread_filters) e1 in
                OnOk-then P (check_inflight pg db2 t (strategy_of i)) _ (λ ids e2.
                  OnOk-then P (insert_run pg now db2 fresh_run i t a kwargs metadata) _ (λ out e3.
                    let (r, f, at', g, th) =
                      value_of (Inserted db2 t)
                        (insert_run-Inserted now db2 fresh_run i t a kwargs metadata) e3 in
                    let d =
                      value_of (Displaces db2.runs t (strategy_of i))
                        (check_inflight-Displaces db2 t (strategy_of i)) e2 in
                    (
                      r ∙ ap (λ rs. out.0 ∷ rs) same,
                      subst (λ rs. any (has_run_id out.0.run_id) rs ≡ false) same f,
                      at',
                      g,
                      subst (λ rs. Displaces rs out.0.thread_id (strategy_of i) ids) same
                          (subst (λ u. Displaces db2.runs u (strategy_of i) ids) (sym th) d),
                    ))))))))

module _ {V : Type 0} (pg : Postgres V) where
  -- What holds of the value of a transaction holds of the database that it commits.
  pub on_committed :
      {A : Type 0} (Q : A × Database V → Type 0) (db : Database V) (r : Result (A × Database V))
      (a : A)
      → OnOk Q r
      → (committed pg db r).0 ≡ ok a
      → Q (a, (committed pg db r).1)
  on_committed Q db (err e) a q h = absurd (ground (arith, h))
  on_committed Q db (ok (b, db')) a q h =
      let e : b ≡ a = ground (arith, h) in subst (λ x. Q (x, db')) e q

  -- What holds of the database before a transaction, and of the one that it gives where it
  -- succeeds, holds after it.
  pub committed-either :
      {A : Type 0} (Q : Database V → Type 0) (db : Database V) (r : Result (A × Database V))
      → Q db
      → OnOk (λ x. Q x.1) r
      → Q (committed pg db r).1
  committed-either Q db (err e) l h = l
  committed-either Q db (ok (a, db')) l h = h
