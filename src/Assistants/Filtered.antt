-- ===== src/Assistants/Filtered.antt =====
-- SetLatest of internal/assistants/store.go under filters.
use langsmith_deployment_go.Prelude.{
  ℕ, zero, suc, ◌+◌, ◌≤◌, ◌<◌, String, ◌≡◌, refl, ◌∙◌, Bool, true, false, not, Option, List, [],
  ◌∷◌, ◌++◌, arith, str_eq, length, ◌==◌, inl, inr, ok, err, database, auth_error, guard, ◌>>=◌,
  ◌>>◌, length-append, range_from,
}
use langsmith_deployment_go.Sql.{
  Postgres, Column, own_metadata, Arg, Cond, Conds, cond, any_of, all_of,
}
use langsmith_deployment_go.Auth.{
  AuthFilter, nil_filter, unknown, eq, contains, or_filter, and_filter, Filters, nil, cons, Emitted,
  join_emitted, emit, emit_each, apply_to_query,
}
use langsmith_deployment_go.Auth.Errors.{are_valid, is_ok-apply_to_query}
use langsmith_deployment_go.Auth.Meaning.{apply_to_query_numbering}
use langsmith_deployment_go.Runs.Model.{Database}
use langsmith_deployment_go.Runs.Creating.{OnOk, OnOk-then, Result-cases, value_of}
use langsmith_deployment_go.Assistants.Patch.{larger}
use langsmith_deployment_go.Assistants.Latest.{
  parameter_count, is_accepted, latest_statement, set_latest,
}

-- A fragment that is emitted with at least one argument.
abbrev Sends : {F : Type 0} → Emitted F → Type 0
Sends r = OnOk (λ e. 1 ≤ length e.1) r

Sends-guard : {F : Type 0} (t : Bool) (r : Emitted F) → Sends r → Sends (guard t auth_error >> r)
Sends-guard true r h = h
Sends-guard false r h = tt

Sends-wrap :
    (r : Emitted Conds) (f : Conds → Cond) → Sends r → Sends (r >>= λ e. ok (f e.0, e.1, e.2))
Sends-wrap (ok e) f h = h
Sends-wrap (err e) f h = tt

Sends-then :
    (r : Emitted Cond) (rest : ℕ → Emitted Conds)
    → Sends r
    → Sends (r >>= λ e. rest e.2 >>= λ q. ok (cond e.0 q.0, e.1 ++ q.1, q.2))
Sends-then (err e) rest h = tt
Sends-then (ok (c, args, next)) rest h =
    OnOk-then (λ e. 1 ≤ length e.1) (rest next) _ (λ q _. rw length-append (omega (arith, h)))

emit-Sends : (f : AuthFilter) (col : Column) (i : ℕ) → Sends (emit f col i)
unfolding emit emit_each
emit-Sends nil_filter col i = tt
emit-Sends unknown col i = tt
emit-Sends (eq key match) col i = Sends-guard (not (str_eq key "")) _ (omega arith)
emit-Sends (contains key []) col i = Sends-guard (not (str_eq key "")) _ tt
emit-Sends (contains key (s ∷ [])) col i = Sends-guard (not (str_eq key "")) _ (omega arith)
emit-Sends (contains key (s ∷ t ∷ ss)) col i = Sends-guard (not (str_eq key "")) _ tt
emit-Sends (or_filter nil) col i = tt
emit-Sends (or_filter (cons f fs)) col i =
    Sends-wrap (emit_each (cons f fs) col i) any_of
      (Sends-then (emit f col i) (λ j. emit_each fs col j) (emit-Sends f col i))
emit-Sends (and_filter nil) col i = tt
emit-Sends (and_filter (cons f fs)) col i =
    Sends-wrap (emit_each (cons f fs) col i) all_of
      (Sends-then (emit f col i) (λ j. emit_each fs col j) (emit-Sends f col i))

emit_each-Sends :
    (f : AuthFilter) (fs : Filters) (col : Column) (i : ℕ) → Sends (emit_each (cons f fs) col i)
unfolding emit_each
emit_each-Sends f fs col i =
    Sends-then (emit f col i) (λ j. emit_each fs col j) (emit-Sends f col i)

joined-Sends : (r : Emitted Conds) → Sends r → OnOk (λ e. 1 ≤ length e.1) (join_emitted r)
joined-Sends (ok (cs, args, next)) h = h
joined-Sends (err e) h = tt

-- Filters that are expanded, and are not empty, send an argument.
apply_to_query-Sends :
    (f : AuthFilter) (fs : Filters) (col : Column) (start : ℕ)
    → OnOk (λ e. 1 ≤ length e.1) (apply_to_query (cons f fs) col start)
unfolding apply_to_query
apply_to_query-Sends f fs col start =
    joined-Sends (emit_each (cons f fs) col start) (emit_each-Sends f fs col start)

parameter_count-range_from : (s n : ℕ) → parameter_count (range_from (suc s) n) < suc s + n
parameter_count-range_from s zero = omega arith
parameter_count-range_from s (suc n) = ground (arith, parameter_count-range_from (suc s) n)

too_few : (n k : ℕ) → k < 2 + n → 1 ≤ n → (larger 1 (larger 2 k) == suc (suc n)) ≡ false
too_few n k h p = ground (arith, h, p)

module _ {V : Type 0} (pg : Postgres V) where
  is_accepted-filtered :
      (f : AuthFilter) (fs : Filters) (id : String) (n : ℕ) (e : Option Cond × List Arg)
      → apply_to_query (cons f fs) own_metadata 2 ≡ ok e
      → is_accepted id n e ≡ false
  is_accepted-filtered f fs id n e emitted =
      let some_sent =
        value_of (λ (x : Option Cond × List Arg). 1 ≤ length x.1)
          (apply_to_query-Sends f fs own_metadata 2) emitted in
      rw (apply_to_query_numbering (cons f fs) own_metadata 2 emitted) (
        too_few (length e.1) (parameter_count (range_from 2 (length e.1)))
          (parameter_count-range_from 1 (length e.1)) some_sent)

  -- SetLatest with well-formed filters, at least one, answers an error of the database and changes
  -- nothing, whatever the tables hold and whatever the filters allow.
  pub set_latest-filtered :
      (db : Database V) (id : String) (n : ℕ) (f : AuthFilter) (fs : Filters)
      → are_valid (cons f fs) ≡ true
      → set_latest pg db id n (cons f fs) ≡ (err database, db)
  unfolding set_latest latest_statement
  set_latest-filtered db id n f fs valid =
      elim (Result-cases (apply_to_query (cons f fs) own_metadata 2)) [
        | inr (e, emitted) ↦ rw (emitted, is_accepted-filtered f fs id n e emitted) refl
        | inl (x, refused) ↦
            let said = is_ok-apply_to_query (cons f fs) own_metadata 2 ∙ valid in
            absurd (ground (arith, (rw refused at said)))
      ]
