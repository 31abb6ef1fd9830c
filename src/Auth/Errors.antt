-- ===== src/Auth/Errors.antt =====
-- Which filters internal/auth/filter.go refuses.
use langsmith_deployment_go.Prelude.{
  ℕ, ◌≡◌, refl, Bool, true, false, ◌&&◌, not, List, [], ◌∷◌, arith, Result, ok, err, guard,
  auth_error, ◌>>◌, ◌∙◌, ◌++◌, is_ok, ◌>>=◌, str_eq,
}
use langsmith_deployment_go.Sql.{Column, Arg, Cond, Conds, cond, any_of, all_of}
use langsmith_deployment_go.Auth.{
  AuthFilter, Filters, nil_filter, unknown, eq, contains, or_filter, and_filter, nil, cons, Emitted,
  emit, emit_each, join_emitted, apply_to_query, is_empty,
}

-- A filter names a non-empty key, a `contains` filter has one match, and a nested list is not
-- empty.
unfoldable mutual
  pub is_valid : AuthFilter → Bool
  is_valid nil_filter = false
  is_valid unknown = false
  is_valid (eq key match) = not (str_eq key "")
  is_valid (contains key []) = false
  is_valid (contains key (s ∷ [])) = not (str_eq key "")
  is_valid (contains key (s ∷ t ∷ ss)) = false
  is_valid (or_filter fs) = not (is_empty fs) && are_valid fs
  is_valid (and_filter fs) = not (is_empty fs) && are_valid fs

  pub are_valid : Filters → Bool
  are_valid nil = true
  are_valid (cons f fs) = is_valid f && are_valid fs

and_true : (b : Bool) → (b && true) ≡ b
and_true true = refl
and_true false = refl

and_false : (b : Bool) → (b && false) ≡ false
and_false true = refl
and_false false = refl

is_ok-join_emitted : (r : Emitted Conds) → is_ok (join_emitted r) ≡ is_ok r
is_ok-join_emitted (ok (cs, args, next)) = refl
is_ok-join_emitted (err e) = refl

abbrev wrapped : (Conds → Cond) → Conds × List Arg × ℕ → Emitted Cond
wrapped f e = ok (f e.0, e.1, e.2)

abbrev joined : Cond → List Arg → Conds × List Arg × ℕ → Emitted Conds
joined c args q = ok (cond c q.0, args ++ q.1, q.2)

is_ok-then :
    (r : Emitted Cond) (rest : ℕ → Emitted Conds) (b d : Bool)
    → is_ok r ≡ b
    → ((j : ℕ) → is_ok (rest j) ≡ d)
    → is_ok (r >>= λ e. rest e.2 >>= λ q. joined e.0 e.1 q) ≡ (b && d)
is_ok-then (err e) rest b d h k = ground arith
is_ok-then (ok (c, args, next)) rest b d h k = ground (arith, k next)

is_ok-guard {ℓ} :
    {A : Type ℓ} (t b : Bool) (r : Result A)
    → is_ok r ≡ b
    → is_ok (guard t auth_error >> r) ≡ (t && b)
is_ok-guard true b r h = h
is_ok-guard false b r h = refl

is_ok-wrap :
    (r : Emitted Conds) (b : Bool) (f : Conds → Cond)
    → is_ok r ≡ b
    → is_ok (r >>= λ e. wrapped f e) ≡ b
is_ok-wrap (ok e) b f h = h
is_ok-wrap (err e) b f h = h

mutual
  unfolding emit emit_each is_valid are_valid

  is_ok-emit : (f : AuthFilter) (col : Column) (i : ℕ) → is_ok (emit f col i) ≡ is_valid f
  is_ok-emit nil_filter col i = refl
  is_ok-emit unknown col i = refl
  is_ok-emit (eq key match) col i = is_ok-guard (not (str_eq key "")) true _ refl ∙ and_true _
  is_ok-emit (contains key []) col i = is_ok-guard (not (str_eq key "")) false _ refl ∙ and_false _
  is_ok-emit (contains key (s ∷ [])) col i =
      is_ok-guard (not (str_eq key "")) true _ refl ∙ and_true _
  is_ok-emit (contains key (s ∷ t ∷ ss)) col i =
      is_ok-guard (not (str_eq key "")) false _ refl ∙ and_false _
  is_ok-emit (or_filter fs) col i =
      is_ok-guard (not (is_empty fs)) (are_valid fs) _
        (is_ok-wrap (emit_each fs col i) (are_valid fs) any_of (is_ok-emit_each fs col i))
  is_ok-emit (and_filter fs) col i =
      is_ok-guard (not (is_empty fs)) (are_valid fs) _
        (is_ok-wrap (emit_each fs col i) (are_valid fs) all_of (is_ok-emit_each fs col i))

  is_ok-emit_each :
      (fs : Filters) (col : Column) (i : ℕ) → is_ok (emit_each fs col i) ≡ are_valid fs
  is_ok-emit_each nil col i = refl
  is_ok-emit_each (cons f fs) col i =
      is_ok-then (emit f col i) (λ j. emit_each fs col j) (is_valid f) (are_valid fs)
        (is_ok-emit f col i) (λ j. is_ok-emit_each fs col j)

-- ApplyToQuery returns an error exactly when one of the filters, at any depth, is nil, is of an
-- unknown kind, has an empty key, is a `contains` filter without exactly one match, or is an OR or
-- an AND of nothing.
pub is_ok-apply_to_query :
    (fs : Filters) (col : Column) (start : ℕ) → is_ok (apply_to_query fs col start) ≡ are_valid fs
unfolding apply_to_query
is_ok-apply_to_query fs col start =
    is_ok-join_emitted (emit_each fs col start) ∙ is_ok-emit_each fs col start
