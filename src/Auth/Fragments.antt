-- ===== src/Auth/Fragments.antt =====
-- emit and joinNested of internal/auth/filter.go, one filter at a time: the truth value and the
-- numbering of each fragment.
use native.Mathlib.Nat.{add-zero}
use native.Mathlib.Numerals.{add-one}
use langsmith_deployment_go.Prelude.{
  ℕ, ◌+◌, String, ◌≡◌, refl, ap₂, none, some, List, [], ◌∷◌, ◌++◌, arith, Bool, true, false, ◌&&◌,
  ◌||◌, ok, err, length, length-append, range_from, range_from-append, ◌>>=◌, Option-cases, str_eq,
  inl, inr, guard, auth_error, ◌>>◌, not,
}
use langsmith_deployment_go.Sql.{
  Postgres, Column, Datum, json, Arg, text_arg, json_arg, Param, Cond, Conds, cond, has_entry,
  entry_has, all_of, any_of, passes, eval, eval_all, eval_any,
}
use langsmith_deployment_go.Auth.{
  AuthFilter, Filters, nil_filter, unknown, eq, contains, or_filter, and_filter, nil, cons, Emitted,
  emit, emit_each, is_empty,
}
use langsmith_deployment_go.Auth.Parameters.{
  placeholders, placeholders_each, Loaded, Loaded-append, passes-and, passes-or,
}

module _ {V : Type 0} (pg : Postgres V) where
  -- The policy that a filter states of a metadata document, with no SQL in it.
  unfoldable mutual
    pub allows : AuthFilter → V → Bool
    allows nil_filter m = false
    allows unknown m = false
    allows (eq key match) m = elim (pg.parse match) [
      | none ↦ false
      | some w ↦ pg.contains m (pg.build ((key, w) ∷ []))
    ]
    allows (contains key []) m = false
    allows (contains key (s ∷ [])) m = elim (pg.parse s) [
      | none ↦ false
      | some w ↦ elim (pg.field m key) [ none ↦ false | some x ↦ pg.contains x w ]
    ]
    allows (contains key (s ∷ t ∷ ss)) m = false
    allows (or_filter fs) m = allows_any fs m
    allows (and_filter fs) m = allows_all fs m

    pub allows_all : Filters → V → Bool
    allows_all nil m = true
    allows_all (cons f fs) m = allows f m && allows_all fs m

    pub allows_any : Filters → V → Bool
    allows_any nil m = false
    allows_any (cons f fs) m = allows f m || allows_any fs m

module _ {V : Type 0} (pg : Postgres V) (row : Column → Datum V) where
  -- What an emitted fragment owes: its numbering, and the truth value it has at `row`.
  abbrev pub FragmentIs : Bool → ℕ → Emitted Cond → Type 0
  FragmentIs b i (err e) = Unit
  FragmentIs b i (ok (c, args, next)) =
      (next ≡ i + length args)
      × (placeholders c ≡ range_from i (length args))
      × ((ps : List (Param V)) → Loaded pg args i ps → passes (eval pg c row ps) ≡ b)

  abbrev pub PartsAre : Bool → Bool → ℕ → Emitted Conds → Type 0
  PartsAre b d i (err e) = Unit
  PartsAre b d i (ok (cs, args, next)) =
      (next ≡ i + length args)
      × (placeholders_each cs ≡ range_from i (length args))
      × ((ps : List (Param V))
          → Loaded pg args i ps
          → (passes (eval_all pg cs row ps) ≡ b) × (passes (eval_any pg cs row ps) ≡ d))

  any_of-FragmentIs :
      (t b d : Bool) (i : ℕ) (r : Emitted Conds)
      → PartsAre b d i r
      → FragmentIs d i (guard t auth_error >> (r >>= λ e. ok (any_of e.0, e.1, e.2)))
  unfolding placeholders eval
  any_of-FragmentIs false b d i r h = tt
  any_of-FragmentIs true b d i (err e) h = tt
  any_of-FragmentIs true b d i (ok (cs, args, next)) (n, p, v) = (n, p, λ ps l. (v ps l).1)

  all_of-FragmentIs :
      (t b d : Bool) (i : ℕ) (r : Emitted Conds)
      → PartsAre b d i r
      → FragmentIs b i (guard t auth_error >> (r >>= λ e. ok (all_of e.0, e.1, e.2)))
  unfolding placeholders eval
  all_of-FragmentIs false b d i r h = tt
  all_of-FragmentIs true b d i (err e) h = tt
  all_of-FragmentIs true b d i (ok (cs, args, next)) (n, p, v) = (n, p, λ ps l. (v ps l).0)

  -- One more filter before the parts of the others.
  cons-PartsAre :
      (a b d : Bool) (i : ℕ) (c : Cond) (args : List Arg)
      → FragmentIs a i (ok (c, args, i + length args))
      → (r : Emitted Conds) → PartsAre b d (i + length args) r
      → PartsAre (a && b) (a || d) i (r >>= λ q. ok (cond c q.0, args ++ q.1, q.2))
  unfolding placeholders eval
  cons-PartsAre a b d i c args h (err e) k = tt
  cons-PartsAre a b d i c args (n, p, v) (ok (cs, args', next')) (n', p', v') = (
    omega (arith, n', length-append args args'),
    rw (length-append, range_from-append) (ap₂ ◌++◌ p p'),
    λ ps l.
        let (l1, l2) = Loaded-append pg args args' i ps l in
        let (va, vo) = v' ps l2 in
        (rw passes-and (ap₂ ◌&&◌ (v ps l1) va), rw passes-or (ap₂ ◌||◌ (v ps l1) vo)),
  )

  then-PartsAre :
      (a b d : Bool) (i : ℕ) (r : Emitted Cond) (rest : ℕ → Emitted Conds)
      → FragmentIs a i r
      → ((j : ℕ) → PartsAre b d j (rest j))
      → PartsAre
          (a && b)
          (a || d)
          i
          (r >>= λ e. rest e.2 >>= λ q. ok (cond e.0 q.0, e.1 ++ q.1, q.2))
  then-PartsAre a b d i (err e) rest h k = tt
  then-PartsAre a b d i (ok (c, args, next)) rest (n, p, v) k =
      rw n
        (cons-PartsAre a b d i c args (refl, p, v) (rest (i + length args)) (k (i + length args)))

  guard-FragmentIs :
      (t b : Bool) (i : ℕ) (r : Emitted Cond)
      → FragmentIs b i r
      → FragmentIs b i (guard t auth_error >> r)
  guard-FragmentIs true b i r h = h
  guard-FragmentIs false b i r h = tt

  module _ (col : Column) (m : V) (at_col : row col ≡ json m) where
    has_entry_value :
        (key match : String) (i : ℕ) (ps : List (Param V))
        → Loaded pg (text_arg key ∷ json_arg match ∷ []) i ps
        → passes (eval pg (has_entry col i (i + 1)) row ps) ≡ allows pg (eq key match) m
    unfolding eval allows
    has_entry_value key match i ps (p, c, l, rest) =
        let (q, d, l', _) = rest in
        rw (at_col, add-one, l, l')
          (elim (Option-cases (pg.parse match)) [
            | inl none_ ↦ absurd (ground (arith, none_))
            | inr (w, e) ↦ ground (arith, e)
          ])

    entry_has_value :
        (key s : String) (i : ℕ) (ps : List (Param V))
        → Loaded pg (text_arg key ∷ json_arg s ∷ []) i ps
        → passes (eval pg (entry_has col i (i + 1)) row ps) ≡ allows pg (contains key (s ∷ [])) m
    unfolding eval allows
    entry_has_value key s i ps (p, c, l, rest) =
        let (q, d, l', _) = rest in
        rw (at_col, add-one, l, l')
          (elim (Option-cases (pg.parse s)) [
            | inl none_ ↦ absurd (ground (arith, none_))
            | inr (w, e) ↦ ground (arith, e)
          ])

    pair_range : (i : ℕ) → i ∷ (i + 1) ∷ [] ≡ range_from i 2
    pair_range i = rw add-one

    mutual
      unfolding emit emit_each allows placeholders eval

      emit-FragmentIs : (f : AuthFilter) (i : ℕ) → FragmentIs (allows pg f m) i (emit f col i)
      emit-FragmentIs nil_filter i = tt
      emit-FragmentIs unknown i = tt
      emit-FragmentIs (eq key match) i =
          guard-FragmentIs (not (str_eq key "")) _ i _
            (refl, pair_range i, has_entry_value key match i)
      emit-FragmentIs (contains key []) i = guard-FragmentIs (not (str_eq key "")) _ i _ tt
      emit-FragmentIs (contains key (s ∷ [])) i =
          guard-FragmentIs (not (str_eq key "")) _ i _ (refl, pair_range i, entry_has_value key s i)
      emit-FragmentIs (contains key (s ∷ t ∷ ss)) i =
          guard-FragmentIs (not (str_eq key "")) _ i _ tt
      emit-FragmentIs (or_filter fs) i =
          any_of-FragmentIs (not (is_empty fs)) (allows_all pg fs m) (allows_any pg fs m) i
            (emit_each fs col i) (emit_each-PartsAre fs i)
      emit-FragmentIs (and_filter fs) i =
          all_of-FragmentIs (not (is_empty fs)) (allows_all pg fs m) (allows_any pg fs m) i
            (emit_each fs col i) (emit_each-PartsAre fs i)

      pub emit_each-PartsAre :
          (fs : Filters) (i : ℕ)
          → PartsAre (allows_all pg fs m) (allows_any pg fs m) i (emit_each fs col i)
      emit_each-PartsAre nil i = (rw add-zero, refl, λ ps l. (refl, refl))
      emit_each-PartsAre (cons f fs) i =
          then-PartsAre (allows pg f m) (allows_all pg fs m) (allows_any pg fs m) i (emit f col i)
            (λ j. emit_each fs col j) (emit-FragmentIs f i) (λ j. emit_each-PartsAre fs j)
