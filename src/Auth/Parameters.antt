-- ===== src/Auth/Parameters.antt =====
-- The numbered parameters of internal/auth/filter.go: the placeholders of a condition, and which
-- parameters an argument list puts where.
use native.Mathlib.Nat.{add-zero, add-suc, suc-add}
use native.Mathlib.Numerals.{one-add}
use langsmith_deployment_go.Prelude.{
  ℕ, suc, ◌+◌, ◌≡◌, refl, Option, some, List, [], ◌∷◌, ◌++◌, arith, Bool, ◌&&◌, ◌||◌, length,
  Option-cases, subst, inl, inr,
}
use langsmith_deployment_go.Sql.{
  Postgres, Arg, Param, Cond, Conds, end, cond, uuid_is, is_any, has_json, has_entry, entry_has,
  thread_exists, all_of, any_of, cast, bind, param, passes, and_null, or_null,
}

-- The placeholders of a condition, from left to right.
unfoldable mutual
  pub placeholders : Cond → List ℕ
  placeholders (uuid_is c n) = n ∷ []
  placeholders (is_any c n) = n ∷ []
  placeholders (has_json c n) = n ∷ []
  placeholders (has_entry c k v) = k ∷ v ∷ []
  placeholders (entry_has c k v) = k ∷ v ∷ []
  placeholders (thread_exists c) = placeholders c
  placeholders (all_of cs) = placeholders_each cs
  placeholders (any_of cs) = placeholders_each cs

  pub placeholders_each : Conds → List ℕ
  placeholders_each end = []
  placeholders_each (cond c cs) = placeholders c ++ placeholders_each cs

pub passes-and : (a b : Option Bool) → passes (and_null a b) ≡ (passes a && passes b)
passes-and a b = ground arith

pub passes-or : (a b : Option Bool) → passes (or_null a b) ≡ (passes a || passes b)
passes-or a b = ground arith

module _ {V : Type 0} (pg : Postgres V) where
  -- The parameters from number `i` on are the casts of these arguments.
  abbrev pub Loaded : List Arg → ℕ → List (Param V) → Type 0
  Loaded [] i ps = Unit
  Loaded (a ∷ as') i ps =
      (p : Param V) × (cast pg a ≡ some p) × (param i ps ≡ some p) × Loaded as' (suc i) ps

  pub Loaded-append :
      (xs ys : List Arg) (i : ℕ) (ps : List (Param V))
      → Loaded (xs ++ ys) i ps
      → Loaded xs i ps × Loaded ys (i + length xs) ps
  Loaded-append [] ys i ps h = (tt, rw add-zero h)
  Loaded-append (x ∷ xs) ys i ps (p, c, l, h) =
      let (a, b) = Loaded-append xs ys (suc i) ps h in ((p, c, l, a), rw add-suc (rw suc-add at b))

  Loaded-skip :
      (x : Param V) (as' : List Arg) (i : ℕ) (ps : List (Param V))
      → Loaded as' (suc i) ps
      → Loaded as' (suc (suc i)) (x ∷ ps)
  Loaded-skip x [] i ps h = tt
  Loaded-skip x (a ∷ as') i ps (p, c, l, h) = (p, c, l, Loaded-skip x as' (suc i) ps h)

  bind-cons :
      (a : Arg) (as' : List Arg) {ps : List (Param V)}
      → bind pg (a ∷ as') ≡ some ps
      → (p : Param V) × (qs : List (Param V)) × (cast pg a ≡ some p)
        × (bind pg as' ≡ some qs)
        × (p ∷ qs ≡ ps)
  bind-cons a as' h = elim (Option-cases (cast pg a)) [
    | inl c ↦ absurd (ground (arith, c))
    | inr (p, c) ↦ elim (Option-cases (bind pg as')) [
      | inl b ↦ absurd (ground (arith, c, b))
      | inr (qs, b) ↦ (p, qs, c, b, ground (arith, c, b))
    ]
  ]

  pub Loaded-bind : (as' : List Arg) (ps : List (Param V)) → bind pg as' ≡ some ps → Loaded as' 1 ps
  Loaded-bind [] ps h = tt
  Loaded-bind (a ∷ as') ps h =
      let (p, qs, c, b, e) = bind-cons a as' h in
      subst (Loaded (a ∷ as') 1) e (p, c, refl, Loaded-skip p as' 0 qs (Loaded-bind as' qs b))

  pub Loaded-between :
      (pre args post : List Arg) (ps : List (Param V))
      → bind pg (pre ++ (args ++ post)) ≡ some ps
      → Loaded args (suc (length pre)) ps
  Loaded-between pre args post ps h =
      let all = Loaded-bind (pre ++ (args ++ post)) ps h in
      let mid = (Loaded-append pre (args ++ post) 1 ps all).1 in
      (Loaded-append args post (suc (length pre)) ps (rw one-add at mid)).0
