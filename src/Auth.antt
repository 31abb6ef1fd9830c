-- ===== src/Auth.antt =====
-- internal/auth/filter.go: AuthFilter messages become SQL conditions with numbered parameters.
-- A fragment is kept as the syntax tree of its text (`Sql.Cond`), the argument list as it is.
pub mod Parameters
pub mod Fragments
pub mod Meaning
pub mod Errors
use langsmith_deployment_go.Prelude.{
  ℕ, ◌+◌, String, Bool, true, false, Option, none, some, List, [], ◌∷◌, ◌++◌, str_eq, Result, ok,
  err, auth_error, ◌>>=◌, ◌>>◌, guard, not,
}
use langsmith_deployment_go.Sql.{
  Column, Cond, Conds, end, cond, has_entry, entry_has, all_of, any_of, Arg, text_arg, json_arg,
}

mutual
  pub data AuthFilter : Type 0 where
    -- a nil element of the list
    nil_filter : AuthFilter
    -- the oneof is not set, or holds what this version does not know
    unknown : AuthFilter
    eq : String → String → AuthFilter
    contains : String → List String → AuthFilter
    or_filter and_filter : Filters → AuthFilter

  pub data Filters : Type 0 where
    nil : Filters
    cons : AuthFilter → Filters → Filters

-- The exactly one match value of a `contains` filter.
abbrev pub only : List String → Result String
only (m ∷ []) = ok m
only _ = err auth_error

-- `len(filters) == 0`
abbrev pub is_empty : Filters → Bool
is_empty nil = true
is_empty (cons f fs) = false

-- A fragment, its arguments, and the next free placeholder.
abbrev pub Emitted : Type 0 → Type 0
Emitted F = Result (F × List Arg × ℕ)

unfoldable mutual
  pub emit : AuthFilter → Column → ℕ → Emitted Cond
  emit nil_filter col idx = err auth_error
  emit unknown col idx = err auth_error
  emit (eq key match) col idx =
      guard (not (str_eq key "")) auth_error
      >> ok (has_entry col idx (idx + 1), text_arg key ∷ json_arg match ∷ [], idx + 2)
  emit (contains key matches) col idx =
      guard (not (str_eq key "")) auth_error
      >> (only matches >>= λ m.
          ok (entry_has col idx (idx + 1), text_arg key ∷ json_arg m ∷ [], idx + 2))
  emit (or_filter fs) col idx =
      let parts = emit_each fs col idx in
      guard (not (is_empty fs)) auth_error >> (parts >>= λ e. ok (any_of e.0, e.1, e.2))
  emit (and_filter fs) col idx =
      let parts = emit_each fs col idx in
      guard (not (is_empty fs)) auth_error >> (parts >>= λ e. ok (all_of e.0, e.1, e.2))

  -- the loop of joinNested, and of ApplyToQuery
  pub emit_each : Filters → Column → ℕ → Emitted Conds
  emit_each nil col idx = ok (end, [], idx)
  emit_each (cons f fs) col idx =
      emit f col idx >>= λ e. emit_each fs col e.2 >>= λ r. ok (cond e.0 r.0, e.1 ++ r.1, r.2)

-- One part stands bare, several are joined by AND in parentheses.
abbrev pub join_parts : Conds → Option Cond
join_parts end = none
join_parts (cond c end) = some c
join_parts (cond c cs) = some (all_of (cond c cs))

abbrev pub join_emitted : Emitted Conds → Result (Option Cond × List Arg)
join_emitted (ok (cs, args, next)) = ok (join_parts cs, args)
join_emitted (err e) = err e

-- `none` is the empty fragment, for an empty list of filters.
unfoldable pub apply_to_query : Filters → Column → ℕ → Result (Option Cond × List Arg)
apply_to_query fs col start = join_emitted (emit_each fs col start)
