-- ===== src/Auth/Meaning.antt =====
-- ApplyToQuery of internal/auth/filter.go: which rows its condition lets through, and which
-- placeholders it uses.
use langsmith_deployment_go.Prelude.{
  ℕ, suc, ◌≡◌, refl, ◌∙◌, append-nil, Option, none, some, List, ◌++◌, arith, Bool, true, false, ok,
  err, length, range_from,
}
use langsmith_deployment_go.Sql.{
  Postgres, Column, Datum, json, Arg, Param, Cond, Conds, end, cond, bind, passes, eval, eval_all,
  and_null, optional,
}
use langsmith_deployment_go.Auth.{
  Filters, Emitted, emit_each, join_parts, join_emitted, apply_to_query,
}
use langsmith_deployment_go.Auth.Parameters.{
  placeholders, placeholders_each, Loaded, Loaded-between,
}
use langsmith_deployment_go.Auth.Fragments.{allows_all, allows_any, PartsAre, emit_each-PartsAre}

pub and_null-true : (a : Option Bool) → and_null a (some true) ≡ a
and_null-true (some true) = refl
and_null-true (some false) = refl
and_null-true none = refl

module _ {V : Type 0} (pg : Postgres V) (row : Column → Datum V) (ps : List (Param V)) where
  eval-join_parts :
      (cs : Conds) → eval_all pg (optional (join_parts cs)) row ps ≡ eval_all pg cs row ps
  unfolding eval
  eval-join_parts end = refl
  eval-join_parts (cond c end) = refl
  eval-join_parts (cond c (cond d ds)) = and_null-true _

placeholders-join_parts :
    (cs : Conds) → placeholders_each (optional (join_parts cs)) ≡ placeholders_each cs
unfolding placeholders
placeholders-join_parts end = refl
placeholders-join_parts (cond c end) = refl
placeholders-join_parts (cond c (cond d ds)) = append-nil _

module _ {V : Type 0} (pg : Postgres V) (row : Column → Datum V) where
  joined-PartsAre :
      (b d : Bool) (i : ℕ) (r : Emitted Conds) {frag : Option Cond} {args : List Arg}
      → PartsAre pg row b d i r
      → join_emitted r ≡ ok (frag, args)
      → (placeholders_each (optional frag) ≡ range_from i (length args))
        × ((ps : List (Param V))
            → Loaded pg args i ps
            → passes (eval_all pg (optional frag) row ps) ≡ b)
  joined-PartsAre b d i (err e) h eq' = absurd (ground (arith, eq'))
  joined-PartsAre b d i (ok (cs, args', next)) {frag} {args} (n, p, v) eq' =
      let ef : join_parts cs ≡ frag = ground (arith, eq') in
      let ea : args' ≡ args = ground (arith, eq') in
      rw (← ef, ← ea) (placeholders-join_parts cs ∙ p, λ ps l. rw eval-join_parts ((v ps l).0))

  -- The same, where the arguments are known to be loaded from the number `start` on.
  pub apply_to_query-Loaded :
      (fs : Filters) (col : Column) (m : V) (start : ℕ) {frag : Option Cond} {args : List Arg}
      (ps : List (Param V))
      → row col ≡ json m
      → apply_to_query fs col start ≡ ok (frag, args)
      → Loaded pg args start ps
      → passes (eval_all pg (optional frag) row ps) ≡ allows_all pg fs m
  unfolding apply_to_query
  apply_to_query-Loaded fs col m start ps at_col emitted loaded =
      (joined-PartsAre (allows_all pg fs m) (allows_any pg fs m) start (emit_each fs col start)
          (emit_each-PartsAre pg row col m at_col fs start) emitted).1
        ps loaded

  -- The condition that ApplyToQuery returns, put into a query whose other arguments stand before
  -- and after its own and whose arguments PostgreSQL all accepts, lets exactly those rows through
  -- whose document in the filtered column meets every filter of the list.
  pub apply_to_query_meaning :
      (fs : Filters) (col : Column) (m : V) (pre post : List Arg) {frag : Option Cond}
      {args : List Arg} {ps : List (Param V)}
      → row col ≡ json m
      → apply_to_query fs col (suc (length pre)) ≡ ok (frag, args)
      → bind pg (pre ++ (args ++ post)) ≡ some ps
      → passes (eval_all pg (optional frag) row ps) ≡ allows_all pg fs m
  apply_to_query_meaning fs col m pre post {frag} {args} {ps} at_col emitted bound =
      apply_to_query-Loaded fs col m (suc (length pre)) ps at_col emitted
        (Loaded-between pg pre args post ps bound)

-- A database with one document, for facts that no database changes.
abbrev one_document : Postgres Unit
one_document = record {
  uuid = λ s. none;
  parse = λ s. none;
  empty = tt;
  build = λ es. tt;
  from_text = λ s. tt;
  null_value = tt;
  merge = λ a b. tt;
  field = λ a k. none;
  text_field = λ a k. none;
  set_field = λ a k v. tt;
  contains = λ a b. false;
}

-- The placeholders of the condition that ApplyToQuery returns, read from left to right, are the
-- numbers from `start` on, one for each of its arguments, none skipped and none used twice.
pub apply_to_query_numbering :
    (fs : Filters) (col : Column) (start : ℕ) {frag : Option Cond} {args : List Arg}
    → apply_to_query fs col start ≡ ok (frag, args)
    → placeholders_each (optional frag) ≡ range_from start (length args)
unfolding apply_to_query
apply_to_query_numbering fs col start emitted =
    let row : Column → Datum Unit = λ c. json tt in
    (joined-PartsAre one_document row _ _ start (emit_each fs col start)
      (emit_each-PartsAre one_document row col tt refl fs start) emitted).0
