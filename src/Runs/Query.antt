-- ===== src/Runs/Query.antt =====
-- The reads of internal/runs/store.go: Get, whereArgs, Search, Count and PublishExistsAndAuth.
use langsmith_deployment_go.Prelude.{
  ℕ, ◌+◌, String, Bool, true, false, not, ◌&&◌, ◌||◌, Option, none, some, List, [], ◌∷◌, ◌++◌,
  str_eq, any, find?, keep, take, drop, length, ltb, ◌==◌, if◌then◌else◌, Result, ok, not_found,
  forbidden, database, from_option, guard, ◌>>=◌, ◌>>◌, sort_by, str_lt,
}
use langsmith_deployment_go.Sql.{
  Postgres, run_id, run_thread_id, run_status, run_metadata, thread_metadata, Arg, uuid_arg,
  texts_arg, json_arg, Param, Cond, Conds, end, cond, uuid_is, is_any, has_json, append_conds,
  optional, bind, passes, eval_all,
}
use langsmith_deployment_go.Auth.{Filters, is_empty, apply_to_query}
use langsmith_deployment_go.Runs.Model.{Run, Database, run_row, is_joined}

pub record SearchInput : Type 0 where
  pub thread_id : String
  pub statuses : List String
  pub metadata_filter : Option String
  pub limit : ℕ
  pub offset : ℕ

-- The JOIN flag, the WHERE clause, its arguments and the next free placeholder.
pub record Where : Type 0 where
  pub join : Bool
  pub conds : Conds
  pub args : List Arg
  pub idx : ℕ

-- `authSQL != ""`
abbrev pub is_given : Option Cond → Bool
is_given none = false
is_given (some c) = true

abbrev pub no_conds : Where
no_conds = record { join = false; conds = end; args = []; idx = 1 }

-- One more condition over the argument `a`, which takes the next placeholder.
abbrev pub with_cond : (ℕ → Cond) → Arg → Where → Where
with_cond c a w = record {
  join = w.join;
  conds = append_conds w.conds (cond (c w.idx) end);
  args = w.args ++ a ∷ [];
  idx = w.idx + 1;
}

abbrev pub add_thread : String → Where → Where
add_thread s w = if str_eq s "" then w else with_cond (uuid_is run_thread_id) (uuid_arg s) w

abbrev pub add_statuses : List String → Where → Where
add_statuses [] w = w
add_statuses (s ∷ ss) w = with_cond (is_any run_status) (texts_arg (s ∷ ss)) w

abbrev pub add_metadata : Option String → Where → Where
add_metadata none w = w
add_metadata (some s) w = with_cond (has_json run_metadata) (json_arg s) w

abbrev pub add_auth : Where → Option Cond × List Arg → Where
add_auth w (none, args) = w
add_auth w (some c, args) = record {
  join = true;
  conds = append_conds w.conds (cond c end);
  args = w.args ++ args;
  idx = w.idx + length args;
}

-- whereArgs
unfoldable pub where_args : SearchInput → Filters → Result Where
where_args s filters =
    let w =
      add_metadata s.metadata_filter (add_statuses s.statuses (add_thread s.thread_id no_conds)) in
    apply_to_query filters thread_metadata w.idx >>= λ e. ok (add_auth w e)

module _ {V : Type 0} (pg : Postgres V) where
  abbrev pub selected : Database V → Conds → List (Param V) → Run V → Bool
  selected db cs ps r = passes (eval_all pg cs (run_row db r) ps)

  -- `SELECT … FROM run JOIN thread USING (thread_id) WHERE …`, one row.
  abbrev pub query_row : Database V → Conds → List Arg → Result (Run V)
  query_row db cs args = from_option database (bind pg args) >>= λ ps.
      from_option not_found (find? (λ r. is_joined db r && selected db cs ps r) db.runs)

  -- Get: with a thread id the placeholders of the filters begin at 3, without one at 2.
  unfoldable pub get : Database V → String → String → Filters → Result (Run V)
  get db run thread filters =
      if str_eq thread ""
      then (apply_to_query filters thread_metadata 2 >>= λ e.
          query_row db (cond (uuid_is run_id 1) (optional e.0)) (uuid_arg run ∷ e.1))
      else (apply_to_query filters thread_metadata 3 >>= λ e.
          query_row db (cond (uuid_is run_id 1) (cond (uuid_is run_thread_id 2) (optional e.0)))
            (uuid_arg run ∷ uuid_arg thread ∷ e.1))

  -- The rows of `FROM run [JOIN thread] WHERE …`
  abbrev pub matching : Database V → Where → List (Param V) → List (Run V)
  matching db w ps = keep (λ r. (not w.join || is_joined db r) && selected db w.conds ps r) db.runs

  -- Count
  unfoldable pub count : Database V → SearchInput → Filters → Result ℕ
  count db s filters = where_args s filters >>= λ w.
      from_option database (bind pg w.args) >>= λ ps. ok (length (matching db w ps))

  -- `ORDER BY run.created_at DESC, run.run_id`
  abbrev pub newer : Run V → Run V → Bool
  newer a b =
      ltb b.created_at a.created_at
      || (a.created_at == b.created_at && not (str_lt b.run_id a.run_id))

  abbrev pub page : ℕ → ℕ → List (Run V) → List (Run V)
  page limit offset rs = take (if limit == 0 then 100 else limit) (drop offset rs)

  -- Search
  unfoldable pub search_runs : Database V → SearchInput → Filters → Result (List (Run V))
  search_runs db s filters = where_args s filters >>= λ w.
      from_option database (bind pg w.args) >>= λ ps.
      ok (page s.limit s.offset (sort_by newer (matching db w ps)))

  abbrev pub exists_row : Database V → Conds → List Arg → Result Bool
  exists_row db cs args = from_option database (bind pg args) >>= λ ps.
      ok (any (λ r. is_joined db r && selected db cs ps r) db.runs)

  -- PublishExistsAndAuth
  unfoldable pub publish_exists_and_auth :
      Database V → String → String → Filters → Result (Unit {0})
  publish_exists_and_auth db run thread filters =
      let ids = uuid_arg run ∷ uuid_arg thread ∷ [] in
      let by_ids =
        λ (rest : Conds). cond (uuid_is run_id 1) (cond (uuid_is run_thread_id 2) rest) in
      exists_row db (by_ids end) ids >>= λ exists.
      guard exists not_found
      >> (if is_empty filters
          then ok tt
          else (apply_to_query filters thread_metadata 3 >>= λ e.
              exists_row db (by_ids (optional e.0)) (ids ++ e.1) >>= λ auth_passes.
              guard auth_passes forbidden))
