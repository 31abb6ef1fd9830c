-- ===== src/Threads/Query.antt =====
-- The reads of internal/threads/store.go: Get, whereArgs, sortClause, Search, Count, GetGraphID and
-- ThreadExistsAndAuth.
use langsmith_deployment_go.Prelude.{
  ℕ, String, Bool, false, not, Option, none, some, List, [], ◌∷◌, str_eq, any, find?, keep, take,
  drop, length, ltb, ◌==◌, if◌then◌else◌, Result, ok, not_found, forbidden, database, from_option,
  guard, ◌>>=◌, ◌>>◌, sort_by, str_lt,
}
use langsmith_deployment_go.Sql.{
  Postgres, Column, run_id, run_thread_id, run_status, run_metadata, thread_id, thread_metadata,
  own_metadata, own_status, own_values, Datum, null, text, json, Arg, uuid_arg, text_arg, json_arg,
  uuids_arg, Param, Conds, end, cond, uuid_is, is_any, has_json, bind, passes, eval_all, optional,
}
use langsmith_deployment_go.Auth.{Filters, is_empty, apply_to_query}
use langsmith_deployment_go.Runs.Model.{Thread, Database}
use langsmith_deployment_go.Runs.Query.{Where, no_conds, with_cond, add_auth}
use langsmith_deployment_go.Runs.Create.{or_default}

-- The empty text of a JSON filter is `none`.
pub record ThreadSearch : Type 0 where
  pub status : String
  pub metadata_filter : Option String
  pub values_filter : Option String
  pub ids : List String
  pub limit : ℕ
  pub offset : ℕ
  pub sort_column : String
  pub sort_order : String

pub data SortColumn : Type 0 where
  by_thread_id by_status by_created_at by_updated_at : SortColumn

pub record SortClause : Type 0 where
  pub column : SortColumn
  pub ascending : Bool

-- validSortColumns
unfoldable pub valid_sort_column : String → Option SortColumn
valid_sort_column s =
    if str_eq s "thread_id"
    then some by_thread_id
    else if str_eq s "status"
    then some by_status
    else if str_eq s "created_at"
    then some by_created_at
    else if str_eq s "updated_at"
    then some by_updated_at
    else none

-- sortClause
unfoldable pub sort_clause : String → String → SortClause
sort_clause column order = elim (valid_sort_column column) [
  | none ↦ record { column = by_created_at; ascending = false }
  | some c ↦ record { column = c; ascending = str_eq order "asc" }
]

-- isEmptyJSONObject: `keys` is encoding/json's Unmarshal into a map, the number of its keys.
abbrev pub is_empty_json_object : (String → Option ℕ) → String → Bool
is_empty_json_object keys raw = elim (keys raw) [ none ↦ false | some n ↦ n == 0 ]

abbrev pub add_status : String → Where → Where
add_status s w = if str_eq s "" then w else with_cond (uuid_is own_status) (text_arg s) w

abbrev pub add_json : Column → Option String → Where → Where
add_json c none w = w
add_json c (some s) w = with_cond (has_json c) (json_arg s) w

abbrev pub add_values : (String → Option ℕ) → Option String → Where → Where
add_values keys none w = w
add_values keys (some s) w =
    if is_empty_json_object keys s then w else with_cond (has_json own_values) (json_arg s) w

abbrev pub add_ids : List String → Where → Where
add_ids [] w = w
add_ids (s ∷ ss) w = with_cond (is_any thread_id) (uuids_arg (s ∷ ss)) w

-- The conditions before the filters.
abbrev pub own_conds : (String → Option ℕ) → ThreadSearch → Where
own_conds keys s = add_ids s.ids (
    add_values keys s.values_filter
      (add_json own_metadata s.metadata_filter (add_status s.status no_conds)))

-- whereArgs
unfoldable pub thread_where_args : (String → Option ℕ) → ThreadSearch → Filters → Result Where
thread_where_args keys s filters =
    let w = own_conds keys s in apply_to_query filters own_metadata w.idx >>= λ e. ok (add_auth w e)

-- `LIMIT … OFFSET …`, where a limit of 0 is 100.
abbrev pub slice {ℓ} : {A : Type ℓ} → ℕ → ℕ → List A → List A
slice limit offset xs = take (if limit == 0 then 100 else limit) (drop offset xs)

module _ {V : Type 0} where
  abbrev pub optional_datum : Option V → Datum V
  optional_datum none = null
  optional_datum (some v) = json v

  abbrev pub thread_row : Thread V → Column → Datum V
  thread_row t run_id = null
  thread_row t run_thread_id = null
  thread_row t run_status = null
  thread_row t run_metadata = null
  thread_row t thread_id = text t.thread_id
  thread_row t thread_metadata = null
  thread_row t own_metadata = json t.metadata
  thread_row t own_status = text t.status
  thread_row t own_values = optional_datum t.values

  -- The sort keys. Ids compare as their canonical texts, states as texts.
  abbrev pub comes_before : SortColumn → Thread V → Thread V → Bool
  comes_before by_thread_id a b = str_lt a.thread_id b.thread_id
  comes_before by_status a b = str_lt a.status b.status
  comes_before by_created_at a b = ltb a.created_at b.created_at
  comes_before by_updated_at a b = ltb a.updated_at b.updated_at

  -- `ORDER BY col ASC`, `ORDER BY col DESC`. PostgreSQL leaves the order of ties open; here it is
  -- that of the table.
  abbrev pub in_order : SortClause → Thread V → Thread V → Bool
  in_order c a b =
      if c.ascending then not (comes_before c.column b a) else not (comes_before c.column a b)

module _ {V : Type 0} (pg : Postgres V) where
  abbrev pub selects_thread : Conds → List (Param V) → Thread V → Bool
  selects_thread cs ps t = passes (eval_all pg cs (thread_row t) ps)

  -- `thread_id = $1::uuid AND <filters from $2>`
  abbrev pub by_id : String → Filters → Result (Conds × List Arg)
  by_id id filters = apply_to_query filters own_metadata 2 >>= λ e.
      ok (cond (uuid_is thread_id 1) (optional e.0), uuid_arg id ∷ e.1)

  abbrev pub bound : List Arg → Result (List (Param V))
  bound args = from_option database (bind pg args)

  -- Get
  unfoldable pub get_thread : Database V → String → Filters → Result (Thread V)
  get_thread db id filters = by_id id filters >>= λ w.
      bound w.1 >>= λ ps. from_option not_found (find? (selects_thread w.0 ps) db.threads)

  -- Search
  unfoldable pub search_threads :
      (String → Option ℕ) → Database V → ThreadSearch → Filters → Result (List (Thread V))
  search_threads keys db s filters = thread_where_args keys s filters >>= λ w.
      bound w.args >>= λ ps. ok (
        slice s.limit s.offset (
          sort_by (in_order (sort_clause s.sort_column s.sort_order))
            (keep (selects_thread w.conds ps) db.threads)))

  -- Count
  unfoldable pub count_threads :
      (String → Option ℕ) → Database V → ThreadSearch → Filters → Result ℕ
  count_threads keys db s filters = thread_where_args keys s filters >>= λ w.
      bound w.args >>= λ ps. ok (length (keep (selects_thread w.conds ps) db.threads))

  -- `COALESCE(config -> 'configurable' ->> 'graph_id', '')`
  abbrev pub graph_id_of : Thread V → String
  graph_id_of t = elim (pg.field t.config "configurable") [
    | none ↦ ""
    | some c ↦ or_default "" (pg.text_field c "graph_id")
  ]

  -- GetGraphID
  unfoldable pub get_graph_id : Database V → String → Filters → Result String
  get_graph_id db id filters = get_thread db id filters >>= λ t. ok (graph_id_of t)

  abbrev pub thread_exists_where : Database V → Conds → List Arg → Result Bool
  thread_exists_where db cs args = bound args >>= λ ps. ok (any (selects_thread cs ps) db.threads)

  -- ThreadExistsAndAuth
  unfoldable pub thread_exists_and_auth : Database V → String → Filters → Result (Unit {0})
  thread_exists_and_auth db id filters =
      thread_exists_where db (cond (uuid_is thread_id 1) end) (uuid_arg id ∷ []) >>= λ exists.
      guard exists not_found
      >> (if is_empty filters
          then ok tt
          else (by_id id filters >>= λ w.
              thread_exists_where db w.0 w.1 >>= λ auth_passes. guard auth_passes forbidden))
