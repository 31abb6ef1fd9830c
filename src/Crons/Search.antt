-- ===== src/Crons/Search.antt =====
-- cronsSortClause, whereArgs, Search and Count of internal/crons/store.go.
use langsmith_deployment_go.Prelude.{
  ℕ, suc, ◌+◌, String, Bool, true, false, not, ◌&&◌, Option, none, some, List, ◌++◌, str_eq, find?,
  keep, length, ltb, if◌then◌else◌, Result, ok, ◌>>=◌, sort_by, str_lt,
}
use langsmith_deployment_go.Sql.{
  Postgres, Column, own_metadata, Datum, null, Arg, uuid_arg, text_arg, Param, Cond, passes,
  eval_all, optional,
}
use langsmith_deployment_go.Auth.{Filters, is_empty, apply_to_query}
use langsmith_deployment_go.Runs.Model.{Thread, Database, has_thread_id, metadata_row}
use langsmith_deployment_go.Threads.Query.{bound, slice}
use langsmith_deployment_go.Crons.Rows.{Cron, arg_of, bool_text, cte_filters, meets, uuid_or_null}

-- The empty text of an id is `none`.
pub record CronSearch : Type 0 where
  pub assistant_id : Option String
  pub thread_id : Option String
  pub thread_filters : Filters
  pub limit : ℕ
  pub offset : ℕ
  pub sort_column : String
  pub sort_order : String
  pub enabled : Option Bool

pub data CronColumn : Type 0 where
  at_cron_id at_assistant_id at_thread_id at_next_run_date at_end_time : CronColumn
  at_created_at at_updated_at : CronColumn

-- The column and whether the order is ascending, with NULLs first, or descending, with NULLs last.
pub record CronOrder : Type 0 where
  pub column : CronColumn
  pub ascending : Bool

-- cronsSortColumns
unfoldable pub crons_sort_column : String → Option CronColumn
crons_sort_column s =
    if str_eq s "cron_id"
    then some at_cron_id
    else if str_eq s "assistant_id"
    then some at_assistant_id
    else if str_eq s "thread_id"
    then some at_thread_id
    else if str_eq s "next_run_date"
    then some at_next_run_date
    else if str_eq s "end_time"
    then some at_end_time
    else if str_eq s "created_at"
    then some at_created_at
    else if str_eq s "updated_at"
    then some at_updated_at
    else none

-- cronsSortClause
unfoldable pub crons_sort_clause : String → String → CronOrder
crons_sort_clause column order = elim (crons_sort_column column) [
  | none ↦ record { column = at_created_at; ascending = false }
  | some c ↦ record { column = c; ascending = str_eq order "asc" }
]

-- A NULL comes before every value.
abbrev pub null_first {ℓ} : {A : Type ℓ} → (A → A → Bool) → Option A → Option A → Bool
null_first lt none none = false
null_first lt none (some b) = true
null_first lt (some a) none = false
null_first lt (some a) (some b) = lt a b

-- The arguments before those of the filters, in the order of their placeholders.
abbrev pub search_args : CronSearch → List Arg
search_args s =
    arg_of uuid_arg s.assistant_id
    ++ (arg_of uuid_arg s.thread_id ++ arg_of (λ b. text_arg (bool_text b)) s.enabled)

-- The fragment of the filters on the cron, that of the filters on its thread, and all arguments.
pub record CronWhere : Type 0 where
  pub cron_cond : Option Cond
  pub thread_cond : Option Cond
  pub args : List Arg

-- whereArgs
unfoldable pub cron_where_args : CronSearch → Filters → Result CronWhere
cron_where_args s fs =
    let own = search_args s in
    apply_to_query fs own_metadata (suc (length own)) >>= λ e.
    cte_filters (not (is_empty s.thread_filters)) s.thread_filters (suc (length own) + length e.1)
    >>= λ j. ok (record { cron_cond = e.0; thread_cond = j.0; args = own ++ (e.1 ++ j.1) })

abbrev pub is_wanted : Option String → Option String → Bool
is_wanted none x = true
is_wanted (some u) none = false
is_wanted (some u) (some x) = str_eq x u

abbrev pub is_enabled_as : Option Bool → Bool → Bool
is_enabled_as none enabled = true
is_enabled_as (some true) enabled = enabled
is_enabled_as (some false) enabled = not enabled

module _ {V : Type 0} where
  abbrev pub cron_before : CronColumn → Cron V → Cron V → Bool
  cron_before at_cron_id a b = str_lt a.cron_id b.cron_id
  cron_before at_assistant_id a b = str_lt a.assistant_id b.assistant_id
  cron_before at_thread_id a b = null_first str_lt a.thread_id b.thread_id
  cron_before at_next_run_date a b = null_first ltb a.next_run_date b.next_run_date
  cron_before at_end_time a b = null_first ltb a.end_time b.end_time
  cron_before at_created_at a b = ltb a.created_at b.created_at
  cron_before at_updated_at a b = ltb a.updated_at b.updated_at

  abbrev pub in_cron_order : CronOrder → Cron V → Cron V → Bool
  in_cron_order o a b =
      if o.ascending then not (cron_before o.column b a) else not (cron_before o.column a b)

  -- `t.metadata` of the LEFT JOIN: all columns are NULL where the thread is missing.
  abbrev pub joined_row : Option (Thread V) → Column → Datum V
  joined_row none c = null
  joined_row (some t) c = metadata_row t.metadata c

module _ {V : Type 0} (pg : Postgres V) where
  -- `(c.thread_id IS NULL OR (…))`. Without filters on the thread there is no such condition.
  abbrev pub thread_passes : Option Cond → List (Param V) → Database V → Option String → Bool
  thread_passes frag ps db none = true
  thread_passes frag ps db (some u) =
      passes (eval_all pg (optional frag) (joined_row (find? (has_thread_id u) db.threads)) ps)

  abbrev pub selects_searched :
      Database V
      → CronSearch
      → Option String
      → Option String
      → CronWhere
      → List (Param V)
      → Cron V
      → Bool
  selects_searched db s assistant thread w ps c =
      is_wanted assistant (some c.assistant_id)
      && (is_wanted thread c.thread_id
          && (is_enabled_as s.enabled c.enabled
              && (meets pg w.cron_cond ps c.metadata
                  && thread_passes w.thread_cond ps db c.thread_id)))

  -- The rows that Search and Count share.
  abbrev pub matching_crons :
      Database V → List (Cron V) → CronSearch → Filters → Result (List (Cron V))
  matching_crons db cs s fs = cron_where_args s fs >>= λ w. bound pg w.args >>= λ ps.
      uuid_or_null pg s.assistant_id >>= λ a.
      uuid_or_null pg s.thread_id >>= λ t. ok (keep (selects_searched db s a t w ps) cs)

  -- Search
  unfoldable pub search_crons :
      Database V → List (Cron V) → CronSearch → Filters → Result (List (Cron V))
  search_crons db cs s fs = matching_crons db cs s fs >>= λ hits. ok (
      slice s.limit s.offset
        (sort_by (in_cron_order (crons_sort_clause s.sort_column s.sort_order)) hits))

  -- Count
  unfoldable pub count_crons : Database V → List (Cron V) → CronSearch → Filters → Result ℕ
  count_crons db cs s fs = matching_crons db cs s fs >>= λ hits. ok (length hits)
