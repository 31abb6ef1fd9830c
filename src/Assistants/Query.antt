-- ===== src/Assistants/Query.antt =====
-- The reads of internal/assistants/store.go: Get, sortClause, whereArgs, Search, Count, GetVersions.
use langsmith_deployment_go.Prelude.{
  ℕ, suc, String, Bool, true, false, not, ◌&&◌, Option, none, some, List, ◌∷◌, ◌++◌, str_eq, any,
  find?, keep, length, ltb, if◌then◌else◌, Result, ok, not_found, from_option, ◌>>=◌, sort_by,
  str_lt,
}
use langsmith_deployment_go.Sql.{
  Postgres, own_metadata, Arg, uuid_arg, text_arg, json_arg, Param, Cond,
}
use langsmith_deployment_go.Auth.{Filters, apply_to_query}
use langsmith_deployment_go.Runs.Model.{Assistant, AssistantVersion, Database, has_assistant_id}
use langsmith_deployment_go.Runs.Create.{null_if_empty, uuid_of}
use langsmith_deployment_go.Runs.Insert.{optional_json}
use langsmith_deployment_go.Threads.Query.{bound, slice}
use langsmith_deployment_go.Crons.Rows.{arg_of, meets}
use langsmith_deployment_go.Crons.Search.{is_wanted}

-- An empty JSON filter is `none`.
pub record AssistantSearch : Type 0 where
  pub graph_id : String
  pub name : String
  pub metadata_filter : Option String
  pub limit : ℕ
  pub offset : ℕ
  pub sort_column : String
  pub sort_order : String

pub data AssistantColumn : Type 0 where
  order_assistant_id order_graph_id order_name order_created_at : AssistantColumn
  order_updated_at : AssistantColumn

pub record AssistantOrder : Type 0 where
  pub column : AssistantColumn
  pub ascending : Bool

-- validSortColumns
unfoldable pub assistants_sort_column : String → Option AssistantColumn
assistants_sort_column s =
    if str_eq s "assistant_id"
    then some order_assistant_id
    else if str_eq s "graph_id"
    then some order_graph_id
    else if str_eq s "name"
    then some order_name
    else if str_eq s "created_at"
    then some order_created_at
    else if str_eq s "updated_at"
    then some order_updated_at
    else none

-- sortClause
unfoldable pub assistants_sort_clause : String → String → AssistantOrder
assistants_sort_clause column order = elim (assistants_sort_column column) [
  | none ↦ record { column = order_created_at; ascending = false }
  | some c ↦ record { column = c; ascending = str_eq order "asc" }
]

-- The arguments before those of the filters, in the order of their placeholders.
abbrev pub wanted_args : AssistantSearch → List Arg
wanted_args s =
    arg_of text_arg (null_if_empty s.graph_id)
    ++ (arg_of text_arg (null_if_empty s.name) ++ arg_of json_arg s.metadata_filter)

-- whereArgs: the fragment of the filters, and all arguments.
unfoldable pub assistant_where_args : AssistantSearch → Filters → Result (Option Cond × List Arg)
assistant_where_args s fs =
    let own = wanted_args s in
    apply_to_query fs own_metadata (suc (length own)) >>= λ e. ok (e.0, own ++ e.1)

module _ {V : Type 0} where
  -- The sort keys. PostgreSQL leaves the order of ties open; here it is that of the table.
  abbrev pub assistant_before : AssistantColumn → Assistant V → Assistant V → Bool
  assistant_before order_assistant_id a b = str_lt a.assistant_id b.assistant_id
  assistant_before order_graph_id a b = str_lt a.graph_id b.graph_id
  assistant_before order_name a b = str_lt a.name b.name
  assistant_before order_created_at a b = ltb a.created_at b.created_at
  assistant_before order_updated_at a b = ltb a.updated_at b.updated_at

  abbrev pub in_assistant_order : AssistantOrder → Assistant V → Assistant V → Bool
  in_assistant_order o a b =
      if o.ascending
      then not (assistant_before o.column b a)
      else not (assistant_before o.column a b)

  -- `ORDER BY assistant_versions."version" DESC`
  abbrev pub newer : AssistantVersion V → AssistantVersion V → Bool
  newer v w = not (ltb v.version w.version)

  abbrev pub has_version_of : String → AssistantVersion V → Bool
  has_version_of u v = str_eq v.assistant_id u

module _ {V : Type 0} (pg : Postgres V) where
  -- `assistant_id = $1::uuid AND <filters from $2>`
  abbrev pub selects_assistant : String → Option Cond → List (Param V) → Assistant V → Bool
  selects_assistant u frag ps a = has_assistant_id u a && meets pg frag ps a.metadata

  -- Get
  unfoldable pub get_assistant : Database V → String → Filters → Result (Assistant V)
  get_assistant db id fs = apply_to_query fs own_metadata 2 >>= λ e. uuid_of pg id >>= λ u.
      bound pg (uuid_arg id ∷ e.1) >>= λ ps.
      from_option not_found (find? (selects_assistant u e.0 ps) db.assistants)

  -- `metadata @> $n::jsonb`, where it is written
  abbrev pub holds : Option V → V → Bool
  holds none m = true
  holds (some w) m = pg.contains m w

  abbrev pub selects_wanted :
      AssistantSearch → Option V → Option Cond → List (Param V) → Assistant V → Bool
  selects_wanted s filter frag ps a =
      is_wanted (null_if_empty s.graph_id) (some a.graph_id)
      && (is_wanted (null_if_empty s.name) (some a.name)
          && (holds filter a.metadata && meets pg frag ps a.metadata))

  -- The rows that Search and Count share.
  abbrev pub matching_assistants :
      Database V → AssistantSearch → Filters → Result (List (Assistant V))
  matching_assistants db s fs = assistant_where_args s fs >>= λ w. bound pg w.1 >>= λ ps.
      optional_json pg s.metadata_filter >>= λ filter.
      ok (keep (selects_wanted s filter w.0 ps) db.assistants)

  -- Search
  unfoldable pub search_assistants :
      Database V → AssistantSearch → Filters → Result (List (Assistant V))
  search_assistants db s fs = matching_assistants db s fs >>= λ hits. ok (
      slice s.limit s.offset
        (sort_by (in_assistant_order (assistants_sort_clause s.sort_column s.sort_order)) hits))

  -- Count
  unfoldable pub count_assistants : Database V → AssistantSearch → Filters → Result ℕ
  count_assistants db s fs = matching_assistants db s fs >>= λ hits. ok (length hits)

  -- The JOIN with the parent, which is written only where there is a fragment.
  abbrev pub parent_passes : Option Cond → List (Param V) → Database V → AssistantVersion V → Bool
  parent_passes none ps db v = true
  parent_passes (some c) ps db v =
      any (λ a. has_assistant_id v.assistant_id a && meets pg (some c) ps a.metadata) db.assistants

  abbrev pub selects_version :
      String → Option V → Option Cond → List (Param V) → Database V → AssistantVersion V → Bool
  selects_version u filter frag ps db v =
      has_version_of u v && (holds filter v.metadata && parent_passes frag ps db v)

  -- GetVersions
  unfoldable pub get_versions :
      Database V → String → ℕ → ℕ → Option String → Filters → Result (List (AssistantVersion V))
  get_versions db id limit offset metadata_filter fs =
      let own = uuid_arg id ∷ arg_of json_arg metadata_filter in
      apply_to_query fs own_metadata (suc (length own)) >>= λ e. uuid_of pg id >>= λ u.
      optional_json pg metadata_filter >>= λ filter. bound pg (own ++ e.1) >>= λ ps. ok (
        slice limit offset
          (sort_by newer (keep (selects_version u filter e.0 ps db) db.assistant_versions)))
