-- ===== src/Assistants/Latest.antt =====
-- SetLatest of internal/assistants/store.go. Its filters are expanded from $2 on, which is also the
-- place of the version. pgx refuses a query whose number of arguments is not that of its parameters.
use langsmith_deployment_go.Prelude.{
  ℕ, String, Bool, Option, List, [], ◌∷◌, find?, length, ◌==◌, Result, ok, not_found, database,
  from_option, guard, ◌>>=◌, ◌>>◌,
}
use langsmith_deployment_go.Sql.{Postgres, own_metadata, Arg, uuid_arg, number_arg, Cond, optional}
use langsmith_deployment_go.Auth.{Filters, apply_to_query}
use langsmith_deployment_go.Auth.Parameters.{placeholders_each}
use langsmith_deployment_go.Runs.Model.{Assistant, AssistantVersion, Database}
use langsmith_deployment_go.Runs.Create.{uuid_of}
use langsmith_deployment_go.Runs.Insert.{committed}
use langsmith_deployment_go.Threads.Query.{bound}
use langsmith_deployment_go.Assistants.Query.{selects_assistant}
use langsmith_deployment_go.Assistants.Rows.{is_version}
use langsmith_deployment_go.Assistants.Patch.{larger, update_assistants}

-- The number of parameters of a query, that of its highest placeholder.
abbrev pub parameter_count : List ℕ → ℕ
parameter_count [] = 0
parameter_count (n ∷ ns) = larger n (parameter_count ns)

-- The placeholders of the statement: the id, the version, and those of the filters.
abbrev pub latest_placeholders : Option Cond → List ℕ
latest_placeholders frag = 1 ∷ 2 ∷ placeholders_each (optional frag)

-- Whether there are as many arguments as parameters.
abbrev pub is_accepted : String → ℕ → Option Cond × List Arg → Bool
is_accepted id n e =
    parameter_count (latest_placeholders e.0) == length (uuid_arg id ∷ number_arg n ∷ e.1)

module _ {V : Type 0} where
  -- The SET list: neither `updated_at` nor the other columns.
  abbrev pub restored : AssistantVersion V → Assistant V → Assistant V
  restored v a = record a { config = v.config; metadata = v.metadata; version = v.version }

module _ {V : Type 0} (pg : Postgres V) where
  -- The statement, once its arguments are accepted in number.
  abbrev pub move_to_version :
      Database V → String → ℕ → Option Cond × List Arg → Result (Assistant V × Database V)
  move_to_version db id n e = uuid_of pg id >>= λ u.
      bound pg (uuid_arg id ∷ number_arg n ∷ e.1) >>= λ ps.
      from_option not_found (find? (is_version u n) db.assistant_versions) >>= λ v.
      from_option not_found (find? (selects_assistant pg u e.0 ps) db.assistants) >>= λ a. ok (
        restored v a,
        record db {
          assistants = update_assistants (selects_assistant pg u e.0 ps) (restored v) db.assistants;
        },
      )

  unfoldable pub latest_statement :
      Database V → String → ℕ → Filters → Result (Assistant V × Database V)
  latest_statement db id n fs = apply_to_query fs own_metadata 2 >>= λ e.
      guard (is_accepted id n e) database >> move_to_version db id n e

  -- SetLatest
  unfoldable pub set_latest : Database V → String → ℕ → Filters → Result (Assistant V) × Database V
  set_latest db id n fs = committed pg db (latest_statement db id n fs)
