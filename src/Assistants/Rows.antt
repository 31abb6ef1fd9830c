-- ===== src/Assistants/Rows.antt =====
-- Create and Delete of internal/assistants/store.go. Each is one transaction, whose error leaves the
-- old tables. The primary key of `assistant_versions` is the assistant and the number.
use langsmith_deployment_go.Prelude.{
  ℕ, ◌+◌, String, Bool, true, false, not, ◌&&◌, Option, none, some, List, [], ◌∷◌, ◌++◌, map,
  str_eq, elem, any, find?, keep, length, ◌==◌, if◌then◌else◌, Result, ok, already_exists,
  from_option, ◌>>=◌,
}
use langsmith_deployment_go.Sql.{Postgres, own_metadata, Arg, uuid_arg, text_arg, json_arg}
use langsmith_deployment_go.Auth.{Filters, apply_to_query}
use langsmith_deployment_go.Runs.Model.{
  Thread, Assistant, AssistantVersion, Database, has_assistant_id,
}
use langsmith_deployment_go.Runs.Cancel.{delete_runs}
use langsmith_deployment_go.Runs.Create.{or_default, json_of, uuid_of}
use langsmith_deployment_go.Runs.Insert.{run_id_of, committed}
use langsmith_deployment_go.Threads.Query.{bound}
use langsmith_deployment_go.Threads.Rows.{delete_threads}
use langsmith_deployment_go.Crons.Rows.{Cron, meets}
use langsmith_deployment_go.Assistants.Query.{selects_assistant}

-- `none` is nil.
pub record CreateAssistantInput : Type 0 where
  -- "" for a random id
  pub assistant_id : String
  pub graph_id : String
  pub name : String
  pub description : Option String
  pub config : Option String
  pub context_json : Option String
  pub metadata : Option String
  pub if_exists : String
  pub filters : Filters

-- `in.IfExists == "do_nothing" && in.AssistantID != ""`
abbrev pub returns_assistant : CreateAssistantInput → Bool
returns_assistant i = str_eq i.if_exists "do_nothing" && not (str_eq i.assistant_id "")

-- The arguments before those of the filters, for a given id. A NULL description binds no value that
-- a condition reads; its place is kept.
abbrev pub assistant_args : CreateAssistantInput → List Arg
assistant_args i =
    uuid_arg i.assistant_id
    ∷ text_arg i.graph_id
    ∷ text_arg i.name
    ∷ text_arg (or_default "" i.description)
    ∷ json_arg (or_default "{}" i.config)
    ∷ json_arg (or_default "{}" i.context_json)
    ∷ json_arg (or_default "{}" i.metadata)
    ∷ []

-- `len(ids) > 0`
abbrev pub any_deleted : List String → Bool
any_deleted [] = false
any_deleted (u ∷ us) = true

module _ {V : Type 0} where
  abbrev pub is_version : String → ℕ → AssistantVersion V → Bool
  is_version u n v = str_eq v.assistant_id u && v.version == n

  -- The version row that a state of the assistant is recorded as.
  abbrev pub version_of : ℕ → Assistant V → AssistantVersion V
  version_of now a = record {
    assistant_id = a.assistant_id;
    graph_id = a.graph_id;
    name = a.name;
    version = a.version;
    created_at = now;
    config = a.config;
    context = a.context;
    metadata = a.metadata;
    description = a.description;
  }

  -- `INSERT INTO assistant_versions … ON CONFLICT (assistant_id, "version") DO NOTHING`
  abbrev pub add_version :
      AssistantVersion V → List (AssistantVersion V) → List (AssistantVersion V)
  add_version v vs = if any (is_version v.assistant_id v.version) vs then vs else v ∷ vs

  -- Both legs: the new row with its first version where the id is free, and otherwise the row that
  -- the second leg selects. `hit` selects none where there is no second leg.
  abbrev pub add_assistant :
      ℕ → Database V → (Assistant V → Bool) → Assistant V → Result (Assistant V × Database V)
  add_assistant now db hit a =
      if any (has_assistant_id a.assistant_id) db.assistants
      then (from_option already_exists (find? hit db.assistants) >>= λ old. ok (old, db))
      else ok (
        a,
        record db {
          assistants = a ∷ db.assistants;
          assistant_versions = add_version (version_of now a) db.assistant_versions;
        },
      )

  abbrev pub assistant_ids : List (Assistant V) → List String
  assistant_ids as' = map (λ a. a.assistant_id) as'

  -- `DELETE FROM assistant WHERE …`: the foreign keys delete the versions, the runs with their
  -- checkpoints, and the crons of the deleted assistants.
  unfoldable pub delete_assistants :
      (Assistant V → Bool) → Database V → List (Cron V) → Database V × List (Cron V)
  delete_assistants p db cs =
      let ids = assistant_ids (keep p db.assistants) in
      (
        record (delete_runs (λ r. elem r.assistant_id ids) db) {
          assistants = keep (λ a. not (p a)) db.assistants;
          assistant_versions = keep (λ v. not (elem v.assistant_id ids)) db.assistant_versions;
        },
        keep (λ c. not (elem c.assistant_id ids)) cs,
      )

module _ {V : Type 0} (pg : Postgres V) where
  abbrev pub new_assistant : ℕ → String → V → V → V → CreateAssistantInput → Assistant V
  new_assistant now u config context metadata i = record {
    assistant_id = u;
    graph_id = i.graph_id;
    version = 1;
    created_at = now;
    updated_at = now;
    config = config;
    context = context;
    metadata = metadata;
    name = i.name;
    description = i.description;
  }

  -- The row that VALUES names. `fresh` is gen_random_uuid().
  abbrev pub assistant_to_insert : ℕ → String → CreateAssistantInput → Result (Assistant V)
  assistant_to_insert now fresh i = run_id_of pg i.assistant_id fresh >>= λ u.
      json_of pg (or_default "{}" i.config) >>= λ c.
      json_of pg (or_default "{}" i.context_json) >>= λ x.
      json_of pg (or_default "{}" i.metadata) >>= λ m. ok (new_assistant now u c x m i)

  -- The statement with the second leg.
  unfoldable pub insert_or_read_assistant :
      ℕ → Database V → String → CreateAssistantInput → Result (Assistant V × Database V)
  insert_or_read_assistant now db fresh i =
      apply_to_query i.filters own_metadata (length (assistant_args i) + 1) >>= λ e.
      bound pg (assistant_args i ++ e.1) >>= λ ps. assistant_to_insert now fresh i >>= λ a.
      add_assistant now db (selects_assistant pg a.assistant_id e.0 ps) a

  abbrev pub create_statement :
      ℕ → Database V → String → CreateAssistantInput → Result (Assistant V × Database V)
  create_statement now db fresh i =
      if returns_assistant i
      then insert_or_read_assistant now db fresh i
      else (assistant_to_insert now fresh i >>= λ a. add_assistant now db (λ x. false) a)

  -- Create
  unfoldable pub create_assistant :
      ℕ → Database V → String → CreateAssistantInput → Result (Assistant V) × Database V
  create_assistant now db fresh i = committed pg db (create_statement now db fresh i)

  -- `metadata->>'assistant_id' = $1::text AND …`: the id as the request spells it.
  abbrev pub is_tagged : String → Thread V → Bool
  is_tagged id t = elim (pg.text_field t.metadata "assistant_id") [
    | none ↦ false
    | some s ↦ str_eq s id
  ]

  -- Delete: the ids of the deleted assistants, and what is left.
  unfoldable pub delete_assistant :
      Database V
      → List (Cron V)
      → String
      → Bool
      → Filters
      → Result (List String × Database V × List (Cron V))
  delete_assistant db cs id with_threads fs = apply_to_query fs own_metadata 2 >>= λ e.
      uuid_of pg id >>= λ u. bound pg (uuid_arg id ∷ e.1) >>= λ ps.
      let hit = selects_assistant pg u e.0 ps in
      let ids = assistant_ids (keep hit db.assistants) in
      let rest = delete_assistants hit db cs in
      if with_threads && any_deleted ids
      then (bound pg (text_arg id ∷ e.1) >>= λ qs.
          ok (
            ids,
            delete_threads (λ t. is_tagged id t && meets pg e.0 qs t.metadata) rest.0,
            rest.1,
          ))
      else ok (ids, rest.0, rest.1)
