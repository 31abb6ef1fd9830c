-- ===== src/Assistants/Patch.antt =====
-- Patch of internal/assistants/store.go with findArgIdx: one statement, which records a new version
-- and moves the assistant to it.
use langsmith_deployment_go.Prelude.{
  ℕ, zero, suc, String, Bool, false, Option, none, some, List, [], ◌∷◌, ◌++◌, str_eq, find?, keep,
  length, ltb, if◌then◌else◌, Result, ok, err, not_found, database, from_option, ◌>>=◌,
}
use langsmith_deployment_go.Sql.{Postgres, own_metadata, Arg, uuid_arg, text_arg, json_arg}
use langsmith_deployment_go.Auth.{Filters, apply_to_query}
use langsmith_deployment_go.Runs.Model.{Assistant, AssistantVersion, Database, has_assistant_id}
use langsmith_deployment_go.Runs.Create.{or_default, first_of, json_of, uuid_of, null_if_empty}
use langsmith_deployment_go.Runs.Insert.{optional_json, committed}
use langsmith_deployment_go.Threads.Query.{bound}
use langsmith_deployment_go.Threads.Rows.{merge_given}
use langsmith_deployment_go.Crons.Rows.{arg_of}
use langsmith_deployment_go.Assistants.Query.{has_version_of, selects_assistant}
use langsmith_deployment_go.Assistants.Rows.{version_of}

-- `none` is nil for the pointers and empty for the texts of JSON.
pub record PatchAssistantInput : Type 0 where
  pub name : Option String
  pub description : Option String
  pub graph_id : String
  pub config : Option String
  pub context_json : Option String
  pub metadata : Option String

-- Whether an argument is the searched value: both a string, or both a []byte, with the same content.
abbrev pub is_same_value : Arg → Arg → Bool
is_same_value (text_arg s) (text_arg t) = str_eq t s
is_same_value (text_arg s) (uuid_arg t) = str_eq t s
is_same_value (json_arg s) (json_arg t) = str_eq t s
is_same_value _ _ = false

-- The last place, counted from 1, that passes the test.
abbrev pub last_place : (Arg → Bool) → List Arg → Option ℕ
last_place p [] = none
last_place p (a ∷ as') = elim (last_place p as') [
  | some k ↦ some (suc k)
  | none ↦ if p a then some 1 else none
]

-- findArgIdx
unfoldable pub find_arg_idx : List Arg → Arg → ℕ
find_arg_idx args val = or_default (length args) (last_place (is_same_value val) args)

-- The argument of a placeholder.
abbrev pub arg_at : ℕ → List Arg → Option Arg
arg_at zero args = none
arg_at (suc n) [] = none
arg_at (suc zero) (a ∷ as') = some a
arg_at (suc (suc n)) (a ∷ as') = arg_at (suc n) as'

-- The arguments after those of the filters, in the order of the code.
abbrev pub patch_args : PatchAssistantInput → List Arg
patch_args i =
    arg_of text_arg (null_if_empty i.graph_id)
    ++ (arg_of json_arg i.config
        ++ (arg_of json_arg i.context_json
            ++ (arg_of json_arg i.metadata
                ++ (arg_of text_arg i.description ++ arg_of text_arg i.name))))

-- The string, or the []byte, of an argument.
abbrev pub text_of_arg : Option Arg → Result String
text_of_arg (some (text_arg s)) = ok s
text_of_arg (some (uuid_arg s)) = ok s
text_of_arg _ = err database

abbrev pub json_of_arg : Option Arg → Result String
json_of_arg (some (json_arg s)) = ok s
json_of_arg _ = err database

-- `col = $n`, `col = $n::jsonb` with the place that findArgIdx gives, for a value that is sent.
abbrev pub set_text : List Arg → Option String → Result (Option String)
set_text args none = ok none
set_text args (some s) =
    text_of_arg (arg_at (find_arg_idx args (text_arg s)) args) >>= λ t. ok (some t)

abbrev pub larger : ℕ → ℕ → ℕ
larger a b = if ltb a b then b else a

module _ {V : Type 0} where
  -- `SELECT MAX("version") …`, and 0 where there is no row
  abbrev pub max_version : List (AssistantVersion V) → ℕ
  max_version [] = 0
  max_version (v ∷ vs) = larger v.version (max_version vs)

  -- `COALESCE(MAX + 1, 1)`
  abbrev pub next_version : String → List (AssistantVersion V) → ℕ
  next_version u vs = suc (max_version (keep (has_version_of u) vs))

  abbrev pub update_assistants :
      (Assistant V → Bool) → (Assistant V → Assistant V) → List (Assistant V) → List (Assistant V)
  update_assistants p f [] = []
  update_assistants p f (a ∷ as') = (if p a then f a else a) ∷ update_assistants p f as'

module _ {V : Type 0} (pg : Postgres V) where
  abbrev pub set_json : List Arg → Option String → Result (Option V)
  set_json args none = ok none
  set_json args (some s) = json_of_arg (arg_at (find_arg_idx args (json_arg s)) args) >>= λ t.
      json_of pg t >>= λ v. ok (some v)

  -- A row with the given columns, at a version and a time.
  abbrev pub revised :
      ℕ
      → ℕ
      → Option String
      → Option V
      → Option V
      → Option V
      → Option String
      → Option String
      → Assistant V
      → Assistant V
  revised now n graph config context metadata description name a = record a {
    version = n;
    updated_at = now;
    graph_id = or_default a.graph_id graph;
    config = or_default a.config config;
    context = or_default a.context context;
    metadata = merge_given pg a.metadata metadata;
    description = first_of description a.description;
    name = or_default a.name name;
  }

  -- The version row takes the values that were sent, the assistant's row those at the places that
  -- findArgIdx gives; the metadata has the same place in both.
  unfoldable pub patch_statement :
      ℕ → Database V → String → PatchAssistantInput → Filters → Result (Assistant V × Database V)
  patch_statement now db id i fs = apply_to_query fs own_metadata 2 >>= λ e.
      let args = uuid_arg id ∷ (e.1 ++ patch_args i) in
      uuid_of pg id >>= λ u. bound pg args >>= λ ps. optional_json pg i.config >>= λ c.
      optional_json pg i.context_json >>= λ x. optional_json pg i.metadata >>= λ m.
      set_text args (null_if_empty i.graph_id) >>= λ graph. set_json args i.config >>= λ config.
      set_json args i.context_json >>= λ context. set_text args i.description >>= λ description.
      set_text args i.name >>= λ name.
      from_option not_found (find? (selects_assistant pg u e.0 ps) db.assistants) >>= λ a.
      let n = next_version u db.assistant_versions in
      let v =
        version_of now (revised now n (null_if_empty i.graph_id) c x m i.description i.name a) in
      let change = revised now n graph config context m description name in
      ok (
        change a,
        record db {
          assistants = update_assistants (has_assistant_id u) change db.assistants;
          assistant_versions = v ∷ db.assistant_versions;
        },
      )

  -- Patch
  unfoldable pub patch_assistant :
      ℕ → Database V → String → PatchAssistantInput → Filters → Result (Assistant V) × Database V
  patch_assistant now db id i fs = committed pg db (patch_statement now db id i fs)
