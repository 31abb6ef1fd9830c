-- ===== src/Assistants/Handlers.antt =====
-- The handlers of internal/assistants/service.go: each gives its reply and the tables after it. An
-- assistant stands for its message, and the config of a request for the text that encoding/json
-- gives of it.
use langsmith_deployment_go.Prelude.{
  ℕ, String, Bool, Option, none, some, List, if◌then◌else◌, Error, not_found, already_exists,
  Result, ok, err,
}
use langsmith_deployment_go.Sql.{Postgres}
use langsmith_deployment_go.Auth.{Filters}
use langsmith_deployment_go.Runs.Model.{Assistant, AssistantVersion, Database}
use langsmith_deployment_go.Runs.Create.{or_default}
use langsmith_deployment_go.Service.Signals.{
  Code, Reply, reply, status, code_not_found, code_internal, code_already_exists,
}
use langsmith_deployment_go.Threads.Handlers.{order_text}
use langsmith_deployment_go.Crons.Rows.{Cron}
use langsmith_deployment_go.Assistants.Query.{
  AssistantSearch, get_assistant, search_assistants, count_assistants, get_versions,
}
use langsmith_deployment_go.Assistants.Rows.{
  CreateAssistantInput, create_assistant, delete_assistant,
}
use langsmith_deployment_go.Assistants.Patch.{PatchAssistantInput, patch_assistant}
use langsmith_deployment_go.Assistants.Latest.{set_latest}

pub data AssistantsSortBy : Type 0 where
  sort_assistant_id sort_graph_id sort_name sort_created_at sort_updated_at : AssistantsSortBy
  sort_unknown : AssistantsSortBy

-- assistantsSortByName, with the empty text for a missing key
abbrev pub assistants_sort_by_name : AssistantsSortBy → String
assistants_sort_by_name sort_assistant_id = "assistant_id"
assistants_sort_by_name sort_graph_id = "graph_id"
assistants_sort_by_name sort_name = "name"
assistants_sort_by_name sort_created_at = "created_at"
assistants_sort_by_name sort_updated_at = "updated_at"
assistants_sort_by_name sort_unknown = ""

-- mapErr
abbrev pub map_assistant_err : Error → Code
map_assistant_err not_found = code_not_found
map_assistant_err already_exists = code_already_exists
map_assistant_err _ = code_internal

pub record SearchAssistantsRequest : Type 0 where
  pub graph_id : Option String
  pub name : Option String
  pub metadata_json : Option String
  pub limit : ℕ
  pub offset : ℕ
  pub sort_column : Option AssistantsSortBy
  pub sort_ascending : Option Bool

pub record CreateAssistantRequest : Type 0 where
  pub assistant_id : String
  pub graph_id : String
  pub name : String
  pub description : Option String
  pub config : Option String
  pub context_json : Option String
  pub metadata_json : Option String
  pub do_nothing : Bool

abbrev pub sort_name_text : Option AssistantsSortBy → String
sort_name_text none = ""
sort_name_text (some c) = assistants_sort_by_name c

abbrev pub assistant_search : SearchAssistantsRequest → AssistantSearch
assistant_search req = record {
  graph_id = or_default "" req.graph_id;
  name = or_default "" req.name;
  metadata_filter = req.metadata_json;
  limit = req.limit;
  offset = req.offset;
  sort_column = sort_name_text req.sort_column;
  sort_order = order_text req.sort_ascending;
}

abbrev pub assistant_count : SearchAssistantsRequest → AssistantSearch
assistant_count req = record {
  graph_id = or_default "" req.graph_id;
  name = or_default "" req.name;
  metadata_filter = req.metadata_json;
  limit = 0;
  offset = 0;
  sort_column = "";
  sort_order = "";
}

abbrev pub assistant_input : CreateAssistantRequest → Filters → CreateAssistantInput
assistant_input req fs = record {
  assistant_id = req.assistant_id;
  graph_id = req.graph_id;
  name = req.name;
  description = req.description;
  config = req.config;
  context_json = req.context_json;
  metadata = req.metadata_json;
  if_exists = if req.do_nothing then "do_nothing" else "raise";
  filters = fs;
}

abbrev pub to_reply : {A : Type 0} → Result A → Reply A
to_reply (err e) = status (map_assistant_err e)
to_reply (ok a) = reply a

module _ {V : Type 0} (pg : Postgres V) where
  -- Service.Get
  unfoldable pub get_assistant_rpc : Database V → String → Filters → Reply (Assistant V)
  get_assistant_rpc db id fs = to_reply (get_assistant pg db id fs)

  -- Service.Search
  unfoldable pub search_assistants_rpc :
      Database V → SearchAssistantsRequest → Filters → Reply (List (Assistant V))
  search_assistants_rpc db req fs = to_reply (search_assistants pg db (assistant_search req) fs)

  -- Service.Count
  unfoldable pub count_assistants_rpc : Database V → SearchAssistantsRequest → Filters → Reply ℕ
  count_assistants_rpc db req fs = to_reply (count_assistants pg db (assistant_count req) fs)

  -- Service.GetVersions
  unfoldable pub get_versions_rpc :
      Database V → String → ℕ → ℕ → Option String → Filters → Reply (List (AssistantVersion V))
  get_versions_rpc db id limit offset metadata fs =
      to_reply (get_versions pg db id limit offset metadata fs)

  -- Service.Create
  unfoldable pub create_assistant_rpc :
      ℕ → Database V → String → CreateAssistantRequest → Filters → Reply (Assistant V) × Database V
  create_assistant_rpc now db fresh req fs =
      let done = create_assistant pg now db fresh (assistant_input req fs) in
      (to_reply done.0, done.1)

  -- Service.Patch
  unfoldable pub patch_assistant_rpc :
      ℕ → Database V → String → PatchAssistantInput → Filters → Reply (Assistant V) × Database V
  patch_assistant_rpc now db id i fs =
      let done = patch_assistant pg now db id i fs in (to_reply done.0, done.1)

  abbrev pub deleted_reply :
      Database V
      → List (Cron V)
      → Result (List String × Database V × List (Cron V))
      → Reply (List String) × Database V × List (Cron V)
  deleted_reply db cs (err e) = (status (map_assistant_err e), db, cs)
  deleted_reply db cs (ok left) = (reply left.0, left.1, left.2)

  -- Service.Delete
  unfoldable pub delete_assistant_rpc :
      Database V
      → List (Cron V)
      → String
      → Bool
      → Filters
      → Reply (List String) × Database V × List (Cron V)
  delete_assistant_rpc db cs id with_threads fs =
      deleted_reply db cs (delete_assistant pg db cs id with_threads fs)

  -- Service.SetLatest
  unfoldable pub set_latest_rpc :
      Database V → String → ℕ → Filters → Reply (Assistant V) × Database V
  set_latest_rpc db id n fs = let done = set_latest pg db id n fs in (to_reply done.0, done.1)
