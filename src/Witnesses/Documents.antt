-- ===== src/Witnesses/Documents.antt =====
-- A small document store: a document is a list of texts under one-level keys, "" for a scalar.
use langsmith_deployment_go.Prelude.{
  ℕ, String, Bool, not, ◌&&◌, Option, none, some, List, [], ◌∷◌, ◌++◌, map, str_eq, any, all, keep,
  find?, if◌then◌else◌,
}
use langsmith_deployment_go.Sql.{Postgres}
use langsmith_deployment_go.Runs.Model.{
  RunStatus, pending, running, Run, Thread, Assistant, Database,
}

abbrev pub Document : Type 0
Document = List (String × String)

abbrev pub has_entry : String × String → Document → Bool
has_entry e d = any (λ x. str_eq x.0 e.0 && str_eq x.1 e.1) d

abbrev under : String → Document → Document
under k d = map (λ e. (k, e.1)) d

abbrev build_document : List (String × Document) → Document
build_document [] = []
build_document ((k, d) ∷ rest) = under k d ++ build_document rest

abbrev pub postgres : Postgres Document
postgres = record {
  uuid = λ s. if str_eq s "junk" then none else some s;
  parse = λ s. if str_eq s "{}" then some [] else some (("", s) ∷ []);
  empty = [];
  build = build_document;
  from_text = λ s. ("", s) ∷ [];
  null_value = ("", "null") ∷ [];
  merge = λ a b. b ++ a;
  field =
      λ a k. elim (find? (λ e. str_eq e.0 k) a) [ none ↦ none | some e ↦ some (("", e.1) ∷ []) ];
  text_field = λ a k. elim (find? (λ e. str_eq e.0 k) a) [ none ↦ none | some e ↦ some e.1 ];
  set_field = λ a k v. under k v ++ keep (λ e. not (str_eq e.0 k)) a;
  contains = λ a b. all (λ e. has_entry e a) b;
}

abbrev pub run_at : String → String → RunStatus → ℕ → Option ℕ → Run Document
run_at id thread s at lease = record {
  run_id = id;
  thread_id = thread;
  assistant_id = "a1";
  status = s;
  kwargs = [];
  multitask_strategy = "enqueue";
  created_at = at;
  updated_at = at;
  metadata = [];
  lease_generation = 1;
  run_after = none;
  attempt = 1;
  encryption_context = none;
  lease_holder_id = none;
  lease_expires_at = lease;
  cancel_requested_at = none;
}

abbrev pub thread_at : String → String → Thread Document
thread_at id owner = record {
  thread_id = id;
  status = "idle";
  metadata = ("owner", owner) ∷ [];
  config = [];
  created_at = 0;
  updated_at = 0;
  expires_at = none;
  state_updated_at = none;
  values = none;
  interrupts = [];
}

abbrev pub assistant : Assistant Document
assistant = record {
  assistant_id = "a1";
  graph_id = "agent";
  version = 1;
  created_at = 0;
  updated_at = 0;
  config = [];
  context = [];
  metadata = [];
  name = "";
  description = none;
}

-- Two runs wait on thread "t1", one runs on "t2" with a lease until 50.
abbrev pub first : Run Document
first = run_at "r1" "t1" pending 10 none

abbrev pub second : Run Document
second = run_at "r2" "t1" pending 20 none

abbrev pub leased : Run Document
leased = run_at "r3" "t2" running 5 (some 50)

abbrev pub database_of : List (Run Document) → Database Document
database_of rs = record {
  runs = rs;
  threads = thread_at "t1" "alice" ∷ thread_at "t2" "bob" ∷ [];
  assistants = assistant ∷ [];
  assistant_versions = [];
  checkpoints = [];
  checkpoint_writes = [];
  checkpoint_blobs = [];
}

abbrev pub waiting : Database Document
waiting = database_of (first ∷ second ∷ leased ∷ [])
