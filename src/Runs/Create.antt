-- ===== src/Runs/Create.antt =====
-- Create of internal/runs/store.go: one transaction, whose error gives the old database back.
use langsmith_deployment_go.Prelude.{
  ℕ, String, Bool, not, ◌&&◌, ◌||◌, Option, none, some, List, [], ◌∷◌, str_eq, any, find?, keep,
  ◌==◌, if◌then◌else◌, Result, ok, not_found, inflight, database, from_option, guard, ◌>>=◌, ◌>>◌,
}
use langsmith_deployment_go.Sql.{Postgres, own_metadata, uuid_arg, bind, passes, eval_all, optional}
use langsmith_deployment_go.Auth.{Filters, apply_to_query}
use langsmith_deployment_go.Runs.Model.{
  RunStatus, is_pending, is_running, Run, Thread, Assistant, Database, has_thread_id,
  has_assistant_id, metadata_row,
}
use langsmith_deployment_go.Runs.Lease.{run_ids}

pub record CreateRunInput : Type 0 where
  pub run_id : String
  pub thread_id : String
  pub assistant_id : String
  -- `none` is the empty text
  pub status : Option RunStatus
  -- `none` is nil
  pub kwargs_json : Option String
  pub metadata : Option String
  pub multitask_strategy : String
  pub after_seconds : ℕ
  pub encryption_context : Option String
  pub user_id : String
  pub if_not_exists : ℕ

pub record CreateResult (V : Type 0) : Type 0 where
  pub run : Run V
  pub inflight_run_ids : List String

abbrev pub or_default {ℓ} : {A : Type ℓ} → A → Option A → A
or_default d none = d
or_default d (some a) = a

abbrev pub first_of {ℓ} : {A : Type ℓ} → Option A → Option A → Option A
first_of none b = b
first_of (some a) b = some a

-- `strategy == ""` is "reject".
abbrev pub strategy_of : CreateRunInput → String
strategy_of i = if str_eq i.multitask_strategy "" then "reject" else i.multitask_strategy

-- `IfNotExists == 1 || ThreadID == ""`
abbrev pub creates_thread : CreateRunInput → Bool
creates_thread i = i.if_not_exists == 1 || str_eq i.thread_id ""

-- `NULLIF(s, '')`
abbrev pub null_if_empty : String → Option String
null_if_empty s = if str_eq s "" then none else some s

module _ {V : Type 0} (pg : Postgres V) where
  -- `$n::jsonb`
  abbrev pub json_of : String → Result V
  json_of s = from_option database (pg.parse s)

  abbrev pub uuid_of : String → Result String
  uuid_of s = from_option database (pg.uuid s)

  -- `COALESCE(v -> 'k', '{}')`
  abbrev pub field_or_empty : V → String → V
  field_or_empty v k = or_default pg.empty (pg.field v k)

  -- requestConfig: `config` of the request's kwargs, or `{}`. Go decodes the text with
  -- encoding/json, which is taken to accept the same documents as the cast to jsonb, and to give back
  -- the numbers in them, which pass through a float64.
  abbrev pub request_config : String → V
  request_config kwargs = elim (pg.parse kwargs) [
    | none ↦ pg.empty
    | some v ↦ field_or_empty v "config"
  ]

  -- `SELECT EXISTS(SELECT 1 FROM assistant WHERE assistant_id = $1::uuid AND …)`
  unfoldable pub assistant_exists : Database V → String → Filters → Result Bool
  assistant_exists db id filters = apply_to_query filters own_metadata 2 >>= λ e.
      uuid_of id >>= λ u. from_option database (bind pg (uuid_arg id ∷ e.1)) >>= λ ps. ok (
        any
          (λ a.
            has_assistant_id u a
            && passes (eval_all pg (optional e.0) (metadata_row a.metadata) ps))
          db.assistants)

  -- The same for `thread`.
  unfoldable pub thread_visible : Database V → String → Filters → Result Bool
  thread_visible db id filters = apply_to_query filters own_metadata 2 >>= λ e. uuid_of id >>= λ u.
      from_option database (bind pg (uuid_arg id ∷ e.1)) >>= λ ps. ok (
        any
          (λ t.
            has_thread_id u t && passes (eval_all pg (optional e.0) (metadata_row t.metadata) ps))
          db.threads)

  abbrev pub seeded_thread : ℕ → String → V → V → Assistant V → Thread V
  seeded_thread now u metadata config a = record {
    thread_id = u;
    status = "busy";
    metadata =
        pg.merge
          (pg.build (
            ("graph_id", pg.from_text a.graph_id)
            ∷ ("assistant_id", pg.from_text a.assistant_id)
            ∷ []))
          metadata;
    config = pg.merge (pg.merge a.config config) (
        pg.build (
          (
            "configurable",
            pg.merge (field_or_empty a.config "configurable")
                (field_or_empty config "configurable"),
          )
          ∷ []));
    created_at = now;
    updated_at = now;
    expires_at = none;
    state_updated_at = none;
    values = none;
    interrupts = pg.empty;
  }

  -- `INSERT INTO thread … ON CONFLICT (thread_id) DO NOTHING`
  abbrev pub put_thread : Thread V → List (Thread V) → List (Thread V)
  put_thread t ts = if any (has_thread_id t.thread_id) ts then ts else t ∷ ts

  abbrev pub insert_thread_for :
      ℕ → String → V → V → Option (Assistant V) → List (Thread V) → List (Thread V)
  insert_thread_for now u metadata config none ts = ts
  insert_thread_for now u metadata config (some a) ts =
      put_thread (seeded_thread now u metadata config a) ts

  -- The check of the thread, and its creation where it is missing and may be created.
  unfoldable pub ensure_thread :
      ℕ → Database V → String → CreateRunInput → String → String → Filters → Result (Database V)
  ensure_thread now db thread i kwargs metadata filters =
      thread_visible db thread filters >>= λ exists.
      if exists
      then ok db
      else (guard (creates_thread i) not_found
          >> (uuid_of thread >>= λ u. uuid_of i.assistant_id >>= λ a. json_of metadata >>= λ m.
              ok (record db {
                threads =
                    insert_thread_for now u m (request_config kwargs)
                      (find? (has_assistant_id a) db.assistants) db.threads;
              })))

  abbrev pub occupied_thread : V → Assistant V → Thread V → Thread V
  occupied_thread config a t = record t {
    metadata =
        pg.set_field (pg.set_field t.metadata "graph_id" (pg.from_text a.graph_id)) "assistant_id"
          (pg.from_text a.assistant_id);
    config = pg.merge (pg.merge (pg.merge a.config t.config) config) (
        pg.build (
          (
            "configurable",
            pg.merge
                (pg.merge (field_or_empty a.config "configurable")
                  (field_or_empty t.config "configurable"))
                (field_or_empty config "configurable"),
          )
          ∷ []));
    status = "busy";
  }

  abbrev pub update_threads :
      (Thread V → Bool) → (Thread V → Thread V) → List (Thread V) → List (Thread V)
  update_threads p f [] = []
  update_threads p f (t ∷ ts) = (if p t then f t else t) ∷ update_threads p f ts

  -- `UPDATE thread … FROM assistant … AND thread.status != 'busy'`
  unfoldable pub occupy_thread : Database V → String → Option (Assistant V) → V → Database V
  occupy_thread db u none config = db
  occupy_thread db u (some a) config = record db {
    threads =
        update_threads (λ t. has_thread_id u t && not (str_eq t.status "busy"))
          (occupied_thread config a) db.threads;
  }

  abbrev pub is_inflight : String → Run V → Bool
  is_inflight u r = str_eq r.thread_id u && (is_pending r.status || is_running r.status)

  -- The switch on the multitask strategy: the displaced runs, or ErrInflight.
  unfoldable pub check_inflight : Database V → String → String → Result (List String)
  check_inflight db u strategy =
      if str_eq strategy "reject"
      then (guard (not (any (is_inflight u) db.runs)) inflight >> ok [])
      else if str_eq strategy "rollback" || str_eq strategy "interrupt"
      then ok (run_ids (keep (is_inflight u) db.runs))
      else ok []
