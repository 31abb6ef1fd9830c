-- ===== src/Crons/Rows.antt =====
-- The rows of internal/crons/store.go with computeNextRunFrom, Create, Delete and SetNextRunDate.
-- `cron` has no foreign key to `thread`; that to `assistant` is taken to be there.
use langsmith_deployment_go.Prelude.{
  ℕ, ◌+◌, String, Bool, true, false, not, ◌&&◌, ◌||◌, Option, none, some, List, [], ◌∷◌, ◌++◌,
  str_eq, any, find?, keep, length, if◌then◌else◌, Result, ok, not_found, database, schedule_error,
  from_option, guard, ◌>>=◌, ◌>>◌,
}
use langsmith_deployment_go.Sql.{
  Postgres, own_metadata, Arg, uuid_arg, text_arg, json_arg, number_arg, Param, Cond, bind, passes,
  eval_all, optional,
}
use langsmith_deployment_go.Auth.{Filters, is_empty, apply_to_query}
use langsmith_deployment_go.Runs.Model.{Database, has_thread_id, has_assistant_id, metadata_row}
use langsmith_deployment_go.Runs.Create.{or_default, json_of, uuid_of}
use langsmith_deployment_go.Runs.Insert.{optional_json}

-- github.com/robfig/cron and the time zones: whether time.LoadLocation knows a zone, whether the
-- parser accepts a schedule, and Schedule.Next after a time, which is 0 (Go's zero time) if the
-- schedule has no such time.
pub record Calendar : Type 0 where
  pub has_location : String → Bool
  pub parses : String → Bool
  pub next_time : String → String → ℕ → ℕ

pub record Cron (V : Type 0) : Type 0 where
  pub cron_id : String
  pub thread_id : Option String
  pub user_id : Option String
  pub assistant_id : String
  pub schedule : String
  pub next_run_date : Option ℕ
  pub end_time : Option ℕ
  pub payload : V
  pub metadata : V
  pub created_at : ℕ
  pub updated_at : ℕ
  pub enabled : Bool
  pub timezone : String
  -- "" for NULL
  pub on_run_completed : String
  pub encryption_context : Option V

-- `none` is nil or the empty text, which the code takes alike.
pub record CreateCronInput : Type 0 where
  pub cron_id : String
  pub assistant_id : String
  pub thread_id : Option String
  pub user_id : Option String
  pub schedule : String
  pub timezone : String
  pub enabled : Bool
  pub end_time : Option ℕ
  pub payload : Option String
  pub metadata : Option String
  pub on_run_completed : Option String
  pub encryption_context : Option String
  pub filters : Filters
  pub assistant_filters : Filters
  pub thread_filters : Filters

-- computeNextRunFrom
unfoldable pub compute_next_run_from : Calendar → String → String → ℕ → Result ℕ
compute_next_run_from cal schedule timezone base =
    guard (str_eq timezone "" || cal.has_location timezone) schedule_error
    >> (guard (cal.parses schedule) schedule_error >> ok (cal.next_time schedule timezone base))

abbrev pub arg_of {ℓ} : {A : Type ℓ} → (A → Arg) → Option A → List Arg
arg_of f none = []
arg_of f (some a) = f a ∷ []

abbrev pub bool_text : Bool → String
bool_text true = "true"
bool_text false = "false"

-- The arguments before those of the filters.
abbrev pub cron_args : String → ℕ → CreateCronInput → List Arg
cron_args id next i =
    uuid_arg id
    ∷ uuid_arg i.assistant_id
    ∷ text_arg i.schedule
    ∷ text_arg i.timezone
    ∷ text_arg (bool_text i.enabled)
    ∷ number_arg next
    ∷ json_arg (or_default "{}" i.payload)
    ∷ json_arg (or_default "{}" i.metadata)
    ∷ (arg_of uuid_arg i.thread_id
        ++ (arg_of text_arg i.user_id
            ++ (arg_of number_arg i.end_time
                ++ (arg_of text_arg i.on_run_completed ++ arg_of json_arg i.encryption_context))))

-- The filters of a CTE, which is written only where they are given.
abbrev pub cte_filters : Bool → Filters → ℕ → Result (Option Cond × List Arg)
cte_filters given fs start = if given then apply_to_query fs own_metadata start else ok (none, [])

module _ {V : Type 0} where
  abbrev pub has_cron_id : String → Cron V → Bool
  has_cron_id u c = str_eq c.cron_id u

  abbrev pub update_crons : (Cron V → Bool) → (Cron V → Cron V) → List (Cron V) → List (Cron V)
  update_crons p f [] = []
  update_crons p f (c ∷ cs) = (if p c then f c else c) ∷ update_crons p f cs

  -- SetNextRunDate
  unfoldable pub set_next_run_date : String → ℕ → List (Cron V) → List (Cron V)
  set_next_run_date u next cs =
      update_crons (has_cron_id u) (λ c. record c { next_run_date = some next }) cs

module _ {V : Type 0} (pg : Postgres V) where
  abbrev pub meets : Option Cond → List (Param V) → V → Bool
  meets frag ps m = passes (eval_all pg (optional frag) (metadata_row m) ps)

  -- `cron_id = $1::uuid AND …`
  abbrev pub selects_cron : String → Option Cond → List (Param V) → Cron V → Bool
  selects_cron u frag ps c = has_cron_id u c && meets frag ps c.metadata

  abbrev pub uuid_or_null : Option String → Result (Option String)
  uuid_or_null none = ok none
  uuid_or_null (some s) = uuid_of pg s >>= λ u. ok (some u)

  abbrev pub new_cron :
      ℕ → String → String → Option String → ℕ → V → V → Option V → CreateCronInput → Cron V
  new_cron now u assistant thread next payload metadata encryption i = record {
    cron_id = u;
    thread_id = thread;
    user_id = i.user_id;
    assistant_id = assistant;
    schedule = i.schedule;
    next_run_date = some next;
    end_time = i.end_time;
    payload = payload;
    metadata = metadata;
    created_at = now;
    updated_at = now;
    enabled = i.enabled;
    timezone = i.timezone;
    on_run_completed = or_default "" i.on_run_completed;
    encryption_context = encryption;
  }

  -- The rows of authorized_assistant and of authorized_thread; without filters there is no CTE.
  abbrev pub assistant_allowed :
      Database V → CreateCronInput → String → Option Cond → List (Param V) → Bool
  assistant_allowed db i a frag ps =
      is_empty i.assistant_filters
      || any (λ x. has_assistant_id a x && meets frag ps x.metadata) db.assistants

  abbrev pub thread_allowed :
      Database V → CreateCronInput → Option String → Option Cond → List (Param V) → Bool
  thread_allowed db i none frag ps = true
  thread_allowed db i (some t) frag ps =
      is_empty i.thread_filters
      || any (λ x. has_thread_id t x && meets frag ps x.metadata) db.threads

  abbrev pub is_threaded : CreateCronInput → Bool
  is_threaded i = elim i.thread_id [ none ↦ false | some t ↦ not (is_empty i.thread_filters) ]

  -- The statement: the INSERT where both CTEs have a row and the id is free, and otherwise the row
  -- that was there before and that the cron's own filters show.
  abbrev pub insert_cron :
      Database V → List (Cron V) → Bool → (Cron V → Bool) → Cron V → Result (Cron V × List (Cron V))
  insert_cron db cs allowed shown c =
      if allowed && not (any (has_cron_id c.cron_id) cs)
      then (guard (any (has_assistant_id c.assistant_id) db.assistants) database >> ok (c, c ∷ cs))
      else (from_option not_found (find? shown cs) >>= λ old. ok (old, cs))

  -- Create, at the time `wall` of this process and `now` of the database. `fresh` is newUUID().
  unfoldable pub create_cron :
      Calendar
      → ℕ
      → ℕ
      → Database V
      → List (Cron V)
      → String
      → CreateCronInput
      → Result (Cron V × List (Cron V))
  create_cron cal wall now db cs fresh i =
      let id = if str_eq i.cron_id "" then fresh else i.cron_id in
      compute_next_run_from cal i.schedule i.timezone wall >>= λ next.
      let base = cron_args id next i in
      cte_filters (not (is_empty i.assistant_filters)) i.assistant_filters (length base + 1)
      >>= λ a. cte_filters (is_threaded i) i.thread_filters (length (base ++ a.1) + 1) >>= λ t.
          apply_to_query i.filters own_metadata (length ((base ++ a.1) ++ t.1) + 1) >>= λ f.
          from_option database (bind pg (((base ++ a.1) ++ t.1) ++ f.1)) >>= λ ps.
          uuid_of pg id >>= λ u. uuid_of pg i.assistant_id >>= λ assistant.
          uuid_or_null i.thread_id >>= λ thread.
          json_of pg (or_default "{}" i.payload) >>= λ payload.
          json_of pg (or_default "{}" i.metadata) >>= λ metadata.
          optional_json pg i.encryption_context >>= λ encryption.
          insert_cron db cs
            (assistant_allowed db i assistant a.0 ps && thread_allowed db i thread t.0 ps)
            (selects_cron u f.0 ps)
            (new_cron now u assistant thread next payload metadata encryption i)

  -- Delete
  unfoldable pub delete_cron : List (Cron V) → String → Filters → Result (List (Cron V))
  delete_cron cs id filters = apply_to_query filters own_metadata 2 >>= λ e.
      from_option database (bind pg (uuid_arg id ∷ e.1)) >>= λ ps. uuid_of pg id >>= λ u.
      guard (any (selects_cron u e.0 ps) cs) not_found
      >> ok (keep (λ c. not (selects_cron u e.0 ps c)) cs)
