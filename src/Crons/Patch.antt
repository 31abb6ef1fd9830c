-- ===== src/Crons/Patch.antt =====
-- Patch and mergePayload of internal/crons/store.go. An error leaves the table as it was.
use langsmith_deployment_go.Prelude.{
  ℕ, String, Bool, not, ◌||◌, Option, none, some, List, ◌∷◌, str_eq, find?, if◌then◌else◌, Result,
  ok, not_found, database, json_error, from_option, ◌>>=◌,
}
use langsmith_deployment_go.Sql.{Postgres, own_metadata, uuid_arg, bind}
use langsmith_deployment_go.Auth.{Filters, apply_to_query}
use langsmith_deployment_go.Runs.Create.{or_default, first_of, uuid_of}
use langsmith_deployment_go.Runs.Insert.{optional_json}
use langsmith_deployment_go.Threads.Rows.{merge_given}
use langsmith_deployment_go.Crons.Rows.{
  Calendar, Cron, compute_next_run_from, has_cron_id, update_crons, selects_cron,
}

-- `none` is nil, and for the documents also the empty text.
pub record PatchCronInput : Type 0 where
  pub schedule : String
  pub timezone : String
  pub enabled : Option Bool
  pub end_time : Option ℕ
  pub payload : Option String
  pub metadata : Option String
  pub on_run_completed : Option String

-- encoding/json and jsonbutil: the object that a document decodes to, where null is the empty one,
-- and the document that stands for a payload of the legacy shape (itself for any other).
pub record Codec (V : Type 0) : Type 0 where
  pub object : V → Option V
  pub modern : V → V
  -- a text field of a struct, by its tag
  pub text_key : V → String → Option String

abbrev pub patches_schedule : PatchCronInput → Bool
patches_schedule i = not (str_eq i.schedule "") || not (str_eq i.timezone "")

-- The value of the patch, or the stored one where it is absent.
abbrev pub or_stored : String → String → String
or_stored s stored = if str_eq s "" then stored else s

module _ {V : Type 0} (pg : Postgres V) where
  -- The new next_run_date. The stored row is read by its id alone.
  unfoldable pub patched_next_run :
      Calendar → ℕ → List (Cron V) → String → PatchCronInput → Result (Option ℕ)
  patched_next_run cal wall cs id i =
      if not (patches_schedule i)
      then ok none
      else if str_eq i.schedule "" || str_eq i.timezone ""
      then (uuid_of pg id >>= λ u. from_option not_found (find? (has_cron_id u) cs) >>= λ c.
          compute_next_run_from cal (or_stored i.schedule c.schedule)
            (or_stored i.timezone c.timezone) wall
          >>= λ n. ok (some n))
      else (compute_next_run_from cal i.schedule i.timezone wall >>= λ n. ok (some n))

  -- mergePayload: the keys of the patch win, all other keys of the stored object stay.
  unfoldable pub merge_payload : Codec V → V → V → Result V
  merge_payload codec stored patch =
      let base : V = elim (codec.object stored) [ none ↦ pg.empty | some o ↦ codec.modern o ] in
      from_option json_error (codec.object patch) >>= λ p. ok (pg.merge base p)

  -- The row lock reads the payload under the filters.
  abbrev pub locked_payload :
      Codec V → List (Cron V) → (Cron V → Bool) → Option V → Result (Option V)
  locked_payload codec cs hit none = ok none
  locked_payload codec cs hit (some patch) = from_option not_found (find? hit cs) >>= λ c.
      merge_payload codec c.payload patch >>= λ v. ok (some v)

  abbrev pub patched_cron : ℕ → Option ℕ → Option V → Option V → PatchCronInput → Cron V → Cron V
  patched_cron now next payload metadata i c = record c {
    updated_at = now;
    next_run_date = first_of next c.next_run_date;
    schedule = or_stored i.schedule c.schedule;
    timezone = or_stored i.timezone c.timezone;
    enabled = or_default c.enabled i.enabled;
    end_time = first_of i.end_time c.end_time;
    payload = or_default c.payload payload;
    metadata = merge_given pg c.metadata metadata;
    on_run_completed = or_default c.on_run_completed i.on_run_completed;
  }

  -- Patch
  unfoldable pub patch_cron :
      Calendar
      → Codec V
      → ℕ
      → ℕ
      → List (Cron V)
      → String
      → PatchCronInput
      → Filters
      → Result (Cron V × List (Cron V))
  patch_cron cal codec wall now cs id i filters = apply_to_query filters own_metadata 2 >>= λ e.
      patched_next_run cal wall cs id i >>= λ next. uuid_of pg id >>= λ u.
      from_option database (bind pg (uuid_arg id ∷ e.1)) >>= λ ps.
      let hit = selects_cron pg u e.0 ps in
      optional_json pg i.payload >>= λ p. locked_payload codec cs hit p >>= λ payload.
      optional_json pg i.metadata >>= λ metadata. from_option not_found (find? hit cs) >>= λ c.
      let change = patched_cron now next payload metadata i in
      ok (change c, update_crons hit change cs)
