-- ===== src/Crons/Scheduler.antt =====
-- schedulerTick of internal/crons/scheduler.go with its helpers.
use langsmith_deployment_go.Prelude.{
  ℕ, String, Bool, Option, none, some, List, [], ◌∷◌, str_eq, if◌then◌else◌,
}
use langsmith_deployment_go.Sql.{Postgres}
use langsmith_deployment_go.Service.Signals.{
  MultitaskStrategy, reject, roll_back, interrupt, enqueue,
}
use langsmith_deployment_go.Crons.Rows.{Calendar, Cron}
use langsmith_deployment_go.Crons.Patch.{Codec}
use langsmith_deployment_go.Crons.Next.{next_crons}

-- The CreateRunRequest of a tick, which always creates a missing thread.
pub record CronRun (V : Type 0) : Type 0 where
  pub assistant_id : String
  pub kwargs : V
  pub metadata : V
  pub multitask_strategy : MultitaskStrategy
  pub thread_id : Option String
  pub user_id : Option String

-- MultitaskStrategy_value
abbrev pub multitask_value : String → Option MultitaskStrategy
multitask_value s =
    if str_eq s "reject"
    then some reject
    else if str_eq s "rollback"
    then some roll_back
    else if str_eq s "interrupt"
    then some interrupt
    else if str_eq s "enqueue"
    then some enqueue
    else none

module _ {V : Type 0} (pg : Postgres V) (codec : Codec V) where
  abbrev pub set_default : V → String → V → V
  set_default m k v = elim (pg.field m k) [
    | none ↦ pg.merge m (pg.build ((k, v) ∷ []))
    | some w ↦ m
  ]

  -- injectOnCompletion
  unfoldable pub inject_on_completion : V → String → V
  inject_on_completion payload on_run_completed =
      if str_eq on_run_completed "keep"
      then elim (codec.object payload) [
        | none ↦ payload
        | some m ↦ set_default m "on_completion" (pg.from_text "keep")
      ]
      else payload

  -- multitaskStrategyFromPayload
  unfoldable pub multitask_strategy_from_payload : V → MultitaskStrategy
  multitask_strategy_from_payload payload = elim (codec.text_key payload "multitask_strategy") [
    | none ↦ enqueue
    | some s ↦ elim (multitask_value s) [ none ↦ enqueue | some m ↦ m ]
  ]

  abbrev pub object_or_empty : V → V
  object_or_empty v = elim (codec.object v) [ none ↦ pg.empty | some m ↦ m ]

  -- The object under the payload's key "metadata".
  abbrev pub payload_metadata : V → Option V
  payload_metadata payload = elim (codec.object payload) [
    | none ↦ none
    | some m ↦ elim (pg.field m "metadata") [ none ↦ none | some v ↦ codec.object v ]
  ]

  -- mergeCronMetadata: the payload's keys win.
  unfoldable pub merge_cron_metadata : V → V → V
  merge_cron_metadata metadata payload = elim (payload_metadata payload) [
    | none ↦ object_or_empty metadata
    | some m ↦ pg.merge (object_or_empty metadata) m
  ]

  unfoldable pub run_of_cron : Cron V → CronRun V
  run_of_cron c =
      let payload = inject_on_completion c.payload c.on_run_completed in
      record {
        assistant_id = c.assistant_id;
        kwargs = payload;
        metadata = merge_cron_metadata c.metadata payload;
        multitask_strategy = multitask_strategy_from_payload payload;
        thread_id = c.thread_id;
        user_id = c.user_id;
      }

  -- One run for each claimed cron, in order. `create` is RunsCreator.Create; its error is logged.
  unfoldable pub fire_each : {S : Type 0} → (CronRun V → S → S) → List (Cron V) → S → S
  fire_each create [] s = s
  fire_each create (c ∷ cs) s = fire_each create cs (create (run_of_cron c) s)

  -- schedulerTick: without the advisory lock another replica is the leader, and nothing happens.
  unfoldable pub scheduler_tick :
      {S : Type 0}
      → Calendar
      → Bool
      → (Cron V → Bool)
      → (CronRun V → S → S)
      → ℕ
      → List (Cron V)
      → S
      → S × List (Cron V)
  scheduler_tick cal leads locked create now cs s =
      if leads
      then (let claimed = next_crons cal locked now cs in (fire_each create claimed.0 s, claimed.1))
      else (s, cs)
