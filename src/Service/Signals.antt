-- ===== src/Service/Signals.antt =====
-- The Redis side of internal/runs/service.go, and its maps between texts, enums and status codes.
use langsmith_deployment_go.Prelude.{
  ℕ, String, Bool, true, false, Option, none, some, List, [], ◌∷◌, ◌++◌, map, str_eq, if◌then◌else◌,
  Error, not_found, forbidden,
}
use langsmith_deployment_go.Redis.{
  Command, set_key, publish, push, Payload, plain, signal, run_control_channel,
  run_terminal_channel, run_queue_key,
}
use langsmith_deployment_go.Runs.Model.{
  RunStatus, pending, running, error, success, timeout, interrupted, rollback,
}
use langsmith_deployment_go.Runs.Cancel.{CancelResult}

-- What a Service holds: whether Redis and the streamer are there, `cfg.StreamMaxLen` if there is a
-- configuration, and google/uuid's Parse, which gives the canonical text.
pub record Backend : Type 0 where
  pub has_redis : Bool
  pub has_streamer : Bool
  pub stream_max_len : Option ℕ
  pub parse_uuid : String → Option String

pub data Code : Type 0 where
  code_not_found code_internal code_invalid_argument code_already_exists code_unavailable : Code
  code_failed_precondition : Code

pub data Reply (A : Type 0) : Type 0 where
  reply : A → Reply A
  status : Code → Reply A

-- mapErr of internal/runs/service.go
abbrev pub map_err : Error → Code
map_err not_found = code_not_found
map_err forbidden = code_not_found
map_err _ = code_internal

-- runStatusTextToEnum: an unknown text is `pending`, the zero value.
unfoldable pub run_status_text_to_enum : String → RunStatus
run_status_text_to_enum s =
    if str_eq s "pending"
    then pending
    else if str_eq s "running"
    then running
    else if str_eq s "error"
    then error
    else if str_eq s "success"
    then success
    else if str_eq s "timeout"
    then timeout
    else if str_eq s "interrupted"
    then interrupted
    else if str_eq s "rollback"
    then rollback
    else pending

pub data MultitaskStrategy : Type 0 where
  reject roll_back interrupt enqueue : MultitaskStrategy

-- multitaskTextToEnum
unfoldable pub multitask_text_to_enum : String → MultitaskStrategy
multitask_text_to_enum s =
    if str_eq s "reject"
    then reject
    else if str_eq s "rollback"
    then roll_back
    else if str_eq s "interrupt"
    then interrupt
    else if str_eq s "enqueue"
    then enqueue
    else reject

pub data ControlSignal : Type 0 where
  unknown_signal interrupt_signal rollback_signal done_signal subscribed_signal : ControlSignal

-- ControlSignal_value
abbrev pub control_signal_value : String → Option ControlSignal
control_signal_value s =
    if str_eq s "unknown"
    then some unknown_signal
    else if str_eq s "interrupt"
    then some interrupt_signal
    else if str_eq s "rollback"
    then some rollback_signal
    else if str_eq s "done"
    then some done_signal
    else if str_eq s "subscribed"
    then some subscribed_signal
    else none

abbrev pub or_signal : Option ControlSignal → ControlSignal → ControlSignal
or_signal none d = d
or_signal (some s) d = s

-- parseControlSignal. A plain text is taken not to be a JSON object that holds a signal.
unfoldable pub parse_control_signal : Payload → ControlSignal
parse_control_signal (plain s) = or_signal (control_signal_value s) unknown_signal
parse_control_signal (signal s) =
    if str_eq s "" then unknown_signal else or_signal (control_signal_value s) unknown_signal

-- cancelStatusToRunStatuses
pub data CancelRunStatus : Type 0 where
  cancel_pending cancel_running cancel_all cancel_other : CancelRunStatus

abbrev pub cancel_status_to_run_statuses : CancelRunStatus → List String
cancel_status_to_run_statuses cancel_pending = "pending" ∷ []
cancel_status_to_run_statuses cancel_running = "running" ∷ []
cancel_status_to_run_statuses cancel_all = "pending" ∷ "running" ∷ []
cancel_status_to_run_statuses cancel_other = []

abbrev pub when : Bool → Command → List Command
when true c = c ∷ []
when false c = []

module _ (b : Backend) where
  abbrev pub signal_one : String → CancelResult → List Command
  signal_one action r = if r.deleted then [] else elim (b.parse_uuid r.run_id) [
    | none ↦ []
    | some u ↦
        when b.has_redis (set_key (run_control_channel u) action 60)
        ++ when b.has_streamer (publish (run_control_channel u) (signal action))
  ]

  -- publishCancelSignals
  unfoldable pub publish_cancel_signals : List CancelResult → String → List Command
  publish_cancel_signals [] action = []
  publish_cancel_signals (r ∷ rs) action = signal_one action r ++ publish_cancel_signals rs action

  -- publishTerminalDone
  unfoldable pub publish_terminal_done : String → List Command
  publish_terminal_done run =
      if b.has_streamer
      then elim (b.parse_uuid run) [
        | none ↦ []
        | some u ↦ publish (run_terminal_channel u) (plain "done") ∷ []
      ]
      else []

  -- publishCancelTerminals
  unfoldable pub publish_cancel_terminals : List CancelResult → List Command
  publish_cancel_terminals [] = []
  publish_cancel_terminals (r ∷ rs) =
      let rest = publish_cancel_terminals rs in
      if r.terminal then publish_terminal_done r.run_id ++ rest else rest

  -- RPush on the run queue, one for each id.
  abbrev pub wake : List String → List Command
  wake ids = if b.has_redis then map (push run_queue_key) ids else []
