-- ===== src/Service/Publish.antt =====
-- Publish of internal/runs/service.go: where an event goes, and what a missing run means.
use langsmith_deployment_go.Prelude.{
  ℕ, String, Bool, ◌||◌, none, some, List, [], ◌∷◌, str_eq, ◌==◌, if◌then◌else◌, not_found,
  forbidden, Result, ok, err,
}
use langsmith_deployment_go.Sql.{Postgres}
use langsmith_deployment_go.Auth.{nil}
use langsmith_deployment_go.Redis.{Command, xadd, StreamFields, run_stream_key, thread_stream_key}
use langsmith_deployment_go.Runs.Model.{Database}
use langsmith_deployment_go.Runs.Query.{publish_exists_and_auth}
use langsmith_deployment_go.Service.Signals.{
  Backend, Reply, reply, status, code_internal, code_invalid_argument, code_unavailable,
}

pub record PublishRequest : Type 0 where
  pub thread_id : String
  -- the empty text also stands for an absent field
  pub run_id : String
  pub event_type : String
  pub message : String
  pub resumable : Bool

-- The configured MAXLEN, 1000 without one.
abbrev pub max_len : Backend → ℕ
max_len b = elim b.stream_max_len [ none ↦ 1000 | some n ↦ if n == 0 then 1000 else n ]

abbrev pub fields_of : PublishRequest → String → StreamFields
fields_of q run = record {
  event_type = q.event_type;
  message = q.message;
  run_id = run;
  resumable = q.resumable;
}

abbrev pub Sent : Type 0
Sent = Reply (Unit {0}) × List Command

-- `refuses key` says that the XADD to that key fails. A command that was tried is listed.
module _ (b : Backend) (refuses : String → Bool) where
  abbrev pub publish_to_thread : String → PublishRequest → Sent
  publish_to_thread thread q =
      let sent = xadd (thread_stream_key thread) (fields_of q "") (max_len b) ∷ [] in
      if refuses (thread_stream_key thread) then (status code_internal, sent) else (reply tt, sent)

  -- The run stream first; the thread stream is a mirror whose failure is dropped.
  abbrev pub publish_to_run : String → String → PublishRequest → Sent
  publish_to_run thread run q =
      let primary = xadd (run_stream_key run) (fields_of q q.run_id) (max_len b) in
      let mirror = xadd (thread_stream_key thread) (fields_of q q.run_id) (max_len b) in
      if refuses (run_stream_key run)
      then (status code_internal, primary ∷ [])
      else (reply tt, primary ∷ mirror ∷ [])

  abbrev pub publish_checked : Result (Unit {0}) → String → String → PublishRequest → Sent
  publish_checked (ok u) thread run q = publish_to_run thread run q
  publish_checked (err not_found) thread run q = (reply tt, [])
  publish_checked (err forbidden) thread run q = (reply tt, [])
  publish_checked (err e) thread run q = (status code_internal, [])

  abbrev pub is_thread_level : PublishRequest → Bool
  is_thread_level q = str_eq q.run_id "" || str_eq q.run_id "*"

  unfoldable pub publish_event : {V : Type 0} → Postgres V → Database V → PublishRequest → Sent
  publish_event pg db q =
      if b.has_streamer
      then elim (b.parse_uuid q.thread_id) [
        | none ↦ (status code_invalid_argument, [])
        | some thread ↦
            if is_thread_level q
            then publish_to_thread thread q
            else (elim (b.parse_uuid q.run_id) [
              | none ↦ (status code_invalid_argument, [])
              | some run ↦
                  publish_checked (publish_exists_and_auth pg db q.run_id q.thread_id nil) thread
                    run q
            ])
      ]
      else (status code_unavailable, [])
