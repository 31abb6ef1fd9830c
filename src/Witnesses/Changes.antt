-- ===== src/Witnesses/Changes.antt =====
-- Creation, cancellation and any sequence of steps on internal/runs/store.go; events of
-- internal/runs/service.go.
use langsmith_deployment_go.Prelude.{
  ◌≤◌, String, ◌≡◌, refl, Bool, true, false, none, some, List, [], ◌∷◌, arith, inl, inr, any, keep,
  ok, IsIn,
}
use langsmith_deployment_go.Sql.{eval_all}
use langsmith_deployment_go.Auth.{nil, apply_to_query, emit}
use langsmith_deployment_go.Runs.Model.{success, Run, Database, has_run_id}
use langsmith_deployment_go.Runs.Lease.{run_ids, next, sweep_one}
use langsmith_deployment_go.Runs.Cancel.{
  CancelResult, cancel_with_action, cancel_where, cancel_targets, cancel_pending, cancel_running,
  interrupt_row,
}
use langsmith_deployment_go.Runs.Create.{
  CreateRunInput, CreateResult, strategy_of, is_inflight, ensure_thread, thread_visible,
  assistant_exists, occupy_thread, check_inflight,
}
use langsmith_deployment_go.Runs.Insert.{create, create_steps, insert_run, run_kwargs, user_id_of}
use langsmith_deployment_go.Runs.Finished.{finished_stays}
use langsmith_deployment_go.Runs.Strategies.{create_strategy}
use langsmith_deployment_go.Runs.Rows.{UniqueIds, cons-UniqueIds, empty-UniqueIds}
use langsmith_deployment_go.Runs.Tables.{IsCounted}
use langsmith_deployment_go.Runs.Steps.{here, after, by_next, by_sweep, Steps-keep}
use langsmith_deployment_go.Runs.Cancelled.{cancel_with_action_exact}
use langsmith_deployment_go.Service.Signals.{Backend, reply}
use langsmith_deployment_go.Service.Publish.{PublishRequest, publish_event}
use langsmith_deployment_go.Service.Delivery.{publish_event_delivery}
use langsmith_deployment_go.Witnesses.Documents.{
  run_at, Document, postgres, waiting, first, second, leased, database_of,
}

abbrev unlocked : Run Document → Bool
unlocked r = false

-- A request for a run on thread "t1", or on any other.
abbrev request : String → String → CreateRunInput
request thread strategy = record {
  run_id = "";
  thread_id = thread;
  assistant_id = "a1";
  status = none;
  kwargs_json = none;
  metadata = none;
  multitask_strategy = strategy;
  after_seconds = 0;
  encryption_context = none;
  user_id = "alice";
  if_not_exists = 1;
}

abbrev quiet : Database Document
quiet = database_of (leased ∷ [])

made_ok :
    (res : CreateResult Document) × ((create postgres 90 quiet "t9" "r9"
        (request "t1" "")
        nil
        nil).0
      ≡ ok res)
unfolding create create_steps insert_run ensure_thread thread_visible assistant_exists occupy_thread
    check_inflight apply_to_query emit run_kwargs user_id_of eval_all
made_ok = (_, refl)

create_strategy_example :
    let res = made_ok.0 in
    let done = create postgres 90 quiet "t9" "r9" (request "t1" "") nil nil in
    (done.1.runs ≡ res.run ∷ quiet.runs)
    × (any (λ (r : Run Document). has_run_id res.run.run_id r) quiet.runs ≡ false)
    × (strategy_of (request "t1" "") ≡ "reject"
        → any (is_inflight postgres res.run.thread_id) quiet.runs ≡ false)
    × (strategy_of (request "t1" "") ≡ "interrupt"
        → res.inflight_run_ids ≡ run_ids (keep (is_inflight postgres res.run.thread_id) quiet.runs))
    × (strategy_of (request "t1" "") ≡ "rollback"
        → res.inflight_run_ids ≡ run_ids (keep (is_inflight postgres res.run.thread_id) quiet.runs))
create_strategy_example =
    create_strategy postgres 90 quiet "t9" "r9" (request "t1" "") nil nil made_ok.1

counted : IsCounted waiting.runs
counted = record { bounded = λ r m. each r m }
  where
    each : (r : Run Document) → IsIn r waiting.runs → r.attempt ≤ r.lease_generation
    each r (inl e) = rw e (omega arith)
    each r (inr (inl e)) = rw e (omega arith)
    each r (inr (inr (inl e))) = rw e (omega arith)
    each r (inr (inr (inr m))) = absurd m

unique : UniqueIds waiting.runs
unique =
    cons-UniqueIds first _ refl
      (cons-UniqueIds second _ refl (cons-UniqueIds leased _ refl empty-UniqueIds))

abbrev reaped_db : Database Document
reaped_db = (sweep_one 60 "r3" waiting).0

abbrev claimed_db : Database Document
claimed_db = (next postgres unlocked 70 10 2 reaped_db).1

Steps-keep_example : UniqueIds claimed_db.runs × IsCounted claimed_db.runs
Steps-keep_example =
    Steps-keep postgres waiting claimed_db
      (after waiting reaped_db claimed_db
        (after waiting waiting reaped_db (here waiting) (by_sweep 60 "r3" waiting))
        (by_next unlocked 70 10 2 reaped_db))
      unique counted

cancelled_ok :
    (res : List CancelResult) × ((cancel_with_action postgres 80 waiting
        ("r1" ∷ "r3" ∷ [])
        "t1"
        "interrupt"
        nil).0
      ≡ ok res)
unfolding cancel_with_action cancel_where apply_to_query emit cancel_targets cancel_pending
    cancel_running
cancelled_ok = (_, refl)

cancel_with_action_exact_example :
    (cancel_with_action postgres 80 waiting ("r1" ∷ "r3" ∷ []) "t1" "interrupt" nil).1.runs
    ≡ interrupt_row 80 first ∷ second ∷ leased ∷ []
cancel_with_action_exact_example =
    cancel_with_action_exact postgres 80 waiting ("r1" ∷ "r3" ∷ []) "t1" "interrupt" nil
      cancelled_ok.1

abbrev backend : Backend
backend = record {
  has_redis = true;
  has_streamer = true;
  stream_max_len = none;
  parse_uuid = λ s. some s;
}

abbrev event : PublishRequest
event = record {
  thread_id = "t1";
  run_id = "r7";
  event_type = "values";
  message = "m";
  resumable = true;
}

publish_event_delivery_example :
    publish_event backend (λ k. false) postgres waiting event ≡ (reply tt, [])
publish_event_delivery_example =
    publish_event_delivery postgres backend (λ k. false) waiting event {run = "r7"} {thread = "t1"}
      {u = "r7"} {v = "t1"} refl refl refl refl refl refl

-- A finished run on thread "t1", before the runs that wait.
abbrev finished : Run Document
finished = run_at "r0" "t1" success 1 none

abbrev with_finished : Database Document
with_finished = database_of (finished ∷ waiting.runs)

finished_cancel :
    (res : List CancelResult) × ((cancel_with_action postgres 60 with_finished
        ("r0" ∷ "r1" ∷ [])
        ""
        "rollback"
        nil).0
      ≡ ok res)
unfolding cancel_with_action cancel_where apply_to_query emit cancel_targets cancel_pending
    cancel_running
finished_cancel = (_, refl)

finished_stays_example :
    IsIn finished (next postgres unlocked 60 10 2 with_finished).1.runs
    × IsIn finished (sweep_one 60 "r3" with_finished).0.runs
    × IsIn finished
        (cancel_with_action postgres 60 with_finished ("r0" ∷ "r1" ∷ []) "" "rollback" nil).1.runs
finished_stays_example =
    finished_stays postgres with_finished finished unlocked 60 10 2 "r3" ("r0" ∷ "r1" ∷ []) ""
      "rollback" nil (cons-UniqueIds finished _ refl unique) (inl refl) refl finished_cancel.1
