-- ===== src/Service/Delivery.antt =====
-- Where Publish of internal/runs/service.go sends the event of a run.
use langsmith_deployment_go.Prelude.{
  String, ◌≡◌, refl, Bool, true, false, some, [], ◌∷◌, if◌then◌else◌, any, Result, ok, err,
  not_found, guard, ◌>>◌,
}
use langsmith_deployment_go.Sql.{Postgres}
use langsmith_deployment_go.Auth.{nil}
use langsmith_deployment_go.Redis.{xadd, run_stream_key, thread_stream_key}
use langsmith_deployment_go.Runs.Model.{Database}
use langsmith_deployment_go.Runs.Query.{publish_exists_and_auth}
use langsmith_deployment_go.Runs.Visibility.{is_present, exists_row-present}
use langsmith_deployment_go.Service.Signals.{Backend, reply, status, code_internal}
use langsmith_deployment_go.Service.Publish.{
  PublishRequest, publish_event, publish_checked, is_thread_level, fields_of, max_len,
}

module _ {V : Type 0} (pg : Postgres V) where
  unfiltered_verdict :
      (db : Database V) (run u thread v : String)
      → pg.uuid run ≡ some u
      → pg.uuid thread ≡ some v
      → publish_exists_and_auth pg db run thread nil
        ≡ (if any (is_present pg db u v) db.runs then ok tt else err not_found)
  unfolding publish_exists_and_auth
  unfiltered_verdict db run u thread v c d =
      rw (exists_row-present pg db run u thread v c d)
        (by_presence (any (is_present pg db u v) db.runs))
    where
      by_presence :
          (b : Bool)
          → ◌≡◌ {A = Result (Unit {0})}
              (guard b not_found >> ok tt)
              (if b then ok tt else err not_found)
      by_presence true = refl
      by_presence false = refl

  -- Publish of an event of one run, over ids that are uuids and with streaming configured: if the
  -- run is there under its thread, the event goes to the run's stream and, unless that write fails,
  -- to the thread's stream after it, and only a failed write to the run's stream is an error; if it
  -- is not there, nothing is written and the answer is a success.
  pub publish_event_delivery :
      (b : Backend) (refuses : String → Bool) (db : Database V) (q : PublishRequest)
      {run thread u v : String}
      → b.has_streamer ≡ true
      → is_thread_level b refuses q ≡ false
      → b.parse_uuid q.thread_id ≡ some thread
      → b.parse_uuid q.run_id ≡ some run
      → pg.uuid q.run_id ≡ some u
      → pg.uuid q.thread_id ≡ some v
      → publish_event b refuses pg db q ≡ (
          if any (is_present pg db u v) db.runs
          then (if refuses (run_stream_key run)
              then (
                status code_internal,
                xadd (run_stream_key run) (fields_of q q.run_id) (max_len b) ∷ [],
              )
              else (
                reply tt,
                xadd (run_stream_key run) (fields_of q q.run_id) (max_len b)
                    ∷ xadd (thread_stream_key thread) (fields_of q q.run_id) (max_len b)
                    ∷ [],
              ))
          else (reply tt, []))
  unfolding publish_event
  publish_event_delivery b refuses db q {run} {thread} {u} {v} s l pt pr c d =
      rw (s, pt, l, pr, unfiltered_verdict db q.run_id u q.thread_id v c d)
        (by_presence (any (is_present pg db u v) db.runs))
    where
      by_presence :
          (present : Bool)
          → publish_checked b refuses (if present then ok tt else err not_found) thread run q
            ≡ (if present then publish_checked b refuses (ok tt) thread run q else (reply tt, []))
      by_presence true = refl
      by_presence false = refl
