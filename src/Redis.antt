-- ===== src/Redis.antt =====
-- internal/stream: the names of Redis keys and channels, and what the services send to Redis.
use Prim.Native.String.{◌++◌}
use langsmith_deployment_go.Prelude.{ℕ, String, Bool}

-- internal/stream/keys.go
unfoldable pub run_stream_key : String → String
run_stream_key id = "run:" ++ (id ++ ":stream")

unfoldable pub thread_stream_key : String → String
thread_stream_key id = "thread:" ++ (id ++ ":events")

unfoldable pub run_control_channel : String → String
run_control_channel id = "run:" ++ (id ++ ":control")

unfoldable pub run_terminal_channel : String → String
run_terminal_channel id = "run:" ++ (id ++ ":terminal")

unfoldable pub run_queue_key : String
run_queue_key = "run:queue"

unfoldable pub cache_key : String → String → String
cache_key user key = "cache:" ++ (user ++ (":" ++ key))

-- A payload is a text, or the document `{"signal": action}` that json.Marshal prints.
pub data Payload : Type 0 where
  plain signal : String → Payload

-- The fields of a stream entry.
pub record StreamFields : Type 0 where
  pub event_type : String
  pub message : String
  pub run_id : String
  pub resumable : Bool

-- One command to Redis, whose own error the services drop.
pub data Command : Type 0 where
  set_key : String → String → ℕ → Command
  publish : String → Payload → Command
  push : String → String → Command
  xadd : String → StreamFields → ℕ → Command
