-- ===== src/Witnesses/CheckpointRuns.antt =====
-- Checkpoints of internal/checkpointer: puts, writes, copies of a thread and a prune.
use langsmith_deployment_go.Prelude.{
  ◌≡◌, refl, true, ◌&&◌, none, some, [], ◌∷◌, str_eq, ok, inl, length, IsIn, if◌then◌else◌, String,
}
use langsmith_deployment_go.Runs.Model.{Database, pos, negsuc, Checkpoint, CheckpointWrite}
use langsmith_deployment_go.Checkpointer.Rows.{
  PutInput, PutWritesInput, put, put_steps, put_blobs, put_checkpoint, put_writes,
}
use langsmith_deployment_go.Checkpointer.Copying.{copy_thread, copy_thread_rows}
use langsmith_deployment_go.Checkpointer.Stored.{put_writes_keep}
use langsmith_deployment_go.Checkpointer.View.{view, put_refines_assignment}
use langsmith_deployment_go.Sql.{eval_all}
use langsmith_deployment_go.Auth.{nil, apply_to_query, emit_each}
use langsmith_deployment_go.Threads.Rows.{copy_row}
use langsmith_deployment_go.Threads.Handlers.{copy_thread_rpc}
use langsmith_deployment_go.Threads.Copies.{AllOrNothing, copy_thread_rpc-AllOrNothing}
use langsmith_deployment_go.Witnesses.Documents.{Document, postgres, waiting}

abbrev saved_at : String → String → Checkpoint Document
saved_at id text = record {
  thread_id = "t1";
  checkpoint_id = id;
  checkpoint_ns = "";
  run_id = none;
  parent_checkpoint_id = none;
  checkpoint = ("", text) ∷ [];
  metadata = [];
}

abbrev stored_write : CheckpointWrite
stored_write = record {
  thread_id = "t1";
  checkpoint_id = "c1";
  checkpoint_ns = "";
  task_id = "k1";
  idx = pos 0;
  channel = "messages";
  encoding = "json";
  blob = "one";
  task_path = "";
}

-- Thread "t1" has two checkpoints and a write.
abbrev saved : Database Document
saved = record waiting {
  checkpoints = saved_at "c1" "old" ∷ saved_at "c2" "new" ∷ [];
  checkpoint_writes = stored_write ∷ [];
}

abbrev put_input : PutInput
put_input = record {
  thread_id = "t1";
  checkpoint_ns = "";
  checkpoint_id = "c1";
  parent_checkpoint_id = "";
  run_id = "r1";
  checkpoint_json = "newer";
  metadata_json = "{}";
  blobs = record { channel = "messages"; version = "1"; encoding = "json"; blob = some "x" } ∷ [];
}

put_answered : (put postgres 70 saved put_input).0 ≡ ok tt
unfolding put put_steps put_blobs put_checkpoint
put_answered = refl

put_refines_assignment_example :
    (k : Document) × (m : Document) × (postgres.parse "newer" ≡ some k)
    × (postgres.parse "{}" ≡ some m)
    × ((t n i : String)
        → view (put postgres 70 saved put_input).1.checkpoints t n i ≡ (
            if str_eq "t1" t && (str_eq "" n && str_eq "c1" i)
            then some (k, m)
            else view saved.checkpoints t n i))
put_refines_assignment_example =
    put_refines_assignment postgres 70 saved put_input "t1" "c1" refl refl put_answered

-- A sentinel write beside the stored one, and a second value for the stored one.
abbrev writes_input : PutWritesInput
writes_input = record {
  thread_id = "t1";
  checkpoint_ns = "";
  checkpoint_id = "c1";
  task_id = "k1";
  task_path = "";
  writes =
      record { idx = negsuc 0; channel = "__error__"; encoding = "json"; blob = "boom" }
      ∷ record { idx = pos 0; channel = "messages"; encoding = "json"; blob = "two" }
      ∷ [];
}

put_writes_keep_example :
    IsIn stored_write (put_writes postgres 70 saved writes_input).1.checkpoint_writes
put_writes_keep_example =
    put_writes_keep postgres 70 saved writes_input stored_write (inl refl) refl

copy_answered : (copy_thread postgres 70 saved "t1" "t2").0 ≡ ok tt
unfolding copy_thread copy_thread_rows
copy_answered = refl

-- The copy of "t1" stands before the two threads, with two more checkpoints and one more write.
copied_sizes :
    (length (copy_thread_rpc postgres true 70 saved "t9" "t1" nil).db.threads ≡ 3)
    × (length (copy_thread_rpc postgres true 70 saved "t9" "t1" nil).db.checkpoints ≡ 4)
    × (length (copy_thread_rpc postgres true 70 saved "t9" "t1" nil).db.checkpoint_writes ≡ 2)
unfolding copy_thread_rpc copy_row copy_thread_rows apply_to_query emit_each eval_all
copied_sizes = (refl, refl, refl)

copy_thread_rpc-AllOrNothing_example :
    AllOrNothing postgres 70 "t1" "t9" saved (copy_thread_rpc postgres true 70 saved "t9" "t1" nil)
copy_thread_rpc-AllOrNothing_example =
    copy_thread_rpc-AllOrNothing postgres 70 saved "t9" "t1" "t1" nil refl refl
