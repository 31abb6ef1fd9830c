-- ===== src/Witnesses/ThreadRuns.antt =====
-- Threads of internal/threads: status updates, creation, deletion and the TTL sweep.
use mathlib.Core.Bool.{false≢true}
use Prim.Native.Nat.{min}
use langsmith_deployment_go.Prelude.{
  ℕ, ◌+◌, ◌-◌, String, ◌≡◌, ◌≢◌, refl, sym, ap, ◌∙◌, Bool, true, false, Option, none, some, List,
  [], ◌∷◌, arith, ok, err, not_found, failed_precondition, inl, inr, ◌⊎◌, IsIn, eq_iff, find?, elem,
  if◌then◌else◌, ◌==◌, length,
}
use langsmith_deployment_go.Sql.{
  own_metadata, eval_all, text_param, json_param, has_entry, text_arg, json_arg,
}
use langsmith_deployment_go.Auth.{Filters, cons, eq, nil, apply_to_query, emit}
use langsmith_deployment_go.Auth.Fragments.{allows_all}
use langsmith_deployment_go.Runs.Model.{Thread, Database}
use langsmith_deployment_go.Threads.Query.{
  ThreadSearch, get_thread, search_threads, count_threads, thread_where_args,
}
use langsmith_deployment_go.Threads.Rows.{
  CreateThreadInput, PatchThreadInput, delete_threads, delete_thread, create_thread, patch_thread,
  insert_or_read,
}
use langsmith_deployment_go.Threads.Status.{
  SetStatusInput, SetJointStatusInput, is_nil, set_thread_status, set_joint_status,
}
use langsmith_deployment_go.Threads.Expiry.{is_past, ttl_sweep_tick}
use langsmith_deployment_go.Threads.Sweeping.{
  UniqueThreads, ttl_sweep_tick_ends, ttl_sweep_tick_exact,
}
use langsmith_deployment_go.Threads.Busy.{JointDone, set_joint_status_exact}
use langsmith_deployment_go.Threads.Guard.{StatusSet, set_thread_status_guard}
use langsmith_deployment_go.Threads.Created.{create_thread_again}
use langsmith_deployment_go.Threads.Pages.{search_threads-count_threads}
use langsmith_deployment_go.Threads.Visibility.{
  is_shown, deleted_or_not, delete_thread_verdict, hidden_thread_untouched,
}
use langsmith_deployment_go.Witnesses.Documents.{Document, postgres, waiting, thread_at}

abbrev stale_thread : Thread Document
stale_thread = record (thread_at "t1" "alice") { expires_at = some 5 }

abbrev kept_thread : Thread Document
kept_thread = record (thread_at "t2" "bob") { expires_at = some 50 }

-- A thread that has expired at 10, with two runs, and one that has not.
abbrev stale : Database Document
stale = record waiting { threads = stale_thread ∷ kept_thread ∷ [] }

apart : ◌≢◌ {A = String} "t1" "t2"
apart e = false≢true ((eq_iff "t1" "t2").1 e)

stale-UniqueThreads : UniqueThreads stale.threads
stale-UniqueThreads = record { same = λ x y mx my e. one x y mx my e }
  where
    one :
        (x y : Thread Document)
        → IsIn x stale.threads
        → IsIn y stale.threads
        → x.thread_id ≡ y.thread_id
        → x ≡ y
    one x y (inl a) (inl b) e = a ∙ sym b
    one x y (inl a) (inr (inl b)) e =
        absurd (apart (sym (ap (λ t. t.thread_id) a) ∙ e ∙ ap (λ t. t.thread_id) b))
    one x y (inr (inl a)) (inl b) e =
        absurd (apart (sym (ap (λ t. t.thread_id) b) ∙ sym e ∙ ap (λ t. t.thread_id) a))
    one x y (inr (inl a)) (inr (inl b)) e = a ∙ sym b
    one x y (inr (inr a)) my e = absurd a
    one x y (inl a) (inr (inr b)) e = absurd b
    one x y (inr (inl a)) (inr (inr b)) e = absurd b

ttl_sweep_tick_exact_example :
    ttl_sweep_tick true (λ _. 10) 1 stale ≡ some (delete_threads (is_past 10) stale)
ttl_sweep_tick_exact_example = ttl_sweep_tick_exact 10 1 stale stale-UniqueThreads (omega arith)

ttl_sweep_tick_ends_example :
    (db' : Database Document) × (ttl_sweep_tick true (λ k. 10 + k) 1 stale ≡ some db')
ttl_sweep_tick_ends_example = ttl_sweep_tick_ends true (λ k. 10 + k) 1 stale (omega arith)

-- The run "r1" of "t1" has succeeded; "r2" still waits.
abbrev joint_input : SetJointStatusInput
joint_input = record {
  thread_id = "t1";
  run_id = "r1";
  run_status = "success";
  graph_id = "agent";
  values_json = none;
  interrupts_json = none;
  next = [];
  exception_json = none;
}

joint_answered : (set_joint_status postgres 70 waiting joint_input).0 ≡ ok tt
unfolding set_joint_status
joint_answered = refl

set_joint_status_exact_example :
    JointDone postgres 70 "r1" "t1" joint_input waiting
      (set_joint_status postgres 70 waiting joint_input).1
set_joint_status_exact_example =
    set_joint_status_exact postgres 70 waiting joint_input "r1" "t1" refl refl joint_answered

abbrev status_input : SetStatusInput
status_input = record {
  thread_id = "t1";
  status_text = "idle";
  values_json = none;
  interrupts = none;
  expected_status = "idle" ∷ [];
}

set_thread_status_guard_example :
    (is_nil status_input.expected_status ≡ false
      → elem (thread_at "t1" "alice").status status_input.expected_status ≡ false
      → set_thread_status postgres 70 waiting status_input ≡ (err failed_precondition, waiting))
    × ((busy : Bool)
        → (set_thread_status postgres 70 waiting status_input).0 ≡ ok busy
        → ((is_nil status_input.expected_status ≡ true)
            ⊎ (elem (thread_at "t1" "alice").status status_input.expected_status ≡ true))
          × StatusSet postgres "t1" status_input waiting
              (busy, (set_thread_status postgres 70 waiting status_input).1))
set_thread_status_guard_example =
    set_thread_status_guard postgres 70 waiting status_input "t1" (thread_at "t1" "alice") refl refl

abbrev new_input : CreateThreadInput
new_input = record {
  thread_id = "t9";
  metadata = none;
  config = none;
  ttl_seconds = some 60;
  if_exists = "do_nothing";
  filters = nil;
}

abbrev created : Thread Document
created = record (thread_at "t9" "") {
  metadata = [];
  created_at = 70;
  updated_at = 70;
  expires_at = some 60000070;
}

created_first : (create_thread postgres 70 waiting "u1" new_input).0 ≡ ok created
unfolding create_thread insert_or_read apply_to_query emit
created_first = refl

unfiltered : allows_all postgres nil created.metadata ≡ true
unfolding allows_all
unfiltered = refl

create_thread_again_example :
    create_thread postgres 90 (create_thread postgres 70 waiting "u1" new_input).1 "u2" new_input
    ≡ (ok created, (create_thread postgres 70 waiting "u1" new_input).1)
create_thread_again_example =
    create_thread_again postgres 70 90 waiting "u1" "u2" new_input created refl created_first
      unfiltered

abbrev all_threads : ThreadSearch
all_threads = record {
  status = "idle";
  metadata_filter = none;
  values_filter = none;
  ids = [];
  limit = 1;
  offset = 0;
  sort_column = "thread_id";
  sort_order = "asc";
}

abbrev no_keys : String → Option ℕ
no_keys s = none

counted : count_threads postgres no_keys waiting all_threads nil ≡ ok 2
unfolding count_threads thread_where_args apply_to_query emit eval_all
counted = refl

search_threads-count_threads_example :
    (ts : List (Thread Document)) × (search_threads postgres no_keys waiting all_threads nil
      ≡ ok ts)
    × (length ts
        ≡ min (if all_threads.limit == 0 then 100 else all_threads.limit) (2 - all_threads.offset))
search_threads-count_threads_example =
    search_threads-count_threads postgres no_keys waiting all_threads nil 2 counted

no_filter : apply_to_query nil own_metadata 2 ≡ ok (none, [])
unfolding apply_to_query emit
no_filter = refl

-- "t2" is bob's.
abbrev alice_only : Filters
alice_only = cons (eq "owner" "alice") nil

alice_emitted :
    apply_to_query alice_only own_metadata 2
    ≡ ok (some (has_entry own_metadata 2 3), text_arg "owner" ∷ json_arg "alice" ∷ [])
unfolding apply_to_query emit
alice_emitted = refl

hidden_thread : find? (is_shown postgres alice_only "t2") waiting.threads ≡ none
unfolding allows_all
hidden_thread = refl

delete_thread_verdict_example :
    delete_thread postgres waiting "t1" nil
    ≡ deleted_or_not postgres waiting
        (is_shown postgres nil "t1")
        (find? (is_shown postgres nil "t1") waiting.threads)
delete_thread_verdict_example =
    delete_thread_verdict postgres waiting nil {frag = none} {args = []} {ps = text_param "t1" ∷ []}
      "t1" "t1" refl no_filter refl

abbrev patch_input : PatchThreadInput
patch_input = record { metadata = some "{}"; config = none; ttl_seconds = none }

hidden_thread_untouched_example :
    (get_thread postgres waiting "t2" alice_only ≡ err not_found)
    × (delete_thread postgres waiting "t2" alice_only ≡ (err not_found, waiting))
    × ((patch_thread postgres 70 waiting "t2" patch_input alice_only).1 ≡ waiting)
hidden_thread_untouched_example =
    hidden_thread_untouched postgres 70 waiting patch_input alice_only
      {ps = text_param "t2" ∷ text_param "owner" ∷ json_param (("", "alice") ∷ []) ∷ []} "t2" "t2"
      refl alice_emitted refl hidden_thread
