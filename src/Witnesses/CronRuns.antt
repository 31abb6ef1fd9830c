-- ===== src/Witnesses/CronRuns.antt =====
-- Crons of internal/crons: claims by Next, patches of a schedule, the payload's defaults, a search.
use langsmith_deployment_go.Prelude.{
  map, ℕ, ◌+◌, ◌<◌, String, ◌≡◌, ◌≢◌, refl, sym, ◌∙◌, true, false, not, none, some, List, [], ◌∷◌,
  arith, ok, inl, inr, IsIn, str_eq, find?, if◌then◌else◌,
}
use langsmith_deployment_go.Sql.{eval_all}
use langsmith_deployment_go.Auth.{nil, cons, eq, apply_to_query, emit, emit_each}
use langsmith_deployment_go.Auth.Fragments.{allows_all}
use langsmith_deployment_go.Runs.Model.{Thread, has_thread_id}
use langsmith_deployment_go.Crons.Search.{
  CronSearch, cron_where_args, search_crons, crons_sort_clause, crons_sort_column,
}
use langsmith_deployment_go.Crons.Shown.{search_crons-IsShown}
use langsmith_deployment_go.Crons.Rows.{Calendar, Cron, compute_next_run_from, set_next_run_date}
use langsmith_deployment_go.Crons.Patch.{PatchCronInput, Codec, patch_cron, patched_next_run}
use langsmith_deployment_go.Crons.Next.{is_cron_due, next_crons, due_crons, claim_each}
use langsmith_deployment_go.Crons.Firing.{
  is_ok_at, unheld, next_crons_exact, next_crons_once, next_crons_never_done, run_nexts,
}
use langsmith_deployment_go.Crons.Patching.{UniqueCrons, Patched, patch_cron_next_run}
use langsmith_deployment_go.Witnesses.Documents.{Document, postgres, waiting}

-- "hourly" is every 100 units of time, "never" has no time, and "L" does not parse.
abbrev calendar : Calendar
calendar = record {
  has_location = λ z. true;
  parses = λ s. not (str_eq s "L");
  next_time = λ s z base. if str_eq s "never" then 0 else base + 100;
}

abbrev codec : Codec Document
codec = record { object = λ v. some v; modern = λ v. v; text_key = λ v k. none }

abbrev cron_at : String → String → ℕ → Cron Document
cron_at id schedule at = record {
  cron_id = id;
  thread_id = none;
  user_id = none;
  assistant_id = "a1";
  schedule = schedule;
  next_run_date = some at;
  end_time = none;
  payload = [];
  metadata = [];
  created_at = 0;
  updated_at = 0;
  enabled = true;
  timezone = "";
  on_run_completed = "keep";
  encryption_context = none;
}

abbrev hourly : Cron Document
hourly = cron_at "c1" "hourly" 10

-- Not due before 50.
abbrev late : Cron Document
late = cron_at "c4" "hourly" 50

abbrev broken : Cron Document
broken = cron_at "c2" "L" 10

abbrev impossible : Cron Document
impossible = cron_at "c3" "never" 0

abbrev table : List (Cron Document)
table = hourly ∷ late ∷ broken ∷ []

next_crons_exact_example :
    (IsIn hourly (next_crons calendar unheld 20 table).0
      → IsIn hourly table
        × (is_cron_due 20 hourly ≡ true)
        × (unheld hourly ≡ false)
        × (is_ok_at calendar 20 hourly ≡ true))
    × (IsIn hourly table
        → is_cron_due 20 hourly ≡ true
        → unheld hourly ≡ false
        → is_ok_at calendar 20 hourly ≡ true
        → IsIn hourly (next_crons calendar unheld 20 table).0)
next_crons_exact_example = next_crons_exact calendar unheld 20 table hourly

hourly_parses : is_ok_at calendar 20 hourly ≡ true
unfolding compute_next_run_from
hourly_parses = refl

hourly_claimed : IsIn hourly (next_crons calendar unheld 20 table).0
hourly_claimed =
    (next_crons_exact calendar unheld 20 table hourly).1 (inl refl) refl refl hourly_parses

-- The claimed crons at 20 are the hourly one alone.
all_later :
    (c : Cron Document)
    → IsIn c (next_crons calendar unheld 20 table).0
    → 60 < calendar.next_time c.schedule c.timezone 20
unfolding next_crons due_crons claim_each compute_next_run_from
all_later c (inl e) = rw e (omega arith)
all_later c (inr m) = absurd m

late_claimed : IsIn late (next_crons calendar unheld 60 (next_crons calendar unheld 20 table).1).0
unfolding next_crons due_crons claim_each compute_next_run_from set_next_run_date
late_claimed = inl refl

next_crons_once_example : late.cron_id ≢ hourly.cron_id
next_crons_once_example =
    next_crons_once calendar unheld unheld 20 60 table hourly late all_later hourly_claimed
      late_claimed

impossible_parses : (now : ℕ) → is_ok_at calendar now impossible ≡ true
unfolding compute_next_run_from
impossible_parses now = refl

next_crons_never_done_example :
    run_nexts calendar (20 ∷ 60 ∷ 60 ∷ 900 ∷ []) (impossible ∷ [])
    ≡ (impossible ∷ [])
      ∷ map (λ (t : ℕ). record impossible { next_run_date = some 0 } ∷ []) (60 ∷ 60 ∷ 900 ∷ [])
next_crons_never_done_example =
    next_crons_never_done calendar 20 (60 ∷ 60 ∷ 900 ∷ []) impossible refl refl impossible_parses
      (λ t. refl)

table-UniqueCrons : UniqueCrons (hourly ∷ [])
table-UniqueCrons = record { same = λ x y mx my e. one x y mx my }
  where
    one : (x y : Cron Document) → IsIn x (hourly ∷ []) → IsIn y (hourly ∷ []) → x ≡ y
    one x y (inl a) (inl b) = a ∙ sym b
    one x y (inr a) my = absurd a
    one x y (inl a) (inr b) = absurd b

-- Only the zone is patched.
abbrev zone_patch : PatchCronInput
zone_patch = record {
  schedule = "";
  timezone = "Asia/Tokyo";
  enabled = none;
  end_time = none;
  payload = none;
  metadata = none;
  on_run_completed = none;
}

abbrev patched_row : Cron Document
patched_row = record hourly { updated_at = 7; next_run_date = some 105; timezone = "Asia/Tokyo" }

patch_answered :
    patch_cron postgres calendar codec 5 7 (hourly ∷ []) "c1" zone_patch nil
    ≡ ok (patched_row, patched_row ∷ [])
unfolding patch_cron patched_next_run compute_next_run_from apply_to_query emit eval_all
patch_answered = refl

patch_cron_next_run_example :
    Patched postgres calendar 5 (hourly ∷ []) "c1" zone_patch (patched_row, patched_row ∷ [])
patch_cron_next_run_example =
    patch_cron_next_run postgres calendar codec 5 7 (hourly ∷ []) "c1" "c1" zone_patch nil
      patched_row (patched_row ∷ []) table-UniqueCrons refl patch_answered

-- One cron without a thread, one on alice's, one on bob's, and one whose thread is gone.
abbrev on_alice : Cron Document
on_alice = record hourly { thread_id = some "t1" }

abbrev on_bob : Cron Document
on_bob = record late { thread_id = some "t2" }

abbrev orphan : Cron Document
orphan = record broken { thread_id = some "t9" }

abbrev alice_threads : CronSearch
alice_threads = record {
  assistant_id = some "a1";
  thread_id = none;
  thread_filters = cons (eq "owner" "alice") nil;
  limit = 0;
  offset = 0;
  sort_column = "next_run_date";
  sort_order = "asc";
  enabled = some true;
}

abbrev alice_found : List (Cron Document)
alice_found = impossible ∷ on_alice ∷ []

search_answered :
    search_crons postgres waiting (on_bob ∷ on_alice ∷ orphan ∷ impossible ∷ []) alice_threads nil
    ≡ ok alice_found
unfolding search_crons cron_where_args apply_to_query emit_each eval_all crons_sort_clause
    crons_sort_column
search_answered = refl

search_crons-IsShown_example :
    IsIn on_alice (on_bob ∷ on_alice ∷ orphan ∷ impossible ∷ [])
    × ((allows_all postgres nil on_alice.metadata ≡ true)
        × ((u : String) (x : Thread Document)
            → on_alice.thread_id ≡ some u
            → find? (has_thread_id u) waiting.threads ≡ some x
            → allows_all postgres alice_threads.thread_filters x.metadata ≡ true))
search_crons-IsShown_example =
    search_crons-IsShown postgres waiting (on_bob ∷ on_alice ∷ orphan ∷ impossible ∷ [])
      alice_threads nil alice_found on_alice search_answered (inr (inl refl))
