-- ===== src/Witnesses/AuthRuns.antt =====
-- Filters of internal/auth/filter.go, and reads of internal/runs/store.go under them.
use langsmith_deployment_go.Prelude.{
  ℕ, suc, ◌+◌, ◌≡◌, refl, some, List, [], ◌∷◌, ok, err, forbidden, is_ok,
}
use langsmith_deployment_go.Sql.{
  thread_metadata, Arg, uuid_arg, text_arg, json_arg, Cond, cond, end, has_entry, entry_has, any_of,
  passes, eval_all, optional, text_param, json_param, Param,
}
use langsmith_deployment_go.Auth.{Filters, nil, cons, eq, contains, or_filter, apply_to_query, emit}
use langsmith_deployment_go.Auth.Fragments.{allows_all}
use langsmith_deployment_go.Auth.Meaning.{apply_to_query_meaning}
use langsmith_deployment_go.Auth.Errors.{are_valid, is_ok-apply_to_query}
use langsmith_deployment_go.Runs.Model.{run_row}
use langsmith_deployment_go.Runs.Query.{publish_exists_and_auth}
use langsmith_deployment_go.Runs.Visibility.{publish_exists_and_auth_verdict}
use langsmith_deployment_go.Witnesses.Documents.{Document, postgres, waiting, first}

-- `owner` is alice or bob.
abbrev either_owner : Filters
either_owner =
    cons (or_filter (cons (eq "owner" "alice") (cons (contains "owner" ("bob" ∷ [])) nil))) nil

abbrev alice_only : Filters
alice_only = cons (eq "owner" "alice") nil

abbrev either_cond : ℕ → Cond
either_cond i = any_of (
    cond (has_entry thread_metadata i (suc i))
      (cond (entry_has thread_metadata (suc (suc i)) (suc (suc (suc i)))) end))

abbrev either_args : List Arg
either_args = text_arg "owner" ∷ json_arg "alice" ∷ text_arg "owner" ∷ json_arg "bob" ∷ []

abbrev alice_args : List Arg
alice_args = text_arg "owner" ∷ json_arg "alice" ∷ []

either_emitted :
    apply_to_query either_owner thread_metadata 2 ≡ ok (some (either_cond 2), either_args)
unfolding apply_to_query emit
either_emitted = refl

alice_emitted :
    (i : ℕ)
    → apply_to_query alice_only thread_metadata i
      ≡ ok (some (has_entry thread_metadata i (i + 1)), alice_args)
unfolding apply_to_query emit
alice_emitted i = refl

is_ok-apply_to_query_example :
    is_ok (apply_to_query either_owner thread_metadata 2) ≡ are_valid either_owner
is_ok-apply_to_query_example = is_ok-apply_to_query either_owner thread_metadata 2

abbrev either_params : List (Param Document)
either_params =
    text_param "r1"
    ∷ text_param "owner"
    ∷ json_param (("", "alice") ∷ [])
    ∷ text_param "owner"
    ∷ json_param (("", "bob") ∷ [])
    ∷ []

apply_to_query_meaning_example :
    passes
      (eval_all postgres (optional (some (either_cond 2))) (run_row waiting first) either_params)
    ≡ allows_all postgres either_owner (("owner", "alice") ∷ [])
apply_to_query_meaning_example =
    apply_to_query_meaning postgres (run_row waiting first) either_owner thread_metadata
      (("owner", "alice") ∷ []) (uuid_arg "r1" ∷ []) [] refl either_emitted refl

publish_exists_and_auth_verdict_example :
    publish_exists_and_auth postgres waiting "r3" "t2" alice_only ≡ err forbidden
unfolding allows_all
publish_exists_and_auth_verdict_example =
    publish_exists_and_auth_verdict postgres waiting alice_only
      {ps = text_param "r3"
        ∷ text_param "t2"
        ∷ text_param "owner"
        ∷ json_param (("", "alice") ∷ [])
        ∷ []}
      "r3" "r3" "t2" "t2" refl refl (alice_emitted 3) refl
