-- ===== src/Witnesses/AssistantRuns.antt =====
-- Assistants of internal/assistants: creation, a patch, a way back and a request under filters.
use langsmith_deployment_go.Prelude.{
  ◌≡◌, refl, sym, ◌∙◌, none, some, [], ◌∷◌, ok, err, database, inl, inr,
}
use langsmith_deployment_go.Sql.{eval_all}
use langsmith_deployment_go.Auth.{nil, cons, eq, apply_to_query, emit_each}
use langsmith_deployment_go.Auth.Errors.{are_valid}
use langsmith_deployment_go.Runs.Model.{Assistant, Database}
use langsmith_deployment_go.Assistants.Rows.{CreateAssistantInput, create_assistant, version_of}
use langsmith_deployment_go.Assistants.Patch.{
  PatchAssistantInput, patch_assistant, patch_statement, find_arg_idx,
}
use langsmith_deployment_go.Assistants.Latest.{set_latest}
use langsmith_deployment_go.Assistants.History.{HasHistory}
use langsmith_deployment_go.Assistants.Reached.{
  AssistantSteps, stay, go_on, by_create, by_patch, by_set_latest, AssistantSteps-HasHistory,
}
use langsmith_deployment_go.Assistants.Revision.{IsRevision, patch_assistant-IsRevision}
use langsmith_deployment_go.Assistants.Rollback.{set_latest-patch_assistant}
use langsmith_deployment_go.Assistants.Filtered.{set_latest-filtered}
use langsmith_deployment_go.Witnesses.Documents.{Document, postgres, assistant, waiting}

-- The assistant of the other examples with its first version.
abbrev recorded : Database Document
recorded = record waiting { assistant_versions = version_of 0 assistant ∷ [] }

recorded-HasHistory : HasHistory recorded
recorded-HasHistory = record {
  one_assistant = λ a b m n e. elim m [
    | inl f ↦ elim n [ inl g ↦ f ∙ sym g | inr k ↦ absurd k ]
    | inr k ↦ absurd k
  ];
  one_version = λ a b m n e h. elim m [
    | inl f ↦ elim n [ inl g ↦ f ∙ sym g | inr k ↦ absurd k ]
    | inr k ↦ absurd k
  ];
  owner = λ v m. elim m [ inl f ↦ rw f refl | inr k ↦ absurd k ];
  current = λ a m. elim m [
    | inl f ↦ rw f (version_of 0 assistant, inl refl, (refl, refl, refl, refl))
    | inr k ↦ absurd k
  ];
}

-- A patch whose graph id, description and name are the same text.
abbrev rename_all : PatchAssistantInput
rename_all = record {
  name = some "beta";
  description = some "beta";
  graph_id = "beta";
  config = some "newer";
  context_json = some "newer";
  metadata = none;
}

abbrev beta : Assistant Document
beta = record assistant {
  graph_id = "beta";
  version = 2;
  updated_at = 40;
  config = ("", "newer") ∷ [];
  context = ("", "newer") ∷ [];
  name = "beta";
  description = some "beta";
}

patch_answered : (patch_assistant postgres 40 recorded "a1" rename_all nil).0 ≡ ok beta
unfolding patch_assistant patch_statement apply_to_query emit_each eval_all find_arg_idx
patch_answered = refl

patch_assistant-IsRevision_example :
    IsRevision postgres 40 recorded "a1" rename_all
      (beta, (patch_assistant postgres 40 recorded "a1" rename_all nil).1)
patch_assistant-IsRevision_example =
    patch_assistant-IsRevision postgres 40 recorded "a1" "a1" rename_all nil beta
      recorded-HasHistory refl patch_answered

set_latest-patch_assistant_example :
    (c : Assistant Document) × ((set_latest postgres
        (patch_assistant postgres 40 recorded "a1" rename_all nil).1
        "a1"
        1
        nil).0
      ≡ ok c)
    × (c.config ≡ [])
    × (c.metadata ≡ [])
    × (c.version ≡ 1)
set_latest-patch_assistant_example =
    set_latest-patch_assistant postgres 40 recorded "a1" "a1" rename_all nil assistant beta
      recorded-HasHistory refl (inl refl) refl patch_answered

set_latest-filtered_example :
    set_latest postgres recorded "a1" 1 (cons (eq "owner" "alice") nil) ≡ (err database, recorded)
unfolding are_valid
set_latest-filtered_example =
    set_latest-filtered postgres recorded "a1" 1 (eq "owner" "alice") nil refl

abbrev create_second : CreateAssistantInput
create_second = record {
  assistant_id = "a2";
  graph_id = "agent";
  name = "second";
  description = none;
  config = none;
  context_json = none;
  metadata = none;
  if_exists = "raise";
  filters = nil;
}

abbrev with_second : Database Document
with_second = (create_assistant postgres 10 recorded "fresh" create_second).1

abbrev and_patched : Database Document
and_patched = (patch_assistant postgres 40 with_second "a2" rename_all nil).1

abbrev and_back : Database Document
and_back = (set_latest postgres and_patched "a2" 1 nil).1

one_after_another : AssistantSteps postgres recorded and_back
one_after_another =
    go_on recorded and_patched and_back
      (go_on recorded with_second and_patched
        (go_on recorded recorded with_second (stay recorded)
          (by_create 10 "fresh" create_second recorded))
        (by_patch 40 "a2" rename_all nil with_second))
      (by_set_latest "a2" 1 nil and_patched)

AssistantSteps-HasHistory_example : HasHistory and_back
AssistantSteps-HasHistory_example =
    AssistantSteps-HasHistory postgres recorded and_back one_after_another recorded-HasHistory
