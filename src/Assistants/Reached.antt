-- ===== src/Assistants/Reached.antt =====
-- The operations of internal/assistants/store.go as steps, and what every table reached by them
-- keeps.
use langsmith_deployment_go.Prelude.{
  ℕ, ◌+◌, String, ◌≡◌, refl, sym, ap, ◌∙◌, subst, Bool, true, false, not, ◌&&◌, List, ◌∷◌, ◌++◌,
  arith, eq_iff, elem, keep, length, inl, inr, Bool-cases, IsIn, IsIn-any, any-IsIn, IsIn-keep,
  keep-IsIn, elem-map, map-elem, ok,
}
use langsmith_deployment_go.Sql.{Postgres, own_metadata, uuid_arg, text_arg}
use langsmith_deployment_go.Auth.{Filters, apply_to_query}
use langsmith_deployment_go.Runs.Model.{
  Assistant, AssistantVersion, Thread, Database, has_assistant_id,
}
use langsmith_deployment_go.Runs.Create.{uuid_of}
use langsmith_deployment_go.Runs.Creating.{OnOk, OnOk-then, value_of, committed-either}
use langsmith_deployment_go.Threads.Query.{bound}
use langsmith_deployment_go.Assistants.Query.{selects_assistant}
use langsmith_deployment_go.Crons.Rows.{Cron, meets}
use langsmith_deployment_go.Threads.Rows.{delete_threads}
use langsmith_deployment_go.Runs.Cancel.{delete_runs}
use langsmith_deployment_go.Assistants.Rows.{
  CreateAssistantInput, assistant_ids, delete_assistants, assistant_to_insert,
  insert_or_read_assistant, create_assistant, create_statement, delete_assistant, returns_assistant,
  is_tagged, any_deleted, assistant_args,
}
use langsmith_deployment_go.Assistants.Patch.{PatchAssistantInput, patch_assistant}
use langsmith_deployment_go.Assistants.Latest.{set_latest}
use langsmith_deployment_go.Assistants.History.{HasHistory}
use langsmith_deployment_go.Assistants.Kept.{
  latest_statement-HasHistory, patch_statement-HasHistory,
}
use langsmith_deployment_go.Assistants.Added.{added-HasHistory}

module _ {V : Type 0} where
  -- A DELETE takes the versions of the deleted assistants along, and no others.
  deleted-HasHistory :
      (p : Assistant V → Bool) (db : Database V) (cs : List (Cron V))
      → HasHistory db
      → HasHistory (delete_assistants p db cs).0
  unfolding delete_assistants delete_runs
  deleted-HasHistory p db cs good = record {
    one_assistant = λ a b m n e.
        good.one_assistant a b (IsIn-keep _ a db.assistants m).0 (IsIn-keep _ b db.assistants n).0
          e;
    one_version = λ v w m n e f.
        good.one_version v w (IsIn-keep _ v db.assistant_versions m).0
          (IsIn-keep _ w db.assistant_versions n).0 e f;
    owner = λ v m.
        let (k, left) = IsIn-keep _ v db.assistant_versions m in
        let (a, n, h) = IsIn-any (has_assistant_id v.assistant_id) db.assistants (good.owner v k) in
        any-IsIn (has_assistant_id v.assistant_id) a (keep (λ a. not (p a)) db.assistants)
          (keep-IsIn (λ a. not (p a)) a db.assistants n
            (owner_stays p db v a n ((eq_iff a.assistant_id v.assistant_id).0 h) left))
          h;
    current = λ a m.
        let (k, stays) = IsIn-keep (λ a. not (p a)) a db.assistants m in
        let (v, n, c) = good.current a k in
        (v, keep-IsIn _ v db.assistant_versions n (version_stays p db a v good k stays c.0), c);
  }
    where
      owner_stays :
          (p : Assistant V → Bool) (db : Database V) (v : AssistantVersion V) (a : Assistant V)
          → IsIn a db.assistants
          → a.assistant_id ≡ v.assistant_id
          → not (elem v.assistant_id (assistant_ids (keep p db.assistants))) ≡ true
          → not (p a) ≡ true
      owner_stays p db v a m e left = elim (Bool-cases (p a)) [
        | inr b ↦ rw b refl
        | inl b ↦
            let there =
              elem-map (λ (a : Assistant V). a.assistant_id) a (keep p db.assistants)
                (keep-IsIn p a db.assistants m b) in
            let there' =
              subst (λ u. elem u (assistant_ids (keep p db.assistants)) ≡ true) e there in
            absurd (ground (arith, left, there'))
      ]

      version_stays :
          (p : Assistant V → Bool) (db : Database V) (a : Assistant V) (v : AssistantVersion V)
          → HasHistory db
          → IsIn a db.assistants
          → not (p a) ≡ true
          → v.assistant_id ≡ a.assistant_id
          → not (elem v.assistant_id (assistant_ids (keep p db.assistants))) ≡ true
      version_stays p db a v good m stays e =
          elim (Bool-cases (elem v.assistant_id (assistant_ids (keep p db.assistants)))) [
            | inr b ↦ rw b refl
            | inl b ↦
                let (x, n, same) =
                  map-elem (λ (a : Assistant V). a.assistant_id) v.assistant_id
                    (keep p db.assistants) b in
                let (k, px) = IsIn-keep p x db.assistants n in
                let twin = good.one_assistant x a k m (same ∙ e) in
                let pa : p a ≡ true = ap p (sym twin) ∙ px in absurd (ground (arith, stays, pa))
          ]

  -- The threads of a database do not matter.
  same_tables-HasHistory :
      (p : Thread V → Bool) (db : Database V) → HasHistory db → HasHistory (delete_threads p db)
  unfolding delete_threads delete_runs
  same_tables-HasHistory p db good = record {
    one_assistant = good.one_assistant;
    one_version = good.one_version;
    owner = good.owner;
    current = good.current;
  }

module _ {V : Type 0} (pg : Postgres V) where
  create_assistant-HasHistory :
      (now : ℕ) (db : Database V) (fresh : String) (i : CreateAssistantInput)
      → HasHistory db
      → HasHistory (create_assistant pg now db fresh i).1
  unfolding create_assistant insert_or_read_assistant
  create_assistant-HasHistory now db fresh i good =
      let P = λ (x : Assistant V × Database V). HasHistory x.1 in
      committed-either pg HasHistory db (create_statement pg now db fresh i) good
        (elim (Bool-cases (returns_assistant i)) [
          | inr b ↦ rw b (
              OnOk-then P (assistant_to_insert pg now fresh i) _
                (λ a _. added-HasHistory now db (λ x. false) a good))
          | inl b ↦ rw b (
              OnOk-then P (apply_to_query i.filters own_metadata (length (assistant_args i) + 1)) _
                (λ e _. OnOk-then P (bound pg (assistant_args i ++ e.1)) _ (λ ps _.
                  OnOk-then P (assistant_to_insert pg now fresh i) _ (λ a _.
                    added-HasHistory now db (selects_assistant pg a.assistant_id e.0 ps) a good))))
        ])

  delete_assistant-HasHistory :
      (db : Database V) (cs : List (Cron V)) (id : String) (with_threads : Bool) (fs : Filters)
      → HasHistory db
      → OnOk (λ x. HasHistory x.1) (delete_assistant pg db cs id with_threads fs)
  unfolding delete_assistant
  delete_assistant-HasHistory db cs id with_threads fs good =
      let P = λ (x : List String × Database V × List (Cron V)). HasHistory x.1 in
      OnOk-then P (apply_to_query fs own_metadata 2) _ (λ e _. OnOk-then P (uuid_of pg id) _ (λ u _.
        OnOk-then P (bound pg (uuid_arg id ∷ e.1)) _ (λ ps _.
          let hit = selects_assistant pg u e.0 ps in
          let rest = delete_assistants hit db cs in
          let gone = with_threads && any_deleted (assistant_ids (keep hit db.assistants)) in
          elim (Bool-cases gone) [
            | inr b ↦ rw b (deleted-HasHistory hit db cs good)
            | inl b ↦ rw b (
                OnOk-then P (bound pg (text_arg id ∷ e.1)) _ (λ qs _.
                  same_tables-HasHistory (λ t. is_tagged pg id t && meets pg e.0 qs t.metadata)
                    rest.0 (deleted-HasHistory hit db cs good)))
          ])))

  -- One committed operation, whatever it answers. A Delete that fails changes nothing.
  pub data AssistantStep : Database V → Database V → Type 0 where
    by_create :
        (now : ℕ) (fresh : String) (i : CreateAssistantInput) (db : Database V)
        → AssistantStep db (create_assistant pg now db fresh i).1
    by_patch :
        (now : ℕ) (id : String) (i : PatchAssistantInput) (fs : Filters) (db : Database V)
        → AssistantStep db (patch_assistant pg now db id i fs).1
    by_set_latest :
        (id : String) (n : ℕ) (fs : Filters) (db : Database V)
        → AssistantStep db (set_latest pg db id n fs).1
    by_delete :
        (cs : List (Cron V)) (id : String) (with_threads : Bool) (fs : Filters) (db : Database V)
        (left : List String × Database V × List (Cron V))
        → delete_assistant pg db cs id with_threads fs ≡ ok left
        → AssistantStep db left.1

  pub data AssistantSteps : Database V → Database V → Type 0 where
    stay : (db : Database V) → AssistantSteps db db
    go_on : (a b c : Database V) → AssistantSteps a b → AssistantStep b c → AssistantSteps a c

  AssistantStep-HasHistory : (a b : Database V) → AssistantStep a b → HasHistory a → HasHistory b
  unfolding patch_assistant set_latest
  AssistantStep-HasHistory a b (by_create now fresh i _) good =
      create_assistant-HasHistory now a fresh i good
  AssistantStep-HasHistory a b (by_patch now id i fs _) good =
      committed-either pg HasHistory a _ good (patch_statement-HasHistory pg now a id i fs good)
  AssistantStep-HasHistory a b (by_set_latest id n fs _) good =
      committed-either pg HasHistory a _ good (latest_statement-HasHistory pg a id n fs good)
  AssistantStep-HasHistory a b (by_delete cs id with_threads fs _ left e) good =
      value_of (λ (x : List String × Database V × List (Cron V)). HasHistory x.1)
        (delete_assistant-HasHistory a cs id with_threads fs good) e

  -- Whatever callers create, patch, move to a version or delete, in whatever order, from tables
  -- where ids and numbers of versions name one row, every version has its assistant and every
  -- assistant has the config and the metadata of the version row that its number names, they reach
  -- only tables of that kind.
  pub AssistantSteps-HasHistory :
      (a b : Database V) → AssistantSteps a b → HasHistory a → HasHistory b
  AssistantSteps-HasHistory a b (stay _) good = good
  AssistantSteps-HasHistory a b (go_on _ m _ s t) good =
      AssistantStep-HasHistory m b t (AssistantSteps-HasHistory a m s good)
