-- ===== src/Assistants/Kept.antt =====
-- The writes of internal/assistants/store.go keep the tables of assistants and versions consistent.
use langsmith_deployment_go.Prelude.{
  ℕ, String, ◌≡◌, refl, sym, ap, ◌∙◌, Option, ◌∷◌, ◌++◌, eq_iff, find?, ◌==◌, not_found, database,
  from_option, found-IsIn, ok-injective, right-IsIn, &&-left,
}
use langsmith_deployment_go.Sql.{Postgres, own_metadata, uuid_arg, number_arg}
use langsmith_deployment_go.Auth.{Filters, apply_to_query}
use langsmith_deployment_go.Runs.Model.{Assistant, Database, has_assistant_id}
use langsmith_deployment_go.Runs.Create.{or_default, uuid_of, null_if_empty}
use langsmith_deployment_go.Runs.Insert.{optional_json}
use langsmith_deployment_go.Runs.Creating.{OnOk, OnOk-then, OnOk-check}
use langsmith_deployment_go.Threads.Query.{bound}
use langsmith_deployment_go.Assistants.Query.{selects_assistant}
use langsmith_deployment_go.Crons.Rows.{meets}
use langsmith_deployment_go.Assistants.Rows.{is_version, version_of}
use langsmith_deployment_go.Assistants.Patch.{
  PatchAssistantInput, next_version, revised, set_text, set_json, patch_args, patch_statement,
}
use langsmith_deployment_go.Assistants.Latest.{
  restored, is_accepted, move_to_version, latest_statement,
}
use langsmith_deployment_go.Assistants.History.{HasHistory, moved-HasHistory, recorded-HasHistory}
use langsmith_deployment_go.Assistants.Places.{set_json-sent, config-IsIn}

module _ {V : Type 0} (pg : Postgres V) where
  pub latest_statement-HasHistory :
      (db : Database V) (id : String) (n : ℕ) (fs : Filters)
      → HasHistory db
      → OnOk (λ x. HasHistory x.1) (latest_statement pg db id n fs)
  unfolding latest_statement
  latest_statement-HasHistory db id n fs good =
      let P = λ (x : Assistant V × Database V). HasHistory x.1 in
      OnOk-then P (apply_to_query fs own_metadata 2) _ (λ e _.
        OnOk-check P (is_accepted id n e) database (move_to_version pg db id n e) (λ _.
          OnOk-then P (uuid_of pg id) _ (λ u _.
            OnOk-then P (bound pg (uuid_arg id ∷ number_arg n ∷ e.1)) _ (λ ps _.
              OnOk-then P (from_option not_found (find? (is_version u n) db.assistant_versions)) _
                (λ v found.
                  let (mv, is_v) =
                    found-IsIn (is_version u n) not_found db.assistant_versions v found in
                  let hit = selects_assistant pg u e.0 ps in
                  OnOk-then P (from_option not_found (find? hit db.assistants)) _ (λ a _.
                    moved-HasHistory db hit (restored v) db.assistant_versions good (λ b. refl)
                      (λ w m. m) good.one_version good.owner
                      (λ b m h. (
                        v,
                        mv,
                        (
                          (eq_iff v.assistant_id u).0 (&&-left _ (v.version == n) is_v)
                              ∙ sym (
                                  (eq_iff b.assistant_id u).0 (&&-left (has_assistant_id u b) _ h)),
                          refl,
                          refl,
                          refl,
                        ),
                      ))))))))

  pub patch_statement-HasHistory :
      (now : ℕ) (db : Database V) (id : String) (i : PatchAssistantInput) (fs : Filters)
      → HasHistory db
      → OnOk (λ x. HasHistory x.1) (patch_statement pg now db id i fs)
  unfolding patch_statement
  patch_statement-HasHistory now db id i fs good =
      let P = λ (x : Assistant V × Database V). HasHistory x.1 in
      OnOk-then P (apply_to_query fs own_metadata 2) _ (λ e _.
        let args = uuid_arg id ∷ (e.1 ++ patch_args i) in
        OnOk-then P (uuid_of pg id) _ (λ u _. OnOk-then P (bound pg args) _ (λ ps _.
          OnOk-then P (optional_json pg i.config) _ (λ c ec.
            OnOk-then P (optional_json pg i.context_json) _ (λ x _.
              OnOk-then P (optional_json pg i.metadata) _ (λ m _.
                OnOk-then P (set_text args (null_if_empty i.graph_id)) _ (λ graph _.
                  OnOk-then P (set_json pg args i.config) _ (λ config sc.
                    OnOk-then P (set_json pg args i.context_json) _ (λ context _.
                      OnOk-then P (set_text args i.description) _ (λ description _.
                        OnOk-then P (set_text args i.name) _ (λ name _.
                          OnOk-then P
                            (from_option not_found
                              (find? (selects_assistant pg u e.0 ps) db.assistants))
                            _
                            (λ a found.
                              let n = next_version u db.assistant_versions in
                              let v = version_of now (
                                revised pg now n (null_if_empty i.graph_id) c x m i.description
                                  i.name a) in
                              let change =
                                revised pg now n graph config context m description name in
                              let same : c ≡ config = ok-injective c config (
                                sym ec
                                ∙ (sym (
                                      set_json-sent pg args i.config (λ s h.
                                        right-IsIn _ (uuid_arg id ∷ e.1) _ (config-IsIn i s h)))
                                    ∙ sc)) in
                              let (ma, is_a) =
                                found-IsIn (selects_assistant pg u e.0 ps) not_found db.assistants a
                                  found in
                              let is_u : a.assistant_id ≡ u = (eq_iff a.assistant_id u).0 (
                                &&-left (has_assistant_id u a) (meets pg e.0 ps a.metadata) is_a) in
                              recorded-HasHistory db u a v change good ma is_u is_u refl (λ b. refl)
                                (
                                  refl,
                                  refl,
                                  ap (λ (o : Option V). or_default a.config o) same,
                                  refl,
                                )))))))))))))
