-- ===== src/Assistants/Rollback.antt =====
-- SetLatest of internal/assistants/store.go takes an assistant back behind a Patch.
use langsmith_deployment_go.Prelude.{
  ℕ, String, ◌≡◌, refl, sym, ap, ◌∙◌, subst, true, none, some, List, [], ◌∷◌, arith, str_eq, eq_iff,
  ◌==◌, find?, IsIn, IsIn-any, any-IsIn, inr, ok, not_found, from_option, any-found, found-IsIn,
  &&-left, &&-right,
}
use langsmith_deployment_go.Sql.{
  Postgres, Param, uuid_arg, number_arg, text_param, number_param, bind, eval_all,
}
use langsmith_deployment_go.Auth.{Filters, nil, apply_to_query, emit_each}
use langsmith_deployment_go.Auth.Parameters.{placeholders_each}
use langsmith_deployment_go.Runs.Model.{Assistant, AssistantVersion, Database, has_assistant_id}
use langsmith_deployment_go.Runs.Creating.{committed-either}
use langsmith_deployment_go.Threads.Query.{bound}
use langsmith_deployment_go.Assistants.Query.{selects_assistant}
use langsmith_deployment_go.Assistants.Rows.{is_version}
use langsmith_deployment_go.Assistants.Patch.{PatchAssistantInput, patch_statement, patch_assistant}
use langsmith_deployment_go.Assistants.Latest.{restored, latest_statement, set_latest}
use langsmith_deployment_go.Assistants.History.{HasHistory}
use langsmith_deployment_go.Assistants.Kept.{patch_statement-HasHistory}
use langsmith_deployment_go.Assistants.Revision.{patch_assistant-IsRevision}

same_number : (m n : ℕ) → (m == n) ≡ true → m ≡ n
same_number m n h = ground (arith, h)

module _ {V : Type 0} (pg : Postgres V) where
  set_latest-answer :
      (db : Database V) (id u : String) (n : ℕ) (v : AssistantVersion V) (a : Assistant V)
      → pg.uuid id ≡ some u
      → from_option not_found (find? (is_version u n) db.assistant_versions) ≡ ok v
      → from_option not_found
          (find? (selects_assistant pg u none (text_param u ∷ number_param n ∷ [])) db.assistants)
        ≡ ok a
      → (set_latest pg db id n nil).0 ≡ ok (restored v a)
  unfolding set_latest latest_statement apply_to_query emit_each placeholders_each
  set_latest-answer db id u n v a k fv fa =
      let loaded : bound pg (uuid_arg id ∷ number_arg n ∷ [])
          ≡ ok (text_param u ∷ number_param n ∷ []) =
        rw (bind, k) refl in
      rw (k, loaded, fv, fa) refl

  -- SetLatest without filters answers the assistant with the config, the metadata and the number of
  -- a version row that is there.
  set_latest-version :
      (db : Database V) (id u : String) (w : AssistantVersion V)
      → HasHistory db
      → pg.uuid id ≡ some u
      → IsIn w db.assistant_versions
      → w.assistant_id ≡ u
      → (b : Assistant V) × ((set_latest pg db id w.version nil).0 ≡ ok b)
        × (b.config ≡ w.config)
        × (b.metadata ≡ w.metadata)
        × (b.version ≡ w.version)
  unfolding eval_all
  set_latest-version db id u w good is_uuid m is_u =
      let ps : List (Param V) = text_param u ∷ number_param w.version ∷ [] in
      let here : is_version u w.version w ≡ true =
        rw ((eq_iff w.assistant_id u).1 is_u) (ground arith) in
      let (v, fv) =
        any-found (is_version u w.version) not_found db.assistant_versions
          (any-IsIn (is_version u w.version) w db.assistant_versions m here) in
      let (mv, hv) = found-IsIn (is_version u w.version) not_found db.assistant_versions v fv in
      let same : v ≡ w =
        good.one_version v w mv m
          ((eq_iff v.assistant_id u).0 (&&-left _ (v.version == w.version) hv) ∙ sym is_u)
          (same_number v.version w.version (&&-right (str_eq v.assistant_id u) _ hv)) in
      let (x, n, h) = IsIn-any (has_assistant_id w.assistant_id) db.assistants (good.owner w m) in
      let h' : has_assistant_id u x ≡ true = subst (λ t. has_assistant_id t x ≡ true) is_u h in
      let (a, fa) =
        any-found (selects_assistant pg u none ps) not_found db.assistants
          (any-IsIn (selects_assistant pg u none ps) x db.assistants n (rw h' refl)) in
      (
        restored v a,
        set_latest-answer db id u w.version v a is_uuid fv fa,
        ap (λ (c : AssistantVersion V). c.config) same,
        ap (λ (c : AssistantVersion V). c.metadata) same,
        ap (λ (c : AssistantVersion V). c.version) same,
      )

  -- After an answered Patch of an assistant, over consistent tables, SetLatest without filters to its
  -- version before answers it with its config, its metadata and its version of before.
  pub set_latest-patch_assistant :
      (now : ℕ) (db : Database V) (id u : String) (i : PatchAssistantInput) (fs : Filters)
      (a b : Assistant V)
      → HasHistory db
      → pg.uuid id ≡ some u
      → IsIn a db.assistants
      → a.assistant_id ≡ u
      → (patch_assistant pg now db id i fs).0 ≡ ok b
      → (c : Assistant V) × ((set_latest pg
            (patch_assistant pg now db id i fs).1
            id
            a.version
            nil).0
          ≡ ok c)
        × (c.config ≡ a.config)
        × (c.metadata ≡ a.metadata)
        × (c.version ≡ a.version)
  unfolding patch_assistant
  set_latest-patch_assistant now db id u i fs a b good is_uuid m is_u answered =
      let db' = (patch_assistant pg now db id i fs).1 in
      let (w, n, (same_id, same_version, same_config, same_metadata)) = good.current a m in
      let good' : HasHistory db' =
        committed-either pg HasHistory db (patch_statement pg now db id i fs) good
          (patch_statement-HasHistory pg now db id i fs good) in
      let grown = (patch_assistant-IsRevision pg now db id u i fs b good is_uuid answered).0 in
      let still : IsIn w db'.assistant_versions = subst (λ vs. IsIn w vs) (sym grown) (inr n) in
      let (c, e, f, g, h) = set_latest-version db' id u w good' is_uuid still (same_id ∙ is_u) in
      (
        c,
        subst (λ k. (set_latest pg db' id k nil).0 ≡ ok c) same_version e,
        f ∙ same_config,
        g ∙ same_metadata,
        h ∙ same_version,
      )
