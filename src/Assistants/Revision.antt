-- ===== src/Assistants/Revision.antt =====
-- What Patch of internal/assistants/store.go records.
use langsmith_deployment_go.Prelude.{
  ℕ, ◌<◌, String, ◌≡◌, refl, sym, ap, ◌∙◌, subst, false, Option, some, List, ◌∷◌, ◌++◌, ◌⊎◌, inl,
  inr, eq_iff, Bool-cases, find?, IsIn, ok, not_found, from_option, found-IsIn, ok-injective,
  right-IsIn, &&-left,
}
use langsmith_deployment_go.Sql.{Postgres, Arg, own_metadata, uuid_arg, text_arg, json_arg}
use langsmith_deployment_go.Auth.{Filters, apply_to_query}
use langsmith_deployment_go.Runs.Model.{Assistant, AssistantVersion, Database, has_assistant_id}
use langsmith_deployment_go.Runs.Create.{or_default, first_of, uuid_of, null_if_empty}
use langsmith_deployment_go.Runs.Insert.{optional_json}
use langsmith_deployment_go.Runs.Creating.{OnOk, OnOk-then, on_committed}
use langsmith_deployment_go.Threads.Query.{bound}
use langsmith_deployment_go.Threads.Rows.{merge_given}
use langsmith_deployment_go.Crons.Rows.{meets}
use langsmith_deployment_go.Assistants.Query.{selects_assistant}
use langsmith_deployment_go.Assistants.Rows.{version_of}
use langsmith_deployment_go.Assistants.Patch.{
  PatchAssistantInput, next_version, update_assistants, revised, set_text, set_json, patch_args,
  patch_statement, patch_assistant,
}
use langsmith_deployment_go.Assistants.Places.{
  set_text-sent, set_json-sent, graph_id-IsIn, config-IsIn, context-IsIn, description-IsIn,
  name-IsIn,
}
use langsmith_deployment_go.Assistants.History.{
  HasHistory, IsIn-update_assistants, next_version-above,
}

module _ {V : Type 0} (pg : Postgres V) where
  -- What a patched row has of the patch, and of the row before.
  abbrev pub Takes : ℕ → PatchAssistantInput → Assistant V → Assistant V → Type 0
  Takes now i a b =
      (b.assistant_id ≡ a.assistant_id)
      × (b.created_at ≡ a.created_at)
      × (b.updated_at ≡ now)
      × (b.graph_id ≡ or_default a.graph_id (null_if_empty i.graph_id))
      × (b.name ≡ or_default a.name i.name)
      × (b.description ≡ first_of i.description a.description)
      × ((c : Option V) → optional_json pg i.config ≡ ok c → b.config ≡ or_default a.config c)
      × ((c : Option V)
          → optional_json pg i.context_json ≡ ok c
          → b.context ≡ or_default a.context c)
      × ((m : Option V)
          → optional_json pg i.metadata ≡ ok m
          → b.metadata ≡ merge_given pg a.metadata m)

  -- The answered row is the old one with the patch, under a number above all others; the version row
  -- that is added has every column of it, and no other assistant has changed.
  abbrev pub IsRevision :
      ℕ → Database V → String → PatchAssistantInput → Assistant V × Database V → Type 0
  IsRevision now db u i x =
      (x.1.assistant_versions ≡ version_of now x.0 ∷ db.assistant_versions)
      × ((v : AssistantVersion V)
          → IsIn v db.assistant_versions
          → v.assistant_id ≡ u
          → v.version < x.0.version)
      × ((b : Assistant V)
          → IsIn b x.1.assistants
          → (b ≡ x.0) ⊎ (IsIn b db.assistants × (has_assistant_id u b ≡ false)))
      × ((a : Assistant V) × IsIn a db.assistants × (a.assistant_id ≡ u) × Takes now i a x.0)

  only_revised :
      (db : Database V) (u : String) (f : Assistant V → Assistant V) (a b : Assistant V)
      → HasHistory db
      → IsIn a db.assistants
      → a.assistant_id ≡ u
      → IsIn b (update_assistants (has_assistant_id u) f db.assistants)
      → (b ≡ f a) ⊎ (IsIn b db.assistants × (has_assistant_id u b ≡ false))
  only_revised db u f a b good m is_u n =
      let (x, k, e) = IsIn-update_assistants (has_assistant_id u) f b db.assistants n in
      elim (Bool-cases (has_assistant_id u x)) [
        | inl h ↦
            let same = good.one_assistant x a k m ((eq_iff x.assistant_id u).0 h ∙ sym is_u) in
            inl ((rw h at e) ∙ ap f same)
        | inr h ↦
            let e' : b ≡ x = rw h at e in
            inr (
              subst (λ (c : Assistant V). IsIn c db.assistants) (sym e') k,
              ap (has_assistant_id u) e' ∙ h,
            )
      ]

  revised-IsRevision :
      (now : ℕ) (db : Database V) (u : String) (i : PatchAssistantInput) (c x m : Option V)
      (a : Assistant V) (f : Assistant V → Assistant V)
      → f
        ≡ revised pg now
            (next_version u db.assistant_versions)
            (null_if_empty i.graph_id)
            c
            x
            m
            i.description
            i.name
      → HasHistory db
      → IsIn a db.assistants
      → a.assistant_id ≡ u
      → optional_json pg i.config ≡ ok c
      → optional_json pg i.context_json ≡ ok x
      → optional_json pg i.metadata ≡ ok m
      → IsRevision now db u i (
        f a,
        record db {
          assistants = update_assistants (has_assistant_id u) f db.assistants;
          assistant_versions = version_of now (f a) ∷ db.assistant_versions;
        },
      )
  revised-IsRevision now db u i c x m a f is_f good ma is_u ec ex em =
      subst
        (λ (g : Assistant V → Assistant V). IsRevision now db u i (
          g a,
          record db {
            assistants = update_assistants (has_assistant_id u) g db.assistants;
            assistant_versions = version_of now (g a) ∷ db.assistant_versions;
          },
        ))
        (sym is_f)
        (
          refl,
          λ v k e. next_version-above u db.assistant_versions v k e,
          λ b n. only_revised db u _ a b good ma is_u n,
          (
            a,
            ma,
            is_u,
            (
              refl,
              refl,
              refl,
              refl,
              refl,
              refl,
              λ d e. ap (λ (o : Option V). or_default a.config o) (ok-injective c d (sym ec ∙ e)),
              λ d e. ap (λ (o : Option V). or_default a.context o) (ok-injective x d (sym ex ∙ e)),
              λ d e.
                  ap (λ (o : Option V). merge_given pg a.metadata o)
                    (ok-injective m d (sym em ∙ e)),
            ),
          ),
        )

  abbrev args_of : String → List Arg → PatchAssistantInput → List Arg
  args_of id auth_args i = uuid_arg id ∷ (auth_args ++ patch_args i)

  sent :
      (id : String) (auth_args : List Arg) (i : PatchAssistantInput) (a : Arg)
      → IsIn a (patch_args i)
      → IsIn a (args_of id auth_args i)
  sent id auth_args i a m = right-IsIn a (uuid_arg id ∷ auth_args) (patch_args i) m

  text_agrees :
      (id : String) (auth_args : List Arg) (i : PatchAssistantInput) (o t : Option String)
      → set_text (args_of id auth_args i) o ≡ ok t
      → ((s : String) → o ≡ some s → IsIn (text_arg s) (patch_args i))
      → t ≡ o
  text_agrees id auth_args i o t is_set m =
      ok-injective t o (
        sym is_set
        ∙ set_text-sent (args_of id auth_args i) o (λ s e. sent id auth_args i _ (m s e)))

  json_agrees :
      (id : String) (auth_args : List Arg) (i : PatchAssistantInput) (o : Option String)
      (v w : Option V)
      → set_json pg (args_of id auth_args i) o ≡ ok v
      → optional_json pg o ≡ ok w
      → ((s : String) → o ≡ some s → IsIn (json_arg s) (patch_args i))
      → v ≡ w
  json_agrees id auth_args i o v w is_set is_sent m = ok-injective v w (
      sym is_set
      ∙ (set_json-sent pg (args_of id auth_args i) o (λ s e. sent id auth_args i _ (m s e))
          ∙ is_sent))

  pub patch_statement-IsRevision :
      (now : ℕ) (db : Database V) (id u : String) (i : PatchAssistantInput) (fs : Filters)
      → HasHistory db
      → uuid_of pg id ≡ ok u
      → OnOk (IsRevision now db u i) (patch_statement pg now db id i fs)
  unfolding patch_statement
  patch_statement-IsRevision now db id u i fs good is_uuid =
      let P = IsRevision now db u i in
      OnOk-then P (apply_to_query fs own_metadata 2) _ (λ e _.
        let args = uuid_arg id ∷ (e.1 ++ patch_args i) in
        rw is_uuid (
          OnOk-then P (bound pg args) _ (λ ps _. OnOk-then P (optional_json pg i.config) _ (λ c ec.
            OnOk-then P (optional_json pg i.context_json) _ (λ x ex.
              OnOk-then P (optional_json pg i.metadata) _ (λ m em.
                OnOk-then P (set_text args (null_if_empty i.graph_id)) _ (λ graph sg.
                  OnOk-then P (set_json pg args i.config) _ (λ config sc.
                    OnOk-then P (set_json pg args i.context_json) _ (λ context sx.
                      OnOk-then P (set_text args i.description) _ (λ description sd.
                        OnOk-then P (set_text args i.name) _ (λ name sn.
                          OnOk-then P
                            (from_option not_found
                              (find? (selects_assistant pg u e.0 ps) db.assistants))
                            _
                            (λ a found.
                              let (ma, is_a) =
                                found-IsIn (selects_assistant pg u e.0 ps) not_found db.assistants a
                                  found in
                              let is_u : a.assistant_id ≡ u = (eq_iff a.assistant_id u).0 (
                                &&-left (has_assistant_id u a) (meets pg e.0 ps a.metadata) is_a) in
                              let s1 : graph ≡ null_if_empty i.graph_id =
                                text_agrees id e.1 i _ graph sg (λ s h. graph_id-IsIn i s h) in
                              let s2 : description ≡ i.description =
                                text_agrees id e.1 i _ description sd
                                  (λ s h. description-IsIn i s h) in
                              let s3 : name ≡ i.name =
                                text_agrees id e.1 i _ name sn (λ s h. name-IsIn i s h) in
                              let s4 : config ≡ c =
                                json_agrees id e.1 i _ config c sc ec (λ s h. config-IsIn i s h) in
                              let s5 : context ≡ x =
                                json_agrees id e.1 i _ context x sx ex
                                  (λ s h. context-IsIn i s h) in
                              rw (s1, s2, s3, s4, s5)
                                (revised-IsRevision now db u i c x m a _ refl good ma is_u ec ex
                                  em)))))))))))))

  -- An answered Patch of a uuid, over consistent tables, records the answered row as a new version,
  -- with a number above all of the assistant's; the row is the old one with the sent columns set and
  -- the metadata merged, and every other assistant is as it was.
  pub patch_assistant-IsRevision :
      (now : ℕ) (db : Database V) (id u : String) (i : PatchAssistantInput) (fs : Filters)
      (b : Assistant V)
      → HasHistory db
      → pg.uuid id ≡ some u
      → (patch_assistant pg now db id i fs).0 ≡ ok b
      → IsRevision now db u i (b, (patch_assistant pg now db id i fs).1)
  unfolding patch_assistant
  patch_assistant-IsRevision now db id u i fs b good is_uuid answered =
      on_committed pg (IsRevision now db u i) db (patch_statement pg now db id i fs) b
        (patch_statement-IsRevision now db id u i fs good (rw is_uuid refl)) answered
