-- ===== src/Assistants/Added.antt =====
-- Create of internal/assistants/store.go adds an assistant with its first version.
use mathlib.Core.Bool.{false≢true}
use langsmith_deployment_go.Prelude.{
  ℕ, ◌≡◌, refl, sym, ap, ◌∙◌, subst, Bool, true, false, ◌∷◌, eq_iff, any, find?, ◌==◌, inl, inr,
  Bool-cases, IsIn, IsIn-any, any-IsIn, ok, already_exists, from_option, &&-left,
}
use langsmith_deployment_go.Runs.Model.{Assistant, AssistantVersion, Database, has_assistant_id}
use langsmith_deployment_go.Runs.Creating.{OnOk, OnOk-then}
use langsmith_deployment_go.Assistants.Rows.{is_version, version_of, add_assistant}
use langsmith_deployment_go.Assistants.History.{HasHistory}

module _ {V : Type 0} where
  no_version_yet :
      (db : Database V) (a : Assistant V)
      → HasHistory db
      → any (has_assistant_id a.assistant_id) db.assistants ≡ false
      → any (is_version a.assistant_id a.version) db.assistant_versions ≡ false
  no_version_yet db a good free =
      elim (Bool-cases (any (is_version a.assistant_id a.version) db.assistant_versions)) [
        | inr b ↦ b
        | inl b ↦
            let (v, m, h) =
              IsIn-any (is_version a.assistant_id a.version) db.assistant_versions b in
            let same =
              (eq_iff v.assistant_id a.assistant_id).0 (&&-left _ (v.version == a.version) h) in
            absurd (
              false≢true (
                sym free
                ∙ subst (λ u. any (has_assistant_id u) db.assistants ≡ true) same (good.owner v m)))
      ]

  no_twin :
      (db : Database V) (a b : Assistant V)
      → any (has_assistant_id a.assistant_id) db.assistants ≡ false
      → IsIn b db.assistants
      → b.assistant_id ≡ a.assistant_id
      → ⊥
  no_twin db a b free m e = false≢true (
      sym free
      ∙ any-IsIn (has_assistant_id a.assistant_id) b db.assistants m
          ((eq_iff b.assistant_id a.assistant_id).1 e))

  no_other_version :
      (db : Database V) (a : Assistant V) (v : AssistantVersion V)
      → HasHistory db
      → any (has_assistant_id a.assistant_id) db.assistants ≡ false
      → IsIn v db.assistant_versions
      → v.assistant_id ≡ a.assistant_id
      → ⊥
  no_other_version db a v good free m e =
      false≢true
        (sym free ∙ subst (λ u. any (has_assistant_id u) db.assistants ≡ true) e (good.owner v m))

  one_here :
      (db : Database V) (a b c : Assistant V)
      → HasHistory db
      → any (has_assistant_id a.assistant_id) db.assistants ≡ false
      → IsIn b (a ∷ db.assistants)
      → IsIn c (a ∷ db.assistants)
      → b.assistant_id ≡ c.assistant_id
      → b ≡ c
  one_here db a b c good free (inl e) (inl f) h = e ∙ sym f
  one_here db a b c good free (inr m) (inr n) h = good.one_assistant b c m n h
  one_here db a b c good free (inl e) (inr n) h =
      absurd (no_twin db a c free n (sym h ∙ ap (λ (x : Assistant V). x.assistant_id) e))
  one_here db a b c good free (inr m) (inl f) h =
      absurd (no_twin db a b free m (h ∙ ap (λ (x : Assistant V). x.assistant_id) f))

  one_there :
      (now : ℕ) (db : Database V) (a : Assistant V) (v w : AssistantVersion V)
      → HasHistory db
      → any (has_assistant_id a.assistant_id) db.assistants ≡ false
      → IsIn v (version_of now a ∷ db.assistant_versions)
      → IsIn w (version_of now a ∷ db.assistant_versions)
      → v.assistant_id ≡ w.assistant_id
      → v.version ≡ w.version
      → v ≡ w
  one_there now db a v w good free (inl e) (inl f) h k = e ∙ sym f
  one_there now db a v w good free (inr m) (inr n) h k = good.one_version v w m n h k
  one_there now db a v w good free (inl e) (inr n) h k = absurd (
      no_other_version db a w good free n
        (sym h ∙ ap (λ (x : AssistantVersion V). x.assistant_id) e))
  one_there now db a v w good free (inr m) (inl f) h k =
      absurd (
        no_other_version db a v good free m (h ∙ ap (λ (x : AssistantVersion V). x.assistant_id) f))

  first_of_its_kind :
      (now : ℕ) (db : Database V) (a : Assistant V)
      → HasHistory db
      → any (has_assistant_id a.assistant_id) db.assistants ≡ false
      → HasHistory (record db {
        assistants = a ∷ db.assistants;
        assistant_versions = version_of now a ∷ db.assistant_versions;
      })
  first_of_its_kind now db a good free = record {
    one_assistant = λ b c m n h. one_here db a b c good free m n h;
    one_version = λ v w m n h k. one_there now db a v w good free m n h k;
    owner = λ v m. elim m [
      | inl e ↦ any-IsIn (has_assistant_id v.assistant_id) a (a ∷ db.assistants) (inl refl) (
          (eq_iff a.assistant_id v.assistant_id).1
            (sym (ap (λ (x : AssistantVersion V). x.assistant_id) e)))
      | inr k ↦
          let (b, n, h) =
            IsIn-any (has_assistant_id v.assistant_id) db.assistants (good.owner v k) in
          any-IsIn (has_assistant_id v.assistant_id) b (a ∷ db.assistants) (inr n) h
    ];
    current = λ b m. elim m [
      | inl e ↦ (
        version_of now a,
        inl refl,
        (
          ap (λ (x : Assistant V). x.assistant_id) (sym e),
          ap (λ (x : Assistant V). x.version) (sym e),
          ap (λ (x : Assistant V). x.config) (sym e),
          ap (λ (x : Assistant V). x.metadata) (sym e),
        ),
      )
      | inr k ↦ let (v, n, c) = good.current b k in (v, inr n, c)
    ];
  }

  -- A row with a free id, beside its first version.
  pub added-HasHistory :
      (now : ℕ) (db : Database V) (hit : Assistant V → Bool) (a : Assistant V)
      → HasHistory db
      → OnOk (λ x. HasHistory x.1) (add_assistant now db hit a)
  added-HasHistory now db hit a good =
      let P = λ (x : Assistant V × Database V). HasHistory x.1 in
      elim (Bool-cases (any (has_assistant_id a.assistant_id) db.assistants)) [
        | inl b ↦ rw b (
            OnOk-then P (from_option already_exists (find? hit db.assistants)) (λ old. ok (old, db))
              (λ old _. good))
        | inr b ↦
            let none_yet = no_version_yet db a good b in
            rw (b, none_yet) (first_of_its_kind now db a good b)
      ]
