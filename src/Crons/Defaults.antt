-- ===== src/Crons/Defaults.antt =====
-- injectOnCompletion of internal/crons/scheduler.go: a default that the payload's own key beats.
use langsmith_deployment_go.Prelude.{
  String, ◌≡◌, refl, ap, ◌∙◌, false, some, [], ◌∷◌, str_eq, eq_iff, if◌then◌else◌, Bool-cases,
  Option-cases, inl, inr,
}
use langsmith_deployment_go.Sql.{Postgres}
use langsmith_deployment_go.Runs.Create.{first_of}
use langsmith_deployment_go.Crons.Patch.{Codec}
use langsmith_deployment_go.Crons.Scheduler.{set_default, inject_on_completion}

module _ {V : Type 0} (pg : Postgres V) where
  -- `a || b` for an object `b` of one text entry, as PostgreSQL documents it.
  abbrev pub MergesEntry : Type 0
  MergesEntry =
      (m : V) (k s j : String)
      → pg.field (pg.merge m (pg.build ((k, pg.from_text s) ∷ []))) j
        ≡ (if str_eq j k then some (pg.from_text s) else pg.field m j)

module _ {V : Type 0} (pg : Postgres V) (codec : Codec V) where
  -- The kwargs of a run of a cron that keeps its thread: the payload's own "on_completion" if there
  -- is one, "keep" if not, and every other key as in the payload. A cron that does not keep its
  -- thread runs with the payload as it is. The payload is an object, and `||` merges as documented.
  pub inject_on_completion_default :
      MergesEntry pg
      → (payload m : V) (j : String) → codec.object payload ≡ some m
      → (pg.field (inject_on_completion pg codec payload "keep") j ≡ (
          if str_eq j "on_completion"
          then first_of (pg.field m "on_completion") (some (pg.from_text "keep"))
          else pg.field m j))
        × ((s : String)
            → str_eq s "keep" ≡ false
            → inject_on_completion pg codec payload s ≡ payload)
  unfolding inject_on_completion
  inject_on_completion_default merges payload m j decoded = (
    elim (Option-cases (pg.field m "on_completion")) [
      | inl n ↦ rw (decoded, n, set_default) (merges m "on_completion" "keep" j)
      | inr (w, n) ↦ rw (decoded, n, set_default) (own w n)
    ],
    λ s h. rw h refl,
  )
    where
      own :
          (w : V)
          → pg.field m "on_completion" ≡ some w
          → pg.field m j ≡ (if str_eq j "on_completion" then some w else pg.field m j)
      own w n = elim (Bool-cases (str_eq j "on_completion")) [
        | inl b ↦ rw b (ap (pg.field m) ((eq_iff j "on_completion").0 b) ∙ n)
        | inr b ↦ rw b refl
      ]
