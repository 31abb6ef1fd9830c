-- ===== src/Checkpointer/View.antt =====
-- Put of internal/checkpointer/store.go against a map from keys to documents, which forgets the
-- order of the rows, their runs and their parents.
use langsmith_deployment_go.Prelude.{
  ℕ, String, ◌≡◌, refl, sym, ap, ap₂, ◌∙◌, true, false, ◌&&◌, Option, none, some, List, [], ◌∷◌,
  str_eq, eq_iff, any, find?, if◌then◌else◌, inl, inr, Bool-cases, &&-left, &&-right, ok,
}
use langsmith_deployment_go.Sql.{Postgres}
use langsmith_deployment_go.Runs.Model.{Database, Checkpoint}
use langsmith_deployment_go.Checkpointer.Rows.{
  PutInput, replace, is_at, same_checkpoint, revise, put_checkpoint, put,
}
use langsmith_deployment_go.Checkpointer.Stored.{find?-put_checkpoint, put-Upserted}

module _ {V : Type 0} where
  -- The documents of a row.
  abbrev pub documents : Option (Checkpoint V) → Option (V × V)
  documents none = none
  documents (some c) = some (c.checkpoint, c.metadata)

  -- The documents under a thread, a namespace and an id.
  abbrev pub view : List (Checkpoint V) → String → String → String → Option (V × V)
  view cs t n i = documents (find? (is_at t n i) cs)

  same_key :
      (c x : Checkpoint V) (t n i : String)
      → same_checkpoint c x ≡ true
      → is_at t n i x ≡ is_at t n i c
  same_key c x t n i h =
      let a = (eq_iff x.thread_id c.thread_id).0 (&&-left _ _ h) in
      let rest = &&-right (str_eq x.thread_id c.thread_id) _ h in
      let b = (eq_iff x.checkpoint_ns c.checkpoint_ns).0 (&&-left _ _ rest) in
      let d =
        (eq_iff x.checkpoint_id c.checkpoint_id).0
          (&&-right (str_eq x.checkpoint_ns c.checkpoint_ns) _ rest) in
      rw (a, b, d) refl

  find?-replace_other :
      (c : Checkpoint V) (cs : List (Checkpoint V)) (t n i : String)
      → is_at t n i c ≡ false
      → find? (is_at t n i) (replace (same_checkpoint c) (revise c) cs) ≡ find? (is_at t n i) cs
  find?-replace_other c [] t n i h = refl
  find?-replace_other c (x ∷ xs) t n i h =
      let ih = find?-replace_other c xs t n i h in
      elim (Bool-cases (same_checkpoint c x)) [
        | inl b ↦ rw (b, same_key c x t n i b ∙ h) ih
        | inr b ↦ elim (Bool-cases (is_at t n i x)) [
          | inl a ↦ rw (b, a) refl
          | inr a ↦ rw (b, a) ih
        ]
      ]

  find?-put_other :
      (c : Checkpoint V) (cs : List (Checkpoint V)) (t n i : String)
      → is_at t n i c ≡ false
      → find? (is_at t n i) (put_checkpoint c cs) ≡ find? (is_at t n i) cs
  unfolding put_checkpoint
  find?-put_other c cs t n i h = elim (Bool-cases (any (same_checkpoint c) cs)) [
    | inl b ↦ rw b (find?-replace_other c cs t n i h)
    | inr b ↦ rw (b, h) refl
  ]

module _ {V : Type 0} (pg : Postgres V) where
  view-put_same :
      (c : Checkpoint V) (cs : List (Checkpoint V)) (t n i : String)
      → is_at t n i c ≡ true
      → view (put_checkpoint c cs) t n i ≡ some (c.checkpoint, c.metadata)
  view-put_same c cs t n i h =
      let a = (eq_iff c.thread_id t).0 (&&-left _ _ h) in
      let rest = &&-right (str_eq c.thread_id t) _ h in
      let b = (eq_iff c.checkpoint_ns n).0 (&&-left _ _ rest) in
      let d = (eq_iff c.checkpoint_id i).0 (&&-right (str_eq c.checkpoint_ns n) _ rest) in
      let (y, found, e1, e2) = find?-put_checkpoint pg c cs in
      rw (← a, ← b, ← d) (ap documents found ∙ ap₂ (λ (x z : V). some (x, z)) e1 e2)

  view-put_checkpoint :
      (c : Checkpoint V) (cs : List (Checkpoint V)) (t n i : String)
      → view (put_checkpoint c cs) t n i
        ≡ (if is_at t n i c then some (c.checkpoint, c.metadata) else view cs t n i)
  view-put_checkpoint c cs t n i = elim (Bool-cases (is_at t n i c)) [
    | inl b ↦ view-put_same c cs t n i b ∙ sym (rw b refl)
    | inr b ↦ ap documents (find?-put_other c cs t n i b) ∙ sym (rw b refl)
  ]

  -- The map after is the map before with these documents under this key.
  abbrev Assigned : String → String → String → V × V → Database V → Database V → Type 0
  Assigned u ns v d db db' =
      (t n i : String)
      → view db'.checkpoints t n i
        ≡ (if str_eq u t && (str_eq ns n && str_eq v i) then some d else view db.checkpoints t n i)

  abbrev AssignsParsed : PutInput → String → String → Database V → Database V → Type 0
  AssignsParsed i u v db db' =
      (k : V) × (m : V) × (pg.parse i.checkpoint_json ≡ some k)
      × (pg.parse i.metadata_json ≡ some m)
      × Assigned u i.checkpoint_ns v (k, m) db db'

  key_test :
      (c : Checkpoint V) {u ns v : String}
      → c.thread_id ≡ u
      → c.checkpoint_ns ≡ ns
      → c.checkpoint_id ≡ v
      → (t n i : String) → is_at t n i c ≡ (str_eq u t && (str_eq ns n && str_eq v i))
  key_test c et en ei t n i = rw (et, en, ei) refl

  -- Seen as a map from threads, namespaces and ids to documents, an answered Put assigns the parsed
  -- documents to its key and leaves every other key as it was. The ids are uuids.
  pub put_refines_assignment :
      (now : ℕ) (db : Database V) (i : PutInput) (u v : String)
      → pg.uuid i.thread_id ≡ some u
      → pg.uuid i.checkpoint_id ≡ some v
      → (put pg now db i).0 ≡ ok tt
      → AssignsParsed i u v db (put pg now db i).1
  put_refines_assignment now db i u v ku kv answered =
      let (c, et, en, ei, ec, ed, table) = put-Upserted pg now db i u v ku kv answered in
      (
        c.checkpoint,
        c.metadata,
        ec,
        ed,
        λ t n j.
            ap (λ l. view l t n j) table
            ∙ view-put_checkpoint c db.checkpoints t n j
            ∙ ap (λ b. if b then some (c.checkpoint, c.metadata) else view db.checkpoints t n j)
                (key_test c et en ei t n j),
      )
