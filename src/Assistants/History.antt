-- ===== src/Assistants/History.antt =====
-- The versions of assistants: what the writes of internal/assistants/store.go keep true of the two
-- tables.
use langsmith_deployment_go.Prelude.{
  ◌≤◌, ◌<◌, String, ◌≡◌, refl, sym, ap, ◌∙◌, subst, Bool, true, List, [], ◌∷◌, arith, eq_iff, any,
  keep, inl, inr, Bool-cases, IsIn, any-IsIn, keep-IsIn, if◌then◌else◌,
}
use langsmith_deployment_go.Runs.Model.{Assistant, AssistantVersion, Database, has_assistant_id}
use langsmith_deployment_go.Assistants.Query.{has_version_of}
use langsmith_deployment_go.Assistants.Patch.{max_version, next_version, update_assistants}

module _ {V : Type 0} where
  -- The version row that an assistant points to: it has the assistant's config and metadata.
  abbrev pub IsCurrent : Assistant V → AssistantVersion V → Type 0
  IsCurrent a v =
      (v.assistant_id ≡ a.assistant_id)
      × (v.version ≡ a.version)
      × (v.config ≡ a.config)
      × (v.metadata ≡ a.metadata)

  -- Both primary keys, the foreign key of the versions, and each assistant's version row.
  pub record HasHistory (db : Database V) : Type 0 where
    pub one_assistant :
        (a b : Assistant V)
        → IsIn a db.assistants
        → IsIn b db.assistants
        → a.assistant_id ≡ b.assistant_id
        → a ≡ b
    pub one_version :
        (v w : AssistantVersion V)
        → IsIn v db.assistant_versions
        → IsIn w db.assistant_versions
        → v.assistant_id ≡ w.assistant_id
        → v.version ≡ w.version
        → v ≡ w
    pub owner :
        (v : AssistantVersion V)
        → IsIn v db.assistant_versions
        → any (has_assistant_id v.assistant_id) db.assistants ≡ true
    pub current :
        (a : Assistant V)
        → IsIn a db.assistants
        → (v : AssistantVersion V) × IsIn v db.assistant_versions × IsCurrent a v

  pub IsIn-update_assistants :
      (p : Assistant V → Bool) (f : Assistant V → Assistant V) (x : Assistant V)
      (as' : List (Assistant V))
      → IsIn x (update_assistants p f as')
      → (y : Assistant V) × IsIn y as' × (x ≡ (if p y then f y else y))
  IsIn-update_assistants p f x [] m = absurd m
  IsIn-update_assistants p f x (y ∷ ys) (inl e) = (y, inl refl, e)
  IsIn-update_assistants p f x (y ∷ ys) (inr m) =
      let (z, k, e) = IsIn-update_assistants p f x ys m in (z, inr k, e)

  any-update_assistants :
      (p : Assistant V → Bool) (f : Assistant V → Assistant V) (u : String)
      (as' : List (Assistant V))
      → ((a : Assistant V) → (f a).assistant_id ≡ a.assistant_id)
      → any (has_assistant_id u) (update_assistants p f as') ≡ any (has_assistant_id u) as'
  any-update_assistants p f u [] h = refl
  any-update_assistants p f u (a ∷ as') h = elim (Bool-cases (p a)) [
    | inl b ↦ rw (b, h a, any-update_assistants p f u as' h) refl
    | inr b ↦ rw (b, any-update_assistants p f u as' h) refl
  ]

  max_version-bounds :
      (v : AssistantVersion V) (vs : List (AssistantVersion V))
      → IsIn v vs
      → v.version ≤ max_version vs
  max_version-bounds v [] m = absurd m
  max_version-bounds v (w ∷ ws) (inl e) = rw e (ground arith)
  max_version-bounds v (w ∷ ws) (inr m) = ground (arith, max_version-bounds v ws m)

  -- The number that Patch gives is above all of the assistant's numbers.
  pub next_version-above :
      (u : String) (vs : List (AssistantVersion V)) (v : AssistantVersion V)
      → IsIn v vs
      → v.assistant_id ≡ u
      → v.version < next_version u vs
  next_version-above u vs v m e =
      let kept = keep-IsIn (has_version_of u) v vs m ((eq_iff v.assistant_id u).1 e) in
      omega (arith, max_version-bounds v (keep (has_version_of u) vs) kept)

  abbrev changed : (Assistant V → Bool) → (Assistant V → Assistant V) → Assistant V → Assistant V
  changed p f a = if p a then f a else a

  changed_id :
      (p : Assistant V → Bool) (f : Assistant V → Assistant V) (a : Assistant V)
      → ((a : Assistant V) → (f a).assistant_id ≡ a.assistant_id)
      → (changed p f a).assistant_id ≡ a.assistant_id
  changed_id p f a h = elim (Bool-cases (p a)) [ inl b ↦ rw b (h a) | inr b ↦ rw b refl ]

  -- An UPDATE of assistants that keeps their ids, beside a table of versions that has grown.
  pub moved-HasHistory :
      (db : Database V) (p : Assistant V → Bool) (f : Assistant V → Assistant V)
      (vs : List (AssistantVersion V))
      → HasHistory db
      → ((a : Assistant V) → (f a).assistant_id ≡ a.assistant_id)
      → ((v : AssistantVersion V) → IsIn v db.assistant_versions → IsIn v vs)
      → ((v w : AssistantVersion V)
          → IsIn v vs
          → IsIn w vs
          → v.assistant_id ≡ w.assistant_id
          → v.version ≡ w.version
          → v ≡ w)
      → ((v : AssistantVersion V)
          → IsIn v vs
          → any (has_assistant_id v.assistant_id) db.assistants ≡ true)
      → ((a : Assistant V)
          → IsIn a db.assistants
          → p a ≡ true
          → (v : AssistantVersion V) × IsIn v vs × IsCurrent (f a) v)
      → HasHistory
          (record db { assistants = update_assistants p f db.assistants; assistant_versions = vs })
  moved-HasHistory db p f vs good ids more one owned pointed = record {
    one_assistant = λ a b m n e.
        let (x, k, same) = IsIn-update_assistants p f a db.assistants m in
        let (y, l, other) = IsIn-update_assistants p f b db.assistants n in
        let id_x = ap (λ (c : Assistant V). c.assistant_id) same ∙ changed_id p f x ids in
        let id_y = ap (λ (c : Assistant V). c.assistant_id) other ∙ changed_id p f y ids in
        same ∙ (ap (changed p f) (good.one_assistant x y k l (sym id_x ∙ (e ∙ id_y))) ∙ sym other);
    one_version = one;
    owner = λ v m. any-update_assistants p f v.assistant_id db.assistants ids ∙ owned v m;
    current = λ a m.
        let (x, k, same) = IsIn-update_assistants p f a db.assistants m in
        subst (λ (c : Assistant V). (v : AssistantVersion V) × IsIn v vs × IsCurrent c v) (sym same)
          (elim (Bool-cases (p x)) [
            | inl b ↦ rw b (pointed x k b)
            | inr b ↦ let (v, n, c) = good.current x k in rw b (v, more v n, c)
          ]);
  }

  -- A new version above all others of its assistant, which is there.
  pub one_more_version :
      (db : Database V) (v : AssistantVersion V)
      → HasHistory db
      → v.version ≡ next_version v.assistant_id db.assistant_versions
      → (w x : AssistantVersion V) → IsIn w (v ∷ db.assistant_versions)
      → IsIn x (v ∷ db.assistant_versions)
      → w.assistant_id ≡ x.assistant_id
      → w.version ≡ x.version
      → w ≡ x
  one_more_version db v good top w x (inl e) (inl f) ids ns = e ∙ sym f
  one_more_version db v good top w x (inr m) (inr n) ids ns = good.one_version w x m n ids ns
  one_more_version db v good top w x (inl e) (inr n) ids ns =
      let above =
        next_version-above v.assistant_id db.assistant_versions x n
          (sym ids ∙ ap (λ (c : AssistantVersion V). c.assistant_id) e) in
      let same : x.version ≡ next_version v.assistant_id db.assistant_versions =
        sym ns ∙ (ap (λ (c : AssistantVersion V). c.version) e ∙ top) in
      absurd (omega (arith, above, same))
  one_more_version db v good top w x (inr m) (inl f) ids ns =
      let above =
        next_version-above v.assistant_id db.assistant_versions w m
          (ids ∙ ap (λ (c : AssistantVersion V). c.assistant_id) f) in
      let same : w.version ≡ next_version v.assistant_id db.assistant_versions =
        ns ∙ (ap (λ (c : AssistantVersion V). c.version) f ∙ top) in
      absurd (omega (arith, above, same))

  -- The UPDATE of one assistant beside the version row that records it.
  pub recorded-HasHistory :
      (db : Database V) (u : String) (a : Assistant V) (v : AssistantVersion V)
      (f : Assistant V → Assistant V)
      → HasHistory db
      → IsIn a db.assistants
      → a.assistant_id ≡ u
      → v.assistant_id ≡ u
      → v.version ≡ next_version u db.assistant_versions
      → ((b : Assistant V) → (f b).assistant_id ≡ b.assistant_id)
      → IsCurrent (f a) v
      → HasHistory (record db {
        assistants = update_assistants (has_assistant_id u) f db.assistants;
        assistant_versions = v ∷ db.assistant_versions;
      })
  recorded-HasHistory db u a v f good m is_u v_u top ids now_current =
      moved-HasHistory db (has_assistant_id u) f (v ∷ db.assistant_versions) good ids (λ w n. inr n)
        (one_more_version db v good (rw v_u top))
        (λ w n. elim n [
          | inr k ↦ good.owner w k
          | inl e ↦ any-IsIn (has_assistant_id w.assistant_id) a db.assistants m (
              (eq_iff a.assistant_id w.assistant_id).1
                (is_u ∙ (sym v_u ∙ sym (ap (λ (c : AssistantVersion V). c.assistant_id) e))))
        ])
        (λ b n h.
          let same = good.one_assistant a b m n (is_u ∙ sym ((eq_iff b.assistant_id u).0 h)) in
          (v, inl refl, subst (λ (c : Assistant V). IsCurrent (f c) v) same now_current))
