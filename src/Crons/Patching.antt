-- ===== src/Crons/Patching.antt =====
-- Patch of internal/crons/store.go: the next date belongs to the schedule that the row has now.
use mathlib.Core.Bool.{false≢true}
use langsmith_deployment_go.Prelude.{
  ap₂, ℕ, String, ◌≡◌, refl, sym, ap, ◌∙◌, Bool, true, false, ◌||◌, Option, none, some, List, [],
  ◌∷◌, arith, str_eq, find?, inl, inr, Bool-cases, &&-left, IsIn, eq_iff, ok, not_found, database,
  from_option, ◌≢◌, ◌⊎◌, subst, if◌then◌else◌,
}
use langsmith_deployment_go.Sql.{Postgres, own_metadata, uuid_arg, bind}
use langsmith_deployment_go.Auth.{Filters, apply_to_query}
use langsmith_deployment_go.Runs.Create.{uuid_of}
use langsmith_deployment_go.Runs.Insert.{optional_json}
use langsmith_deployment_go.Runs.Creating.{OnOk, OnOk-then, value_of}
use langsmith_deployment_go.Crons.Rows.{
  Calendar, Cron, compute_next_run_from, has_cron_id, selects_cron, update_crons,
}
use langsmith_deployment_go.Crons.Patch.{
  PatchCronInput, Codec, patches_schedule, or_stored, patched_next_run, patched_cron,
  locked_payload, patch_cron,
}
use langsmith_deployment_go.Crons.Firing.{next_of}

module _ {V : Type 0} where
  -- The primary key of `cron`.
  pub record UniqueCrons (cs : List (Cron V)) : Type 0 where
    pub same : (x y : Cron V) → IsIn x cs → IsIn y cs → x.cron_id ≡ y.cron_id → x ≡ y

  find-member :
      (p : Cron V → Bool) (cs : List (Cron V)) (c : Cron V)
      → from_option not_found (find? p cs) ≡ ok c
      → IsIn c cs × (p c ≡ true)
  find-member p [] c h = absurd (ground (arith, h))
  find-member p (x ∷ xs) c h = elim (Bool-cases (p x)) [
    | inl b ↦ let e : x ≡ c = ground (arith, (rw b at h)) in (inl (sym e), ap p (sym e) ∙ b)
    | inr b ↦ let (m, q) = find-member p xs c (rw b at h) in (inr m, q)
  ]

not_both : (b : Bool) → b ≡ true → b ≡ false → ⊥
not_both b f g = false≢true (sym g ∙ f)

module _ {V : Type 0} where
  update_crons-IsIn :
      (p : Cron V → Bool) (f : Cron V → Cron V) (x : Cron V) (cs : List (Cron V))
      → IsIn x cs
      → IsIn (if p x then f x else x) (update_crons p f cs)
  update_crons-IsIn p f x [] m = absurd m
  update_crons-IsIn p f x (c ∷ cs) (inl e) = inl (rw e refl)
  update_crons-IsIn p f x (c ∷ cs) (inr k) = inr (update_crons-IsIn p f x cs k)

  -- A row after an UPDATE is an updated row or one that it has passed over.
  IsIn-update_crons :
      (p : Cron V → Bool) (f : Cron V → Cron V) (y : Cron V) (cs : List (Cron V))
      → IsIn y (update_crons p f cs)
      → (x : Cron V) × IsIn x cs × (((p x ≡ true) × (y ≡ f x)) ⊎ ((p x ≡ false) × (y ≡ x)))
  IsIn-update_crons p f y [] m = absurd m
  IsIn-update_crons p f y (c ∷ cs) (inl e) = elim (Bool-cases (p c)) [
    | inl b ↦ (c, inl refl, inl (b, rw b at e))
    | inr b ↦ (c, inl refl, inr (b, rw b at e))
  ]
  IsIn-update_crons p f y (c ∷ cs) (inr m) =
      let (x, k, h) = IsIn-update_crons p f y cs m in (x, inr k, h)

  others_stay :
      (p : Cron V → Bool) (f : Cron V → Cron V) (y : Cron V) (cs : List (Cron V))
      → IsIn y cs
      → (p y ≡ true → ⊥)
      → IsIn y (update_crons p f cs)
  others_stay p f y cs m out = elim (Bool-cases (p y)) [
    | inl b ↦ absurd (out b)
    | inr b ↦ rw b at (update_crons-IsIn p f y cs m)
  ]

  others_were :
      (u : String) (p : Cron V → Bool) (f : Cron V → Cron V) (y : Cron V) (cs : List (Cron V))
      → IsIn y (update_crons p f cs)
      → ((x : Cron V) → (f x).cron_id ≡ x.cron_id)
      → ((x : Cron V) → p x ≡ true → x.cron_id ≡ u)
      → y.cron_id ≢ u
      → IsIn y cs
  others_were u p f y cs m keeps named other =
      let (x, k, h) = IsIn-update_crons p f y cs m in
      elim h [
        | inl (b, e) ↦ absurd (other (ap (λ c. c.cron_id) e ∙ keeps x ∙ named x b))
        | inr (b, e) ↦ subst (λ c. IsIn c cs) (sym e) k
      ]

  only_changed :
      (u : String) (p : Cron V → Bool) (f : Cron V → Cron V) (cs : List (Cron V)) (c : Cron V)
      → IsIn c cs
      → c.cron_id ≡ u
      → p c ≡ true
      → UniqueCrons cs
      → ((x : Cron V) → (f x).cron_id ≡ x.cron_id)
      → ((x : Cron V) → p x ≡ true → x.cron_id ≡ u)
      → (y : Cron V) → IsIn y (update_crons p f cs)
      → y.cron_id ≡ u
      → y ≡ f c
  only_changed u p f cs c m at_u hit unique keeps named y k same =
      let (x, n, h) = IsIn-update_crons p f y cs k in
      elim h [
        | inl (b, e) ↦ e ∙ ap f (unique.same x c n m (named x b ∙ sym at_u))
        | inr (b, e) ↦
            let twin = unique.same x c n m (sym (ap (λ c. c.cron_id) e) ∙ same ∙ sym at_u) in
            absurd (not_both (p x) (ap p twin ∙ hit) b)
      ]

given : (s stored : String) → str_eq s "" ≡ false → s ≡ or_stored s stored
given s stored h = sym (rw h refl)

neither_left : (a b : Bool) → (a || b) ≡ false → a ≡ false
neither_left a b h = ground arith

neither_right : (a b : Bool) → (a || b) ≡ false → b ≡ false
neither_right a b h = ground arith

module _ {V : Type 0} (pg : Postgres V) where
  -- What the first part of Patch computes: nothing, or the next date of the schedule and the zone
  -- that the row of this id will have.
  abbrev NextFor : Calendar → ℕ → List (Cron V) → String → PatchCronInput → Option ℕ → Type 0
  NextFor cal wall cs u i next =
      (patches_schedule i ≡ false → next ≡ none)
      × (patches_schedule i ≡ true
          → (c : Cron V) → IsIn c cs
          → c.cron_id ≡ u
          → next
            ≡ some (
                cal.next_time (or_stored i.schedule c.schedule) (or_stored i.timezone c.timezone)
                  wall))

  patched_next_run-NextFor :
      (cal : Calendar) (wall : ℕ) (cs : List (Cron V)) (id u : String) (i : PatchCronInput)
      → UniqueCrons cs
      → uuid_of pg id ≡ ok u
      → OnOk (NextFor cal wall cs u i) (patched_next_run pg cal wall cs id i)
  unfolding patched_next_run
  patched_next_run-NextFor cal wall cs id u i unique known =
      let P = NextFor cal wall cs u i in
      elim (Bool-cases (patches_schedule i)) [
        | inr b ↦ rw b (λ h. refl, λ h. absurd (not_both _ h b))
        | inl b ↦ elim (Bool-cases (str_eq i.schedule "" || str_eq i.timezone "")) [
          | inl half ↦
              rw (b, half, known)
                (OnOk-then P (from_option not_found (find? (has_cron_id u) cs)) _ (λ s es.
                  OnOk-then P
                    (compute_next_run_from cal (or_stored i.schedule s.schedule)
                      (or_stored i.timezone s.timezone) wall)
                    _
                    (λ n en. (
                      λ h. absurd (not_both _ b h),
                      λ _ c m e.
                          let (ms, hs) = find-member (has_cron_id u) cs s es in
                          let same = unique.same s c ms m ((eq_iff s.cron_id u).0 hs ∙ sym e) in
                          ap some (next_of cal _ _ wall n en)
                          ∙ ap
                              (λ c. some (
                                cal.next_time (or_stored i.schedule c.schedule)
                                  (or_stored i.timezone c.timezone) wall))
                              same,
                    ))))
          | inr full ↦
              rw (b, full)
                (OnOk-then P (compute_next_run_from cal i.schedule i.timezone wall) _ (λ n en. (
                  λ h. absurd (not_both _ b h),
                  λ _ c m e.
                      ap some (next_of cal i.schedule i.timezone wall n en)
                      ∙ ap₂ (λ s z. some (cal.next_time s z wall))
                          (given i.schedule c.schedule (neither_left _ _ full))
                          (given i.timezone c.timezone (neither_right _ _ full)),
                )))
        ]
      ]

  -- What an answered Patch has made of the table: the answered row stands in it under the id, with
  -- the next date of its schedule and zone or with the old one, and the other rows are as before.
  abbrev pub Patched :
      Calendar → ℕ → List (Cron V) → String → PatchCronInput → Cron V × List (Cron V) → Type 0
  Patched cal wall cs u i x =
      ((c : Cron V) × IsIn c cs
        × (c.cron_id ≡ u)
        × (x.0.schedule ≡ or_stored i.schedule c.schedule)
        × (x.0.timezone ≡ or_stored i.timezone c.timezone)
        × (patches_schedule i ≡ true
            → x.0.next_run_date ≡ some (cal.next_time x.0.schedule x.0.timezone wall))
        × (patches_schedule i ≡ false → x.0.next_run_date ≡ c.next_run_date))
      × (x.0.cron_id ≡ u)
      × IsIn x.0 x.1
      × ((y : Cron V) → IsIn y x.1 → y.cron_id ≡ u → y ≡ x.0)
      × ((y : Cron V) → y.cron_id ≢ u → IsIn y cs → IsIn y x.1)
      × ((y : Cron V) → y.cron_id ≢ u → IsIn y x.1 → IsIn y cs)

  patch_cron-Patched :
      (cal : Calendar) (codec : Codec V) (wall now : ℕ) (cs : List (Cron V)) (id u : String)
      (i : PatchCronInput) (fs : Filters)
      → UniqueCrons cs
      → pg.uuid id ≡ some u
      → OnOk (Patched cal wall cs u i) (patch_cron pg cal codec wall now cs id i fs)
  unfolding patch_cron
  patch_cron-Patched cal codec wall now cs id u i fs unique known =
      let P = Patched cal wall cs u i in
      OnOk-then P (apply_to_query fs own_metadata 2) _ (λ e _.
        OnOk-then P (patched_next_run pg cal wall cs id i) _ (λ next en. rw known (
          OnOk-then P (from_option database (bind pg (uuid_arg id ∷ e.1))) _ (λ ps _.
            OnOk-then P (optional_json pg i.payload) _ (λ p _.
              OnOk-then P (locked_payload pg codec cs (selects_cron pg u e.0 ps) p) _ (λ payload _.
                OnOk-then P (optional_json pg i.metadata) _ (λ metadata _.
                  OnOk-then P (from_option not_found (find? (selects_cron pg u e.0 ps) cs)) _
                    (λ c ec.
                      let (m, hit) = find-member (selects_cron pg u e.0 ps) cs c ec in
                      let same = (eq_iff c.cron_id u).0 (&&-left (str_eq c.cron_id u) _ hit) in
                      let (unset, set) =
                        value_of (NextFor cal wall cs u i)
                          (patched_next_run-NextFor cal wall cs id u i unique (rw known refl)) en in
                      let change = patched_cron pg now next payload metadata i in
                      let hit' = selects_cron pg u e.0 ps in
                      (
                        (
                          c,
                          m,
                          same,
                          refl,
                          refl,
                          λ h. rw (set h c m same) refl,
                          λ h. rw (unset h) refl,
                        ),
                        same,
                        rw hit at (update_crons-IsIn hit' change c cs m),
                        only_changed u hit' change cs c m same hit unique (λ y. refl)
                            (λ y k. (eq_iff y.cron_id u).0 (&&-left (str_eq y.cron_id u) _ k)),
                        λ y other k. others_stay hit' change y cs k (λ h.
                            other ((eq_iff y.cron_id u).0 (&&-left (str_eq y.cron_id u) _ h))),
                        λ y other k.
                            others_were u hit' change y cs k (λ y. refl)
                              (λ y k. (eq_iff y.cron_id u).0 (&&-left (str_eq y.cron_id u) _ k))
                              other,
                      )))))))))

  -- An answered Patch stores the row that it answers under the id, in place of the row that was
  -- there, and leaves all other rows: the row has the sent schedule and zone, or the stored ones
  -- where they are not sent. If either is sent, the next date is that of the row's new schedule in
  -- the row's new zone, and otherwise it is as it was. The id is a uuid and the ids of the table are
  -- unique.
  pub patch_cron_next_run :
      (cal : Calendar) (codec : Codec V) (wall now : ℕ) (cs : List (Cron V)) (id u : String)
      (i : PatchCronInput) (fs : Filters) (c' : Cron V) (cs' : List (Cron V))
      → UniqueCrons cs
      → pg.uuid id ≡ some u
      → patch_cron pg cal codec wall now cs id i fs ≡ ok (c', cs')
      → Patched cal wall cs u i (c', cs')
  patch_cron_next_run cal codec wall now cs id u i fs c' cs' unique known answered =
      value_of (Patched cal wall cs u i)
        (patch_cron-Patched cal codec wall now cs id u i fs unique known) answered
