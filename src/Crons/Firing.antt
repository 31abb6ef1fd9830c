-- ===== src/Crons/Firing.antt =====
-- Next of internal/crons/store.go: which crons fire, and that they do not fire twice.
use mathlib.Core.Bool.{false≢true}
use langsmith_deployment_go.Prelude.{
  ℕ, ◌<◌, String, ◌≡◌, ◌≢◌, refl, sym, ap, ◌∙◌, subst, Bool, true, false, not, ◌&&◌, ◌||◌, none,
  some, List, [], ◌∷◌, arith, map, keep, elem, str_eq, eq_iff, eq_refl, leb, leb→le, if◌then◌else◌,
  inl, inr, ◌⊎◌, Bool-cases, &&-left, &&-right, IsIn, IsIn-keep, keep-IsIn, IsIn-sort_by,
  sort_by-IsIn, elem-map, Result, ok, err, is_ok, Error,
}
use langsmith_deployment_go.Runs.Creating.{Result-cases}
use langsmith_deployment_go.Crons.Rows.{
  Calendar, Cron, compute_next_run_from, has_cron_id, set_next_run_date,
}
use langsmith_deployment_go.Crons.Next.{
  has_come, is_cron_due, fires_first, due_crons, claim_each, next_crons,
}

pub next_of :
    (cal : Calendar) (s z : String) (base n : ℕ)
    → compute_next_run_from cal s z base ≡ ok n
    → n ≡ cal.next_time s z base
unfolding compute_next_run_from
next_of cal s z base n h = elim (Bool-cases (str_eq z "" || cal.has_location z)) [
  | inl a ↦ elim (Bool-cases (cal.parses s)) [
    | inl b ↦ ground (arith, (rw (a, b) at h))
    | inr b ↦ absurd (ground (arith, (rw (a, b) at h)))
  ]
  | inr a ↦ absurd (ground (arith, (rw a at h)))
]

module _ {V : Type 0} where
  abbrev pub cron_ids : List (Cron V) → List String
  cron_ids cs = map (λ c. c.cron_id) cs

  -- The schedule parses in a zone that is known.
  abbrev pub is_ok_at : Calendar → ℕ → Cron V → Bool
  is_ok_at cal now c = is_ok (compute_next_run_from cal c.schedule c.timezone now)

  claim_each-nil :
      (cal : Calendar) (now : ℕ) (cs : List (Cron V)) → claim_each cal now [] cs ≡ ([], cs)
  unfolding claim_each
  claim_each-nil cal now cs = refl

  -- One turn of the loop, on both outcomes of the schedule.
  claim_each-err :
      (cal : Calendar) (now : ℕ) (c : Cron V) (due cs : List (Cron V)) {e : Error}
      → compute_next_run_from cal c.schedule c.timezone now ≡ err e
      → claim_each cal now (c ∷ due) cs ≡ claim_each cal now due cs
  unfolding claim_each
  claim_each-err cal now c due cs h =
      ap
        (λ (r : Result ℕ). elim r as (λ x. List (Cron V) × List (Cron V)) [
          | err e ↦ claim_each cal now due cs
          | ok next ↦
              let rest = claim_each cal now due (set_next_run_date c.cron_id next cs) in
              (c ∷ rest.0, rest.1)
        ])
        h

  claim_each-ok :
      (cal : Calendar) (now : ℕ) (c : Cron V) (due cs : List (Cron V)) {n : ℕ}
      → compute_next_run_from cal c.schedule c.timezone now ≡ ok n
      → claim_each cal now (c ∷ due) cs ≡ (
        c ∷ (claim_each cal now due (set_next_run_date c.cron_id n cs)).0,
        (claim_each cal now due (set_next_run_date c.cron_id n cs)).1,
      )
  unfolding claim_each
  claim_each-ok cal now c due cs h =
      ap
        (λ (r : Result ℕ). elim r as (λ x. List (Cron V) × List (Cron V)) [
          | err e ↦ claim_each cal now due cs
          | ok next ↦
              let rest = claim_each cal now due (set_next_run_date c.cron_id next cs) in
              (c ∷ rest.0, rest.1)
        ])
        h

  claimed_rows :
      (cal : Calendar) (now : ℕ) (due cs : List (Cron V))
      → (claim_each cal now due cs).0 ≡ keep (is_ok_at cal now) due
  claimed_rows cal now [] cs = ap (λ p. p.0) (claim_each-nil cal now cs)
  claimed_rows cal now (c ∷ due) cs =
      elim (Result-cases (compute_next_run_from cal c.schedule c.timezone now)) [
        | inl (e, h) ↦
            ap (λ p. p.0) (claim_each-err cal now c due cs h)
            ∙ claimed_rows cal now due cs
            ∙ sym (skipped _ (keep (is_ok_at cal now) due) (ap is_ok h))
        | inr (n, h) ↦
            ap (λ p. p.0) (claim_each-ok cal now c due cs h)
            ∙ ap (λ l. c ∷ l) (claimed_rows cal now due (set_next_run_date c.cron_id n cs))
            ∙ sym (taken _ (keep (is_ok_at cal now) due) (ap is_ok h))
      ]
    where
      skipped : (b : Bool) (l : List (Cron V)) → b ≡ false → (if b then c ∷ l else l) ≡ l
      skipped b l e = rw e refl

      taken : (b : Bool) (l : List (Cron V)) → b ≡ true → (if b then c ∷ l else l) ≡ c ∷ l
      taken b l e = rw e refl

  -- Next claims exactly the enabled crons whose date has come and which have not ended, that no
  -- other transaction holds and whose schedule parses.
  pub next_crons_exact :
      (cal : Calendar) (locked : Cron V → Bool) (now : ℕ) (cs : List (Cron V)) (c : Cron V)
      → (IsIn c (next_crons cal locked now cs).0
          → IsIn c cs
            × (is_cron_due now c ≡ true)
            × (locked c ≡ false)
            × (is_ok_at cal now c ≡ true))
        × (IsIn c cs
            → is_cron_due now c ≡ true
            → locked c ≡ false
            → is_ok_at cal now c ≡ true
            → IsIn c (next_crons cal locked now cs).0)
  unfolding next_crons due_crons
  next_crons_exact cal locked now cs c =
      let rows = keep (λ c. not (locked c) && is_cron_due now c) cs in
      let e = claimed_rows cal now (due_crons locked now cs) cs in
      (
        λ m.
            let (k, good) = IsIn-keep (is_ok_at cal now) c _ (subst (IsIn c) e m) in
            let (k', h) = IsIn-keep _ c cs (IsIn-sort_by fires_first c rows k) in
            (k', &&-right _ _ h, free _ (&&-left _ _ h), good),
        λ m due unlocked good. subst (IsIn c) (sym e) (
            keep-IsIn (is_ok_at cal now) c _
              (sort_by-IsIn fires_first c rows (keep-IsIn _ c cs m (rw (unlocked, due) refl)))
              good),
      )
    where
      free : (b : Bool) → not b ≡ true → b ≡ false
      free b h = ground (arith, h)

  -- A row after the claims: one whose id was not claimed is as it was, and one whose id was claimed
  -- has the next date of a claimed row of that id.
  abbrev Moved : Calendar → ℕ → List (Cron V) → List (Cron V) → Cron V → Type 0
  Moved cal now fired cs y =
      ((elem y.cron_id (cron_ids fired) ≡ false) × IsIn y cs)
      ⊎ ((c : Cron V) × IsIn c fired
          × (c.cron_id ≡ y.cron_id)
          × (y.next_run_date ≡ some (cal.next_time c.schedule c.timezone now)))

  IsIn-set_next_run_date :
      (u : String) (n : ℕ) (y : Cron V) (cs : List (Cron V))
      → IsIn y (set_next_run_date u n cs)
      → ((has_cron_id u y ≡ false) × IsIn y cs) ⊎ ((y.cron_id ≡ u) × (y.next_run_date ≡ some n))
  unfolding set_next_run_date
  IsIn-set_next_run_date u n y [] m = absurd m
  IsIn-set_next_run_date u n y (c ∷ cs) (inl e) = elim (Bool-cases (has_cron_id u c)) [
    | inl b ↦
        let e' = rw b at e in
        inr (ap (λ c. c.cron_id) e' ∙ (eq_iff c.cron_id u).0 b, ap (λ c. c.next_run_date) e')
    | inr b ↦ let e' = rw b at e in inl (ap (has_cron_id u) e' ∙ b, inl e')
  ]
  IsIn-set_next_run_date u n y (c ∷ cs) (inr m) = elim (IsIn-set_next_run_date u n y cs m) [
    | inl (a, k) ↦ inl (a, inr k)
    | inr h ↦ inr h
  ]

  Moved-more :
      (cal : Calendar) (now : ℕ) (c : Cron V) (n : ℕ) (fired cs : List (Cron V)) (y : Cron V)
      → n ≡ cal.next_time c.schedule c.timezone now
      → Moved cal now fired (set_next_run_date c.cron_id n cs) y
      → Moved cal now (c ∷ fired) cs y
  Moved-more cal now c n fired cs y e (inr (x, m, same, at)) = inr (x, inr m, same, at)
  Moved-more cal now c n fired cs y e (inl (out, m)) =
      elim (IsIn-set_next_run_date c.cron_id n y cs m) [
        | inl (b, k) ↦ inl (not_first b out, k)
        | inr (same, at) ↦ inr (c, inl refl, sym same, at ∙ ap some e)
      ]
    where
      not_first :
          str_eq y.cron_id c.cron_id ≡ false
          → elem y.cron_id (cron_ids fired) ≡ false
          → elem y.cron_id (cron_ids (c ∷ fired)) ≡ false
      not_first b out = rw b out

  claimed-Moved :
      (cal : Calendar) (now : ℕ) (due cs : List (Cron V)) (y : Cron V)
      → IsIn y (claim_each cal now due cs).1
      → Moved cal now (claim_each cal now due cs).0 cs y
  claimed-Moved cal now [] cs y m =
      rw (claim_each-nil cal now cs) (inl (refl, rw (claim_each-nil cal now cs) at m))
  claimed-Moved cal now (c ∷ due) cs y m =
      elim (Result-cases (compute_next_run_from cal c.schedule c.timezone now)) [
        | inl (e, h) ↦
            let step = claim_each-err cal now c due cs h in
            rw step (claimed-Moved cal now due cs y (rw step at m))
        | inr (n, h) ↦
            let step = claim_each-ok cal now c due cs h in
            rw step (
              Moved-more cal now c n _ cs y (next_of cal c.schedule c.timezone now n h)
                (claimed-Moved cal now due (set_next_run_date c.cron_id n cs) y (rw step at m)))
      ]

  -- A cron that Next has claimed is not claimed by a later Next, on whatever replica, before the
  -- dates that the schedules of the claimed crons give, as long as nothing else has changed it.
  pub next_crons_once :
      (cal : Calendar) (locked locked' : Cron V → Bool) (now now' : ℕ) (cs : List (Cron V))
      (x y : Cron V)
      → ((c : Cron V)
          → IsIn c (next_crons cal locked now cs).0
          → now' < cal.next_time c.schedule c.timezone now)
      → IsIn x (next_crons cal locked now cs).0
      → IsIn y (next_crons cal locked' now' (next_crons cal locked now cs).1).0
      → y.cron_id ≢ x.cron_id
  unfolding next_crons
  next_crons_once cal locked locked' now now' cs x y later mx my same =
      let (k, due, _, _) =
        (next_crons_exact cal locked' now' (next_crons cal locked now cs).1 y).0 my in
      elim (claimed-Moved cal now (due_crons locked now cs) cs y k) [
        | inl (out, _) ↦ false≢true (
            sym out
            ∙ subst (λ s. elem s (cron_ids (next_crons cal locked now cs).0) ≡ true) (sym same)
                (elem-map (λ c. c.cron_id) x _ mx))
        | inr (c, m, _, at) ↦
            not_come _ _ (later c m) (ap (has_come now') (sym at) ∙ &&-left _ _ (&&-right _ _ due))
      ]
    where
      not_come : (a b : ℕ) → a < b → leb b a ≡ true → ⊥
      not_come a b h l = omega (arith, h, leb→le b a l)

  -- No row is held by another transaction.
  abbrev pub unheld : Cron V → Bool
  unheld c = false

  due_alone :
      (now : ℕ) (c : Cron V) → is_cron_due now c ≡ true → due_crons unheld now (c ∷ []) ≡ c ∷ []
  unfolding due_crons
  due_alone now c due = rw due refl

  set_alone :
      (n : ℕ) (c : Cron V)
      → set_next_run_date c.cron_id n (c ∷ []) ≡ record c { next_run_date = some n } ∷ []
  unfolding set_next_run_date
  set_alone n c = rw (eq_refl c.cron_id) refl

  next_crons_alone :
      (cal : Calendar) (now : ℕ) (c : Cron V)
      → is_cron_due now c ≡ true
      → is_ok_at cal now c ≡ true
      → next_crons cal unheld now (c ∷ [])
        ≡ (c ∷ [], record c { next_run_date = some (cal.next_time c.schedule c.timezone now) } ∷ [])
  unfolding next_crons
  next_crons_alone cal now c due good =
      elim (Result-cases (compute_next_run_from cal c.schedule c.timezone now)) [
        | inl (e, h) ↦ absurd (false≢true (sym (ap is_ok h) ∙ good))
        | inr (n, h) ↦
            ap (λ d. claim_each cal now d (c ∷ [])) (due_alone now c due)
            ∙ claim_each-ok cal now c [] (c ∷ []) h
            ∙ ap (λ (p : List (Cron V) × List (Cron V)). (c ∷ p.0, p.1))
                (claim_each-nil cal now (set_next_run_date c.cron_id n (c ∷ [])))
            ∙ ap (λ (l : List (Cron V)). (c ∷ [], l))
                (set_alone n c
                  ∙ ap (λ k. record c { next_run_date = some k } ∷ [])
                      (next_of cal c.schedule c.timezone now n h))
      ]

  -- What Next answers at each of these times, one after the other.
  abbrev pub run_nexts : Calendar → List ℕ → List (Cron V) → List (List (Cron V))
  run_nexts cal [] cs = []
  run_nexts cal (now ∷ times) cs =
      (next_crons cal unheld now cs).0 ∷ run_nexts cal times (next_crons cal unheld now cs).1

  never_done_from :
      (cal : Calendar) (times : List ℕ) (c : Cron V)
      → ((t : ℕ) → is_cron_due t c ≡ true)
      → ((t : ℕ) → is_ok_at cal t c ≡ true)
      → ((t : ℕ) → cal.next_time c.schedule c.timezone t ≡ 0)
      → c.next_run_date ≡ some 0
      → run_nexts cal times (c ∷ []) ≡ map (λ t. c ∷ []) times
  never_done_from cal [] c due good zero_time date = refl
  never_done_from cal (t ∷ times) c due good zero_time date =
      let same =
        next_crons_alone cal t c (due t) (good t)
        ∙ ap (λ d. (c ∷ [], record c { next_run_date = d } ∷ []))
            (ap some (zero_time t) ∙ sym date) in
      ap (λ (p : List (Cron V) × List (Cron V)). p.0 ∷ run_nexts cal times p.1) same
      ∙ ap (λ l. (c ∷ []) ∷ l) (never_done_from cal times c due good zero_time date)

  -- A lone due cron without an end time whose schedule parses and never has a future time, so that
  -- Schedule.Next answers the zero time whenever it is asked, is claimed with the zero time as its
  -- date by every Next after the first, however many there are and whenever they run.
  pub next_crons_never_done :
      (cal : Calendar) (now : ℕ) (times : List ℕ) (c : Cron V)
      → is_cron_due now c ≡ true
      → c.end_time ≡ none
      → ((t : ℕ) → is_ok_at cal t c ≡ true)
      → ((t : ℕ) → cal.next_time c.schedule c.timezone t ≡ 0)
      → run_nexts cal (now ∷ times) (c ∷ [])
        ≡ (c ∷ []) ∷ map (λ t. record c { next_run_date = some 0 } ∷ []) times
  next_crons_never_done cal now times c due endless good zero_time =
      let again : Cron V = record c { next_run_date = some 0 } in
      ap (λ (p : List (Cron V) × List (Cron V)). p.0 ∷ run_nexts cal times p.1)
        (next_crons_alone cal now c due (good now))
      ∙ ap (λ k. (c ∷ []) ∷ run_nexts cal times (record c { next_run_date = some k } ∷ []))
          (zero_time now)
      ∙ ap (λ l. (c ∷ []) ∷ l)
          (never_done_from cal times again
            (λ t. rw (&&-left c.enabled _ due, endless) (ground arith)) good zero_time refl)
