-- ===== src/Crons/Next.antt =====
-- Next of internal/crons/store.go: one transaction that claims the due crons and moves them on.
use langsmith_deployment_go.Prelude.{
  ℕ, Bool, true, false, not, ◌&&◌, ◌||◌, Option, none, some, List, [], ◌∷◌, keep, ltb, leb, ◌==◌,
  ok, err, sort_by, str_lt,
}
use langsmith_deployment_go.Crons.Rows.{Calendar, Cron, compute_next_run_from, set_next_run_date}

abbrev pub has_come : ℕ → Option ℕ → Bool
has_come now none = false
has_come now (some at) = leb at now

abbrev pub has_not_ended : ℕ → Option ℕ → Bool
has_not_ended now none = true
has_not_ended now (some at) = leb now at

module _ {V : Type 0} where
  -- The WHERE clause.
  abbrev pub is_cron_due : ℕ → Cron V → Bool
  is_cron_due now c = c.enabled && (has_come now c.next_run_date && has_not_ended now c.end_time)

  abbrev pub date_of : Cron V → ℕ
  date_of c = elim c.next_run_date [ none ↦ 0 | some at ↦ at ]

  -- `ORDER BY next_run_date ASC, cron_id ASC`
  abbrev pub fires_first : Cron V → Cron V → Bool
  fires_first a b =
      ltb (date_of a) (date_of b) || (date_of a == date_of b && not (str_lt b.cron_id a.cron_id))

  -- The rows of the SELECT: `locked` tells the rows that another transaction holds.
  unfoldable pub due_crons : (Cron V → Bool) → ℕ → List (Cron V) → List (Cron V)
  due_crons locked now cs = sort_by fires_first (keep (λ c. not (locked c) && is_cron_due now c) cs)

  -- The loop over them. A row whose schedule does not parse is dropped and left as it is. The
  -- answer has the rows as they were read.
  unfoldable pub claim_each :
      Calendar → ℕ → List (Cron V) → List (Cron V) → List (Cron V) × List (Cron V)
  claim_each cal now [] cs = ([], cs)
  claim_each cal now (c ∷ due) cs = elim (compute_next_run_from cal c.schedule c.timezone now) [
    | err e ↦ claim_each cal now due cs
    | ok next ↦
        let rest = claim_each cal now due (set_next_run_date c.cron_id next cs) in
        (c ∷ rest.0, rest.1)
  ]

  -- Next, at the time `now` of the database: the claimed crons and the table after the commit.
  unfoldable pub next_crons :
      Calendar → (Cron V → Bool) → ℕ → List (Cron V) → List (Cron V) × List (Cron V)
  next_crons cal locked now cs = claim_each cal now (due_crons locked now cs) cs
