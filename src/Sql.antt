-- ===== src/Sql.antt =====
-- The part of SQL that the stores build at run time: the conditions that Go code joins into a
-- WHERE clause, their numbered parameters, and what PostgreSQL makes of them.
use langsmith_deployment_go.Prelude.{
  ℕ, zero, suc, String, Bool, true, false, not, ◌&&◌, Option, none, some, List, [], ◌∷◌, get_elem?,
  elem, str_eq,
}

-- What PostgreSQL gives and this repository does not contain. A value of type `V` is a `jsonb`.
pub record Postgres (V : Type 0) : Type 0 where
  -- `$n::uuid`: the canonical text of an id; `none` is "invalid input syntax for type uuid"
  pub uuid : String → Option String
  -- `$n::jsonb`
  pub parse : String → Option V
  -- `'{}'::jsonb`
  pub empty : V
  -- `jsonb_build_object('k1', v1, …)`
  pub build : List (String × V) → V
  -- `to_jsonb(text)`, and the `null` of `jsonb`
  pub from_text : String → V
  pub null_value : V
  -- `a || b`
  pub merge : V → V → V
  -- `a -> 'k'` and `a ->> 'k'`; `none` is NULL
  pub field : V → String → Option V
  pub text_field : V → String → Option String
  -- `jsonb_set(a, '{k}', v)`
  pub set_field : V → String → V → V
  -- `a @> b`
  pub contains : V → V → Bool

-- The columns that dynamic conditions name. `own_metadata`, `own_status` and `own_values` are the
-- unqualified `metadata`, `status` and `"values"` of the table that the query reads.
pub data Column : Type 0 where
  run_id run_thread_id run_status run_metadata thread_id thread_metadata own_metadata : Column
  own_status own_values : Column

pub data Datum (V : Type 0) : Type 0 where
  null : Datum V
  text : String → Datum V
  json : V → Datum V

-- An argument of a query, under the cast that its placeholder has.
pub data Arg : Type 0 where
  uuid_arg text_arg json_arg : String → Arg
  number_arg : ℕ → Arg
  uuids_arg texts_arg : List String → Arg

-- A parameter that its cast has accepted.
pub data Param (V : Type 0) : Type 0 where
  text_param : String → Param V
  number_param : ℕ → Param V
  json_param : V → Param V
  texts_param : List String → Param V

mutual
  pub data Cond : Type 0 where
    -- `col = $n::uuid`, and `col = $n` of a text
    uuid_is : Column → ℕ → Cond
    -- `col = ANY($n::text[])`, `col = ANY($n::uuid[])`
    is_any : Column → ℕ → Cond
    -- `col @> $n::jsonb`
    has_json : Column → ℕ → Cond
    -- `(col @> jsonb_build_object($k::text, $v::jsonb))`
    has_entry : Column → ℕ → ℕ → Cond
    -- `((col -> $k::text) @> $v::jsonb)`
    entry_has : Column → ℕ → ℕ → Cond
    -- `EXISTS (SELECT 1 FROM thread WHERE thread.thread_id = run.thread_id AND c)`
    thread_exists : Cond → Cond
    -- `(c1 AND c2 …)`, `(c1 OR c2 …)`
    all_of any_of : Conds → Cond

  pub data Conds : Type 0 where
    end : Conds
    cond : Cond → Conds → Conds

abbrev pub append_conds : Conds → Conds → Conds
append_conds end ds = ds
append_conds (cond c cs) ds = cond c (append_conds cs ds)

-- The cond list of an optional fragment, which Go tests by `authSQL != ""`.
abbrev pub optional : Option Cond → Conds
optional none = end
optional (some c) = cond c end

-- Three-valued logic: `none` is NULL.
abbrev pub and_null : Option Bool → Option Bool → Option Bool
and_null (some false) b = some false
and_null (some true) b = b
and_null none (some false) = some false
and_null none _ = none

abbrev pub or_null : Option Bool → Option Bool → Option Bool
or_null (some true) b = some true
or_null (some false) b = b
or_null none (some true) = some true
or_null none _ = none

-- A row passes a WHERE clause if the condition is true, neither false nor NULL.
abbrev pub passes : Option Bool → Bool
passes (some b) = b
passes none = false

module _ {V : Type 0} where
  -- Placeholders count from 1.
  abbrev pub param : ℕ → List (Param V) → Option (Param V)
  param zero ps = none
  param (suc i) ps = get_elem? ps i

  abbrev pub is_text : Datum V → Option (Param V) → Option Bool
  is_text (text t) (some (text_param u)) = some (str_eq t u)
  is_text _ _ = none

  abbrev pub is_one : Datum V → Option (Param V) → Option Bool
  is_one (text t) (some (texts_param us)) = some (elem t us)
  is_one _ _ = none

  abbrev pub is_null : Datum V → Bool
  is_null null = true
  is_null _ = false

module _ {V : Type 0} (pg : Postgres V) where
  abbrev pub cast_uuids : List String → Option (List String)
  cast_uuids [] = some []
  cast_uuids (s ∷ ss) = elim (pg.uuid s) [
    | none ↦ none
    | some u ↦ elim (cast_uuids ss) [ none ↦ none | some us ↦ some (u ∷ us) ]
  ]

  abbrev pub cast : Arg → Option (Param V)
  cast (uuid_arg s) = elim (pg.uuid s) [ none ↦ none | some u ↦ some (text_param u) ]
  cast (text_arg s) = some (text_param s)
  cast (number_arg n) = some (number_param n)
  cast (json_arg s) = elim (pg.parse s) [ none ↦ none | some v ↦ some (json_param v) ]
  cast (uuids_arg ss) = elim (cast_uuids ss) [ none ↦ none | some us ↦ some (texts_param us) ]
  cast (texts_arg ss) = some (texts_param ss)

  -- PostgreSQL casts every argument before it reads a row: one refusal fails the query.
  abbrev pub bind : List Arg → Option (List (Param V))
  bind [] = some []
  bind (a ∷ as') = elim (cast a) [
    | none ↦ none
    | some p ↦ elim (bind as') [ none ↦ none | some ps ↦ some (p ∷ ps) ]
  ]

  abbrev pub holds_json : Datum V → Option (Param V) → Option Bool
  holds_json (json v) (some (json_param w)) = some (pg.contains v w)
  holds_json _ _ = none

  abbrev pub holds_entry : Datum V → Option (Param V) → Option (Param V) → Option Bool
  holds_entry (json v) (some (text_param k)) (some (json_param w)) =
      some (pg.contains v (pg.build ((k, w) ∷ [])))
  holds_entry _ _ _ = none

  abbrev pub entry_holds : Datum V → Option (Param V) → Option (Param V) → Option Bool
  entry_holds (json v) (some (text_param k)) (some (json_param w)) = elim (pg.field v k) [
    | none ↦ none
    | some x ↦ some (pg.contains x w)
  ]
  entry_holds _ _ _ = none

  -- The value of a condition at a row, given by its columns, under the bound parameters.
  unfoldable mutual
    pub eval : Cond → (Column → Datum V) → List (Param V) → Option Bool
    eval (uuid_is c n) row ps = is_text (row c) (param n ps)
    eval (is_any c n) row ps = is_one (row c) (param n ps)
    eval (has_json c n) row ps = holds_json (row c) (param n ps)
    eval (has_entry c k v) row ps = holds_entry (row c) (param k ps) (param v ps)
    eval (entry_has c k v) row ps = entry_holds (row c) (param k ps) (param v ps)
    eval (thread_exists c) row ps = some (not (is_null (row thread_id)) && passes (eval c row ps))
    eval (all_of cs) row ps = eval_all cs row ps
    eval (any_of cs) row ps = eval_any cs row ps

    pub eval_all : Conds → (Column → Datum V) → List (Param V) → Option Bool
    eval_all end row ps = some true
    eval_all (cond c cs) row ps = and_null (eval c row ps) (eval_all cs row ps)

    pub eval_any : Conds → (Column → Datum V) → List (Param V) → Option Bool
    eval_any end row ps = some false
    eval_any (cond c cs) row ps = or_null (eval c row ps) (eval_any cs row ps)
