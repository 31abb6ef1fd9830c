-- ===== src/Assistants/Places.antt =====
-- findArgIdx of internal/assistants/store.go finds a place that holds the searched value.
use langsmith_deployment_go.Prelude.{
  ℕ, suc, String, ◌≡◌, refl, sym, ap, ◌∙◌, Bool, true, false, Option, none, some, List, [], ◌∷◌,
  ◌++◌, arith, eq_iff, eq_refl, any, inl, inr, Bool-cases, Option-cases, IsIn, any-IsIn, left-IsIn,
  right-IsIn, some-injective, ok,
}
use langsmith_deployment_go.Sql.{
  Postgres, Arg, uuid_arg, text_arg, json_arg, number_arg, uuids_arg, texts_arg,
}
use langsmith_deployment_go.Runs.Create.{null_if_empty}
use langsmith_deployment_go.Runs.Insert.{optional_json}
use langsmith_deployment_go.Crons.Rows.{arg_of}
use langsmith_deployment_go.Assistants.Patch.{
  PatchAssistantInput, is_same_value, last_place, find_arg_idx, arg_at, patch_args, text_of_arg,
  json_of_arg, set_text, set_json,
}

-- The place that the loop returns is counted from 1, and its argument passes the test.
last_place-holds :
    (p : Arg → Bool) (args : List Arg) (k : ℕ)
    → last_place p args ≡ some k
    → (j : ℕ) × (a : Arg) × (k ≡ suc j) × (arg_at (suc j) args ≡ some a) × (p a ≡ true)
last_place-holds p [] k h = absurd (ground (arith, h))
last_place-holds p (x ∷ xs) k h = elim (Option-cases (last_place p xs)) [
  | inr (l, e) ↦
      let (j, a, same, at_j, pa) = last_place-holds p xs l e in
      (suc j, a, sym (some-injective (suc l) k (rw e at h)) ∙ ap suc same, at_j, pa)
  | inl e ↦ elim (Bool-cases (p x)) [
    | inl b ↦ (0, x, sym (some-injective 1 k (rw (e, b) at h)), refl, b)
    | inr b ↦ absurd (ground (arith, (rw (e, b) at h)))
  ]
]

last_place-none : (p : Arg → Bool) (args : List Arg) → last_place p args ≡ none → any p args ≡ false
last_place-none p [] h = refl
last_place-none p (x ∷ xs) h = elim (Option-cases (last_place p xs)) [
  | inr (l, e) ↦ absurd (ground (arith, (rw e at h)))
  | inl e ↦ elim (Bool-cases (p x)) [
    | inl b ↦ absurd (ground (arith, (rw (e, b) at h)))
    | inr b ↦ rw b (last_place-none p xs e)
  ]
]

-- The placeholder that findArgIdx gives for a value that is among the arguments holds an argument of
-- the same Go type and the same content; its fallback is not reached.
pub find_arg_idx-holds :
    (args : List Arg) (val : Arg)
    → any (is_same_value val) args ≡ true
    → (a : Arg) × (arg_at (find_arg_idx args val) args ≡ some a) × (is_same_value val a ≡ true)
unfolding find_arg_idx
find_arg_idx-holds args val h = elim (Option-cases (last_place (is_same_value val) args)) [
  | inl e ↦ absurd (ground (arith, h, last_place-none (is_same_value val) args e))
  | inr (k, e) ↦
      let (j, a, same, at_j, pa) = last_place-holds (is_same_value val) args k e in
      (a, rw e (rw same at_j), pa)
]

text_of_same :
    (s : String) (a : Arg) → is_same_value (text_arg s) a ≡ true → text_of_arg (some a) ≡ ok s
text_of_same s (text_arg t) h = ap ok ((eq_iff t s).0 h)
text_of_same s (uuid_arg t) h = ap ok ((eq_iff t s).0 h)
text_of_same s (json_arg t) h = absurd (ground (arith, h))
text_of_same s (number_arg n) h = absurd (ground (arith, h))
text_of_same s (uuids_arg t) h = absurd (ground (arith, h))
text_of_same s (texts_arg t) h = absurd (ground (arith, h))

json_of_same :
    (s : String) (a : Arg) → is_same_value (json_arg s) a ≡ true → json_of_arg (some a) ≡ ok s
json_of_same s (json_arg t) h = ap ok ((eq_iff t s).0 h)
json_of_same s (text_arg t) h = absurd (ground (arith, h))
json_of_same s (uuid_arg t) h = absurd (ground (arith, h))
json_of_same s (number_arg n) h = absurd (ground (arith, h))
json_of_same s (uuids_arg t) h = absurd (ground (arith, h))
json_of_same s (texts_arg t) h = absurd (ground (arith, h))

-- A column of text is set to the value that was sent.
pub set_text-sent :
    (args : List Arg) (o : Option String)
    → ((s : String) → o ≡ some s → IsIn (text_arg s) args)
    → set_text args o ≡ ok o
set_text-sent args none h = refl
set_text-sent args (some s) h =
    let (a, at_place, same) =
      find_arg_idx-holds args (text_arg s)
        (any-IsIn (is_same_value (text_arg s)) (text_arg s) args (h s refl) (eq_refl s)) in
    rw (at_place, text_of_same s a same) refl

-- A column of JSON is set to the document that the version row has.
pub set_json-sent :
    {V : Type 0} (pg : Postgres V) (args : List Arg) (o : Option String)
    → ((s : String) → o ≡ some s → IsIn (json_arg s) args)
    → set_json pg args o ≡ optional_json pg o
set_json-sent pg args none h = refl
set_json-sent pg args (some s) h =
    let (a, at_place, same) =
      find_arg_idx-holds args (json_arg s)
        (any-IsIn (is_same_value (json_arg s)) (json_arg s) args (h s refl) (eq_refl s)) in
    rw (at_place, json_of_same s a same) refl

arg_of-IsIn :
    (f : String → Arg) (o : Option String) (s : String) → o ≡ some s → IsIn (f s) (arg_of f o)
arg_of-IsIn f o s e = rw e (inl refl)

module _ (i : PatchAssistantInput) (s : String) where
  pub graph_id-IsIn : null_if_empty i.graph_id ≡ some s → IsIn (text_arg s) (patch_args i)
  graph_id-IsIn e =
      left-IsIn (text_arg s) (arg_of text_arg (null_if_empty i.graph_id)) _
        (arg_of-IsIn text_arg (null_if_empty i.graph_id) s e)

  pub config-IsIn : i.config ≡ some s → IsIn (json_arg s) (patch_args i)
  config-IsIn e =
      right-IsIn (json_arg s) (arg_of text_arg (null_if_empty i.graph_id)) _
        (left-IsIn (json_arg s) (arg_of json_arg i.config) _ (arg_of-IsIn json_arg i.config s e))

  pub context-IsIn : i.context_json ≡ some s → IsIn (json_arg s) (patch_args i)
  context-IsIn e = right-IsIn (json_arg s) (arg_of text_arg (null_if_empty i.graph_id)) _ (
      right-IsIn (json_arg s) (arg_of json_arg i.config) _ (
        left-IsIn (json_arg s) (arg_of json_arg i.context_json) _
          (arg_of-IsIn json_arg i.context_json s e)))

  beyond_context :
      IsIn (text_arg s) (arg_of text_arg i.description ++ arg_of text_arg i.name)
      → IsIn (text_arg s) (patch_args i)
  beyond_context m = right-IsIn (text_arg s) (arg_of text_arg (null_if_empty i.graph_id)) _ (
      right-IsIn (text_arg s) (arg_of json_arg i.config) _ (
        right-IsIn (text_arg s) (arg_of json_arg i.context_json) _
          (right-IsIn (text_arg s) (arg_of json_arg i.metadata) _ m)))

  pub description-IsIn : i.description ≡ some s → IsIn (text_arg s) (patch_args i)
  description-IsIn e = beyond_context (
      left-IsIn (text_arg s) (arg_of text_arg i.description) _
        (arg_of-IsIn text_arg i.description s e))

  pub name-IsIn : i.name ≡ some s → IsIn (text_arg s) (patch_args i)
  name-IsIn e =
      beyond_context (
        right-IsIn (text_arg s) (arg_of text_arg i.description) _ (arg_of-IsIn text_arg i.name s e))
