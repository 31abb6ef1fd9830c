-- ===== src/Witnesses/CacheTenants.antt =====
-- Two callers of internal/cache.
use mathlib.Core.Bool.{false≢true}
use langsmith_deployment_go.Prelude.{
  String, ◌≡◌, ◌≢◌, refl, ap, Option, none, some, List, [], ◌∷◌, eq_iff,
}
use langsmith_deployment_go.Cache.{
  Store, stored, set_value, get_value, user_id_from_context, validate_key, are_key_chars,
  is_key_char,
}
use langsmith_deployment_go.Cache.Tenants.{get_value-set_value_other}

abbrev alice : Option (List String)
alice = some ("alice" ∷ [])

abbrev bob : Option (List String)
bob = some ("bob" ∷ [])

abbrev empty_store : Store
empty_store k = none

abbrev name_of : Option String → String
name_of none = ""
name_of (some s) = s

different : user_id_from_context alice ≢ user_id_from_context bob
unfolding user_id_from_context
different e = false≢true ((eq_iff "alice" "bob").1 (ap name_of e))

get_value-set_value_other_example :
    get_value 5 bob "k" (set_value 1 alice "k" "secret" 0 empty_store).1
    ≡ get_value 5 bob "k" empty_store
get_value-set_value_other_example =
    get_value-set_value_other 1 5 0 alice bob "k" "k" "secret" empty_store different

accepted : (set_value 1 alice "k" "secret" 10 empty_store).0 ≡ stored
unfolding set_value validate_key are_key_chars is_key_char user_id_from_context
accepted = refl
