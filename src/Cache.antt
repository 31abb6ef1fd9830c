-- ===== src/Cache.antt =====
-- internal/cache, with ValidateKey and UserIDFromContext of internal/auth: values in Redis under a
-- key that carries the caller.
pub mod Tenants
use Prim.Native.Char.{Char, code}
use langsmith_deployment_go.Prelude.{
  ℕ, ◌+◌, String, Bool, true, not, ◌&&◌, ◌||◌, Option, none, some, List, [], ◌∷◌, str_eq, leb, ltb,
  ◌==◌, if◌then◌else◌,
}
use langsmith_deployment_go.Redis.{cache_key}

-- `[A-Za-z0-9_.\-]`
unfoldable pub is_key_char : Char → Bool
is_key_char c =
    let n = code c in
    (leb b'A' n && leb n b'Z')
    || ((leb b'a' n && leb n b'z')
        || ((leb b'0' n && leb n b'9') || (n == b'_' || (n == b'.' || n == b'-'))))

unfoldable pub are_key_chars : String → Bool
are_key_chars String.[] = true
are_key_chars (String.◌∷◌ c s) = is_key_char c && are_key_chars s

-- ValidateKey: `^[A-Za-z0-9_.\-]+$`
unfoldable pub validate_key : String → Bool
validate_key s = not (str_eq s "") && are_key_chars s

-- UserIDFromContext: the first value of the header, if there is one and it is not empty.
unfoldable pub user_id_from_context : Option (List String) → Option String
user_id_from_context none = none
user_id_from_context (some []) = none
user_id_from_context (some (u ∷ us)) = if str_eq u "" then none else some u

-- A value with the time at which it expires; `none` stays.
pub record Entry : Type 0 where
  pub value : String
  pub expires_at : Option ℕ

-- The part of Redis that the cache uses.
abbrev pub Store : Type 0
Store = String → Option Entry

pub data CacheReply : Type 0 where
  stored : CacheReply
  found : String → CacheReply
  missing : CacheReply
  invalid_argument unauthenticated : CacheReply

abbrev pub put_entry : String → Entry → Store → Store
put_entry k e s j = if str_eq j k then some e else s j

abbrev pub is_live : ℕ → Entry → Bool
is_live now e = elim e.expires_at [ none ↦ true | some t ↦ ltb now t ]

abbrev pub read_entry : ℕ → Option Entry → CacheReply
read_entry now none = missing
read_entry now (some e) = if is_live now e then found e.value else missing

-- The checks that Set and Get share: the request's key, the caller, the caller's id as a key.
abbrev pub with_key :
    {A : Type 0} → String → Option (List String) → (CacheReply → A) → (String → A) → A
with_key key header refuse go =
    if validate_key key
    then elim (user_id_from_context header) [
      | none ↦ refuse unauthenticated
      | some user ↦ if validate_key user then go (cache_key user key) else refuse invalid_argument
    ]
    else refuse invalid_argument

-- Service.Set; a TTL of 0 is none.
unfoldable pub set_value :
    ℕ → Option (List String) → String → String → ℕ → Store → CacheReply × Store
set_value now header key value ttl s =
    with_key {A = CacheReply × Store} key header (λ r. (r, s))
      (λ k. (
        stored,
        put_entry k
            (record { value = value; expires_at = if ttl == 0 then none else some (now + ttl) }) s,
      ))

-- Service.Get
unfoldable pub get_value : ℕ → Option (List String) → String → Store → CacheReply
get_value now header key s = with_key key header (λ r. r) (λ k. read_entry now (s k))
