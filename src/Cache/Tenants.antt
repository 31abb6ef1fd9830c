-- ===== src/Cache/Tenants.antt =====
-- Whose values internal/cache hands out: the key of a caller's value names the caller.
use mathlib.Core.Bool.{false≢true}
use Prim.Native.Char.{Char}
use Prim.Native.String.{[], ◌∷◌, ◌++◌}
use text.Mathlib.TextLemmas.{
  append_cancel_left, nil-append, cons-append, head-eq_of_cons-eq, tail-eq_of_cons-eq,
}
use langsmith_deployment_go.Prelude.{
  ℕ, ◌+◌, String, ◌≡◌, ◌≢◌, refl, sym, ap, ap₂, ◌∙◌, true, ◌||◌, Option, none, some, List, arith,
  str_eq, eq_iff, eq_refl, ltb, ◌==◌, if◌then◌else◌, ◌⊎◌, inl, inr, Bool-cases, Option-cases,
  &&-left, &&-right,
}
use langsmith_deployment_go.Redis.{cache_key}
use langsmith_deployment_go.Cache.{
  is_key_char, are_key_chars, validate_key, user_id_from_context, Entry, Store, stored, found,
  missing, invalid_argument, unauthenticated, put_entry, read_entry, set_value, get_value,
}

abbrev colon : Char
colon = ":"

not_colon : (c : Char) → is_key_char c ≡ true → colon ≡ c → ⊥
unfolding is_key_char
not_colon c h e = false≢true (ap is_key_char e ∙ h)

after_colon : (j : String) → ":" ++ j ≡ colon ∷ j
after_colon j = cons-append colon [] j ∙ ap (λ t. colon ∷ t) (nil-append j)

split_at_colon :
    (u w j k : String)
    → are_key_chars u ≡ true
    → are_key_chars w ≡ true
    → u ++ (colon ∷ j) ≡ w ++ (colon ∷ k)
    → (u ≡ w) × (j ≡ k)
unfolding are_key_chars
split_at_colon [] [] j k hu hw e =
    (refl, tail-eq_of_cons-eq (sym (nil-append _) ∙ e ∙ nil-append _))
split_at_colon [] (c ∷ w) j k hu hw e = absurd (
    not_colon c (&&-left _ _ hw)
      (head-eq_of_cons-eq (sym (nil-append _) ∙ e ∙ cons-append c w (colon ∷ k))))
split_at_colon (c ∷ u) [] j k hu hw e = absurd (
    not_colon c (&&-left _ _ hu)
      (head-eq_of_cons-eq (sym (nil-append _) ∙ sym e ∙ cons-append c u (colon ∷ j))))
split_at_colon (c ∷ u) (d ∷ w) j k hu hw e =
    let e' : c ∷ (u ++ (colon ∷ j)) ≡ d ∷ (w ++ (colon ∷ k)) =
      sym (cons-append c u (colon ∷ j)) ∙ e ∙ cons-append d w (colon ∷ k) in
    let (x, y) =
      split_at_colon u w j k (&&-right _ _ hu) (&&-right _ _ hw) (tail-eq_of_cons-eq e') in
    (ap₂ ◌∷◌ (head-eq_of_cons-eq e') x, y)

-- Two callers whose ids pass ValidateKey have no Redis key in common, whatever their keys are.
cache_key-injective :
    (u w j k : String)
    → validate_key u ≡ true
    → validate_key w ≡ true
    → cache_key u j ≡ cache_key w k
    → (u ≡ w) × (j ≡ k)
unfolding cache_key validate_key
cache_key-injective u w j k hu hw e = split_at_colon u w j k (&&-right _ _ hu) (&&-right _ _ hw) (
    ap (λ t. u ++ t) (sym (after_colon j))
    ∙ append_cancel_left "cache:" (u ++ (":" ++ j)) (w ++ (":" ++ k)) e
    ∙ ap (λ t. w ++ t) (after_colon k))

put_entry-ne : (a b : String) (e : Entry) (s : Store) → (b ≡ a → ⊥) → put_entry a e s b ≡ s b
put_entry-ne a b e s n = elim (Bool-cases (str_eq b a)) [
  | inl h ↦ absurd (n ((eq_iff b a).0 h))
  | inr h ↦ rw h refl
]

-- Set leaves the store as it is, or puts one entry under the caller's key.
set_value-cases :
    (now ttl : ℕ) (writer : Option (List String)) (j value : String) (s : Store)
    → ((set_value now writer j value ttl s).1 ≡ s)
      ⊎ ((u : String) × (e : Entry) × (user_id_from_context writer ≡ some u)
          × (validate_key u ≡ true)
          × ((set_value now writer j value ttl s).1 ≡ put_entry (cache_key u j) e s))
unfolding set_value
set_value-cases now ttl writer j value s = elim (Bool-cases (validate_key j)) [
  | inr b ↦ rw b (inl refl)
  | inl b ↦ elim (Option-cases (user_id_from_context writer)) [
    | inl c ↦ rw (b, c) (inl refl)
    | inr (u, c) ↦ elim (Bool-cases (validate_key u)) [
      | inr d ↦ rw (b, c, d) (inl refl)
      | inl d ↦ rw (b, c, d) (inr (u, _, refl, d, refl))
    ]
  ]
]

-- Get reads nothing but the entry under the caller's key.
get_value-agrees :
    (now : ℕ) (reader : Option (List String)) (k : String) (s t : Store)
    → ((w : String)
        → user_id_from_context reader ≡ some w
        → validate_key w ≡ true
        → s (cache_key w k) ≡ t (cache_key w k))
    → get_value now reader k s ≡ get_value now reader k t
unfolding get_value
get_value-agrees now reader k s t h = elim (Bool-cases (validate_key k)) [
  | inr b ↦ rw b refl
  | inl b ↦ elim (Option-cases (user_id_from_context reader)) [
    | inl c ↦ rw (b, c) refl
    | inr (w, c) ↦ elim (Bool-cases (validate_key w)) [
      | inr d ↦ rw (b, c, d) refl
      | inl d ↦ rw (b, c, d) (ap (read_entry now) (h w c d))
    ]
  ]
]

-- Set and Get of different callers do not meet: a Get by a caller answers the same before and after
-- a Set by another caller, whatever the two keys, the value and the times, and whether the Set was
-- accepted or refused. A caller is what UserIDFromContext finds in the headers.
pub get_value-set_value_other :
    (now later ttl : ℕ) (writer reader : Option (List String)) (j k value : String) (s : Store)
    → user_id_from_context writer ≢ user_id_from_context reader
    → get_value later reader k (set_value now writer j value ttl s).1 ≡ get_value later reader k s
get_value-set_value_other now later ttl writer reader j k value s differ =
    elim (set_value-cases now ttl writer j value s) [
      | inl same ↦ ap (get_value later reader k) same
      | inr (u, e, c, d, put) ↦
          ap (get_value later reader k) put
          ∙ get_value-agrees later reader k (put_entry (cache_key u j) e s) s (λ w c' d'.
            put_entry-ne (cache_key u j) (cache_key w k) e s (λ same.
              differ (c ∙ ap some (sym (cache_key-injective w u k j d' d same).0) ∙ sym c')))
    ]

read_put :
    (now later ttl : ℕ) (value a : String) (s : Store)
    → read_entry later (
        put_entry a
          (record { value = value; expires_at = if ttl == 0 then none else some (now + ttl) })
          s
          a)
      ≡ (if ttl == 0 || ltb later (now + ttl) then found value else missing)
read_put now later ttl value a s = elim (Bool-cases (ttl == 0)) [
  | inl b ↦ rw (eq_refl, b) refl
  | inr b ↦ rw (eq_refl, b) refl
]

-- What the checks that Set and Get share have found.
record IsAdmitted (header : Option (List String)) (k u : String) : Type 0 where
  key : validate_key k ≡ true
  caller : user_id_from_context header ≡ some u
  id : validate_key u ≡ true

get_value-admitted :
    (later : ℕ) (header : Option (List String)) (k u : String) (s : Store)
    → IsAdmitted header k u
    → get_value later header k s ≡ read_entry later (s (cache_key u k))
unfolding get_value
get_value-admitted later header k u s a = rw (a.key, a.caller, a.id) refl

set_value-admitted :
    (now ttl : ℕ) (header : Option (List String)) (k u value : String) (s : Store)
    → IsAdmitted header k u
    → (set_value now header k value ttl s).1
      ≡ put_entry
          (cache_key u k)
          (record { value = value; expires_at = if ttl == 0 then none else some (now + ttl) })
          s
unfolding set_value
set_value-admitted now ttl header k u value s a = rw (a.key, a.caller, a.id) refl

stored-IsAdmitted :
    (now ttl : ℕ) (header : Option (List String)) (k value : String) (s : Store)
    → (set_value now header k value ttl s).0 ≡ stored
    → (u : String) × IsAdmitted header k u
unfolding set_value
stored-IsAdmitted now ttl header k value s h = elim (Bool-cases (validate_key k)) [
  | inr b ↦ absurd (refused_key (rw b at h))
  | inl b ↦ elim (Option-cases (user_id_from_context header)) [
    | inl c ↦ absurd (refused_caller (rw (b, c) at h))
    | inr (u, c) ↦ elim (Bool-cases (validate_key u)) [
      | inr d ↦ absurd (refused_key (rw (b, c, d) at h))
      | inl d ↦ (u, record { key = b; caller = c; id = d })
    ]
  ]
]
  where
    refused_key : invalid_argument ≡ stored → ⊥
    refused_key e = ground (arith, e)

    refused_caller : unauthenticated ≡ stored → ⊥
    refused_caller e = ground (arith, e)

-- An accepted Set is read back by the same caller under the same key until it expires: the value is
-- there without a TTL, and with one as long as the clock is before the sum of the time of the Set
-- and the TTL; then it is missing.
pub get_value-set_value_same :
    (now later ttl : ℕ) (header : Option (List String)) (k value : String) (s : Store)
    → (set_value now header k value ttl s).0 ≡ stored
    → get_value later header k (set_value now header k value ttl s).1
      ≡ (if ttl == 0 || ltb later (now + ttl) then found value else missing)
get_value-set_value_same now later ttl header k value s h =
    let (u, a) = stored-IsAdmitted now ttl header k value s h in
    ap (get_value later header k) (set_value-admitted now ttl header k u value s a)
    ∙ get_value-admitted later header k u _ a
    ∙ read_put now later ttl value (cache_key u k) s
