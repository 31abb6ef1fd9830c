-- ===== src/Checkpointer/Channels.antt =====
-- The blobs of internal/checkpointer from Put to GetTuple: one channel value, by key and version.
use mathlib.Core.Bool.{false≢true}
use langsmith_deployment_go.Prelude.{
  String, ◌≡◌, refl, sym, ap, ◌∙◌, Bool, true, false, not, ◌&&◌, Option, none, some, List, [], ◌∷◌,
  arith, str_eq, eq_iff, ◌⊎◌, inl, inr, Bool-cases, &&-left, &&-right, IsIn, ok, if◌then◌else◌,
  ok-injective,
}
use langsmith_deployment_go.Runs.Model.{CheckpointBlob}
use langsmith_deployment_go.Runs.Create.{or_default}
use langsmith_deployment_go.Runs.Creating.{Result-cases}
use langsmith_deployment_go.Checkpointer.Values.{
  ChannelValue, ValueCodec, decode_write_value, version_under, is_of_checkpoint, blob_values,
}

-- The value of a channel; the first entry counts.
abbrev pub value_under : String → List (String × ChannelValue) → Option ChannelValue
value_under k [] = none
value_under k ((l, cv) ∷ rest) = if str_eq l k then some cv else value_under k rest

abbrev pub is_version : String → String → CheckpointBlob → Bool
is_version k s b = str_eq b.channel k && str_eq b.version s

opened :
    (versions : List (String × String)) (s : String) (b : CheckpointBlob)
    → version_under b.channel versions ≡ some s
    → is_of_checkpoint versions b ≡ (str_eq b.version s && not (str_eq b.encoding "empty"))
opened versions s b h =
    ap
      (λ (o : Option String). elim o [
        | none ↦ false
        | some v ↦ str_eq b.version v && not (str_eq b.encoding "empty")
      ])
      h

version_holds :
    (versions : List (String × String)) (k s : String) (b : CheckpointBlob)
    → version_under k versions ≡ some s
    → is_of_checkpoint versions b ≡ true
    → str_eq b.channel k ≡ true
    → is_version k s b ≡ true
version_holds versions k s b h taken same =
    let at_k : version_under b.channel versions ≡ some s =
      ap (λ l. version_under l versions) ((eq_iff b.channel k).0 same) ∙ h in
    rw (same, &&-left (str_eq b.version s) _ (sym (opened versions s b at_k) ∙ taken)) refl

takes :
    (versions : List (String × String)) (k s : String) (b : CheckpointBlob)
    → version_under k versions ≡ some s
    → is_version k s b ≡ true
    → str_eq b.encoding "empty" ≡ false
    → is_of_checkpoint versions b ≡ true
takes versions k s b h there full =
    let at_k : version_under b.channel versions ≡ some s =
      ap (λ l. version_under l versions) ((eq_iff b.channel k).0 (&&-left _ _ there)) ∙ h in
    opened versions s b at_k ∙ rw (&&-right (str_eq b.channel k) _ there, full) refl

module _ (pb : ValueCodec) (versions : List (String × String)) (k s : String) (cv : ChannelValue)
    (listed : version_under k versions ≡ some s) where
  -- If every blob of a channel in the version of the checkpoint decodes to one value, and there is
  -- such a blob that is not empty, then that is the value of the channel.
  pub blob_values-value :
      (bs : List CheckpointBlob) (acc vs : List (String × ChannelValue))
      → ((b : CheckpointBlob)
          → IsIn b bs
          → is_version k s b ≡ true
          → decode_write_value pb b.encoding (or_default "" b.blob) ≡ ok cv)
      → (value_under k acc ≡ some cv)
        ⊎ ((b : CheckpointBlob) × IsIn b bs
            × (is_version k s b ≡ true)
            × (str_eq b.encoding "empty" ≡ false))
      → blob_values pb versions bs acc ≡ ok vs
      → value_under k vs ≡ some cv
  unfolding blob_values
  blob_values-value [] acc vs all_same (inl h) e =
      ap (value_under k) (sym (ok-injective acc vs e)) ∙ h
  blob_values-value [] acc vs all_same (inr (b, m, _, _)) e = absurd m
  blob_values-value (b ∷ bs) acc vs all_same found e =
      let below = λ (x : CheckpointBlob) (m : IsIn x bs). all_same x (inr m) in
      elim (Bool-cases (is_of_checkpoint versions b)) [
        | inr out ↦ blob_values-value bs acc vs below (skip found out) (rw out at e)
        | inl taken ↦ elim (Bool-cases (str_eq b.channel k)) [
          | inl same ↦
              let d = all_same b (inl refl) (version_holds versions k s b listed taken same) in
              blob_values-value bs ((b.channel, cv) ∷ acc) vs below (inl (rw same refl))
                (rw (taken, d) at e)
          | inr other ↦
              elim (Result-cases (decode_write_value pb b.encoding (or_default "" b.blob))) [
                | inl (x, bad) ↦ absurd (ground (arith, (rw (taken, bad) at e)))
                | inr (x, good) ↦
                    blob_values-value bs ((b.channel, x) ∷ acc) vs below (pass found other x)
                      (rw (taken, good) at e)
              ]
        ]
      ]
    where
      skip :
          (value_under k acc ≡ some cv)
            ⊎ ((x : CheckpointBlob) × IsIn x (b ∷ bs)
                × (is_version k s x ≡ true)
                × (str_eq x.encoding "empty" ≡ false))
          → is_of_checkpoint versions b ≡ false
          → (value_under k acc ≡ some cv)
            ⊎ ((x : CheckpointBlob) × IsIn x bs
                × (is_version k s x ≡ true)
                × (str_eq x.encoding "empty" ≡ false))
      skip (inl h) out = inl h
      skip (inr (x, inr m, a, c)) out = inr (x, m, a, c)
      skip (inr (x, inl e, a, c)) out = absurd (
          false≢true
            (sym out ∙ ap (is_of_checkpoint versions) (sym e) ∙ takes versions k s x listed a c))

      pass :
          (value_under k acc ≡ some cv)
            ⊎ ((x : CheckpointBlob) × IsIn x (b ∷ bs)
                × (is_version k s x ≡ true)
                × (str_eq x.encoding "empty" ≡ false))
          → str_eq b.channel k ≡ false
          → (y : ChannelValue)
          → (value_under k ((b.channel, y) ∷ acc) ≡ some cv)
            ⊎ ((x : CheckpointBlob) × IsIn x bs
                × (is_version k s x ≡ true)
                × (str_eq x.encoding "empty" ≡ false))
      pass (inl h) other y = inl (rw other h)
      pass (inr (x, inr m, a, c)) other y = inr (x, m, a, c)
      pass (inr (x, inl e, a, c)) other y =
          absurd (false≢true (sym other ∙ ap (λ b. str_eq b.channel k) (sym e) ∙ &&-left _ _ a))
