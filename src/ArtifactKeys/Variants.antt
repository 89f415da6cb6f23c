-- ===== src/ArtifactKeys/Variants.antt =====
-- The textured variant has keys of its own, and numbered keys read back.
use image_genie.Base.{
  ℕ, zero, suc, ◌≡◌, refl, sym, ap, ◌∙◌, inl, inr, none, some, List, [], ◌∷◌, ◌++◌, arith, ltb,
  nat_beq, if◌then◌else◌, nat_beq_iff, Bool-cases, length, get_elem?, length-append, Text, codes,
  starts_with,
}
use mathlib.Core.List.{append_assoc}
use image_genie.ArtifactKeys.{
  Variant, textured, converted_key, normalized_key, renders_prefix, view_key, view_keys,
  view_keys_below, weights_key, uid_from_key, uid_among, slice_between, num_views,
}
use image_genie.ArtifactKeys.Decimal.{decimal, value_from, value_from-decimal, value_from-pad2}
use image_genie.ArtifactKeys.RoundTrip.{slice_between-append}

-- A listing never takes a textured blob for one of a model's artifacts, whatever the uid.
pub uid_from_key-textured :
    (uid : Text) (view_index : ℕ)
    → (uid_from_key (converted_key uid textured) ≡ none)
      × (uid_from_key (normalized_key uid textured) ≡ none)
      × (uid_from_key (view_key uid view_index textured) ≡ none)
unfolding uid_from_key uid_among converted_key normalized_key view_key starts_with
uid_from_key-textured uid view_index = (refl, refl, refl)

-- The view number stands in a view key, between "view_" and ".png".
view_key-index :
    (uid : Text) (i : ℕ) (v : Variant)
    → value_from 0
        (slice_between (view_key uid i v) (renders_prefix uid v ++ codes "view_") (codes ".png"))
      ≡ i
unfolding view_key
view_key-index uid i v =
    rw (← append_assoc (renders_prefix uid v) (codes "view_") _, slice_between-append)
      (value_from-pad2 (decimal i) ∙ value_from-decimal i)

weights_key-run_id :
    (n : ℕ)
    → value_from 0 (slice_between (weights_key n) (codes "processed/models/") (codes ".pt")) ≡ n
unfolding weights_key
weights_key-run_id n =
    rw (slice_between-append (codes "processed/models/") (decimal n) (codes ".pt"))
      (value_from-decimal n)

-- Two views of one model, and the weights of two runs, never share a key.
pub numbered_keys-injective :
    (uid : Text) (v : Variant) (i j : ℕ)
    → (view_key uid i v ≡ view_key uid j v → i ≡ j) × (weights_key i ≡ weights_key j → i ≡ j)
numbered_keys-injective uid v i j = (
  λ e.
      sym (view_key-index uid i v)
      ∙ ap
          (λ k.
            value_from 0 (slice_between k (renders_prefix uid v ++ codes "view_") (codes ".png")))
          e
      ∙ view_key-index uid j v,
  λ e.
      sym (weights_key-run_id i)
      ∙ ap (λ k. value_from 0 (slice_between k (codes "processed/models/") (codes ".pt"))) e
      ∙ weights_key-run_id j,
)

get_elem?-concat {ℓ} :
    {A : Type ℓ} (xs : List A) (a : A) (i : ℕ)
    → get_elem? (xs ++ a ∷ []) i ≡ (if nat_beq i (length xs) then some a else get_elem? xs i)
get_elem?-concat [] a zero = refl
get_elem?-concat [] a (suc i) = ground arith
get_elem?-concat (x ∷ xs) a zero = ground arith
get_elem?-concat (x ∷ xs) a (suc i) = ground (arith, get_elem?-concat xs a i)

length-view_keys_below : (uid : Text) (n : ℕ) (v : Variant) → length (view_keys_below uid n v) ≡ n
unfolding view_keys_below
length-view_keys_below uid zero v = refl
length-view_keys_below uid (suc n) v = omega (
  arith,
  length-append (view_keys_below uid n v) (view_key uid n v ∷ []),
  length-view_keys_below uid n v,
)

get_elem?-view_keys_below :
    (uid : Text) (n i : ℕ) (v : Variant)
    → get_elem? (view_keys_below uid n v) i ≡ (if ltb i n then some (view_key uid i v) else none)
unfolding view_keys_below
get_elem?-view_keys_below uid zero i v = ground arith
get_elem?-view_keys_below uid (suc n) i v =
    rw
      (
        get_elem?-concat (view_keys_below uid n v) (view_key uid n v) i,
        length-view_keys_below uid n v,
      )
      (elim (Bool-cases (nat_beq i n)) [
        | inl last ↦ rw ((nat_beq_iff i n).0 last) (ground arith)
        | inr other ↦ ground (arith, get_elem?-view_keys_below uid n i v)
      ])

-- `view_keys` lists the key of every view of the model, in view order, and nothing else.
pub get_elem?-view_keys :
    (uid : Text) (i : ℕ) (v : Variant)
    → get_elem? (view_keys uid v) i ≡ (if ltb i num_views then some (view_key uid i v) else none)
unfolding view_keys
get_elem?-view_keys uid i v = get_elem?-view_keys_below uid 12 i v
