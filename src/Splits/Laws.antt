-- ===== src/Splits/Laws.antt =====
-- The three partitions share the samples out, by the bucket of each uid alone.
use image_genie.Base.{
  ℕ, ◌+◌, ◌≡◌, refl, ◌∙◌, inl, inr, Bool, not, ◌&&◌, List, [], ◌∷◌, arith, ltb, Bool-cases, count,
  Text,
}
use image_genie.Splits.{Sample, bucket_of, assign, insert_sorted, sorted, stratified_split}

count-insert_sorted :
    (p : Sample → Bool) (s : Sample) (samples : List Sample)
    → count p (insert_sorted s samples) ≡ count p (s ∷ samples)
unfolding insert_sorted
count-insert_sorted p s [] = refl
count-insert_sorted p s (first ∷ samples) = ground (arith, count-insert_sorted p s samples)

count-sorted :
    (p : Sample → Bool) (samples : List Sample) → count p (sorted samples) ≡ count p samples
unfolding sorted
count-sorted p [] = refl
count-sorted p (s ∷ samples) =
    count-insert_sorted p s (sorted samples) ∙ ground (arith, count-sorted p samples)

module _ (digest : Text → ℕ) (seed : ℕ) where
  abbrev pub below : ℕ → Sample → Bool
  below cutoff s = ltb (bucket_of digest s.uid seed) cutoff

  count-assign :
      (p : Sample → Bool) (test_cutoff val_cutoff : ℕ) (samples : List Sample)
      → (count p (assign digest seed test_cutoff val_cutoff samples).test
          ≡ count (λ s. below test_cutoff s && p s) samples)
        × (count p (assign digest seed test_cutoff val_cutoff samples).val
            ≡ count (λ s. (not (below test_cutoff s) && below val_cutoff s) && p s) samples)
        × (count p (assign digest seed test_cutoff val_cutoff samples).train
            ≡ count (λ s. (not (below test_cutoff s) && not (below val_cutoff s)) && p s) samples)
  unfolding assign
  count-assign p test_cutoff val_cutoff [] = (refl, refl, refl)
  count-assign p test_cutoff val_cutoff (s ∷ samples) =
      let (tests, vals, trains) = count-assign p test_cutoff val_cutoff samples in
      elim (Bool-cases (below test_cutoff s)) [
        | inl low ↦ rw low (ground (arith, tests), vals, trains)
        | inr high ↦ elim (Bool-cases (below val_cutoff s)) [
          | inl mid ↦ rw (high, mid) (tests, ground (arith, vals), trains)
          | inr top ↦ rw (high, top) (tests, vals, ground (arith, trains))
        ]
      ]

  -- A sample is in the test partition exactly if the bucket of its uid is below the first cutoff, in the validation
  -- partition if it is between the two, and in the training partition otherwise, as often as it is among the samples: of any
  -- set of samples that a test picks out, each partition has as many as the samples have in its range. Neither the class
  -- of a sample nor any other sample matters.
  pub count-stratified_split :
      (p : Sample → Bool) (samples : List Sample) (val_buckets test_buckets : ℕ)
      → (count p (stratified_split digest samples seed val_buckets test_buckets).test
          ≡ count (λ s. below test_buckets s && p s) samples)
        × (count p (stratified_split digest samples seed val_buckets test_buckets).val
            ≡ count
                (λ s. (not (below test_buckets s) && below (test_buckets + val_buckets) s) && p s)
                samples)
        × (count p (stratified_split digest samples seed val_buckets test_buckets).train
            ≡ count
                (λ s.
                  (not (below test_buckets s) && not (below (test_buckets + val_buckets) s)) && p s)
                samples)
  unfolding stratified_split
  count-stratified_split p samples val_buckets test_buckets =
      let (tests, vals, trains) =
        count-assign p test_buckets (test_buckets + val_buckets) (sorted samples) in
      (
        tests ∙ count-sorted _ samples,
        vals ∙ count-sorted _ samples,
        trains ∙ count-sorted _ samples,
      )
