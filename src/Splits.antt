-- ===== src/Splits.antt =====
-- ml/splits.py: every model's partition is a function of its uid and the seed. The fractions are given in buckets.
pub mod Laws
mod Examples
use image_genie.Base.{
  ℕ, ◌+◌, ◌-◌, ◌/◌, ◌%◌, ◌<◌, Bool, true, false, ◌&&◌, ◌||◌, List, [], ◌∷◌, ◌++◌, arith, ltb,
  if◌then◌else◌, ◌==◌, Text, codes, text_eq, nat_eq,
}
use image_genie.ArtifactKeys.Decimal.{decimal}

pub record Sample : Type 0 where
  pub uid : Text
  pub class_name : Text

pub record DatasetSplit : Type 0 where
  pub train : List Sample
  pub val : List Sample
  pub test : List Sample

abbrev pub bucket_count : ℕ
bucket_count = 10000

-- `a < b` on strings, by code points.
unfoldable pub text_less : Text → Text → Bool
text_less s [] = false
text_less [] (d ∷ t) = true
text_less (c ∷ s) (d ∷ t) = let rest = text_less s t in ltb c d || ((c == d) && rest)

-- `a < b` on pairs of strings.
abbrev pub sample_less : Sample → Sample → Bool
sample_less a b = text_less a.uid b.uid || ((a.uid == b.uid) && text_less a.class_name b.class_name)

unfoldable pub insert_sorted : Sample → List Sample → List Sample
insert_sorted s [] = s ∷ []
insert_sorted s (first ∷ samples) =
    let rest = insert_sorted s samples in
    if sample_less first s then first ∷ rest else s ∷ first ∷ samples

unfoldable pub sorted : List Sample → List Sample
unfolding insert_sorted
sorted [] = []
sorted (s ∷ samples) = insert_sorted s (sorted samples)

-- `digest` is the first eight bytes of the SHA-256 of a text, as a number.
module _ (digest : Text → ℕ) where
  unfoldable pub bucket_of : Text → ℕ → ℕ
  bucket_of uid seed = digest (decimal seed ++ (codes ":" ++ uid)) % bucket_count

  -- The loop of `stratified_split`, from the end of the samples.
  unfoldable pub assign : ℕ → ℕ → ℕ → List Sample → DatasetSplit
  unfolding bucket_of
  assign seed test_cutoff val_cutoff [] = record { train = []; val = []; test = [] }
  assign seed test_cutoff val_cutoff (s ∷ samples) =
      let split = assign seed test_cutoff val_cutoff samples in
      if ltb (bucket_of s.uid seed) test_cutoff
      then record split { test = s ∷ split.test }
      else if ltb (bucket_of s.uid seed) val_cutoff
      then record split { val = s ∷ split.val }
      else record split { train = s ∷ split.train }

  unfoldable pub stratified_split : List Sample → ℕ → ℕ → ℕ → DatasetSplit
  unfolding assign sorted
  stratified_split samples seed val_buckets test_buckets =
      assign seed test_buckets (test_buckets + val_buckets) (sorted samples)
