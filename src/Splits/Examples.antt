-- ===== src/Splits/Examples.antt =====
-- Three samples, and the theorem at a concrete input.
use image_genie.Base.{ℕ, ◌*◌, ◌≡◌, Bool, true, not, ◌&&◌, List, [], ◌∷◌, length, count, Text, codes}
use image_genie.Splits.{Sample, stratified_split}
use image_genie.Splits.Laws.{below, count-stratified_split}

abbrev samples : List Sample
samples =
    record { uid = codes "b"; class_name = codes "lamp" }
    ∷ record { uid = codes "a"; class_name = codes "chair" }
    ∷ record { uid = codes "c"; class_name = codes "lamp" }
    ∷ []

-- The number of characters times 1500, for a digest.
abbrev digest : Text → ℕ
digest t = length t * 1500

abbrev all : Sample → Bool
all _ = true

count-stratified_split_example :
    (count all (stratified_split digest samples 7 1000 1000).test
      ≡ count (λ s. below digest 7 1000 s && true) samples)
    × (count all (stratified_split digest samples 7 1000 1000).val
        ≡ count (λ s. (not (below digest 7 1000 s) && below digest 7 2000 s) && true) samples)
    × (count all (stratified_split digest samples 7 1000 1000).train
        ≡ count (λ s. (not (below digest 7 1000 s) && not (below digest 7 2000 s)) && true) samples)
count-stratified_split_example = count-stratified_split digest 7 all samples 1000 1000
