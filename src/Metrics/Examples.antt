-- ===== src/Metrics/Examples.antt =====
-- Four examples of three classes, and the theorems at concrete inputs.
use image_genie.Base.{
  ℕ, ◌≡◌, refl, some, List, [], ◌∷◌, arith, ◌==◌, length, count, All, text_eq, nat_eq,
}
use image_genie.Metrics.{Matrix, confusion_matrix, entry, row_of, support, predicted_count}
use image_genie.Metrics.Laws.{pairs_of, confusion_matrix-entry}

abbrev true_indices : List ℕ
true_indices = 0 ∷ 2 ∷ 2 ∷ 1 ∷ []

abbrev predicted_indices : List ℕ
predicted_indices = 0 ∷ 1 ∷ 2 ∷ 1 ∷ []

confusion_matrix-entry_example :
    (matrix : Matrix) × (confusion_matrix true_indices predicted_indices 3 ≡ some matrix)
    × (length matrix ≡ 3)
    × All (λ row. length row ≡ 3) matrix
    × (entry (row_of matrix 2) 1 ≡ pairs_of 2 1 true_indices predicted_indices)
    × (support matrix 2 ≡ count (λ t. t == 2) true_indices)
    × (predicted_count matrix 1 ≡ count (λ p. p == 1) predicted_indices)
confusion_matrix-entry_example =
    confusion_matrix-entry true_indices predicted_indices 3 2 1 refl
      (omega arith, (omega arith, (omega arith, (omega arith, tt))))
      (omega arith, (omega arith, (omega arith, (omega arith, tt))))
