-- ===== src/Metrics.antt =====
-- ml/metrics.py: the confusion matrix and the counts that the metrics of a class divide. Class indices are not negative.
pub mod Steps
pub mod Laws
mod Examples
use image_genie.Base.{
  ℕ, zero, suc, ◌+◌, ◌-◌, ◌*◌, ◌/◌, not, Option, none, some, List, [], ◌∷◌, arith, if◌then◌else◌,
  ◌==◌, length, text_eq, nat_eq,
}

abbrev pub Matrix : Type 0
Matrix = List (List ℕ)

-- `[0] * n`
unfoldable pub zeros : ℕ → List ℕ
zeros zero = []
zeros (suc n) = 0 ∷ zeros n

-- `[[0] * num_classes for _ in range(n)]`
unfoldable pub zero_rows : ℕ → ℕ → Matrix
unfolding zeros
zero_rows num_classes zero = []
zero_rows num_classes (suc n) = zeros num_classes ∷ zero_rows num_classes n

abbrev pub onto {ℓ} : {A : Type ℓ} → A → Option (List A) → Option (List A)
onto x none = none
onto x (some xs) = some (x ∷ xs)

abbrev pub ahead {ℓ} : {A : Type ℓ} → List A → Option A → Option (List A)
ahead xs none = none
ahead xs (some x) = some (x ∷ xs)

-- `row[index] += 1`, an error past the end
unfoldable pub bump : ℕ → List ℕ → Option (List ℕ)
bump index [] = none
bump zero (n ∷ row) = some (suc n ∷ row)
bump (suc index) (n ∷ row) = onto n (bump index row)

-- `matrix[true_index][predicted_index] += 1`
unfoldable pub bump_cell : ℕ → ℕ → Matrix → Option Matrix
unfolding bump
bump_cell true_index predicted_index [] = none
bump_cell zero predicted_index (row ∷ rows) = ahead rows (bump predicted_index row)
bump_cell (suc true_index) predicted_index (row ∷ rows) =
    onto row (bump_cell true_index predicted_index rows)

abbrev then_tally : Option Matrix → (Matrix → Option Matrix) → Option Matrix
then_tally none rest = none
then_tally (some matrix) rest = rest matrix

-- The loop over the pairs; two lists of different lengths are an error.
unfoldable pub tally : List ℕ → List ℕ → Matrix → Option Matrix
unfolding bump_cell
tally [] [] matrix = some matrix
tally [] (p ∷ ps) matrix = none
tally (t ∷ ts) [] matrix = none
tally (t ∷ ts) (p ∷ ps) matrix = then_tally (bump_cell t p matrix) (tally ts ps)

unfoldable pub confusion_matrix : List ℕ → List ℕ → ℕ → Option Matrix
unfolding tally zero_rows
confusion_matrix true_indices predicted_indices num_classes =
    let matrix = tally true_indices predicted_indices (zero_rows num_classes num_classes) in
    if length true_indices == length predicted_indices then matrix else none

-- An entry, a row and the sum of a row; 0 and [] out of range.
unfoldable pub entry : List ℕ → ℕ → ℕ
entry [] j = 0
entry (n ∷ row) zero = n
entry (n ∷ row) (suc j) = entry row j

unfoldable pub row_of : Matrix → ℕ → List ℕ
row_of [] i = []
row_of (row ∷ rows) zero = row
row_of (row ∷ rows) (suc i) = row_of rows i

unfoldable pub sum : List ℕ → ℕ
sum [] = 0
sum (n ∷ row) = n + sum row

-- `sum(matrix[index])`, and `sum(row[index] for row in matrix)`
unfoldable pub support : Matrix → ℕ → ℕ
unfolding row_of sum
support matrix index = sum (row_of matrix index)

unfoldable pub predicted_count : Matrix → ℕ → ℕ
unfolding entry
predicted_count [] index = 0
predicted_count (row ∷ rows) index = entry row index + predicted_count rows index
