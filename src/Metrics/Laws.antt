-- ===== src/Metrics/Laws.antt =====
-- The confusion matrix counts the pairs of a true and a predicted class.
use image_genie.Base.{
  ℕ, zero, suc, ◌+◌, ◌<◌, ◌≡◌, refl, ◌∙◌, ◌≢◌, true, ◌&&◌, none, some, List, [], ◌∷◌, arith,
  if◌then◌else◌, nat_beq_iff, ◌==◌, ne_beq, length, count, All, text_eq, nat_eq,
}
use image_genie.Metrics.{
  Matrix, zeros, zero_rows, tally, confusion_matrix, entry, row_of, sum, support, predicted_count,
}
use image_genie.Metrics.Steps.{bump_matrix, cell}

-- How many examples of class `i` are predicted as `j`.
abbrev pub pairs_of : ℕ → ℕ → List ℕ → List ℕ → ℕ
pairs_of i j [] ps = 0
pairs_of i j (t ∷ ts) [] = 0
pairs_of i j (t ∷ ts) (p ∷ ps) =
    let rest = pairs_of i j ts ps in if (t == i) && (p == j) then suc rest else rest

-- What the loop does to the matrix.
record Tallied (n : ℕ) (ts ps : List ℕ) (matrix after : Matrix) : Type 0 where
  made : tally ts ps matrix ≡ some after
  height : length after ≡ length matrix
  widths : All (λ row. length row ≡ n) after
  cells : (i j : ℕ) → cell after i j ≡ pairs_of i j ts ps + cell matrix i j
  supports : (i : ℕ) → support after i ≡ count (λ t. t == i) ts + support matrix i
  predictions :
      (j : ℕ) → predicted_count after j ≡ count (λ p. p == j) ps + predicted_count matrix j

tally_counts :
    (n : ℕ) (ts ps : List ℕ) (matrix : Matrix)
    → length ts ≡ length ps
    → All (λ t. t < length matrix) ts
    → All (λ p. p < n) ps
    → All (λ row. length row ≡ n) matrix
    → (after : Matrix) × Tallied n ts ps matrix after
unfolding tally
tally_counts n [] [] matrix e _ _ ws = (
  matrix,
  record {
    made = refl;
    height = refl;
    widths = ws;
    cells = λ i j. omega arith;
    supports = λ i. omega arith;
    predictions = λ j. omega arith;
  },
)
tally_counts n [] (p ∷ ps) matrix e _ _ ws = absurd (omega (arith, e))
tally_counts n (t ∷ ts) [] matrix e _ _ ws = absurd (omega (arith, e))
tally_counts n (t ∷ ts) (p ∷ ps) matrix e (low, lows) (inside, insides) ws =
    let (next, b) = bump_matrix n t p matrix low inside ws in
    let lows' : All (λ t. t < length next) ts = rw b.height lows in
    let (after, rest) = tally_counts n ts ps next (omega (arith, e)) lows' insides b.widths in
    (
      after,
      record {
        made = rw b.made rest.made;
        height = rest.height ∙ b.height;
        widths = rest.widths;
        cells = λ i j. rest.cells i j ∙ rw (b.cells i j) (ground arith);
        supports = λ i. rest.supports i ∙ rw (b.supports i) (ground arith);
        predictions = λ j. rest.predictions j ∙ rw (b.predictions j) (ground arith);
      },
    )

length-zeros : (n : ℕ) → length (zeros n) ≡ n
unfolding zeros
length-zeros zero = refl
length-zeros (suc n) = omega (arith, length-zeros n)

entry-zeros : (n j : ℕ) → entry (zeros n) j ≡ 0
unfolding zeros entry
entry-zeros zero j = refl
entry-zeros (suc n) zero = refl
entry-zeros (suc n) (suc j) = entry-zeros n j

length-zero_rows : (n k : ℕ) → length (zero_rows n k) ≡ k
unfolding zero_rows
length-zero_rows n zero = refl
length-zero_rows n (suc k) = omega (arith, length-zero_rows n k)

widths-zero_rows : (n k : ℕ) → All (λ row. length row ≡ n) (zero_rows n k)
unfolding zero_rows
widths-zero_rows n zero = tt
widths-zero_rows n (suc k) = (length-zeros n, widths-zero_rows n k)

cell-zero_rows : (n k i j : ℕ) → cell (zero_rows n k) i j ≡ 0
unfolding zero_rows cell row_of
cell-zero_rows n zero i j = unfold entry in refl
cell-zero_rows n (suc k) zero j = entry-zeros n j
cell-zero_rows n (suc k) (suc i) j = cell-zero_rows n k i j

sum-zeros : (n : ℕ) → sum (zeros n) ≡ 0
unfolding zeros sum
sum-zeros zero = refl
sum-zeros (suc n) = omega (arith, sum-zeros n)

support-zero_rows : (n k i : ℕ) → support (zero_rows n k) i ≡ 0
unfolding zero_rows support row_of
support-zero_rows n zero i = unfold sum in refl
support-zero_rows n (suc k) zero = sum-zeros n
support-zero_rows n (suc k) (suc i) = support-zero_rows n k i

predicted_count-zero_rows : (n k j : ℕ) → predicted_count (zero_rows n k) j ≡ 0
unfolding zero_rows predicted_count
predicted_count-zero_rows n zero j = refl
predicted_count-zero_rows n (suc k) j =
    omega (arith, entry-zeros n j, predicted_count-zero_rows n k j)

-- Two lists of class indices, of one length and below the number of classes, have a confusion matrix: it is square, and
-- its entry in row `i` and column `j` is the number of the examples of class `i` that are predicted as `j`, the sum of row
-- `i` is the number of the examples of class `i`, and that of column `j` the number of those predicted as `j`.
pub confusion_matrix-entry :
    (true_indices predicted_indices : List ℕ) (num_classes i j : ℕ)
    → length true_indices ≡ length predicted_indices
    → All (λ t. t < num_classes) true_indices
    → All (λ p. p < num_classes) predicted_indices
    → (matrix : Matrix) × (confusion_matrix true_indices predicted_indices num_classes
        ≡ some matrix)
      × (length matrix ≡ num_classes)
      × All (λ row. length row ≡ num_classes) matrix
      × (entry (row_of matrix i) j ≡ pairs_of i j true_indices predicted_indices)
      × (support matrix i ≡ count (λ t. t == i) true_indices)
      × (predicted_count matrix j ≡ count (λ p. p == j) predicted_indices)
unfolding confusion_matrix cell
confusion_matrix-entry ts ps n i j e lows insides =
    let square = length-zero_rows n n in
    let lows' : All (λ t. t < length (zero_rows n n)) ts = rw square lows in
    let (after, t) = tally_counts n ts ps (zero_rows n n) e lows' insides (widths-zero_rows n n) in
    let same : (length ts == length ps) ≡ true = (nat_beq_iff (length ts) (length ps)).1 e in
    (
      after,
      rw same t.made,
      t.height ∙ square,
      t.widths,
      t.cells i j ∙ rw (cell-zero_rows n n i j) (omega arith),
      t.supports i ∙ rw (support-zero_rows n n i) (omega arith),
      t.predictions j ∙ rw (predicted_count-zero_rows n n j) (omega arith),
    )

-- Two lists of different lengths have no confusion matrix.
pub confusion_matrix-mismatch :
    (ts ps : List ℕ) (n : ℕ) → length ts ≢ length ps → confusion_matrix ts ps n ≡ none
unfolding confusion_matrix
confusion_matrix-mismatch ts ps n h = rw (ne_beq (length ts) (length ps) h) refl
