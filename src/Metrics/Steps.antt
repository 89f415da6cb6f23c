-- ===== src/Metrics/Steps.antt =====
-- What one more example does to the confusion matrix.
use image_genie.Base.{
  ℕ, zero, suc, ◌<◌, ◌≡◌, refl, ◌∙◌, ◌&&◌, some, List, [], ◌∷◌, arith, if◌then◌else◌, ◌==◌, length,
  All, text_eq, nat_eq,
}
use image_genie.Metrics.{Matrix, bump, bump_cell, entry, row_of, sum, support, predicted_count}

entry-bump_zero :
    (n : ℕ) (row : List ℕ) (j : ℕ)
    → entry (suc n ∷ row) j ≡ (if 0 == j then suc (entry (n ∷ row) j) else entry (n ∷ row) j)
unfolding entry
entry-bump_zero n row zero = ground arith
entry-bump_zero n row (suc j) = ground arith

entry-bump_suc :
    (index n : ℕ) (row next : List ℕ)
    → ((j : ℕ) → entry next j ≡ (if index == j then suc (entry row j) else entry row j))
    → (j : ℕ)
    → entry (n ∷ next) j ≡ (if suc index == j then suc (entry (n ∷ row) j) else entry (n ∷ row) j)
unfolding entry
entry-bump_suc index n row next h zero = ground arith
entry-bump_suc index n row next h (suc j) = ground (arith, h j)

-- What one more example does to a row.
record Bumped (index : ℕ) (row next : List ℕ) : Type 0 where
  made : bump index row ≡ some next
  len : length next ≡ length row
  total : sum next ≡ suc (sum row)
  entries : (j : ℕ) → entry next j ≡ (if index == j then suc (entry row j) else entry row j)

bump_row : (index : ℕ) (row : List ℕ) → index < length row → (next : List ℕ) × Bumped index row next
unfolding bump sum
bump_row index [] low = absurd (omega arith)
bump_row zero (n ∷ row) low = (
  suc n ∷ row,
  record { made = refl; len = refl; total = omega arith; entries = entry-bump_zero n row },
)
bump_row (suc index) (n ∷ row) low =
    let (next, b) = bump_row index row (omega arith) in
    (
      n ∷ next,
      record {
        made = rw b.made refl;
        len = omega (arith, b.len);
        total = omega (arith, b.total);
        entries = entry-bump_suc index n row next b.entries;
      },
    )

unfoldable pub cell : Matrix → ℕ → ℕ → ℕ
unfolding row_of entry
cell matrix i j = entry (row_of matrix i) j

cell-here :
    (p : ℕ) (row next : List ℕ) (rows : Matrix) (i j : ℕ)
    → ((j : ℕ) → entry next j ≡ (if p == j then suc (entry row j) else entry row j))
    → cell (next ∷ rows) i j
      ≡ (if (0 == i) && (p == j) then suc (cell (row ∷ rows) i j) else cell (row ∷ rows) i j)
unfolding cell row_of
cell-here p row next rows zero j h = h j ∙ ground arith
cell-here p row next rows (suc i) j h = ground arith

cell-below :
    (t p : ℕ) (row : List ℕ) (rows next : Matrix) (i j : ℕ)
    → ((i j : ℕ)
        → cell next i j ≡ (if (t == i) && (p == j) then suc (cell rows i j) else cell rows i j))
    → cell (row ∷ next) i j
      ≡ (if (suc t == i) && (p == j) then suc (cell (row ∷ rows) i j) else cell (row ∷ rows) i j)
unfolding cell row_of
cell-below t p row rows next zero j h = ground arith
cell-below t p row rows next (suc i) j h = h i j ∙ ground arith

support-here :
    (row next : List ℕ) (rows : Matrix) (i : ℕ)
    → sum next ≡ suc (sum row)
    → support (next ∷ rows) i
      ≡ (if 0 == i then suc (support (row ∷ rows) i) else support (row ∷ rows) i)
unfolding support row_of
support-here row next rows zero h = h ∙ ground arith
support-here row next rows (suc i) h = ground arith

support-below :
    (t : ℕ) (row : List ℕ) (rows next : Matrix) (i : ℕ)
    → ((i : ℕ) → support next i ≡ (if t == i then suc (support rows i) else support rows i))
    → support (row ∷ next) i
      ≡ (if suc t == i then suc (support (row ∷ rows) i) else support (row ∷ rows) i)
unfolding support row_of
support-below t row rows next zero h = ground arith
support-below t row rows next (suc i) h = h i ∙ ground arith

-- What one more example does to the matrix.
pub record BumpedCell (n t p : ℕ) (matrix next : Matrix) : Type 0 where
  pub made : bump_cell t p matrix ≡ some next
  pub height : length next ≡ length matrix
  pub widths : All (λ row. length row ≡ n) next
  pub cells :
      (i j : ℕ)
      → cell next i j ≡ (if (t == i) && (p == j) then suc (cell matrix i j) else cell matrix i j)
  pub supports :
      (i : ℕ) → support next i ≡ (if t == i then suc (support matrix i) else support matrix i)
  pub predictions :
      (j : ℕ)
      → predicted_count next j
        ≡ (if p == j then suc (predicted_count matrix j) else predicted_count matrix j)

pub bump_matrix :
    (n t p : ℕ) (matrix : Matrix)
    → t < length matrix
    → p < n
    → All (λ row. length row ≡ n) matrix
    → (next : Matrix) × BumpedCell n t p matrix next
unfolding bump_cell predicted_count
bump_matrix n t p [] low _ _ = absurd (omega arith)
bump_matrix n zero p (row ∷ rows) low inside (w, ws) =
    let (next, b) = bump_row p row (omega arith) in
    (
      next ∷ rows,
      record {
        made = rw b.made refl;
        height = refl;
        widths = (b.len ∙ w, ws);
        cells = λ i j. cell-here p row next rows i j b.entries;
        supports = λ i. support-here row next rows i b.total;
        predictions = λ j. ground (arith, b.entries j);
      },
    )
bump_matrix n (suc t) p (row ∷ rows) low inside (w, ws) =
    let (next, b) = bump_matrix n t p rows (omega arith) inside ws in
    (
      row ∷ next,
      record {
        made = rw b.made refl;
        height = omega (arith, b.height);
        widths = (w, b.widths);
        cells = λ i j. cell-below t p row rows next i j b.cells;
        supports = λ i. support-below t row rows next i b.supports;
        predictions = λ j. ground (arith, b.predictions j);
      },
    )
