-- ===== src/DeadLetters/Table.antt =====
-- One row for a failed job, and what a replay does to it.
use image_genie.Base.{
  ℕ, suc, ◌<◌, ◌≡◌, refl, sym, ◌∙◌, ◌≢◌, ◌↔◌, inl, inr, true, false, ◌&&◌, Option, none, some, List,
  [], ◌∷◌, arith, if◌then◌else◌, Bool-cases, Option-cases, ◌==◌, take, All, Text, text_beq_iff,
  text_eq, nat_eq,
}
use image_genie.Pipeline.{PipelineStage}
use image_genie.DeadLetters.{
  DeadLetter, DeadLetters, pipeline_stage_beq, is_job, overwrite, upsert, record_failure,
  max_error_length,
}

-- The row of a job.
abbrev pub letter_of : Text → PipelineStage → List DeadLetter → Option DeadLetter
letter_of uid stage [] = none
letter_of uid stage (row ∷ rows) =
    if is_job uid stage row then some row else letter_of uid stage rows

pub pipeline_stage_beq_iff : (a b : PipelineStage) → (pipeline_stage_beq a b ≡ true) ↔ (a ≡ b)
pipeline_stage_beq_iff a b = ground arith

-- The rows of a job and of another one are told apart.
is_job_other :
    (u uid : Text) (s stage : PipelineStage) (row : DeadLetter)
    → is_job uid stage row ≡ true
    → is_job u s row ≡ ((uid == u) && pipeline_stage_beq stage s)
is_job_other u uid s stage row h = ground (
  arith,
  text_beq_iff row.model_uid uid,
  text_beq_iff row.model_uid u,
  text_beq_iff uid u,
  pipeline_stage_beq_iff row.stage stage,
)

letter_of-upsert_self :
    (new : DeadLetter) (rows : List DeadLetter)
    → letter_of new.model_uid new.stage (upsert new rows)
      ≡ some (elim (letter_of new.model_uid new.stage rows) [
        | none ↦ new
        | some row ↦ overwrite row new
      ])
unfolding upsert
letter_of-upsert_self new [] =
    ground
      (arith, text_beq_iff new.model_uid new.model_uid, pipeline_stage_beq_iff new.stage new.stage)
letter_of-upsert_self new (row ∷ rows) = elim (Bool-cases (is_job new.model_uid new.stage row)) [
  | inl here ↦ rw (here, here) refl
  | inr other ↦ rw (other, other) (letter_of-upsert_self new rows)
]

letter_of-upsert_other :
    (new : DeadLetter) (u : Text) (s : PipelineStage) (rows : List DeadLetter)
    → ((new.model_uid == u) && pipeline_stage_beq new.stage s) ≡ false
    → letter_of u s (upsert new rows) ≡ letter_of u s rows
unfolding upsert
letter_of-upsert_other new u s [] h = rw h refl
letter_of-upsert_other new u s (row ∷ rows) h =
    elim (Bool-cases (is_job new.model_uid new.stage row)) [
      | inl here ↦
          let apart : is_job u s row ≡ false =
            is_job_other u new.model_uid s new.stage row here ∙ h in
          rw (here, apart) refl
      | inr other ↦ elim (Bool-cases (is_job u s row)) [
        | inl there ↦ rw (other, there) refl
        | inr apart ↦ rw (other, apart) (letter_of-upsert_other new u s rows h)
      ]
    ]

pub letter_of-is_job :
    (u : Text) (s : PipelineStage) (rows : List DeadLetter) (row : DeadLetter)
    → letter_of u s rows ≡ some row
    → (row.model_uid ≡ u) × (row.stage ≡ s)
letter_of-is_job u s [] row h = absurd (cc h)
letter_of-is_job u s (first ∷ rows) row h = elim (Bool-cases (is_job u s first)) [
  | inl here ↦
      let same : first ≡ row = cc (rw here at h) in
      rw (sym same)
        (ground (arith, text_beq_iff first.model_uid u, pipeline_stage_beq_iff first.stage s))
  | inr other ↦ letter_of-is_job u s rows row (rw other at h)
]

-- The number of a job's row: its own, or the sequence's next.
abbrev pub id_for : DeadLetters → Option DeadLetter → ℕ
id_for table none = table.next_id
id_for table (some row) = row.id

-- What the table has under a job after a failure of it: the failure, under the number of the job's row or the next one.
abbrev pub latest : Text → PipelineStage → Text → Option ℕ → ℕ → DeadLetters → DeadLetter
latest uid stage error delivery_attempt now table = record {
  id = id_for table (letter_of uid stage table.rows);
  model_uid = uid;
  stage = stage;
  error = take max_error_length error;
  delivery_attempt = delivery_attempt;
  failed_at = now;
  replayed_at = none;
}

-- After a failure is recorded, the row of its job holds exactly that failure, the error cut at 2,000 code points, and
-- counts as not replayed; it keeps the number it had, or takes the sequence's next; and the row of any other model or
-- stage is as before.
pub letter_of-record_failure :
    (uid : Text) (stage : PipelineStage) (error : Text) (delivery_attempt : Option ℕ) (now : ℕ)
    (table : DeadLetters) (u : Text) (s : PipelineStage)
    → letter_of u s (record_failure uid stage error delivery_attempt now table).rows ≡ (
        if (uid == u) && pipeline_stage_beq stage s
        then some (latest uid stage error delivery_attempt now table)
        else letter_of u s table.rows)
unfolding record_failure
letter_of-record_failure uid stage error delivery_attempt now table u s =
    let new : DeadLetter = record {
      id = table.next_id;
      model_uid = uid;
      stage = stage;
      error = take max_error_length error;
      delivery_attempt = delivery_attempt;
      failed_at = now;
      replayed_at = none;
    } in
    elim (Bool-cases ((uid == u) && pipeline_stage_beq stage s)) [
      | inr apart ↦ rw apart (letter_of-upsert_other new u s table.rows apart)
      | inl same ↦
          let u_same : uid ≡ u = ground (arith, text_beq_iff uid u) in
          let s_same : stage ≡ s = ground (arith, pipeline_stage_beq_iff stage s) in
          rw (same, ← u_same, ← s_same)
            (letter_of-upsert_self new table.rows
              ∙ elim (Option-cases (letter_of uid stage table.rows)) [
                | inl fresh ↦ rw fresh refl
                | inr (row, found) ↦
                    let (row_uid, row_stage) = letter_of-is_job uid stage table.rows row found in
                    rw (found, row_uid, row_stage) refl
              ])
    ]

-- No later row is of the same job.
abbrev pub OneRowAJob : List DeadLetter → Type 0
OneRowAJob [] = Unit
OneRowAJob (row ∷ rows) =
    All (λ later. is_job row.model_uid row.stage later ≡ false) rows × OneRowAJob rows

abbrev pub OneRowANumber : List DeadLetter → Type 0
OneRowANumber [] = Unit
OneRowANumber (row ∷ rows) = All (λ later. row.id ≢ later.id) rows × OneRowANumber rows

-- Rows of different jobs, with different numbers that the sequence has handed out.
pub record IsWellFormed (table : DeadLetters) : Type 0 where
  pub jobs : OneRowAJob table.rows
  pub ids : OneRowANumber table.rows
  pub handed_out : All (λ row. row.id < table.next_id) table.rows

All-upsert :
    (P : DeadLetter → Type 0) (new : DeadLetter) (rows : List DeadLetter)
    → P new
    → ((row : DeadLetter) → P row → P (overwrite row new))
    → All P rows
    → All P (upsert new rows)
unfolding upsert
All-upsert P new [] p q _ = (p, tt)
All-upsert P new (row ∷ rows) p q (r, rs) = elim (Bool-cases (is_job new.model_uid new.stage row)) [
  | inl here ↦ rw here (q row r, rs)
  | inr other ↦ rw other (r, All-upsert P new rows p q rs)
]

is_job_sym :
    (a b : DeadLetter) → is_job a.model_uid a.stage b ≡ false → is_job b.model_uid b.stage a ≡ false
is_job_sym a b h = ground (
  arith,
  text_beq_iff a.model_uid b.model_uid,
  text_beq_iff b.model_uid a.model_uid,
  pipeline_stage_beq_iff a.stage b.stage,
  pipeline_stage_beq_iff b.stage a.stage,
)

OneRowAJob-upsert :
    (new : DeadLetter) (rows : List DeadLetter) → OneRowAJob rows → OneRowAJob (upsert new rows)
unfolding upsert
OneRowAJob-upsert new [] _ = (tt, tt)
OneRowAJob-upsert new (row ∷ rows) (apart, rest) =
    elim (Bool-cases (is_job new.model_uid new.stage row)) [
      | inl here ↦ rw here (apart, rest)
      | inr other ↦ rw other (
        All-upsert (λ later. is_job row.model_uid row.stage later ≡ false) new rows
            (is_job_sym new row other) (λ later h. h) apart,
        OneRowAJob-upsert new rows rest,
      )
    ]

OneRowANumber-upsert :
    (new : DeadLetter) (rows : List DeadLetter)
    → All (λ row. row.id < new.id) rows
    → OneRowANumber rows
    → OneRowANumber (upsert new rows)
unfolding upsert
OneRowANumber-upsert new [] _ _ = (tt, tt)
OneRowANumber-upsert new (row ∷ rows) (low, lows) (apart, rest) =
    elim (Bool-cases (is_job new.model_uid new.stage row)) [
      | inl here ↦ rw here (apart, rest)
      | inr other ↦ rw other (
        All-upsert (λ later. row.id ≢ later.id) new rows (λ e. absurd (omega (arith, e)))
            (λ later h. h) apart,
        OneRowANumber-upsert new rows lows rest,
      )
    ]

All-weaken :
    {P Q : DeadLetter → Type 0} (rows : List DeadLetter)
    → ((row : DeadLetter) → P row → Q row)
    → All P rows
    → All Q rows
All-weaken [] f _ = tt
All-weaken (row ∷ rows) f (p, ps) = (f row p, All-weaken rows f ps)

pub IsWellFormed-record_failure :
    (uid : Text) (stage : PipelineStage) (error : Text) (delivery_attempt : Option ℕ) (now : ℕ)
    (table : DeadLetters)
    → IsWellFormed table
    → IsWellFormed (record_failure uid stage error delivery_attempt now table)
unfolding record_failure
IsWellFormed-record_failure uid stage error delivery_attempt now table h = record {
  jobs = OneRowAJob-upsert _ table.rows h.jobs;
  ids = OneRowANumber-upsert _ table.rows h.handed_out h.ids;
  handed_out =
      All-upsert (λ row. row.id < suc table.next_id) _ table.rows (omega arith) (λ _ low. low)
        (All-weaken table.rows (λ row low. omega (arith, low)) h.handed_out);
}
