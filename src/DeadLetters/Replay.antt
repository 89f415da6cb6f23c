-- ===== src/DeadLetters/Replay.antt =====
-- What a replay of a failed job does, and what holds of the table after any sequence of failures and replays.
use image_genie.Base.{
  ℕ, ◌≡◌, refl, sym, ap, ◌∙◌, ◌≢◌, inl, inr, true, false, Option, none, some, List, [], ◌∷◌, ◌++◌,
  arith, if◌then◌else◌, nat_beq_iff, Bool-cases, Option-cases, ◌==◌, beq_refl, ne_beq, All, Text,
  codes, text_beq, text_beq_iff, text_eq, nat_eq,
}
use mathlib.Core.Path.{subst}
use mathlib.Core.Option.{map as map_option}
use image_genie.Pipeline.{Job, PipelineStage, job_payload}
use image_genie.DeadLetters.{
  DeadLetter, DeadLetters, stage_value, is_job, record_failure, row_numbered, mark_replayed,
  replay_message, replay, retry_failure,
}
use image_genie.DeadLetters.Table.{
  letter_of, pipeline_stage_beq_iff, OneRowAJob, OneRowANumber, IsWellFormed,
  IsWellFormed-record_failure, letter_of-is_job,
}

abbrev pub marked : ℕ → ℕ → DeadLetter → DeadLetter
marked id now row = if row.id == id then record row { replayed_at = some now } else row

All-letter_of :
    (P : DeadLetter → Type 0) (u : Text) (s : PipelineStage) (rows : List DeadLetter)
    (row : DeadLetter)
    → All P rows
    → letter_of u s rows ≡ some row
    → P row
All-letter_of P u s [] row _ h = absurd (cc h)
All-letter_of P u s (first ∷ rows) row (p, ps) h = elim (Bool-cases (is_job u s first)) [
  | inl here ↦ let same : first ≡ row = cc (rw here at h) in subst P same p
  | inr other ↦ All-letter_of P u s rows row ps (rw other at h)
]

letter_of-mark_replayed :
    (id now : ℕ) (u : Text) (s : PipelineStage) (rows : List DeadLetter)
    → OneRowANumber rows
    → letter_of u s (mark_replayed id now rows) ≡ map_option (marked id now) (letter_of u s rows)
unfolding mark_replayed
letter_of-mark_replayed id now u s [] _ = refl
letter_of-mark_replayed id now u s (row ∷ rows) (apart, distinct) =
    elim (Bool-cases (is_job u s row)) [
      | inl here ↦ elim (Bool-cases (row.id == id)) [
        | inl it ↦ rw (it, here, it) refl
        | inr another ↦ rw (another, here, another) refl
      ]
      | inr other ↦ elim (Bool-cases (row.id == id)) [
        | inr another ↦ rw (another, other) (letter_of-mark_replayed id now u s rows distinct)
        | inl it ↦
            rw (it, other)
              (elim (Option-cases (letter_of u s rows)) [
                | inl nothing ↦ rw nothing refl
                | inr (later, found) ↦
                    let differs : row.id ≢ later.id =
                      All-letter_of (λ l. row.id ≢ l.id) u s rows later apart found in
                    let unmarked : (later.id == id) ≡ false =
                      ground (arith, nat_beq_iff row.id id, nat_beq_iff later.id id) in
                    rw (found, unmarked) refl
              ])
      ]
    ]

All-row_numbered :
    (P : DeadLetter → Type 0) (id : ℕ) (rows : List DeadLetter) (row : DeadLetter)
    → All P rows
    → row_numbered id rows ≡ some row
    → P row
unfolding row_numbered
All-row_numbered P id [] row _ h = absurd (cc h)
All-row_numbered P id (first ∷ rows) row (p, ps) h = elim (Bool-cases (first.id == id)) [
  | inl here ↦ let same : first ≡ row = cc (rw here at h) in subst P same p
  | inr other ↦ All-row_numbered P id rows row ps (rw other at h)
]

id-row_numbered :
    (id : ℕ) (rows : List DeadLetter) (row : DeadLetter)
    → row_numbered id rows ≡ some row
    → row.id ≡ id
unfolding row_numbered
id-row_numbered id [] row h = absurd (cc h)
id-row_numbered id (first ∷ rows) row h = elim (Bool-cases (first.id == id)) [
  | inl here ↦
      let same : first ≡ row = cc (rw here at h) in rw (sym same) ((nat_beq_iff first.id id).0 here)
  | inr other ↦ id-row_numbered id rows row (rw other at h)
]

letter_of-row_numbered :
    (id : ℕ) (rows : List DeadLetter) (row : DeadLetter)
    → OneRowAJob rows
    → row_numbered id rows ≡ some row
    → letter_of row.model_uid row.stage rows ≡ some row
unfolding row_numbered
letter_of-row_numbered id [] row _ h = absurd (cc h)
letter_of-row_numbered id (first ∷ rows) row (apart, rest) h = elim (Bool-cases (first.id == id)) [
  | inl here ↦
      let same : first ≡ row = cc (rw here at h) in
      let own : is_job row.model_uid row.stage first ≡ true = rw same (
        ground (
          arith,
          text_beq_iff row.model_uid row.model_uid,
          pipeline_stage_beq_iff row.stage row.stage,
        )) in
      rw own (ap some same)
  | inr other ↦
      let later = rw other at h in
      let apart' : is_job first.model_uid first.stage row ≡ false =
        All-row_numbered (λ l. is_job first.model_uid first.stage l ≡ false) id rows row apart
          later in
      let not_first : is_job row.model_uid row.stage first ≡ false = ground (
        arith,
        text_beq_iff first.model_uid row.model_uid,
        text_beq_iff row.model_uid first.model_uid,
        pipeline_stage_beq_iff first.stage row.stage,
        pipeline_stage_beq_iff row.stage first.stage,
      ) in
      rw not_first (letter_of-row_numbered id rows row rest later)
]

-- A retry of the row with a number is answered by 204, publishes one default job on the topic of the row's stage, and
-- marks that row as replayed at this moment; for any job, the table has the row that it had, marked if it is this one.
pub retry_failure-marks :
    (id now : ℕ) (table : DeadLetters) (row : DeadLetter) (u : Text) (s : PipelineStage)
    → IsWellFormed table
    → row_numbered id table.rows ≡ some row
    → ((retry_failure id now table).0 ≡ 204)
      × ((retry_failure id now table).2 ≡ replay_message row ∷ [])
      × (letter_of row.model_uid row.stage (retry_failure id now table).1.rows
          ≡ some (record row { replayed_at = some now }))
      × (letter_of u s (retry_failure id now table).1.rows
          ≡ map_option (marked id now) (letter_of u s table.rows))
unfolding retry_failure replay
retry_failure-marks id now table row u s well found =
    let number : (row.id == id) ≡ true =
      (nat_beq_iff row.id id).1 (id-row_numbered id table.rows row found) in
    rw found (
      refl,
      refl,
      letter_of-mark_replayed id now row.model_uid row.stage table.rows well.ids
          ∙ rw (letter_of-row_numbered id table.rows row well.jobs found, number) refl,
      letter_of-mark_replayed id now u s table.rows well.ids,
    )

-- A number that no row has is answered by 404, and nothing is published or changed.
pub retry_failure-unknown :
    (id now : ℕ) (table : DeadLetters)
    → row_numbered id table.rows ≡ none
    → retry_failure id now table ≡ (404, table, [])
unfolding retry_failure replay
retry_failure-unknown id now table h = rw h refl

row_numbered-letter_of :
    (u : Text) (s : PipelineStage) (rows : List DeadLetter) (row : DeadLetter)
    → OneRowANumber rows
    → letter_of u s rows ≡ some row
    → row_numbered row.id rows ≡ some row
unfolding row_numbered
row_numbered-letter_of u s [] row _ h = absurd (cc h)
row_numbered-letter_of u s (first ∷ rows) row (apart, rest) h =
    elim (Bool-cases (is_job u s first)) [
      | inl here ↦ let same : first ≡ row = cc (rw here at h) in rw (same, beq_refl row.id) refl
      | inr other ↦
          let later = rw other at h in
          let differs : first.id ≢ row.id =
            All-letter_of (λ l. first.id ≢ l.id) u s rows row apart later in
          rw (ne_beq first.id row.id differs) (row_numbered-letter_of u s rows row rest later)
    ]

-- Retrying the failure that was recorded for a job of a stage, whatever the job's variant was, publishes a job of the
-- default variant: the table keeps no variant.
pub retry_failure-default :
    (job : Job) (stage : PipelineStage) (error : Text) (delivery_attempt : Option ℕ) (now later : ℕ)
    (table : DeadLetters) (row : DeadLetter)
    → IsWellFormed table
    → letter_of job.uid stage (record_failure job.uid stage error delivery_attempt now table).rows
      ≡ some row
    → (retry_failure row.id later (record_failure job.uid stage error delivery_attempt now table)).2
      ≡ record {
        topic = stage_value stage ++ codes "-jobs";
        job = record { uid = job.uid; variant = none };
      }
        ∷ []
unfolding job_payload text_beq
retry_failure-default job stage error delivery_attempt now later table row well found =
    let table' = record_failure job.uid stage error delivery_attempt now table in
    let well' = IsWellFormed-record_failure job.uid stage error delivery_attempt now table well in
    let (_, sent, _, _) =
      retry_failure-marks row.id later table' row job.uid stage well'
        (row_numbered-letter_of job.uid stage table'.rows row well'.ids found) in
    let (u, s) = letter_of-is_job job.uid stage table'.rows row found in sent ∙ rw (u, s) refl
