-- ===== src/DeadLetters/History.antt =====
-- The table after any sequence of failures and replays, and the list that the administrator is shown.
use image_genie.Base.{
  ℕ, ◌<◌, ◌≡◌, ◌≢◌, inl, inr, false, Option, some, List, [], ◌∷◌, Bool-cases, Option-cases, ◌==◌,
  All, Text, text_eq, nat_eq,
}
use image_genie.Pipeline.{PipelineStage}
use image_genie.DeadLetters.{
  DeadLetter, DeadLetters, is_job, record_failure, row_numbered, mark_replayed, replay,
}
use image_genie.DeadLetters.Table.{
  OneRowAJob, OneRowANumber, IsWellFormed, IsWellFormed-record_failure,
}

-- What happens to the table: a worker's failure, or an administrator's retry.
pub data Operation : Type 0 where
  failed : Text → PipelineStage → Text → Option ℕ → ℕ → Operation
  retried : ℕ → ℕ → Operation

abbrev pub perform : Operation → DeadLetters → DeadLetters
perform (failed uid stage error delivery_attempt now) table =
    record_failure uid stage error delivery_attempt now table
perform (retried id now) table = (replay id now table).1

abbrev pub history : List Operation → DeadLetters → DeadLetters
history [] table = table
history (op ∷ ops) table = history ops (perform op table)

abbrev pub no_letters : DeadLetters
no_letters = record { rows = []; next_id = 1 }

-- A mark changes no job, no number and no row's place.
All-mark_replayed :
    (P : DeadLetter → Type 0) (id now : ℕ) (rows : List DeadLetter)
    → ((row : DeadLetter) → P row → P (record row { replayed_at = some now }))
    → All P rows
    → All P (mark_replayed id now rows)
unfolding mark_replayed
All-mark_replayed P id now [] q _ = tt
All-mark_replayed P id now (row ∷ rows) q (p, ps) = elim (Bool-cases (row.id == id)) [
  | inl here ↦ rw here (q row p, ps)
  | inr other ↦ rw other (p, All-mark_replayed P id now rows q ps)
]

OneRowAJob-mark_replayed :
    (id now : ℕ) (rows : List DeadLetter) → OneRowAJob rows → OneRowAJob (mark_replayed id now rows)
unfolding mark_replayed
OneRowAJob-mark_replayed id now [] _ = tt
OneRowAJob-mark_replayed id now (row ∷ rows) (apart, rest) = elim (Bool-cases (row.id == id)) [
  | inl here ↦ rw here (apart, rest)
  | inr other ↦ rw other (
    All-mark_replayed (λ later. is_job row.model_uid row.stage later ≡ false) id now rows (λ _ h. h)
        apart,
    OneRowAJob-mark_replayed id now rows rest,
  )
]

OneRowANumber-mark_replayed :
    (id now : ℕ) (rows : List DeadLetter)
    → OneRowANumber rows
    → OneRowANumber (mark_replayed id now rows)
unfolding mark_replayed
OneRowANumber-mark_replayed id now [] _ = tt
OneRowANumber-mark_replayed id now (row ∷ rows) (apart, rest) = elim (Bool-cases (row.id == id)) [
  | inl here ↦ rw here (apart, rest)
  | inr other ↦ rw other (
    All-mark_replayed (λ later. row.id ≢ later.id) id now rows (λ _ h. h) apart,
    OneRowANumber-mark_replayed id now rows rest,
  )
]

pub IsWellFormed-replay :
    (id now : ℕ) (table : DeadLetters) → IsWellFormed table → IsWellFormed (replay id now table).1
unfolding replay
IsWellFormed-replay id now table h = elim (Option-cases (row_numbered id table.rows)) [
  | inl missing ↦ rw missing h
  | inr (row, found) ↦ rw found (record {
    jobs = OneRowAJob-mark_replayed id now table.rows h.jobs;
    ids = OneRowANumber-mark_replayed id now table.rows h.ids;
    handed_out =
        All-mark_replayed (λ row. row.id < table.next_id) id now table.rows (λ _ low. low)
          h.handed_out;
  })
]

-- Whatever failures and replays happen, in whatever order, to a table in which each job has at most one row, each row
-- a number of its own and every number is below the sequence's next: the table stays such a table.
pub IsWellFormed-history :
    (ops : List Operation) (table : DeadLetters)
    → IsWellFormed table
    → IsWellFormed (history ops table)
IsWellFormed-history [] table h = h
IsWellFormed-history (failed uid stage error delivery_attempt now ∷ ops) table h =
    IsWellFormed-history ops _
      (IsWellFormed-record_failure uid stage error delivery_attempt now table h)
IsWellFormed-history (retried id now ∷ ops) table h =
    IsWellFormed-history ops _ (IsWellFormed-replay id now table h)

pub IsWellFormed-no_letters : IsWellFormed no_letters
IsWellFormed-no_letters = record { jobs = tt; ids = tt; handed_out = tt }
