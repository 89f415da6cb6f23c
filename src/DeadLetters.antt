-- ===== src/DeadLetters.antt =====
-- server/app/dead_letters.py: the failures that the workers record, and their replay by an administrator
-- (server/app/api.py). Times are whole numbers, and the text of an error is a list of code points.
pub mod Table
pub mod Replay
pub mod History
mod Examples
pub mod Listing
use image_genie.Base.{
  ℕ, suc, ◌+◌, ◌-◌, ◌/◌, Bool, true, false, ◌&&◌, ◌||◌, Option, none, some, List, [], ◌∷◌, ◌++◌,
  arith, ltb, if◌then◌else◌, ◌==◌, take, keep, Text, codes, get, text_eq, nat_eq,
}
use image_genie.Pipeline.{Message, PipelineStage, download, convert, normalize, render, job_payload}

abbrev pub stage_value : PipelineStage → Text
stage_value download = codes "download"
stage_value convert = codes "convert"
stage_value normalize = codes "normalize"
stage_value render = codes "render"

abbrev pub pipeline_stage_beq : PipelineStage → PipelineStage → Bool
pipeline_stage_beq download download = true
pipeline_stage_beq convert convert = true
pipeline_stage_beq normalize normalize = true
pipeline_stage_beq render render = true
pipeline_stage_beq _ _ = false

pub record DeadLetter : Type 0 where
  pub id : ℕ
  pub model_uid : Text
  pub stage : PipelineStage
  pub error : Text
  pub delivery_attempt : Option ℕ
  pub failed_at : ℕ
  pub replayed_at : Option ℕ

-- The table, and the next value of the sequence that numbers its rows.
pub record DeadLetters : Type 0 where
  pub rows : List DeadLetter
  pub next_id : ℕ

abbrev pub max_error_length : ℕ
max_error_length = 2000

abbrev pub is_job : Text → PipelineStage → DeadLetter → Bool
is_job uid stage row = (row.model_uid == uid) && pipeline_stage_beq row.stage stage

-- The `DO UPDATE` of a row by the values of the insert.
abbrev pub overwrite : DeadLetter → DeadLetter → DeadLetter
overwrite row excluded = record row {
  error = excluded.error;
  delivery_attempt = excluded.delivery_attempt;
  failed_at = excluded.failed_at;
  replayed_at = none;
}

unfoldable pub upsert : DeadLetter → List DeadLetter → List DeadLetter
upsert new [] = new ∷ []
upsert new (row ∷ rows) =
    let rest = upsert new rows in
    if is_job new.model_uid new.stage row then overwrite row new ∷ rows else row ∷ rest

-- A sequence hands its number out whether the insert ends as a new row or as an update.
unfoldable pub record_failure :
    Text → PipelineStage → Text → Option ℕ → ℕ → DeadLetters → DeadLetters
unfolding upsert
record_failure uid stage error delivery_attempt now table = record {
  rows =
      upsert
        (record {
          id = table.next_id;
          model_uid = uid;
          stage = stage;
          error = take max_error_length error;
          delivery_attempt = delivery_attempt;
          failed_at = now;
          replayed_at = none;
        })
        table.rows;
  next_id = suc table.next_id;
}

-- session.get(DeadLetter, id)
unfoldable pub row_numbered : ℕ → List DeadLetter → Option DeadLetter
row_numbered id [] = none
row_numbered id (row ∷ rows) = if row.id == id then some row else row_numbered id rows

unfoldable pub mark_replayed : ℕ → ℕ → List DeadLetter → List DeadLetter
mark_replayed id now [] = []
mark_replayed id now (row ∷ rows) =
    let rest = mark_replayed id now rows in
    if row.id == id then record row { replayed_at = some now } ∷ rows else row ∷ rest

-- The message of `publish_next(f"{row.stage.value}-jobs", row.model_uid)`.
abbrev pub replay_message : DeadLetter → Message
replay_message row = record {
  topic = stage_value row.stage ++ codes "-jobs";
  job = job_payload row.model_uid (codes "default");
}

-- What `replay` does with the row it found: the row, the table, and the messages that are published.
abbrev replay_row :
    Option DeadLetter → ℕ → ℕ → DeadLetters → Option DeadLetter × DeadLetters × List Message
replay_row none id now table = (none, table, [])
replay_row (some row) id now table = (
  some (record row { replayed_at = some now }),
  record table { rows = mark_replayed id now table.rows },
  replay_message row ∷ [],
)

unfoldable pub replay : ℕ → ℕ → DeadLetters → Option DeadLetter × DeadLetters × List Message
replay id now table = replay_row (row_numbered id table.rows) id now table

abbrev retry_status : Option DeadLetter → ℕ
retry_status none = 404
retry_status (some _) = 204

-- retry_failure of the API: the status code, and what `replay` did.
unfoldable pub retry_failure : ℕ → ℕ → DeadLetters → ℕ × DeadLetters × List Message
unfolding replay
retry_failure id now table =
    let (row, table', messages) = replay id now table in (retry_status row, table', messages)

-- `ORDER BY failed_at DESC, id DESC`
abbrev pub newer : DeadLetter → DeadLetter → Bool
newer a b = ltb b.failed_at a.failed_at || ((a.failed_at == b.failed_at) && ltb b.id a.id)

unfoldable pub insert_newest : DeadLetter → List DeadLetter → List DeadLetter
insert_newest row [] = row ∷ []
insert_newest row (first ∷ rows) =
    let rest = insert_newest row rows in
    if newer first row then first ∷ rest else row ∷ first ∷ rows

unfoldable pub newest_first : List DeadLetter → List DeadLetter
unfolding insert_newest
newest_first [] = []
newest_first (row ∷ rows) = insert_newest row (newest_first rows)

abbrev pub is_outstanding : DeadLetter → Bool
is_outstanding row = elim row.replayed_at [ none ↦ true | some _ ↦ false ]

unfoldable pub list_dead_letters : Bool → DeadLetters → List DeadLetter
unfolding newest_first
list_dead_letters include_replayed table =
    newest_first (keep (λ row. include_replayed || is_outstanding row) table.rows)
