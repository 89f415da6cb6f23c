-- ===== src/Seeding.antt =====
-- The paced publisher of server/app/queue.py and the seeding of one variant (server/app/seed_variant.py).
pub mod Laws
mod Examples
use image_genie.Base.{
  ℕ, zero, suc, ◌+◌, ◌-◌, ◌/◌, Bool, false, not, ◌||◌, Option, none, some, List, [], ◌∷◌, ◌++◌,
  arith, ltb, if◌then◌else◌, ◌==◌, length, take, drop, count, Text, empty, text_eq, nat_eq,
}
use image_genie.Pipeline.{World, Message, Job, job_payload}
use image_genie.Pipeline.Download.{convert_topic}

-- `publish_json` of each payload of a batch
unfoldable pub publish_batch : Text → List Job → World → World
publish_batch topic [] w = w
publish_batch topic (job ∷ jobs) w =
    publish_batch topic jobs
      (record w { published = w.published ++ record { topic = topic; job = job } ∷ [] })

-- The loop over the batches, with the payloads that are left, the number published so far and the number of all:
-- the number published, the pauses made, and the world. A batch is not empty, so the payloads are fuel enough.
unfoldable pub publish_batches : ℕ → Text → ℕ → ℕ → ℕ → List Job → World → (ℕ × ℕ) × World
unfolding publish_batch
publish_batches zero topic batch_size published total payloads w = ((published, 0), w)
publish_batches (suc fuel) topic batch_size published total [] w = ((published, 0), w)
publish_batches (suc fuel) topic batch_size published total (job ∷ jobs) w =
    let batch = take batch_size (job ∷ jobs) in
    let published' = published + length batch in
    let ((count, pauses), w') =
      publish_batches fuel topic batch_size published' total (drop batch_size (job ∷ jobs))
        (publish_batch topic batch w) in
    ((count, if ltb published' total then suc pauses else pauses), w')

unfoldable pub publish_paced : Text → List Job → ℕ → World → (ℕ × ℕ) × World
unfolding publish_batches
publish_paced topic payloads batch_size w =
    publish_batches (length payloads) topic batch_size 0 (length payloads) payloads w

-- A CSV file that is not there, that has no `uid` column, or the column.
pub data CsvFile : Type 0 where
  missing without_uid : CsvFile
  uids : List Text → CsvFile

abbrev pub seen : Text → List Text → Bool
seen uid [] = false
seen uid (other ∷ rest) = (other == uid) || seen uid rest

-- The loop over the rows, with the uids so far, in the order in which they were first seen.
unfoldable pub add_rows : List Text → List Text → List Text
add_rows so_far [] = so_far
add_rows so_far (uid ∷ rows) =
    let next = if seen uid so_far then so_far else so_far ++ uid ∷ [] in add_rows next rows

-- The loop over the files; a file that cannot be read ends the program.
unfoldable pub add_files : List Text → List CsvFile → Option (List Text)
unfolding add_rows
add_files so_far [] = some so_far
add_files so_far (missing ∷ files) = none
add_files so_far (without_uid ∷ files) = none
add_files so_far (uids rows ∷ files) = add_files (add_rows so_far rows) files

abbrev pub capped : Option ℕ → List Text → List Text
capped none all = all
capped (some limit) all = take limit all

abbrev cap : Option ℕ → Option (List Text) → Option (List Text)
cap limit none = none
cap limit (some all) = some (capped limit all)

unfoldable pub read_uids : List CsvFile → Option ℕ → Option (List Text)
unfolding add_files
read_uids files limit = cap limit (add_files [] files)
