-- ===== src/Seeding/Examples.antt =====
-- Three jobs in batches of two, and the theorem at a concrete input.
use image_genie.Base.{
  ◌≡◌, refl, none, some, List, [], ◌∷◌, ◌++◌, arith, Text, codes, text_beq, empty,
}
use image_genie.Pipeline.{World, Job}
use image_genie.Seeding.{CsvFile, uids, publish_paced, read_uids, add_files, add_rows}
use image_genie.Seeding.Laws.{messages_of, publish_paced-all}

abbrev job : Text → Job
job uid = record { uid = uid; variant = some (codes "textured") }

abbrev jobs : List Job
jobs = job (codes "a") ∷ job (codes "b") ∷ job (codes "c") ∷ []

abbrev w : World
w = record { models = empty; artifacts = empty; blobs = empty; published = [] }

publish_paced-all_example :
    ((publish_paced (codes "convert-jobs") jobs 2 w).0.0 ≡ 3)
    × ((publish_paced (codes "convert-jobs") jobs 2 w).1
        ≡ record w { published = [] ++ messages_of (codes "convert-jobs") jobs })
publish_paced-all_example = publish_paced-all (codes "convert-jobs") jobs 2 w (omega arith)

abbrev files : List CsvFile
files = uids (codes "a" ∷ codes "b" ∷ []) ∷ uids (codes "b" ∷ codes "c" ∷ []) ∷ []

all_read : read_uids files none ≡ some (codes "a" ∷ codes "b" ∷ codes "c" ∷ [])
unfolding read_uids add_files add_rows text_beq
all_read = refl
