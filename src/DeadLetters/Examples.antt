-- ===== src/DeadLetters/Examples.antt =====
-- A small table of failures, and the theorems at concrete inputs.
use image_genie.Base.{◌≡◌, refl, none, some, List, [], ◌∷◌, Text, codes, text_beq}
use image_genie.Pipeline.{convert, render}
use image_genie.DeadLetters.{
  DeadLetter, DeadLetters, record_failure, upsert, row_numbered, mark_replayed, replay,
  retry_failure,
}
use image_genie.DeadLetters.Table.{letter_of, latest, IsWellFormed, letter_of-record_failure}
use image_genie.DeadLetters.Replay.{retry_failure-default}
use image_genie.DeadLetters.History.{
  Operation, failed, retried, history, no_letters, IsWellFormed-no_letters, IsWellFormed-history,
}

abbrev chair : Text
chair = codes "c0"

abbrev lamp : Text
lamp = codes "l0"

abbrev events : List Operation
events =
    failed chair convert (codes "boom") (some 1) 10
    ∷ failed lamp render (codes "dark") none 20
    ∷ retried 1 30
    ∷ failed chair convert (codes "boom again") (some 2) 40
    ∷ []

abbrev table : DeadLetters
table = history events no_letters

table-IsWellFormed : IsWellFormed table
table-IsWellFormed = IsWellFormed-history events no_letters IsWellFormed-no_letters

IsWellFormed-history_example : IsWellFormed (history events no_letters)
IsWellFormed-history_example = IsWellFormed-history events no_letters IsWellFormed-no_letters

abbrev chair_row : DeadLetter
chair_row = record {
  id = 1;
  model_uid = chair;
  stage = convert;
  error = codes "boom again";
  delivery_attempt = some 2;
  failed_at = 40;
  replayed_at = none;
}

chair_row-found : row_numbered 1 table.rows ≡ some chair_row
unfolding row_numbered record_failure upsert replay mark_replayed text_beq
chair_row-found = refl

letter_of-record_failure_example :
    letter_of chair convert (record_failure chair convert (codes "third") none 50 table).rows
    ≡ some (latest chair convert (codes "third") none 50 table)
unfolding text_beq
letter_of-record_failure_example =
    letter_of-record_failure chair convert (codes "third") none 50 table chair convert

retry_failure-default_example :
    (retry_failure 1 60 (record_failure lamp convert (codes "big") none 50 no_letters)).2
    ≡ record { topic = codes "convert-jobs"; job = record { uid = lamp; variant = none } } ∷ []
unfolding record_failure upsert text_beq
retry_failure-default_example =
    retry_failure-default (record { uid = lamp; variant = some (codes "textured") }) convert
      (codes "big") none 50 60 no_letters
      (record {
        id = 1;
        model_uid = lamp;
        stage = convert;
        error = codes "big";
        delivery_attempt = none;
        failed_at = 50;
        replayed_at = none;
      })
      IsWellFormed-no_letters refl
