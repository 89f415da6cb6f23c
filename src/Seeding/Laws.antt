-- ===== src/Seeding/Laws.antt =====
-- Every payload is published once, in order, and a seeding names every model once.
use image_genie.Base.{
  ℕ, zero, suc, ◌+◌, ◌≤◌, min, ◌≡◌, refl, sym, ap, ◌∙◌, inl, inr, true, false, none, some, List, [],
  ◌∷◌, ◌++◌, arith, Bool-cases, Option-cases, ◌==◌, length, take, drop, count, take-append-drop,
  length-take, length-drop, Text, text_beq_iff, text_eq, nat_eq,
}
use image_genie.Pipeline.{World, Message, Job}
use image_genie.Seeding.{
  CsvFile, missing, without_uid, uids, publish_batch, publish_batches, publish_paced, seen,
  add_rows, add_files, read_uids,
}

abbrev pub messages_of : Text → List Job → List Message
messages_of topic [] = []
messages_of topic (job ∷ jobs) = record { topic = topic; job = job } ∷ messages_of topic jobs

append_assoc : (xs ys zs : List Message) → (xs ++ ys) ++ zs ≡ xs ++ (ys ++ zs)
append_assoc [] ys zs = refl
append_assoc (x ∷ xs) ys zs = ap (λ l. x ∷ l) (append_assoc xs ys zs)

append_nil : (xs : List Message) → xs ++ [] ≡ xs
append_nil [] = refl
append_nil (x ∷ xs) = ap (λ l. x ∷ l) (append_nil xs)

messages_of-append :
    (topic : Text) (js ks : List Job)
    → messages_of topic (js ++ ks) ≡ messages_of topic js ++ messages_of topic ks
messages_of-append topic [] ks = refl
messages_of-append topic (j ∷ js) ks =
    ap (λ l. record { topic = topic; job = j } ∷ l) (messages_of-append topic js ks)

published-publish_batch :
    (topic : Text) (jobs : List Job) (w : World)
    → publish_batch topic jobs w ≡ record w { published = w.published ++ messages_of topic jobs }
unfolding publish_batch
published-publish_batch topic [] w = rw (append_nil w.published) refl
published-publish_batch topic (job ∷ jobs) w =
    let one : Message = record { topic = topic; job = job } in
    published-publish_batch topic jobs (record w { published = w.published ++ one ∷ [] })
    ∙ rw (append_assoc w.published (one ∷ []) (messages_of topic jobs)) refl

publish_batches-all :
    (fuel : ℕ) (topic : Text) (batch_size published total : ℕ) (payloads : List Job) (w : World)
    → length payloads ≤ fuel
    → 1 ≤ batch_size
    → ((publish_batches fuel topic batch_size published total payloads w).0.0
        ≡ published + length payloads)
      × ((publish_batches fuel topic batch_size published total payloads w).1
          ≡ record w { published = w.published ++ messages_of topic payloads })
unfolding publish_batches
publish_batches-all zero topic b published total [] w enough positive =
    (omega arith, rw (append_nil w.published) refl)
publish_batches-all zero topic b published total (j ∷ js) w enough positive = absurd (omega arith)
publish_batches-all (suc fuel) topic b published total [] w enough positive =
    (omega arith, rw (append_nil w.published) refl)
publish_batches-all (suc fuel) topic b published total (j ∷ js) w enough positive =
    let batch = take b (j ∷ js) in
    let left = drop b (j ∷ js) in
    let (count, after) =
      publish_batches-all fuel topic b (published + length batch) total left
        (publish_batch topic batch w) (omega (arith, length-drop b (j ∷ js))) positive in
    let both : messages_of topic batch ++ messages_of topic left ≡ messages_of topic (j ∷ js) =
      sym (messages_of-append topic batch left)
      ∙ ap (messages_of topic) (take-append-drop b (j ∷ js)) in
    (
      count ∙ omega (arith, length-drop b (j ∷ js), length-take b (j ∷ js)),
      after
          ∙ rw
              (
                published-publish_batch topic batch w,
                append_assoc w.published (messages_of topic batch) (messages_of topic left),
                both,
              )
              refl,
    )

-- With batches of one payload at least, every payload is published once, in order, on the topic, nothing else changes, and
-- the number returned is the number of the payloads.
pub publish_paced-all :
    (topic : Text) (payloads : List Job) (batch_size : ℕ) (w : World)
    → 1 ≤ batch_size
    → ((publish_paced topic payloads batch_size w).0.0 ≡ length payloads)
      × ((publish_paced topic payloads batch_size w).1
          ≡ record w { published = w.published ++ messages_of topic payloads })
unfolding publish_paced
publish_paced-all topic payloads batch_size w positive =
    let (count, after) =
      publish_batches-all (length payloads) topic batch_size 0 (length payloads) payloads w
        (omega arith) positive in
    (count ∙ omega arith, after)

-- How often a uid stands in a list.
abbrev pub times : Text → List Text → ℕ
times uid = count (λ other. other == uid)

times-append : (uid : Text) (us vs : List Text) → times uid (us ++ vs) ≡ times uid us + times uid vs
times-append uid [] vs = omega arith
times-append uid (u ∷ us) vs = ground (arith, times-append uid us vs)

times-take : (uid : Text) (n : ℕ) (us : List Text) → times uid (take n us) ≤ times uid us
times-take uid zero us = omega arith
times-take uid (suc n) [] = omega arith
times-take uid (suc n) (u ∷ us) = ground (arith, times-take uid n us)

times_unseen : (uid : Text) (us : List Text) → seen uid us ≡ false → times uid us ≡ 0
times_unseen uid [] h = refl
times_unseen uid (u ∷ us) h = ground (arith, times_unseen uid us)

times-seen : (uid : Text) (us : List Text) → seen uid us ≡ true → 1 ≤ times uid us
times-seen uid [] h = absurd (cc h)
times-seen uid (u ∷ us) h = ground (arith, times-seen uid us)

-- Adding rows keeps every uid at one, and counts it if it is there before or among the rows.
times-add_rows :
    (uid : Text) (so_far rows : List Text)
    → times uid so_far ≤ 1
    → times uid (add_rows so_far rows) ≡ min 1 (times uid so_far + times uid rows)
unfolding add_rows
times-add_rows uid so_far [] once = omega arith
times-add_rows uid so_far (row ∷ rows) once = elim (Bool-cases (seen row so_far)) [
  | inl old ↦ rw old (
      times-add_rows uid so_far rows once ∙ elim (Bool-cases (row == uid)) [
        | inl same ↦
            let e : row ≡ uid = (text_beq_iff row uid).0 same in
            let there : 1 ≤ times uid so_far = times-seen uid so_far (rw e at old) in
            rw same (omega (arith, there))
        | inr other ↦ rw other refl
      ])
  | inr new ↦ rw new (elim (Bool-cases (row == uid)) [
    | inl same ↦
        let e : row ≡ uid = (text_beq_iff row uid).0 same in
        let none_yet : times uid so_far ≡ 0 = times_unseen uid so_far (rw e at new) in
        let now_one : times uid (so_far ++ row ∷ []) ≡ 1 =
          times-append uid so_far (row ∷ []) ∙ rw (same, none_yet) refl in
        times-add_rows uid (so_far ++ row ∷ []) rows (omega (arith, now_one))
        ∙ rw (same, now_one, none_yet) (omega arith)
    | inr other ↦
        let as_before : times uid (so_far ++ row ∷ []) ≡ times uid so_far =
          times-append uid so_far (row ∷ []) ∙ rw other (omega arith) in
        times-add_rows uid (so_far ++ row ∷ []) rows (omega (arith, as_before))
        ∙ rw (other, as_before) refl
  ])
]

-- The rows of the files that can be read.
abbrev pub rows_of : List CsvFile → List Text
rows_of [] = []
rows_of (missing ∷ files) = rows_of files
rows_of (without_uid ∷ files) = rows_of files
rows_of (uids rows ∷ files) = rows ++ rows_of files

times-add_files :
    (uid : Text) (so_far all : List Text) (files : List CsvFile)
    → times uid so_far ≤ 1
    → add_files so_far files ≡ some all
    → times uid all ≡ min 1 (times uid so_far + times uid (rows_of files))
unfolding add_files
times-add_files uid so_far all [] once h =
    let same : so_far ≡ all = cc h in rw (← same) (omega arith)
times-add_files uid so_far all (missing ∷ files) once h = absurd (cc h)
times-add_files uid so_far all (without_uid ∷ files) once h = absurd (cc h)
times-add_files uid so_far all (uids rows ∷ files) once h =
    let step = times-add_rows uid so_far rows once in
    times-add_files uid (add_rows so_far rows) all files (omega (arith, step)) h
    ∙ rw step (omega (arith, times-append uid rows (rows_of files)))

-- If every file can be read, the uids without a limit name each uid of a row once, and no other; with a limit each at
-- most once.
pub times-read_uids :
    (uid : Text) (files : List CsvFile) (limit : ℕ) (all : List Text)
    → read_uids files none ≡ some all
    → (times uid all ≡ min 1 (times uid (rows_of files)))
      × (read_uids files (some limit) ≡ some (take limit all))
      × (times uid (take limit all) ≤ 1)
unfolding read_uids
times-read_uids uid files limit all h = elim (Option-cases (add_files [] files)) [
  | inl unread ↦ absurd (cc (rw unread at h))
  | inr (found, read) ↦
      let same : found ≡ all = cc (rw read at h) in
      let exact = times-add_files uid [] all files (omega arith) (read ∙ ap some same) in
      (exact ∙ omega arith, rw (read, same) refl, omega (arith, exact, times-take uid limit all))
]
