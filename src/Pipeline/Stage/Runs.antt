-- ===== src/Pipeline/Stage/Runs.antt =====
-- What a job of the convert and normalize stages guarantees, for any way to make an output that only reads.
use image_genie.Base.{
  ◌≡◌, refl, sym, ap, ◌≢◌, inl, inr, true, false, none, some, List, [], ◌∷◌, ◌++◌, Option-cases,
  Text, codes, get, text_eq, nat_eq,
}
use image_genie.ArtifactKeys.{Variant, default, textured, variant_named}
use image_genie.Pipeline.{
  ArtifactStage, ArtifactId, Blob, World, Message, Job, Result, ok, err, Action, exists,
  already_done, store_output, attempt, run_job, publish_next, variant_of, job_payload, is_some,
  unknown_variant, Failure, pure, continue, artifact_id_eq,
}
use image_genie.Pipeline.Reads.{OnlyReads}
use image_genie.Pipeline.Stage.{
  Touches, attempt_done, attempt-Touches, attempt_again, artifacts-attempt, store_output_ok,
  produce_of_ok, produce_of_err,
}

-- What a job leaves alone, whatever becomes of it: the models, every other blob and every other row,
-- all rows if it is not the default variant, and the queue if it fails.
pub record Spares (id : ArtifactId) (key : Text) (v : Variant) (w : World)
    (after : Result Text × World) : Type 0 where
  pub models : after.1.models ≡ w.models
  pub blobs : (k : Text) → k ≢ key → get after.1.blobs k ≡ get w.blobs k
  pub artifacts : (i : ArtifactId) → i ≢ id → get after.1.artifacts i ≡ get w.artifacts i
  pub rows : v ≡ textured → after.1.artifacts ≡ w.artifacts
  pub queue : (e : Failure) → after.0 ≡ err e → after.1.published ≡ w.published

module _ (stage : ArtifactStage) (done_word : Text) (next_topic : Text)
    (key_of : Text → Variant → Text) (make : Text → Variant → Action Blob) (digest : Blob → Text)
    (reads : (uid : Text) (v : Variant) → OnlyReads (make uid v)) where
  abbrev the_id : Text → ArtifactId
  the_id uid = record { model_uid = uid; stage = stage }

  abbrev tried : Text → Variant → World → Result Text × World
  tried = attempt stage done_word next_topic key_of make digest

  abbrev stored : Text → Variant → Blob → World → Result (Unit {0}) × World
  stored uid v bytes w = store_output v uid stage (key_of uid v) bytes (digest bytes) w

  abbrev ran : Job → World → Result Text × World
  ran = run_job stage done_word next_topic key_of make digest

  -- The message by which the stage hands the job on.
  abbrev pub handoff : Job → Message
  handoff job = record { topic = next_topic; job = job_payload job.uid (variant_of job) }

  hand_on :
      (job : Job) (res : Result Text) (w₁ w' : World) (r : Text)
      → continue res
          (λ result w₂.
            continue
              (publish_next next_topic job.uid (variant_of job) w₂).0
              (λ _. pure result)
              (publish_next next_topic job.uid (variant_of job) w₂).1)
          w₁
        ≡ (ok r, w')
      → (res ≡ ok r) × (w' ≡ record w₁ { published = w₁.published ++ handoff job ∷ [] })
  unfolding publish_next
  hand_on job (ok a) w₁ w' r h = (cc (ap (λ p. p.0) h), sym (ap (λ p. p.1) h))
  hand_on job (err e) w₁ w' r h = absurd (cc (ap (λ p. p.0) h))

  -- A successful run is an attempt under a known variant, and a message.
  run_job-eq_ok :
      (job : Job) (w w' : World) (r : Text)
      → ran job w ≡ (ok r, w')
      → (v : Variant) × (variant_named (variant_of job) ≡ some v)
        × ((tried job.uid v w).0 ≡ ok r)
        × (w' ≡ record (tried job.uid v w).1 {
          published = (tried job.uid v w).1.published ++ handoff job ∷ [];
        })
  unfolding run_job publish_next
  run_job-eq_ok job w w' r h = elim (Option-cases (variant_named (variant_of job))) [
    | inl unknown ↦ absurd (cc (ap (λ p. p.0) (rw unknown at h)))
    | inr (v, known) ↦
        let (finished, left) =
          hand_on job (tried job.uid v w).0 (tried job.uid v w).1 w' r (rw known at h) in
        (v, known, finished, left)
  ]

  -- Publishing changes nothing that the skip test reads.
  already_done-publish :
      (w : World) (v : Variant) (uid key : Text) (ms : List Message)
      → already_done (record w { published = ms }) v uid stage key ≡ already_done w v uid stage key
  unfolding already_done exists
  already_done-publish w default uid key ms = refl
  already_done-publish w textured uid key ms = refl

  pub already_done-run_job :
      (job : Job) (w w' : World) (r : Text)
      → ran job w ≡ (ok r, w')
      → (v : Variant) × (variant_named (variant_of job) ≡ some v)
        × (already_done w' v job.uid stage (key_of job.uid v) ≡ true)
  already_done-run_job job w w' r h =
      let (v, known, finished, left) = run_job-eq_ok job w w' r h in
      let there : already_done w' v job.uid stage (key_of job.uid v) ≡ true = rw left (
        rw already_done-publish (
          attempt_done stage done_word next_topic key_of make digest reads job.uid v w finished)) in
      (v, known, there)

  -- A job whose output is there is skipped: the tables and the bucket stay as they are, and the message goes
  -- to the next stage.
  pub run_job_there :
      (job : Job) (v : Variant) (w : World)
      → variant_named (variant_of job) ≡ some v
      → already_done w v job.uid stage (key_of job.uid v) ≡ true
      → ran job w ≡ (ok (codes "skipped"), record w { published = w.published ++ handoff job ∷ [] })
  unfolding run_job publish_next
  run_job_there job v w known there =
      rw
        (known, attempt_again stage done_word next_topic key_of make digest reads job.uid v w there)
        refl

  -- Handing on writes to the queue alone, and only after a success.
  Spares-hand_on :
      (job : Job) (id : ArtifactId) (key : Text) (v : Variant) (w : World) (res : Result Text)
      (w₁ : World)
      → Touches id key w w₁
      → (v ≡ textured → w₁.artifacts ≡ w.artifacts)
      → Spares id key v w (
          continue res
            (λ result w₂.
              continue
                (publish_next next_topic job.uid (variant_of job) w₂).0
                (λ _. pure result)
                (publish_next next_topic job.uid (variant_of job) w₂).1)
            w₁)
  unfolding publish_next
  Spares-hand_on job id key v w (ok a) w₁ t rows = record {
    models = t.models;
    blobs = t.blobs;
    artifacts = t.artifacts;
    rows = rows;
    queue = λ e h. absurd (cc h);
  }
  Spares-hand_on job id key v w (err e) w₁ t rows = record {
    models = t.models;
    blobs = t.blobs;
    artifacts = t.artifacts;
    rows = rows;
    queue = λ _ _. t.published;
  }

  pub run_job-Spares :
      (job : Job) (v : Variant) (w : World)
      → variant_named (variant_of job) ≡ some v
      → Spares (the_id job.uid) (key_of job.uid v) v w (ran job w)
  unfolding run_job
  run_job-Spares job v w known = rw known (
      Spares-hand_on job (the_id job.uid) (key_of job.uid v) v w (tried job.uid v w).0
        (tried job.uid v w).1
        (attempt-Touches stage done_word next_topic key_of make digest reads job.uid v w)
        (artifacts-attempt stage done_word next_topic key_of make digest reads job.uid v w))

  -- An unknown variant is refused before anything is read.
  pub run_job_unknown :
      (job : Job) (w : World)
      → variant_named (variant_of job) ≡ none
      → ran job w ≡ (err unknown_variant, w)
  unfolding run_job
  run_job_unknown job w unknown = rw unknown refl

  -- A job whose output is missing and can be made succeeds: the output is stored and handed on.
  pub run_job_makes :
      (job : Job) (v : Variant) (w : World) (bytes : Blob)
      → variant_named (variant_of job) ≡ some v
      → already_done w v job.uid stage (key_of job.uid v) ≡ false
      → (make job.uid v w).0 ≡ ok bytes
      → is_some (get w.models job.uid) ≡ true
      → ((ran job w).0 ≡ ok done_word)
        × (get (ran job w).1.blobs (key_of job.uid v) ≡ some bytes)
        × ((ran job w).1.published ≡ w.published ++ handoff job ∷ [])
  unfolding run_job attempt publish_next
  run_job_makes job v w bytes known missing made row =
      let (finished, blob, queue) =
        store_output_ok stage done_word next_topic key_of make digest reads job.uid v bytes w row in
      rw
        (
          known,
          missing,
          produce_of_ok stage done_word next_topic key_of make digest reads job.uid v w bytes made,
          finished,
        )
        (refl, blob, ap (λ q. q ++ handoff job ∷ []) queue)

  -- A job whose output is missing and cannot be made fails with that error, and changes nothing.
  pub run_job_fails :
      (job : Job) (v : Variant) (w : World) (e : Failure)
      → variant_named (variant_of job) ≡ some v
      → already_done w v job.uid stage (key_of job.uid v) ≡ false
      → (make job.uid v w).0 ≡ err e
      → ran job w ≡ (err e, w)
  unfolding run_job attempt
  run_job_fails job v w e known missing failed =
      rw
        (
          known,
          missing,
          produce_of_err stage done_word next_topic key_of make digest reads job.uid v w e failed,
        )
        refl
