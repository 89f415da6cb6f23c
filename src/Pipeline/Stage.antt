-- ===== src/Pipeline/Stage.antt =====
-- What an attempt of the convert and normalize stages guarantees, for any way to make an output that only reads.
pub mod Runs
use image_genie.Base.{
  ◌-◌, ◌≡◌, refl, ◌≢◌, inl, inr, true, some, arith, if◌then◌else◌, Bool-cases, Text, codes,
  text_beq_iff, get, get-put, get-put_self, text_eq, nat_eq,
}
use image_genie.ArtifactKeys.{Variant, default, textured, variant_named}
use image_genie.Pipeline.{
  ArtifactStage, ArtifactId, Artifact, done, Blob, World, Message, Job, Result, ok, err, Action,
  exists, is_done, artifact_done, already_done, store_output, put_bytes, record_artifact, produce,
  attempt, run_job, publish_next, variant_of, job_payload, is_some, unknown_variant, Failure, pure,
  continue, get_bytes, missing_blob, gets, artifact_id_beq_iff, artifact_id_eq, ◌>>=◌, or_raise,
}
use image_genie.Pipeline.Mesh.{Parsed, good, bad, parsed}
use image_genie.Pipeline.Reads.{
  OnlyReads, Result-cases, state-continue-pure, continue-pure-eq_ok, unit_ok,
}

-- What a stage's work leaves alone: the models, the queue, every other blob and every other row.
pub record Touches (id : ArtifactId) (key : Text) (w w' : World) : Type 0 where
  pub models : w'.models ≡ w.models
  pub published : w'.published ≡ w.published
  pub blobs : (k : Text) → k ≢ key → get w'.blobs k ≡ get w.blobs k
  pub artifacts : (i : ArtifactId) → i ≢ id → get w'.artifacts i ≡ get w.artifacts i

already_done-store_output :
    (v : Variant) (uid : Text) (stage : ArtifactStage) (key : Text) (bytes : Blob) (hash : Text)
    (w : World)
    → (store_output v uid stage key bytes hash w).0 ≡ ok tt
    → already_done (store_output v uid stage key bytes hash w).1 v uid stage key ≡ true
unfolding store_output already_done exists
already_done-store_output default uid stage key bytes hash w h =
    let id : ArtifactId = record { model_uid = uid; stage = stage } in
    let row : Artifact = record { key = key; content_hash = some hash; status = done } in
    ground (arith, get-put_self w.blobs key bytes, get-put_self w.artifacts id row)
already_done-store_output textured uid stage key bytes hash w h = rw get-put_self refl

store_output-Touches :
    (v : Variant) (uid : Text) (stage : ArtifactStage) (key : Text) (bytes : Blob) (hash : Text)
    (w : World)
    → Touches
        (record { model_uid = uid; stage = stage })
        key
        w
        (store_output v uid stage key bytes hash w).1
unfolding store_output
store_output-Touches default uid stage key bytes hash w = record {
  models = ground arith;
  published = ground arith;
  blobs = λ k ne. ground (arith, get-put w.blobs key k bytes, text_beq_iff key k);
  artifacts = λ i ne.
      let id : ArtifactId = record { model_uid = uid; stage = stage } in
      let row : Artifact = record { key = key; content_hash = some hash; status = done } in
      ground (arith, get-put w.artifacts id i row, artifact_id_beq_iff id i);
}
store_output-Touches textured uid stage key bytes hash w = record {
  models = refl;
  published = refl;
  blobs = λ k ne. ground (arith, get-put w.blobs key k bytes, text_beq_iff key k);
  artifacts = λ i ne. refl;
}

-- The textured variant owns no row.
artifacts-store_output :
    (uid : Text) (stage : ArtifactStage) (key : Text) (bytes : Blob) (hash : Text) (w : World)
    → (store_output textured uid stage key bytes hash w).1.artifacts ≡ w.artifacts
unfolding store_output
artifacts-store_output uid stage key bytes hash w = refl

pub Touches-refl : (id : ArtifactId) (key : Text) (w : World) → Touches id key w w
Touches-refl id key w = record {
  models = refl;
  published = refl;
  blobs = λ k _. refl;
  artifacts = λ i _. refl;
}

module _ (stage : ArtifactStage) (done_word : Text) (next_topic : Text)
    (key_of : Text → Variant → Text) (make : Text → Variant → Action Blob) (digest : Blob → Text)
    (reads : (uid : Text) (v : Variant) → OnlyReads (make uid v)) where
  abbrev pub the_id : Text → ArtifactId
  the_id uid = record { model_uid = uid; stage = stage }

  -- Storing the output that was made.
  abbrev pub stored : Text → Variant → Blob → World → Result (Unit {0}) × World
  stored uid v bytes w = store_output v uid stage (key_of uid v) bytes (digest bytes) w

  pub produce_of_err :
      (uid : Text) (v : Variant) (w : World) (e : Failure)
      → (make uid v w).0 ≡ err e
      → produce stage done_word next_topic key_of make digest uid v w ≡ (err e, w)
  unfolding produce
  produce_of_err uid v w e h = rw (h, (reads uid v).at w) refl

  pub produce_of_ok :
      (uid : Text) (v : Variant) (w : World) (bytes : Blob)
      → (make uid v w).0 ≡ ok bytes
      → produce stage done_word next_topic key_of make digest uid v w
        ≡ continue (stored uid v bytes w).0 (λ _. pure done_word) (stored uid v bytes w).1
  unfolding produce
  produce_of_ok uid v w bytes h = rw (h, (reads uid v).at w) refl

  pub produce_done :
      (uid : Text) (v : Variant) (w : World) {r : Text}
      → (produce stage done_word next_topic key_of make digest uid v w).0 ≡ ok r
      → already_done
          (produce stage done_word next_topic key_of make digest uid v w).1
          v
          uid
          stage
          (key_of uid v)
        ≡ true
  produce_done uid v w h = elim (Result-cases (make uid v w).0) [
    | inr (e, failed) ↦ absurd (cc (rw (produce_of_err uid v w e failed) at h))
    | inl (bytes, made) ↦
        let (a, finished, _) =
          continue-pure-eq_ok (stored uid v bytes w).0 done_word (stored uid v bytes w).1
            (rw (produce_of_ok uid v w bytes made) at h) in
        rw
          (
            produce_of_ok uid v w bytes made,
            state-continue-pure (stored uid v bytes w).0 done_word (stored uid v bytes w).1,
          )
          (already_done-store_output v uid stage (key_of uid v) bytes (digest bytes) w
            (unit_ok a finished))
  ]

  pub produce-Touches :
      (uid : Text) (v : Variant) (w : World)
      → Touches
          (the_id uid)
          (key_of uid v)
          w
          (produce stage done_word next_topic key_of make digest uid v w).1
  produce-Touches uid v w = elim (Result-cases (make uid v w).0) [
    | inr (e, failed) ↦
        rw (produce_of_err uid v w e failed) (Touches-refl (the_id uid) (key_of uid v) w)
    | inl (bytes, made) ↦
        rw
          (
            produce_of_ok uid v w bytes made,
            state-continue-pure (stored uid v bytes w).0 done_word (stored uid v bytes w).1,
          )
          (store_output-Touches v uid stage (key_of uid v) bytes (digest bytes) w)
  ]

  abbrev pub tried : Text → Variant → World → Result Text × World
  tried = attempt stage done_word next_topic key_of make digest

  -- An attempt that returns leaves the output in place.
  pub attempt_done :
      (uid : Text) (v : Variant) (w : World) {r : Text}
      → (tried uid v w).0 ≡ ok r
      → already_done (tried uid v w).1 v uid stage (key_of uid v) ≡ true
  unfolding attempt
  attempt_done uid v w h = elim (Bool-cases (already_done w v uid stage (key_of uid v))) [
    | inl there ↦ rw there there
    | inr missing ↦ rw missing (produce_done uid v w (rw missing at h))
  ]

  pub attempt-Touches :
      (uid : Text) (v : Variant) (w : World)
      → Touches (the_id uid) (key_of uid v) w (tried uid v w).1
  unfolding attempt
  attempt-Touches uid v w = elim (Bool-cases (already_done w v uid stage (key_of uid v))) [
    | inl there ↦ rw there (Touches-refl (the_id uid) (key_of uid v) w)
    | inr missing ↦ rw missing (produce-Touches uid v w)
  ]

  pub attempt_again :
      (uid : Text) (v : Variant) (w : World)
      → already_done w v uid stage (key_of uid v) ≡ true
      → tried uid v w ≡ (ok (codes "skipped"), w)
  unfolding attempt
  attempt_again uid v w there = rw there refl

  pub artifacts-produce :
      (uid : Text) (w : World)
      → (produce stage done_word next_topic key_of make digest uid textured w).1.artifacts
        ≡ w.artifacts
  artifacts-produce uid w = elim (Result-cases (make uid textured w).0) [
    | inr (e, failed) ↦ rw (produce_of_err uid textured w e failed) refl
    | inl (bytes, made) ↦
        rw
          (
            produce_of_ok uid textured w bytes made,
            state-continue-pure (stored uid textured bytes w).0 done_word
                (stored uid textured bytes w).1,
          )
          (artifacts-store_output uid stage (key_of uid textured) bytes (digest bytes) w)
  ]

  pub artifacts-attempt :
      (uid : Text) (v : Variant) (w : World)
      → v ≡ textured
      → (tried uid v w).1.artifacts ≡ w.artifacts
  unfolding attempt
  artifacts-attempt uid default w e = cc
  artifacts-attempt uid textured w e =
      elim (Bool-cases (already_done w textured uid stage (key_of uid textured))) [
        | inl there ↦ rw there refl
        | inr missing ↦ rw missing (artifacts-produce uid w)
      ]

  pub store_output_ok :
      (uid : Text) (v : Variant) (bytes : Blob) (w : World)
      → is_some (get w.models uid) ≡ true
      → ((stored uid v bytes w).0 ≡ ok tt)
        × (get (stored uid v bytes w).1.blobs (key_of uid v) ≡ some bytes)
        × ((stored uid v bytes w).1.published ≡ w.published)
  unfolding store_output
  store_output_ok uid default bytes w known =
      ground (arith, get-put_self w.blobs (key_of uid default) bytes)
  store_output_ok uid textured bytes w known =
      (refl, get-put_self w.blobs (key_of uid textured) bytes, refl)
