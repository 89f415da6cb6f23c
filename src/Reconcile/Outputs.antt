-- ===== src/Reconcile/Outputs.antt =====
-- What the artifact upserts leave, row by row.
use image_genie.Base.{
  ◌≡◌, refl, ap, ◌∙◌, inl, inr, true, ◌&&◌, Option, some, List, [], ◌∷◌, arith, if◌then◌else◌,
  Bool-cases, ◌==◌, beq_refl, All, Text, Dict, get, put, get-put, if-same, sort_by, All-sort_by,
  any_key, text_eq, nat_eq,
}
use image_genie.Pipeline.{
  World, Artifact, ArtifactStage, ArtifactId, done, ok, is_some, stage_beq, ◌>>=◌, artifact_id_eq,
  artifact_id_beq, artifact_id_beq_iff,
}
use image_genie.Reconcile.{
  kept_hash, upsert_artifact, upsert_artifacts, pair_leb, for_each, insert_batch_size,
}
use image_genie.Reconcile.Batches.{for_each-batched}
use image_genie.Reconcile.Rows.{any_key-sort_by}

abbrev pub written_row : Text → Option Artifact → Artifact
written_row key old = record { key = key; content_hash = kept_hash old; status = done }

-- The artifact table after the upserts of some uids.
unfoldable pub written_artifacts :
    ArtifactStage → List (Text × Text) → Dict ArtifactId Artifact → Dict ArtifactId Artifact
written_artifacts stage [] rows = rows
written_artifacts stage (pair ∷ pairs) rows =
    let id : ArtifactId = record { model_uid = pair.0; stage = stage } in
    written_artifacts stage pairs (put rows id (written_row pair.1 (get rows id)))

for_each-upsert_artifact :
    (stage : ArtifactStage) (pairs : List (Text × Text)) (w : World)
    → All (λ (pair : Text × Text). is_some (get w.models pair.0) ≡ true) pairs
    → for_each (upsert_artifact stage) pairs w
      ≡ (ok tt, record w { artifacts = written_artifacts stage pairs w.artifacts })
unfolding for_each upsert_artifact written_artifacts ◌>>=◌
for_each-upsert_artifact stage [] w h = refl
for_each-upsert_artifact stage (pair ∷ pairs) w (h, hs) =
    rw h (for_each-upsert_artifact stage pairs _ hs)

-- With a row for each uid, the foreign key holds and no statement raises.
pub upsert_artifacts_lem :
    (stage : ArtifactStage) (pairs : List (Text × Text)) (w : World)
    → All (λ (pair : Text × Text). is_some (get w.models pair.0) ≡ true) pairs
    → upsert_artifacts stage pairs w ≡ (
      ok tt,
      record w { artifacts = written_artifacts stage (sort_by pair_leb pairs) w.artifacts },
    )
unfolding upsert_artifacts
upsert_artifacts_lem stage pairs w h =
    for_each-batched (upsert_artifact stage) insert_batch_size (sort_by pair_leb pairs) w
      (omega arith)
    ∙ for_each-upsert_artifact stage (sort_by pair_leb pairs) w (
        All-sort_by pair_leb (λ (pair : Text × Text). is_some (get w.models pair.0) ≡ true) pairs h)

get-written_artifacts :
    (stage : ArtifactStage) (key_of : Text → Text) (pairs : List (Text × Text))
    (rows : Dict ArtifactId Artifact) (i : ArtifactId)
    → All (λ (pair : Text × Text). pair.1 ≡ key_of pair.0) pairs
    → get (written_artifacts stage pairs rows) i ≡ (
        if stage_beq stage i.stage && any_key i.model_uid pairs
        then some (written_row (key_of i.model_uid) (get rows i))
        else get rows i)
unfolding written_artifacts
get-written_artifacts stage key_of [] rows i h = ground arith
get-written_artifacts stage key_of (pair ∷ pairs) rows i (h, hs) =
    let id : ArtifactId = record { model_uid = pair.0; stage = stage } in
    let rows' = put rows id (written_row pair.1 (get rows id)) in
    let step = get-written_artifacts stage key_of pairs rows' i hs in
    let write = get-put rows id i (written_row pair.1 (get rows id)) in
    elim (Bool-cases (id == i)) [
      | inl same ↦
          let id_is : id ≡ i = (artifact_id_beq_iff id i).0 same in
          let row_is : written_row pair.1 (get rows id)
              ≡ written_row (key_of i.model_uid) (get rows i) =
            rw (h, ← id_is) refl in
          let here : get rows' i ≡ some (written_row (key_of i.model_uid) (get rows i)) =
            write ∙ rw same (ap (λ r. some r) row_is) in
          let stages : stage_beq stage i.stage ≡ true =
            unfold artifact_id_beq in ground (arith, same) in
          let uids : (pair.0 == i.model_uid) ≡ true =
            unfold artifact_id_beq in ground (arith, same) in
          step ∙ rw (here, stages, uids) (if-same (any_key i.model_uid pairs) _)
      | inr differs ↦
          let there : get rows' i ≡ get rows i = write ∙ rw differs refl in
          let apart : (stage_beq stage i.stage && any_key i.model_uid pairs)
              ≡ (stage_beq stage i.stage && any_key i.model_uid (pair ∷ pairs)) =
            unfold artifact_id_beq in ground (arith, differs) in
          step ∙ rw (there, apart) refl
    ]

pub get-sorted_artifacts :
    (stage : ArtifactStage) (key_of : Text → Text) (pairs : List (Text × Text))
    (rows : Dict ArtifactId Artifact) (i : ArtifactId)
    → All (λ (pair : Text × Text). pair.1 ≡ key_of pair.0) pairs
    → get (written_artifacts stage (sort_by pair_leb pairs) rows) i ≡ (
        if stage_beq stage i.stage && any_key i.model_uid pairs
        then some (written_row (key_of i.model_uid) (get rows i))
        else get rows i)
get-sorted_artifacts stage key_of pairs rows i h =
    get-written_artifacts stage key_of (sort_by pair_leb pairs) rows i
      (All-sort_by pair_leb (λ (pair : Text × Text). pair.1 ≡ key_of pair.0) pairs h)
    ∙ rw (any_key-sort_by i.model_uid pairs) refl

-- What holds of each uid that stands in some pairs holds along them.
pub All-any_key :
    (P : Text → Type 0) (pairs : List (Text × Text))
    → ((uid : Text) → any_key uid pairs ≡ true → P uid)
    → All (λ (pair : Text × Text). P pair.0) pairs
All-any_key P [] h = tt
All-any_key P (pair ∷ pairs) h = (
  h pair.0 (rw (beq_refl pair.0) refl),
  All-any_key P pairs (λ uid there. h uid (ground (arith, there))),
)
