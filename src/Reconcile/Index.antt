-- ===== src/Reconcile/Index.antt =====
-- The tables after a run, as an index over the bucket.
use image_genie.Base.{
  ◌≡◌, refl, Bool, false, not, ◌&&◌, Option, none, some, List, [], ◌∷◌, if◌then◌else◌, All, Text,
  Dict, get, any_key, text_eq, nat_eq,
}
use image_genie.ArtifactKeys.{renders_prefix, converted_prefix, normalized_prefix, default}
use image_genie.Pipeline.{
  World, Artifact, ArtifactStage, converted, normalized, rendered, ArtifactId, stage_beq,
  artifact_id_eq,
}
use image_genie.Reconcile.{member, upserted_model}
use image_genie.Reconcile.Run.{Scanned, scan, all_uids, rendered_pairs, reconcile}
use image_genie.Reconcile.Rows.{get-sorted_models}
use image_genie.Reconcile.Outputs.{written_row, get-sorted_artifacts}
use image_genie.Reconcile.Scan.{IsKeyed-uid_to_key_under}
use image_genie.Reconcile.Laws.{pairs_for, rows_for, tables_after, reconcile_lem}

abbrev pub or_empty : Option Text → Text
or_empty none = []
or_empty (some key) = key

-- The key that the scan has for a uid in a stage.
abbrev pub key_for : Scanned → ArtifactStage → Text → Text
key_for s converted uid = or_empty (get s.converted.uid_to_key uid)
key_for s normalized uid = or_empty (get s.normalized.uid_to_key uid)
key_for s rendered uid = renders_prefix uid default

keyed_pairs :
    (dict : Dict Text Text) (pairs : List (Text × Text))
    → All (λ (pair : Text × Text). get dict pair.0 ≡ some pair.1) pairs
    → All (λ (pair : Text × Text). pair.1 ≡ or_empty (get dict pair.0)) pairs
keyed_pairs dict [] h = tt
keyed_pairs dict (pair ∷ pairs) (h, hs) = (rw h refl, keyed_pairs dict pairs hs)

rendered_keys :
    (uids : List Text)
    → All (λ (pair : Text × Text). pair.1 ≡ renders_prefix pair.0 default) (rendered_pairs uids)
unfolding rendered_pairs
rendered_keys [] = tt
rendered_keys (uid ∷ uids) = (refl, rendered_keys uids)

get-rows_for :
    (w : World) (stage : ArtifactStage) (rows : Dict ArtifactId Artifact) (i : ArtifactId)
    → get (rows_for (scan w) stage rows) i ≡ (
        if stage_beq stage i.stage && any_key i.model_uid (pairs_for (scan w) stage)
        then some (written_row (key_for (scan w) stage i.model_uid) (get rows i))
        else get rows i)
unfolding scan
get-rows_for w converted rows i =
    get-sorted_artifacts converted (key_for (scan w) converted) _ rows i
      (keyed_pairs _ _ (IsKeyed-uid_to_key_under w converted_prefix).found)
get-rows_for w normalized rows i =
    get-sorted_artifacts normalized (key_for (scan w) normalized) _ rows i
      (keyed_pairs _ _ (IsKeyed-uid_to_key_under w normalized_prefix).found)
get-rows_for w rendered rows i =
    get-sorted_artifacts rendered (key_for (scan w) rendered) _ rows i
      (rendered_keys (scan w).rendered_uids)

-- The row of a stage after a run that writes.
abbrev pub row_after : World → ArtifactId → Option Artifact
row_after w i =
    if any_key i.model_uid (pairs_for (scan w) i.stage)
    then some (written_row (key_for (scan w) i.stage i.model_uid) (get w.artifacts i))
    else get w.artifacts i

get-tables_after :
    (w : World) (i : ArtifactId) → get (tables_after (scan w) w).artifacts i ≡ row_after w i
get-tables_after w i = at i.model_uid i.stage
  where
    at :
        (uid : Text) (stage : ArtifactStage)
        → get (tables_after (scan w) w).artifacts (record { model_uid = uid; stage = stage })
          ≡ row_after w (record { model_uid = uid; stage = stage })
    at uid stage =
        let id : ArtifactId = record { model_uid = uid; stage = stage } in
        let rows₁ = rows_for (scan w) converted w.artifacts in
        let rows₂ = rows_for (scan w) normalized rows₁ in
        rw
          (
            get-rows_for w rendered rows₂ id,
            get-rows_for w normalized rows₁ id,
            get-rows_for w converted w.artifacts id,
          )
          (pick stage)
      where
        pick :
            (stage : ArtifactStage)
            → (let id : ArtifactId = record { model_uid = uid; stage = stage } in
                let one =
                  if stage_beq converted stage && any_key uid (pairs_for (scan w) converted)
                  then some (written_row (key_for (scan w) converted uid) (get w.artifacts id))
                  else get w.artifacts id in
                let two =
                  if stage_beq normalized stage && any_key uid (pairs_for (scan w) normalized)
                  then some (written_row (key_for (scan w) normalized uid) one)
                  else one in
                (if stage_beq rendered stage && any_key uid (pairs_for (scan w) rendered)
                  then some (written_row (key_for (scan w) rendered uid) two)
                  else two))
              ≡ row_after w (record { model_uid = uid; stage = stage })
        pick converted = refl
        pick normalized = refl
        pick rendered = refl

-- A dry run changes neither table and no run raises: both return the counts of the scan.
pub reconcile-counts :
    (dry_run : Bool) (w : World) → (reconcile dry_run w).0 ≡ (reconcile (not dry_run) w).0
reconcile-counts dry_run w = rw (reconcile_lem dry_run w, reconcile_lem (not dry_run) w) refl

pub get-reconciled :
    (w : World) (i : ArtifactId) → get (reconcile false w).1.artifacts i ≡ row_after w i
get-reconciled w i = rw (reconcile_lem false w) (get-tables_after w i)

pub get-reconciled_model :
    (w : World) (uid : Text)
    → get (reconcile false w).1.models uid ≡ (
        if member uid (all_uids (scan w))
        then some (upserted_model (get (scan w).raw.uid_to_key uid) (get w.models uid))
        else get w.models uid)
get-reconciled_model w uid =
    rw (reconcile_lem false w)
      (get-sorted_models (scan w).raw.uid_to_key (all_uids (scan w)) w.models uid)
