-- ===== src/Reconcile/Laws.antt =====
-- A run that writes: it cannot raise, and what it leaves in each row.
use image_genie.Base.{
  ◌≡◌, refl, Bool, true, false, ◌||◌, List, [], ◌∷◌, arith, if◌then◌else◌, All, Text, Dict, get,
  sort_by, text_leb, any_key, text_eq, nat_eq,
}
use image_genie.Pipeline.{
  World, Model, Artifact, ArtifactStage, converted, normalized, rendered, ArtifactId, ok, is_some,
  ◌>>=◌, artifact_id_eq,
}
use image_genie.Reconcile.{member, union, keys_of, pair_leb}
use image_genie.Reconcile.Run.{
  Scanned, scan, raw_uids, all_uids, counts_of, rendered_pairs, write_rows, transaction, reconcile,
}
use image_genie.Reconcile.Rows.{
  member-union, member-keys_of, written_models, upsert_models_lem, get-sorted_models,
}
use image_genie.Reconcile.Outputs.{written_artifacts, upsert_artifacts_lem, All-any_key}

pub any_key-rendered_pairs :
    (uid : Text) (uids : List Text) → any_key uid (rendered_pairs uids) ≡ member uid uids
unfolding rendered_pairs
any_key-rendered_pairs uid [] = refl
any_key-rendered_pairs uid (u ∷ uids) = ground (arith, any_key-rendered_pairs uid uids)

-- The pairs that a scan has for a stage.
abbrev pub pairs_for : Scanned → ArtifactStage → List (Text × Text)
pairs_for s converted = s.converted.uid_to_key.entries
pairs_for s normalized = s.normalized.uid_to_key.entries
pairs_for s rendered = rendered_pairs s.rendered_uids

member-all_uids :
    (s : Scanned) (stage : ArtifactStage) (uid : Text)
    → any_key uid (pairs_for s stage) ≡ true
    → member uid (all_uids s) ≡ true
unfolding all_uids
member-all_uids s stage uid h =
    rw
      (
        member-union uid (raw_uids s) (
            union (keys_of s.converted.uid_to_key.entries)
              (union (keys_of s.normalized.uid_to_key.entries) s.rendered_uids)),
        member-union uid (keys_of s.converted.uid_to_key.entries)
            (union (keys_of s.normalized.uid_to_key.entries) s.rendered_uids),
        member-union uid (keys_of s.normalized.uid_to_key.entries) s.rendered_uids,
        member-keys_of uid s.converted.uid_to_key.entries,
        member-keys_of uid s.normalized.uid_to_key.entries,
        ← any_key-rendered_pairs uid s.rendered_uids,
      )
      (pick stage h)
  where
    pick :
        (stage : ArtifactStage)
        → any_key uid (pairs_for s stage) ≡ true
        → (member uid (raw_uids s)
            || (any_key uid s.converted.uid_to_key.entries
                || (any_key uid s.normalized.uid_to_key.entries
                    || any_key uid (rendered_pairs s.rendered_uids))))
          ≡ true
    pick converted e = ground (arith, e)
    pick normalized e = ground (arith, e)
    pick rendered e = ground (arith, e)

abbrev pub models_after : Scanned → Dict Text Model → Dict Text Model
models_after s models = written_models s.raw.uid_to_key (sort_by text_leb (all_uids s)) models

abbrev pub rows_for : Scanned → ArtifactStage → Dict ArtifactId Artifact → Dict ArtifactId Artifact
rows_for s stage rows = written_artifacts stage (sort_by pair_leb (pairs_for s stage)) rows

abbrev pub tables_after : Scanned → World → World
tables_after s w = record w {
  models = models_after s w.models;
  artifacts = rows_for s rendered (rows_for s normalized (rows_for s converted w.artifacts));
}

has_model :
    (s : Scanned) (stage : ArtifactStage) (models : Dict Text Model)
    → All
        (λ (pair : Text × Text). is_some (get (models_after s models) pair.0) ≡ true)
        (pairs_for s stage)
has_model s stage models =
    All-any_key (λ uid. is_some (get (models_after s models) uid) ≡ true) (pairs_for s stage)
      (λ uid there.
        rw
          (
            get-sorted_models s.raw.uid_to_key (all_uids s) models uid,
            member-all_uids s stage uid there,
          )
          refl)

write_rows_lem : (s : Scanned) (w : World) → write_rows s w ≡ (ok tt, tables_after s w)
unfolding write_rows ◌>>=◌
write_rows_lem s w =
    let w₁ : World = record w { models = models_after s w.models } in
    let w₂ : World = record w₁ { artifacts = rows_for s converted w.artifacts } in
    let w₃ : World = record w₁ { artifacts = rows_for s normalized w₂.artifacts } in
    rw
      (
        upsert_models_lem s.raw.uid_to_key (all_uids s) w,
        upsert_artifacts_lem converted (pairs_for s converted) w₁ (has_model s converted w.models),
        upsert_artifacts_lem normalized (pairs_for s normalized) w₂
            (has_model s normalized w.models),
        upsert_artifacts_lem rendered (pairs_for s rendered) w₃ (has_model s rendered w.models),
      )
      refl

-- A run returns the counts of its scan, dry or not; it writes the rows of the scan unless it is dry.
pub reconcile_lem :
    (dry_run : Bool) (w : World)
    → reconcile dry_run w
      ≡ (ok (counts_of (scan w)), if dry_run then w else tables_after (scan w) w)
unfolding reconcile transaction ◌>>=◌
reconcile_lem true w = refl
reconcile_lem false w = rw (write_rows_lem (scan w) w) refl
