-- ===== src/Reconcile/Examples.antt =====
-- Runs of the reconciliation on a small bucket.
use image_genie.Base.{
  ℕ, zero, suc, ◌≤◌, ◌≡◌, refl, ◌∙◌, true, false, none, some, List, [], ◌∷◌, ◌++◌, arith, length,
  All, Text, codes, text_beq, starts_with, ends_with, contains, Dict, get, put, text_eq, nat_eq,
}
use image_genie.ArtifactKeys.{
  converted_key, normalized_key, default, uid_from_key, uid_among, one_segment, slice_between,
  render_uid, partition_slash, view_key, renders_prefix,
}
use image_genie.ArtifactKeys.Decimal.{pad2, decimal}
use image_genie.ArtifactKeys.RoundTrip.{IsUid}
use image_genie.Pipeline.{
  World, Model, Artifact, ArtifactStatus, DownloadStatus, converted, normalized, ArtifactId, done,
  Blob, exists, artifact_done, ok, artifact_id_eq, artifact_id_beq,
}
use image_genie.Reconcile.{
  batched, uid_to_key_under, list_keys, file_keys, member, complete_render_uids, tally, uids_with,
  union, keys_of, minus,
}
use image_genie.Reconcile.Run.{reconcile, scan, all_uids, raw_uids, counts_of}
use image_genie.Reconcile.Index.{get-reconciled}
use image_genie.Reconcile.Batches.{concat, batched_lem}
use image_genie.Reconcile.Restored.{artifact_done-reconcile, reconcile-keeps, reconcile-IsTrue}

abbrev a_row : Artifact
a_row = record {
  key = codes "old";
  content_hash = some (codes "h");
  status = ArtifactStatus.failed;
}

abbrev a_model : Model
a_model = record {
  title = some (codes "chair");
  tags = none;
  deleted_at = none;
  download_status = DownloadStatus.failed;
  content_hash = some (codes "m");
  raw_key = none;
}

abbrev a_converted : ArtifactId
a_converted = record { model_uid = codes "a"; stage = converted }

abbrev b_converted : ArtifactId
b_converted = record { model_uid = codes "b"; stage = converted }

abbrev bucket : Dict Text Blob
bucket = record {
  entries =
      (codes "raw/a.stl", [])
      ∷ (codes "raw/notes.txt", [])
      ∷ (codes "processed/converted/a.ply", 1 ∷ [])
      ∷ (codes "processed/converted/b.ply", 2 ∷ [])
      ∷ (codes "processed/renders/a/view_00.png", 3 ∷ [])
      ∷ [];
}

abbrev w₀ : World
w₀ = record {
  models = record { entries = (codes "a", a_model) ∷ [] };
  artifacts = record { entries = (a_converted, a_row) ∷ [] };
  blobs = bucket;
  published = [];
}

abbrev IsUid-a : IsUid (codes "a")
unfolding contains
IsUid-a = record { filled = refl; segment = refl }

artifact_done-reconcile_example :
    (artifact_done (reconcile false w₀).1 (codes "a") converted (converted_key (codes "a") default)
      ≡ exists w₀ (converted_key (codes "a") default))
    × (artifact_done
          (reconcile false w₀).1
          (codes "a")
          normalized
          (normalized_key (codes "a") default)
        ≡ exists w₀ (normalized_key (codes "a") default))
artifact_done-reconcile_example = artifact_done-reconcile w₀ (codes "a") IsUid-a

has_model : get w₀.models (codes "a") ≡ some a_model
unfolding get text_beq
has_model = refl

has_row : get w₀.artifacts a_converted ≡ some a_row
unfolding get text_beq artifact_id_beq
has_row = refl

no_row : get w₀.artifacts b_converted ≡ none
unfolding get text_beq artifact_id_beq
no_row = refl

abbrev b_row : Artifact
b_row = record { key = codes "processed/converted/b.ply"; content_hash = none; status = done }

new_row : get (reconcile false w₀).1.artifacts b_converted ≡ some b_row
unfolding get text_beq artifact_id_beq starts_with ends_with uid_from_key uid_among one_segment
    slice_between contains scan uid_to_key_under list_keys file_keys put
new_row = get-reconciled w₀ b_converted ∙ refl

reconcile-keeps_example :
    ((after : Model) × (get (reconcile false w₀).1.models (codes "a") ≡ some after)
      × (after.title ≡ some (codes "chair"))
      × (after.tags ≡ none)
      × (after.deleted_at ≡ none)
      × (after.content_hash ≡ some (codes "m")))
    × ((after : Artifact) × (get (reconcile false w₀).1.artifacts a_converted ≡ some after)
        × (after.content_hash ≡ some (codes "h")))
reconcile-keeps_example = reconcile-keeps w₀ (codes "a") a_model a_converted a_row has_model has_row

-- The counts of the run.
counted_run :
    (reconcile true w₀).0
    ≡ ok (record {
      models = 2;
      raw = 1;
      converted = 2;
      normalized = 0;
      rendered = 0;
      partial_renders_skipped = 1;
      processed_without_raw = 1;
      unrecognised_keys = 1;
    })
unfolding reconcile counts_of get put text_beq artifact_id_beq starts_with ends_with uid_from_key
    uid_among one_segment slice_between render_uid partition_slash contains scan uid_to_key_under
    list_keys file_keys complete_render_uids tally uids_with all_uids raw_uids union keys_of minus
counted_run = refl

reconcile-IsTrue_example :
    (b_row.status ≡ done)
    × ((exists w₀ (codes "processed/converted/b.ply") ≡ true)
        × (uid_from_key (codes "processed/converted/b.ply") ≡ some (codes "b")))
reconcile-IsTrue_example = reconcile-IsTrue w₀ b_converted b_row no_row new_row

abbrev three : List ℕ
three = 1 ∷ 2 ∷ 3 ∷ []

batched_lem_example :
    (concat (batched three 2) ≡ three) × All (λ batch. length batch ≤ 2) (batched three 2)
batched_lem_example = batched_lem 2 three (omega arith)

-- Twelve objects that are no views count as a complete set.
abbrev stray_key : ℕ → Text
stray_key n = codes "processed/renders/a/notes_" ++ n ∷ []

abbrev stray_objects : ℕ → List (Text × Blob)
stray_objects zero = []
stray_objects (suc n) = (stray_key n, []) ∷ stray_objects n

abbrev w_stray : World
w_stray = record w₀ { blobs = record { entries = stray_objects 12 } }

counted_strays :
    (member (codes "a") (complete_render_uids w_stray).0 ≡ true)
    × (exists w_stray (view_key (codes "a") 0 default) ≡ false)
unfolding get text_beq starts_with ends_with uid_from_key uid_among render_uid partition_slash
    contains list_keys complete_render_uids tally uids_with put exists view_key renders_prefix pad2
    decimal
counted_strays = (refl, refl)
