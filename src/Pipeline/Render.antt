-- ===== src/Pipeline/Render.antt =====
-- server/app/workers/render.py: the last stage of the pipeline.
pub mod Views
pub mod Laws
use image_genie.Base.{
  ℕ, suc, ◌-◌, ◌/◌, Bool, true, not, ◌&&◌, none, List, [], ◌∷◌, arith, if◌then◌else◌, Text, codes,
}
use image_genie.ArtifactKeys.{
  Variant, default, textured, variant_named, normalized_key, mesh_file_type, renders_prefix,
  view_key, view_keys, num_views,
}
use image_genie.Pipeline.{
  ArtifactStage, Blob, World, Job, Action, Result, ok, unknown_variant, render_failed, ◌>>=◌, ◌>>◌,
  pure, or_raise, get_bytes, put_bytes, exists, artifact_done, record_artifact, variant_of,
  is_default,
}
use image_genie.Pipeline.Mesh.{Tools, load_mesh, parsed}

abbrev pub all_exist : World → List Text → Bool
all_exist w [] = true
all_exist w (key ∷ keys) = exists w key && all_exist w keys

-- `_all_views_present`
unfoldable pub all_views_present : World → Text → Variant → Bool
all_views_present w uid v = all_exist w (view_keys uid v)

-- The default variant's row and last view; another variant owns no row.
unfoldable pub marked_done : World → Text → Variant → Bool
marked_done w uid default =
    artifact_done w uid ArtifactStage.rendered (view_key uid (num_views - 1) default)
marked_done w uid textured = true

-- `for view_index, png_bytes in enumerate(images)`, from `view_index` on
unfoldable pub put_views : Text → Variant → ℕ → List Blob → Action (Unit {0})
unfolding ◌>>=◌
put_views uid v view_index [] = pure tt
put_views uid v view_index (png_bytes ∷ images) = do
  put_bytes (view_key uid view_index v) png_bytes
  put_views uid v (suc view_index) images

unfoldable pub record_render : Text → Variant → Action (Unit {0})
record_render uid default =
    record_artifact uid ArtifactStage.rendered (renders_prefix uid default) none
record_render uid textured = pure tt

module _ {Mesh : Type 0} (tools : Tools Mesh) where
  unfoldable pub images_of : Text → Variant → Action (List Blob)
  unfolding ◌>>=◌
  images_of uid v = do
    bytes ← get_bytes (normalized_key uid v)
    mesh ← parsed (load_mesh tools bytes (mesh_file_type v))
    or_raise render_failed (tools.render_views mesh (not (is_default v)))

  unfoldable pub render : Text → Variant → Action Text
  unfolding ◌>>=◌
  render uid v = do
    images ← images_of uid v
    put_views uid v 0 images
    record_render uid v
    pure (codes "rendered")

  unfoldable pub attempt : Text → Variant → Action Text
  attempt uid v w =
      let work = render uid v w in
      if marked_done w uid v && all_views_present w uid v then (ok (codes "skipped"), w) else work

  unfoldable pub process : Job → Action Text
  unfolding ◌>>=◌
  process job = do v ← or_raise unknown_variant (variant_named (variant_of job)); attempt job.uid v
