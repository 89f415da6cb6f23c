-- ===== src/Pipeline/Normalize.antt =====
-- server/app/workers/normalize.py. The stage is `run_job` with the normalization as its output.
pub mod Laws
use image_genie.Base.{◌-◌, ◌/◌, arith, if◌then◌else◌, Text, codes}
use image_genie.ArtifactKeys.{
  Variant, default, textured, converted_key, normalized_key, mesh_file_type,
}
use image_genie.Pipeline.{ArtifactStage, Blob, Job, Action, ◌>>=◌, pure, get_bytes, run_job}
use image_genie.Pipeline.Mesh.{Tools, load_mesh, export_ply, export_glb, normalize_mesh, parsed}

abbrev pub render_topic : Text
render_topic = codes "render-jobs"

module _ {Mesh : Type 0} (tools : Tools Mesh) where
  abbrev export : Variant → Mesh → Blob
  export default = export_ply tools
  export textured = export_glb tools

  unfoldable pub make : Text → Variant → Action Blob
  unfolding ◌>>=◌
  make uid v = do
    bytes ← get_bytes (converted_key uid v)
    loaded ← parsed (load_mesh tools bytes (mesh_file_type v))
    mesh ← parsed (normalize_mesh tools loaded)
    pure (export v mesh)

  unfoldable pub process : Job → Action Text
  process =
      run_job ArtifactStage.normalized (codes "normalized") render_topic normalized_key make
        tools.sha256
