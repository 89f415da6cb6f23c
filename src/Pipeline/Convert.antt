-- ===== src/Pipeline/Convert.antt =====
-- server/app/workers/convert.py. Making the output reads the world; the stage is `run_job` with it.
pub mod Laws
use image_genie.Base.{
  ◌-◌, ◌/◌, max, Option, none, some, [], ◌∷◌, arith, ltb, if◌then◌else◌, Text, codes, get, empty,
  text_eq, nat_eq,
}
use image_genie.ArtifactKeys.{
  Variant, default, textured, raw_key, default_raw_suffix, file_type_for_raw_key, converted_key,
}
use image_genie.Pipeline.{
  ArtifactStage, Blob, World, Model, Job, unsupported_format, atlas_too_large, Result, Action,
  ◌>>=◌, pure, raise, or_raise, gets, get_bytes, run_job,
}
use image_genie.Pipeline.Mesh.{
  Tools, load_mesh, export_ply, export_glb, texture_atlas_size, max_texture_dimension, parsed,
}

abbrev pub normalize_topic : Text
normalize_topic = codes "normalize-jobs"

-- `x or fallback`, for a text that may be missing or empty
abbrev or_text : Option Text → Text → Text
or_text none fallback = fallback
or_text (some []) fallback = fallback
or_text (some (c ∷ s)) fallback = c ∷ s

abbrev raw_key_of : Option Model → Option Text
raw_key_of none = none
raw_key_of (some model) = model.raw_key

-- `(model.raw_key if model else None) or raw_key(uid)`
abbrev pub source_of : Option Model → Text → Text
source_of model uid = or_text (raw_key_of model) (raw_key uid default_raw_suffix)

unfoldable pub source_key : World → Text → Text
source_key w uid = source_of (get w.models uid) uid

module _ {Mesh : Type 0} (tools : Tools Mesh) where
  -- `_export`
  unfoldable pub export : Variant → Mesh → Action Blob
  export default mesh = pure (export_ply tools mesh)
  export textured mesh =
      let (width, height) = texture_atlas_size tools mesh in
      if ltb max_texture_dimension (max width height)
      then raise atlas_too_large
      else pure (export_glb tools mesh)

  unfoldable pub make : Text → Variant → Action Blob
  unfolding ◌>>=◌
  make uid v = do
    key ← gets (λ w. source_key w uid)
    bytes ← get_bytes key
    file_type ← or_raise unsupported_format (file_type_for_raw_key key)
    mesh ← parsed (load_mesh tools bytes file_type)
    export v mesh

  unfoldable pub process : Job → Action Text
  process =
      run_job ArtifactStage.converted (codes "converted") normalize_topic converted_key make
        tools.sha256
