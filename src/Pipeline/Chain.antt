-- ===== src/Pipeline/Chain.antt =====
-- A model through the four stages: each stage's job is the one that the stage before it publishes.
mod Examples
use image_genie.Base.{
  ◌+◌, ◌-◌, ◌≡◌, refl, ap, ◌∙◌, ◌≢◌, true, false, none, some, List, ◌++◌, arith, if◌then◌else◌,
  Text, codes, text_beq, ends_with, ends_with-append, get, text_eq, nat_eq,
}
use mathlib.Core.Path.{subst}
use mathlib.Core.List.{append_assoc}
use image_genie.ArtifactKeys.{
  default, raw_prefix, raw_key, default_raw_suffix, converted_key, normalized_key, mesh_file_type,
  file_type_for_raw_key, file_type_among, num_views, variant_named, view_key,
}
use image_genie.Pipeline.{
  ArtifactStage, ArtifactId, Blob, World, Message, Job, Result, ok, continue, is_some, already_done,
  artifact_done, job_payload, Action, pure, ◌>>=◌, ◌>>◌, artifact_id_eq, get_bytes, put_bytes,
  record_artifact, run_job, variant_of,
}
use image_genie.Pipeline.Mesh.{Tools, Parsed, good, parsed, load_mesh, export_ply, normalize_mesh}
use image_genie.Pipeline.Stage.Runs.{Spares}
use image_genie.Pipeline.Download as Download
use image_genie.Pipeline.Convert as Convert
use image_genie.Pipeline.Normalize as Normalize
use image_genie.Pipeline.Render as Render
use image_genie.Pipeline.Render.{all_views_present, marked_done}
use image_genie.Pipeline.Render.Views.{put_views-Wrote}
use image_genie.Pipeline.Download.Laws.{Downloaded, process_downloads}
use image_genie.Pipeline.Convert.Laws.{process_converts, process-Spares}
use image_genie.Pipeline.Normalize.Laws.{process_normalizes, normalize-Spares}
use image_genie.Pipeline.Render.Laws.{OneImageAView, process_renders, process_complete}

-- What the external tools do for one model: the mesh is fetched and loads, and what is exported loads again.
pub record Works {Mesh : Type 0} (tools : Tools Mesh) (uid : Text) : Type 0 where
  pub fetched_bytes : Blob
  pub fetched_mesh : Mesh
  pub converted_mesh : Mesh
  pub normalized_mesh : Mesh
  pub final_mesh : Mesh
  pub images : List Blob
  pub fetches : (Download.fetch_mesh tools uid).0 ≡ some fetched_bytes
  pub loads : load_mesh tools fetched_bytes (codes "glb") ≡ good fetched_mesh
  pub reloads :
      load_mesh tools (export_ply tools fetched_mesh) (mesh_file_type default) ≡ good converted_mesh
  pub scales : normalize_mesh tools converted_mesh ≡ good normalized_mesh
  pub loads_last :
      load_mesh tools (export_ply tools normalized_mesh) (mesh_file_type default) ≡ good final_mesh
  pub renders : tools.render_views final_mesh false ≡ some images

module _ {Mesh : Type 0} (tools : Tools Mesh) where
  abbrev pub default_job : Text → Job
  default_job uid = record { uid = uid; variant = none }

  -- One delivery to each stage, each after the one before it has returned.
  unfoldable pub through_stages : Text → Action Text
  unfolding ◌>>=◌
  through_stages uid = do
    Download.process tools (default_job uid)
    Convert.process tools (default_job uid)
    Normalize.process tools (default_job uid)
    Render.process tools (default_job uid)

  file_type-raw_key :
      (uid : Text) → file_type_for_raw_key (raw_key uid default_raw_suffix) ≡ some (codes "glb")
  unfolding file_type_for_raw_key file_type_among
  file_type-raw_key uid =
      let glb : ends_with (raw_key uid default_raw_suffix) (codes ".glb") ≡ true =
        unfold raw_key in
        subst (λ key. ends_with key (codes ".glb") ≡ true)
          (append_assoc raw_prefix uid (codes ".glb"))
          (ends_with-append (raw_prefix ++ uid) (codes ".glb")) in
      rw glb refl

  already_done-no_row :
      (w : World) (uid key : Text) (stage : ArtifactStage)
      → get w.artifacts (record { model_uid = uid; stage = stage }) ≡ none
      → already_done w default uid stage key ≡ false
  unfolding already_done artifact_done
  already_done-no_row w uid key stage h = rw h refl

  known_variant : (uid : Text) → variant_named (variant_of (default_job uid)) ≡ some default
  unfolding variant_named text_beq
  known_variant uid = refl

  -- The world after each of the first three stages.
  abbrev after_download : Text → World → World
  after_download uid w = (Download.process tools (default_job uid) w).1

  abbrev after_convert : Text → World → World
  after_convert uid w = (Convert.process tools (default_job uid) (after_download uid w)).1

  abbrev after_normalize : Text → World → World
  after_normalize uid w = (Normalize.process tools (default_job uid) (after_convert uid w)).1

  module _ (uid : Text) (works : Works tools uid) (w : World)
      (fresh : Download.already_downloaded w uid ≡ false)
      (no_rows : (stage : ArtifactStage)
        → get w.artifacts (record { model_uid = uid; stage = stage }) ≡ none) where
    downloaded_lem :
        ((Download.process tools (default_job uid) w).0 ≡ ok (codes "downloaded"))
        × Downloaded tools uid works.fetched_bytes w (after_download uid w)
    downloaded_lem =
        process_downloads tools (default_job uid) w works.fetched_bytes fresh works.fetches

    converted_lem :
        ((Convert.process tools (default_job uid) (after_download uid w)).0
          ≡ ok (codes "converted"))
        × (get (after_convert uid w).blobs (converted_key uid default)
            ≡ some (export_ply tools works.fetched_mesh))
        × (is_some (get (after_convert uid w).models uid) ≡ true)
        × ((stage : ArtifactStage)
            → stage ≢ ArtifactStage.converted
            → get (after_convert uid w).artifacts (record { model_uid = uid; stage = stage })
              ≡ none)
    unfolding Convert.source_key raw_key
    converted_lem =
        let w₁ = after_download uid w in
        let d = downloaded_lem.1 in
        let row : is_some (get w₁.models uid) ≡ true = rw d.row refl in
        let made =
          process_converts tools uid w₁ works.fetched_bytes (codes "glb") works.fetched_mesh row
            (already_done-no_row w₁ uid (converted_key uid default) ArtifactStage.converted
              (rw d.artifacts (no_rows ArtifactStage.converted)))
            (rw d.row d.blob) (rw d.row (file_type-raw_key uid)) works.loads in
        let spares = process-Spares tools (default_job uid) default w₁ (known_variant uid) in
        (
          made.0,
          made.1,
          rw spares.models row,
          λ stage other.
              spares.artifacts _ (λ same. other (ap (λ (i : ArtifactId). i.stage) same))
              ∙ rw d.artifacts (no_rows stage),
        )

    normalized_lem :
        ((Normalize.process tools (default_job uid) (after_convert uid w)).0
          ≡ ok (codes "normalized"))
        × (get (after_normalize uid w).blobs (normalized_key uid default)
            ≡ some (export_ply tools works.normalized_mesh))
        × (is_some (get (after_normalize uid w).models uid) ≡ true)
        × (get
              (after_normalize uid w).artifacts
              (record { model_uid = uid; stage = ArtifactStage.rendered })
            ≡ none)
    normalized_lem =
        let w₂ = after_convert uid w in
        let (_, blob, row, rows) = converted_lem in
        let made =
          process_normalizes tools uid w₂ (export_ply tools works.fetched_mesh) works.converted_mesh
            works.normalized_mesh row
            (already_done-no_row w₂ uid (normalized_key uid default) ArtifactStage.normalized
              (rows ArtifactStage.normalized (λ e. cc e)))
            blob works.reloads works.scales in
        let spares = normalize-Spares tools (default_job uid) default w₂ (known_variant uid) in
        (
          made.0,
          made.1,
          rw spares.models row,
          spares.artifacts _ (λ same. cc (ap (λ (i : ArtifactId). i.stage) same))
              ∙ rows ArtifactStage.rendered (λ e. cc e),
        )

  -- A model that has no raw mesh on record and no artifact rows, and whose mesh the external tools can fetch,
  -- load, scale and render, is rendered by one delivery to each stage: all its views are in the bucket, and
  -- another render job is skipped. The renderer makes one image for each pose.
  pub through_stages-completes :
      (uid : Text) (w : World)
      → Works tools uid
      → OneImageAView tools
      → Download.already_downloaded w uid ≡ false
      → ((stage : ArtifactStage)
          → get w.artifacts (record { model_uid = uid; stage = stage }) ≡ none)
      → ((through_stages uid w).0 ≡ ok (codes "rendered"))
        × (all_views_present (through_stages uid w).1 uid default ≡ true)
        × (Render.process tools (default_job uid) (through_stages uid w).1
            ≡ (ok (codes "skipped"), (through_stages uid w).1))
  unfolding through_stages ◌>>=◌
  through_stages-completes uid w works one fresh no_rows =
      let (got, _) = downloaded_lem uid works w fresh no_rows in
      let (converts, _, _, _) = converted_lem uid works w fresh no_rows in
      let (normalizes, blob, row, missing) = normalized_lem uid works w fresh no_rows in
      let w₃ = after_normalize uid w in
      let rendered =
        process_renders tools uid w₃ (export_ply tools works.normalized_mesh) works.final_mesh
          works.images row missing blob works.loads_last works.renders in
      let (again, views) =
        process_complete tools (default_job uid) default w₃
          (Render.process tools (default_job uid) w₃).1 (codes "rendered") one (known_variant uid)
          (ap (λ r. (r, (Render.process tools (default_job uid) w₃).1)) rendered) in
      rw (got, converts, normalizes) (rendered, views, again)
