-- ===== src/Pipeline/Examples.antt =====
-- The stages on a small library of meshes, and their theorems at concrete inputs. A mesh is its number of faces.
use image_genie.Base.{
  ℕ, ◌*◌, ◌≡◌, refl, sym, true, Option, none, some, List, [], ◌∷◌, arith, nat_beq, if◌then◌else◌,
  Text, codes, text_beq, ends_with, get, put, empty, text_eq, nat_eq,
}
use image_genie.ArtifactKeys.{
  default, variant_named, file_type_for_raw_key, converted_key, normalized_key,
}
use image_genie.Pipeline.{
  DownloadStatus, Blob, World, Model, Job, ok, get_bytes, put_bytes, exists, artifact_done,
  record_artifact, artifact_id_beq, publish_next, already_done, store_output, produce, attempt,
  run_job, ◌>>=◌,
}
use image_genie.Pipeline.Mesh.{
  Tools, Loaded, mesh, other, load_mesh, export_ply, texture_atlas_size, normalize_mesh,
}
use image_genie.Pipeline.Convert
use image_genie.Pipeline.Normalize
use image_genie.Pipeline.Render
use image_genie.Pipeline.Render.Laws.{OneImageAView, process_complete}
use image_genie.Pipeline.Download
use image_genie.Pipeline.Download.Laws.{AllFail}

abbrev pub loads_first : Blob → Option (Loaded ℕ)
loads_first [] = some other
loads_first (n ∷ _) = some (mesh n)

abbrev pub third_time : ℕ → Option Blob
third_time n = if nat_beq n 3 then some (7 ∷ []) else none

abbrev pub twelve : List Blob
twelve = [] ∷ [] ∷ [] ∷ [] ∷ [] ∷ [] ∷ [] ∷ [] ∷ [] ∷ [] ∷ [] ∷ [] ∷ []

-- A scene graph of one mesh, a texture of `n * 1000` pixels a side, and a source that answers the third time.
abbrev pub tools : Tools ℕ
tools = record {
  trimesh_load = λ bytes _. loads_first bytes;
  concatenate = λ _. 1;
  face_count = λ n. n;
  export_as = λ _ n. n ∷ [];
  base_colour_size = λ n. some (n * 1000, 10);
  recentre = λ n. n;
  largest_extent = λ n. n;
  divide_scale = λ _ n. n;
  render_views = λ _ _. some twelve;
  sha256 = λ bytes. bytes;
  fetch_attempt = λ _ n. third_time n;
}

abbrev offline : Tools ℕ
offline = record tools { fetch_attempt = λ _ _. none }

abbrev pub chair : Text
chair = codes "c0"

abbrev job : Job
job = record { uid = chair; variant = none }

abbrev textured_job : Job
textured_job = record { uid = chair; variant = some (codes "textured") }

abbrev pub start : World
start = record { models = empty; artifacts = empty; blobs = empty; published = [] }

abbrev row : Model
row = record {
  title = none;
  tags = none;
  deleted_at = none;
  download_status = DownloadStatus.downloaded;
  content_hash = none;
  raw_key = some (codes "raw/c0.glb");
}

-- The world after a download of `n`.
abbrev holding : ℕ → World
holding n = record start {
  models = record { entries = (chair, row) ∷ [] };
  blobs = record { entries = (codes "raw/c0.glb", n ∷ []) ∷ [] };
}

abbrev after_convert : World
after_convert = (Convert.process tools job (holding 7)).1

converts : Convert.process tools job (holding 7) ≡ (ok (codes "converted"), after_convert)
unfolding Convert.process Convert.make Convert.source_key Convert.export Normalize.process
    Normalize.make Render.process Render.attempt Render.render Render.images_of Render.put_views
    Render.record_render Render.marked_done Render.all_views_present run_job produce attempt
    already_done artifact_done exists get_bytes put_bytes record_artifact store_output load_mesh
    texture_atlas_size normalize_mesh get put variant_named text_beq file_type_for_raw_key
    converted_key publish_next ◌>>=◌ ends_with artifact_id_beq export_ply
converts = refl

abbrev after_normalize : World
after_normalize = (Normalize.process tools job after_convert).1

normalizes : Normalize.process tools job after_convert ≡ (ok (codes "normalized"), after_normalize)
unfolding Convert.process Convert.make Convert.source_key Convert.export Normalize.process
    Normalize.make Render.process Render.attempt Render.render Render.images_of Render.put_views
    Render.record_render Render.marked_done Render.all_views_present run_job produce attempt
    already_done artifact_done exists get_bytes put_bytes record_artifact store_output load_mesh
    texture_atlas_size normalize_mesh get put variant_named text_beq file_type_for_raw_key
    converted_key publish_next ◌>>=◌ ends_with artifact_id_beq export_ply
normalizes = refl

pub one_image : OneImageAView tools
one_image m own_material images h = let same : twelve ≡ images = cc in rw (sym same) refl

renders :
    Render.process tools job after_normalize
    ≡ (ok (codes "rendered"), (Render.process tools job after_normalize).1)
unfolding Convert.process Convert.make Convert.source_key Convert.export Normalize.process
    Normalize.make Render.process Render.attempt Render.render Render.images_of Render.put_views
    Render.record_render Render.marked_done Render.all_views_present run_job produce attempt
    already_done artifact_done exists get_bytes put_bytes record_artifact store_output load_mesh
    texture_atlas_size normalize_mesh get put variant_named text_beq file_type_for_raw_key
    converted_key publish_next ◌>>=◌ ends_with artifact_id_beq export_ply normalized_key
renders = refl

process_complete_example :
    (Render.process tools job (Render.process tools job after_normalize).1
      ≡ (ok (codes "skipped"), (Render.process tools job after_normalize).1))
    × (Render.all_views_present (Render.process tools job after_normalize).1 chair default ≡ true)
unfolding variant_named text_beq
process_complete_example =
    process_complete tools job default after_normalize (Render.process tools job after_normalize).1
      (codes "rendered") one_image refl renders

two_fail : AllFail tools chair 1 2
two_fail i low high = ground arith

downloads :
    Download.process tools job start
    ≡ (ok (codes "downloaded"), (Download.process tools job start).1)
unfolding Download.process Download.download Download.fetch_mesh Download.fetch_from
    Download.already_downloaded Download.upsert_model exists put_bytes get put text_beq publish_next
    ◌>>=◌
downloads = refl
