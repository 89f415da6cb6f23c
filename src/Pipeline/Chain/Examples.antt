-- ===== src/Pipeline/Chain/Examples.antt =====
-- One model through the four stages with the tools of the pipeline's tests.
use image_genie.Base.{◌≡◌, refl, true, false, none, [], ◌∷◌, codes, get, get-empty, text_eq, nat_eq}
use image_genie.ArtifactKeys.{default}
use image_genie.Pipeline.{ArtifactStage, ok, artifact_id_eq}
use image_genie.Pipeline.Mesh.{load_mesh, export_ply, normalize_mesh}
use image_genie.Pipeline.Download as Download
use image_genie.Pipeline.Render as Render
use image_genie.Pipeline.Examples.{tools, chair, start, one_image, twelve}
use image_genie.Pipeline.Chain.{Works, default_job, through_stages, through_stages-completes}

abbrev tools_work : Works tools chair
unfolding load_mesh export_ply normalize_mesh Download.fetch_mesh Download.fetch_from
tools_work = record {
  fetched_bytes = 7 ∷ [];
  fetched_mesh = 7;
  converted_mesh = 7;
  normalized_mesh = 7;
  final_mesh = 7;
  images = twelve;
  fetches = refl;
  loads = refl;
  reloads = refl;
  scales = refl;
  loads_last = refl;
  renders = refl;
}

nothing_downloaded : Download.already_downloaded start chair ≡ false
unfolding Download.already_downloaded get
nothing_downloaded = refl

no_rows :
    (stage : ArtifactStage)
    → get start.artifacts (record { model_uid = chair; stage = stage }) ≡ none
no_rows stage = get-empty _

through_stages-completes_example :
    ((through_stages tools chair start).0 ≡ ok (codes "rendered"))
    × (Render.all_views_present (through_stages tools chair start).1 chair default ≡ true)
    × (Render.process tools (default_job tools chair) (through_stages tools chair start).1
        ≡ (ok (codes "skipped"), (through_stages tools chair start).1))
through_stages-completes_example =
    through_stages-completes tools chair start tools_work one_image nothing_downloaded no_rows
