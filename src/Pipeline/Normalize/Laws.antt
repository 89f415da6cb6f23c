-- ===== src/Pipeline/Normalize/Laws.antt =====
-- What the normalize stage guarantees.
use image_genie.Base.{
  ◌≡◌, refl, true, false, none, some, [], ◌∷◌, ◌++◌, Text, codes, text_beq, get, text_eq, nat_eq,
}
use image_genie.ArtifactKeys.{
  Variant, default, variant_named, converted_key, normalized_key, mesh_file_type,
}
use image_genie.Pipeline.{
  ArtifactStage, World, Blob, Job, ok, already_done, variant_of, get_bytes, job_payload, is_some,
  pure,
}
use image_genie.Pipeline.Mesh.{Tools, good, load_mesh, export_ply, normalize_mesh}
use image_genie.Pipeline.Reads.{OnlyReads, reading}
use image_genie.Pipeline.Stage.Runs.{
  Spares, already_done-run_job, run_job_there, run_job-Spares, run_job_makes,
}
use image_genie.Pipeline.Normalize.{render_topic, make, process}

module _ {Mesh : Type 0} (tools : Tools Mesh) where
  OnlyReads-pure : (b : Blob) → OnlyReads (pure b)
  OnlyReads-pure b = record { at = λ w. refl }

  pub make_reads : (uid : Text) (v : Variant) → OnlyReads (make tools uid v)
  unfolding make
  make_reads uid v = search (reading, OnlyReads-pure)

  pub already_done-normalize :
      (job : Job) (w w' : World) (r : Text)
      → process tools job w ≡ (ok r, w')
      → (v : Variant) × (variant_named (variant_of job) ≡ some v)
        × (already_done w' v job.uid ArtifactStage.normalized (normalized_key job.uid v) ≡ true)
  unfolding process
  already_done-normalize =
      already_done-run_job ArtifactStage.normalized (codes "normalized") render_topic normalized_key
        (make tools) tools.sha256 make_reads

  -- A normalize job whose output is there is skipped: tables and bucket stay as they are, and the model is handed
  -- to the next stage under its variant.
  pub normalize_there :
      (job : Job) (v : Variant) (w : World)
      → variant_named (variant_of job) ≡ some v
      → already_done w v job.uid ArtifactStage.normalized (normalized_key job.uid v) ≡ true
      → process tools job w ≡ (
        ok (codes "skipped"),
        record w {
          published =
              w.published
              ++ record { topic = render_topic; job = job_payload job.uid (variant_of job) } ∷ [];
        },
      )
  unfolding process
  normalize_there =
      run_job_there ArtifactStage.normalized (codes "normalized") render_topic normalized_key
        (make tools) tools.sha256 make_reads

  -- Whatever becomes of a normalize job, it changes no model row, no blob but its output, no artifact row but
  -- its own, no row at all under the textured variant; and a job that fails hands nothing on.
  pub normalize-Spares :
      (job : Job) (v : Variant) (w : World)
      → variant_named (variant_of job) ≡ some v
      → Spares
          (record { model_uid = job.uid; stage = ArtifactStage.normalized })
          (normalized_key job.uid v)
          v
          w
          (process tools job w)
  unfolding process
  normalize-Spares =
      run_job-Spares ArtifactStage.normalized (codes "normalized") render_topic normalized_key
        (make tools) tools.sha256 make_reads

  make_default :
      (uid : Text) (w : World) (bytes : Blob) (loaded mesh : Mesh)
      → get w.blobs (converted_key uid default) ≡ some bytes
      → load_mesh tools bytes (mesh_file_type default) ≡ good loaded
      → normalize_mesh tools loaded ≡ good mesh
      → (make tools uid default w).0 ≡ ok (export_ply tools mesh)
  unfolding make get_bytes
  make_default uid w bytes loaded mesh found loads scaled = rw (found, loads, scaled) refl

  -- A default job of a known model whose converted blob is there, loads as PLY and has an extent: unless its
  -- output is there already, it is normalized, stored as PLY and handed on.
  pub process_normalizes :
      (uid : Text) (w : World) (bytes : Blob) (loaded mesh : Mesh)
      → is_some (get w.models uid) ≡ true
      → already_done w default uid ArtifactStage.normalized (normalized_key uid default) ≡ false
      → get w.blobs (converted_key uid default) ≡ some bytes
      → load_mesh tools bytes (mesh_file_type default) ≡ good loaded
      → normalize_mesh tools loaded ≡ good mesh
      → ((process tools (record { uid = uid; variant = none }) w).0 ≡ ok (codes "normalized"))
        × (get
              (process tools (record { uid = uid; variant = none }) w).1.blobs
              (normalized_key uid default)
            ≡ some (export_ply tools mesh))
        × ((process tools (record { uid = uid; variant = none }) w).1.published
            ≡ w.published
              ++ record { topic = render_topic; job = job_payload uid (codes "default") } ∷ [])
  unfolding process variant_named text_beq
  process_normalizes uid w bytes loaded mesh row missing found loads scaled =
      run_job_makes ArtifactStage.normalized (codes "normalized") render_topic normalized_key
        (make tools) tools.sha256 make_reads (record { uid = uid; variant = none }) default w
        (export_ply tools mesh) refl missing
        (make_default uid w bytes loaded mesh found loads scaled) row
