-- ===== src/Pipeline/Convert/Laws.antt =====
-- What the convert stage guarantees.
use image_genie.Base.{
  ◌<◌, max, ◌≡◌, refl, true, false, none, some, [], ◌∷◌, ◌++◌, arith, lt→ltb, Text, codes, text_beq,
  get, text_eq, nat_eq,
}
use image_genie.ArtifactKeys.{
  Variant, default, textured, variant_named, file_type_for_raw_key, converted_key,
}
use image_genie.Pipeline.{
  ArtifactStage, World, job_payload, atlas_too_large, Blob, Job, ok, err, already_done, variant_of,
  get_bytes, is_some, exists,
}
use image_genie.Pipeline.Mesh.{
  Tools, good, load_mesh, export_ply, texture_atlas_size, max_texture_dimension,
}
use image_genie.Pipeline.Reads.{OnlyReads, reading}
use image_genie.Pipeline.Stage.Runs.{
  Spares, already_done-run_job, run_job_there, run_job-Spares, run_job_makes, run_job_fails,
}
use image_genie.Pipeline.Convert.{normalize_topic, source_key, export, make, process}

module _ {Mesh : Type 0} (tools : Tools Mesh) where
  export_reads : (v : Variant) (m : Mesh) → OnlyReads (export tools v m)
  unfolding export
  export_reads default m = record { at = λ w. refl }
  export_reads textured m = record { at = λ w. ground arith }

  pub make_reads : (uid : Text) (v : Variant) → OnlyReads (make tools uid v)
  unfolding make
  make_reads uid v = search (reading, export_reads)

  pub already_done-convert :
      (job : Job) (w w' : World) (r : Text)
      → process tools job w ≡ (ok r, w')
      → (v : Variant) × (variant_named (variant_of job) ≡ some v)
        × (already_done w' v job.uid ArtifactStage.converted (converted_key job.uid v) ≡ true)
  unfolding process
  already_done-convert =
      already_done-run_job ArtifactStage.converted (codes "converted") normalize_topic converted_key
        (make tools) tools.sha256 make_reads

  -- A convert job whose output is there is skipped: tables and bucket stay as they are, and the model is handed
  -- to the next stage under its variant.
  pub convert_there :
      (job : Job) (v : Variant) (w : World)
      → variant_named (variant_of job) ≡ some v
      → already_done w v job.uid ArtifactStage.converted (converted_key job.uid v) ≡ true
      → process tools job w ≡ (
        ok (codes "skipped"),
        record w {
          published =
              w.published
              ++ record { topic = normalize_topic; job = job_payload job.uid (variant_of job) }
                ∷ [];
        },
      )
  unfolding process
  convert_there =
      run_job_there ArtifactStage.converted (codes "converted") normalize_topic converted_key
        (make tools) tools.sha256 make_reads

  -- Whatever becomes of a convert job, it changes no model row, no blob but its output, no artifact row but
  -- its own, no row at all under the textured variant; and a job that fails hands nothing on.
  pub process-Spares :
      (job : Job) (v : Variant) (w : World)
      → variant_named (variant_of job) ≡ some v
      → Spares
          (record { model_uid = job.uid; stage = ArtifactStage.converted })
          (converted_key job.uid v)
          v
          w
          (process tools job w)
  unfolding process
  process-Spares =
      run_job-Spares ArtifactStage.converted (codes "converted") normalize_topic converted_key
        (make tools) tools.sha256 make_reads

  make_default :
      (uid : Text) (w : World) (bytes : Blob) (file_type : Text) (mesh : Mesh)
      → get w.blobs (source_key w uid) ≡ some bytes
      → file_type_for_raw_key (source_key w uid) ≡ some file_type
      → load_mesh tools bytes file_type ≡ good mesh
      → (make tools uid default w).0 ≡ ok (export_ply tools mesh)
  unfolding make export get_bytes
  make_default uid w bytes file_type mesh found typed loaded = rw (found, typed, loaded) refl

  -- A default job of a known model whose source blob is there in a supported format and loads: unless its
  -- output is there already, it is converted to PLY, stored and handed on.
  pub process_converts :
      (uid : Text) (w : World) (bytes : Blob) (file_type : Text) (mesh : Mesh)
      → is_some (get w.models uid) ≡ true
      → already_done w default uid ArtifactStage.converted (converted_key uid default) ≡ false
      → get w.blobs (source_key w uid) ≡ some bytes
      → file_type_for_raw_key (source_key w uid) ≡ some file_type
      → load_mesh tools bytes file_type ≡ good mesh
      → ((process tools (record { uid = uid; variant = none }) w).0 ≡ ok (codes "converted"))
        × (get
              (process tools (record { uid = uid; variant = none }) w).1.blobs
              (converted_key uid default)
            ≡ some (export_ply tools mesh))
        × ((process tools (record { uid = uid; variant = none }) w).1.published
            ≡ w.published
              ++ record { topic = normalize_topic; job = job_payload uid (codes "default") } ∷ [])
  unfolding process variant_named text_beq
  process_converts uid w bytes file_type mesh row missing found typed loaded =
      run_job_makes ArtifactStage.converted (codes "converted") normalize_topic converted_key
        (make tools) tools.sha256 make_reads (record { uid = uid; variant = none }) default w
        (export_ply tools mesh) refl missing
        (make_default uid w bytes file_type mesh found typed loaded) row

  make_oversized :
      (uid : Text) (w : World) (bytes : Blob) (file_type : Text) (mesh : Mesh)
      → get w.blobs (source_key w uid) ≡ some bytes
      → file_type_for_raw_key (source_key w uid) ≡ some file_type
      → load_mesh tools bytes file_type ≡ good mesh
      → max_texture_dimension
        < max (texture_atlas_size tools mesh).0 (texture_atlas_size tools mesh).1
      → (make tools uid textured w).0 ≡ err atlas_too_large
  unfolding make export get_bytes
  make_oversized uid w bytes file_type mesh found typed loaded large =
      rw (found, typed, loaded, lt→ltb _ _ large) refl

  -- A textured job whose packed atlas is over the limit fails, and changes nothing.
  pub process_oversized :
      (uid : Text) (w : World) (bytes : Blob) (file_type : Text) (mesh : Mesh)
      → get w.blobs (converted_key uid textured) ≡ none
      → get w.blobs (source_key w uid) ≡ some bytes
      → file_type_for_raw_key (source_key w uid) ≡ some file_type
      → load_mesh tools bytes file_type ≡ good mesh
      → max_texture_dimension
        < max (texture_atlas_size tools mesh).0 (texture_atlas_size tools mesh).1
      → process tools (record { uid = uid; variant = some (codes "textured") }) w
        ≡ (err atlas_too_large, w)
  unfolding process variant_named text_beq already_done exists
  process_oversized uid w bytes file_type mesh missing found typed loaded large =
      run_job_fails ArtifactStage.converted (codes "converted") normalize_topic converted_key
        (make tools) tools.sha256 make_reads
        (record { uid = uid; variant = some (codes "textured") }) textured w atlas_too_large refl
        (rw missing refl) (make_oversized uid w bytes file_type mesh found typed loaded large)
