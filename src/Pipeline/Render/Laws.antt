-- ===== src/Pipeline/Render/Laws.antt =====
-- What the render stage guarantees.
use image_genie.Base.{
  ◌≡◌, refl, ap, inl, inr, Bool, true, false, not, ◌&&◌, none, some, List, arith, Bool-cases,
  Option-cases, length, Text, codes, text_beq, get, text_eq, nat_eq,
}
use mathlib.Core.Path.{subst}
use image_genie.ArtifactKeys.{
  Variant, default, variant_named, normalized_key, mesh_file_type, num_views,
}
use image_genie.Pipeline.{
  is_some, ArtifactStage, artifact_done, record_artifact, ◌>>=◌, Blob, World, Job, Result, ok, err,
  Failure, continue, get_bytes, pure, render_failed, variant_of, is_default, artifact_id_eq,
}
use image_genie.Pipeline.Mesh.{Tools, load_mesh, parsed, good}
use image_genie.Pipeline.Reads.{
  OnlyReads, reading, Result-cases, continue-eq_ok, or_raise-eq_ok, continue-pure-eq_ok,
  state-continue-pure, unit_ok,
}
use image_genie.Pipeline.Render.{
  all_views_present, marked_done, put_views, record_render, images_of, render, attempt, process,
}
use image_genie.Pipeline.Render.Views.{put_views-Wrote, record_render-done}

-- The renderer makes one image for each camera pose, and there are `num_views` poses.
abbrev pub OneImageAView : {Mesh : Type 0} → Tools Mesh → Type 0
OneImageAView {Mesh} tools =
    (mesh : Mesh) (own_material : Bool) (images : List Blob)
    → tools.render_views mesh own_material ≡ some images
    → length images ≡ num_views

module _ {Mesh : Type 0} (tools : Tools Mesh) where
  pub images_of_reads : (uid : Text) (v : Variant) → OnlyReads (images_of tools uid v)
  unfolding images_of
  images_of_reads uid v = search reading

  -- The images that a render works with are the renderer's.
  pub length-images_of :
      (uid : Text) (v : Variant) (w : World) (images : List Blob)
      → OneImageAView tools
      → (images_of tools uid v w).0 ≡ ok images
      → length images ≡ num_views
  unfolding images_of
  length-images_of uid v w images one h =
      let (bytes, _, h₁) = continue-eq_ok (get_bytes (normalized_key uid v) w).0 _ _ h in
      let (mesh, _, h₂) =
        continue-eq_ok (parsed (load_mesh tools bytes (mesh_file_type v)) _).0 _ _ h₁ in
      one mesh (not (is_default v)) images
        (or_raise-eq_ok render_failed (tools.render_views mesh (not (is_default v))) _ h₂)

  unfoldable pub after_images : Text → Variant → List Blob → World → Result Text × World
  after_images uid v images w =
      let (wrote, w₁) = put_views uid v 0 images w in
      continue wrote
        (λ _ w₂.
          let (recorded, w₃) = record_render uid v w₂ in
          continue recorded (λ _. pure (codes "rendered")) w₃)
        w₁

  pub render_of_ok :
      (uid : Text) (v : Variant) (w : World) (images : List Blob)
      → (images_of tools uid v w).0 ≡ ok images
      → render tools uid v w ≡ after_images uid v images w
  unfolding render after_images
  render_of_ok uid v w images h = rw (h, (images_of_reads uid v).at w) refl

  pub render_of_err :
      (uid : Text) (v : Variant) (w : World) (e : Failure)
      → (images_of tools uid v w).0 ≡ err e
      → render tools uid v w ≡ (err e, w)
  unfolding render
  render_of_err uid v w e h = rw (h, (images_of_reads uid v).at w) refl

  -- A render that returns has written every view and, for the default variant, the row.
  after_images_done :
      (uid : Text) (v : Variant) (images : List Blob) (w : World) {r : Text}
      → length images ≡ num_views
      → (after_images uid v images w).0 ≡ ok r
      → (marked_done (after_images uid v images w).1 uid v
          && all_views_present (after_images uid v images w).1 uid v)
        ≡ true
  unfolding after_images
  after_images_done uid v images w full h =
      let wrote = put_views-Wrote uid v 0 images w in
      let w₁ = (put_views uid v 0 images w).1 in
      let (a, recorded, _) =
        continue-pure-eq_ok (record_render uid v w₁).0 (codes "rendered") (record_render uid v w₁).1
          (rw wrote.finished at h) in
      let done_there =
        record_render-done uid v w₁ (unit_ok a recorded)
          (λ i low. wrote.added i (omega arith) (omega arith)) in
      rw
        (
          wrote.finished,
          state-continue-pure (record_render uid v w₁).0 (codes "rendered")
              (record_render uid v w₁).1,
        )
        done_there

  attempt_done :
      (uid : Text) (v : Variant) (w : World) {r : Text}
      → OneImageAView tools
      → (attempt tools uid v w).0 ≡ ok r
      → (marked_done (attempt tools uid v w).1 uid v
          && all_views_present (attempt tools uid v w).1 uid v)
        ≡ true
  unfolding attempt
  attempt_done uid v w one h =
      elim (Bool-cases (marked_done w uid v && all_views_present w uid v)) [
        | inl there ↦ rw there there
        | inr missing ↦ elim (Result-cases (images_of tools uid v w).0) [
          | inr (e, failed) ↦ absurd (cc (rw (missing, render_of_err uid v w e failed) at h))
          | inl (images, made) ↦
              rw (missing, render_of_ok uid v w images made)
                (after_images_done uid v images w (length-images_of uid v w images one made)
                  (rw (missing, render_of_ok uid v w images made) at h))
        ]
      ]

  attempt_again :
      (uid : Text) (v : Variant) (w : World)
      → (marked_done w uid v && all_views_present w uid v) ≡ true
      → attempt tools uid v w ≡ (ok (codes "skipped"), w)
  unfolding attempt
  attempt_again uid v w there = rw there refl

  pub complete-process :
      (job : Job) (v : Variant) (w w' : World) (r : Text)
      → OneImageAView tools
      → variant_named (variant_of job) ≡ some v
      → process tools job w ≡ (ok r, w')
      → (marked_done w' job.uid v && all_views_present w' job.uid v) ≡ true
  unfolding process
  complete-process job v w w' r one known h =
      let h' : attempt tools job.uid v w ≡ (ok r, w') = rw known at h in
      subst (λ x. (marked_done x job.uid v && all_views_present x job.uid v) ≡ true)
        (ap (λ p. p.1) h') (attempt_done job.uid v w one (ap (λ p. p.0) h'))

  pub process_of_complete :
      (job : Job) (v : Variant) (w : World)
      → variant_named (variant_of job) ≡ some v
      → (marked_done w job.uid v && all_views_present w job.uid v) ≡ true
      → process tools job w ≡ (ok (codes "skipped"), w)
  unfolding process
  process_of_complete job v w known there = rw (known, attempt_again job.uid v w there) refl

  -- A render job that succeeded and is delivered again is skipped, and changes nothing at all; after the
  -- first run every view of the model is there, under the job's variant. The renderer makes one image for each pose.
  pub process_complete :
      (job : Job) (v : Variant) (w w' : World) (r : Text)
      → OneImageAView tools
      → variant_named (variant_of job) ≡ some v
      → process tools job w ≡ (ok r, w')
      → (process tools job w' ≡ (ok (codes "skipped"), w'))
        × (all_views_present w' job.uid v ≡ true)
  process_complete job v w w' r one known h =
      let there = complete-process job v w w' r one known h in
      (process_of_complete job v w' known there, ground (arith, there))

  -- A render job that succeeds has a variant that is known.
  pub process-eq_ok :
      (job : Job) (w w' : World) (r : Text)
      → process tools job w ≡ (ok r, w')
      → (v : Variant) × (variant_named (variant_of job) ≡ some v)
  unfolding process
  process-eq_ok job w w' r h = elim (Option-cases (variant_named (variant_of job))) [
    | inl unknown ↦ absurd (cc (ap (λ p. p.0) (rw unknown at h)))
    | inr (v, known) ↦ (v, known)
  ]

  images_of_loaded :
      (uid : Text) (w : World) (bytes : Blob) (mesh : Mesh) (images : List Blob)
      → get w.blobs (normalized_key uid default) ≡ some bytes
      → load_mesh tools bytes (mesh_file_type default) ≡ good mesh
      → tools.render_views mesh false ≡ some images
      → (images_of tools uid default w).0 ≡ ok images
  unfolding images_of get_bytes ◌>>=◌
  images_of_loaded uid w bytes mesh images found loads made = rw (found, loads, made) refl

  after_images_rendered :
      (uid : Text) (images : List Blob) (w : World)
      → is_some (get w.models uid) ≡ true
      → (after_images uid default images w).0 ≡ ok (codes "rendered")
  unfolding after_images record_render record_artifact
  after_images_rendered uid images w row =
      let wrote = put_views-Wrote uid default 0 images w in
      rw (wrote.finished, wrote.models, row) refl

  marked_done-no_row :
      (uid : Text) (w : World)
      → get w.artifacts (record { model_uid = uid; stage = ArtifactStage.rendered }) ≡ none
      → marked_done w uid default ≡ false
  unfolding marked_done artifact_done
  marked_done-no_row uid w missing = rw missing refl

  -- A default job of a known model that has no row of this stage, and whose normalized mesh is there, loads and
  -- renders, is rendered.
  pub process_renders :
      (uid : Text) (w : World) (bytes : Blob) (mesh : Mesh) (images : List Blob)
      → is_some (get w.models uid) ≡ true
      → get w.artifacts (record { model_uid = uid; stage = ArtifactStage.rendered }) ≡ none
      → get w.blobs (normalized_key uid default) ≡ some bytes
      → load_mesh tools bytes (mesh_file_type default) ≡ good mesh
      → tools.render_views mesh false ≡ some images
      → (process tools (record { uid = uid; variant = none }) w).0 ≡ ok (codes "rendered")
  unfolding process attempt variant_named text_beq
  process_renders uid w bytes mesh images row missing found loads made =
      rw
        (
          marked_done-no_row uid w missing,
          render_of_ok uid default w images
              (images_of_loaded uid w bytes mesh images found loads made),
        )
        (after_images_rendered uid images w row)
