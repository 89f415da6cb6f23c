-- ===== src/Push/Handlers.antt =====
-- The handlers of the four stages keep every row backed by its blobs.
use image_genie.Base.{
  ℕ, ◌<◌, ◌≡◌, refl, inl, inr, true, ◌&&◌, Option, none, some, List, [], ◌∷◌, arith, Bool-cases,
  Option-cases, ◌==◌, length, Text, codes, get, get-put, get-put_self, text_eq, nat_eq,
}
use image_genie.ArtifactKeys.{
  Variant, default, textured, raw_key, default_raw_suffix, converted_key, normalized_key, view_keys,
  view_key, num_views,
}
use image_genie.Pipeline.{
  World, Model, ArtifactStage, converted, normalized, rendered, ArtifactId, PipelineStage, download,
  convert, normalize, render, DownloadStatus, Blob, Job, Action, Failure, exists, put_bytes,
  store_output, already_done, produce, attempt, run_job, publish_next, or_raise,
}
use image_genie.Pipeline.Mesh.{Tools}
use image_genie.Pipeline.Reads.{OnlyReads, OnlyReads-or_raise, Result-cases, state-continue-pure}
use image_genie.Pipeline.Convert
use image_genie.Pipeline.Convert.Laws as ConvertLaws
use image_genie.Pipeline.Normalize
use image_genie.Pipeline.Normalize.Laws as NormalizeLaws
use image_genie.Pipeline.Render
use image_genie.Pipeline.Render.Views.{put_views-Wrote, all_exist-view_keys_below}
use image_genie.Pipeline.Render.Laws.{
  OneImageAView, length-images_of, after_images, render_of_ok, render_of_err,
}
use image_genie.Pipeline.Download
use image_genie.Push.{handler}
use image_genie.Push.Backed.{
  evidence, IsBacked, all_exist-Grows, IsBacked-Grows, IsBacked-record_artifact, KeepsBacked,
  KeepsBacked-OnlyReads, Grows-put_bytes, backing,
}

KeepsBacked-or_raise : {A : Type 0} (e : Failure) (o : Option A) → KeepsBacked (or_raise e o)
KeepsBacked-or_raise e o = KeepsBacked-OnlyReads (or_raise e o) (OnlyReads-or_raise e o)

exists_put : (key : Text) (bytes : Blob) (w : World) → exists (put_bytes key bytes w).1 key ≡ true
unfolding exists put_bytes
exists_put key bytes w = rw (get-put_self w.blobs key bytes) refl

module _ (stage : ArtifactStage) (done_word next_topic : Text) (key_of : Text → Variant → Text)
    (make : Text → Variant → Action Blob) (digest : Blob → Text)
    (reads : (uid : Text) (v : Variant) → OnlyReads (make uid v))
    (own : (uid : Text)
      → evidence (record { model_uid = uid; stage = stage }) ≡ key_of uid default ∷ []) where
  store_output-backed :
      (v : Variant) (uid : Text) (bytes : Blob) (hash : Text)
      → KeepsBacked (store_output v uid stage (key_of uid v) bytes hash)
  unfolding store_output
  store_output-backed textured uid bytes hash = search backing
  store_output-backed default uid bytes hash = record {
    at = λ w b.
        let key = key_of uid default in
        let i : ArtifactId = record { model_uid = uid; stage = stage } in
        let w₁ = (put_bytes key bytes w).1 in
        IsBacked-record_artifact i key (some hash) w₁ (rw (own uid, exists_put key bytes w) refl)
          (unfold put_bytes in IsBacked-Grows w w₁ refl refl (Grows-put_bytes key bytes w) b);
  }

  make-backed : (uid : Text) (v : Variant) → KeepsBacked (make uid v)
  make-backed uid v = KeepsBacked-OnlyReads (make uid v) (reads uid v)

  produce-backed :
      (uid : Text) (v : Variant)
      → KeepsBacked (produce stage done_word next_topic key_of make digest uid v)
  unfolding produce
  produce-backed uid v = search (backing, make-backed, store_output-backed)

  attempt-backed :
      (uid : Text) (v : Variant)
      → KeepsBacked (attempt stage done_word next_topic key_of make digest uid v)
  unfolding attempt
  attempt-backed uid v = record {
    at = λ w b. elim (Bool-cases (already_done w v uid stage (key_of uid v))) [
      | inl there ↦ rw there b
      | inr missing ↦ rw missing ((produce-backed uid v).at w b)
    ];
  }

  pub run_job-backed :
      (job : Job) → KeepsBacked (run_job stage done_word next_topic key_of make digest job)
  unfolding run_job
  run_job-backed job = search (backing, KeepsBacked-or_raise, attempt-backed)

-- A model row that says it is downloaded needs the raw blob.
upsert_model-backed :
    (uid hash : Text) (w : World)
    → exists w (raw_key uid default_raw_suffix) ≡ true
    → IsBacked w
    → IsBacked (Download.upsert_model uid hash (raw_key uid default_raw_suffix) w).1
unfolding Download.upsert_model exists raw_key
upsert_model-backed uid hash w there b =
    let key = raw_key uid default_raw_suffix in
    let row : Model = record (Download.or_new (get w.models uid)) {
      download_status = DownloadStatus.downloaded;
      content_hash = some hash;
      raw_key = some key;
    } in
    record {
      raw = λ u h. elim (Bool-cases (uid == u)) [
        | inl same ↦ rw (get-put w.models uid u row, same) there
        | inr other ↦
            rw (get-put w.models uid u row, other)
              (b.raw u (rw (get-put w.models uid u row, other) at h))
      ];
      outputs = λ i h.
          all_exist-Grows w (Download.upsert_model uid hash key w).1 (evidence i)
            (record { at = λ k e. e }) (b.outputs i h);
    }

module _ {Mesh : Type 0} (tools : Tools Mesh) where
  stored-backed :
      (uid hash : Text) (bytes : Blob) (w : World)
      → IsBacked w
      → IsBacked
          (Download.upsert_model uid hash
            (raw_key uid default_raw_suffix)
            (put_bytes (raw_key uid default_raw_suffix) bytes w).1).1
  stored-backed uid hash bytes w b =
      let raw = raw_key uid default_raw_suffix in
      upsert_model-backed uid hash (put_bytes raw bytes w).1 (exists_put raw bytes w) (
        unfold put_bytes in
        IsBacked-Grows w (put_bytes raw bytes w).1 refl refl (Grows-put_bytes raw bytes w) b)

  skip-backed : (uid : Text) → KeepsBacked (Download.skip tools uid)
  unfolding Download.skip
  skip-backed uid = search backing

  publish-backed :
      (uid : Text) → KeepsBacked (publish_next Download.convert_topic uid (codes "default"))
  publish-backed uid = search backing

  download-backed : (uid : Text) → KeepsBacked (Download.download tools uid)
  unfolding Download.download
  download-backed uid = record {
    at = λ w b. elim (Option-cases (Download.fetch_mesh tools uid).0) [
      | inl never ↦ rw never b
      | inr (bytes, fetched) ↦ rw fetched (
          unfold put_bytes Download.upsert_model publish_next in
          (publish-backed uid).at _ (stored-backed uid (tools.sha256 bytes) bytes w b))
    ];
  }

  download_process-backed : (job : Job) → KeepsBacked (Download.process tools job)
  unfolding Download.process
  download_process-backed job = record {
    at = λ w b. elim (Bool-cases (Download.already_downloaded w job.uid)) [
      | inl there ↦ rw there ((skip-backed job.uid).at w b)
      | inr missing ↦ rw missing ((download-backed job.uid).at w b)
    ];
  }

  record_render-backed :
      (uid : Text) (v : Variant) (w : World)
      → ((i : ℕ) → i < num_views → exists w (view_key uid i v) ≡ true)
      → IsBacked w
      → IsBacked (Render.record_render uid v w).1
  unfolding Render.record_render view_keys
  record_render-backed uid textured w there b = b
  record_render-backed uid default w there b =
      IsBacked-record_artifact (record { model_uid = uid; stage = rendered }) _ none w
        (all_exist-view_keys_below w uid default 12 there) b

  after_images-backed :
      (uid : Text) (v : Variant) (images : List Blob) (w : World)
      → length images ≡ num_views
      → IsBacked w
      → IsBacked (after_images tools uid v images w).1
  unfolding after_images
  after_images-backed uid v images w full b =
      let wrote = put_views-Wrote uid v 0 images w in
      let w₁ = (Render.put_views uid v 0 images w).1 in
      let b₁ = IsBacked-Grows w w₁ wrote.models wrote.artifacts (record { at = wrote.kept }) b in
      rw
        (
          wrote.finished,
          state-continue-pure (Render.record_render uid v w₁).0 (codes "rendered")
              (Render.record_render uid v w₁).1,
        )
        (record_render-backed uid v w₁ (λ i low. wrote.added i (omega arith) (omega arith)) b₁)

  render-backed :
      OneImageAView tools → (uid : Text) (v : Variant) → KeepsBacked (Render.render tools uid v)
  render-backed one uid v = record {
    at = λ w b. elim (Result-cases (Render.images_of tools uid v w).0) [
      | inr (e, failed) ↦ rw (render_of_err tools uid v w e failed) b
      | inl (images, made) ↦
          rw (render_of_ok tools uid v w images made)
            (after_images-backed uid v images w (length-images_of tools uid v w images one made) b)
    ];
  }

  render_attempt-backed :
      OneImageAView tools → (uid : Text) (v : Variant) → KeepsBacked (Render.attempt tools uid v)
  unfolding Render.attempt
  render_attempt-backed one uid v = record {
    at = λ w b. elim (Bool-cases (Render.marked_done w uid v && Render.all_views_present w uid v)) [
      | inl there ↦ rw there b
      | inr missing ↦ rw missing ((render-backed one uid v).at w b)
    ];
  }

  render_process-backed : OneImageAView tools → (job : Job) → KeepsBacked (Render.process tools job)
  unfolding Render.process
  render_process-backed one job =
      let each : (uid : Text) (v : Variant) → KeepsBacked (Render.attempt tools uid v) =
        render_attempt-backed one in
      search (backing, KeepsBacked-or_raise, each)

  -- The handler of each stage keeps every row backed, whatever the message and whether it returns or raises.
  pub handler-backed :
      (describe : Failure → Text)
      → OneImageAView tools
      → (stage : PipelineStage) (job : Job) → KeepsBacked (handler tools describe stage job)
  handler-backed describe one download job = download_process-backed job
  handler-backed describe one convert job =
      unfold Convert.process in
      run_job-backed converted (codes "converted") Convert.normalize_topic converted_key
        (Convert.make tools) tools.sha256 (ConvertLaws.make_reads tools) (λ _. refl) job
  handler-backed describe one normalize job =
      unfold Normalize.process in
      run_job-backed normalized (codes "normalized") Normalize.render_topic normalized_key
        (Normalize.make tools) tools.sha256 (NormalizeLaws.make_reads tools) (λ _. refl) job
  handler-backed describe one render job = render_process-backed one job
