-- ===== src/Upload/Ingested.antt =====
-- What an upload leaves behind: a model that the convert stage takes over as if it had been downloaded.
use image_genie.Base.{
  ℕ, ◌≤◌, ◌<◌, ◌≡◌, refl, ◌≢◌, inl, inr, false, Option, none, some, [], ◌∷◌, ◌++◌, arith,
  Bool-cases, ◌==◌, length, Text, codes, text_beq, text_beq_iff, get, put, get-put, get-put_self,
  text_eq, nat_eq,
}
use image_genie.ArtifactKeys.{raw_key, default, converted_key}
use image_genie.ArtifactKeys.Decimal.{decimal}
use image_genie.RateLimit.{check}
use image_genie.Pipeline.{
  World, Model, Blob, put_bytes, publish_next, job_payload, ArtifactStage, ok, artifact_id_eq,
  already_done, artifact_done,
}
use image_genie.Pipeline.Mesh.{Tools, Parsed, good, bad, load_mesh, export_ply}
use image_genie.Pipeline.Download.{convert_topic}
use image_genie.Pipeline.Convert as Convert
use image_genie.Pipeline.Convert.Laws.{process_converts}
use image_genie.Upload.{
  Site, Answer, created, refused, too_many_requests, upload_per_admin, validated_suffix, ReadResult,
  read_bytes, over_limit, empty_file, read_within_limit, chunk_bytes, uploaded_model, ingest,
  after_parse, after_read, after_suffix, upload_model,
}
use image_genie.Upload.Limit.{read_bytes-whole}
use image_genie.Upload.Accepted.{validated_suffix-typed}

module _ {Mesh : Type 0} (tools : Tools Mesh) (uid : Text) (filename : Option Text) (upload : Blob)
    (max_bytes : ℕ) where
  -- What an accepted upload is and leaves: the bytes are within the limit, of a format that was accepted, and
  -- load; the whole file is in the bucket, the row says that it is downloaded, and one convert job is waiting.
  pub record IsUploaded (before after : World) : Type 0 where
    pub kind : Text × Text
    pub mesh : Mesh
    pub validated : validated_suffix filename ≡ some kind
    pub fits : length upload ≤ max_bytes
    pub not_empty : 0 < length upload
    pub loads : load_mesh tools upload kind.1 ≡ good mesh
    pub stored : get after.blobs (raw_key uid kind.0) ≡ some upload
    pub row :
        get after.models uid ≡ some (uploaded_model tools uid (raw_key uid kind.0) filename upload)
    pub others : (other : Text) → other ≢ uid → get after.models other ≡ get before.models other
    pub artifacts : after.artifacts ≡ before.artifacts
    pub published :
        after.published
        ≡ before.published
          ++ record { topic = convert_topic; job = record { uid = uid; variant = none } } ∷ []

  -- What the answer says of the world.
  abbrev pub Answered : Answer → World → World → Type 0
  Answered (created uid') before after = (uid' ≡ uid) × IsUploaded before after
  Answered (refused status) before after = after ≡ before
  Answered (too_many_requests seconds) before after = after ≡ before

  get_other_row :
      (w : World) (other : Text) (model : Model)
      → other ≢ uid
      → get (put w.models uid model) other ≡ get w.models other
  get_other_row w other model differs =
      let e : (uid == other) ≡ false = grind (arith, text_beq_iff uid other, differs) in
      rw (get-put, e) refl

  ingest-IsUploaded :
      (kind : Text × Text) (mesh : Mesh) (w : World)
      → validated_suffix filename ≡ some kind
      → length upload ≤ max_bytes
      → 0 < length upload
      → load_mesh tools upload kind.1 ≡ good mesh
      → IsUploaded w (ingest tools uid kind.0 filename upload w)
  unfolding ingest put_bytes publish_next job_payload text_beq
  ingest-IsUploaded kind mesh w validated fits not_empty loads = record {
    kind = kind;
    mesh = mesh;
    validated = validated;
    fits = fits;
    not_empty = not_empty;
    loads = loads;
    stored = get-put_self w.blobs (raw_key uid kind.0) upload;
    row = get-put_self w.models uid _;
    others = λ other differs. get_other_row w other _ differs;
    artifacts = refl;
    published = refl;
  }

  after_parse-Answered :
      (parse : Parsed Mesh) (kind : Text × Text) (site : Site)
      → load_mesh tools upload kind.1 ≡ parse
      → validated_suffix filename ≡ some kind
      → length upload ≤ max_bytes
      → 0 < length upload
      → (let (answer, after) = after_parse tools parse uid kind.0 filename upload site in
          Answered answer site.world after.world)
  after_parse-Answered (bad e) kind site loads validated fits not_empty = refl
  after_parse-Answered (good mesh) kind site loads validated fits not_empty =
      (refl, ingest-IsUploaded kind mesh site.world validated fits not_empty loads)

  after_read-Answered :
      (read : ReadResult) (kind : Text × Text) (site : Site)
      → read_within_limit chunk_bytes max_bytes upload ≡ read
      → validated_suffix filename ≡ some kind
      → (let (answer, after) = after_read tools read uid kind filename site in
          Answered answer site.world after.world)
  after_read-Answered over_limit kind site h validated = refl
  after_read-Answered empty_file kind site h validated = refl
  after_read-Answered (read_bytes bytes) kind site h validated =
      let (whole, fits, not_empty) = read_bytes-whole max_bytes upload bytes h in
      rw whole (after_parse-Answered _ kind site refl validated fits not_empty)

  after_suffix-Answered :
      (found : Option (Text × Text)) (site : Site)
      → validated_suffix filename ≡ found
      → (let read = read_within_limit chunk_bytes max_bytes upload in
          let (answer, after) = after_suffix tools found read uid filename site in
          Answered answer site.world after.world)
  after_suffix-Answered none site validated = refl
  after_suffix-Answered (some kind) site validated = after_read-Answered _ kind site refl validated

  -- An upload that is answered with its uid was of an accepted format, within the limit and not empty, and loads;
  -- the whole file is then in the bucket, the row says that it is downloaded, and one convert job for it is
  -- published. Any other answer leaves tables, bucket and queue as they were.
  pub upload_model-Answered :
      (admin_id moment : ℕ) (site : Site)
      → (let (answer, after) =
            upload_model tools admin_id uid filename upload max_bytes moment site in
          Answered answer site.world after.world)
  unfolding upload_model
  upload_model-Answered admin_id moment site =
      let key = codes "upload:user:" ++ decimal admin_id in
      let (allowed, limiter) = check site.upload_limiter key upload_per_admin moment in
      let site' : Site = record site { upload_limiter = limiter } in
      elim (Bool-cases allowed) [
        | inl yes_allowed ↦ rw yes_allowed (after_suffix-Answered _ site' refl)
        | inr over ↦ rw over refl
      ]

  source_key-IsUploaded :
      (before after : World) (uploaded : IsUploaded before after)
      → Convert.source_key after uid ≡ raw_key uid uploaded.kind.0
  unfolding Convert.source_key raw_key
  source_key-IsUploaded before after uploaded = rw uploaded.row refl

  created-IsUploaded :
      (answer : Answer) (before after : World)
      → Answered answer before after
      → answer ≡ created uid
      → IsUploaded before after
  created-IsUploaded (created uid') before after answered e = answered.1
  created-IsUploaded (refused status) before after answered e = cc e
  created-IsUploaded (too_many_requests seconds) before after answered e = cc e

  process-IsUploaded :
      (before after : World) (uploaded : IsUploaded before after)
      → get before.artifacts (record { model_uid = uid; stage = ArtifactStage.converted }) ≡ none
      → (let (result, converted) =
            Convert.process tools (record { uid = uid; variant = none }) after in
          (result ≡ ok (codes "converted"))
          × (get converted.blobs (converted_key uid default)
              ≡ some (export_ply tools uploaded.mesh)))
  unfolding already_done artifact_done
  process-IsUploaded before after uploaded no_row =
      let typed = validated_suffix-typed uid filename uploaded.kind uploaded.validated in
      let source = source_key-IsUploaded before after uploaded in
      let (result, blob, _) =
        process_converts tools uid after upload uploaded.kind.1 uploaded.mesh (rw uploaded.row refl)
          (rw (uploaded.artifacts, no_row) refl) (rw source uploaded.stored) (rw source typed)
          uploaded.loads in
      (result, blob)

  -- The convert stage takes an accepted upload over: unless an artifact row stands under the drawn uid, the
  -- next convert job of the uid succeeds, and stores the PLY of the mesh that the uploaded bytes load as under
  -- the file type of the uploaded name. The mesh library loads the same bytes the same way both times.
  pub process-upload_model :
      (admin_id moment : ℕ) (site : Site)
      → (upload_model tools admin_id uid filename upload max_bytes moment site).0 ≡ created uid
      → get site.world.artifacts (record { model_uid = uid; stage = ArtifactStage.converted })
        ≡ none
      → (let after =
            (upload_model tools admin_id uid filename upload max_bytes moment site).1.world in
          let (result, converted) =
            Convert.process tools (record { uid = uid; variant = none }) after in
          (result ≡ ok (codes "converted"))
          × ((kind : Text × Text) × (mesh : Mesh) × (validated_suffix filename ≡ some kind)
              × (load_mesh tools upload kind.1 ≡ good mesh)
              × (get converted.blobs (converted_key uid default) ≡ some (export_ply tools mesh))))
  process-upload_model admin_id moment site accepted no_row =
      let (answer, after) = upload_model tools admin_id uid filename upload max_bytes moment site in
      let uploaded =
        created-IsUploaded answer site.world after.world
          (upload_model-Answered admin_id moment site) accepted in
      let (result, blob) = process-IsUploaded site.world after.world uploaded no_row in
      (result, (uploaded.kind, uploaded.mesh, uploaded.validated, uploaded.loads, blob))
