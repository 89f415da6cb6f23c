-- ===== src/Pipeline.antt =====
-- The tables, the bucket and the queue that the preprocessing workers share (server/app/models.py,
-- storage.py, queue.py, workers/artifacts.py), and the actions on them. An exception ends an action with the
-- state as it was written so far; each database transaction of the workers is one statement.
pub mod Mesh
pub mod Reads
pub mod Stage
pub mod Download
pub mod Convert
pub mod Normalize
pub mod Render
pub mod Chain
pub mod Examples
use image_genie.Base.{
  ℕ, ◌+◌, ◌-◌, ◌/◌, ◌≡◌, ◌↔◌, Bool, true, false, ◌&&◌, Option, none, some, List, [], ◌∷◌, ◌++◌,
  arith, if◌then◌else◌, Eq, ◌==◌, Text, codes, text_beq_iff, Dict, get, put, text_eq, nat_eq,
}
use image_genie.ArtifactKeys.{Variant, default, textured, variant_named}

pub data DownloadStatus : Type 0 where
  pending downloaded failed : DownloadStatus

pub data ArtifactStage : Type 0 where
  converted normalized rendered : ArtifactStage

pub data ArtifactStatus : Type 0 where
  pending done failed : ArtifactStatus

pub data PipelineStage : Type 0 where
  download convert normalize render : PipelineStage

abbrev pub stage_beq : ArtifactStage → ArtifactStage → Bool
stage_beq ArtifactStage.converted ArtifactStage.converted = true
stage_beq ArtifactStage.normalized ArtifactStage.normalized = true
stage_beq ArtifactStage.rendered ArtifactStage.rendered = true
stage_beq _ _ = false

-- The unique constraint on (model_uid, stage).
pub record ArtifactId : Type 0 where
  pub model_uid : Text
  pub stage : ArtifactStage

unfoldable pub artifact_id_beq : ArtifactId → ArtifactId → Bool
artifact_id_beq a b = (a.model_uid == b.model_uid) && stage_beq a.stage b.stage

pub artifact_id_beq_iff : (a b : ArtifactId) → (artifact_id_beq a b ≡ true) ↔ (a ≡ b)
unfolding artifact_id_beq
artifact_id_beq_iff a b = ground (arith, text_beq_iff a.model_uid b.model_uid)

instance abbrev pub artifact_id_eq : Eq ArtifactId
artifact_id_eq = record { beq = artifact_id_beq; beq_iff = artifact_id_beq_iff }

abbrev pub Blob : Type 0
Blob = List ℕ

pub record Model : Type 0 where
  pub title : Option Text
  pub tags : Option (List Text)
  pub deleted_at : Option ℕ
  pub download_status : DownloadStatus
  pub content_hash : Option Text
  pub raw_key : Option Text

pub record Artifact : Type 0 where
  pub key : Text
  pub content_hash : Option Text
  pub status : ArtifactStatus

-- A job payload; the `variant` field may be missing.
pub record Job : Type 0 where
  pub uid : Text
  pub variant : Option Text

pub record Message : Type 0 where
  pub topic : Text
  pub job : Job

pub record World : Type 0 where
  pub models : Dict Text Model
  pub artifacts : Dict ArtifactId Artifact
  pub blobs : Dict Text Blob
  pub published : List Message

pub data Failure : Type 0 where
  unknown_variant unsupported_format missing_blob : Failure
  no_geometry no_faces unreadable_mesh degenerate_mesh atlas_too_large : Failure
  fetch_failed render_failed no_such_model : Failure

pub data Result {ℓ} (A : Type ℓ) : Type ℓ where
  ok : A → Result A
  err : Failure → Result A

abbrev pub Action : Type 0 → Type 0
Action A = World → Result A × World

abbrev pub continue : {A B : Type 0} → Result A → (A → Action B) → Action B
continue (ok a) f w = f a w
continue (err e) f w = (err e, w)

infixl 5 ◌>>=◌ ◌>>◌
unfoldable pub ◌>>=◌ : {A B : Type 0} → Action A → (A → Action B) → Action B
◌>>=◌ m f w = let (r, w') = m w in continue r f w'

abbrev pub ◌>>◌ : {A B : Type 0} → Action A → Action B → Action B
m >> n = m >>= λ _. n

abbrev pub pure : {A : Type 0} → A → Action A
pure a w = (ok a, w)

abbrev pub raise : {A : Type 0} → Failure → Action A
raise e w = (err e, w)

abbrev pub or_raise : {A : Type 0} → Failure → Option A → Action A
or_raise e none = raise e
or_raise e (some a) = pure a

abbrev pub gets : {A : Type 0} → (World → A) → Action A
gets f w = (ok (f w), w)

abbrev pub is_some {ℓ} : {A : Type ℓ} → Option A → Bool
is_some none = false
is_some (some _) = true

-- storage.exists(key)
unfoldable pub exists : World → Text → Bool
exists w key = is_some (get w.blobs key)

-- storage.get_bytes(key)
unfoldable pub get_bytes : Text → Action Blob
get_bytes key w = or_raise missing_blob (get w.blobs key) w

-- storage.put_bytes(key, data)
unfoldable pub put_bytes : Text → Blob → Action (Unit {0})
put_bytes key bytes w = (ok tt, record w { blobs = put w.blobs key bytes })

abbrev pub is_done : Option Artifact → Bool
is_done none = false
is_done (some row) = elim row.status [ ArtifactStatus.done ↦ true | _ ↦ false ]

unfoldable pub artifact_done : World → Text → ArtifactStage → Text → Bool
unfolding exists
artifact_done w uid stage completion_key =
    is_done (get w.artifacts (record { model_uid = uid; stage = stage })) && exists w completion_key

-- The upsert of workers/artifacts.py; a row of a model that has no row breaks the foreign key.
unfoldable pub record_artifact : Text → ArtifactStage → Text → Option Text → Action (Unit {0})
record_artifact uid stage key content_hash w =
    if is_some (get w.models uid)
    then (
      ok tt,
      record w {
        artifacts =
            put w.artifacts (record { model_uid = uid; stage = stage })
              (record { key = key; content_hash = content_hash; status = ArtifactStatus.done });
      },
    )
    else (err no_such_model, w)

abbrev pub variant_name : Variant → Text
variant_name default = codes "default"
variant_name textured = codes "textured"

-- The default variant writes no `variant` field.
unfoldable pub job_payload : Text → Text → Job
job_payload uid variant =
    if variant == codes "default"
    then record { uid = uid; variant = none }
    else record { uid = uid; variant = some variant }

-- The broker takes every message.
unfoldable pub publish_next : Text → Text → Text → Action (Unit {0})
unfolding job_payload
publish_next topic uid variant w = (
  ok tt,
  record w {
    published = w.published ++ record { topic = topic; job = job_payload uid variant } ∷ [];
  },
)

-- `job.get("variant", DEFAULT_VARIANT)`
abbrev pub variant_of : Job → Text
variant_of job = elim job.variant [ none ↦ codes "default" | some name ↦ name ]

abbrev pub is_default : Variant → Bool
is_default default = true
is_default textured = false

-- `artifact_done` for the default variant; another variant owns no row, and its blob is the evidence.
unfoldable pub already_done : World → Variant → Text → ArtifactStage → Text → Bool
unfolding artifact_done
already_done w default uid stage output_key = artifact_done w uid stage output_key
already_done w textured uid stage output_key = exists w output_key

-- The output of the convert and normalize stages: the blob, and the default variant's row.
unfoldable pub store_output :
    Variant → Text → ArtifactStage → Text → Blob → Text → Action (Unit {0})
unfolding put_bytes record_artifact ◌>>=◌
store_output default uid stage output_key bytes content_hash = do
  put_bytes output_key bytes
  record_artifact uid stage output_key (some content_hash)
store_output textured uid stage output_key bytes content_hash = put_bytes output_key bytes

-- What `process` of convert.py and of normalize.py have in common: skip a job whose output is there,
-- make and store the output otherwise, and hand the model on with its variant either way.
module _ (stage : ArtifactStage) (done_word : Text) (next_topic : Text)
    (key_of : Text → Variant → Text) (make : Text → Variant → Action Blob)
    (digest : Blob → Text) where
  unfoldable pub produce : Text → Variant → Action Text
  unfolding ◌>>=◌
  produce uid v = do
    bytes ← make uid v
    store_output v uid stage (key_of uid v) bytes (digest bytes)
    pure done_word

  unfoldable pub attempt : Text → Variant → Action Text
  attempt uid v w =
      let work = produce uid v w in
      if already_done w v uid stage (key_of uid v) then (ok (codes "skipped"), w) else work

  unfoldable pub run_job : Job → Action Text
  unfolding ◌>>=◌
  run_job job = do
    v ← or_raise unknown_variant (variant_named (variant_of job))
    result ← attempt job.uid v
    publish_next next_topic job.uid (variant_of job)
    pure result
