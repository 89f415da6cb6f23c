-- ===== src/Pipeline/Download.antt =====
-- server/app/workers/download.py: the first stage of the pipeline.
pub mod Laws
use image_genie.Base.{
  ℕ, zero, suc, ◌-◌, ◌*◌, ◌/◌, ◌^◌, Bool, true, false, not, ◌&&◌, Option, none, some, List, [], ◌∷◌,
  arith, if◌then◌else◌, ◌==◌, Text, codes, get, put, text_eq, nat_eq,
}
use image_genie.ArtifactKeys.{raw_key, default_raw_suffix}
use image_genie.Pipeline.{
  Blob, World, Model, DownloadStatus, Job, Action, Result, ok, err, fetch_failed, ◌>>=◌, ◌>>◌, pure,
  or_raise, put_bytes, exists, publish_next,
}
use image_genie.Pipeline.Mesh.{Tools}

abbrev pub convert_topic : Text
convert_topic = codes "convert-jobs"

abbrev pub max_fetch_attempts : ℕ
max_fetch_attempts = 4

abbrev is_downloaded : DownloadStatus → Bool
is_downloaded DownloadStatus.downloaded = true
is_downloaded _ = false

-- `existing is not None and existing.download_status == DownloadStatus.downloaded`
abbrev pub says_downloaded : Option Model → Bool
says_downloaded none = false
says_downloaded (some model) = is_downloaded model.download_status

unfoldable pub already_downloaded : World → Text → Bool
already_downloaded w uid =
    says_downloaded (get w.models uid) && exists w (raw_key uid default_raw_suffix)

-- The row of a new model, where the insert gives no value.
abbrev pub new_model : Model
new_model = record {
  title = none;
  tags = none;
  deleted_at = none;
  download_status = DownloadStatus.pending;
  content_hash = none;
  raw_key = none;
}

abbrev pub or_new : Option Model → Model
or_new none = new_model
or_new (some model) = model

-- `INSERT … ON CONFLICT (uid) DO UPDATE`
unfoldable pub upsert_model : Text → Text → Text → Action (Unit {0})
upsert_model uid content_hash key w =
    let model = or_new (get w.models uid) in
    (
      ok tt,
      record w {
        models = put w.models uid (record model {
          download_status = DownloadStatus.downloaded;
          content_hash = some content_hash;
          raw_key = some key;
        });
      },
    )

module _ {Mesh : Type 0} (tools : Tools Mesh) where
  -- The loop of `_fetch_mesh` over the attempts that are left, with the base of each wait in seconds.
  unfoldable pub fetch_from : Text → ℕ → ℕ → Option Blob × List ℕ
  fetch_from uid attempt zero = (none, [])
  fetch_from uid attempt (suc left) = elim (tools.fetch_attempt uid attempt) [
    | some bytes ↦ (some bytes, [])
    | none ↦ elim left [
      | zero ↦ (none, [])
      | suc more ↦
          let (found, waits) = fetch_from uid (suc attempt) left in
          (found, 2 * 2 ^ (attempt - 1) ∷ waits)
    ]
  ]

  unfoldable pub fetch_mesh : Text → Option Blob × List ℕ
  unfolding fetch_from
  fetch_mesh uid = fetch_from uid 1 max_fetch_attempts

  unfoldable pub download : Text → Action Text
  unfolding ◌>>=◌
  download uid = do
    bytes ← or_raise fetch_failed (fetch_mesh uid).0
    put_bytes (raw_key uid default_raw_suffix) bytes
    upsert_model uid (tools.sha256 bytes) (raw_key uid default_raw_suffix)
    publish_next convert_topic uid (codes "default")
    pure (codes "downloaded")

  unfoldable pub skip : Text → Action Text
  unfolding ◌>>=◌
  skip uid = do publish_next convert_topic uid (codes "default"); pure (codes "skipped")

  unfoldable pub process : Job → Action Text
  process job w =
      let again = skip job.uid w in
      let first = download job.uid w in if already_downloaded w job.uid then again else first
