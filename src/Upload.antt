-- ===== src/Upload.antt =====
-- POST /models/upload of server/app/api.py: an administrator's mesh takes the place of the download stage.
pub mod Paths
pub mod Limit
pub mod Accepted
pub mod Ingested
mod Examples
use image_genie.Base.{
  ℕ, zero, suc, ◌+◌, ◌-◌, ◌/◌, max, not, Option, none, some, List, [], ◌∷◌, ◌++◌, arith, ltb,
  if◌then◌else◌, ◌==◌, length, take, drop, Text, codes, put, empty, text_eq, nat_eq,
}
use image_genie.ArtifactKeys.{raw_key, raw_suffix_to_file_type}
use image_genie.ArtifactKeys.Decimal.{decimal}
use image_genie.Accounts.Email.{lower}
use image_genie.RateLimit.{RateLimitRule, FixedWindowRateLimiter, check, retry_after}
use image_genie.Pipeline.{World, Model, Blob, downloaded, put_bytes, publish_next}
use image_genie.Pipeline.Download.{convert_topic}
use image_genie.Pipeline.Mesh.{Tools, Parsed, good, bad, load_mesh}
use image_genie.Upload.Paths.{suffix_of, stem_of}

pub record Site : Type 0 where
  pub world : World
  pub upload_limiter : FixedWindowRateLimiter

-- The answer: created, with the uid, or refused with a status.
pub data Answer : Type 0 where
  created : Text → Answer
  refused : ℕ → Answer
  too_many_requests : ℕ → Answer

abbrev pub upload_per_admin : RateLimitRule
upload_per_admin = record { max_hits = 120; window_seconds = 600 }

abbrev pub or_blank : Option Text → Text
or_blank none = []
or_blank (some s) = s

-- `a or b`
abbrev pub or_else : Text → Text → Text
or_else [] other = other
or_else (c ∷ s) other = c ∷ s

-- RAW_SUFFIX_TO_FILE_TYPE[suffix]; `none` is the 415.
unfoldable pub accepted_type : List (Text × Text) → Text → Option Text
accepted_type [] suffix = none
accepted_type (entry ∷ accepted) suffix =
    if entry.0 == suffix then some entry.1 else accepted_type accepted suffix

-- `_validated_upload_suffix`: the suffix with its file type.
abbrev pub with_suffix : Text → Option Text → Option (Text × Text)
with_suffix suffix none = none
with_suffix suffix (some file_type) = some (suffix, file_type)

unfoldable pub validated_suffix : Option Text → Option (Text × Text)
unfolding accepted_type lower suffix_of
validated_suffix filename =
    let suffix = lower (suffix_of (or_blank filename)) in
    with_suffix suffix (accepted_type raw_suffix_to_file_type suffix)

pub data ReadResult : Type 0 where
  read_bytes : Blob → ReadResult
  over_limit empty_file : ReadResult

-- The loop, with what is left of the upload, the bytes so far and their number. A chunk is not empty, so the
-- length of the upload is fuel enough.
unfoldable pub read_chunks : ℕ → ℕ → ℕ → Blob → ℕ → Blob → ReadResult
read_chunks zero chunk_size max_bytes left total so_far = read_bytes so_far
read_chunks (suc fuel) chunk_size max_bytes [] total so_far = read_bytes so_far
read_chunks (suc fuel) chunk_size max_bytes (b ∷ left) total so_far =
    let chunk = take chunk_size (b ∷ left) in
    let rest =
      read_chunks fuel chunk_size max_bytes (drop chunk_size (b ∷ left)) (total + length chunk)
        (so_far ++ chunk) in
    if ltb max_bytes (total + length chunk) then over_limit else rest

abbrev pub unless_empty : ReadResult → ReadResult
unless_empty (read_bytes []) = empty_file
unless_empty (read_bytes (b ∷ bytes)) = read_bytes (b ∷ bytes)
unless_empty over_limit = over_limit
unless_empty empty_file = empty_file

abbrev pub chunk_bytes : ℕ
chunk_bytes = 1048576

-- `_read_within_limit`
unfoldable pub read_within_limit : ℕ → ℕ → Blob → ReadResult
unfolding read_chunks
read_within_limit chunk_size max_bytes upload =
    unless_empty (read_chunks (length upload) chunk_size max_bytes upload 0 [])

module _ {Mesh : Type 0} (tools : Tools Mesh) where
  -- The row of an upload.
  abbrev pub uploaded_model : Text → Text → Option Text → Blob → Model
  uploaded_model uid key filename bytes = record {
    title = some (or_else (stem_of (or_else (or_blank filename) uid)) uid);
    tags = some [];
    deleted_at = none;
    download_status = downloaded;
    content_hash = some (tools.sha256 bytes);
    raw_key = some key;
  }

  -- The blob, the row and the convert job.
  unfoldable pub ingest : Text → Text → Option Text → Blob → World → World
  unfolding put_bytes publish_next raw_key stem_of
  ingest uid suffix filename bytes w =
      let w₁ = (put_bytes (raw_key uid suffix) bytes w).1 in
      let w₂ : World = record w₁ {
        models = put w₁.models uid (uploaded_model uid (raw_key uid suffix) filename bytes);
      } in
      (publish_next convert_topic uid (codes "default") w₂).1

  abbrev pub after_parse : Parsed Mesh → Text → Text → Option Text → Blob → Site → Answer × Site
  after_parse (bad e) uid suffix filename bytes site = (refused 422, site)
  after_parse (good m) uid suffix filename bytes site =
      (created uid, record site { world = ingest uid suffix filename bytes site.world })

  abbrev pub after_read : ReadResult → Text → Text × Text → Option Text → Site → Answer × Site
  after_read over_limit uid kind filename site = (refused 413, site)
  after_read empty_file uid kind filename site = (refused 400, site)
  after_read (read_bytes bytes) uid kind filename site =
      after_parse (load_mesh tools bytes kind.1) uid kind.0 filename bytes site

  abbrev pub after_suffix :
      Option (Text × Text) → ReadResult → Text → Option Text → Site → Answer × Site
  after_suffix none upload uid filename site = (refused 415, site)
  after_suffix (some kind) upload uid filename site = after_read upload uid kind filename site

  -- The moment is the limiter's; the uid is the one that `uuid4` drew, under which no row stands yet.
  unfoldable pub upload_model : ℕ → Text → Option Text → Blob → ℕ → ℕ → Site → Answer × Site
  unfolding ingest load_mesh read_within_limit validated_suffix check retry_after decimal
  upload_model admin_id uid filename upload max_bytes moment site =
      let key = codes "upload:user:" ++ decimal admin_id in
      let (allowed, limiter) = check site.upload_limiter key upload_per_admin moment in
      let site' = record site { upload_limiter = limiter } in
      if allowed
      then after_suffix (validated_suffix filename) (read_within_limit chunk_bytes max_bytes upload)
          uid filename site'
      else (too_many_requests (max 1 (retry_after limiter key moment)), site')
