-- ===== src/Pipeline/Download/Laws.antt =====
-- What the download stage guarantees.
use image_genie.Base.{
  ℕ, zero, suc, ◌+◌, ◌-◌, ◌*◌, ◌^◌, ◌≤◌, ◌<◌, ◌≡◌, refl, ap, ◌∙◌, ◌≢◌, inl, inr, true, false, none,
  some, List, [], ◌∷◌, ◌++◌, arith, Bool-cases, Option-cases, Text, codes, text_beq, text_beq_iff,
  get, get-put, get-put_self, text_eq, nat_eq,
}
use mathlib.Core.Path.{subst}
use image_genie.ArtifactKeys.{raw_key, default_raw_suffix}
use image_genie.Pipeline.{
  Blob, World, Model, DownloadStatus, Job, Message, Result, ok, err, fetch_failed, ◌>>=◌, ◌>>◌,
  pure, put_bytes, exists, publish_next, job_payload,
}
use image_genie.Pipeline.Mesh.{Tools}
use image_genie.Pipeline.Download.{
  convert_topic, max_fetch_attempts, already_downloaded, or_new, upsert_model, fetch_from,
  fetch_mesh, download, skip, process,
}

-- The waits before `n` retries that follow the attempt numbered `a`.
waits_from : ℕ → ℕ → List ℕ
waits_from a zero = []
waits_from a (suc n) = 2 * 2 ^ (a - 1) ∷ waits_from (suc a) n

-- The waits, in seconds, before the first `n` retries.
unfoldable pub first_waits : ℕ → List ℕ
first_waits zero = []
first_waits (suc zero) = 2 ∷ []
first_waits (suc (suc zero)) = 2 ∷ 4 ∷ []
first_waits (suc (suc (suc _))) = 2 ∷ 4 ∷ 8 ∷ []

abbrev pub convert_job : Text → Message
convert_job uid = record { topic = convert_topic; job = record { uid = uid; variant = none } }

module _ {Mesh : Type 0} (tools : Tools Mesh) where
  -- `n` attempts from the one numbered `a` fail.
  abbrev pub AllFail : Text → ℕ → ℕ → Type 0
  AllFail uid a n = (i : ℕ) → a ≤ i → i < a + n → tools.fetch_attempt uid i ≡ none

  fetch_from_first :
      (uid : Text) (a left n k : ℕ) (bytes : Blob)
      → n < left
      → AllFail uid a n
      → k ≡ a + n
      → tools.fetch_attempt uid k ≡ some bytes
      → fetch_from tools uid a left ≡ (some bytes, waits_from a n)
  unfolding fetch_from waits_from
  fetch_from_first uid a zero n k bytes low before e here = absurd (omega arith)
  fetch_from_first uid a (suc left) zero k bytes low before e here =
      let same : k ≡ a = omega arith in
      let found : tools.fetch_attempt uid a ≡ some bytes = rw same at here in
      rw (fetch_from, found) refl
  fetch_from_first uid a (suc zero) (suc n) k bytes low before e here = absurd (omega arith)
  fetch_from_first uid a (suc (suc more)) (suc n) k bytes low before e here =
      let later : AllFail uid (suc a) n = λ i l h. before i (omega arith) (omega arith) in
      let rest =
        fetch_from_first uid (suc a) (suc more) n k bytes (omega arith) later (omega arith) here in
      rw (fetch_from, before a (omega arith) (omega arith), rest) refl

  fetch_from_never :
      (uid : Text) (a left : ℕ) → AllFail uid a left → (fetch_from tools uid a left).0 ≡ none
  unfolding fetch_from
  fetch_from_never uid a zero fails = refl
  fetch_from_never uid a (suc zero) fails =
      rw (fetch_from, fails a (omega arith) (omega arith)) refl
  fetch_from_never uid a (suc (suc more)) fails =
      let later : AllFail uid (suc a) (suc more) = λ i l h. fails i (omega arith) (omega arith) in
      rw (fetch_from, fails a (omega arith) (omega arith))
        (fetch_from_never uid (suc a) (suc more) later)

  -- The mesh is that of the first attempt to succeed among the four, after waits of 2, 4 and 8 seconds before
  -- the retries.
  pub fetch_mesh_first :
      (uid : Text) (n : ℕ) (bytes : Blob)
      → n < max_fetch_attempts
      → AllFail uid 1 n
      → tools.fetch_attempt uid (1 + n) ≡ some bytes
      → fetch_mesh tools uid ≡ (some bytes, first_waits n)
  unfolding fetch_mesh waits_from first_waits
  fetch_mesh_first uid zero bytes low before here =
      fetch_from_first uid 1 4 0 1 bytes low before refl here
  fetch_mesh_first uid (suc zero) bytes low before here =
      fetch_from_first uid 1 4 1 2 bytes low before refl here
  fetch_mesh_first uid (suc (suc zero)) bytes low before here =
      fetch_from_first uid 1 4 2 3 bytes low before refl here
  fetch_mesh_first uid (suc (suc (suc zero))) bytes low before here =
      fetch_from_first uid 1 4 3 4 bytes low before refl here
  fetch_mesh_first uid (suc (suc (suc (suc n)))) bytes low before here = absurd (omega arith)

  -- A model that is not downloaded, and of which four attempts fail to fetch the mesh, fails its job, and nothing changes.
  pub process_unreachable :
      (job : Job) (w : World)
      → already_downloaded w job.uid ≡ false
      → AllFail job.uid 1 max_fetch_attempts
      → process tools job w ≡ (err fetch_failed, w)
  unfolding process download fetch_mesh
  process_unreachable job w missing fails = rw (missing, fetch_from_never job.uid 1 4 fails) refl

  -- What a download leaves in the world `after` when it fetched `bytes` in the world `w`.
  pub record Downloaded (uid : Text) (bytes : Blob) (w after : World) : Type 0 where
    pub row :
        get after.models uid
        ≡ some (record (or_new (get w.models uid)) {
          download_status = DownloadStatus.downloaded;
          content_hash = some (tools.sha256 bytes);
          raw_key = some (raw_key uid default_raw_suffix);
        })
    pub blob : get after.blobs (raw_key uid default_raw_suffix) ≡ some bytes
    pub published : after.published ≡ w.published ++ convert_job uid ∷ []
    pub artifacts : after.artifacts ≡ w.artifacts
    pub other_rows : (other : Text) → other ≢ uid → get after.models other ≡ get w.models other
    pub other_blobs :
        (key : Text) → key ≢ raw_key uid default_raw_suffix → get after.blobs key ≡ get w.blobs key

  after_fetch : Text → Blob → World → Result Text × World
  unfolding ◌>>=◌
  after_fetch uid bytes = do
    put_bytes (raw_key uid default_raw_suffix) bytes
    upsert_model uid (tools.sha256 bytes) (raw_key uid default_raw_suffix)
    publish_next convert_topic uid (codes "default")
    pure (codes "downloaded")

  Downloaded-after_fetch :
      (uid : Text) (bytes : Blob) (w : World)
      → ((after_fetch uid bytes w).0 ≡ ok (codes "downloaded"))
        × Downloaded uid bytes w (after_fetch uid bytes w).1
  unfolding after_fetch put_bytes upsert_model publish_next job_payload text_beq
  Downloaded-after_fetch uid bytes w =
      let row : Model = record (or_new (get w.models uid)) {
        download_status = DownloadStatus.downloaded;
        content_hash = some (tools.sha256 bytes);
        raw_key = some (raw_key uid default_raw_suffix);
      } in
      let raw = raw_key uid default_raw_suffix in
      (
        refl,
        record {
          row = get-put_self w.models uid row;
          blob = get-put_self w.blobs raw bytes;
          published = refl;
          artifacts = refl;
          other_rows =
              λ other ne. ground (arith, get-put w.models uid other row, text_beq_iff uid other);
          other_blobs =
              λ key ne. ground (arith, get-put w.blobs raw key bytes, text_beq_iff raw key);
        },
      )

  -- A model that is not downloaded, and whose mesh is fetched, is stored: its row says so and keeps its title, its tags
  -- and its deletion mark, a new row having none; the raw blob is the mesh; one convert job of the default variant
  -- is published; and no artifact row, other row or other blob changes.
  pub process_downloads :
      (job : Job) (w : World) (bytes : Blob)
      → already_downloaded w job.uid ≡ false
      → (fetch_mesh tools job.uid).0 ≡ some bytes
      → ((process tools job w).0 ≡ ok (codes "downloaded"))
        × Downloaded job.uid bytes w (process tools job w).1
  unfolding process download after_fetch
  process_downloads job w bytes missing fetched =
      rw (missing, fetched) (Downloaded-after_fetch job.uid bytes w)

  already_downloaded-Downloaded :
      (uid : Text) (bytes : Blob) (w after : World)
      → Downloaded uid bytes w after
      → already_downloaded after uid ≡ true
  unfolding already_downloaded exists
  already_downloaded-Downloaded uid bytes w after d = rw (d.row, d.blob) refl

  skip_lem :
      (uid : Text) (w : World)
      → skip tools uid w
        ≡ (ok (codes "skipped"), record w { published = w.published ++ convert_job uid ∷ [] })
  unfolding skip publish_next job_payload text_beq
  skip_lem uid w = refl

  pub process_of_there :
      (job : Job) (w : World)
      → already_downloaded w job.uid ≡ true
      → process tools job w
        ≡ (ok (codes "skipped"), record w { published = w.published ++ convert_job job.uid ∷ [] })
  unfolding process
  process_of_there job w there = rw (there, skip_lem job.uid w) refl

  already_downloaded-publish :
      (w : World) (uid : Text) (ms : List Message)
      → already_downloaded (record w { published = ms }) uid ≡ already_downloaded w uid
  unfolding already_downloaded exists
  already_downloaded-publish w uid ms = refl

  download_of_none :
      (uid : Text) (w : World)
      → (fetch_mesh tools uid).0 ≡ none
      → download tools uid w ≡ (err fetch_failed, w)
  unfolding download
  download_of_none uid w never = rw never refl

  download_leaves :
      (uid : Text) (w w' : World) (r : Text)
      → download tools uid w ≡ (ok r, w')
      → already_downloaded w' uid ≡ true
  unfolding download after_fetch
  download_leaves uid w w' r h = elim (Option-cases (fetch_mesh tools uid).0) [
    | inl never ↦ absurd (cc (ap (λ p. p.0) (download_of_none uid w never)))
    | inr (bytes, fetched) ↦
        let left : (after_fetch uid bytes w).1 ≡ w' = ap (λ p. p.1) (rw fetched at h) in
        already_downloaded-Downloaded uid bytes w w'
          (subst (λ x. Downloaded uid bytes w x) left (Downloaded-after_fetch uid bytes w).1)
  ]

  pub already_downloaded-process :
      (job : Job) (w w' : World) (r : Text)
      → process tools job w ≡ (ok r, w')
      → already_downloaded w' job.uid ≡ true
  unfolding process
  already_downloaded-process job w w' r h = elim (Bool-cases (already_downloaded w job.uid)) [
    | inr missing ↦ download_leaves job.uid w w' r (rw missing at h)
    | inl there ↦
        let left = ap (λ p. p.1) (rw (there, skip_lem job.uid w) at h) in
        subst (λ x. already_downloaded x job.uid ≡ true) left
          (already_downloaded-publish w job.uid _ ∙ there)
  ]
