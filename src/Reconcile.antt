-- ===== src/Reconcile.antt =====
-- server/app/reconcile_from_storage.py: the model and artifact tables rebuilt from a listing of the bucket.
-- No blob is read. The statements of one run are one transaction.
pub mod Run
pub mod Batches
pub mod Scan
pub mod Views
pub mod Rows
pub mod Outputs
pub mod Laws
pub mod Index
pub mod Restored
mod Examples
use image_genie.Base.{
  sort_by, text_leb, ℕ, zero, suc, ◌+◌, ◌-◌, ◌/◌, Bool, false, not, ◌||◌, Option, none, some, List,
  [], ◌∷◌, arith, ltb, leb, if◌then◌else◌, ◌==◌, length, take, drop, keep, count, Text, starts_with,
  Dict, get, put, empty, text_eq, nat_eq,
}
use image_genie.ArtifactKeys.{
  raw_prefix, converted_prefix, normalized_prefix, renders_root, renders_prefix, num_views,
  uid_from_key, default,
}
use image_genie.Pipeline.{
  World, Model, Artifact, DownloadStatus, pending, downloaded, ArtifactStage, converted, normalized,
  rendered, ArtifactId, done, Blob, Action, Result, ok, err, no_such_model, is_some, pure, ◌>>◌,
  ◌>>=◌, artifact_id_eq,
}

-- storage.list_keys(prefix). The storage promises no order; the entries of a bucket stand in the order in which this
-- listing finds them, which is any.
unfoldable pub list_keys : Text → List (Text × Blob) → List Text
list_keys prefix [] = []
list_keys prefix (pair ∷ pairs) =
    let rest = list_keys prefix pairs in if starts_with pair.0 prefix then pair.0 ∷ rest else rest

-- What `_uid_to_key_under` returns: the key of each uid, and how many keys had none.
pub record Listing : Type 0 where
  pub uid_to_key : Dict Text Text
  pub unrecognised : ℕ

-- One turn of the loop; the later of two keys of one uid stays.
abbrev pub file_key : Text → Option Text → Listing → Listing
file_key key none listing = record listing { unrecognised = suc listing.unrecognised }
file_key key (some uid) listing = record listing { uid_to_key = put listing.uid_to_key uid key }

unfoldable pub file_keys : List Text → Listing → Listing
file_keys [] listing = listing
file_keys (key ∷ keys) listing = file_keys keys (file_key key (uid_from_key key) listing)

unfoldable pub uid_to_key_under : World → Text → Listing
unfolding list_keys file_keys
uid_to_key_under w prefix =
    file_keys (list_keys prefix w.blobs.entries) (record { uid_to_key = empty; unrecognised = 0 })

-- `counter[uid]`, 0 where the uid is not in it
abbrev pub counted : Option ℕ → ℕ
counted none = 0
counted (some n) = n

abbrev pub tally_key : Option Text → Dict Text ℕ → Dict Text ℕ
tally_key none counter = counter
tally_key (some uid) counter = put counter uid (suc (counted (get counter uid)))

-- `uid_of` reads the uid off a key, if it names one.
unfoldable pub tally : (Text → Option Text) → List Text → Dict Text ℕ → Dict Text ℕ
tally uid_of [] counter = counter
tally uid_of (key ∷ keys) counter = tally uid_of keys (tally_key (uid_of key) counter)

-- The uids whose count passes the test.
unfoldable pub uids_with : (ℕ → Bool) → List (Text × ℕ) → List Text
uids_with test [] = []
uids_with test (pair ∷ pairs) =
    let rest = uids_with test pairs in if test pair.1 then pair.0 ∷ rest else rest

-- `_complete_render_uids`: the uids with every view, and those with some.
unfoldable pub complete_render_uids : World → List Text × List Text
unfolding list_keys tally uids_with
complete_render_uids w =
    let counter = tally uid_from_key (list_keys renders_root w.blobs.entries) empty in
    (
      uids_with (λ n. leb num_views n) counter.entries,
      uids_with (λ n. not (leb num_views n)) counter.entries,
    )

-- Sets of uids, as lists without repetition: membership, union and difference.
abbrev pub member : Text → List Text → Bool
member uid [] = false
member uid (other ∷ uids) = (other == uid) || member uid uids

unfoldable pub union : List Text → List Text → List Text
union [] others = others
union (uid ∷ uids) others =
    let rest = union uids others in if member uid rest then rest else uid ∷ rest

unfoldable pub minus : List Text → List Text → List Text
minus uids others = keep (λ uid. not (member uid others)) uids

unfoldable pub keys_of : List (Text × Text) → List Text
keys_of [] = []
keys_of (pair ∷ pairs) = pair.0 ∷ keys_of pairs

-- `_batched`: the slices from a start on. A batch is not empty, so the rows are fuel enough.
unfoldable pub batched_from {ℓ} : {A : Type ℓ} → ℕ → ℕ → ℕ → List A → List (List A)
batched_from zero start size rows = []
batched_from (suc fuel) start size rows =
    let rest = batched_from fuel (start + size) size rows in
    if ltb start (length rows) then take size (drop start rows) ∷ rest else []

unfoldable pub batched {ℓ} : {A : Type ℓ} → List A → ℕ → List (List A)
unfolding batched_from
batched rows size = batched_from (length rows) 0 size rows

abbrev pub insert_batch_size : ℕ
insert_batch_size = 1000

abbrev pub download_status_for : Option Text → DownloadStatus
download_status_for none = pending
download_status_for (some _) = downloaded

-- The row inserted, and on a conflict the row updated, for one uid and its raw key.
abbrev pub upserted_model : Option Text → Option Model → Model
upserted_model raw none = record {
  title = none;
  tags = none;
  deleted_at = none;
  download_status = download_status_for raw;
  content_hash = none;
  raw_key = raw;
}
upserted_model raw (some model) = record model {
  raw_key = raw;
  download_status = download_status_for raw;
}

unfoldable pub upsert_model : Text → Option Text → Action (Unit {0})
upsert_model uid raw w =
    (ok tt, record w { models = put w.models uid (upserted_model raw (get w.models uid)) })

-- Each row of each batch by an action, until one raises.
unfoldable pub for_each {ℓ} : {A : Type ℓ} → (A → Action (Unit {0})) → List A → Action (Unit {0})
unfolding ◌>>=◌
for_each act [] = pure tt
for_each act (row ∷ rows) = act row >> for_each act rows

unfoldable pub upsert_models : Dict Text Text → List Text → Action (Unit {0})
unfolding for_each batched sort_by text_leb upsert_model
upsert_models uid_to_raw_key all_uids =
    for_each (for_each (λ uid. upsert_model uid (get uid_to_raw_key uid)))
      (batched (sort_by text_leb all_uids) insert_batch_size)

-- `coalesce(artifact.content_hash, excluded.content_hash)`, where the second is null.
abbrev pub kept_hash : Option Artifact → Option Text
kept_hash none = none
kept_hash (some row) = row.content_hash

-- The row of one uid and key; the foreign key needs the model's row.
unfoldable pub upsert_artifact : ArtifactStage → Text × Text → Action (Unit {0})
upsert_artifact stage pair w =
    let id : ArtifactId = record { model_uid = pair.0; stage = stage } in
    if is_some (get w.models pair.0)
    then (
      ok tt,
      record w {
        artifacts =
            put w.artifacts id (record {
              key = pair.1;
              content_hash = kept_hash (get w.artifacts id);
              status = done;
            });
      },
    )
    else (err no_such_model, w)

-- Pairs in the order of their uids, which differ.
abbrev pub pair_leb : Text × Text → Text × Text → Bool
pair_leb a b = text_leb a.0 b.0

unfoldable pub upsert_artifacts : ArtifactStage → List (Text × Text) → Action (Unit {0})
unfolding for_each batched sort_by text_leb upsert_artifact
upsert_artifacts stage pairs =
    for_each (for_each (upsert_artifact stage)) (batched (sort_by pair_leb pairs) insert_batch_size)
