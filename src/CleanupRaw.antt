-- ===== src/CleanupRaw.antt =====
-- server/app/cleanup_raw.py: the raw meshes of models that are not in the dataset are deleted.
pub mod Laws
mod Examples
use image_genie.Base.{
  ℕ, suc, ◌+◌, ◌-◌, ◌/◌, Bool, true, false, not, ◌&&◌, ◌||◌, Option, none, some, List, [], ◌∷◌,
  arith, ltb, if◌then◌else◌, ◌==◌, length, Text, starts_with, Dict, get, remove, text_eq, nat_eq,
}
use image_genie.ArtifactKeys.{raw_prefix, uid_from_key}
use image_genie.Pipeline.{World, Model, Blob}

pub record Label : Type 0 where
  pub id : ℕ
  pub model_uid : Text
  pub class_name : Text
  pub created_at : ℕ

-- Why a mesh is not in the dataset.
pub data Reason : Type 0 where
  orphan deleted unlabeled out_of_scope : Reason

pub record Candidate : Type 0 where
  pub key : Text
  pub uid : Option Text
  pub reason : Reason
  pub size_bytes : ℕ

-- `ORDER BY created_at DESC, id DESC`, the first of each model
abbrev pub later : Label → Label → Bool
later a b = ltb b.created_at a.created_at || ((a.created_at == b.created_at) && ltb b.id a.id)

abbrev pub latest_of : Label → Option Label → Label
latest_of label none = label
latest_of label (some other) = if later other label then other else label

unfoldable pub current_label : List Label → Text → Option Label
current_label [] uid = none
current_label (label ∷ labels) uid =
    let rest = current_label labels uid in
    if label.model_uid == uid then some (latest_of label rest) else rest

-- The names in the roster.
abbrev pub in_roster : Text → List Text → Bool
in_roster name [] = false
in_roster name (other ∷ names) = (other == name) || in_roster name names

-- What `_classify` finds of a known model that is not deleted, by its label.
abbrev pub classify_label : List Text → Option Label → Option Reason
classify_label in_scope none = some unlabeled
classify_label in_scope (some label) =
    if in_roster label.class_name in_scope then none else some out_of_scope

abbrev is_live : Option ℕ → Bool
is_live none = true
is_live (some _) = false

abbrev pub classify_model : List Text → List Label → Text → Option Model → Option Reason
classify_model in_scope labels uid none = some orphan
classify_model in_scope labels uid (some model) =
    if is_live model.deleted_at
    then classify_label in_scope (current_label labels uid)
    else some deleted

-- The reason to delete the mesh of a uid, if there is one; a key that has no uid is kept.
abbrev pub reason_for : List Text → List Label → Dict Text Model → Option Text → Option Reason
reason_for in_scope labels models none = none
reason_for in_scope labels models (some uid) = classify_model in_scope labels uid (get models uid)

abbrev pub candidate_of : Text → ℕ → Option Text → Option Reason → Option Candidate
candidate_of key size_bytes uid none = none
candidate_of key size_bytes uid (some reason) =
    some (record { key = key; uid = uid; reason = reason; size_bytes = size_bytes })

-- `_classify`
unfoldable pub classify : List Text → List Label → Dict Text Model → Text → ℕ → Option Candidate
classify in_scope labels models key size_bytes =
    candidate_of key size_bytes (uid_from_key key)
      (reason_for in_scope labels models (uid_from_key key))

-- storage.list_sizes(prefix)
unfoldable pub list_sizes : Text → List (Text × Blob) → List (Text × ℕ)
list_sizes prefix [] = []
list_sizes prefix (pair ∷ pairs) =
    let rest = list_sizes prefix pairs in
    if starts_with pair.0 prefix then (pair.0, length pair.1) ∷ rest else rest

abbrev pub keep_some : Option Candidate → List Candidate → List Candidate
keep_some none candidates = candidates
keep_some (some candidate) candidates = candidate ∷ candidates

unfoldable pub select_among :
    List Text → List Label → Dict Text Model → List (Text × ℕ) → List Candidate
unfolding classify
select_among in_scope labels models [] = []
select_among in_scope labels models (pair ∷ pairs) =
    keep_some (classify in_scope labels models pair.0 pair.1)
      (select_among in_scope labels models pairs)

unfoldable pub select_candidates : List Text → List Label → World → List Candidate
unfolding list_sizes select_among
select_candidates in_scope labels w =
    select_among in_scope labels w.models (list_sizes raw_prefix w.blobs.entries)

-- Objects deleted, bytes reclaimed and the bucket after it; the storage's `delete` raises for some keys.
unfoldable pub delete_candidates : (Text → Bool) → List Candidate → World → (ℕ × ℕ) × World
delete_candidates raises [] w = ((0, 0), w)
delete_candidates raises (candidate ∷ candidates) w =
    let ((deleted_count, reclaimed_bytes), w') =
      delete_candidates raises candidates
        (if raises candidate.key then w else record w { blobs = remove w.blobs candidate.key }) in
    if raises candidate.key
    then ((deleted_count, reclaimed_bytes), w')
    else ((suc deleted_count, candidate.size_bytes + reclaimed_bytes), w')

abbrev pub reason_beq : Reason → Reason → Bool
reason_beq orphan orphan = true
reason_beq deleted deleted = true
reason_beq unlabeled unlabeled = true
reason_beq out_of_scope out_of_scope = true
reason_beq _ _ = false

-- The objects and the bytes under a reason.
unfoldable pub summarize : Reason → List Candidate → ℕ × ℕ
summarize reason [] = (0, 0)
summarize reason (candidate ∷ candidates) =
    let (counts, total_bytes) = summarize reason candidates in
    if reason_beq candidate.reason reason
    then (suc counts, candidate.size_bytes + total_bytes)
    else (counts, total_bytes)
