-- ===== src/Catalog.antt =====
-- The catalog routes of server/app/api.py: the labels of the models, their soft deletion, and the models that a
-- training run may use (ml/train.py). The callers of the writing routes are administrators.
pub mod Routes
pub mod Listing
pub mod Orders
pub mod Pages
pub mod Deleted
pub mod Current
pub mod Protected
pub mod Trainable
mod Examples
use image_genie.Base.{
  ℕ, ◌+◌, ◌-◌, ◌/◌, Bool, true, false, ◌&&◌, ◌||◌, Option, none, some, List, [], ◌∷◌, ◌++◌, arith,
  ltb, if◌then◌else◌, ◌==◌, take, keep, count, Text, codes, Dict, get, text_leb, text_eq, nat_eq,
}
use image_genie.ArtifactKeys.{view_key, default}
use image_genie.Pipeline.{Model, Artifact, ArtifactStage, ArtifactId, is_done, artifact_id_eq}
use image_genie.WeakLabel.{member}
use image_genie.WeakLabel.Taxonomy.{roster}
use image_genie.DevSet.{DevSetMember}
use image_genie.RateLimit.{FixedWindowRateLimiter}

pub data LabelSource : Type 0 where
  weak manual : LabelSource

pub record Label : Type 0 where
  pub id : ℕ
  pub model_uid : Text
  pub class_name : Text
  pub source : LabelSource
  pub confidence : Option ℕ
  pub annotator : Option Text
  pub created_at : ℕ

pub record Tables : Type 0 where
  pub models : Dict Text Model
  pub labels : List Label
  pub next_label_id : ℕ
  pub reserved : List DevSetMember
  pub artifacts : Dict ArtifactId Artifact
  pub label_limiter : FixedWindowRateLimiter

-- CLASS_ROSTER of server/app/roster.py
abbrev pub class_roster : List Text
class_roster =
    codes "aircraft"
    ∷ codes "animal"
    ∷ codes "building"
    ∷ codes "car"
    ∷ codes "chair"
    ∷ codes "electronics"
    ∷ codes "figure"
    ∷ codes "food"
    ∷ codes "lamp"
    ∷ codes "plant"
    ∷ codes "table"
    ∷ codes "weapon"
    ∷ []

-- `_latest_labels`: the newest label of a model, the later row of two of one moment.
abbrev pub newer : Label → Label → Bool
newer a b = ltb b.created_at a.created_at || ((a.created_at == b.created_at) && ltb b.id a.id)

abbrev pub newest_of : Label → Option Label → Label
newest_of label none = label
newest_of label (some other) = if newer other label then other else label

unfoldable pub latest_label : List Label → Text → Option Label
latest_label [] uid = none
latest_label (label ∷ labels) uid =
    let rest = latest_label labels uid in
    if label.model_uid == uid then some (newest_of label rest) else rest

abbrev pub is_live : Option Model → Bool
is_live none = false
is_live (some model) = elim model.deleted_at [ none ↦ true | some _ ↦ false ]

-- `_dev_set_reservations`: the first dev set, by name, that a model is reserved to.
abbrev pub first_name : Text → Option Text → Text
first_name name none = name
first_name name (some other) = if text_leb name other then name else other

unfoldable pub reserved_to : List DevSetMember → Text → Option Text
reserved_to [] uid = none
reserved_to (row ∷ rows) uid =
    let rest = reserved_to rows uid in
    if row.model_uid == uid then some (first_name row.dev_set rest) else rest

pub record ModelSummary : Type 0 where
  pub uid : Text
  pub title : Text
  pub tags : List Text
  pub class_name : Option Text
  pub source : Option LabelSource
  pub confidence : Option ℕ
  pub thumbnail : Text
  pub dev_set : Option Text

-- `title or f"model {uid[:8]}"`
abbrev pub title_or : Text → Option Text → Text
title_or uid none = codes "model " ++ take 8 uid
title_or uid (some []) = codes "model " ++ take 8 uid
title_or uid (some (c ∷ title)) = c ∷ title

abbrev pub tags_or : Option (List Text) → List Text
tags_or none = []
tags_or (some tags) = tags

abbrev pub class_of : Option Label → Option Text
class_of none = none
class_of (some label) = some label.class_name

abbrev pub source_of : Option Label → Option LabelSource
source_of none = none
source_of (some label) = some label.source

abbrev pub confidence_of : Option Label → Option ℕ
confidence_of none = none
confidence_of (some label) = label.confidence

-- `_thumbnail_url`; `signed_url` is the storage's.
abbrev pub signed_or : Option Text → Text → Text → Text
signed_or none url_prefix key = url_prefix ++ (codes "/artifacts/" ++ key)
signed_or (some url) url_prefix key = url

module _ (signed_url : Text → Option Text) (url_prefix : Text) where
  unfoldable pub thumbnail_url : Text → Text
  unfolding view_key
  thumbnail_url uid =
      signed_or (signed_url (view_key uid 0 default)) url_prefix (view_key uid 0 default)

  -- `_summary` on the row of `_summary_select`
  unfoldable pub summary : Tables → Text → Model → ModelSummary
  unfolding latest_label reserved_to thumbnail_url
  summary tables uid model =
      let label = latest_label tables.labels uid in
      record {
        uid = uid;
        title = title_or uid model.title;
        tags = tags_or model.tags;
        class_name = class_of label;
        source = source_of label;
        confidence = confidence_of label;
        thumbnail = thumbnail_url uid;
        dev_set = reserved_to tables.reserved uid;
      }

-- The models with a label, each once.
unfoldable pub labeled_uids : List Label → List Text
labeled_uids [] = []
labeled_uids (label ∷ labels) =
    let rest = labeled_uids labels in
    if member label.model_uid rest then rest else label.model_uid ∷ rest

-- Live, with a finished render.
unfoldable pub is_usable : Tables → Text → Bool
is_usable tables uid =
    is_live (get tables.models uid)
    && is_done (get tables.artifacts (record { model_uid = uid; stage = ArtifactStage.rendered }))

-- `_trainable_count`
unfoldable pub trainable_count : Tables → ℕ
unfolding labeled_uids is_usable
trainable_count tables = count (is_usable tables) (labeled_uids tables.labels)

abbrev pub with_class : Text → Option Label → List (Text × Text) → List (Text × Text)
with_class uid none rows = rows
with_class uid (some label) rows = (uid, label.class_name) ∷ rows

-- The rows of the query of `load_trainable_samples`, and what it keeps of them.
unfoldable pub trainable_rows : Tables → List Text → List (Text × Text)
unfolding is_usable latest_label
trainable_rows tables [] = []
trainable_rows tables (uid ∷ uids) =
    let rest = trainable_rows tables uids in
    if is_usable tables uid then with_class uid (latest_label tables.labels uid) rest else rest

unfoldable pub load_trainable_samples : Tables → List (Text × Text)
unfolding trainable_rows labeled_uids
load_trainable_samples tables =
    keep (λ row. member row.1 roster) (trainable_rows tables (labeled_uids tables.labels))
