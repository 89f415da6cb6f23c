-- ===== src/CleanupRaw/Examples.antt =====
-- A small bucket, and the theorems at concrete inputs.
use image_genie.Base.{
  ◌≡◌, refl, Bool, true, false, none, some, List, [], ◌∷◌, Text, codes, text_beq, starts_with,
  ends_with, contains, get, empty, text_eq, nat_eq,
}
use image_genie.ArtifactKeys.{raw_prefix, uid_from_key, uid_among, one_segment, slice_between}
use image_genie.Pipeline.{World, Model, DownloadStatus}
use image_genie.CleanupRaw.{
  Label, orphan, deleted, Candidate, current_label, select_candidates, delete_candidates,
}
use image_genie.CleanupRaw.Laws.{InDataset, clean_up-outside, clean_up-InDataset}

abbrev roster : List Text
roster = codes "chair" ∷ codes "lamp" ∷ []

abbrev row : Model
row = record {
  title = none;
  tags = none;
  deleted_at = none;
  download_status = DownloadStatus.downloaded;
  content_hash = none;
  raw_key = none;
}

-- The model `c0` is labelled twice; `x0` has no row.
abbrev labels : List Label
labels =
    record { id = 1; model_uid = codes "c0"; class_name = codes "boat"; created_at = 5 }
    ∷ record { id = 2; model_uid = codes "c0"; class_name = codes "chair"; created_at = 5 }
    ∷ []

abbrev w : World
w = record {
  models = record { entries = (codes "c0", row) ∷ [] };
  artifacts = empty;
  blobs = record { entries = (codes "raw/c0.glb", 1 ∷ []) ∷ (codes "raw/x0.stl", 2 ∷ 3 ∷ []) ∷ [] };
  published = [];
}

abbrev never : Text → Bool
never _ = false

c0-InDataset : InDataset roster labels w (codes "c0")
unfolding get text_beq current_label
c0-InDataset = record {
  row = row;
  known = refl;
  live = refl;
  label = record { id = 2; model_uid = codes "c0"; class_name = codes "chair"; created_at = 5 };
  labelled = refl;
  named = refl;
}

c0-parsed : uid_from_key (codes "raw/c0.glb") ≡ some (codes "c0")
unfolding uid_from_key uid_among one_segment slice_between starts_with ends_with contains text_beq
c0-parsed = refl

clean_up-InDataset_example :
    get (delete_candidates never (select_candidates roster labels w) w).1.blobs (codes "raw/c0.glb")
    ≡ get w.blobs (codes "raw/c0.glb")
clean_up-InDataset_example =
    clean_up-InDataset roster labels never w (codes "c0") (codes "raw/c0.glb") c0-InDataset
      c0-parsed

abbrev two : List Candidate
two =
    record { key = codes "raw/x0.stl"; uid = some (codes "x0"); reason = orphan; size_bytes = 2 }
    ∷ record { key = codes "raw/y0.stl"; uid = some (codes "y0"); reason = deleted; size_bytes = 3 }
    ∷ []

clean_up-outside_example :
    (let after = (delete_candidates never (select_candidates roster labels w) w).1 in
      ((uid : Text)
        → uid_from_key (codes "raw/x0.stl") ≡ some uid
        → starts_with (codes "raw/x0.stl") raw_prefix ≡ true
        → false ≡ false
        → ¬ InDataset roster labels w uid
        → get after.blobs (codes "raw/x0.stl") ≡ none)
      × (starts_with (codes "raw/x0.stl") raw_prefix ≡ false
          → get after.blobs (codes "raw/x0.stl") ≡ get w.blobs (codes "raw/x0.stl"))
      × (uid_from_key (codes "raw/x0.stl") ≡ none
          → get after.blobs (codes "raw/x0.stl") ≡ get w.blobs (codes "raw/x0.stl"))
      × (false ≡ true → get after.blobs (codes "raw/x0.stl") ≡ get w.blobs (codes "raw/x0.stl")))
clean_up-outside_example = clean_up-outside roster labels never w (codes "raw/x0.stl")

x0-parsed : uid_from_key (codes "raw/x0.stl") ≡ some (codes "x0")
unfolding uid_from_key uid_among one_segment slice_between starts_with ends_with contains text_beq
x0-parsed = refl

x0-outside : ¬ InDataset roster labels w (codes "x0")
unfolding get text_beq
x0-outside d = cc d.known

x0-deleted :
    get (delete_candidates never (select_candidates roster labels w) w).1.blobs (codes "raw/x0.stl")
    ≡ none
unfolding starts_with
x0-deleted =
    (clean_up-outside roster labels never w (codes "raw/x0.stl")).0 (codes "x0") x0-parsed refl refl
      x0-outside
