-- ===== src/ArtifactKeys/Examples.antt =====
-- Keys at concrete uids, and the theorems at inputs that meet their hypotheses.
use image_genie.Base.{
  ◌≡◌, refl, ◌↔◌, none, some, Text, codes, text_beq, starts_with, ends_with, contains,
}
use image_genie.ArtifactKeys.{textured, view_key, uid_from_key, layout_for, uid_among}
use image_genie.ArtifactKeys.Decimal.{decimal, pad2}
use image_genie.ArtifactKeys.RoundTrip.{IsUid}
use image_genie.ArtifactKeys.Accepted.{Names, uid_from_key_iff}

abbrev cow : Text
cow = codes "cow7"

cow-IsUid : IsUid cow
unfolding contains
cow-IsUid = record { filled = refl; segment = refl }

view_07 : view_key cow 7 textured ≡ codes "processed/renders_textured/cow7/view_07.png"
unfolding view_key decimal pad2
view_07 = refl

no_nested_uid : uid_from_key (codes "raw/a/b.glb") ≡ none
unfolding uid_from_key uid_among starts_with ends_with contains text_beq
no_nested_uid = refl

unknown_variant : layout_for (codes "texturd") ≡ none
unfolding layout_for text_beq
unknown_variant = refl

uid_from_key_iff_example :
    (uid_from_key (codes "raw/cow7.stl") ≡ some cow)
    ↔ (IsUid cow × Names cow (codes "raw/cow7.stl"))
uid_from_key_iff_example = uid_from_key_iff (codes "raw/cow7.stl") cow
