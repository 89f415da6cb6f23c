-- ===== src/TextureSubset.antt =====
-- ml/build_texture_subset.py: a capped selection from the census of textures, and the dev set's textured part.
pub mod Capped
pub mod Rendered
mod Examples
use image_genie.Base.{
  ℕ, ◌+◌, ◌-◌, ◌/◌, Bool, not, ◌&&◌, Option, none, some, List, [], ◌∷◌, ◌++◌, arith, leb, nat_beq,
  if◌then◌else◌, ◌==◌, length, take, drop, keep, Text, codes, ends_with, empty, sort_by, text_leb,
  text_eq, nat_eq,
}
use image_genie.ArtifactKeys.{partition_slash, Variant, renders_prefix, num_views}
use image_genie.Pipeline.{World}
use image_genie.Reconcile.{list_keys, tally, uids_with}
use image_genie.WeakLabel.{member}
use image_genie.WeakLabel.Taxonomy.{roster}
use image_genie.DevSet.{Sample, samples_of}

-- A row of the census; `class_name` is the column `class`.
pub record CensusRow : Type 0 where
  pub uid : Text
  pub class_name : Text
  pub population : Text
  pub tier : Text

abbrev pub qualifying_tier : Text
qualifying_tier = codes "texture"

abbrev pub qualifying_population : Text
qualifying_population = codes "trainable"

abbrev pub population_lvis : Text
population_lvis = codes "lvis"

-- The row qualifies, and stands under one class.
abbrev pub is_candidate : Text → CensusRow → Bool
is_candidate class_name row =
    (row.population == qualifying_population)
    && ((row.tier == qualifying_tier) && (row.class_name == class_name))

unfoldable pub uids_of : (CensusRow → Bool) → List CensusRow → List Text
uids_of p [] = []
uids_of p (row ∷ census) = let rest = uids_of p census in if p row then row.uid ∷ rest else rest

-- `digest` is the SHA-256 of a salted uid, in hexadecimal.
module _ (digest : Text → Text) where
  abbrev pub subset_rank_leb : Text → Text → Bool
  subset_rank_leb a b =
      text_leb (digest (codes "texture-subset:" ++ a)) (digest (codes "texture-subset:" ++ b))

  -- The candidates of each class; a class outside the roster has none that is read.
  unfoldable pub class_to_candidates : List CensusRow → Text → List Text
  unfolding uids_of sort_by text_leb
  class_to_candidates census class_name =
      sort_by subset_rank_leb (uids_of (is_candidate class_name) census)

  -- No census, no candidates: `none` is the SystemExit.
  abbrev pub load_qualifying_candidates : Option (List CensusRow) → Option (Text → List Text)
  load_qualifying_candidates none = none
  load_qualifying_candidates (some census) = some (class_to_candidates census)

-- The order of pairs of strings.
abbrev pub sample_leb : Sample → Sample → Bool
sample_leb a b = if a.0 == b.0 then text_leb a.1 b.1 else text_leb a.0 b.0

unfoldable pub capped : (Text → List Text) → ℕ → List Text → List Sample
unfolding samples_of
capped candidates cap [] = []
capped candidates cap (class_name ∷ classes) =
    samples_of class_name (take cap (candidates class_name)) ++ capped candidates cap classes

unfoldable pub select_subset : (Text → List Text) → ℕ → List Sample
unfolding capped sort_by text_leb
select_subset candidates cap = sort_by sample_leb (capped candidates cap roster)

-- The dev-set uids with a texture.
unfoldable pub qualifying_dev_set_uids : List CensusRow → List Text
unfolding uids_of
qualifying_dev_set_uids =
    uids_of (λ row. (row.population == population_lvis) && (row.tier == qualifying_tier))

unfoldable pub select_textured_dev_set : List Sample → List Text → List Sample
select_textured_dev_set dev_set qualifying = keep (λ sample. member sample.0 qualifying) dev_set

-- `prefix.rstrip("/")`
abbrev pub unless_slash : ℕ → Text → Text
unless_slash c [] = if nat_beq c 47 then [] else c ∷ []
unless_slash c (d ∷ s) = c ∷ (d ∷ s)

unfoldable pub rstrip_slash : Text → Text
rstrip_slash [] = []
rstrip_slash (c ∷ s) = unless_slash c (rstrip_slash s)

unfoldable pub variant_prefix : Variant → Text
unfolding renders_prefix rstrip_slash
variant_prefix v = rstrip_slash (renders_prefix [] v) ++ codes "/"

-- The uid that a listed key counts a view for.
unfoldable pub view_uid : Text → Text → Option Text
unfolding partition_slash ends_with
view_uid prefix key =
    let (uid, separator, view) = partition_slash (drop (length prefix) key) in
    if not (uid == []) && (not (separator == []) && ends_with view (codes ".png"))
    then some uid
    else none

unfoldable pub rendered_uids : World → Variant → List Text
unfolding list_keys tally uids_with view_uid variant_prefix
rendered_uids w v =
    let prefix = variant_prefix v in
    let counter = tally (view_uid prefix) (list_keys prefix w.blobs.entries) empty in
    uids_with (λ n. leb num_views n) counter.entries

-- One file of the loop: the rows that are written back, and how many are dropped. A row is its uid and its other
-- columns.
unfoldable pub verify_against_renders :
    {Columns : Type 0} → World → Variant → List (Text × Columns) → List (Text × Columns) × ℕ
unfolding rendered_uids
verify_against_renders w v rows =
    let kept = keep (λ row. member row.0 (rendered_uids w v)) rows in
    (kept, length rows - length kept)
