-- ===== src/TextureSubset/Examples.antt =====
-- A selection from a census of four rows, and a bucket with the views of one model.
use image_genie.Base.{
  ℕ, ◌+◌, ◌≤◌, min, ◌≡◌, refl, Bool, true, ◌&&◌, List, [], ◌∷◌, leb, ◌==◌, length, count, Text,
  codes, text_beq, starts_with, ends_with, get, put, empty, sort_by, text_leb, text_eq, nat_eq,
}
use image_genie.ArtifactKeys.{
  textured, num_views, renders_prefix, view_key, view_keys, view_keys_below, partition_slash,
}
use image_genie.ArtifactKeys.Decimal.{decimal, pad2}
use image_genie.Pipeline.{World, Blob}
use image_genie.Reconcile.{list_keys, tally, uids_with}
use image_genie.WeakLabel.{member}
use image_genie.WeakLabel.Taxonomy.{roster}
use image_genie.DevSet.{samples_of}
use image_genie.TextureSubset.{
  CensusRow, is_candidate, uids_of, class_to_candidates, capped, select_subset,
  qualifying_dev_set_uids, select_textured_dev_set, variant_prefix, rstrip_slash, view_uid,
  rendered_uids, verify_against_renders,
}
use image_genie.TextureSubset.Rendered.{listed_pngs, verify_against_renders-kept}
use image_genie.TextureSubset.Capped.{select_subset-capped}

abbrev census_row : Text → Text → Text → Text → CensusRow
census_row uid class_name population tier = record {
  uid = uid;
  class_name = class_name;
  population = population;
  tier = tier;
}

abbrev census : List CensusRow
census =
    census_row (codes "c") (codes "chair") (codes "trainable") (codes "texture")
    ∷ census_row (codes "b") (codes "chair") (codes "trainable") (codes "texture")
    ∷ census_row (codes "a") (codes "chair") (codes "trainable") (codes "none")
    ∷ census_row (codes "d") (codes "lamp") (codes "lvis") (codes "texture")
    ∷ []

-- Only the chairs with a texture are candidates, and under a cap of one the lower hash is taken.
one_chair :
    select_subset (class_to_candidates (λ text. text) census) 1 ≡ (codes "b", codes "chair") ∷ []
unfolding select_subset capped class_to_candidates uids_of sort_by text_leb text_beq samples_of
one_chair = refl

both_chairs :
    select_subset (class_to_candidates (λ text. text) census) 300
    ≡ (codes "b", codes "chair") ∷ (codes "c", codes "chair") ∷ []
unfolding select_subset capped class_to_candidates uids_of sort_by text_leb text_beq samples_of
both_chairs = refl

textured_lamp :
    select_textured_dev_set
      ((codes "d", codes "lamp") ∷ (codes "e", codes "lamp") ∷ [])
      (qualifying_dev_set_uids census)
    ≡ (codes "d", codes "lamp") ∷ []
unfolding select_textured_dev_set qualifying_dev_set_uids uids_of text_beq
textured_lamp = refl

select_subset-capped_example :
    ((class_name : Text)
      → member class_name roster ≡ true
      → count
          (λ sample. sample.1 == class_name)
          (select_subset (class_to_candidates (λ text. text) census) 1)
        ≡ min 1 (count (is_candidate class_name) census))
    × ((p : Text × Text → Bool) (higher : ℕ)
        → 1 ≤ higher
        → count p (select_subset (class_to_candidates (λ text. text) census) 1)
          ≤ count p (select_subset (class_to_candidates (λ text. text) census) higher))
select_subset-capped_example = select_subset-capped (λ text. text) census 1

-- A bucket with objects of no content.
abbrev holding : List Text → List (Text × Blob)
holding [] = []
holding (key ∷ keys) = (key, []) ∷ holding keys

abbrev bucket : World
bucket = record {
  models = empty;
  artifacts = empty;
  blobs = record {
    entries = holding (view_key (codes "b") 0 textured ∷ view_keys (codes "a") textured);
  };
  published = [];
}

abbrev rows : List (Text × Text)
rows = (codes "a", codes "chair") ∷ (codes "b", codes "lamp") ∷ []

textured_prefix : variant_prefix textured ≡ codes "processed/renders_textured/"
unfolding variant_prefix renders_prefix rstrip_slash
textured_prefix = refl

-- A model with one view of twelve is dropped.
half_rendered : verify_against_renders bucket textured rows ≡ ((codes "a", codes "chair") ∷ [], 1)
unfolding verify_against_renders rendered_uids list_keys tally uids_with view_uid variant_prefix
    renders_prefix rstrip_slash partition_slash ends_with starts_with view_key view_keys
    view_keys_below pad2 decimal get put text_beq
half_rendered = refl

verify_against_renders-kept_example :
    (let (kept, dropped) = verify_against_renders bucket textured rows in
      ((p : Text × Text → Bool)
        → count p kept
          ≡ count (λ row. leb num_views (listed_pngs bucket textured row.0) && p row) rows)
      × (length kept + dropped ≡ length rows)
      × (verify_against_renders bucket textured kept ≡ (kept, 0)))
verify_against_renders-kept_example = verify_against_renders-kept bucket textured rows
