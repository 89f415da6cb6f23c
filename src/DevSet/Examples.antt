-- ===== src/DevSet/Examples.antt =====
-- A selection of two from a small gold set, its copy in the bucket, and its reservation.
use image_genie.Base.{
  ◌/◌, ◌≤◌, min, ◌≡◌, refl, true, false, ◌&&◌, ◌||◌, Option, none, some, List, [], ◌∷◌, ◌==◌,
  length, count, All, Text, codes, text_beq, Dict, get, put, empty, IsKeyed, sort_by, insert_by,
  text_leb, text_eq, nat_eq,
}
use image_genie.ArtifactKeys.{dev_set_key}
use image_genie.Pipeline.{World, put_bytes}
use image_genie.WeakLabel.{member}
use image_genie.WeakLabel.Taxonomy.{roster}
use image_genie.DevSet.{
  Sample, Reader, raised, DevSetMember, returns, exits, no_dev_set, select_dev_set, select_from,
  within_quota, beyond_quota, samples_of, ranked, candidates_of, push_dev_set, load_dev_set,
  dev_set_text, mark_dev_set, is_reserved,
}
use image_genie.DevSet.Quotas.{supply, select_dev_set-balanced}
use image_genie.DevSet.Selected.{IsEligible, select_dev_set-IsEligible}
use image_genie.DevSet.Reserved.{is_selected, mark_dev_set-reserves}

abbrev itself : Text → Text
itself uid = uid

abbrev gold : Dict Text Text
gold = record {
  entries =
      (codes "c", codes "chair")
      ∷ (codes "b", codes "lamp")
      ∷ (codes "a", codes "chair")
      ∷ (codes "d", codes "rug")
      ∷ [];
}

gold-IsKeyed : IsKeyed gold
unfolding get text_beq
gold-IsKeyed = record { found = (refl, (refl, (refl, (refl, tt)))) }

abbrev seen : List Text
seen = codes "b" ∷ []

chosen : select_dev_set itself gold seen 1 ≡ (codes "a", codes "chair") ∷ []
unfolding select_dev_set select_from within_quota beyond_quota samples_of ranked candidates_of
    sort_by insert_by text_leb text_beq
chosen = refl

select_dev_set-balanced_example :
    (length (select_dev_set itself gold seen 24)
      ≡ min 24 (supply (λ _. true) seen gold.entries roster))
    × ((class_name : Text)
        → member class_name roster ≡ true
        → min (24 / length roster) (length (candidates_of seen class_name gold.entries))
          ≤ count (λ sample. sample.1 == class_name) (select_dev_set itself gold seen 24))
select_dev_set-balanced_example = select_dev_set-balanced itself gold seen 24

select_dev_set-IsEligible_example :
    All (IsEligible gold seen roster) (select_dev_set itself gold seen 24)
select_dev_set-IsEligible_example = select_dev_set-IsEligible itself gold seen 24 gold-IsKeyed

-- A reader that ends lines by line feeds alone: the local file's text has one, and the stored bytes have none.
abbrev rows_in : Text → Option (List Sample)
rows_in [] = none
rows_in (c ∷ text) = some ((codes "a", codes "chair") ∷ (codes "x", codes "rug") ∷ [])

abbrev one_chair : Reader
one_chair = record {
  read_text = λ content. some (10 ∷ content);
  decode = λ content. some content;
  rows_of = rows_in;
}

abbrev nothing_stored : World
nothing_stored = record { models = empty; artifacts = empty; blobs = empty; published = [] }

-- A stored copy whose row cannot be read, and a missing one.
unreadable_copy :
    load_dev_set one_chair none
      (codes "lvis")
      (push_dev_set (some []) (codes "gcs") (codes "lvis") nothing_stored).1
    ≡ exits raised
unfolding load_dev_set dev_set_text push_dev_set put_bytes dev_set_key get put text_beq
unreadable_copy = refl

no_copy : load_dev_set one_chair none (codes "lvis") nothing_stored ≡ exits no_dev_set
unfolding load_dev_set dev_set_text get
no_copy = refl

loads :
    load_dev_set one_chair (some []) (codes "lvis") nothing_stored
    ≡ returns ((codes "a", codes "chair") ∷ [])
unfolding load_dev_set dev_set_text text_beq
loads = refl

abbrev marked : List DevSetMember
marked = (mark_dev_set one_chair (some []) (codes "lvis") nothing_stored []).1

mark_dev_set-reserves_example :
    ((uid other : Text)
      → is_reserved uid other marked
        ≡ (false || ((codes "lvis" == other) && is_selected uid ((codes "a", codes "chair") ∷ []))))
    × (mark_dev_set one_chair (some []) (codes "lvis") nothing_stored marked ≡ (returns 0, marked))
mark_dev_set-reserves_example =
    mark_dev_set-reserves one_chair (some []) (codes "lvis") nothing_stored []
      (codes "a", codes "chair") [] loads
