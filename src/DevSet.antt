-- ===== src/DevSet.antt =====
-- ml/build_dev_set.py: the second dev set, selected from gold objects that were never ingested, kept in a
-- file and the bucket, and reserved in a table so that its models stay unlabeled.
pub mod Quotas
pub mod Selected
pub mod Reserved
mod Examples
use image_genie.Base.{
  ℕ, ◌+◌, ◌-◌, ◌/◌, Bool, true, false, not, ◌&&◌, ◌||◌, Option, none, some, List, [], ◌∷◌, ◌++◌,
  arith, if◌then◌else◌, ◌==◌, length, take, drop, keep, count, Text, codes, Dict, get, sort_by,
  text_leb, text_eq, nat_eq,
}
use image_genie.ArtifactKeys.{dev_set_key}
use image_genie.Pipeline.{World, Blob, Result, put_bytes}
use image_genie.WeakLabel.{member}
use image_genie.WeakLabel.Taxonomy.{roster}

-- The names in DEV_SET_NAME_TO_PATH, and `dev_set_path`; `none` is the ValueError.
abbrev pub dev_set_name : Text
dev_set_name = codes "lvis"

abbrev pub textured_dev_set_name : Text
textured_dev_set_name = codes "lvis_textured"

unfoldable pub dev_set_path : Text → Option Text
dev_set_path name =
    if name == dev_set_name
    then some (codes "data/devset/lvis_dev.csv")
    else if name == textured_dev_set_name
    then some (codes "data/devset/lvis_textured.csv")
    else none

-- A uid and its class.
abbrev pub Sample : Type 0
Sample = Text × Text

-- `[(uid, class_name) for uid in uids]`
unfoldable pub samples_of : Text → List Text → List Sample
samples_of class_name [] = []
samples_of class_name (uid ∷ uids) = (uid, class_name) ∷ samples_of class_name uids

-- The gold objects of one class that were not ingested, in the order of the dictionary.
unfoldable pub candidates_of : List Text → Text → List (Text × Text) → List Text
candidates_of ingested class_name [] = []
candidates_of ingested class_name (object ∷ objects) =
    let rest = candidates_of ingested class_name objects in
    if not (member object.0 ingested) && (object.1 == class_name) then object.0 ∷ rest else rest

-- `digest` is the SHA-256 of a uid, in hexadecimal.
module _ (digest : Text → Text) where
  abbrev pub hash_leb : Text → Text → Bool
  hash_leb a b = text_leb (digest a) (digest b)

  abbrev pub sample_leb : Sample → Sample → Bool
  sample_leb a b = text_leb (digest a.0) (digest b.0)

  unfoldable pub ranked : List Text → List (Text × Text) → Text → List Text
  unfolding candidates_of sort_by text_leb
  ranked ingested gold class_name = sort_by hash_leb (candidates_of ingested class_name gold)

  -- The first `quota` candidates of each class, and those that are left over.
  unfoldable pub within_quota : ℕ → List Text → List (Text × Text) → List Text → List Sample
  unfolding samples_of ranked
  within_quota quota ingested gold [] = []
  within_quota quota ingested gold (class_name ∷ classes) =
      samples_of class_name (take quota (ranked ingested gold class_name))
      ++ within_quota quota ingested gold classes

  unfoldable pub beyond_quota : ℕ → List Text → List (Text × Text) → List Text → List Sample
  unfolding samples_of ranked
  beyond_quota quota ingested gold [] = []
  beyond_quota quota ingested gold (class_name ∷ classes) =
      samples_of class_name (drop quota (ranked ingested gold class_name))
      ++ beyond_quota quota ingested gold classes

  unfoldable pub select_from : List Text → List (Text × Text) → List Text → ℕ → List Sample
  unfolding within_quota beyond_quota sort_by text_leb
  select_from classes gold ingested total =
      let quota = total / length classes in
      let selected = within_quota quota ingested gold classes in
      let leftovers = sort_by sample_leb (beyond_quota quota ingested gold classes) in
      sort_by sample_leb (selected ++ take (total - length selected) leftovers)

  unfoldable pub select_dev_set : Dict Text Text → List Text → ℕ → List Sample
  unfolding select_from
  select_dev_set uid_to_gold_class ingested total =
      select_from roster uid_to_gold_class.entries ingested total

-- How many selected uids have a weak label.
unfoldable pub count_weak_label_overlap : List Sample → List Text → ℕ
count_weak_label_overlap selected weak_labeled =
    count (λ sample. member sample.0 weak_labeled) selected

-- What ends the program: no file to push, a backend that no job can read, an unreadable selection, no rows; or an
-- error that is raised on, of the local file's decoding or of the reader of rows.
pub data Exit : Type 0 where
  nothing_to_push local_backend no_dev_set no_rows raised : Exit

pub data Outcome {ℓ} (A : Type ℓ) : Type ℓ where
  returns : A → Outcome A
  exits : Exit → Outcome A

-- What reads a selection: `path.read_text`, which decodes the bytes and translates their line ends; `decode` of
-- UTF-8, which keeps them; and `csv.DictReader` with the columns uid and class. `none` is an error that is raised.
pub record Reader : Type 0 where
  pub read_text : Blob → Option Text
  pub decode : Blob → Option Text
  pub rows_of : Text → Option (List Sample)

-- `push_dev_set`, from the content of the local file and the name of the storage backend
abbrev pub push_to : Bool → Text → Blob → World → Outcome Text × World
push_to false name content w = (exits local_backend, w)
push_to true name content w =
    (returns (dev_set_key name), (put_bytes (dev_set_key name) content w).1)

unfoldable pub push_dev_set : Option Blob → Text → Text → World → Outcome Text × World
unfolding put_bytes dev_set_key
push_dev_set none backend name w = (exits nothing_to_push, w)
push_dev_set (some content) backend name w = push_to (backend == codes "gcs") name content w

abbrev pub or_exit {ℓ} : {A : Type ℓ} → Exit → Option A → Outcome A
or_exit e none = exits e
or_exit e (some found) = returns found

-- `_read_stored_dev_set`: no object and bytes that are no UTF-8 exit alike.
abbrev pub stored_or_exit : Reader → Option Blob → Outcome Text
stored_or_exit reader none = exits no_dev_set
stored_or_exit reader (some content) = or_exit no_dev_set (reader.decode content)

-- The local file first, the stored copy second.
unfoldable pub dev_set_text : Reader → Option Blob → Text → World → Outcome Text
unfolding dev_set_key
dev_set_text reader none name w = stored_or_exit reader (get w.blobs (dev_set_key name))
dev_set_text reader (some content) name w = or_exit raised (reader.read_text content)

abbrev pub in_roster : Option (List Sample) → Option (List Sample)
in_roster none = none
in_roster (some rows) = some (keep (λ sample. member sample.1 roster) rows)

abbrev pub then_samples : Reader → Outcome Text → Outcome (List Sample)
then_samples reader (exits e) = exits e
then_samples reader (returns text) = or_exit raised (in_roster (reader.rows_of text))

unfoldable pub load_dev_set : Reader → Option Blob → Text → World → Outcome (List Sample)
unfolding dev_set_text
load_dev_set reader file name w = then_samples reader (dev_set_text reader file name w)

-- A row of `dev_set_member`, by its primary key.
pub record DevSetMember : Type 0 where
  pub model_uid : Text
  pub dev_set : Text

abbrev pub is_reserved : Text → Text → List DevSetMember → Bool
is_reserved uid name [] = false
is_reserved uid name (row ∷ rows) =
    ((row.model_uid == uid) && (row.dev_set == name)) || is_reserved uid name rows

-- INSERT … ON CONFLICT DO NOTHING
unfoldable pub reserve : Text → List Sample → List DevSetMember → List DevSetMember
reserve name [] rows = rows
reserve name (sample ∷ samples) rows = reserve name samples (
    if is_reserved sample.0 name rows
    then rows
    else record { model_uid = sample.0; dev_set = name } ∷ rows)

abbrev pub members_of : Text → List DevSetMember → ℕ
members_of name rows = count (λ row. row.dev_set == name) rows

abbrev pub mark_rows : Text → List Sample → List DevSetMember → Outcome ℕ × List DevSetMember
mark_rows name [] rows = (exits no_rows, rows)
mark_rows name (sample ∷ samples) rows =
    let after = reserve name (sample ∷ samples) rows in
    (returns (members_of name after - members_of name rows), after)

abbrev pub mark_loaded :
    Text → Outcome (List Sample) → List DevSetMember → Outcome ℕ × List DevSetMember
mark_loaded name (exits e) rows = (exits e, rows)
mark_loaded name (returns samples) rows = mark_rows name samples rows

unfoldable pub mark_dev_set :
    Reader → Option Blob → Text → World → List DevSetMember → Outcome ℕ × List DevSetMember
unfolding load_dev_set reserve
mark_dev_set reader file name w rows = mark_loaded name (load_dev_set reader file name w) rows
