-- ===== src/Catalog/Examples.antt =====
-- Runs of the catalog routes on two models, one of them reserved.
use image_genie.Base.{
  ◌≢◌, text_beq_iff, ℕ, zero, suc, ◌&&◌, text_leb-IsOrder, ◌+◌, ◌*◌, ◌≡◌, refl, Bool, true, false,
  not, Option, none, some, List, [], ◌∷◌, arith, length, take, count, All, Text, codes, text_beq,
  get, put, text_leb, any_key, text_eq, nat_eq,
}
use image_genie.ArtifactKeys.Decimal.{decimal}
use image_genie.Pipeline.{
  Model, DownloadStatus, ArtifactStage, Artifact, done, is_some, artifact_id_eq, artifact_id_beq,
}
use image_genie.WeakLabel.{member}
use image_genie.WeakLabel.Taxonomy.{roster}
use image_genie.RateLimit.{new_limiter, check, retry_after}
use image_genie.Catalog.{
  Tables, Label, weak, manual, ModelSummary, class_roster, latest_label, reserved_to, summary,
  thumbnail_url, labeled_uids, is_usable, trainable_count, trainable_rows, load_trainable_samples,
}
use image_genie.Catalog.Routes.{
  Response, shows, refused, load_summary, delete_model, restore_model, set_label,
}
use image_genie.Catalog.Listing.{Query, by_uid, passes, found_rows, summaries}
use image_genie.Catalog.Orders.{Reordered, same_order, swapped}
use image_genie.Catalog.Pages.{first_pages, first_pages_lem}
use image_genie.Catalog.Current.{IsPast, IsLabeled, set_label-IsLabeled}
use image_genie.Catalog.Deleted.{restore_model-delete_model}
use image_genie.Catalog.Protected.{Request, put_label, delete, answers, reserved_untrainable}
use image_genie.Catalog.Trainable.{trainable_count-samples}

abbrev row : Model
row = record {
  title = some (codes "Chair");
  tags = none;
  deleted_at = none;
  download_status = DownloadStatus.downloaded;
  content_hash = none;
  raw_key = none;
}

abbrev weak_rug : Label
weak_rug = record {
  id = 1;
  model_uid = codes "a";
  class_name = codes "rug";
  source = weak;
  confidence = some 5;
  annotator = none;
  created_at = 3;
}

abbrev a_render : Artifact
a_render = record { key = []; content_hash = none; status = done }

abbrev t₀ : Tables
t₀ = record {
  models = record { entries = (codes "a", row) ∷ (codes "r", row) ∷ [] };
  labels = weak_rug ∷ [];
  next_label_id = 2;
  reserved = record { model_uid = codes "r"; dev_set = codes "lvis" } ∷ [];
  artifacts = record {
    entries =
        (record { model_uid = codes "a"; stage = ArtifactStage.rendered }, a_render)
        ∷ (record { model_uid = codes "r"; stage = ArtifactStage.rendered }, a_render)
        ∷ [];
  };
  label_limiter = new_limiter;
}

abbrev unsigned : Text → Option Text
unsigned _ = none

abbrev shown : ModelSummary
shown = record {
  uid = codes "a";
  title = codes "Chair";
  tags = [];
  class_name = some (codes "chair");
  source = some manual;
  confidence = none;
  thumbnail = thumbnail_url unsigned (codes "/api") (codes "a");
  dev_set = none;
}

abbrev labeled : Response × Tables
labeled = set_label unsigned (codes "/api") 7 (codes "x@y") (codes "a") (codes "chair") 10 4 t₀

answers_chair : labeled.0 ≡ shows shown
unfolding set_label check retry_after load_summary summary latest_label reserved_to text_beq get put
    decimal
answers_chair = refl

All-IsPast : All (IsPast 4 2) t₀.labels
All-IsPast = ((omega arith, omega arith), tt)

set_label-IsLabeled_example :
    IsLabeled (codes "a") (codes "chair") (codes "x@y") 4 t₀ labeled.1 shown
set_label-IsLabeled_example =
    set_label-IsLabeled unsigned (codes "/api") 7 (codes "x@y") (codes "a") (codes "chair") 10 4 t₀
      shown All-IsPast answers_chair

reserved_conflict :
    (set_label unsigned (codes "/api") 7 (codes "x@y") (codes "r") (codes "chair") 10 4 t₀).0
    ≡ refused 409
unfolding set_label check retry_after load_summary summary latest_label reserved_to text_beq get put
    decimal
reserved_conflict = refl

abbrev requests : List Request
requests =
    put_label 7 (codes "x@y") (codes "r") (codes "chair") 10 4
    ∷ delete (codes "r") 5
    ∷ put_label 7 (codes "x@y") (codes "a") (codes "lamp") 11 6
    ∷ []

r_reserved : is_some (reserved_to t₀.reserved (codes "r")) ≡ true
unfolding reserved_to text_beq
r_reserved = refl

r_unlabeled : latest_label t₀.labels (codes "r") ≡ none
unfolding latest_label text_beq
r_unlabeled = refl

reserved_untrainable_example :
    (latest_label (answers unsigned (codes "/api") requests t₀).labels (codes "r") ≡ none)
    × (any_key (codes "r") (load_trainable_samples (answers unsigned (codes "/api") requests t₀))
        ≡ false)
reserved_untrainable_example =
    reserved_untrainable unsigned (codes "/api") requests t₀ (codes "r") r_reserved r_unlabeled

-- A class outside the roster is counted and not loaded.
counts_apart : (trainable_count t₀ ≡ 1) × (load_trainable_samples t₀ ≡ [])
unfolding trainable_count load_trainable_samples trainable_rows labeled_uids is_usable latest_label
    text_beq get artifact_id_beq
counts_apart = (refl, refl)

trainable_count-samples_example :
    trainable_count t₀
    ≡ length (load_trainable_samples t₀)
      + count (λ sample. not (member sample.1 roster)) (trainable_rows t₀ (labeled_uids t₀.labels))
trainable_count-samples_example = trainable_count-samples t₀

abbrev everything : Query
everything = record { class_name = none; source = none; search = none; sort = by_uid }

abbrev no_match : Text → Text → Bool
no_match title pattern = false

-- The second page and those after it find the two models in the other order.
abbrev entries_at : ℕ → List (Text × Model)
entries_at zero = (codes "a", row) ∷ (codes "r", row) ∷ []
entries_at (suc k) = (codes "r", row) ∷ (codes "a", row) ∷ []

apart : codes "a" ≢ codes "r"
unfolding text_beq
apart e =
    let equal : text_beq (codes "a") (codes "r") ≡ true =
      (text_beq_iff (codes "a") (codes "r")).1 e in
    cc equal

entries_reordered : (k : ℕ) → Reordered t₀.models.entries (entries_at k)
entries_reordered zero = same_order
entries_reordered (suc k) = swapped (codes "a", row) (codes "r", row) apart

first_pages_lem_example :
    ((n : ℕ)
      → first_pages unsigned (codes "/api") t₀ no_match text_leb entries_at everything 1 n
        ≡ summaries unsigned
            (codes "/api")
            t₀
            (take (n * 1) (found_rows no_match text_leb everything t₀)))
    × ((p : Text × Model → Bool)
        → count p (found_rows no_match text_leb everything t₀)
          ≡ count
              (λ found. passes no_match text_leb everything t₀ found && p found)
              t₀.models.entries)
first_pages_lem_example =
    first_pages_lem unsigned (codes "/api") t₀ no_match text_leb entries_at everything 1
      text_leb-IsOrder entries_reordered refl

a_known : get t₀.models (codes "a") ≡ some row
unfolding get text_beq
a_known = refl

restore_model-delete_model_example :
    (load_summary unsigned (codes "/api") (delete_model (codes "a") 8 t₀).1 (codes "a")
      ≡ refused 404)
    × (is_usable (delete_model (codes "a") 8 t₀).1 (codes "a") ≡ false)
    × (get (delete_model (codes "a") 9 (delete_model (codes "a") 8 t₀).1).1.models (codes "a")
        ≡ some (record row { deleted_at = some 8 }))
    × ((restore_model unsigned (codes "/api") (codes "a") (delete_model (codes "a") 8 t₀).1).0
        ≡ load_summary unsigned (codes "/api") t₀ (codes "a"))
restore_model-delete_model_example =
    restore_model-delete_model unsigned (codes "/api") (codes "a") 8 9 t₀ row a_known refl

-- The API's copy of the roster is the taxonomy's.
rosters_agree : class_roster ≡ roster
rosters_agree = refl
