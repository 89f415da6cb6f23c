-- ===== src/Catalog/Listing.antt =====
-- GET /models and GET /models/deleted: the models that pass the filters, in order, page by page.
use image_genie.Base.{
  ℕ, ◌-◌, ◌*◌, Bool, true, false, not, ◌&&◌, ◌||◌, Option, none, some, List, [], ◌∷◌, ◌++◌, ltb,
  leb, if◌then◌else◌, ◌==◌, length, take, drop, keep, Text, codes, sort_by, text_eq, nat_eq,
}
use image_genie.Pipeline.{Model}
use image_genie.Accounts.Email.{strip}
use image_genie.Catalog.{
  Label, LabelSource, weak, manual, Tables, ModelSummary, latest_label, class_of, source_of,
  confidence_of, is_live, summary,
}

abbrev pub page_size_max : ℕ
page_size_max = 100

pub data ModelSort : Type 0 where
  by_uid by_confidence : ModelSort

-- The query parameters of the list.
pub record Query : Type 0 where
  pub class_name : Option Text
  pub source : Option LabelSource
  pub search : Option Text
  pub sort : ModelSort

pub record ModelPage : Type 0 where
  pub items : List ModelSummary
  pub total : ℕ
  pub page : ℕ
  pub page_size : ℕ

pub data Listed : Type 0 where
  listed : ModelPage → Listed
  invalid : Listed

-- `column = value`, which a null column does not satisfy
abbrev pub is_class : Text → Option Text → Bool
is_class wanted none = false
is_class wanted (some name) = name == wanted

abbrev pub source_beq : LabelSource → LabelSource → Bool
source_beq weak weak = true
source_beq manual manual = true
source_beq _ _ = false

abbrev pub is_source : LabelSource → Option LabelSource → Bool
is_source wanted none = false
is_source wanted (some source) = source_beq source wanted

abbrev pub with_escape : ℕ → Text → Text
with_escape c s = if (c == 92) || ((c == 37) || (c == 95)) then 92 ∷ c ∷ s else c ∷ s

-- The three `replace` calls: a backslash before every backslash, percent sign and underscore.
unfoldable pub escape_like : Text → Text
escape_like [] = []
escape_like (c ∷ s) = with_escape c (escape_like s)

-- The database's order of uids is a parameter.
module _ (uid_leb : Text → Text → Bool) where
  -- Ascending, a null after every number, and the uids among equals.
  abbrev pub confidence_leb : Option ℕ → Option ℕ → Bool → Bool
  confidence_leb none none ties = ties
  confidence_leb none (some b) ties = false
  confidence_leb (some a) none ties = true
  confidence_leb (some a) (some b) ties = ltb a b || ((a == b) && ties)

  abbrev pub in_order : ModelSort → Tables → Text × Model → Text × Model → Bool
  in_order by_uid tables a b = uid_leb a.0 b.0
  in_order by_confidence tables a b =
      confidence_leb (confidence_of (latest_label tables.labels a.0))
        (confidence_of (latest_label tables.labels b.0)) (uid_leb a.0 b.0)

  abbrev pub moment_of : Option ℕ → ℕ
  moment_of none = 0
  moment_of (some at) = at

  -- The most recently deleted first, and the uids among equals.
  abbrev pub deleted_leb : Text × Model → Text × Model → Bool
  deleted_leb a b =
      let one = moment_of a.1.deleted_at in
      let other = moment_of b.1.deleted_at in ltb other one || ((one == other) && uid_leb a.0 b.0)

  unfoldable pub deleted_rows : Tables → List (Text × Model)
  unfolding sort_by
  deleted_rows tables =
      sort_by deleted_leb (keep (λ row. not (is_live (some row.1))) tables.models.entries)

-- So is its `ILIKE … ESCAPE '\'`.
module _ (ilike : Text → Text → Bool) (uid_leb : Text → Text → Bool) where
  abbrev pub title_matches : Text → Option Text → Bool
  title_matches pattern none = false
  title_matches pattern (some title) = ilike title pattern

  abbrev pub search_for : Text → Option Text → Bool
  search_for [] title = true
  search_for (c ∷ term) title =
      title_matches (codes "%" ++ (escape_like (c ∷ term) ++ codes "%")) title

  abbrev pub passes_class : Option Text → Option Label → Bool
  passes_class none label = true
  passes_class (some wanted) label = is_class wanted (class_of label)

  abbrev pub passes_source : Option LabelSource → Option Label → Bool
  passes_source none label = true
  passes_source (some wanted) label = is_source wanted (source_of label)

  abbrev pub passes_search : Option Text → Option Text → Bool
  passes_search none title = true
  passes_search (some term) title = search_for (strip term) title

  unfoldable pub passes : Query → Tables → Text × Model → Bool
  unfolding strip escape_like latest_label
  passes query tables row =
      is_live (some row.1)
      && (passes_class query.class_name (latest_label tables.labels row.0)
          && (passes_source query.source (latest_label tables.labels row.0)
              && passes_search query.search row.1.title))

  unfoldable pub found_rows : Query → Tables → List (Text × Model)
  unfolding passes sort_by
  found_rows query tables =
      sort_by (in_order uid_leb query.sort tables)
        (keep (passes query tables) tables.models.entries)

module _ (signed_url : Text → Option Text) (url_prefix : Text) where
  unfoldable pub summaries : Tables → List (Text × Model) → List ModelSummary
  unfolding summary
  summaries tables [] = []
  summaries tables (row ∷ rows) =
      summary signed_url url_prefix tables row.0 row.1 ∷ summaries tables rows

  -- `_paginate_summaries`; the route's bounds on the two numbers answer 422.
  unfoldable pub paginate_summaries : Tables → List (Text × Model) → ℕ → ℕ → Listed
  unfolding summaries
  paginate_summaries tables rows page page_size =
      if leb 1 page && (leb 1 page_size && leb page_size page_size_max)
      then listed (record {
        items = summaries tables (take page_size (drop ((page - 1) * page_size) rows));
        total = length rows;
        page = page;
        page_size = page_size;
      })
      else invalid

  unfoldable pub list_models :
      (Text → Text → Bool) → (Text → Text → Bool) → Query → ℕ → ℕ → Tables → Listed
  unfolding found_rows paginate_summaries
  list_models ilike uid_leb query page page_size tables =
      paginate_summaries tables (found_rows ilike uid_leb query tables) page page_size

  unfoldable pub list_deleted_models : (Text → Text → Bool) → ℕ → ℕ → Tables → Listed
  unfolding deleted_rows paginate_summaries
  list_deleted_models uid_leb page page_size tables =
      paginate_summaries tables (deleted_rows uid_leb tables) page page_size
