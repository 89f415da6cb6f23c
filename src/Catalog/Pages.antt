-- ===== src/Catalog/Pages.antt =====
-- The pages of a list of models.
use image_genie.Base.{
  IsOrder, keep, sort_by, count-sort_by, count-keep, count, ℕ, zero, suc, ◌+◌, ◌-◌, ◌*◌, ◌≡◌, refl,
  sym, ap, ◌∙◌, Bool, true, ◌&&◌, Option, List, [], ◌∷◌, ◌++◌, arith, leb, le→leb, take, drop, Text,
}
use image_genie.Pipeline.{Model}
use image_genie.Catalog.{Tables, ModelSummary, summary}
use image_genie.Catalog.Orders.{Reordered, sort_by-reordered}
use image_genie.Catalog.Listing.{
  ModelSort, by_uid, by_confidence, Query, Listed, listed, invalid, page_size_max, found_rows,
  summaries, paginate_summaries, list_models, passes, in_order,
}

take-nil : {A : Type 0} (n : ℕ) → take {A = A} n [] ≡ []
take-nil zero = refl
take-nil (suc n) = refl

take-add : {A : Type 0} (a b : ℕ) (xs : List A) → take a xs ++ take b (drop a xs) ≡ take (a + b) xs
take-add zero b xs = ap (λ n. take n xs) (omega arith)
take-add (suc a) b [] = take-nil b ∙ sym (take-nil (suc a + b))
take-add (suc a) b (x ∷ xs) =
    let e : suc a + b ≡ suc (a + b) = omega arith in rw (e, take-add a b xs) refl

module _ (signed_url : Text → Option Text) (url_prefix : Text) (tables : Tables) where
  summaries-append :
      (xs ys : List (Text × Model))
      → summaries signed_url url_prefix tables (xs ++ ys)
        ≡ summaries signed_url url_prefix tables xs ++ summaries signed_url url_prefix tables ys
  unfolding summaries
  summaries-append [] ys = refl
  summaries-append (x ∷ xs) ys = rw (summaries-append xs ys) refl

  abbrev pub items_of : Listed → List ModelSummary
  items_of invalid = []
  items_of (listed page) = page.items

  -- The same tables, with the rows of the models in another order.
  abbrev pub found_in : List (Text × Model) → Tables
  found_in rows = record tables { models = record { entries = rows } }

  -- The items of the first `n` pages, one page after the other; for each the database finds the rows in an order
  -- of its own.
  unfoldable pub first_pages :
      (Text → Text → Bool)
      → (Text → Text → Bool)
      → (ℕ → List (Text × Model))
      → Query
      → ℕ
      → ℕ
      → List ModelSummary
  unfolding list_models
  first_pages ilike uid_leb orders query page_size zero = []
  first_pages ilike uid_leb orders query page_size (suc n) =
      first_pages ilike uid_leb orders query page_size n
      ++ items_of (
          list_models signed_url url_prefix ilike uid_leb query (suc n) page_size
            (found_in (orders n)))

  -- A summary reads no model row but its own.
  summaries-found_in :
      (order rows : List (Text × Model))
      → summaries signed_url url_prefix (found_in order) rows
        ≡ summaries signed_url url_prefix tables rows
  unfolding summaries summary
  summaries-found_in order [] = refl
  summaries-found_in order (row ∷ rows) =
      ap (λ rest. summary signed_url url_prefix tables row.0 row.1 ∷ rest)
        (summaries-found_in order rows)

  items_of_page :
      (order rows : List (Text × Model)) (n size : ℕ)
      → (leb 1 size && leb size page_size_max) ≡ true
      → items_of (paginate_summaries signed_url url_prefix (found_in order) rows (suc n) size)
        ≡ summaries signed_url url_prefix tables (take size (drop (n * size) rows))
  unfolding paginate_summaries
  items_of_page order rows n size fits =
      let first : leb 1 (suc n) ≡ true = le→leb 1 (suc n) (omega arith) in
      let same : suc n - 1 ≡ n = omega arith in
      rw (first, fits, same) (summaries-found_in order (take size (drop (n * size) rows)))

  -- The order of two rows is read off the labels, not off the models.
  sort_by-found_in :
      (uid_leb : Text → Text → Bool) (kind : ModelSort) (order rows : List (Text × Model))
      → sort_by (in_order uid_leb kind (found_in order)) rows
        ≡ sort_by (in_order uid_leb kind tables) rows
  sort_by-found_in uid_leb by_uid order rows = refl
  sort_by-found_in uid_leb by_confidence order rows = refl

  -- The rows that are found do not depend on the order in which the database has them.
  found_rows-reordered :
      (ilike uid_leb : Text → Text → Bool) (query : Query) (rows : List (Text × Model))
      → IsOrder uid_leb
      → Reordered tables.models.entries rows
      → found_rows ilike uid_leb query (found_in rows) ≡ found_rows ilike uid_leb query tables
  unfolding found_rows passes
  found_rows-reordered ilike uid_leb query rows order r =
      sort_by-found_in uid_leb query.sort rows (keep (passes ilike uid_leb query tables) rows)
      ∙ sym (
          sort_by-reordered uid_leb order query.sort tables tables.models.entries rows r
            (passes ilike uid_leb query tables))

  pages_taken :
      (ilike uid_leb : Text → Text → Bool) (orders : ℕ → List (Text × Model)) (query : Query)
      (page_size : ℕ)
      → IsOrder uid_leb
      → ((k : ℕ) → Reordered tables.models.entries (orders k))
      → (leb 1 page_size && leb page_size page_size_max) ≡ true
      → (n : ℕ)
      → first_pages ilike uid_leb orders query page_size n
        ≡ summaries signed_url url_prefix tables
            (take (n * page_size) (found_rows ilike uid_leb query tables))
  unfolding first_pages list_models summaries summary
  pages_taken ilike uid_leb orders query page_size order reordered fits zero =
      let none_yet : 0 * page_size ≡ 0 = omega arith in rw none_yet refl
  pages_taken ilike uid_leb orders query page_size order reordered fits (suc n) =
      let rows = found_rows ilike uid_leb query tables in
      let more : suc n * page_size ≡ n * page_size + page_size = omega arith in
      let found = found_rows-reordered ilike uid_leb query (orders n) order (reordered n) in
      rw
        (
          pages_taken ilike uid_leb orders query page_size order reordered fits n,
          found,
          items_of_page (orders n) rows n page_size fits,
          more,
        )
        (sym (
            summaries-append (take (n * page_size) rows)
              (take page_size (drop (n * page_size) rows)))
          ∙ ap (summaries signed_url url_prefix tables) (take-add (n * page_size) page_size rows))

  -- With a page size that the route accepts, and whatever order the database finds the rows in at each page, the first
  -- `n` pages are the first `n` times as many of the models found, in the order asked for; and these have each model
  -- that passes the filters exactly as often as the table has it, and no other. The database's order of uids is a
  -- total order.
  pub first_pages_lem :
      (ilike uid_leb : Text → Text → Bool) (orders : ℕ → List (Text × Model)) (query : Query)
      (page_size : ℕ)
      → IsOrder uid_leb
      → ((k : ℕ) → Reordered tables.models.entries (orders k))
      → (leb 1 page_size && leb page_size page_size_max) ≡ true
      → ((n : ℕ)
          → first_pages ilike uid_leb orders query page_size n
            ≡ summaries signed_url url_prefix tables
                (take (n * page_size) (found_rows ilike uid_leb query tables)))
        × ((p : Text × Model → Bool)
            → count p (found_rows ilike uid_leb query tables)
              ≡ count (λ row. passes ilike uid_leb query tables row && p row) tables.models.entries)
  first_pages_lem ilike uid_leb orders query page_size order reordered fits = (
    pages_taken ilike uid_leb orders query page_size order reordered fits,
    λ p.
        unfold found_rows in
        count-sort_by (in_order uid_leb query.sort tables) p _
        ∙ count-keep p (passes ilike uid_leb query tables) tables.models.entries,
  )
