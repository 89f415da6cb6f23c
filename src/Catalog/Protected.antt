-- ===== src/Catalog/Protected.antt =====
-- A model that a dev set has reserved is never labeled, so it never becomes trainable.
use image_genie.Base.{
  ℕ, ◌≡◌, refl, ap, ◌∙◌, inl, inr, Bool, true, false, Option, none, some, List, [], ◌∷◌, ◌++◌,
  arith, Bool-cases, Option-cases, ◌==◌, ne_beq, keep, Text, codes, get, any_key, text_eq, nat_eq,
}
use image_genie.ArtifactKeys.Decimal.{decimal}
use image_genie.WeakLabel.{member}
use image_genie.WeakLabel.Taxonomy.{roster}
use image_genie.Pipeline.{Model, is_some}
use image_genie.RateLimit.{FixedWindowRateLimiter, check}
use image_genie.Catalog.{
  Tables, class_roster, is_live, latest_label, reserved_to, labeled_uids, trainable_rows,
  load_trainable_samples, is_usable,
}
use image_genie.Catalog.Routes.{
  delete_row, delete_model, restore_row, restore_model, label_if_allowed, label_if_known, set_label,
  label_write_per_user,
}

-- The requests that write.
pub data Request : Type 0 where
  put_label : ℕ → Text → Text → Text → ℕ → ℕ → Request
  delete : Text → ℕ → Request
  restore : Text → Request

module _ (signed_url : Text → Option Text) (url_prefix : Text) where
  abbrev pub answer : Request → Tables → Tables
  answer (put_label admin_id email uid class_name monotonic now) tables =
      (set_label signed_url url_prefix admin_id email uid class_name monotonic now tables).1
  answer (delete uid now) tables = (delete_model uid now tables).1
  answer (restore uid) tables = (restore_model signed_url url_prefix uid tables).1

  unfoldable pub answers : List Request → Tables → Tables
  unfolding set_label delete_model restore_model
  answers [] tables = tables
  answers (request ∷ requests) tables = answers requests (answer request tables)

  -- The reservations stay, and so does the current label of a reserved model.
  record Spared (uid : Text) (before after : Tables) : Type 0 where
    reserved : after.reserved ≡ before.reserved
    label : latest_label after.labels uid ≡ latest_label before.labels uid

  Spared-set :
      (allowed live : Bool) (to : Option Text) (key uid class_name email : Text) (monotonic now : ℕ)
      (tables : Tables) (kept : Text)
      → is_some (reserved_to tables.reserved kept) ≡ true
      → reserved_to tables.reserved uid ≡ to
      → is_live (get tables.models uid) ≡ live
      → Spared kept tables
          (label_if_allowed signed_url url_prefix allowed key uid class_name email monotonic now
            tables).1
  unfolding latest_label
  Spared-set false live to key uid class_name email monotonic now tables kept k free l = record {
    reserved = refl;
    label = refl;
  }
  Spared-set true false to key uid class_name email monotonic now tables kept k free l =
      rw l (record { reserved = refl; label = refl })
  Spared-set true true (some dev_set) key uid class_name email monotonic now tables kept k free l =
      rw (l, free) (record { reserved = refl; label = refl })
  Spared-set true true none key uid class_name email monotonic now tables kept k free l =
      rw (l, free)
        (record {
          reserved = refl;
          label = rw (ne_beq uid kept (λ same. ground (arith, rw (← same, free) at k))) refl;
        })

  Spared-known :
      (known : Bool) (checked : Bool × FixedWindowRateLimiter) (key uid class_name email : Text)
      (monotonic now : ℕ) (tables : Tables) (kept : Text)
      → is_some (reserved_to tables.reserved kept) ≡ true
      → Spared kept tables
          (label_if_known signed_url url_prefix known checked key uid class_name email monotonic now
            tables).1
  Spared-known false checked key uid class_name email monotonic now tables kept k = record {
    reserved = refl;
    label = refl;
  }
  Spared-known true checked key uid class_name email monotonic now tables kept k =
      let s =
        Spared-set checked.0 (is_live (get tables.models uid)) (reserved_to tables.reserved uid) key
          uid class_name email monotonic now (record tables { label_limiter = checked.1 }) kept k
          refl refl in
      record { reserved = s.reserved; label = s.label }

  Spared-delete :
      (uid : Text) (now : ℕ) (row : Option Model) (tables : Tables) (kept : Text)
      → Spared kept tables (delete_row uid now row tables).1
  Spared-delete uid now none tables kept = record { reserved = refl; label = refl }
  Spared-delete uid now (some model) tables kept = record { reserved = refl; label = refl }

  Spared-restore :
      (uid : Text) (row : Option Model) (tables : Tables) (kept : Text)
      → Spared kept tables (restore_row signed_url url_prefix uid row tables).1
  Spared-restore uid none tables kept = record { reserved = refl; label = refl }
  Spared-restore uid (some model) tables kept = record { reserved = refl; label = refl }

  Spared-answer :
      (request : Request) (tables : Tables) (kept : Text)
      → is_some (reserved_to tables.reserved kept) ≡ true
      → Spared kept tables (answer request tables)
  unfolding set_label delete_model restore_model
  Spared-answer (put_label admin_id email uid class_name monotonic now) tables kept k =
      Spared-known (member class_name class_roster)
        (check tables.label_limiter (codes "label:user:" ++ decimal admin_id) label_write_per_user
          monotonic)
        (codes "label:user:" ++ decimal admin_id) uid class_name email monotonic now tables kept k
  Spared-answer (delete uid now) tables kept k =
      Spared-delete uid now (get tables.models uid) tables kept
  Spared-answer (restore uid) tables kept k = Spared-restore uid (get tables.models uid) tables kept

  Spared-answers :
      (requests : List Request) (tables : Tables) (kept : Text)
      → is_some (reserved_to tables.reserved kept) ≡ true
      → Spared kept tables (answers requests tables)
  unfolding answers
  Spared-answers [] tables kept k = record { reserved = refl; label = refl }
  Spared-answers (request ∷ requests) tables kept k =
      let first = Spared-answer request tables kept k in
      let rest = Spared-answers requests (answer request tables) kept (rw first.reserved k) in
      record { reserved = rest.reserved ∙ first.reserved; label = rest.label ∙ first.label }

unlabeled_rows :
    (tables : Tables) (uid : Text) (uids : List Text)
    → latest_label tables.labels uid ≡ none
    → any_key uid (keep (λ row. member row.1 roster) (trainable_rows tables uids)) ≡ false
unfolding trainable_rows
unlabeled_rows tables uid [] h = refl
unlabeled_rows tables uid (u ∷ uids) h =
    let rest = unlabeled_rows tables uid uids h in
    elim (Bool-cases (is_usable tables u)) [
      | inr unusable ↦ rw unusable rest
      | inl usable ↦ elim (Option-cases (latest_label tables.labels u)) [
        | inl e ↦ rw (usable, e) rest
        | inr (label, e) ↦
            let apart : (u == uid) ≡ false =
              ne_beq u uid (λ same. ground (arith, e, ap (latest_label tables.labels) same ∙ h)) in
            rw (usable, e)
              (elim (Bool-cases (member label.class_name roster)) [
                | inl known ↦ rw (known, apart) rest
                | inr unknown ↦ rw unknown rest
              ])
      ]
    ]

-- A model that is reserved and has no label has none after any labels, deletions and restorations, and a
-- training run does not load it.
pub reserved_untrainable :
    (signed_url : Text → Option Text) (url_prefix : Text) (requests : List Request)
    (tables : Tables) (uid : Text)
    → is_some (reserved_to tables.reserved uid) ≡ true
    → latest_label tables.labels uid ≡ none
    → (latest_label (answers signed_url url_prefix requests tables).labels uid ≡ none)
      × (any_key uid (load_trainable_samples (answers signed_url url_prefix requests tables))
          ≡ false)
unfolding load_trainable_samples
reserved_untrainable signed_url url_prefix requests tables uid kept unlabeled =
    let spared = Spared-answers signed_url url_prefix requests tables uid kept in
    let still = spared.label ∙ unlabeled in
    (
      still,
      unlabeled_rows (answers signed_url url_prefix requests tables) uid
          (labeled_uids (answers signed_url url_prefix requests tables).labels) still,
    )
