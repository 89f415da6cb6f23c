-- ===== src/Catalog/Routes.antt =====
-- The routes that read or write one model. An administrator is given by id and address.
use image_genie.Base.{
  ℕ, suc, max, Bool, true, false, Option, none, some, ◌∷◌, ◌++◌, Text, codes, get, put, text_eq,
  nat_eq,
}
use image_genie.Pipeline.{Model}
use image_genie.ArtifactKeys.Decimal.{decimal}
use image_genie.WeakLabel.{member}
use image_genie.RateLimit.{FixedWindowRateLimiter, RateLimitRule, check, retry_after}
use image_genie.Catalog.{manual, Tables, ModelSummary, class_roster, is_live, reserved_to, summary}

pub data Response : Type 0 where
  shows : ModelSummary → Response
  no_content : Response
  refused : ℕ → Response
  too_many_requests : ℕ → Response

abbrev pub label_write_per_user : RateLimitRule
label_write_per_user = record { max_hits = 600; window_seconds = 600 }

abbrev pub deleted_from : ℕ → Model → Model
deleted_from now model = record model {
  deleted_at = elim model.deleted_at [ none ↦ some now | some at ↦ some at ];
}

abbrev pub delete_row : Text → ℕ → Option Model → Tables → Response × Tables
delete_row uid now none tables = (refused 404, tables)
delete_row uid now (some model) tables =
    (no_content, record tables { models = put tables.models uid (deleted_from now model) })

-- DELETE /models/{uid}
unfoldable pub delete_model : Text → ℕ → Tables → Response × Tables
delete_model uid now tables = delete_row uid now (get tables.models uid) tables

abbrev pub add_label : Text → Text → Text → ℕ → Tables → Tables
add_label uid class_name annotator now tables = record tables {
  labels =
      record {
        id = tables.next_label_id;
        model_uid = uid;
        class_name = class_name;
        source = manual;
        confidence = none;
        annotator = some annotator;
        created_at = now;
      }
      ∷ tables.labels;
  next_label_id = suc tables.next_label_id;
}

module _ (signed_url : Text → Option Text) (url_prefix : Text) where
  abbrev pub show_if : Bool → Tables → Text → Option Model → Response
  show_if false tables uid row = refused 404
  show_if true tables uid none = refused 404
  show_if true tables uid (some model) = shows (summary signed_url url_prefix tables uid model)

  -- GET /models/{uid}
  unfoldable pub load_summary : Tables → Text → Response
  unfolding summary
  load_summary tables uid =
      show_if (is_live (get tables.models uid)) tables uid (get tables.models uid)

  abbrev pub restore_row : Text → Option Model → Tables → Response × Tables
  restore_row uid none tables = (refused 404, tables)
  restore_row uid (some model) tables =
      let tables' = record tables {
        models = put tables.models uid (record model { deleted_at = none });
      } in
      (load_summary tables' uid, tables')

  -- POST /models/{uid}/restore
  unfoldable pub restore_model : Text → Tables → Response × Tables
  unfolding load_summary
  restore_model uid tables = restore_row uid (get tables.models uid) tables

  -- `_refuse_dev_set_member`, and the write
  abbrev pub label_unless_reserved :
      Option Text → Text → Text → Text → ℕ → Tables → Response × Tables
  label_unless_reserved (some dev_set) uid class_name annotator now tables = (refused 409, tables)
  label_unless_reserved none uid class_name annotator now tables =
      let tables' = add_label uid class_name annotator now tables in
      (load_summary tables' uid, tables')

  abbrev pub label_if_live : Bool → Text → Text → Text → ℕ → Tables → Response × Tables
  label_if_live false uid class_name annotator now tables = (refused 404, tables)
  label_if_live true uid class_name annotator now tables =
      label_unless_reserved (reserved_to tables.reserved uid) uid class_name annotator now tables

  abbrev pub label_if_allowed :
      Bool → Text → Text → Text → Text → ℕ → ℕ → Tables → Response × Tables
  label_if_allowed false key uid class_name annotator monotonic now tables =
      (too_many_requests (max 1 (retry_after tables.label_limiter key monotonic)), tables)
  label_if_allowed true key uid class_name annotator monotonic now tables =
      label_if_live (is_live (get tables.models uid)) uid class_name annotator now tables

  abbrev pub label_if_known :
      Bool
      → Bool × FixedWindowRateLimiter
      → Text
      → Text
      → Text
      → Text
      → ℕ
      → ℕ
      → Tables
      → Response × Tables
  label_if_known false checked key uid class_name annotator monotonic now tables =
      (refused 422, tables)
  label_if_known true checked key uid class_name annotator monotonic now tables =
      label_if_allowed checked.0 key uid class_name annotator monotonic now
        (record tables { label_limiter = checked.1 })

  -- PUT /models/{uid}/label, for an administrator's id and address
  unfoldable pub set_label : ℕ → Text → Text → Text → ℕ → ℕ → Tables → Response × Tables
  unfolding check retry_after load_summary reserved_to decimal
  set_label admin_id email uid class_name monotonic now tables =
      let key = codes "label:user:" ++ decimal admin_id in
      label_if_known (member class_name class_roster)
        (check tables.label_limiter key label_write_per_user monotonic) key uid class_name email
        monotonic now tables
