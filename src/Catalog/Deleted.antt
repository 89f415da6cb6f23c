-- ===== src/Catalog/Deleted.antt =====
-- Soft deletion and its undoing.
use image_genie.Base.{
  ℕ, ◌≡◌, refl, false, Option, none, some, Text, get, put, get-put_self, text_eq, nat_eq,
}
use image_genie.Pipeline.{Model, artifact_id_eq}
use image_genie.Catalog.{Tables, summary, is_usable}
use image_genie.Catalog.Routes.{refused, no_content, load_summary, delete_model, restore_model}

abbrev replaced : Text → Model → Tables → Tables
replaced uid model tables = record tables { models = put tables.models uid model }

delete_model_live :
    (uid : Text) (now : ℕ) (tables : Tables) (model : Model)
    → get tables.models uid ≡ some model
    → model.deleted_at ≡ none
    → delete_model uid now tables
      ≡ (no_content, replaced uid (record model { deleted_at = some now }) tables)
unfolding delete_model
delete_model_live uid now tables model known live = rw (known, live) refl

delete_model_gone :
    (uid : Text) (now later : ℕ) (tables : Tables) (model : Model)
    → get tables.models uid ≡ some model
    → model.deleted_at ≡ some now
    → delete_model uid later tables
      ≡ (no_content, replaced uid (record model { deleted_at = some now }) tables)
unfolding delete_model
delete_model_gone uid now later tables model known gone = rw (known, gone) refl

module _ (signed_url : Text → Option Text) (url_prefix : Text) where
  -- A live model that is deleted is answered by a 404 and is usable for no training run; deleting it again
  -- keeps the moment of the first deletion; and restoring it answers with the summary that it had.
  pub restore_model-delete_model :
      (uid : Text) (now later : ℕ) (tables : Tables) (model : Model)
      → get tables.models uid ≡ some model
      → model.deleted_at ≡ none
      → (let gone = (delete_model uid now tables).1 in
          (load_summary signed_url url_prefix gone uid ≡ refused 404)
          × (is_usable gone uid ≡ false)
          × (get (delete_model uid later gone).1.models uid
              ≡ some (record model { deleted_at = some now }))
          × ((restore_model signed_url url_prefix uid gone).0
              ≡ load_summary signed_url url_prefix tables uid))
  unfolding restore_model load_summary is_usable summary
  restore_model-delete_model uid now later tables model known live =
      let gone_model : Model = record model { deleted_at = some now } in
      let gone = replaced uid gone_model tables in
      let found : get gone.models uid ≡ some gone_model =
        get-put_self tables.models uid gone_model in
      let back : Model = record gone_model { deleted_at = none } in
      let again = delete_model_gone uid now later gone gone_model found refl in
      rw (delete_model_live uid now tables model known live) (
        rw found refl,
        rw found refl,
        rw again (get-put_self gone.models uid gone_model),
        rw (found, get-put_self gone.models uid back, known, live) refl,
      )
