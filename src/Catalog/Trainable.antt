-- ===== src/Catalog/Trainable.antt =====
-- The number of trainable models that the launch page shows, against the samples that a run loads.
use image_genie.Base.{
  suc, ◌+◌, ◌≡◌, refl, sym, ap, ◌∙◌, inl, inr, Bool, true, not, some, List, [], ◌∷◌, arith,
  Bool-cases, ◌==◌, beq_refl, length, keep, count, Text, text_eq, nat_eq,
}
use image_genie.WeakLabel.{member}
use image_genie.WeakLabel.Taxonomy.{roster}
use image_genie.Catalog.{
  Label, Tables, newest_of, latest_label, labeled_uids, is_usable, trainable_count, trainable_rows,
  load_trainable_samples,
}

latest_label-labeled :
    (labels : List Label) (uid : Text)
    → member uid (labeled_uids labels) ≡ true
    → (label : Label) × (latest_label labels uid ≡ some label)
unfolding labeled_uids latest_label
latest_label-labeled [] uid h = absurd (ground arith)
latest_label-labeled (label ∷ labels) uid h = elim (Bool-cases (label.model_uid == uid)) [
  | inl same ↦ (newest_of label (latest_label labels uid), rw same refl)
  | inr other ↦
      let there : member uid (labeled_uids labels) ≡ true =
        elim (Bool-cases (member label.model_uid (labeled_uids labels))) [
          | inl again ↦ rw again at h
          | inr fresh ↦ rw (fresh, other) at h
        ] in
      let rest = latest_label-labeled labels uid there in (rest.0, rw other rest.1)
]

length-trainable_rows :
    (tables : Tables) (uids : List Text)
    → ((uid : Text)
        → member uid uids ≡ true
        → (label : Label) × (latest_label tables.labels uid ≡ some label))
    → length (trainable_rows tables uids) ≡ count (is_usable tables) uids
unfolding trainable_rows
length-trainable_rows tables [] h = refl
length-trainable_rows tables (uid ∷ uids) h =
    let (label, e) = h uid (rw (beq_refl uid) refl) in
    let rest = length-trainable_rows tables uids (λ u there. h u (rw there (ground arith))) in
    elim (Bool-cases (is_usable tables uid)) [
      | inl usable ↦ rw (usable, e) (ap (λ n. suc n) rest)
      | inr unusable ↦ rw unusable rest
    ]

length-keep :
    (p : Text × Text → Bool) (rows : List (Text × Text))
    → length rows ≡ length (keep p rows) + count (λ row. not (p row)) rows
length-keep p [] = refl
length-keep p (row ∷ rows) = ground (arith, length-keep p rows)

-- The count is that of the samples and of the models whose current label is outside the roster, which a run
-- drops; so the two agree exactly when there are none of these.
pub trainable_count-samples :
    (tables : Tables)
    → trainable_count tables
      ≡ length (load_trainable_samples tables)
        + count
            (λ row. not (member row.1 roster))
            (trainable_rows tables (labeled_uids tables.labels))
unfolding trainable_count load_trainable_samples
trainable_count-samples tables =
    sym (
      length-trainable_rows tables (labeled_uids tables.labels)
        (latest_label-labeled tables.labels))
    ∙ length-keep (λ row. member row.1 roster) (trainable_rows tables (labeled_uids tables.labels))
