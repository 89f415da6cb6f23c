-- ===== src/CleanupRaw/Laws.antt =====
-- What the cleanup deletes, and what it keeps.
use image_genie.Base.{
  ℕ, ◌+◌, ◌≡◌, refl, ◌∙◌, inl, inr, Bool, true, false, not, ◌&&◌, ◌||◌, Option, none, some, List,
  [], ◌∷◌, arith, if◌then◌else◌, Bool-cases, Option-cases, ◌==◌, length, Text, text_beq_iff,
  starts_with, Dict, get, remove, get-remove, any_key, get-absent, text_eq, nat_eq,
}
use mathlib.Core.Path.{subst}
use image_genie.ArtifactKeys.{raw_prefix, uid_from_key}
use image_genie.Pipeline.{World, Model, Blob}
use image_genie.CleanupRaw.{
  Label, Reason, orphan, deleted, unlabeled, out_of_scope, Candidate, current_label, in_roster,
  classify_model, reason_for, classify, list_sizes, keep_some, select_among, select_candidates,
  delete_candidates, summarize,
}

has_key : Text → List Candidate → Bool
has_key k [] = false
has_key k (candidate ∷ candidates) = (candidate.key == k) || has_key k candidates

blobs-delete_candidates :
    (raises : Text → Bool) (candidates : List Candidate) (w : World) (k : Text)
    → get (delete_candidates raises candidates w).1.blobs k
      ≡ (if has_key k candidates && not (raises k) then none else get w.blobs k)
unfolding delete_candidates has_key
blobs-delete_candidates raises [] w k = refl
blobs-delete_candidates raises (candidate ∷ candidates) w k =
    elim (Bool-cases (raises candidate.key)) [
      | inl kept ↦ rw kept (elim (Bool-cases (candidate.key == k)) [
        | inl same ↦
            let here : raises k ≡ true =
              subst (λ x. raises x ≡ true) ((text_beq_iff candidate.key k).0 same) kept in
            blobs-delete_candidates raises candidates w k ∙ rw (here, same) (ground arith)
        | inr apart ↦ blobs-delete_candidates raises candidates w k ∙ rw apart refl
      ])
      | inr gone ↦ rw gone (elim (Bool-cases (candidate.key == k)) [
        | inl same ↦
            let here : raises k ≡ false =
              subst (λ x. raises x ≡ false) ((text_beq_iff candidate.key k).0 same) gone in
            blobs-delete_candidates raises candidates
              (record w { blobs = remove w.blobs candidate.key }) k
            ∙ rw (here, same, get-remove w.blobs candidate.key k, same) (ground arith)
        | inr apart ↦
            blobs-delete_candidates raises candidates
              (record w { blobs = remove w.blobs candidate.key }) k
            ∙ rw (apart, get-remove w.blobs candidate.key k, apart) refl
      ])
    ]

abbrev has_reason : Option Reason → Bool
has_reason none = false
has_reason (some _) = true

-- The key's model is not in the dataset; a key without a uid is not excluded.
abbrev pub is_excluded : List Text → List Label → Dict Text Model → Text → Bool
is_excluded in_scope labels models k =
    has_reason (reason_for in_scope labels models (uid_from_key k))

module _ (in_scope : List Text) (labels : List Label) (models : Dict Text Model) where
  chosen : List (Text × Blob) → List Candidate
  chosen pairs = select_among in_scope labels models (list_sizes raw_prefix pairs)

  has_key-keep_some :
      (key : Text) (size_bytes : ℕ) (candidates : List Candidate) (k : Text)
      → has_key k (keep_some (classify in_scope labels models key size_bytes) candidates)
        ≡ ((is_excluded in_scope labels models key && (key == k)) || has_key k candidates)
  unfolding has_key classify
  has_key-keep_some key size_bytes candidates k =
      elim (Option-cases (reason_for in_scope labels models (uid_from_key key))) [
        | inl kept ↦ rw kept refl
        | inr (reason, found) ↦ rw found refl
      ]

  has_key-chosen :
      (pairs : List (Text × Blob)) (k : Text)
      → has_key k (chosen pairs)
        ≡ (any_key k pairs && (starts_with k raw_prefix && is_excluded in_scope labels models k))
  unfolding chosen list_sizes select_among has_key
  has_key-chosen [] k = refl
  has_key-chosen (pair ∷ pairs) k = elim (Bool-cases (starts_with pair.0 raw_prefix)) [
    | inl under ↦ rw under (
        has_key-keep_some pair.0 (length pair.1) (chosen pairs) k
        ∙ rw (has_key-chosen pairs k) (elim (Bool-cases (pair.0 == k)) [
          | inl same ↦
              let e : pair.0 ≡ k = (text_beq_iff pair.0 k).0 same in
              let under' : starts_with k raw_prefix ≡ true =
                subst (λ x. starts_with x raw_prefix ≡ true) e under in
              rw (same, under', e) (ground arith)
          | inr apart ↦ rw apart (ground arith)
        ]))
    | inr outside ↦ rw outside (
        has_key-chosen pairs k ∙ elim (Bool-cases (pair.0 == k)) [
          | inl same ↦
              let e : pair.0 ≡ k = (text_beq_iff pair.0 k).0 same in
              let outside' : starts_with k raw_prefix ≡ false =
                subst (λ x. starts_with x raw_prefix ≡ false) e outside in
              rw (same, outside') (ground arith)
          | inr apart ↦ rw apart refl
        ])
  ]

blobs-clean_up :
    (in_scope : List Text) (labels : List Label) (raises : Text → Bool) (w : World) (k : Text)
    → get (delete_candidates raises (select_candidates in_scope labels w) w).1.blobs k ≡ (
        if starts_with k raw_prefix && (is_excluded in_scope labels w.models k && not (raises k))
        then none
        else get w.blobs k)
unfolding select_candidates chosen
blobs-clean_up in_scope labels raises w k =
    blobs-delete_candidates raises (select_candidates in_scope labels w) w k
    ∙ rw (has_key-chosen in_scope labels w.models w.blobs.entries k)
        (elim (Bool-cases (any_key k w.blobs.entries)) [
          | inl there ↦ rw there (ground arith)
          | inr absent ↦ rw (absent, get-absent w.blobs k absent) (ground arith)
        ])

-- A model is in the dataset if it has a row that is not marked as deleted and a current label in the roster.
pub record InDataset (in_scope : List Text) (labels : List Label) (w : World) (uid : Text)
    : Type 0 where
  pub row : Model
  pub known : get w.models uid ≡ some row
  pub live : row.deleted_at ≡ none
  pub label : Label
  pub labelled : current_label labels uid ≡ some label
  pub named : in_roster label.class_name in_scope ≡ true

-- A model in the dataset keeps every blob under its uid, whatever deletions fail.
pub clean_up-InDataset :
    (in_scope : List Text) (labels : List Label) (raises : Text → Bool) (w : World) (uid k : Text)
    → InDataset in_scope labels w uid
    → uid_from_key k ≡ some uid
    → get (delete_candidates raises (select_candidates in_scope labels w) w).1.blobs k
      ≡ get w.blobs k
clean_up-InDataset in_scope labels raises w uid k d parsed =
    let kept : is_excluded in_scope labels w.models k ≡ false =
      rw (parsed, d.known, d.live, d.labelled, d.named) refl in
    blobs-clean_up in_scope labels raises w k ∙ rw kept (ground arith)

reason_for-outside :
    (in_scope : List Text) (labels : List Label) (w : World) (uid : Text) (found : Option Model)
    (current : Option Label)
    → get w.models uid ≡ found
    → current_label labels uid ≡ current
    → ¬ InDataset in_scope labels w uid
    → has_reason (classify_model in_scope labels uid found) ≡ true
reason_for-outside in_scope labels w uid none current known labelled out = refl
reason_for-outside in_scope labels w uid (some row) none known labelled out =
    elim (Option-cases row.deleted_at) [
      | inl live ↦ rw (live, labelled) refl
      | inr (at, gone) ↦ rw gone refl
    ]
reason_for-outside in_scope labels w uid (some row) (some label) known labelled out =
    elim (Option-cases row.deleted_at) [
      | inr (at, gone) ↦ rw gone refl
      | inl live ↦ elim (Bool-cases (in_roster label.class_name in_scope)) [
        | inr other ↦ rw (live, labelled, other) refl
        | inl named ↦ absurd (
            out (record {
              row = row;
              known = known;
              live = live;
              label = label;
              labelled = labelled;
              named = named;
            }))
      ]
    ]

-- Once the candidates are deleted, a raw key of a model that is not in the dataset is gone, unless its deletion fails;
-- a key outside the raw prefix, a key without a uid, and a key whose deletion fails have what they had.
pub clean_up-outside :
    (in_scope : List Text) (labels : List Label) (raises : Text → Bool) (w : World) (k : Text)
    → (let after = (delete_candidates raises (select_candidates in_scope labels w) w).1 in
        ((uid : Text)
          → uid_from_key k ≡ some uid
          → starts_with k raw_prefix ≡ true
          → raises k ≡ false
          → ¬ InDataset in_scope labels w uid
          → get after.blobs k ≡ none)
        × (starts_with k raw_prefix ≡ false → get after.blobs k ≡ get w.blobs k)
        × (uid_from_key k ≡ none → get after.blobs k ≡ get w.blobs k)
        × (raises k ≡ true → get after.blobs k ≡ get w.blobs k))
clean_up-outside in_scope labels raises w k =
    let now = blobs-clean_up in_scope labels raises w k in
    (
      λ uid parsed under deleted out.
          let excluded : is_excluded in_scope labels w.models k ≡ true =
            rw parsed (reason_for-outside in_scope labels w uid _ _ refl refl out) in
          now ∙ rw (under, excluded, deleted) refl,
      λ outside. now ∙ rw outside refl,
      λ nameless. now ∙ rw nameless (ground arith),
      λ failed. now ∙ rw failed (ground arith),
    )

-- If no deletion fails, the objects deleted and the bytes reclaimed are those that the four reasons account for.
pub delete_candidates-summarize :
    (candidates : List Candidate) (w : World)
    → (delete_candidates (λ _. false) candidates w).0 ≡ (
      (summarize orphan candidates).0
          + (summarize deleted candidates).0
          + (summarize unlabeled candidates).0
          + (summarize out_of_scope candidates).0,
      (summarize orphan candidates).1
          + (summarize deleted candidates).1
          + (summarize unlabeled candidates).1
          + (summarize out_of_scope candidates).1,
    )
unfolding delete_candidates summarize
delete_candidates-summarize [] w = refl
delete_candidates-summarize (candidate ∷ candidates) w =
    let w₁ = record w { blobs = remove w.blobs candidate.key } in
    rw (delete_candidates-summarize candidates w₁) (ground arith)
