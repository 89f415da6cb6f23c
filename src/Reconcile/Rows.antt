-- ===== src/Reconcile/Rows.antt =====
-- What the upserts leave in the two tables, row by row.
use image_genie.Base.{
  ◌≡◌, refl, sym, ap, ◌∙◌, inl, inr, Bool, true, false, ◌||◌, Option, none, some, List, [], ◌∷◌,
  arith, ltb, if◌then◌else◌, Bool-cases, ◌==◌, count, Text, text_beq_iff, Dict, get, put, get-put,
  sort_by, text_leb, count-sort_by, any_key, text_eq, nat_eq,
}
use image_genie.Pipeline.{World, Model, ok, ◌>>=◌, artifact_id_eq}
use image_genie.Reconcile.{
  member, union, keys_of, upserted_model, upsert_model, upsert_models, pair_leb, for_each,
  insert_batch_size,
}
use image_genie.Reconcile.Batches.{for_each-batched}

member-count :
    (uid : Text) (uids : List Text) → member uid uids ≡ ltb 0 (count (λ u. u == uid) uids)
member-count uid [] = refl
member-count uid (u ∷ uids) = ground (arith, member-count uid uids)

any_key-count :
    (uid : Text) (pairs : List (Text × Text))
    → any_key uid pairs ≡ ltb 0 (count (λ pair. pair.0 == uid) pairs)
any_key-count uid [] = refl
any_key-count uid (pair ∷ pairs) = ground (arith, any_key-count uid pairs)

member-sort_by :
    (uid : Text) (uids : List Text) → member uid (sort_by text_leb uids) ≡ member uid uids
member-sort_by uid uids =
    rw
      (
        member-count uid (sort_by text_leb uids),
        member-count uid uids,
        count-sort_by text_leb (λ u. u == uid) uids,
      )
      refl

pub any_key-sort_by :
    (uid : Text) (pairs : List (Text × Text))
    → any_key uid (sort_by pair_leb pairs) ≡ any_key uid pairs
any_key-sort_by uid pairs =
    rw
      (
        any_key-count uid (sort_by pair_leb pairs),
        any_key-count uid pairs,
        count-sort_by pair_leb (λ pair. pair.0 == uid) pairs,
      )
      refl

pub member-union :
    (uid : Text) (uids others : List Text)
    → member uid (union uids others) ≡ (member uid uids || member uid others)
unfolding union
member-union uid [] others = refl
member-union uid (u ∷ uids) others = elim (Bool-cases (member u (union uids others))) [
  | inl again ↦ elim (Bool-cases (u == uid)) [
    | inl same ↦
        rw (again, same)
          (ap (λ x. member x (union uids others)) (sym ((text_beq_iff u uid).0 same)) ∙ again)
    | inr differs ↦ rw (again, differs) (member-union uid uids others)
  ]
  | inr fresh ↦ rw fresh (ground (arith, member-union uid uids others))
]

pub member-keys_of :
    (uid : Text) (pairs : List (Text × Text)) → member uid (keys_of pairs) ≡ any_key uid pairs
unfolding keys_of
member-keys_of uid [] = refl
member-keys_of uid (pair ∷ pairs) = ground (arith, member-keys_of uid pairs)

-- The model table after the upserts of some uids.
unfoldable pub written_models : Dict Text Text → List Text → Dict Text Model → Dict Text Model
written_models raw [] models = models
written_models raw (uid ∷ uids) models =
    written_models raw uids (put models uid (upserted_model (get raw uid) (get models uid)))

for_each-upsert_model :
    (raw : Dict Text Text) (uids : List Text) (w : World)
    → for_each (λ uid. upsert_model uid (get raw uid)) uids w
      ≡ (ok tt, record w { models = written_models raw uids w.models })
unfolding for_each upsert_model written_models ◌>>=◌
for_each-upsert_model raw [] w = refl
for_each-upsert_model raw (uid ∷ uids) w = for_each-upsert_model raw uids _

pub upsert_models_lem :
    (raw : Dict Text Text) (uids : List Text) (w : World)
    → upsert_models raw uids w
      ≡ (ok tt, record w { models = written_models raw (sort_by text_leb uids) w.models })
unfolding upsert_models
upsert_models_lem raw uids w =
    for_each-batched (λ uid. upsert_model uid (get raw uid)) insert_batch_size
      (sort_by text_leb uids) w (omega arith)
    ∙ for_each-upsert_model raw (sort_by text_leb uids) w

pub upserted_model-twice :
    (raw : Option Text) (old : Option Model)
    → upserted_model raw (some (upserted_model raw old)) ≡ upserted_model raw old
upserted_model-twice raw none = refl
upserted_model-twice raw (some model) = refl

get-written_models :
    (raw : Dict Text Text) (uids : List Text) (models : Dict Text Model) (uid : Text)
    → get (written_models raw uids models) uid ≡ (
        if member uid uids
        then some (upserted_model (get raw uid) (get models uid))
        else get models uid)
unfolding written_models
get-written_models raw [] models uid = refl
get-written_models raw (u ∷ uids) models uid =
    let models' = put models u (upserted_model (get raw u) (get models u)) in
    let step = get-written_models raw uids models' uid in
    elim (Bool-cases (u == uid)) [
      | inl same ↦
          let here : get models' uid ≡ some (upserted_model (get raw uid) (get models uid)) =
            get-put models u uid _ ∙ rw (same, (text_beq_iff u uid).0 same) refl in
          step ∙ rw (same, here) (twice (member uid uids))
      | inr differs ↦
          let here : get models' uid ≡ get models uid = get-put models u uid _ ∙ rw differs refl in
          step ∙ rw (differs, here) refl
    ]
  where
    twice :
        (b : Bool)
        → (if b
            then some (
                upserted_model (get raw uid) (some (upserted_model (get raw uid) (get models uid))))
            else some (upserted_model (get raw uid) (get models uid)))
          ≡ some (upserted_model (get raw uid) (get models uid))
    twice true = ap (λ m. some m) (upserted_model-twice (get raw uid) (get models uid))
    twice false = refl

pub get-sorted_models :
    (raw : Dict Text Text) (uids : List Text) (models : Dict Text Model) (uid : Text)
    → get (written_models raw (sort_by text_leb uids) models) uid ≡ (
        if member uid uids
        then some (upserted_model (get raw uid) (get models uid))
        else get models uid)
get-sorted_models raw uids models uid =
    get-written_models raw (sort_by text_leb uids) models uid ∙ rw (member-sort_by uid uids) refl
