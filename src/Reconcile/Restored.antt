-- ===== src/Reconcile/Restored.antt =====
-- What a run restores: the stage gates of the workers, and what it leaves alone.
use image_genie.Base.{
  ◌≤◌, ◌≡◌, refl, sym, ap, ◌∙◌, inl, inr, Bool, true, false, Option, none, some, arith,
  if◌then◌else◌, leb→le, Bool-cases, Option-cases, Text, starts_with, Dict, get, get-present,
  any_key-get, any_key, text_eq, nat_eq,
}
use image_genie.ArtifactKeys.{
  num_views, renders_prefix, converted_prefix, normalized_prefix, converted_key, normalized_key,
  uid_from_key, default,
}
use image_genie.ArtifactKeys.RoundTrip.{IsUid, uid_from_key-processed}
use image_genie.Pipeline.{
  World, Model, Artifact, ArtifactStage, converted, normalized, rendered, ArtifactId, is_some,
  exists, artifact_done, artifact_id_eq, done, ok,
}
use image_genie.Reconcile.{member, upserted_model, uid_to_key_under, complete_render_uids}
use image_genie.Reconcile.Run.{scan, all_uids, reconcile, counts_of}
use image_genie.Reconcile.Outputs.{written_row}
use image_genie.Reconcile.Rows.{upserted_model-twice}
use image_genie.Reconcile.Scan.{uid_to_key_under_complete, uid_to_key_under_sound}
use image_genie.Reconcile.Views.{listed_views, member-complete_render_uids}
use image_genie.Reconcile.Laws.{any_key-rendered_pairs, pairs_for, reconcile_lem}
use image_genie.Reconcile.Index.{or_empty, key_for, get-reconciled, get-reconciled_model}

any_key-of_some :
    (dict : Dict Text Text) (uid : Text)
    → is_some (get dict uid) ≡ true
    → any_key uid dict.entries ≡ true
any_key-of_some dict uid h = elim (Option-cases (get dict uid)) [
  | inl e ↦ absurd (ground (arith, rw e at h))
  | inr (key, e) ↦ any_key-get dict uid key e
]

exists-reconcile : (w : World) (key : Text) → exists (reconcile false w).1 key ≡ exists w key
unfolding exists
exists-reconcile w key = rw (reconcile_lem false w) refl

-- A gate is the row and the blob; where each blob has its row, it is the blob.
gate :
    (w : World) (uid : Text) (stage : ArtifactStage) (key : Text)
    → (exists w key ≡ true → any_key uid (pairs_for (scan w) stage) ≡ true)
    → artifact_done (reconcile false w).1 uid stage key ≡ exists w key
unfolding artifact_done
gate w uid stage key h =
    rw (get-reconciled w (record { model_uid = uid; stage = stage }), exists-reconcile w key)
      (elim (Bool-cases (exists w key)) [
        | inl here ↦ rw (here, h here) refl
        | inr gone ↦ rw gone (ground arith)
      ])

-- After a run, whatever the tables were, the convert and the normalize stage take a model for done exactly
-- when its output is in the bucket.
pub artifact_done-reconcile :
    (w : World) (uid : Text)
    → IsUid uid
    → (artifact_done (reconcile false w).1 uid converted (converted_key uid default)
        ≡ exists w (converted_key uid default))
      × (artifact_done (reconcile false w).1 uid normalized (normalized_key uid default)
          ≡ exists w (normalized_key uid default))
unfolding scan
artifact_done-reconcile w uid h =
    let (reads_converted, reads_normalized, _) = uid_from_key-processed uid 0 h in
    (
      gate w uid converted (converted_key uid default) (λ here. any_key-of_some _ uid (
          uid_to_key_under_complete w converted_prefix uid (converted_key uid default) here
            (unfold starts_with converted_key in refl) reads_converted)),
      gate w uid normalized (normalized_key uid default) (λ here. any_key-of_some _ uid (
          uid_to_key_under_complete w normalized_prefix uid (normalized_key uid default) here
            (unfold starts_with normalized_key in refl) reads_normalized)),
    )

-- What annotations, people and the workers wrote stays: a model's title, tags, deletion and content hash, and
-- an artifact's content hash.
pub reconcile-keeps :
    (w : World) (uid : Text) (model : Model) (i : ArtifactId) (row : Artifact)
    → get w.models uid ≡ some model
    → get w.artifacts i ≡ some row
    → ((after : Model) × (get (reconcile false w).1.models uid ≡ some after)
        × (after.title ≡ model.title)
        × (after.tags ≡ model.tags)
        × (after.deleted_at ≡ model.deleted_at)
        × (after.content_hash ≡ model.content_hash))
      × ((after : Artifact) × (get (reconcile false w).1.artifacts i ≡ some after)
          × (after.content_hash ≡ row.content_hash))
reconcile-keeps w uid model i row m r = (
  rw (get-reconciled_model w uid, m) (models (member uid (all_uids (scan w)))),
  rw (get-reconciled w i, r) (rows (any_key i.model_uid (pairs_for (scan w) i.stage))),
)
  where
    models :
        (b : Bool)
        → (after : Model) × ((if b
              then some (upserted_model (get (scan w).raw.uid_to_key uid) (some model))
              else some model)
            ≡ some after)
          × (after.title ≡ model.title)
          × (after.tags ≡ model.tags)
          × (after.deleted_at ≡ model.deleted_at)
          × (after.content_hash ≡ model.content_hash)
    models true = (_, refl, refl, refl, refl, refl)
    models false = (_, refl, refl, refl, refl, refl)

    rows :
        (b : Bool)
        → (after : Artifact) × ((if b
              then some (written_row (key_for (scan w) i.stage i.model_uid) (some row))
              else some row)
            ≡ some after)
          × (after.content_hash ≡ row.content_hash)
    rows true = (_, refl, refl)
    rows false = (_, refl, refl)

reconciled_counts : (w : World) → (reconcile false w).0 ≡ ok (counts_of (scan w))
reconciled_counts w = rw (reconcile_lem false w) refl

scan-reconcile : (w : World) → scan (reconcile false w).1 ≡ scan w
unfolding scan uid_to_key_under complete_render_uids
scan-reconcile w = rw (reconcile_lem false w) refl

if-again :
    {A : Type 0} (b : Bool) (f : Option A → A) (o : Option A)
    → f (some (f o)) ≡ f o
    → (if b then some (f (if b then some (f o) else o)) else (if b then some (f o) else o))
      ≡ (if b then some (f o) else o)
if-again true f o h = ap (λ a. some a) h
if-again false f o h = refl

-- A second run over the same bucket, listed in the same order, counts the same and changes no row.
pub reconcile_again :
    (w : World)
    → ((reconcile false (reconcile false w).1).0 ≡ (reconcile false w).0)
      × ((uid : Text)
          → get (reconcile false (reconcile false w).1).1.models uid
            ≡ get (reconcile false w).1.models uid)
      × ((i : ArtifactId)
          → get (reconcile false (reconcile false w).1).1.artifacts i
            ≡ get (reconcile false w).1.artifacts i)
reconcile_again w =
    let w' = (reconcile false w).1 in
    (
      reconciled_counts w'
          ∙ ap (λ s. ok (counts_of s)) (scan-reconcile w)
          ∙ sym (reconciled_counts w),
      λ uid.
          rw (get-reconciled_model w' uid, scan-reconcile w, get-reconciled_model w uid)
            (if-again (member uid (all_uids (scan w)))
              (upserted_model (get (scan w).raw.uid_to_key uid)) (get w.models uid)
              (upserted_model-twice _ (get w.models uid))),
      λ i.
          rw (get-reconciled w' i, scan-reconcile w, get-reconciled w i)
            (if-again (any_key i.model_uid (pairs_for (scan w) i.stage))
              (written_row (key_for (scan w) i.stage i.model_uid)) (get w.artifacts i) refl),
    )

-- What a row that a run adds says of the bucket.
abbrev pub IsTrue : World → ArtifactId → Artifact → Type 0
IsTrue w i row = elim i.stage [
  | rendered ↦
      (row.key ≡ renders_prefix i.model_uid default) × (num_views ≤ listed_views w i.model_uid)
  | _ ↦ (exists w row.key ≡ true) × (uid_from_key row.key ≡ some i.model_uid)
]

get-of_any_key :
    (dict : Dict Text Text) (uid : Text)
    → any_key uid dict.entries ≡ true
    → get dict uid ≡ some (or_empty (get dict uid))
get-of_any_key dict uid h = let (key, e) = get-present dict uid h in rw e refl

true_for :
    (w : World) (uid : Text) (stage : ArtifactStage)
    → any_key uid (pairs_for (scan w) stage) ≡ true
    → IsTrue w
        (record { model_uid = uid; stage = stage })
        (written_row (key_for (scan w) stage uid) none)
unfolding scan
true_for w uid converted h =
    let (here, under, named) =
      uid_to_key_under_sound w converted_prefix uid _ (get-of_any_key _ uid h) in
    (here, named)
true_for w uid normalized h =
    let (here, under, named) =
      uid_to_key_under_sound w normalized_prefix uid _ (get-of_any_key _ uid h) in
    (here, named)
true_for w uid rendered h = (
  refl,
  leb→le num_views (listed_views w uid)
      (sym (member-complete_render_uids w uid) ∙ sym (any_key-rendered_pairs uid _) ∙ h),
)

-- A row that was not there and is there after a run is done, and is true of the bucket: a converted or a
-- normalized one names an object of its model, a rendered one stands for at least twelve listed objects.
pub reconcile-IsTrue :
    (w : World) (i : ArtifactId) (row : Artifact)
    → get w.artifacts i ≡ none
    → get (reconcile false w).1.artifacts i ≡ some row
    → (row.status ≡ done) × IsTrue w i row
reconcile-IsTrue w i row absent h =
    elim (Bool-cases (any_key i.model_uid (pairs_for (scan w) i.stage))) [
      | inr unlisted ↦
          absurd (ground (arith, sym (rw (get-reconciled w i, unlisted) at h) ∙ absent))
      | inl listed ↦
          let e : written_row (key_for (scan w) i.stage i.model_uid) none ≡ row =
            ground (arith, rw (get-reconciled w i, listed, absent) at h) in
          rw (← e) (refl, true_for w i.model_uid i.stage listed)
    ]
