-- ===== src/Pipeline/Render/Views.antt =====
-- The views that a render writes, and the row that it records.
use image_genie.Base.{
  ℕ, zero, suc, ◌+◌, ◌≤◌, ◌<◌, ◌≡◌, refl, ◌∙◌, inl, inr, true, ◌&&◌, Option, none, List, [], ◌∷◌,
  ◌++◌, arith, nat_beq, if◌then◌else◌, nat_beq_iff, Bool-cases, ◌==◌, beq_refl, length, Text,
  get-put, get-put_self, text_eq, nat_eq,
}
use image_genie.ArtifactKeys.{
  Variant, default, textured, renders_prefix, view_key, view_keys, view_keys_below, num_views,
}
use image_genie.Pipeline.{
  ArtifactStage, ArtifactId, Artifact, done, Blob, World, Result, ok, exists, artifact_done,
  record_artifact, put_bytes, artifact_id_eq,
}
use image_genie.Pipeline.Render.{
  all_exist, all_views_present, marked_done, put_views, record_render,
}

pub exists-put :
    (w : World) (key k : Text) (bytes : Blob)
    → exists (put_bytes key bytes w).1 k ≡ (if key == k then true else exists w k)
unfolding exists put_bytes
exists-put w key k bytes = ground (arith, get-put w.blobs key k bytes)

exists_kept :
    (w : World) (key k : Text) (bytes : Blob)
    → exists w k ≡ true
    → exists (put_bytes key bytes w).1 k ≡ true
exists_kept w key k bytes h = ground (arith, exists-put w key k bytes)

exists_written :
    (w : World) (key : Text) (bytes : Blob) → exists (put_bytes key bytes w).1 key ≡ true
exists_written w key bytes = rw (exists-put, beq_refl key) refl

-- What writing the views leaves and adds.
pub record Wrote (uid : Text) (v : Variant) (start n : ℕ) (w : World)
    (after : Result (Unit {0}) × World) : Type 0 where
  pub finished : after.0 ≡ ok tt
  pub models : after.1.models ≡ w.models
  pub artifacts : after.1.artifacts ≡ w.artifacts
  pub published : after.1.published ≡ w.published
  pub kept : (k : Text) → exists w k ≡ true → exists after.1 k ≡ true
  pub added : (i : ℕ) → start ≤ i → i < start + n → exists after.1 (view_key uid i v) ≡ true

pub put_views-Wrote :
    (uid : Text) (v : Variant) (start : ℕ) (images : List Blob) (w : World)
    → Wrote uid v start (length images) w (put_views uid v start images w)
unfolding put_views put_bytes
put_views-Wrote uid v start [] w = record {
  finished = refl;
  models = refl;
  artifacts = refl;
  published = refl;
  kept = λ k h. h;
  added = λ i low high. absurd (omega arith);
}
put_views-Wrote uid v start (png ∷ images) w =
    let w₁ = (put_bytes (view_key uid start v) png w).1 in
    let rest = put_views-Wrote uid v (suc start) images w₁ in
    record {
      finished = rest.finished;
      models = rest.models;
      artifacts = rest.artifacts;
      published = rest.published;
      kept = λ k h. rest.kept k (exists_kept w (view_key uid start v) k png h);
      added = λ i low high. elim (Bool-cases (nat_beq i start)) [
        | inl here ↦
            rw ((nat_beq_iff i start).0 here)
              (rest.kept (view_key uid start v) (exists_written w (view_key uid start v) png))
        | inr later ↦ rest.added i (ground arith) (ground arith)
      ];
    }

all_exist-append :
    (w : World) (ks ls : List Text) → all_exist w (ks ++ ls) ≡ (all_exist w ks && all_exist w ls)
all_exist-append w [] ls = refl
all_exist-append w (k ∷ ks) ls = ground (arith, all_exist-append w ks ls)

pub all_exist-view_keys_below :
    (w : World) (uid : Text) (v : Variant) (n : ℕ)
    → ((i : ℕ) → i < n → exists w (view_key uid i v) ≡ true)
    → all_exist w (view_keys_below uid n v) ≡ true
unfolding view_keys_below
all_exist-view_keys_below w uid v zero h = refl
all_exist-view_keys_below w uid v (suc n) h =
    let before = all_exist-view_keys_below w uid v n (λ i low. h i (omega arith)) in
    rw
      (
        all_exist-append w (view_keys_below uid n v) (view_key uid n v ∷ []),
        before,
        h n (omega arith),
      )
      refl

pub record_artifact-exists :
    (uid : Text) (stage : ArtifactStage) (key : Text) (hash : Option Text) (w : World) (k : Text)
    → exists (record_artifact uid stage key hash w).1 k ≡ exists w k
unfolding record_artifact exists
record_artifact-exists uid stage key hash w k = ground arith

pub record_artifact-done :
    (uid : Text) (stage : ArtifactStage) (key : Text) (hash : Option Text) (w : World)
    (completion : Text)
    → (record_artifact uid stage key hash w).0 ≡ ok tt
    → exists w completion ≡ true
    → artifact_done (record_artifact uid stage key hash w).1 uid stage completion ≡ true
unfolding record_artifact artifact_done exists
record_artifact-done uid stage key hash w completion h there =
    let id : ArtifactId = record { model_uid = uid; stage = stage } in
    let row : Artifact = record { key = key; content_hash = hash; status = done } in
    ground (arith, get-put_self w.artifacts id row)

pub record_render-done :
    (uid : Text) (v : Variant) (w : World)
    → (record_render uid v w).0 ≡ ok tt
    → ((i : ℕ) → i < num_views → exists w (view_key uid i v) ≡ true)
    → (marked_done (record_render uid v w).1 uid v
        && all_views_present (record_render uid v w).1 uid v)
      ≡ true
unfolding record_render marked_done all_views_present view_keys
record_render-done uid textured w h there = all_exist-view_keys_below w uid textured 12 there
record_render-done uid default w h there =
    let prefix = renders_prefix uid default in
    let marked =
      record_artifact-done uid ArtifactStage.rendered prefix none w (view_key uid 11 default) h
        (there 11 (omega arith)) in
    let w₁ = (record_artifact uid ArtifactStage.rendered prefix none w).1 in
    let complete = all_exist-view_keys_below w₁ uid default 12 (λ i low.
      record_artifact-exists uid ArtifactStage.rendered prefix none w (view_key uid i default)
      ∙ there i low) in
    rw marked complete
