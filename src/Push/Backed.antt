-- ===== src/Push/Backed.antt =====
-- Every row that says its output is done has that output in the bucket.
use image_genie.Base.{
  ◌≡◌, refl, sym, inl, inr, true, Option, List, [], ◌∷◌, arith, Bool-cases, ◌==◌, Text, get, put,
  get-put, text_eq, nat_eq,
}
use image_genie.ArtifactKeys.{default, converted_key, normalized_key, view_keys}
use image_genie.Pipeline.{
  World, converted, normalized, rendered, ArtifactId, Artifact, done, Blob, Action, Result, ok, err,
  continue, exists, is_done, is_some, put_bytes, record_artifact, publish_next, pure, ◌>>=◌,
  artifact_id_eq, artifact_id_beq_iff,
}
use image_genie.Pipeline.Reads.{OnlyReads}
use image_genie.Pipeline.Render.{all_exist}
use image_genie.Pipeline.Convert.{source_of}
use image_genie.Pipeline.Download.{says_downloaded}

-- The blobs that a stage's row stands for.
abbrev pub evidence : ArtifactId → List Text
evidence i = elim i.stage [
  | converted ↦ converted_key i.model_uid default ∷ []
  | normalized ↦ normalized_key i.model_uid default ∷ []
  | rendered ↦ view_keys i.model_uid default
]

pub record IsBacked (w : World) : Type 0 where
  pub raw :
      (uid : Text)
      → says_downloaded (get w.models uid) ≡ true
      → exists w (source_of (get w.models uid) uid) ≡ true
  pub outputs :
      (i : ArtifactId) → is_done (get w.artifacts i) ≡ true → all_exist w (evidence i) ≡ true

-- No blob of the one world is missing in the other.
pub record Grows (w w' : World) : Type 0 where
  pub at : (k : Text) → exists w k ≡ true → exists w' k ≡ true

pub all_exist-Grows :
    (w w' : World) (ks : List Text) → Grows w w' → all_exist w ks ≡ true → all_exist w' ks ≡ true
all_exist-Grows w w' [] g h = refl
all_exist-Grows w w' (k ∷ ks) g h =
    let rest : all_exist w ks ≡ true = ground arith in
    let first : exists w k ≡ true = ground arith in
    rw (g.at k first, all_exist-Grows w w' ks g rest) refl

-- A world with the same tables and no fewer blobs.
pub IsBacked-Grows :
    (w w' : World)
    → w'.models ≡ w.models
    → w'.artifacts ≡ w.artifacts
    → Grows w w'
    → IsBacked w
    → IsBacked w'
unfolding exists
IsBacked-Grows w w' models artifacts g b = record {
  raw = λ uid h. rw models (g.at _ (b.raw uid (rw models at h)));
  outputs = λ i h. all_exist-Grows w w' (evidence i) g (b.outputs i (rw artifacts at h));
}

pub Grows-put_bytes : (key : Text) (bytes : Blob) (w : World) → Grows w (put_bytes key bytes w).1
unfolding exists put_bytes
Grows-put_bytes key bytes w = record { at = λ k h. ground (arith, get-put w.blobs key k bytes) }

-- A row may be written once its evidence is there.
pub IsBacked-record_artifact :
    (i : ArtifactId) (key : Text) (hash : Option Text) (w : World)
    → all_exist w (evidence i) ≡ true
    → IsBacked w
    → IsBacked (record_artifact i.model_uid i.stage key hash w).1
unfolding record_artifact exists
IsBacked-record_artifact i key hash w there b =
    elim (Bool-cases (is_some (get w.models i.model_uid))) [
      | inr unknown ↦ rw unknown b
      | inl known ↦
          let row : Artifact = record { key = key; content_hash = hash; status = done } in
          let w' = record w { artifacts = put w.artifacts i row } in
          rw known (record {
            raw = b.raw;
            outputs = λ j h.
                all_exist-Grows w w' (evidence j) (record { at = λ k e. e })
                  (elim (Bool-cases (i == j)) [
                    | inl same ↦ rw (sym ((artifact_id_beq_iff i j).0 same)) there
                    | inr other ↦ b.outputs j (rw (get-put w.artifacts i j row, other) at h)
                  ]);
          })
    ]

-- The action keeps every row backed, whether it returns or raises.
pub record KeepsBacked {A : Type 0} (m : Action A) : Type 0 where
  pub at : (w : World) → IsBacked w → IsBacked (m w).1

KeepsBacked-continue :
    {A B : Type 0} (r : Result A) (f : A → Action B) (w : World)
    → IsBacked w
    → ((a : A) → KeepsBacked (f a))
    → IsBacked (continue r f w).1
KeepsBacked-continue (ok a) f w b k = (k a).at w b
KeepsBacked-continue (err e) f w b k = b

pub KeepsBacked-bind :
    {A B : Type 0} (m : Action A) (f : A → Action B)
    → KeepsBacked m
    → ((a : A) → KeepsBacked (f a))
    → KeepsBacked (m >>= f)
unfolding ◌>>=◌
KeepsBacked-bind m f h k = record {
  at = λ w b. KeepsBacked-continue (m w).0 f (m w).1 (h.at w b) k;
}

pub KeepsBacked-OnlyReads : {A : Type 0} (m : Action A) → OnlyReads m → KeepsBacked m
KeepsBacked-OnlyReads m r = record { at = λ w b. rw (r.at w) b }

pub KeepsBacked-put_bytes : (key : Text) (bytes : Blob) → KeepsBacked (put_bytes key bytes)
unfolding put_bytes
KeepsBacked-put_bytes key bytes = record {
  at = λ w b. IsBacked-Grows w _ refl refl (Grows-put_bytes key bytes w) b;
}

pub KeepsBacked-publish_next :
    (topic uid variant : Text) → KeepsBacked (publish_next topic uid variant)
unfolding publish_next exists
KeepsBacked-publish_next topic uid variant = record {
  at = λ w b. IsBacked-Grows w _ refl refl (record { at = λ k h. h }) b;
}

pub KeepsBacked-pure : {A : Type 0} (a : A) → KeepsBacked (pure a)
KeepsBacked-pure a = record { at = λ w b. b }

pub ruleset backing =
    (KeepsBacked-bind, KeepsBacked-put_bytes, KeepsBacked-publish_next, KeepsBacked-pure)
