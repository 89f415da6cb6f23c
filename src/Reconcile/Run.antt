-- ===== src/Reconcile/Run.antt =====
-- `reconcile`: the scan, the counts, and the rows written in one transaction.
use image_genie.Base.{ℕ, ◌+◌, Bool, List, [], ◌∷◌, if◌then◌else◌, length, Text}
use image_genie.ArtifactKeys.{
  raw_prefix, converted_prefix, normalized_prefix, renders_prefix, default,
}
use image_genie.Pipeline.{
  World, converted, normalized, rendered, Action, Result, ok, err, pure, ◌>>◌, ◌>>=◌,
}
use image_genie.Reconcile.{
  Listing, uid_to_key_under, complete_render_uids, union, minus, keys_of, upsert_models,
  upsert_artifacts,
}

pub record Scanned : Type 0 where
  pub raw : Listing
  pub converted : Listing
  pub normalized : Listing
  pub rendered_uids : List Text
  pub partial_renders : List Text

unfoldable pub scan : World → Scanned
unfolding uid_to_key_under complete_render_uids
scan w =
    let (complete, partial) = complete_render_uids w in
    record {
      raw = uid_to_key_under w raw_prefix;
      converted = uid_to_key_under w converted_prefix;
      normalized = uid_to_key_under w normalized_prefix;
      rendered_uids = complete;
      partial_renders = partial;
    }

unfoldable pub raw_uids : Scanned → List Text
unfolding keys_of
raw_uids s = keys_of s.raw.uid_to_key.entries

unfoldable pub all_uids : Scanned → List Text
unfolding raw_uids union keys_of
all_uids s = union (raw_uids s) (
    union (keys_of s.converted.uid_to_key.entries)
      (union (keys_of s.normalized.uid_to_key.entries) s.rendered_uids))

pub record Counts : Type 0 where
  pub models : ℕ
  pub raw : ℕ
  pub converted : ℕ
  pub normalized : ℕ
  pub rendered : ℕ
  pub partial_renders_skipped : ℕ
  pub processed_without_raw : ℕ
  pub unrecognised_keys : ℕ

unfoldable pub counts_of : Scanned → Counts
unfolding all_uids raw_uids minus
counts_of s = record {
  models = length (all_uids s);
  raw = length (raw_uids s);
  converted = length s.converted.uid_to_key.entries;
  normalized = length s.normalized.uid_to_key.entries;
  rendered = length s.rendered_uids;
  partial_renders_skipped = length s.partial_renders;
  processed_without_raw = length (minus (all_uids s) (raw_uids s));
  unrecognised_keys = s.raw.unrecognised + s.converted.unrecognised + s.normalized.unrecognised;
}

-- `{uid: renders_prefix(uid) for uid in rendered_uids_set}`
unfoldable pub rendered_pairs : List Text → List (Text × Text)
unfolding renders_prefix
rendered_pairs [] = []
rendered_pairs (uid ∷ uids) = (uid, renders_prefix uid default) ∷ rendered_pairs uids

unfoldable pub write_rows : Scanned → Action (Unit {0})
unfolding ◌>>=◌ upsert_models upsert_artifacts rendered_pairs all_uids
write_rows s = do
  upsert_models s.raw.uid_to_key (all_uids s)
  upsert_artifacts converted s.converted.uid_to_key.entries
  upsert_artifacts normalized s.normalized.uid_to_key.entries
  upsert_artifacts rendered (rendered_pairs s.rendered_uids)

-- session_scope: committed when the body returns, rolled back when it raises.
abbrev pub settle : {A : Type 0} → World → Result A × World → Result A × World
settle before (ok a, after) = (ok a, after)
settle before (err e, after) = (err e, before)

unfoldable pub transaction : {A : Type 0} → Action A → Action A
transaction act w = settle w (act w)

unfoldable pub reconcile : Bool → Action Counts
unfolding scan counts_of write_rows transaction ◌>>=◌
reconcile dry_run w =
    let counts = counts_of (scan w) in
    if dry_run then (ok counts, w) else transaction (write_rows (scan w) >>= λ _. pure counts) w
