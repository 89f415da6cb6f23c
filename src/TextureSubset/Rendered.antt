-- ===== src/TextureSubset/Rendered.antt =====
-- Which rows of a selection are kept for the renders that are there.
use image_genie.Base.{
  count-keep, ℕ, ◌+◌, ◌≤◌, ◌≡◌, refl, ap, ◌∙◌, inl, inr, Bool, ◌&&◌, ◌||◌, List, [], ◌∷◌, arith,
  leb, Bool-cases, ◌==◌, length, keep, count, Text, text_eq, nat_eq,
}
use image_genie.ArtifactKeys.{Variant, num_views}
use image_genie.Pipeline.{World}
use image_genie.Reconcile as Reconcile
use image_genie.Reconcile.Scan.{names}
use image_genie.Reconcile.Views.{member-tally}
use image_genie.WeakLabel.{member}
use image_genie.TextureSubset.{variant_prefix, view_uid, rendered_uids, verify_against_renders}

-- How many listed keys are PNGs right below the uid, or deeper.
unfoldable pub listed_pngs : World → Variant → Text → ℕ
unfolding Reconcile.list_keys view_uid variant_prefix
listed_pngs w v uid =
    count (λ key. names uid (view_uid (variant_prefix v) key))
      (Reconcile.list_keys (variant_prefix v) w.blobs.entries)

member-same : (uid : Text) (uids : List Text) → member uid uids ≡ Reconcile.member uid uids
member-same uid [] = refl
member-same uid (other ∷ uids) = ap (λ b. (other == uid) || b) (member-same uid uids)

member-rendered_uids :
    (w : World) (v : Variant) (uid : Text)
    → member uid (rendered_uids w v) ≡ leb num_views (listed_pngs w v uid)
unfolding rendered_uids listed_pngs
member-rendered_uids w v uid =
    member-same uid _
    ∙ member-tally (view_uid (variant_prefix v))
        (Reconcile.list_keys (variant_prefix v) w.blobs.entries) uid

count-ext :
    {A : Type 0} (p q : A → Bool) → ((x : A) → p x ≡ q x) → (xs : List A) → count p xs ≡ count q xs
count-ext p q same [] = refl
count-ext p q same (x ∷ xs) = ground (arith, same x, count-ext p q same xs)

length-keep_le : {A : Type 0} (q : A → Bool) (xs : List A) → length (keep q xs) ≤ length xs
length-keep_le q [] = omega arith
length-keep_le q (x ∷ xs) = ground (arith, length-keep_le q xs)

keep-keep : {A : Type 0} (q : A → Bool) (xs : List A) → keep q (keep q xs) ≡ keep q xs
keep-keep q [] = refl
keep-keep q (x ∷ xs) = elim (Bool-cases (q x)) [
  | inl chosen ↦ rw (chosen, chosen) (ap (λ kept. x ∷ kept) (keep-keep q xs))
  | inr passed ↦ rw passed (keep-keep q xs)
]

-- The rows that are written back are those whose uid has at least twelve PNGs listed under the variant, each as
-- often as it stood in the file; the reported drops are the others; and a second run drops nothing.
pub verify_against_renders-kept :
    {Columns : Type 0} (w : World) (v : Variant) (rows : List (Text × Columns))
    → (let (kept, dropped) = verify_against_renders w v rows in
        ((p : Text × Columns → Bool)
          → count p kept ≡ count (λ row. leb num_views (listed_pngs w v row.0) && p row) rows)
        × (length kept + dropped ≡ length rows)
        × (verify_against_renders w v kept ≡ (kept, 0)))
unfolding verify_against_renders
verify_against_renders-kept {Columns} w v rows =
    let survives : Text × Columns → Bool = λ row. member row.0 (rendered_uids w v) in
    (
      λ p.
          count-keep p survives rows
          ∙ count-ext _ _ (λ row. ap (λ b. b && p row) (member-rendered_uids w v row.0)) rows,
      omega (arith, length-keep_le survives rows),
      rw (keep-keep survives rows) (ap (λ n. (keep survives rows, n)) (omega arith)),
    )
