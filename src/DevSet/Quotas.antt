-- ===== src/DevSet/Quotas.antt =====
-- How many objects are selected, of all classes and of each.
use image_genie.Base.{
  ℕ, ◌+◌, ◌-◌, ◌*◌, ◌/◌, ◌≤◌, min, ◌≡◌, refl, sym, ap, ◌∙◌, inl, inr, Bool, true, List, [], ◌∷◌,
  ◌++◌, arith, Bool-cases, ◌==◌, length, take, drop, count, length-append, length-take, Text,
  text_beq_iff, Dict, count-append, count-take-drop, length-count, sort_by, count-sort_by,
  length-sort_by, text_eq, nat_eq,
}
use image_genie.WeakLabel.{member}
use image_genie.WeakLabel.Taxonomy.{roster}
use image_genie.DevSet.{
  Sample, samples_of, candidates_of, hash_leb, sample_leb, ranked, within_quota, beyond_quota,
  select_from, select_dev_set,
}

pub count-samples_of :
    (p : Sample → Bool) (class_name : Text) (uids : List Text)
    → count p (samples_of class_name uids) ≡ count (λ uid. p (uid, class_name)) uids
unfolding samples_of
count-samples_of p class_name [] = refl
count-samples_of p class_name (uid ∷ uids) = ground (arith, count-samples_of p class_name uids)

length-samples_of :
    (class_name : Text) (uids : List Text) → length (samples_of class_name uids) ≡ length uids
unfolding samples_of
length-samples_of class_name [] = refl
length-samples_of class_name (uid ∷ uids) = omega (arith, length-samples_of class_name uids)

-- The supply of the classes, as far as a test holds of it.
unfoldable pub supply : (Sample → Bool) → List Text → List (Text × Text) → List Text → ℕ
unfolding candidates_of
supply p ingested gold [] = 0
supply p ingested gold (class_name ∷ classes) =
    count (λ uid. p (uid, class_name)) (candidates_of ingested class_name gold)
    + supply p ingested gold classes

module _ (digest : Text → Text) (ingested : List Text) (gold : List (Text × Text)) where
  count-ranked :
      (p : Text → Bool) (class_name : Text)
      → count p (ranked digest ingested gold class_name)
        ≡ count p (candidates_of ingested class_name gold)
  unfolding ranked
  count-ranked p class_name = count-sort_by (hash_leb digest) p _

  -- Every candidate is in one of the two parts.
  count-parts :
      (p : Sample → Bool) (quota : ℕ) (classes : List Text)
      → count p (within_quota digest quota ingested gold classes)
          + count p (beyond_quota digest quota ingested gold classes)
        ≡ supply p ingested gold classes
  unfolding within_quota beyond_quota supply
  count-parts p quota [] = refl
  count-parts p quota (class_name ∷ classes) =
      let q : Text → Bool = λ uid. p (uid, class_name) in
      let cands = ranked digest ingested gold class_name in
      rw
        (
          count-append p (samples_of class_name (take quota cands))
              (within_quota digest quota ingested gold classes),
          count-append p (samples_of class_name (drop quota cands))
              (beyond_quota digest quota ingested gold classes),
          count-samples_of p class_name (take quota cands),
          count-samples_of p class_name (drop quota cands),
        )
        (omega (
          arith,
          count-take-drop q quota cands,
          count-ranked q class_name,
          count-parts p quota classes,
        ))

  length-within_quota :
      (quota : ℕ) (classes : List Text)
      → length (within_quota digest quota ingested gold classes) ≤ quota * length classes
  unfolding within_quota
  length-within_quota quota [] = omega arith
  length-within_quota quota (class_name ∷ classes) =
      let cands = ranked digest ingested gold class_name in
      rw
        (
          length-append (samples_of class_name (take quota cands))
              (within_quota digest quota ingested gold classes),
          length-samples_of class_name (take quota cands),
          length-take quota cands,
        )
        (omega (arith, length-within_quota quota classes))

  -- A selection has as many objects as were asked for, or all that there are if they are fewer.
  pub length-select_from :
      (classes : List Text) (total : ℕ)
      → total / length classes * length classes ≤ total
      → length (select_from digest classes gold ingested total)
        ≡ min total (supply (λ _. true) ingested gold classes)
  unfolding select_from
  length-select_from classes total fits =
      let quota = total / length classes in
      let within = within_quota digest quota ingested gold classes in
      let beyond = sort_by (sample_leb digest) (beyond_quota digest quota ingested gold classes) in
      rw
        (
          length-sort_by (sample_leb digest) (within ++ take (total - length within) beyond),
          length-append within (take (total - length within) beyond),
          length-take (total - length within) beyond,
          length-sort_by (sample_leb digest) (beyond_quota digest quota ingested gold classes),
        )
        (omega (
          arith,
          fits,
          length-within_quota quota classes,
          count-parts (λ _. true) quota classes,
          length-count within,
          length-count (beyond_quota digest quota ingested gold classes),
        ))

  -- Each class of the list has its quota, or all its candidates if they are fewer.
  within_quota-class :
      (quota : ℕ) (classes : List Text) (class_name : Text)
      → member class_name classes ≡ true
      → min quota (length (candidates_of ingested class_name gold))
        ≤ count (λ sample. sample.1 == class_name) (within_quota digest quota ingested gold classes)
  unfolding within_quota
  within_quota-class quota [] class_name h = absurd (ground arith)
  within_quota-class quota (c ∷ classes) class_name h =
      let cands = ranked digest ingested gold c in
      let p : Sample → Bool = λ sample. sample.1 == class_name in
      rw
        (
          count-append p (samples_of c (take quota cands))
              (within_quota digest quota ingested gold classes),
          count-samples_of p c (take quota cands),
        )
        (elim (Bool-cases (c == class_name)) [
          | inr other ↦ omega (arith, within_quota-class quota classes class_name (rw other at h))
          | inl same ↦
              let here : c ≡ class_name = (text_beq_iff c class_name).0 same in
              let full : count (λ _. true) (take quota cands)
                  ≡ min quota (length (candidates_of ingested c gold)) =
                sym (length-count (take quota cands))
                ∙ length-take quota cands
                ∙ ap (min quota) (length-sort_by (hash_leb digest) _) in
              rw (same, full, here) (omega arith)
        ])

  count-select_from :
      (classes : List Text) (total : ℕ) (p : Sample → Bool)
      → count p (within_quota digest (total / length classes) ingested gold classes)
        ≤ count p (select_from digest classes gold ingested total)
  unfolding select_from
  count-select_from classes total p =
      let within = within_quota digest (total / length classes) ingested gold classes in
      let beyond =
        sort_by (sample_leb digest)
          (beyond_quota digest (total / length classes) ingested gold classes) in
      rw
        (
          count-sort_by (sample_leb digest) p (within ++ take (total - length within) beyond),
          count-append p within (take (total - length within) beyond),
        )
        (omega arith)

-- The selection has as many objects as were asked for, or every gold object of the roster's classes that was
-- not ingested if they are fewer; and each class of the roster has at least an equal share of the number asked
-- for, or all that it has.
pub select_dev_set-balanced :
    (digest : Text → Text) (gold : Dict Text Text) (ingested : List Text) (total : ℕ)
    → (length (select_dev_set digest gold ingested total)
        ≡ min total (supply (λ _. true) ingested gold.entries roster))
      × ((class_name : Text)
          → member class_name roster ≡ true
          → min (total / length roster) (length (candidates_of ingested class_name gold.entries))
            ≤ count (λ sample. sample.1 == class_name) (select_dev_set digest gold ingested total))
unfolding select_dev_set
select_dev_set-balanced digest gold ingested total = (
  length-select_from digest ingested gold.entries roster total (omega arith),
  λ class_name h. omega (
    arith,
    within_quota-class digest ingested gold.entries (total / length roster) roster class_name h,
    count-select_from digest ingested gold.entries roster total (λ sample. sample.1 == class_name),
  ),
)
