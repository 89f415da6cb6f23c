-- ===== src/DevSet/Selected.antt =====
-- What is selected: gold objects under their gold class that were not ingested.
use image_genie.Base.{
  ℕ, ◌/◌, ◌≡◌, refl, ap, ◌∙◌, inl, inr, true, false, not, ◌&&◌, some, List, [], ◌∷◌, arith,
  Bool-cases, ◌==◌, beq_refl, length, All, All-append, Text, text_beq_iff, Dict, get, All-take,
  All-drop, IsKeyed, All-sort_by, text_eq, nat_eq,
}
use image_genie.WeakLabel.{member}
use image_genie.WeakLabel.Taxonomy.{roster}
use image_genie.DevSet.{
  Sample, samples_of, candidates_of, hash_leb, sample_leb, ranked, within_quota, beyond_quota,
  select_from, select_dev_set,
}

abbrev pub IsEligible : Dict Text Text → List Text → List Text → Sample → Type 0
IsEligible gold ingested classes sample =
    (member sample.0 ingested ≡ false)
    × (get gold sample.0 ≡ some sample.1)
    × (member sample.1 classes ≡ true)

module _ (gold : Dict Text Text) (ingested : List Text) where
  abbrev IsCandidate : Text → Text → Type 0
  IsCandidate class_name uid = (member uid ingested ≡ false) × (get gold uid ≡ some class_name)

  IsCandidate-candidates_of :
      (class_name : Text) (objects : List (Text × Text))
      → All (λ (object : Text × Text). get gold object.0 ≡ some object.1) objects
      → All (IsCandidate class_name) (candidates_of ingested class_name objects)
  unfolding candidates_of
  IsCandidate-candidates_of class_name [] h = tt
  IsCandidate-candidates_of class_name (object ∷ objects) (h, hs) =
      let rest = IsCandidate-candidates_of class_name objects hs in
      elim (Bool-cases (not (member object.0 ingested) && (object.1 == class_name))) [
        | inr no_candidate ↦ rw no_candidate rest
        | inl chosen ↦
            let here : object.1 ≡ class_name = ground (arith, text_beq_iff object.1 class_name) in
            rw chosen ((ground (arith, chosen), h ∙ ap (λ c. some c) here), rest)
      ]

  module _ (digest : Text → Text) (classes : List Text) (keyed : IsKeyed gold) where
    ranked-IsCandidate :
        (class_name : Text)
        → All (IsCandidate class_name) (ranked digest ingested gold.entries class_name)
    unfolding ranked
    ranked-IsCandidate class_name =
        All-sort_by (hash_leb digest) (IsCandidate class_name) _
          (IsCandidate-candidates_of class_name gold.entries keyed.found)

    samples_of-IsEligible :
        (class_name : Text) (uids : List Text)
        → member class_name classes ≡ true
        → All (IsCandidate class_name) uids
        → All (IsEligible gold ingested classes) (samples_of class_name uids)
    unfolding samples_of
    samples_of-IsEligible class_name [] here h = tt
    samples_of-IsEligible class_name (uid ∷ uids) here ((fresh, gold_class), h) =
        ((fresh, gold_class, here), samples_of-IsEligible class_name uids here h)

    parts-IsEligible :
        (quota : ℕ) (some_classes : List Text)
        → ((c : Text) → member c some_classes ≡ true → member c classes ≡ true)
        → All
            (IsEligible gold ingested classes)
            (within_quota digest quota ingested gold.entries some_classes)
          × All
              (IsEligible gold ingested classes)
              (beyond_quota digest quota ingested gold.entries some_classes)
    unfolding within_quota beyond_quota
    parts-IsEligible quota [] sub = (tt, tt)
    parts-IsEligible quota (c ∷ some_classes) sub =
        let here : member c classes ≡ true = sub c (rw (beq_refl c) refl) in
        let cands = ranked digest ingested gold.entries c in
        let ok = ranked-IsCandidate c in
        let (within, beyond) =
          parts-IsEligible quota some_classes (λ d there. sub d (rw there (ground arith))) in
        (
          All-append (IsEligible gold ingested classes) _ _
              (samples_of-IsEligible c _ here (All-take (IsCandidate c) quota cands ok)) within,
          All-append (IsEligible gold ingested classes) _ _
              (samples_of-IsEligible c _ here (All-drop (IsCandidate c) quota cands ok)) beyond,
        )

    select_from-IsEligible :
        (total : ℕ)
        → All
            (IsEligible gold ingested classes)
            (select_from digest classes gold.entries ingested total)
    unfolding select_from
    select_from-IsEligible total =
        let (within, beyond) =
          parts-IsEligible (total / length classes) classes (λ c there. there) in
        All-sort_by (sample_leb digest) (IsEligible gold ingested classes) _ (
          All-append (IsEligible gold ingested classes) _ _ within (
            All-take (IsEligible gold ingested classes) _ _
              (All-sort_by (sample_leb digest) (IsEligible gold ingested classes) _ beyond)))

-- Each object selected was not ingested, and stands under its gold class, which is in the roster.
pub select_dev_set-IsEligible :
    (digest : Text → Text) (gold : Dict Text Text) (ingested : List Text) (total : ℕ)
    → IsKeyed gold
    → All (IsEligible gold ingested roster) (select_dev_set digest gold ingested total)
unfolding select_dev_set
select_dev_set-IsEligible digest gold ingested total keyed =
    select_from-IsEligible gold ingested digest roster keyed total
