-- ===== src/TextureSubset/Capped.antt =====
-- How many models of a class the capped selection has.
use image_genie.Base.{
  ℕ, zero, suc, ◌*◌, ◌≤◌, min, ◌≡◌, refl, ◌∙◌, inl, inr, Bool, true, false, not, ◌&&◌, List, [],
  ◌∷◌, arith, if◌then◌else◌, Bool-cases, ◌==◌, length, take, count, length-take, Text, text_beq,
  text_beq_iff, count-append, count-sort_by, length-sort_by, text_eq, nat_eq,
}
use image_genie.WeakLabel.{member}
use image_genie.WeakLabel.Taxonomy.{roster}
use image_genie.DevSet.{Sample, samples_of}
use image_genie.DevSet.Quotas.{count-samples_of}
use image_genie.TextureSubset.{
  CensusRow, is_candidate, uids_of, subset_rank_leb, class_to_candidates, sample_leb, capped,
  select_subset,
}

length-uids_of :
    (p : CensusRow → Bool) (census : List CensusRow) → length (uids_of p census) ≡ count p census
unfolding uids_of
length-uids_of p [] = refl
length-uids_of p (row ∷ census) = ground (arith, length-uids_of p census)

length-class_to_candidates :
    (digest : Text → Text) (census : List CensusRow) (class_name : Text)
    → length (class_to_candidates digest census class_name) ≡ count (is_candidate class_name) census
unfolding class_to_candidates
length-class_to_candidates digest census class_name =
    length-sort_by (subset_rank_leb digest) (uids_of (is_candidate class_name) census)
    ∙ length-uids_of (is_candidate class_name) census

-- No name stands twice.
distinct : List Text → Bool
distinct [] = true
distinct (name ∷ names) = not (member name names) && distinct names

count-absent :
    (name : Text) (names : List Text)
    → member name names ≡ false
    → count (λ other. other == name) names ≡ 0
unfolding member
count-absent name [] h = refl
count-absent name (other ∷ names) h =
    ground (arith, text_beq_iff name other, text_beq_iff other name, count-absent name names)

count-distinct :
    (name : Text) (names : List Text)
    → distinct names ≡ true
    → member name names ≡ true
    → count (λ other. other == name) names ≡ 1
unfolding distinct member
count-distinct name [] d h = absurd (cc h)
count-distinct name (other ∷ names) d h = elim (Bool-cases (other == name)) [
  | inl same ↦
      let here : other ≡ name = (text_beq_iff other name).0 same in
      let absent : member name names ≡ false = rw (← here) (ground (arith, d)) in
      rw (same, count-absent name names absent) refl
  | inr differs ↦
      let there : member name names ≡ true =
        ground (arith, h, text_beq_iff name other, text_beq_iff other name, differs) in
      rw (differs, count-distinct name names (ground (arith, d)) there) refl
]

count-take_le :
    {A : Type 0} (p : A → Bool) (n m : ℕ) (xs : List A)
    → n ≤ m
    → count p (take n xs) ≤ count p (take m xs)
count-take_le p zero m xs h = omega arith
count-take_le p (suc n) zero xs h = absurd (omega arith)
count-take_le p (suc n) (suc m) [] h = omega arith
count-take_le p (suc n) (suc m) (x ∷ xs) h = ground (arith, count-take_le p n m xs (omega arith))

module _ (candidates : Text → List Text) where
  capped-grows :
      (p : Sample → Bool) (n m : ℕ) (classes : List Text)
      → n ≤ m
      → count p (capped candidates n classes) ≤ count p (capped candidates m classes)
  unfolding capped
  capped-grows p n m [] h = omega arith
  capped-grows p n m (class_name ∷ classes) h =
      let q : Text → Bool = λ uid. p (uid, class_name) in
      let found = candidates class_name in
      rw
        (
          count-append p (samples_of class_name (take n found)) (capped candidates n classes),
          count-append p (samples_of class_name (take m found)) (capped candidates m classes),
          count-samples_of p class_name (take n found),
          count-samples_of p class_name (take m found),
        )
        (omega (arith, count-take_le q n m found h, capped-grows p n m classes h))

  count-same : (b : Bool) (xs : List Text) → count (λ _. b) xs ≡ (if b then length xs else 0)
  count-same true [] = refl
  count-same false [] = refl
  count-same true (x ∷ xs) = ground (arith, count-same true xs)
  count-same false (x ∷ xs) = count-same false xs

  -- A class gets its share each time that the list names it.
  count-capped :
      (cap : ℕ) (classes : List Text) (class_name : Text)
      → count (λ sample. sample.1 == class_name) (capped candidates cap classes)
        ≡ count (λ c. c == class_name) classes * min cap (length (candidates class_name))
  unfolding capped
  count-capped cap [] class_name = omega arith
  count-capped cap (c ∷ classes) class_name =
      let p : Sample → Bool = λ sample. sample.1 == class_name in
      let found = take cap (candidates c) in
      rw
        (
          count-append p (samples_of c found) (capped candidates cap classes),
          count-samples_of p c found,
          count-capped cap classes class_name,
        )
        (elim (Bool-cases (c == class_name)) [
          | inl same ↦
              let here : c ≡ class_name = (text_beq_iff c class_name).0 same in
              rw (count-same (c == class_name) found, same, length-take cap (candidates c), here)
                (grind arith)
          | inr differs ↦ rw (count-same (c == class_name) found, differs) (omega arith)
        ])

roster-distinct : distinct roster ≡ true
unfolding distinct text_beq
roster-distinct = refl

-- A class of the roster has the cap's number of models in the selection, or all its qualifying rows of the
-- census if they are fewer, whatever the other classes have; and a selection under a higher cap has all that one
-- under a lower cap has.
pub select_subset-capped :
    (digest : Text → Text) (census : List CensusRow) (cap : ℕ)
    → ((class_name : Text)
        → member class_name roster ≡ true
        → count
            (λ sample. sample.1 == class_name)
            (select_subset (class_to_candidates digest census) cap)
          ≡ min cap (count (is_candidate class_name) census))
      × ((p : Sample → Bool) (higher : ℕ)
          → cap ≤ higher
          → count p (select_subset (class_to_candidates digest census) cap)
            ≤ count p (select_subset (class_to_candidates digest census) higher))
unfolding select_subset
select_subset-capped digest census cap =
    let candidates = class_to_candidates digest census in
    (
      λ class_name known.
          let supply : length (candidates class_name) ≡ count (is_candidate class_name) census =
            length-class_to_candidates digest census class_name in
          rw
            (
              count-sort_by sample_leb (λ sample. sample.1 == class_name)
                  (capped candidates cap roster),
              count-capped candidates cap roster class_name,
              count-distinct class_name roster roster-distinct known,
              supply,
            )
            (omega arith),
      λ p higher h.
          rw
            (
              count-sort_by sample_leb p (capped candidates cap roster),
              count-sort_by sample_leb p (capped candidates higher roster),
            )
            (capped-grows candidates p cap higher roster h),
    )
