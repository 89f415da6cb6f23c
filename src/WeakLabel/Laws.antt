-- ===== src/WeakLabel/Laws.antt =====
-- When an object gets which class, and for which reason.
use mathlib.Core.Path.{subst}
use image_genie.Base.{
  ℕ, ◌≡◌, refl, sym, ◌∙◌, inl, inr, Bool, true, false, not, ◌&&◌, Option, List, [], ◌∷◌, arith,
  Bool-cases, Option-cases, ◌==◌, Text, text_beq, text_beq_iff, text_eq, nat_eq,
}
use image_genie.WeakLabel.Taxonomy.{class_to_keywords}
use image_genie.WeakLabel.{
  Annotation, member, add, update, candidates_from, classes_of, category_candidates, resolve_scores,
  classes_with_keywords,
}
use image_genie.WeakLabel.Winner.{IsDistinct, Wins, resolve_scores_iff, member_of_count}

-- The result does not depend on the order in which a set lists its classes.
pub resolve_scores-reordered :
    (score_of : Text → ℕ) (xs ys : List Text)
    → IsDistinct xs
    → IsDistinct ys
    → ((c : Text) → member c xs ≡ member c ys)
    → resolve_scores score_of xs ≡ resolve_scores score_of ys
resolve_scores-reordered score_of xs ys dx dy same =
    elim (Option-cases (resolve_scores score_of xs)) [
      | inr (c, e) ↦
          e
          ∙ sym (
              (resolve_scores_iff score_of ys c dy).1
                (moved xs ys same c ((resolve_scores_iff score_of xs c dx).0 e)))
      | inl e ↦ elim (Option-cases (resolve_scores score_of ys)) [
        | inl f ↦ e ∙ sym f
        | inr (c, f) ↦ absurd (
            ground (
              arith,
              e,
              (resolve_scores_iff score_of xs c dx).1
                  (moved ys xs (λ d. sym (same d)) c ((resolve_scores_iff score_of ys c dy).0 f)),
            ))
      ]
    ]
  where
    moved :
        (us vs : List Text)
        → ((c : Text) → member c us ≡ member c vs)
        → (c : Text) → Wins score_of us c
        → Wins score_of vs c
    moved us vs eq c w = record {
      candidate = sym (eq c) ∙ w.candidate;
      scores = w.scores;
      beats = λ d there ne. w.beats d (eq d ∙ there) ne;
    }

IsDistinct-add : (x : Text) (xs : List Text) → IsDistinct xs → IsDistinct (add x xs)
IsDistinct-add x xs h = elim (Bool-cases (member x xs)) [
  | inl there ↦ rw there h
  | inr fresh ↦ rw fresh (record {
    once = λ c. elim (Bool-cases (x == c)) [
      | inr other ↦ rw other (h.once c)
      | inl same ↦
          let gone : member c xs ≡ false = rw (← (text_beq_iff x c).0 same) fresh in
          rw same (ground (arith, member_of_count c xs, gone))
    ];
  })
]

IsDistinct-update : (classes xs : List Text) → IsDistinct xs → IsDistinct (update classes xs)
unfolding update
IsDistinct-update [] xs h = h
IsDistinct-update (c ∷ classes) xs h = IsDistinct-update classes (add c xs) (IsDistinct-add c xs h)

IsDistinct-candidates_from :
    (categories : List (Option Text)) (xs : List Text)
    → IsDistinct xs
    → IsDistinct (candidates_from categories xs)
unfolding candidates_from
IsDistinct-candidates_from [] xs h = h
IsDistinct-candidates_from (found ∷ categories) xs h =
    IsDistinct-candidates_from categories _ (IsDistinct-update (classes_of found) xs h)

pub IsDistinct-category_candidates : (a : Annotation) → IsDistinct (category_candidates a)
unfolding category_candidates
IsDistinct-category_candidates a =
    IsDistinct-candidates_from a.categories [] (record { once = λ c. omega arith })

abbrev pub all_distinct : List Text → Bool
all_distinct [] = true
all_distinct (x ∷ xs) = not (member x xs) && all_distinct xs

pub IsDistinct-of_test : (xs : List Text) → all_distinct xs ≡ true → IsDistinct xs
IsDistinct-of_test [] h = record { once = λ c. omega arith }
IsDistinct-of_test (x ∷ xs) h =
    let fresh : member x xs ≡ false = ground arith in
    subst IsDistinct (rw fresh refl) (IsDistinct-add x xs (IsDistinct-of_test xs (ground arith)))

pub IsDistinct-classes_with_keywords : IsDistinct (classes_with_keywords class_to_keywords)
unfolding classes_with_keywords text_beq
IsDistinct-classes_with_keywords = IsDistinct-of_test (classes_with_keywords class_to_keywords) refl
