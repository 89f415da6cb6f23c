-- ===== src/WeakLabel/Examples.antt =====
-- Labels of some objects.
use image_genie.Base.{
  ◌≡◌, refl, ◌↔◌, Bool, true, false, ◌||◌, none, some, List, [], ◌∷◌, Text, codes, text_beq,
}
use image_genie.WeakLabel.{
  Annotation, keyword, ambiguous, label_object, category_candidates, candidates_from, update,
  lookup, tokens, tokens_of, find_tokens, runs, lower, score, resolve_by_keywords, resolve_scores,
  top_score, classes_with_keywords, member,
}
use image_genie.WeakLabel.Winner.{IsDistinct}
use image_genie.WeakLabel.Laws.{IsDistinct-of_test}
use image_genie.WeakLabel.Reasons.{Justified, label_object_iff}

abbrev jet : Annotation
jet = record {
  categories = some (codes "cars-vehicles") ∷ none ∷ [];
  name = some (codes "Private JET (2019)");
  tags = some (codes "rusty-car") ∷ some (codes "plane") ∷ none ∷ [];
}

jet_is : label_object jet ≡ (some (codes "aircraft"), keyword)
unfolding label_object category_candidates candidates_from update lookup tokens tokens_of
    find_tokens runs lower score resolve_by_keywords resolve_scores top_score classes_with_keywords
    text_beq
jet_is = refl

abbrev temple : Annotation
temple = record {
  categories = some (codes "architecture") ∷ [];
  name = some (codes "Temple");
  tags = [];
}

temple_is : label_object temple ≡ (some (codes "building"), keyword)
unfolding label_object category_candidates candidates_from update lookup tokens tokens_of
    find_tokens runs lower score resolve_by_keywords resolve_scores top_score classes_with_keywords
    text_beq
temple_is = refl

bench_is_open :
    label_object (record temple { name = some (codes "park bench") }) ≡ (none, ambiguous)
unfolding label_object category_candidates candidates_from update lookup tokens tokens_of
    find_tokens runs lower score resolve_by_keywords resolve_scores top_score classes_with_keywords
    text_beq
bench_is_open = refl

label_object_iff_example :
    (label_object jet ≡ (some (codes "aircraft"), keyword))
    ↔ Justified jet (codes "aircraft") keyword
label_object_iff_example = label_object_iff jet (codes "aircraft") keyword

abbrev one_way : List Text
one_way = codes "car" ∷ codes "aircraft" ∷ []

abbrev other_way : List Text
other_way = codes "aircraft" ∷ codes "car" ∷ []

one_way-IsDistinct : IsDistinct one_way
unfolding text_beq
one_way-IsDistinct = IsDistinct-of_test one_way refl

other_way-IsDistinct : IsDistinct other_way
unfolding text_beq
other_way-IsDistinct = IsDistinct-of_test other_way refl

same_members : (c : Text) → member c one_way ≡ member c other_way
same_members c = swap (text_beq (codes "car") c) (text_beq (codes "aircraft") c)
  where
    swap : (a b : Bool) → (a || (b || false)) ≡ (b || (a || false))
    swap true true = refl
    swap true false = refl
    swap false true = refl
    swap false false = refl

-- Two candidates that score the same give no class.
tie : resolve_scores (λ _. 2) one_way ≡ none
unfolding resolve_scores top_score
tie = refl
