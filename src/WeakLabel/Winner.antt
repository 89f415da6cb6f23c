-- ===== src/WeakLabel/Winner.antt =====
-- The keywords pick the class that scores more than every other candidate, and none if there is no such class.
use image_genie.Base.{
  ℕ, ◌≤◌, ◌<◌, ◌≡◌, refl, sym, ap, ◌∙◌, ◌≢◌, ◌↔◌, inl, inr, Bool, true, false, ◌&&◌, some, List, [],
  ◌∷◌, arith, ltb, Bool-cases, ◌==◌, beq_refl, ne_beq, keep, count, Text, text_beq_iff, text_eq,
  nat_eq,
}
use image_genie.WeakLabel.{member, sole, top_score, resolve_scores}

-- No class stands twice in a set.
pub record IsDistinct (classes : List Text) : Type 0 where
  pub once : (c : Text) → count (λ d. d == c) classes ≤ 1

-- The class is a candidate, it scores, and every other candidate scores less.
pub record Wins (score_of : Text → ℕ) (candidates : List Text) (c : Text) : Type 0 where
  pub candidate : member c candidates ≡ true
  pub scores : 0 < score_of c
  pub beats : (d : Text) → member d candidates ≡ true → d ≢ c → score_of d < score_of c

module _ (score_of : Text → ℕ) where
  le-top_score :
      (candidates : List Text) (c : Text)
      → member c candidates ≡ true
      → score_of c ≤ top_score score_of candidates
  unfolding top_score
  le-top_score [] c h = absurd (ground arith)
  le-top_score (d ∷ candidates) c h = elim (Bool-cases (d == c)) [
    | inl same ↦ let here : d ≡ c = (text_beq_iff d c).0 same in rw here (omega arith)
    | inr other ↦ omega (arith, le-top_score candidates c (rw other at h))
  ]

  top_score-attained :
      (candidates : List Text)
      → 0 < top_score score_of candidates
      → (c : Text) × (member c candidates ≡ true) × (score_of c ≡ top_score score_of candidates)
  unfolding top_score
  top_score-attained [] h = absurd (omega arith)
  top_score-attained (d ∷ candidates) h =
      elim (Bool-cases (ltb (score_of d) (top_score score_of candidates))) [
        | inr first ↦ (d, rw (beq_refl d) refl, ground (arith, first))
        | inl later ↦
            let (c, there, top) = top_score-attained candidates (ground (arith, later)) in
            (c, rw there (ground arith), ground (arith, later, top))
      ]

member-keep :
    (p : Text → Bool) (c : Text) (xs : List Text) → member c (keep p xs) ≡ (member c xs && p c)
member-keep p c [] = refl
member-keep p c (x ∷ xs) = elim (Bool-cases (x == c)) [
  | inl same ↦
      let here : x ≡ c = (text_beq_iff x c).0 same in
      elim (Bool-cases (p x)) [
        | inl passes ↦ rw (passes, same, ← here, passes) refl
        | inr fails ↦ rw (fails, same, member-keep p c xs, ← here, fails) (ground arith)
      ]
  | inr other ↦ elim (Bool-cases (p x)) [
    | inl passes ↦ rw (passes, other) (member-keep p c xs)
    | inr fails ↦ rw (fails, other) (member-keep p c xs)
  ]
]

keep_none :
    (p : Text → Bool) (xs : List Text)
    → ((d : Text) → member d xs ≡ true → p d ≡ false)
    → keep p xs ≡ []
keep_none p [] h = refl
keep_none p (x ∷ xs) h =
    rw (h x (rw (beq_refl x) refl)) (keep_none p xs (λ d there. h d (rw there (ground arith))))

pub member_of_count : (c : Text) (xs : List Text) → member c xs ≡ ltb 0 (count (λ d. d == c) xs)
member_of_count c [] = refl
member_of_count c (x ∷ xs) = ground (arith, member_of_count c xs)

IsDistinct-tail : (x : Text) (xs : List Text) → IsDistinct (x ∷ xs) → IsDistinct xs
IsDistinct-tail x xs h = record { once = λ c. ground (arith, h.once c) }

-- A test that only one candidate passes keeps that candidate alone.
sole-keep :
    (p : Text → Bool) (c : Text) (xs : List Text)
    → IsDistinct xs
    → member c xs ≡ true
    → ((d : Text) → member d xs ≡ true → p d ≡ (d == c))
    → sole (keep p xs) ≡ some c
sole-keep p c [] distinct there h = absurd (ground arith)
sole-keep p c (x ∷ xs) distinct there h = elim (Bool-cases (x == c)) [
  | inl same ↦
      let passes : p x ≡ true = h x (rw (beq_refl x) refl) ∙ same in
      let others : keep p xs ≡ [] = keep_none p xs (λ d there'.
        h d (rw there' (ground arith))
        ∙ ne_beq d c
            (λ e. ground (arith, distinct.once c, same, member_of_count c xs, rw e at there'))) in
      rw (passes, others) (ap (λ y. some y) ((text_beq_iff x c).0 same))
  | inr other ↦
      let fails : p x ≡ false = h x (rw (beq_refl x) refl) ∙ other in
      rw fails (
        sole-keep p c xs (IsDistinct-tail x xs distinct) (rw other at there)
          (λ d there'. h d (rw there' (ground arith))))
]

sole-eq_some : (xs : List Text) (c : Text) → sole xs ≡ some c → xs ≡ c ∷ []
sole-eq_some [] c h = absurd (ground arith)
sole-eq_some (x ∷ []) c h = ground (arith, h)
sole-eq_some (x ∷ y ∷ xs) c h = absurd (ground arith)

-- A class is resolved exactly when it wins: it is a candidate that scores, and every other one scores less.
pub resolve_scores_iff :
    (score_of : Text → ℕ) (candidates : List Text) (c : Text)
    → IsDistinct candidates
    → (resolve_scores score_of candidates ≡ some c) ↔ Wins score_of candidates c
unfolding resolve_scores
resolve_scores_iff score_of candidates c distinct = (sound, complete)
  where
    sound : resolve_scores score_of candidates ≡ some c → Wins score_of candidates c
    sound h =
        let top = top_score score_of candidates in
        elim (Bool-cases (top == 0)) [
          | inl none_hit ↦ absurd (ground (arith, rw none_hit at h))
          | inr some_hit ↦
              let kept : keep (λ d. score_of d == top) candidates ≡ c ∷ [] =
                sole-eq_some _ c (rw some_hit at h) in
              let stays : (member c candidates && (score_of c == top)) ≡ true =
                sym (member-keep (λ d. score_of d == top) c candidates)
                ∙ rw (kept, beq_refl c) refl in
              record {
                candidate = ground (arith, stays);
                scores = ground (arith, stays, some_hit);
                beats = λ d there ne. elim (Bool-cases (score_of d == top)) [
                  | inr less ↦ ground (arith, stays, less, le-top_score score_of candidates d there)
                  | inl tied ↦
                      let also : member d (c ∷ []) ≡ true =
                        sym (ap (member d) kept)
                        ∙ member-keep (λ x. score_of x == top) d candidates
                        ∙ rw (there, tied) refl in
                      absurd (ne (sym ((text_beq_iff c d).0 (ground (arith, also)))))
                ];
              }
        ]

    complete : Wins score_of candidates c → resolve_scores score_of candidates ≡ some c
    complete w =
        let top = top_score score_of candidates in
        let high = le-top_score score_of candidates c w.candidate in
        let (best, there, is_top) =
          top_score-attained score_of candidates (omega (arith, high, w.scores)) in
        let top_is : top ≡ score_of c = elim (Bool-cases (best == c)) [
          | inl same ↦ sym is_top ∙ ap score_of ((text_beq_iff best c).0 same)
          | inr other ↦ absurd (
              omega (
                arith,
                high,
                is_top,
                w.beats best there (λ e. ground (arith, text_beq_iff best c, other, e)),
              ))
        ] in
        let hit : (top == 0) ≡ false = ground (arith, top_is, w.scores) in
        rw hit (
          sole-keep (λ d. score_of d == top) c candidates distinct w.candidate
            (λ d there'. elim (Bool-cases (d == c)) [
              | inl same ↦
                  rw (same, ap score_of ((text_beq_iff d c).0 same), top_is) (beq_refl (score_of c))
              | inr other ↦
                  rw (other, top_is)
                    (ground
                      (arith, w.beats d there' (λ e. ground (arith, text_beq_iff d c, other, e))))
            ]))
