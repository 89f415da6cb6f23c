-- ===== src/DeadLetters/Listing.antt =====
-- The list of failures that the administrator is shown.
use image_genie.Base.{
  ◌≡◌, refl, ◌∙◌, inl, inr, Bool, true, false, ◌&&◌, ◌||◌, List, [], ◌∷◌, arith, Bool-cases, keep,
  count, All,
}
use image_genie.DeadLetters.{
  DeadLetter, DeadLetters, is_outstanding, newer, insert_newest, newest_first, list_dead_letters,
}

-- Each row failed later than the next one, or at the same moment with a number that is not smaller.
abbrev pub NewestFirst : List DeadLetter → Type 0
NewestFirst [] = Unit
NewestFirst (row ∷ rows) = All (λ later. newer later row ≡ false) rows × NewestFirst rows

All-insert_newest :
    (P : DeadLetter → Type 0) (row : DeadLetter) (rows : List DeadLetter)
    → P row
    → All P rows
    → All P (insert_newest row rows)
unfolding insert_newest
All-insert_newest P row [] p _ = (p, tt)
All-insert_newest P row (first ∷ rows) p (q, qs) = elim (Bool-cases (newer first row)) [
  | inl before ↦ rw before (q, All-insert_newest P row rows p qs)
  | inr after ↦ rw after (p, (q, qs))
]

newer_asym : (a b : DeadLetter) → newer a b ≡ true → newer b a ≡ false
newer_asym a b h = ground arith

newer_trans : (a b c : DeadLetter) → newer b a ≡ false → newer c b ≡ false → newer c a ≡ false
newer_trans a b c h k = ground arith

All-newer_trans :
    (a b : DeadLetter) (rows : List DeadLetter)
    → newer b a ≡ false
    → All (λ later. newer later b ≡ false) rows
    → All (λ later. newer later a ≡ false) rows
All-newer_trans a b [] h _ = tt
All-newer_trans a b (c ∷ rows) h (k, ks) = (newer_trans a b c h k, All-newer_trans a b rows h ks)

NewestFirst-insert_newest :
    (row : DeadLetter) (rows : List DeadLetter)
    → NewestFirst rows
    → NewestFirst (insert_newest row rows)
unfolding insert_newest
NewestFirst-insert_newest row [] _ = (tt, tt)
NewestFirst-insert_newest row (first ∷ rows) (before, rest) = elim (Bool-cases (newer first row)) [
  | inl b ↦ rw b (
    All-insert_newest (λ later. newer later first ≡ false) row rows (newer_asym first row b) before,
    NewestFirst-insert_newest row rows rest,
  )
  | inr a ↦ rw a ((a, All-newer_trans row first rows a before), (before, rest))
]

NewestFirst-newest_first : (rows : List DeadLetter) → NewestFirst (newest_first rows)
unfolding newest_first
NewestFirst-newest_first [] = tt
NewestFirst-newest_first (row ∷ rows) =
    NewestFirst-insert_newest row (newest_first rows) (NewestFirst-newest_first rows)

count-insert_newest :
    (p : DeadLetter → Bool) (row : DeadLetter) (rows : List DeadLetter)
    → count p (insert_newest row rows) ≡ count p (row ∷ rows)
unfolding insert_newest
count-insert_newest p row [] = refl
count-insert_newest p row (first ∷ rows) = ground (arith, count-insert_newest p row rows)

count-newest_first :
    (p : DeadLetter → Bool) (rows : List DeadLetter) → count p (newest_first rows) ≡ count p rows
unfolding newest_first
count-newest_first p [] = refl
count-newest_first p (row ∷ rows) =
    count-insert_newest p row (newest_first rows) ∙ ground (arith, count-newest_first p rows)

count-keep :
    (p q : DeadLetter → Bool) (rows : List DeadLetter)
    → count p (keep q rows) ≡ count (λ row. q row && p row) rows
count-keep p q [] = refl
count-keep p q (row ∷ rows) = ground (arith, count-keep p q rows)

-- The list has the rows of the table that are asked for, each as often as the table has it (of any set of rows that a
-- test picks out, it has as many as the table has outstanding ones of the set, or as the table has if the replayed
-- ones are included), and is ordered from the newest failure to the oldest, by number where the moments agree.
pub list_dead_letters-ordered :
    (include_replayed : Bool) (table : DeadLetters)
    → NewestFirst (list_dead_letters include_replayed table)
      × ((p : DeadLetter → Bool)
          → count p (list_dead_letters include_replayed table)
            ≡ count (λ row. (include_replayed || is_outstanding row) && p row) table.rows)
unfolding list_dead_letters
list_dead_letters-ordered include_replayed table = (
  NewestFirst-newest_first (keep (λ row. include_replayed || is_outstanding row) table.rows),
  λ p.
      count-newest_first p (keep (λ row. include_replayed || is_outstanding row) table.rows)
      ∙ count-keep p (λ row. include_replayed || is_outstanding row) table.rows,
)
