-- ===== src/Base/Sorts.antt =====
-- A stable sort, as Python's `sorted` with its key, and what it leaves of a list.
use Prim.Native.Nat.{ℕ, suc}
use mathlib.Core.Path.{◌≡◌, refl, ◌∙◌}
use mathlib.Core.Bool.{Bool, true, false, not, ◌&&◌, ◌||◌}
use mathlib.Core.List.{List, [], ◌∷◌}
use native.Mathlib.Omega.{arith}
use image_genie.Base.Lists.{length, count, All}
use mathlib.Core.Logic.{inl, inr}
use image_genie.Base.Tests.{ltb, nat_beq, if◌then◌else◌, Bool-cases}

module _ {ℓ} {A : Type ℓ} (le : A → A → Bool) where
  unfoldable pub insert_by : A → List A → List A
  insert_by x [] = x ∷ []
  insert_by x (y ∷ ys) = let rest = insert_by x ys in if le x y then x ∷ y ∷ ys else y ∷ rest

  unfoldable pub sort_by : List A → List A
  unfolding insert_by
  sort_by [] = []
  sort_by (x ∷ xs) = insert_by x (sort_by xs)

  count-insert_by :
      (p : A → Bool) (x : A) (xs : List A) → count p (insert_by x xs) ≡ count p (x ∷ xs)
  unfolding insert_by
  count-insert_by p x [] = refl
  count-insert_by p x (y ∷ ys) = ground (arith, count-insert_by p x ys)

  pub count-sort_by : (p : A → Bool) (xs : List A) → count p (sort_by xs) ≡ count p xs
  unfolding sort_by
  count-sort_by p [] = refl
  count-sort_by p (x ∷ xs) = count-insert_by p x (sort_by xs) ∙ ground (arith, count-sort_by p xs)

  length-insert_by : (x : A) (xs : List A) → length (insert_by x xs) ≡ suc (length xs)
  unfolding insert_by
  length-insert_by x [] = refl
  length-insert_by x (y ∷ ys) = ground (arith, length-insert_by x ys)

  pub length-sort_by : (xs : List A) → length (sort_by xs) ≡ length xs
  unfolding sort_by
  length-sort_by [] = refl
  length-sort_by (x ∷ xs) = omega (arith, length-insert_by x (sort_by xs), length-sort_by xs)

  module _ {κ} (P : A → Type κ) where
    All-insert_by : (x : A) (xs : List A) → P x → All P xs → All P (insert_by x xs)
    unfolding insert_by
    All-insert_by x [] p h = (p, tt)
    All-insert_by x (y ∷ ys) p (q, h) = elim (Bool-cases (le x y)) [
      | inl first ↦ rw first (p, (q, h))
      | inr later ↦ rw later (q, All-insert_by x ys p h)
    ]

    pub All-sort_by : (xs : List A) → All P xs → All P (sort_by xs)
    unfolding sort_by
    All-sort_by [] h = tt
    All-sort_by (x ∷ xs) (p, h) = All-insert_by x (sort_by xs) p (All-sort_by xs h)

  -- Two elements of which exactly one may come first can be inserted in either order.
  module _ (trans : (x y z : A) → le x y ≡ true → le y z ≡ true → le x z ≡ true) where
    pub insert_by-insert_by :
        (x y : A) (zs : List A)
        → le x y ≡ not (le y x)
        → insert_by x (insert_by y zs) ≡ insert_by y (insert_by x zs)
    unfolding insert_by
    insert_by-insert_by x y [] strict = elim (Bool-cases (le y x)) [
      | inl after ↦ rw (strict, after) refl
      | inr before ↦ rw (strict, before) refl
    ]
    insert_by-insert_by x y (z ∷ zs) strict =
        ground (arith, strict, insert_by-insert_by x y zs strict, trans x y z, trans y x z)

-- The order of texts by their code points.
unfoldable pub text_leb : List ℕ → List ℕ → Bool
text_leb [] ys = true
text_leb (x ∷ xs) [] = false
text_leb (x ∷ xs) (y ∷ ys) = ltb x y || (nat_beq x y && text_leb xs ys)

-- What an order of texts is.
pub record IsOrder (le : List ℕ → List ℕ → Bool) : Type 0 where
  pub total : (a b : List ℕ) → (le a b || le b a) ≡ true
  pub trans : (a b c : List ℕ) → le a b ≡ true → le b c ≡ true → le a c ≡ true
  pub antisym : (a b : List ℕ) → le a b ≡ true → le b a ≡ true → a ≡ b

text_leb-total : (a b : List ℕ) → (text_leb a b || text_leb b a) ≡ true
unfolding text_leb
text_leb-total [] b = refl
text_leb-total (x ∷ a) [] = refl
text_leb-total (x ∷ a) (y ∷ b) = ground (arith, text_leb-total a b)

text_leb_trans : (a b c : List ℕ) → text_leb a b ≡ true → text_leb b c ≡ true → text_leb a c ≡ true
unfolding text_leb
text_leb_trans [] b c h k = refl
text_leb_trans (x ∷ a) [] c h k = cc h
text_leb_trans (x ∷ a) (y ∷ b) [] h k = cc k
text_leb_trans (x ∷ a) (y ∷ b) (z ∷ c) h k = ground (arith, h, k, text_leb_trans a b c)

text_leb-antisym : (a b : List ℕ) → text_leb a b ≡ true → text_leb b a ≡ true → a ≡ b
unfolding text_leb
text_leb-antisym [] [] h k = refl
text_leb-antisym [] (y ∷ b) h k = cc k
text_leb-antisym (x ∷ a) [] h k = cc h
text_leb-antisym (x ∷ a) (y ∷ b) h k =
    let heads : x ≡ y = ground (arith, h, k) in
    let tails : a ≡ b = text_leb-antisym a b (ground (arith, h, k)) (ground (arith, h, k)) in
    rw (heads, tails) refl

pub text_leb-IsOrder : IsOrder text_leb
text_leb-IsOrder = record {
  total = text_leb-total;
  trans = text_leb_trans;
  antisym = text_leb-antisym;
}
