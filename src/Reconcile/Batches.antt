-- ===== src/Reconcile/Batches.antt =====
-- The batches cut the rows without loss: each is full or the last, and writing by batches writes every row.
use image_genie.Base.{
  ℕ, zero, suc, ◌+◌, ◌≤◌, ◌<◌, ◌≡◌, refl, sym, ap, ◌∙◌, inl, inr, List, [], ◌∷◌, ◌++◌, arith, ltb,
  Bool-cases, length, drop, take-append-drop, length-take, All, drop-past, drop-drop,
}
use image_genie.Pipeline.{Action, Result, ok, err, World, continue, ◌>>=◌, ◌>>◌}
use image_genie.Reconcile.{batched, batched_from, for_each}

module _ {ℓ} {A : Type ℓ} where
  unfoldable pub concat : List (List A) → List A
  concat [] = []
  concat (xs ∷ xss) = xs ++ concat xss

  concat-batched_from :
      (fuel start size : ℕ) (rows : List A)
      → 0 < size
      → length rows ≤ start + fuel
      → concat (batched_from fuel start size rows) ≡ drop start rows
  unfolding batched_from concat
  concat-batched_from zero start size rows h enough = sym (drop-past start rows (omega arith))
  concat-batched_from (suc fuel) start size rows h enough =
      elim (Bool-cases (ltb start (length rows))) [
        | inl more ↦
            rw
              (
                more,
                concat-batched_from fuel (start + size) size rows h (omega arith),
                ← drop-drop size start rows,
                take-append-drop size (drop start rows),
              )
              refl
        | inr over ↦ rw (over, drop-past start rows (ground arith)) refl
      ]

  pub concat-batched : (size : ℕ) (rows : List A) → 0 < size → concat (batched rows size) ≡ rows
  unfolding batched
  concat-batched size rows h = concat-batched_from (length rows) 0 size rows h (omega arith)

  length-batched_from :
      (fuel start size : ℕ) (rows : List A)
      → All (λ batch. length batch ≤ size) (batched_from fuel start size rows)
  unfolding batched_from
  length-batched_from zero start size rows = tt
  length-batched_from (suc fuel) start size rows = elim (Bool-cases (ltb start (length rows))) [
    | inl more ↦ rw more (
      omega (arith, length-take size (drop start rows)),
      length-batched_from fuel (start + size) size rows,
    )
    | inr over ↦ rw over tt
  ]

  -- Batches of a positive size hold the rows in order, and none holds more rows than the size.
  pub batched_lem :
      (size : ℕ) (rows : List A)
      → 0 < size
      → (concat (batched rows size) ≡ rows) × All (λ batch. length batch ≤ size) (batched rows size)
  unfolding batched
  batched_lem size rows h =
      (concat-batched size rows h, length-batched_from (length rows) 0 size rows)

continue-same :
    {A B : Type 0} (r : Result A) (f g : A → Action B) (w : World)
    → ((a : A) → f a w ≡ g a w)
    → continue r f w ≡ continue r g w
continue-same (ok a) f g w h = h a
continue-same (err e) f g w h = refl

continue_assoc :
    {A B C : Type 0} (r : Result A) (f : A → Action B) (g : B → Action C) (w : World)
    → continue r (λ a. f a >>= g) w ≡ ((λ w'. continue r f w') >>= g) w
unfolding ◌>>=◌
continue_assoc (ok a) f g w = refl
continue_assoc (err e) f g w = refl

module _ {ℓ} {A : Type ℓ} (act : A → Action (Unit {0})) where
  for_each-append :
      (xs ys : List A) (w : World)
      → for_each act (xs ++ ys) w ≡ (for_each act xs >> for_each act ys) w
  unfolding for_each ◌>>=◌
  for_each-append [] ys w = refl
  for_each-append (x ∷ xs) ys w =
      continue-same (act x w).0 _ (λ _. for_each act xs >> for_each act ys) (act x w).1
        (λ _. for_each-append xs ys (act x w).1)
      ∙ continue_assoc (act x w).0 (λ _. for_each act xs) (λ _. for_each act ys) (act x w).1

  for_each-concat :
      (xss : List (List A)) (w : World)
      → for_each (for_each act) xss w ≡ for_each act (concat xss) w
  unfolding for_each concat ◌>>=◌
  for_each-concat [] w = refl
  for_each-concat (xs ∷ xss) w =
      continue-same (for_each act xs w).0 _ _ (for_each act xs w).1
        (λ _. for_each-concat xss (for_each act xs w).1)
      ∙ sym (for_each-append xs (concat xss) w)

  -- Writing by batches is writing row by row.
  pub for_each-batched :
      (size : ℕ) (rows : List A) (w : World)
      → 0 < size
      → for_each (for_each act) (batched rows size) w ≡ for_each act rows w
  for_each-batched size rows w h =
      for_each-concat (batched rows size) w
      ∙ ap (λ l. for_each act l w) (concat-batched size rows h)
