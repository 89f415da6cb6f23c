-- ===== src/ArtifactKeys/Decimal.antt =====
-- Python's decimal formatting of a natural number, as in `f"{run_id}"` and `f"{view_index:02d}"`.
use image_genie.Base.{
  ℕ, zero, suc, ◌+◌, ◌-◌, ◌*◌, ◌/◌, ◌%◌, ◌<◌, ◌≡◌, refl, ap, ◌∙◌, inl, inr, [], ◌∷◌, ◌++◌, arith,
  ltb, if◌then◌else◌, Bool-cases, Text,
}

-- The digits above `acc`, by division; the fuel is spent only where it is below the number.
unfoldable pub decimal_above : ℕ → ℕ → Text → Text
decimal_above zero n acc = acc
decimal_above (suc fuel) n acc =
    let rest = decimal_above fuel (n / 10) ((48 + n % 10) ∷ acc) in
    if ltb n 10 then (48 + n) ∷ acc else rest

unfoldable pub decimal : ℕ → Text
unfolding decimal_above
decimal n = decimal_above (suc n) n []

unfoldable pub pad2 : Text → Text
pad2 [] = 48 ∷ 48 ∷ []
pad2 (d ∷ []) = 48 ∷ d ∷ []
pad2 (d ∷ e ∷ s) = d ∷ e ∷ s

-- `int(s)` of a string of digits, after what has been read.
abbrev pub value_from : ℕ → Text → ℕ
value_from n [] = n
value_from n (d ∷ s) = value_from (n * 10 + (d - 48)) s

pub value_from-append : (n : ℕ) (s t : Text) → value_from n (s ++ t) ≡ value_from (value_from n s) t
value_from-append n [] t = refl
value_from-append n (d ∷ s) t = value_from-append (n * 10 + (d - 48)) s t

-- With fuel above the number, the digits read back as the number.
value_from-decimal_above :
    (fuel n : ℕ) (acc : Text)
    → n < fuel
    → value_from 0 (decimal_above fuel n acc) ≡ value_from n acc
unfolding decimal_above
value_from-decimal_above zero n acc h = absurd (omega arith)
value_from-decimal_above (suc fuel) n acc h = elim (Bool-cases (ltb n 10)) [
  | inl small ↦ rw small (ap (λ m. value_from m acc) (omega arith))
  | inr large ↦ rw large (
      value_from-decimal_above fuel (n / 10) ((48 + n % 10) ∷ acc) (ground arith)
      ∙ ap (λ m. value_from m acc) (omega arith))
]

pub value_from-decimal : (n : ℕ) → value_from 0 (decimal n) ≡ n
unfolding decimal
value_from-decimal n = value_from-decimal_above (suc n) n [] (omega arith)

pub value_from-pad2 : (s : Text) → value_from 0 (pad2 s) ≡ value_from 0 s
unfolding pad2
value_from-pad2 [] = refl
value_from-pad2 (d ∷ []) = refl
value_from-pad2 (d ∷ e ∷ s) = refl
