-- ===== src/Base/Dicts.antt =====
-- Dictionaries and tables by primary key, as association lists with one entry a key.
use mathlib.Core.Path.{◌≡◌, refl, ◌∙◌}
use mathlib.Core.Logic.{inl, inr}
use mathlib.Core.Option.{Option, none, some}
use mathlib.Core.List.{List, [], ◌∷◌}
use native.Mathlib.Omega.{arith}
use mathlib.Core.Bool.{Bool, true, false, not, ◌||◌}
use image_genie.Base.Lists.{keep, All}
use image_genie.Base.Tests.{Eq, ◌==◌, beq_refl, ne_beq, Bool-cases, if◌then◌else◌}

pub record Dict {ℓ κ} (K : Type ℓ) (V : Type κ) : Type (ℓ ⊔ κ) where
  pub entries : List (K × V)

module _ {ℓ κ} {K : Type ℓ} {V : Type κ} ⦃e : Eq K⦄ where
  value_at : List (K × V) → K → Option V
  value_at [] key = none
  value_at (pair ∷ pairs) key = if pair.0 == key then some pair.1 else value_at pairs key

  others : K → List (K × V) → List (K × V)
  others key = keep (λ pair. not (pair.0 == key))

  value_at-others :
      (pairs : List (K × V)) (gone key : K)
      → value_at (others gone pairs) key ≡ (if gone == key then none else value_at pairs key)
  unfolding others value_at
  value_at-others [] gone key = ground arith
  value_at-others (pair ∷ pairs) gone key = ground (
    arith,
    value_at-others pairs gone key,
    e.beq_iff gone key,
    e.beq_iff pair.0 gone,
    e.beq_iff pair.0 key,
  )

  -- d[key] = value, an upsert
  unfoldable pub put : Dict K V → K → V → Dict K V
  unfolding others
  put dict key value = record { entries = (key, value) ∷ others key dict.entries }

  -- session.get(Table, key), d.get(key)
  unfoldable pub get : Dict K V → K → Option V
  unfolding value_at
  get dict = value_at dict.entries

  -- session.delete(row), d.pop(key, None)
  unfoldable pub remove : Dict K V → K → Dict K V
  unfolding others
  remove dict key = record { entries = others key dict.entries }

  pub get-put :
      (dict : Dict K V) (written key : K) (value : V)
      → get (put dict written value) key ≡ (if written == key then some value else get dict key)
  unfolding get put
  get-put dict written key value = simp value_at-others (ground arith)

  pub get-put_self :
      (dict : Dict K V) (key : K) (value : V) → get (put dict key value) key ≡ some value
  get-put_self dict key value = rw (get-put, beq_refl key)

  pub get-remove :
      (dict : Dict K V) (gone key : K)
      → get (remove dict gone) key ≡ (if gone == key then none else get dict key)
  unfolding get remove
  get-remove dict gone key = value_at-others dict.entries gone key

module _ {ℓ κ} {K : Type ℓ} {V : Type κ} where
  abbrev pub empty : Dict K V
  empty = record { entries = [] }

pub get-empty {ℓ κ} : {K : Type ℓ} {V : Type κ} ⦃e : Eq K⦄ (k : K) → get (empty {V = V}) k ≡ none
unfolding get
get-empty k = refl

pub ruleset dict_laws = (get-empty, get-remove, get-put)

-- A key that stands in no entry has no value.
abbrev pub any_key {ℓ κ} : {K : Type ℓ} {V : Type κ} ⦃e : Eq K⦄ → K → List (K × V) → Bool
any_key key [] = false
any_key key (pair ∷ pairs) = pair.0 == key || any_key key pairs

value_at-absent {ℓ κ} :
    {K : Type ℓ} {V : Type κ} ⦃e : Eq K⦄ (key : K) (pairs : List (K × V))
    → any_key key pairs ≡ false
    → value_at pairs key ≡ none
unfolding value_at
value_at-absent key [] h = refl
value_at-absent key (pair ∷ pairs) h = ground (arith, value_at-absent key pairs)

pub get-absent {ℓ κ} :
    {K : Type ℓ} {V : Type κ} ⦃e : Eq K⦄ (dict : Dict K V) (key : K)
    → any_key key dict.entries ≡ false
    → get dict key ≡ none
unfolding get
get-absent dict key h = value_at-absent key dict.entries h

value_at-present {ℓ κ} :
    {K : Type ℓ} {V : Type κ} ⦃e : Eq K⦄ (key : K) (pairs : List (K × V))
    → any_key key pairs ≡ true
    → (value : V) × (value_at pairs key ≡ some value)
unfolding value_at
value_at-present key [] h = absurd (ground arith)
value_at-present key (pair ∷ pairs) h = elim (Bool-cases (pair.0 == key)) [
  | inl here ↦ (pair.1, rw here refl)
  | inr there ↦
      let (value, found) = value_at-present key pairs (ground arith) in (value, rw there found)
]

-- A key that stands in an entry has a value, and conversely.
pub get-present {ℓ κ} :
    {K : Type ℓ} {V : Type κ} ⦃e : Eq K⦄ (dict : Dict K V) (key : K)
    → any_key key dict.entries ≡ true
    → (value : V) × (get dict key ≡ some value)
unfolding get
get-present dict key h = value_at-present key dict.entries h

pub any_key-get {ℓ κ} :
    {K : Type ℓ} {V : Type κ} ⦃e : Eq K⦄ (dict : Dict K V) (key : K) (value : V)
    → get dict key ≡ some value
    → any_key key dict.entries ≡ true
any_key-get dict key value h = elim (Bool-cases (any_key key dict.entries)) [
  | inl present ↦ present
  | inr absent ↦ absurd (ground (arith, get-absent dict key absent))
]

-- Each entry is the one that its key finds, so no key stands in two.
pub record IsKeyed {ℓ κ} {K : Type ℓ} {V : Type κ} ⦃e : Eq K⦄ (dict : Dict K V) : Type (ℓ ⊔ κ) where
  pub found : All (λ (pair : K × V). get dict pair.0 ≡ some pair.1) dict.entries

pub IsKeyed-empty {ℓ κ} : {K : Type ℓ} {V : Type κ} ⦃e : Eq K⦄ → IsKeyed (empty {K = K} {V = V})
IsKeyed-empty = record { found = tt }

All-keep {ℓ κ} :
    {A : Type ℓ} (P : A → Type κ) (Q : A → Type κ) (p : A → Bool) (xs : List A)
    → ((x : A) → p x ≡ true → P x → Q x)
    → All P xs
    → All Q (keep p xs)
All-keep P Q p [] h all = tt
All-keep P Q p (x ∷ xs) h (first, rest) = elim (Bool-cases (p x)) [
  | inl passes ↦ rw passes (h x passes first, All-keep P Q p xs h rest)
  | inr fails ↦ rw fails (All-keep P Q p xs h rest)
]

pub IsKeyed-put {ℓ κ} :
    {K : Type ℓ} {V : Type κ} ⦃e : Eq K⦄ (dict : Dict K V) (key : K) (value : V)
    → IsKeyed dict
    → IsKeyed (put dict key value)
unfolding put others
IsKeyed-put ⦃e⦄ dict key value h = record {
  found = (
    get-put_self dict key value,
    All-keep _ _ _ dict.entries
        (λ pair other same.
          get-put dict key pair.0 value
          ∙ rw (ne_beq key pair.0 (λ s. ground (arith, e.beq_iff pair.0 key, other, s))) same)
        h.found,
  );
}
