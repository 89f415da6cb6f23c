-- ===== src/Pipeline/Reads.antt =====
-- Actions that only read, and what the result of a chain of actions says of its parts.
use image_genie.Base.{◌≡◌, refl, ◌∙◌, ◌⊎◌, inl, inr, Option, none, some, Text, get, text_eq, nat_eq}
use image_genie.Pipeline.{
  World, Result, ok, err, Action, Failure, pure, continue, get_bytes, missing_blob, gets,
  artifact_id_eq, ◌>>=◌, or_raise,
}
use image_genie.Pipeline.Mesh.{Parsed, good, bad, parsed}

-- The action reads the world and leaves it as it is, whether it returns or raises.
pub record OnlyReads {A : Type 0} (m : Action A) : Type 0 where
  pub at : (w : World) → (m w).1 ≡ w

OnlyReads-continue :
    {A B : Type 0} (r : Result A) (f : A → Action B) (w₁ w : World)
    → w₁ ≡ w
    → ((a : A) → OnlyReads (f a))
    → (continue r f w₁).1 ≡ w
OnlyReads-continue (ok a) f w₁ w e k = (k a).at w₁ ∙ e
OnlyReads-continue (err x) f w₁ w e k = e

pub OnlyReads-bind :
    {A B : Type 0} (m : Action A) (f : A → Action B)
    → OnlyReads m
    → ((a : A) → OnlyReads (f a))
    → OnlyReads (m >>= f)
unfolding ◌>>=◌
OnlyReads-bind m f h k = record { at = λ w. OnlyReads-continue (m w).0 f (m w).1 w (h.at w) k }

pub OnlyReads-or_raise : {A : Type 0} (e : Failure) (o : Option A) → OnlyReads (or_raise e o)
OnlyReads-or_raise e none = record { at = λ w. refl }
OnlyReads-or_raise e (some a) = record { at = λ w. refl }

pub OnlyReads-get_bytes : (key : Text) → OnlyReads (get_bytes key)
unfolding get_bytes
OnlyReads-get_bytes key = record {
  at = λ w. (OnlyReads-or_raise missing_blob (get w.blobs key)).at w;
}

pub OnlyReads-gets : {A : Type 0} (f : World → A) → OnlyReads (gets f)
OnlyReads-gets f = record { at = λ w. refl }

pub OnlyReads-parsed : {Mesh : Type 0} (p : Parsed Mesh) → OnlyReads (parsed p)
OnlyReads-parsed (good m) = record { at = λ w. refl }
OnlyReads-parsed (bad e) = record { at = λ w. refl }

pub ruleset reading =
    (OnlyReads-bind, OnlyReads-or_raise, OnlyReads-get_bytes, OnlyReads-gets, OnlyReads-parsed)

pub Result-cases :
    {A : Type 0} (r : Result A) → ((a : A) × (r ≡ ok a)) ⊎ ((e : Failure) × (r ≡ err e))
Result-cases (ok a) = inl (a, refl)
Result-cases (err e) = inr (e, refl)

pub state-continue-pure :
    {A B : Type 0} (r : Result A) (b : B) (w : World) → (continue r (λ _. pure b) w).1 ≡ w
state-continue-pure (ok a) b w = refl
state-continue-pure (err e) b w = refl

pub continue-pure-eq_ok :
    {A B : Type 0} (r : Result A) (b : B) (w : World) {c : B}
    → (continue r (λ _. pure b) w).0 ≡ ok c
    → (a : A) × (r ≡ ok a) × (b ≡ c)
continue-pure-eq_ok (ok a) b w h = (a, refl, cc)
continue-pure-eq_ok (err e) b w h = cc

pub continue-eq_ok :
    {A B : Type 0} (r : Result A) (f : A → Action B) (w : World) {b : B}
    → (continue r f w).0 ≡ ok b
    → (a : A) × (r ≡ ok a) × ((f a w).0 ≡ ok b)
continue-eq_ok (ok a) f w h = (a, refl, h)
continue-eq_ok (err e) f w h = absurd (cc h)

pub or_raise-eq_ok :
    {A : Type 0} (e : Failure) (o : Option A) (w : World) {a : A}
    → (or_raise e o w).0 ≡ ok a
    → o ≡ some a
or_raise-eq_ok e none w h = absurd (cc h)
or_raise-eq_ok e (some a) w h = cc h

pub unit_ok : {r : Result (Unit {0})} (a : Unit {0}) → r ≡ ok a → r ≡ ok tt
unit_ok tt h = h
