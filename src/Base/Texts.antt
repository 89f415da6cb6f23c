-- ===== src/Base/Texts.antt =====
-- Text as a list of code points, with the string operations that the program calls.
use Prim.Native.Nat.{ℕ, ◌-◌}
use Prim.Native.Char.{code}
use Prim.Native.String.{String}
use mathlib.Core.Path.{◌≡◌, refl}
use mathlib.Core.Logic.{◌↔◌}
use mathlib.Core.Bool.{Bool, true, false, ◌&&◌, ◌||◌}
use mathlib.Core.List.{List, [], ◌∷◌, ◌++◌}
use native.Mathlib.Omega.{arith}
use image_genie.Base.Tests.{leb, nat_beq, Eq}
use image_genie.Base.Lists.{length, drop, drop-append, length-append}

abbrev pub Text : Type 0
Text = List ℕ

-- The code points of a literal.
abbrev pub codes : String → Text
codes String.[] = []
codes (String.◌∷◌ c s) = code c ∷ codes s

unfoldable pub text_beq : Text → Text → Bool
text_beq [] [] = true
text_beq (x ∷ xs) (y ∷ ys) = nat_beq x y && text_beq xs ys
text_beq _ _ = false

pub text_beq_iff : (a b : Text) → (text_beq a b ≡ true) ↔ (a ≡ b)
unfolding text_beq
text_beq_iff [] [] = ground arith
text_beq_iff [] (y ∷ ys) = ground arith
text_beq_iff (x ∷ xs) [] = ground arith
text_beq_iff (x ∷ xs) (y ∷ ys) = ground (arith, text_beq_iff xs ys)

instance abbrev pub text_eq : Eq Text
text_eq = record { beq = text_beq; beq_iff = text_beq_iff }

-- s.startswith(prefix)
unfoldable pub starts_with : Text → Text → Bool
starts_with s [] = true
starts_with [] (p ∷ ps) = false
starts_with (c ∷ s) (p ∷ ps) = nat_beq c p && starts_with s ps

-- s.endswith(suffix)
unfoldable pub ends_with : Text → Text → Bool
ends_with s suffix =
    leb (length suffix) (length s) && text_beq (drop (length s - length suffix) s) suffix

-- `c in s`, for one character.
unfoldable pub contains : ℕ → Text → Bool
contains c [] = false
contains c (x ∷ xs) = nat_beq x c || contains c xs

pub starts_with-append : (p s : Text) → starts_with (p ++ s) p ≡ true
unfolding starts_with
starts_with-append [] s = refl
starts_with-append (c ∷ p) s = ground (arith, starts_with-append p s)

-- A prefix test that fails on the prefix alone fails on every longer text, and where it passes the
-- text is the prefix and a rest.
pub starts_with-eq_append : (s p : Text) → starts_with s p ≡ true → s ≡ p ++ drop (length p) s
unfolding starts_with
starts_with-eq_append s [] h = refl
starts_with-eq_append [] (p ∷ ps) h = ground arith
starts_with-eq_append (c ∷ s) (p ∷ ps) h =
    let tl : starts_with s ps ≡ true = ground arith in
    let hd : c ≡ p = ground arith in ap₂' hd (starts_with-eq_append s ps tl)
  where
    ap₂' : {a b : ℕ} {l m : Text} → a ≡ b → l ≡ m → a ∷ l ≡ b ∷ m
    ap₂' e f = cc

pub drop-append_sub : (u v : Text) → drop (length (u ++ v) - length v) (u ++ v) ≡ v
drop-append_sub u v =
    let e : length (u ++ v) - length v ≡ length u = omega (arith, length-append u v) in
    rw e (drop-append u v)

pub ends_with-append : (u v : Text) → ends_with (u ++ v) v ≡ true
unfolding ends_with
ends_with-append u v = rw drop-append_sub (ground (arith, length-append u v, text_beq_iff v v))
