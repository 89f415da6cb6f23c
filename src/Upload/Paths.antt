-- ===== src/Upload/Paths.antt =====
-- `Path(name).suffix` and `Path(name).stem` of a POSIX path.
use image_genie.Base.{
  ℕ, suc, ◌-◌, Bool, false, not, ◌&&◌, Option, none, some, List, [], ◌∷◌, ltb, nat_beq,
  if◌then◌else◌, ◌==◌, length, take, drop, keep, Text, codes, text_eq, nat_eq,
}

abbrev onto_first : ℕ → List Text → List Text
onto_first c [] = (c ∷ []) ∷ []
onto_first c (part ∷ parts) = (c ∷ part) ∷ parts

-- s.split("/")
unfoldable pub split_slash : Text → List Text
split_slash [] = [] ∷ []
split_slash (c ∷ s) =
    let parts = split_slash s in if nat_beq c 47 then [] ∷ parts else onto_first c parts

abbrev is_part : Text → Bool
is_part [] = false
is_part (c ∷ s) = not ((c ∷ s) == codes ".")

abbrev last_or : Text → List Text → Text
last_or found [] = found
last_or found (part ∷ parts) = last_or part parts

-- Path.name: the last part; empty parts and single dots are no parts.
unfoldable pub path_name : Text → Text
unfolding split_slash
path_name path = last_or [] (keep is_part (split_slash path))

-- The place of the last dot.
unfoldable pub rfind_dot : Text → Option ℕ
rfind_dot [] = none
rfind_dot (c ∷ s) = elim (rfind_dot s) [
  | some i ↦ some (suc i)
  | none ↦ if nat_beq c 46 then some 0 else none
]

abbrev within : Text → Option ℕ → Bool
within name none = false
within name (some i) = ltb 0 i && ltb i (length name - 1)

abbrev place : Option ℕ → ℕ
place none = 0
place (some i) = i

unfoldable pub suffix_of : Text → Text
unfolding path_name rfind_dot
suffix_of path =
    let name = path_name path in
    if within name (rfind_dot name) then drop (place (rfind_dot name)) name else []

unfoldable pub stem_of : Text → Text
unfolding path_name rfind_dot
stem_of path =
    let name = path_name path in
    if within name (rfind_dot name) then take (place (rfind_dot name)) name else name
