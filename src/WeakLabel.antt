-- ===== src/WeakLabel.antt =====
-- ml/weak_label.py: a class for an object from its Sketchfab metadata, by its categories and its words.
pub mod Taxonomy
pub mod Winner
pub mod Laws
pub mod Reasons
mod Examples
use image_genie.Base.{
  ℕ, suc, ◌+◌, ◌-◌, ◌/◌, max, Bool, true, false, not, ◌&&◌, ◌||◌, Option, none, some, List, [], ◌∷◌,
  ◌++◌, arith, leb, if◌then◌else◌, ◌==◌, keep, count, Text, codes, get, empty, text_eq, nat_eq,
}
use image_genie.WeakLabel.Taxonomy.{
  sketchfab_category_to_classes, class_to_keywords, confirm_required_classes,
}

-- The fields of an annotation that are read; `none` stands for a field that is missing or null.
pub record Annotation : Type 0 where
  pub categories : List (Option Text)
  pub name : Option Text
  pub tags : List (Option Text)

pub data LabelReason : Type 0 where
  rescue out_of_scope category keyword ambiguous : LabelReason

-- Membership in a set, which is a list; adding what is not there yet.
abbrev pub member : Text → List Text → Bool
member x [] = false
member x (y ∷ ys) = (y == x) || member x ys

abbrev pub add : Text → List Text → List Text
add x xs = if member x xs then xs else x ∷ xs

-- candidates_set.update(classes)
unfoldable pub update : List Text → List Text → List Text
update [] xs = xs
update (c ∷ classes) xs = update classes (add c xs)

-- table.get(key, [])
unfoldable pub lookup : List (Text × List Text) → Text → List Text
lookup [] key = []
lookup (entry ∷ table) key = if entry.0 == key then entry.1 else lookup table key

abbrev pub classes_of : Option Text → List Text
classes_of none = []
classes_of (some name) = lookup sketchfab_category_to_classes name

unfoldable pub candidates_from : List (Option Text) → List Text → List Text
unfolding update lookup
candidates_from [] candidates = candidates
candidates_from (found ∷ categories) candidates =
    candidates_from categories (update (classes_of found) candidates)

unfoldable pub category_candidates : Annotation → List Text
unfolding candidates_from
category_candidates annotation = candidates_from annotation.categories []

-- `str.lower` as far as it makes letters of a token: A to Z, the Kelvin sign and the dotted capital I.
abbrev pub lower_code : ℕ → Text
lower_code c =
    if leb 65 c && leb c 90
    then (c + 32) ∷ []
    else if c == 8490
    then codes "k"
    else if c == 304
    then 105 ∷ 775 ∷ []
    else c ∷ []

unfoldable pub lower : Text → Text
lower [] = []
lower (c ∷ s) = lower_code c ++ lower s

abbrev pub in_token : ℕ → Bool
in_token c = (leb 97 c && leb c 122) || (leb 48 c && leb c 57)

abbrev pub with_token : Text → List Text → List Text
with_token [] found = found
with_token (c ∷ token) found = (c ∷ token) ∷ found

-- What the text begins with as far as the pattern `[a-z0-9]+` reads, and the matches after it.
unfoldable pub runs : Text → Text × List Text
runs [] = ([], [])
runs (c ∷ s) =
    let (head, found) = runs s in
    if in_token c then (c ∷ head, found) else ([], with_token head found)

-- _TOKEN.findall(field.lower())
unfoldable pub find_tokens : Text → List Text
unfolding runs lower
find_tokens field = let (head, found) = runs (lower field) in with_token head found

abbrev pub or_blank : Option Text → Text
or_blank none = []
or_blank (some s) = s

unfoldable pub tokens_of : List (Option Text) → List Text
unfolding find_tokens
tokens_of [] = []
tokens_of (field ∷ fields) = find_tokens (or_blank field) ++ tokens_of fields

unfoldable pub tokens : Annotation → List Text
unfolding tokens_of
tokens annotation = tokens_of (annotation.name ∷ annotation.tags)

-- How many of the class's keywords are among the tokens.
unfoldable pub score : List Text → Text → ℕ
unfolding lookup
score found class_name = count (λ word. member word found) (lookup class_to_keywords class_name)

-- The maximum of the scores; the candidates of a caller are not empty.
unfoldable pub top_score : (Text → ℕ) → List Text → ℕ
top_score score_of [] = 0
top_score score_of (c ∷ candidates) = max (score_of c) (top_score score_of candidates)

abbrev pub sole : List Text → Option Text
sole [] = none
sole (c ∷ []) = some c
sole (c ∷ d ∷ _) = none

unfoldable pub resolve_scores : (Text → ℕ) → List Text → Option Text
unfolding top_score
resolve_scores score_of candidates =
    let top = top_score score_of candidates in
    if top == 0 then none else sole (keep (λ c. score_of c == top) candidates)

unfoldable pub resolve_by_keywords : Annotation → List Text → Option Text
unfolding resolve_scores tokens score
resolve_by_keywords annotation = resolve_scores (score (tokens annotation))

unfoldable pub classes_with_keywords : List (Text × List Text) → List Text
classes_with_keywords [] = []
classes_with_keywords (entry ∷ table) = entry.0 ∷ classes_with_keywords table

abbrev pub or_reason : LabelReason → LabelReason → Option Text → Option Text × LabelReason
or_reason found missing none = (none, missing)
or_reason found missing (some class_name) = (some class_name, found)

-- The class of the only candidate, unless a keyword must confirm it.
abbrev pub by_category : Bool → Text → Option Text → Option Text × LabelReason
by_category true class_name resolved = or_reason keyword ambiguous resolved
by_category false class_name resolved = (some class_name, category)

abbrev pub label_candidates : Option Text → Option Text → List Text → Option Text × LabelReason
label_candidates rescued resolved [] = or_reason rescue out_of_scope rescued
label_candidates rescued resolved (c ∷ []) =
    by_category (member c confirm_required_classes) c resolved
label_candidates rescued resolved (c ∷ d ∷ cs) = or_reason keyword ambiguous resolved

unfoldable pub label_object : Annotation → Option Text × LabelReason
unfolding category_candidates resolve_by_keywords classes_with_keywords
label_object annotation =
    let candidates = category_candidates annotation in
    label_candidates (resolve_by_keywords annotation (classes_with_keywords class_to_keywords))
      (resolve_by_keywords annotation candidates) candidates

-- The rows of the loop over the objects: those that get a class.
abbrev pub with_row :
    Text
    → Option Text × LabelReason
    → List (Text × Text × LabelReason)
    → List (Text × Text × LabelReason)
with_row uid (none, reason) rows = rows
with_row uid (some class_name, reason) rows = (uid, class_name, reason) ∷ rows

unfoldable pub labeled_rows : List (Text × Annotation) → List (Text × Text × LabelReason)
unfolding label_object
labeled_rows [] = []
labeled_rows (object ∷ objects) = with_row object.0 (label_object object.1) (labeled_rows objects)

abbrev pub reason_beq : LabelReason → LabelReason → Bool
reason_beq rescue rescue = true
reason_beq out_of_scope out_of_scope = true
reason_beq category category = true
reason_beq keyword keyword = true
reason_beq ambiguous ambiguous = true
reason_beq _ _ = false

-- reason_to_count[reason]
unfoldable pub reason_count : LabelReason → List (Text × Annotation) → ℕ
unfolding label_object
reason_count reason [] = 0
reason_count reason (object ∷ objects) =
    let rest = reason_count reason objects in
    if reason_beq (label_object object.1).1 reason then suc rest else rest
