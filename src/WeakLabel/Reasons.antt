-- ===== src/WeakLabel/Reasons.antt =====
-- The reasons of the labels: which class an object gets, and the rows that a run writes.
use image_genie.Base.{
  ℕ, suc, ◌+◌, ◌≡◌, refl, sym, ap, ◌≢◌, ◌↔◌, inl, inr, Bool, true, false, Option, none, some, List,
  [], ◌∷◌, arith, if◌then◌else◌, Bool-cases, length, Text,
}
use image_genie.WeakLabel.Taxonomy.{class_to_keywords, confirm_required_classes}
use image_genie.WeakLabel.{
  Annotation, LabelReason, rescue, out_of_scope, category, keyword, ambiguous, member,
  category_candidates, tokens, score, resolve_by_keywords, classes_with_keywords, or_reason,
  label_candidates, label_object, with_row, labeled_rows, reason_count, reason_beq,
}
use image_genie.WeakLabel.Winner.{Wins, resolve_scores_iff}
use image_genie.WeakLabel.Laws.{IsDistinct-category_candidates, IsDistinct-classes_with_keywords}

-- No single candidate settles the class: there are several, or the only one must be confirmed.
abbrev pub Unsettled : List Text → Type 0
Unsettled candidates =
    (only : Text) → candidates ≡ only ∷ [] → member only confirm_required_classes ≡ true

abbrev Found : Option Text → Option Text → List Text → Text → LabelReason → Type 0
Found rescued resolved candidates c category =
    (candidates ≡ c ∷ []) × (member c confirm_required_classes ≡ false)
Found rescued resolved candidates c keyword =
    (candidates ≢ []) × (resolved ≡ some c) × Unsettled candidates
Found rescued resolved candidates c rescue = (candidates ≡ []) × (rescued ≡ some c)
Found rescued resolved candidates c _ = ⊥

or_reason-eq_some :
    (found missing : LabelReason) (o : Option Text) (c : Text) (r : LabelReason)
    → or_reason found missing o ≡ (some c, r)
    → (o ≡ some c) × (r ≡ found)
or_reason-eq_some found missing none c r h = absurd (ground (arith, ap (λ p. p.0) h))
or_reason-eq_some found missing (some d) c r h = (ap (λ p. p.0) h, sym (ap (λ p. p.1) h))

Found-sound :
    (rescued resolved : Option Text) (candidates : List Text) (c : Text) (r : LabelReason)
    → label_candidates rescued resolved candidates ≡ (some c, r)
    → Found rescued resolved candidates c r
Found-sound rescued resolved [] c r h =
    let (o, is) = or_reason-eq_some rescue out_of_scope rescued c r h in rw is (refl, o)
Found-sound rescued resolved (d ∷ []) c r h =
    elim (Bool-cases (member d confirm_required_classes)) [
      | inl confirm ↦
          let (o, is) = or_reason-eq_some keyword ambiguous resolved c r (rw confirm at h) in
          rw is (
            λ none_there. ground (arith, none_there),
            o,
            λ only one. let same : d ≡ only = ground (arith, one) in rw (← same) confirm,
          )
      | inr direct ↦
          let h' = rw direct at h in
          let same : d ≡ c = ground (arith, ap (λ p. p.0) h') in
          rw (sym (ap (λ p. p.1) h')) (ap (λ x. x ∷ []) same, rw (← same) direct)
    ]
Found-sound rescued resolved (d ∷ e ∷ candidates) c r h =
    let (o, is) = or_reason-eq_some keyword ambiguous resolved c r h in
    rw is ((λ none_there. ground (arith, none_there)), o, λ only one. absurd (ground (arith, one)))

Found-complete :
    (rescued resolved : Option Text) (candidates : List Text) (c : Text) (r : LabelReason)
    → Found rescued resolved candidates c r
    → label_candidates rescued resolved candidates ≡ (some c, r)
Found-complete rescued resolved candidates c category (one, direct) = rw (one, direct) refl
Found-complete rescued resolved [] c keyword (some_there, o, open') = absurd (some_there refl)
Found-complete rescued resolved (d ∷ []) c keyword (some_there, o, unsettled) =
    rw (o, unsettled d refl) refl
Found-complete rescued resolved (d ∷ e ∷ candidates) c keyword (some_there, o, unsettled) =
    rw o refl
Found-complete rescued resolved candidates c rescue (none_there, o) = rw (none_there, o) refl
Found-complete rescued resolved candidates c out_of_scope h = absurd h
Found-complete rescued resolved candidates c ambiguous h = absurd h

-- What stands behind a label: the single category candidate, which needs no confirmation; the winner by keywords
-- among candidates that leave the class open; or, without candidates, the winner among all classes.
abbrev pub Justified : Annotation → Text → LabelReason → Type 0
Justified a c category =
    (category_candidates a ≡ c ∷ []) × (member c confirm_required_classes ≡ false)
Justified a c keyword =
    Wins (score (tokens a)) (category_candidates a) c × Unsettled (category_candidates a)
Justified a c rescue =
    (category_candidates a ≡ [])
    × Wins (score (tokens a)) (classes_with_keywords class_to_keywords) c
Justified a c _ = ⊥

abbrev FoundIn : Annotation → Text → LabelReason → Type 0
FoundIn a =
    Found (resolve_by_keywords a (classes_with_keywords class_to_keywords))
      (resolve_by_keywords a (category_candidates a)) (category_candidates a)

Justified-sound : (a : Annotation) (c : Text) (r : LabelReason) → FoundIn a c r → Justified a c r
unfolding resolve_by_keywords
Justified-sound a c category h = h
Justified-sound a c keyword (_, o, unsettled) = (
  (resolve_scores_iff (score (tokens a)) (category_candidates a) c
        (IsDistinct-category_candidates a)).0
      o,
  unsettled,
)
Justified-sound a c rescue (none_there, o) =
    (none_there, (resolve_scores_iff (score (tokens a)) _ c IsDistinct-classes_with_keywords).0 o)
Justified-sound a c out_of_scope h = absurd h
Justified-sound a c ambiguous h = absurd h

Justified-complete : (a : Annotation) (c : Text) (r : LabelReason) → Justified a c r → FoundIn a c r
unfolding resolve_by_keywords
Justified-complete a c category h = h
Justified-complete a c keyword (wins, unsettled) = (
  λ e. ground (arith, rw e at wins.candidate),
  (resolve_scores_iff (score (tokens a)) (category_candidates a) c
        (IsDistinct-category_candidates a)).1
      wins,
  unsettled,
)
Justified-complete a c rescue (none_there, wins) = (
  none_there,
  (resolve_scores_iff (score (tokens a)) _ c IsDistinct-classes_with_keywords).1 wins,
)
Justified-complete a c out_of_scope h = absurd h
Justified-complete a c ambiguous h = absurd h

-- An object gets a class for a reason exactly when that is justified; so no class that needs a keyword's
-- confirmation is given by a category alone.
pub label_object_iff :
    (a : Annotation) (c : Text) (r : LabelReason) → (label_object a ≡ (some c, r)) ↔ Justified a c r
unfolding label_object
label_object_iff a c r = (
  λ h. Justified-sound a c r (Found-sound _ _ _ c r h),
  λ j. Found-complete _ _ _ c r (Justified-complete a c r j),
)

abbrev bit : Bool → ℕ
bit b = if b then 1 else 0

-- A row is written for a reason that comes with a class, and the reason is one of the five.
abbrev RowFits : Text → List (Text × Text × LabelReason) → Option Text × LabelReason → Type 0
RowFits uid rows p =
    (length (with_row uid p rows)
      ≡ length rows
        + (bit (reason_beq p.1 category)
            + bit (reason_beq p.1 keyword)
            + bit (reason_beq p.1 rescue)))
    × (bit (reason_beq p.1 category)
          + bit (reason_beq p.1 keyword)
          + bit (reason_beq p.1 rescue)
          + (bit (reason_beq p.1 ambiguous) + bit (reason_beq p.1 out_of_scope))
        ≡ 1)

row_fits :
    (uid : Text) (rows : List (Text × Text × LabelReason)) (rescued resolved : Option Text)
    (candidates : List Text)
    → RowFits uid rows (label_candidates rescued resolved candidates)
row_fits uid rows none resolved [] = (omega arith, refl)
row_fits uid rows (some c) resolved [] = (omega arith, refl)
row_fits uid rows rescued resolved (c ∷ []) =
    elim (Bool-cases (member c confirm_required_classes)) [
      | inl confirm ↦ rw confirm (confirmed resolved)
      | inr direct ↦ rw direct (omega arith, refl)
    ]
  where
    confirmed : (o : Option Text) → RowFits uid rows (or_reason keyword ambiguous o)
    confirmed none = (omega arith, refl)
    confirmed (some d) = (omega arith, refl)
row_fits uid rows rescued none (c ∷ d ∷ cs) = (omega arith, refl)
row_fits uid rows rescued (some e) (c ∷ d ∷ cs) = (omega arith, refl)

row_of :
    (object : Text × Annotation) (rows : List (Text × Text × LabelReason))
    → RowFits object.0 rows (label_object object.1)
unfolding label_object
row_of object rows =
    row_fits object.0 rows (resolve_by_keywords object.1 (classes_with_keywords class_to_keywords))
      (resolve_by_keywords object.1 (category_candidates object.1)) (category_candidates object.1)

reason_count-cons :
    (r : LabelReason) (object : Text × Annotation) (objects : List (Text × Annotation))
    → reason_count r (object ∷ objects)
      ≡ bit (reason_beq (label_object object.1).1 r) + reason_count r objects
unfolding reason_count
reason_count-cons r object objects = pick (reason_beq (label_object object.1).1 r)
  where
    pick :
        (b : Bool)
        → (if b then suc (reason_count r objects) else reason_count r objects)
          ≡ bit b + reason_count r objects
    pick true = omega arith
    pick false = omega arith

-- A run writes one row for each object that was labeled by category, keyword or rescue, and the counts of all
-- five reasons add up to the objects.
pub length-labeled_rows :
    (objects : List (Text × Annotation))
    → (length (labeled_rows objects)
        ≡ reason_count category objects
          + reason_count keyword objects
          + reason_count rescue objects)
      × (length objects
          ≡ length (labeled_rows objects)
            + (reason_count ambiguous objects + reason_count out_of_scope objects))
unfolding labeled_rows reason_count
length-labeled_rows [] = (refl, refl)
length-labeled_rows (object ∷ objects) =
    let (rows, all) = length-labeled_rows objects in
    let (row, one) = row_of object (labeled_rows objects) in
    let counts = λ (r : LabelReason). reason_count-cons r object objects in
    rw (counts category, counts keyword, counts rescue, counts ambiguous, counts out_of_scope, row)
      (omega (arith, one, rows, all), omega (arith, one, rows, all))
