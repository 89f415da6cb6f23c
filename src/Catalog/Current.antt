-- ===== src/Catalog/Current.antt =====
-- A manual label becomes the model's current label, and touches no other model.
use image_genie.Base.{
  ℕ, ◌≤◌, ◌<◌, ◌≡◌, refl, sym, ap, ◌∙◌, ◌≢◌, inl, inr, Bool, true, false, Option, none, some, List,
  [], ◌∷◌, ◌++◌, arith, if◌then◌else◌, Bool-cases, ◌==◌, beq_refl, ne_beq, All, Text, codes, get,
  text_eq, nat_eq,
}
use image_genie.Pipeline.{Model}
use image_genie.ArtifactKeys.Decimal.{decimal}
use image_genie.WeakLabel.{member}
use image_genie.RateLimit.{FixedWindowRateLimiter, check}
use image_genie.Catalog.{
  Label, manual, Tables, ModelSummary, class_roster, is_live, newest_of, newer, latest_label,
  reserved_to, summary,
}
use image_genie.Catalog.Routes.{
  shows, label_write_per_user, show_if, load_summary, add_label, label_if_live, label_if_known,
  set_label,
}

-- No label is of a later moment, and the next id is new.
abbrev pub IsPast : ℕ → ℕ → Label → Type 0
IsPast now next label = (label.created_at ≤ now) × (label.id < next)

IsPast-newest_of :
    (now next : ℕ) (label : Label) (rest : Option Label) (found : Label)
    → IsPast now next label
    → ((other : Label) → rest ≡ some other → IsPast now next other)
    → newest_of label rest ≡ found
    → IsPast now next found
IsPast-newest_of now next label none found p h e = rw (← e) p
IsPast-newest_of now next label (some other) found p h e = elim (Bool-cases (newer other label)) [
  | inl yes' ↦ rw (← (rw yes' at e)) (h other refl)
  | inr no' ↦ rw (← (rw no' at e)) p
]

IsPast-latest_label :
    (now next : ℕ) (labels : List Label) (uid : Text) (found : Label)
    → All (IsPast now next) labels
    → latest_label labels uid ≡ some found
    → IsPast now next found
unfolding latest_label
IsPast-latest_label now next [] uid found h e = absurd (ground arith)
IsPast-latest_label now next (label ∷ labels) uid found (p, h) e =
    elim (Bool-cases (label.model_uid == uid)) [
      | inr other ↦ IsPast-latest_label now next labels uid found h (rw other at e)
      | inl same ↦
          IsPast-newest_of now next label (latest_label labels uid) found p
            (λ l f. IsPast-latest_label now next labels uid l h f) (ground (arith, rw same at e))
    ]

newest_of-new :
    (now next : ℕ) (label : Label) (rest : Option Label)
    → label.created_at ≡ now
    → label.id ≡ next
    → ((other : Label) → rest ≡ some other → IsPast now next other)
    → newest_of label rest ≡ label
newest_of-new now next label none c i h = refl
newest_of-new now next label (some other) c i h =
    let (past, older) = h other refl in
    let behind : newer other label ≡ false = ground (arith, c, i, past, older) in rw behind refl

module _ (uid class_name email : Text) (now : ℕ) (tables : Tables)
    (past : All (IsPast now tables.next_label_id) tables.labels) where
  abbrev pub new_label : Label
  new_label = record {
    id = tables.next_label_id;
    model_uid = uid;
    class_name = class_name;
    source = manual;
    confidence = none;
    annotator = some email;
    created_at = now;
  }

  latest_label-add :
      (other : Text)
      → latest_label (add_label uid class_name email now tables).labels other
        ≡ (if uid == other then some new_label else latest_label tables.labels other)
  unfolding latest_label
  latest_label-add other = elim (Bool-cases (uid == other)) [
    | inr differs ↦ rw differs refl
    | inl same ↦ rw same (
        ap (λ l. some l)
          (newest_of-new now tables.next_label_id new_label (latest_label tables.labels other) refl
            refl
            (λ l f. IsPast-latest_label now tables.next_label_id tables.labels other l past f)))
  ]

-- What follows a label that is accepted: the model is live, free and shown with the label, which is now its
-- current one, and the current label of every other model stays.
pub record IsLabeled (uid class_name email : Text) (now : ℕ) (before after : Tables)
    (s : ModelSummary) : Type 0 where
  pub live : is_live (get before.models uid) ≡ true
  pub free : reserved_to before.reserved uid ≡ none
  pub known_class : member class_name class_roster ≡ true
  pub shown : (s.class_name ≡ some class_name) × (s.source ≡ some manual)
  pub current :
      (label : Label) × (latest_label after.labels uid ≡ some label)
      × (label.class_name ≡ class_name)
      × (label.annotator ≡ some email)
  pub others :
      (other : Text)
      → other ≢ uid
      → latest_label after.labels other ≡ latest_label before.labels other

module _ (signed_url : Text → Option Text) (url_prefix : Text) where
  show_if-eq_shows :
      (live : Bool) (tables : Tables) (uid : Text) (row : Option Model) (s : ModelSummary)
      → show_if signed_url url_prefix live tables uid row ≡ shows s
      → (model : Model) × (s ≡ summary signed_url url_prefix tables uid model)
  show_if-eq_shows false tables uid row s h = absurd (cc h)
  show_if-eq_shows true tables uid none s h = absurd (cc h)
  show_if-eq_shows true tables uid (some model) s h = (model, cc h)

  labeled_of_add :
      (uid class_name email : Text) (now : ℕ) (tables : Tables) (s : ModelSummary)
      → All (IsPast now tables.next_label_id) tables.labels
      → load_summary signed_url url_prefix (add_label uid class_name email now tables) uid ≡ shows s
      → ((s.class_name ≡ some class_name) × (s.source ≡ some manual))
  unfolding load_summary summary
  labeled_of_add uid class_name email now tables s past h =
      let tables' = add_label uid class_name email now tables in
      let (model, is) =
        show_if-eq_shows (is_live (get tables'.models uid)) tables' uid (get tables'.models uid) s
          h in
      let label = latest_label-add uid class_name email now tables past uid in
      rw (is, label, beq_refl uid) (refl, refl)

  IsLabeled-of_live :
      (live : Bool) (to : Option Text) (uid class_name email : Text) (now : ℕ) (tables : Tables)
      (s : ModelSummary)
      → All (IsPast now tables.next_label_id) tables.labels
      → is_live (get tables.models uid) ≡ live
      → reserved_to tables.reserved uid ≡ to
      → member class_name class_roster ≡ true
      → (label_if_live signed_url url_prefix live uid class_name email now tables).0 ≡ shows s
      → IsLabeled uid class_name email now tables
          (label_if_live signed_url url_prefix live uid class_name email now tables).1
          s
  IsLabeled-of_live false to uid class_name email now tables s past live free known h =
      absurd (cc h)
  IsLabeled-of_live true (some dev_set) uid class_name email now tables s past live free known h =
      absurd (cc (rw free at h))
  IsLabeled-of_live true none uid class_name email now tables s past live free known h =
      let current = latest_label-add uid class_name email now tables past in
      rw free (record {
        live = live;
        free = free;
        known_class = known;
        shown = labeled_of_add uid class_name email now tables s past (rw free at h);
        current = (
          new_label uid class_name email now tables past,
          current uid ∙ rw (beq_refl uid) refl,
          refl,
          refl,
        );
        others = λ other ne. current other ∙ rw (ne_beq uid other (λ e. ne (sym e))) refl;
      })

  IsLabeled-of_known :
      (known : Bool) (checked : Bool × FixedWindowRateLimiter) (key uid class_name email : Text)
      (monotonic now : ℕ) (tables : Tables) (s : ModelSummary)
      → All (IsPast now tables.next_label_id) tables.labels
      → member class_name class_roster ≡ known
      → (label_if_known signed_url url_prefix known checked key uid class_name email monotonic now
          tables).0
        ≡ shows s
      → IsLabeled uid class_name email now tables
          (label_if_known signed_url url_prefix known checked key uid class_name email monotonic now
            tables).1
          s
  IsLabeled-of_known false checked key uid class_name email monotonic now tables s past known h =
      absurd (cc h)
  IsLabeled-of_known true (false, limiter) key uid class_name email monotonic now tables s past
        known h =
      absurd (cc h)
  IsLabeled-of_known true (true, limiter) key uid class_name email monotonic now tables s past known
        h =
      let tables' : Tables = record tables { label_limiter = limiter } in
      let l =
        IsLabeled-of_live (is_live (get tables.models uid)) (reserved_to tables.reserved uid) uid
          class_name email now tables' s past refl refl known h in
      record {
        live = l.live;
        free = l.free;
        known_class = l.known_class;
        shown = l.shown;
        current = l.current;
        others = l.others;
      }

  -- A label that is answered with the model is in force; the rows that were there are of no later moment and
  -- of smaller ids.
  pub set_label-IsLabeled :
      (admin_id : ℕ) (email uid class_name : Text) (monotonic now : ℕ) (tables : Tables)
      (s : ModelSummary)
      → All (IsPast now tables.next_label_id) tables.labels
      → (set_label signed_url url_prefix admin_id email uid class_name monotonic now tables).0
        ≡ shows s
      → IsLabeled uid class_name email now tables
          (set_label signed_url url_prefix admin_id email uid class_name monotonic now tables).1
          s
  unfolding set_label
  set_label-IsLabeled admin_id email uid class_name monotonic now tables s past h =
      IsLabeled-of_known (member class_name class_roster)
        (check tables.label_limiter (codes "label:user:" ++ decimal admin_id) label_write_per_user
          monotonic)
        (codes "label:user:" ++ decimal admin_id) uid class_name email monotonic now tables s past
        refl h
