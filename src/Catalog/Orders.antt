-- ===== src/Catalog/Orders.antt =====
-- The order of a list of models is one order, whatever the order in which the database finds the rows.
use image_genie.Base.{
  IsOrder, insert_by-insert_by, ℕ, ◌≡◌, refl, sym, ap, ◌∙◌, ◌≢◌, inl, inr, Bool, true, not, ◌||◌,
  Option, none, some, List, ◌∷◌, arith, Bool-cases, keep, Text, sort_by, insert_by,
}
use image_genie.Pipeline.{Model}
use image_genie.Catalog.{Tables, latest_label, confidence_of}
use image_genie.Catalog.Listing.{ModelSort, by_uid, by_confidence, confidence_leb, in_order}

confidence_leb-total :
    (leb' : Text → Text → Bool) (a b : Option ℕ) (ab ba : Bool)
    → (ab || ba) ≡ true
    → (confidence_leb leb' a b ab || confidence_leb leb' b a ba) ≡ true
confidence_leb-total leb' none none ab ba h = h
confidence_leb-total leb' none (some b) ab ba h = ground arith
confidence_leb-total leb' (some a) none ab ba h = ground arith
confidence_leb-total leb' (some a) (some b) ab ba h = ground (arith, h)

confidence_leb_trans :
    (leb' : Text → Text → Bool) (a b c : Option ℕ) (ab bc ac : Bool)
    → (ab ≡ true → bc ≡ true → ac ≡ true)
    → confidence_leb leb' a b ab ≡ true
    → confidence_leb leb' b c bc ≡ true
    → confidence_leb leb' a c ac ≡ true
confidence_leb_trans leb' none none none ab bc ac t h k = t h k
confidence_leb_trans leb' none none (some c) ab bc ac t h k = cc k
confidence_leb_trans leb' none (some b) c ab bc ac t h k = cc h
confidence_leb_trans leb' (some a) none none ab bc ac t h k = refl
confidence_leb_trans leb' (some a) none (some c) ab bc ac t h k = cc k
confidence_leb_trans leb' (some a) (some b) none ab bc ac t h k = refl
confidence_leb_trans leb' (some a) (some b) (some c) ab bc ac t h k = ground (arith, t, h, k)

confidence_leb-antisym :
    (leb' : Text → Text → Bool) (a b : Option ℕ) (ab ba : Bool)
    → confidence_leb leb' a b ab ≡ true
    → confidence_leb leb' b a ba ≡ true
    → (ab ≡ true) × (ba ≡ true)
confidence_leb-antisym leb' none none ab ba h k = (h, k)
confidence_leb-antisym leb' none (some b) ab ba h k = cc h
confidence_leb-antisym leb' (some a) none ab ba h k = cc k
confidence_leb-antisym leb' (some a) (some b) ab ba h k = ground (arith, h, k)

-- Two orders of one table: rows of different uids change places.
pub data Reordered : List (Text × Model) → List (Text × Model) → Type 0 where
  same_order : {rows : List (Text × Model)} → Reordered rows rows
  below :
      {rows rows' : List (Text × Model)} (row : Text × Model)
      → Reordered rows rows'
      → Reordered (row ∷ rows) (row ∷ rows')
  swapped :
      {rows : List (Text × Model)} (a b : Text × Model)
      → a.0 ≢ b.0
      → Reordered (a ∷ b ∷ rows) (b ∷ a ∷ rows)
  one_by_one :
      {rows rows' rows'' : List (Text × Model)}
      → Reordered rows rows'
      → Reordered rows' rows''
      → Reordered rows rows''

module _ (uid_leb : Text → Text → Bool) (order : IsOrder uid_leb) (sort : ModelSort)
    (tables : Tables) where
  abbrev le : Text × Model → Text × Model → Bool
  le = in_order uid_leb sort tables

  abbrev sure : Text × Model → Option ℕ
  sure row = confidence_of (latest_label tables.labels row.0)

  in_order_trans :
      (kind : ModelSort) (a b c : Text × Model)
      → in_order uid_leb kind tables a b ≡ true
      → in_order uid_leb kind tables b c ≡ true
      → in_order uid_leb kind tables a c ≡ true
  in_order_trans by_uid a b c h k = order.trans a.0 b.0 c.0 h k
  in_order_trans by_confidence a b c h k =
      confidence_leb_trans uid_leb (sure a) (sure b) (sure c) _ _ _ (order.trans a.0 b.0 c.0) h k

  -- Of two uids exactly one comes first.
  in_order-strict :
      (kind : ModelSort) (a b : Text × Model)
      → a.0 ≢ b.0
      → in_order uid_leb kind tables a b ≡ not (in_order uid_leb kind tables b a)
  in_order-strict by_uid a b differ = elim (Bool-cases (uid_leb a.0 b.0)) [
    | inl ab ↦ elim (Bool-cases (uid_leb b.0 a.0)) [
      | inl ba ↦ absurd (differ (order.antisym a.0 b.0 ab ba))
      | inr behind ↦ rw (ab, behind) refl
    ]
    | inr behind ↦ ground (arith, behind, order.total a.0 b.0)
  ]
  in_order-strict by_confidence a b differ =
      let first = in_order uid_leb by_confidence tables a b in
      let second = in_order uid_leb by_confidence tables b a in
      let total =
        confidence_leb-total uid_leb (sure a) (sure b) (uid_leb a.0 b.0) (uid_leb b.0 a.0)
          (order.total a.0 b.0) in
      elim (Bool-cases first) [
        | inl ab ↦ elim (Bool-cases second) [
          | inl ba ↦
              let (one, other) = confidence_leb-antisym uid_leb (sure a) (sure b) _ _ ab ba in
              absurd (differ (order.antisym a.0 b.0 one other))
          | inr behind ↦ ab ∙ sym (ap not behind)
        ]
        | inr behind ↦
            let comes : second ≡ true = ground (arith, behind, total) in behind ∙ sym (ap not comes)
      ]

  -- Rows that are filtered and sorted come out the same from either order.
  pub sort_by-reordered :
      (rows rows' : List (Text × Model))
      → Reordered rows rows'
      → (p : Text × Model → Bool) → sort_by le (keep p rows) ≡ sort_by le (keep p rows')
  unfolding sort_by
  sort_by-reordered rows rows' same_order p = refl
  sort_by-reordered rows rows' (below row r) p =
      let rest = sort_by-reordered _ _ r p in
      elim (Bool-cases (p row)) [
        | inl kept ↦ rw kept (ap (insert_by le row) rest)
        | inr out ↦ rw out rest
      ]
  sort_by-reordered rows rows' (swapped {rows = rest} a b differ) p = elim (Bool-cases (p a)) [
    | inl kept_a ↦ elim (Bool-cases (p b)) [
      | inl kept_b ↦
          rw (kept_a, kept_b)
            (insert_by-insert_by le (in_order_trans sort) a b (sort_by le (keep p rest))
              (in_order-strict sort a b differ))
      | inr out_b ↦ rw (kept_a, out_b) refl
    ]
    | inr out_a ↦ rw out_a refl
  ]
  sort_by-reordered rows rows' (one_by_one r r') p =
      sort_by-reordered _ _ r p ∙ sort_by-reordered _ _ r' p
