-- ===== src/Reconcile/Views.antt =====
-- The render stage's uids: complete are those of which twelve objects or more are listed.
use image_genie.Base.{
  ℕ, suc, ◌+◌, ◌≡◌, refl, sym, ◌∙◌, inl, inr, Bool, ◌&&◌, Option, none, some, List, [], ◌∷◌, arith,
  leb, if◌then◌else◌, Bool-cases, ◌==◌, count, All, Text, text_beq_iff, Dict, get, empty, get-empty,
  get-put, IsKeyed, IsKeyed-empty, IsKeyed-put, any_key, get-absent, text_eq, nat_eq,
}
use image_genie.ArtifactKeys.{uid_from_key, num_views, renders_root}
use image_genie.Pipeline.{World}
use image_genie.Reconcile.{
  list_keys, counted, tally_key, tally, uids_with, complete_render_uids, member,
}
use image_genie.Reconcile.Scan.{names}

counted-tally_key :
    (found : Option Text) (uid : Text) (counter : Dict Text ℕ)
    → counted (get (tally_key found counter) uid)
      ≡ (if names uid found then suc (counted (get counter uid)) else counted (get counter uid))
counted-tally_key none uid counter = refl
counted-tally_key (some other) uid counter =
    rw (get-put counter other uid) (elim (Bool-cases (other == uid)) [
      | inl same ↦ rw (same, ← (text_beq_iff other uid).0 same) refl
      | inr differs ↦ rw differs refl
    ])

module _ (uid_of : Text → Option Text) where
  counted-tally :
      (keys : List Text) (uid : Text) (counter : Dict Text ℕ)
      → counted (get (tally uid_of keys counter) uid)
        ≡ counted (get counter uid) + count (λ key. names uid (uid_of key)) keys
  unfolding tally
  counted-tally [] uid counter = omega arith
  counted-tally (key ∷ keys) uid counter =
      counted-tally keys uid (tally_key (uid_of key) counter)
      ∙ ground (arith, counted-tally_key (uid_of key) uid counter)

  IsKeyed-tally :
      (keys : List Text) (counter : Dict Text ℕ)
      → IsKeyed counter
      → IsKeyed (tally uid_of keys counter)
  unfolding tally
  IsKeyed-tally [] counter h = h
  IsKeyed-tally (key ∷ keys) counter h = IsKeyed-tally keys _ (step (uid_of key) counter h)
    where
      step :
          (found : Option Text) (counter' : Dict Text ℕ)
          → IsKeyed counter'
          → IsKeyed (tally_key found counter')
      step none counter' k = k
      step (some uid) counter' k = IsKeyed-put counter' uid _ k

member-uids_with :
    (test : ℕ → Bool) (uid : Text) (counter : Dict Text ℕ) (pairs : List (Text × ℕ))
    → All (λ (pair : Text × ℕ). get counter pair.0 ≡ some pair.1) pairs
    → member uid (uids_with test pairs) ≡ (any_key uid pairs && test (counted (get counter uid)))
unfolding uids_with
member-uids_with test uid counter [] h = refl
member-uids_with test uid counter (pair ∷ pairs) (h, hs) = elim (Bool-cases (pair.0 == uid)) [
  | inl same ↦
      let here : get counter uid ≡ some pair.1 = rw (← (text_beq_iff pair.0 uid).0 same) h in
      let rest = member-uids_with test uid counter pairs hs in
      elim (Bool-cases (test pair.1)) [
        | inl full ↦ rw (full, same, here, full) refl
        | inr few ↦ rw (few, same, rest, here, few) (ground arith)
      ]
  | inr differs ↦ elim (Bool-cases (test pair.1)) [
    | inl full ↦ rw (full, differs) (member-uids_with test uid counter pairs hs)
    | inr few ↦ rw (few, differs) (member-uids_with test uid counter pairs hs)
  ]
]

-- Of the uids that some keys name, those pass that at least `num_views` of the keys name.
pub member-tally :
    (uid_of : Text → Option Text) (keys : List Text) (uid : Text)
    → member uid (uids_with (λ n. leb num_views n) (tally uid_of keys empty).entries)
      ≡ leb num_views (count (λ key. names uid (uid_of key)) keys)
member-tally uid_of keys uid =
    let counter = tally uid_of keys empty in
    let views : counted (get counter uid) ≡ count (λ key. names uid (uid_of key)) keys =
      counted-tally uid_of keys uid empty ∙ rw (get-empty uid) (omega arith) in
    let found =
      member-uids_with (λ n. leb num_views n) uid counter counter.entries
        (IsKeyed-tally uid_of keys empty IsKeyed-empty).found in
    elim (Bool-cases (any_key uid counter.entries)) [
      | inl present ↦ found ∙ rw (present, views) refl
      | inr absent ↦
          let none_listed : count (λ key. names uid (uid_of key)) keys ≡ 0 =
            sym views ∙ rw (get-absent counter uid absent) refl in
          found ∙ rw (absent, none_listed) refl
    ]

-- How many objects under the renders' root name the uid.
unfoldable pub listed_views : World → Text → ℕ
listed_views w uid =
    count (λ key. names uid (uid_from_key key)) (list_keys renders_root w.blobs.entries)

-- A uid is complete when at least `num_views` of the listed objects name it, whatever views they are.
pub member-complete_render_uids :
    (w : World) (uid : Text)
    → member uid (complete_render_uids w).0 ≡ leb num_views (listed_views w uid)
unfolding complete_render_uids listed_views
member-complete_render_uids w uid =
    member-tally uid_from_key (list_keys renders_root w.blobs.entries) uid
