-- ===== src/Reconcile/Scan.antt =====
-- What a scan of the bucket finds: the keys under a prefix by their uids, and the counts of the views.
use image_genie.Base.{
  ◌≡◌, refl, sym, ap, ◌∙◌, inl, inr, Bool, true, false, ◌&&◌, Option, none, some, List, [], ◌∷◌,
  arith, if◌then◌else◌, Bool-cases, Option-cases, ◌==◌, beq_refl, Text, text_beq_iff, starts_with,
  get, empty, get-empty, get-put, get-present, any_key-get, IsKeyed, IsKeyed-empty, IsKeyed-put,
  any_key, text_eq, nat_eq,
}
use image_genie.ArtifactKeys.{uid_from_key}
use image_genie.Pipeline.{World, Blob, is_some, exists}
use image_genie.Reconcile.{Listing, list_keys, file_key, file_keys, uid_to_key_under, member}

abbrev pub names : Text → Option Text → Bool
names uid none = false
names uid (some other) = other == uid

abbrev pub or_this {ℓ} : {A : Type ℓ} → Option A → Option A → Option A
or_this none other = other
or_this (some a) other = some a

abbrev pub if_named : Bool → Text → Option Text
if_named true key = some key
if_named false key = none

-- The last of the keys that names the uid.
unfoldable pub last_named : Text → List Text → Option Text
last_named uid [] = none
last_named uid (key ∷ keys) =
    or_this (last_named uid keys) (if_named (names uid (uid_from_key key)) key)

or_this_assoc : (a b c : Option Text) → or_this (or_this a b) c ≡ or_this a (or_this b c)
or_this_assoc none b c = refl
or_this_assoc (some x) b c = refl

get-file_key :
    (key uid : Text) (found : Option Text) (listing : Listing)
    → get (file_key key found listing).uid_to_key uid
      ≡ or_this (if_named (names uid found) key) (get listing.uid_to_key uid)
get-file_key key uid none listing = refl
get-file_key key uid (some other) listing =
    get-put listing.uid_to_key other uid key ∙ pick (other == uid)
  where
    pick :
        (b : Bool)
        → (if b then some key else get listing.uid_to_key uid)
          ≡ or_this (if_named b key) (get listing.uid_to_key uid)
    pick true = refl
    pick false = refl

get-file_keys :
    (keys : List Text) (uid : Text) (listing : Listing)
    → get (file_keys keys listing).uid_to_key uid
      ≡ or_this (last_named uid keys) (get listing.uid_to_key uid)
unfolding file_keys last_named
get-file_keys [] uid listing = refl
get-file_keys (key ∷ keys) uid listing =
    get-file_keys keys uid (file_key key (uid_from_key key) listing)
    ∙ ap (or_this (last_named uid keys)) (get-file_key key uid (uid_from_key key) listing)
    ∙ sym (or_this_assoc (last_named uid keys) _ _)

names-some : (uid : Text) (found : Option Text) → names uid found ≡ true → found ≡ some uid
names-some uid none h = absurd (ground arith)
names-some uid (some other) h = ap (λ u. some u) ((text_beq_iff other uid).0 h)

names_self : (uid : Text) → names uid (some uid) ≡ true
names_self uid = beq_refl uid

last_named_sound :
    (uid key : Text) (keys : List Text)
    → last_named uid keys ≡ some key
    → (uid_from_key key ≡ some uid) × (member key keys ≡ true)
unfolding last_named
last_named_sound uid key [] h = absurd (ground arith)
last_named_sound uid key (first ∷ keys) h = elim (Option-cases (last_named uid keys)) [
  | inr (found, e) ↦
      let (named, there) = last_named_sound uid key keys (e ∙ (rw e at h)) in
      (named, rw there (ground arith))
  | inl e ↦ elim (Bool-cases (names uid (uid_from_key first))) [
    | inr other ↦ absurd (ground (arith, rw (e, other) at h))
    | inl same ↦
        let here : first ≡ key = ground (arith, rw (e, same) at h) in
        (
          ap uid_from_key (sym here) ∙ names-some uid (uid_from_key first) same,
          rw (here, beq_refl key) refl,
        )
  ]
]

last_named_complete :
    (uid key : Text) (keys : List Text)
    → member key keys ≡ true
    → uid_from_key key ≡ some uid
    → is_some (last_named uid keys) ≡ true
unfolding last_named
last_named_complete uid key [] m h = absurd (ground arith)
last_named_complete uid key (first ∷ keys) m h = elim (Option-cases (last_named uid keys)) [
  | inr (found, e) ↦ rw e refl
  | inl e ↦ elim (Bool-cases (first == key)) [
    | inl same ↦
        let here : first ≡ key = (text_beq_iff first key).0 same in
        rw (e, here, h, names_self uid) refl
    | inr other ↦
        absurd (ground (arith, rw e at (last_named_complete uid key keys (rw other at m) h)))
  ]
]

member-list_keys :
    (prefix key : Text) (pairs : List (Text × Blob))
    → member key (list_keys prefix pairs) ≡ (any_key key pairs && starts_with key prefix)
unfolding list_keys
member-list_keys prefix key [] = refl
member-list_keys prefix key (pair ∷ pairs) = elim (Bool-cases (starts_with pair.0 prefix)) [
  | inl under ↦
      rw (under, member-list_keys prefix key pairs) (ground (arith, text_beq_iff pair.0 key, under))
  | inr other ↦
      rw (other, member-list_keys prefix key pairs) (ground (arith, text_beq_iff pair.0 key, other))
]

member-of_exists :
    (w : World) (prefix key : Text)
    → exists w key ≡ true
    → starts_with key prefix ≡ true
    → member key (list_keys prefix w.blobs.entries) ≡ true
unfolding exists
member-of_exists w prefix key here under = elim (Option-cases (get w.blobs key)) [
  | inl e ↦ absurd (ground (arith, rw e at here))
  | inr (blob, e) ↦
      rw (member-list_keys prefix key w.blobs.entries, any_key-get w.blobs key blob e, under) refl
]

exists-of_member :
    (w : World) (prefix key : Text)
    → member key (list_keys prefix w.blobs.entries) ≡ true
    → (exists w key ≡ true) × (starts_with key prefix ≡ true)
unfolding exists
exists-of_member w prefix key m =
    let both : (any_key key w.blobs.entries && starts_with key prefix) ≡ true =
      sym (member-list_keys prefix key w.blobs.entries) ∙ m in
    let present : any_key key w.blobs.entries ≡ true = ground (arith, both) in
    let (blob, found) = get-present w.blobs key present in (rw found refl, ground (arith, both))

get-listing :
    (w : World) (prefix uid : Text)
    → get (uid_to_key_under w prefix).uid_to_key uid
      ≡ or_this (last_named uid (list_keys prefix w.blobs.entries)) none
unfolding uid_to_key_under
get-listing w prefix uid =
    get-file_keys (list_keys prefix w.blobs.entries) uid
      (record { uid_to_key = empty; unrecognised = 0 })
    ∙ ap (or_this (last_named uid (list_keys prefix w.blobs.entries))) (get-empty uid)

or_this-none : {A : Type 0} (a : Option A) → or_this a none ≡ a
or_this-none none = refl
or_this-none (some x) = refl

-- The key that the listing has for a uid is that of an object under the prefix, and it names the uid.
pub uid_to_key_under_sound :
    (w : World) (prefix uid key : Text)
    → get (uid_to_key_under w prefix).uid_to_key uid ≡ some key
    → (exists w key ≡ true) × (starts_with key prefix ≡ true) × (uid_from_key key ≡ some uid)
uid_to_key_under_sound w prefix uid key h =
    let last : last_named uid (list_keys prefix w.blobs.entries) ≡ some key =
      sym (get-listing w prefix uid ∙ or_this-none _) ∙ h in
    let (named, there) = last_named_sound uid key _ last in
    let (here, under) = exists-of_member w prefix key there in (here, under, named)

-- Each object under the prefix whose key names a uid gives the uid a key.
pub uid_to_key_under_complete :
    (w : World) (prefix uid key : Text)
    → exists w key ≡ true
    → starts_with key prefix ≡ true
    → uid_from_key key ≡ some uid
    → is_some (get (uid_to_key_under w prefix).uid_to_key uid) ≡ true
uid_to_key_under_complete w prefix uid key here under named =
    rw (get-listing w prefix uid, or_this-none _)
      (last_named_complete uid key (list_keys prefix w.blobs.entries)
        (member-of_exists w prefix key here under) named)

IsKeyed-file_key :
    (key : Text) (found : Option Text) (listing : Listing)
    → IsKeyed listing.uid_to_key
    → IsKeyed (file_key key found listing).uid_to_key
IsKeyed-file_key key none listing h = h
IsKeyed-file_key key (some uid) listing h = IsKeyed-put listing.uid_to_key uid key h

IsKeyed-file_keys :
    (keys : List Text) (listing : Listing)
    → IsKeyed listing.uid_to_key
    → IsKeyed (file_keys keys listing).uid_to_key
unfolding file_keys
IsKeyed-file_keys [] listing h = h
IsKeyed-file_keys (key ∷ keys) listing h =
    IsKeyed-file_keys keys _ (IsKeyed-file_key key (uid_from_key key) listing h)

pub IsKeyed-uid_to_key_under :
    (w : World) (prefix : Text) → IsKeyed (uid_to_key_under w prefix).uid_to_key
unfolding uid_to_key_under
IsKeyed-uid_to_key_under w prefix =
    IsKeyed-file_keys (list_keys prefix w.blobs.entries) _ IsKeyed-empty
