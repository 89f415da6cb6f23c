-- ===== src/ArtifactKeys/Accepted.antt =====
-- What `uid_from_key` accepts: only keys that a builder makes.
use image_genie.Base.{
  ℕ, zero, suc, ◌-◌, ◌≡◌, refl, sym, ap, ◌∙◌, ◌≢◌, ◌↔◌, ◌⊎◌, inl, inr, true, false, ◌&&◌, some,
  List, [], ◌∷◌, ◌++◌, arith, nat_beq, nat_beq_iff, Bool-cases, length, take, drop, drop-drop,
  take-append-drop, All-mem, Text, codes, text_beq_iff, starts_with, ends_with, contains,
  starts_with-eq_append, text_eq, nat_eq,
}
use mathlib.Core.List.{append_assoc, Memᴰ}
use mathlib.Core.Path.{subst}
use image_genie.ArtifactKeys.{
  renders_root, default, raw_key, converted_key, normalized_key, renders_prefix, uid_from_key,
  uid_among, one_segment, is_empty, slice_between, partition_slash, render_uid,
  raw_suffix_to_file_type,
}
use image_genie.ArtifactKeys.RoundTrip.{
  IsUid, IsUid-one_segment, Reads, uid_from_key-raw_key, uid_from_key-processed,
  uid_from_key-renders,
}

nonzero_of_filled : (n : ℕ) (s : Text) → is_empty (take n s) ≡ false → n ≢ 0
nonzero_of_filled zero s h = cc
nonzero_of_filled (suc n) s h = omega arith

-- A key with the prefix and the suffix, and something between them, is the three put together.
slice_between-eq :
    (key p s : Text)
    → starts_with key p ≡ true
    → ends_with key s ≡ true
    → is_empty (slice_between key p s) ≡ false
    → key ≡ p ++ (slice_between key p s ++ s)
unfolding slice_between ends_with
slice_between-eq key p s starts ends filled =
    let n = length key - length s - length p in
    let rest = drop (length p) key in
    let positive : n ≢ 0 = nonzero_of_filled n rest filled in
    let tail : drop (length key - length s) key ≡ s = (text_beq_iff _ _).0 (ground arith) in
    let end : drop n rest ≡ s =
      drop-drop n (length p) key ∙ ap (λ k. drop k key) (omega arith) ∙ tail in
    starts_with-eq_append key p starts
    ∙ ap (λ l. p ++ l) (sym (take-append-drop n rest) ∙ ap (λ l. take n rest ++ l) end)

-- The keys that name a uid: a raw mesh in one of the formats, a converted or a normalized mesh, or
-- something under the uid's own renders prefix.
pub data Names (uid key : Text) : Type 0 where
  raw : (p : Text × Text) → Memᴰ p raw_suffix_to_file_type → key ≡ raw_key uid p.0 → Names uid key
  converted : key ≡ converted_key uid default → Names uid key
  normalized : key ≡ normalized_key uid default → Names uid key
  view :
      (name : Text)
      → is_empty name ≡ false
      → key ≡ renders_prefix uid default ++ name
      → Names uid key

partition_slash-eq :
    (s : Text)
    → is_empty (partition_slash s).1 ≡ false
    → (s ≡ (partition_slash s).0 ++ (47 ∷ (partition_slash s).2))
      × (contains 47 (partition_slash s).0 ≡ false)
unfolding partition_slash contains
partition_slash-eq [] h = cc
partition_slash-eq (c ∷ s) h = elim (Bool-cases (nat_beq c 47)) [
  | inl slash ↦ rw slash (ap (λ d. d ∷ s) ((nat_beq_iff _ _).0 slash), refl)
  | inr other ↦
      let (parts, segment) = partition_slash-eq s (rw other at h) in
      rw other (ap (λ l. c ∷ l) parts, rw other segment)
]

render_uid-Names :
    (s uid : Text) → render_uid s ≡ some uid → IsUid uid × Names uid (renders_root ++ s)
unfolding render_uid renders_prefix
render_uid-Names s uid h =
    let separated : is_empty (partition_slash s).1 ≡ false = ground arith in
    let same : (partition_slash s).0 ≡ uid = ground arith in
    let (parts, segment) = partition_slash-eq s separated in
    (
      rw (← same) (record { filled = ground arith; segment = segment }),
      view (partition_slash s).2 (ground arith) (
          ap (λ l. renders_root ++ l) (parts ∙ ap (λ u. u ++ (47 ∷ (partition_slash s).2)) same)
          ∙ ap (λ l. renders_root ++ l) (sym (append_assoc uid (codes "/") _))),
    )

pair-Names :
    (key p s uid : Text)
    → (starts_with key p && ends_with key s) ≡ true
    → one_segment (slice_between key p s) ≡ some uid
    → IsUid uid × (key ≡ p ++ (uid ++ s))
pair-Names key p s uid fits named =
    let (same, is_uid) = IsUid-one_segment (slice_between key p s) uid named in
    let filled : is_empty (slice_between key p s) ≡ false = rw same is_uid.filled in
    (
      is_uid,
      slice_between-eq key p s (ground arith) (ground arith) filled ∙ ap (λ u. p ++ (u ++ s)) same,
    )

-- One turn of the loop of `uid_from_key`: this pair fits and the slice is the uid, or a later pair does.
uid_among-cases :
    (key p s uid : Text) (rest : List (Text × Text))
    → uid_among ((p, s) ∷ rest) key ≡ some uid
    → (IsUid uid × (key ≡ p ++ (uid ++ s))) ⊎ (uid_among rest key ≡ some uid)
unfolding uid_among
uid_among-cases key p s uid rest h = elim (Bool-cases (starts_with key p && ends_with key s)) [
  | inl fits ↦ inl (pair-Names key p s uid fits (rw fits at h))
  | inr misses ↦ inr (rw misses at h)
]

uid_among-nil : (key uid : Text) → uid_among [] key ≡ some uid → IsUid uid × Names uid key
unfolding uid_among
uid_among-nil key uid h = elim (Bool-cases (starts_with key renders_root)) [
  | inl starts ↦
      let e = starts_with-eq_append key renders_root starts in
      let (is_uid, names) = render_uid-Names (drop 18 key) uid (rw starts at h) in
      (is_uid, subst (Names uid) (sym e) names)
  | inr misses ↦ absurd (cc (rw misses at h))
]

uid_from_key_sound : (key uid : Text) → uid_from_key key ≡ some uid → IsUid uid × Names uid key
unfolding uid_from_key raw_key converted_key normalized_key
uid_from_key_sound key uid h = elim (uid_among-cases key _ _ uid _ h) [
  | inl (u, e) ↦ (u, raw (codes ".glb", codes "glb") (Memᴰ.head refl) e)
  | inr h₁ ↦ elim (uid_among-cases key _ _ uid _ h₁) [
    | inl (u, e) ↦ (u, raw (codes ".stl", codes "stl") (Memᴰ.tail (Memᴰ.head refl)) e)
    | inr h₂ ↦ elim (uid_among-cases key _ _ uid _ h₂) [
      | inl (u, e) ↦ (u, raw (codes ".obj", codes "obj") (Memᴰ.tail (Memᴰ.tail (Memᴰ.head refl))) e)
      | inr h₃ ↦ elim (uid_among-cases key _ _ uid _ h₃) [
        | inl (u, e) ↦ (u, converted e)
        | inr h₄ ↦ elim (uid_among-cases key _ _ uid _ h₄) [
          | inl (u, e) ↦ (u, normalized e)
          | inr h₅ ↦ uid_among-nil key uid h₅
        ]
      ]
    ]
  ]
]

uid_from_key_complete : (key uid : Text) → IsUid uid → Names uid key → uid_from_key key ≡ some uid
uid_from_key_complete key uid u (raw p m e) =
    rw e (All-mem (Reads uid) raw_suffix_to_file_type m (uid_from_key-raw_key uid u)).0
uid_from_key_complete key uid u (converted e) = rw e (uid_from_key-processed uid 0 u).0
uid_from_key_complete key uid u (normalized e) = rw e (uid_from_key-processed uid 0 u).1
uid_from_key_complete key uid u (view name filled e) = rw e (uid_from_key-renders uid name u filled)

-- A key maps to a uid exactly if the uid is one path segment and a builder makes the key from it: a
-- raw key with a listed suffix, the converted or the normalized key, or a name under its renders prefix.
pub uid_from_key_iff :
    (key uid : Text) → (uid_from_key key ≡ some uid) ↔ (IsUid uid × Names uid key)
uid_from_key_iff key uid = (uid_from_key_sound key uid, λ p. uid_from_key_complete key uid p.0 p.1)
