-- ===== src/ArtifactKeys/RoundTrip.antt =====
-- Which uid a key names: the builders and `uid_from_key` are inverse to one another.
use image_genie.Base.{
  ℕ, ◌-◌, ◌≡◌, refl, ◌∙◌, true, false, some, List, [], ◌∷◌, ◌++◌, arith, leb, le→leb, length,
  length-append, drop-append, take-append, All, Text, codes, text_beq, starts_with, ends_with,
  contains, starts_with-append, ends_with-append,
}
use mathlib.Core.List.{append_assoc}
use image_genie.ArtifactKeys.{
  raw_prefix, converted_prefix, normalized_prefix, default, raw_key, raw_suffix_to_file_type,
  file_type_for_raw_key, converted_key, normalized_key, renders_prefix, view_key, uid_from_key,
  uid_among, one_segment, is_empty, slice_between, partition_slash, mesh_suffix,
}

-- A uid is one path segment.
pub record IsUid (uid : Text) : Type 0 where
  pub filled : is_empty uid ≡ false
  pub segment : contains 47 uid ≡ false

pub one_segment_of_IsUid : (uid : Text) → IsUid uid → one_segment uid ≡ some uid
unfolding one_segment
one_segment_of_IsUid uid h = rw (h.filled, h.segment) refl

pub IsUid-one_segment : (s uid : Text) → one_segment s ≡ some uid → (s ≡ uid) × IsUid uid
unfolding one_segment
IsUid-one_segment s uid h =
    let same : s ≡ uid = ground arith in
    (same, rw (← same) (record { filled = ground arith; segment = ground arith }))

pub slice_between-append : (p u s : Text) → slice_between (p ++ (u ++ s)) p s ≡ u
unfolding slice_between
slice_between-append p u s =
    let n : length (p ++ (u ++ s)) - length s - length p ≡ length u =
      omega (arith, length-append p (u ++ s), length-append u s) in
    rw (n, drop-append) (take-append u s)

-- Two suffixes of one length are both suffixes of a text only if they are equal.
ends_with-append_same_length :
    (u s t : Text) → length s ≡ length t → ends_with (u ++ s) t ≡ text_beq s t
unfolding ends_with
ends_with-append_same_length u s t e =
    let n : length (u ++ s) - length t ≡ length u = omega (arith, length-append u s) in
    let fits : leb (length t) (length (u ++ s)) ≡ true =
      le→leb _ _ (omega (arith, length-append u s)) in
    rw (fits, n, drop-append) refl

-- A candidate pair takes a key that it built, and passes on a key with another suffix.
uid_among-hit :
    (p s u : Text) (rest : List (Text × Text))
    → IsUid u
    → uid_among ((p, s) ∷ rest) (p ++ (u ++ s)) ≡ some u
unfolding uid_among
uid_among-hit p s u rest h =
    rw (starts_with-append p (u ++ s), ← append_assoc p u s, ends_with-append (p ++ u) s)
      (rw append_assoc (rw slice_between-append (one_segment_of_IsUid u h)))

uid_among-skip_suffix :
    (p s p' s' u : Text) (rest : List (Text × Text))
    → length s' ≡ length s
    → text_beq s' s ≡ false
    → uid_among ((p, s) ∷ rest) (p' ++ (u ++ s')) ≡ uid_among rest (p' ++ (u ++ s'))
unfolding uid_among
uid_among-skip_suffix p s p' s' u rest e ne =
    rw (← append_assoc p' u s', ends_with-append_same_length (p' ++ u) s' s e, ne) (ground arith)

ends_with-raw :
    (uid s s' : Text)
    → length s ≡ length s'
    → ends_with (raw_prefix ++ (uid ++ s)) s' ≡ text_beq s s'
ends_with-raw uid s s' e =
    rw (← append_assoc raw_prefix uid s) (ends_with-append_same_length (raw_prefix ++ uid) s s' e)

-- The raw key with this suffix names the uid, and this file type is read off it.
abbrev pub Reads : Text → Text × Text → Type 0
Reads uid p =
    (uid_from_key (raw_key uid p.0) ≡ some uid)
    × (file_type_for_raw_key (raw_key uid p.0) ≡ some p.1)

-- For every source format and every uid: the raw key names its uid, and its format is read back.
pub uid_from_key-raw_key : (uid : Text) → IsUid uid → All (Reads uid) raw_suffix_to_file_type
unfolding uid_from_key raw_key file_type_for_raw_key text_beq
uid_from_key-raw_key uid h = (
  (
    uid_among-hit raw_prefix (codes ".glb") uid _ h,
    rw (ends_with-raw uid (codes ".glb") (codes ".glb") refl) refl,
  ),
  (
    (
      uid_among-skip_suffix raw_prefix (codes ".glb") raw_prefix (codes ".stl") uid _ refl refl
          ∙ uid_among-hit raw_prefix (codes ".stl") uid _ h,
      rw
          (
            ends_with-raw uid (codes ".stl") (codes ".glb") refl,
            ends_with-raw uid (codes ".stl") (codes ".stl") refl,
          )
          refl,
    ),
    (
      (
        uid_among-skip_suffix raw_prefix (codes ".glb") raw_prefix (codes ".obj") uid _ refl refl
            ∙ uid_among-skip_suffix raw_prefix (codes ".stl") raw_prefix (codes ".obj") uid _ refl
                refl
            ∙ uid_among-hit raw_prefix (codes ".obj") uid _ h,
        rw
            (
              ends_with-raw uid (codes ".obj") (codes ".glb") refl,
              ends_with-raw uid (codes ".obj") (codes ".stl") refl,
              ends_with-raw uid (codes ".obj") (codes ".obj") refl,
            )
            refl,
      ),
      tt,
    ),
  ),
)

partition_slash-append :
    (u v : Text) → contains 47 u ≡ false → partition_slash (u ++ (47 ∷ v)) ≡ (u, codes "/", v)
unfolding partition_slash contains
partition_slash-append [] v h = refl
partition_slash-append (c ∷ u) v h = ground (arith, partition_slash-append u v (ground arith))

-- What lies under a uid's renders prefix names the uid.
pub uid_from_key-renders :
    (uid name : Text)
    → IsUid uid
    → is_empty name ≡ false
    → uid_from_key (renders_prefix uid default ++ name) ≡ some uid
unfolding uid_from_key renders_prefix uid_among starts_with
uid_from_key-renders uid name h filled =
    rw (append_assoc uid (codes "/") name)
      (rw (partition_slash-append uid name h.segment, h.filled, filled) refl)

-- For every uid: its converted and normalized keys and each of its view keys name it.
pub uid_from_key-processed :
    (uid : Text) (view_index : ℕ)
    → IsUid uid
    → (uid_from_key (converted_key uid default) ≡ some uid)
      × (uid_from_key (normalized_key uid default) ≡ some uid)
      × (uid_from_key (view_key uid view_index default) ≡ some uid)
unfolding uid_from_key converted_key normalized_key view_key uid_among starts_with
uid_from_key-processed uid view_index h = (
  uid_among-hit converted_prefix mesh_suffix uid ((normalized_prefix, mesh_suffix) ∷ []) h,
  uid_among-hit normalized_prefix mesh_suffix uid [] h,
  uid_from_key-renders uid _ h refl,
)
