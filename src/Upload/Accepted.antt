-- ===== src/Upload/Accepted.antt =====
-- An accepted upload's key has the file type that its suffix was accepted for.
use image_genie.Base.{
  ◌≡◌, refl, sym, ◌∙◌, inl, inr, true, false, Option, none, some, List, [], ◌∷◌, ◌++◌, arith,
  Bool-cases, ◌==◌, length, All, Text, text_beq, text_beq_iff, ends_with, drop-append_sub,
  ends_with-append, text_eq, nat_eq,
}
use mathlib.Core.List.{append_assoc}
use mathlib.Core.Path.{sym, subst}
use image_genie.ArtifactKeys.{
  raw_prefix, raw_key, raw_suffix_to_file_type, file_type_for_raw_key, file_type_among,
}
use image_genie.Accounts.Email.{lower}
use image_genie.Upload.Paths.{suffix_of}
use image_genie.Upload.{accepted_type, with_suffix, validated_suffix, or_blank}

ends_with_other :
    (u v s : Text) → length s ≡ length v → text_beq v s ≡ false → ends_with (u ++ v) s ≡ false
unfolding ends_with
ends_with_other u v s same differs = rw (same, drop-append_sub u v, differs) (ground arith)

-- A key with one of the suffixes of the table ends with that suffix, and with no other of the same length.
ends_with_key :
    (uid v s : Text) → length s ≡ length v → (s == v) ≡ false → ends_with (raw_key uid v) s ≡ false
unfolding raw_key text_beq
ends_with_key uid v s same differs =
    let turned : text_beq v s ≡ false =
      ground (arith, text_beq_iff v s, text_beq_iff s v, differs) in
    subst (λ key. ends_with key s ≡ false) (append_assoc raw_prefix uid v)
      (ends_with_other (raw_prefix ++ uid) v s same turned)

ends_with_own : (uid v : Text) → ends_with (raw_key uid v) v ≡ true
unfolding raw_key
ends_with_own uid v =
    subst (λ key. ends_with key v ≡ true) (append_assoc raw_prefix uid v)
      (ends_with-append (raw_prefix ++ uid) v)

accepted_type-length :
    (suffix file_type : Text) (accepted : List (Text × Text))
    → All (λ (entry : Text × Text). length entry.0 ≡ 4) accepted
    → accepted_type accepted suffix ≡ some file_type
    → length suffix ≡ 4
unfolding accepted_type
accepted_type-length suffix file_type [] four h = cc h
accepted_type-length suffix file_type ((s, found) ∷ accepted) (four, fours) h =
    elim (Bool-cases (s == suffix)) [
      | inl equal ↦ rw (sym ((text_beq_iff s suffix).0 equal)) four
      | inr differs ↦
          accepted_type-length suffix file_type accepted fours (sym (rw differs refl) ∙ h)
    ]

-- All the suffixes have one length, so a key that was made with one of them ends with no other.
file_type_among-accepted :
    (uid suffix file_type : Text) (accepted : List (Text × Text))
    → length suffix ≡ 4
    → All (λ (entry : Text × Text). length entry.0 ≡ 4) accepted
    → accepted_type accepted suffix ≡ some file_type
    → file_type_among accepted (raw_key uid suffix) ≡ some file_type
unfolding accepted_type file_type_among
file_type_among-accepted uid suffix file_type [] four fours h = h
file_type_among-accepted uid suffix file_type ((s, found) ∷ accepted) four (four_s, fours) h =
    elim (Bool-cases (s == suffix)) [
      | inl equal ↦
          let found_suffix : some found ≡ some file_type = sym (rw equal refl) ∙ h in
          let own : ends_with (raw_key uid suffix) s ≡ true =
            rw ((text_beq_iff s suffix).0 equal) (ends_with_own uid suffix) in
          rw own found_suffix
      | inr differs ↦
          let other = ends_with_key uid suffix s (four_s ∙ sym four) differs in
          rw other (
            file_type_among-accepted uid suffix file_type accepted four fours
              (sym (rw differs refl) ∙ h))
    ]

-- The file type that the upload was read with is the one that the convert stage finds by the key.
file_type-accepted :
    (uid suffix file_type : Text)
    → accepted_type raw_suffix_to_file_type suffix ≡ some file_type
    → file_type_for_raw_key (raw_key uid suffix) ≡ some file_type
unfolding file_type_for_raw_key
file_type-accepted uid suffix file_type h =
    let fours : All (λ (entry : Text × Text). length entry.0 ≡ 4) raw_suffix_to_file_type =
      (refl, (refl, (refl, tt))) in
    file_type_among-accepted uid suffix file_type raw_suffix_to_file_type
      (accepted_type-length suffix file_type raw_suffix_to_file_type fours h) fours h

with_suffix-typed :
    (uid suffix : Text) (found : Option Text) (kind : Text × Text)
    → accepted_type raw_suffix_to_file_type suffix ≡ found
    → with_suffix suffix found ≡ some kind
    → file_type_for_raw_key (raw_key uid kind.0) ≡ some kind.1
with_suffix-typed uid suffix none kind e h = cc h
with_suffix-typed uid suffix (some file_type) kind e h =
    let same : (suffix, file_type) ≡ kind = cc h in
    subst (λ (k : Text × Text). file_type_for_raw_key (raw_key uid k.0) ≡ some k.1) same
      (file_type-accepted uid suffix file_type e)

-- The table of suffixes is the one that `file_type_for_raw_key` reads.
pub validated_suffix-typed :
    (uid : Text) (filename : Option Text) (kind : Text × Text)
    → validated_suffix filename ≡ some kind
    → file_type_for_raw_key (raw_key uid kind.0) ≡ some kind.1
unfolding validated_suffix
validated_suffix-typed uid filename kind h =
    let suffix = lower (suffix_of (or_blank filename)) in
    with_suffix-typed uid suffix (accepted_type raw_suffix_to_file_type suffix) kind refl h
