-- ===== src/ArtifactKeys.antt =====
-- server/app/artifact_keys.py: where each stage's output lives in object storage. Keys and uids are
-- lists of code points.
pub mod Decimal
pub mod RoundTrip
pub mod Accepted
pub mod Variants
mod Examples
use image_genie.Base.{
  ℕ, zero, suc, ◌+◌, ◌-◌, ◌/◌, Bool, true, false, not, ◌&&◌, Option, none, some, List, [], ◌∷◌,
  ◌++◌, arith, nat_beq, if◌then◌else◌, ◌==◌, length, take, drop, Text, codes, starts_with,
  ends_with, contains, text_eq, nat_eq,
}
use image_genie.ArtifactKeys.Decimal.{decimal, pad2}

abbrev pub num_views : ℕ
num_views = 12

abbrev pub raw_prefix : Text
raw_prefix = codes "raw/"

abbrev pub converted_prefix : Text
converted_prefix = codes "processed/converted/"

abbrev pub normalized_prefix : Text
normalized_prefix = codes "processed/normalized/"

abbrev pub renders_root : Text
renders_root = codes "processed/renders/"

abbrev pub mesh_suffix : Text
mesh_suffix = codes ".ply"

-- The keys of VARIANT_TO_LAYOUT; `layout_for` reads a text into one or refuses it.
pub data Variant : Type 0 where
  default textured : Variant

pub record VariantLayout : Type 0 where
  pub path_suffix : Text
  pub file_suffix : Text

abbrev pub layout : Variant → VariantLayout
layout default = record { path_suffix = []; file_suffix = mesh_suffix }
layout textured = record { path_suffix = codes "_textured"; file_suffix = codes ".glb" }

-- VARIANT_TO_LAYOUT[variant]; `none` is the ValueError.
unfoldable pub variant_named : Text → Option Variant
variant_named name =
    if name == codes "default"
    then some default
    else if name == codes "textured"
    then some textured
    else none

unfoldable pub layout_for : Text → Option VariantLayout
unfolding variant_named
layout_for name = elim (variant_named name) [ none ↦ none | some v ↦ some (layout v) ]

-- RAW_SUFFIX_TO_FILE_TYPE, in its order.
abbrev pub raw_suffix_to_file_type : List (Text × Text)
raw_suffix_to_file_type =
    (codes ".glb", codes "glb") ∷ (codes ".stl", codes "stl") ∷ (codes ".obj", codes "obj") ∷ []

abbrev pub default_raw_suffix : Text
default_raw_suffix = codes ".glb"

unfoldable pub raw_key : Text → Text → Text
raw_key uid suffix = raw_prefix ++ (uid ++ suffix)

-- The loop of `file_type_for_raw_key`.
unfoldable pub file_type_among : List (Text × Text) → Text → Option Text
file_type_among [] key = none
file_type_among ((suffix, file_type) ∷ rest) key =
    if ends_with key suffix then some file_type else file_type_among rest key

unfoldable pub file_type_for_raw_key : Text → Option Text
unfolding file_type_among
file_type_for_raw_key = file_type_among raw_suffix_to_file_type

unfoldable pub converted_key : Text → Variant → Text
converted_key uid v =
    codes "processed/converted"
    ++ ((layout v).path_suffix ++ (codes "/" ++ (uid ++ (layout v).file_suffix)))

unfoldable pub normalized_key : Text → Variant → Text
normalized_key uid v =
    codes "processed/normalized"
    ++ ((layout v).path_suffix ++ (codes "/" ++ (uid ++ (layout v).file_suffix)))

-- `mesh_suffix.lstrip(".")`
unfoldable pub lstrip_dots : Text → Text
lstrip_dots [] = []
lstrip_dots (c ∷ s) = if nat_beq c 46 then lstrip_dots s else c ∷ s

unfoldable pub mesh_file_type : Variant → Text
unfolding lstrip_dots
mesh_file_type v = lstrip_dots (layout v).file_suffix

unfoldable pub renders_prefix : Text → Variant → Text
renders_prefix uid v =
    codes "processed/renders" ++ ((layout v).path_suffix ++ (codes "/" ++ (uid ++ codes "/")))

unfoldable pub weights_key : ℕ → Text
weights_key run_id = codes "processed/models/" ++ (decimal run_id ++ codes ".pt")

unfoldable pub dev_set_key : Text → Text
dev_set_key name = codes "processed/devsets/" ++ (name ++ codes ".csv")

unfoldable pub experiment_subset_key : Text → Text
experiment_subset_key name = codes "processed/experiments/" ++ (name ++ codes ".csv")

unfoldable pub view_key : Text → ℕ → Variant → Text
unfolding renders_prefix
view_key uid view_index v =
    renders_prefix uid v ++ (codes "view_" ++ (pad2 (decimal view_index) ++ codes ".png"))

-- `for index in range(n)`
unfoldable pub view_keys_below : Text → ℕ → Variant → List Text
view_keys_below uid zero v = []
view_keys_below uid (suc n) v = view_keys_below uid n v ++ view_key uid n v ∷ []

unfoldable pub view_keys : Text → Variant → List Text
unfolding view_keys_below
view_keys uid v = view_keys_below uid num_views v

-- The pairs of prefix and suffix that `uid_from_key` tries, in order.
abbrev pub candidate_suffixes : List (Text × Text)
candidate_suffixes =
    (raw_prefix, codes ".glb")
    ∷ (raw_prefix, codes ".stl")
    ∷ (raw_prefix, codes ".obj")
    ∷ (converted_prefix, mesh_suffix)
    ∷ (normalized_prefix, mesh_suffix)
    ∷ []

abbrev pub is_empty : Text → Bool
is_empty [] = true
is_empty (_ ∷ _) = false

-- `uid if uid and "/" not in uid else None`
unfoldable pub one_segment : Text → Option Text
one_segment uid = if not (is_empty uid) && not (contains 47 uid) then some uid else none

-- `key[len(prefix) : -len(suffix)]`
unfoldable pub slice_between : Text → Text → Text → Text
slice_between key prefix suffix =
    take (length key - length suffix - length prefix) (drop (length prefix) key)

-- `s.partition("/")`: what stands before the first slash, the slash if there is one, and the rest.
unfoldable pub partition_slash : Text → Text × Text × Text
partition_slash [] = ([], [], [])
partition_slash (c ∷ s) =
    let (head, separator, tail) = partition_slash s in
    if nat_beq c 47 then ([], codes "/", s) else (c ∷ head, separator, tail)

unfoldable pub render_uid : Text → Option Text
unfolding partition_slash
render_uid remainder =
    let (uid, separator, view) = partition_slash remainder in
    if not (is_empty uid) && (not (is_empty separator) && not (is_empty view))
    then some uid
    else none

-- The loop over `candidate_suffixes`, and what follows it.
unfoldable pub uid_among : List (Text × Text) → Text → Option Text
unfolding one_segment slice_between render_uid
uid_among [] key =
    if starts_with key renders_root then render_uid (drop (length renders_root) key) else none
uid_among ((prefix, suffix) ∷ rest) key =
    if starts_with key prefix && ends_with key suffix
    then one_segment (slice_between key prefix suffix)
    else uid_among rest key

unfoldable pub uid_from_key : Text → Option Text
uid_from_key = uid_among candidate_suffixes
