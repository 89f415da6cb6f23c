-- ===== src/Upload/Examples.antt =====
-- Uploads of small files with the tools of the pipeline's tests.
use image_genie.Base.{
  ℕ, ◌≡◌, refl, Option, none, some, [], ◌∷◌, arith, ltb, if◌then◌else◌, length, Text, codes,
  text_beq, get, put, get-empty, text_eq, nat_eq,
}
use image_genie.ArtifactKeys.{default, converted_key}
use image_genie.ArtifactKeys.Decimal.{decimal}
use image_genie.Accounts.Email.{lower}
use image_genie.RateLimit.{new_limiter, check}
use image_genie.Pipeline.{ok, Blob, artifact_id_eq}
use image_genie.Pipeline.Mesh.{load_mesh, export_ply, good}
use image_genie.Pipeline.Convert as Convert
use image_genie.Pipeline.Examples.{tools, chair, start}
use image_genie.Upload.{
  Site, created, refused, read_bytes, over_limit, read_chunks, read_within_limit, unless_empty,
  accepted_type, validated_suffix, upload_model,
}
use image_genie.Upload.Paths.{split_slash, path_name, rfind_dot, suffix_of, stem_of}
use image_genie.Upload.Limit.{read_within_limit_lem}
use image_genie.Upload.Ingested.{Answered, upload_model-Answered, process-upload_model}

suffix_of_upper : suffix_of (codes "meshes/old.chair.STL") ≡ codes ".STL"
unfolding suffix_of path_name split_slash rfind_dot text_beq
suffix_of_upper = refl

no_suffix_of_hidden : suffix_of (codes ".stl") ≡ []
unfolding suffix_of path_name split_slash rfind_dot text_beq
no_suffix_of_hidden = refl

stem_of_dots : stem_of (codes "a/old.chair.stl/.") ≡ codes "old.chair"
unfolding stem_of path_name split_slash rfind_dot text_beq
stem_of_dots = refl

upper_suffix_accepted :
    validated_suffix (some (codes "chair.STL")) ≡ some (codes ".stl", codes "stl")
unfolding validated_suffix accepted_type lower suffix_of path_name split_slash rfind_dot text_beq
upper_suffix_accepted = refl

ply_refused : validated_suffix (some (codes "chair.ply")) ≡ none
unfolding validated_suffix accepted_type lower suffix_of path_name split_slash rfind_dot text_beq
ply_refused = refl

-- Two chunks of two bytes reach a limit of four, and a fifth byte is over it.
exactly_the_limit : read_within_limit 2 4 (1 ∷ 2 ∷ 3 ∷ 4 ∷ []) ≡ read_bytes (1 ∷ 2 ∷ 3 ∷ 4 ∷ [])
unfolding read_within_limit read_chunks
exactly_the_limit = refl

one_over : read_within_limit 2 4 (1 ∷ 2 ∷ 3 ∷ 4 ∷ 5 ∷ []) ≡ over_limit
unfolding read_within_limit read_chunks
one_over = refl

abbrev five_bytes : Blob
five_bytes = 1 ∷ 2 ∷ 3 ∷ 4 ∷ 5 ∷ []

read_within_limit_lem_example :
    read_within_limit 2 4 five_bytes
    ≡ (if ltb 4 (length five_bytes) then over_limit else unless_empty (read_bytes five_bytes))
read_within_limit_lem_example = read_within_limit_lem 2 4 five_bytes (omega arith)

abbrev site : Site
site = record { world = start; upload_limiter = new_limiter }

abbrev chair_name : Option Text
chair_name = some (codes "chair.STL")

-- A file without faces is refused, as one that is empty or too large.
faceless_refused : (upload_model tools 1 chair chair_name (0 ∷ []) 4 100 site).0 ≡ refused 422
unfolding upload_model validated_suffix accepted_type lower suffix_of path_name split_slash
    rfind_dot text_beq read_within_limit read_chunks load_mesh check get put decimal
faceless_refused = refl

empty_refused : (upload_model tools 1 chair chair_name [] 4 100 site).0 ≡ refused 400
unfolding upload_model validated_suffix accepted_type lower suffix_of path_name split_slash
    rfind_dot text_beq read_within_limit read_chunks load_mesh check get put decimal
empty_refused = refl

chair_accepted : (upload_model tools 1 chair chair_name (7 ∷ []) 4 100 site).0 ≡ created chair
unfolding upload_model validated_suffix accepted_type lower suffix_of path_name split_slash
    rfind_dot text_beq read_within_limit read_chunks load_mesh check get put decimal
chair_accepted = refl

upload_model-Answered_example :
    (let (answer, after) = upload_model tools 1 chair chair_name (7 ∷ []) 4 100 site in
      Answered tools chair chair_name (7 ∷ []) 4 answer start after.world)
upload_model-Answered_example = upload_model-Answered tools chair chair_name (7 ∷ []) 4 1 100 site

process-upload_model_example :
    (let after = (upload_model tools 1 chair chair_name (7 ∷ []) 4 100 site).1.world in
      let (result, converted) =
        Convert.process tools (record { uid = chair; variant = none }) after in
      (result ≡ ok (codes "converted"))
      × ((kind : Text × Text) × (mesh : ℕ) × (validated_suffix chair_name ≡ some kind)
          × (load_mesh tools (7 ∷ []) kind.1 ≡ good mesh)
          × (get converted.blobs (converted_key chair default) ≡ some (export_ply tools mesh))))
process-upload_model_example =
    process-upload_model tools chair chair_name (7 ∷ []) 4 1 100 site chair_accepted (get-empty _)
