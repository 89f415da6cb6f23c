-- ===== src/Push/Examples.antt =====
-- Deliveries to the stages, and the theorems at concrete inputs.
use image_genie.Base.{
  ℕ, ◌≡◌, refl, sym, Option, none, some, List, [], ◌∷◌, Text, codes, text_beq, get, put, empty,
  text_eq, nat_eq,
}
use image_genie.Pipeline.{
  Job, Blob, download, convert, Failure, exists, put_bytes, publish_next, ◌>>=◌,
}
use image_genie.Pipeline.Mesh.{Tools, Loaded, mesh, other}
use image_genie.Pipeline.Download
use image_genie.Pipeline.Render.Laws.{OneImageAView}
use image_genie.DeadLetters.History.{no_letters, IsWellFormed-no_letters}
use image_genie.Push.{System, pubsub_push, retry}
use image_genie.Push.Reachable.{
  begin, delivered, retried, IsSound, IsSound-Steps, pubsub_push_again,
}

abbrev loads_first : Blob → Option (Loaded ℕ)
loads_first [] = some other
loads_first (n ∷ _) = some (mesh n)

abbrev twelve : List Blob
twelve = [] ∷ [] ∷ [] ∷ [] ∷ [] ∷ [] ∷ [] ∷ [] ∷ [] ∷ [] ∷ [] ∷ [] ∷ []

-- A mesh is its number of faces, and the source answers at once.
abbrev tools : Tools ℕ
tools = record {
  trimesh_load = λ bytes _. loads_first bytes;
  concatenate = λ _. 1;
  face_count = λ n. n;
  export_as = λ _ n. n ∷ [];
  base_colour_size = λ _. none;
  recentre = λ n. n;
  largest_extent = λ n. n;
  divide_scale = λ _ n. n;
  render_views = λ _ _. some twelve;
  sha256 = λ bytes. bytes;
  fetch_attempt = λ _ _. some (7 ∷ []);
}

one_image : OneImageAView tools
one_image m own_material images h = let same : twelve ≡ images = cc in rw (sym same) refl

-- The mirrors are down, and no mesh loads.
abbrev outage : Tools ℕ
outage = record tools { trimesh_load = λ _ _. none; fetch_attempt = λ _ _. none }

one_in_outage : OneImageAView outage
one_in_outage m own_material images h = let same : twelve ≡ images = cc in rw (sym same) refl

abbrev describe : Failure → Text
describe _ = codes "failed"

abbrev job : Job
job = record { uid = codes "c0"; variant = none }

abbrev start : System
start = record {
  world = record { models = empty; artifacts = empty; blobs = empty; published = [] };
  letters = no_letters;
}

start-IsSound : IsSound start
unfolding get exists
start-IsSound = record {
  world = record { raw = λ uid h. absurd (cc h); outputs = λ i h. absurd (cc h) };
  letters = IsWellFormed-no_letters;
}

-- A convert job that comes too early fails, and is retried after the download.
abbrev early : System
early = (pubsub_push outage describe convert job (some 1) 10 start).1

abbrev downloaded : System
downloaded = (pubsub_push tools describe download job none 20 early).1

IsSound-Steps_example : IsSound (retry 1 30 downloaded).1
IsSound-Steps_example = IsSound-Steps ℕ describe start (retry 1 30 downloaded).1 start-IsSound (
    retried
      (delivered (delivered begin outage one_in_outage convert job (some 1) 10) tools one_image
        download job none 20)
      1 30)

first_push :
    pubsub_push tools describe download job none 20 start
    ≡ (204, (pubsub_push tools describe download job none 20 start).1)
unfolding pubsub_push Download.process Download.download Download.fetch_mesh Download.fetch_from
    Download.already_downloaded Download.upsert_model exists put_bytes get put text_beq publish_next
    ◌>>=◌
first_push = refl

abbrev pushed : System
pushed = (pubsub_push tools describe download job none 20 start).1

pubsub_push_again_example :
    ((pubsub_push outage describe download job (some 2) 90 pushed).0 ≡ 204)
    × ((pubsub_push outage describe download job (some 2) 90 pushed).1.world.models
        ≡ pushed.world.models)
    × ((pubsub_push outage describe download job (some 2) 90 pushed).1.world.artifacts
        ≡ pushed.world.artifacts)
    × ((pubsub_push outage describe download job (some 2) 90 pushed).1.world.blobs
        ≡ pushed.world.blobs)
    × ((pubsub_push outage describe download job (some 2) 90 pushed).1.letters ≡ pushed.letters)
pubsub_push_again_example =
    pubsub_push_again describe tools outage download job none (some 2) 20 90 start pushed one_image
      first_push
