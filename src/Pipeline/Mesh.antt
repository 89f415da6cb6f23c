-- ===== src/Pipeline/Mesh.antt =====
-- workers/mesh.py, and what the workers call of trimesh, pyrender, objaverse and hashlib.
use image_genie.Base.{
  ℕ, Bool, Option, none, some, List, [], ◌∷◌, nat_beq, if◌then◌else◌, Text, codes,
}
use image_genie.Pipeline.{
  Blob, Failure, no_geometry, no_faces, unreadable_mesh, degenerate_mesh, Action, pure, raise,
}

-- What `trimesh.load` may return.
pub data Loaded (Mesh : Type 0) : Type 0 where
  scene : List Mesh → Loaded Mesh
  mesh : Mesh → Loaded Mesh
  other : Loaded Mesh

-- The libraries' answers in the course of one delivery; `none` is an exception. A fetch, a load or a
-- render that fails at one delivery may succeed at the next, which has another value of this record.
-- Extents are numbers of some unit, and so is a mesh's scale.
pub record Tools (Mesh : Type 0) : Type 0 where
  pub trimesh_load : Blob → Text → Option (Loaded Mesh)
  pub concatenate : List Mesh → Mesh
  pub face_count : Mesh → ℕ
  pub export_as : Text → Mesh → Blob
  pub base_colour_size : Mesh → Option (ℕ × ℕ)
  pub recentre : Mesh → Mesh
  pub largest_extent : Mesh → ℕ
  pub divide_scale : ℕ → Mesh → Mesh
  pub render_views : Mesh → Bool → Option (List Blob)
  pub sha256 : Blob → Text
  pub fetch_attempt : Text → ℕ → Option Blob

pub data Parsed (Mesh : Type 0) : Type 0 where
  good : Mesh → Parsed Mesh
  bad : Failure → Parsed Mesh

abbrev pub parsed : {Mesh : Type 0} → Parsed Mesh → Action Mesh
parsed (good m) = pure m
parsed (bad e) = raise e

abbrev pub max_texture_dimension : ℕ
max_texture_dimension = 16384

module _ {Mesh : Type 0} (tools : Tools Mesh) where
  with_faces : Mesh → Parsed Mesh
  with_faces m = if nat_beq (tools.face_count m) 0 then bad no_faces else good m

  from_loaded : Option (Loaded Mesh) → Parsed Mesh
  unfolding with_faces
  from_loaded none = bad unreadable_mesh
  from_loaded (some (scene [])) = bad no_geometry
  from_loaded (some (scene (g ∷ gs))) = with_faces (tools.concatenate (g ∷ gs))
  from_loaded (some (mesh m)) = with_faces m
  from_loaded (some other) = bad no_faces

  unfoldable pub load_mesh : Blob → Text → Parsed Mesh
  unfolding from_loaded
  load_mesh bytes file_type = from_loaded (tools.trimesh_load bytes file_type)

  unfoldable pub export_ply : Mesh → Blob
  export_ply = tools.export_as (codes "ply")

  unfoldable pub export_glb : Mesh → Blob
  export_glb = tools.export_as (codes "glb")

  unfoldable pub texture_atlas_size : Mesh → ℕ × ℕ
  texture_atlas_size m = elim (tools.base_colour_size m) [ none ↦ (0, 0) | some size ↦ size ]

  -- `normalize_mesh` of workers/normalize.py
  unfoldable pub normalize_mesh : Mesh → Parsed Mesh
  normalize_mesh m =
      let centred = tools.recentre m in
      if nat_beq (tools.largest_extent centred) 0
      then bad degenerate_mesh
      else good (tools.divide_scale (tools.largest_extent centred) centred)
