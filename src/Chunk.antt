-- ===== src/Chunk.antt =====
-- crates/unpack_core/src/chunk.rs, chunk_group.rs, output_filename.rs and the `RenderId` of
-- id_assignment.rs: chunks, the groups that load them together, and their names.
use Prim.Native.String.{String}
use unpack.Prelude.{
  ℕ, Bool, true, Option, none, some, List, [], ◌∷◌, ◌>>=◌, Eq, nat_eq, nat_eqb, nat_eqb_iff,
  push_unique, modify, ◌≡◌, ◌↔◌, ◌&&◌, arith,
}
use unpack.Module.{ModuleHandle}
use unpack.ModuleGraph.{AsyncDependenciesBlockIndex}

abbrev pub ChunkHandle : Type 0
ChunkHandle = ℕ

abbrev pub ChunkGroupHandle : Type 0
ChunkGroupHandle = ℕ

pub data RenderId : Type 0 where
  string : String → RenderId
  number : ℕ → RenderId

unfoldable pub as_string : RenderId → Option String
as_string (RenderId.string value) = some value
as_string (RenderId.number _) = none

unfoldable pub as_number : RenderId → Option ℕ
as_number (RenderId.string _) = none
as_number (RenderId.number value) = some value

pub record AsyncBlockOrigin : Type 0 where
  pub origin : ModuleHandle
  pub block : AsyncDependenciesBlockIndex

abbrev origin_eqb : AsyncBlockOrigin → AsyncBlockOrigin → Bool
origin_eqb a b = nat_eqb a.origin b.origin && nat_eqb a.block b.block

pub origin_eqb_iff : (a b : AsyncBlockOrigin) → (origin_eqb a b ≡ true) ↔ (a ≡ b)
origin_eqb_iff a b = ground (arith, nat_eqb_iff a.origin b.origin, nat_eqb_iff a.block b.block)

instance abbrev pub origin_eq : Eq AsyncBlockOrigin
origin_eq = record { eqb = origin_eqb; eqb_iff = origin_eqb_iff }

pub data ChunkGroupKind : Type 0 where
  entrypoint : String → ChunkGroupKind
  async : ChunkGroupKind

pub record ChunkGroup : Type 0 where
  pub handle : ChunkGroupHandle
  pub kind : ChunkGroupKind
  pub chunks : List ChunkHandle
  pub parents : List ChunkGroupHandle
  pub children : List ChunkGroupHandle
  pub origin : Option AsyncBlockOrigin

unfoldable pub new_group : ChunkGroupHandle → ChunkGroupKind → Option AsyncBlockOrigin → ChunkGroup
new_group handle kind origin = record {
  handle = handle;
  kind = kind;
  chunks = [];
  parents = [];
  children = [];
  origin = origin;
}

unfoldable pub push_chunk : ChunkHandle → ChunkGroup → ChunkGroup
push_chunk chunk g = record g { chunks = push_unique g.chunks chunk }

unfoldable pub add_parent : ChunkGroupHandle → ChunkGroup → ChunkGroup
add_parent parent g = record g { parents = push_unique g.parents parent }

unfoldable pub add_child : ChunkGroupHandle → ChunkGroup → ChunkGroup
add_child child g = record g { children = push_unique g.children child }

pub record Chunk : Type 0 where
  pub handle : ChunkHandle
  pub name : Option String
  pub root_modules : List ModuleHandle
  pub render_id : Option RenderId
  pub filename_override : Option String
  pub groups : List ChunkGroupHandle

unfoldable pub new_chunk : ChunkHandle → Option String → List ModuleHandle → Chunk
new_chunk handle name root_modules = record {
  handle = handle;
  name = name;
  root_modules = root_modules;
  render_id = none;
  filename_override = none;
  groups = [];
}

unfoldable pub add_group : ChunkGroupHandle → Chunk → Chunk
add_group group c = record c { groups = push_unique c.groups group }

unfoldable pub set_filename_override : String → Chunk → Chunk
set_filename_override filename c = record c { filename_override = some filename }

unfoldable pub assign_render_id : RenderId → Chunk → Chunk
assign_render_id render_id c = record c { render_id = some render_id }

-- The loop of `split` over the groups of the chunk that is split; `none` is an index out of range.
unfoldable pub split :
    List ChunkGroupHandle → Chunk → List ChunkGroup → Option (Chunk × List ChunkGroup)
split [] c groups = some (c, groups)
split (group ∷ rest) c groups = do
  pushed ← modify groups group (push_chunk c.handle)
  split rest (add_group group c) pushed
