-- ===== src/ChunkGraph.antt =====
-- crates/unpack_core/src/chunk_graph.rs: which module goes into which chunk, which chunk into which
-- group, which group loads which, and what runtime code the chunks need. A write through an index
-- that is out of range panics in the source, and is `none` here.
pub mod Consistent
pub mod Operations
pub mod Modules
pub mod Split
mod Tests
use Prim.Native.String.{String}
use unpack.Prelude.{
  ℕ, zero, suc, Bool, true, false, not, Option, none, some, List, [], ◌∷◌, ◌++◌, ◌>>=◌, ◌==◌,
  nat_eq, leb, length, contains, push_unique, retain, modify, update, get_elem?, get_or,
  resize_with, Map, get, insert, map, map_option, is_some, if◌then◌else◌,
}
use unpack.Module.{ModuleHandle}
use unpack.Chunk.{
  Chunk, ChunkHandle, ChunkGroup, ChunkGroupHandle, ChunkGroupKind, RenderId, AsyncBlockOrigin,
  origin_eq, new_chunk, new_group, add_group, push_chunk, add_parent, add_child,
  set_filename_override, assign_render_id, split,
}
use unpack.Runtime.{
  RuntimeRequirements, RuntimeModule, default_requirements, extend,
  entry_startup_runtime_requirements, resolve_runtime_modules,
}

-- optimize/concatenated_module.rs
pub record ConcatenatedModule : Type 0 where
  pub root_module : ModuleHandle
  pub modules : List ModuleHandle

unfoldable pub inner_modules : ConcatenatedModule → List ModuleHandle
inner_modules m = retain (λ x. not (x == m.root_module)) m.modules

pub record ChunkGraph : Type 0 where
  pub chunks : List Chunk
  pub chunk_groups : List ChunkGroup
  pub entrypoints : List ChunkGroupHandle
  pub chunk_modules : List (List ModuleHandle)
  pub module_chunks : List (List ChunkHandle)
  pub module_render_ids : List (Option RenderId)
  pub module_hashes : List (Option ℕ)
  pub block_chunk_groups : Map AsyncBlockOrigin ChunkGroupHandle
  pub runtime_chunk_group_children : List (List ChunkGroupHandle)
  pub module_runtime_requirements : List RuntimeRequirements
  pub chunk_runtime_requirements : List RuntimeRequirements
  pub runtime_tree_requirements : Map ChunkGroupHandle RuntimeRequirements
  pub chunk_runtime_modules : List (List RuntimeModule)
  pub concatenated_modules : Map ModuleHandle ConcatenatedModule

abbrev pub default_graph : ChunkGraph
default_graph = record {
  chunks = [];
  chunk_groups = [];
  entrypoints = [];
  chunk_modules = [];
  module_chunks = [];
  module_render_ids = [];
  module_hashes = [];
  block_chunk_groups = [];
  runtime_chunk_group_children = [];
  module_runtime_requirements = [];
  chunk_runtime_requirements = [];
  runtime_tree_requirements = [];
  chunk_runtime_modules = [];
  concatenated_modules = [];
}

unfoldable pub add_chunk : ChunkGraph → Option String → List ModuleHandle → ChunkGraph × ChunkHandle
add_chunk g name root_modules =
    let handle = length g.chunks in
    (
      record g {
        chunks = g.chunks ++ new_chunk handle name root_modules ∷ [];
        chunk_modules = g.chunk_modules ++ [] ∷ [];
        chunk_runtime_requirements = g.chunk_runtime_requirements ++ default_requirements ∷ [];
        chunk_runtime_modules = g.chunk_runtime_modules ++ [] ∷ [];
      },
      handle,
    )

unfoldable pub add_chunk_group :
    ChunkGraph → ChunkGroupKind → Option AsyncBlockOrigin → ChunkGraph × ChunkGroupHandle
add_chunk_group g kind origin =
    let handle = length g.chunk_groups in
    (
      record g {
        chunk_groups = g.chunk_groups ++ new_group handle kind origin ∷ [];
        runtime_chunk_group_children = g.runtime_chunk_group_children ++ [] ∷ [];
      },
      handle,
    )

unfoldable pub connect_chunk_and_group :
    ChunkGraph → ChunkHandle → ChunkGroupHandle → Option ChunkGraph
connect_chunk_and_group g chunk group = do
  chunks ← modify g.chunks chunk (add_group group)
  groups ← modify g.chunk_groups group (push_chunk chunk)
  some (record g { chunks = chunks; chunk_groups = groups })

unfoldable pub connect_runtime_chunk_groups :
    ChunkGraph → ChunkGroupHandle → ChunkGroupHandle → Option ChunkGraph
connect_runtime_chunk_groups g parent child = do
  children ← modify g.runtime_chunk_group_children parent (λ cs. push_unique cs child)
  some (record g { runtime_chunk_group_children = children })

unfoldable pub connect_chunk_groups :
    ChunkGraph → ChunkGroupHandle → ChunkGroupHandle → Option ChunkGraph
unfolding connect_runtime_chunk_groups
connect_chunk_groups g parent child = do
  with_child ← modify g.chunk_groups parent (add_child child)
  with_parent ← modify with_child child (add_parent parent)
  connect_runtime_chunk_groups (record g { chunk_groups = with_parent }) parent child

unfoldable pub add_entrypoint : ChunkGraph → ChunkGroupHandle → ChunkGraph
add_entrypoint g entrypoint = record g { entrypoints = g.entrypoints ++ entrypoint ∷ [] }

unfoldable pub connect_block_and_chunk_group :
    ChunkGraph → AsyncBlockOrigin → ChunkGroupHandle → ChunkGraph
connect_block_and_chunk_group g origin group = record g {
  block_chunk_groups = insert origin group g.block_chunk_groups;
}

-- The `original.split(&mut self.chunks[new_chunk], &mut self.chunk_groups)` of both callers.
unfoldable pub split_into : ChunkGraph → Chunk → ChunkHandle → Option ChunkGraph
split_into g original target = do
  c ← get_elem? g.chunks target
  (c', groups) ← split original.groups c g.chunk_groups
  chunks ← modify g.chunks target (λ _. c')
  some (record g { chunks = chunks; chunk_groups = groups })

-- The outer `none` is a panic, the inner one the `None` for a chunk that is not there.
unfoldable pub split_chunk :
    ChunkGraph → ChunkHandle → String → String → Option (ChunkGraph × Option ChunkHandle)
unfolding add_chunk split_into
split_chunk g chunk render_id filename = elim (get_elem? g.chunks chunk) [
  | none ↦ some (g, none)
  | some original ↦
      let (added, target) = add_chunk g none [] in
      do
        chunks ←
            modify added.chunks target
              (λ c. set_filename_override filename (assign_render_id (RenderId.string render_id) c))
        result ← split_into (record added { chunks = chunks }) original target
        some (result, some target)
]

-- The loop of `add_split_chunk` over the source chunks.
unfoldable pub split_all : ChunkGraph → List ChunkHandle → ChunkHandle → Option ChunkGraph
unfolding split_into
split_all g [] target = some g
split_all g (source ∷ rest) target = do
  original ← get_elem? g.chunks source
  next ← split_into g original target
  split_all next rest target

unfoldable pub add_split_chunk :
    ChunkGraph
    → List ChunkHandle
    → Option String
    → List ModuleHandle
    → Option (ChunkGraph × ChunkHandle)
unfolding add_chunk split_all
add_split_chunk g source_chunks name root_modules =
    let (added, target) = add_chunk g name root_modules in
    do result ← split_all added source_chunks target; some (result, target)

-- The `if self.module_chunks.len() <= module.index()` of `connect_chunk_and_module`.
unfoldable pub make_room : ChunkGraph → ModuleHandle → ChunkGraph
make_room g module_handle =
    if leb (length g.module_chunks) module_handle
    then record g {
      module_chunks = resize_with g.module_chunks (suc module_handle) [];
      module_render_ids = resize_with g.module_render_ids (suc module_handle) none;
      module_hashes = resize_with g.module_hashes (suc module_handle) none;
      module_runtime_requirements =
          resize_with g.module_runtime_requirements (suc module_handle) default_requirements;
    }
    else g

unfoldable pub connect_chunk_and_module :
    ChunkGraph → ChunkHandle → ModuleHandle → Option ChunkGraph
unfolding make_room
connect_chunk_and_module g chunk module_handle = do
  let r = make_room g module_handle
  modules ← modify r.chunk_modules chunk (λ ms. push_unique ms module_handle)
  chunks ← modify r.module_chunks module_handle (λ cs. push_unique cs chunk)
  some (record r { chunk_modules = modules; module_chunks = chunks })

unfoldable pub disconnect_chunk_and_module :
    ChunkGraph → ChunkHandle → ModuleHandle → Option ChunkGraph
disconnect_chunk_and_module g chunk module_handle = do
  modules ← modify g.chunk_modules chunk (retain (λ connected. not (connected == module_handle)))
  some (record g {
    chunk_modules = modules;
    module_chunks =
        update g.module_chunks module_handle (retain (λ connected. not (connected == chunk)));
  })

unfoldable pub module_chunks_of : ChunkGraph → ModuleHandle → List ChunkHandle
module_chunks_of g m = get_or g.module_chunks m []

unfoldable pub chunk_modules_of : ChunkGraph → ChunkHandle → Option (List ModuleHandle)
chunk_modules_of g c = get_elem? g.chunk_modules c

-- The inner loop of `add_concatenated_module`.
unfoldable pub disconnect_from_all :
    ChunkGraph → List ChunkHandle → ModuleHandle → Option ChunkGraph
unfolding disconnect_chunk_and_module
disconnect_from_all g [] inner = some g
disconnect_from_all g (chunk ∷ rest) inner = do
  next ← disconnect_chunk_and_module g chunk inner
  disconnect_from_all next rest inner

unfoldable pub disconnect_inner :
    ChunkGraph → List ChunkHandle → List ModuleHandle → Option ChunkGraph
unfolding disconnect_from_all
disconnect_inner g chunks [] = some g
disconnect_inner g chunks (inner ∷ rest) = do
  next ← disconnect_from_all g chunks inner
  disconnect_inner next chunks rest

unfoldable pub add_concatenated_module : ChunkGraph → ConcatenatedModule → Option ChunkGraph
unfolding disconnect_inner inner_modules module_chunks_of
add_concatenated_module g m = do
  next ← disconnect_inner g (module_chunks_of g m.root_module) (inner_modules m)
  if is_some (get m.root_module next.concatenated_modules)
      then none
      else some
          (record next { concatenated_modules = insert m.root_module m next.concatenated_modules })

unfoldable pub module_render_id : ChunkGraph → ModuleHandle → Option RenderId
module_render_id g m = get_or g.module_render_ids m none

unfoldable pub set_module_render_id : ChunkGraph → ModuleHandle → RenderId → Option ChunkGraph
set_module_render_id g m render_id = do
  let ids =
      if leb (length g.module_render_ids) m
      then resize_with g.module_render_ids (suc m) none
      else g.module_render_ids
  written ← modify ids m (λ _. some render_id)
  some (record g { module_render_ids = written })

unfoldable pub set_module_hash : ChunkGraph → ModuleHandle → ℕ → Option ChunkGraph
set_module_hash g m module_hash = do
  let hashes =
      if leb (length g.module_hashes) m
      then resize_with g.module_hashes (suc m) none
      else g.module_hashes
  written ← modify hashes m (λ _. some module_hash)
  some (record g { module_hashes = written })

unfoldable pub set_chunk_render_id : ChunkGraph → ChunkHandle → RenderId → Option ChunkGraph
set_chunk_render_id g chunk render_id = do
  chunks ← modify g.chunks chunk (assign_render_id render_id)
  some (record g { chunks = chunks })

unfoldable pub block_chunk_group : ChunkGraph → AsyncBlockOrigin → Option ChunkGroupHandle
block_chunk_group g origin = get origin g.block_chunk_groups
