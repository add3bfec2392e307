-- ===== src/BuildChunkGraph.antt =====
-- crates/unpack_core/src/build_chunk_graph.rs: which modules an entry or an import needs, which of them
-- are loaded already, and how chunk groups are linked. A panic is `none`.
pub mod Static
pub mod Linking
pub mod Plans
mod Tests
use unpack.Prelude.{
  not, ℕ, zero, suc, Bool, true, false, Option, none, some, List, [], ◌∷◌, ◌++◌, ◌>>=◌, ◌==◌, ◌&&◌,
  length, map, retain, is_some,
}
use unpack.Dependency.{is_static_module_dependency, is_import_dependency}
use unpack.Module.{ModuleHandle}
use unpack.ModuleGraph.{ModuleGraphConnection, ModuleGraphStorage, outgoing_connections, is_active}
use unpack.Worklist.Measure.{unvisited}
use unpack.ModuleMask.{ModuleMask, new_mask, mask_insert}

-- The `if` in the loop of `collect_static_reachable`.
unfoldable pub is_static_connection : ModuleGraphConnection → Bool
is_static_connection c =
    not (is_some c.origin_block) && (is_static_module_dependency c.dependency && is_active c)

-- What that loop pushes for the connections of a module.
unfoldable pub static_targets : List ModuleGraphConnection → List ModuleHandle
unfolding is_static_connection
static_targets cs = map (λ c. c.module_handle) (retain is_static_connection cs)

module _ {M : Type 0} where
  -- The `while` of `collect_static_reachable`. `none` is a panic, or that the fuel ran out.
  unfoldable pub static_loop :
      ℕ
      → ModuleGraphStorage M
      → List ModuleHandle
      → ModuleMask
      → List ModuleHandle
      → Option (List ModuleHandle)
  unfolding mask_insert outgoing_connections static_targets
  static_loop zero g queue visited modules = none
  static_loop (suc fuel) g [] visited modules = some modules
  static_loop (suc fuel) g (m ∷ queue) visited modules = mask_insert visited m >>= λ inserted.
      elim inserted.1 [
        | false ↦ static_loop fuel g queue inserted.0 modules
        | true ↦ outgoing_connections g m >>= λ cs.
            static_loop fuel g (queue ++ static_targets cs) inserted.0 (modules ++ m ∷ [])
      ]

  -- The modules that a module needs statically.
  unfoldable pub static_next : ModuleGraphStorage M → ModuleHandle → List ModuleHandle
  unfolding outgoing_connections static_targets
  static_next g m = elim (outgoing_connections g m) [ none ↦ [] | some cs ↦ static_targets cs ]

  -- A round for every static connection, one for the start and one for the end.
  abbrev pub static_fuel : ModuleGraphStorage M → ℕ
  static_fuel g = suc (suc (unvisited (static_next g) (length g.modules) []))

  unfoldable pub collect_static_reachable :
      ModuleGraphStorage M → ModuleHandle → Option (List ModuleHandle)
  unfolding static_loop
  collect_static_reachable g start =
      static_loop (static_fuel g) g (start ∷ []) (new_mask (length g.modules)) []
