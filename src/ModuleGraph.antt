-- ===== src/ModuleGraph.antt =====
-- crates/unpack_core/src/module_graph.rs, module_graph_connection.rs and index_vec.rs: modules, the
-- connections between them, and three indices over the connections. `IndexVec` is a list, and a
-- read or write through `[handle]` is `none` where the source panics.
pub mod Indexed
pub mod Operations
mod Tests
use Prim.Native.String.{String}
use unpack.Prelude.{
  ℕ, Bool, true, false, not, Option, none, some, List, [], ◌∷◌, ◌++◌, ◌≡◌, ◌↔◌, arith, Eq, ◌==◌,
  ◌&&◌, nat_eq, option_eq, option_eqb, option_eqb_iff, nat_eqb, nat_eqb_iff, length, modify,
  get_elem?, retain, Map, get, insert, map, ◌>>=◌, if◌then◌else◌,
}
use unpack.Dependency.{Dependency}
use unpack.Module.{
  ModuleHandle, ModuleIdentity, Module, BuiltModuleContent, new_module,
  set_factory_side_effect_free, finish_build_content, fail_build,
}

abbrev pub ModuleGraphConnectionHandle : Type 0
ModuleGraphConnectionHandle = ℕ

abbrev pub DependencyIndex : Type 0
DependencyIndex = ℕ

abbrev pub AsyncDependenciesBlockIndex : Type 0
AsyncDependenciesBlockIndex = ℕ

pub data ModuleGraphConnectionState : Type 0 where
  active inactive circular : ModuleGraphConnectionState

pub record ModuleGraphConnection : Type 0 where
  pub handle : ModuleGraphConnectionHandle
  pub origin_module : Option ModuleHandle
  pub origin_block : Option AsyncDependenciesBlockIndex
  pub origin_dependency_index : Option DependencyIndex
  pub dependency : Dependency
  pub resolved_module : ModuleHandle
  pub module_handle : ModuleHandle
  pub state : ModuleGraphConnectionState

-- `self.state != Inactive`
unfoldable pub is_active : ModuleGraphConnection → Bool
is_active c = elim c.state [ ModuleGraphConnectionState.inactive ↦ false | _ ↦ true ]

unfoldable pub set_state :
    ModuleGraphConnection → ModuleGraphConnectionState → ModuleGraphConnection
set_state c state = record c { state = state }

pub record DependencyLocation : Type 0 where
  pub block : Option AsyncDependenciesBlockIndex
  pub dependency_index : DependencyIndex

abbrev location_eqb : DependencyLocation → DependencyLocation → Bool
location_eqb a b = option_eqb a.block b.block && nat_eqb a.dependency_index b.dependency_index

pub location_eqb_iff : (a b : DependencyLocation) → (location_eqb a b ≡ true) ↔ (a ≡ b)
location_eqb_iff a b =
    ground
      (arith, option_eqb_iff a.block b.block, nat_eqb_iff a.dependency_index b.dependency_index)

instance abbrev pub location_eq : Eq DependencyLocation
location_eq = record { eqb = location_eqb; eqb_iff = location_eqb_iff }

-- `ModuleGraphStorage<BuildingModule>` and `ModuleGraphStorage<Module>`
pub record ModuleGraphStorage (M : Type 0) : Type 0 where
  pub modules : List M
  pub connections : List ModuleGraphConnection
  pub outgoing : List (List ModuleGraphConnectionHandle)
  pub incoming : List (List ModuleGraphConnectionHandle)
  pub outgoing_by_location : List (Map DependencyLocation ModuleGraphConnectionHandle)

abbrev pub empty_storage : {M : Type 0} → ModuleGraphStorage M
empty_storage = record {
  modules = [];
  connections = [];
  outgoing = [];
  incoming = [];
  outgoing_by_location = [];
}

module _ {BuildError : Type 0} where
  unfoldable pub add_module :
      ModuleGraphStorage (Module BuildError)
      → ModuleIdentity
      → Option Bool
      → ModuleGraphStorage (Module BuildError) × ModuleHandle
  add_module s identity factory_side_effect_free =
      let handle = length s.modules in
      let m = set_factory_side_effect_free (new_module handle identity) factory_side_effect_free in
      (
        record s {
          modules = s.modules ++ m ∷ [];
          outgoing = s.outgoing ++ [] ∷ [];
          incoming = s.incoming ++ [] ∷ [];
          outgoing_by_location = s.outgoing_by_location ++ [] ∷ [];
        },
        handle,
      )

  -- `Err(Error::MissingModule(handle))` is `none`.
  unfoldable pub finish_module_build :
      ModuleGraphStorage (Module BuildError)
      → ModuleHandle
      → BuiltModuleContent
      → Option (ModuleGraphStorage (Module BuildError))
  finish_module_build s handle content = do
    modules ← modify s.modules handle (λ m. finish_build_content m content)
    some (record s { modules = modules })

  unfoldable pub fail_module :
      ModuleGraphStorage (Module BuildError)
      → ModuleHandle
      → BuildError
      → String
      → Option (ModuleGraphStorage (Module BuildError))
  fail_module s handle error source = do
    modules ← modify s.modules handle (λ m. fail_build m error source)
    some (record s { modules = modules })

module _ {M : Type 0} where
  -- The `if let Some(dependency_index)` of `connect`.
  unfoldable pub index_location :
      ModuleGraphStorage M
      → ModuleHandle
      → Option AsyncDependenciesBlockIndex
      → Option DependencyIndex
      → ModuleGraphConnectionHandle
      → Option (ModuleGraphStorage M)
  index_location s origin block none handle = some s
  index_location s origin block (some index) handle = do
    locations ←
        modify s.outgoing_by_location origin
          (insert (record { block = block; dependency_index = index }) handle)
    some (record s { outgoing_by_location = locations })

  -- The `if let Some(origin_module)` of `connect`.
  unfoldable pub index_origin :
      ModuleGraphStorage M
      → Option ModuleHandle
      → Option AsyncDependenciesBlockIndex
      → Option DependencyIndex
      → ModuleGraphConnectionHandle
      → Option (ModuleGraphStorage M)
  unfolding index_location
  index_origin s none block index handle = some s
  index_origin s (some origin) block index handle = do
    outgoing ← modify s.outgoing origin (λ hs. hs ++ handle ∷ [])
    index_location (record s { outgoing = outgoing }) origin block index handle

  unfoldable pub connect :
      ModuleGraphStorage M
      → Option ModuleHandle
      → Option AsyncDependenciesBlockIndex
      → Option DependencyIndex
      → Dependency
      → ModuleHandle
      → Option (ModuleGraphStorage M)
  unfolding index_origin
  connect s origin_module origin_block origin_dependency_index dependency target = do
    let handle = length s.connections
    let connection : ModuleGraphConnection = record {
      handle = handle;
      origin_module = origin_module;
      origin_block = origin_block;
      origin_dependency_index = origin_dependency_index;
      dependency = dependency;
      resolved_module = target;
      module_handle = target;
      state = ModuleGraphConnectionState.active;
    }
    t ←
        index_origin (record s { connections = s.connections ++ connection ∷ [] }) origin_module
          origin_block origin_dependency_index handle
    incoming ← modify t.incoming target (λ hs. hs ++ handle ∷ [])
    some (record t { incoming = incoming })

  unfoldable pub update_connection_module :
      ModuleGraphStorage M
      → ModuleGraphConnectionHandle
      → ModuleHandle
      → Option (ModuleGraphStorage M)
  update_connection_module s handle target = do
    connection ← get_elem? s.connections handle
    if connection.module_handle == target then some s else do
      left ←
          modify s.incoming connection.module_handle
            (retain (λ candidate. not (candidate == handle)))
      joined ← modify left target (λ hs. hs ++ handle ∷ [])
      connections ← modify s.connections handle (λ c. record c { module_handle = target })
      some (record s { incoming = joined; connections = connections })

  -- `self.storage.outgoing[module].iter().map(|h| &self.storage.connections[h.index()])`
  unfoldable pub resolve_handles :
      ModuleGraphStorage M → List ModuleGraphConnectionHandle → Option (List ModuleGraphConnection)
  resolve_handles s [] = some []
  resolve_handles s (h ∷ hs) = do
    c ← get_elem? s.connections h
    rest ← resolve_handles s hs
    some (c ∷ rest)

  unfoldable pub outgoing_connections :
      ModuleGraphStorage M → ModuleHandle → Option (List ModuleGraphConnection)
  unfolding resolve_handles
  outgoing_connections s origin = do hs ← get_elem? s.outgoing origin; resolve_handles s hs

  unfoldable pub incoming_connections :
      ModuleGraphStorage M → ModuleHandle → Option (List ModuleGraphConnection)
  unfolding resolve_handles
  incoming_connections s target = do hs ← get_elem? s.incoming target; resolve_handles s hs

  unfoldable pub module_for_dependency :
      ModuleGraphStorage M
      → ModuleHandle
      → Option AsyncDependenciesBlockIndex
      → DependencyIndex
      → Option ModuleHandle
  module_for_dependency s origin_module origin_block dependency_index = do
    locations ← get_elem? s.outgoing_by_location origin_module
    h ← get (record { block = origin_block; dependency_index = dependency_index }) locations
    c ← get_elem? s.connections h
    some c.module_handle
