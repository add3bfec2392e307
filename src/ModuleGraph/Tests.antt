-- ===== src/ModuleGraph/Tests.antt =====
-- A graph of two modules with one connection between them.
use unpack.Prelude.{ℕ, ◌<◌, true, none, some, ◌≡◌, refl, arith, Option, length, some_inj}
use unpack.Dependency.{Dependency}
use unpack.Module.{ModuleHandle, Module, identity_of}
use unpack.ModuleGraph.{
  ModuleGraphStorage, empty_storage, add_module, connect, index_origin, index_location,
  update_connection_module, module_for_dependency,
}
use unpack.ModuleGraph.Indexed.{IsIndexed, IsIndexed-empty}
use unpack.ModuleGraph.Operations.{
  add_module-IsIndexed, connect-IsIndexed, module_for_dependency-connect,
  update_connection_module-IsIndexed,
}

abbrev Graph : Type 0
Graph = ModuleGraphStorage (Module ℕ)

abbrev first_added : Graph
first_added = (add_module empty_storage (identity_of "/a.js") none).0

abbrev both_added : Graph
both_added = (add_module first_added (identity_of "/b.js") (some true)).0

abbrev or_else : Option Graph → Graph → Graph
or_else none g = g
or_else (some g) _ = g

abbrev linked : Graph
linked = or_else (connect both_added (some 0) none (some 0) Dependency.null_dependency 1) both_added

abbrev moved : Graph
moved = or_else (update_connection_module linked 0 0) both_added

first_added-IsIndexed : IsIndexed first_added
first_added-IsIndexed =
    add_module-IsIndexed empty_storage (identity_of "/a.js") none IsIndexed-empty

both_added-IsIndexed : IsIndexed both_added
both_added-IsIndexed =
    add_module-IsIndexed first_added (identity_of "/b.js") (some true) first_added-IsIndexed

linked-returned :
    connect both_added (some 0) none (some 0) Dependency.null_dependency 1 ≡ some linked
unfolding connect index_origin index_location add_module
linked-returned = refl

linked-IsIndexed : IsIndexed linked
linked-IsIndexed =
    connect-IsIndexed both_added (some 0) none (some 0) Dependency.null_dependency 1 linked
      both_added-IsIndexed linked-returned

known : (m : ModuleHandle) → some 0 ≡ some m → m < length both_added.modules
unfolding add_module
known m e = omega (arith, some_inj e)

connect-IsIndexed_example : IsIndexed linked
connect-IsIndexed_example =
    connect-IsIndexed both_added (some 0) none (some 0) Dependency.null_dependency 1 linked
      both_added-IsIndexed linked-returned

in_range : 1 < length both_added.modules
unfolding add_module
in_range = omega arith

module_for_dependency-connect_example : module_for_dependency linked 0 none 0 ≡ some 1
module_for_dependency-connect_example =
    module_for_dependency-connect both_added 0 none 0 Dependency.null_dependency 1 linked
      linked-returned

moved-returned : update_connection_module linked 0 0 ≡ some moved
unfolding update_connection_module connect index_origin index_location add_module
moved-returned = refl

update_connection_module-IsIndexed_example : IsIndexed moved
update_connection_module-IsIndexed_example =
    update_connection_module-IsIndexed linked 0 0 moved linked-IsIndexed moved-returned
