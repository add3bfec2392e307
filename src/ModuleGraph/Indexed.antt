-- ===== src/ModuleGraph/Indexed.antt =====
-- The invariant of the module graph: `outgoing` and `incoming` list exactly the connections that leave
-- and enter a module; at a place of a module `outgoing_by_location` has a connection that stands there,
-- where there is one (of several, one).
use unpack.Prelude.{
  ◌<◌, Bool, true, false, none, some, List, [], ◌∷◌, ◌++◌, ◌≡◌, refl, arith, ◌==◌, ◌&&◌, nat_eq,
  option_eq, length, contains, modify, get_elem?, get_or, get, if◌then◌else◌, get_elem?-push,
  get_elem?-modify, is_some,
}
use unpack.Module.{ModuleHandle}
use unpack.ModuleGraph.{
  ModuleGraphConnection, ModuleGraphStorage, DependencyLocation, location_eq,
  ModuleGraphConnectionHandle, empty_storage,
}

abbrev pub connection_is :
    (ModuleGraphConnection → Bool) → List ModuleGraphConnection → ModuleGraphConnectionHandle → Bool
connection_is p cs h = elim (get_elem? cs h) [ none ↦ false | some c ↦ p c ]

abbrev pub comes_from : ModuleHandle → ModuleGraphConnection → Bool
comes_from m c = c.origin_module == some m

abbrev pub leads_to : ModuleHandle → ModuleGraphConnection → Bool
leads_to m c = c.module_handle == m

abbrev pub stands_at : ModuleHandle → DependencyLocation → ModuleGraphConnection → Bool
stands_at m l c =
    c.origin_module == some m
    && (c.origin_block == l.block && c.origin_dependency_index == some l.dependency_index)

pub record IsIndexed {M : Type 0} (s : ModuleGraphStorage M) : Type 0 where
  pub outgoing_size : length s.outgoing ≡ length s.modules
  pub incoming_size : length s.incoming ≡ length s.modules
  pub locations_size : length s.outgoing_by_location ≡ length s.modules
  pub handles :
      (h : ModuleGraphConnectionHandle) (c : ModuleGraphConnection)
      → get_elem? s.connections h ≡ some c
      → c.handle ≡ h
  pub targets :
      (h : ModuleGraphConnectionHandle) (c : ModuleGraphConnection)
      → get_elem? s.connections h ≡ some c
      → c.module_handle < length s.modules
  pub outgoing_exact :
      (m : ModuleHandle) (h : ModuleGraphConnectionHandle)
      → contains (get_or s.outgoing m []) h ≡ connection_is (comes_from m) s.connections h
  pub incoming_exact :
      (m : ModuleHandle) (h : ModuleGraphConnectionHandle)
      → contains (get_or s.incoming m []) h ≡ connection_is (leads_to m) s.connections h
  pub located :
      (m : ModuleHandle) (l : DependencyLocation) (h : ModuleGraphConnectionHandle)
      → get l (get_or s.outgoing_by_location m []) ≡ some h
      → connection_is (stands_at m l) s.connections h ≡ true
  pub placed :
      (m : ModuleHandle) (l : DependencyLocation) (h : ModuleGraphConnectionHandle)
      → connection_is (stands_at m l) s.connections h ≡ true
      → is_some (get l (get_or s.outgoing_by_location m [])) ≡ true

pub IsIndexed-empty : {M : Type 0} → IsIndexed (empty_storage {M = M})
IsIndexed-empty = record {
  outgoing_size = refl;
  incoming_size = refl;
  locations_size = refl;
  handles = λ h c e. cc;
  targets = λ h c e. cc;
  outgoing_exact = λ m h. refl;
  incoming_exact = λ m h. refl;
  located = λ m l h e. cc;
  placed = λ m l h e. cc;
}

pub connection_is-push :
    (p : ModuleGraphConnection → Bool) (cs : List ModuleGraphConnection) (c : ModuleGraphConnection)
    (h : ModuleGraphConnectionHandle)
    → connection_is p (cs ++ c ∷ []) h ≡ (if length cs == h then p c else connection_is p cs h)
connection_is-push p cs c h = ground (arith, get_elem?-push cs c h)

pub connection_is-modify :
    (p : ModuleGraphConnection → Bool) (cs : List ModuleGraphConnection)
    (i : ModuleGraphConnectionHandle) (f : ModuleGraphConnection → ModuleGraphConnection)
    (ds : List ModuleGraphConnection) (h : ModuleGraphConnectionHandle)
    → modify cs i f ≡ some ds
    → connection_is p ds h
      ≡ (if i == h then connection_is (λ c. p (f c)) cs h else connection_is p cs h)
connection_is-modify p cs i f ds h e = ground (arith, get_elem?-modify cs i f ds h e)
