-- ===== src/ModuleGraph/Operations.antt =====
-- Every operation of the module graph keeps the indices in step.
use unpack.Prelude.{
  ℕ, ◌<◌, Bool, true, false, not, Option, none, some, List, [], ◌∷◌, ◌++◌, ◌≡◌, refl, ap, arith,
  ◌==◌, ◌&&◌, inl, inr, nat_eq, option_eq, option_eqb_iff, nat_eqb_iff, Bool-cases, length, modify,
  get_elem?, get_or, get, insert, if◌then◌else◌, get_elem?-push, get_elem?-modify, get_or-modify,
  get_or-push, length-modify, length-append, modify_in_range, modify_total, get-insert,
  contains-push, contains-retain, retain, >>=-eq-some, get_elem?-ge, is_some, some_inj,
  get_or-get_elem?, subst,
}
use unpack.Dependency.{Dependency}
use unpack.Module.{ModuleHandle, ModuleIdentity, Module}
use unpack.ModuleGraph.{
  ModuleGraphConnection, ModuleGraphStorage, DependencyLocation, location_eq,
  ModuleGraphConnectionHandle, ModuleGraphConnectionState, DependencyIndex,
  AsyncDependenciesBlockIndex, add_module, index_location, index_origin, connect,
  update_connection_module, module_for_dependency,
}
use unpack.ModuleGraph.Indexed.{
  IsIndexed, comes_from, leads_to, stands_at, connection_is-push, connection_is-modify,
}

-- Adding a module gives it the next handle and keeps the graph well indexed.
pub add_module-IsIndexed :
    {BuildError : Type 0} (s : ModuleGraphStorage (Module BuildError)) (identity : ModuleIdentity)
    (free : Option Bool)
    → IsIndexed s
    → IsIndexed (add_module s identity free).0
unfolding add_module
add_module-IsIndexed s identity free h = record {
  outgoing_size =
      omega (arith, length-append s.outgoing ([] ∷ []), length-append s.modules (_ ∷ []));
  incoming_size =
      omega (arith, length-append s.incoming ([] ∷ []), length-append s.modules (_ ∷ []));
  locations_size =
      omega
        (arith, length-append s.outgoing_by_location ([] ∷ []), length-append s.modules (_ ∷ []));
  handles = h.handles;
  targets = λ i c e. omega (arith, length-append s.modules (_ ∷ []), h.targets i c e);
  outgoing_exact = λ m i. ground (arith, get_or-push s.outgoing [] m, h.outgoing_exact m i);
  incoming_exact = λ m i. ground (arith, get_or-push s.incoming [] m, h.incoming_exact m i);
  located = λ m l i e. h.located m l i (ground (arith, get_or-push s.outgoing_by_location [] m));
  placed = λ m l i e. ground (arith, get_or-push s.outgoing_by_location [] m, h.placed m l i);
}

module _ {M : Type 0} where
  -- What a call that returns has done to the indices by origin.
  record Originated (s t : ModuleGraphStorage M) (origin : Option ModuleHandle)
      (block : Option AsyncDependenciesBlockIndex) (index : Option DependencyIndex)
      (handle : ModuleGraphConnectionHandle) : Type 0 where
    modules : t.modules ≡ s.modules
    connections : t.connections ≡ s.connections
    incoming : t.incoming ≡ s.incoming
    outgoing_size : length t.outgoing ≡ length s.outgoing
    locations_size : length t.outgoing_by_location ≡ length s.outgoing_by_location
    outgoing_at :
        (m : ModuleHandle)
        → get_or t.outgoing m [] ≡ (
            if origin == some m
            then get_or s.outgoing m [] ++ handle ∷ []
            else get_or s.outgoing m [])
    location_at :
        (m : ModuleHandle) (l : DependencyLocation)
        → get l (get_or t.outgoing_by_location m []) ≡ (
            if origin == some m && (block == l.block && index == some l.dependency_index)
            then some handle
            else get l (get_or s.outgoing_by_location m []))

  index_location_lem :
      (s : ModuleGraphStorage M) (origin : ModuleHandle)
      (block : Option AsyncDependenciesBlockIndex) (index : Option DependencyIndex)
      (handle : ModuleGraphConnectionHandle) (outgoing : List (List ModuleGraphConnectionHandle))
      (t : ModuleGraphStorage M)
      → modify s.outgoing origin (λ hs. hs ++ handle ∷ []) ≡ some outgoing
      → index_location (record s { outgoing = outgoing }) origin block index handle ≡ some t
      → Originated s t (some origin) block index handle
  unfolding index_location
  index_location_lem s origin block none handle outgoing t pushed e = record {
    modules = ground arith;
    connections = ground arith;
    incoming = ground arith;
    outgoing_size = ground (arith, length-modify s.outgoing origin _ outgoing pushed);
    locations_size = ground arith;
    outgoing_at = λ m. ground (arith, get_or-modify s.outgoing origin _ outgoing m [] pushed);
    location_at = λ m l. ground arith;
  }
  index_location_lem s origin block (some index) handle outgoing t pushed e =
      let l' : DependencyLocation = record { block = block; dependency_index = index } in
      let (ls, written, result) =
        >>=-eq-some (modify s.outgoing_by_location origin (insert l' handle)) _ e in
      record {
        modules = ground arith;
        connections = ground arith;
        incoming = ground arith;
        outgoing_size = ground (arith, length-modify s.outgoing origin _ outgoing pushed);
        locations_size = ground (arith, length-modify s.outgoing_by_location origin _ ls written);
        outgoing_at = λ m. ground (arith, get_or-modify s.outgoing origin _ outgoing m [] pushed);
        location_at = λ m l. ground (
          arith,
          get_or-modify s.outgoing_by_location origin _ ls m [] written,
          get-insert l' l handle (get_or s.outgoing_by_location m []),
        );
      }

  index_origin_lem :
      (s : ModuleGraphStorage M) (origin : Option ModuleHandle)
      (block : Option AsyncDependenciesBlockIndex) (index : Option DependencyIndex)
      (handle : ModuleGraphConnectionHandle) (t : ModuleGraphStorage M)
      → index_origin s origin block index handle ≡ some t
      → Originated s t origin block index handle
  unfolding index_origin
  index_origin_lem s none block index handle t e = record {
    modules = ground arith;
    connections = ground arith;
    incoming = ground arith;
    outgoing_size = ground arith;
    locations_size = ground arith;
    outgoing_at = λ m. ground arith;
    location_at = λ m l. ground arith;
  }
  index_origin_lem s (some origin) block index handle t e =
      let (outgoing, pushed, rest) = >>=-eq-some (modify s.outgoing origin _) _ e in
      index_location_lem s origin block index handle outgoing t pushed rest

  -- The connection that `connect` appends.
  abbrev pub connection_of :
      ModuleGraphStorage M
      → Option ModuleHandle
      → Option AsyncDependenciesBlockIndex
      → Option DependencyIndex
      → Dependency
      → ModuleHandle
      → ModuleGraphConnection
  connection_of s origin block index dependency target = record {
    handle = length s.connections;
    origin_module = origin;
    origin_block = block;
    origin_dependency_index = index;
    dependency = dependency;
    resolved_module = target;
    module_handle = target;
    state = ModuleGraphConnectionState.active;
  }

  -- What a call of `connect` that returns has done.
  pub record Connected (s t : ModuleGraphStorage M) (c : ModuleGraphConnection) : Type 0 where
    pub modules : t.modules ≡ s.modules
    pub connections : t.connections ≡ s.connections ++ c ∷ []
    pub outgoing_size : length t.outgoing ≡ length s.outgoing
    pub incoming_size : length t.incoming ≡ length s.incoming
    pub locations_size : length t.outgoing_by_location ≡ length s.outgoing_by_location
    pub target_in_range : c.module_handle < length s.incoming
    pub outgoing_at :
        (m : ModuleHandle)
        → get_or t.outgoing m [] ≡ (
            if comes_from m c
            then get_or s.outgoing m [] ++ c.handle ∷ []
            else get_or s.outgoing m [])
    pub incoming_at :
        (m : ModuleHandle)
        → get_or t.incoming m [] ≡ (
            if leads_to m c
            then get_or s.incoming m [] ++ c.handle ∷ []
            else get_or s.incoming m [])
    pub location_at :
        (m : ModuleHandle) (l : DependencyLocation)
        → get l (get_or t.outgoing_by_location m [])
          ≡ (if stands_at m l c then some c.handle else get l (get_or s.outgoing_by_location m []))

  pub connect_lem :
      (s : ModuleGraphStorage M) (origin : Option ModuleHandle)
      (block : Option AsyncDependenciesBlockIndex) (index : Option DependencyIndex)
      (dependency : Dependency) (target : ModuleHandle) (t : ModuleGraphStorage M)
      → connect s origin block index dependency target ≡ some t
      → Connected s t (connection_of s origin block index dependency target)
  unfolding connect
  connect_lem s origin block index dependency target t e =
      let c : ModuleGraphConnection = connection_of s origin block index dependency target in
      let (u, before, rest) =
        >>=-eq-some
          (index_origin (record s { connections = s.connections ++ c ∷ [] }) origin block index
            c.handle)
          _ e in
      let (incoming, pushed, last) = >>=-eq-some (modify u.incoming target _) _ rest in
      let o = index_origin_lem _ origin block index c.handle u before in
      record {
        modules = ground (arith, o.modules);
        connections = ground (arith, o.connections);
        outgoing_size = ground (arith, o.outgoing_size);
        incoming_size =
            ground (arith, o.incoming, length-modify u.incoming target _ incoming pushed);
        locations_size = ground (arith, o.locations_size);
        target_in_range =
            ground (arith, o.incoming, modify_in_range u.incoming target _ incoming pushed);
        outgoing_at = λ m. ground (arith, o.outgoing_at m);
        incoming_at = λ m. ground (
          arith,
          o.incoming,
          get_or-modify u.incoming target _ incoming m [] pushed,
          nat_eqb_iff target m,
        );
        location_at = λ m l. ground (arith, o.location_at m l);
      }

  Connected-IsIndexed :
      (s t : ModuleGraphStorage M) (c : ModuleGraphConnection)
      → c.handle ≡ length s.connections
      → Connected s t c
      → IsIndexed s
      → IsIndexed t
  Connected-IsIndexed s t c at_end k h = record {
    outgoing_size = omega (arith, ap length k.modules);
    incoming_size = omega (arith, ap length k.modules);
    locations_size = omega (arith, ap length k.modules);
    handles =
        λ i d e. ground (arith, k.connections, get_elem?-push s.connections c i, h.handles i d);
    targets = λ i d e. ground (
      arith,
      k.connections,
      ap length k.modules,
      get_elem?-push s.connections c i,
      h.targets i d,
      k.target_in_range,
      h.incoming_size,
    );
    outgoing_exact = λ m i. ground (
      arith,
      k.connections,
      k.outgoing_at m,
      h.outgoing_exact m i,
      connection_is-push (comes_from m) s.connections c i,
      contains-push (get_or s.outgoing m []) c.handle i,
      get_elem?-ge s.connections i,
    );
    incoming_exact = λ m i. ground (
      arith,
      k.connections,
      k.incoming_at m,
      h.incoming_exact m i,
      connection_is-push (leads_to m) s.connections c i,
      contains-push (get_or s.incoming m []) c.handle i,
      get_elem?-ge s.connections i,
    );
    located = λ m l i e. ground (
      arith,
      k.connections,
      k.location_at m l,
      h.located m l i,
      connection_is-push (stands_at m l) s.connections c i,
      get_elem?-ge s.connections i,
    );
    placed = λ m l i e. ground (
      arith,
      k.connections,
      k.location_at m l,
      h.placed m l i,
      connection_is-push (stands_at m l) s.connections c i,
    );
  }

  -- A call of `connect` that returns keeps the graph well indexed: a module lists exactly the
  -- connections that leave and enter it, and it has an entry at exactly the places where one of its
  -- connections stands, which leads to a connection that stands there.
  pub connect-IsIndexed :
      (s : ModuleGraphStorage M) (origin : Option ModuleHandle)
      (block : Option AsyncDependenciesBlockIndex) (index : Option DependencyIndex)
      (dependency : Dependency) (target : ModuleHandle) (t : ModuleGraphStorage M)
      → IsIndexed s
      → connect s origin block index dependency target ≡ some t
      → IsIndexed t
  connect-IsIndexed s origin block index dependency target t h e =
      Connected-IsIndexed s t (connection_of s origin block index dependency target) refl
        (connect_lem s origin block index dependency target t e) h

  -- `connect` returns in a well indexed graph if the target, and the origin where one is given,
  -- are modules of the graph.
  pub connect_total :
      (s : ModuleGraphStorage M) (origin : Option ModuleHandle)
      (block : Option AsyncDependenciesBlockIndex) (index : Option DependencyIndex)
      (dependency : Dependency) (target : ModuleHandle)
      → IsIndexed s
      → ((m : ModuleHandle) → origin ≡ some m → m < length s.modules)
      → target < length s.modules
      → is_some (connect s origin block index dependency target) ≡ true
  unfolding connect index_origin index_location
  connect_total s none block index dependency target h known fits =
      let push = λ (hs : List ModuleGraphConnectionHandle). hs ++ length s.connections ∷ [] in
      let (incoming, pushed) =
        modify_total s.incoming target push (omega (arith, h.incoming_size)) in
      rw pushed
  connect_total s (some origin) block none dependency target h known fits =
      let push = λ (hs : List ModuleGraphConnectionHandle). hs ++ length s.connections ∷ [] in
      let (incoming, pushed) =
        modify_total s.incoming target push (omega (arith, h.incoming_size)) in
      let (outgoing, sent) =
        modify_total s.outgoing origin push (omega (arith, h.outgoing_size, known origin refl)) in
      rw (sent, pushed)
  connect_total s (some origin) block (some index) dependency target h known fits =
      let push = λ (hs : List ModuleGraphConnectionHandle). hs ++ length s.connections ∷ [] in
      let place : DependencyLocation = record { block = block; dependency_index = index } in
      let (incoming, pushed) =
        modify_total s.incoming target push (omega (arith, h.incoming_size)) in
      let (outgoing, sent) =
        modify_total s.outgoing origin push (omega (arith, h.outgoing_size, known origin refl)) in
      let (locations, written) =
        modify_total s.outgoing_by_location origin (insert place (length s.connections))
          (omega (arith, h.locations_size, known origin refl)) in
      rw (sent, written, pushed)

  -- A dependency that `connect` was given an origin and a place for is found again at that place, and
  -- leads to the module it was connected to.
  pub module_for_dependency-connect :
      (s : ModuleGraphStorage M) (origin : ModuleHandle)
      (block : Option AsyncDependenciesBlockIndex) (index : DependencyIndex)
      (dependency : Dependency) (target : ModuleHandle) (t : ModuleGraphStorage M)
      → connect s (some origin) block (some index) dependency target ≡ some t
      → module_for_dependency t origin block index ≡ some target
  unfolding module_for_dependency
  module_for_dependency-connect s origin block index dependency target t e =
      let place : DependencyLocation = record { block = block; dependency_index = index } in
      let c : ModuleGraphConnection =
        connection_of s (some origin) block (some index) dependency target in
      let k = connect_lem s (some origin) block (some index) dependency target t e in
      ground (
        arith,
        k.connections,
        k.location_at origin place,
        get_or-get_elem? t.outgoing_by_location origin [],
        get_elem?-push s.connections c (length s.connections),
        nat_eqb_iff origin origin,
        nat_eqb_iff index index,
        option_eqb_iff block block,
      )

  Moved-IsIndexed :
      (s : ModuleGraphStorage M) (handle : ModuleGraphConnectionHandle) (target : ModuleHandle)
      (c : ModuleGraphConnection) (left joined : List (List ModuleGraphConnectionHandle))
      (connections : List ModuleGraphConnection)
      → IsIndexed s
      → get_elem? s.connections handle ≡ some c
      → (c.module_handle == target) ≡ false
      → modify s.incoming c.module_handle (retain (λ candidate. not (candidate == handle)))
        ≡ some left
      → modify left target (λ hs. hs ++ handle ∷ []) ≡ some joined
      → modify s.connections handle (λ d. record d { module_handle = target }) ≡ some connections
      → IsIndexed (record s { incoming = joined; connections = connections })
  Moved-IsIndexed s handle target c left joined connections h found moved taken put written =
      let here = λ (i : ℕ). get_elem?-modify s.connections handle _ connections i written in
      let still = λ (p : ModuleGraphConnection → Bool) (i : ℕ).
        connection_is-modify p s.connections handle _ connections i written in
      record {
        outgoing_size = h.outgoing_size;
        incoming_size = omega (
          arith,
          h.incoming_size,
          length-modify s.incoming c.module_handle _ left taken,
          length-modify left target _ joined put,
        );
        locations_size = h.locations_size;
        handles = λ i d e. ground (arith, here i, h.handles i c, h.handles i d);
        targets = λ i d e. ground (
          arith,
          here i,
          h.targets i d,
          modify_in_range left target _ joined put,
          length-modify s.incoming c.module_handle _ left taken,
          h.incoming_size,
        );
        outgoing_exact = λ m i. ground (arith, still (comes_from m) i, h.outgoing_exact m i);
        incoming_exact = λ m i. ground (
          arith,
          still (leads_to m) i,
          h.incoming_exact m i,
          get_or-modify s.incoming c.module_handle _ left m [] taken,
          get_or-modify left target _ joined m [] put,
          contains-push (get_or left m []) handle i,
          contains-retain (λ candidate. not (candidate == handle)) (get_or s.incoming m []) i,
        );
        located = λ m l i e. ground (arith, still (stands_at m l) i, h.located m l i);
        placed = λ m l i e. ground (arith, still (stands_at m l) i, h.placed m l i);
      }

  -- A call of `update_connection_module` that returns keeps the graph well indexed.
  pub update_connection_module-IsIndexed :
      (s : ModuleGraphStorage M) (handle : ModuleGraphConnectionHandle) (target : ModuleHandle)
      (t : ModuleGraphStorage M)
      → IsIndexed s
      → update_connection_module s handle target ≡ some t
      → IsIndexed t
  unfolding update_connection_module
  update_connection_module-IsIndexed s handle target t h e =
      let (c, found, rest) = >>=-eq-some (get_elem? s.connections handle) _ e in
      elim (Bool-cases (c.module_handle == target)) [
        | inl same ↦ subst IsIndexed (some_inj (rw same at rest)) h
        | inr moved ↦
            let (left, taken, more) = >>=-eq-some _ _ (rw moved at rest) in
            let (joined, put, last) = >>=-eq-some _ _ more in
            let (connections, written, result) = >>=-eq-some _ _ last in
            subst IsIndexed (some_inj result) (
              Moved-IsIndexed s handle target c left joined connections h found moved taken put
                written)
      ]
