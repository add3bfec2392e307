-- ===== src/Make/Adding.antt =====
-- `add_or_connect` returns, and keeps one module for an identity.
use unpack.Prelude.{
  ◌≤◌, lt-length_of_get_elem?, ◌∙◌, Bool-cases, ap, some_of, inr, inl, ◌<◌, Bool, true, false, not,
  Option, some, List, [], ◌∷◌, ◌≡◌, refl, arith, nat_eq, length, get, is_some,
}
use unpack.Module.{ModuleHandle, ModuleIdentity, identity_eq}
use unpack.ModuleGraph.{connect}
use unpack.ModuleGraph.Indexed.{IsIndexed}
use unpack.ModuleGraph.Operations.{connect-IsIndexed, connect_total, connect_lem}
use unpack.Make.{
  enter, push_unique, suc, MakeState, QueuedDependency, AddModuleResult, connect_all,
  add_or_connect,
}
use unpack.Make.Registered.{IsRegistered, find_or_add_lem}

module _ {E : Type 0} where
  -- What the loop over the dependencies leaves as it is.
  pub record Connects (s t : MakeState E) : Type 0 where
    pub indexed : IsIndexed t.module_graph
    pub modules : t.module_graph.modules ≡ s.module_graph.modules
    pub identities : t.modules_by_identity ≡ s.modules_by_identity
    pub building : t.building_modules ≡ s.building_modules
    pub waits : t.loader_waits ≡ s.loader_waits

  connect_all_lem :
      (s : MakeState E) (origin : Option ModuleHandle) (dependencies : List QueuedDependency)
      (handle : ModuleHandle)
      → IsIndexed s.module_graph
      → ((m : ModuleHandle) → origin ≡ some m → m < length s.module_graph.modules)
      → handle < length s.module_graph.modules
      → (t : MakeState E) × (connect_all s origin dependencies handle ≡ some t) × Connects s t
  unfolding connect_all
  connect_all_lem s origin [] handle h known low = (
    s,
    refl,
    record { indexed = h; modules = refl; identities = refl; building = refl; waits = refl },
  )
  connect_all_lem s origin (d ∷ rest) handle h known low =
      let (g, connected) =
        some_of
          (connect s.module_graph origin d.origin_block d.origin_dependency_index d.dependency
            handle)
          (connect_total s.module_graph origin d.origin_block d.origin_dependency_index d.dependency
            handle h known low) in
      let same =
        (connect_lem s.module_graph origin d.origin_block d.origin_dependency_index d.dependency
          handle g connected).modules in
      let size = ap length same in
      let (t, later, c) =
        connect_all_lem
          (record s { module_graph = g; entries = enter s.entries d.entry_index handle }) origin
          rest handle
          (connect-IsIndexed s.module_graph origin d.origin_block d.origin_dependency_index
            d.dependency handle g h connected)
          (λ m e. omega (arith, size, known m e)) (omega (arith, size)) in
      (
        t,
        rw (connected, later) refl,
        record {
          indexed = c.indexed;
          modules = c.modules ∙ same;
          identities = c.identities;
          building = c.building;
          waits = c.waits;
        },
      )

  Connects-IsRegistered : (s t : MakeState E) → Connects s t → IsRegistered s → IsRegistered t
  Connects-IsRegistered s t c h = record {
    indexed = c.indexed;
    registered = λ i m e. rw c.identities (h.registered i m (rw c.modules at e));
    identified = λ j i e.
        let (m, at, is) = h.identified j i (rw c.identities at e) in (m, rw c.modules at, is);
  }

  -- What `add_or_connect` returns.
  pub record Adds (s : MakeState E) (identity : ModuleIdentity) (t : MakeState E)
      (result : AddModuleResult) : Type 0 where
    pub sound : IsRegistered t
    pub found : get identity t.modules_by_identity ≡ some result.module_handle
    pub fresh : result.is_new ≡ not (is_some (get identity s.modules_by_identity))
    pub waits : t.loader_waits ≡ s.loader_waits
    pub old :
        result.is_new ≡ false
        → (t.module_graph.modules ≡ s.module_graph.modules)
          × (t.building_modules ≡ s.building_modules)
    pub added :
        result.is_new ≡ true
        → (result.module_handle ≡ length s.module_graph.modules)
          × (length t.module_graph.modules ≡ suc (length s.module_graph.modules))
          × (t.building_modules ≡ push_unique s.building_modules result.module_handle)

  -- In a registered state `add_or_connect` returns: the state stays registered, the identity leads to
  -- the module that is returned, and the module is new exactly where the identity led nowhere.
  pub add_or_connect_lem :
      (s : MakeState E) (origin : Option ModuleHandle) (dependencies : List QueuedDependency)
      (identity : ModuleIdentity) (free : Option Bool)
      → IsRegistered s
      → ((m : ModuleHandle) → origin ≡ some m → m < length s.module_graph.modules)
      → (t : MakeState E) × (result : AddModuleResult) × (add_or_connect s origin dependencies
            identity free
          ≡ some (t, result))
        × Adds s identity t result
  unfolding add_or_connect
  add_or_connect_lem s origin dependencies identity free h known =
      let (u, result, first, f) = find_or_add_lem s identity free h in
      let grown : length s.module_graph.modules ≤ length u.module_graph.modules =
        elim (Bool-cases result.is_new) [
          | inl new ↦ omega (arith, (f.added new).1)
          | inr old ↦
              ground (arith, ap (λ (x : MakeState E). length x.module_graph.modules) (f.old old))
        ] in
      let (m, at, _) = f.sound.identified identity result.module_handle f.found in
      let (t, later, c) =
        connect_all_lem u origin dependencies result.module_handle f.sound.indexed
          (λ i e. omega (arith, known i e))
          (lt-length_of_get_elem? u.module_graph.modules result.module_handle at) in
      (
        t,
        result,
        rw (first, later) refl,
        record {
          sound = Connects-IsRegistered u t c f.sound;
          found = rw c.identities f.found;
          fresh = f.fresh;
          waits = c.waits ∙ elim (Bool-cases result.is_new) [
            | inl new ↦ (f.added new).3
            | inr old ↦ ap (λ (x : MakeState E). x.loader_waits) (f.old old)
          ];
          old = λ e. (
            c.modules ∙ ap (λ (x : MakeState E). x.module_graph.modules) (f.old e),
            c.building ∙ ap (λ (x : MakeState E). x.building_modules) (f.old e),
          );
          added =
              λ e. ((f.added e).0, ap length c.modules ∙ (f.added e).1, c.building ∙ (f.added e).2);
        },
      )
