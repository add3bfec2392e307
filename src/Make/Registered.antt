-- ===== src/Make/Registered.antt =====
-- Every module of the graph stands under its identity, and every identity leads to one module.
use unpack.Prelude.{
  lt-length_of_get_elem?, length-append, nat_eqb_iff, Bool-cases, get-insert, get_elem?-push, inr,
  inl, Option-cases, ℕ, Bool, true, false, not, Option, none, some, [], ◌∷◌, ◌≡◌, ◌==◌, refl, arith,
  nat_eq, length, get, insert, get_elem?, is_some,
}
use unpack.Module.{
  identity_eqb_iff, Module, ModuleHandle, ModuleIdentity, identity_eq, new_module,
  set_factory_side_effect_free,
}
use unpack.ModuleGraph.{add_module}
use unpack.ModuleGraph.Indexed.{IsIndexed}
use unpack.ModuleGraph.Operations.{add_module-IsIndexed}
use unpack.Make.{push_unique, suc, MakeState, AddModuleResult, find_or_add}

module _ {E : Type 0} where
  -- The state of the make phase between two tasks.
  pub record IsRegistered (s : MakeState E) : Type 0 where
    pub indexed : IsIndexed s.module_graph
    pub registered :
        (h : ModuleHandle) (m : Module E)
        → get_elem? s.module_graph.modules h ≡ some m
        → get m.identity s.modules_by_identity ≡ some h
    pub identified :
        (identity : ModuleIdentity) (h : ModuleHandle)
        → get identity s.modules_by_identity ≡ some h
        → (m : Module E) × (get_elem? s.module_graph.modules h ≡ some m) × (m.identity ≡ identity)

  -- What `find_or_add` returns: a module of the identity, new only where none had it.
  pub record Finds (s : MakeState E) (identity : ModuleIdentity) (t : MakeState E)
      (result : AddModuleResult) : Type 0 where
    pub sound : IsRegistered t
    pub found : get identity t.modules_by_identity ≡ some result.module_handle
    pub fresh : result.is_new ≡ not (is_some (get identity s.modules_by_identity))
    pub old : result.is_new ≡ false → t ≡ s
    pub added :
        result.is_new ≡ true
        → (result.module_handle ≡ length s.module_graph.modules)
          × (length t.module_graph.modules ≡ suc (length s.module_graph.modules))
          × (t.building_modules ≡ push_unique s.building_modules result.module_handle)
          × (t.loader_waits ≡ s.loader_waits)

  -- The state after a module was added.
  abbrev with_module : MakeState E → ModuleIdentity → Option Bool → MakeState E
  with_module s identity free = record s {
    module_graph = (add_module s.module_graph identity free).0;
    modules_by_identity = insert identity (length s.module_graph.modules) s.modules_by_identity;
    building_modules = push_unique s.building_modules (length s.module_graph.modules);
  }

  with_module-IsRegistered :
      (s : MakeState E) (identity : ModuleIdentity) (free : Option Bool)
      → get identity s.modules_by_identity ≡ none
      → IsRegistered s
      → IsRegistered (with_module s identity free)
  unfolding add_module new_module set_factory_side_effect_free
  with_module-IsRegistered s identity free new h =
      let n = length s.module_graph.modules in
      let m : Module E = set_factory_side_effect_free (new_module n identity) free in
      let at = λ (i : ℕ). get_elem?-push s.module_graph.modules m i in
      let ids = λ (j : ModuleIdentity). get-insert identity j n s.modules_by_identity in
      record {
        indexed = add_module-IsIndexed s.module_graph identity free h.indexed;
        registered = λ i a e. elim (Bool-cases (n == i)) [
          | inl last ↦
              ground
                (arith, at i, ids a.identity, identity_eqb_iff identity a.identity, nat_eqb_iff n i)
          | inr before ↦
              let was : get_elem? s.module_graph.modules i ≡ some a = ground (arith, at i) in
              ground
                (arith, h.registered i a was, ids a.identity, identity_eqb_iff identity a.identity)
        ];
        identified = λ j i e. elim (Bool-cases (identity == j)) [
          | inl same ↦ (
            m,
            ground (arith, at i, ids j, nat_eqb_iff n i),
            (identity_eqb_iff identity j).0 same,
          )
          | inr other ↦
              let (a, was, is) = h.identified j i (ground (arith, ids j)) in
              (
                a,
                ground (
                  arith,
                  at i,
                  was,
                  nat_eqb_iff n i,
                  lt-length_of_get_elem? s.module_graph.modules i was,
                ),
                is,
              )
        ];
      }

  -- `find_or_add` of a registered state.
  pub find_or_add_lem :
      (s : MakeState E) (identity : ModuleIdentity) (free : Option Bool)
      → IsRegistered s
      → (t : MakeState E) × (result : AddModuleResult) × (find_or_add s identity free ≡ (t, result))
        × Finds s identity t result
  unfolding find_or_add add_module
  find_or_add_lem s identity free h = elim (Option-cases (get identity s.modules_by_identity)) [
    | inl new ↦ (
      with_module s identity free,
      record { module_handle = length s.module_graph.modules; is_new = true },
      rw (new, find_or_add) refl,
      record {
        sound = with_module-IsRegistered s identity free new h;
        found = ground (
          arith,
          get-insert identity identity (length s.module_graph.modules) s.modules_by_identity,
          identity_eqb_iff identity identity,
        );
        fresh = ground (arith, new);
        old = λ e. cc;
        added = λ e. (
          refl,
          omega (
            arith,
            length-append s.module_graph.modules (
                set_factory_side_effect_free (new_module (length s.module_graph.modules) identity)
                  free
                ∷ []),
          ),
          refl,
          refl,
        );
      },
    )
    | inr (handle, known) ↦ (
      s,
      record { module_handle = handle; is_new = false },
      rw (known, find_or_add) refl,
      record {
        sound = h;
        found = known;
        fresh = ground (arith, known);
        old = λ e. refl;
        added = λ e. cc;
      },
    )
  ]
