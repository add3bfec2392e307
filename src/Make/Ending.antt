-- ===== src/Make/Ending.antt =====
-- `finish_build` and `fail_module` end a build: the module is no longer one that is built.
use unpack.Prelude.{
  sym, get_elem?-modify, length-modify, modify_total, ◌∙◌, Bool-cases, ap, inr, inl, Option-cases,
  ℕ, ◌<◌, not, some, List, [], ◌∷◌, ◌++◌, ◌≡◌, ◌==◌, refl, arith, nat_eq, length, modify, get_elem?,
}
use unpack.Module.{
  Module, ModuleHandle, BuiltModuleContent, identity_eq, finish_build_content, fail_build,
}
use unpack.ModuleGraph.{finish_module_build, fail_module}
use unpack.Make.{remove_building, String, retain, MakeState, finish_build, fail_module_build}
use unpack.Make.Registered.{IsRegistered}

module _ {E : Type 0} where
  -- A write to a module that keeps its identity keeps the state registered.
  rewritten-IsRegistered :
      (s : MakeState E) (handle : ModuleHandle) (f : Module E → Module E) (ms : List (Module E))
      → IsRegistered s
      → modify s.module_graph.modules handle f ≡ some ms
      → ((m : Module E) → (f m).identity ≡ m.identity)
      → IsRegistered (record s { module_graph = record s.module_graph { modules = ms } })
  rewritten-IsRegistered s handle f ms h e same =
      let size = length-modify s.module_graph.modules handle f ms e in
      let at = λ (i : ℕ). get_elem?-modify s.module_graph.modules handle f ms i e in
      record {
        indexed = record {
          outgoing_size = ground (arith, size, h.indexed.outgoing_size);
          incoming_size = ground (arith, size, h.indexed.incoming_size);
          locations_size = ground (arith, size, h.indexed.locations_size);
          handles = h.indexed.handles;
          targets = λ i c g. ground (arith, size, h.indexed.targets i c g);
          outgoing_exact = h.indexed.outgoing_exact;
          incoming_exact = h.indexed.incoming_exact;
          located = h.indexed.located;
          placed = h.indexed.placed;
        };
        registered = λ i m g. elim (Option-cases (get_elem? s.module_graph.modules i)) [
          | inl out ↦ ground (arith, at i)
          | inr (a, was) ↦ elim (Bool-cases (handle == i)) [
            | inl here ↦
                let is : f a ≡ m = ground (arith, at i) in
                let id : m.identity ≡ a.identity =
                  ap (λ (x : Module E). x.identity) (sym is) ∙ same a in
                rw id (h.registered i a was)
            | inr other ↦ let is : a ≡ m = ground (arith, at i) in rw (← is) (h.registered i a was)
          ]
        ];
        identified = λ j i g.
            let (a, was, is) = h.identified j i g in
            elim (Bool-cases (handle == i)) [
              | inl here ↦ (f a, ground (arith, at i, was), same a ∙ is)
              | inr other ↦ (a, ground (arith, at i, was), is)
            ];
      }

  -- What the end of a build does.
  pub record Ends (s t : MakeState E) (handle : ModuleHandle) : Type 0 where
    pub sound : IsRegistered t
    pub size : length t.module_graph.modules ≡ length s.module_graph.modules
    pub building : t.building_modules ≡ retain (λ m. not (m == handle)) s.building_modules
    pub waits : t.loader_waits ≡ s.loader_waits

  -- `finish_build` returns for a module of the graph, and takes it out of those that are built.
  pub finish_build_lem :
      (s : MakeState E) (handle : ModuleHandle) (content : BuiltModuleContent)
      → IsRegistered s
      → handle < length s.module_graph.modules
      → (t : MakeState E) × (finish_build s handle content ≡ some t) × Ends s t handle
  unfolding finish_build finish_module_build finish_build_content
  finish_build_lem s handle content h low =
      let (ms, written) =
        modify_total s.module_graph.modules handle (λ m. finish_build_content m content) low in
      let sound = rewritten-IsRegistered s handle _ ms h written (λ m. refl) in
      (
        remove_building (record s { module_graph = record s.module_graph { modules = ms } }) handle,
        rw written refl,
        record {
          sound = record {
            indexed = sound.indexed;
            registered = sound.registered;
            identified = sound.identified;
          };
          size = length-modify s.module_graph.modules handle _ ms written;
          building = refl;
          waits = refl;
        },
      )

  -- `fail_module` returns for a module of the graph, and takes it out of those that are built.
  pub fail_module_build_lem :
      (s : MakeState E) (handle : ModuleHandle) (error : E) (source : String)
      → IsRegistered s
      → handle < length s.module_graph.modules
      → (t : MakeState E) × (fail_module_build s handle error source ≡ some t) × Ends s t handle
  unfolding fail_module_build fail_module fail_build
  fail_module_build_lem s handle error source h low =
      let (ms, written) =
        modify_total s.module_graph.modules handle (λ m. fail_build m error source) low in
      let sound = rewritten-IsRegistered s handle _ ms h written (λ m. refl) in
      (
        record (remove_building (record s { module_graph = record s.module_graph { modules = ms } })
            handle) { errors = s.errors ++ error ∷ [] },
        rw written refl,
        record {
          sound = record {
            indexed = sound.indexed;
            registered = sound.registered;
            identified = sound.identified;
          };
          size = length-modify s.module_graph.modules handle _ ms written;
          building = refl;
          waits = refl;
        },
      )
