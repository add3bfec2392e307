-- ===== src/Make/Effects.antt =====
-- Every task of the make phase that returns what follows has the effect that keeps the state sound.
use Prim.Native.String.{String}
use unpack.Prelude.{
  subst, string_eq, nat_eqb_iff, contains-push_unique, contains-retain, inr, lt-length_of_get_elem?,
  ◌∙◌, inl, Bool-cases, ltb_iff, ap, some_inj, ℕ, ◌<◌, true, not, Option, none, some, List, [], ◌∷◌,
  ◌++◌, ◌≡◌, ◌==◌, refl, arith, nat_eq, length, all,
}
use unpack.Dependency.{Dependency}
use unpack.Module.{ModuleHandle, ModuleIdentity, identity_eq}
use unpack.Make.{push_unique, MakeState, MakeTask, QueuedDependency, FactorizedModule}
use unpack.Make.Tasks.{
  queue_blocks, queue_dependencies, process_queued, BuildOutcome, run_add_success, run_add_failed,
  run_build, process_dependencies_task, extend_set, run_process_dependencies,
  group_dependencies_for_factorization,
}
use unpack.Make.Registered.{IsRegistered}
use unpack.Make.Adding.{add_or_connect_lem}
use unpack.Make.Ending.{Ends, finish_build_lem, fail_module_build_lem}
use unpack.Make.Steps.{Runs, tally, builds_of}
use unpack.Make.Invariant.{is_known, origin_below}
use unpack.Make.Running.{
  Effect, added-Effect, process_queued-known, factorize-known, extended-IsRegistered,
  origin_in_range,
}

module _ {E : Type 0} where
  -- A task that returned has the effect of what it returned.
  returned-Effect :
      (s u t : MakeState E) (ended : ModuleHandle → ℕ) (tasks children : List (MakeTask E))
      → ◌≡◌ {A = MakeState E × List (MakeTask E)} (u, tasks) (t, children)
      → Effect s u ended tasks
      → Effect s t ended children
  returned-Effect s u t ended tasks children same =
      subst (λ (r : MakeState E × List (MakeTask E)). Effect s r.0 ended r.1) same

  -- Tasks that build nothing, from a state that stays as it is.
  same-Effect :
      (s : MakeState E) (children : List (MakeTask E))
      → IsRegistered s
      → all (is_known (length s.module_graph.modules)) children ≡ true
      → ((h : ModuleHandle) → tally h children ≡ 0)
      → Effect s s (λ h. 0) children
  same-Effect s children sound known none_built = record {
    registered = sound;
    grows = omega arith;
    known = known;
    waits = refl;
    few = λ h. omega (arith, none_built h);
    new = λ h e. absurd (omega (arith, e, none_built h));
    building = λ h e. inr (e, refl);
  }

  found-Effect :
      (s : MakeState E) (origin : Option ModuleHandle) (dependencies : List QueuedDependency)
      (m : FactorizedModule) (t : MakeState E) (children : List (MakeTask E))
      → IsRegistered s
      → origin_below (length s.module_graph.modules) origin ≡ true
      → run_add_success s origin dependencies m ≡ some (t, children)
      → Effect s t (λ h. 0) children
  unfolding run_add_success
  found-Effect s origin dependencies m t children sound known ran =
      let u : MakeState E = record s {
        file_dependencies = extend_set s.file_dependencies m.file_dependencies;
        context_dependencies = extend_set s.context_dependencies m.context_dependencies;
        missing_dependencies = extend_set s.missing_dependencies m.missing_dependencies;
      } in
      let (v, result, added, a) =
        add_or_connect_lem u origin dependencies m.identity m.side_effect_free
          (extended-IsRegistered s u.file_dependencies u.context_dependencies u.missing_dependencies
            sound)
          (origin_in_range (length s.module_graph.modules) origin known) in
      returned-Effect s v t (λ h. 0) _ children (some_inj (rw added at ran))
        (added-Effect s u v result m.identity m.resource refl refl refl a)

  not_found-Effect :
      (s : MakeState E) (origin : Option ModuleHandle) (dependencies : List QueuedDependency)
      (identity : ModuleIdentity) (error : E) (t : MakeState E) (children : List (MakeTask E))
      → IsRegistered s
      → origin_below (length s.module_graph.modules) origin ≡ true
      → run_add_failed s origin dependencies identity error ≡ some (t, children)
      → Effect s t (λ h. 0) children
  unfolding run_add_failed
  not_found-Effect s origin dependencies identity error t children sound known ran =
      let n = length s.module_graph.modules in
      let w : MakeState E = record s {
        missing_dependencies = push_unique s.missing_dependencies identity.resource;
      } in
      let (u, added, returned, a) =
        add_or_connect_lem w origin dependencies identity none
          (extended-IsRegistered s w.file_dependencies w.context_dependencies w.missing_dependencies
            sound)
          (origin_in_range n origin known) in
      let (m, at, _) = a.sound.identified identity added.module_handle a.found in
      let (v, failed, ends) =
        fail_module_build_lem u added.module_handle error "" a.sound
          (lt-length_of_get_elem? u.module_graph.modules added.module_handle at) in
      let left = λ (x : ModuleHandle).
        contains-retain (λ y. not (y == added.module_handle)) u.building_modules x in
      returned-Effect s v t (λ h. 0) [] children (some_inj (rw (returned, failed) at ran))
        (record {
          registered = ends.sound;
          grows = elim (Bool-cases added.is_new) [
            | inl new ↦ omega (arith, ends.size, (a.added new).1)
            | inr old ↦ omega (arith, ends.size, ap length (a.old old).0)
          ];
          known = refl;
          waits = ends.waits ∙ a.waits;
          few = λ h. omega arith;
          new = λ h e. absurd (omega (arith, e));
          building = λ x f. inr (
            elim (Bool-cases added.is_new) [
              | inl new ↦ ground (
                arith,
                left x,
                ends.building,
                (a.added new).2,
                contains-push_unique s.building_modules added.module_handle x,
                nat_eqb_iff x added.module_handle,
                nat_eqb_iff added.module_handle x,
              )
              | inr old ↦ ground (arith, left x, ends.building, (a.old old).1)
            ],
            refl,
          );
        })

  -- A build ended.
  ended-Effect :
      (s t : MakeState E) (handle : ModuleHandle) (identity : ModuleIdentity) (resource : String)
      (children : List (MakeTask E))
      → Ends s t handle
      → all (is_known (length t.module_graph.modules)) children ≡ true
      → ((h : ModuleHandle) → tally h children ≡ 0)
      → Effect s t (λ h. builds_of {E = E} h (MakeTask.build handle identity resource)) children
  ended-Effect s t handle identity resource children ends known none_built = record {
    registered = ends.sound;
    grows = omega (arith, ends.size);
    known = known;
    waits = ends.waits;
    few = λ h. omega (arith, none_built h);
    new = λ h e. absurd (omega (arith, e, none_built h));
    building = λ h e. inr (
        ground (
          arith,
          ends.building,
          contains-retain (λ x. not (x == handle)) s.building_modules h,
          nat_eqb_iff h handle,
          nat_eqb_iff handle h,
        ));
  }

  built-Effect :
      (s : MakeState E) (handle : ModuleHandle) (identity : ModuleIdentity)
      (resource issuer_context : String) (outcome : BuildOutcome E) (t : MakeState E)
      (children : List (MakeTask E))
      → IsRegistered s
      → handle < length s.module_graph.modules
      → run_build s handle issuer_context outcome ≡ some (t, children)
      → Effect s t (λ h. builds_of {E = E} h (MakeTask.build handle identity resource)) children
  unfolding run_build process_dependencies_task
  built-Effect s handle identity resource issuer_context (BuildOutcome.built content) t children
        sound low ran =
      let (u, returned, ends) = finish_build_lem s handle content sound low in
      let waiting =
        queue_dependencies none 0 content.parsed.dependencies_block.dependencies
        ++ queue_blocks 0 content.parsed.dependencies_block.blocks in
      let (known, none_built) =
        process_queued-known E (length u.module_graph.modules) handle issuer_context waiting
          (omega (arith, ends.size, low)) in
      returned-Effect s u t _ (process_queued handle issuer_context waiting) children
        (some_inj (rw returned at ran))
        (ended-Effect s u handle identity resource (process_queued handle issuer_context waiting)
          ends known none_built)
  built-Effect s handle identity resource issuer_context (BuildOutcome.not_built error source) t
        children sound low ran =
      let (u, returned, ends) = fail_module_build_lem s handle error source sound low in
      returned-Effect s u t _ [] children (some_inj (rw returned at ran))
        (ended-Effect s u handle identity resource [] ends refl (λ h. refl))
  built-Effect s handle identity resource issuer_context (BuildOutcome.returned error) t children
        sound low ran =
      cc

  pub Runs-Effect :
      (failed_module_identity : String → Dependency → ModuleIdentity) (s : MakeState E)
      (task : MakeTask E) (t : MakeState E) (children : List (MakeTask E))
      → IsRegistered s
      → is_known (length s.module_graph.modules) task ≡ true
      → Runs failed_module_identity s task t children
      → Effect s t (λ h. builds_of h task) children
  unfolding run_process_dependencies
  Runs-Effect failed_module_identity s _ _ _ sound known
        (Runs.found origin context dependencies m t children ran) =
      found-Effect s origin dependencies m t children sound known ran
  Runs-Effect failed_module_identity s _ _ _ sound known
        (Runs.not_found origin context d dependencies error t children ran) =
      not_found-Effect s origin (d ∷ dependencies) _ error t children sound known ran
  Runs-Effect failed_module_identity s _ _ _ sound known
        (Runs.processed origin context dependencies) =
      let n = length s.module_graph.modules in
      let (all_known, none_built) =
        factorize-known E n origin context (group_dependencies_for_factorization dependencies)
          ((ltb_iff origin n).0 known) in
      same-Effect s (run_process_dependencies origin context dependencies) sound all_known
        none_built
  Runs-Effect failed_module_identity s _ _ _ sound known
        (Runs.factorized origin context dependencies result) =
      same-Effect s (MakeTask.add origin context dependencies result ∷ []) sound
        (ground (arith, known)) (λ h. omega arith)
  Runs-Effect failed_module_identity s _ _ _ sound known
        (Runs.built handle identity resource issuer_context outcome t children ran) =
      built-Effect s handle identity resource issuer_context outcome t children sound
        ((ltb_iff handle (length s.module_graph.modules)).0 known) ran
