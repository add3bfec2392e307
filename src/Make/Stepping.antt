-- ===== src/Make/Stepping.antt =====
-- Every step of the make phase keeps the invariant.
use Prim.Native.String.{String}
use unpack.Prelude.{
  string_eq, ◌∙◌, ap, ◌+◌, true, List, [], ◌∷◌, ◌++◌, ◌≡◌, refl, arith, nat_eq, length, remove, all,
}
use unpack.Dependency.{Dependency}
use unpack.Module.{ModuleHandle, ModuleIdentity}
use unpack.Make.{MakeState, MakeTask}
use unpack.Make.Steps.{
  Progress, LoaderRun, Step, Steps, Runs, schedule_all, tally, builds_of, queued, stop_run,
}
use unpack.Make.Invariant.{
  IsMaking, left_of, is_known, tally-append, tally-middle, tally-queued, all-append, all-queued,
  all_known_grows, same-IsSound, schedule_all-IsMaking,
}
use unpack.Make.Running.{Effect-IsSound}
use unpack.Make.Effects.{Runs-Effect}
use unpack.Make.Making.{loads-IsMaking, loaded-IsSound}

module _ {E : Type 0} (failed_module_identity : String → Dependency → ModuleIdentity) where
  main-IsMaking :
      (p : Progress E) (task : MakeTask E) (rest : List (MakeTask E)) (t : MakeState E)
      (children : List (MakeTask E))
      → IsMaking p
      → p.main_queue ≡ task ∷ rest
      → Runs failed_module_identity p.state task t children
      → IsMaking (schedule_all (record p { state = t; main_queue = rest }) children)
  main-IsMaking p task rest t children h e ran =
      let n = length p.state.module_graph.modules in
      let k = length t.module_graph.modules in
      let count = λ (m : ModuleHandle). ap (tally m) e in
      let known : all (is_known n) (task ∷ rest) ≡ true = rw e at h.main_known in
      let x =
        Runs-Effect failed_module_identity p.state task t children h.sound.registered (ground arith)
          ran in
      schedule_all-IsMaking (record p { state = t; main_queue = rest }) children
        (Effect-IsSound p.state t (λ m. builds_of m task) children (left_of p) _ h.sound x
          (λ m. omega (arith, count m)) (λ m. omega (arith, count m)))
        (all_known_grows n k rest x.grows (ground arith))
        (all_known_grows n k p.background_queue x.grows h.background_known)
        (all_known_grows n k (queued p.loader_runs) x.grows h.runs_known) x.known

  background-IsMaking :
      (p : Progress E) (task : MakeTask E) (before after : List (MakeTask E)) (t : MakeState E)
      (children : List (MakeTask E))
      → IsMaking p
      → p.background_queue ≡ before ++ task ∷ after
      → Runs failed_module_identity p.state task t children
      → IsMaking
          (schedule_all (record p { state = t; background_queue = before ++ after }) children)
  background-IsMaking p task before after t children h e ran =
      let n = length p.state.module_graph.modules in
      let k = length t.module_graph.modules in
      let count : (m : ModuleHandle)
          → tally m p.background_queue ≡ builds_of m task + tally m (before ++ after) =
        λ m. ap (tally m) e ∙ tally-middle m before after task in
      let known : all (is_known n) (before ++ task ∷ after) ≡ true = rw e at h.background_known in
      let split = all-append (is_known n) before (task ∷ after) in
      let x =
        Runs-Effect failed_module_identity p.state task t children h.sound.registered
          (ground (arith, split)) ran in
      schedule_all-IsMaking (record p { state = t; background_queue = before ++ after }) children
        (Effect-IsSound p.state t (λ m. builds_of m task) children (left_of p) _ h.sound x
          (λ m. omega (arith, count m)) (λ m. omega (arith, count m)))
        (all_known_grows n k p.main_queue x.grows h.main_known)
        (all_known_grows n k (before ++ after) x.grows
          (ground (arith, split, all-append (is_known n) before after)))
        (all_known_grows n k (queued p.loader_runs) x.grows h.runs_known) x.known

  inside-IsMaking :
      (p : Progress E) (r : LoaderRun E) (task : MakeTask E) (rest : List (MakeTask E))
      (before after : List (LoaderRun E)) (t : MakeState E) (children : List (MakeTask E))
      → IsMaking p
      → p.loader_runs ≡ before ++ r ∷ after
      → r.queue ≡ task ∷ rest
      → Runs failed_module_identity p.state task t children
      → IsMaking (record p {
        state = t;
        loader_runs = before ++ (record r { queue = rest ++ children }) ∷ after;
      })
  inside-IsMaking p r task rest before after t children h e front ran =
      let n = length p.state.module_graph.modules in
      let k = length t.module_graph.modules in
      let next : LoaderRun E = record r { queue = rest ++ children } in
      let count : (m : ModuleHandle)
          → tally m (queued p.loader_runs)
            ≡ (builds_of m task + tally m rest) + tally m (queued (before ++ after)) =
        λ m. omega (
          arith,
          ap (λ rs. tally m (queued rs)) e,
          tally-queued m before after r,
          ap (tally m) front,
        ) in
      let counted = λ (m : ModuleHandle). tally-queued m before after next in
      let joined = λ (m : ModuleHandle). tally-append m rest children in
      let known : all (is_known n) (queued (before ++ r ∷ after)) ≡ true = rw e at h.runs_known in
      let split = all-queued (is_known n) before after r in
      let whole : all (is_known n) r.queue ≡ true = ground (arith, known, split) in
      let own : all (is_known n) (task ∷ rest) ≡ true = rw front at whole in
      let others : all (is_known n) (queued (before ++ after)) ≡ true =
        ground (arith, known, split) in
      let x =
        Runs-Effect failed_module_identity p.state task t children h.sound.registered
          (ground (arith, own)) ran in
      record {
        sound =
            Effect-IsSound p.state t (λ m. builds_of m task) children (left_of p) _ h.sound x
              (λ m. omega (arith, count m)) (λ m. omega (arith, count m, counted m, joined m));
        main_known = all_known_grows n k p.main_queue x.grows h.main_known;
        background_known = all_known_grows n k p.background_queue x.grows h.background_known;
        runs_known = ground (
          arith,
          all-queued (is_known k) before after next,
          all-append (is_known k) rest children,
          all_known_grows n k rest x.grows (ground (arith, own)),
          all_known_grows n k (queued (before ++ after)) x.grows others,
          x.known,
        );
      }

  -- A queue was dropped.
  not_loaded-IsMaking :
      (p : Progress E) (r : LoaderRun E) (before after : List (LoaderRun E))
      → IsMaking p
      → p.loader_runs ≡ before ++ r ∷ after
      → IsMaking (record p { loader_runs = before ++ after; dropped = r.queue ++ p.dropped })
  not_loaded-IsMaking p r before after h e =
      let n = length p.state.module_graph.modules in
      let known : all (is_known n) (queued (before ++ r ∷ after)) ≡ true = rw e at h.runs_known in
      record {
        sound = same-IsSound p.state (left_of p) _ h.sound (λ m. omega (
          arith,
          ap (λ rs. tally m (queued rs)) e,
          tally-queued m before after r,
          tally-append m r.queue p.dropped,
        ));
        main_known = h.main_known;
        background_known = h.background_known;
        runs_known = ground (arith, known, all-queued (is_known n) before after r);
      }

  stopped-IsMaking : (p : Progress E) (error : E) → IsMaking p → IsMaking (stop_run p error)
  unfolding stop_run
  stopped-IsMaking p error h = record {
    sound =
        same-IsSound (record p.state { errors = p.state.errors ++ error ∷ [] }) (left_of p) _
          (record {
            registered = record {
              indexed = h.sound.registered.indexed;
              registered = h.sound.registered.registered;
              identified = h.sound.registered.identified;
            };
            pending = h.sound.pending;
            once = h.sound.once;
            low = h.sound.low;
            waiters = h.sound.waiters;
            waits = h.sound.waits;
            free = h.sound.free;
          })
          (λ m. omega (
            arith,
            tally-append m p.main_queue (p.background_queue ++ (queued p.loader_runs ++ p.dropped)),
            tally-append m p.background_queue (queued p.loader_runs ++ p.dropped),
            tally-append m (queued p.loader_runs) p.dropped,
          ));
    main_known = refl;
    background_known = refl;
    runs_known = refl;
  }

  loaded-IsMaking :
      (p : Progress E) (r : LoaderRun E) (before after : List (LoaderRun E))
      → IsMaking p
      → p.loader_runs ≡ before ++ r ∷ after
      → r.queue ≡ []
      → IsMaking (record p {
        state = record p.state { loader_waits = remove r.origin p.state.loader_waits };
        loader_runs = before ++ after;
      })
  loaded-IsMaking p r before after h e done =
      let n = length p.state.module_graph.modules in
      let known : all (is_known n) (queued (before ++ r ∷ after)) ≡ true = rw e at h.runs_known in
      record {
        sound =
            same-IsSound _ (left_of p) _ (loaded-IsSound p.state (left_of p) r.origin h.sound) (λ m.
              omega (
                arith,
                ap (λ rs. tally m (queued rs)) e,
                tally-queued m before after r,
                ap (tally m) done,
              ));
        main_known = h.main_known;
        background_known = h.background_known;
        runs_known = ground (arith, known, all-queued (is_known n) before after r);
      }

  Step-IsMaking : (p q : Progress E) → IsMaking p → Step failed_module_identity p q → IsMaking q
  Step-IsMaking p _ h (Step.main task rest t children e ran) =
      main-IsMaking p task rest t children h e ran
  Step-IsMaking p _ h (Step.background task before after t children e ran) =
      background-IsMaking p task before after t children h e ran
  Step-IsMaking p _ h (Step.stopped task before after error e fails) = stopped-IsMaking p error h
  Step-IsMaking p _ h (Step.loads origin m t result creates_cycle running e) =
      loads-IsMaking p origin m t result creates_cycle h running e
  Step-IsMaking p _ h (Step.inside r task rest before after t children e front ran) =
      inside-IsMaking p r task rest before after t children h e front ran
  Step-IsMaking p _ h (Step.not_loaded r task rest before after error e front fails) =
      not_loaded-IsMaking p r before after h e
  Step-IsMaking p _ h (Step.loaded r before after e done idle) =
      loaded-IsMaking p r before after h e done

  pub Steps-IsMaking :
      (p q : Progress E) → IsMaking p → Steps failed_module_identity p q → IsMaking q
  Steps-IsMaking p _ h Steps.stay = h
  Steps-IsMaking p _ h (Steps.more {q} r walk last) =
      Step-IsMaking q r (Steps-IsMaking p q h walk) last
