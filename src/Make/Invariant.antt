-- ===== src/Make/Invariant.antt =====
-- What holds between the steps of the make phase.
use unpack.Prelude.{
  ◌&&◌, ℕ, ◌+◌, ◌<◌, ◌≤◌, Bool, true, Option, none, some, List, [], ◌∷◌, ◌++◌, ◌≡◌, refl, arith,
  nat_eq, length, contains, get, all, ltb, Bool-cases, inl, inr, subst, sym, ◌∙◌, ap,
}
use unpack.Module.{ModuleHandle, identity_eq}
use unpack.Make.{MakeState, MakeTask}
use unpack.Make.Waits.{WaitsBelow, IsDeadlockFree}
use unpack.Make.Registered.{IsRegistered}
use unpack.Make.Steps.{
  Progress, LoaderRun, tally, builds_of, queued, schedule_all, schedule_make_task, is_background,
}

abbrev pub origin_below : ℕ → Option ModuleHandle → Bool
origin_below n none = true
origin_below n (some origin) = ltb origin n

module _ {E : Type 0} where
  -- A task names only modules below `n`.
  abbrev pub is_known : ℕ → MakeTask E → Bool
  is_known n (MakeTask.factorize origin context dependencies) = origin_below n origin
  is_known n (MakeTask.add origin context dependencies result) = origin_below n origin
  is_known n (MakeTask.build handle identity resource) = ltb handle n
  is_known n (MakeTask.process_dependencies origin context dependencies) = ltb origin n

  -- The state, where `left` says how many tasks there are that build a module, run, waiting or dropped.
  pub record IsSound (s : MakeState E) (left : ModuleHandle → ℕ) : Type 0 where
    pub registered : IsRegistered s
    pub pending : (h : ModuleHandle) → contains s.building_modules h ≡ true → 1 ≤ left h
    pub once : (h : ModuleHandle) → left h ≤ 1
    pub low : (h : ModuleHandle) → 1 ≤ left h → h < length s.module_graph.modules
    pub waiters :
        (m target : ModuleHandle)
        → get m s.loader_waits ≡ some target
        → m < length s.module_graph.modules
    pub waits : WaitsBelow (length s.module_graph.modules) s.loader_waits
    pub free : IsDeadlockFree s.loader_waits

  abbrev pub left_of : Progress E → ModuleHandle → ℕ
  left_of p h =
      tally h p.main_queue
      + (tally h p.background_queue + (tally h (queued p.loader_runs) + tally h p.dropped))

  pub record IsMaking (p : Progress E) : Type 0 where
    pub sound : IsSound p.state (left_of p)
    pub main_known : all (is_known (length p.state.module_graph.modules)) p.main_queue ≡ true
    pub background_known :
        all (is_known (length p.state.module_graph.modules)) p.background_queue ≡ true
    pub runs_known :
        all (is_known (length p.state.module_graph.modules)) (queued p.loader_runs) ≡ true

  pub tally-append :
      (h : ModuleHandle) (xs ys : List (MakeTask E)) → tally h (xs ++ ys) ≡ tally h xs + tally h ys
  tally-append h [] ys = omega arith
  tally-append h (x ∷ xs) ys = omega (arith, tally-append h xs ys)

  pub all-append :
      (f : MakeTask E → Bool) (xs ys : List (MakeTask E))
      → all f (xs ++ ys) ≡ (all f xs && all f ys)
  all-append f [] ys = refl
  all-append f (x ∷ xs) ys = ground (arith, all-append f xs ys)

  pub tally-middle :
      (h : ModuleHandle) (before after : List (MakeTask E)) (task : MakeTask E)
      → tally h (before ++ task ∷ after) ≡ builds_of h task + tally h (before ++ after)
  tally-middle h before after task =
      omega (arith, tally-append h before (task ∷ after), tally-append h before after)

  pub tally-queued :
      (h : ModuleHandle) (before after : List (LoaderRun E)) (r : LoaderRun E)
      → tally h (queued (before ++ r ∷ after))
        ≡ tally h r.queue + tally h (queued (before ++ after))
  tally-queued h [] after r = tally-append h r.queue (queued after)
  tally-queued h (b ∷ before) after r = omega (
    arith,
    tally-append h b.queue (queued (before ++ r ∷ after)),
    tally-append h b.queue (queued (before ++ after)),
    tally-queued h before after r,
  )

  pub all-queued :
      (f : MakeTask E → Bool) (before after : List (LoaderRun E)) (r : LoaderRun E)
      → all f (queued (before ++ r ∷ after)) ≡ (all f r.queue && all f (queued (before ++ after)))
  all-queued f [] after r = all-append f r.queue (queued after)
  all-queued f (b ∷ before) after r = ground (
    arith,
    all-append f b.queue (queued (before ++ r ∷ after)),
    all-append f b.queue (queued (before ++ after)),
    all-queued f before after r,
  )

  known_grows :
      (n k : ℕ) (task : MakeTask E) → n ≤ k → is_known n task ≡ true → is_known k task ≡ true
  known_grows n k (MakeTask.factorize none context dependencies) le h = refl
  known_grows n k (MakeTask.factorize (some origin) context dependencies) le h = ground arith
  known_grows n k (MakeTask.add none context dependencies result) le h = refl
  known_grows n k (MakeTask.add (some origin) context dependencies result) le h = ground arith
  known_grows n k (MakeTask.build handle identity resource) le h = ground arith
  known_grows n k (MakeTask.process_dependencies origin context dependencies) le h = ground arith

  pub all_known_grows :
      (n k : ℕ) (tasks : List (MakeTask E))
      → n ≤ k
      → all (is_known n) tasks ≡ true
      → all (is_known k) tasks ≡ true
  all_known_grows n k [] le h = refl
  all_known_grows n k (task ∷ tasks) le h =
      ground (arith, known_grows n k task, all_known_grows n k tasks)

  pub same-IsSound :
      (s : MakeState E) (left after : ModuleHandle → ℕ)
      → IsSound s left
      → ((h : ModuleHandle) → after h ≡ left h)
      → IsSound s after
  same-IsSound s left after h same = record {
    registered = h.registered;
    pending = λ m e. omega (arith, same m, h.pending m e);
    once = λ m. omega (arith, same m, h.once m);
    low = λ m e. h.low m (omega (arith, same m, e));
    waiters = h.waiters;
    waits = h.waits;
    free = h.free;
  }

  -- What scheduling leaves, and where the tasks go.
  pub record Schedules (p q : Progress E) (tasks : List (MakeTask E)) : Type 0 where
    pub state : q.state ≡ p.state
    pub runs : q.loader_runs ≡ p.loader_runs
    pub dropped : q.dropped ≡ p.dropped
    pub places :
        (h : ModuleHandle)
        → tally h q.main_queue + tally h q.background_queue
          ≡ tally h p.main_queue + tally h p.background_queue + tally h tasks
    pub known :
        (f : MakeTask E → Bool)
        → (all f q.main_queue && all f q.background_queue)
          ≡ ((all f p.main_queue && all f p.background_queue) && all f tasks)

  schedule_make_task_lem :
      (p : Progress E) (task : MakeTask E) → Schedules p (schedule_make_task p task) (task ∷ [])
  unfolding schedule_make_task
  schedule_make_task_lem p task = elim (Bool-cases (is_background task)) [
    | inl behind ↦
        rw (behind, schedule_make_task)
          (record {
            state = refl;
            runs = refl;
            dropped = refl;
            places = λ h. omega (arith, tally-append h p.background_queue (task ∷ []));
            known = λ f. ground (arith, all-append f p.background_queue (task ∷ []));
          })
    | inr front ↦
        rw (front, schedule_make_task)
          (record {
            state = refl;
            runs = refl;
            dropped = refl;
            places = λ h. omega (arith, tally-append h p.main_queue (task ∷ []));
            known = λ f. ground (arith, all-append f p.main_queue (task ∷ []));
          })
  ]

  schedule_all_lem :
      (p : Progress E) (tasks : List (MakeTask E)) → Schedules p (schedule_all p tasks) tasks
  unfolding schedule_all
  schedule_all_lem p [] = record {
    state = refl;
    runs = refl;
    dropped = refl;
    places = λ h. omega arith;
    known = λ f. ground arith;
  }
  schedule_all_lem p (task ∷ tasks) =
      let first = schedule_make_task_lem p task in
      let rest = schedule_all_lem (schedule_make_task p task) tasks in
      record {
        state = rest.state ∙ first.state;
        runs = rest.runs ∙ first.runs;
        dropped = rest.dropped ∙ first.dropped;
        places = λ h. omega (arith, first.places h, rest.places h);
        known = λ f. ground (arith, first.known f, rest.known f);
      }

  -- Tasks that are scheduled are still left.
  pub schedule_all-IsMaking :
      (p : Progress E) (tasks : List (MakeTask E))
      → IsSound p.state (λ h. left_of p h + tally h tasks)
      → all (is_known (length p.state.module_graph.modules)) p.main_queue ≡ true
      → all (is_known (length p.state.module_graph.modules)) p.background_queue ≡ true
      → all (is_known (length p.state.module_graph.modules)) (queued p.loader_runs) ≡ true
      → all (is_known (length p.state.module_graph.modules)) tasks ≡ true
      → IsMaking (schedule_all p tasks)
  schedule_all-IsMaking p tasks h main behind runs known =
      let q = schedule_all p tasks in
      let s = schedule_all_lem p tasks in
      let n = length p.state.module_graph.modules in
      let counted = λ (m : ModuleHandle). ap (λ rs. tally m (queued rs)) s.runs in
      let lost = λ (m : ModuleHandle). ap (λ ts. tally m ts) s.dropped in
      let kept = s.known (is_known n) in
      let size : length q.state.module_graph.modules ≡ n =
        ap (λ (u : MakeState E). length u.module_graph.modules) s.state in
      record {
        sound =
            subst (λ (u : MakeState E). IsSound u (left_of q)) (sym s.state)
              (same-IsSound p.state (λ m. left_of p m + tally m tasks) (left_of q) h
                (λ m. omega (arith, s.places m, counted m, lost m)));
        main_known = rw size (ground (arith, kept));
        background_known = rw size (ground (arith, kept));
        runs_known = rw size (rw s.runs runs);
      }
