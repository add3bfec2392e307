-- ===== src/BuildChunkGraph/Static.antt =====
-- `collect_static_reachable` returns the modules that can be reached by static connections, each once.
use unpack.Prelude.{
  ap, contains-push, contains-append, ◌∙◌, get_or-get_elem?, Option-cases, ◌*◌, get_elem?-lt,
  nat_eqb_iff, ℕ, zero, suc, ◌<◌, Bool, true, false, not, some, List, [], ◌∷◌, ◌++◌, ◌≡◌, ◌↔◌, refl,
  arith, nat_eq, length, contains, map_option, get_elem?, some_of, Bool-cases, inl, inr, IsUnique,
}
use unpack.Module.{ModuleHandle}
use unpack.ModuleGraph.{
  ModuleGraphConnection, ModuleGraphStorage, ModuleGraphConnectionHandle, outgoing_connections,
  resolve_handles,
}
use unpack.ModuleGraph.Indexed.{IsIndexed}
use unpack.ModuleMask.{ModuleMask, new_mask, mask_insert, mask_contains}
use unpack.ModuleMask.Sets.{Inserts, mask_insert_total, new_mask-contains, new_mask_room}
use unpack.Worklist.{explore}
use unpack.Worklist.Measure.{Below, explore_total}
use unpack.Worklist.Reach.{Reach, Explored, explore-Explored}
use unpack.BuildChunkGraph.{
  is_static_connection, static_targets, static_loop, static_next, static_fuel,
  collect_static_reachable,
}

module _ {M : Type 0} (g : ModuleGraphStorage M) (h : IsIndexed g) where
  abbrev AllIn : List ModuleGraphConnection → Type 0
  AllIn [] = Unit
  AllIn (c ∷ cs) = (c.module_handle < length g.modules) × AllIn cs

  resolve_handles_total :
      (hs : List ModuleGraphConnectionHandle)
      → ((i : ModuleGraphConnectionHandle)
          → contains hs i ≡ true
          → (c : ModuleGraphConnection) × (get_elem? g.connections i ≡ some c))
      → (cs : List ModuleGraphConnection) × (resolve_handles g hs ≡ some cs) × AllIn cs
  unfolding resolve_handles
  resolve_handles_total [] known = ([], refl, tt)
  resolve_handles_total (i ∷ hs) known =
      let (c, found) = known i (ground (arith, nat_eqb_iff i i)) in
      let (cs, resolved, inside) = resolve_handles_total hs (λ j e. known j (ground arith)) in
      (c ∷ cs, rw (found, resolved) refl, (h.targets i c found, inside))

  listed_connection :
      (m : ModuleHandle) (hs : List ModuleGraphConnectionHandle) (i : ModuleGraphConnectionHandle)
      → get_elem? g.outgoing m ≡ some hs
      → contains hs i ≡ true
      → (c : ModuleGraphConnection) × (get_elem? g.connections i ≡ some c)
  listed_connection m hs i found e = elim (Option-cases (get_elem? g.connections i)) [
    | inl out ↦ absurd (ground (arith, h.outgoing_exact m i, get_or-get_elem? g.outgoing m []))
    | inr known ↦ known
  ]

  outgoing_connections_total :
      (m : ModuleHandle)
      → m < length g.modules
      → (cs : List ModuleGraphConnection) × (outgoing_connections g m ≡ some cs) × AllIn cs
  unfolding outgoing_connections
  outgoing_connections_total m low =
      let (hs, found) = get_elem?-lt g.outgoing m (omega (arith, h.outgoing_size)) in
      let (cs, resolved, inside) =
        resolve_handles_total hs (λ i e. listed_connection m hs i found e) in
      (cs, rw (found, resolved) refl, inside)

  static_targets-Below :
      (cs : List ModuleGraphConnection)
      → AllIn cs
      → Below (static_next g) (length g.modules) (static_targets cs)
  unfolding static_targets
  static_targets-Below [] inside x e = cc
  static_targets-Below (c ∷ cs) (low, inside) x e = elim (Bool-cases (is_static_connection c)) [
    | inl pushed ↦ ground (arith, static_targets-Below cs inside x, nat_eqb_iff c.module_handle x)
    | inr skipped ↦ ground (arith, static_targets-Below cs inside x)
  ]

  static_next_lem :
      (m : ModuleHandle)
      → m < length g.modules
      → (cs : List ModuleGraphConnection) × (outgoing_connections g m ≡ some cs)
        × (static_next g m ≡ static_targets cs)
        × Below (static_next g) (length g.modules) (static_next g m)
  unfolding static_next
  static_next_lem m low =
      let (cs, found, inside) = outgoing_connections_total m low in
      let same : static_next g m ≡ static_targets cs = rw (found, static_next) refl in
      (cs, found, same, λ x e. static_targets-Below cs inside x (rw same at e))

  -- What stands in the mask, and what stays inside the graph.
  record Agrees (queue : List ModuleHandle) (visited : ModuleMask) (modules : List ModuleHandle)
      : Type 0 where
    inside : Below (static_next g) (length g.modules) queue
    room : (m : ModuleHandle) → m < length g.modules → m < 64 * length visited.words
    same : (x : ModuleHandle) → mask_contains visited x ≡ contains modules x

  changed_of :
      (visited t : ModuleMask) (m : ModuleHandle) (changed : Bool) (modules : List ModuleHandle)
      → Inserts visited t m changed
      → mask_contains visited m ≡ contains modules m
      → changed ≡ not (contains modules m)
  changed_of visited t m changed modules ins same = ins.fresh ∙ ap not same

  pass_round :
      (fuel : ℕ) (m : ModuleHandle) (queue : List ModuleHandle) (visited t : ModuleMask)
      (modules : List ModuleHandle) (changed : Bool)
      → mask_insert visited m ≡ some (t, changed)
      → changed ≡ false
      → static_loop (suc fuel) g (m ∷ queue) visited modules ≡ static_loop fuel g queue t modules
  unfolding static_loop
  pass_round fuel m queue visited t modules changed inserted old = rw (inserted, old) refl

  visit_round :
      (fuel : ℕ) (m : ModuleHandle) (queue : List ModuleHandle) (visited t : ModuleMask)
      (modules : List ModuleHandle) (changed : Bool) (cs : List ModuleGraphConnection)
      → mask_insert visited m ≡ some (t, changed)
      → changed ≡ true
      → outgoing_connections g m ≡ some cs
      → static_next g m ≡ static_targets cs
      → static_loop (suc fuel) g (m ∷ queue) visited modules
        ≡ static_loop fuel g (queue ++ static_next g m) t (modules ++ m ∷ [])
  unfolding static_loop
  visit_round fuel m queue visited t modules changed cs inserted new found next =
      rw (inserted, new, found, next) refl

  Agrees-pass :
      (m : ModuleHandle) (queue : List ModuleHandle) (visited t : ModuleMask)
      (modules : List ModuleHandle) (changed : Bool)
      → Agrees (m ∷ queue) visited modules
      → Inserts visited t m changed
      → contains modules m ≡ true
      → Agrees queue t modules
  Agrees-pass m queue visited t modules changed a ins old = record {
    inside = λ x e. a.inside x (ground arith);
    room = λ x low. rw ins.size (a.room x low);
    same = λ x. ground (arith, ins.added x, a.same x, nat_eqb_iff m x);
  }

  Agrees-visit :
      (m : ModuleHandle) (queue : List ModuleHandle) (visited t : ModuleMask)
      (modules : List ModuleHandle) (changed : Bool)
      → Agrees (m ∷ queue) visited modules
      → Inserts visited t m changed
      → Below (static_next g) (length g.modules) (static_next g m)
      → Agrees (queue ++ static_next g m) t (modules ++ m ∷ [])
  Agrees-visit m queue visited t modules changed a ins below = record {
    inside = λ x e. elim (Bool-cases (contains queue x)) [
      | inl before ↦ a.inside x (ground arith)
      | inr pushed ↦ below x (ground (arith, contains-append queue (static_next g m) x))
    ];
    room = λ x low. rw ins.size (a.room x low);
    same = λ x. ground (arith, ins.added x, a.same x, contains-push modules m x);
  }

  static_loop-explore :
      (fuel : ℕ) (queue : List ModuleHandle) (visited : ModuleMask) (modules : List ModuleHandle)
      → Agrees queue visited modules
      → static_loop fuel g queue visited modules
        ≡ map_option
            (λ (p : Bool × List ℕ). p.1)
            (explore (static_next g) (λ _. false) fuel queue modules)
  unfolding static_loop explore
  static_loop-explore zero queue visited modules a = refl
  static_loop-explore (suc fuel) [] visited modules a = refl
  static_loop-explore (suc fuel) (m ∷ queue) visited modules a =
      let low = a.inside m (ground (arith, nat_eqb_iff m m)) in
      let (t, changed, ins) = mask_insert_total visited m (a.room m low) in
      let (cs, found, next, below) = static_next_lem m low in
      let fresh = changed_of visited t m changed modules ins (a.same m) in
      elim (Bool-cases (contains modules m)) [
        | inl old ↦
            pass_round fuel m queue visited t modules changed ins.returned (fresh ∙ ap not old)
            ∙ static_loop-explore fuel queue t modules
                (Agrees-pass m queue visited t modules changed a ins old)
            ∙ rw old refl
        | inr new ↦
            visit_round fuel m queue visited t modules changed cs ins.returned (fresh ∙ ap not new)
              found next
            ∙ static_loop-explore fuel (queue ++ static_next g m) t (modules ++ m ∷ [])
                (Agrees-visit m queue visited t modules changed a ins below)
            ∙ rw new refl
      ]

  Agrees-start :
      (start : ModuleHandle)
      → start < length g.modules
      → Agrees (start ∷ []) (new_mask (length g.modules)) []
  Agrees-start start low = record {
    inside = λ x e. ground (arith, nat_eqb_iff start x);
    room = new_mask_room (length g.modules);
    same = new_mask-contains (length g.modules);
  }

  -- In a well indexed graph `collect_static_reachable` does what the worklist over the static
  -- connections does.
  collect_static_reachable-explore :
      (start : ModuleHandle)
      → start < length g.modules
      → collect_static_reachable g start
        ≡ map_option
            (λ (p : Bool × List ℕ). p.1)
            (explore (static_next g) (λ _. false) (static_fuel g) (start ∷ []) [])
  unfolding collect_static_reachable
  collect_static_reachable-explore start low =
      static_loop-explore (static_fuel g) (start ∷ []) (new_mask (length g.modules)) []
        (Agrees-start start low)

  -- What `collect_static_reachable` promises.
  pub record Collects (start : ModuleHandle) (modules : List ModuleHandle) : Type 0 where
    pub exact : (x : ModuleHandle) → (contains modules x ≡ true) ↔ Reach (static_next g) start x
    pub unique : IsUnique modules

  Explored-Collects :
      (start : ModuleHandle) (found : Bool) (modules : List ModuleHandle)
      → Explored (static_next g) (λ _. false) start found modules
      → Collects start modules
  Explored-Collects start true modules end = let (x, (_, never)) = end.hit refl in absurd (cc never)
  Explored-Collects start false modules end = record {
    exact = λ x. (end.reached x, λ p. (end.all refl x p).0);
    unique = end.unique;
  }

  -- In a well indexed graph `collect_static_reachable` returns for every module of the graph, and
  -- what it returns are the modules that can be reached by active static connections outside of
  -- blocks, each once.
  pub collect_static_reachable_lem :
      (start : ModuleHandle)
      → start < length g.modules
      → (modules : List ModuleHandle) × (collect_static_reachable g start ≡ some modules)
        × Collects start modules
  collect_static_reachable_lem start low =
      let ((found, modules), ended) =
        some_of (explore (static_next g) (λ _. false) (static_fuel g) (start ∷ []) []) (
          explore_total (static_next g) (λ _. false) (length g.modules) (static_fuel g) (start ∷ [])
            [] (λ m l. (static_next_lem m l).3) (λ x e. ground (arith, nat_eqb_iff start x))
            (omega arith)) in
      let end =
        explore-Explored (static_next g) (λ _. false) start (static_fuel g) found modules ended in
      (
        modules,
        collect_static_reachable-explore start low
            ∙ ap (map_option (λ (p : Bool × List ℕ). p.1)) ended,
        Explored-Collects start found modules end,
      )
