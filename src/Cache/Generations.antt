-- ===== src/Cache/Generations.antt =====
-- How long an entry stays in the memory layer that collects unused generations.
use unpack.Prelude.{
  ℕ, zero, suc, ◌+◌, ◌≤◌, ◌<◌, Bool, true, false, none, some, [], ◌∷◌, ◌≡◌, refl, arith, Eq, ◌==◌,
  option_eq, eqb_refl, Map, get, insert, get-insert, Bool-cases, inl, inr,
}
use unpack.Cache.{
  CacheEntry, CacheLayerLookup, MemoryCacheEntry, MemoryWithGcCacheLayer, active_generation,
  should_retain, retain_entries, on_compilation_completed, lookup, store,
}

module _ {Address Family ETag Value : Type 0} ⦃address_eq : Eq Address⦄ ⦃etag_eq : Eq ETag⦄ where
  -- As many completed compilations, one after another.
  unfoldable pub complete :
      ℕ
      → MemoryWithGcCacheLayer Address (CacheEntry Family ETag Value)
      → MemoryWithGcCacheLayer Address (CacheEntry Family ETag Value)
  complete zero l = l
  complete (suc n) l = complete n (on_compilation_completed l).0

  get-retain_kept :
      (p : MemoryCacheEntry (CacheEntry Family ETag Value) → Bool)
      (m : Map Address (MemoryCacheEntry (CacheEntry Family ETag Value))) (address : Address)
      (e : MemoryCacheEntry (CacheEntry Family ETag Value))
      → get address m ≡ some e
      → p e ≡ true
      → get address (retain_entries p m).0 ≡ some e
  unfolding retain_entries
  get-retain_kept p [] address e found kept = cc
  get-retain_kept p ((a, d) ∷ rest) address e found kept = elim (Bool-cases (a == address)) [
    | inl here ↦ ground (arith, found)
    | inr there ↦ ground (arith, get-retain_kept p rest address e)
  ]

  complete_keeps :
      (n : ℕ) (l : MemoryWithGcCacheLayer Address (CacheEntry Family ETag Value))
      (address : Address) (e : MemoryCacheEntry (CacheEntry Family ETag Value))
      → get address l.entries ≡ some e
      → l.completed_generation + n < 18446744073709551615
      → e.last_used_generation ≤ l.completed_generation + 1
      → l.completed_generation + n < l.max_unused_generations + e.last_used_generation
      → get address (complete n l).entries ≡ some e
  unfolding complete on_compilation_completed should_retain
  complete_keeps zero l address e found bound used young = found
  complete_keeps (suc n) l address e found bound used young =
      complete_keeps n (on_compilation_completed l).0 address e
        (get-retain_kept _ l.entries address e found (ground arith)) (ground arith) (ground arith)
        (ground arith)

  -- An entry that was stored is found again under its tag after as many completed compilations as
  -- the layer lets an entry be unused, and after any smaller number, while the generations fit in
  -- 64 bits.
  pub lookup-complete_store :
      (n : ℕ) (l : MemoryWithGcCacheLayer Address (CacheEntry Family ETag Value))
      (address : Address) (entry : CacheEntry Family ETag Value)
      → l.completed_generation + n < 18446744073709551615
      → n ≤ l.max_unused_generations
      → (lookup (complete n (store l address entry)) address entry.etag).1
        ≡ CacheLayerLookup.hit entry
  unfolding lookup store active_generation
  lookup-complete_store n l address entry bound few =
      let e : MemoryCacheEntry (CacheEntry Family ETag Value) = record {
        entry = entry;
        last_used_generation = active_generation l;
      } in
      let found : get address (store l address entry).entries ≡ some e =
        ground (arith, get-insert address address e l.entries, eqb_refl address) in
      let still =
        complete_keeps n (store l address entry) address e found bound (ground arith)
          (ground arith) in
      rw (still, lookup, eqb_refl entry.etag) refl

  -- A hash map has one entry for a key.
  abbrev pub IsMap : Map Address (MemoryCacheEntry (CacheEntry Family ETag Value)) → Type 0
  IsMap [] = Unit
  IsMap ((address, e) ∷ rest) = (get address rest ≡ none) × IsMap rest

  IsMap-insert :
      (m : Map Address (MemoryCacheEntry (CacheEntry Family ETag Value))) (address : Address)
      (e : MemoryCacheEntry (CacheEntry Family ETag Value))
      → IsMap m
      → IsMap (insert address e m)
  IsMap-insert [] address e h = (refl, tt)
  IsMap-insert ((a, d) ∷ rest) address e (fresh, h) = elim (Bool-cases (a == address)) [
    | inl here ↦ rw here (fresh, h)
    | inr there ↦ rw there (
      ground (
        arith,
        get-insert address a e rest,
        address_eq.eqb_iff address a,
        address_eq.eqb_iff a address,
        fresh,
      ),
      IsMap-insert rest address e h,
    )
  ]

  get-retain_none :
      (p : MemoryCacheEntry (CacheEntry Family ETag Value) → Bool)
      (m : Map Address (MemoryCacheEntry (CacheEntry Family ETag Value))) (address : Address)
      → get address m ≡ none
      → get address (retain_entries p m).0 ≡ none
  unfolding retain_entries
  get-retain_none p [] address h = refl
  get-retain_none p ((a, d) ∷ rest) address h = ground (arith, get-retain_none p rest address)

  IsMap-retain :
      (p : MemoryCacheEntry (CacheEntry Family ETag Value) → Bool)
      (m : Map Address (MemoryCacheEntry (CacheEntry Family ETag Value)))
      → IsMap m
      → IsMap (retain_entries p m).0
  unfolding retain_entries
  IsMap-retain p [] h = tt
  IsMap-retain p ((a, d) ∷ rest) (fresh, h) = elim (Bool-cases (p d)) [
    | inl kept ↦ rw kept (get-retain_none p rest a fresh, IsMap-retain p rest h)
    | inr dropped ↦ rw dropped (IsMap-retain p rest h)
  ]

  get-retain_dropped :
      (p : MemoryCacheEntry (CacheEntry Family ETag Value) → Bool)
      (m : Map Address (MemoryCacheEntry (CacheEntry Family ETag Value))) (address : Address)
      (e : MemoryCacheEntry (CacheEntry Family ETag Value))
      → IsMap m
      → get address m ≡ some e
      → p e ≡ false
      → get address (retain_entries p m).0 ≡ none
  unfolding retain_entries
  get-retain_dropped p [] address e h found dropped = refl
  get-retain_dropped p ((a, d) ∷ rest) address e (fresh, h) found dropped =
      elim (Bool-cases (a == address)) [
        | inl here ↦
            ground
              (arith, found, fresh, address_eq.eqb_iff a address, get-retain_none p rest address)
        | inr there ↦ ground (arith, found, get-retain_dropped p rest address e h)
      ]

  complete_none :
      (n : ℕ) (l : MemoryWithGcCacheLayer Address (CacheEntry Family ETag Value))
      (address : Address)
      → get address l.entries ≡ none
      → get address (complete n l).entries ≡ none
  unfolding complete on_compilation_completed
  complete_none zero l address h = h
  complete_none (suc n) l address h =
      complete_none n (on_compilation_completed l).0 address (get-retain_none _ l.entries address h)

  complete_drops :
      (n : ℕ) (l : MemoryWithGcCacheLayer Address (CacheEntry Family ETag Value))
      (address : Address) (e : MemoryCacheEntry (CacheEntry Family ETag Value))
      → IsMap l.entries
      → get address l.entries ≡ some e
      → l.completed_generation + suc n < 18446744073709551615
      → e.last_used_generation ≤ l.completed_generation + 1
      → l.max_unused_generations + e.last_used_generation ≤ l.completed_generation + suc n
      → get address (complete (suc n) l).entries ≡ none
  unfolding complete on_compilation_completed should_retain
  complete_drops zero l address e h found bound used old =
      get-retain_dropped _ l.entries address e h found (ground arith)
  complete_drops (suc n) l address e h found bound used old =
      let m = (on_compilation_completed l).0 in
      let p = should_retain m.completed_generation l.max_unused_generations in
      elim (Bool-cases (p e)) [
        | inr dropped ↦
            complete_none (suc n) m address
              (get-retain_dropped p l.entries address e h found dropped)
        | inl kept ↦
            complete_drops n m address e (IsMap-retain p l.entries h)
              (get-retain_kept p l.entries address e found kept) (ground arith) (ground arith)
              (ground arith)
      ]

  -- In a layer with one entry for an address, an entry that was stored is no longer found once more compilations were completed than the layer
  -- lets an entry be unused, while the generations fit in 64 bits.
  pub lookup-complete_collected :
      (n : ℕ) (l : MemoryWithGcCacheLayer Address (CacheEntry Family ETag Value))
      (address : Address) (entry : CacheEntry Family ETag Value)
      → IsMap l.entries
      → l.completed_generation + n < 18446744073709551615
      → l.max_unused_generations < n
      → (lookup (complete n (store l address entry)) address entry.etag).1 ≡ CacheLayerLookup.miss
  unfolding lookup store active_generation
  lookup-complete_collected zero l address entry h bound many = absurd (omega arith)
  lookup-complete_collected (suc n) l address entry h bound many =
      let e : MemoryCacheEntry (CacheEntry Family ETag Value) = record {
        entry = entry;
        last_used_generation = active_generation l;
      } in
      let found : get address (store l address entry).entries ≡ some e =
        ground (arith, get-insert address address e l.entries, eqb_refl address) in
      let gone =
        complete_drops n (store l address entry) address e (IsMap-insert l.entries address e h)
          found bound (ground arith) (ground arith) in
      rw (gone, lookup) refl
