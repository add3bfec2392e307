-- ===== src/Cache.antt =====
-- The memory layer of the cache that collects unused generations:
-- crates/unpack_core/src/cache/memory_with_gc_cache_plugin.rs, with `CacheEntry` and `CacheLayerLookup`
-- of cache_layers.rs. Addresses, entity tags, families and values are parameters: the layer only
-- compares the first two.
pub mod Generations
pub mod Layers
pub mod Stack
mod Tests
use unpack.Prelude.{
  ℕ, ◌+◌, ◌-◌, Bool, Option, none, some, List, [], ◌∷◌, Eq, ◌==◌, option_eq, Map, get, insert, ltb,
  min, if◌then◌else◌,
}

pub record CacheEntry (Family ETag Value : Type 0) : Type 0 where
  pub family : Family
  pub etag : Option ETag
  pub value : Value

-- What a layer over a pack file leaves to be read without the lock. The file is the pointer to it
-- that is compared by `Arc::ptr_eq`; the namespace is part of the address.
pub record PersistentRestore (Address ETag : Type 0) : Type 0 where
  pub pack_file : ℕ
  pub reader_generation : ℕ
  pub address : Address
  pub etag : Option ETag

pub data CacheLayerLookup (Entry Restore : Type 0) : Type 0 where
  hit : Entry → CacheLayerLookup Entry Restore
  deferred : Restore → CacheLayerLookup Entry Restore
  miss : CacheLayerLookup Entry Restore

pub record MemoryCacheEntry (Entry : Type 0) : Type 0 where
  pub entry : Entry
  pub last_used_generation : ℕ

pub record MemoryWithGcCacheLayer (Address Entry : Type 0) : Type 0 where
  pub entries : Map Address (MemoryCacheEntry Entry)
  pub max_unused_generations : ℕ
  pub completed_generation : ℕ

-- `u64::saturating_add`
abbrev pub saturating_add : ℕ → ℕ → ℕ
saturating_add a b = min (a + b) 18446744073709551615

-- The `should_retain` of `on_compilation_completed`.
unfoldable pub should_retain : {Entry : Type 0} → ℕ → ℕ → MemoryCacheEntry Entry → Bool
should_retain completed_generation max_unused_generations e =
    ltb (completed_generation - e.last_used_generation) max_unused_generations

module _ {Address Family ETag Value : Type 0} ⦃address_eq : Eq Address⦄ ⦃etag_eq : Eq ETag⦄ where
  unfoldable pub new_layer : ℕ → MemoryWithGcCacheLayer Address (CacheEntry Family ETag Value)
  new_layer max_unused_generations = record {
    entries = [];
    max_unused_generations = max_unused_generations;
    completed_generation = 0;
  }

  unfoldable pub active_generation :
      MemoryWithGcCacheLayer Address (CacheEntry Family ETag Value) → ℕ
  active_generation l = saturating_add l.completed_generation 1

  -- `HashMap::retain`, with the families of what it drops.
  unfoldable pub retain_entries :
      (MemoryCacheEntry (CacheEntry Family ETag Value) → Bool)
      → Map Address (MemoryCacheEntry (CacheEntry Family ETag Value))
      → Map Address (MemoryCacheEntry (CacheEntry Family ETag Value)) × List Family
  retain_entries p [] = ([], [])
  retain_entries p ((address, e) ∷ rest) =
      let (kept, evicted) = retain_entries p rest in
      if p e then ((address, e) ∷ kept, evicted) else (kept, e.entry.family ∷ evicted)

  unfoldable pub on_compilation_completed :
      MemoryWithGcCacheLayer Address (CacheEntry Family ETag Value)
      → MemoryWithGcCacheLayer Address (CacheEntry Family ETag Value) × List Family
  unfolding should_retain retain_entries
  on_compilation_completed l =
      let completed = saturating_add l.completed_generation 1 in
      let (kept, evicted) =
        retain_entries (should_retain completed l.max_unused_generations) l.entries in
      (record l { entries = kept; completed_generation = completed }, evicted)

  unfoldable pub lookup :
      MemoryWithGcCacheLayer Address (CacheEntry Family ETag Value)
      → Address
      → Option ETag
      → MemoryWithGcCacheLayer Address (CacheEntry Family ETag Value)
        × CacheLayerLookup (CacheEntry Family ETag Value) (PersistentRestore Address ETag)
  unfolding active_generation
  lookup l address etag = elim (get address l.entries) [
    | none ↦ (l, CacheLayerLookup.miss)
    | some e ↦
        if e.entry.etag == etag
        then (
          record l {
            entries =
                insert address (record e { last_used_generation = active_generation l }) l.entries;
          },
          CacheLayerLookup.hit e.entry,
        )
        else (l, CacheLayerLookup.miss)
  ]

  unfoldable pub store :
      MemoryWithGcCacheLayer Address (CacheEntry Family ETag Value)
      → Address
      → CacheEntry Family ETag Value
      → MemoryWithGcCacheLayer Address (CacheEntry Family ETag Value)
  unfolding active_generation
  store l address entry = record l {
    entries =
        insert address (record { entry = entry; last_used_generation = active_generation l })
          l.entries;
  }

  unfoldable pub clear :
      MemoryWithGcCacheLayer Address (CacheEntry Family ETag Value)
      → MemoryWithGcCacheLayer Address (CacheEntry Family ETag Value)
  clear l = record l { entries = [] }
