-- ===== src/Cache/Stack.antt =====
-- The stack of the cache's layers: `CacheLayers` of crates/unpack_core/src/cache/cache_layers.rs, how
-- it is set up, written to and cleared.
pub mod Gets
pub mod Stored
pub mod Sound
pub mod Restored
pub mod Finished
pub mod Promoted
pub mod Again
pub mod Refines
pub mod Ends
mod Tests
use unpack.Prelude.{
  ℕ, zero, suc, ◌+◌, Bool, true, false, not, Option, none, some, List, [], ◌∷◌, ◌++◌, map, Eq, ◌==◌,
  ◌&&◌, ◌||◌, ◌>>=◌, nat_eq, length, if◌then◌else◌,
}
use unpack.Cache.{
  CacheEntry, CacheLayerLookup, PersistentRestore, MemoryWithGcCacheLayer, new_layer,
  on_compilation_completed,
}
use unpack.Cache.Layers.{
  CacheItemFamily, CacheItemWork, CacheWorkCounters, for_family_mut, CacheLayerSlot,
  MemoryCacheLayer, PackFileCacheLayer, SharedPackFile, slot_lookup, slot_store, slot_clear,
  slot_writable, is_persistent,
}

pub record CacheLayers (Slot : Type 0) : Type 0 where
  pub layers : List Slot
  pub work : CacheWorkCounters

pub record CacheRestore (Restore : Type 0) : Type 0 where
  pub layer_index : ℕ
  pub restore : Restore

pub data CacheGet (V Restore : Type 0) : Type 0 where
  ready : Option V → Bool → CacheGet V Restore
  deferred : CacheRestore Restore → CacheGet V Restore

pub data CacheKind : Type 0 where
  disabled : CacheKind
  memory : CacheKind
  filesystem : CacheKind

-- The options that decide which layers there are.
pub record CacheOptions : Type 0 where
  pub kind : CacheKind
  pub max_memory_generations : Option ℕ
  pub readonly : Bool

abbrev no_work : CacheItemWork
no_work = record { hits = 0; misses = 0; stores = 0; restores = 0; evictions = 0 }

abbrev pub no_counters : CacheWorkCounters
no_counters = record {
  of_resolve = no_work;
  of_module_build = no_work;
  of_code_generation = no_work;
  of_asset_render = no_work;
}

abbrev pub count_hit : CacheItemWork → CacheItemWork
count_hit w = record w { hits = w.hits + 1 }

abbrev pub count_miss : CacheItemWork → CacheItemWork
count_miss w = record w { misses = w.misses + 1 }

abbrev pub count_store : CacheItemWork → CacheItemWork
count_store w = record w { stores = w.stores + 1 }

abbrev pub count_restore : CacheItemWork → CacheItemWork
count_restore w = record w { restores = w.restores + 1 }

abbrev pub count_eviction : CacheItemWork → CacheItemWork
count_eviction w = record w { evictions = w.evictions + 1 }

-- `PersistentRestore::reads_from`
unfoldable pub reads_from :
    {Address ETag : Type 0} → PersistentRestore Address ETag → PersistentRestore Address ETag → Bool
reads_from a b = a.reader_generation == b.reader_generation && a.pack_file == b.pack_file

unfoldable pub evict_families : CacheWorkCounters → List CacheItemFamily → CacheWorkCounters
unfolding for_family_mut
evict_families work [] = work
evict_families work (family ∷ families) =
    evict_families (for_family_mut work family count_eviction) families

module _ {Address ETag Value File : Type 0} ⦃address_eq : Eq Address⦄ ⦃etag_eq : Eq ETag⦄ where
  -- The layer over the pack file is opened elsewhere.
  unfoldable pub from_options :
      PackFileCacheLayer Address (CacheEntry CacheItemFamily ETag Value) File
      → CacheOptions
      → CacheLayers (CacheLayerSlot Address (CacheEntry CacheItemFamily ETag Value) File)
  unfolding new_layer
  from_options opened options = record {
    layers =
        memory_layers options.kind options.max_memory_generations ++ persistent_layers options.kind;
    work = no_counters;
  }
    where
      memory_layers :
          CacheKind
          → Option ℕ
          → List (CacheLayerSlot Address (CacheEntry CacheItemFamily ETag Value) File)
      memory_layers CacheKind.disabled generations = []
      memory_layers _ none = CacheLayerSlot.memory (record { entries = [] }) ∷ []
      memory_layers _ (some zero) = []
      memory_layers _ (some (suc n)) = CacheLayerSlot.memory_with_gc (new_layer (suc n)) ∷ []

      persistent_layers :
          CacheKind → List (CacheLayerSlot Address (CacheEntry CacheItemFamily ETag Value) File)
      persistent_layers CacheKind.disabled = []
      persistent_layers CacheKind.memory = []
      persistent_layers CacheKind.filesystem =
          CacheLayerSlot.persistent (not options.readonly) opened ∷ []

  -- The loops that write an entry to the layers that may be written.
  unfoldable pub store_writable :
      Address
      → CacheEntry CacheItemFamily ETag Value
      → List (CacheLayerSlot Address (CacheEntry CacheItemFamily ETag Value) File)
      → List (CacheLayerSlot Address (CacheEntry CacheItemFamily ETag Value) File)
  unfolding slot_store slot_writable
  store_writable address entry [] = []
  store_writable address entry (slot ∷ slots) =
      (if slot_writable slot then slot_store slot address entry else slot)
      ∷ store_writable address entry slots

  unfoldable pub stored_persistently :
      List (CacheLayerSlot Address (CacheEntry CacheItemFamily ETag Value) File) → Bool
  unfolding slot_writable is_persistent
  stored_persistently [] = false
  stored_persistently (slot ∷ slots) =
      slot_writable slot && is_persistent slot || stored_persistently slots

  unfoldable pub layers_store :
      CacheItemFamily
      → Address
      → Option ETag
      → Value
      → CacheLayers (CacheLayerSlot Address (CacheEntry CacheItemFamily ETag Value) File)
      → CacheLayers (CacheLayerSlot Address (CacheEntry CacheItemFamily ETag Value) File) × Bool
  unfolding store_writable stored_persistently for_family_mut
  layers_store family address etag value l = (
    record {
      layers =
          store_writable address (record { family = family; etag = etag; value = value }) l.layers;
      work = for_family_mut l.work family count_store;
    },
    stored_persistently l.layers,
  )

  unfoldable pub layers_clear :
      CacheLayers (CacheLayerSlot Address (CacheEntry CacheItemFamily ETag Value) File)
      → CacheLayers (CacheLayerSlot Address (CacheEntry CacheItemFamily ETag Value) File)
  unfolding slot_clear
  layers_clear l = record l { layers = map slot_clear l.layers }

  -- The loop over the slots, with the families of what the layers evict.
  unfoldable pub complete_slots :
      List (CacheLayerSlot Address (CacheEntry CacheItemFamily ETag Value) File)
      → CacheWorkCounters
      → CacheLayers (CacheLayerSlot Address (CacheEntry CacheItemFamily ETag Value) File)
  unfolding on_compilation_completed evict_families
  complete_slots [] work = record { layers = []; work = work }
  complete_slots (CacheLayerSlot.memory_with_gc l ∷ slots) work =
      let (after, families) = on_compilation_completed l in
      let rest = complete_slots slots (evict_families work families) in
      record rest { layers = CacheLayerSlot.memory_with_gc after ∷ rest.layers }
  complete_slots (CacheLayerSlot.memory l ∷ slots) work =
      let rest = complete_slots slots work in
      record rest { layers = CacheLayerSlot.memory l ∷ rest.layers }
  complete_slots (CacheLayerSlot.persistent writable l ∷ slots) work =
      let rest = complete_slots slots work in
      record rest { layers = CacheLayerSlot.persistent writable l ∷ rest.layers }

  unfoldable pub layers_on_compilation_completed :
      CacheLayers (CacheLayerSlot Address (CacheEntry CacheItemFamily ETag Value) File)
      → CacheLayers (CacheLayerSlot Address (CacheEntry CacheItemFamily ETag Value) File)
  unfolding complete_slots
  layers_on_compilation_completed l = complete_slots l.layers l.work
