-- ===== src/Cache/Layers.antt =====
-- The layers of the cache, one by one: crates/unpack_core/src/cache/cache_layers.rs, with
-- memory_cache_plugin.rs and what pack_file_cache_strategy.rs answers to a lookup. A value of any
-- type is a value of the parameter `Value`. Of the state of the layer over a pack file the parts that
-- only a publication reads are left out; the pack file has the pointer it is shared by, and a content.
use unpack.Prelude.{
  ℕ, ◌+◌, ◌%◌, ◌^◌, Bool, true, false, Option, none, some, [], Eq, ◌==◌, option_eq, Map, get,
  insert, nat_eq, if◌then◌else◌,
}
use unpack.Cache.{
  CacheEntry, CacheLayerLookup, PersistentRestore, MemoryWithGcCacheLayer, lookup, store, clear,
}

pub data CacheItemFamily : Type 0 where
  resolve : CacheItemFamily
  module_build : CacheItemFamily
  code_generation : CacheItemFamily
  asset_render : CacheItemFamily

pub record CacheItemWork : Type 0 where
  pub hits : ℕ
  pub misses : ℕ
  pub stores : ℕ
  pub restores : ℕ
  pub evictions : ℕ

-- The array that a family indexes has a field for each family.
pub record CacheWorkCounters : Type 0 where
  pub of_resolve : CacheItemWork
  pub of_module_build : CacheItemWork
  pub of_code_generation : CacheItemWork
  pub of_asset_render : CacheItemWork

unfoldable pub for_family : CacheWorkCounters → CacheItemFamily → CacheItemWork
for_family work CacheItemFamily.resolve = work.of_resolve
for_family work CacheItemFamily.module_build = work.of_module_build
for_family work CacheItemFamily.code_generation = work.of_code_generation
for_family work CacheItemFamily.asset_render = work.of_asset_render

unfoldable pub for_family_mut :
    CacheWorkCounters → CacheItemFamily → (CacheItemWork → CacheItemWork) → CacheWorkCounters
for_family_mut work CacheItemFamily.resolve f = record work { of_resolve = f work.of_resolve }
for_family_mut work CacheItemFamily.module_build f = record work {
  of_module_build = f work.of_module_build;
}
for_family_mut work CacheItemFamily.code_generation f = record work {
  of_code_generation = f work.of_code_generation;
}
for_family_mut work CacheItemFamily.asset_render f = record work {
  of_asset_render = f work.of_asset_render;
}

pub record MemoryCacheLayer (Address Entry : Type 0) : Type 0 where
  pub entries : Map Address Entry

pub record SharedPackFile (File : Type 0) : Type 0 where
  pub pointer : ℕ
  pub content : File

pub data PublicationBase : Type 0 where
  preserve_entries : ℕ → PublicationBase
  replace_all : PublicationBase

pub record PackFileCacheLayer (Address Entry File : Type 0) : Type 0 where
  pub pack_file : Option (SharedPackFile File)
  pub reader_generation : ℕ
  pub publication_base : PublicationBase
  pub active : Bool
  pub pending : Map Address Entry

pub data CacheLayerSlot (Address Entry File : Type 0) : Type 0 where
  memory : MemoryCacheLayer Address Entry → CacheLayerSlot Address Entry File
  memory_with_gc : MemoryWithGcCacheLayer Address Entry → CacheLayerSlot Address Entry File
  persistent : Bool → PackFileCacheLayer Address Entry File → CacheLayerSlot Address Entry File

module _ {ETag Value : Type 0} ⦃etag_eq : Eq ETag⦄ where
  -- `.get(address).filter(|entry| entry.etag == etag)`
  abbrev pub tagged :
      Option (CacheEntry CacheItemFamily ETag Value)
      → Option ETag
      → Option (CacheEntry CacheItemFamily ETag Value)
  tagged none etag = none
  tagged (some e) etag = if e.etag == etag then some e else none

module _ {Address ETag Value : Type 0} ⦃address_eq : Eq Address⦄ ⦃etag_eq : Eq ETag⦄ where
  unfoldable pub memory_lookup :
      MemoryCacheLayer Address (CacheEntry CacheItemFamily ETag Value)
      → Address
      → Option ETag
      → CacheLayerLookup (CacheEntry CacheItemFamily ETag Value) (PersistentRestore Address ETag)
  memory_lookup l address etag = elim (tagged (get address l.entries) etag) [
    | some e ↦ CacheLayerLookup.hit e
    | none ↦ CacheLayerLookup.miss
  ]

module _ {Address ETag Value File : Type 0} ⦃address_eq : Eq Address⦄ ⦃etag_eq : Eq ETag⦄ where
  unfoldable pub pack_file_lookup :
      PackFileCacheLayer Address (CacheEntry CacheItemFamily ETag Value) File
      → Address
      → Option ETag
      → CacheLayerLookup (CacheEntry CacheItemFamily ETag Value) (PersistentRestore Address ETag)
  pack_file_lookup l address etag = elim (tagged (get address l.pending) etag) [
    | some e ↦ CacheLayerLookup.hit e
    | none ↦ elim l.active [
      | false ↦ CacheLayerLookup.miss
      | true ↦ elim l.pack_file [
        | none ↦ CacheLayerLookup.miss
        | some file ↦ CacheLayerLookup.deferred (record {
          pack_file = file.pointer;
          reader_generation = l.reader_generation;
          address = address;
          etag = etag;
        })
      ]
    ]
  ]

  unfoldable pub pack_file_clear :
      PackFileCacheLayer Address (CacheEntry CacheItemFamily ETag Value) File
      → PackFileCacheLayer Address (CacheEntry CacheItemFamily ETag Value) File
  pack_file_clear l = record l {
    pending = [];
    active = false;
    reader_generation = (l.reader_generation + 1) % 2 ^ 64;
    publication_base = PublicationBase.replace_all;
  }

  unfoldable pub slot_writable :
      CacheLayerSlot Address (CacheEntry CacheItemFamily ETag Value) File → Bool
  slot_writable (CacheLayerSlot.memory l) = true
  slot_writable (CacheLayerSlot.memory_with_gc l) = true
  slot_writable (CacheLayerSlot.persistent writable l) = writable

  unfoldable pub slot_lookup :
      CacheLayerSlot Address (CacheEntry CacheItemFamily ETag Value) File
      → Address
      → Option ETag
      → CacheLayerSlot Address (CacheEntry CacheItemFamily ETag Value) File
        × CacheLayerLookup (CacheEntry CacheItemFamily ETag Value) (PersistentRestore Address ETag)
  unfolding memory_lookup pack_file_lookup lookup
  slot_lookup (CacheLayerSlot.memory l) address etag =
      (CacheLayerSlot.memory l, memory_lookup l address etag)
  slot_lookup (CacheLayerSlot.memory_with_gc l) address etag =
      let (after, answer) = lookup l address etag in (CacheLayerSlot.memory_with_gc after, answer)
  slot_lookup (CacheLayerSlot.persistent writable l) address etag =
      (CacheLayerSlot.persistent writable l, pack_file_lookup l address etag)

  unfoldable pub slot_store :
      CacheLayerSlot Address (CacheEntry CacheItemFamily ETag Value) File
      → Address
      → CacheEntry CacheItemFamily ETag Value
      → CacheLayerSlot Address (CacheEntry CacheItemFamily ETag Value) File
  unfolding store
  slot_store (CacheLayerSlot.memory l) address entry =
      CacheLayerSlot.memory (record l { entries = insert address entry l.entries })
  slot_store (CacheLayerSlot.memory_with_gc l) address entry =
      CacheLayerSlot.memory_with_gc (store l address entry)
  slot_store (CacheLayerSlot.persistent writable l) address entry =
      CacheLayerSlot.persistent writable (record l { pending = insert address entry l.pending })

  unfoldable pub slot_clear :
      CacheLayerSlot Address (CacheEntry CacheItemFamily ETag Value) File
      → CacheLayerSlot Address (CacheEntry CacheItemFamily ETag Value) File
  unfolding clear pack_file_clear
  slot_clear (CacheLayerSlot.memory l) = CacheLayerSlot.memory (record l { entries = [] })
  slot_clear (CacheLayerSlot.memory_with_gc l) = CacheLayerSlot.memory_with_gc (clear l)
  slot_clear (CacheLayerSlot.persistent writable l) =
      CacheLayerSlot.persistent writable (pack_file_clear l)

  unfoldable pub is_persistent :
      CacheLayerSlot Address (CacheEntry CacheItemFamily ETag Value) File → Bool
  is_persistent (CacheLayerSlot.memory l) = false
  is_persistent (CacheLayerSlot.memory_with_gc l) = false
  is_persistent (CacheLayerSlot.persistent writable l) = true
