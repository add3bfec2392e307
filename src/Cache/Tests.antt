-- ===== src/Cache/Tests.antt =====
-- A layer that lets an entry be unused for two generations.
use unpack.Prelude.{ℕ, some, ◌≡◌, arith, nat_eq}
use unpack.Cache.{CacheEntry, CacheLayerLookup, MemoryWithGcCacheLayer, new_layer, lookup, store}
use unpack.Cache.Generations.{complete, lookup-complete_store, lookup-complete_collected}

abbrev entry : CacheEntry ℕ ℕ ℕ
entry = record { family = 0; etag = some 5; value = 8 }

abbrev fresh_layer : MemoryWithGcCacheLayer ℕ (CacheEntry ℕ ℕ ℕ)
fresh_layer = new_layer 2

lookup-complete_store_example :
    (lookup (complete 2 (store fresh_layer 3 entry)) 3 (some 5)).1 ≡ CacheLayerLookup.hit entry
unfolding new_layer
lookup-complete_store_example =
    lookup-complete_store 2 fresh_layer 3 entry (omega arith) (omega arith)

lookup-complete_collected_example :
    (lookup (complete 3 (store fresh_layer 3 entry)) 3 (some 5)).1 ≡ CacheLayerLookup.miss
unfolding new_layer
lookup-complete_collected_example =
    lookup-complete_collected 3 fresh_layer 3 entry tt (omega arith) (omega arith)
