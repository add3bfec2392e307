-- ===== src/Cache/Stack/Stored.antt =====
-- What a get from the stack of layers answers after a store and after a clear.
use unpack.Prelude.{
  ℕ, zero, suc, ◌<◌, Bool, true, ◌>>=◌, Option, none, some, List, [], ◌∷◌, ◌++◌, map, Eq, option_eq,
  eqb_refl, get-insert, length, ◌≡◌, refl, arith, nat_eq,
}
use unpack.Cache.{CacheEntry, CacheLayerLookup, PersistentRestore, lookup, store, clear}
use unpack.Cache.Layers.{
  CacheItemFamily, CacheWorkCounters, CacheLayerSlot, slot_lookup, slot_writable, slot_store,
  slot_clear, pack_file_clear, pack_file_lookup, memory_lookup,
}
use unpack.Cache.Stack.{
  CacheLayers, CacheRestore, CacheGet, layers_store, layers_clear, store_writable,
}
use unpack.Cache.Stack.Gets.{
  begin_get, begin_get_from, finish_restore, finish_from, finish_at, use_entry, miss,
}

abbrev pub answered : {V Restore : Type 0} → CacheGet V Restore → Option (Option V)
answered (CacheGet.ready value changed) = some value
answered (CacheGet.deferred restore) = none

module _ {Address ETag Value File : Type 0} ⦃address_eq : Eq Address⦄ ⦃etag_eq : Eq ETag⦄ where
  pub slot_lookup-store :
      (slot : CacheLayerSlot Address (CacheEntry CacheItemFamily ETag Value) File)
      (address : Address) (entry : CacheEntry CacheItemFamily ETag Value)
      → (slot_lookup (slot_store slot address entry) address entry.etag).1
        ≡ CacheLayerLookup.hit entry
  unfolding slot_lookup slot_store lookup store memory_lookup pack_file_lookup
  slot_lookup-store (CacheLayerSlot.memory l) address entry =
      rw
        (
          slot_lookup,
          slot_store,
          memory_lookup,
          get-insert address address entry l.entries,
          eqb_refl address,
          eqb_refl entry.etag,
        )
        refl
  slot_lookup-store (CacheLayerSlot.memory_with_gc l) address entry =
      rw
        (
          slot_lookup,
          slot_store,
          lookup,
          store,
          get-insert address address _ l.entries,
          eqb_refl address,
          eqb_refl entry.etag,
        )
        refl
  slot_lookup-store (CacheLayerSlot.persistent writable l) address entry =
      rw
        (
          slot_lookup,
          slot_store,
          pack_file_lookup,
          get-insert address address entry l.pending,
          eqb_refl address,
          eqb_refl entry.etag,
        )
        refl

  slot_lookup-clear :
      (slot : CacheLayerSlot Address (CacheEntry CacheItemFamily ETag Value) File)
      (address : Address) (etag : Option ETag)
      → slot_lookup (slot_clear slot) address etag ≡ (slot_clear slot, CacheLayerLookup.miss)
  unfolding slot_lookup slot_clear clear lookup memory_lookup pack_file_lookup pack_file_clear
  slot_lookup-clear (CacheLayerSlot.memory l) address etag = refl
  slot_lookup-clear (CacheLayerSlot.memory_with_gc l) address etag = refl
  slot_lookup-clear (CacheLayerSlot.persistent writable l) address etag = refl

module _ {Address ETag Value File Stamp V : Type 0} ⦃address_eq : Eq Address⦄ ⦃etag_eq : Eq ETag⦄
    (touch : File → Address → Option ETag → Stamp → File × Bool) (value_of : Value → Option V)
    (family : CacheItemFamily) (address : Address) (etag : Option ETag) (stamp : Stamp) where
  -- Where the first layer may be written, a get after a store of a value under the same address and
  -- tag answers at once, with this value, if it is of the type that is asked for.
  pub begin_get-store :
      (l : CacheLayers (CacheLayerSlot Address (CacheEntry CacheItemFamily ETag Value) File))
      (slot : CacheLayerSlot Address (CacheEntry CacheItemFamily ETag Value) File)
      (rest : List (CacheLayerSlot Address (CacheEntry CacheItemFamily ETag Value) File))
      (stored : CacheItemFamily) (value : Value) (v : V)
      → l.layers ≡ slot ∷ rest
      → slot_writable slot ≡ true
      → value_of value ≡ some v
      → answered
          (begin_get touch value_of family address etag stamp
            (layers_store stored address etag value l).0).1
        ≡ some (some v)
  unfolding begin_get begin_get_from use_entry layers_store store_writable
  begin_get-store l slot rest stored value v first writable typed =
      let entry : CacheEntry CacheItemFamily ETag Value = record {
        family = stored;
        etag = etag;
        value = value;
      } in
      rw
        (
          first,
          writable,
          answered,
          begin_get_from,
          slot_lookup-store slot address entry,
          use_entry,
          typed,
        )
        refl

  begin_get_from-clear :
      (work : CacheWorkCounters)
      (earlier slots : List (CacheLayerSlot Address (CacheEntry CacheItemFamily ETag Value) File))
      → answered
          (begin_get_from touch value_of family address etag stamp work earlier
            (map slot_clear slots)).1
        ≡ some none
  unfolding begin_get_from miss
  begin_get_from-clear work earlier [] = refl
  begin_get_from-clear work earlier (slot ∷ slots) =
      rw (answered, begin_get_from, slot_lookup-clear slot address etag)
        (begin_get_from-clear work (earlier ++ (slot_lookup (slot_clear slot) address etag).0 ∷ [])
          slots)

  -- A get from layers that were cleared answers at once that there is nothing.
  pub begin_get-clear :
      (l : CacheLayers (CacheLayerSlot Address (CacheEntry CacheItemFamily ETag Value) File))
      → answered (begin_get touch value_of family address etag stamp (layers_clear l)).1 ≡ some none
  unfolding begin_get layers_clear
  begin_get-clear l = begin_get_from-clear l.work [] l.layers

  finish_from-clear :
      (work : CacheWorkCounters) (left : ℕ)
      (earlier slots : List (CacheLayerSlot Address (CacheEntry CacheItemFamily ETag Value) File))
      (restore : PersistentRestore Address ETag)
      (restored : Option (CacheEntry CacheItemFamily ETag Value))
      → left < length slots
      → (finish_from touch value_of family address etag stamp work left earlier
            (map slot_clear slots)
            restore
            restored
          >>= λ r. some (answered r.1))
        ≡ some (some none)
  unfolding finish_from finish_at miss
  finish_from-clear work left earlier [] restore restored small = absurd (omega arith)
  finish_from-clear work zero earlier (slot ∷ slots) restore restored small =
      rw (◌>>=◌, answered, finish_at, slot_lookup-clear slot address etag) refl
  finish_from-clear work (suc left) earlier (slot ∷ slots) restore restored small =
      rw (◌>>=◌, answered, finish_from, slot_lookup-clear slot address etag)
        (finish_from-clear work left
          (earlier ++ (slot_lookup (slot_clear slot) address etag).0 ∷ []) slots restore restored
          (omega arith))

  -- A read that was planned before the layers were cleared ends in the answer that there is nothing,
  -- whatever was read.
  pub finish_restore-clear :
      (l : CacheLayers (CacheLayerSlot Address (CacheEntry CacheItemFamily ETag Value) File))
      (plan : CacheRestore (PersistentRestore Address ETag))
      (restored : Option (CacheEntry CacheItemFamily ETag Value))
      → plan.layer_index < length l.layers
      → (finish_restore touch value_of family address etag stamp plan restored (layers_clear l)
          >>= λ r. some (answered r.1))
        ≡ some (some none)
  unfolding finish_restore layers_clear
  finish_restore-clear l plan restored small =
      finish_from-clear l.work plan.layer_index [] l.layers plan.restore restored small
