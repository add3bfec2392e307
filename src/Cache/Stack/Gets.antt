-- ===== src/Cache/Stack/Gets.antt =====
-- A get from the stack of layers: `begin_get`, `finish_restore` and `use_entry` of
-- crates/unpack_core/src/cache/cache_layers.rs. What a pack file notes of an access
-- (`PackFile::touch`) and the downcast to the type that a caller asks for are parameters. An index
-- into the layers is a place between those before it and the rest.
use unpack.Prelude.{
  ℕ, zero, suc, Bool, true, false, Option, none, some, List, [], ◌∷◌, ◌++◌, Eq, ◌>>=◌, length,
}
use unpack.Cache.{CacheEntry, CacheLayerLookup, PersistentRestore}
use unpack.Cache.Layers.{
  CacheItemFamily, CacheWorkCounters, for_family_mut, CacheLayerSlot, PackFileCacheLayer,
  slot_lookup,
}
use unpack.Cache.Stack.{
  CacheLayers, CacheRestore, CacheGet, count_hit, count_miss, count_restore, reads_from,
  store_writable,
}

module _ {Address ETag Value File Stamp : Type 0} ⦃address_eq : Eq Address⦄ ⦃etag_eq : Eq ETag⦄
    (touch : File → Address → Option ETag → Stamp → File × Bool) where
  -- `plan_touch` and `apply`
  unfoldable pub touch_layer :
      Address
      → Option ETag
      → Stamp
      → PackFileCacheLayer Address (CacheEntry CacheItemFamily ETag Value) File
      → PackFileCacheLayer Address (CacheEntry CacheItemFamily ETag Value) File × Bool
  touch_layer address etag stamp l = elim l.active [
    | false ↦ (l, false)
    | true ↦ elim l.pack_file [
      | none ↦ (l, false)
      | some file ↦
          let (content, changed) = touch file.content address etag stamp in
          (record l { pack_file = some (record file { content = content }) }, changed)
    ]
  ]

  -- The first slot over a pack file that may be written.
  unfoldable pub touch_slots :
      Address
      → Option ETag
      → Stamp
      → List (CacheLayerSlot Address (CacheEntry CacheItemFamily ETag Value) File)
      → List (CacheLayerSlot Address (CacheEntry CacheItemFamily ETag Value) File) × Bool
  unfolding touch_layer
  touch_slots address etag stamp [] = ([], false)
  touch_slots address etag stamp (CacheLayerSlot.persistent true l ∷ slots) =
      let (after, changed) = touch_layer address etag stamp l in
      (CacheLayerSlot.persistent true after ∷ slots, changed)
  touch_slots address etag stamp (CacheLayerSlot.persistent false l ∷ slots) =
      let (rest, changed) = touch_slots address etag stamp slots in
      (CacheLayerSlot.persistent false l ∷ rest, changed)
  touch_slots address etag stamp (CacheLayerSlot.memory l ∷ slots) =
      let (rest, changed) = touch_slots address etag stamp slots in
      (CacheLayerSlot.memory l ∷ rest, changed)
  touch_slots address etag stamp (CacheLayerSlot.memory_with_gc l ∷ slots) =
      let (rest, changed) = touch_slots address etag stamp slots in
      (CacheLayerSlot.memory_with_gc l ∷ rest, changed)

module _ {Address ETag Value File : Type 0} ⦃address_eq : Eq Address⦄ ⦃etag_eq : Eq ETag⦄ where
  -- The `if layer_index > 0`: what was found below is stored above.
  unfoldable pub promote :
      CacheItemFamily
      → Address
      → CacheEntry CacheItemFamily ETag Value
      → List (CacheLayerSlot Address (CacheEntry CacheItemFamily ETag Value) File)
      → CacheWorkCounters
      → CacheLayers (CacheLayerSlot Address (CacheEntry CacheItemFamily ETag Value) File)
  unfolding store_writable for_family_mut
  promote family address entry [] work = record { layers = []; work = work }
  promote family address entry (slot ∷ slots) work = record {
    layers = store_writable address entry (slot ∷ slots);
    work = for_family_mut work family count_restore;
  }

module _ {Address ETag Value File Stamp V : Type 0} ⦃address_eq : Eq Address⦄ ⦃etag_eq : Eq ETag⦄
    (touch : File → Address → Option ETag → Stamp → File × Bool) (value_of : Value → Option V)
    (family : CacheItemFamily) (address : Address) (etag : Option ETag) (stamp : Stamp) where
  unfoldable pub use_entry :
      CacheWorkCounters
      → List (CacheLayerSlot Address (CacheEntry CacheItemFamily ETag Value) File)
      → List (CacheLayerSlot Address (CacheEntry CacheItemFamily ETag Value) File)
      → CacheEntry CacheItemFamily ETag Value
      → Option (
          CacheLayers (CacheLayerSlot Address (CacheEntry CacheItemFamily ETag Value) File)
          × CacheGet V (PersistentRestore Address ETag))
  unfolding promote touch_slots for_family_mut
  use_entry work earlier rest entry = value_of entry.value >>= λ value.
      let promoted = promote family address entry earlier work in
      let (layers, changed) = touch_slots touch address etag stamp (promoted.layers ++ rest) in
      some (
        record { layers = layers; work = for_family_mut promoted.work family count_hit },
        CacheGet.ready (some value) changed,
      )

  -- The counted miss at the end of a get.
  unfoldable pub miss :
      CacheWorkCounters
      → List (CacheLayerSlot Address (CacheEntry CacheItemFamily ETag Value) File)
      → CacheLayers (CacheLayerSlot Address (CacheEntry CacheItemFamily ETag Value) File)
        × CacheGet V (PersistentRestore Address ETag)
  unfolding for_family_mut
  miss work slots = (
    record { layers = slots; work = for_family_mut work family count_miss },
    CacheGet.ready none false,
  )

  -- The loop of `begin_get`, from a layer on.
  unfoldable pub begin_get_from :
      CacheWorkCounters
      → List (CacheLayerSlot Address (CacheEntry CacheItemFamily ETag Value) File)
      → List (CacheLayerSlot Address (CacheEntry CacheItemFamily ETag Value) File)
      → CacheLayers (CacheLayerSlot Address (CacheEntry CacheItemFamily ETag Value) File)
        × CacheGet V (PersistentRestore Address ETag)
  unfolding slot_lookup use_entry miss
  begin_get_from work earlier [] = miss work earlier
  begin_get_from work earlier (slot ∷ later) =
      let (after, answer) = slot_lookup slot address etag in
      let next = begin_get_from work (earlier ++ after ∷ []) later in
      elim answer [
        | CacheLayerLookup.hit entry ↦ elim (use_entry work earlier (after ∷ later) entry) [
          | some used ↦ used
          | none ↦ next
        ]
        | CacheLayerLookup.deferred restore ↦ (
          record { layers = earlier ++ after ∷ later; work = work },
          CacheGet.deferred (record { layer_index = length earlier; restore = restore }),
        )
        | CacheLayerLookup.miss ↦ next
      ]

  unfoldable pub begin_get :
      CacheLayers (CacheLayerSlot Address (CacheEntry CacheItemFamily ETag Value) File)
      → CacheLayers (CacheLayerSlot Address (CacheEntry CacheItemFamily ETag Value) File)
        × CacheGet V (PersistentRestore Address ETag)
  unfolding begin_get_from
  begin_get l = begin_get_from l.work [] l.layers

  -- What was read outside of the lock, `restored`, is used only where the layer would still read it
  -- from the same place.
  unfoldable pub finish_at :
      CacheWorkCounters
      → List (CacheLayerSlot Address (CacheEntry CacheItemFamily ETag Value) File)
      → CacheLayerSlot Address (CacheEntry CacheItemFamily ETag Value) File
      → List (CacheLayerSlot Address (CacheEntry CacheItemFamily ETag Value) File)
      → PersistentRestore Address ETag
      → Option (CacheEntry CacheItemFamily ETag Value)
      → CacheLayers (CacheLayerSlot Address (CacheEntry CacheItemFamily ETag Value) File)
        × CacheGet V (PersistentRestore Address ETag)
  unfolding slot_lookup use_entry miss reads_from
  finish_at work earlier slot later restore restored =
      let (after, answer) = slot_lookup slot address etag in
      let missed = miss work (earlier ++ after ∷ later) in
      elim answer [
        | CacheLayerLookup.hit entry ↦ elim (use_entry work earlier (after ∷ later) entry) [
          | some used ↦ used
          | none ↦ missed
        ]
        | CacheLayerLookup.deferred current ↦ elim (reads_from current restore) [
          | true ↦ elim (restored >>= use_entry work earlier (after ∷ later)) [
            | some used ↦ used
            | none ↦ missed
          ]
          | false ↦ (
            record { layers = earlier ++ after ∷ later; work = work },
            CacheGet.deferred (record { layer_index = length earlier; restore = current }),
          )
        ]
        | CacheLayerLookup.miss ↦ missed
      ]

  -- The loop over the layers above the planned one, from a layer on, with how many of them are left.
  -- `none` is a panic: there is no such layer.
  unfoldable pub finish_from :
      CacheWorkCounters
      → ℕ
      → List (CacheLayerSlot Address (CacheEntry CacheItemFamily ETag Value) File)
      → List (CacheLayerSlot Address (CacheEntry CacheItemFamily ETag Value) File)
      → PersistentRestore Address ETag
      → Option (CacheEntry CacheItemFamily ETag Value)
      → Option (
          CacheLayers (CacheLayerSlot Address (CacheEntry CacheItemFamily ETag Value) File)
          × CacheGet V (PersistentRestore Address ETag))
  unfolding slot_lookup use_entry finish_at
  finish_from work left earlier [] restore restored = none
  finish_from work zero earlier (slot ∷ later) restore restored =
      some (finish_at work earlier slot later restore restored)
  finish_from work (suc left) earlier (slot ∷ later) restore restored =
      let (after, answer) = slot_lookup slot address etag in
      let next = finish_from work left (earlier ++ after ∷ []) later restore restored in
      elim answer [
        | CacheLayerLookup.hit entry ↦ elim (use_entry work earlier (after ∷ later) entry) [
          | some used ↦ some used
          | none ↦ next
        ]
        | CacheLayerLookup.deferred current ↦ next
        | CacheLayerLookup.miss ↦ next
      ]

  unfoldable pub finish_restore :
      CacheRestore (PersistentRestore Address ETag)
      → Option (CacheEntry CacheItemFamily ETag Value)
      → CacheLayers (CacheLayerSlot Address (CacheEntry CacheItemFamily ETag Value) File)
      → Option (
          CacheLayers (CacheLayerSlot Address (CacheEntry CacheItemFamily ETag Value) File)
          × CacheGet V (PersistentRestore Address ETag))
  unfolding finish_from
  finish_restore plan restored l =
      finish_from l.work plan.layer_index [] l.layers plan.restore restored
