-- ===== src/Cache/Stack/Promoted.antt =====
-- What was found in a later layer is found in the first one afterwards: the stores of `use_entry` of
-- crates/unpack_core/src/cache/cache_layers.rs.
use unpack.Prelude.{
  Bool, true, false, Option, some, List, [], ◌∷◌, ◌++◌, Eq, ◌==◌, option_eq, eqb_refl, get,
  get-insert, ◌≡◌, inl, inr, refl, ap, sym, subst, ◌∙◌, some_inj, nat_eq, Bool-cases, Option-cases,
  >>=-eq-some,
}
use unpack.Cache.{CacheEntry, CacheLayerLookup, PersistentRestore, lookup}
use unpack.Cache.Layers.{
  CacheItemFamily, CacheWorkCounters, CacheLayerSlot, slot_lookup, slot_store, slot_writable,
  is_persistent,
}
use unpack.Cache.Stack.{CacheLayers, CacheGet, store_writable}
use unpack.Cache.Stack.Gets.{use_entry, touch_slots, promote}
use unpack.Cache.Stack.Stored.{answered, slot_lookup-store}

module _ {Address ETag Value File : Type 0} ⦃address_eq : Eq Address⦄ ⦃etag_eq : Eq ETag⦄ where
  pub is_persistent-lookup :
      (slot : CacheLayerSlot Address (CacheEntry CacheItemFamily ETag Value) File)
      (address : Address) (etag : Option ETag)
      → is_persistent (slot_lookup slot address etag).0 ≡ is_persistent slot
  unfolding slot_lookup is_persistent
  is_persistent-lookup (CacheLayerSlot.memory l) address etag = refl
  is_persistent-lookup (CacheLayerSlot.memory_with_gc l) address etag = refl
  is_persistent-lookup (CacheLayerSlot.persistent writable l) address etag = refl

  is_persistent-store :
      (slot : CacheLayerSlot Address (CacheEntry CacheItemFamily ETag Value) File)
      (address : Address) (entry : CacheEntry CacheItemFamily ETag Value)
      → is_persistent (slot_store slot address entry) ≡ is_persistent slot
  unfolding slot_store is_persistent
  is_persistent-store (CacheLayerSlot.memory l) address entry = refl
  is_persistent-store (CacheLayerSlot.memory_with_gc l) address entry = refl
  is_persistent-store (CacheLayerSlot.persistent writable l) address entry = refl

  memory_writable :
      (slot : CacheLayerSlot Address (CacheEntry CacheItemFamily ETag Value) File)
      → is_persistent slot ≡ false
      → slot_writable slot ≡ true
  unfolding is_persistent slot_writable
  memory_writable (CacheLayerSlot.memory l) h = refl
  memory_writable (CacheLayerSlot.memory_with_gc l) h = refl
  memory_writable (CacheLayerSlot.persistent writable l) h = cc

  -- A layer in memory that answers an entry answers it again.
  lookup_again :
      (slot : CacheLayerSlot Address (CacheEntry CacheItemFamily ETag Value) File)
      (address : Address) (etag : Option ETag) (entry : CacheEntry CacheItemFamily ETag Value)
      → is_persistent slot ≡ false
      → (slot_lookup slot address etag).1 ≡ CacheLayerLookup.hit entry
      → (slot_lookup (slot_lookup slot address etag).0 address etag).1 ≡ CacheLayerLookup.hit entry
  unfolding slot_lookup is_persistent lookup
  lookup_again (CacheLayerSlot.memory l) address etag entry h e = e
  lookup_again (CacheLayerSlot.memory_with_gc l) address etag entry h e =
      elim (Option-cases (get address l.entries)) [
        | inl out ↦ cc (rw (out, slot_lookup, lookup) at e)
        | inr (held, found) ↦ elim (Bool-cases (held.entry.etag == etag)) [
          | inl same ↦
              rw
                (
                  found,
                  same,
                  slot_lookup,
                  lookup,
                  get-insert address address _ l.entries,
                  eqb_refl address,
                  same,
                )
                (rw (found, same, slot_lookup, lookup) at e)
          | inr apart ↦ cc (rw (found, apart, slot_lookup, lookup) at e)
        ]
      ]
  lookup_again (CacheLayerSlot.persistent writable l) address etag entry h e = cc

module _ {Address ETag Value File V : Type 0} ⦃address_eq : Eq Address⦄ ⦃etag_eq : Eq ETag⦄
    (value_of : Value → Option V) (address : Address) (etag : Option ETag) where
  -- The first layer answers an entry with the value.
  abbrev pub FirstHas :
      List (CacheLayerSlot Address (CacheEntry CacheItemFamily ETag Value) File) → V → Type 0
  FirstHas slots v =
      (first : CacheLayerSlot Address (CacheEntry CacheItemFamily ETag Value) File) × (rest : List
        (CacheLayerSlot Address (CacheEntry CacheItemFamily ETag Value) File))
      × (entry : CacheEntry CacheItemFamily ETag Value) × (slots ≡ first ∷ rest)
      × ((slot_lookup first address etag).1 ≡ CacheLayerLookup.hit entry)
      × (value_of entry.value ≡ some v)

module _ {Address ETag Value File Stamp V : Type 0} ⦃address_eq : Eq Address⦄ ⦃etag_eq : Eq ETag⦄
    (touch : File → Address → Option ETag → Stamp → File × Bool) (value_of : Value → Option V)
    (family : CacheItemFamily) (address : Address) (etag : Option ETag) (stamp : Stamp) where
  touch_slots-memory :
      (slot : CacheLayerSlot Address (CacheEntry CacheItemFamily ETag Value) File)
      (slots : List (CacheLayerSlot Address (CacheEntry CacheItemFamily ETag Value) File))
      → is_persistent slot ≡ false
      → (touch_slots touch address etag stamp (slot ∷ slots)).0
        ≡ slot ∷ (touch_slots touch address etag stamp slots).0
  unfolding touch_slots is_persistent
  touch_slots-memory (CacheLayerSlot.memory l) slots h = refl
  touch_slots-memory (CacheLayerSlot.memory_with_gc l) slots h = refl
  touch_slots-memory (CacheLayerSlot.persistent writable l) slots h = cc

  pub use_entry_first :
      (work : CacheWorkCounters)
      (slot : CacheLayerSlot Address (CacheEntry CacheItemFamily ETag Value) File)
      (later : List (CacheLayerSlot Address (CacheEntry CacheItemFamily ETag Value) File))
      (entry : CacheEntry CacheItemFamily ETag Value)
      (used : CacheLayers (CacheLayerSlot Address (CacheEntry CacheItemFamily ETag Value) File)
        × CacheGet V (PersistentRestore Address ETag))
      (v : V)
      → is_persistent slot ≡ false
      → (slot_lookup slot address etag).1 ≡ CacheLayerLookup.hit entry
      → use_entry touch value_of family address etag stamp work []
          ((slot_lookup slot address etag).0 ∷ later)
          entry
        ≡ some used
      → answered used.1 ≡ some (some v)
      → FirstHas value_of address etag used.0.layers v
  unfolding use_entry promote
  use_entry_first work slot later entry used v memory hit e answers =
      let next = (slot_lookup slot address etag).0 in
      let (w, typed, last) = >>=-eq-some (value_of entry.value) _ e in
      let same : w ≡ v = some_inj (
        some_inj (
          ap
            (λ (u : CacheLayers
                  (CacheLayerSlot Address (CacheEntry CacheItemFamily ETag Value) File)
                × CacheGet V (PersistentRestore Address ETag)).
              answered u.1)
            (some_inj last)
          ∙ answers)) in
      (
        next,
        (touch_slots touch address etag stamp later).0,
        entry,
        sym (
              ap
                (λ (u : CacheLayers
                      (CacheLayerSlot Address (CacheEntry CacheItemFamily ETag Value) File)
                    × CacheGet V (PersistentRestore Address ETag)).
                  u.0.layers)
                (some_inj last))
            ∙ touch_slots-memory next later (is_persistent-lookup slot address etag ∙ memory),
        lookup_again slot address etag entry memory hit,
        typed ∙ ap some same,
      )

  pub use_entry_promotes :
      (work : CacheWorkCounters)
      (first : CacheLayerSlot Address (CacheEntry CacheItemFamily ETag Value) File)
      (more later : List (CacheLayerSlot Address (CacheEntry CacheItemFamily ETag Value) File))
      (entry : CacheEntry CacheItemFamily ETag Value)
      (used : CacheLayers (CacheLayerSlot Address (CacheEntry CacheItemFamily ETag Value) File)
        × CacheGet V (PersistentRestore Address ETag))
      (v : V)
      → is_persistent first ≡ false
      → entry.etag ≡ etag
      → use_entry touch value_of family address etag stamp work (first ∷ more) later entry
        ≡ some used
      → answered used.1 ≡ some (some v)
      → FirstHas value_of address etag used.0.layers v
  unfolding use_entry promote store_writable
  use_entry_promotes work first more later entry used v memory tag e answers =
      let stored = slot_store first address entry in
      let rest = store_writable address entry more ++ later in
      let (w, typed, last) = >>=-eq-some (value_of entry.value) _ e in
      let same : w ≡ v = some_inj (
        some_inj (
          ap
            (λ (u : CacheLayers
                  (CacheLayerSlot Address (CacheEntry CacheItemFamily ETag Value) File)
                × CacheGet V (PersistentRestore Address ETag)).
              answered u.1)
            (some_inj last)
          ∙ answers)) in
      let touched =
        touch_slots-memory stored rest (is_persistent-store first address entry ∙ memory) in
      (
        stored,
        (touch_slots touch address etag stamp rest).0,
        entry,
        sym (
              ap
                (λ (u : CacheLayers
                      (CacheLayerSlot Address (CacheEntry CacheItemFamily ETag Value) File)
                    × CacheGet V (PersistentRestore Address ETag)).
                  u.0.layers)
                (some_inj last))
            ∙ rw (memory_writable first memory) touched,
        subst (λ t. (slot_lookup stored address t).1 ≡ CacheLayerLookup.hit entry) tag
            (slot_lookup-store first address entry),
        typed ∙ ap some same,
      )
