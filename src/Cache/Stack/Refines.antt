-- ===== src/Cache/Stack/Refines.antt =====
-- What the cache of kind `Memory` promises: `from_options` of
-- crates/unpack_core/src/cache/cache_layers.rs without a bound on generations, and the operations on
-- what it sets up, against a partial function from addresses to tagged values.
use unpack.Prelude.{
  Bool, Option, none, some, List, [], ◌∷◌, Eq, ◌==◌, option_eq, get, insert, get-insert, ◌>>=◌, ◌≡◌,
  inl, inr, refl, ap₂, Bool-cases, Option-cases, if◌then◌else◌,
}
use unpack.Cache.{CacheEntry}
use unpack.Cache.Layers.{
  CacheItemFamily, CacheLayerSlot, PackFileCacheLayer, MemoryCacheLayer, slot_lookup, slot_store,
  slot_writable, slot_clear, memory_lookup,
}
use unpack.Cache.Stack.{
  CacheLayers, CacheKind, from_options, layers_store, layers_clear, layers_on_compilation_completed,
  complete_slots, store_writable,
}
use unpack.Cache.Stack.Gets.{begin_get, begin_get_from, use_entry, miss, promote, touch_slots}
use unpack.Cache.Stack.Stored.{answered}

-- A call of the cache.
pub data CacheCall (Address ETag Value : Type 0) : Type 0 where
  call_get : CacheItemFamily → Address → Option ETag → CacheCall Address ETag Value
  call_store : CacheItemFamily → Address → Option ETag → Value → CacheCall Address ETag Value
  call_clear : CacheCall Address ETag Value
  call_completed : CacheCall Address ETag Value

module _ {Address ETag Value : Type 0} ⦃address_eq : Eq Address⦄ where
  abbrev spec_store :
      (Address → Option (Option ETag × Value))
      → Address
      → Option ETag
      → Value
      → Address
      → Option (Option ETag × Value)
  spec_store held address etag value = λ a. if address == a then some (etag, value) else held a

module _ {Address ETag Value V : Type 0} ⦃address_eq : Eq Address⦄ ⦃etag_eq : Eq ETag⦄ where
  abbrev spec_get :
      (Value → Option V)
      → (Address → Option (Option ETag × Value))
      → Address
      → Option ETag
      → Option V
  spec_get value_of held address etag =
      held address >>= λ e. if e.0 == etag then value_of e.1 else none

  -- What the calls answer, one after another: a cache is a partial function.
  unfoldable pub spec_answers :
      (Value → Option V)
      → List (CacheCall Address ETag Value)
      → (Address → Option (Option ETag × Value))
      → List (Option (Option V))
  spec_answers value_of [] held = []
  spec_answers value_of (CacheCall.call_get family address etag ∷ calls) held =
      some (spec_get value_of held address etag) ∷ spec_answers value_of calls held
  spec_answers value_of (CacheCall.call_store family address etag value ∷ calls) held =
      spec_answers value_of calls (spec_store held address etag value)
  spec_answers value_of (CacheCall.call_clear ∷ calls) held =
      spec_answers value_of calls (λ a. none)
  spec_answers value_of (CacheCall.call_completed ∷ calls) held = spec_answers value_of calls held

module _ {Address ETag Value File Stamp V : Type 0} ⦃address_eq : Eq Address⦄ ⦃etag_eq : Eq ETag⦄
    (touch : File → Address → Option ETag → Stamp → File × Bool) (value_of : Value → Option V)
    (stamp : Stamp) where
  -- What the calls answer, one after another, by the layers of the cache.
  unfoldable pub layers_answers :
      List (CacheCall Address ETag Value)
      → CacheLayers (CacheLayerSlot Address (CacheEntry CacheItemFamily ETag Value) File)
      → List (Option (Option V))
  unfolding begin_get layers_store layers_clear layers_on_compilation_completed
  layers_answers [] l = []
  layers_answers (CacheCall.call_get family address etag ∷ calls) l =
      let (after, answer) = begin_get touch value_of family address etag stamp l in
      answered answer ∷ layers_answers calls after
  layers_answers (CacheCall.call_store family address etag value ∷ calls) l =
      layers_answers calls (layers_store family address etag value l).0
  layers_answers (CacheCall.call_clear ∷ calls) l = layers_answers calls (layers_clear l)
  layers_answers (CacheCall.call_completed ∷ calls) l =
      layers_answers calls (layers_on_compilation_completed l)

  abbrev holds : Option (CacheEntry CacheItemFamily ETag Value) → Option (Option ETag × Value)
  holds none = none
  holds (some e) = some (e.etag, e.value)

  begin_get-memory :
      (l : CacheLayers (CacheLayerSlot Address (CacheEntry CacheItemFamily ETag Value) File))
      (entries : MemoryCacheLayer Address (CacheEntry CacheItemFamily ETag Value))
      (family : CacheItemFamily) (address : Address) (etag : Option ETag)
      (held : Address → Option (Option ETag × Value))
      → l.layers ≡ CacheLayerSlot.memory entries ∷ []
      → held address ≡ holds (get address entries.entries)
      → ((begin_get touch value_of family address etag stamp l).0.layers
          ≡ CacheLayerSlot.memory entries ∷ [])
        × (answered (begin_get touch value_of family address etag stamp l).1
            ≡ some (spec_get value_of held address etag))
  unfolding begin_get begin_get_from slot_lookup memory_lookup use_entry miss promote touch_slots
  begin_get-memory l entries family address etag held only same =
      elim (Option-cases (get address entries.entries)) [
        | inl out ↦
            rw (begin_get, only, same, out, answered, begin_get_from, memory_lookup) (refl, refl)
        | inr (e, found) ↦ elim (Bool-cases (e.etag == etag)) [
          | inr apart ↦
              rw (begin_get, only, same, found, apart, answered, begin_get_from, memory_lookup)
                (refl, refl)
          | inl fits ↦ elim (Option-cases (value_of e.value)) [
            | inl other ↦
                rw
                  (
                    begin_get, only, same, found, fits, answered, begin_get_from, memory_lookup,
                    use_entry, other,
                  )
                  (refl, refl)
            | inr (v, typed) ↦
                rw
                  (
                    begin_get, only, same, found, fits, answered, begin_get_from, memory_lookup,
                    use_entry, typed,
                  )
                  (refl, refl)
          ]
        ]
      ]

  layers_answers-spec_answers :
      (calls : List (CacheCall Address ETag Value))
      (l : CacheLayers (CacheLayerSlot Address (CacheEntry CacheItemFamily ETag Value) File))
      (entries : MemoryCacheLayer Address (CacheEntry CacheItemFamily ETag Value))
      (held : Address → Option (Option ETag × Value))
      → l.layers ≡ CacheLayerSlot.memory entries ∷ []
      → ((a : Address) → held a ≡ holds (get a entries.entries))
      → layers_answers calls l ≡ spec_answers value_of calls held
  unfolding layers_answers spec_answers layers_store layers_clear layers_on_compilation_completed
      complete_slots store_writable slot_store slot_writable slot_clear
  layers_answers-spec_answers [] l entries held only same = refl
  layers_answers-spec_answers (CacheCall.call_get family address etag ∷ calls) l entries held only
        same =
      let (kept, answer) =
        begin_get-memory l entries family address etag held only (same address) in
      ap₂ (λ x xs. x ∷ xs) answer
        (layers_answers-spec_answers calls (begin_get touch value_of family address etag stamp l).0
          entries held kept same)
  layers_answers-spec_answers (CacheCall.call_store family address etag value ∷ calls) l entries
        held only same =
      let entry : CacheEntry CacheItemFamily ETag Value = record {
        family = family;
        etag = etag;
        value = value;
      } in
      layers_answers-spec_answers calls (layers_store family address etag value l).0
        (record { entries = insert address entry entries.entries })
        (spec_store held address etag value) (rw (only, layers_store) refl)
        (λ a. elim (Bool-cases (address == a)) [
          | inl here ↦ rw (get-insert address a entry entries.entries, here) refl
          | inr there ↦ rw (get-insert address a entry entries.entries, there) (same a)
        ])
  layers_answers-spec_answers (CacheCall.call_clear ∷ calls) l entries held only same =
      layers_answers-spec_answers calls (layers_clear l) (record { entries = [] }) (λ a. none)
        (rw (only, layers_clear) refl) (λ a. refl)
  layers_answers-spec_answers (CacheCall.call_completed ∷ calls) l entries held only same =
      layers_answers-spec_answers calls (layers_on_compilation_completed l) entries held
        (rw (only, layers_on_compilation_completed) refl) same

  -- Whatever is called on a cache of kind `Memory` without a bound on generations, every get answers at
  -- once, and what a partial function answers to which stores and clears are done: a compilation that
  -- was completed, and the gets in between, change nothing.
  pub layers_answers_refines :
      (opened : PackFileCacheLayer Address (CacheEntry CacheItemFamily ETag Value) File)
      (readonly : Bool) (calls : List (CacheCall Address ETag Value))
      → layers_answers calls (
          from_options opened (record {
            kind = CacheKind.memory;
            max_memory_generations = none;
            readonly = readonly;
          }))
        ≡ spec_answers value_of calls (λ a. none)
  unfolding from_options
  layers_answers_refines opened readonly calls =
      layers_answers-spec_answers calls
        (from_options opened
          (record { kind = CacheKind.memory; max_memory_generations = none; readonly = readonly }))
        (record { entries = [] }) (λ a. none) refl (λ a. refl)
