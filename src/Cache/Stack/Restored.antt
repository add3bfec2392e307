-- ===== src/Cache/Stack/Restored.antt =====
-- What a get answers at the layer that put it off, once what it left is read: the end of
-- `finish_restore` of
-- crates/unpack_core/src/cache/cache_layers.rs.
use unpack.Prelude.{
  ℕ, Bool, true, Option, some, List, ◌∷◌, Eq, ◌>>=◌, ◌≡◌, ◌⊎◌, inl, inr, refl, ap, sym, ◌∙◌,
  some_inj, nat_eq, get_elem?, Bool-cases, Option-cases, >>=-eq-some,
}
use unpack.Cache.{CacheEntry, CacheLayerLookup, PersistentRestore}
use unpack.Cache.Layers.{CacheItemFamily, CacheWorkCounters, CacheLayerSlot, slot_lookup}
use unpack.Cache.Stack.{reads_from}
use unpack.Cache.Stack.Gets.{finish_at, use_entry, miss}
use unpack.Cache.Stack.Stored.{answered}
use unpack.Cache.Stack.Sound.{IsCounted, HasValue, lookup_cases, used_value, use_entry-some}

module _ {Address ETag Value File V : Type 0} ⦃address_eq : Eq Address⦄ ⦃etag_eq : Eq ETag⦄
    (value_of : Value → Option V) (address : Address) (etag : Option ETag)
    (restore : PersistentRestore Address ETag)
    (restored : Option (CacheEntry CacheItemFamily ETag Value)) where
  -- The value is what was read, and the layer that put it off would still read from the same place.
  abbrev pub IsRestored :
      ℕ → List (CacheLayerSlot Address (CacheEntry CacheItemFamily ETag Value) File) → V → Type 0
  IsRestored i slots v =
      (slot : CacheLayerSlot Address (CacheEntry CacheItemFamily ETag Value) File)
      × (current : PersistentRestore Address ETag) × (entry : CacheEntry CacheItemFamily ETag Value)
      × (get_elem? slots i ≡ some slot)
      × ((slot_lookup slot address etag).1 ≡ CacheLayerLookup.deferred current)
      × (reads_from current restore ≡ true)
      × (restored ≡ some entry)
      × (value_of entry.value ≡ some v)

module _ {Address ETag Value File Stamp V : Type 0} ⦃address_eq : Eq Address⦄ ⦃etag_eq : Eq ETag⦄
    (touch : File → Address → Option ETag → Stamp → File × Bool) (value_of : Value → Option V)
    (family : CacheItemFamily) (address : Address) (etag : Option ETag) (stamp : Stamp) where
  pub finish_at_sound :
      (work : CacheWorkCounters)
      (earlier : List (CacheLayerSlot Address (CacheEntry CacheItemFamily ETag Value) File))
      (slot : CacheLayerSlot Address (CacheEntry CacheItemFamily ETag Value) File)
      (later : List (CacheLayerSlot Address (CacheEntry CacheItemFamily ETag Value) File))
      (restore : PersistentRestore Address ETag)
      (restored : Option (CacheEntry CacheItemFamily ETag Value)) (v : V)
      → answered
          (finish_at touch value_of family address etag stamp work earlier slot later restore
            restored).1
        ≡ some (some v)
      → HasValue value_of address etag (slot ∷ later) v
        ⊎ IsRestored value_of address etag restore restored 0 (slot ∷ later) v
  unfolding finish_at miss
  finish_at_sound work earlier slot later restore restored v e =
      let next = (slot_lookup slot address etag).0 in
      elim (lookup_cases (slot_lookup slot address etag).1) [
        | inl (entry, hit) ↦
            elim (Option-cases (
              use_entry touch value_of family address etag stamp work earlier (next ∷ later)
                entry)) [
                  | inl unused ↦ cc (rw (hit, unused, answered, finish_at) at e)
                  | inr (used, done) ↦ inl (
                      used_value touch value_of family address etag stamp work earlier later slot
                        entry used v hit done (rw (hit, done, answered, finish_at) at e))
                ]
        | inr (inl (current, deferred)) ↦ elim (Bool-cases (reads_from current restore)) [
          | inr moved ↦ cc (rw (deferred, moved, answered, finish_at) at e)
          | inl same ↦
              elim (Option-cases (
                restored
                >>= use_entry touch value_of family address etag stamp work earlier
                    (next ∷ later))) [
                      | inl unused ↦ cc (rw (deferred, same, unused, answered, finish_at) at e)
                      | inr (used, done) ↦
                          let (entry, read, last) = >>=-eq-some restored _ done in
                          let ((w, typed, answers), counted) =
                            use_entry-some touch value_of family address etag stamp work earlier
                              (next ∷ later) entry used last in
                          let this : w ≡ v = some_inj (
                            some_inj (
                              sym answers ∙ rw (deferred, same, done, answered, finish_at) at e)) in
                          inr
                            (slot, current, entry, refl, deferred, same, read, typed ∙ ap some this)
                    ]
        ]
        | inr (inr missed) ↦ cc (rw (missed, answered, finish_at) at e)
      ]

  pub finish_at_counts :
      (work : CacheWorkCounters)
      (earlier : List (CacheLayerSlot Address (CacheEntry CacheItemFamily ETag Value) File))
      (slot : CacheLayerSlot Address (CacheEntry CacheItemFamily ETag Value) File)
      (later : List (CacheLayerSlot Address (CacheEntry CacheItemFamily ETag Value) File))
      (restore : PersistentRestore Address ETag)
      (restored : Option (CacheEntry CacheItemFamily ETag Value))
      → IsCounted family work
          (finish_at touch value_of family address etag stamp work earlier slot later restore
            restored).1
          (finish_at touch value_of family address etag stamp work earlier slot later restore
            restored).0.work
  unfolding finish_at miss
  finish_at_counts work earlier slot later restore restored =
      let next = (slot_lookup slot address etag).0 in
      elim (lookup_cases (slot_lookup slot address etag).1) [
        | inl (entry, hit) ↦
            elim (Option-cases (
              use_entry touch value_of family address etag stamp work earlier (next ∷ later)
                entry)) [
                  | inl unused ↦ rw (hit, unused, finish_at) refl
                  | inr (used, done) ↦
                      rw (hit, done, finish_at)
                        (use_entry-some touch value_of family address etag stamp work earlier
                          (next ∷ later) entry used done).1
                ]
        | inr (inl (current, deferred)) ↦ elim (Bool-cases (reads_from current restore)) [
          | inr moved ↦ rw (deferred, moved, finish_at) refl
          | inl same ↦
              elim (Option-cases (
                restored
                >>= use_entry touch value_of family address etag stamp work earlier
                    (next ∷ later))) [
                      | inl unused ↦ rw (deferred, same, unused, finish_at) refl
                      | inr (used, done) ↦
                          let (entry, read, last) = >>=-eq-some restored _ done in
                          rw (deferred, same, done, finish_at)
                            (use_entry-some touch value_of family address etag stamp work earlier
                              (next ∷ later) entry used last).1
                    ]
        ]
        | inr (inr missed) ↦ rw (missed, finish_at) refl
      ]
