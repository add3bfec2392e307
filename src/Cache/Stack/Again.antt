-- ===== src/Cache/Stack/Again.antt =====
-- A get that was answered is answered at once when it is asked again: `begin_get` after
-- `finish_restore` of crates/unpack_core/src/cache/cache_layers.rs.
use unpack.Prelude.{
  ℕ, zero, suc, Bool, false, Option, some, List, [], ◌∷◌, ◌++◌, Eq, ◌==◌, option_eq, get, ◌>>=◌,
  ◌≡◌, inl, inr, refl, ap, subst, ◌∙◌, some_inj, nat_eq, Bool-cases, Option-cases, >>=-eq-some,
}
use unpack.Cache.{CacheEntry, CacheLayerLookup, PersistentRestore, lookup}
use unpack.Cache.Layers.{
  CacheItemFamily, CacheWorkCounters, CacheLayerSlot, slot_lookup, is_persistent, memory_lookup,
  tagged,
}
use unpack.Cache.Stack.{CacheLayers, CacheRestore, CacheGet, reads_from}
use unpack.Cache.Stack.Gets.{
  begin_get, begin_get_from, finish_restore, finish_from, finish_at, use_entry, miss,
}
use unpack.Cache.Stack.Stored.{answered}
use unpack.Cache.Stack.Sound.{lookup_cases, slot_lookup-hit}
use unpack.Cache.Stack.Promoted.{
  FirstHas, use_entry_first, use_entry_promotes, is_persistent-lookup,
}

module _ {Address ETag Value File : Type 0} ⦃address_eq : Eq Address⦄ ⦃etag_eq : Eq ETag⦄ where
  never_deferred :
      (slot : CacheLayerSlot Address (CacheEntry CacheItemFamily ETag Value) File)
      (address : Address) (etag : Option ETag) (restore : PersistentRestore Address ETag)
      → is_persistent slot ≡ false
      → (slot_lookup slot address etag).1 ≡ CacheLayerLookup.deferred restore
      → ⊥
  unfolding slot_lookup is_persistent lookup memory_lookup
  never_deferred (CacheLayerSlot.memory l) address etag restore h e =
      elim (Option-cases (tagged (get address l.entries) etag)) [
        | inl out ↦ cc (rw (out, slot_lookup, memory_lookup) at e)
        | inr (held, found) ↦ cc (rw (found, slot_lookup, memory_lookup) at e)
      ]
  never_deferred (CacheLayerSlot.memory_with_gc l) address etag restore h e =
      elim (Option-cases (get address l.entries)) [
        | inl out ↦ cc (rw (out, slot_lookup, lookup) at e)
        | inr (held, found) ↦ elim (Bool-cases (held.entry.etag == etag)) [
          | inl same ↦ cc (rw (found, same, slot_lookup, lookup) at e)
          | inr apart ↦ cc (rw (found, apart, slot_lookup, lookup) at e)
        ]
      ]
  never_deferred (CacheLayerSlot.persistent writable l) address etag restore h e = cc

module _ {Address ETag Value File Stamp V : Type 0} ⦃address_eq : Eq Address⦄ ⦃etag_eq : Eq ETag⦄
    (touch : File → Address → Option ETag → Stamp → File × Bool) (value_of : Value → Option V)
    (family : CacheItemFamily) (address : Address) (etag : Option ETag) (stamp : Stamp) where
  -- The first layer answers at once.
  begin_get-first :
      (l : CacheLayers (CacheLayerSlot Address (CacheEntry CacheItemFamily ETag Value) File))
      (v : V)
      → FirstHas value_of address etag l.layers v
      → answered (begin_get touch value_of family address etag stamp l).1 ≡ some (some v)
  unfolding begin_get begin_get_from use_entry
  begin_get-first l v (first, rest, entry, is_first, hit, typed) =
      rw (begin_get, is_first, answered, begin_get_from, hit, use_entry, typed) refl

  finish_at_promotes :
      (work : CacheWorkCounters)
      (first : CacheLayerSlot Address (CacheEntry CacheItemFamily ETag Value) File)
      (more : List (CacheLayerSlot Address (CacheEntry CacheItemFamily ETag Value) File))
      (slot : CacheLayerSlot Address (CacheEntry CacheItemFamily ETag Value) File)
      (later : List (CacheLayerSlot Address (CacheEntry CacheItemFamily ETag Value) File))
      (restore : PersistentRestore Address ETag)
      (restored : Option (CacheEntry CacheItemFamily ETag Value)) (v : V)
      → is_persistent first ≡ false
      → ((entry : CacheEntry CacheItemFamily ETag Value)
          → restored ≡ some entry
          → entry.etag ≡ etag)
      → answered
          (finish_at touch value_of family address etag stamp work
            (first ∷ more)
            slot
            later
            restore
            restored).1
        ≡ some (some v)
      → FirstHas value_of address etag
          (finish_at touch value_of family address etag stamp work
            (first ∷ more)
            slot
            later
            restore
            restored).0.layers
          v
  unfolding finish_at miss
  finish_at_promotes work first more slot later restore restored v memory tags e =
      let next = (slot_lookup slot address etag).0 in
      elim (lookup_cases (slot_lookup slot address etag).1) [
        | inl (entry, hit) ↦
            elim (Option-cases (
              use_entry touch value_of family address etag stamp work (first ∷ more) (next ∷ later)
                entry)) [
                  | inl unused ↦ cc (rw (hit, unused, answered, finish_at) at e)
                  | inr (used, done) ↦
                      rw (hit, done, finish_at)
                        (use_entry_promotes touch value_of family address etag stamp work first more
                          (next ∷ later) entry used v memory
                          (slot_lookup-hit slot address etag entry hit).1 done
                          (rw (hit, done, answered, finish_at) at e))
                ]
        | inr (inl (current, deferred)) ↦ elim (Bool-cases (reads_from current restore)) [
          | inr moved ↦ cc (rw (deferred, moved, answered, finish_at) at e)
          | inl same ↦
              elim (Option-cases (
                restored
                >>= use_entry touch value_of family address etag stamp work (first ∷ more)
                    (next ∷ later))) [
                      | inl unused ↦ cc (rw (deferred, same, unused, answered, finish_at) at e)
                      | inr (used, done) ↦
                          let (entry, read, last) = >>=-eq-some restored _ done in
                          rw (deferred, same, done, finish_at)
                            (use_entry_promotes touch value_of family address etag stamp work first
                              more (next ∷ later) entry used v memory (tags entry read) last
                              (rw (deferred, same, done, answered, finish_at) at e))
                    ]
        ]
        | inr (inr missed) ↦ cc (rw (missed, answered, finish_at) at e)
      ]

  finish_from_promotes :
      (work : CacheWorkCounters) (left : ℕ)
      (first : CacheLayerSlot Address (CacheEntry CacheItemFamily ETag Value) File)
      (more slots : List (CacheLayerSlot Address (CacheEntry CacheItemFamily ETag Value) File))
      (restore : PersistentRestore Address ETag)
      (restored : Option (CacheEntry CacheItemFamily ETag Value))
      (r : CacheLayers (CacheLayerSlot Address (CacheEntry CacheItemFamily ETag Value) File)
        × CacheGet V (PersistentRestore Address ETag))
      (v : V)
      → is_persistent first ≡ false
      → ((entry : CacheEntry CacheItemFamily ETag Value)
          → restored ≡ some entry
          → entry.etag ≡ etag)
      → finish_from touch value_of family address etag stamp work left
          (first ∷ more)
          slots
          restore
          restored
        ≡ some r
      → answered r.1 ≡ some (some v)
      → FirstHas value_of address etag r.0.layers v
  unfolding finish_from
  finish_from_promotes work left first more [] restore restored r v memory tags e answers = cc
  finish_from_promotes work zero first more (slot ∷ slots) restore restored r v memory tags e
        answers =
      subst
        (λ (u : CacheLayers (CacheLayerSlot Address (CacheEntry CacheItemFamily ETag Value) File)
            × CacheGet V (PersistentRestore Address ETag)).
          FirstHas value_of address etag u.0.layers v)
        (some_inj e)
        (finish_at_promotes work first more slot slots restore restored v memory tags (
          ap
            (λ (u : CacheLayers
                  (CacheLayerSlot Address (CacheEntry CacheItemFamily ETag Value) File)
                × CacheGet V (PersistentRestore Address ETag)).
              answered u.1)
            (some_inj e)
          ∙ answers))
  finish_from_promotes work (suc left) first more (slot ∷ slots) restore restored r v memory tags e
        answers =
      let next = (slot_lookup slot address etag).0 in
      let rest =
        finish_from_promotes work left first (more ++ next ∷ []) slots restore restored r v memory
          tags in
      elim (lookup_cases (slot_lookup slot address etag).1) [
        | inl (entry, hit) ↦
            elim (Option-cases (
              use_entry touch value_of family address etag stamp work (first ∷ more) (next ∷ slots)
                entry)) [
                  | inl unused ↦ rest (rw (hit, unused, finish_from) at e) answers
                  | inr (used, done) ↦
                      use_entry_promotes touch value_of family address etag stamp work first more
                        (next ∷ slots) entry r v memory
                        (slot_lookup-hit slot address etag entry hit).1
                        (done ∙ rw (hit, done, finish_from) at e) answers
                ]
        | inr (inl (current, deferred)) ↦ rest (rw (deferred, finish_from) at e) answers
        | inr (inr missed) ↦ rest (rw (missed, finish_from) at e) answers
      ]

  finish_from_first :
      (work : CacheWorkCounters) (left : ℕ)
      (slot : CacheLayerSlot Address (CacheEntry CacheItemFamily ETag Value) File)
      (slots : List (CacheLayerSlot Address (CacheEntry CacheItemFamily ETag Value) File))
      (restore : PersistentRestore Address ETag)
      (restored : Option (CacheEntry CacheItemFamily ETag Value))
      (r : CacheLayers (CacheLayerSlot Address (CacheEntry CacheItemFamily ETag Value) File)
        × CacheGet V (PersistentRestore Address ETag))
      (v : V)
      → is_persistent slot ≡ false
      → ((entry : CacheEntry CacheItemFamily ETag Value)
          → restored ≡ some entry
          → entry.etag ≡ etag)
      → finish_from touch value_of family address etag stamp work left []
          (slot ∷ slots)
          restore
          restored
        ≡ some r
      → answered r.1 ≡ some (some v)
      → FirstHas value_of address etag r.0.layers v
  unfolding finish_from finish_at miss
  finish_from_first work zero slot slots restore restored r v memory tags e answers =
      let next = (slot_lookup slot address etag).0 in
      elim (lookup_cases (slot_lookup slot address etag).1) [
        | inl (entry, hit) ↦
            elim (Option-cases
              (use_entry touch value_of family address etag stamp work [] (next ∷ slots) entry)) [
                | inl unused ↦ cc (
                    ap
                      (λ (u : CacheLayers
                            (CacheLayerSlot Address (CacheEntry CacheItemFamily ETag Value) File)
                          × CacheGet V (PersistentRestore Address ETag)).
                        answered u.1)
                      (some_inj (rw (hit, unused, finish_from, finish_at) at e))
                    ∙ answers)
                | inr (used, done) ↦
                    use_entry_first touch value_of family address etag stamp work slot slots entry r
                      v memory hit (done ∙ rw (hit, done, finish_from, finish_at) at e) answers
              ]
        | inr (inl (current, deferred)) ↦
            absurd (never_deferred slot address etag current memory deferred)
        | inr (inr missed) ↦ cc (
            ap
              (λ (u : CacheLayers
                    (CacheLayerSlot Address (CacheEntry CacheItemFamily ETag Value) File)
                  × CacheGet V (PersistentRestore Address ETag)).
                answered u.1)
              (some_inj (rw (missed, finish_from, finish_at) at e))
            ∙ answers)
      ]
  finish_from_first work (suc left) slot slots restore restored r v memory tags e answers =
      let next = (slot_lookup slot address etag).0 in
      let rest =
        finish_from_promotes work left next [] slots restore restored r v
          (is_persistent-lookup slot address etag ∙ memory) tags in
      elim (lookup_cases (slot_lookup slot address etag).1) [
        | inl (entry, hit) ↦
            elim (Option-cases
              (use_entry touch value_of family address etag stamp work [] (next ∷ slots) entry)) [
                | inl unused ↦ rest (rw (hit, unused, finish_from) at e) answers
                | inr (used, done) ↦
                    use_entry_first touch value_of family address etag stamp work slot slots entry r
                      v memory hit (done ∙ rw (hit, done, finish_from) at e) answers
              ]
        | inr (inl (current, deferred)) ↦
            absurd (never_deferred slot address etag current memory deferred)
        | inr (inr missed) ↦ rest (rw (missed, finish_from) at e) answers
      ]

  -- Where the first layer is in memory, a value that is answered once what was put off is read is
  -- answered at once by the next get of the same address and tag, if what was read has the tag.
  pub begin_get-finish_restore :
      (l : CacheLayers (CacheLayerSlot Address (CacheEntry CacheItemFamily ETag Value) File))
      (slot : CacheLayerSlot Address (CacheEntry CacheItemFamily ETag Value) File)
      (slots : List (CacheLayerSlot Address (CacheEntry CacheItemFamily ETag Value) File))
      (plan : CacheRestore (PersistentRestore Address ETag))
      (restored : Option (CacheEntry CacheItemFamily ETag Value))
      (r : CacheLayers (CacheLayerSlot Address (CacheEntry CacheItemFamily ETag Value) File)
        × CacheGet V (PersistentRestore Address ETag))
      (v : V)
      → l.layers ≡ slot ∷ slots
      → is_persistent slot ≡ false
      → ((entry : CacheEntry CacheItemFamily ETag Value)
          → restored ≡ some entry
          → entry.etag ≡ etag)
      → finish_restore touch value_of family address etag stamp plan restored l ≡ some r
      → answered r.1 ≡ some (some v)
      → answered (begin_get touch value_of family address etag stamp r.0).1 ≡ some (some v)
  unfolding finish_restore
  begin_get-finish_restore l slot slots plan restored r v first memory tags e answers =
      begin_get-first r.0 v (
        finish_from_first l.work plan.layer_index slot slots plan.restore restored r v memory tags
          (rw (finish_restore, first) at e) answers)
