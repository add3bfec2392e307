-- ===== src/Cache/Stack/Finished.antt =====
-- What a get answers once what was put off is read: `finish_restore` of
-- crates/unpack_core/src/cache/cache_layers.rs.
use unpack.Prelude.{
  ℕ, zero, suc, Bool, Option, some, List, [], ◌∷◌, ◌++◌, Eq, ◌≡◌, ◌⊎◌, inl, inr, ap, subst, ◌∙◌,
  some_inj, nat_eq, Option-cases,
}
use unpack.Cache.{CacheEntry, PersistentRestore}
use unpack.Cache.Layers.{CacheItemFamily, CacheWorkCounters, CacheLayerSlot, slot_lookup}
use unpack.Cache.Stack.{CacheLayers, CacheGet}
use unpack.Cache.Stack.Gets.{finish_restore, finish_from, use_entry}
use unpack.Cache.Stack.Stored.{answered}
use unpack.Cache.Stack.Sound.{
  IsCounted, HasValue, lookup_cases, later_value, used_value, use_entry-some,
}
use unpack.Cache.Stack.Restored.{IsRestored, finish_at_sound, finish_at_counts}

module _ {Address ETag Value File Stamp V : Type 0} ⦃address_eq : Eq Address⦄ ⦃etag_eq : Eq ETag⦄
    (touch : File → Address → Option ETag → Stamp → File × Bool) (value_of : Value → Option V)
    (family : CacheItemFamily) (address : Address) (etag : Option ETag) (stamp : Stamp)
    (restore : PersistentRestore Address ETag)
    (restored : Option (CacheEntry CacheItemFamily ETag Value)) where
  later_source :
      (left : ℕ) (slot : CacheLayerSlot Address (CacheEntry CacheItemFamily ETag Value) File)
      (slots : List (CacheLayerSlot Address (CacheEntry CacheItemFamily ETag Value) File)) (v : V)
      → HasValue value_of address etag slots v
        ⊎ IsRestored value_of address etag restore restored left slots v
      → HasValue value_of address etag (slot ∷ slots) v
        ⊎ IsRestored value_of address etag restore restored (suc left) (slot ∷ slots) v
  later_source left slot slots v (inl held) =
      inl (later_value value_of address etag slot slots v held)
  later_source left slot slots v (inr read) = inr read

  finish_from_sound :
      (work : CacheWorkCounters) (left : ℕ)
      (earlier slots : List (CacheLayerSlot Address (CacheEntry CacheItemFamily ETag Value) File))
      (r : CacheLayers (CacheLayerSlot Address (CacheEntry CacheItemFamily ETag Value) File)
        × CacheGet V (PersistentRestore Address ETag))
      (v : V)
      → finish_from touch value_of family address etag stamp work left earlier slots restore
          restored
        ≡ some r
      → answered r.1 ≡ some (some v)
      → HasValue value_of address etag slots v
        ⊎ IsRestored value_of address etag restore restored left slots v
  unfolding finish_from
  finish_from_sound work left earlier [] r v e answers = cc
  finish_from_sound work zero earlier (slot ∷ slots) r v e answers =
      finish_at_sound touch value_of family address etag stamp work earlier slot slots restore
        restored v
        (ap
            (λ (u : CacheLayers
                  (CacheLayerSlot Address (CacheEntry CacheItemFamily ETag Value) File)
                × CacheGet V (PersistentRestore Address ETag)).
              answered u.1)
            (some_inj e)
          ∙ answers)
  finish_from_sound work (suc left) earlier (slot ∷ slots) r v e answers =
      let next = (slot_lookup slot address etag).0 in
      let rest = finish_from_sound work left (earlier ++ next ∷ []) slots r v in
      elim (lookup_cases (slot_lookup slot address etag).1) [
        | inl (entry, hit) ↦
            elim (Option-cases (
              use_entry touch value_of family address etag stamp work earlier (next ∷ slots)
                entry)) [
                  | inl unused ↦
                      later_source left slot slots v
                        (rest (rw (hit, unused, finish_from) at e) answers)
                  | inr (used, done) ↦ inl (
                      used_value touch value_of family address etag stamp work earlier slots slot
                        entry r v hit (done ∙ rw (hit, done, finish_from) at e) answers)
                ]
        | inr (inl (current, deferred)) ↦
            later_source left slot slots v (rest (rw (deferred, finish_from) at e) answers)
        | inr (inr missed) ↦
            later_source left slot slots v (rest (rw (missed, finish_from) at e) answers)
      ]

  finish_from_counts :
      (work : CacheWorkCounters) (left : ℕ)
      (earlier slots : List (CacheLayerSlot Address (CacheEntry CacheItemFamily ETag Value) File))
      (r : CacheLayers (CacheLayerSlot Address (CacheEntry CacheItemFamily ETag Value) File)
        × CacheGet V (PersistentRestore Address ETag))
      → finish_from touch value_of family address etag stamp work left earlier slots restore
          restored
        ≡ some r
      → IsCounted family work r.1 r.0.work
  unfolding finish_from
  finish_from_counts work left earlier [] r e = cc
  finish_from_counts work zero earlier (slot ∷ slots) r e =
      subst
        (λ (u : CacheLayers (CacheLayerSlot Address (CacheEntry CacheItemFamily ETag Value) File)
            × CacheGet V (PersistentRestore Address ETag)).
          IsCounted family work u.1 u.0.work)
        (some_inj e)
        (finish_at_counts touch value_of family address etag stamp work earlier slot slots restore
          restored)
  finish_from_counts work (suc left) earlier (slot ∷ slots) r e =
      let next = (slot_lookup slot address etag).0 in
      let rest = finish_from_counts work left (earlier ++ next ∷ []) slots r in
      elim (lookup_cases (slot_lookup slot address etag).1) [
        | inl (entry, hit) ↦
            elim (Option-cases (
              use_entry touch value_of family address etag stamp work earlier (next ∷ slots)
                entry)) [
                  | inl unused ↦ rest (rw (hit, unused, finish_from) at e)
                  | inr (used, done) ↦
                      (use_entry-some touch value_of family address etag stamp work earlier
                        (next ∷ slots) entry r (done ∙ rw (hit, done, finish_from) at e)).1
                ]
        | inr (inl (current, deferred)) ↦ rest (rw (deferred, finish_from) at e)
        | inr (inr missed) ↦ rest (rw (missed, finish_from) at e)
      ]

  -- A value that a get answers after it was put off is in memory in one of the layers, under the
  -- address and the tag that were asked for, or it is what was read, and then the layer that put the
  -- get off would still read it from the same generation of the same file.
  pub finish_restore_sound :
      (l : CacheLayers (CacheLayerSlot Address (CacheEntry CacheItemFamily ETag Value) File))
      (layer_index : ℕ)
      (r : CacheLayers (CacheLayerSlot Address (CacheEntry CacheItemFamily ETag Value) File)
        × CacheGet V (PersistentRestore Address ETag))
      (v : V)
      → finish_restore touch value_of family address etag stamp
          (record { layer_index = layer_index; restore = restore })
          restored
          l
        ≡ some r
      → answered r.1 ≡ some (some v)
      → HasValue value_of address etag l.layers v
        ⊎ IsRestored value_of address etag restore restored layer_index l.layers v
  unfolding finish_restore
  finish_restore_sound l layer_index r v e answers =
      finish_from_sound l.work layer_index [] l.layers r v e answers

  -- What is counted once a get that was put off ends follows from its answer, as for one that was not:
  -- one hit or one miss of its family, or nothing if it is put off again.
  pub finish_restore_counts :
      (l : CacheLayers (CacheLayerSlot Address (CacheEntry CacheItemFamily ETag Value) File))
      (layer_index : ℕ)
      (r : CacheLayers (CacheLayerSlot Address (CacheEntry CacheItemFamily ETag Value) File)
        × CacheGet V (PersistentRestore Address ETag))
      → finish_restore touch value_of family address etag stamp
          (record { layer_index = layer_index; restore = restore })
          restored
          l
        ≡ some r
      → IsCounted family l.work r.1 r.0.work
  unfolding finish_restore
  finish_restore_counts l layer_index r e = finish_from_counts l.work layer_index [] l.layers r e
