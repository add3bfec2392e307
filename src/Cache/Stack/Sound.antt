-- ===== src/Cache/Stack/Sound.antt =====
-- Where the value comes from that a get from the stack of layers answers, and what it counts.
use unpack.Prelude.{
  ℕ, suc, Bool, Option, none, some, List, [], ◌∷◌, ◌++◌, Eq, ◌==◌, option_eq, option_eqb_iff, get,
  ◌≡◌, ◌⊎◌, inl, inr, refl, ap, sym, subst, ◌∙◌, some_inj, nat_eq, get_elem?, Bool-cases,
  Option-cases, >>=-eq-some, ◌>>=◌,
}
use unpack.Cache.{CacheEntry, CacheLayerLookup, PersistentRestore, lookup}
use unpack.Cache.Layers.{
  CacheItemFamily, CacheWorkCounters, CacheLayerSlot, for_family_mut, slot_lookup, pack_file_lookup,
  memory_lookup, tagged,
}
use unpack.Cache.Stack.{CacheLayers, CacheGet, count_hit, count_miss, count_restore}
use unpack.Cache.Stack.Gets.{begin_get, begin_get_from, use_entry, miss, promote}
use unpack.Cache.Stack.Stored.{answered}

pub lookup_cases :
    {Entry Restore : Type 0} (answer : CacheLayerLookup Entry Restore)
    → ((entry : Entry) × (answer ≡ CacheLayerLookup.hit entry))
      ⊎ (((restore : Restore) × (answer ≡ CacheLayerLookup.deferred restore))
          ⊎ (answer ≡ CacheLayerLookup.miss))
lookup_cases (CacheLayerLookup.hit entry) = inl (entry, refl)
lookup_cases (CacheLayerLookup.deferred restore) = inr (inl (restore, refl))
lookup_cases CacheLayerLookup.miss = inr (inr refl)

-- How the counters of a get follow from its answer: a miss counts as one, what is put off counts
-- nothing, and a hit counts as one, and as a restore if the entry was promoted.
abbrev pub IsCounted :
    {V Restore : Type 0}
    → CacheItemFamily
    → CacheWorkCounters
    → CacheGet V Restore
    → CacheWorkCounters
    → Type 0
IsCounted family before (CacheGet.ready none changed) after =
    after ≡ for_family_mut before family count_miss
IsCounted family before (CacheGet.ready (some v) changed) after =
    (after ≡ for_family_mut before family count_hit)
    ⊎ (after ≡ for_family_mut (for_family_mut before family count_restore) family count_hit)
IsCounted family before (CacheGet.deferred plan) after = after ≡ before

pub hit_inj :
    {Entry Restore : Type 0} {a b : Entry}
    → ◌≡◌ {A = CacheLayerLookup Entry Restore} (CacheLayerLookup.hit a) (CacheLayerLookup.hit b)
    → a ≡ b
hit_inj e = cc

module _ {ETag Value : Type 0} ⦃etag_eq : Eq ETag⦄ where
  tagged-eq-some :
      (o : Option (CacheEntry CacheItemFamily ETag Value)) (etag : Option ETag)
      (entry : CacheEntry CacheItemFamily ETag Value)
      → tagged o etag ≡ some entry
      → (o ≡ some entry) × (entry.etag ≡ etag)
  tagged-eq-some none etag entry e = cc
  tagged-eq-some (some held) etag entry e = elim (Bool-cases (held.etag == etag)) [
    | inl same ↦
        let this = some_inj (rw (same, tagged) at e) in
        (
          ap some this,
          sym (ap (λ (c : CacheEntry CacheItemFamily ETag Value). c.etag) this)
              ∙ (option_eqb_iff held.etag etag).0 same,
        )
    | inr apart ↦ cc (rw (apart, tagged) at e)
  ]

module _ {Address ETag Value File : Type 0} ⦃address_eq : Eq Address⦄ ⦃etag_eq : Eq ETag⦄ where
  -- What a layer has in memory under an address.
  unfoldable pub slot_entry :
      CacheLayerSlot Address (CacheEntry CacheItemFamily ETag Value) File
      → Address
      → Option (CacheEntry CacheItemFamily ETag Value)
  slot_entry (CacheLayerSlot.memory l) address = get address l.entries
  slot_entry (CacheLayerSlot.memory_with_gc l) address = get address l.entries >>= λ e. some e.entry
  slot_entry (CacheLayerSlot.persistent writable l) address = get address l.pending

  pub slot_lookup-hit :
      (slot : CacheLayerSlot Address (CacheEntry CacheItemFamily ETag Value) File)
      (address : Address) (etag : Option ETag) (entry : CacheEntry CacheItemFamily ETag Value)
      → (slot_lookup slot address etag).1 ≡ CacheLayerLookup.hit entry
      → (slot_entry slot address ≡ some entry) × (entry.etag ≡ etag)
  unfolding slot_lookup lookup memory_lookup pack_file_lookup slot_entry
  slot_lookup-hit (CacheLayerSlot.memory l) address etag entry e =
      elim (Option-cases (tagged (get address l.entries) etag)) [
        | inl out ↦ cc (rw (out, slot_lookup, memory_lookup) at e)
        | inr (held, found) ↦
            tagged-eq-some (get address l.entries) etag entry
              (found ∙ ap some (hit_inj (rw (found, slot_lookup, memory_lookup) at e)))
      ]
  slot_lookup-hit (CacheLayerSlot.memory_with_gc l) address etag entry e =
      elim (Option-cases (get address l.entries)) [
        | inl out ↦ cc (rw (out, slot_lookup, lookup) at e)
        | inr (held, found) ↦ elim (Bool-cases (held.entry.etag == etag)) [
          | inl same ↦
              let this = hit_inj (rw (found, same, slot_lookup, lookup) at e) in
              (
                rw (found, slot_entry) (ap some this),
                sym (ap (λ (c : CacheEntry CacheItemFamily ETag Value). c.etag) this)
                    ∙ (option_eqb_iff held.entry.etag etag).0 same,
              )
          | inr apart ↦ cc (rw (found, apart, slot_lookup, lookup) at e)
        ]
      ]
  slot_lookup-hit (CacheLayerSlot.persistent writable l) address etag entry e =
      elim (Option-cases (tagged (get address l.pending) etag)) [
        | inl out ↦ elim (Bool-cases l.active) [
          | inr off ↦ cc (rw (out, off, slot_lookup, pack_file_lookup) at e)
          | inl on ↦ elim (Option-cases l.pack_file) [
            | inl shut ↦ cc (rw (out, on, shut, slot_lookup, pack_file_lookup) at e)
            | inr (file, opened) ↦ cc (rw (out, on, opened, slot_lookup, pack_file_lookup) at e)
          ]
        ]
        | inr (held, found) ↦
            tagged-eq-some (get address l.pending) etag entry
              (found ∙ ap some (hit_inj (rw (found, slot_lookup, pack_file_lookup) at e)))
      ]

module _ {Address ETag Value File V : Type 0} ⦃address_eq : Eq Address⦄ ⦃etag_eq : Eq ETag⦄
    (value_of : Value → Option V) (address : Address) (etag : Option ETag) where
  -- One of the layers has an entry with the value in memory, under the address and the tag.
  abbrev pub HasValue :
      List (CacheLayerSlot Address (CacheEntry CacheItemFamily ETag Value) File) → V → Type 0
  HasValue slots v =
      (i : ℕ) × (slot : CacheLayerSlot Address (CacheEntry CacheItemFamily ETag Value) File)
      × (entry : CacheEntry CacheItemFamily ETag Value) × (get_elem? slots i ≡ some slot)
      × (slot_entry slot address ≡ some entry)
      × (entry.etag ≡ etag)
      × (value_of entry.value ≡ some v)

  pub later_value :
      (slot : CacheLayerSlot Address (CacheEntry CacheItemFamily ETag Value) File)
      (slots : List (CacheLayerSlot Address (CacheEntry CacheItemFamily ETag Value) File)) (v : V)
      → HasValue slots v
      → HasValue (slot ∷ slots) v
  later_value slot slots v (i, holder, entry, at_i, held, tagged, typed) =
      (suc i, holder, entry, at_i, held, tagged, typed)

module _ {Address ETag Value File Stamp V : Type 0} ⦃address_eq : Eq Address⦄ ⦃etag_eq : Eq ETag⦄
    (touch : File → Address → Option ETag → Stamp → File × Bool) (value_of : Value → Option V)
    (family : CacheItemFamily) (address : Address) (etag : Option ETag) (stamp : Stamp) where
  -- The entry is of the type that is asked for, and is what the get answers.
  abbrev pub IsUsed :
      CacheWorkCounters
      → CacheEntry CacheItemFamily ETag Value
      → CacheLayers (CacheLayerSlot Address (CacheEntry CacheItemFamily ETag Value) File)
        × CacheGet V (PersistentRestore Address ETag)
      → Type 0
  IsUsed work entry (after, answer) =
      ((v : V) × (value_of entry.value ≡ some v) × (answered answer ≡ some (some v)))
      × IsCounted family work answer after.work

  pub use_entry-some :
      (work : CacheWorkCounters)
      (earlier rest : List (CacheLayerSlot Address (CacheEntry CacheItemFamily ETag Value) File))
      (entry : CacheEntry CacheItemFamily ETag Value)
      (used : CacheLayers (CacheLayerSlot Address (CacheEntry CacheItemFamily ETag Value) File)
        × CacheGet V (PersistentRestore Address ETag))
      → use_entry touch value_of family address etag stamp work earlier rest entry ≡ some used
      → IsUsed work entry used
  unfolding use_entry promote
  use_entry-some work [] rest entry used e =
      let (v, typed, last) = >>=-eq-some (value_of entry.value) _ e in
      subst (IsUsed work entry) (some_inj last) ((v, typed, refl), inl refl)
  use_entry-some work (slot ∷ earlier) rest entry used e =
      let (v, typed, last) = >>=-eq-some (value_of entry.value) _ e in
      subst (IsUsed work entry) (some_inj last) ((v, typed, refl), inr refl)

  pub used_value :
      (work : CacheWorkCounters)
      (earlier slots : List (CacheLayerSlot Address (CacheEntry CacheItemFamily ETag Value) File))
      (slot : CacheLayerSlot Address (CacheEntry CacheItemFamily ETag Value) File)
      (entry : CacheEntry CacheItemFamily ETag Value)
      (used : CacheLayers (CacheLayerSlot Address (CacheEntry CacheItemFamily ETag Value) File)
        × CacheGet V (PersistentRestore Address ETag))
      (v : V)
      → (slot_lookup slot address etag).1 ≡ CacheLayerLookup.hit entry
      → use_entry touch value_of family address etag stamp work earlier
          ((slot_lookup slot address etag).0 ∷ slots)
          entry
        ≡ some used
      → answered used.1 ≡ some (some v)
      → HasValue value_of address etag (slot ∷ slots) v
  used_value work earlier slots slot entry used v hit done answers =
      let next = (slot_lookup slot address etag).0 in
      let (held, tagged) = slot_lookup-hit slot address etag entry hit in
      let ((w, typed, answers_w), counted) =
        use_entry-some work earlier (next ∷ slots) entry used done in
      let same : w ≡ v = some_inj (some_inj (sym answers_w ∙ answers)) in
      (0, slot, entry, refl, held, tagged, typed ∙ ap some same)

  begin_get_from_sound :
      (work : CacheWorkCounters)
      (earlier slots : List (CacheLayerSlot Address (CacheEntry CacheItemFamily ETag Value) File))
      (v : V)
      → answered (begin_get_from touch value_of family address etag stamp work earlier slots).1
        ≡ some (some v)
      → HasValue value_of address etag slots v
  unfolding begin_get_from miss
  begin_get_from_sound work earlier [] v e = cc
  begin_get_from_sound work earlier (slot ∷ slots) v e =
      let next = (slot_lookup slot address etag).0 in
      elim (lookup_cases (slot_lookup slot address etag).1) [
        | inl (entry, hit) ↦
            elim (Option-cases (
              use_entry touch value_of family address etag stamp work earlier (next ∷ slots)
                entry)) [
                  | inl unused ↦ later_value value_of address etag slot slots v (
                      begin_get_from_sound work (earlier ++ next ∷ []) slots v
                        (rw (hit, unused, answered, begin_get_from) at e))
                  | inr (used, done) ↦
                      used_value work earlier slots slot entry used v hit done
                        (rw (hit, done, answered, begin_get_from) at e)
                ]
        | inr (inl (restore, deferred)) ↦ cc (rw (deferred, answered, begin_get_from) at e)
        | inr (inr missed) ↦ later_value value_of address etag slot slots v (
            begin_get_from_sound work (earlier ++ next ∷ []) slots v
              (rw (missed, answered, begin_get_from) at e))
      ]

  begin_get_from_counts :
      (work : CacheWorkCounters)
      (earlier slots : List (CacheLayerSlot Address (CacheEntry CacheItemFamily ETag Value) File))
      → IsCounted family work
          (begin_get_from touch value_of family address etag stamp work earlier slots).1
          (begin_get_from touch value_of family address etag stamp work earlier slots).0.work
  unfolding begin_get_from miss
  begin_get_from_counts work earlier [] = refl
  begin_get_from_counts work earlier (slot ∷ slots) =
      let next = (slot_lookup slot address etag).0 in
      elim (lookup_cases (slot_lookup slot address etag).1) [
        | inl (entry, hit) ↦
            elim (Option-cases (
              use_entry touch value_of family address etag stamp work earlier (next ∷ slots)
                entry)) [
                  | inl unused ↦
                      rw (hit, unused, begin_get_from)
                        (begin_get_from_counts work (earlier ++ next ∷ []) slots)
                  | inr (used, done) ↦
                      rw (hit, done, begin_get_from)
                        (use_entry-some work earlier (next ∷ slots) entry used done).1
                ]
        | inr (inl (restore, deferred)) ↦ rw (deferred, begin_get_from) refl
        | inr (inr missed) ↦
            rw (missed, begin_get_from) (begin_get_from_counts work (earlier ++ next ∷ []) slots)
      ]

  -- A value that a get answers at once is in memory in one of the layers, under the address and the
  -- tag that were asked for, and of the type that was asked for.
  pub begin_get_sound :
      (l : CacheLayers (CacheLayerSlot Address (CacheEntry CacheItemFamily ETag Value) File))
      (v : V)
      → answered (begin_get touch value_of family address etag stamp l).1 ≡ some (some v)
      → HasValue value_of address etag l.layers v
  unfolding begin_get
  begin_get_sound l v e = begin_get_from_sound l.work [] l.layers v e

  -- A get counts one hit or one miss of its family, by what it answers, and nothing if it is put off.
  -- With a hit it may count one restore.
  pub begin_get_counts :
      (l : CacheLayers (CacheLayerSlot Address (CacheEntry CacheItemFamily ETag Value) File))
      → IsCounted family l.work
          (begin_get touch value_of family address etag stamp l).1
          (begin_get touch value_of family address etag stamp l).0.work
  unfolding begin_get
  begin_get_counts l = begin_get_from_counts l.work [] l.layers
