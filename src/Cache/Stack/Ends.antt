-- ===== src/Cache/Stack/Ends.antt =====
-- A get that is put off ends once what it left is read, when nothing came between: the loop of
-- `CacheService::get` (crates/unpack_core/src/cache.rs) over `begin_get` and `finish_restore` of
-- cache/cache_layers.rs.
use unpack.Prelude.{
  ℕ, suc, ◌+◌, Bool, true, Option, none, some, List, [], ◌∷◌, ◌++◌, Eq, ◌==◌, option_eq, eqb_refl,
  get, get-insert, ◌>>=◌, ◌≡◌, inl, inr, refl, ap, sym, ◌∙◌, arith, nat_eq, length, is_some,
  Bool-cases, Option-cases, >>=-eq-some,
}
use unpack.Cache.{CacheEntry, CacheLayerLookup, PersistentRestore, lookup}
use unpack.Cache.Layers.{CacheItemFamily, CacheWorkCounters, CacheLayerSlot, slot_lookup}
use unpack.Cache.Stack.{CacheLayers, CacheRestore, CacheGet, reads_from}
use unpack.Cache.Stack.Gets.{
  begin_get, begin_get_from, finish_restore, finish_from, finish_at, use_entry, miss,
}
use unpack.Cache.Stack.Stored.{answered}
use unpack.Cache.Stack.Sound.{lookup_cases, use_entry-some}

not_put_off :
    {A V Restore : Type 0} (used : A × CacheGet V Restore) (after : A) (plan : CacheRestore Restore)
    (v : V)
    → answered used.1 ≡ some (some v)
    → used ≡ (after, CacheGet.deferred plan)
    → ⊥
not_put_off used after plan v answers e = cc (sym answers ∙ ap (λ u. answered u.1) e)

put_off_inj :
    {V Restore : Type 0} {a b : CacheRestore Restore}
    → ◌≡◌ {A = CacheGet V Restore} (CacheGet.deferred a) (CacheGet.deferred b)
    → a ≡ b
put_off_inj e = cc

reads_from_refl :
    {Address ETag : Type 0} (a : PersistentRestore Address ETag) → reads_from a a ≡ true
unfolding reads_from
reads_from_refl a = rw (eqb_refl a.reader_generation, eqb_refl a.pack_file) refl

append_one : {A : Type 0} (xs : List A) (x : A) (ys : List A) → (xs ++ x ∷ []) ++ ys ≡ xs ++ x ∷ ys
append_one [] x ys = refl
append_one (w ∷ xs) x ys = ap (λ l. w ∷ l) (append_one xs x ys)

length-append_one : {A : Type 0} (xs : List A) (x : A) → length (xs ++ x ∷ []) ≡ suc (length xs)
length-append_one [] x = refl
length-append_one (w ∷ xs) x = ap (λ n. suc n) (length-append_one xs x)

module _ {Address ETag Value File : Type 0} ⦃address_eq : Eq Address⦄ ⦃etag_eq : Eq ETag⦄ where
  -- A lookup answers the same when it is repeated.
  lookup_repeated :
      (slot : CacheLayerSlot Address (CacheEntry CacheItemFamily ETag Value) File)
      (address : Address) (etag : Option ETag)
      → (slot_lookup (slot_lookup slot address etag).0 address etag).1
        ≡ (slot_lookup slot address etag).1
  unfolding slot_lookup lookup
  lookup_repeated (CacheLayerSlot.memory l) address etag = refl
  lookup_repeated (CacheLayerSlot.memory_with_gc l) address etag =
      elim (Option-cases (get address l.entries)) [
        | inl out ↦ rw (out, slot_lookup, lookup, out) refl
        | inr (held, found) ↦ elim (Bool-cases (held.entry.etag == etag)) [
          | inl same ↦
              rw
                (
                  found,
                  same,
                  slot_lookup,
                  lookup,
                  get-insert address address _ l.entries,
                  eqb_refl address,
                  same,
                )
                refl
          | inr apart ↦ rw (found, apart, slot_lookup, lookup, found, apart) refl
        ]
      ]
  lookup_repeated (CacheLayerSlot.persistent writable l) address etag = refl

module _ {Address ETag Value File Stamp V : Type 0} ⦃address_eq : Eq Address⦄ ⦃etag_eq : Eq ETag⦄
    (touch : File → Address → Option ETag → Stamp → File × Bool) (value_of : Value → Option V)
    (family : CacheItemFamily) (address : Address) (etag : Option ETag) (stamp : Stamp)
    (restored : Option (CacheEntry CacheItemFamily ETag Value)) where
  finish_at_ends :
      (work : CacheWorkCounters)
      (earlier : List (CacheLayerSlot Address (CacheEntry CacheItemFamily ETag Value) File))
      (slot : CacheLayerSlot Address (CacheEntry CacheItemFamily ETag Value) File)
      (later : List (CacheLayerSlot Address (CacheEntry CacheItemFamily ETag Value) File))
      (restore : PersistentRestore Address ETag)
      → (slot_lookup slot address etag).1 ≡ CacheLayerLookup.deferred restore
      → is_some (
          answered
            (finish_at touch value_of family address etag stamp work earlier slot later restore
              restored).1)
        ≡ true
  unfolding finish_at miss
  finish_at_ends work earlier slot later restore deferred =
      let next = (slot_lookup slot address etag).0 in
      elim (Option-cases (
        restored
        >>= use_entry touch value_of family address etag stamp work earlier (next ∷ later))) [
          | inl unused ↦
              rw (is_some, answered, finish_at, deferred, reads_from_refl restore, unused) refl
          | inr (used, done) ↦
              let (entry, read, last) = >>=-eq-some restored _ done in
              let ((v, typed, answers), counted) =
                use_entry-some touch value_of family address etag stamp work earlier (next ∷ later)
                  entry used last in
              rw (is_some, answered, finish_at, deferred, reads_from_refl restore, done)
                (ap is_some answers)
        ]

  -- The layers that a get leaves which was put off are those it had passed, and `slots`; over them
  -- what was put off is finished.
  abbrev Finishes :
      List (CacheLayerSlot Address (CacheEntry CacheItemFamily ETag Value) File)
      → CacheLayers (CacheLayerSlot Address (CacheEntry CacheItemFamily ETag Value) File)
      → CacheRestore (PersistentRestore Address ETag)
      → Type 0
  Finishes earlier after plan =
      (slots : List (CacheLayerSlot Address (CacheEntry CacheItemFamily ETag Value) File))
      × (left : ℕ) × (after.layers ≡ earlier ++ slots)
      × (plan.layer_index ≡ length earlier + left)
      × ((work : CacheWorkCounters)
            (passed : List (CacheLayerSlot Address (CacheEntry CacheItemFamily ETag Value) File))
          → is_some (
              finish_from touch value_of family address etag stamp work left passed slots
                plan.restore restored
              >>= λ r. answered r.1)
            ≡ true)

  unused_value :
      (work : CacheWorkCounters)
      (earlier later : List (CacheLayerSlot Address (CacheEntry CacheItemFamily ETag Value) File))
      (entry : CacheEntry CacheItemFamily ETag Value)
      → use_entry touch value_of family address etag stamp work earlier later entry ≡ none
      → value_of entry.value ≡ none
  unfolding use_entry
  unused_value work earlier later entry e = elim (Option-cases (value_of entry.value)) [
    | inl none_of ↦ none_of
    | inr (v, typed) ↦ cc (rw (typed, use_entry) at e)
  ]

  begin_get_from-Finishes :
      (work : CacheWorkCounters)
      (earlier slots : List (CacheLayerSlot Address (CacheEntry CacheItemFamily ETag Value) File))
      (after : CacheLayers (CacheLayerSlot Address (CacheEntry CacheItemFamily ETag Value) File))
      (plan : CacheRestore (PersistentRestore Address ETag))
      → begin_get_from touch value_of family address etag stamp work earlier slots
        ≡ (after, CacheGet.deferred plan)
      → Finishes earlier after plan
  unfolding begin_get_from miss finish_from use_entry
  begin_get_from-Finishes work earlier [] after plan e = cc
  begin_get_from-Finishes work earlier (slot ∷ slots) after plan e =
      let next = (slot_lookup slot address etag).0 in
      elim (lookup_cases (slot_lookup slot address etag).1) [
        | inl (entry, hit) ↦
            elim (Option-cases (
              use_entry touch value_of family address etag stamp work earlier (next ∷ slots)
                entry)) [
                  | inl unused ↦
                      let (rest, left, layers, index, ends) =
                        begin_get_from-Finishes work (earlier ++ next ∷ []) slots after plan
                          (rw (hit, unused, begin_get_from) at e) in
                      let none_of = unused_value work earlier (next ∷ slots) entry unused in
                      (
                        next ∷ rest,
                        suc left,
                        layers ∙ append_one earlier next rest,
                        omega (arith, index, length-append_one earlier next),
                        λ w passed.
                            rw
                              (
                                is_some,
                                answered,
                                finish_from,
                                lookup_repeated slot address etag ∙ hit,
                                use_entry,
                                none_of,
                              )
                              (ends w (passed ++ (slot_lookup next address etag).0 ∷ [])),
                      )
                  | inr (used, done) ↦
                      let ((v, typed, answers), counted) =
                        use_entry-some touch value_of family address etag stamp work earlier
                          (next ∷ slots) entry used done in
                      absurd (
                        not_put_off used after plan v answers (rw (hit, done, begin_get_from) at e))
                ]
        | inr (inl (restore, deferred)) ↦
            let this = rw (deferred, begin_get_from) at e in
            let planned = put_off_inj (
              ap
                (λ (u : CacheLayers
                      (CacheLayerSlot Address (CacheEntry CacheItemFamily ETag Value) File)
                    × CacheGet V (PersistentRestore Address ETag)).
                  u.1)
                this) in
            (
              next ∷ slots,
              0,
              sym (
                  ap
                    (λ (u : CacheLayers
                          (CacheLayerSlot Address (CacheEntry CacheItemFamily ETag Value) File)
                        × CacheGet V (PersistentRestore Address ETag)).
                      u.0.layers)
                    this),
              omega (
                arith,
                ap (λ (p : CacheRestore (PersistentRestore Address ETag)). p.layer_index) planned,
              ),
              λ w passed.
                  ap is_some refl
                  ∙ finish_at_ends w passed next slots plan.restore (
                      lookup_repeated slot address etag
                      ∙ deferred
                      ∙ ap
                          (λ (p : CacheRestore (PersistentRestore Address ETag)).
                            CacheLayerLookup.deferred p.restore)
                          planned),
            )
        | inr (inr missed) ↦
            let (rest, left, layers, index, ends) =
              begin_get_from-Finishes work (earlier ++ next ∷ []) slots after plan
                (rw (missed, begin_get_from) at e) in
            (
              next ∷ rest,
              suc left,
              layers ∙ append_one earlier next rest,
              omega (arith, index, length-append_one earlier next),
              λ w passed.
                  rw (is_some, answered, finish_from, lookup_repeated slot address etag ∙ missed)
                    (ends w (passed ++ (slot_lookup next address etag).0 ∷ [])),
            )
      ]

  finish_restore_ends :
      (after : CacheLayers (CacheLayerSlot Address (CacheEntry CacheItemFamily ETag Value) File))
      (plan : CacheRestore (PersistentRestore Address ETag))
      → Finishes [] after plan
      → is_some (
          finish_restore touch value_of family address etag stamp plan restored after >>= λ r.
          answered r.1)
        ≡ true
  unfolding finish_restore
  finish_restore_ends after plan (slots, left, layers, index, ends) =
      let same : plan.layer_index ≡ left = omega (arith, index) in
      rw (finish_restore, layers, same) (ends after.work [])

  -- A get that is put off is answered once what it planned is read, whatever was read, if the layers are
  -- those that it left: the loop that reads and finishes goes round once.
  pub begin_get_finishes :
      (l after : CacheLayers (CacheLayerSlot Address (CacheEntry CacheItemFamily ETag Value) File))
      (plan : CacheRestore (PersistentRestore Address ETag))
      → begin_get touch value_of family address etag stamp l ≡ (after, CacheGet.deferred plan)
      → is_some (
          finish_restore touch value_of family address etag stamp plan restored after >>= λ r.
          answered r.1)
        ≡ true
  unfolding begin_get
  begin_get_finishes l after plan e =
      finish_restore_ends after plan (begin_get_from-Finishes l.work [] l.layers after plan e)
