-- ===== src/Cache/Stack/Tests.antt =====
-- A memory layer over a pack file. A value below a hundred is of the type that is asked for.
use unpack.Prelude.{
  is_some, some_inj, ap, sym, ℕ, Bool, true, false, Option, none, some, [], ◌∷◌, ◌≡◌, ◌⊎◌, ◌>>=◌,
  refl, arith, ltb, nat_eq, if◌then◌else◌,
}
use unpack.Cache.{List, CacheEntry, PersistentRestore}
use unpack.Cache.Layers.{
  is_persistent, CacheItemFamily, CacheLayerSlot, PublicationBase, PackFileCacheLayer, slot_lookup,
  memory_lookup, pack_file_lookup, slot_writable,
}
use unpack.Cache.Stack.{
  CacheLayers, CacheGet, CacheKind, from_options, layers_store, layers_clear, reads_from,
  no_counters,
}
use unpack.Cache.Stack.Gets.{
  begin_get, begin_get_from, finish_restore, finish_from, finish_at, use_entry, promote,
  touch_slots, touch_layer,
}
use unpack.Cache.Stack.Stored.{answered, begin_get-store, finish_restore-clear}
use unpack.Cache.Stack.Sound.{IsCounted, HasValue, begin_get_sound, begin_get_counts}
use unpack.Cache.Stack.Restored.{IsRestored}
use unpack.Cache.Stack.Again.{begin_get-finish_restore}
use unpack.Cache.Stack.Refines.{CacheCall, layers_answers, spec_answers, layers_answers_refines}
use unpack.Cache.Stack.Ends.{begin_get_finishes}
use unpack.Cache.Stack.Finished.{finish_restore_sound}

abbrev touch_file : ℕ → ℕ → Option ℕ → ℕ → ℕ × Bool
touch_file file address etag stamp = (stamp, true)

abbrev small_value : ℕ → Option ℕ
small_value n = if ltb n 100 then some n else none

abbrev kept_entry : CacheEntry CacheItemFamily ℕ ℕ
kept_entry = record { family = CacheItemFamily.resolve; etag = some 5; value = 42 }

abbrev memory_slot : CacheLayerSlot ℕ (CacheEntry CacheItemFamily ℕ ℕ) ℕ
memory_slot = CacheLayerSlot.memory (record { entries = (3, kept_entry) ∷ [] })

abbrev opened_file : PackFileCacheLayer ℕ (CacheEntry CacheItemFamily ℕ ℕ) ℕ
opened_file = record {
  pack_file = some (record { pointer = 7; content = 0 });
  reader_generation = 2;
  publication_base = PublicationBase.replace_all;
  active = true;
  pending = [];
}

abbrev two_layers : CacheLayers (CacheLayerSlot ℕ (CacheEntry CacheItemFamily ℕ ℕ) ℕ)
two_layers = record {
  layers = memory_slot ∷ CacheLayerSlot.persistent true opened_file ∷ [];
  work = no_counters;
}

abbrev planned : PersistentRestore ℕ ℕ
planned = record { pack_file = 7; reader_generation = 2; address = 4; etag = some 6 }

abbrev read_entry : CacheEntry CacheItemFamily ℕ ℕ
read_entry = record { family = CacheItemFamily.resolve; etag = some 6; value = 43 }

from_options_test :
    (from_options opened_file (record {
      kind = CacheKind.filesystem;
      max_memory_generations = some 0;
      readonly = true;
    })).layers
    ≡ CacheLayerSlot.persistent false opened_file ∷ []
unfolding from_options
from_options_test = refl

begin_get-store_example :
    answered
      (begin_get touch_file small_value CacheItemFamily.resolve 9
        (some 1)
        0
        (layers_store CacheItemFamily.resolve 9 (some 1) 50 two_layers).0).1
    ≡ some (some 50)
unfolding slot_writable
begin_get-store_example =
    begin_get-store touch_file small_value CacheItemFamily.resolve 9 (some 1) 0 two_layers
      memory_slot (CacheLayerSlot.persistent true opened_file ∷ []) CacheItemFamily.resolve 50 50
      refl refl refl

finish_restore-clear_example :
    (finish_restore touch_file small_value CacheItemFamily.resolve 4
        (some 6)
        0
        (record { layer_index = 1; restore = planned })
        (some read_entry)
        (layers_clear two_layers)
      >>= λ r. some (answered r.1))
    ≡ some (some none)
finish_restore-clear_example =
    finish_restore-clear touch_file small_value CacheItemFamily.resolve 4 (some 6) 0 two_layers
      (record { layer_index = 1; restore = planned }) (some read_entry) (omega arith)

begin_get_sound_example : HasValue small_value 3 (some 5) two_layers.layers 42
unfolding begin_get begin_get_from slot_lookup memory_lookup use_entry promote touch_slots
    touch_layer
begin_get_sound_example =
    begin_get_sound touch_file small_value CacheItemFamily.resolve 3 (some 5) 0 two_layers 42 refl

begin_get_counts_example :
    IsCounted CacheItemFamily.resolve no_counters
      (begin_get touch_file small_value CacheItemFamily.resolve 3 (some 5) 0 two_layers).1
      (begin_get touch_file small_value CacheItemFamily.resolve 3 (some 5) 0 two_layers).0.work
begin_get_counts_example =
    begin_get_counts touch_file small_value CacheItemFamily.resolve 3 (some 5) 0 two_layers

abbrev finished :
    CacheLayers (CacheLayerSlot ℕ (CacheEntry CacheItemFamily ℕ ℕ) ℕ)
    × CacheGet ℕ (PersistentRestore ℕ ℕ)
finished = (
  record {
    layers =
        CacheLayerSlot.memory (record { entries = (3, kept_entry) ∷ (4, read_entry) ∷ [] })
        ∷ CacheLayerSlot.persistent true
            (record opened_file { pack_file = some (record { pointer = 7; content = 8 }) })
        ∷ [];
    work = record no_counters {
      of_resolve = record { hits = 1; misses = 0; stores = 0; restores = 1; evictions = 0 };
    };
  },
  CacheGet.ready (some 43) true,
)

finish_test :
    finish_restore touch_file small_value CacheItemFamily.resolve 4
      (some 6)
      8
      (record { layer_index = 1; restore = planned })
      (some read_entry)
      two_layers
    ≡ some finished
unfolding finish_restore finish_from finish_at slot_lookup memory_lookup pack_file_lookup use_entry
    promote touch_slots touch_layer reads_from
finish_test = refl

finish_restore_sound_example :
    HasValue small_value 4 (some 6) two_layers.layers 43
    ⊎ IsRestored small_value 4 (some 6) planned (some read_entry) 1 two_layers.layers 43
finish_restore_sound_example =
    finish_restore_sound touch_file small_value CacheItemFamily.resolve 4 (some 6) 8 planned
      (some read_entry) two_layers 1 finished 43 finish_test refl

begin_get-finish_restore_example :
    answered (begin_get touch_file small_value CacheItemFamily.resolve 4 (some 6) 8 finished.0).1
    ≡ some (some 43)
unfolding is_persistent
begin_get-finish_restore_example =
    begin_get-finish_restore touch_file small_value CacheItemFamily.resolve 4 (some 6) 8 two_layers
      memory_slot (CacheLayerSlot.persistent true opened_file ∷ [])
      (record { layer_index = 1; restore = planned }) (some read_entry) finished 43 refl refl
      (λ entry read. sym (ap (λ (c : CacheEntry CacheItemFamily ℕ ℕ). c.etag) (some_inj read)))
      finish_test refl

abbrev some_calls : List (CacheCall ℕ ℕ ℕ)
some_calls =
    CacheCall.call_store CacheItemFamily.resolve 3 (some 5) 42
    ∷ CacheCall.call_completed
    ∷ CacheCall.call_get CacheItemFamily.resolve 3 (some 5)
    ∷ CacheCall.call_get CacheItemFamily.resolve 3 none
    ∷ CacheCall.call_clear
    ∷ CacheCall.call_get CacheItemFamily.resolve 3 (some 5)
    ∷ []

layers_answers_refines_example :
    layers_answers touch_file small_value 0 some_calls (
      from_options opened_file
        (record { kind = CacheKind.memory; max_memory_generations = none; readonly = false }))
    ≡ some (some 42) ∷ some none ∷ some none ∷ []
unfolding spec_answers
layers_answers_refines_example =
    layers_answers_refines touch_file small_value 0 opened_file false some_calls

put_off_test :
    begin_get {V = ℕ} touch_file small_value CacheItemFamily.resolve 4 (some 6) 8 two_layers
    ≡ (two_layers, CacheGet.deferred (record { layer_index = 1; restore = planned }))
unfolding begin_get begin_get_from slot_lookup memory_lookup pack_file_lookup
put_off_test = refl

begin_get_finishes_example :
    is_some (
      finish_restore touch_file small_value CacheItemFamily.resolve 4
        (some 6)
        8
        (record { layer_index = 1; restore = planned })
        none
        two_layers
      >>= λ r. answered r.1)
    ≡ true
begin_get_finishes_example =
    begin_get_finishes touch_file small_value CacheItemFamily.resolve 4 (some 6) 8 none two_layers
      two_layers (record { layer_index = 1; restore = planned }) put_off_test
