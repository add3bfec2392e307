-- ===== src/WatchCache/Tests.antt =====
-- A build that is remembered, asked for, and skipped.
use unpack.Prelude.{ℕ, true, false, List, [], ◌∷◌, ◌≡◌, refl, nat_eq, if◌then◌else◌}
use unpack.WatchCache.{
  WatchChangeSet, SnapshotEntry, Snapshotted, UnsafeWatchCacheLookup, UnsafeWatchCache, WatchCall,
  is_affected_by, affects_path, entry_path, is_context, starts_with, begin_compilation,
  get_module_build, remember_module_build, call, calls,
}
use unpack.WatchCache.Reuse.{empty_cache, get_module_build-remember}
use unpack.WatchCache.Sound.{AllRemembered, get_module_build_sound}

abbrev Watch : Type 0
Watch = UnsafeWatchCache ℕ ℕ ℕ ℕ ℕ

abbrev Call : Type 0
Call = WatchCall ℕ ℕ ℕ ℕ ℕ

abbrev build_of_a : Snapshotted ℕ
build_of_a = record { snapshot = SnapshotEntry.file ("src" ∷ "a.js" ∷ []) ∷ []; content = 42 }

abbrev change_of_b : WatchChangeSet
change_of_b = record {
  modified_files = ("src" ∷ "b.js" ∷ []) ∷ [];
  removed_files = [];
  changed_contexts = [];
}

abbrev no_watch : Watch
no_watch = empty_cache

abbrev other_build : List Call
other_build = WatchCall.asks_build 8 1 change_of_b ∷ WatchCall.asks_resolve 3 change_of_b ∷ []

get_module_build-remember_example :
    (get_module_build
      (calls
        (begin_compilation (calls (remember_module_build no_watch 7 1 build_of_a) other_build) true)
        other_build)
      7
      1
      change_of_b).1
    ≡ (if is_affected_by build_of_a.snapshot change_of_b
        then UnsafeWatchCacheLookup.invalidated
        else UnsafeWatchCacheLookup.reusable build_of_a)
get_module_build-remember_example =
    get_module_build-remember no_watch 7 1 build_of_a change_of_b other_build other_build refl refl

abbrev two_compilations : List Call
two_compilations = WatchCall.remembers_build 7 1 build_of_a ∷ WatchCall.begins true ∷ []

abbrev IsBuildOfA : ℕ → ℕ → Snapshotted ℕ → Type 0
IsBuildOfA identity etag build = (identity ≡ 7) × (etag ≡ 1) × (build.content ≡ 42)

a_remembered : AllRemembered IsBuildOfA two_compilations
a_remembered = ((refl, refl, refl), (tt, tt))

a_taken_over :
    (get_module_build (calls no_watch two_compilations) 7 1 change_of_b).1
    ≡ UnsafeWatchCacheLookup.reusable build_of_a
unfolding get_module_build calls call begin_compilation remember_module_build is_affected_by
    affects_path entry_path is_context starts_with
a_taken_over = refl

get_module_build_sound_example :
    IsBuildOfA 7 1 build_of_a × (is_affected_by build_of_a.snapshot change_of_b ≡ false)
get_module_build_sound_example =
    get_module_build_sound IsBuildOfA two_compilations 7 1 change_of_b build_of_a a_remembered
      a_taken_over
