-- ===== src/WatchCache.antt =====
-- crates/unpack_core/src/unsafe_watch_cache.rs and the test of snapshot.rs that it applies: what a watch
-- compilation takes over from the one before it without looking at the file system. The lock is taken
-- for the whole of an operation, so operations are functions of the state. A path is the list of its
-- components. What records, requests, identities and entity
-- tags are is a parameter.
pub mod Reuse
pub mod Sound
mod Tests
use Prim.Native.String.{String}
use unpack.Prelude.{
  Bool, true, false, Option, none, some, List, [], ◌∷◌, ◌++◌, ◌==◌, ◌||◌, ◌&&◌, Eq, string_eq,
  list_eq, contains, any, Map, get, insert, remove, if◌then◌else◌,
}

abbrev pub Components : Type 0
Components = List String

-- `Path::starts_with`
unfoldable pub starts_with : Components → Components → Bool
starts_with path [] = true
starts_with [] (c ∷ base) = false
starts_with (d ∷ path) (c ∷ base) = d == c && starts_with path base

pub record WatchChangeSet : Type 0 where
  pub modified_files : List Components
  pub removed_files : List Components
  pub changed_contexts : List Components

unfoldable pub affects_path : WatchChangeSet → Components → Bool → Bool
unfolding starts_with
affects_path changes path path_is_context =
    contains changes.modified_files path
    || (contains changes.removed_files path
        || (any (λ c. starts_with path c || starts_with c path) changes.changed_contexts
            || (path_is_context
                && any (λ c. starts_with c path)
                    (changes.modified_files ++ changes.removed_files))))

-- The paths of a snapshot; what else it stores of them does not matter here.
pub data SnapshotEntry : Type 0 where
  file context missing_existence immutable_path managed_path : Components → SnapshotEntry

unfoldable pub entry_path : SnapshotEntry → Components
entry_path (SnapshotEntry.file path) = path
entry_path (SnapshotEntry.context path) = path
entry_path (SnapshotEntry.missing_existence path) = path
entry_path (SnapshotEntry.immutable_path path) = path
entry_path (SnapshotEntry.managed_path path) = path

unfoldable pub is_context : SnapshotEntry → Bool
is_context (SnapshotEntry.context path) = true
is_context _ = false

unfoldable pub is_affected_by : List SnapshotEntry → WatchChangeSet → Bool
unfolding affects_path entry_path is_context
is_affected_by entries changes =
    any (λ e. affects_path changes (entry_path e) (is_context e)) entries

pub data UnsafeWatchCacheLookup (Record : Type 0) : Type 0 where
  reusable : Record → UnsafeWatchCacheLookup Record
  invalidated miss : UnsafeWatchCacheLookup Record

-- A `ResolveRecord` or a `ModuleBuildRecord`: its snapshot, and what else is in it.
pub record Snapshotted (Content : Type 0) : Type 0 where
  pub snapshot : List SnapshotEntry
  pub content : Content

pub record UnsafeModuleBuildRecord (ETag Build : Type 0) : Type 0 where
  pub etag : ETag
  pub build : Snapshotted Build

pub record UnsafeWatchCache (Request Resolve Identity ETag Build : Type 0) : Type 0 where
  pub resolves : Map Request (Snapshotted Resolve)
  pub previous_resolves : Map Request (Snapshotted Resolve)
  pub module_builds : Map Identity (UnsafeModuleBuildRecord ETag Build)
  pub previous_module_builds : Map Identity (UnsafeModuleBuildRecord ETag Build)

-- What compilations call, one after the other.
pub data WatchCall (Request Resolve Identity ETag Build : Type 0) : Type 0 where
  begins : Bool → WatchCall Request Resolve Identity ETag Build
  asks_resolve : Request → WatchChangeSet → WatchCall Request Resolve Identity ETag Build
  remembers_resolve : Request → Snapshotted Resolve → WatchCall Request Resolve Identity ETag Build
  asks_build : Identity → ETag → WatchChangeSet → WatchCall Request Resolve Identity ETag Build
  remembers_build :
      Identity → ETag → Snapshotted Build → WatchCall Request Resolve Identity ETag Build

module _ {Request Resolve Identity ETag Build : Type 0} ⦃request_eq : Eq Request⦄
    ⦃identity_eq : Eq Identity⦄ ⦃etag_eq : Eq ETag⦄ where
  unfoldable pub begin_compilation :
      UnsafeWatchCache Request Resolve Identity ETag Build
      → Bool
      → UnsafeWatchCache Request Resolve Identity ETag Build
  begin_compilation w can_reuse_previous =
      if can_reuse_previous
      then record w {
        resolves = [];
        previous_resolves = w.resolves;
        module_builds = [];
        previous_module_builds = w.module_builds;
      }
      else record {
        resolves = [];
        previous_resolves = [];
        module_builds = [];
        previous_module_builds = [];
      }

  unfoldable pub get_resolve :
      UnsafeWatchCache Request Resolve Identity ETag Build
      → Request
      → WatchChangeSet
      → UnsafeWatchCache Request Resolve Identity ETag Build
        × UnsafeWatchCacheLookup (Snapshotted Resolve)
  unfolding is_affected_by
  get_resolve w request changes = elim (get request w.previous_resolves) [
    | none ↦ (w, UnsafeWatchCacheLookup.miss)
    | some found ↦
        if is_affected_by found.snapshot changes
        then (
          record w { previous_resolves = remove request w.previous_resolves },
          UnsafeWatchCacheLookup.invalidated,
        )
        else (
          record w { resolves = insert request found w.resolves },
          UnsafeWatchCacheLookup.reusable found,
        )
  ]

  unfoldable pub remember_resolve :
      UnsafeWatchCache Request Resolve Identity ETag Build
      → Request
      → Snapshotted Resolve
      → UnsafeWatchCache Request Resolve Identity ETag Build
  remember_resolve w request found = record w { resolves = insert request found w.resolves }

  unfoldable pub get_module_build :
      UnsafeWatchCache Request Resolve Identity ETag Build
      → Identity
      → ETag
      → WatchChangeSet
      → UnsafeWatchCache Request Resolve Identity ETag Build
        × UnsafeWatchCacheLookup (Snapshotted Build)
  unfolding is_affected_by
  get_module_build w identity etag changes = elim (get identity w.previous_module_builds) [
    | none ↦ (w, UnsafeWatchCacheLookup.miss)
    | some cached ↦
        if is_affected_by cached.build.snapshot changes
        then (
          record w { previous_module_builds = remove identity w.previous_module_builds },
          UnsafeWatchCacheLookup.invalidated,
        )
        else (if cached.etag == etag
            then (
              record w {
                module_builds =
                    insert identity (record { etag = etag; build = cached.build }) w.module_builds;
              },
              UnsafeWatchCacheLookup.reusable cached.build,
            )
            else (w, UnsafeWatchCacheLookup.miss))
  ]

  unfoldable pub remember_module_build :
      UnsafeWatchCache Request Resolve Identity ETag Build
      → Identity
      → ETag
      → Snapshotted Build
      → UnsafeWatchCache Request Resolve Identity ETag Build
  remember_module_build w identity etag build = record w {
    module_builds = insert identity (record { etag = etag; build = build }) w.module_builds;
  }

  unfoldable pub call :
      UnsafeWatchCache Request Resolve Identity ETag Build
      → WatchCall Request Resolve Identity ETag Build
      → UnsafeWatchCache Request Resolve Identity ETag Build
  unfolding begin_compilation get_resolve remember_resolve get_module_build remember_module_build
  call w (WatchCall.begins can_reuse_previous) = begin_compilation w can_reuse_previous
  call w (WatchCall.asks_resolve request changes) = (get_resolve w request changes).0
  call w (WatchCall.remembers_resolve request found) = remember_resolve w request found
  call w (WatchCall.asks_build identity etag changes) = (get_module_build w identity etag changes).0
  call w (WatchCall.remembers_build identity etag build) =
      remember_module_build w identity etag build

  unfoldable pub calls :
      UnsafeWatchCache Request Resolve Identity ETag Build
      → List (WatchCall Request Resolve Identity ETag Build)
      → UnsafeWatchCache Request Resolve Identity ETag Build
  unfolding call
  calls w [] = w
  calls w (c ∷ rest) = calls (call w c) rest
