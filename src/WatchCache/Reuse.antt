-- ===== src/WatchCache/Reuse.antt =====
-- Which builds a watch compilation takes over from the one before it.
use unpack.Prelude.{
  Bool, true, false, not, none, some, List, [], ◌∷◌, ◌≡◌, ◌∙◌, ◌==◌, refl, arith, Eq, get, all,
  if◌then◌else◌, Bool-cases, Option-cases, inl, inr, get-insert, get-remove,
}
use unpack.WatchCache.{
  WatchChangeSet, is_affected_by, UnsafeWatchCacheLookup, Snapshotted, UnsafeModuleBuildRecord,
  UnsafeWatchCache, WatchCall, begin_compilation, get_resolve, remember_resolve, get_module_build,
  remember_module_build, call, calls,
}

abbrev pub empty_cache :
    {Request Resolve Identity ETag Build : Type 0}
    → UnsafeWatchCache Request Resolve Identity ETag Build
empty_cache = record {
  resolves = [];
  previous_resolves = [];
  module_builds = [];
  previous_module_builds = [];
}

module _ {Request Resolve Identity ETag Build : Type 0} ⦃request_eq : Eq Request⦄
    ⦃identity_eq : Eq Identity⦄ ⦃etag_eq : Eq ETag⦄ where
  -- A call that neither begins a compilation nor is about the build of the module.
  abbrev pub is_elsewhere : Identity → WatchCall Request Resolve Identity ETag Build → Bool
  is_elsewhere identity (WatchCall.begins can_reuse_previous) = false
  is_elsewhere identity (WatchCall.asks_resolve request changes) = true
  is_elsewhere identity (WatchCall.remembers_resolve request found) = true
  is_elsewhere identity (WatchCall.asks_build other etag changes) = not (other == identity)
  is_elsewhere identity (WatchCall.remembers_build other etag build) = not (other == identity)

  -- What an identity has in the state.
  record Same (identity : Identity) (w t : UnsafeWatchCache Request Resolve Identity ETag Build)
      : Type 0 where
    now : get identity t.module_builds ≡ get identity w.module_builds
    before : get identity t.previous_module_builds ≡ get identity w.previous_module_builds

  elsewhere-Same :
      (identity : Identity) (w : UnsafeWatchCache Request Resolve Identity ETag Build)
      (c : WatchCall Request Resolve Identity ETag Build)
      → is_elsewhere identity c ≡ true
      → Same identity w (call w c)
  unfolding call get_resolve remember_resolve get_module_build remember_module_build
  elsewhere-Same identity w (WatchCall.begins can_reuse_previous) h = cc
  elsewhere-Same identity w (WatchCall.asks_resolve request changes) h =
      elim (Option-cases (get request w.previous_resolves)) [
        | inl unknown ↦ rw (unknown, get_resolve, call) (record { now = refl; before = refl })
        | inr (found, at) ↦ elim (Bool-cases (is_affected_by found.snapshot changes)) [
          | inl affected ↦
              rw (at, affected, get_resolve, call) (record { now = refl; before = refl })
          | inr fine ↦ rw (at, fine, get_resolve, call) (record { now = refl; before = refl })
        ]
      ]
  elsewhere-Same identity w (WatchCall.remembers_resolve request found) h = record {
    now = refl;
    before = refl;
  }
  elsewhere-Same identity w (WatchCall.asks_build other etag changes) h =
      elim (Option-cases (get other w.previous_module_builds)) [
        | inl unknown ↦ rw (unknown, get_module_build, call) (record { now = refl; before = refl })
        | inr (cached, at) ↦ elim (Bool-cases (is_affected_by cached.build.snapshot changes)) [
          | inl affected ↦
              rw (at, affected, get_module_build, call)
                (record {
                  now = refl;
                  before = ground (arith, get-remove other identity w.previous_module_builds);
                })
          | inr fine ↦ elim (Bool-cases (cached.etag == etag)) [
            | inl same ↦
                rw (at, fine, same, get_module_build, call)
                  (record {
                    now = ground (
                      arith,
                      get-insert other identity (record { etag = etag; build = cached.build })
                          w.module_builds,
                    );
                    before = refl;
                  })
            | inr apart ↦
                rw (at, fine, apart, get_module_build, call) (record { now = refl; before = refl })
          ]
        ]
      ]
  elsewhere-Same identity w (WatchCall.remembers_build other etag build) h = record {
    now =
        ground (
          arith,
          get-insert other identity (record { etag = etag; build = build }) w.module_builds,
        );
    before = refl;
  }

  all_elsewhere-Same :
      (identity : Identity) (w : UnsafeWatchCache Request Resolve Identity ETag Build)
      (cs : List (WatchCall Request Resolve Identity ETag Build))
      → all (is_elsewhere identity) cs ≡ true
      → Same identity w (calls w cs)
  unfolding calls
  all_elsewhere-Same identity w [] h = record { now = refl; before = refl }
  all_elsewhere-Same identity w (c ∷ cs) h =
      let first = elsewhere-Same identity w c (ground arith) in
      let later = all_elsewhere-Same identity (call w c) cs (ground arith) in
      record { now = later.now ∙ first.now; before = later.before ∙ first.before }

  get_module_build-found :
      (w : UnsafeWatchCache Request Resolve Identity ETag Build) (identity : Identity) (etag : ETag)
      (build : Snapshotted Build) (changes : WatchChangeSet)
      → get identity w.previous_module_builds ≡ some (record { etag = etag; build = build })
      → (get_module_build w identity etag changes).1 ≡ (
          if is_affected_by build.snapshot changes
          then UnsafeWatchCacheLookup.invalidated
          else UnsafeWatchCacheLookup.reusable build)
  unfolding get_module_build
  get_module_build-found w identity etag build changes at =
      elim (Bool-cases (is_affected_by build.snapshot changes)) [
        | inl affected ↦ rw (at, affected, get_module_build) refl
        | inr fine ↦ rw (at, fine, (etag_eq.eqb_iff etag etag).1 refl, get_module_build) refl
      ]

  -- A build that is remembered is taken over by the next compilation, if that may reuse and asks with
  -- the same entity tag, unless what changed since affects its snapshot.
  pub get_module_build-remember :
      (w : UnsafeWatchCache Request Resolve Identity ETag Build) (identity : Identity) (etag : ETag)
      (build : Snapshotted Build) (changes : WatchChangeSet)
      (before after : List (WatchCall Request Resolve Identity ETag Build))
      → all (is_elsewhere identity) before ≡ true
      → all (is_elsewhere identity) after ≡ true
      → (get_module_build
          (calls
            (begin_compilation (calls (remember_module_build w identity etag build) before) true)
            after)
          identity
          etag
          changes).1
        ≡ (if is_affected_by build.snapshot changes
            then UnsafeWatchCacheLookup.invalidated
            else UnsafeWatchCacheLookup.reusable build)
  unfolding get_module_build begin_compilation remember_module_build
  get_module_build-remember w identity etag build changes before after h g =
      let entry : UnsafeModuleBuildRecord ETag Build = record { etag = etag; build = build } in
      let remembered = remember_module_build w identity etag build in
      let one = all_elsewhere-Same identity remembered before h in
      let two =
        all_elsewhere-Same identity (begin_compilation (calls remembered before) true) after g in
      let here : get identity remembered.module_builds ≡ some entry = ground (
        arith,
        get-insert identity identity entry w.module_builds,
        identity_eq.eqb_iff identity identity,
      ) in
      get_module_build-found (calls (begin_compilation (calls remembered before) true) after)
        identity etag build changes (two.before ∙ one.now ∙ here)

  -- A build that no compilation asked for or remembered is not taken over to the compilation after it,
  -- and none is where the next compilation may not reuse.
  pub get_module_build-skipped :
      (w : UnsafeWatchCache Request Resolve Identity ETag Build) (identity : Identity) (etag : ETag)
      (changes : WatchChangeSet) (may_reuse : Bool)
      (skipping after : List (WatchCall Request Resolve Identity ETag Build))
      → all (is_elsewhere identity) skipping ≡ true
      → all (is_elsewhere identity) after ≡ true
      → (get_module_build
          (calls (begin_compilation (calls (begin_compilation w true) skipping) may_reuse) after)
          identity
          etag
          changes).1
        ≡ UnsafeWatchCacheLookup.miss
  unfolding get_module_build begin_compilation
  get_module_build-skipped w identity etag changes may_reuse skipping after h g =
      let one = all_elsewhere-Same identity (begin_compilation w true) skipping h in
      let two =
        all_elsewhere-Same identity
          (begin_compilation (calls (begin_compilation w true) skipping) may_reuse) after g in
      let gone : get identity
            (begin_compilation (calls (begin_compilation w true) skipping)
              may_reuse).previous_module_builds
          ≡ none =
        elim (Bool-cases may_reuse) [
          | inl yes_reuse ↦ rw (yes_reuse, begin_compilation) one.now
          | inr fresh ↦ rw (fresh, begin_compilation) refl
        ] in
      rw (two.before ∙ gone, get_module_build) refl
