-- ===== src/WatchCache/Sound.antt =====
-- Only what was remembered is taken over, and only where no change affects it.
use unpack.Prelude.{
  true, false, some, List, [], ◌∷◌, ◌≡◌, ◌==◌, subst, arith, Eq, Map, get, insert, Bool-cases,
  Option-cases, inl, inr, get-insert, get-remove, some_inj,
}
use unpack.WatchCache.{
  WatchChangeSet, is_affected_by, UnsafeWatchCacheLookup, Snapshotted, UnsafeModuleBuildRecord,
  UnsafeWatchCache, WatchCall, begin_compilation, get_resolve, remember_resolve, get_module_build,
  remember_module_build, call, calls,
}
use unpack.WatchCache.Reuse.{empty_cache}

module _ {Identity ETag Build : Type 0} ⦃identity_eq : Eq Identity⦄
    (P : Identity → ETag → Snapshotted Build → Type 0) where
  abbrev AllBuilds : Map Identity (UnsafeModuleBuildRecord ETag Build) → Type 0
  AllBuilds m =
      (identity : Identity) (r : UnsafeModuleBuildRecord ETag Build)
      → get identity m ≡ some r
      → P identity r.etag r.build

  AllBuilds-insert :
      (m : Map Identity (UnsafeModuleBuildRecord ETag Build)) (identity : Identity) (etag : ETag)
      (build : Snapshotted Build)
      → AllBuilds m
      → P identity etag build
      → AllBuilds (insert identity (record { etag = etag; build = build }) m)
  AllBuilds-insert m identity etag build h p other r e = elim (Bool-cases (identity == other)) [
    | inl same ↦
        let is : identity ≡ other = (identity_eq.eqb_iff identity other).0 same in
        let entry : UnsafeModuleBuildRecord ETag Build = record { etag = etag; build = build } in
        let at : some entry ≡ some r = ground (arith, get-insert identity other entry m) in
        subst (λ (x : UnsafeModuleBuildRecord ETag Build). P other x.etag x.build) (some_inj at)
          (subst (λ i. P i etag build) is p)
    | inr apart ↦
        h other r
          (ground (arith, get-insert identity other (record { etag = etag; build = build }) m))
  ]

module _ {Request Resolve Identity ETag Build : Type 0} ⦃request_eq : Eq Request⦄
    ⦃identity_eq : Eq Identity⦄ ⦃etag_eq : Eq ETag⦄
    (P : Identity → ETag → Snapshotted Build → Type 0) where
  record IsFrom (w : UnsafeWatchCache Request Resolve Identity ETag Build) : Type 0 where
    now : AllBuilds P w.module_builds
    before : AllBuilds P w.previous_module_builds

  -- What a call remembers has the property.
  abbrev pub Remembered : WatchCall Request Resolve Identity ETag Build → Type 0
  Remembered (WatchCall.remembers_build identity etag build) = P identity etag build
  Remembered _ = Unit

  abbrev pub AllRemembered : List (WatchCall Request Resolve Identity ETag Build) → Type 0
  AllRemembered [] = Unit
  AllRemembered (c ∷ cs) = Remembered c × AllRemembered cs

  get_resolve-IsFrom :
      (w : UnsafeWatchCache Request Resolve Identity ETag Build) (request : Request)
      (changes : WatchChangeSet)
      → IsFrom w
      → IsFrom (get_resolve w request changes).0
  unfolding get_resolve
  get_resolve-IsFrom w request changes h = elim (Option-cases (get request w.previous_resolves)) [
    | inl unknown ↦ rw (unknown, get_resolve) h
    | inr (found, at) ↦ elim (Bool-cases (is_affected_by found.snapshot changes)) [
      | inl affected ↦ rw (at, affected, get_resolve) (record { now = h.now; before = h.before })
      | inr fine ↦ rw (at, fine, get_resolve) (record { now = h.now; before = h.before })
    ]
  ]

  get_module_build-IsFrom :
      (w : UnsafeWatchCache Request Resolve Identity ETag Build) (identity : Identity) (etag : ETag)
      (changes : WatchChangeSet)
      → IsFrom w
      → IsFrom (get_module_build w identity etag changes).0
  unfolding get_module_build
  get_module_build-IsFrom w identity etag changes h =
      elim (Option-cases (get identity w.previous_module_builds)) [
        | inl unknown ↦ rw (unknown, get_module_build) h
        | inr (cached, at) ↦ elim (Bool-cases (is_affected_by cached.build.snapshot changes)) [
          | inl affected ↦
              rw (at, affected, get_module_build)
                (record {
                  now = h.now;
                  before = λ i r e.
                      h.before i r (ground (arith, get-remove identity i w.previous_module_builds));
                })
          | inr fine ↦ elim (Bool-cases (cached.etag == etag)) [
            | inl same ↦
                rw (at, fine, same, get_module_build)
                  (record {
                    now = AllBuilds-insert P w.module_builds identity etag cached.build h.now (
                        subst (λ t. P identity t cached.build)
                          ((etag_eq.eqb_iff cached.etag etag).0 same)
                          (h.before identity cached at));
                    before = h.before;
                  })
            | inr apart ↦ rw (at, fine, apart, get_module_build) h
          ]
        ]
      ]

  call-IsFrom :
      (w : UnsafeWatchCache Request Resolve Identity ETag Build)
      (c : WatchCall Request Resolve Identity ETag Build)
      → IsFrom w
      → Remembered c
      → IsFrom (call w c)
  unfolding call begin_compilation remember_resolve remember_module_build
  call-IsFrom w (WatchCall.begins true) h p = record { now = λ i r e. cc; before = h.now }
  call-IsFrom w (WatchCall.begins false) h p = record { now = λ i r e. cc; before = λ i r e. cc }
  call-IsFrom w (WatchCall.asks_resolve request changes) h p =
      get_resolve-IsFrom w request changes h
  call-IsFrom w (WatchCall.remembers_resolve request found) h p = record {
    now = h.now;
    before = h.before;
  }
  call-IsFrom w (WatchCall.asks_build identity etag changes) h p =
      get_module_build-IsFrom w identity etag changes h
  call-IsFrom w (WatchCall.remembers_build identity etag build) h p = record {
    now = AllBuilds-insert P w.module_builds identity etag build h.now p;
    before = h.before;
  }

  calls-IsFrom :
      (w : UnsafeWatchCache Request Resolve Identity ETag Build)
      (cs : List (WatchCall Request Resolve Identity ETag Build))
      → IsFrom w
      → AllRemembered cs
      → IsFrom (calls w cs)
  unfolding calls
  calls-IsFrom w [] h ps = h
  calls-IsFrom w (c ∷ cs) h (p, ps) = calls-IsFrom (call w c) cs (call-IsFrom w c h p) ps

  reusable-found :
      (w : UnsafeWatchCache Request Resolve Identity ETag Build) (identity : Identity) (etag : ETag)
      (changes : WatchChangeSet) (build : Snapshotted Build)
      → IsFrom w
      → (get_module_build w identity etag changes).1 ≡ UnsafeWatchCacheLookup.reusable build
      → P identity etag build × (is_affected_by build.snapshot changes ≡ false)
  unfolding get_module_build
  reusable-found w identity etag changes build h e =
      elim (Option-cases (get identity w.previous_module_builds)) [
        | inl unknown ↦ absurd (cc (rw (unknown, get_module_build) at e))
        | inr (cached, at) ↦ elim (Bool-cases (is_affected_by cached.build.snapshot changes)) [
          | inl affected ↦ absurd (cc (rw (at, affected, get_module_build) at e))
          | inr fine ↦ elim (Bool-cases (cached.etag == etag)) [
            | inl same ↦
                let is : cached.build ≡ build = cc (rw (at, fine, same, get_module_build) at e) in
                (
                  subst (λ b. P identity etag b) is
                      (subst (λ t. P identity t cached.build)
                        ((etag_eq.eqb_iff cached.etag etag).0 same) (h.before identity cached at)),
                  subst (λ (b : Snapshotted Build). is_affected_by b.snapshot changes ≡ false) is
                      fine,
                )
            | inr apart ↦ absurd (cc (rw (at, fine, apart, get_module_build) at e))
          ]
        ]
      ]

  -- Whatever holds of every build that was remembered, with its identity and its entity tag, holds of
  -- a build that is taken over, and no change affects the snapshot of that build.
  pub get_module_build_sound :
      (cs : List (WatchCall Request Resolve Identity ETag Build)) (identity : Identity)
      (etag : ETag) (changes : WatchChangeSet) (build : Snapshotted Build)
      → AllRemembered cs
      → (get_module_build (calls empty_cache cs) identity etag changes).1
        ≡ UnsafeWatchCacheLookup.reusable build
      → P identity etag build × (is_affected_by build.snapshot changes ≡ false)
  get_module_build_sound cs identity etag changes build ps e =
      reusable-found (calls empty_cache cs) identity etag changes build
        (calls-IsFrom empty_cache cs (record { now = λ i r f. cc; before = λ i r f. cc }) ps) e
