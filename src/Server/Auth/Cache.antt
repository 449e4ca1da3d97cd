-- ===== src/Server/Auth/Cache.antt =====
-- The cache of shared file systems of server/server.go.
use ftpserver.Base.{
  ◌≡◌, refl, ap, ◌∙◌, Bool, true, false, none, some, List, [], ◌∷◌, Text, text_eq, text_eq_iff,
  text_eq_refl, if◌then◌else◌, Result, ok, err, arith, All, Bool-cases, Option-cases, inl, inr,
}
use ftpserver.Confpar.{Access}
use ftpserver.Fs.{Fs, Cloud}
use ftpserver.Fs.Loader.{load_fs}
use ftpserver.Server.Auth.{cached, store, keep_shared, reuse_or_load, load_cached}

pub cached-store :
    (k u : Text) (fs : Fs) (cache : List (Text × Fs))
    → cached u (store k fs cache) ≡ (if text_eq k u then some fs else cached u cache)
unfolding cached store
cached-store k u fs [] = refl
cached-store k u fs ((j, old) ∷ cache) =
    ground (arith, text_eq_iff k u, text_eq_iff j k, text_eq_iff j u, cached-store k u fs cache)

-- A file system that was loaded for a shared access of this user.
abbrev pub IsLoadedFor : Text × Fs → Type 0
IsLoadedFor (user, fs) =
    (cloud : Cloud) × (a : Access) × (a.user ≡ user) × (a.shared ≡ true) × (load_fs cloud a ≡ ok fs)

abbrev pub IsGenuine : List (Text × Fs) → Type 0
IsGenuine cache = All IsLoadedFor cache

store-IsGenuine :
    (user : Text) (fs : Fs) (cache : List (Text × Fs))
    → IsLoadedFor (user, fs)
    → IsGenuine cache
    → IsGenuine (store user fs cache)
unfolding store
store-IsGenuine user fs [] h k = (h, tt)
store-IsGenuine user fs ((u, old) ∷ cache) h (here, k) = elim (Bool-cases (text_eq u user)) [
  | inl same ↦ rw same (h, k)
  | inr other ↦ rw other (here, store-IsGenuine user fs cache h k)
]

cached-IsLoadedFor :
    (user : Text) (cache : List (Text × Fs)) {fs : Fs}
    → IsGenuine cache
    → cached user cache ≡ some fs
    → IsLoadedFor (user, fs)
unfolding cached
cached-IsLoadedFor user [] k h = cc
cached-IsLoadedFor user ((u, old) ∷ cache) {fs} (here, k) h = elim (Bool-cases (text_eq u user)) [
  | inl same ↦
      let (cloud, a, named, shared, loaded) = here in
      (cloud, a, named ∙ (text_eq_iff u user).0 same, shared, loaded ∙ ap ok (ground arith))
  | inr other ↦ cached-IsLoadedFor user cache k (rw other at h)
]

if-IsGenuine :
    (b : Bool) (x y : List (Text × Fs))
    → (b ≡ true → IsGenuine x)
    → IsGenuine y
    → IsGenuine (if b then x else y)
if-IsGenuine true x y h k = h refl
if-IsGenuine false x y h k = k

keep_shared-IsGenuine :
    (cloud : Cloud) (a : Access) (cache : List (Text × Fs)) (r : Result Fs)
    → load_fs cloud a ≡ r
    → IsGenuine cache
    → IsGenuine (keep_shared a cache r).0
unfolding keep_shared
keep_shared-IsGenuine cloud a cache (err e) loaded k = k
keep_shared-IsGenuine cloud a cache (ok fs) loaded k =
    if-IsGenuine a.shared _ cache
      (λ shared. store-IsGenuine a.user fs cache (cloud, a, refl, shared, loaded) k) k

-- `loadFs` keeps every entry of the cache loaded for a shared access of the user that it stands
-- under, whether the call hits the cache, loads or fails.
pub load_cached-IsGenuine :
    (cloud : Cloud) (a : Access) (cache : List (Text × Fs))
    → IsGenuine cache
    → IsGenuine (load_cached cloud a cache).0
unfolding load_cached
load_cached-IsGenuine cloud a cache k = elim (Option-cases (cached a.user cache)) [
  | inl miss ↦
      rw (miss, reuse_or_load) (keep_shared-IsGenuine cloud a cache (load_fs cloud a) refl k)
  | inr (fs, hit) ↦ rw (hit, reuse_or_load) k
]

keep_shared-eq-ok :
    (a : Access) (cache cache' : List (Text × Fs)) (r : Result Fs) {fs : Fs}
    → keep_shared a cache r ≡ (cache', ok fs)
    → (r ≡ ok fs) × (cache' ≡ (if a.shared then store a.user fs cache else cache))
unfolding keep_shared
keep_shared-eq-ok a cache cache' (err e) h = cc
keep_shared-eq-ok a cache cache' (ok fs) h = ground arith

-- Where a file system comes from that `loadFs` returns: it was loaded, now or at an earlier call,
-- for an access of the same user.
pub load_cached-origin :
    (cloud : Cloud) (a : Access) (cache cache' : List (Text × Fs)) {fs : Fs}
    → IsGenuine cache
    → load_cached cloud a cache ≡ (cache', ok fs)
    → (cloud' : Cloud) × (b : Access) × (b.user ≡ a.user) × (load_fs cloud' b ≡ ok fs)
unfolding load_cached
load_cached-origin cloud a cache cache' k h = elim (Option-cases (cached a.user cache)) [
  | inl miss ↦ (
    cloud,
    a,
    refl,
    (keep_shared-eq-ok a cache cache' (load_fs cloud a) (rw (miss, reuse_or_load) at h)).0,
  )
  | inr (old, hit) ↦
      let (cloud', b, named, shared, loaded) = cached-IsLoadedFor a.user cache k hit in
      (cloud', b, named, loaded ∙ ap (λ r. r.1) (rw (hit, reuse_or_load) at h))
]

load_cached-hit :
    (cloud : Cloud) (b : Access) (cache : List (Text × Fs)) {fs : Fs}
    → cached b.user cache ≡ some fs
    → load_cached cloud b cache ≡ (cache, ok fs)
unfolding load_cached
load_cached-hit cloud b cache hit = rw (hit, reuse_or_load)

cached-load_cached :
    (cloud : Cloud) (a : Access) (cache cache' : List (Text × Fs)) {fs : Fs}
    → a.shared ≡ true
    → load_cached cloud a cache ≡ (cache', ok fs)
    → cached a.user cache' ≡ some fs
unfolding load_cached
cached-load_cached cloud a cache cache' {fs} shared h = elim (Option-cases (cached a.user cache)) [
  | inl miss ↦
      let (loaded, kept) =
        keep_shared-eq-ok a cache cache' (load_fs cloud a) (rw (miss, reuse_or_load) at h) in
      ground (arith, cached-store a.user a.user fs cache, text_eq_refl a.user)
  | inr (old, hit) ↦
      let e : ◌≡◌ {A = List (Text × Fs) × Result Fs} (cache, ok old) (cache', ok fs) =
        rw (hit, reuse_or_load) at h in
      ground arith
]

pub load_cached_again :
    (cloud cloud' : Cloud) (a b : Access) (cache cache' : List (Text × Fs)) {fs : Fs}
    → a.shared ≡ true
    → load_cached cloud a cache ≡ (cache', ok fs)
    → b.user ≡ a.user
    → load_cached cloud' b cache' ≡ (cache', ok fs)
load_cached_again cloud cloud' a b cache cache' shared h named =
    load_cached-hit cloud' b cache'
      (ap (λ u. cached u cache') named ∙ cached-load_cached cloud a cache cache' shared h)

keep_shared_unshared :
    (a : Access) (cache : List (Text × Fs)) (r : Result Fs)
    → a.shared ≡ false
    → keep_shared a cache r ≡ (cache, r)
unfolding keep_shared
keep_shared_unshared a cache (err e) own = refl
keep_shared_unshared a cache (ok fs) own = ground arith

-- For a user with no file system in the cache, a call for an access that is not shared loads a new
-- one each time: its answer is that of `LoadFs`, and the cache stays as it is.
pub load_cached_unshared :
    (cloud : Cloud) (a : Access) (cache : List (Text × Fs))
    → a.shared ≡ false
    → cached a.user cache ≡ none
    → load_cached cloud a cache ≡ (cache, load_fs cloud a)
unfolding load_cached
load_cached_unshared cloud a cache own miss =
    rw (miss, reuse_or_load) (keep_shared_unshared a cache (load_fs cloud a) own)
