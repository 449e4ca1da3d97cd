-- ===== src/Server/Auth/Mapping.antt =====
-- The cache of server/server.go as the map that its `loadFs` uses, of which the list of entries is one
-- representation.
use mathlib.Core.Path.{ap₂, fun_ext}
use ftpserver.Base.{
  ◌≡◌, refl, ap, ◌∙◌, Bool, true, false, Option, none, some, List, [], ◌∷◌, Text, text_eq,
  if◌then◌else◌, Result, ok, err,
}
use ftpserver.Confpar.{Access}
use ftpserver.Fs.{Fs, Cloud}
use ftpserver.Fs.Loader.{load_fs}
use ftpserver.Server.Auth.{cached, store, keep_shared, reuse_or_load, load_cached}
use ftpserver.Server.Auth.Cache.{cached-store}

-- The map by user, and its update.
abbrev pub FsMap : Type 0
FsMap = Text → Option Fs

pub assign : Text → Fs → FsMap → FsMap
assign user fs m u = if text_eq user u then some fs else m u

-- What one call of `loadFs` is to do: the map's file system wins, and only a shared one is entered.
keep : Access → FsMap → Result Fs → FsMap × Result Fs
unfolding assign
keep a m (err e) = (m, err e)
keep a m (ok fs) = (if a.shared then assign a.user fs m else m, ok fs)

answer : Cloud → Access → FsMap → Option Fs → FsMap × Result Fs
unfolding keep
answer cloud a m (some fs) = (m, ok fs)
answer cloud a m none = keep a m (load_fs cloud a)

-- A run of calls, each with what the services answer at its time, and the results.
pub answer_all : List (Cloud × Access) → FsMap → FsMap × List (Result Fs)
unfolding answer
answer_all [] m = (m, [])
answer_all ((cloud, a) ∷ calls) m =
    let (m', r) = answer cloud a m (m a.user) in
    let (m'', rs) = answer_all calls m' in (m'', r ∷ rs)

pub load_all : List (Cloud × Access) → List (Text × Fs) → List (Text × Fs) × List (Result Fs)
unfolding load_cached
load_all [] cache = (cache, [])
load_all ((cloud, a) ∷ calls) cache =
    let (cache', r) = load_cached cloud a cache in
    let (cache'', rs) = load_all calls cache' in (cache'', r ∷ rs)

-- The map that a cache stands for.
abbrev pub map_of : List (Text × Fs) → FsMap
map_of cache u = cached u cache

abbrev view : List (Text × Fs) × Result Fs → FsMap × Result Fs
view (cache, r) = (map_of cache, r)

map_of-if :
    (b : Bool) (user : Text) (fs : Fs) (cache : List (Text × Fs))
    → map_of (if b then store user fs cache else cache)
      ≡ (if b then assign user fs (map_of cache) else map_of cache)
unfolding assign
map_of-if true user fs cache = fun_ext (λ u. cached-store user u fs cache)
map_of-if false user fs cache = refl

keep_shared-map_of :
    (a : Access) (cache : List (Text × Fs)) (r : Result Fs)
    → view (keep_shared a cache r) ≡ keep a (map_of cache) r
unfolding keep_shared keep
keep_shared-map_of a cache (err e) = refl
keep_shared-map_of a cache (ok fs) = ap (λ m. (m, ok fs)) (map_of-if a.shared a.user fs cache)

reuse_or_load-map_of :
    (cloud : Cloud) (a : Access) (cache : List (Text × Fs)) (o : Option Fs)
    → view (reuse_or_load cloud a cache o) ≡ answer cloud a (map_of cache) o
unfolding reuse_or_load answer
reuse_or_load-map_of cloud a cache (some fs) = refl
reuse_or_load-map_of cloud a cache none = keep_shared-map_of a cache (load_fs cloud a)

-- Over any run of `loadFs` calls the cache is a map from users to file systems: each call answers with
-- the file system that the map holds for the user, or else with what `LoadFs` answers, and enters a
-- new file system of a shared access into the map and changes no other user's; how the cache is laid
-- out and ordered shows in no result.
pub load_all-answer_all :
    (calls : List (Cloud × Access)) (cache : List (Text × Fs))
    → ((load_all calls cache).1 ≡ (answer_all calls (map_of cache)).1)
      × (map_of (load_all calls cache).0 ≡ (answer_all calls (map_of cache)).0)
unfolding load_all answer_all load_cached
load_all-answer_all [] cache = (refl, refl)
load_all-answer_all ((cloud, a) ∷ calls) cache =
    let (cache', r) = load_cached cloud a cache in
    let (m', r') = answer cloud a (map_of cache) (cached a.user cache) in
    let same : (map_of cache', r) ≡ (m', r') =
      reuse_or_load-map_of cloud a cache (cached a.user cache) in
    let (results, maps) = load_all-answer_all calls cache' in
    (
      ap₂ (λ x xs. x ∷ xs) (ap (λ t. t.1) same)
          (results ∙ ap (λ t. (answer_all calls (t.0)).1) same),
      maps ∙ ap (λ t. (answer_all calls (t.0)).0) same,
    )
