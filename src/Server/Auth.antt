-- ===== src/Server/Auth.antt =====
-- server/server.go: `AuthUser` and `loadFs`. The access is chosen first and read again through its
-- pointer when the file system is loaded; other logins may come in between.
pub mod Cache
pub mod Faults
pub mod Interleaved
pub mod Mapping
pub mod Pointers
pub mod Provenance
pub mod Remote
pub mod Sessions
use ftpserver.Base.{
  ℕ, Bool, true, false, ◌||◌, Option, none, some, List, [], ◌∷◌, ◌++◌, Text, text_eq, length,
  get_elem?, if◌then◌else◌, Error, Result, ok, err, ◌>>=◌, Run, done, panic,
}
use ftpserver.Confpar.{Access, AccessesWebhook}
use ftpserver.Config.{Env, Config, get_access}
use ftpserver.Fs.{Fs, logged_fs, Cloud}
use ftpserver.Fs.Loader.{load_fs}
use ftpserver.Server.{Server, ClientContext}
use ftpserver.Server.Webhook.{Http, get_access_from_webhook}

-- `cache.accesses[user]`.
unfoldable pub cached : Text → List (Text × Fs) → Option Fs
cached user [] = none
cached user ((u, fs) ∷ cache) = if text_eq u user then some fs else cached user cache

-- `cache.accesses[user] = fs`.
unfoldable pub store : Text → Fs → List (Text × Fs) → List (Text × Fs)
store user fs [] = (user, fs) ∷ []
store user fs ((u, old) ∷ cache) =
    if text_eq u user then (user, fs) ∷ cache else (u, old) ∷ store user fs cache

unfoldable pub keep_shared : Access → List (Text × Fs) → Result Fs → List (Text × Fs) × Result Fs
unfolding store
keep_shared a cache (err e) = (cache, err e)
keep_shared a cache (ok fs) = (if a.shared then store a.user fs cache else cache, ok fs)

-- The cache's file system, or a new one.
unfoldable pub reuse_or_load :
    Cloud → Access → List (Text × Fs) → Option Fs → List (Text × Fs) × Result Fs
unfolding keep_shared
reuse_or_load cloud a cache (some fs) = (cache, ok fs)
reuse_or_load cloud a cache none = keep_shared a cache (load_fs cloud a)

-- `loadFs`: the cache afterwards, and the file system.
unfoldable pub load_cached : Cloud → Access → List (Text × Fs) → List (Text × Fs) × Result Fs
unfolding reuse_or_load cached load_fs text_eq
load_cached cloud a cache = reuse_or_load cloud a cache (cached a.user cache)

module _ {TlsConfig : Type 0} where
  -- `cc.SetDebug(true)` under the test of `AuthUser`.
  unfoldable pub debug_session : Server TlsConfig → Access → ClientContext → ClientContext
  debug_session s a cc =
      if s.config.content.logging.ftp_exchanges || a.logging.ftp_exchanges
      then record cc { debug = true }
      else cc

  unfoldable pub log_accesses : Server TlsConfig → Access → Fs → Fs
  log_accesses s a fs =
      if s.config.content.logging.file_accesses || a.logging.file_accesses then logged_fs fs else fs

  unfoldable pub give_session :
      Server TlsConfig
      → ClientContext
      → Access
      → List (Text × Fs) × Result Fs
      → Server TlsConfig × ClientContext × Result Fs
  unfolding debug_session log_accesses
  give_session s cc a (cache, err e) = (record s { accesses = cache }, cc, err e)
  give_session s cc a (cache, ok fs) =
      (record s { accesses = cache }, debug_session s a cc, ok (log_accesses s a fs))

  unfoldable pub open_at :
      Cloud
      → Server TlsConfig
      → ClientContext
      → Option Access
      → Run (Server TlsConfig × ClientContext × Result Fs)
  unfolding give_session load_cached
  open_at cloud s cc none = panic
  open_at cloud s cc (some a) = done (give_session s cc a (load_cached cloud a s.accesses))

  -- The second half of `AuthUser`, from the call of `loadFs` on. A nil pointer is read there.
  unfoldable pub open_session :
      Cloud
      → Server TlsConfig
      → ClientContext
      → Option ℕ
      → Run (Server TlsConfig × ClientContext × Result Fs)
  unfolding open_at
  open_session cloud s cc none = panic
  open_session cloud s cc (some p) = open_at cloud s cc (get_elem? s.config.heap p)

  unfoldable pub resume_auth :
      Cloud
      → ClientContext
      → Server TlsConfig × Result (Option ℕ)
      → Run (Server TlsConfig × ClientContext × Result Fs)
  unfolding open_session
  resume_auth cloud cc (s, err e) = done (s, cc, err e)
  resume_auth cloud cc (s, ok pointer) = open_session cloud s cc pointer

  unfoldable pub place_access :
      Server TlsConfig → Result (Option Access) → Server TlsConfig × Result (Option ℕ)
  place_access s (err e) = (s, err e)
  place_access s (ok none) = (s, ok none)
  place_access s (ok (some a)) = (
    record s { config = record (s.config) { heap = s.config.heap ++ (a ∷ []) } },
    ok (some (length s.config.heap)),
  )

  module _ {Disk Digest : Type 0} (env : Env Disk Digest) (http : Http) where
    unfoldable pub select_with :
        Server TlsConfig
        → Text
        → Text
        → Option AccessesWebhook
        → Server TlsConfig × Result (Option ℕ)
    unfolding place_access get_access get_access_from_webhook
    select_with s user pass (some w) = place_access s (get_access_from_webhook http w user pass)
    select_with s user pass none =
        let (c, found) = get_access env s.config user pass in
        (record s { config = c }, found >>= λ p. ok (some p))

    -- The first half of `AuthUser`: the pointer to the access, or the error.
    unfoldable pub select_access :
        Server TlsConfig → Text → Text → Server TlsConfig × Result (Option ℕ)
    unfolding select_with
    select_access s user pass = select_with s user pass s.config.content.accesses_webhook

    -- `AuthUser` with nothing in between: the driver of the client is its file system.
    unfoldable pub auth_user :
        Cloud
        → Server TlsConfig
        → ClientContext
        → Text
        → Text
        → Run (Server TlsConfig × ClientContext × Result Fs)
    unfolding select_access resume_auth
    auth_user cloud s cc user pass = resume_auth cloud cc (select_access s user pass)
