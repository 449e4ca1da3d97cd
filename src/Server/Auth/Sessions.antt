-- ===== src/Server/Auth/Sessions.antt =====
-- Who gets a session from `AuthUser` of server/server.go when the accesses are those of the
-- configuration, and on which file system.
use mathlib.Core.Path.{subst}
use ftpserver.Base.{
  ℕ, ◌≡◌, refl, sym, ap, ◌∙◌, ◌⊎◌, true, ◌||◌, Option, none, some, List, Text, get_elem?,
  if◌then◌else◌, Error, Result, ok, err, ◌>>=◌, done, arith,
}
use ftpserver.Confpar.{Access}
use ftpserver.Config.{Env, get_access}
use ftpserver.Config.Login.{IsFirst, get_access_iff, get_access-heap_err}
use ftpserver.Fs.{Fs, logged_fs, Cloud}
use ftpserver.Fs.Loader.{load_fs}
use ftpserver.Server.{Server, ClientContext}
use ftpserver.Server.Webhook.{Http}
use ftpserver.Server.Auth.{
  load_cached, debug_session, log_accesses, give_session, open_at, open_session, select_with,
  select_access, resume_auth, auth_user,
}
use ftpserver.Server.Auth.Cache.{IsGenuine, load_cached-origin}

module _ {TlsConfig : Type 0} where
  pub give_session-eq-ok :
      (s : Server TlsConfig) (client : ClientContext) (a : Access)
      (r : List (Text × Fs) × Result Fs) {s' : Server TlsConfig} {client' : ClientContext} {fs : Fs}
      → give_session s client a r ≡ (s', client', ok fs)
      → (g : Fs) × (r ≡ (s'.accesses, ok g))
        × (s' ≡ record s { accesses = r.0 })
        × (client' ≡ debug_session s a client)
        × (fs ≡ log_accesses s a g)
  unfolding give_session
  give_session-eq-ok s client a (cache, err e) h = cc
  give_session-eq-ok s client a (cache, ok g) h = (
    g,
    ap (λ r. (r.0.accesses, ok g)) h,
    sym (ap (λ r. r.0) h),
    sym (ap (λ r. r.1) h),
    ground arith,
  )

  pub open_at-eq-ok :
      (cloud : Cloud) (s : Server TlsConfig) (client : ClientContext) (o : Option Access)
      {s' : Server TlsConfig} {client' : ClientContext} {fs : Fs}
      → open_at cloud s client o ≡ done (s', client', ok fs)
      → (a : Access) × (o ≡ some a)
        × (give_session s client a (load_cached cloud a s.accesses) ≡ (s', client', ok fs))
  unfolding open_at
  open_at-eq-ok cloud s client none h = cc
  open_at-eq-ok cloud s client (some a) h = (a, refl, cc)

  open_session-eq-ok :
      (cloud : Cloud) (s : Server TlsConfig) (client : ClientContext) (r : Result ℕ)
      {s' : Server TlsConfig} {client' : ClientContext} {fs : Fs}
      → resume_auth cloud client (s, r >>= λ p. ok (some p)) ≡ done (s', client', ok fs)
      → (p : ℕ) × (r ≡ ok p)
        × (open_at cloud s client (get_elem? s.config.heap p) ≡ done (s', client', ok fs))
  unfolding open_session resume_auth
  open_session-eq-ok cloud s client (err e) h = cc
  open_session-eq-ok cloud s client (ok p) h = (p, refl, h)

  module _ {Disk Digest : Type 0} (env : Env Disk Digest) where
    -- A session for `user` and `pass`: the client has been admitted to the access at `place`, and
    -- its file system is the one of the cache or of `LoadFs` for that access, with the debugging and
    -- the logging that the configuration or the access ask for.
    pub record IsAdmitted (cloud : Cloud) (s s' : Server TlsConfig) (client client' : ClientContext)
        (user pass : Text) (fs : Fs) : Type 0 where
      pub place : ℕ
      pub access : Access
      pub inner : Fs
      pub ready : env.new_decoder_all ≡ none
      pub first : IsFirst env user pass s.config.heap s.config.content.accesses place
      pub config : s'.config ≡ (get_access env s.config user pass).0
      pub found : get_elem? s'.config.heap place ≡ some access
      pub loaded : load_cached cloud access s.accesses ≡ (s'.accesses, ok inner)
      pub debug : client' ≡ (
          if s.config.content.logging.ftp_exchanges || access.logging.ftp_exchanges
          then record client { debug = true }
          else client)
      pub logged : fs ≡ (
          if s.config.content.logging.file_accesses || access.logging.file_accesses
          then logged_fs inner
          else inner)

    -- Without a webhook, `AuthUser` gives a session only to a name and a password that the first
    -- access of the configuration which is not passed over accepts, and only on the file system of
    -- the cache or of `LoadFs` for that access.
    pub auth_user-IsAdmitted :
        (http : Http) (cloud : Cloud) (s s' : Server TlsConfig) (client client' : ClientContext)
        (user pass : Text) (fs : Fs)
        → s.config.content.accesses_webhook ≡ none
        → auth_user env http cloud s client user pass ≡ done (s', client', ok fs)
        → IsAdmitted cloud s s' client client' user pass fs
    unfolding auth_user select_access debug_session log_accesses get_access
    auth_user-IsAdmitted http cloud s s' client client' user pass fs local h =
        let selected = record s { config = (get_access env s.config user pass).0 } in
        let found = (get_access env s.config user pass).1 in
        let h' : resume_auth cloud client (selected, found >>= λ p. ok (some p))
            ≡ done (s', client', ok fs) =
          subst
            (λ w.
              resume_auth cloud client (select_with env http s user pass w)
              ≡ done (s', client', ok fs))
            local h in
        let (p, e, opened) = open_session-eq-ok cloud selected client found h' in
        let (a, here, given) = open_at-eq-ok cloud selected client _ opened in
        let (g, loaded, same, debug, logged) = give_session-eq-ok selected client a _ given in
        let (ready, first) = (get_access_iff env s.config user pass p).0 e in
        let config : s'.config ≡ (get_access env s.config user pass).0 = ap (λ t. t.config) same in
        record {
          place = p;
          access = a;
          inner = g;
          ready = ready;
          first = first;
          config = config;
          found = ap (λ c. get_elem? c.heap p) config ∙ here;
          loaded = loaded;
          debug = debug;
          logged = logged;
        }

    -- A session's file system was loaded for an access with the same name as the one that the
    -- client was admitted to, if the cache held nothing else before; it is that file system or its
    -- logging wrapper.
    IsAdmitted-origin :
        (cloud : Cloud) (s s' : Server TlsConfig) (client client' : ClientContext)
        (user pass : Text) (fs : Fs)
        → IsGenuine s.accesses
        → (adm : IsAdmitted cloud s s' client client' user pass fs)
        → (cloud' : Cloud) × (b : Access) × (g : Fs) × (b.user ≡ adm.access.user)
          × (load_fs cloud' b ≡ ok g)
          × ((fs ≡ g) ⊎ (fs ≡ logged_fs g))
    IsAdmitted-origin cloud s s' client client' user pass fs k adm =
        let (cloud', b, named, loaded) =
          load_cached-origin cloud adm.access s.accesses s'.accesses k adm.loaded in
        (cloud', b, adm.inner, named, loaded, ground (arith, adm.logged))

  -- A refused login changes nothing.
  auth_user_refused :
      {Disk Digest : Type 0} (env : Env Disk Digest) (http : Http) (cloud : Cloud)
      (s : Server TlsConfig) (client : ClientContext) (user pass : Text) {e : Error}
      → s.config.content.accesses_webhook ≡ none
      → (get_access env s.config user pass).1 ≡ err e
      → auth_user env http cloud s client user pass ≡ done (s, client, err e)
  unfolding auth_user select_access
  auth_user_refused env http cloud s client user pass {e} local refused =
      subst
        (λ w.
          resume_auth cloud client (select_with env http s user pass w) ≡ done (s, client, err e))
        (sym local)
        (rw (refused, resume_auth)
          (ap (λ c. done (record s { config = c }, client, err e))
            (get_access-heap_err env s.config user pass e refused)))
