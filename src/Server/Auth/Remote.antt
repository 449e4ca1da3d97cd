-- ===== src/Server/Auth/Remote.antt =====
-- Who gets a session from `AuthUser` of server/server.go when a webhook decides.
use mathlib.Core.Path.{subst}
use ftpserver.Base.{
  true, ◌≡◌, refl, sym, ap, ◌∙◌, ◌||◌, Option, none, some, [], ◌∷◌, ◌++◌, Text, length, get_elem?,
  get_elem?-last, if◌then◌else◌, Result, ok, err, done,
}
use ftpserver.Confpar.{Access, AccessesWebhook}
use ftpserver.Config.{Env}
use ftpserver.Fs.{Fs, logged_fs, Cloud}
use ftpserver.Server.{Server, ClientContext}
use ftpserver.Server.Webhook.{Http, get_access_from_webhook}
use ftpserver.Server.Webhook.Answer.{Answers, get_access_from_webhook-Answers}
use ftpserver.Server.Auth.{
  load_cached, debug_session, log_accesses, give_session, open_at, open_session, select_with,
  place_access, select_access, resume_auth, auth_user,
}
use ftpserver.Server.Auth.Sessions.{give_session-eq-ok, open_at-eq-ok}

some-inj : {a b : Access} → some a ≡ some b → a ≡ b
some-inj e = cc

module _ {TlsConfig : Type 0} where
  -- The server with the access that was answered.
  abbrev with_access : Server TlsConfig → Access → Server TlsConfig
  with_access s a = record s { config = record (s.config) { heap = s.config.heap ++ (a ∷ []) } }

  resume_auth-placed :
      (cloud : Cloud) (s : Server TlsConfig) (client : ClientContext) (r : Result (Option Access))
      {s' : Server TlsConfig} {client' : ClientContext} {fs : Fs}
      → resume_auth cloud client (place_access s r) ≡ done (s', client', ok fs)
      → (a : Access) × (r ≡ ok (some a))
        × (open_at cloud
              (with_access s a)
              client
              (get_elem? (s.config.heap ++ (a ∷ [])) (length s.config.heap))
            ≡ done (s', client', ok fs))
  unfolding resume_auth place_access open_session
  resume_auth-placed cloud s client (err e) h = cc
  resume_auth-placed cloud s client (ok none) h = cc
  resume_auth-placed cloud s client (ok (some a)) h = (a, refl, h)

  -- A session that the webhook gave: the access that it answered is kept at a new address, and the
  -- file system is the one of the cache or of `LoadFs` for that access, with the debugging and the
  -- logging that the configuration or the access ask for.
  pub record IsAnswered (http : Http) (w : AccessesWebhook) (cloud : Cloud)
      (s s' : Server TlsConfig) (client client' : ClientContext) (user pass : Text) (fs : Fs)
      : Type 0 where
    pub access : Access
    pub inner : Fs
    pub answer : Answers http w user pass access
    pub config : s'.config ≡ record (s.config) { heap = s.config.heap ++ (access ∷ []) }
    pub loaded : load_cached cloud access s.accesses ≡ (s'.accesses, ok inner)
    pub debug : client' ≡ (
        if s.config.content.logging.ftp_exchanges || access.logging.ftp_exchanges
        then record client { debug = true }
        else client)
    pub logged : fs ≡ (
        if s.config.content.logging.file_accesses || access.logging.file_accesses
        then logged_fs inner
        else inner)

  -- With a webhook in the configuration, `AuthUser` gives a session only if the webhook was asked by
  -- a `POST` with the name and the password and the configured headers, and answered with status 200
  -- and an access; the session is on the file system of the cache or of `LoadFs` for that access, and
  -- no access of the configuration is looked at or changed.
  pub auth_user-IsAnswered :
      {Disk Digest : Type 0} (env : Env Disk Digest) (http : Http) (cloud : Cloud)
      (w : AccessesWebhook) (s s' : Server TlsConfig) (client client' : ClientContext)
      (user pass : Text) (fs : Fs)
      → s.config.content.accesses_webhook ≡ some w
      → auth_user env http cloud s client user pass ≡ done (s', client', ok fs)
      → IsAnswered http w cloud s s' client client' user pass fs
  unfolding auth_user select_access debug_session log_accesses select_with
  auth_user-IsAnswered env http cloud w s s' client client' user pass fs remote h =
      let (a, answered, opened) =
        resume_auth-placed cloud s client (get_access_from_webhook http w user pass) (
          ap (λ o. resume_auth cloud client (select_with env http s user pass o)) (sym remote)
          ∙ h) in
      let (b, here, found) = open_at-eq-ok cloud (with_access s a) client _ opened in
      let last : a ≡ b = some-inj (sym (get_elem?-last s.config.heap a) ∙ here) in
      let given =
        subst
          (λ k.
            give_session (with_access s a) client k (load_cached cloud k s.accesses)
            ≡ (s', client', ok fs))
          (sym last) found in
      let (g, loaded, same, debug, logged) =
        give_session-eq-ok (with_access s a) client a _ given in
      record {
        access = a;
        inner = g;
        answer = get_access_from_webhook-Answers http w user pass answered;
        config = ap (λ t. t.config) same;
        loaded = loaded;
        debug = debug;
        logged = logged;
      }
