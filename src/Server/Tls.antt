-- ===== src/Server/Tls.antt =====
-- server/server.go: `loadTLSConfig` and `GetTLSConfig`, over crypto/tls and the file system.
use ftpserver.Base.{
  ◌≡◌, refl, ap, Option, none, some, ◌++◌, Text, bytes, not_enabled, wrapped, foreign, Result, ok,
  err, ◌>>=◌,
}
use ftpserver.Confpar.{Tls, ServerCert}
use ftpserver.Config.{Config}
use ftpserver.Server.{Server, TlsOnce, not_done, done_with}

-- `make_config` is `tls.X509KeyPair` and the configuration with its certificate.
pub record TlsEnv (TlsConfig : Type 0) : Type 0 where
  pub read_file : Text → Result Text
  pub make_config : (cert key : Text) → Result TlsConfig

pub wrap_error : {A : Type 0} → Text → Result A → Result A
wrap_error message (ok a) = ok a
wrap_error message (err e) = err (wrapped message e)

-- The error for the key wraps the one that reading the certificate left, which is nil.
pub key_error : {A : Type 0} → ServerCert → Result A → Result A
key_error c (ok a) = ok a
key_error c (err e) =
    err (foreign (bytes "could not load key file: " ++ (c.cert ++ bytes ": %!w(<nil>)")))

module _ {TlsConfig : Type 0} (env : TlsEnv TlsConfig) where
  pub load_server_cert : ServerCert → Result TlsConfig
  unfolding wrap_error key_error
  load_server_cert c = do
    cert ← wrap_error (bytes "could not load cert file: " ++ c.cert) (env.read_file c.cert)
    key ← key_error c (env.read_file c.key)
    wrap_error (bytes "could not parse key pairs") (env.make_config cert key)

  pub load_certs : Option ServerCert → Result TlsConfig
  unfolding load_server_cert
  load_certs none = err not_enabled
  load_certs (some c) = load_server_cert c

  unfoldable pub load_tls_config : Option Tls → Result TlsConfig
  unfolding load_certs
  load_tls_config none = err not_enabled
  load_tls_config (some t) = load_certs t.server_cert

  pub tls_once : Server TlsConfig → TlsOnce TlsConfig → Server TlsConfig × Result TlsConfig
  unfolding load_tls_config
  tls_once s (done_with r) = (s, r)
  tls_once s not_done =
      let r = load_tls_config s.config.content.tls in (record s { tls = done_with r }, r)

  -- `GetTLSConfig`.
  unfoldable pub get_tls_config : Server TlsConfig → Server TlsConfig × Result TlsConfig
  unfolding tls_once
  get_tls_config s = tls_once s s.tls

tls_once-done :
    {TlsConfig : Type 0} (env : TlsEnv TlsConfig) (s : Server TlsConfig) (o : TlsOnce TlsConfig)
    → s.tls ≡ o
    → (tls_once env s o).0.tls ≡ done_with (tls_once env s o).1
unfolding tls_once
tls_once-done env s not_done e = refl
tls_once-done env s (done_with r) e = e

-- The TLS configuration is loaded once: whatever `GetTLSConfig` has answered, an error too, it
-- answers for good, though the configuration be reloaded and the files change in the meantime.
pub get_tls_config_again :
    {TlsConfig : Type 0} (env env' : TlsEnv TlsConfig) (s : Server TlsConfig) (c : Config)
    → let (s', r) = get_tls_config env s in
      get_tls_config env' (record s' { config = c }) ≡ (record s' { config = c }, r)
unfolding get_tls_config
get_tls_config_again env env' s c =
    ap (tls_once env' (record (get_tls_config env s).0 { config = c }))
      (tls_once-done env s s.tls refl)
