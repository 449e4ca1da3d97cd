-- ===== src/Main/Start.antt =====
-- How far the program of main.go comes before it listens, and with what.
use mathlib.Core.Path.{subst}
use ftpserver.Base.{◌≡◌, refl, false, Option, none, some, [], Text, Error, Result, ok, err, arith}
use ftpserver.Config.{Env, Config}
use ftpserver.Config.Loading.{load, as_result, new_config, empty_content, default_file_name}
use ftpserver.Config.Loading.Reload.{IsWellFormed, load-IsWellFormed}
use ftpserver.Server.{Server, new_server}
use ftpserver.Main.{
  Flags, Os, started, conf_name, create_conf, serve_unless, open_log_file, configure, start,
}

module _ {Disk Digest : Type 0} (env : Env Disk Digest) where
  as_result-IsWellFormed :
      (r : Config × Disk × Option Error) {c : Config}
      → (as_result env r).1 ≡ ok c
      → IsWellFormed r.0
      → IsWellFormed c
  unfolding as_result
  as_result-IsWellFormed (c, d, some e) h w = absurd cc
  as_result-IsWellFormed (c, d, none) {c = c'} h w =
      let same : c ≡ c' = cc in subst IsWellFormed same w

  pub new_config-IsWellFormed :
      (name : Text) (d : Disk) {c : Config} → (new_config env name d).1 ≡ ok c → IsWellFormed c
  unfolding new_config
  new_config-IsWellFormed name d e =
      as_result-IsWellFormed
        (load env
          (record {
            file_name = default_file_name env name;
            content = empty_content env;
            heap = [];
          })
          d)
        e (load-IsWellFormed env _ d tt)

  module _ (os : Os Disk) {TlsConfig : Type 0} where
    pub serve_unless-eq-started :
        (flags : Flags) (c : Config) (r : Disk × Option Error) {d : Disk} {s : Server TlsConfig}
        → serve_unless env os flags c r ≡ (d, started s)
        → (s ≡ new_server c) × (flags.only_conf ≡ false)
    unfolding serve_unless
    serve_unless-eq-started flags c (d, some e) h = cc
    serve_unless-eq-started flags c (d, none) h = ground arith

    configure-eq-started :
        (flags : Flags) (r : Disk × Result Config) {d : Disk} {s : Server TlsConfig}
        → configure env os flags r ≡ (d, started s)
        → (c : Config) × (r.1 ≡ ok c) × (s ≡ new_server c) × (flags.only_conf ≡ false)
    unfolding configure
    configure-eq-started flags (d, err e) h = cc
    configure-eq-started flags (d, ok c) h =
        let (fresh, serving) =
          serve_unless-eq-started flags c (open_log_file env os c.content.logging.file d) h in
        (c, refl, fresh, serving)

    -- A program that comes to listen has a configuration that was loaded, and was not told to create
    -- the configuration only.
    pub start-eq-started :
        (flags : Flags) (d : Disk) {d' : Disk} {s : Server TlsConfig}
        → start env os flags d ≡ (d', started s)
        → (c : Config) × ((new_config env (conf_name flags) (create_conf env os flags d)).1 ≡ ok c)
          × (s ≡ new_server c)
          × (flags.only_conf ≡ false)
    unfolding start
    start-eq-started flags d h =
        configure-eq-started flags (new_config env (conf_name flags) (create_conf env os flags d)) h
