-- ===== src/Config/Loading/Restart.antt =====
-- `NewConfig` of config/config.go on the file that an earlier `NewConfig` has left.
use ftpserver.Base.{ℕ, ◌≡◌, refl, Option, none, some, [], Text, Error, Result, ok, err}
use ftpserver.Confpar.{Content}
use ftpserver.Config.{Env, Config}
use ftpserver.Config.Loading.{
  load_decoded, load_text, load, as_result, default_file_name, empty_content, new_config,
}

module _ {Disk Digest : Type 0} (env : Env Disk Digest) where
  as_result-eq-ok :
      (r : Config × Disk × Option Error) {d : Disk} {c : Config}
      → as_result env r ≡ (d, ok c)
      → r ≡ (c, d, none)
  unfolding as_result
  as_result-eq-ok (c', d', none) h = cc
  as_result-eq-ok (c', d', some e) h = cc

  load_text-eq-none :
      (c : Config) (d : Disk) (r : Result Text) {c' : Config} {d' : Disk}
      → load_text env c d r ≡ (c', d', none)
      → (text : Text) × (r ≡ ok text)
        × (load_decoded env c d (env.json_decode text) ≡ (c', d', none))
  unfolding load_text
  load_text-eq-none c d (err e) h = cc
  load_text-eq-none c d (ok text) h = (text, refl, h)

  module _ (name : Text) (nothing : Content ℕ) where
    -- The configuration that `NewConfig` begins with.
    abbrev unloaded : Config
    unloaded = record { file_name = name; content = nothing; heap = [] }

  -- `NewConfig` cannot succeed without the file.
  pub new_config-reads :
      (name : Text) (d : Disk) {d' : Disk} {c : Config}
      → new_config env name d ≡ (d', ok c)
      → (text : Text) × (env.open_file d (default_file_name env name) ≡ ok text)
  unfolding new_config load
  new_config-reads name d h =
      let file = default_file_name env name in
      let nothing = empty_content env in
      let once = as_result-eq-ok (load env (unloaded file nothing) d) h in
      let (text, read, _) =
        load_text-eq-none (unloaded file nothing) d (env.open_file d file) once in
      (text, read)
