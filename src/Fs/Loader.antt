-- ===== src/Fs/Loader.antt =====
-- fs/fs.go: `LoadFs`, which picks the loader by the access and puts the common wrappers round it.
use ftpserver.Base.{
  Option, none, some, [], Text, bytes, text_eq, if◌then◌else◌, unsupported_fs, Result, ok, err,
  ◌>>=◌,
}
use ftpserver.Confpar.{Access, SyncAndDelete}
use ftpserver.Fs.{Fs, os_fs, base_path_fs, read_only_fs, snd_fs, snd_default_fs, Cloud}
use ftpserver.Fs.Backends.{
  load_os, load_s3, load_gcs, load_sftp, load_mail, load_gdrive, load_keycloak, load_dropbox,
  load_telegram, check, same_error,
}

module _ (cloud : Cloud) where
  -- The `switch` over `access.Fs`.
  unfoldable pub load_backend : Access → Result Fs
  unfolding text_eq load_os load_s3 load_gcs load_sftp load_mail load_gdrive load_keycloak
      load_dropbox load_telegram
  load_backend a =
      if text_eq a.fs (bytes "os")
      then load_os cloud a
      else if text_eq a.fs (bytes "s3")
      then load_s3 cloud a
      else if text_eq a.fs (bytes "gcs")
      then load_gcs cloud a
      else if text_eq a.fs (bytes "sftp")
      then load_sftp cloud a
      else if text_eq a.fs (bytes "mail")
      then load_mail cloud a
      else if text_eq a.fs (bytes "gdrive")
      then load_gdrive cloud a
      else if text_eq a.fs (bytes "keycloak")
      then load_keycloak cloud a
      else if text_eq a.fs (bytes "dropbox")
      then load_dropbox cloud a
      else if text_eq a.fs (bytes "telegram")
      then load_telegram cloud a
      else err (unsupported_fs a.fs)

  unfoldable pub protect : Access → Fs → Fs
  protect a fs = if a.read_only then read_only_fs fs else fs

  unfoldable pub new_snd_fs : Fs → Option Fs → Result Fs
  new_snd_fs fs none = check (cloud.new_snd fs none) same_error (ok (snd_default_fs fs))
  new_snd_fs fs (some temp) = check (cloud.new_snd fs (some temp)) same_error (ok (snd_fs fs temp))

  unfoldable pub sync_temp : Text → Option Fs
  sync_temp directory = if text_eq directory [] then none else some (base_path_fs os_fs directory)

  unfoldable pub synchronize : Option SyncAndDelete → Fs → Result Fs
  unfolding new_snd_fs sync_temp
  synchronize none fs = ok fs
  synchronize (some s) fs = if s.enable then new_snd_fs fs (sync_temp s.directory) else ok fs

  -- `LoadFs`.
  unfoldable pub load_fs : Access → Result Fs
  unfolding load_backend protect synchronize text_eq
  load_fs a = load_backend a >>= λ fs. synchronize a.sync_and_delete (protect a fs)
