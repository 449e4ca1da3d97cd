-- ===== src/Fs/Protection.antt =====
-- What fs/fs.go and the loaders guarantee of the file systems that they return.
use mathlib.Core.Path.{subst}
use ftpserver.Base.{
  ◌≤◌, ◌≡◌, ◌∙◌, ◌≢◌, Bool, true, false, Option, none, some, [], ◌∷◌, bytes, unsupported_fs, ok,
  err, >>=-eq-ok, arith, Bool-cases, All, ltb, ◌||◌, text_eq-false, inl, inr,
}
use ftpserver.Strings.{ℤ, pos, negsuc, parse_int, parse_bool}
use ftpserver.Confpar.{Access, SyncAndDelete}
use ftpserver.Fs.{
  Fs, read_only_fs, logged_fs, snd_fs, snd_default_fs, mail_fs, MailFs, Cloud, param,
}
use ftpserver.Fs.Backends.{
  load_os, load_s3, load_gcs, load_sftp, load_mail, load_gdrive, load_keycloak, load_dropbox,
  load_telegram, mail_port, start_tls_policy,
}
use ftpserver.Fs.Loader.{load_backend, protect, new_snd_fs, sync_temp, synchronize, load_fs}

-- No write reaches the storage: there is a read-only wrapper between it and the client. (Of a
-- synchronised file system the destination counts.)
abbrev pub blocks_writes : Fs → Bool
blocks_writes (read_only_fs fs) = true
blocks_writes (logged_fs fs) = blocks_writes fs
blocks_writes (snd_fs destination temporary) = blocks_writes destination
blocks_writes (snd_default_fs destination) = blocks_writes destination
blocks_writes _ = false

module _ (cloud : Cloud) where
  -- A backend comes with no protection of its own.
  load_os-writes : (a : Access) {fs : Fs} → load_os cloud a ≡ ok fs → blocks_writes fs ≡ false
  unfolding load_os
  load_os-writes a h = ground arith

  load_s3-writes : (a : Access) {fs : Fs} → load_s3 cloud a ≡ ok fs → blocks_writes fs ≡ false
  unfolding load_s3
  load_s3-writes a h = ground arith

  load_gcs-writes : (a : Access) {fs : Fs} → load_gcs cloud a ≡ ok fs → blocks_writes fs ≡ false
  unfolding load_gcs
  load_gcs-writes a h = ground arith

  load_sftp-writes : (a : Access) {fs : Fs} → load_sftp cloud a ≡ ok fs → blocks_writes fs ≡ false
  unfolding load_sftp
  load_sftp-writes a h = ground arith

  load_mail-writes : (a : Access) {fs : Fs} → load_mail cloud a ≡ ok fs → blocks_writes fs ≡ false
  unfolding load_mail
  load_mail-writes a h = ground arith

  load_gdrive-writes :
      (a : Access) {fs : Fs} → load_gdrive cloud a ≡ ok fs → blocks_writes fs ≡ false
  unfolding load_gdrive
  load_gdrive-writes a h = ground arith

  load_keycloak-writes :
      (a : Access) {fs : Fs} → load_keycloak cloud a ≡ ok fs → blocks_writes fs ≡ false
  unfolding load_keycloak
  load_keycloak-writes a h = ground arith

  load_dropbox-writes :
      (a : Access) {fs : Fs} → load_dropbox cloud a ≡ ok fs → blocks_writes fs ≡ false
  unfolding load_dropbox
  load_dropbox-writes a h = ground arith

  load_telegram-writes :
      (a : Access) {fs : Fs} → load_telegram cloud a ≡ ok fs → blocks_writes fs ≡ false
  unfolding load_telegram
  load_telegram-writes a h = ground arith

  load_backend-writes :
      (a : Access) (fs : Fs) → load_backend cloud a ≡ ok fs → blocks_writes fs ≡ false
  unfolding load_backend
  load_backend-writes a fs h = ground (
    arith,
    load_os-writes a {fs = fs},
    load_s3-writes a {fs = fs},
    load_gcs-writes a {fs = fs},
    load_sftp-writes a {fs = fs},
    load_mail-writes a {fs = fs},
    load_gdrive-writes a {fs = fs},
    load_keycloak-writes a {fs = fs},
    load_dropbox-writes a {fs = fs},
    load_telegram-writes a {fs = fs},
  )

  new_snd_fs-writes :
      (fs fs' : Fs) (temp : Option Fs)
      → new_snd_fs cloud fs temp ≡ ok fs'
      → blocks_writes fs' ≡ blocks_writes fs
  unfolding new_snd_fs
  new_snd_fs-writes fs fs' none h = ground arith
  new_snd_fs-writes fs fs' (some temp) h = ground arith

  synchronize-writes :
      (o : Option SyncAndDelete) (fs fs' : Fs)
      → synchronize cloud o fs ≡ ok fs'
      → blocks_writes fs' ≡ blocks_writes fs
  unfolding synchronize
  synchronize-writes none fs fs' h = ground arith
  synchronize-writes (some s) fs fs' h =
      ground (arith, new_snd_fs-writes fs fs' (sync_temp cloud s.directory))

  -- A file system that `LoadFs` returns keeps writes from the storage exactly when the access is
  -- read-only, for every kind of storage and also under sync-and-delete.
  pub blocks_writes-load_fs :
      (a : Access) (fs : Fs) → load_fs cloud a ≡ ok fs → blocks_writes fs ≡ a.read_only
  unfolding load_fs protect
  blocks_writes-load_fs a fs h =
      let (b, loaded, synced) = >>=-eq-ok (load_backend cloud a) _ h in
      synchronize-writes a.sync_and_delete (protect cloud a b) fs synced
      ∙ ground (arith, load_backend-writes a b loaded)

  -- An access with a name that is none of the nine is refused with `UnsupportedFsError` of that
  -- name, whatever its other settings are.
  load_fs_unsupported :
      (a : Access)
      → All
          (λ name. a.fs ≢ name)
          (bytes "os"
            ∷ bytes "s3"
            ∷ bytes "gcs"
            ∷ bytes "sftp"
            ∷ bytes "mail"
            ∷ bytes "gdrive"
            ∷ bytes "keycloak"
            ∷ bytes "dropbox"
            ∷ bytes "telegram"
            ∷ [])
      → load_fs cloud a ≡ err (unsupported_fs a.fs)
  unfolding load_fs load_backend
  load_fs_unsupported a
        (os, (s3, (gcs, (sftp, (mail, (gdrive, (keycloak, (dropbox, (telegram, _))))))))) =
      rw (
        text_eq-false a.fs (bytes "os") os,
        text_eq-false a.fs (bytes "s3") s3,
        text_eq-false a.fs (bytes "gcs") gcs,
        text_eq-false a.fs (bytes "sftp") sftp,
        text_eq-false a.fs (bytes "mail") mail,
        text_eq-false a.fs (bytes "gdrive") gdrive,
        text_eq-false a.fs (bytes "keycloak") keycloak,
        text_eq-false a.fs (bytes "dropbox") dropbox,
        text_eq-false a.fs (bytes "telegram") telegram,
      )

abbrev pub IsPort : ℤ → Type 0
IsPort (pos n) = (1 ≤ n) × (n ≤ 65535)
IsPort (negsuc n) = ⊥

mail_port-IsPort : (z : ℤ) → IsPort (mail_port z)
unfolding mail_port
mail_port-IsPort (pos n) = elim (Bool-cases (ltb n 1 || ltb 65535 n)) [
  | inl outside ↦ rw outside (omega arith)
  | inr inside ↦ rw inside (ground arith)
]
mail_port-IsPort (negsuc n) = omega arith

-- A mail file system that is loaded has a port between 1 and 65535, whatever number the access
-- gives, and takes its texts from the access.
pub load_mail-IsPort :
    (cloud : Cloud) (a : Access) (m : MailFs)
    → load_mail cloud a ≡ ok (mail_fs m)
    → IsPort m.port
      × (m.to ≡ param (bytes "To") a.params)
      × (m.from ≡ param (bytes "From") a.params)
unfolding load_mail
load_mail-IsPort cloud a m h =
    let (port, parsed, h') = >>=-eq-ok (parse_int (param (bytes "Port") a.params)) _ h in
    let (ssl, flag, h'') = >>=-eq-ok (parse_bool (param (bytes "SSL") a.params)) _ h' in
    let (policy, named, same) =
      >>=-eq-ok (start_tls_policy (param (bytes "StartTLSPolicy") a.params)) _ h'' in
    let e : mail_port port ≡ m.port = ground arith in
    (subst IsPort e (mail_port-IsPort port), ground arith, ground arith)
