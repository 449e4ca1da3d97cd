-- ===== src/Fs/Backends/Credentials.antt =====
-- What the `LoadFs` functions below fs/ read of the credentials of an access.
use ftpserver.Base.{◌≡◌, refl, ◌≢◌, Text, bytes, text_eq-false}
use ftpserver.Confpar.{Access}
use ftpserver.Fs.{Cloud}
use ftpserver.Fs.Backends.{
  load_os, load_s3, s3_config, load_gcs, gcs_client, load_sftp, load_mail, load_gdrive, gdrive_with,
  gdrive_token_file, load_dropbox, load_telegram,
}
use ftpserver.Fs.Loader.{load_backend, load_fs, protect}

module _ (cloud : Cloud) (a : Access) (pass : Text) where
  load_os-pass : load_os cloud (record a { pass = pass }) ≡ load_os cloud a
  unfolding load_os
  load_os-pass = refl

  load_s3-pass : load_s3 cloud (record a { pass = pass }) ≡ load_s3 cloud a
  unfolding load_s3 s3_config
  load_s3-pass = refl

  load_gcs-pass : load_gcs cloud (record a { pass = pass }) ≡ load_gcs cloud a
  unfolding load_gcs gcs_client
  load_gcs-pass = refl

  load_sftp-pass : load_sftp cloud (record a { pass = pass }) ≡ load_sftp cloud a
  unfolding load_sftp
  load_sftp-pass = refl

  load_mail-pass : load_mail cloud (record a { pass = pass }) ≡ load_mail cloud a
  unfolding load_mail
  load_mail-pass = refl

  load_gdrive-pass : load_gdrive cloud (record a { pass = pass }) ≡ load_gdrive cloud a
  unfolding load_gdrive gdrive_with gdrive_token_file
  load_gdrive-pass = refl

  load_dropbox-pass : load_dropbox cloud (record a { pass = pass }) ≡ load_dropbox cloud a
  unfolding load_dropbox
  load_dropbox-pass = refl

  load_telegram-pass : load_telegram cloud (record a { pass = pass }) ≡ load_telegram cloud a
  unfolding load_telegram
  load_telegram-pass = refl

  load_backend-pass :
      a.fs ≢ bytes "keycloak" → load_backend cloud (record a { pass = pass }) ≡ load_backend cloud a
  unfolding load_backend
  load_backend-pass other = rw (
    text_eq-false a.fs (bytes "keycloak") other,
    load_os-pass,
    load_s3-pass,
    load_gcs-pass,
    load_sftp-pass,
    load_mail-pass,
    load_gdrive-pass,
    load_dropbox-pass,
    load_telegram-pass,
  )

  -- The password of an access has no part in the file system that `LoadFs` makes, nor in its
  -- success, for every kind of storage but keycloak, whatever the services answer.
  pub load_fs-pass :
      a.fs ≢ bytes "keycloak" → load_fs cloud (record a { pass = pass }) ≡ load_fs cloud a
  unfolding load_fs protect
  load_fs-pass other = rw (load_backend-pass other) refl
