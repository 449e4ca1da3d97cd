-- ===== src/Fs/Backends.antt =====
-- The `LoadFs` functions of the packages below fs/.
pub mod Credentials
use ftpserver.Base.{
  Bool, true, false, not, ◌&&◌, ◌||◌, Option, none, some, [], ◌++◌, Text, bytes, text_eq, ltb,
  if◌then◌else◌, Error, missing_base_path, invalid_parameter, wrapped, foreign, Result, ok, err,
  ◌>>=◌,
}
use ftpserver.Strings.{ℤ, pos, negsuc, parse_int, parse_bool, path_join}
use ftpserver.EnvVars.{replace_env_vars}
use ftpserver.Confpar.{Access}
use ftpserver.Fs.{
  StartTlsPolicy, opportunistic_start_tls, mandatory_start_tls, no_start_tls, S3Config, GcsClient,
  credentials_file, full_control, default_credentials, Fs, os_fs, base_path_fs, s3_fs, gcs_fs,
  sftp_fs, mail_fs, gdrive_fs, dropbox_fs, telegram_fs, Cloud, param, param_or_env,
}

-- `if err != nil { return nil, err }`, the error passed through `f`.
abbrev pub check {ℓ} : {A : Type ℓ} → Option Error → (Error → Error) → Result A → Result A
check none f rest = rest
check (some e) f rest = err (f e)

abbrev pub guard {ℓ} : {A : Type ℓ} → Bool → Error → Result A → Result A
guard b e rest = if b then rest else err e

abbrev pub same_error : Error → Error
same_error e = e

abbrev pub err_missing_credentials : Error
err_missing_credentials = foreign (bytes "missing the client credentials")

abbrev pub err_login : Error
err_login = foreign (bytes "login failed, User or Password error")

abbrev pub err_missing_token : Error
err_missing_token = foreign (bytes "missing token")

abbrev pub err_missing_bucket : Error
err_missing_bucket = foreign (bytes "bucket parameter is required for GCS")

unfoldable pub connection_error : Error → Error
connection_error = wrapped (bytes "Could not connect to SFTP host")

unfoldable pub mail_port : ℤ → ℤ
mail_port (pos n) = if ltb n 1 || ltb 65535 n then pos 25 else pos n
mail_port (negsuc n) = pos 25

unfoldable pub start_tls_policy : Text → Result StartTlsPolicy
start_tls_policy s =
    if text_eq s (bytes "OpportunisticStartTLS")
    then ok opportunistic_start_tls
    else if text_eq s (bytes "MandatoryStartTLS")
    then ok mandatory_start_tls
    else if text_eq s (bytes "NoStartTLS")
    then ok no_start_tls
    else err invalid_parameter

module _ (cloud : Cloud) where
  open cloud use {getenv}

  -- fs/afos
  unfoldable pub load_os : Access → Result Fs
  unfolding param replace_env_vars text_eq
  load_os a =
      let base_path = param (bytes "basePath") a.params in
      if text_eq base_path []
      then err missing_base_path
      else ok (base_path_fs os_fs (replace_env_vars getenv base_path))

  s3_config : Access → S3Config
  s3_config a =
      let key_id = param (bytes "access_key_id") a.params in
      let secret = param (bytes "secret_access_key") a.params in
      let endpoint = param (bytes "endpoint") a.params in
      record {
        region = param (bytes "region") a.params;
        disable_ssl = text_eq (param (bytes "disable_ssl") a.params) (bytes "true");
        s3_force_path_style = text_eq (param (bytes "path_style") a.params) (bytes "true");
        credentials =
            if not (text_eq key_id []) && not (text_eq secret [])
            then some (key_id, secret)
            else none;
        endpoint = if not (text_eq endpoint []) then some endpoint else none;
      }

  -- fs/s3
  unfoldable pub load_s3 : Access → Result Fs
  unfolding s3_config param text_eq
  load_s3 a =
      check (cloud.new_session (s3_config a)) same_error
        (ok (s3_fs (param (bytes "bucket") a.params) (s3_config a)))

  gcs_client : Access → GcsClient
  gcs_client a =
      if not (text_eq (param (bytes "key_file") a.params) [])
      then credentials_file (param (bytes "key_file") a.params)
      else if not (text_eq (param (bytes "project_id") a.params) [])
      then full_control
      else default_credentials

  -- fs/gcs
  unfoldable pub load_gcs : Access → Result Fs
  unfolding gcs_client param text_eq
  load_gcs a =
      if text_eq (param (bytes "bucket") a.params) []
      then err err_missing_bucket
      else check (cloud.new_gcs_client (gcs_client a))
          (wrapped (bytes "failed to create GCS client"))
          (check (cloud.new_gcs_fs (gcs_client a)) same_error (ok (gcs_fs (gcs_client a))))

  -- fs/sftp
  unfoldable pub load_sftp : Access → Result Fs
  unfolding param text_eq connection_error
  load_sftp a =
      let host = param (bytes "hostname") a.params in
      let user = param (bytes "username") a.params in
      let pass = param (bytes "password") a.params in
      check (cloud.ssh_dial host user pass) connection_error (
        check (cloud.new_sftp_client host user pass) connection_error (ok (sftp_fs host user pass)))

  -- fs/mail
  unfoldable pub load_mail : Access → Result Fs
  unfolding param text_eq parse_int parse_bool mail_port start_tls_policy
  load_mail a = do
    port ← parse_int (param (bytes "Port") a.params)
    ssl ← parse_bool (param (bytes "SSL") a.params)
    policy ← start_tls_policy (param (bytes "StartTLSPolicy") a.params)
    ok (
        mail_fs (record {
          host = param (bytes "Host") a.params;
          port = mail_port port;
          ssl = ssl;
          start_tls_policy = policy;
          username = param (bytes "Username") a.params;
          password = param (bytes "Password") a.params;
          local_name = param (bytes "Localname") a.params;
          from = param (bytes "From") a.params;
          to = param (bytes "To") a.params;
          subject = param (bytes "Subject") a.params;
          message = param (bytes "Message") a.params;
        }))

  gdrive_token_file : Access → Text
  gdrive_token_file a =
      let file = param (bytes "token_file") a.params in
      if text_eq file [] then bytes "gdrive_token_" ++ (a.user ++ bytes ".json") else file

  -- The token that could be read, and whether it has to be saved anew.
  gdrive_token : Result Text → Option Text × Bool
  gdrive_token (err e) = (none, true)
  gdrive_token (ok token) = (some token, not (cloud.token_valid token))

  gdrive_store : Bool → Text → Text → Option Error
  gdrive_store false file token = none
  gdrive_store true file token = cloud.store_token file token

  gdrive_root : Text → Text → Result Fs
  gdrive_root client base_path =
      let path = replace_env_vars getenv base_path in
      if text_eq base_path []
      then ok (gdrive_fs client [])
      else check (cloud.set_root_directory client path)
          (wrapped (bytes "couldn't set the base path")) (ok (gdrive_fs client path))

  gdrive_with : Access → Text → Text → Result Fs
  gdrive_with a id secret = do
    let file = gdrive_token_file a
    let (token, save) = gdrive_token (cloud.load_token file)
    (client, token') ← cloud.new_http_client id secret token
    check (gdrive_store save file token') (wrapped (bytes "token couldn't be saved")) (
        check (cloud.new_gdrive client) same_error
          (gdrive_root client (param (bytes "base_path") a.params)))

  -- fs/gdrive
  unfoldable pub load_gdrive : Access → Result Fs
  unfolding param text_eq param_or_env gdrive_with gdrive_token_file gdrive_token gdrive_store
      gdrive_root replace_env_vars
  load_gdrive a =
      let id =
        param_or_env getenv (param (bytes "google_client_id") a.params)
          (bytes "GOOGLE_CLIENT_ID") in
      let secret =
        param_or_env getenv (param (bytes "google_client_secret") a.params)
          (bytes "GOOGLE_CLIENT_SECRET") in
      if text_eq id [] || text_eq secret []
      then err err_missing_credentials
      else gdrive_with a id secret

  keycloak_id : Access → Text
  keycloak_id a =
      param_or_env getenv (param (bytes "keycloak_client_id") a.params) (bytes "KEYCLOAK_CLIENT_ID")

  keycloak_secret : Access → Text
  keycloak_secret a =
      param_or_env getenv (param (bytes "keycloak_client_secret") a.params)
        (bytes "KEYCLAOK_CLIENT_SECRET")

  -- `CheckPasswd`, with the authenticator that `LoadFs` makes.
  unfoldable pub check_passwd : Access → Option Error
  unfolding keycloak_id keycloak_secret param_or_env param text_eq
  check_passwd a =
      cloud.keycloak_login (param (bytes "keycloak_url") a.params) (keycloak_id a)
        (keycloak_secret a) (param (bytes "keycloak_realm") a.params) a.user a.pass

  -- fs/keycloak
  unfoldable pub load_keycloak : Access → Result Fs
  unfolding check_passwd replace_env_vars path_join
  load_keycloak a =
      let url = param (bytes "keycloak_url") a.params in
      let realm = param (bytes "keycloak_realm") a.params in
      let base_path = param (bytes "base_path") a.params in
      if text_eq (keycloak_id a) []
        || text_eq (keycloak_secret a) []
        || text_eq url []
        || text_eq realm []
      then err err_missing_credentials
      else if text_eq base_path []
      then err missing_base_path
      else check (check_passwd a) (λ e. err_login)
          (ok (base_path_fs os_fs (replace_env_vars getenv (path_join base_path a.user))))

  -- fs/dropbox
  unfoldable pub load_dropbox : Access → Result Fs
  unfolding param text_eq param_or_env
  load_dropbox a =
      let token = param_or_env getenv (param (bytes "token") a.params) (bytes "DROPBOX_TOKEN") in
      if text_eq token [] then err err_missing_token else ok (dropbox_fs token)

  telegram_bot : Text → Result ℤ → Result Fs
  telegram_bot token (err e) = err (foreign (bytes "invalid ChatID parameter"))
  telegram_bot token (ok chat_id) =
      check (cloud.new_bot token) same_error (ok (telegram_fs token chat_id))

  -- fs/telegram
  unfoldable pub load_telegram : Access → Result Fs
  unfolding param text_eq parse_int telegram_bot
  load_telegram a =
      let token = param (bytes "Token") a.params in
      if text_eq token []
      then err (foreign (bytes "parameter Token is empty"))
      else telegram_bot token (parse_int (param (bytes "ChatID") a.params))
