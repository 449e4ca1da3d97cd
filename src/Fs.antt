-- ===== src/Fs.antt =====
-- The file systems that fs/ loads, as the calls that make them, and the libraries and services that
-- the loaders call.
pub mod Backends
pub mod Loader
pub mod Protection
use ftpserver.Base.{
  ℕ, Bool, true, false, Option, List, [], ◌∷◌, Text, text_eq, if◌then◌else◌, Error, Result,
}
use ftpserver.Strings.{ℤ}

pub data StartTlsPolicy : Type 0 where
  opportunistic_start_tls mandatory_start_tls no_start_tls : StartTlsPolicy

-- fs/mail: `Fs`, with the fields of its `Dialer`.
pub record MailFs : Type 0 where
  pub host : Text
  pub port : ℤ
  pub ssl : Bool
  pub start_tls_policy : StartTlsPolicy
  pub username : Text
  pub password : Text
  pub local_name : Text
  pub from : Text
  pub to : Text
  pub subject : Text
  pub message : Text

-- `aws.Config` as fs/s3 fills it.
pub record S3Config : Type 0 where
  pub region : Text
  pub disable_ssl : Bool
  pub s3_force_path_style : Bool
  pub credentials : Option (Text × Text)
  pub endpoint : Option Text

-- How fs/gcs makes its client.
pub data GcsClient : Type 0 where
  credentials_file : Text → GcsClient
  full_control default_credentials : GcsClient

pub data Fs : Type 0 where
  os_fs : Fs
  base_path_fs : Fs → Text → Fs
  read_only_fs : Fs → Fs
  -- fs/fslog
  logged_fs : Fs → Fs
  -- afero-snd: the destination, with the given temporary file system or one of its own
  snd_fs : (destination temporary : Fs) → Fs
  snd_default_fs : (destination : Fs) → Fs
  s3_fs : (bucket : Text) → S3Config → Fs
  gcs_fs : GcsClient → Fs
  sftp_fs : (hostname username password : Text) → Fs
  mail_fs : MailFs → Fs
  -- the client, and the root directory if it has been set
  gdrive_fs : (client root : Text) → Fs
  dropbox_fs : (token : Text) → Fs
  telegram_fs : (token : Text) → (chat_id : ℤ) → Fs

-- What the loaders call: each function says with what error, if any, the call fails.
pub record Cloud : Type 0 where
  pub getenv : Text → Text
  pub new_session : S3Config → Option Error
  pub new_gcs_client : GcsClient → Option Error
  pub new_gcs_fs : GcsClient → Option Error
  pub ssh_dial : (hostname username password : Text) → Option Error
  pub new_sftp_client : (hostname username password : Text) → Option Error
  pub keycloak_login : (url client_id secret realm user pass : Text) → Option Error
  pub load_token : (file : Text) → Result Text
  pub token_valid : Text → Bool
  pub new_http_client : (id secret : Text) → Option Text → Result (Text × Text)
  pub store_token : (file token : Text) → Option Error
  pub new_gdrive : (client : Text) → Option Error
  pub set_root_directory : (client path : Text) → Option Error
  pub new_bot : (token : Text) → Option Error
  pub new_snd : Fs → Option Fs → Option Error

-- `params[key]` of a `map[string]string`.
unfoldable pub param : Text → List (Text × Text) → Text
param key [] = []
param key ((k, v) ∷ params) = if text_eq k key then v else param key params

-- The parameter, or the environment variable where the parameter is empty.
pub param_or_env : (Text → Text) → Text → Text → Text
param_or_env getenv value name = if text_eq value [] then getenv name else value
