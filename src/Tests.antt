-- ===== src/Tests.antt =====
-- The theorems on concrete data: config/, fs/ and server/ with small libraries in the place of the
-- ones that they call.
pub mod Accounts
pub mod Files
pub mod Overlaps
pub mod Process
pub mod Requests
pub mod Restarts
pub mod Sessions
pub mod Shutdown
pub mod Uploads
use ftpserver.Base.{
  ℕ, ◌≡◌, refl, true, false, Option, none, some, List, [], ◌∷◌, ◌++◌, Text, bytes, text_eq, drop,
  not_found, ok, err,
}
use ftpserver.Strings.{ℤ}
use ftpserver.Confpar.{Access, Content, Logging}
use ftpserver.Config.{Env, Config}
use ftpserver.Fs.{Cloud}
use ftpserver.Server.{Server, ClientContext, new_server}

abbrev pub quiet_logging : Logging
quiet_logging = record { ftp_exchanges = false; file_accesses = false; file = [] }

abbrev pub make_access : Text → Text → Text → Access
make_access user pass fs = record {
  user = user;
  pass = pass;
  fs = fs;
  params = (bytes "basePath", bytes "/srv") ∷ [];
  logging = quiet_logging;
  read_only = false;
  shared = false;
  sync_and_delete = none;
}

abbrev pub alice : Access
alice = make_access (bytes "alice") (bytes "secret") (bytes "os")

abbrev pub guest : Access
guest = make_access (bytes "anonymous") (bytes "*") (bytes "os")

-- A read-only access, shared by its sessions.
abbrev pub archive : Access
archive = record (make_access (bytes "bob") (bytes "tape") (bytes "os")) {
  read_only = true;
  shared = true;
}

abbrev pub portal : Access
portal = record (make_access [] [] (bytes "keycloak")) {
  shared = true;
  params =
      (bytes "keycloak_url", bytes "https://sso")
      ∷ (bytes "keycloak_realm", bytes "main")
      ∷ (bytes "keycloak_client_id", bytes "ftp")
      ∷ (bytes "keycloak_client_secret", bytes "x")
      ∷ (bytes "base_path", bytes "/srv")
      ∷ [];
}

abbrev pub make_content : {Entry : Type 0} → List Entry → Content Entry
make_content entries = record {
  version = 1;
  listen_address = [];
  public_host = [];
  max_clients = 10;
  hash_plaintext_passwords = true;
  idle_timeout = 1_500_000_000;
  accesses = entries;
  passive_transfer_port_range = none;
  extensions = record { enable_hash = false };
  logging = quiet_logging;
  tls = none;
  tls_required = bytes "MandatoryEncryption";
  accesses_webhook = none;
}

-- A digest is the password itself, written behind `$2b$`; the file holds one text.
abbrev pub env : Env Text Text
env = record {
  open_file = λ d name. ok d;
  read_file = λ d name. ok d;
  write_file = λ d name t. (t, none);
  getenv = λ name. [];
  json_decode = λ t. ok (make_content (alice ∷ guest ∷ []));
  sjson_set = λ t path value. ok (t ++ (path ++ value));
  new_decoder_all = none;
  decode = λ t. ok (drop 4 t);
  match_advanced = λ d q. ok (text_eq d q);
  new_bcrypt = none;
  hash = λ salt p. ok p;
  encode = λ d. bytes "$2b$" ++ d;
}

-- The same with a random source that fails.
abbrev pub env_no_salt : Env Text Text
env_no_salt = record env { hash = λ salt p. err not_found }

abbrev pub two_users : Config
two_users = record {
  file_name = bytes "ftpserver.json";
  content = make_content (0 ∷ 1 ∷ []);
  heap = alice ∷ guest ∷ [];
}

abbrev pub one_portal : Config
one_portal = record two_users { content = make_content (0 ∷ []); heap = portal ∷ [] }

-- Services that let every call succeed.
abbrev pub cloud : Cloud
cloud = record {
  getenv = λ name. [];
  new_session = λ c. none;
  new_gcs_client = λ c. none;
  new_gcs_fs = λ c. none;
  ssh_dial = λ h u p. none;
  new_sftp_client = λ h u p. none;
  keycloak_login = λ u i s r n p. none;
  load_token = λ f. ok f;
  token_valid = λ t. true;
  new_http_client = λ i s t. ok (i, s);
  store_token = λ f t. none;
  new_gdrive = λ c. none;
  set_root_directory = λ c p. none;
  new_bot = λ t. none;
  new_snd = λ f t. none;
}

-- Services that refuse every login.
abbrev pub closed_cloud : Cloud
closed_cloud = record cloud { keycloak_login = λ u i s r n p. some not_found }

abbrev pub client : ClientContext
client = record { id = 1; remote_addr = bytes "10.0.0.2:4711"; debug = false }
