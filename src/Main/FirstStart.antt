-- ===== src/Main/FirstStart.antt =====
-- The program of main.go in a directory without a configuration.
use ftpserver.Base.{
  ℕ, ◌+◌, ◌*◌, ◌-◌, ◌==◌, ◌||◌, ltb, ◌++◌, length, drop, ◌≡◌, refl, ap, ◌∙◌, ◌&&◌, true, false,
  none, some, List, [], ◌∷◌, Text, bytes, text_eq, Run, Result, ◌>>=◌, has_prefix, if◌then◌else◌,
  unknown_user, ok, err, done, inl, inr, Bool-cases,
}
use ftpserver.Confpar.{Access, Content, Logging}
use ftpserver.Config.{Env, Config, get_access}
use ftpserver.Config.Loading.{new_config, load, default_listen_address}
use ftpserver.Fs.{Fs, base_path_fs, os_fs, Cloud}
use ftpserver.Fs.Loader.{load_fs}
use ftpserver.Server.{Server, ClientContext, new_server}
use ftpserver.Server.Webhook.{Http}
use ftpserver.Server.Auth.{auth_user, resume_auth}
use ftpserver.Server.Settings.{get_settings}
use ftpserver.Main.{
  Flags, Os, Started, started, conf_file_content, conf_name, auto_create, create_conf, configure,
  start,
}

abbrev pub no_flags : Flags
no_flags = record { conf = []; only_conf = false }

abbrev pub no_logging : Logging
no_logging = record { ftp_exchanges = false; file_accesses = false; file = [] }

abbrev pub test_access : Access
test_access = record {
  user = bytes "test";
  pass = bytes "test";
  fs = bytes "os";
  params = (bytes "basePath", bytes "/tmp") ∷ [];
  logging = no_logging;
  read_only = false;
  shared = false;
  sync_and_delete = none;
}

-- What `confFileContent` says, the fields that it leaves out being zero.
abbrev pub first_content : {Entry : Type 0} → Text → List Entry → Content Entry
first_content listen_address entries = record {
  version = 1;
  listen_address = listen_address;
  public_host = [];
  max_clients = 0;
  hash_plaintext_passwords = false;
  idle_timeout = 0;
  accesses = entries;
  passive_transfer_port_range = some (record { start = 2122; end = 2130 });
  extensions = record { enable_hash = false };
  logging = no_logging;
  tls = none;
  tls_required = [];
  accesses_webhook = none;
}

until_quote : Text → Text
until_quote [] = []
until_quote (c ∷ t) = if c == b'"' then [] else c ∷ until_quote t

digits_of : Text → ℕ → ℕ
digits_of [] n = n
digits_of (c ∷ t) n = if ltb c b'0' || ltb b'9' c then n else digits_of t (n * 10 + (c - b'0'))

-- What follows the first occurrence of a label.
behind : Text → Text → Text
unfolding has_prefix
behind label [] = []
behind label (c ∷ t) =
    let rest = behind label t in
    if has_prefix (c ∷ t) label then drop (length label) (c ∷ t) else rest

-- The value of the first member of this name in a JSON text: a string without escapes, or a number.
string_member : Text → Text → Text
unfolding until_quote behind
string_member name t = until_quote (behind (b'"' ∷ name ++ bytes "\": \"") t)

number_member : Text → Text → ℕ
unfolding digits_of behind
number_member name t = digits_of (behind (b'"' ∷ name ++ bytes "\": ") t) 0

-- A text with one access and the port range, as its members read; other fields are zero.
pub read_content : Text → Content Access
unfolding string_member number_member
read_content t =
    record (first_content [] (
      record test_access {
        user = string_member (bytes "user") t;
        pass = string_member (bytes "pass") t;
        fs = string_member (bytes "fs") t;
        params = (bytes "basePath", string_member (bytes "basePath") t) ∷ [];
      }
      ∷ [])) {
        version = number_member (bytes "version") t;
        passive_transfer_port_range = some (record {
          start = number_member (bytes "start") t;
          end = number_member (bytes "end") t;
        });
      }

read_conf_file_content : read_content conf_file_content ≡ first_content [] (test_access ∷ [])
unfolding read_content conf_file_content has_prefix
read_conf_file_content = refl

module _ {Disk Digest : Type 0} (env : Env Disk Digest) (os : Os Disk) where
  abbrev pub first_config : Config
  first_config = record {
    file_name = bytes "ftpserver.json";
    content = record (first_content default_listen_address (0 ∷ [])) {
      public_host =
          if text_eq (env.getenv (bytes "PUBLIC_HOST")) []
          then []
          else env.getenv (bytes "PUBLIC_HOST");
    };
    heap = test_access ∷ [];
  }

  first_load :
      {TlsConfig : Type 0} (d : Disk) {d' : Disk}
      → os.missing d (bytes "ftpserver.json") ≡ true
      → env.write_file d (bytes "ftpserver.json") conf_file_content ≡ (d', none)
      → env.open_file d' (bytes "ftpserver.json") ≡ ok conf_file_content
      → env.json_decode conf_file_content ≡ ok (first_content [] (test_access ∷ []))
      → ◌≡◌ {A = Disk × Started TlsConfig}
          (start env os no_flags d)
          (d', started (new_server first_config))
  unfolding start configure new_config create_conf load conf_name auto_create text_eq
  first_load d missing written read decoded = rw (missing, written, read, decoded) refl

  first_access :
      (user pass : Text)
      → env.new_decoder_all ≡ none
      → get_access env first_config user pass ≡ (
        first_config,
        if text_eq (bytes "test") user && text_eq (bytes "test") pass
            then ok 0
            else err unknown_user,
      )
  unfolding get_access text_eq has_prefix
  first_access user pass ready = elim (Bool-cases (text_eq (bytes "test") user)) [
    | inl named ↦ elim (Bool-cases (text_eq (bytes "test") pass)) [
      | inl same ↦ rw (ready, named, same) refl
      | inr other ↦ rw (ready, named, other) refl
    ]
    | inr stranger ↦ rw (ready, stranger) refl
  ]

  -- What `AuthUser` makes of the access that was found.
  opened :
      (TlsConfig : Type 0)
      → Cloud
      → ClientContext
      → Config × Result ℕ
      → Run (Server TlsConfig × ClientContext × Result Fs)
  unfolding new_server
  opened TlsConfig cloud client (c, found) =
      resume_auth cloud client (new_server c, found >>= λ p. ok (some p))

  first_login :
      {TlsConfig : Type 0} (http : Http) (cloud : Cloud) (client : ClientContext) (user pass : Text)
      → env.new_decoder_all ≡ none
      → auth_user env http cloud (new_server {TlsConfig = TlsConfig} first_config) client user pass
        ≡ done (
          new_server first_config,
          client,
          if text_eq (bytes "test") user && text_eq (bytes "test") pass
              then ok (base_path_fs os_fs (bytes "/tmp"))
              else err unknown_user,
        )
  unfolding auth_user new_server opened load_fs text_eq
  first_login {TlsConfig} http cloud client user pass ready =
      ap (opened TlsConfig cloud client) (first_access user pass ready)
      ∙ elim (Bool-cases (text_eq (bytes "test") user && text_eq (bytes "test") pass)) [
        | inl admitted ↦ rw admitted refl
        | inr stranger ↦ rw stranger refl
      ]

  -- The program is started without flags where no `ftpserver.json` is. If the default content can
  -- be written and read back, and the decoder takes the members of its text as they read, and the password decoders can be set up, it
  -- comes to listen, on port 2121 of every address, and at any login exactly the name `test` with
  -- the password `test` is let in, on the directory `/tmp` of the operating system; every other
  -- login gets `ErrUnknownUser`, and no login changes the server.
  pub first_start :
      (TlsConfig : Type 0) (d d' : Disk)
      → os.missing d (bytes "ftpserver.json") ≡ true
      → env.write_file d (bytes "ftpserver.json") conf_file_content ≡ (d', none)
      → env.open_file d' (bytes "ftpserver.json") ≡ ok conf_file_content
      → env.json_decode conf_file_content ≡ ok (read_content conf_file_content)
      → env.new_decoder_all ≡ none
      → (s : Server TlsConfig) × (start env os no_flags d ≡ (d', started s))
        × ((get_settings s).listen_addr ≡ bytes "0.0.0.0:2121")
        × ((http : Http) (cloud : Cloud) (client : ClientContext) (user pass : Text)
            → auth_user env http cloud s client user pass
              ≡ done (
                s,
                client,
                if text_eq (bytes "test") user && text_eq (bytes "test") pass
                    then ok (base_path_fs os_fs (bytes "/tmp"))
                    else err unknown_user,
              ))
  unfolding get_settings new_server
  first_start TlsConfig d d' missing written read decoded ready = (
    new_server first_config,
    first_load d missing written read (decoded ∙ ap ok read_conf_file_content),
    refl,
    λ http cloud client user pass. first_login http cloud client user pass ready,
  )
