-- ===== src/Tests/Restarts.antt =====
-- Samples for the restarts of config/config.go.
use ftpserver.Base.{false, ◌≡◌, refl, none, some, [], ◌∷◌, Text, bytes, get_elem?, ok}
use ftpserver.Confpar.{Access, Content}
use ftpserver.Config.{Env, Config}
use ftpserver.Config.Hashing.{hash_plaintext_passwords}
use ftpserver.Config.Hashing.Storage.{load_fs-hash_plaintext_passwords}
use ftpserver.Fs.Loader.{load_fs}
use ftpserver.Config.Loading.{default_listen_address}
use ftpserver.Server.{Server, new_server}
use ftpserver.Main.{Os}
use ftpserver.Tests.{make_access, make_content, env, two_users, alice, cloud}
use ftpserver.Tests.Accounts.{env-IsLawful}

-- A file format with one user, whose password is the whole text.
abbrev one_user : Text → Content Access
one_user pass = make_content (make_access (bytes "ann") pass (bytes "os") ∷ [])

abbrev plain_env : Env Text Text
plain_env = record env { json_decode = λ t. ok (one_user t); sjson_set = λ t path pass. ok pass }

abbrev hashed_ann : Config
hashed_ann = record {
  file_name = bytes "ftpserver.json";
  content = record (make_content (0 ∷ [])) { listen_address = default_listen_address };
  heap = make_access (bytes "ann") (bytes "$2b$pw") (bytes "os") ∷ [];
}

load_fs-hash_plaintext_passwords_example :
    (b : Access) × (get_elem? (hash_plaintext_passwords env two_users []).0.heap 0 ≡ some b)
    × (load_fs cloud b ≡ load_fs cloud alice)
load_fs-hash_plaintext_passwords_example =
    load_fs-hash_plaintext_passwords env env-IsLawful cloud two_users [] 0 alice refl (λ e. cc)

abbrev present_os : Os Text
present_os = record { missing = λ d name. false; open_log = λ d name. (d, none) }

abbrev ann_server : Server Text
ann_server = new_server hashed_ann
