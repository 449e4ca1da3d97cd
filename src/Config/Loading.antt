-- ===== src/Config/Loading.antt =====
-- config/config.go: `Load`, `Prepare`, `NewConfig` and `FromContent`.
pub mod Reload
pub mod Restart
use ftpserver.Base.{
  ℕ, zero, suc, ◌+◌, Bool, true, false, Option, none, some, List, [], ◌∷◌, ◌++◌, Text, bytes,
  text_eq, if◌then◌else◌, length, Error, Result, ok, err,
}
use ftpserver.Confpar.{Access, Content}
use ftpserver.Config.{Env, Config}
use ftpserver.Config.Hashing.{hash_plaintext_passwords}

-- The addresses of accesses that are put on the heap one after the other.
unfoldable pub addresses : ℕ → List Access → List ℕ
addresses p [] = []
addresses p (a ∷ as') = p ∷ addresses (suc p) as'

-- A decoded content, with its accesses on the heap.
unfoldable pub allocate : Config → Content Access → Config
unfolding addresses
allocate c ct = record c {
  heap = c.heap ++ ct.accesses;
  content = record {
    version = ct.version;
    listen_address = ct.listen_address;
    public_host = ct.public_host;
    max_clients = ct.max_clients;
    hash_plaintext_passwords = ct.hash_plaintext_passwords;
    idle_timeout = ct.idle_timeout;
    accesses = addresses (length c.heap) ct.accesses;
    passive_transfer_port_range = ct.passive_transfer_port_range;
    extensions = ct.extensions;
    logging = ct.logging;
    tls = ct.tls;
    tls_required = ct.tls_required;
    accesses_webhook = ct.accesses_webhook;
  };
}

abbrev pub default_listen_address : Text
default_listen_address = bytes "0.0.0.0:2121"

pub prepare_content : Text → Content ℕ → Content ℕ
prepare_content public_host ct = record ct {
  listen_address =
      if text_eq ct.listen_address [] then default_listen_address else ct.listen_address;
  public_host = if text_eq public_host [] then ct.public_host else public_host;
}

module _ {Disk Digest : Type 0} (env : Env Disk Digest) where
  open env use {open_file, getenv, json_decode}

  -- `Prepare`, which never fails.
  unfoldable pub prepare : Config → Config
  unfolding prepare_content
  prepare c = record c { content = prepare_content (getenv (bytes "PUBLIC_HOST")) c.content }

  pub prepare_unless : Config × Disk × Option Error → Config × Disk × Option Error
  unfolding prepare
  prepare_unless (c, d, some e) = (c, d, some e)
  prepare_unless (c, d, none) = (prepare c, d, none)

  pub hash_if : Bool → Config → Disk → Config × Disk × Option Error
  hash_if true c d = hash_plaintext_passwords env c d
  hash_if false c d = (c, d, none)

  pub load_content : Config → Disk → Content Access → Config × Disk × Option Error
  unfolding prepare_unless allocate hash_if
  load_content c d ct = prepare_unless (hash_if ct.hash_plaintext_passwords (allocate c ct) d)

  pub load_decoded : Config → Disk → Result (Content Access) → Config × Disk × Option Error
  unfolding load_content
  load_decoded c d (err e) = (c, d, some e)
  load_decoded c d (ok ct) = load_content c d ct

  pub load_text : Config → Disk → Result Text → Config × Disk × Option Error
  unfolding load_decoded
  load_text c d (err e) = (c, d, some e)
  load_text c d (ok text) = load_decoded c d (json_decode text)

  -- `Load`: the configuration, the disk and the error.
  unfoldable pub load : Config → Disk → Config × Disk × Option Error
  unfolding load_text hash_plaintext_passwords
  load c d = load_text c d (open_file d c.file_name)

  unfoldable pub as_result : Config × Disk × Option Error → Disk × Result Config
  as_result (c, d, some e) = (d, err e)
  as_result (c, d, none) = (d, ok c)

  abbrev pub empty_content : Content ℕ
  empty_content = record {
    version = 0;
    listen_address = [];
    public_host = [];
    max_clients = 0;
    hash_plaintext_passwords = false;
    idle_timeout = 0;
    accesses = [];
    passive_transfer_port_range = none;
    extensions = record { enable_hash = false };
    logging = record { ftp_exchanges = false; file_accesses = false; file = [] };
    tls = none;
    tls_required = [];
    accesses_webhook = none;
  }

  abbrev pub default_file_name : Text → Text
  default_file_name name = if text_eq name [] then bytes "ftpserver.json" else name

  -- `NewConfig`. The content, nil in the source, is not read before `Load` sets it.
  unfoldable pub new_config : Text → Disk → Disk × Result Config
  unfolding load as_result
  new_config name d =
      as_result
        (load (record { file_name = default_file_name name; content = empty_content; heap = [] }) d)

  unfoldable pub from_content : Content ℕ → List Access → Text → Config
  unfolding prepare
  from_content ct heap name = prepare (record { file_name = name; content = ct; heap = heap })
