-- ===== src/Confpar.antt =====
-- config/confpar/confpar.go: the parameters that the JSON file holds. A slice of pointers
-- (`Accesses`) is a list of addresses into a heap of accesses; a nil pointer is `none`.
use ftpserver.Base.{ℕ, Bool, Option, List, Text}

pub record Logging : Type 0 where
  pub ftp_exchanges : Bool
  pub file_accesses : Bool
  pub file : Text

pub record SyncAndDelete : Type 0 where
  pub enable : Bool
  pub directory : Text

pub record Access : Type 0 where
  pub user : Text
  pub pass : Text
  pub fs : Text
  pub params : List (Text × Text)
  pub logging : Logging
  pub read_only : Bool
  pub shared : Bool
  pub sync_and_delete : Option SyncAndDelete

pub record AccessesWebhook : Type 0 where
  pub url : Text
  pub headers : List (Text × Text)
  pub timeout : ℕ

pub record PortRange : Type 0 where
  pub start : ℕ
  pub end : ℕ

pub record ServerCert : Type 0 where
  pub cert : Text
  pub key : Text

pub record Tls : Type 0 where
  pub server_cert : Option ServerCert

pub record Extensions : Type 0 where
  pub enable_hash : Bool

-- `Entry` is what the `accesses` slice holds: decoded accesses, or their addresses once loaded.
pub record Content (Entry : Type 0) : Type 0 where
  pub version : ℕ
  pub listen_address : Text
  pub public_host : Text
  pub max_clients : ℕ
  pub hash_plaintext_passwords : Bool
  pub idle_timeout : ℕ
  pub accesses : List Entry
  pub passive_transfer_port_range : Option PortRange
  pub extensions : Extensions
  pub logging : Logging
  pub tls : Option Tls
  pub tls_required : Text
  pub accesses_webhook : Option AccessesWebhook
