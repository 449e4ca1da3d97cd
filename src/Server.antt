-- ===== src/Server.antt =====
-- server/server.go: the state of the driver, which its parts below share.
pub mod Auth
pub mod Lifecycle
pub mod Settings
pub mod Tls
pub mod Webhook
use ftpserver.Base.{ℕ, Bool, false, Option, none, List, [], Text, Error, Result}
use ftpserver.Config.{Config}
use ftpserver.Fs.{Fs}
use ftpserver.Server.Lifecycle.{Clients, no_clients}

-- `tlsOnce` with what its function has set.
pub data TlsOnce (TlsConfig : Type 0) : Type 0 where
  not_done : TlsOnce TlsConfig
  done_with : Result TlsConfig → TlsOnce TlsConfig

pub record Server (TlsConfig : Type 0) : Type 0 where
  pub config : Config
  pub clients : Clients
  pub tls : TlsOnce TlsConfig
  -- `accesses`, the cache of file systems by user
  pub accesses : List (Text × Fs)

-- The part of `serverlib.ClientContext` that the driver uses.
pub record ClientContext : Type 0 where
  pub id : ℕ
  pub remote_addr : Text
  pub debug : Bool

-- `NewServer`.
unfoldable pub new_server : {TlsConfig : Type 0} → Config → Server TlsConfig
new_server c = record { config = c; clients = no_clients; tls = not_done; accesses = [] }
