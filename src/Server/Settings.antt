-- ===== src/Server/Settings.antt =====
-- server/server.go: `GetSettings`, `ReloadConfig` and `ClientConnected`.
use ftpserver.Base.{
  ℕ, ◌+◌, ◌*◌, ◌/◌, ◌≤◌, ◌<◌, ◌≡◌, ◌≢◌, ◌↔◌, Bool, true, Option, Text, bytes, text_eq, text_eq_iff,
  if◌then◌else◌, Error, arith,
}
use ftpserver.Confpar.{PortRange}
use ftpserver.Config.{Env}
use ftpserver.Config.Loading.{load}
use ftpserver.Server.{Server, ClientContext}
use ftpserver.Server.Lifecycle.{count_in}

pub data TlsRequirement : Type 0 where
  clear_or_encrypted mandatory_encryption implicit_encryption : TlsRequirement

pub record Settings : Type 0 where
  pub listen_addr : Text
  pub public_host : Text
  pub passive_transfer_port_range : Option PortRange
  pub tls_required : TlsRequirement
  pub idle_timeout : ℕ
  pub enable_hash : Bool

tls_requirement : Text → TlsRequirement
tls_requirement s =
    if text_eq s (bytes "ImplicitEncryption")
    then implicit_encryption
    else if text_eq s (bytes "MandatoryEncryption")
    then mandatory_encryption
    else clear_or_encrypted

implicit-ne-mandatory : ◌≢◌ {A = Text} (bytes "ImplicitEncryption") (bytes "MandatoryEncryption")
implicit-ne-mandatory = cc

tls_requirement_iff :
    (t : Text)
    → ((tls_requirement t ≡ implicit_encryption) ↔ (t ≡ bytes "ImplicitEncryption"))
      × ((tls_requirement t ≡ mandatory_encryption) ↔ (t ≡ bytes "MandatoryEncryption"))
unfolding tls_requirement
tls_requirement_iff t = ground (
  arith,
  text_eq_iff t (bytes "ImplicitEncryption"),
  text_eq_iff t (bytes "MandatoryEncryption"),
  implicit-ne-mandatory,
)

module _ {TlsConfig : Type 0} where
  -- `GetSettings`. The idle timeout is in nanoseconds; the source goes through a float64, which
  -- rounds down like this for all durations below 2^22 seconds.
  unfoldable pub get_settings : Server TlsConfig → Settings
  unfolding tls_requirement
  get_settings s = record {
    listen_addr = s.config.content.listen_address;
    public_host = s.config.content.public_host;
    passive_transfer_port_range = s.config.content.passive_transfer_port_range;
    tls_required = tls_requirement s.config.content.tls_required;
    idle_timeout = s.config.content.idle_timeout / 1_000_000_000;
    enable_hash = s.config.content.extensions.enable_hash;
  }

  -- `ReloadConfig`: the server, the disk and the error.
  unfoldable pub reload_config :
      {Disk Digest : Type 0}
      → Env Disk Digest
      → Server TlsConfig
      → Disk
      → Server TlsConfig × Disk × Option Error
  unfolding load
  reload_config env s d =
      let (c, d', failed) = load env s.config d in (record s { config = c }, d', failed)

  -- `ClientConnected`, with the greeting.
  unfoldable pub client_connected :
      Server TlsConfig → ClientContext → Server TlsConfig × ClientContext × Text
  client_connected s client = (
    record s { clients = count_in s.clients },
    if s.config.content.logging.ftp_exchanges then record client { debug = true } else client,
    bytes "ftpserver",
  )

  -- The settings require encryption exactly for the two texts that the source knows: any other
  -- text, a misspelt one too, leaves clear connections allowed. The idle timeout is the whole
  -- number of seconds in the configured duration.
  get_settings_lem :
      (s : Server TlsConfig)
      → (((get_settings s).tls_required ≡ implicit_encryption)
          ↔ (s.config.content.tls_required ≡ bytes "ImplicitEncryption"))
        × (((get_settings s).tls_required ≡ mandatory_encryption)
            ↔ (s.config.content.tls_required ≡ bytes "MandatoryEncryption"))
        × ((get_settings s).idle_timeout * 1_000_000_000 ≤ s.config.content.idle_timeout)
        × (s.config.content.idle_timeout < ((get_settings s).idle_timeout + 1) * 1_000_000_000)
  unfolding get_settings
  get_settings_lem s =
      let t = s.config.content.tls_required in
      let names = tls_requirement_iff t in (names.0, names.1, omega arith, omega arith)
