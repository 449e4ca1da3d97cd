-- ===== src/Server/Auth/Provenance.antt =====
-- Where the file systems in the cache of server/server.go come from, whatever logins overlap.
use ftpserver.Base.{ℕ, ◌≡◌, ◌⊎◌, true, Option, none, some, List, Text, get_elem?, ok}
use ftpserver.Confpar.{Access}
use ftpserver.Config.{Env}
use ftpserver.Fs.{Fs, Cloud}
use ftpserver.Fs.Loader.{load_fs}
use ftpserver.Server.{Server}
use ftpserver.Server.Webhook.{Http}
use ftpserver.Server.Auth.Interleaved.{
  Step, chosen, chosen_nil, refused, opened, reloaded, Steps, start, next,
}

-- `LoadFs` gave this file system for this access, which is shared and of this user.
abbrev pub IsLoadedFrom : Cloud → Option Access → Text × Fs → Type 0
IsLoadedFrom cloud none entry = ⊥
IsLoadedFrom cloud (some a) (user, fs) =
    (a.user ≡ user) × (a.shared ≡ true) × (load_fs cloud a ≡ ok fs)

module _ {Disk Digest TlsConfig : Type 0} (env : Env Disk Digest) (http : Http) where
  -- The file system was loaded at this step, for the access that stood at the step's pointer.
  abbrev pub LoadedAt :
      {s s' : Server TlsConfig} {pending pending' : List ℕ}
      → Text × Fs
      → Step env http s pending s' pending'
      → Type 0
  LoadedAt entry (opened s s' pending p client client' r cloud e) =
      IsLoadedFrom cloud (get_elem? s.config.heap p) entry
  LoadedAt entry (chosen s s' pending p user pass e) = ⊥
  LoadedAt entry (chosen_nil s s' pending user pass e) = ⊥
  LoadedAt entry (refused s s' pending e user pass eq) = ⊥
  LoadedAt entry (reloaded s s' pending d d' e eq) = ⊥

  -- At one of the steps.
  pub LoadedIn :
      {s s' : Server TlsConfig} {pending pending' : List ℕ}
      → Text × Fs
      → Steps env http s pending s' pending'
      → Type 0
  LoadedIn entry start = ⊥
  LoadedIn entry (next step steps) = LoadedAt entry step ⊎ LoadedIn entry steps
