-- ===== src/Config/Hashing/Storage.antt =====
-- `HashPlaintextPasswords` of config/config.go and the file systems of fs/.
use mathlib.Core.Path.{subst}
use ftpserver.Base.{ℕ, ◌≡◌, refl, ap, ◌∙◌, ◌≢◌, inl, inr, Option, none, some, bytes, get_elem?}
use ftpserver.Confpar.{Access}
use ftpserver.Config.{Env, Config}
use ftpserver.Config.Hashing.{hash_plaintext_passwords}
use ftpserver.Config.Hashing.Step.{IsLawful, Kept}
use ftpserver.Config.Hashing.Keeps.{hash_plaintext_passwords-Related}
use ftpserver.Fs.{Cloud}
use ftpserver.Fs.Loader.{load_fs}
use ftpserver.Fs.Backends.Credentials.{load_fs-pass}

module _ {Disk Digest : Type 0} (env : Env Disk Digest) (lawful : IsLawful env) where
  Kept-load_fs :
      (cloud : Cloud) (a : Access) (o : Option Access)
      → a.fs ≢ bytes "keycloak"
      → Kept env (some a) o
      → (b : Access) × (o ≡ some b) × (load_fs cloud b ≡ load_fs cloud a)
  Kept-load_fs cloud a none other kept = absurd kept
  Kept-load_fs cloud a (some b) other (inl same) = (b, refl, ap (load_fs cloud) same)
  Kept-load_fs cloud a (some b) other (inr hashed) = (
    b,
    refl,
    ap (load_fs cloud) hashed.replaced ∙ load_fs-pass cloud a (env.encode hashed.digest) other,
  )

  -- Hashing the passwords moves no storage: whatever `HashPlaintextPasswords` does and however it
  -- ends, an access that is not for keycloak stays at its address, and `LoadFs` answers for it what
  -- it answered before, whatever the services are. The bcrypt library is taken to be lawful.
  pub load_fs-hash_plaintext_passwords :
      (cloud : Cloud) (c : Config) (d : Disk) (p : ℕ) (a : Access)
      → get_elem? c.heap p ≡ some a
      → a.fs ≢ bytes "keycloak"
      → (b : Access) × (get_elem? (hash_plaintext_passwords env c d).0.heap p ≡ some b)
        × (load_fs cloud b ≡ load_fs cloud a)
  load_fs-hash_plaintext_passwords cloud c d p a found other =
      let o = get_elem? (hash_plaintext_passwords env c d).0.heap p in
      Kept-load_fs cloud a o other
        (subst (λ k. Kept env k o) found (hash_plaintext_passwords-Related env lawful c d p))
