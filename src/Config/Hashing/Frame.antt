-- ===== src/Config/Hashing/Frame.antt =====
-- What `HashPlaintextPasswords` of config/config.go leaves alone: an invariant rule for its loop,
-- and the accesses that are not in the configuration.
use ftpserver.Base.{
  ℕ, suc, ◌≡◌, refl, inl, inr, false, Option, none, some, List, [], ◌∷◌, Text, get_elem?, set, All,
  Error, Result, ok, err, Bool-cases, arith,
}
use ftpserver.Confpar.{Access}
use ftpserver.Config.{Env, Config, HashScheme, scheme_of, is_anonymous_any}
use ftpserver.Config.Hashing.{
  HashLoop, store_digest, continue_with, hash_with, hash_plain, hash_unless, hash_access,
  hash_accesses, save_file, hash_file, hash_plaintext_passwords,
}

module _ {Disk Digest : Type 0} (env : Env Disk Digest) (P : List Access → Type 0) where
  module _ (l : HashLoop) (p : ℕ) (keep : (a : Access) → P (set l.heap p a))
      (start : P l.heap) where
    store_digest-invariant :
        (a : Access) (encoded : Text) (r : Result Text) → P (store_digest l p a encoded r).heap
    unfolding store_digest
    store_digest-invariant a encoded (ok modified) = keep _
    store_digest-invariant a encoded (err e) = keep _

    hash_with-invariant :
        (i : ℕ) (a : Access) (r : Result Digest) → P (hash_with env i l p a r).0.heap
    unfolding hash_with
    hash_with-invariant i a (ok digest) = store_digest-invariant a _ _
    hash_with-invariant i a (err e) = start

    hash_plain-invariant :
        (i : ℕ) (a : Access) (o : Option Error) → P (hash_plain env o i l p a).0.heap
    unfolding hash_plain
    hash_plain-invariant i a none = hash_with-invariant i a _
    hash_plain-invariant i a (some e) = start

    hash_unless-invariant :
        (i : ℕ) (a : Access) (o : Option HashScheme) → P (hash_unless env o i l p a).0.heap
    unfolding hash_unless
    hash_unless-invariant i a none = hash_plain-invariant i a env.new_bcrypt
    hash_unless-invariant i a (some scheme) = start

    hash_access-invariant : (i : ℕ) (o : Option Access) → P (hash_access env i l p o).0.heap
    unfolding hash_access
    hash_access-invariant i none = start
    hash_access-invariant i (some a) = elim (Bool-cases (is_anonymous_any a)) [
      | inl named ↦ rw named start
      | inr other ↦ rw other (hash_unless-invariant i a (scheme_of a.pass))
    ]

  continue_with-invariant :
      (next : HashLoop → HashLoop × Option Error) (r : HashLoop × Option Error)
      → ((l : HashLoop) → P l.heap → P (next l).0.heap)
      → P r.0.heap
      → P (continue_with next r).0.heap
  unfolding continue_with
  continue_with-invariant next (l, none) step h = step l h
  continue_with-invariant next (l, some e) step h = h

  -- What a write at each listed address preserves holds after the loop, however it ends.
  pub hash_accesses-invariant :
      (Q : ℕ → Type 0)
      → ((h : List Access) (p : ℕ) (a : Access) → Q p → P h → P (set h p a))
      → (i : ℕ) (ps : List ℕ) (l : HashLoop) → All Q ps
      → P l.heap
      → P (hash_accesses env i ps l).0.heap
  unfolding hash_accesses
  hash_accesses-invariant Q keep i [] l listed start = start
  hash_accesses-invariant Q keep i (p ∷ ps) l (here, listed) start =
      continue_with-invariant (hash_accesses env (suc i) ps) _
        (λ l' h. hash_accesses-invariant Q keep (suc i) ps l' listed h)
        (hash_access-invariant l p (λ a. keep l.heap p a here start) start i (get_elem? l.heap p))

  save_file-invariant :
      (c : Config) (d : Disk) (r : HashLoop × Option Error)
      → P r.0.heap
      → P (save_file env c d r).0.heap
  unfolding save_file
  save_file-invariant c d (l, some e) h = h
  save_file-invariant c d (l, none) h = elim (Bool-cases l.save) [
    | inl saved ↦ rw saved h
    | inr unsaved ↦ rw unsaved h
  ]

  hash_file-invariant :
      (Q : ℕ → Type 0)
      → ((h : List Access) (p : ℕ) (a : Access) → Q p → P h → P (set h p a))
      → (c : Config) (d : Disk) (r : Result Text) → All Q c.content.accesses
      → P c.heap
      → P (hash_file env c d r).0.heap
  unfolding hash_file
  hash_file-invariant Q keep c d (err e) listed start = start
  hash_file-invariant Q keep c d (ok json) listed start = save_file-invariant c d _ (
      hash_accesses-invariant Q keep 0 c.content.accesses
        (record { heap = c.heap; json = json; save = false }) listed start)

  pub hash_plaintext_passwords-invariant :
      (Q : ℕ → Type 0)
      → ((h : List Access) (p : ℕ) (a : Access) → Q p → P h → P (set h p a))
      → (c : Config) (d : Disk) → All Q c.content.accesses
      → P c.heap
      → P (hash_plaintext_passwords env c d).0.heap
  unfolding hash_plaintext_passwords
  hash_plaintext_passwords-invariant Q keep c d = hash_file-invariant Q keep c d _

module _ {Disk Digest : Type 0} (env : Env Disk Digest) where
  save_file-content :
      (c : Config) (d : Disk) (r : HashLoop × Option Error)
      → ((save_file env c d r).0.content ≡ c.content)
        × ((save_file env c d r).0.file_name ≡ c.file_name)
  unfolding save_file
  save_file-content c d (l, some e) = (refl, refl)
  save_file-content c d (l, none) = ground arith

  hash_file-content :
      (c : Config) (d : Disk) (r : Result Text)
      → ((hash_file env c d r).0.content ≡ c.content)
        × ((hash_file env c d r).0.file_name ≡ c.file_name)
  unfolding hash_file
  hash_file-content c d (err e) = (refl, refl)
  hash_file-content c d (ok json) =
      save_file-content c d (
        hash_accesses env 0 c.content.accesses
          (record { heap = c.heap; json = json; save = false }))

  -- The accesses are the only part of the configuration that it changes.
  pub hash_plaintext_passwords-content :
      (c : Config) (d : Disk)
      → ((hash_plaintext_passwords env c d).0.content ≡ c.content)
        × ((hash_plaintext_passwords env c d).0.file_name ≡ c.file_name)
  unfolding hash_plaintext_passwords
  hash_plaintext_passwords-content c d = hash_file-content c d _
