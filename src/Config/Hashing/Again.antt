-- ===== src/Config/Hashing/Again.antt =====
-- `HashPlaintextPasswords` of config/config.go where no plain-text password is left.
use mathlib.Core.Path.{subst}
use ftpserver.Base.{
  ℕ, suc, ◌≡◌, refl, sym, ap, ◌∙◌, ◌≢◌, inl, inr, false, Option, none, some, List, [], ◌∷◌, Text,
  get_elem?, All, ok, Bool-cases,
}
use ftpserver.Confpar.{Access}
use ftpserver.Config.{Env, Config, HashScheme, scheme_of, is_anonymous_any}
use ftpserver.Config.Hashing.{
  HashLoop, continue_with, hash_unless, hash_access, hash_accesses, save_file, hash_file,
  hash_plaintext_passwords,
}
use ftpserver.Config.Hashing.Step.{IsLawful}
use ftpserver.Config.Hashing.Frame.{hash_plaintext_passwords-content}
use ftpserver.Config.Hashing.Covers.{IsCovered, hash_plaintext_passwords-IsCovered}

module _ {Disk Digest : Type 0} (env : Env Disk Digest) where
  hash_unless-covered :
      (o : Option HashScheme) (i : ℕ) (l : HashLoop) (p : ℕ) (a : Access)
      → o ≢ none
      → hash_unless env o i l p a ≡ (l, none)
  unfolding hash_unless
  hash_unless-covered (some scheme) i l p a known = refl
  hash_unless-covered none i l p a known = absurd (known refl)

  hash_access-covered :
      (i : ℕ) (l : HashLoop) (p : ℕ) (o : Option Access)
      → IsCovered o
      → hash_access env i l p o ≡ (l, none)
  unfolding hash_access
  hash_access-covered i l p none c = refl
  hash_access-covered i l p (some a) (inl named) = rw named refl
  hash_access-covered i l p (some a) (inr known) = elim (Bool-cases (is_anonymous_any a)) [
    | inl named ↦ rw named refl
    | inr other ↦ rw other (hash_unless-covered (scheme_of a.pass) i l p a known)
  ]

  -- The loop leaves covered accesses and the file's text alone.
  pub hash_accesses-covered :
      (i : ℕ) (ps : List ℕ) (l : HashLoop)
      → All (λ p. IsCovered (get_elem? l.heap p)) ps
      → hash_accesses env i ps l ≡ (l, none)
  unfolding hash_accesses continue_with
  hash_accesses-covered i [] l c = refl
  hash_accesses-covered i (p ∷ ps) l (here, c) =
      rw (hash_access-covered i l p (get_elem? l.heap p) here)
        (hash_accesses-covered (suc i) ps l c)

  pub hash_plaintext_passwords-covered :
      (c : Config) (d : Disk) {json : Text}
      → env.read_file d c.file_name ≡ ok json
      → All (λ p. IsCovered (get_elem? c.heap p)) c.content.accesses
      → hash_plaintext_passwords env c d ≡ (c, d, none)
  unfolding hash_plaintext_passwords hash_file save_file
  hash_plaintext_passwords-covered c d {json} read covered =
      ap (hash_file env c d) read
      ∙ ap (save_file env c d) (
          hash_accesses-covered 0 c.content.accesses
            (record { heap = c.heap; json = json; save = false }) covered)

module _ {Disk Digest : Type 0} (env env' : Env Disk Digest) (lawful : IsLawful env) where
  -- After a `HashPlaintextPasswords` without an error another one changes neither the accesses nor
  -- the disk and returns no error, wherever the file can be read, even if its bcrypt library or its
  -- random source would fail. The first one's bcrypt library is taken to be lawful.
  pub hash_plaintext_passwords_again :
      (c : Config) (d d' : Disk) {json : Text}
      → (hash_plaintext_passwords env c d).2 ≡ none
      → env'.read_file d' c.file_name ≡ ok json
      → hash_plaintext_passwords env' (hash_plaintext_passwords env c d).0 d'
        ≡ ((hash_plaintext_passwords env c d).0, d', none)
  hash_plaintext_passwords_again c d d' done read =
      let c' = (hash_plaintext_passwords env c d).0 in
      let (content, named) = hash_plaintext_passwords-content env c d in
      let covered = hash_plaintext_passwords-IsCovered env lawful c d done in
      hash_plaintext_passwords-covered env' c' d' (ap (env'.read_file d') named ∙ read)
        (subst (λ k. All (λ p. IsCovered (get_elem? c'.heap p)) k.accesses) (sym content) covered)
