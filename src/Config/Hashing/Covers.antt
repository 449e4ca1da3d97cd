-- ===== src/Config/Hashing/Covers.antt =====
-- After `HashPlaintextPasswords` of config/config.go no plain-text password is left.
use mathlib.Core.Path.{subst}
use ftpserver.Base.{
  ℕ, suc, ◌≡◌, refl, sym, ◌≢◌, ◌⊎◌, inl, inr, true, false, Option, none, some, List, [], ◌∷◌, Text,
  get_elem?, get_elem?-set-some, Error, Result, ok, err, arith, Bool-cases, Option-cases, All,
}
use ftpserver.Confpar.{Access}
use ftpserver.Config.{Env, Config, HashScheme, scheme_of, is_anonymous_any}
use ftpserver.Config.Hashing.{
  HashLoop, store_digest, continue_with, hash_with, hash_plain, hash_unless, hash_access,
  hash_accesses, save_file, hash_file, hash_plaintext_passwords,
}
use ftpserver.Config.Hashing.Step.{IsLawful, Kept, hash_accesses-Related}

-- The password is the anonymous wildcard, or a digest by its prefix.
abbrev pub IsCovered : Option Access → Type 0
IsCovered none = Unit
IsCovered (some a) = (is_anonymous_any a ≡ true) ⊎ (scheme_of a.pass ≢ none)

module _ {Disk Digest : Type 0} (env : Env Disk Digest) (lawful : IsLawful env) where
  Kept-IsCovered : (o o' : Option Access) → Kept env o o' → IsCovered o → IsCovered o'
  Kept-IsCovered none none k c = tt
  Kept-IsCovered none (some b) k c = absurd k
  Kept-IsCovered (some a) none k c = absurd k
  Kept-IsCovered (some a) (some b) (inl e) c = rw e c
  Kept-IsCovered (some a) (some b) (inr h) c = rw h.replaced (inr (lawful.prefixed h.digest))

  -- A round that does not fail covers its access.
  module _ (i : ℕ) (l : HashLoop) (p : ℕ) (a : Access) (found : get_elem? l.heap p ≡ some a) where
    store_digest-IsCovered :
        (d : Digest) (r : Result Text)
        → IsCovered (get_elem? (store_digest l p a (env.encode d) r).heap p)
    unfolding store_digest
    store_digest-IsCovered d (ok modified) =
        rw (get_elem?-set-some l.heap p _ found) (inr (lawful.prefixed d))
    store_digest-IsCovered d (err e) =
        rw (get_elem?-set-some l.heap p _ found) (inr (lawful.prefixed d))

    hash_with-IsCovered :
        (r : Result Digest)
        → (hash_with env i l p a r).1 ≡ none
        → IsCovered (get_elem? (hash_with env i l p a r).0.heap p)
    unfolding hash_with
    hash_with-IsCovered (err e) h = cc
    hash_with-IsCovered (ok d) h = store_digest-IsCovered d _

    hash_plain-IsCovered :
        (o : Option Error)
        → (hash_plain env o i l p a).1 ≡ none
        → IsCovered (get_elem? (hash_plain env o i l p a).0.heap p)
    unfolding hash_plain
    hash_plain-IsCovered (some e) h = cc
    hash_plain-IsCovered none h = hash_with-IsCovered _ h

    hash_unless-IsCovered :
        (o : Option HashScheme)
        → scheme_of a.pass ≡ o
        → (hash_unless env o i l p a).1 ≡ none
        → IsCovered (get_elem? (hash_unless env o i l p a).0.heap p)
    unfolding hash_unless
    hash_unless-IsCovered (some scheme) e h = rw found (inr (λ plain. cc))
    hash_unless-IsCovered none e h = hash_plain-IsCovered env.new_bcrypt h

  hash_access-IsCovered :
      (i : ℕ) (l : HashLoop) (p : ℕ)
      → (hash_access env i l p (get_elem? l.heap p)).1 ≡ none
      → IsCovered (get_elem? (hash_access env i l p (get_elem? l.heap p)).0.heap p)
  unfolding hash_access
  hash_access-IsCovered i l p h = elim (Option-cases (get_elem? l.heap p)) [
    | inl missing ↦ rw (missing, hash_access) (rw missing tt)
    | inr (a, found) ↦ elim (Bool-cases (is_anonymous_any a)) [
      | inl named ↦ rw (found, hash_access, named) (rw found (inl named))
      | inr other ↦
          rw (found, hash_access, other)
            (hash_unless-IsCovered i l p a found (scheme_of a.pass) refl
              (rw (found, hash_access, other) at h))
    ]
  ]

  continue_with-eq-none :
      (next : HashLoop → HashLoop × Option Error) (r : HashLoop × Option Error)
      → (continue_with next r).1 ≡ none
      → (r.1 ≡ none) × ((next r.0).1 ≡ none) × (continue_with next r ≡ next r.0)
  unfolding continue_with
  continue_with-eq-none next (l, none) h = (refl, h, refl)
  continue_with-eq-none next (l, some e) h = cc

  hash_accesses-IsCovered :
      (i : ℕ) (ps : List ℕ) (l : HashLoop)
      → (hash_accesses env i ps l).1 ≡ none
      → All (λ p. IsCovered (get_elem? (hash_accesses env i ps l).0.heap p)) ps
  unfolding hash_accesses
  hash_accesses-IsCovered i [] l h = tt
  hash_accesses-IsCovered i (p ∷ ps) l h =
      let step = hash_access env i l p (get_elem? l.heap p) in
      let (first, later, same) = continue_with-eq-none (hash_accesses env (suc i) ps) step h in
      subst (λ r. All (λ q. IsCovered (get_elem? r.0.heap q)) (p ∷ ps)) (sym same)
        (
          Kept-IsCovered _ _ (hash_accesses-Related env lawful (suc i) ps step.0 p)
              (hash_access-IsCovered i l p first),
          hash_accesses-IsCovered (suc i) ps step.0 later,
        )

  save_file-eq-none :
      (c : Config) (d : Disk) (r : HashLoop × Option Error)
      → (save_file env c d r).2 ≡ none
      → (r.1 ≡ none) × ((save_file env c d r).0 ≡ record c { heap = r.0.heap })
  unfolding save_file
  save_file-eq-none c d (l, some e) h = cc
  save_file-eq-none c d (l, none) h = ground arith

  hash_file-IsCovered :
      (c : Config) (d : Disk) (r : Result Text)
      → (hash_file env c d r).2 ≡ none
      → All (λ p. IsCovered (get_elem? (hash_file env c d r).0.heap p)) c.content.accesses
  unfolding hash_file
  hash_file-IsCovered c d (err e) h = cc
  hash_file-IsCovered c d (ok json) h =
      let start : HashLoop = record { heap = c.heap; json = json; save = false } in
      let (finished, same) =
        save_file-eq-none c d (hash_accesses env 0 c.content.accesses start) h in
      subst (λ c'. All (λ p. IsCovered (get_elem? c'.heap p)) c.content.accesses) (sym same)
        (hash_accesses-IsCovered 0 c.content.accesses start finished)

  -- If `HashPlaintextPasswords` returns no error, every access of the configuration afterwards has
  -- a password with the prefix of a known digest, or is the anonymous wildcard, whatever the file
  -- held before and whether or not the file could be edited. The bcrypt library is taken to put a
  -- known prefix in front of its digests.
  pub hash_plaintext_passwords-IsCovered :
      (c : Config) (d : Disk)
      → (hash_plaintext_passwords env c d).2 ≡ none
      → All
          (λ p. IsCovered (get_elem? (hash_plaintext_passwords env c d).0.heap p))
          c.content.accesses
  unfolding hash_plaintext_passwords
  hash_plaintext_passwords-IsCovered c d = hash_file-IsCovered c d _
