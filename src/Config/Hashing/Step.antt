-- ===== src/Config/Hashing/Step.antt =====
-- What the loop of `HashPlaintextPasswords` does to the heap: it puts a digest in the place of some
-- plain-text passwords, and changes nothing else.
use ftpserver.Base.{
  length, ◌≤◌, ℕ, suc, ◌≡◌, refl, ◌∙◌, ◌≢◌, ◌⊎◌, inl, inr, false, Option, none, some, List, [], ◌∷◌,
  Text, text_eq, get_elem?, set, get_elem?-set-some, get_elem?-set_ne, ℕ_discrete, Error, Result,
  ok, err, Bool-cases, Option-cases,
}
use ftpserver.Confpar.{Access}
use ftpserver.Config.{Env, HashScheme, scheme_of, is_anonymous_any}
use ftpserver.Config.Hashing.{
  HashLoop, store_digest, continue_with, hash_with, hash_plain, hash_unless, hash_access,
  hash_accesses,
}

-- What the code relies on in the bcrypt library: an encoded digest has a known prefix and decodes
-- to the digest, which of the passwords of at most 72 bytes, as many as bcrypt reads, matches the
-- one that was hashed and no other. (Two passwords are taken not to collide.)
pub record IsLawful {Disk Digest : Type 0} (env : Env Disk Digest) : Type 0 where
  pub prefixed : (d : Digest) → scheme_of (env.encode d) ≢ none
  pub decode-encode : (d : Digest) → env.decode (env.encode d) ≡ ok d
  pub matches :
      (salt : ℕ) (p q : Text) {d : Digest}
      → length q ≤ 72
      → env.hash salt p ≡ ok d
      → env.match_advanced d q ≡ ok (text_eq p q)

module _ {Disk Digest : Type 0} (env : Env Disk Digest) where
  -- `b` is `a` with a digest of its plain-text password.
  pub record IsHashOf (a b : Access) : Type 0 where
    pub plain : scheme_of a.pass ≡ none
    pub named : is_anonymous_any a ≡ false
    pub salt : ℕ
    pub digest : Digest
    pub hashed : env.hash salt a.pass ≡ ok digest
    pub replaced : b ≡ record a { pass = env.encode digest }

  abbrev pub Kept : Option Access → Option Access → Type 0
  Kept none none = Unit
  Kept none (some b) = ⊥
  Kept (some a) none = ⊥
  Kept (some a) (some b) = (b ≡ a) ⊎ IsHashOf a b

  abbrev pub Related : List Access → List Access → Type 0
  Related h k = (p : ℕ) → Kept (get_elem? h p) (get_elem? k p)

  Kept-refl : (o : Option Access) → Kept o o
  Kept-refl none = tt
  Kept-refl (some a) = inl refl

  pub Related-refl : (h : List Access) → Related h h
  Related-refl h p = Kept-refl (get_elem? h p)

  set-Related :
      (h : List Access) (p : ℕ) (a b : Access)
      → get_elem? h p ≡ some a
      → IsHashOf a b
      → Related h (set h p b)
  set-Related h p a b found hashed q = elim (ℕ_discrete p q) [
    | yes e ↦ rw (← e, found, get_elem?-set-some h p b found) (inr hashed)
    | no n ↦ rw (get_elem?-set_ne h b n) (Kept-refl (get_elem? h q))
  ]

  -- The outcomes of a round: nothing is done, the loop is left, or a digest is stored.
  module _ (i : ℕ) (l : HashLoop) (p : ℕ) (a : Access) (found : get_elem? l.heap p ≡ some a) where
    store_digest-Related :
        (encoded : Text) (r : Result Text)
        → IsHashOf a (record a { pass = encoded })
        → Related l.heap (store_digest l p a encoded r).heap
    unfolding store_digest
    store_digest-Related encoded (ok modified) h = set-Related l.heap p a _ found h
    store_digest-Related encoded (err e) h = set-Related l.heap p a _ found h

    hash_with-Related :
        (r : Result Digest)
        → env.hash i a.pass ≡ r
        → scheme_of a.pass ≡ none
        → is_anonymous_any a ≡ false
        → Related l.heap (hash_with env i l p a r).0.heap
    unfolding hash_with
    hash_with-Related (err e) hashed plain named = λ q. Kept-refl (get_elem? l.heap q)
    hash_with-Related (ok digest) hashed plain named = store_digest-Related _ _ (record {
      plain = plain;
      named = named;
      salt = i;
      digest = digest;
      hashed = hashed;
      replaced = refl;
    })

    hash_plain-Related :
        (o : Option Error)
        → scheme_of a.pass ≡ none
        → is_anonymous_any a ≡ false
        → Related l.heap (hash_plain env o i l p a).0.heap
    unfolding hash_plain
    hash_plain-Related (some e) plain named = λ q. Kept-refl (get_elem? l.heap q)
    hash_plain-Related none plain named = hash_with-Related _ refl plain named

    hash_unless-Related :
        (o : Option HashScheme)
        → scheme_of a.pass ≡ o
        → is_anonymous_any a ≡ false
        → Related l.heap (hash_unless env o i l p a).0.heap
    unfolding hash_unless
    hash_unless-Related (some scheme) e named = λ q. Kept-refl (get_elem? l.heap q)
    hash_unless-Related none e named = hash_plain-Related env.new_bcrypt e named

  hash_access-Related :
      (i : ℕ) (l : HashLoop) (p : ℕ)
      → Related l.heap (hash_access env i l p (get_elem? l.heap p)).0.heap
  unfolding hash_access
  hash_access-Related i l p = elim (Option-cases (get_elem? l.heap p)) [
    | inl missing ↦ rw (missing, hash_access) (λ q. Kept-refl (get_elem? l.heap q))
    | inr (a, found) ↦
        rw (found, hash_access)
          (elim (Bool-cases (is_anonymous_any a)) [
            | inl named ↦ rw named (λ q. Kept-refl (get_elem? l.heap q))
            | inr other ↦ rw other (hash_unless-Related i l p a found (scheme_of a.pass) refl other)
          ])
  ]

  module _ (lawful : IsLawful env) where
    Kept-trans : (o o' o'' : Option Access) → Kept o o' → Kept o' o'' → Kept o o''
    Kept-trans none none none h k = tt
    Kept-trans (some a) (some b) (some c) (inl e) (inl e') = inl (e' ∙ e)
    Kept-trans (some a) (some b) (some c) (inl e) (inr h) = inr (rw e at h)
    Kept-trans (some a) (some b) (some c) (inr h) (inl e) = inr (rw (← e) at h)
    Kept-trans (some a) (some b) (some c) (inr h) (inr k) =
        absurd (lawful.prefixed h.digest (rw h.replaced at k.plain))
    Kept-trans none none (some c) h k = k
    Kept-trans none (some b) o'' h k = absurd h
    Kept-trans (some a) none o'' h k = absurd h
    Kept-trans (some a) (some b) none h k = k

    continue_with-Related :
        (next : HashLoop → HashLoop × Option Error) (h : List Access) (r : HashLoop × Option Error)
        → ((l : HashLoop) → Related l.heap (next l).0.heap)
        → Related h r.0.heap
        → Related h (continue_with next r).0.heap
    unfolding continue_with
    continue_with-Related next h (l, none) keep related =
        λ q. Kept-trans _ _ _ (related q) (keep l q)
    continue_with-Related next h (l, some e) keep related = related

    -- The whole loop, however it ends.
    pub hash_accesses-Related :
        (i : ℕ) (ps : List ℕ) (l : HashLoop) → Related l.heap (hash_accesses env i ps l).0.heap
    unfolding hash_accesses
    hash_accesses-Related i [] l = λ q. Kept-refl (get_elem? l.heap q)
    hash_accesses-Related i (p ∷ ps) l =
        continue_with-Related (hash_accesses env (suc i) ps) l.heap _
          (hash_accesses-Related (suc i) ps) (hash_access-Related i l p)
