-- ===== src/Config/Loading/Reload.antt =====
-- What `Load` of config/config.go, and with it a reload, does to a configuration in use.
use ftpserver.Base.{
  ℕ, zero, suc, ◌+◌, ◌≤◌, ◌<◌, ◌≡◌, refl, ap, ◌∙◌, ◌≢◌, Bool, true, false, Option, none, some, List,
  [], ◌∷◌, ◌++◌, Text, text_eq_iff, length, length-set, length-append, get_elem?, get_elem?-set_ne,
  All, All-map, Error, Result, ok, err, arith,
}
use ftpserver.Confpar.{Access, Content}
use ftpserver.Config.{Env, Config}
use ftpserver.Config.Hashing.{hash_plaintext_passwords}
use ftpserver.Config.Hashing.Frame.{
  hash_plaintext_passwords-invariant, hash_plaintext_passwords-content,
}
use ftpserver.Config.Loading.{
  addresses, allocate, prepare_content, prepare, prepare_unless, hash_if, load_content,
  load_decoded, load_text, load,
}

-- Every address of the configuration is on the heap.
abbrev pub IsWellFormed : Config → Type 0
IsWellFormed c = All (λ p. p < length c.heap) c.content.accesses

addresses-All :
    (p : ℕ) (as' : List Access) → All (λ q. (p ≤ q) × (q < p + length as')) (addresses p as')
unfolding addresses
addresses-All p [] = tt
addresses-All p (a ∷ as') = (
  omega arith,
  All-map _ _ (λ q h. omega arith) (addresses (suc p) as') (addresses-All (suc p) as'),
)

allocate-IsWellFormed : (c : Config) (ct : Content Access) → IsWellFormed (allocate c ct)
unfolding allocate
allocate-IsWellFormed c ct =
    All-map _ _ (λ q h. omega (arith, length-append {0} c.heap ct.accesses))
      (addresses (length c.heap) ct.accesses) (addresses-All (length c.heap) ct.accesses)

get_elem?-append {ℓ} :
    {A : Type ℓ} (xs ys : List A) (i : ℕ) → i < length xs → get_elem? (xs ++ ys) i ≡ get_elem? xs i
get_elem?-append [] ys i h = elim h [ ]
get_elem?-append (x ∷ xs) ys zero h = refl
get_elem?-append (x ∷ xs) ys (suc i) h = get_elem?-append xs ys i (omega arith)

module _ {Disk Digest : Type 0} (env : Env Disk Digest) where
  prepare_unless-heap :
      (r : Config × Disk × Option Error)
      → ((prepare_unless env r).0.heap ≡ r.0.heap)
        × ((prepare_unless env r).0.content.accesses ≡ r.0.content.accesses)
  unfolding prepare_unless prepare prepare_content
  prepare_unless-heap (c, d, none) = (refl, refl)
  prepare_unless-heap (c, d, some e) = (refl, refl)

  hash_plaintext_passwords-IsWellFormed :
      (c : Config) (d : Disk) → IsWellFormed c → IsWellFormed (hash_plaintext_passwords env c d).0
  hash_plaintext_passwords-IsWellFormed c d h =
      let same : length (hash_plaintext_passwords env c d).0.heap ≡ length c.heap =
        hash_plaintext_passwords-invariant env (λ k. length k ≡ length c.heap)
          (λ p. p < length c.heap) (λ k p a listed e. length-set k p a ∙ e) c d h refl in
      rw (same, (hash_plaintext_passwords-content env c d).0) h

  hash_if-IsWellFormed :
      (b : Bool) (c : Config) (d : Disk) → IsWellFormed c → IsWellFormed (hash_if env b c d).0
  unfolding hash_if
  hash_if-IsWellFormed true c d h = hash_plaintext_passwords-IsWellFormed c d h
  hash_if-IsWellFormed false c d h = h

  load_content-IsWellFormed :
      (c : Config) (d : Disk) (ct : Content Access) → IsWellFormed (load_content env c d ct).0
  unfolding load_content
  load_content-IsWellFormed c d ct =
      let r = hash_if env ct.hash_plaintext_passwords (allocate c ct) d in
      let (same, same') = prepare_unless-heap r in
      rw (same, same') (hash_if-IsWellFormed _ _ d (allocate-IsWellFormed c ct))

  load_decoded-IsWellFormed :
      (c : Config) (d : Disk) (r : Result (Content Access))
      → IsWellFormed c
      → IsWellFormed (load_decoded env c d r).0
  unfolding load_decoded
  load_decoded-IsWellFormed c d (err e) h = h
  load_decoded-IsWellFormed c d (ok ct) h = load_content-IsWellFormed c d ct

  load_text-IsWellFormed :
      (c : Config) (d : Disk) (r : Result Text)
      → IsWellFormed c
      → IsWellFormed (load_text env c d r).0
  unfolding load_text
  load_text-IsWellFormed c d (err e) h = h
  load_text-IsWellFormed c d (ok text) h = load_decoded-IsWellFormed c d (env.json_decode text) h

  -- `Load` keeps a configuration well formed, on success and on every failure: each pointer of its
  -- list of accesses points to an access.
  pub load-IsWellFormed : (c : Config) (d : Disk) → IsWellFormed c → IsWellFormed (load env c d).0
  unfolding load
  load-IsWellFormed c d h = load_text-IsWellFormed c d (env.open_file d c.file_name) h

  -- The accesses that were on the heap before, at `p`, are as they were.
  module _ (p : ℕ) where
    hash_if-get_elem? :
        (b : Bool) (c : Config) (d : Disk)
        → All (λ q. q ≢ p) c.content.accesses
        → get_elem? (hash_if env b c d).0.heap p ≡ get_elem? c.heap p
    unfolding hash_if
    hash_if-get_elem? true c d h =
        hash_plaintext_passwords-invariant env (λ k. get_elem? k p ≡ get_elem? c.heap p)
          (λ q. q ≢ p) (λ k q a other e. get_elem?-set_ne k a other ∙ e) c d h refl
    hash_if-get_elem? false c d h = refl

    allocate-fresh :
        (c : Config) (ct : Content Access)
        → p < length c.heap
        → All (λ q. q ≢ p) (allocate c ct).content.accesses
    unfolding allocate
    allocate-fresh c ct h =
        All-map _ _ (λ q k. omega arith) (addresses (length c.heap) ct.accesses)
          (addresses-All (length c.heap) ct.accesses)

    allocate-get_elem? :
        (c : Config) (ct : Content Access)
        → p < length c.heap
        → get_elem? (allocate c ct).heap p ≡ get_elem? c.heap p
    unfolding allocate
    allocate-get_elem? c ct h = get_elem?-append c.heap ct.accesses p h

    load_content-get_elem? :
        (c : Config) (d : Disk) (ct : Content Access)
        → p < length c.heap
        → get_elem? (load_content env c d ct).0.heap p ≡ get_elem? c.heap p
    unfolding load_content
    load_content-get_elem? c d ct h =
        ap (λ k. get_elem? k p)
          (prepare_unless-heap (hash_if env ct.hash_plaintext_passwords (allocate c ct) d)).0
        ∙ (hash_if-get_elem? _ _ d (allocate-fresh c ct h) ∙ allocate-get_elem? c ct h)

    load_decoded-get_elem? :
        (c : Config) (d : Disk) (r : Result (Content Access))
        → p < length c.heap
        → get_elem? (load_decoded env c d r).0.heap p ≡ get_elem? c.heap p
    unfolding load_decoded
    load_decoded-get_elem? c d (err e) h = refl
    load_decoded-get_elem? c d (ok ct) h = load_content-get_elem? c d ct h

    load_text-get_elem? :
        (c : Config) (d : Disk) (r : Result Text)
        → p < length c.heap
        → get_elem? (load_text env c d r).0.heap p ≡ get_elem? c.heap p
    unfolding load_text
    load_text-get_elem? c d (err e) h = refl
    load_text-get_elem? c d (ok text) h = load_decoded-get_elem? c d (env.json_decode text) h

  -- A reload never touches an access that was handed out before it: what stood at an address of
  -- the heap stands there afterwards, whether the reload succeeds or fails.
  pub get_elem?-load :
      (c : Config) (d : Disk) (p : ℕ)
      → p < length c.heap
      → get_elem? (load env c d).0.heap p ≡ get_elem? c.heap p
  unfolding load
  get_elem?-load c d p h = load_text-get_elem? p c d (env.open_file d c.file_name) h

  prepare_unless-listens :
      (r : Config × Disk × Option Error)
      → (prepare_unless env r).2 ≡ none
      → (prepare_unless env r).0.content.listen_address ≢ []
  unfolding prepare_unless prepare prepare_content
  prepare_unless-listens (c, d, some e) h = cc
  prepare_unless-listens (c, d, none) h = ground (arith, text_eq_iff c.content.listen_address [])

  load_decoded-listens :
      (c : Config) (d : Disk) (r : Result (Content Access))
      → (load_decoded env c d r).2 ≡ none
      → (load_decoded env c d r).0.content.listen_address ≢ []
  unfolding load_decoded load_content
  load_decoded-listens c d (err e) h = cc
  load_decoded-listens c d (ok ct) h = prepare_unless-listens _ h

  load_text-listens :
      (c : Config) (d : Disk) (r : Result Text)
      → (load_text env c d r).2 ≡ none
      → (load_text env c d r).0.content.listen_address ≢ []
  unfolding load_text
  load_text-listens c d (err e) h = cc
  load_text-listens c d (ok text) h = load_decoded-listens c d (env.json_decode text) h

  -- If `Load` returns no error there is an address to listen on, also if the file names none.
  pub load-listens :
      (c : Config) (d : Disk)
      → (load env c d).2 ≡ none
      → (load env c d).0.content.listen_address ≢ []
  unfolding load
  load-listens c d h = load_text-listens c d (env.open_file d c.file_name) h

  prepare_unless-failed :
      (r : Config × Disk × Option Error) {e : Error} → r.2 ≡ some e → prepare_unless env r ≡ r
  unfolding prepare_unless
  prepare_unless-failed (c, d, none) h = cc
  prepare_unless-failed (c, d, some e) h = refl

  hash_if-failed :
      (b : Bool) (c : Config) (d : Disk) {e : Error}
      → b ≡ true
      → (hash_plaintext_passwords env c d).2 ≡ some e
      → let r = prepare_unless env (hash_if env b c d) in (r.2 ≡ some e) × (r.0.content ≡ c.content)
  unfolding hash_if
  hash_if-failed true c d on failed =
      rw (prepare_unless-failed (hash_plaintext_passwords env c d) failed)
        (failed, (hash_plaintext_passwords-content env c d).0)
  hash_if-failed false c d on failed = cc

  -- If the new file can be opened and decoded and asks for hashing, but `HashPlaintextPasswords`
  -- fails, `Load` returns that error and the configuration in use has nevertheless been replaced:
  -- its accesses are those of the new file, and its listen address is the one of the new file, not
  -- prepared, even if it is empty.
  pub load_replaces_on_failure :
      (c : Config) (d : Disk) {text : Text} {ct : Content Access} {e : Error}
      → env.open_file d c.file_name ≡ ok text
      → env.json_decode text ≡ ok ct
      → ct.hash_plaintext_passwords ≡ true
      → (hash_plaintext_passwords env (allocate c ct) d).2 ≡ some e
      → ((load env c d).2 ≡ some e)
        × ((load env c d).0.content.accesses ≡ addresses (length c.heap) ct.accesses)
        × ((load env c d).0.content.listen_address ≡ ct.listen_address)
  unfolding load load_content allocate
  load_replaces_on_failure c d {ct} {e} opened decoded hashing failed =
      let (same, content) =
        hash_if-failed ct.hash_plaintext_passwords (allocate c ct) d hashing failed in
      rw (opened, decoded, load_text, load_decoded)
        (same, ap (λ k. k.accesses) content, ap (λ k. k.listen_address) content)
