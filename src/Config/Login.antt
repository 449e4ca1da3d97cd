-- ===== src/Config/Login.antt =====
-- Who is let in by `GetAccess` of config/config.go.
use ftpserver.Base.{
  ℕ, ◌≡◌, refl, ap, ◌∙◌, ◌≢◌, ◌↔◌, ◌⊎◌, inl, inr, true, false, Option, none, some, List, [], ◌∷◌,
  Text, bytes, text_eq_iff, has_prefix_iff, ◌++◌, Bool, get_elem?, set, Error, Result, ok, err,
  >>=-eq-ok, arith, Option-cases, if◌then◌else◌,
}
use ftpserver.Confpar.{Access}
use ftpserver.Config.{
  Env, Config, scheme_of, is_anonymous_any, is_keycloak, check_pass, check_hashed, visit,
  find_access, unless_failed, HashScheme, get_access,
}

abbrev pub IsAnonymousAny : Access → Type 0
IsAnonymousAny a = (a.user ≡ bytes "anonymous") × (a.pass ≡ bytes "*")

is_anonymous_any_iff : (a : Access) → (is_anonymous_any a ≡ true) ↔ IsAnonymousAny a
unfolding is_anonymous_any
is_anonymous_any_iff a =
    ground (arith, text_eq_iff a.user (bytes "anonymous"), text_eq_iff a.pass (bytes "*"))

unless_failed_iff :
    (o : Option Error) (heap : List Access) (found : List Access × Result ℕ) (p : ℕ)
    → ((unless_failed o heap found).1 ≡ ok p) ↔ ((o ≡ none) × (found.1 ≡ ok p))
unfolding unless_failed
unless_failed_iff none heap found p = ground arith
unless_failed_iff (some e) heap found p = ground arith

unless_failed-heap_ok :
    (o : Option Error) (heap : List Access) (found : List Access × Result ℕ) (p : ℕ)
    → (unless_failed o heap found).1 ≡ ok p
    → (unless_failed o heap found).0 ≡ found.0
unfolding unless_failed
unless_failed-heap_ok none heap found p h = refl
unless_failed-heap_ok (some e) heap found p h = cc

unless_failed-heap_err :
    (o : Option Error) (heap : List Access) (found : List Access × Result ℕ) (e : Error)
    → (unless_failed o heap found).1 ≡ err e
    → ((e' : Error) → found.1 ≡ err e' → found.0 ≡ heap)
    → (unless_failed o heap found).0 ≡ heap
unfolding unless_failed
unless_failed-heap_err none heap found e h keep = keep e h
unless_failed-heap_err (some e') heap found e h keep = refl

abbrev Begins : Text → Text → Type 0
Begins prefix t = (rest : Text) × (t ≡ prefix ++ rest)

-- A text in the form of a digest of crypt(3) that the program knows: MD5, bcrypt in its five
-- versions, SHA-256 or SHA-512.
abbrev pub IsDigest : Text → Type 0
IsDigest t =
    Begins (bytes "$1$") t
    ⊎ (Begins (bytes "$2$") t
        ⊎ (Begins (bytes "$2a$") t
            ⊎ (Begins (bytes "$2b$") t
                ⊎ (Begins (bytes "$2x$") t
                    ⊎ (Begins (bytes "$2y$") t
                        ⊎ (Begins (bytes "$5$") t ⊎ Begins (bytes "$6$") t))))))

guard_iff :
    {A P Q : Type 0} (b : Bool) (x : A) (o : Option A)
    → (b ≡ true) ↔ P
    → (o ≢ none) ↔ Q
    → ((if b then some x else o) ≢ none) ↔ (P ⊎ Q)
guard_iff true x o p q = (λ h. inl (p.0 refl), λ h e. cc)
guard_iff false x o p q =
    (λ h. inr (q.0 h), elim [ inl y ↦ let e = p.1 y in absurd cc | inr y ↦ q.1 y ])

last_iff :
    {A P : Type 0} (b : Bool) (x : A) → (b ≡ true) ↔ P → ((if b then some x else none) ≢ none) ↔ P
last_iff true x p = (λ h. p.0 refl, λ h e. cc)
last_iff false x p = (λ h. absurd (h refl), λ y. let e = p.1 y in absurd cc)

scheme_of-IsDigest : (t : Text) → (scheme_of t ≢ none) ↔ IsDigest t
unfolding scheme_of
scheme_of-IsDigest t = guard_iff _ _ _ (has_prefix_iff t (bytes "$1$")) (
    guard_iff _ _ _ (has_prefix_iff t (bytes "$2$")) (
      guard_iff _ _ _ (has_prefix_iff t (bytes "$2a$")) (
        guard_iff _ _ _ (has_prefix_iff t (bytes "$2b$")) (
          guard_iff _ _ _ (has_prefix_iff t (bytes "$2x$")) (
            guard_iff _ _ _ (has_prefix_iff t (bytes "$2y$")) (
              guard_iff _ _ _ (has_prefix_iff t (bytes "$5$"))
                (last_iff _ _ (has_prefix_iff t (bytes "$6$")))))))))

scheme_of-none : (t : Text) → (scheme_of t ≡ none) ↔ (¬ IsDigest t)
scheme_of-none t = (
  λ e d. (scheme_of-IsDigest t).1 d e,
  λ n. elim (Option-cases (scheme_of t)) [
    | inl e ↦ e
    | inr (x, e) ↦ absurd (n ((scheme_of-IsDigest t).0 (λ f. cc)))
  ],
)

module _ {Disk Digest : Type 0} (env : Env Disk Digest) where
  check_hashed_iff :
      (o : Option HashScheme) (a : Access) (pass : Text)
      → (check_hashed env o a pass ≡ ok true) ↔ (
          ((o ≡ none) × ((a.pass ≡ pass) ⊎ IsAnonymousAny a))
          ⊎ ((o ≢ none)
              × ((d : Digest) × (env.decode a.pass ≡ ok d)
                  × (env.match_advanced d pass ≡ ok true))))
  unfolding check_hashed
  check_hashed_iff none a pass = ground (arith, text_eq_iff a.pass pass, is_anonymous_any_iff a)
  check_hashed_iff (some scheme) a pass = (
    λ h. inr (λ e. cc, >>=-eq-ok (env.decode a.pass) _ h),
    elim [ inl (e, _) ↦ cc | inr (_, (d, decoded, matched)) ↦ rw decoded matched ],
  )

  -- The password fits the access: as the text itself, by the anonymous wildcard, or as a digest.
  abbrev pub Verifies : Access → Text → Type 0
  Verifies a pass =
      ((¬ IsDigest a.pass) × ((a.pass ≡ pass) ⊎ IsAnonymousAny a))
      ⊎ (IsDigest a.pass
          × ((d : Digest) × (env.decode a.pass ≡ ok d) × (env.match_advanced d pass ≡ ok true)))

  -- A password passes the check of an access exactly if the access holds it as plain text, or is the
  -- anonymous wildcard, its text having none of the eight prefixes of a digest in `IsDigest`; or if
  -- the access holds a text with one of them, which decodes to a digest that the password matches.
  pub check_pass_iff :
      (a : Access) (pass : Text) → (check_pass env a pass ≡ ok true) ↔ Verifies a pass
  unfolding check_pass
  check_pass_iff a pass =
      let (there, back) = check_hashed_iff (scheme_of a.pass) a pass in
      let (plain, plain') = scheme_of-none a.pass in
      let (digest, digest') = scheme_of-IsDigest a.pass in
      (
        λ h. elim (there h) [
          | inl (e, fits) ↦ inl (plain e, fits)
          | inr (e, fits) ↦ inr (digest e, fits)
        ],
        elim [
          | inl (e, fits) ↦ back (inl (plain' e, fits))
          | inr (e, fits) ↦ back (inr (digest' e, fits))
        ],
      )

  -- An access that `GetAccess` returns for the user and the password.
  abbrev pub Accepts : Text → Text → Access → Type 0
  Accepts user pass a =
      (is_keycloak a ≡ true)
      ⊎ ((is_keycloak a ≡ false) × (a.user ≡ user) × (check_pass env a pass ≡ ok true))

  -- One that it passes over: another user's, or one whose password differs.
  abbrev pub PassesOver : Text → Text → Access → Type 0
  PassesOver user pass a =
      (is_keycloak a ≡ false) × ((a.user ≢ user) ⊎ (check_pass env a pass ≡ ok false))

  abbrev pub At : (Access → Type 0) → Option Access → Type 0
  At P none = ⊥
  At P (some a) = P a

  -- `p` is the first address in the list that is not passed over, and its access is accepted.
  abbrev pub IsFirst : Text → Text → List Access → List ℕ → ℕ → Type 0
  IsFirst user pass heap [] p = ⊥
  IsFirst user pass heap (q ∷ qs) p =
      ((q ≡ p) × At (Accepts user pass) (get_elem? heap q))
      ⊎ (((get_elem? heap q ≡ none) ⊎ At (PassesOver user pass) (get_elem? heap q))
          × IsFirst user pass heap qs p)

  -- The heap afterwards: a keycloak access has been given the name and the password.
  abbrev pub after_login : Text → Text → List Access → ℕ → Option Access → List Access
  after_login user pass heap p none = heap
  after_login user pass heap p (some a) =
      if is_keycloak a then set heap p (record a { user = user; pass = pass }) else heap

  find_access_iff :
      (user pass : Text) (heap : List Access) (ps : List ℕ) (p : ℕ)
      → ((find_access env user pass heap ps).1 ≡ ok p) ↔ IsFirst user pass heap ps p
  unfolding find_access
  find_access_iff user pass heap [] p = ground arith
  find_access_iff user pass heap (q ∷ qs) p = elim (Option-cases (get_elem? heap q)) [
    | inl missing ↦ rw (missing, visit) (ground (arith, find_access_iff user pass heap qs p))
    | inr (a, found) ↦
        rw (found, visit)
          (ground (arith, find_access_iff user pass heap qs p, text_eq_iff a.user user))
  ]

  find_access-after_login :
      (user pass : Text) (heap : List Access) (ps : List ℕ) (p : ℕ)
      → (find_access env user pass heap ps).1 ≡ ok p
      → (find_access env user pass heap ps).0 ≡ after_login user pass heap p (get_elem? heap p)
  unfolding find_access
  find_access-after_login user pass heap [] p h = cc
  find_access-after_login user pass heap (q ∷ qs) p h = elim (Option-cases (get_elem? heap q)) [
    | inl missing ↦
        rw (missing, visit) (find_access-after_login user pass heap qs p (rw (missing, visit) at h))
    | inr (a, found) ↦
        rw (found, visit)
          (ground
            (arith, rw (found, visit) at h, found, find_access-after_login user pass heap qs p))
  ]

  find_access-heap :
      (user pass : Text) (heap : List Access) (ps : List ℕ) (e : Error)
      → (find_access env user pass heap ps).1 ≡ err e
      → (find_access env user pass heap ps).0 ≡ heap
  unfolding find_access
  find_access-heap user pass heap [] e h = refl
  find_access-heap user pass heap (q ∷ qs) e h = elim (Option-cases (get_elem? heap q)) [
    | inl missing ↦
        rw (missing, visit) (find_access-heap user pass heap qs e (rw (missing, visit) at h))
    | inr (a, found) ↦
        rw (found, visit)
          (ground (arith, rw (found, visit) at h, find_access-heap user pass heap qs e))
  ]

  -- `GetAccess` returns `p` exactly when the password decoders can be set up and `p` is the first
  -- address of the configuration whose access is accepted, all before it being passed over.
  pub get_access_iff :
      (c : Config) (user pass : Text) (p : ℕ)
      → ((get_access env c user pass).1 ≡ ok p)
        ↔ ((env.new_decoder_all ≡ none) × IsFirst user pass c.heap c.content.accesses p)
  unfolding get_access
  get_access_iff c user pass p = (
    λ h.
        let (ready, found) = (unless_failed_iff env.new_decoder_all c.heap _ p).0 h in
        (ready, (find_access_iff user pass c.heap c.content.accesses p).0 found),
    λ h.
        (unless_failed_iff env.new_decoder_all c.heap _ p).1
          (h.0, (find_access_iff user pass c.heap c.content.accesses p).1 h.1),
  )

  -- If `GetAccess` returns a keycloak access, that access, and no other, has been given the name and
  -- the password of this call; if it returns another one, the configuration is as before.
  pub get_access-heap_ok :
      (c : Config) (user pass : Text) (p : ℕ)
      → (get_access env c user pass).1 ≡ ok p
      → (get_access env c user pass).0
        ≡ record c { heap = after_login user pass c.heap p (get_elem? c.heap p) }
  unfolding get_access
  get_access-heap_ok c user pass p h =
      ap (λ heap. record c { heap = heap })
        (unless_failed-heap_ok env.new_decoder_all c.heap _ p h
          ∙ find_access-after_login user pass c.heap c.content.accesses p
              ((unless_failed_iff env.new_decoder_all c.heap _ p).0 h).1)

  -- A call of `GetAccess` that fails leaves the configuration alone, whether the name is unknown, a
  -- digest cannot be read or the password decoders cannot be set up.
  pub get_access-heap_err :
      (c : Config) (user pass : Text) (e : Error)
      → (get_access env c user pass).1 ≡ err e
      → (get_access env c user pass).0 ≡ c
  unfolding get_access
  get_access-heap_err c user pass e h =
      ap (λ heap. record c { heap = heap })
        (unless_failed-heap_err env.new_decoder_all c.heap _ e h
          (find_access-heap user pass c.heap c.content.accesses))
