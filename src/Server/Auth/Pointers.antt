-- ===== src/Server/Auth/Pointers.antt =====
-- What the halves of a login and a reload of server/server.go keep of the pointers to accesses.
use mathlib.Core.Path.{subst}
use ftpserver.Base.{
  ℕ, zero, suc, ◌≤◌, ◌<◌, ◌≡◌, refl, sym, ap, ◌∙◌, inl, inr, Option, none, some, List, [], ◌∷◌,
  Text, length, length-append, length-set, get_elem?, All, All-map, Result, ok, err, ◌>>=◌, done,
  arith, Bool-cases, Option-cases, Result-cases,
}
use ftpserver.Confpar.{Access, AccessesWebhook}
use ftpserver.Config.{Env, Config, is_keycloak, get_access}
use ftpserver.Config.Login.{
  At, Accepts, IsFirst, after_login, get_access_iff, get_access-heap_ok, get_access-heap_err,
}
use ftpserver.Config.Loading.{load}
use ftpserver.Config.Loading.Reload.{get_elem?-load}
use ftpserver.Fs.{Fs, Cloud}
use ftpserver.Server.{Server, ClientContext}
use ftpserver.Server.Webhook.{Http}
use ftpserver.Server.Auth.{load_cached, give_session, open_at, place_access, select_with}
use ftpserver.Server.Auth.Cache.{IsGenuine, load_cached-IsGenuine}

pub get_elem?-lt :
    (h : List Access) (p : ℕ) → p < length h → (a : Access) × (get_elem? h p ≡ some a)
get_elem?-lt [] p l = absurd (omega arith)
get_elem?-lt (a ∷ h) zero l = (a, refl)
get_elem?-lt (a ∷ h) (suc p) l = get_elem?-lt h p (omega arith)

lt-get_elem? : (h : List Access) (p : ℕ) {a : Access} → get_elem? h p ≡ some a → p < length h
lt-get_elem? [] p e = cc
lt-get_elem? (b ∷ h) zero e = omega arith
lt-get_elem? (b ∷ h) (suc p) e = omega (arith, lt-get_elem? h p e)

pub grow : {m n : ℕ} (ps : List ℕ) → m ≤ n → All (λ p. p < m) ps → All (λ p. p < n) ps
grow ps h all = All-map _ _ (λ p l. omega (arith, l, h)) ps all

bind-some : (r : Result ℕ) (p : ℕ) → (r >>= λ q. ok (some q)) ≡ ok (some p) → r ≡ ok p
bind-some (ok q) p h = cc
bind-some (err e) p h = cc

module _ {Disk Digest : Type 0} (env : Env Disk Digest) where
  At-lt : (P : Access → Type 0) (h : List Access) (p : ℕ) → At env P (get_elem? h p) → p < length h
  At-lt P h p at = elim (Option-cases (get_elem? h p)) [
    | inl missing ↦ absurd (rw missing at at)
    | inr (a, found) ↦ lt-get_elem? h p found
  ]

  IsFirst-lt :
      (user pass : Text) (h : List Access) (ps : List ℕ) (p : ℕ)
      → IsFirst env user pass h ps p
      → p < length h
  IsFirst-lt user pass h [] p first = absurd first
  IsFirst-lt user pass h (q ∷ qs) p (inl (e, accepted)) =
      omega (arith, e, At-lt (Accepts env user pass) h q accepted)
  IsFirst-lt user pass h (q ∷ qs) p (inr (_, first)) = IsFirst-lt user pass h qs p first

  after_login-length :
      (user pass : Text) (h : List Access) (p : ℕ) (o : Option Access)
      → length (after_login env user pass h p o) ≡ length h
  after_login-length user pass h p none = refl
  after_login-length user pass h p (some a) = elim (Bool-cases (is_keycloak a)) [
    | inl kc ↦ rw kc (length-set h p _)
    | inr other ↦ rw other refl
  ]

  -- What `GetAccess` keeps.
  get_access-keeps :
      (c : Config) (user pass : Text)
      → (length (get_access env c user pass).0.heap ≡ length c.heap)
        × ((get_access env c user pass).0.content ≡ c.content)
  get_access-keeps c user pass = elim (Result-cases (get_access env c user pass).1) [
    | inl (p, found) ↦
        let e = get_access-heap_ok env c user pass p found in
        (
          ap (λ c'. length c'.heap) e ∙ after_login-length user pass c.heap p (get_elem? c.heap p),
          ap (λ c'. c'.content) e,
        )
    | inr (e, failed) ↦
        let same = get_access-heap_err env c user pass e failed in
        (ap (λ c'. length c'.heap) same, ap (λ c'. c'.content) same)
  ]

  pub load-grows :
      (c : Config) (d : Disk) (p : ℕ) → p < length c.heap → p < length (load env c d).0.heap
  load-grows c d p l =
      let (a, found) = get_elem?-lt c.heap p l in
      lt-get_elem? (load env c d).0.heap p (get_elem?-load env c d p l ∙ found)

  module _ {TlsConfig : Type 0} where
    -- What choosing an access keeps, and that the pointer which it gives is good.
    abbrev pub Chooses : Server TlsConfig → Server TlsConfig × Result (Option ℕ) → Type 0
    Chooses s (s', r) =
        (s'.accesses ≡ s.accesses)
        × (length s.config.heap ≤ length s'.config.heap)
        × (s'.config.content ≡ s.config.content)
        × ((p : ℕ) → r ≡ ok (some p) → p < length s'.config.heap)

    place_access-Chooses :
        (s : Server TlsConfig) (r : Result (Option Access)) → Chooses s (place_access s r)
    unfolding place_access
    place_access-Chooses s (err e) = (refl, omega arith, refl, λ p h. cc)
    place_access-Chooses s (ok none) = (refl, omega arith, refl, λ p h. cc)
    place_access-Chooses s (ok (some a)) = (
      refl,
      omega (arith, length-append {0} s.config.heap (a ∷ [])),
      refl,
      λ p h. ground (arith, length-append {0} s.config.heap (a ∷ [])),
    )

    pub select_with-Chooses :
        (http : Http) (s : Server TlsConfig) (user pass : Text) (o : Option AccessesWebhook)
        → Chooses s (select_with env http s user pass o)
    unfolding select_with
    select_with-Chooses http s user pass (some w) = place_access-Chooses s _
    select_with-Chooses http s user pass none =
        let (same, content) = get_access-keeps s.config user pass in
        (
          refl,
          omega (arith, same),
          content,
          λ p h.
              subst (λ n. p < n) (sym same)
                (IsFirst-lt user pass s.config.heap s.config.content.accesses p
                  ((get_access_iff env s.config user pass p).0 (bind-some _ p h)).1),
        )

    pub give_session-fst :
        (s : Server TlsConfig) (client : ClientContext) (a : Access)
        (x : List (Text × Fs) × Result Fs)
        → (give_session s client a x).0 ≡ record s { accesses = x.0 }
    unfolding give_session
    give_session-fst s client a (cache, ok fs) = refl
    give_session-fst s client a (cache, err e) = refl

    pub open_at-keeps :
        (cloud : Cloud) (s s' : Server TlsConfig) (client client' : ClientContext)
        (o : Option Access) (r : Result Fs)
        → open_at cloud s client o ≡ done (s', client', r)
        → (s'.config ≡ s.config) × (IsGenuine s.accesses → IsGenuine s'.accesses)
    unfolding open_at
    open_at-keeps cloud s s' client client' none r h = cc
    open_at-keeps cloud s s' client client' (some a) r h =
        let e : give_session s client a (load_cached cloud a s.accesses) ≡ (s', client', r) = cc in
        let same : s' ≡ record s { accesses = (load_cached cloud a s.accesses).0 } =
          sym (ap (λ t. t.0) e) ∙ give_session-fst s client a (load_cached cloud a s.accesses) in
        (
          ap (λ t. t.config) same,
          λ g.
              subst IsGenuine (sym (ap (λ t. t.accesses) same))
                (load_cached-IsGenuine cloud a s.accesses g),
        )
