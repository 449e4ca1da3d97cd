-- ===== src/Server/Auth/Faults.antt =====
-- Logins of server/server.go in which the shared state of accesses and file systems matters.
use mathlib.Core.Path.{subst}
use ftpserver.Base.{
  inl, ℕ, ◌≡◌, refl, sym, ap, ◌∙◌, true, ◌||◌, none, some, List, ◌∷◌, Text, get_elem?, set,
  get_elem?-set-some, if◌then◌else◌, ok, ◌>>=◌, Run, done, panic,
}
use ftpserver.Confpar.{Access, Content, AccessesWebhook}
use ftpserver.Config.{Env, Config, get_access, is_keycloak}
use ftpserver.Config.Login.{IsFirst, after_login, get_access_iff, get_access-heap_ok}
use ftpserver.Fs.{Fs, logged_fs, Cloud}
use ftpserver.Server.{Server, ClientContext}
use ftpserver.Server.Webhook.{Http, get_access_from_webhook}
use ftpserver.Server.Auth.{
  load_cached, give_session, log_accesses, debug_session, open_at, open_session, select_with,
  place_access, select_access, resume_auth, auth_user,
}
use ftpserver.Server.Auth.Cache.{load_cached_again}
use ftpserver.Server.Auth.Sessions.{give_session-eq-ok}

abbrev pub credited : Access → Text → Text → Access
credited a user pass = record a { user = user; pass = pass }

done-injective : {A : Type 0} {a b : A} → ◌≡◌ {A = Run A} (done a) (done b) → a ≡ b
done-injective h = cc

-- `log_accesses` by the content of the configuration.
abbrev log_with : Content ℕ → Access → Fs → Fs
log_with ct a fs = if ct.logging.file_accesses || a.logging.file_accesses then logged_fs fs else fs

after_login-keycloak :
    {Disk Digest : Type 0} (env : Env Disk Digest) (user pass : Text) (heap : List Access) (p : ℕ)
    (a : Access)
    → is_keycloak a ≡ true
    → after_login env user pass heap p (some a) ≡ set heap p (credited a user pass)
after_login-keycloak env user pass heap p a kc = rw kc

module _ {Disk Digest : Type 0} (env : Env Disk Digest) where
  -- `GetAccess` where the first access of the configuration is a keycloak access.
  get_access-keycloak :
      (c : Config) (user pass : Text) {p : ℕ} {ps : List ℕ} {a : Access}
      → env.new_decoder_all ≡ none
      → c.content.accesses ≡ p ∷ ps
      → get_elem? c.heap p ≡ some a
      → is_keycloak a ≡ true
      → get_access env c user pass ≡ (record c { heap = set c.heap p (credited a user pass) }, ok p)
  get_access-keycloak c user pass {p} {ps} {a} ready listed found kc =
      let first : IsFirst env user pass c.heap c.content.accesses p =
        subst (λ l. IsFirst env user pass c.heap l p) (sym listed)
          (inl (refl, rw found (inl kc))) in
      let accepted = (get_access_iff env c user pass p).1 (ready, first) in
      let changed = get_access-heap_ok env c user pass p accepted in
      let e : (get_access env c user pass).0
          ≡ record c { heap = set c.heap p (credited a user pass) } =
        changed
        ∙ (ap (λ o. record c { heap = after_login env user pass c.heap p o }) found
            ∙ ap (λ h. record c { heap = h }) (after_login-keycloak env user pass c.heap p a kc)) in
      λ i. (e i, accepted i)

  module _ {TlsConfig : Type 0} (http : Http) where
    abbrev with_heap : Server TlsConfig → List Access → Server TlsConfig
    with_heap s heap = record s { config = record (s.config) { heap = heap } }

    select_access-keycloak :
        (s : Server TlsConfig) (user pass : Text) {p : ℕ} {ps : List ℕ} {a : Access}
        → s.config.content.accesses_webhook ≡ none
        → env.new_decoder_all ≡ none
        → s.config.content.accesses ≡ p ∷ ps
        → get_elem? s.config.heap p ≡ some a
        → is_keycloak a ≡ true
        → select_access env http s user pass
          ≡ (with_heap s (set s.config.heap p (credited a user pass)), ok (some p))
    unfolding select_access
    select_access-keycloak s user pass {p} {ps} {a} local ready listed found kc =
        ap (λ w. select_with env http s user pass w) local
        ∙ ap (λ r. (record s { config = r.0 }, r.1 >>= λ q. ok (some q)))
            (get_access-keycloak s.config user pass ready listed found kc)

    -- The login of a keycloak user, in one piece.
    auth_user-keycloak :
        (cloud : Cloud) (s : Server TlsConfig) (client : ClientContext) (user pass : Text) {p : ℕ}
        {ps : List ℕ} {a : Access}
        → s.config.content.accesses_webhook ≡ none
        → env.new_decoder_all ≡ none
        → s.config.content.accesses ≡ p ∷ ps
        → get_elem? s.config.heap p ≡ some a
        → is_keycloak a ≡ true
        → auth_user env http cloud s client user pass
          ≡ done (
              give_session
                (with_heap s (set s.config.heap p (credited a user pass)))
                client
                (credited a user pass)
                (load_cached cloud (credited a user pass) s.accesses))
    unfolding auth_user open_session
    auth_user-keycloak cloud s client user pass {p} {ps} {a} local ready listed found kc =
        ap (resume_auth cloud client)
          (select_access-keycloak s user pass local ready listed found kc)
        ∙ ap (open_at cloud (with_heap s (set s.config.heap p (credited a user pass))) client)
            (get_elem?-set-some s.config.heap p (credited a user pass) found)

    -- Where the first access is a shared keycloak access, a user who has logged in once can log in
    -- with any password afterwards, also one that keycloak refuses: the file system comes from the
    -- cache, and the password is checked only when a file system is loaded.
    pub keycloak_any_password :
        (cloud cloud' : Cloud) (s s' : Server TlsConfig) (client client' later : ClientContext)
        (user pass pass' : Text) {p : ℕ} {ps : List ℕ} {a : Access} {fs : Fs}
        → s.config.content.accesses_webhook ≡ none
        → env.new_decoder_all ≡ none
        → s.config.content.accesses ≡ p ∷ ps
        → get_elem? s.config.heap p ≡ some a
        → is_keycloak a ≡ true
        → a.shared ≡ true
        → auth_user env http cloud s client user pass ≡ done (s', client', ok fs)
        → (s'' : Server TlsConfig) × (later' : ClientContext) × (auth_user env http cloud' s' later
              user pass'
            ≡ done (s'', later', ok fs))
    unfolding give_session log_accesses is_keycloak
    keycloak_any_password cloud cloud' s s' client client' later user pass pass' {p} {ps} {a} {fs}
          local ready listed found kc shared h =
        let b = credited a user pass in
        let s1 = with_heap s (set s.config.heap p b) in
        let given : give_session s1 client b (load_cached cloud b s.accesses)
            ≡ (s', client', ok fs) =
          done-injective
            (sym (auth_user-keycloak cloud s client user pass local ready listed found kc) ∙ h) in
        let (g, loaded, same, debug, logged) = give_session-eq-ok s1 client b _ given in
        let content : s'.config.content ≡ s.config.content = ap (λ t. t.config.content) same in
        let again =
          auth_user-keycloak cloud' s' later user pass'
            (ap (λ ct. ct.accesses_webhook) content ∙ local) ready
            (ap (λ ct. ct.accesses) content ∙ listed)
            (ap (λ t. get_elem? t.config.heap p) same ∙ get_elem?-set-some s.config.heap p b found)
            kc in
        let b' = credited b user pass' in
        let s2 = with_heap s' (set s'.config.heap p b') in
        let hit : load_cached cloud' b' s'.accesses ≡ (s'.accesses, ok g) =
          load_cached_again cloud cloud' b b' s.accesses s'.accesses shared loaded refl in
        (
          record s2 { accesses = s'.accesses },
          debug_session s2 b' later,
          again
              ∙ (ap (λ r. done (give_session s2 later b' r)) hit
                  ∙ ap
                      (λ f.
                        done
                          (record s2 { accesses = s'.accesses }, debug_session s2 b' later, ok f))
                      (ap (λ ct. log_with ct b' g) content ∙ sym logged)),
        )

    -- Two logins at the same time, where the first access is a keycloak access: if the second one
    -- chooses its access before the first one has loaded its file system, the first client gets the
    -- session of the second one's name and password, for they share the access.
    pub keycloak_mix_up :
        (cloud : Cloud) (s : Server TlsConfig) (client : ClientContext)
        (user pass user' pass' : Text) {p : ℕ} {ps : List ℕ} {a : Access}
        → s.config.content.accesses_webhook ≡ none
        → env.new_decoder_all ≡ none
        → s.config.content.accesses ≡ p ∷ ps
        → get_elem? s.config.heap p ≡ some a
        → is_keycloak a ≡ true
        → let (s1, chosen) = select_access env http s user pass in
          let (s2, chosen') = select_access env http s1 user' pass' in
          (chosen ≡ ok (some p))
          × (chosen' ≡ ok (some p))
          × (open_session cloud s2 client (some p)
              ≡ done (
                  give_session s2 client
                    (credited a user' pass')
                    (load_cached cloud (credited a user' pass') s.accesses)))
    unfolding open_session is_keycloak
    keycloak_mix_up cloud s client user pass user' pass' {p} {ps} {a} local ready listed found kc =
        let h1 = set s.config.heap p (credited a user pass) in
        let b = credited a user' pass' in
        let found1 = get_elem?-set-some s.config.heap p (credited a user pass) found in
        let first = select_access-keycloak s user pass local ready listed found kc in
        let second =
          ap (λ r. select_access env http r.0 user' pass') first
          ∙ select_access-keycloak (with_heap s h1) user' pass' local ready listed found1 kc in
        (
          ap (λ r. r.1) first,
          ap (λ r. r.1) second,
          subst
              (λ r.
                open_session cloud r.0 client (some p)
                ≡ done (give_session r.0 client b (load_cached cloud b s.accesses)))
              (sym second)
              (ap (open_at cloud (with_heap s (set h1 p b)) client)
                (get_elem?-set-some h1 p b found1)),
        )

    -- A webhook that answers the text `null` makes `AuthUser` panic: there is no access, and its
    -- user is read all the same.
    pub auth_user_null_webhook :
        (cloud : Cloud) (s : Server TlsConfig) (client : ClientContext) (user pass : Text)
        {w : AccessesWebhook}
        → s.config.content.accesses_webhook ≡ some w
        → get_access_from_webhook http w user pass ≡ ok none
        → auth_user env http cloud s client user pass ≡ panic
    unfolding auth_user select_access open_session
    auth_user_null_webhook cloud s client user pass {w} remote null =
        ap (λ o. resume_auth cloud client (select_with env http s user pass o)) remote
        ∙ ap (λ r. resume_auth cloud client (place_access s r)) null
