-- ===== src/Server/Auth/Interleaved.antt =====
-- Logins of server/server.go that overlap: any order of their halves and of reloads.
use mathlib.Core.Path.{subst}
use ftpserver.Base.{
  ℕ, ◌<◌, ◌≡◌, refl, sym, ap, Option, none, some, List, [], ◌∷◌, Text, length, get_elem?, All,
  All-map, Error, Result, ok, err, done,
}
use ftpserver.Config.{Env}
use ftpserver.Config.Loading.{load}
use ftpserver.Config.Loading.Reload.{IsWellFormed, load-IsWellFormed}
use ftpserver.Fs.{Fs, Cloud}
use ftpserver.Server.{Server, ClientContext}
use ftpserver.Server.Webhook.{Http}
use ftpserver.Server.Settings.{reload_config}
use ftpserver.Server.Auth.{load_cached, give_session, open_at, open_session, select_access}
use ftpserver.Server.Auth.Cache.{IsGenuine}
use ftpserver.Server.Auth.Pointers.{
  get_elem?-lt, grow, load-grows, Chooses, select_with-Chooses, open_at-keeps,
}

module _ {Disk Digest : Type 0} (env : Env Disk Digest) where
  module _ {TlsConfig : Type 0} where
    -- A step of the server while logins are under way, with the pointers that were chosen and may
    -- still be opened: a login chooses its access or is refused, a login loads its file system, or
    -- the configuration is reloaded. A webhook may answer with no access; the second half of that
    -- login is no step, since it panics and so ends the program.
    pub data Step (http : Http)
        : Server TlsConfig → List ℕ → Server TlsConfig → List ℕ → Type 0 where
      chosen :
          (s s' : Server TlsConfig) (pending : List ℕ) (p : ℕ) (user pass : Text)
          → select_access env http s user pass ≡ (s', ok (some p))
          → Step http s pending s' (p ∷ pending)
      chosen_nil :
          (s s' : Server TlsConfig) (pending : List ℕ) (user pass : Text)
          → select_access env http s user pass ≡ (s', ok none)
          → Step http s pending s' pending
      refused :
          (s s' : Server TlsConfig) (pending : List ℕ) (e : Error) (user pass : Text)
          → select_access env http s user pass ≡ (s', err e)
          → Step http s pending s' pending
      opened :
          (s s' : Server TlsConfig) (pending : List ℕ) (p : ℕ) (client client' : ClientContext)
          (r : Result Fs) (cloud : Cloud)
          → open_session cloud s client (some p) ≡ done (s', client', r)
          → Step http s pending s' pending
      reloaded :
          (s s' : Server TlsConfig) (pending : List ℕ) (d d' : Disk) (e : Option Error)
          → reload_config env s d ≡ (s', d', e)
          → Step http s pending s' pending

    pub data Steps (http : Http)
        : Server TlsConfig → List ℕ → Server TlsConfig → List ℕ → Type 0 where
      start : {s : Server TlsConfig} {pending : List ℕ} → Steps http s pending s pending
      next :
          {s s' s'' : Server TlsConfig} {pending pending' pending'' : List ℕ}
          → Step http s pending s' pending'
          → Steps http s' pending' s'' pending''
          → Steps http s pending s'' pending''

    -- The pointers are good and the cache is genuine.
    pub record IsSound (s : Server TlsConfig) (pointers : List ℕ) : Type 0 where
      pub config : IsWellFormed s.config
      pub pending : All (λ p. p < length s.config.heap) pointers
      pub cache : IsGenuine s.accesses

    Chooses-IsSound :
        (s s' : Server TlsConfig) (pending : List ℕ) (r : Result (Option ℕ))
        → Chooses env s (s', r)
        → IsSound s pending
        → IsSound s' pending
    Chooses-IsSound s s' pending r (cache, more, content, good) i = record {
      config =
          subst (λ ct. All (λ p. p < length s'.config.heap) ct.accesses) (sym content)
            (grow s.config.content.accesses more i.config);
      pending = grow pending more i.pending;
      cache = subst IsGenuine (sym cache) i.cache;
    }

    Step-IsSound :
        (http : Http) (s s' : Server TlsConfig) (pending pending' : List ℕ)
        → Step http s pending s' pending'
        → IsSound s pending
        → IsSound s' pending'
    unfolding select_access open_session reload_config
    Step-IsSound http s s' pending _ (chosen _ _ _ p user pass e) i =
        let c =
          subst (Chooses env s) e
            (select_with-Chooses env http s user pass s.config.content.accesses_webhook) in
        let kept = Chooses-IsSound s s' pending (ok (some p)) c i in
        record { config = kept.config; pending = (c.3 p refl, kept.pending); cache = kept.cache }
    Step-IsSound http s s' pending _ (chosen_nil _ _ _ user pass eq) i =
        Chooses-IsSound s s' pending (ok none)
          (subst (Chooses env s) eq
            (select_with-Chooses env http s user pass s.config.content.accesses_webhook))
          i
    Step-IsSound http s s' pending _ (refused _ _ _ e user pass eq) i =
        Chooses-IsSound s s' pending (err e)
          (subst (Chooses env s) eq
            (select_with-Chooses env http s user pass s.config.content.accesses_webhook))
          i
    Step-IsSound http s s' pending _ (opened _ _ _ p client client' r cloud e) i =
        let (config, cache) =
          open_at-keeps env cloud s s' client client' (get_elem? s.config.heap p) r e in
        record {
          config = subst IsWellFormed (sym config) i.config;
          pending = subst (λ c. All (λ q. q < length c.heap) pending) (sym config) i.pending;
          cache = cache i.cache;
        }
    Step-IsSound http s s' pending _ (reloaded _ _ _ d d' e eq) i =
        let same : s' ≡ record s { config = (load env s.config d).0 } = sym (ap (λ t. t.0) eq) in
        subst (λ t. IsSound t pending) (sym same)
          (record {
            config = load-IsWellFormed env s.config d i.config;
            pending = All-map _ _ (load-grows env s.config d) pending i.pending;
            cache = i.cache;
          })

    -- The pointers of the configuration and of the logins under way stay good.
    pub Steps-IsSound :
        (http : Http) (s s' : Server TlsConfig) (pending pending' : List ℕ)
        → Steps http s pending s' pending'
        → IsSound s pending
        → IsSound s' pending'
    Steps-IsSound http s s' pending _ start i = i
    Steps-IsSound http s s' pending pending'' (next step steps) i =
        Steps-IsSound http _ s' _ pending'' steps (Step-IsSound http s _ pending _ step i)

    -- From a sound server with no login under way, after any sequence of such steps, each login that
    -- is then under way can load its file system or gets the error: its second half never panics.
    pub Steps-open :
        (http : Http) (s s' : Server TlsConfig) (pending : List ℕ) (cloud : Cloud)
        (client : ClientContext)
        → Steps http s [] s' pending
        → IsSound s []
        → All
            (λ p.
              (t : Server TlsConfig × ClientContext × Result Fs) × (open_session cloud s' client
                  (some p)
                ≡ done t))
            pending
    unfolding open_session open_at
    Steps-open http s s' pending cloud client steps i =
        All-map _ _
          (λ p l.
            let (a, found) = get_elem?-lt s'.config.heap p l in
            (give_session s' client a (load_cached cloud a s'.accesses), rw found refl))
          pending (Steps-IsSound http s s' [] pending steps i).pending
